-- ===== src/Transfer/Header.antt =====
-- The frame header of go-agent/utils/transfer.go: writing and reading it are inverse to each other.
use mycedrive_k8s.Base.{
  subst, ℕ, suc, ◌-◌, ◌≤◌, ◌<◌, some, [], ◌∷◌, ◌++◌, length, length-append, ℤ, pos, negsuc, ◌≡◌,
  refl, ◌∙◌, ap, arith,
}
use mycedrive_k8s.Transfer.{
  Bytes, frame_magic, frame_version, frame_header_size, frame_name_size, FrameHeader, Frame, ok,
  to_uint32, put_uint32, uint32, zeros, encode, write_frame_header, read_full, from, trim_right,
  decode, with_rest, read_frame_header,
}

uint32-put_uint32 : (n : ℕ) (rest : Bytes) → n < 4294967296 → uint32 (put_uint32 n ++ rest) ≡ n
unfolding uint32 put_uint32
uint32-put_uint32 n rest h = omega (arith, h)

pub put_uint32-uint32 :
    (a b c d : ℕ) (rest : Bytes)
    → a < 256
    → b < 256
    → c < 256
    → d < 256
    → put_uint32 (uint32 (a ∷ b ∷ c ∷ d ∷ rest)) ≡ a ∷ b ∷ c ∷ d ∷ []
unfolding uint32 put_uint32
put_uint32-uint32 a b c d rest ha hb hc hd = ground (arith, ha, hb, hc, hd)

to_uint32_lt : (n : ℤ) → to_uint32 n < 4294967296
unfolding to_uint32
to_uint32_lt (pos n) = omega arith
to_uint32_lt (negsuc n) = omega arith

length-zeros : (n : ℕ) → length (zeros n) ≡ n
unfolding zeros
length-zeros ℕ.zero = refl
length-zeros (suc n) = ap suc (length-zeros n)

trim_right-zeros : (n : ℕ) → trim_right (zeros n) ≡ []
unfolding trim_right zeros
trim_right-zeros ℕ.zero = refl
trim_right-zeros (suc n) = rw (trim_right-zeros n) refl

trim_right-pad : (name : Bytes) (n : ℕ) → trim_right (name ++ zeros n) ≡ trim_right name
unfolding trim_right
trim_right-pad [] n = trim_right-zeros n
trim_right-pad (b ∷ name) n = rw (trim_right-pad name n) refl

read_full-append : (buf rest : Bytes) → read_full (length buf) (buf ++ rest) ≡ some (buf, rest)
unfolding read_full
read_full-append [] rest = refl
read_full-append (b ∷ buf) rest = rw (read_full-append buf rest) refl

-- The header of these fields.
abbrev header_of : ℕ → ℕ → Bytes → Frame FrameHeader
header_of kind ordinal name = ok (record { kind = kind; ordinal = pos ordinal; name = name })

-- The fields of a buffer that starts with the magic number and the version.
decode_fields :
    (kind ordinal : ℕ) (name : Bytes)
    → decode (
        put_uint32 frame_magic
        ++ put_uint32 frame_version
        ++ put_uint32 kind
        ++ put_uint32 ordinal
        ++ name)
      ≡ header_of
          (uint32 (put_uint32 kind ++ []))
          (uint32 (put_uint32 ordinal ++ []))
          (trim_right name)
unfolding decode put_uint32 from uint32
decode_fields kind ordinal name = refl

decode-encode :
    (h : FrameHeader)
    → h.kind < 4294967296
    → decode (encode h) ≡ header_of h.kind (to_uint32 h.ordinal) (trim_right h.name)
unfolding encode
decode-encode h small =
    decode_fields h.kind (to_uint32 h.ordinal) (h.name ++ zeros (frame_name_size - length h.name))
    ∙ rw
        (
          uint32-put_uint32 h.kind [] small,
          uint32-put_uint32 (to_uint32 h.ordinal) [] (to_uint32_lt h.ordinal),
          trim_right-pad h.name (frame_name_size - length h.name),
        )
        refl

length-encode : (h : FrameHeader) → length h.name ≤ 32 → length (encode h) ≡ frame_header_size
unfolding encode put_uint32
length-encode h fits = omega (
  arith,
  length-append h.name (zeros (frame_name_size - length h.name)),
  length-zeros (frame_name_size - length h.name),
  fits,
)

-- A header whose name fits is written, and reading it back, whatever follows on the connection, gives
-- its kind, its ordinal as an unsigned 32-bit number and its name without the zero bytes at its end,
-- and leaves what follows.
pub read-write :
    (h : FrameHeader) (rest : Bytes)
    → h.kind < 4294967296
    → length h.name ≤ 32
    → (bytes : Bytes) × (write_frame_header h ≡ ok bytes)
      × (read_frame_header (bytes ++ rest)
          ≡ ok (
            record { kind = h.kind; ordinal = pos (to_uint32 h.ordinal); name = trim_right h.name },
            rest,
          ))
unfolding write_frame_header read_frame_header
read-write h rest small fits =
    let full : read_full frame_header_size (encode h ++ rest) ≡ some (encode h, rest) =
      subst (λ n. read_full n (encode h ++ rest) ≡ some (encode h, rest)) (length-encode h fits)
        (read_full-append (encode h) rest) in
    (encode h, ground (arith, fits), rw full (ap (with_rest rest) (decode-encode h small)))

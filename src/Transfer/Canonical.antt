-- ===== src/Transfer/Canonical.antt =====
-- The frame header of go-agent/utils/transfer.go: a header has one form on the connection only.
use mycedrive_k8s.Base.{
  ℕ, suc, ◌+◌, ◌-◌, ◌≤◌, ◌<◌, false, [], ◌∷◌, ◌++◌, ltb, eqb, length, pos, ◌≡◌, refl, sym, ◌∙◌, ap,
  subst, arith, All, Bool-cases, inl, inr,
}
use mycedrive_k8s.Transfer.Header.{put_uint32-uint32}
use mycedrive_k8s.Transfer.{
  Bytes, frame_magic, frame_version, FrameHeader, ok, to_uint32, put_uint32, uint32, zeros, encode,
  write_frame_header, from, or_trimmed, trim_right, decode,
}

abbrev pub IsByte : ℕ → Type 0
IsByte b = b < 256

-- A name field is a trimmed name and as many zeros as are left.
abbrev IsPadded : Bytes → Bytes → Type 0
IsPadded name field = (pad : ℕ) × (length name + pad ≡ length field) × (name ++ zeros pad ≡ field)

pad_one :
    (b : ℕ) (field trimmed : Bytes)
    → IsPadded trimmed field
    → IsPadded (or_trimmed b trimmed) (b ∷ field)
unfolding zeros
pad_one b field [] (pad, fits, same) = elim (Bool-cases (eqb b 0)) [
  | inl zero_byte ↦ rw zero_byte (
    suc pad,
    omega (arith, fits),
    ap (λ x. x ∷ zeros pad) (ground (arith, zero_byte)) ∙ ap (λ xs. b ∷ xs) same,
  )
  | inr other_byte ↦ rw other_byte (pad, omega (arith, fits), ap (λ xs. b ∷ xs) same)
]
pad_one b field (c ∷ rest) (pad, fits, same) = (pad, omega (arith, fits), ap (λ xs. b ∷ xs) same)

trim_right-IsPadded : (field : Bytes) → IsPadded (trim_right field) field
unfolding trim_right zeros
trim_right-IsPadded [] = (0, refl, refl)
trim_right-IsPadded (b ∷ field) = pad_one b field (trim_right field) (trim_right-IsPadded field)

-- The first four bytes are those of the number that they make.
uint32_bytes :
    (buf : Bytes)
    → 4 ≤ length buf
    → All IsByte buf
    → (put_uint32 (uint32 buf) ++ from 4 buf ≡ buf)
      × (length buf ≡ 4 + length (from 4 buf))
      × All IsByte (from 4 buf)
unfolding from
uint32_bytes [] h bytes = absurd (omega (arith, h))
uint32_bytes (a ∷ []) h bytes = absurd (omega (arith, h))
uint32_bytes (a ∷ b ∷ []) h bytes = absurd (omega (arith, h))
uint32_bytes (a ∷ b ∷ c ∷ []) h bytes = absurd (omega (arith, h))
uint32_bytes (a ∷ b ∷ c ∷ d ∷ rest) h (ha, (hb, (hc, (hd, hs)))) =
    (ap (λ xs. xs ++ rest) (put_uint32-uint32 a b c d rest ha hb hc hd), omega arith, hs)

to_uint32-uint32 :
    (buf : Bytes) → 4 ≤ length buf → All IsByte buf → to_uint32 (pos (uint32 buf)) ≡ uint32 buf
unfolding to_uint32 uint32
to_uint32-uint32 [] h bytes = omega (arith, h)
to_uint32-uint32 (a ∷ []) h bytes = omega (arith, h)
to_uint32-uint32 (a ∷ b ∷ []) h bytes = omega (arith, h)
to_uint32-uint32 (a ∷ b ∷ c ∷ []) h bytes = omega (arith, h)
to_uint32-uint32 (a ∷ b ∷ c ∷ d ∷ rest) h (ha, (hb, (hc, (hd, hs)))) = omega (arith, ha, hb, hc, hd)

-- What `decode` asks of a buffer, and what it makes of it.
decode-ok :
    (buf : Bytes) (h : FrameHeader)
    → decode buf ≡ ok h
    → (uint32 buf ≡ frame_magic)
      × (uint32 (from 4 buf) ≡ frame_version)
      × (h ≡ record {
        kind = uint32 (from 8 buf);
        ordinal = pos (uint32 (from 12 buf));
        name = trim_right (from 16 buf);
      })
unfolding decode
decode-ok buf h e = ground (arith, e)

from_nil : (n : ℕ) → from n [] ≡ []
unfolding from
from_nil ℕ.zero = refl
from_nil (suc n) = refl

from_four : (n : ℕ) (buf : Bytes) → from n (from 4 buf) ≡ from (suc (suc (suc (suc n)))) buf
unfolding from
from_four n [] = from_nil n
from_four n (a ∷ []) = from_nil n
from_four n (a ∷ b ∷ []) = from_nil n
from_four n (a ∷ b ∷ c ∷ []) = from_nil n
from_four n (a ∷ b ∷ c ∷ d ∷ rest) = refl

-- A number written before what follows it.
written :
    (n : ℕ) (buf rest : Bytes)
    → n ≡ uint32 buf
    → put_uint32 (uint32 buf) ++ from 4 buf ≡ buf
    → rest ≡ from 4 buf
    → put_uint32 n ++ rest ≡ buf
written n buf rest same whole follows = rw (same, follows) whole

-- A header buffer is the four numbers and the name field.
encode_fields :
    (buf : Bytes) (pad : ℕ)
    → length buf ≡ 48
    → All IsByte buf
    → trim_right (from 16 buf) ++ zeros pad ≡ from 16 buf
    → put_uint32 (uint32 buf)
        ++ (put_uint32 (uint32 (from 4 buf))
            ++ (put_uint32 (uint32 (from 8 buf))
                ++ (put_uint32 (to_uint32 (pos (uint32 (from 12 buf))))
                    ++ (trim_right (from 16 buf) ++ zeros pad))))
      ≡ buf
encode_fields buf pad size bytes padded =
    let (w0, l0, b1) = uint32_bytes buf (omega (arith, size)) bytes in
    let (w1, l1, b2) = uint32_bytes (from 4 buf) (omega (arith, size, l0)) b1 in
    let (w2, l2, b3) = uint32_bytes (from 4 (from 4 buf)) (omega (arith, size, l0, l1)) b2 in
    let (w3, l3, b4) =
      uint32_bytes (from 4 (from 4 (from 4 buf))) (omega (arith, size, l0, l1, l2)) b3 in
    let e8 : from 4 (from 4 buf) ≡ from 8 buf = from_four 4 buf in
    let e12 : from 4 (from 4 (from 4 buf)) ≡ from 12 buf =
      from_four 4 (from 4 buf) ∙ from_four 8 buf in
    let e16 : from 4 (from 4 (from 4 (from 4 buf))) ≡ from 16 buf =
      from_four 4 (from 4 (from 4 buf)) ∙ from_four 8 (from 4 buf) ∙ from_four 12 buf in
    let fits =
      to_uint32-uint32 (from 4 (from 4 (from 4 buf))) (omega (arith, size, l0, l1, l2)) b3 in
    written _ buf _ refl w0 (
      written _ (from 4 buf) _ refl w1 (
        written _ (from 4 (from 4 buf)) _ (ap uint32 (sym e8)) w2 (
          written _ (from 4 (from 4 (from 4 buf))) _
            (ap (λ b. to_uint32 (pos (uint32 b))) (sym e12) ∙ fits) w3 (padded ∙ sym e16))))

length-from : (n : ℕ) (buf : Bytes) → length (from n buf) ≡ length buf - n
unfolding from
length-from ℕ.zero buf = omega arith
length-from (suc n) [] = omega arith
length-from (suc n) (b ∷ buf) = omega (arith, length-from n buf)

-- Writing the header that a buffer was read as.
rewritten :
    (buf : Bytes) (pad : ℕ)
    → length buf ≡ 48
    → All IsByte buf
    → uint32 buf ≡ frame_magic
    → uint32 (from 4 buf) ≡ frame_version
    → length (trim_right (from 16 buf)) + pad ≡ length (from 16 buf)
    → trim_right (from 16 buf) ++ zeros pad ≡ from 16 buf
    → write_frame_header (record {
      kind = uint32 (from 8 buf);
      ordinal = pos (uint32 (from 12 buf));
      name = trim_right (from 16 buf);
    })
      ≡ ok buf
unfolding write_frame_header encode put_uint32
rewritten buf pad size bytes magic version left padded =
    let fits : length (trim_right (from 16 buf)) + pad ≡ 32 =
      omega (arith, left, length-from 16 buf, size) in
    let name_fits : ltb 32 (length (trim_right (from 16 buf))) ≡ false = ground (arith, fits) in
    let rest_is_pad : 32 - length (trim_right (from 16 buf)) ≡ pad = omega (arith, fits) in
    let whole = rw (magic, version) at (encode_fields buf pad size bytes padded) in
    rw (name_fits, rest_is_pad) (ap ok whole)

-- A full buffer that is read as a header is what writing that header gives: no two buffers are read
-- as the same header, and no header is read that cannot be written.
pub write-read :
    (buf : Bytes) (h : FrameHeader)
    → length buf ≡ 48
    → All IsByte buf
    → decode buf ≡ ok h
    → write_frame_header h ≡ ok buf
write-read buf h size bytes read =
    let (magic, version, fields) = decode-ok buf h read in
    let (pad, left, padded) = trim_right-IsPadded (from 16 buf) in
    subst (λ x. write_frame_header x ≡ ok buf) (sym fields)
      (rewritten buf pad size bytes magic version left padded)

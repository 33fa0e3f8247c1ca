-- ===== src/Transfer.antt =====
-- go-agent/utils/transfer.go: the protocol between the source's and the destination's Execution Agents.
-- A byte is a number below 256, and a Go string its list of bytes. A connection is what can still be
-- read from it.
pub mod Header
pub mod Canonical
pub mod Exchange
pub mod Extract
mod Tests
use mycedrive_k8s.Base.{
  ℕ, suc, ◌+◌, ◌-◌, ◌*◌, ◌/◌, ◌%◌, ◌^◌, Bool, true, false, not, Option, none, some, List, [], ◌∷◌,
  ◌++◌, ltb, eqb, length, ℤ, pos, negsuc, if◌then◌else◌,
}

abbrev pub Bytes : Type 0
Bytes = List ℕ

abbrev pub frame_magic : ℕ
frame_magic = 3735928559

abbrev pub frame_version : ℕ
frame_version = 1

abbrev pub frame_header_size : ℕ
frame_header_size = 48

abbrev pub frame_name_size : ℕ
frame_name_size = 32

-- KindLayer, KindCheckpointFile and KindDone; any other 32-bit number is a kind as well.
abbrev pub kind_layer : ℕ
kind_layer = 0

abbrev pub kind_checkpoint_file : ℕ
kind_checkpoint_file = 1

abbrev pub kind_done : ℕ
kind_done = 2

pub record FrameHeader : Type 0 where
  pub kind : ℕ
  pub ordinal : ℤ
  pub name : Bytes

-- What can go wrong with a header.
pub data FrameError : Type 0 where
  name_too_long short_read bad_magic bad_version : FrameError

pub data Frame {ℓ} (A : Type ℓ) : Type ℓ where
  ok : A → Frame A
  err : FrameError → Frame A

-- uint32(n) of an int
unfoldable pub to_uint32 : ℤ → ℕ
to_uint32 (pos n) = n % 2 ^ 32
to_uint32 (negsuc n) = 2 ^ 32 - 1 - n % 2 ^ 32

-- binary.BigEndian.PutUint32
unfoldable pub put_uint32 : ℕ → Bytes
put_uint32 n = (n / 16777216 % 256) ∷ (n / 65536 % 256) ∷ (n / 256 % 256) ∷ (n % 256) ∷ []

-- binary.BigEndian.Uint32
unfoldable pub uint32 : Bytes → ℕ
uint32 (a ∷ b ∷ c ∷ d ∷ rest) = ((a * 256 + b) * 256 + c) * 256 + d
uint32 _ = 0

-- The rest of a buffer that was made of zeros.
unfoldable pub zeros : ℕ → Bytes
zeros ℕ.zero = []
zeros (suc n) = 0 ∷ zeros n

-- The fields of a header, in order, with the name copied into a zeroed field.
unfoldable pub encode : FrameHeader → Bytes
unfolding put_uint32 zeros to_uint32
encode h =
    put_uint32 frame_magic
    ++ put_uint32 frame_version
    ++ put_uint32 h.kind
    ++ put_uint32 (to_uint32 h.ordinal)
    ++ h.name
    ++ zeros (frame_name_size - length h.name)

-- WriteFrameHeader: what it writes.
unfoldable pub write_frame_header : FrameHeader → Frame Bytes
unfolding encode
write_frame_header h =
    if ltb frame_name_size (length h.name) then err name_too_long else ok (encode h)

abbrev pub before : ℕ → Option (Bytes × Bytes) → Option (Bytes × Bytes)
before b none = none
before b (some (read, rest)) = some (b ∷ read, rest)

-- io.ReadFull into a buffer of n bytes: the bytes, and what is left to read.
unfoldable pub read_full : ℕ → Bytes → Option (Bytes × Bytes)
read_full ℕ.zero input = some ([], input)
read_full (suc n) [] = none
read_full (suc n) (b ∷ input) = before b (read_full n input)

-- buf[n:]
unfoldable pub from : ℕ → Bytes → Bytes
from ℕ.zero buf = buf
from (suc n) [] = []
from (suc n) (b ∷ buf) = from n buf

abbrev pub or_trimmed : ℕ → Bytes → Bytes
or_trimmed b [] = if eqb b 0 then [] else b ∷ []
or_trimmed b (c ∷ rest) = b ∷ c ∷ rest

-- strings.TrimRight of the byte 0
unfoldable pub trim_right : Bytes → Bytes
trim_right [] = []
trim_right (b ∷ rest) = or_trimmed b (trim_right rest)

-- A full header buffer.
unfoldable pub decode : Bytes → Frame FrameHeader
unfolding uint32 from trim_right
decode buf =
    if eqb (uint32 buf) frame_magic
    then (if eqb (uint32 (from 4 buf)) frame_version
        then (ok (record {
          kind = uint32 (from 8 buf);
          ordinal = pos (uint32 (from 12 buf));
          name = trim_right (from 16 buf);
        }))
        else err bad_version)
    else err bad_magic

abbrev with_rest : Bytes → Frame FrameHeader → Frame (FrameHeader × Bytes)
with_rest rest (ok h) = ok (h, rest)
with_rest rest (err e) = err e

abbrev decode_read : Option (Bytes × Bytes) → Frame (FrameHeader × Bytes)
decode_read none = err short_read
decode_read (some (buf, rest)) = with_rest rest (decode buf)

-- ReadFrameHeader: the header, and what is left to read of the connection.
unfoldable pub read_frame_header : Bytes → Frame (FrameHeader × Bytes)
unfolding read_full
read_frame_header input = decode_read (read_full frame_header_size input)

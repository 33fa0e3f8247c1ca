-- ===== src/Transfer/Exchange.antt =====
-- go-agent/utils/transfer.go: frames on connections, one frame for each. What gzip and tar make of a
-- directory or a file is a payload of bytes, a parameter; what the receiver does with a payload is
-- another, a function on a state `D` of its own.
pub mod Delivery
pub mod Session
pub mod Kept
use mycedrive_k8s.Base.{
  ℕ, Bool, true, false, ◌&&◌, Option, none, some, List, [], ◌∷◌, ◌++◌, ℤ, pos, eqb, if◌then◌else◌,
}
use mycedrive_k8s.Transfer.{
  Bytes, FrameHeader, Frame, ok, err, kind_layer, kind_checkpoint_file, kind_done,
  write_frame_header, read_frame_header,
}

abbrev pub ack_byte : ℕ
ack_byte = 6

-- readAck: the first byte of the reply must be the acknowledgement.
unfoldable pub read_ack : Bytes → Bool
read_ack [] = false
read_ack (b ∷ rest) = eqb b ack_byte

-- A connection from the sender's end: what it has written, and whether it then read the
-- acknowledgement in the reply.
pub record Sent : Type 0 where
  pub written : Bytes
  pub succeeded : Bool

abbrev pub sent_after : Frame Bytes → Option Bytes → Bytes → Sent
sent_after (err e) payload reply = record { written = []; succeeded = false }
sent_after (ok header) none reply = record { written = header; succeeded = false }
sent_after (ok header) (some payload) reply = record {
  written = header ++ payload;
  succeeded = read_ack reply;
}

-- SendDirFrame; a payload of `none` is a directory that cannot be read.
unfoldable pub send_dir_frame : ℤ → Bytes → Option Bytes → Bytes → Sent
unfolding read_ack
send_dir_frame ordinal name payload reply =
    sent_after (write_frame_header (record { kind = kind_layer; ordinal = ordinal; name = name }))
      payload reply

-- SendFileFrame of a file that can be found, by its base name
unfoldable pub send_file_frame : Bytes → Option Bytes → Bytes → Sent
unfolding read_ack
send_file_frame name payload reply =
    sent_after
      (write_frame_header (record { kind = kind_checkpoint_file; ordinal = pos 0; name = name }))
      payload reply

-- SendDoneFrame
unfoldable pub send_done_frame : Bytes → Sent
unfolding read_ack
send_done_frame reply =
    sent_after (write_frame_header (record { kind = kind_done; ordinal = pos 0; name = [] }))
      (some []) reply

-- What a connection came to at the receiver's end.
pub data Received : Type 0 where
  frame : FrameHeader → Received
  no_header not_handled not_acked : Received

-- A connection as the receiver accepts it: what is to be read, and whether the acknowledgement can be
-- written.
pub record Connection : Type 0 where
  pub input : Bytes
  pub can_ack : Bool

abbrev pub acknowledge : FrameHeader → Bool → Received
acknowledge h true = frame h
acknowledge h false = not_acked

-- FrameHandler: whether it reports no error, and the state after it.
abbrev pub FrameHandler {ℓ} : Type ℓ → Type ℓ
FrameHandler D = FrameHeader → Bytes → D → Bool × D

-- What ReceiveAll gives: the headers so far, with an error or without.
pub data Outcome : Type 0 where
  complete failed : List FrameHeader → Outcome

module _ {ℓ} {D : Type ℓ} where
  abbrev pub after_handle : FrameHeader → Bool → Bool × D → Received × D
  after_handle h can_ack (true, d) = (acknowledge h can_ack, d)
  after_handle h can_ack (false, d) = (not_handled, d)

  abbrev pub on_header : FrameHandler D → Bool → Frame (FrameHeader × Bytes) → D → Received × D
  on_header handle can_ack (err e) d = (no_header, d)
  on_header handle can_ack (ok (h, payload)) d =
      if eqb h.kind kind_done
      then (acknowledge h can_ack, d)
      else after_handle h can_ack (handle h payload d)

  -- ReceiveFrame
  unfoldable pub receive_frame : FrameHandler D → Connection → D → Received × D
  receive_frame handle c d = on_header handle c.can_ack (read_frame_header c.input) d

  abbrev pub after_frame :
      (List FrameHeader → D → Outcome × D) → List FrameHeader → Received × D → Outcome × D
  after_frame next headers (frame h, d) =
      if eqb h.kind kind_done then (complete headers, d) else next (headers ++ h ∷ []) d
  after_frame next headers (_, d) = (failed headers, d)

  -- The connections are those that the listener accepts up to its deadline; after them, accepting
  -- fails.
  unfoldable pub receive_from :
      FrameHandler D → List Connection → List FrameHeader → D → Outcome × D
  unfolding receive_frame
  receive_from handle [] headers d = (failed headers, d)
  receive_from handle (c ∷ cs) headers d =
      after_frame (receive_from handle cs) headers (receive_frame handle c d)

  unfoldable pub receive_all : FrameHandler D → List Connection → D → Outcome × D
  unfolding receive_from
  receive_all handle cs d = receive_from handle cs [] d

-- ===== src/Transfer/Exchange/Kept.antt =====
-- go-agent/utils/transfer.go: what ReceiveAll leaves, by what its handler leaves.
use mycedrive_k8s.Base.{Bool, true, false, List, [], ◌∷◌, eqb, Bool-cases, inl, inr}
use mycedrive_k8s.Transfer.{Bytes, FrameHeader, Frame, kind_done, read_frame_header, ok, err}
use mycedrive_k8s.Transfer.Exchange.{
  Connection, FrameHandler, Outcome, receive_frame, receive_from, receive_all, after_handle,
  after_frame, on_header, Received, frame, no_header, not_handled, not_acked,
}

-- A condition that a frame handler leaves, whatever it reports.
module _ {ℓ} {D : Type ℓ} (handle : FrameHandler D) (P : D → Type 0)
    (keeps : (h : FrameHeader) (payload : Bytes) (d : D) → P d → P (handle h payload d).1) where
  after_handle_keeps :
      (h : FrameHeader) (can_ack : Bool) (result : Bool × D)
      → P result.1
      → P (after_handle h can_ack result).1
  after_handle_keeps h can_ack (true, d) p = p
  after_handle_keeps h can_ack (false, d) p = p

  on_header_keeps :
      (can_ack : Bool) (header : Frame (FrameHeader × Bytes)) (d : D)
      → P d
      → P (on_header handle can_ack header d).1
  on_header_keeps can_ack (err e) d p = p
  on_header_keeps can_ack (ok (h, payload)) d p = elim (Bool-cases (eqb h.kind kind_done)) [
    | inl done ↦ rw done p
    | inr more ↦ rw more (after_handle_keeps h can_ack (handle h payload d) (keeps h payload d p))
  ]

  after_frame_keeps :
      (next : List FrameHeader → D → Outcome × D) (headers : List FrameHeader) (got : Received × D)
      → ((hs : List FrameHeader) (d : D) → P d → P (next hs d).1)
      → P got.1
      → P (after_frame next headers got).1
  after_frame_keeps next headers (frame h, d) later p = elim (Bool-cases (eqb h.kind kind_done)) [
    | inl done ↦ rw done p
    | inr more ↦ rw more (later _ d p)
  ]
  after_frame_keeps next headers (no_header, d) later p = p
  after_frame_keeps next headers (not_handled, d) later p = p
  after_frame_keeps next headers (not_acked, d) later p = p

  receive_from_keeps :
      (cs : List Connection) (headers : List FrameHeader) (d : D)
      → P d
      → P (receive_from handle cs headers d).1
  unfolding receive_from receive_frame
  receive_from_keeps [] headers d p = p
  receive_from_keeps (c ∷ cs) headers d p =
      after_frame_keeps (receive_from handle cs) headers (receive_frame handle c d)
        (receive_from_keeps cs) (on_header_keeps c.can_ack (read_frame_header c.input) d p)

  -- ReceiveAll leaves what its handler leaves.
  pub receive_all_keeps : (cs : List Connection) (d : D) → P d → P (receive_all handle cs d).1
  unfolding receive_all
  receive_all_keeps cs d p = receive_from_keeps cs [] d p

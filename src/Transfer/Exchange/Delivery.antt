-- ===== src/Transfer/Exchange/Delivery.antt =====
-- go-agent/utils/transfer.go: one connection, seen from both ends. The acknowledgement is what tells the
-- sender.
use mycedrive_k8s.Base.{
  Bool, true, false, some, [], ◌∷◌, ◌≡◌, refl, ◌∙◌, ℤ, pos, eqb, length, ◌<◌, ltb, if◌then◌else◌,
  arith, Bool-cases, inl, inr,
}
use mycedrive_k8s.Transfer.{
  encode, Bytes, FrameHeader, Frame, ok, err, name_too_long, kind_done, kind_layer,
  kind_checkpoint_file, write_frame_header,
}
use mycedrive_k8s.Transfer.Exchange.{
  sent_after, send_dir_frame, send_file_frame, read_ack, ack_byte, Received, frame, FrameHandler,
  receive_frame, sent_after, after_handle,
}
use mycedrive_k8s.Transfer.Exchange.Session.{Item, normalised, wire, read-wire}

-- What the receiver writes back.
abbrev pub reply_of : Received → Bytes
reply_of (frame h) = ack_byte ∷ []
reply_of _ = []

abbrev pub is_handled {ℓ} : {D : Type ℓ} → Bool × D → Bool
is_handled (worked, d) = worked

write-long :
    (h : FrameHeader) → ltb 32 (length h.name) ≡ true → write_frame_header h ≡ err name_too_long
unfolding write_frame_header
write-long h long = rw long refl

write-fits :
    (h : FrameHeader) → ltb 32 (length h.name) ≡ false → write_frame_header h ≡ ok (encode h)
unfolding write_frame_header
write-fits h fits = rw fits refl

sent_none :
    (w : Frame Bytes) (payload reply : Bytes)
    → w ≡ err name_too_long
    → (sent_after w (some payload) reply).succeeded ≡ false
sent_none w payload reply e = rw e refl

sent_some :
    (w : Frame Bytes) (header payload reply : Bytes)
    → w ≡ ok header
    → (sent_after w (some payload) reply).succeeded ≡ read_ack reply
sent_some w header payload reply e = rw e refl

module _ {ℓ} {D : Type ℓ} (handle : FrameHandler D) (d : D) where
  reply_handled :
      (h : FrameHeader) (can_ack : Bool) (result : Bool × D)
      → read_ack (reply_of (after_handle h can_ack result).0)
        ≡ (if can_ack then result.0 else false)
  unfolding read_ack
  reply_handled h true (true, d') = refl
  reply_handled h false (true, d') = refl
  reply_handled h true (false, d') = refl
  reply_handled h false (false, d') = refl

  -- What comes back over a connection that carries a frame.
  abbrev pub reply : FrameHeader → Bytes → Bool → Bytes
  reply h payload can_ack =
      reply_of
        (receive_frame handle
          (record { input = wire (record { header = h; payload = payload }); can_ack = can_ack })
          d).0

  send_receive :
      (item : Item) (can_ack : Bool)
      → item.header.kind < 4294967296
      → eqb item.header.kind kind_done ≡ false
      → let received = receive_frame handle (record { input = wire item; can_ack = can_ack }) d in
        (sent_after
          (write_frame_header item.header)
          (some item.payload)
          (reply_of received.0)).succeeded
        ≡ (if ltb 32 (length item.header.name)
            then false
            else if can_ack
            then is_handled (handle (normalised item.header) item.payload d)
            else false)
  unfolding receive_frame
  send_receive item can_ack small not_done = elim (Bool-cases (ltb 32 (length item.header.name))) [
    | inl long ↦
        rw long
          (sent_none (write_frame_header item.header) item.payload _ (write-long item.header long))
    | inr fits ↦
        let n = normalised item.header in
        let result = handle n item.payload d in
        rw fits (
          sent_some (write_frame_header item.header) (encode item.header) item.payload _
            (write-fits item.header fits)
          ∙ rw (read-wire item small (ground (arith, fits)), not_done)
              (reply_handled n can_ack result))
  ]

  -- SendDirFrame and SendFileFrame report no error exactly if the name fits into the header, the
  -- receiver's handler took the bytes under the header that was sent, and the acknowledgement came
  -- through.
  pub send-receive :
      (ordinal : ℤ) (name payload : Bytes) (can_ack : Bool)
      → let layer : FrameHeader = record { kind = kind_layer; ordinal = ordinal; name = name } in
        let file : FrameHeader = record {
          kind = kind_checkpoint_file;
          ordinal = pos 0;
          name = name;
        } in
        ((send_dir_frame ordinal name (some payload) (reply layer payload can_ack)).succeeded ≡ (
          if ltb 32 (length name)
          then false
          else if can_ack
          then is_handled (handle (normalised layer) payload d)
          else false))
        × ((send_file_frame name (some payload) (reply file payload can_ack)).succeeded ≡ (
            if ltb 32 (length name)
            then false
            else if can_ack
            then is_handled (handle (normalised file) payload d)
            else false))
  unfolding send_dir_frame send_file_frame
  send-receive ordinal name payload can_ack = (
    send_receive
        (record {
          header = record { kind = kind_layer; ordinal = ordinal; name = name };
          payload = payload;
        })
        can_ack (omega arith) refl,
    send_receive
        (record {
          header = record { kind = kind_checkpoint_file; ordinal = pos 0; name = name };
          payload = payload;
        })
        can_ack (omega arith) refl,
  )

-- ===== src/Transfer/Exchange/Session.antt =====
-- go-agent/utils/transfer.go, both ends together: what the receiver does with the frames of a sender.
use mycedrive_k8s.Base.{
  Bool, true, false, some, List, [], ◌∷◌, ◌++◌, map, ◌≡◌, refl, ◌∙◌, pos, eqb, length, ◌≤◌, ◌<◌,
  All,
}
use mycedrive_k8s.Transfer.{
  Bytes, FrameHeader, ok, kind_done, to_uint32, trim_right, write_frame_header, read_frame_header,
  decode,
}
use mycedrive_k8s.Transfer.Header.{read-write}
use mycedrive_k8s.Transfer.Exchange.{
  sent_after, send_done_frame, Connection, FrameHandler, receive_frame, after_handle, Outcome,
  complete, failed, after_frame, receive_from, receive_all,
}

-- A frame that is to be sent.
pub record Item : Type 0 where
  pub header : FrameHeader
  pub payload : Bytes

-- The header as the receiver sees it.
abbrev pub normalised : FrameHeader → FrameHeader
normalised h = record {
  kind = h.kind;
  ordinal = pos (to_uint32 h.ordinal);
  name = trim_right h.name;
}

pub record IsSendable (item : Item) : Type 0 where
  pub kind_fits : item.header.kind < 4294967296
  pub not_done : eqb item.header.kind kind_done ≡ false
  pub name_fits : length item.header.name ≤ 32

-- What the sender writes for a frame.
abbrev pub wire : Item → Bytes
wire item = (sent_after (write_frame_header item.header) (some item.payload) []).written

abbrev pub connection_of : Item → Connection
connection_of item = record { input = wire item; can_ack = true }

abbrev pub done_connection : Connection
done_connection = record { input = (send_done_frame []).written; can_ack = true }

pub read-wire :
    (item : Item)
    → item.header.kind < 4294967296
    → length item.header.name ≤ 32
    → read_frame_header (wire item) ≡ ok (normalised item.header, item.payload)
read-wire item small fits =
    let (bytes, written, read) = read-write item.header item.payload small fits in
    rw (written, wire) read

read-done :
    read_frame_header (send_done_frame []).written
    ≡ ok (record { kind = kind_done; ordinal = pos 0; name = [] }, [])
unfolding send_done_frame read_frame_header write_frame_header decode
read-done = refl

module _ {ℓ} {D : Type ℓ} (handle : FrameHandler D) where
  abbrev pub after_item :
      (List FrameHeader → D → Outcome × D) → List FrameHeader → FrameHeader → Bool × D → Outcome × D
  after_item next headers h (true, d) = next (headers ++ h ∷ []) d
  after_item next headers h (false, d) = (failed headers, d)

  -- The frames handled one after another, up to the first that the handler refuses: no bytes, no
  -- connections and no acknowledgements.
  unfoldable pub replay : List Item → List FrameHeader → D → Outcome × D
  replay [] headers d = (complete headers, d)
  replay (item ∷ items) headers d =
      after_item (replay items) headers (normalised item.header)
        (handle (normalised item.header) item.payload d)

  handled :
      (next : List FrameHeader → D → Outcome × D) (headers : List FrameHeader) (h : FrameHeader)
      (result : Bool × D)
      → eqb h.kind kind_done ≡ false
      → after_frame next headers (after_handle h true result) ≡ after_item next headers h result
  handled next headers h (true, d) e = rw e refl
  handled next headers h (false, d) e = refl

  item_next :
      (next next' : List FrameHeader → D → Outcome × D) (headers : List FrameHeader)
      (h : FrameHeader) (result : Bool × D)
      → ((hs : List FrameHeader) (d : D) → next hs d ≡ next' hs d)
      → after_item next headers h result ≡ after_item next' headers h result
  item_next next next' headers h (true, d) same = same (headers ++ h ∷ []) d
  item_next next next' headers h (false, d) same = refl

  receive_item :
      (item : Item) (next : List FrameHeader → D → Outcome × D) (headers : List FrameHeader) (d : D)
      → IsSendable item
      → after_frame next headers (receive_frame handle (connection_of item) d)
        ≡ after_item next headers
            (normalised item.header)
            (handle (normalised item.header) item.payload d)
  unfolding receive_frame
  receive_item item next headers d s =
      rw (read-wire item s.kind_fits s.name_fits, s.not_done)
        (handled next headers (normalised item.header)
          (handle (normalised item.header) item.payload d) s.not_done)

  receive_from-replay :
      (items : List Item) (rest : List Connection) (headers : List FrameHeader) (d : D)
      → All IsSendable items
      → receive_from handle (map connection_of items ++ done_connection ∷ rest) headers d
        ≡ replay items headers d
  unfolding receive_from receive_frame replay
  receive_from-replay [] rest headers d sendable = rw read-done refl
  receive_from-replay (item ∷ items) rest headers d (s, ss) =
      let next = receive_from handle (map connection_of items ++ done_connection ∷ rest) in
      receive_item item next headers d s
      ∙ item_next next (replay items) headers (normalised item.header)
          (handle (normalised item.header) item.payload d)
          (λ hs d'. receive_from-replay items rest hs d' ss)

  -- A sender's frames, each on a connection of its own and the DONE frame last, are received as if the
  -- handler were called on them one after another: every byte of a payload, in order, with the header
  -- that was sent, up to the first frame that it refuses.
  pub receive_all-replay :
      (items : List Item) (rest : List Connection) (d : D)
      → All IsSendable items
      → receive_all handle (map connection_of items ++ done_connection ∷ rest) d ≡ replay items [] d
  unfolding receive_all
  receive_all-replay items rest d = receive_from-replay items rest [] d

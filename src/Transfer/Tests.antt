-- ===== src/Transfer/Tests.antt =====
-- The frame header on concrete bytes, and the theorem at them.
use mycedrive_k8s.Base.{
  some, List, map, if◌then◌else◌, ltb, All, true, false, Bool, [], ◌∷◌, ◌++◌, ◌≡◌, refl, pos, arith,
}
use mycedrive_k8s.Transfer.{
  from, uint32, decode, Bytes, FrameHeader, ok, err, short_read, to_uint32, trim_right,
  write_frame_header, read_frame_header,
}
use mycedrive_k8s.Transfer.Header.{read-write}
use mycedrive_k8s.Transfer.Exchange.{FrameHandler, receive_all, send_dir_frame, send_file_frame}
use mycedrive_k8s.Transfer.Exchange.Session.{
  Item, connection_of, done_connection, replay, receive_all-replay,
}
use mycedrive_k8s.Transfer.Exchange.Delivery.{reply, send-receive}
use mycedrive_k8s.Transfer.Canonical.{IsByte, write-read}

-- The layer u3.
abbrev layer_three : FrameHeader
layer_three = record { kind = 0; ordinal = pos 3; name = 117 ∷ 51 ∷ [] }

too_short : read_frame_header (222 ∷ 173 ∷ []) ≡ err short_read
unfolding read_frame_header
too_short = refl

read-write_example :
    (bytes : Bytes) × (write_frame_header layer_three ≡ ok bytes)
    × (read_frame_header (bytes ++ 31 ∷ 139 ∷ [])
        ≡ ok (
          record { kind = 0; ordinal = pos (to_uint32 (pos 3)); name = trim_right (117 ∷ 51 ∷ []) },
          31 ∷ 139 ∷ [],
        ))
read-write_example = read-write layer_three (31 ∷ 139 ∷ []) (omega arith) (omega arith)

-- The same layer on the connection.
abbrev on_the_wire : Bytes
on_the_wire =
    222 ∷ 173 ∷ 190 ∷ 239 ∷ 0 ∷ 0 ∷ 0 ∷ 1 ∷ 0 ∷ 0 ∷ 0 ∷ 0 ∷ 0 ∷ 0 ∷ 0 ∷ 3 ∷ 117 ∷ 51 ∷ 0 ∷ 0 ∷ 0 ∷ 0
    ∷ 0 ∷ 0 ∷ 0 ∷ 0 ∷ 0 ∷ 0 ∷ 0 ∷ 0 ∷ 0 ∷ 0 ∷ 0 ∷ 0 ∷ 0 ∷ 0 ∷ 0 ∷ 0 ∷ 0 ∷ 0 ∷ 0 ∷ 0 ∷ 0 ∷ 0 ∷ 0 ∷ 0
    ∷ 0 ∷ 0 ∷ []

-- The test that a list has bytes only.
unfoldable are_bytes : Bytes → Bool
are_bytes [] = true
are_bytes (b ∷ bytes) = let rest = are_bytes bytes in if ltb b 256 then rest else false

are_bytes-IsByte : (bytes : Bytes) → are_bytes bytes ≡ true → All IsByte bytes
unfolding are_bytes
are_bytes-IsByte [] e = tt
are_bytes-IsByte (b ∷ bytes) e = (ground (arith, e), are_bytes-IsByte bytes (ground (arith, e)))

write-read_example : write_frame_header layer_three ≡ ok on_the_wire
write-read_example =
    write-read on_the_wire layer_three refl
      (are_bytes-IsByte on_the_wire (unfold are_bytes in refl))
      (unfold decode uint32 from trim_right in refl)

-- A receiver that keeps the payloads, and refuses an empty one.
abbrev keep : FrameHandler (List Bytes)
keep h [] d = (false, d)
keep h (b ∷ bytes) d = (true, (b ∷ bytes) ∷ d)

abbrev items : List Item
items =
    record { header = layer_three; payload = 31 ∷ 139 ∷ [] }
    ∷ record { header = layer_three; payload = 8 ∷ [] }
    ∷ []

receive_all-replay_example :
    receive_all keep (map connection_of items ++ done_connection ∷ []) [] ≡ replay keep items [] []
receive_all-replay_example = receive_all-replay keep items [] [] (
  record { kind_fits = omega arith; not_done = refl; name_fits = omega arith },
  (record { kind_fits = omega arith; not_done = refl; name_fits = omega arith }, tt),
)

send-receive_example :
    ((send_dir_frame
        (pos 3)
        (117 ∷ 51 ∷ [])
        (some (31 ∷ []))
        (reply keep [] layer_three (31 ∷ []) true)).succeeded
      ≡ true)
    × ((send_file_frame (117 ∷ 51 ∷ []) (some (31 ∷ [])) (
          reply keep []
            (record { kind = 1; ordinal = pos 0; name = 117 ∷ 51 ∷ [] })
            (31 ∷ [])
            true)).succeeded
        ≡ true)
send-receive_example = send-receive keep [] (pos 3) (117 ∷ 51 ∷ []) (31 ∷ []) true

-- ===== src/Frames/Tests.antt =====
-- The theorems of the frames at concrete sockets.
use tessaridb_sdk_python.Prelude.{◌≡◌, refl, [], ◌∷◌, true, some}
use tessaridb_sdk_python.Result.{ok, via}
use tessaridb_sdk_python.Frames.Socket.{Socket, hung_up, receive, sendall}
use tessaridb_sdk_python.Frames.Framing.{frame, send, read, answer, from_node}
use tessaridb_sdk_python.Frames.Flat.{view, join, receive_flat, receive-view}
use tessaridb_sdk_python.Frames.Exchange.{read-send}
use tessaridb_sdk_python.Bytes.Endian.{to_bytes}

abbrev fresh : Socket
fresh = record { pieces = []; ending = hung_up; sent = []; writable = true }

abbrev after_send : Socket
after_send = record fresh { sent = 2 ∷ 0 ∷ 0 ∷ 0 ∷ 2 ∷ 7 ∷ 8 ∷ [] }

-- The frame in two pieces, with a byte of the next one behind it.
abbrev peer : Socket
peer = record fresh { pieces = (2, 0 ∷ 0 ∷ []) ∷ (0, 2 ∷ 7 ∷ 8 ∷ 5 ∷ []) ∷ [] }

-- A greeting of minor 9 in three pieces, and a byte behind it.
abbrev node : Socket
node = record fresh { pieces = (84, 69 ∷ []) ∷ (83, 83 ∷ 1 ∷ []) ∷ (9, 2 ∷ []) ∷ [] }

sent_frame : send answer (7 ∷ 8 ∷ []) fresh ≡ ok after_send
unfolding send sendall frame to_bytes
sent_frame = refl

receive-view_example : via view (receive 5 peer) ≡ receive_flat 5 (view peer)
receive-view_example = receive-view 5 peer

read-send_example :
    via view (read peer) ≡ ok (some (answer, 7 ∷ 8 ∷ []), record (view peer) { bytes = 5 ∷ [] })
unfolding from_node join
read-send_example =
    read-send answer (7 ∷ 8 ∷ []) (5 ∷ []) fresh after_send peer refl refl sent_frame refl

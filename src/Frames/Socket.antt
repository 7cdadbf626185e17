-- ===== src/Frames/Socket.antt =====
-- A socket as the client sees it: the pieces that `recv` will deliver, none of them empty, how the
-- stream ends after them, and what `sendall` has written. Also `_receive`.
use tessaridb_sdk_python.Prelude.{
  ℕ, zero, suc, ◌-◌, Bool, true, false, List, [], ◌∷◌, ◌++◌, ltb, length, take, drop, if◌then◌else◌,
}
use tessaridb_sdk_python.Result.{Bytes, Result, ok, err, bind, io, truncated, out_of_fuel}

-- The peer closed its side, or the next `recv` raises OSError.
pub data Ending : Type 0 where
  hung_up broken : Ending

-- A piece is its first byte and the others; `writable` is whether `sendall` succeeds.
pub record Socket : Type 0 where
  pub pieces : List (ℕ × Bytes)
  pub ending : Ending
  pub sent : Bytes
  pub writable : Bool

abbrev pub put_back : Bytes → List (ℕ × Bytes) → List (ℕ × Bytes)
put_back [] pieces = pieces
put_back (b ∷ bs) pieces = (b, bs) ∷ pieces

unfoldable pub recv_pieces : List (ℕ × Bytes) → ℕ → Socket → Result (Bytes × Socket)
recv_pieces [] width s = elim s.ending [ hung_up ↦ ok ([], s) | broken ↦ err io ]
recv_pieces ((b, bs) ∷ pieces) width s =
    ok (take width (b ∷ bs), record s { pieces = put_back (drop width (b ∷ bs)) pieces })

-- At most `width` bytes of the next piece; nothing at the end of the stream.
unfoldable pub recv : ℕ → Socket → Result (Bytes × Socket)
unfolding recv_pieces
recv width s = recv_pieces s.pieces width s

unfoldable pub sendall : Bytes → Socket → Result Socket
sendall bs s = if s.writable then ok (record s { sent = s.sent ++ bs }) else err io

-- The loop of `_receive`, `out` what it has so far; each round brings a byte at least.
unfoldable pub receive_loop : ℕ → ℕ → Bytes → Socket → Result (Bytes × Socket)
receive_loop zero width out s = if ltb (length out) width then err out_of_fuel else ok (out, s)
receive_loop (suc rounds) width out s = elim (ltb (length out) width) [
  | false ↦ ok (out, s)
  | true ↦ bind (recv (width - length out) s) λ (piece, s'). elim piece [
    | [] ↦ err truncated
    | b ∷ bs ↦ receive_loop rounds width (out ++ b ∷ bs) s'
  ]
]

unfoldable pub receive : ℕ → Socket → Result (Bytes × Socket)
unfolding receive_loop
receive width s = receive_loop width width [] s

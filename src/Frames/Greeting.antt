-- ===== src/Frames/Greeting.antt =====
-- The greeting over the byte stream: its outcome depends on the bytes that arrive and on how the
-- stream ends, and not on how they were cut into pieces.
mod Loop
use tessaridb_sdk_python.Prelude.{
  ℕ, zero, suc, ◌+◌, ◌-◌, ◌≤◌, ◌≡◌, refl, sym, ap, ◌∙◌, Bool, true, false, Bool-cases, inl, inr,
  List, [], ◌∷◌, ◌++◌, append_assoc, append-nil, arith, ltb, le→ltb, lt→ltb, ◌==◌, length,
  length-append, take, drop, if◌then◌else◌,
}
use tessaridb_sdk_python.Result.{
  Bytes, Result, Error, ok, err, bind, via, io, truncated, not_this_protocol, wrong_version,
  out_of_fuel,
}
use tessaridb_sdk_python.Frames.Socket.{
  Socket, Ending, hung_up, broken, put_back, recv, recv_pieces, receive, sendall,
}
use tessaridb_sdk_python.Frames.Framing.{
  magic, major, minor, starts_with, greet_loop, check_version, greet,
}
use tessaridb_sdk_python.Frames.Flat.{
  Stream, join, view, receive_flat, receive-view, join-put_back, take_piece, drop_piece,
  enough_piece, length-take_le, ltb-suc,
}
use tessaridb_sdk_python.Frames.Exchange.{via-bind, socket}
pub use Loop.{stopped, magic_flat, viewed, GreetsOn, greet_loop-view}

unfoldable pub version_flat : Bytes × Stream → Result ((ℕ × ℕ) × Stream)
version_flat (a ∷ b ∷ [], st) = if a == major then ok ((a, b), st) else err (wrong_version a b)
version_flat (_, st) = err out_of_fuel

-- The specification of `greet`: six bytes out, the magic and a version in.
unfoldable pub greet_flat : Stream → Result ((ℕ × ℕ) × Stream)
greet_flat st =
    if st.writable
    then bind (magic_flat [] 4 (record st { sent = st.sent ++ (magic ++ major ∷ minor ∷ []) }))
        (λ st'. bind (receive_flat 2 st') version_flat)
    else err io

viewed-bind {ℓ} :
    {A : Type ℓ} (m : Result Socket) (f : Socket → Result (A × Socket))
    (g : Stream → Result (A × Stream))
    → ((s : Socket) → via view (f s) ≡ g (view s))
    → via view (bind m f) ≡ bind (viewed m) g
viewed-bind (ok s) f g h = h s
viewed-bind (err e) f g h = refl

check_version-view :
    (bs : Bytes) (s : Socket) → via view (check_version (bs, s)) ≡ version_flat (bs, view s)
unfolding check_version version_flat
check_version-view [] s = refl
check_version-view (a ∷ []) s = refl
check_version-view (a ∷ b ∷ []) s = elim (Bool-cases (a == 1)) [
  | inl spoken ↦ rw spoken
  | inr other ↦ rw other
]
check_version-view (a ∷ b ∷ c ∷ bs) s = refl

version-view :
    (s : Socket)
    → via view (bind (receive 2 s) check_version) ≡ bind (receive_flat 2 (view s)) version_flat
version-view s =
    via-bind (receive 2 s) check_version version_flat check_version-view
    ∙ ap (λ r. bind r version_flat) (receive-view 2 s)

greeting :
    (pieces : List (ℕ × Bytes)) (ending : Ending) (sent : Bytes) (writable : Bool)
    → let s = socket pieces ending sent writable in via view (greet s) ≡ greet_flat (view s)
unfolding greet greet_flat sendall starts_with view socket
greeting pieces ending sent false = refl
greeting pieces ending sent true =
    let s' = socket pieces ending (sent ++ (magic ++ major ∷ minor ∷ [])) true in
    let looped : viewed (greet_loop 4 [] s') ≡ magic_flat [] 4 (view s') =
      greet_loop-view 4 4 [] s' (omega arith) (omega arith) refl in
    viewed-bind (greet_loop 4 [] s') _ (λ st. bind (receive_flat 2 st) version_flat) version-view
    ∙ ap (λ r. bind r λ st. bind (receive_flat 2 st) version_flat) looped

-- Greeting over a socket is greeting over the bytes that the socket carries.
pub greet-view : (s : Socket) → via view (greet s) ≡ greet_flat (view s)
greet-view s = unfold socket in greeting s.pieces s.ending s.sent s.writable

greet_flat-node :
    (bytes : Bytes) (ending : Ending) (sent : Bytes) (writable : Bool) (peer_minor : ℕ)
    (rest : Bytes)
    → writable ≡ true
    → bytes ≡ magic ++ major ∷ peer_minor ∷ rest
    → greet_flat (record { bytes = bytes; ending = ending; sent = sent; writable = writable })
      ≡ ok (
        (major, peer_minor),
        record {
          bytes = rest;
          ending = ending;
          sent = sent ++ (magic ++ major ∷ minor ∷ []);
          writable = writable;
        },
      )
unfolding greet_flat magic_flat version_flat receive_flat starts_with
greet_flat-node bytes ending sent writable peer_minor rest writes carried =
    rw (writes, carried)
      (rw (
        le→ltb (length (magic ++ major ∷ peer_minor ∷ rest)) 4 (omega arith),
        le→ltb (length (major ∷ peer_minor ∷ rest)) 2 (omega arith),
      ))

-- On a socket that takes what is written, a node that answers with the magic and this major is
-- accepted, whatever its minor; six bytes are sent, and what follows its greeting is left to be
-- read.
pub greet-node :
    (s : Socket) (peer_minor : ℕ) (rest : Bytes)
    → s.writable ≡ true
    → join s.pieces ≡ magic ++ major ∷ peer_minor ∷ rest
    → via view (greet s)
      ≡ ok (
        (major, peer_minor),
        record (view s) { bytes = rest; sent = s.sent ++ (magic ++ major ∷ minor ∷ []) },
      )
unfolding view
greet-node s peer_minor rest writes carried =
    greet-view s
    ∙ greet_flat-node (join s.pieces) s.ending s.sent s.writable peer_minor rest writes carried

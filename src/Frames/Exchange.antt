-- ===== src/Frames/Exchange.antt =====
-- Frames over the byte stream: `read` does not see how the stream was cut, and reads what `send`
-- wrote.
use tessaridb_sdk_python.Prelude.{
  ℕ, ◌≤◌, ◌≡◌, refl, ap, ◌∙◌, Bool, true, Bool-cases, inl, inr, Option, none, some, List, [], ◌∷◌,
  ◌++◌, append_assoc, arith, ltb, le→ltb, length, length-append, take-append, drop-append,
  if◌then◌else◌,
}
use tessaridb_sdk_python.Result.{Bytes, Result, ok, err, bind, via, io, too_large, unknown_frame}
use tessaridb_sdk_python.Bytes.Endian.{to_bytes, from_bytes, length-to_bytes, from_bytes-to_bytes}
use tessaridb_sdk_python.Frames.Socket.{
  Socket, Ending, hung_up, broken, put_back, recv, recv_pieces, receive, sendall,
}
use tessaridb_sdk_python.Frames.Framing.{ceiling, from_node, frame, read, read_body, send}
use tessaridb_sdk_python.Frames.Flat.{Stream, join, view, receive_flat, receive-view, join-put_back}

unfoldable pub body_flat : ℕ → ℕ → Stream → Result (Option (ℕ × Bytes) × Stream)
body_flat kind size st =
    if ltb ceiling size
    then err (too_large size)
    else if from_node kind
    then bind (receive_flat size st) (λ (body, st'). ok (some (kind, body), st'))
    else err (unknown_frame kind)

-- One frame of a stream: the specification of `read`.
unfoldable pub read_flat : Stream → Result (Option (ℕ × Bytes) × Stream)
read_flat st = elim st.bytes [
  | [] ↦ elim st.ending [ hung_up ↦ ok (none, st) | broken ↦ err io ]
  | kind ∷ rest ↦
      bind (receive_flat 4 (record st { bytes = rest }))
        λ (size, st'). body_flat kind (from_bytes size) st'
]

pub via-bind {ℓ κ} :
    {A : Type ℓ} {B : Type κ} (m : Result (A × Socket)) (f : A × Socket → Result (B × Socket))
    (g : A × Stream → Result (B × Stream))
    → ((a : A) (s : Socket) → via view (f (a, s)) ≡ g (a, view s))
    → via view (bind m f) ≡ bind (via view m) g
via-bind (ok (a, s)) f g h = h a s
via-bind (err e) f g h = refl

read_body-view :
    (kind size : ℕ) (s : Socket) → via view (read_body kind size s) ≡ body_flat kind size (view s)
unfolding read_body body_flat
read_body-view kind size s = elim (Bool-cases (ltb ceiling size)) [
  | inl large ↦ rw large
  | inr fits ↦ rw fits (elim (Bool-cases (from_node kind)) [
    | inl known ↦ rw known (
        via-bind (receive size s) _ (λ (body, st'). ok (some (kind, body), st')) (λ a t. refl)
        ∙ ap (λ r. bind r λ (body, st'). ok (some (kind, body), st')) (receive-view size s))
    | inr unknown_kind ↦ rw unknown_kind
  ])
]

after_kind :
    (kind : ℕ) (s : Socket)
    → via view (bind (receive 4 s) λ (size, s'). read_body kind (from_bytes size) s')
      ≡ bind (receive_flat 4 (view s)) (λ (size, st'). body_flat kind (from_bytes size) st')
after_kind kind s =
    via-bind (receive 4 s) _ (λ (size, st'). body_flat kind (from_bytes size) st')
      (λ size t. read_body-view kind (from_bytes size) t)
    ∙ ap (λ r. bind r λ (size, st'). body_flat kind (from_bytes size) st') (receive-view 4 s)

unfoldable pub socket : List (ℕ × Bytes) → Ending → Bytes → Bool → Socket
socket pieces ending sent writable = record {
  pieces = pieces;
  ending = ending;
  sent = sent;
  writable = writable;
}

read_pieces :
    (pieces : List (ℕ × Bytes)) (ending : Ending) (sent : Bytes) (writable : Bool)
    → let s = socket pieces ending sent writable in via view (read s) ≡ read_flat (view s)
unfolding socket read recv recv_pieces read_flat view join
read_pieces [] hung_up sent writable = refl
read_pieces [] broken sent writable = refl
read_pieces ((b, bs) ∷ pieces) ending sent writable =
    rw (← join-put_back bs pieces) (after_kind b (socket (put_back bs pieces) ending sent writable))

-- Reading a frame from a socket is reading it from the bytes that the socket carries.
pub read-view : (s : Socket) → via view (read s) ≡ read_flat (view s)
read-view s = unfold socket in read_pieces s.pieces s.ending s.sent s.writable

receive_flat-append :
    (width : ℕ) (xs ys : Bytes) (st : Stream)
    → length xs ≡ width
    → receive_flat width (record st { bytes = xs ++ ys }) ≡ ok (xs, record st { bytes = ys })
unfolding receive_flat
receive_flat-append width xs ys st h = rw (
  le→ltb (length (xs ++ ys)) width (omega (arith, length-append {0} xs ys)),
  take-append width xs ys h,
  drop-append width xs ys h,
)

-- A stream that begins with a frame of a known kind.
pub read_flat-frame :
    (kind : ℕ) (body rest : Bytes) (st : Stream)
    → from_node kind ≡ true
    → length body ≤ ceiling
    → st.bytes ≡ frame kind body ++ rest
    → read_flat st ≡ ok (some (kind, body), record st { bytes = rest })
unfolding read_flat frame body_flat
read_flat-frame kind body rest st known fits e =
    let size = to_bytes 4 (length body) in
    let split : st.bytes ≡ kind ∷ (size ++ (body ++ rest)) =
      e ∙ append_assoc (kind ∷ size) body rest in
    rw (split, read_flat)
      (rw (receive_flat-append 4 size (body ++ rest) st (length-to_bytes 4 (length body))) (
        rw (
          from_bytes-to_bytes 4 (length body) (omega arith),
          le→ltb ceiling (length body) fits,
          known,
          receive_flat-append (length body) body rest st refl,
        )))

-- What `send` wrote on a fresh socket, of a kind that nodes send, is read back by a peer that it
-- reaches, in whatever pieces, and what follows it is left.
pub read-send :
    (kind : ℕ) (body rest : Bytes) (s s' peer : Socket)
    → from_node kind ≡ true
    → s.sent ≡ []
    → send kind body s ≡ ok s'
    → join peer.pieces ≡ s'.sent ++ rest
    → via view (read peer) ≡ ok (some (kind, body), record (view peer) { bytes = rest })
unfolding send sendall view
read-send kind body rest s s' peer known fresh sent carried =
    let fits : length body ≤ ceiling = ground arith in
    let written : s'.sent ≡ frame kind body = ground arith in
    read-view peer ∙ read_flat-frame kind body rest (view peer) known fits (rw carried (rw written))

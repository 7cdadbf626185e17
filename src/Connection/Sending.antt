-- ===== src/Connection/Sending.antt =====
-- What a connection has sent: no read adds to it, and a request adds one frame.
use tessaridb_sdk_python.Prelude.{
  Bool, le→ltb, ◌==◌, ℕ, zero, suc, ◌≤◌, ◌≡◌, refl, ap, ◌∙◌, true, false, Bool-cases, inl, inr,
  Option, none, some, [], ◌∷◌, ◌++◌, if◌then◌else◌, ltb, length, ◌-◌, List,
}
use tessaridb_sdk_python.Result.{
  Bytes, Str, Result, ok, err, bind, session, io, truncated, OnOk, returned, raised, OnOk-if,
}
use tessaridb_sdk_python.Json.Leaves.{OnOk-then}
use tessaridb_sdk_python.Bytes.Endian.{from_bytes}
use tessaridb_sdk_python.Frames.Socket.{
  sendall, Socket, Ending, hung_up, broken, recv, recv_pieces, receive_loop, receive,
}
use tessaridb_sdk_python.Frames.Framing.{
  ceiling, request, answer, refusal, elsewhere_kind, from_node, frame, send, read, read_body,
}
use tessaridb_sdk_python.Connection.Messages.{Reply}
use tessaridb_sdk_python.Connection.Session.{
  Connection, Parameters, owes, spend, request_body, and_then, close_socket, close, take_frame,
  read_open, after_send, reply_to, reply, exchange, ask,
}
use tessaridb_sdk_python.Connection.Credentials.{request_body-eq-ok, spend-sock}

-- A read of the socket sends nothing.
abbrev Keeps : {A : Type 0} → Socket → A × Socket → Type 0
Keeps s (a, s') = s'.sent ≡ s.sent

recv_pieces-Keeps :
    (pieces : List (ℕ × Bytes)) (width : ℕ) (s : Socket)
    → OnOk (Keeps s) (recv_pieces pieces width s)
unfolding recv_pieces
recv_pieces-Keeps [] width s = at_end s.ending
  where
    at_end :
        (ending : Ending)
        → OnOk (Keeps {A = Bytes} s) (elim ending [ hung_up ↦ ok ([], s) | broken ↦ err io ])
    at_end hung_up = returned refl
    at_end broken = raised
recv_pieces-Keeps ((b, bs) ∷ pieces) width s = returned refl

receive_loop-Keeps :
    (rounds width : ℕ) (out : Bytes) (s : Socket) → OnOk (Keeps s) (receive_loop rounds width out s)
unfolding receive_loop recv
receive_loop-Keeps zero width out s =
    OnOk-if (ltb (length out) width) (λ e. raised) (λ e. returned refl)
receive_loop-Keeps (suc rounds) width out s = elim (Bool-cases (ltb (length out) width)) [
  | inl short ↦
      rw (short, receive_loop)
        (OnOk-then (recv (width - length out) s) (recv_pieces-Keeps s.pieces _ s)
          λ (piece, s') kept. received (receive_loop-Keeps rounds width) piece s' kept)
  | inr full ↦ rw (full, receive_loop) (returned refl)
]
  where
    received :
        ((out : Bytes) (s : Socket) → OnOk (Keeps s) (receive_loop rounds width out s))
        → (piece : Bytes) (s' : Socket) → s'.sent ≡ s.sent
        → OnOk (Keeps s) (elim piece [
          | [] ↦ err truncated
          | b ∷ bs ↦ receive_loop rounds width (out ++ b ∷ bs) s'
        ])
    received again [] s' kept = raised
    received again (b ∷ bs) s' kept = rw (← kept) (again (out ++ b ∷ bs) s')

read_body-Keeps : (kind size : ℕ) (s : Socket) → OnOk (Keeps s) (read_body kind size s)
unfolding read_body receive
read_body-Keeps kind size s =
    OnOk-if (ltb ceiling size) (λ e. raised)
      λ e.
        OnOk-if (from_node kind)
          (λ e.
            OnOk-then (receive size s) (receive_loop-Keeps size size [] s)
              λ (body, s') kept. returned kept)
          (λ e. raised)

read-Keeps : (s : Socket) → OnOk (Keeps s) (read s)
unfolding read recv receive
read-Keeps s =
    OnOk-then (recv 1 s) (recv_pieces-Keeps s.pieces 1 s) λ (first, s') kept. framed first s' kept
  where
    framed :
        (first : Bytes) (s' : Socket)
        → s'.sent ≡ s.sent
        → OnOk (Keeps s) (elim first [
          | [] ↦ ok (none, s')
          | kind ∷ _ ↦ bind (receive 4 s') λ (size, s''). read_body kind (from_bytes size) s''
        ])
    framed [] s' kept = returned kept
    framed (kind ∷ rest) s' kept =
        OnOk-then (receive 4 s') (receive_loop-Keeps 4 4 [] s')
          λ (size, s'') four. rw (← kept, ← four) (read_body-Keeps kind (from_bytes size) s'')

take_frame-sent :
    (r : Result (Option (ℕ × Bytes) × Socket)) (c : Connection)
    → OnOk (Keeps c.sock) r
    → (take_frame r c).1.sock.sent ≡ c.sock.sent
unfolding take_frame close close_socket
take_frame-sent (err e) c h = refl
take_frame-sent (ok (none, s)) c (returned kept) = refl
take_frame-sent (ok (some frame, s)) c (returned kept) = kept

either-sent :
    (b : Bool) (x y : Result Reply × Connection) (bs : Bytes)
    → x.1.sock.sent ≡ bs
    → y.1.sock.sent ≡ bs
    → (if b then x else y).1.sock.sent ≡ bs
either-sent true x y bs hx hy = hx
either-sent false x y bs hx hy = hy

reply_to-sent :
    (kind : ℕ) (body : Bytes) (c : Connection) → (reply_to kind body c).1.sock.sent ≡ c.sock.sent
unfolding reply_to close close_socket
reply_to-sent kind body c = either-sent (kind == answer) _ _ c.sock.sent refl (
    either-sent (kind == refusal) _ _ c.sock.sent refl
      (either-sent (kind == elsewhere_kind) _ _ c.sock.sent refl refl))

reply-sent : (c : Connection) → (reply c).1.sock.sent ≡ c.sock.sent
unfolding reply and_then read_open
reply-sent c =
    replied (take_frame (read c.sock) c) ∙ take_frame-sent (read c.sock) c (read-Keeps c.sock)
  where
    replied :
        (r : Result (ℕ × Bytes) × Connection)
        → (and_then r λ (kind, body). reply_to kind body).1.sock.sent ≡ r.1.sock.sent
    replied (err e, c) = refl
    replied (ok (kind, body), c) = reply_to-sent kind body c

pub send_fits :
    (body : Bytes) (s : Socket)
    → length body ≤ ceiling
    → s.writable ≡ true
    → send request body s ≡ ok (record s { sent = s.sent ++ frame request body })
unfolding send sendall
send_fits body s fits writes = rw (le→ltb ceiling (length body) fits) (rw writes refl)

-- Whatever the node replied, a request that can be written and fits is sent as one frame.
pub ask-sent :
    (script : Str) (parameters : Parameters) (c : Connection) (body : Bytes)
    → c.subscribed ≡ false
    → (request_body script parameters c).0 ≡ ok body
    → length body ≤ ceiling
    → c.sock.writable ≡ true
    → (ask script parameters c).1.sock.sent ≡ c.sock.sent ++ frame request body
unfolding ask exchange and_then after_send
ask-sent script parameters c body asks made fits writes =
    let c' = spend (owes c) c in
    let kept : c'.sock ≡ c.sock = spend-sock (owes c) c in
    let s = record c.sock { sent = c.sock.sent ++ frame request body } in
    ap
      (λ b.
        (if b
          then (err session, c)
          else and_then (request_body script parameters c) (exchange request)).1.sock.sent)
      asks
    ∙ ap (λ r. (and_then r (exchange request)).1.sock.sent)
        (request_body-eq-ok script parameters c body made)
    ∙ ap (λ s. (after_send (send request body s) c').1.sock.sent) kept
    ∙ ap (λ r. (after_send r c').1.sock.sent) (send_fits body c.sock fits writes)
    ∙ reply-sent (record c' { sock = s })

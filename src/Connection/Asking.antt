-- ===== src/Connection/Asking.antt =====
-- Requests on a connection: what is sent and what comes back.
use tessaridb_sdk_python.Prelude.{
  ℕ, ◌≤◌, ◌<◌, ◌^◌, ◌≡◌, refl, ap, ◌∙◌, true, false, none, List, [], ◌++◌, append-nil,
  if◌then◌else◌, length, All,
}
use tessaridb_sdk_python.Result.{Bytes, Str, Result, ok, err, bind, via, session, refused}
use tessaridb_sdk_python.Frames.Socket.{Socket}
use tessaridb_sdk_python.Frames.Framing.{
  ceiling, request, answer, refusal, from_node, frame, send, read, read_refusal,
}
use tessaridb_sdk_python.Frames.Flat.{join, view}
use tessaridb_sdk_python.Frames.Exchange.{read-view, read_flat-frame}
use tessaridb_sdk_python.Answer.Read.{read_answer}
use tessaridb_sdk_python.Answer.Bodies.{
  answer_bytes, count_of, each_outcome, IsBody, read_answer-each_outcome,
}
use tessaridb_sdk_python.Connection.Sending.{send_fits}
use tessaridb_sdk_python.Connection.Credentials.{spend-sock, request_body-eq-ok}
use tessaridb_sdk_python.Connection.Session.{
  Connection, Parameters, owes, spend, request_body, and_then, take_frame, read_open, after_send,
  reply_to, reply, exchange, ask,
}

via-eq-ok {ℓ κ μ} :
    {A : Type ℓ} {S : Type κ} {T : Type μ} (f : S → T) (r : Result (A × S)) (a : A) (t : T)
    → via f r ≡ ok (a, t)
    → (s : S) × (r ≡ ok (a, s)) × (f s ≡ t)
via-eq-ok f (ok (a', s)) a t h = (s, cc, cc)
via-eq-ok f (err e) a t h = cc

-- The frame that a stream begins with is what the connection reads, and the rest stays.
read_open-frame :
    (kind : ℕ) (body rest : Bytes) (c : Connection)
    → from_node kind ≡ true
    → length body ≤ ceiling
    → join c.sock.pieces ≡ frame kind body ++ rest
    → (s : Socket) × (read_open c ≡ (ok (kind, body), record c { sock = s }))
      × (view s ≡ record (view c.sock) { bytes = rest })
unfolding read_open take_frame view
read_open-frame kind body rest c known fits carried =
    let flat = read_flat-frame kind body rest (view c.sock) known fits carried in
    let (s, e, seen) = via-eq-ok view (read c.sock) _ _ (read-view c.sock ∙ flat) in
    (s, ap (λ r. take_frame r c) e, seen)

-- A request on a connection whose stream goes on with a frame of the node.
module _ (script : Str) (parameters : Parameters) (c : Connection) (body said rest : Bytes)
    (kind : ℕ) (asks : c.subscribed ≡ false) (made : (request_body script parameters c).0 ≡ ok body)
    (fits : length body ≤ ceiling) (writes : c.sock.writable ≡ true) (known : from_node kind ≡ true)
    (small : length said ≤ ceiling) (carried : join c.sock.pieces ≡ frame kind said ++ rest) where
  ask-framed :
      (s : Socket) × (ask script parameters c
        ≡ reply_to kind said (record (spend (owes c) c) { sock = s }))
      × (view s ≡ record (view c.sock) { bytes = rest; sent = c.sock.sent ++ frame request body })
  unfolding ask exchange reply and_then after_send view
  ask-framed =
      let c' = spend (owes c) c in
      let kept : c'.sock ≡ c.sock = spend-sock (owes c) c in
      let sent = record c.sock { sent = c.sock.sent ++ frame request body } in
      let (s, e, seen) =
        read_open-frame kind said rest (record c' { sock = sent }) known small carried in
      let open_now : ask script parameters c
          ≡ and_then (request_body script parameters c) (exchange request) =
        ap
          (λ b.
            if b
            then (err session, c)
            else and_then (request_body script parameters c) (exchange request))
          asks in
      (
        s,
        open_now
            ∙ ap (λ r. and_then r (exchange request))
                (request_body-eq-ok script parameters c body made)
            ∙ ap (λ s. after_send (send request body s) c') kept
            ∙ ap (λ r. after_send r c') (send_fits body c.sock fits writes)
            ∙ ap (λ r. and_then r λ (kind, body). reply_to kind body) e,
        seen,
      )

-- A request that can be written and fits a frame, on an open connection whose stream goes on with
-- an answer of well-formed outcome bodies: it is sent as one frame, its outcomes are those of the
-- bodies, each read on its own, and what follows the answer is left for the next read.
pub ask-answered :
    (script : Str) (parameters : Parameters) (c : Connection) (body rest : Bytes)
    (raws : List Bytes)
    → c.subscribed ≡ false
    → (request_body script parameters c).0 ≡ ok body
    → length body ≤ ceiling
    → c.sock.writable ≡ true
    → All IsBody raws
    → count_of raws < 2 ^ 32
    → length (answer_bytes raws) ≤ ceiling
    → join c.sock.pieces ≡ frame answer (answer_bytes raws) ++ rest
    → (s : Socket) × (ask script parameters c ≡ (
      bind (each_outcome raws) (λ os. ok (record { outcomes = os; redirect = none })),
      record (spend (owes c) c) { sock = s },
    ))
      × (view s ≡ record (view c.sock) { bytes = rest; sent = c.sock.sent ++ frame request body })
unfolding reply_to from_node
ask-answered script parameters c body rest raws asks made fits writes are few small carried =
    let (s, asked, seen) =
      ask-framed script parameters c body (answer_bytes raws) rest answer asks made fits writes refl
        small carried in
    let read_all : read_answer (answer_bytes raws) ≡ each_outcome raws =
      rw append-nil at (read_answer-each_outcome raws [] are few) in
    (
      s,
      asked
          ∙ ap
              (λ os. (
                bind os (λ os. ok (record { outcomes = os; redirect = none })),
                record (spend (owes c) c) { sock = s },
              ))
              read_all,
      seen,
    )

-- A refusal of a request that can be written and fits a frame is raised with the message and the
-- class that it holds; the request was sent as one frame, the socket is open as before, and what
-- follows the refusal is left for the next read.
pub ask-refused :
    (script : Str) (parameters : Parameters) (c : Connection) (body said rest : Bytes)
    → c.subscribed ≡ false
    → (request_body script parameters c).0 ≡ ok body
    → length body ≤ ceiling
    → c.sock.writable ≡ true
    → length said ≤ ceiling
    → join c.sock.pieces ≡ frame refusal said ++ rest
    → (s : Socket) × (ask script parameters c ≡ (
      err (refused (read_refusal said).1 (read_refusal said).0),
      record (spend (owes c) c) { sock = s },
    ))
      × (view s ≡ record (view c.sock) { bytes = rest; sent = c.sock.sent ++ frame request body })
unfolding reply_to from_node
ask-refused script parameters c body said rest asks made fits writes small carried =
    ask-framed script parameters c body said rest refusal asks made fits writes refl small carried

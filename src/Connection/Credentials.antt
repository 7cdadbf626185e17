-- ===== src/Connection/Credentials.antt =====
-- When the credentials of a connection go: with the first request that could be written.
use tessaridb_sdk_python.Prelude.{
  ℕ, ◌<◌, ◌≡◌, refl, ap, ◌∙◌, Bool, true, false, ◌==◌, Option, none, some, ◌++◌, if◌then◌else◌,
  lt→ltb, length,
}
use tessaridb_sdk_python.Result.{Bytes, Str, Result, Error, ok, err, bind, too_large, session}
use tessaridb_sdk_python.Bytes.Writer
use tessaridb_sdk_python.Bytes.Writer.{◌⨾◌}
use tessaridb_sdk_python.Frames.Socket.{Socket}
use tessaridb_sdk_python.Frames.Framing.{
  ceiling, request, answer, refusal, elsewhere_kind, frame, send, read,
}
use tessaridb_sdk_python.Connection.Messages.{Reply}
use tessaridb_sdk_python.Connection.Session.{
  Connection, Parameters, owes, spend, put_credentials, put_parameters, finish_request,
  request_body, and_then, close, take_frame, read_open, after_send, reply_to, reply, exchange, ask,
}

owes_after :
    (user : Option Str) (owed : Bool) (c : Connection)
    → c.user ≡ user
    → c.owed ≡ owed
    → owes (spend (owes c) c) ≡ none
unfolding owes spend
owes_after user false c u o = rw o refl
owes_after none true c u o = rw (o, u) refl
owes_after (some name) true c u o = rw (o, u) refl

pub spend-sock :
    (credentials : Option (Str × Str)) (c : Connection) → (spend credentials c).sock ≡ c.sock
unfolding spend
spend-sock none c = refl
spend-sock (some pair) c = refl

finish_request-eq-ok :
    (r : Result Bytes) (parameters : Parameters) (c : Connection) (body : Bytes)
    → (finish_request r parameters c).0 ≡ ok body
    → finish_request r parameters c ≡ (ok body, spend (owes c) c)
unfolding finish_request
finish_request-eq-ok (err e) parameters c body h = cc
finish_request-eq-ok (ok head) parameters c body h = ap (λ r. (r, spend (owes c) c)) h

pub request_body-eq-ok :
    (script : Str) (parameters : Parameters) (c : Connection) (body : Bytes)
    → (request_body script parameters c).0 ≡ ok body
    → request_body script parameters c ≡ (ok body, spend (owes c) c)
unfolding request_body
request_body-eq-ok script parameters c body h = finish_request-eq-ok _ parameters c body h

either-owes :
    (b : Bool) (x y : Result Reply × Connection) (c : Connection)
    → owes x.1 ≡ owes c
    → owes y.1 ≡ owes c
    → owes (if b then x else y).1 ≡ owes c
either-owes true x y c hx hy = hx
either-owes false x y c hx hy = hy

reply_to-owes : (kind : ℕ) (body : Bytes) (c : Connection) → owes (reply_to kind body c).1 ≡ owes c
unfolding reply_to close owes
reply_to-owes kind body c = either-owes (kind == answer) _ _ c refl (
    either-owes (kind == refusal) _ _ c refl (either-owes (kind == elsewhere_kind) _ _ c refl refl))

take_frame-owes :
    (r : Result (Option (ℕ × Bytes) × Socket)) (c : Connection) → owes (take_frame r c).1 ≡ owes c
unfolding take_frame close owes
take_frame-owes (err e) c = refl
take_frame-owes (ok (none, s)) c = refl
take_frame-owes (ok (some frame, s)) c = refl

replied-owes :
    (r : Result (ℕ × Bytes) × Connection)
    → owes (and_then r λ (kind, body). reply_to kind body).1 ≡ owes r.1
unfolding and_then
replied-owes (err e, c) = refl
replied-owes (ok (kind, body), c) = reply_to-owes kind body c

after_send-owes : (r : Result Socket) (c : Connection) → owes (after_send r c).1 ≡ owes c
unfolding after_send reply read_open owes
after_send-owes (err e) c = refl
after_send-owes (ok s) c =
    replied-owes (take_frame (read s) (record c { sock = s }))
    ∙ take_frame-owes (read s) (record c { sock = s })

-- After a request whose script, credentials and parameters could be written, on a connection that
-- is no subscription, the connection owes no credentials, whatever became of the request.
pub ask-owes :
    (script : Str) (parameters : Parameters) (c : Connection) (body : Bytes)
    → c.subscribed ≡ false
    → (request_body script parameters c).0 ≡ ok body
    → owes (ask script parameters c).1 ≡ none
unfolding ask exchange and_then
ask-owes script parameters c body asks made =
    let c' = spend (owes c) c in
    ap
      (λ b.
        owes
          (if b
            then (err session, c)
            else and_then (request_body script parameters c) (exchange request)).1)
      asks
    ∙ ap (λ r. owes (and_then r (exchange request)).1)
        (request_body-eq-ok script parameters c body made)
    ∙ after_send-owes (send request body c'.sock) c'
    ∙ owes_after c.user c.owed c refl refl

send-too_large :
    (kind : ℕ) (body : Bytes) (s : Socket)
    → ceiling < length body
    → send kind body s ≡ err (too_large (length body))
unfolding send
send-too_large kind body s large = rw (lt→ltb ceiling (length body) large) refl

-- A request over the ceiling of a frame is refused before anything of it is sent, and leaves no
-- credentials owed.
pub ask-too_large :
    (script : Str) (parameters : Parameters) (c : Connection) (body : Bytes)
    → c.subscribed ≡ false
    → (request_body script parameters c).0 ≡ ok body
    → ceiling < length body
    → (ask script parameters c ≡ (err (too_large (length body)), spend (owes c) c))
      × ((ask script parameters c).1.sock ≡ c.sock)
      × (owes (ask script parameters c).1 ≡ none)
unfolding ask exchange and_then after_send
ask-too_large script parameters c body asks made large =
    let c' = spend (owes c) c in
    let declined : send request body c'.sock ≡ err (too_large (length body)) =
      send-too_large request body c'.sock large in
    let whole : ask script parameters c ≡ (err (too_large (length body)), c') =
      ap
        (λ b.
          if b
          then (err session, c)
          else and_then (request_body script parameters c) (exchange request))
        asks
      ∙ ap (λ r. and_then r (exchange request)) (request_body-eq-ok script parameters c body made)
      ∙ ap (λ r. after_send r c') declined in
    (
      whole,
      ap (λ r. r.1.sock) whole ∙ spend-sock (owes c) c,
      ask-owes script parameters c body asks made,
    )

-- Where the script and the credentials can be written and a parameter cannot, the error of the
-- parameter is raised, nothing is sent, and the credentials are owed no more.
pub ask-unwritable :
    (script : Str) (parameters : Parameters) (c : Connection) (head : Bytes) (e : Error)
    → c.subscribed ≡ false
    → (Writer.text script ⨾ put_credentials (owes c)) ≡ ok head
    → put_parameters parameters ≡ err e
    → (ask script parameters c ≡ (err e, spend (owes c) c))
      × ((ask script parameters c).1.sock ≡ c.sock)
      × (owes (ask script parameters c).1 ≡ none)
unfolding ask request_body finish_request and_then
ask-unwritable script parameters c head e asks begun fails =
    let c' = spend (owes c) c in
    let body_of : finish_request (Writer.text script ⨾ put_credentials (owes c)) parameters c
        ≡ (err e, c') =
      ap (λ r. finish_request r parameters c) begun
      ∙ ap (λ r. (bind r (λ tail. ok (head ++ tail)), c')) fails in
    let whole : ask script parameters c ≡ (err e, c') =
      ap
        (λ b.
          if b
          then (err session, c)
          else and_then (request_body script parameters c) (exchange request))
        asks
      ∙ ap (λ r. and_then r (exchange request)) body_of in
    (
      whole,
      ap (λ r. r.1.sock) whole ∙ spend-sock (owes c) c,
      ap (λ r. owes r.1) whole ∙ owes_after c.user c.owed c refl refl,
    )

-- ===== src/Connection/Session.antt =====
-- `Connection`. A method that raises an exception keeps what it changed of the connection before,
-- so each returns its result and the connection. A closed socket neither delivers nor sends.
use tessaridb_sdk_python.Prelude.{
  ℕ, Bool, true, false, Option, none, some, List, [], ◌∷◌, ◌++◌, ◌==◌, ltb, pos, length,
  if◌then◌else◌,
}
use tessaridb_sdk_python.Result.{
  Bytes, Str, Result, ok, err, bind, io, session, unknown_frame, refused, node_too_old, malformed,
}
use tessaridb_sdk_python.Value.{Value}
use tessaridb_sdk_python.Bytes.Writer
use tessaridb_sdk_python.Bytes.Writer.{Put, ◌⨾◌}
use tessaridb_sdk_python.Codec.Encode.{encode, put_each}
use tessaridb_sdk_python.Frames.Socket.{Socket, broken}
use tessaridb_sdk_python.Frames.Framing.{
  request, answer, refusal, elsewhere_kind, vault, vault_minor, greet, send, read, read_refusal,
}
use tessaridb_sdk_python.Answer.Outcome.{Outcome, value_outcome}
use tessaridb_sdk_python.Answer.Read.{read_answer}
use tessaridb_sdk_python.Connection.Messages.{Reply, read_elsewhere}

pub record Connection : Type 0 where
  pub sock : Socket
  pub user : Option Str
  pub password : Option Str
  pub owed : Bool
  pub subscribed : Bool
  pub minor : ℕ

-- A mapping of parameters, in its order.
abbrev pub Parameters : Type 0
Parameters = List (Str × Value)

abbrev pub Session {ℓ} : Type ℓ → Type ℓ
Session A = Connection → Result A × Connection

unfoldable pub close_socket : Socket → Socket
close_socket s = record s { pieces = []; ending = broken; writable = false }

unfoldable pub close : Connection → Connection
close c = record c { sock = close_socket c.sock }

abbrev is_some {ℓ} : {A : Type ℓ} → Option A → Bool
is_some none = false
is_some (some _) = true

-- `Connection(sock, user, password)` greets; a greeting that fails closes the socket.
unfoldable pub connection_over : Socket → Option Str → Option Str → Result Connection
connection_over s user password = bind (greet s) λ ((_, minor), s'). ok (record {
  sock = s';
  user = user;
  password = password;
  owed = is_some user;
  subscribed = false;
  minor = minor;
})

unfoldable pub or_empty : Option Str → Str
or_empty none = []
or_empty (some s) = s

-- The credentials that the next frame has to carry.
unfoldable pub owes : Connection → Option (Str × Str)
owes c =
    if c.owed
    then elim c.user [ none ↦ none | some user ↦ some (user, or_empty c.password) ]
    else none

unfoldable pub spend : Option (Str × Str) → Connection → Connection
spend none c = c
spend (some _) c = record c { owed = false }

unfoldable pub put_credentials : Option (Str × Str) → Put
put_credentials none = Writer.u8 (pos 0)
put_credentials (some (user, password)) =
    Writer.u8 (pos 1) ⨾ Writer.text user ⨾ Writer.text password

-- `w.text(name)`, `w.lenbytes(encode(parameters[name]))`.
unfoldable pub put_parameter : Str × Value → Put
put_parameter (name, value) = Writer.text name ⨾ bind (encode value) (λ bs. Writer.lenbytes bs)

unfoldable pub put_parameters : Parameters → Put
put_parameters parameters = Writer.u32 (pos (length parameters)) ⨾ put_each put_parameter parameters

-- The parameters behind the script and the credentials, which are spent once they are written.
unfoldable pub finish_request : Result Bytes → Parameters → Session Bytes
finish_request (err e) parameters c = (err e, c)
finish_request (ok head) parameters c =
    (bind (put_parameters parameters) (λ tail. ok (head ++ tail)), spend (owes c) c)

-- `_request`.
unfoldable pub request_body : Str → Parameters → Session Bytes
request_body script parameters c =
    finish_request ((Writer.text script ⨾ put_credentials (owes c))) parameters c

unfoldable pub take_frame : Result (Option (ℕ × Bytes) × Socket) → Session (ℕ × Bytes)
take_frame (err e) c = (err e, close c)
take_frame (ok (none, s)) c = (err io, close c)
take_frame (ok (some frame, s)) c = (ok frame, record c { sock = s })

-- `_read`.
unfoldable pub read_open : Session (ℕ × Bytes)
read_open c = take_frame (read c.sock) c

-- What `_reply` does with a frame.
unfoldable pub reply_to : ℕ → Bytes → Session Reply
reply_to kind body c =
    if kind == answer
    then (bind (read_answer body) (λ os. ok (record { outcomes = os; redirect = none })), c)
    else if kind == refusal
    then (let (class, message) = read_refusal body in err (refused message class), c)
    else if kind == elsewhere_kind
    then (
      bind (read_elsewhere body) (λ there. ok (record { outcomes = []; redirect = some there })),
      c,
    )
    else (err (unknown_frame kind), close c)

-- The next call, unless an exception was raised.
unfoldable pub and_then {ℓ κ} :
    {A : Type ℓ} {B : Type κ} → Result A × Connection → (A → Session B) → Result B × Connection
and_then (err e, c) f = (err e, c)
and_then (ok a, c) f = f a c

unfoldable pub reply : Session Reply
reply c = and_then (read_open c) λ (kind, body). reply_to kind body

unfoldable pub after_send : Result Socket → Session Reply
after_send (err e) c = (err e, c)
after_send (ok s) c = reply (record c { sock = s })

-- A frame is sent and its reply read; a frame that cannot be sent leaves the socket as it was.
unfoldable pub exchange : ℕ → Bytes → Session Reply
exchange kind body c = after_send (send kind body c.sock) c

-- `_ask`.
unfoldable pub ask : Str → Parameters → Session Reply
ask script parameters c =
    if c.subscribed
    then (err session, c)
    else and_then (request_body script parameters c) (exchange request)

-- `_vault`, whose one outcome is a value; `body` is given the credentials that are owed.
unfoldable pub only_value : List Outcome → Result Value
only_value (value_outcome _ v ∷ []) = ok v
only_value _ = err malformed

unfoldable pub vault_value : Result Reply → Result Value
vault_value (err e) = err e
vault_value (ok reply) = only_value reply.outcomes

unfoldable pub vault_call : (Option (Str × Str) → Result Bytes) → Session Value
vault_call body c =
    if ltb c.minor vault_minor
    then (err (node_too_old c.minor vault_minor), c)
    else if c.subscribed
    then (err session, c)
    else elim (body (owes c)) [
      | err e ↦ (err e, spend (owes c) c)
      | ok bs ↦
          let (answered, c') = exchange vault bs (spend (owes c) c) in (vault_value answered, c')
    ]

-- ===== src/Follow/Hops.antt =====
-- `followed` and `execute`. `dial` is the network: the socket that connecting to an endpoint gives, or
-- the exception; its number is how many hops are left, for it may answer differently each time.
-- `_follow` counts hops up to three, the model the hops that are left down to none.
use tessaridb_sdk_python.Prelude.{
  ℕ, zero, suc, Bool, true, false, Option, none, some, List, [], ◌∷◌, ltb, if◌then◌else◌,
}
use tessaridb_sdk_python.Result.{
  Bytes, Str, Result, Error, ok, err, bind, redirect_loop, stale_redirect, wrong_node,
}
use tessaridb_sdk_python.Dict.{dict_get, str_eq}
use tessaridb_sdk_python.Value.{Value, uuid}
use tessaridb_sdk_python.Frames.Socket.{Socket}
use tessaridb_sdk_python.Connection.Messages.{Reply, Elsewhere, Settlement, settled, transient}
use tessaridb_sdk_python.Connection.Session.{
  Connection, Parameters, Session, and_then, ask, connection_over,
}
use tessaridb_sdk_python.Follow.Selection.{node_key, answered, context, selection}

abbrev pub most_hops : ℕ
most_hops = 3

-- `context.get("node") == Uuid(node)`.
unfoldable pub names_node : Bytes → Option Value → Bool
names_node node (some (uuid raw)) = str_eq raw node
names_node node _ = false

unfoldable pub select : Str → Session (Unit {0})
select [] c = (ok tt, c)
select (b ∷ script) c = and_then (answered (b ∷ script) c) λ _ c'. (ok tt, c')

-- The request at the node of the redirect, once it has said that it is that node.
unfoldable pub visit : Elsewhere → Str → Str → Parameters → Session Reply
visit redirect selecting script parameters there = and_then (context there) λ fields c₁.
    if names_node redirect.node (dict_get node_key fields)
    then and_then (select selecting c₁) (λ _ c₂. ask script parameters c₂)
    else (err (wrong_node redirect.node), c₁)

-- `_move_to`.
unfoldable pub move_to : Connection → Connection → Connection
move_to there conn = record conn { sock = there.sock; minor = there.minor; owed = there.owed }

unfoldable pub stay_or_move : Settlement → Connection → Connection → Connection
stay_or_move settled there conn = move_to there conn
stay_or_move transient there conn = conn

-- What `followed` does: its result, the session's connection, and the redirects that it dialled.
pub record Followed : Type 0 where
  pub result : Result Reply
  pub conn : Connection
  pub dialled : List Elsewhere

unfoldable pub halt : Error → List Elsewhere → Connection → Followed
halt e dialled conn = record { result = err e; conn = conn; dialled = dialled }

unfoldable pub with_dialled : Elsewhere → Followed → Followed
with_dialled redirect f = record f { dialled = redirect ∷ f.dialled }

-- With the reply's redirect: the next hop, or the answer and where the session goes on.
unfoldable pub settle :
    (Elsewhere → Followed)
    → Elsewhere
    → Connection
    → Connection
    → Reply
    → Option Elsewhere
    → Followed
settle more redirect there conn reply (some next) = with_dialled redirect (more next)
settle more redirect there conn reply none = record {
  result = ok reply;
  conn = stay_or_move redirect.settlement there conn;
  dialled = redirect ∷ [];
}

unfoldable pub proceed :
    (Elsewhere → Followed) → Elsewhere → Connection → Result Reply × Connection → Followed
proceed more redirect conn (err e, there) = halt e (redirect ∷ []) conn
proceed more redirect conn (ok reply, there) = settle more redirect there conn reply reply.redirect

module _ (dial : ℕ → Str → Result Socket) (selecting script : Str) (parameters : Parameters) where
  -- `connect` to the endpoint and the request there.
  unfoldable pub hop : ℕ → Elsewhere → Connection → Result Reply × Connection
  hop left redirect conn =
      let greeted =
        bind (dial left redirect.endpoint) λ s. connection_over s conn.user conn.password in
      elim greeted [
        | err e ↦ (err e, conn)
        | ok there ↦ visit redirect selecting script parameters there
      ]

  unfoldable pub follow : ℕ → Elsewhere → ℕ → Connection → Followed
  follow zero redirect floor conn = halt (redirect_loop most_hops) [] conn
  follow (suc left) redirect floor conn = elim (ltb redirect.epoch floor) [
    | true ↦ halt (stale_redirect redirect.epoch floor) [] conn
    | false ↦
        proceed (λ next. follow left next redirect.epoch conn) redirect conn
          (hop left redirect conn)
  ]

-- `followed`, from what `_selection` gave.
unfoldable pub from_selection :
    (ℕ → Str → Result Socket) → Str → Parameters → Elsewhere → Result Str × Connection → Followed
from_selection dial script parameters first (err e, conn) = halt e [] conn
from_selection dial script parameters first (ok selecting, conn) =
    follow dial selecting script parameters most_hops first 0 conn

unfoldable pub followed :
    (ℕ → Str → Result Socket) → Str → Parameters → Elsewhere → Connection → Followed
followed dial script parameters first conn =
    from_selection dial script parameters first (selection conn)

unfoldable pub after_ask :
    (ℕ → Str → Result Socket) → Str → Parameters → Result Reply × Connection → Followed
after_ask dial script parameters (err e, conn) = halt e [] conn
after_ask dial script parameters (ok reply, conn) = elim reply.redirect [
  | none ↦ record { result = ok reply; conn = conn; dialled = [] }
  | some first ↦ followed dial script parameters first conn
]

unfoldable pub execute : (ℕ → Str → Result Socket) → Str → Parameters → Connection → Followed
execute dial script parameters conn = after_ask dial script parameters (ask script parameters conn)

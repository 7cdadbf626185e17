-- ===== src/Cache/Operations.antt =====
-- `Cache` and `Lease`, over what the connection executes.
use tessaridb_sdk_python.Prelude.{
  ℤ, pos, negsuc, Bool, true, false, not, ◌&&◌, Option, none, some, List, [], ◌∷◌, map, leb,
  if◌then◌else◌,
}
use tessaridb_sdk_python.Result.{Str, Result, ok, err, bind, value_error}
use tessaridb_sdk_python.Value.{Value, none_value, null_value, bool, integer, duration}
use tessaridb_sdk_python.Text.{chars}
use tessaridb_sdk_python.Query.Filter.{Binder}
use tessaridb_sdk_python.Answer.Outcome.{Outcome, value_outcome, keys, done}
use tessaridb_sdk_python.Connection.Messages.{Reply}
use tessaridb_sdk_python.Worker.Answers.{answered_by}
use tessaridb_sdk_python.Events.Quoting.{unquoted}
use tessaridb_sdk_python.Events.Literals.{is_none}
use tessaridb_sdk_python.Cache.Statements.{
  Ttl, to_duration, Statements, Statement, get_statement, set_statement, delete_statement,
  incr_statement, ttl_statement, expire_statement, persist_statement, keys_statement,
  lock_statement, extend_statement, release_lock_statement,
}

-- The values that the statements of a cache answer with.
unfoldable pub value_of : Option Outcome → Result Value
value_of (some (value_outcome names v)) = ok v
value_of (some done) = ok none_value
value_of _ = err value_error

unfoldable pub flag_of : Value → Result Bool
flag_of (bool b) = ok b
flag_of _ = err value_error

unfoldable pub integer_of : Value → Result ℤ
integer_of (integer n) = ok n
integer_of _ = err value_error

-- What `ttl` lets through: a duration, NULL or NONE.
unfoldable pub ttl_of : Value → Result Value
ttl_of none_value = ok none_value
ttl_of null_value = ok null_value
ttl_of (duration seconds nanos) = ok (duration seconds nanos)
ttl_of _ = err value_error

unfoldable pub keys_of : Option Outcome → Result (List Str)
keys_of (some (keys ks)) = ok (map unquoted ks)
keys_of _ = err value_error

-- `None if isinstance(found, NoneValue) else found`.
unfoldable pub if_any : Value → Option Value
unfolding is_none
if_any v = if is_none v then none else some v

-- A ttl that may be left out.
unfoldable pub lasting : Option Ttl → Result (Option Value)
lasting none = ok none
lasting (some ttl) = bind (to_duration ttl) λ d. ok (some d)

pub record Lease : Type 0 where
  pub key : Str
  pub holder : Str
  pub ttl : Value

module _ {S : Type 0} (execute : Str → Binder → S → Result Reply × S) where
  -- What is made of an answer, and the world that it came with.
  unfoldable pub then_take : {A B : Type 0} → (A → Result B) → Result A × S → Result B × S
  then_take take (r, s) = (bind r take, s)

  -- What goes on with an argument that may have been refused.
  unfoldable pub checked : {A B : Type 0} → Result A → (A → S → Result B × S) → S → Result B × S
  checked (ok a) go_on s = go_on a s
  checked (err e) go_on s = (err e, s)

  -- `_value` and `_flag`.
  unfoldable pub value_answer : Statement → S → Result Value × S
  value_answer (script, parameters) s = answered_by value_of (execute script parameters s)

  unfoldable pub flag : Statement → S → Result Bool × S
  unfolding value_answer then_take
  flag statement s = then_take flag_of (value_answer statement s)

  unfoldable pub get : Statements → Str → S → Result (Option Value) × S
  unfolding value_answer then_take
  get w key s = then_take (λ v. ok (if_any v)) (value_answer (get_statement w key) s)

  unfoldable pub set : Statements → Str → Value → Option Ttl → S → Result (Unit {0}) × S
  unfolding checked value_answer then_take
  set w key v ttl =
      checked (lasting ttl)
        λ d s. then_take (λ u. ok tt) (value_answer (set_statement w key v [] none d) s)

  unfoldable pub set_if_absent : Statements → Str → Value → Option Ttl → S → Result Bool × S
  unfolding checked flag
  set_if_absent w key v ttl =
      checked (lasting ttl) λ d s. flag (set_statement w key v (chars " IF ABSENT") none d) s

  unfoldable pub set_if_present : Statements → Str → Value → Option Ttl → S → Result Bool × S
  unfolding checked flag
  set_if_present w key v ttl =
      checked (lasting ttl) λ d s. flag (set_statement w key v (chars " IF PRESENT") none d) s

  unfoldable pub compare_and_set :
      Statements → Str → Value → Value → Option Ttl → S → Result Bool × S
  unfolding checked flag
  compare_and_set w key expected v ttl =
      checked (lasting ttl)
        λ d s. flag (set_statement w key v (chars " IF = $e") (some expected) d) s

  unfoldable pub delete : Statements → Str → S → Result Bool × S
  unfolding value_answer then_take
  delete w key s = then_take (λ v. ok (not (is_none v))) (value_answer (delete_statement w key) s)

  unfoldable pub incr : Statements → Str → ℤ → S → Result ℤ × S
  unfolding value_answer then_take
  incr w key by s = then_take integer_of (value_answer (incr_statement w key by) s)

  unfoldable pub ttl_left : Statements → Str → S → Result Value × S
  unfolding value_answer then_take
  ttl_left w key s = then_take ttl_of (value_answer (ttl_statement w key) s)

  unfoldable pub expire : Statements → Str → Ttl → S → Result Bool × S
  unfolding checked flag
  expire w key ttl = checked (to_duration ttl) λ d s. flag (expire_statement w key d) s

  unfoldable pub persist : Statements → Str → S → Result Bool × S
  unfolding flag
  persist w key s = flag (persist_statement w key) s

  -- The limit is 1 to 1000.
  unfoldable pub keys_limit : ℤ → Result ℤ
  keys_limit (pos n) = if leb 1 n && leb n 1_000 then ok (pos n) else err value_error
  keys_limit (negsuc n) = err value_error

  unfoldable pub list_keys : Statements → Option Str → Option Str → ℤ → S → Result (List Str) × S
  unfolding checked
  list_keys w prefix after limit = checked (keys_limit limit) λ n s.
      let (script, parameters) = keys_statement w prefix after n in
      answered_by keys_of (execute script parameters s)

  -- Behind a store that was asked for if the key was absent.
  unfoldable pub after_store : Statements → Str → Value → Result Bool × S → Result Value × S
  unfolding then_take
  after_store w key made (err e, s) = (err e, s)
  after_store w key made (ok true, s) = (ok made, s)
  after_store w key made (ok false, s) =
      then_take (λ again. ok (elim again [ none ↦ made | some v ↦ v ])) (get w key s)

  unfoldable pub store_made : Statements → Str → Ttl → Result Value × S → Result Value × S
  unfolding after_store
  store_made w key ttl (err e, s) = (err e, s)
  store_made w key ttl (ok made, s) = after_store w key made (set_if_absent w key made (some ttl) s)

  unfoldable pub or_load :
      Statements → Str → Ttl → (S → Result Value × S) → Result (Option Value) × S → Result Value × S
  unfolding store_made
  or_load w key ttl loader (err e, s) = (err e, s)
  or_load w key ttl loader (ok (some v), s) = (ok v, s)
  or_load w key ttl loader (ok none, s) = store_made w key ttl (loader s)

  -- `get_or_set`.
  unfoldable pub get_or_set : Statements → Str → Ttl → (S → Result Value × S) → S → Result Value × S
  unfolding or_load
  get_or_set w key ttl loader s = or_load w key ttl loader (get w key s)

  unfoldable pub leased : Str → Str → Value → Bool → Result (Option Lease)
  leased key holder d taken =
      ok (if taken then some (record { key = key; holder = holder; ttl = d }) else none)

  -- `lock`, with the holder that the caller gave or that was made for it.
  unfoldable pub lock : Statements → Str → Ttl → Str → S → Result (Option Lease) × S
  unfolding checked flag then_take leased
  lock w key ttl [] s = (err value_error, s)
  lock w key ttl (c ∷ holder) s =
      checked (to_duration ttl)
        (λ d s.
          then_take (leased key (c ∷ holder) d) (flag (lock_statement w key (c ∷ holder) d) s))
        s

  -- `Lease.extend`.
  unfoldable pub extend : Statements → Lease → Option Ttl → S → Result Bool × S
  unfolding checked flag
  extend w l none s = flag (extend_statement w l.key l.holder l.ttl) s
  extend w l (some ttl) s =
      checked (to_duration ttl) (λ d s. flag (extend_statement w l.key l.holder d) s) s

  -- `Lease.release`.
  unfoldable pub release : Statements → Lease → S → Result Bool × S
  unfolding flag
  release w l s = flag (release_lock_statement w l.key l.holder) s

-- ===== src/Cache/Statements.antt =====
-- `_Statements` and `_duration` of cache.py. A ttl that is a float is given by the nanoseconds that
-- `round(ttl * 1_000_000_000)` is.
use tessaridb_sdk_python.Prelude.{
  ℕ, zero, suc, ◌+◌, ◌-◌, ◌*◌, ◌/◌, ◌%◌, ℤ, pos, negsuc, Option, none, some, [], ◌∷◌, ◌++◌, leb,
  if◌then◌else◌,
}
use tessaridb_sdk_python.Result.{Str, Result, ok, err, bind, value_error}
use tessaridb_sdk_python.Value.{Value, integer, text, duration}
use tessaridb_sdk_python.Dict.{dict_set}
use tessaridb_sdk_python.Text.{chars, show_int}
use tessaridb_sdk_python.Query.Filter.{Binder}
use tessaridb_sdk_python.Worker.Names.{tenancy}
use tessaridb_sdk_python.Consumer.Statements.{plain}

abbrev pub billion : ℕ
billion = 1_000_000_000

-- `n * k`, and `n + k`, for a natural `k`.
unfoldable pub times : ℤ → ℕ → ℤ
times (pos n) k = pos (n * k)
times (negsuc n) zero = pos 0
times (negsuc n) (suc k) = negsuc (suc n * suc k - 1)

unfoldable pub plus : ℤ → ℕ → ℤ
plus (pos n) k = pos (n + k)
plus (negsuc n) k = if leb k n then negsuc (n - k) else pos (k - suc n)

-- `TtlLike`: seconds, the nanoseconds of a float, or a timedelta's days, seconds and microseconds.
pub data Ttl : Type 0 where
  whole_seconds : ℤ → Ttl
  float_nanos : ℤ → Ttl
  delta : ℤ → ℕ → ℕ → Ttl

unfoldable pub nanos_total : Ttl → ℤ
unfolding times plus
nanos_total (whole_seconds n) = times n billion
nanos_total (float_nanos n) = n
nanos_total (delta days seconds micros) =
    times (plus (times (plus (times days 86_400) seconds) 1_000_000) micros) 1_000

unfoldable pub positive_duration : ℤ → Result Value
positive_duration (pos (suc n)) = ok (duration (pos (suc n / billion)) (pos (suc n % billion)))
positive_duration _ = err value_error

-- `_duration`.
unfoldable pub to_duration : Ttl → Result Value
unfolding positive_duration nanos_total
to_duration ttl = positive_duration (nanos_total ttl)

pub record Statements : Type 0 where
  pub before : Str
  pub space : Str

unfoldable pub statements : Str → Str → Str → Result Statements
unfolding tenancy
statements namespace database space = bind (plain (chars "a namespace") namespace) λ n.
    bind (plain (chars "a database") database)
      λ d. bind (plain (chars "a space") space) λ s. ok (record { before = tenancy n d; space = s })

abbrev pub Statement : Type 0
Statement = Str × Binder

unfoldable pub keyed : Statements → Str → Str → Statement
keyed w statement key = (w.before ++ statement, (chars "k", text key) ∷ [])

-- `given[name] = value`.
unfoldable pub given : Str → Value → Statement → Statement
given name value (script, parameters) = (script, dict_set name value parameters)

unfoldable pub given_if : Str → Option Value → Statement → Statement
unfolding given
given_if name none statement = statement
given_if name (some value) statement = given name value statement

-- `f"{word} {space}:$k{rest}"`.
unfoldable pub at_key : Statements → Str → Str → Str
at_key w word rest = word ++ (w.space ++ (chars ":$k" ++ rest))

unfoldable pub get_statement : Statements → Str → Statement
unfolding keyed at_key
get_statement w key = keyed w (at_key w (chars "GET ") (chars ";")) key

unfoldable pub expiry : Option Value → Str
expiry none = []
expiry (some ttl) = chars " EXPIRE $t"

unfoldable pub set_statement :
    Statements → Str → Value → Str → Option Value → Option Value → Statement
unfolding keyed at_key given given_if expiry
set_statement w key value condition expected ttl = given_if (chars "t") ttl (
    given_if (chars "e") expected (
      given (chars "v") value (
        keyed w
          (at_key w (chars "SET ") (chars " = $v" ++ (condition ++ (expiry ttl ++ chars ";"))))
          key)))

unfoldable pub delete_statement : Statements → Str → Statement
unfolding keyed at_key
delete_statement w key = keyed w (at_key w (chars "DELETE ") (chars " RETURN BEFORE;")) key

unfoldable pub incr_statement : Statements → Str → ℤ → Statement
unfolding keyed at_key given
incr_statement w key by =
    given (chars "n") (integer by) (keyed w (at_key w (chars "INCR ") (chars " BY $n;")) key)

unfoldable pub ttl_statement : Statements → Str → Statement
unfolding keyed at_key
ttl_statement w key = keyed w (at_key w (chars "RETURN TTL ") (chars ";")) key

unfoldable pub expire_statement : Statements → Str → Value → Statement
unfolding keyed at_key given
expire_statement w key ttl =
    given (chars "t") ttl (keyed w (at_key w (chars "EXPIRE ") (chars " $t;")) key)

unfoldable pub persist_statement : Statements → Str → Statement
unfolding keyed at_key
persist_statement w key = keyed w (at_key w (chars "PERSIST ") (chars ";")) key

-- A clause of a listing with its parameter, and what goes before it.
unfoldable pub listed : Str → Str → Option Str → Statement → Statement
listed clause name none statement = statement
listed clause name (some t) (script, parameters) =
    (script ++ clause, dict_set name (text t) parameters)

-- `if prefix`: neither None nor empty.
unfoldable pub nonempty : Option Str → Option Str
nonempty (some (c ∷ t)) = some (c ∷ t)
nonempty _ = none

unfoldable pub limited : ℤ → Statement → Statement
limited limit (script, parameters) =
    (script ++ (chars " LIMIT " ++ (show_int limit ++ chars ";")), parameters)

unfoldable pub keys_statement : Statements → Option Str → Option Str → ℤ → Statement
unfolding listed nonempty limited
keys_statement w prefix after limit = limited limit (
    listed (chars " AFTER $a") (chars "a") after (
      listed (chars " PREFIX $p") (chars "p") (nonempty prefix)
        (w.before ++ (chars "KEYS FROM " ++ w.space), [])))

-- `_held`.
unfoldable pub held_statement : Statements → Str → Str → Str → Option Value → Statement
unfolding keyed at_key given given_if
held_statement w rest key holder ttl =
    given_if (chars "t") ttl
      (given (chars "h") (text holder) (keyed w (at_key w (chars "SET ") rest) key))

unfoldable pub lock_statement : Statements → Str → Str → Value → Statement
unfolding held_statement
lock_statement w key holder ttl =
    held_statement w (chars " = $h IF ABSENT EXPIRE $t;") key holder (some ttl)

unfoldable pub extend_statement : Statements → Str → Str → Value → Statement
unfolding held_statement
extend_statement w key holder ttl =
    held_statement w (chars " = $h IF = $h EXPIRE $t;") key holder (some ttl)

unfoldable pub release_lock_statement : Statements → Str → Str → Statement
unfolding held_statement
release_lock_statement w key holder =
    held_statement w (chars " = 'free' IF = $h EXPIRE 1ms;") key holder none

-- ===== src/Cache/Tests.antt =====
-- A store of one value behind its statements, and a cache over it.
use tessaridb_sdk_python.Worker.Answers.{answered_by}
use tessaridb_sdk_python.Cache.Operations.{get, value_of, if_any, set_if_absent, lasting, flag_of}
use tessaridb_sdk_python.Prelude.{
  ◌≡◌, refl, true, false, Option, none, some, List, [], ◌∷◌, if◌then◌else◌, pos, arith,
}
use tessaridb_sdk_python.Result.{Str, Result, ok}
use tessaridb_sdk_python.Value.{Value, bool, integer, duration}
use tessaridb_sdk_python.Dict.{str_eq, dict_get, dict_set}
use tessaridb_sdk_python.Text.{chars}
use tessaridb_sdk_python.Query.Filter.{Binder}
use tessaridb_sdk_python.Connection.Messages.{Reply}
use tessaridb_sdk_python.Worker.Names.{tenancy}
use tessaridb_sdk_python.Events.Literals.{is_none}
use tessaridb_sdk_python.Cache.Statements.{
  whole_seconds, to_duration, Statements, get_statement, set_statement, release_lock_statement,
  times,
}
use tessaridb_sdk_python.Cache.Operations.{get_or_set}
use tessaridb_sdk_python.Cache.Loading.{replied, or_none, is_some, Holds, get_or_set-Holds}

abbrev space : Statements
space = record { before = tenancy (chars "ns") (chars "db"); space = chars "cache" }

release_text :
    (release_lock_statement space (chars "job") (chars "me")).0
    ≡ chars "USE NAMESPACE ns; USE DATABASE db; SET cache:$k = 'free' IF = $h EXPIRE 1ms;"
unfolding release_lock_statement tenancy
release_text = refl

-- What is held; NONE is never.
abbrev held_value : Option Value → Option Value
held_value none = none
held_value (some v) = if is_none v then none else some v

-- What is stored, and what others will store or let expire, one before each statement.
abbrev World : Type 0
World = Option Value × List (Option Value)

abbrev meanwhile : World → World
meanwhile (s, []) = (s, [])
meanwhile (s, next ∷ others) = (next, others)

abbrev find : Str → World → Option Value
find key (s, others) = held_value s

abbrev put : Str → Value → World → World
put key v (s, others) = (some v, others)

abbrev store_if_absent : Option Value → World → Result Reply × World
store_if_absent given (s, others) = (
  ok (replied (bool (if is_some (held_value s) then false else true))),
  if is_some (held_value s) then (s, others) else (given, others),
)

-- The store knows two statements by their texts.
abbrev take_statement : Str → Binder → World → Result Reply × World
take_statement script given (s, others) =
    if str_eq script (chars "USE NAMESPACE ns; USE DATABASE db; GET cache:$k;")
    then (ok (replied (or_none (held_value s))), (s, others))
    else store_if_absent (dict_get (chars "v") given) (s, others)

abbrev answering : Str → Binder → World → Result Reply × World
answering script given s = take_statement script given (meanwhile s)

put_found :
    (key : Str) (v : Value) (s : World) → is_none v ≡ false → find key (put key v s) ≡ some v
put_found key v (s, others) h = rw h refl

no_none : (key : Str) (s : World) (v : Value) → find key s ≡ some v → is_none v ≡ false
no_none key (none, others) v h = cc
no_none key (some u, others) v h = ground arith

finds :
    (key : Str) (s : World)
    → answering (get_statement space key).0 (get_statement space key).1 s
      ≡ (ok (replied (or_none (find key (meanwhile s)))), meanwhile s)
unfolding get_statement tenancy str_eq
finds key s = refl

stores :
    (key : Str) (v d : Value) (s : World)
    → answering
        (set_statement space key v (chars " IF ABSENT") none (some d)).0
        (set_statement space key v (chars " IF ABSENT") none (some d)).1
        s
      ≡ (
        ok (replied (bool (if is_some (find key (meanwhile s)) then false else true))),
        if is_some (find key (meanwhile s)) then meanwhile s else put key v (meanwhile s),
      )
unfolding set_statement tenancy str_eq dict_get dict_set
stores key v d s = refl

minute : to_duration (whole_seconds (pos 60)) ≡ ok (duration (pos 60) (pos 0))
unfolding to_duration times
minute = refl

abbrev loader : World → Result Value × World
loader s = (ok (integer (pos 7)), s)

loader_some : (s : World) (made : Value) → (loader s).0 ≡ ok made → is_none made ≡ false
unfolding is_none
loader_some s made h = ground arith

-- Nothing is there when the key is asked for, 8 when 7 is to be stored, and nothing or 8 afterwards.
abbrev lost : World
lost = (none, none ∷ some (integer (pos 8)) ∷ none ∷ [])

abbrev kept : World
kept = (none, none ∷ some (integer (pos 8)) ∷ some (integer (pos 8)) ∷ [])

answers_own :
    (get_or_set answering space (chars "k") (whole_seconds (pos 60)) loader lost).0
    ≡ ok (integer (pos 7))
unfolding get_or_set get answered_by str_eq get_statement tenancy value_of if_any set_if_absent
    lasting to_duration set_statement flag_of
answers_own = refl

answers_winner :
    (get_or_set answering space (chars "k") (whole_seconds (pos 60)) loader kept).0
    ≡ ok (integer (pos 8))
unfolding get_or_set get answered_by str_eq get_statement tenancy value_of if_any set_if_absent
    lasting to_duration set_statement flag_of
answers_winner = refl

get_or_set-Holds_example :
    Holds answering space meanwhile find put finds stores put_found no_none
      (chars "k")
      (loader (meanwhile kept))
      (get_or_set answering space (chars "k") (whole_seconds (pos 60)) loader kept)
get_or_set-Holds_example =
    get_or_set-Holds answering space meanwhile find put finds stores put_found no_none (chars "k")
      (whole_seconds (pos 60)) (duration (pos 60) (pos 0)) loader kept minute loader_some

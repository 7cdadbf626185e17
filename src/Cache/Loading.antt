-- ===== src/Cache/Loading.antt =====
-- `get_or_set` against a store that finds and puts values under keys, while others may change it, and
-- its values expire, before every statement and when the loader runs.
use tessaridb_sdk_python.Prelude.{
  ◌≡◌, ◌⊎◌, refl, Bool, true, false, Option-cases, inl, inr, Option, none, some, [], ◌∷◌,
  if◌then◌else◌,
}
use tessaridb_sdk_python.Result.{Str, Result, ok, err}
use tessaridb_sdk_python.Value.{Value, none_value, bool}
use tessaridb_sdk_python.Text.{chars}
use tessaridb_sdk_python.Query.Filter.{Binder}
use tessaridb_sdk_python.Answer.Outcome.{value_outcome, done}
use tessaridb_sdk_python.Connection.Messages.{Reply}
use tessaridb_sdk_python.Worker.Answers.{answered_by}
use tessaridb_sdk_python.Events.Literals.{is_none}
use tessaridb_sdk_python.Cache.Statements.{
  Ttl, to_duration, Statements, get_statement, set_statement,
}
use tessaridb_sdk_python.Cache.Operations.{
  value_of, flag_of, if_any, lasting, value_answer, flag, then_take, get, set_if_absent,
  after_store, store_made, or_load, get_or_set,
}

-- What the node answers to the two `USE` statements and one more.
abbrev pub replied : Value → Reply
replied v = record { outcomes = done ∷ done ∷ value_outcome [] v ∷ []; redirect = none }

-- A value, or NONE where there is none.
abbrev pub or_none : Option Value → Value
or_none (some v) = v
or_none none = none_value

abbrev pub is_some : Option Value → Bool
is_some (some v) = true
is_some none = false

module _ {S : Type 0} (execute : Str → Binder → S → Result Reply × S) (w : Statements)
    -- What happens before a statement is answered: others write, and values expire.
    (meanwhile : S → S)
    -- What the store holds under a key, and the store with a value put under a key.
    (find : Str → S → Option Value) (put : Str → Value → S → S)
    (finds : (key : Str) (s : S)
      → execute (get_statement w key).0 (get_statement w key).1 s
        ≡ (ok (replied (or_none (find key (meanwhile s)))), meanwhile s))
    (stores : (key : Str) (v d : Value) (s : S)
      → execute
          (set_statement w key v (chars " IF ABSENT") none (some d)).0
          (set_statement w key v (chars " IF ABSENT") none (some d)).1
          s
        ≡ (
          ok (replied (bool (if is_some (find key (meanwhile s)) then false else true))),
          if is_some (find key (meanwhile s)) then meanwhile s else put key v (meanwhile s),
        ))
    (put_found : (key : Str) (v : Value) (s : S)
      → is_none v ≡ false
      → find key (put key v s) ≡ some v)
    (no_none : (key : Str) (s : S) (v : Value) → find key s ≡ some v → is_none v ≡ false) where
  if_any-find : (key : Str) (s : S) → if_any (or_none (find key s)) ≡ find key s
  unfolding if_any
  if_any-find key s = elim (Option-cases (find key s)) [
    | inl empty ↦ rw empty refl
    | inr (v, found) ↦ rw found (rw (no_none key s v found) refl)
  ]

  get-find : (key : Str) (s : S) → get execute w key s ≡ (ok (find key (meanwhile s)), meanwhile s)
  unfolding get value_answer then_take answered_by value_of
  get-find key s = rw (finds key s) (rw (if_any-find key (meanwhile s)) refl)

  set_if_absent-find :
      (key : Str) (v d : Value) (ttl : Ttl) (s : S)
      → to_duration ttl ≡ ok d
      → set_if_absent execute w key v (some ttl) s ≡ (
        ok (if is_some (find key (meanwhile s)) then false else true),
        if is_some (find key (meanwhile s)) then meanwhile s else put key v (meanwhile s),
      )
  unfolding set_if_absent lasting flag value_answer then_take answered_by value_of flag_of
  set_if_absent-find key v d ttl s h = rw h (rw (stores key v d s) refl)

  -- The value that was answered is the one that the store holds, or one that was made, and that was
  -- refused since the store held another, of which nothing is left.
  abbrev pub Holds : Str → Result Value × S → Result Value × S → Type 0
  Holds key (made, loaded) (ok v, s) =
      (find key s ≡ some v)
      ⊎ ((made ≡ ok v)
          × ((other : Value) × (find key (meanwhile loaded) ≡ some other))
          × (s ≡ meanwhile (meanwhile loaded))
          × (find key s ≡ none))
  Holds key (made, loaded) (err e, s) = made ≡ err e

  after_store-Holds :
      (key : Str) (made other : Value) (s : S) (again : Option Value)
      → find key (meanwhile s) ≡ some other
      → find key (meanwhile (meanwhile s)) ≡ again
      → Holds key (ok made, s) (after_store execute w key made (ok false, meanwhile s))
  unfolding after_store then_take
  after_store-Holds key made other s none held lost =
      rw (get-find key (meanwhile s), lost, then_take) (inr (refl, (other, held), refl, refl))
  after_store-Holds key made other s (some v) held kept =
      rw (get-find key (meanwhile s), kept, then_take) (inl refl)

  store_made-Holds :
      (key : Str) (ttl : Ttl) (d : Value) (p : Result Value × S)
      → to_duration ttl ≡ ok d
      → ((made : Value) → p.0 ≡ ok made → is_none made ≡ false)
      → Holds key p (store_made execute w key ttl p)
  unfolding store_made after_store
  store_made-Holds key ttl d (err e, s) h some_made = refl
  store_made-Holds key ttl d (ok made, s) h some_made =
      elim (Option-cases (find key (meanwhile s))) [
        | inl empty ↦
            let stored = rw empty at (set_if_absent-find key made d ttl s h) in
            rw (stored, after_store) (inl (put_found key made (meanwhile s) (some_made made refl)))
        | inr (other, held) ↦
            let refused = rw held at (set_if_absent-find key made d ttl s h) in
            rw refused
              (after_store-Holds key made other s (find key (meanwhile (meanwhile s))) held refl)
      ]

  or_load-Holds :
      (key : Str) (ttl : Ttl) (d : Value) (loader : S → Result Value × S) (found : Option Value)
      (s : S)
      → to_duration ttl ≡ ok d
      → ((s : S) (made : Value) → (loader s).0 ≡ ok made → is_none made ≡ false)
      → find key s ≡ found
      → Holds key (loader s) (or_load execute w key ttl loader (ok found, s))
  unfolding or_load
  or_load-Holds key ttl d loader (some v) s h some_made f = inl f
  or_load-Holds key ttl d loader none s h some_made f =
      store_made-Holds key ttl d (loader s) h (some_made s)

  -- Whatever others do to the store before each statement and while the loader runs, and whatever
  -- expires there, the value that `get_or_set` answers is the one that the store holds under the key
  -- after the last statement: what was found, what was stored first, or the winner's. There is one
  -- exception: the loader's own value is answered where the store refused it, since it held another
  -- when asked to store, and held none any more when asked again. An exception is the loader's. The
  -- store answers each statement as its contract says, holds no NONE, and the loader makes none; the
  -- ttl is positive.
  pub get_or_set-Holds :
      (key : Str) (ttl : Ttl) (d : Value) (loader : S → Result Value × S) (s : S)
      → to_duration ttl ≡ ok d
      → ((s : S) (made : Value) → (loader s).0 ≡ ok made → is_none made ≡ false)
      → Holds key (loader (meanwhile s)) (get_or_set execute w key ttl loader s)
  unfolding get_or_set
  get_or_set-Holds key ttl d loader s h some_made =
      rw (get-find key s)
        (or_load-Holds key ttl d loader (find key (meanwhile s)) (meanwhile s) h some_made refl)

-- ===== src/Script/Suggested.antt =====
-- The suggestion of a records outcome, by what the answer says of it.
use tessaridb_sdk_python.Prelude.{◌≡◌, refl, Bool, true, false, Option, none, some, List, [], ◌∷◌}
use tessaridb_sdk_python.Result.{Str, ok, OnOk, returned, OnOk-self, OnOk-if}
use tessaridb_sdk_python.Dict.{dict_get}
use tessaridb_sdk_python.Text.{chars}
use tessaridb_sdk_python.Json.Node.{Node, list, no_nodes, gettable, subscript, is_truthy, iterate}
use tessaridb_sdk_python.Json.Geometry.{each_of}
use tessaridb_sdk_python.Json.Leaves.{OnOk-then}
use tessaridb_sdk_python.Script.Outcome.{
  ScriptCorrection, ScriptSuggestion, never_consulted, nothing_near, corrected,
}
use tessaridb_sdk_python.Script.Reading.{
  get_default, read_correction, corrections_of, suggestion_of,
}

-- Whether a key of the answer has a value that is true.
abbrev pub is_set : Option Node → Bool
is_set none = false
is_set (some n) = is_truthy n

-- Each correction holds what its item has under "typed" and "instead".
abbrev pub Corrections : List Node → List ScriptCorrection → Type 0
Corrections [] [] = Unit
Corrections (n ∷ ns) (c ∷ cs) =
    (subscript (chars "typed") n ≡ ok c.typed)
    × (subscript (chars "instead") n ≡ ok c.instead)
    × Corrections ns cs
Corrections _ _ = ⊥

-- What the value of "suggestion" says: nothing where there is none, no correction where its
-- "corrections" are missing or empty, and otherwise those that it lists.
abbrev pub Suggests : Option Node → ScriptSuggestion → Type 0
Suggests n never_consulted = n ≡ none
Suggests n nothing_near =
    (m : Node) × (body : List (Str × Node)) × (n ≡ some m)
    × (gettable m ≡ ok body)
    × (is_set (dict_get (chars "corrections") body) ≡ false)
Suggests n (corrected cs) =
    (m : Node) × (body : List (Str × Node)) × (n ≡ some m)
    × (gettable m ≡ ok body)
    × (is_set (dict_get (chars "corrections") body) ≡ true)
    × (listed : Node) × (ns : List Node) × (dict_get (chars "corrections") body ≡ some listed)
    × (iterate listed ≡ ok ns)
    × Corrections ns cs

each_of-Corrections : (ns : List Node) → OnOk (Corrections ns) (each_of read_correction ns)
unfolding each_of read_correction
each_of-Corrections [] = returned tt
each_of-Corrections (n ∷ ns) =
    OnOk-then (read_correction n) (read_correction-there n) λ c (typed, instead).
      OnOk-then (each_of read_correction ns) (each_of-Corrections ns)
        λ cs rest. returned (typed, instead, rest)
  where
    read_correction-there :
        (n : Node)
        → OnOk
            (λ c.
              (subscript (chars "typed") n ≡ ok c.typed)
              × (subscript (chars "instead") n ≡ ok c.instead))
            (read_correction n)
    read_correction-there n = OnOk-then (subscript (chars "typed") n) (OnOk-self _) λ typed e.
        OnOk-then (subscript (chars "instead") n) (OnOk-self _) λ instead f. returned (e, f)

corrections_of-Suggests :
    (m : Node) (body : List (Str × Node)) (listed : Option Node)
    → gettable m ≡ ok body
    → dict_get (chars "corrections") body ≡ listed
    → OnOk (Suggests (some m)) (corrections_of (elim listed [ none ↦ list no_nodes | some n ↦ n ]))
unfolding corrections_of is_truthy
corrections_of-Suggests m body none got found = returned (m, body, refl, got, rw found refl)
corrections_of-Suggests m body (some listed) got found =
    OnOk-if (is_truthy listed)
      (λ e. OnOk-then (iterate listed) (OnOk-self (iterate listed)) λ ns all.
        OnOk-then (each_of read_correction ns) (each_of-Corrections ns)
          λ cs there. returned (m, body, refl, got, rw found e, listed, ns, found, all, there))
      (λ e. returned (m, body, refl, got, rw found e))

-- The suggestion that is read of a value of the key is the one that it says.
pub suggestion_of-Suggests : (n : Option Node) → OnOk (Suggests n) (suggestion_of n)
unfolding suggestion_of get_default
suggestion_of-Suggests none = returned refl
suggestion_of-Suggests (some n) =
    OnOk-then (gettable n) (OnOk-self (gettable n))
      λ body got. corrections_of-Suggests n body (dict_get (chars "corrections") body) got refl

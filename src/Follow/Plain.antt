-- ===== src/Follow/Plain.antt =====
-- The selecting script in a grammar of its own: a `USE` of each level that is selected, by a name.
use tessaridb_sdk_python.Prelude.{
  ℕ, ◌≤◌, ◌⊎◌, inl, inr, ◌≡◌, refl, ◌↔◌, true, Bool-cases, Option, none, some, List, [], ◌∷◌, ◌++◌,
  arith,
}
use tessaridb_sdk_python.Result.{Str, ok, bind-eq-ok, ok-injective}
use tessaridb_sdk_python.Dict.{dict_get}
use tessaridb_sdk_python.Text.{chars}
use tessaridb_sdk_python.Value.{Value}
use tessaridb_sdk_python.Follow.Selection.{
  use_word, namespace_word, database_word, plain_start, plain_char, plain_chars, is_plain, text_of,
  use_clause, use_clauses,
}

-- A letter or an underscore.
abbrev pub IsStart : ℕ → Type 0
IsStart c = ((65 ≤ c) × (c ≤ 90)) ⊎ (((97 ≤ c) × (c ≤ 122)) ⊎ (c ≡ 95))

-- Letters, underscores and digits.
abbrev pub AreRest : Str → Type 0
AreRest [] = Unit
AreRest (c ∷ cs) = (IsStart c ⊎ ((48 ≤ c) × (c ≤ 57))) × AreRest cs

-- A name begins with a letter or an underscore, and goes on with these and digits.
abbrev pub IsName : Str → Type 0
IsName [] = ⊥
IsName (c ∷ cs) = IsStart c × AreRest cs

-- The clause of a level that is selected by a name, or no text at all.
abbrev pub Selects : Str → Option Str → Str → Type 0
Selects word none clause = clause ≡ []
Selects word (some name) clause =
    IsName name × (clause ≡ chars "USE " ++ (word ++ (chars " " ++ (name ++ chars "; "))))

plain_start-IsStart : (c : ℕ) → plain_start c ≡ true → IsStart c
unfolding plain_start
plain_start-IsStart c h = ground arith

IsStart-plain_start : (c : ℕ) → IsStart c → plain_start c ≡ true
unfolding plain_start
IsStart-plain_start c h = ground arith

plain_chars-AreRest : (s : Str) → plain_chars s ≡ true → AreRest s
unfolding plain_chars plain_char
plain_chars-AreRest [] h = tt
plain_chars-AreRest (c ∷ s) h = ground (arith, plain_start-IsStart c, plain_chars-AreRest s)

AreRest-plain_chars : (s : Str) → AreRest s → plain_chars s ≡ true
unfolding plain_chars plain_char
AreRest-plain_chars [] h = refl
AreRest-plain_chars (c ∷ s) (h, hs) =
    ground (arith, IsStart-plain_start c, AreRest-plain_chars s hs)

is_plain-IsName : (s : Str) → is_plain s ≡ true → IsName s
unfolding is_plain
is_plain-IsName [] h = cc
is_plain-IsName (c ∷ s) h = ground (arith, plain_start-IsStart c, plain_chars-AreRest s)

IsName-is_plain : (s : Str) → IsName s → is_plain s ≡ true
unfolding is_plain
IsName-is_plain [] h = absurd h
IsName-is_plain (c ∷ s) (h, hs) = rw (IsStart-plain_start c h) (AreRest-plain_chars s hs)

use_clause-Selects :
    (word : Str) (held : Option Str) (clause : Str)
    → use_clause word held ≡ ok clause
    → Selects word held clause
unfolding use_clause
use_clause-Selects word none clause h = ground arith
use_clause-Selects word (some name) clause h = elim (Bool-cases (is_plain name)) [
  | inl plain ↦
      let spelled : use_word ++ (word ++ 32 ∷ (name ++ 59 ∷ 32 ∷ [])) ≡ clause = ground arith in
      (is_plain-IsName name plain, rw spelled refl)
  | inr not_plain ↦ ground arith
]

Selects-use_clause :
    (word : Str) (held : Option Str) (clause : Str)
    → Selects word held clause
    → use_clause word held ≡ ok clause
unfolding use_clause
Selects-use_clause word none clause h = rw h refl
Selects-use_clause word (some name) clause (is_name, h) = rw (IsName-is_plain name is_name, h) refl

-- The selecting script is made exactly of the clauses of the grammar: "USE NAMESPACE n; " if the
-- session has selected a namespace, which has to be a name, before "USE DATABASE d; " if it has
-- selected a database, which has to be one as well. A name begins with a letter or an underscore and
-- holds nothing but these and digits; where what is selected is no name, no script is made.
pub use_clauses-Selects :
    (fields : List (Str × Value)) (script : Str)
    → (use_clauses fields ≡ ok script) ↔ (
        (namespace database : Str) × Selects
          (chars "NAMESPACE")
          (text_of (dict_get (chars "namespace") fields))
          namespace
        × Selects (chars "DATABASE") (text_of (dict_get (chars "database") fields)) database
        × (script ≡ namespace ++ database))
unfolding use_clauses
use_clauses-Selects fields script = (
  λ h.
      let (namespace, e, h') =
        bind-eq-ok (use_clause namespace_word (text_of (dict_get (chars "namespace") fields))) _
          h in
      let (database, e', h'') =
        bind-eq-ok (use_clause database_word (text_of (dict_get (chars "database") fields))) _ h' in
      (
        namespace,
        database,
        use_clause-Selects namespace_word _ namespace e,
        use_clause-Selects database_word _ database e',
        rw (ok-injective h'') refl,
      ),
  λ (namespace, database, n, d, e).
      rw
        (
          Selects-use_clause namespace_word _ namespace n,
          Selects-use_clause database_word _ database d,
          e,
        )
        refl,
)

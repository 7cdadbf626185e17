-- ===== src/Follow/Selection.antt =====
-- `_context`, `_answered` and `_selection`: what a session says of itself, and the script that
-- selects its namespace and database again.
use tessaridb_sdk_python.Prelude.{
  ℕ, Bool, true, false, ◌&&◌, ◌||◌, Option, none, some, List, [], ◌∷◌, ◌++◌, leb, ◌==◌,
  if◌then◌else◌,
}
use tessaridb_sdk_python.Result.{Str, Result, ok, err, bind, malformed, not_followable}
use tessaridb_sdk_python.Dict.{dict_get}
use tessaridb_sdk_python.Value.{Value, text, object, fields_list}
use tessaridb_sdk_python.Answer.Outcome.{Outcome, value_outcome}
use tessaridb_sdk_python.Connection.Messages.{Reply}
use tessaridb_sdk_python.Connection.Session.{Session, and_then, ask}

-- "RETURN session::context();"
abbrev pub context_script : Str
context_script =
    82 ∷ 69 ∷ 84 ∷ 85 ∷ 82 ∷ 78 ∷ 32 ∷ 115 ∷ 101 ∷ 115 ∷ 115 ∷ 105 ∷ 111 ∷ 110 ∷ 58 ∷ 58 ∷ 99 ∷ 111
    ∷ 110 ∷ 116 ∷ 101 ∷ 120 ∷ 116 ∷ 40 ∷ 41 ∷ 59 ∷ []

-- "USE ", "NAMESPACE", "DATABASE", "namespace", "database" and "node".
abbrev pub use_word : Str
use_word = 85 ∷ 83 ∷ 69 ∷ 32 ∷ []

abbrev pub namespace_word : Str
namespace_word = 78 ∷ 65 ∷ 77 ∷ 69 ∷ 83 ∷ 80 ∷ 65 ∷ 67 ∷ 69 ∷ []

abbrev pub database_word : Str
database_word = 68 ∷ 65 ∷ 84 ∷ 65 ∷ 66 ∷ 65 ∷ 83 ∷ 69 ∷ []

abbrev pub namespace_key : Str
namespace_key = 110 ∷ 97 ∷ 109 ∷ 101 ∷ 115 ∷ 112 ∷ 97 ∷ 99 ∷ 101 ∷ []

abbrev pub database_key : Str
database_key = 100 ∷ 97 ∷ 116 ∷ 97 ∷ 98 ∷ 97 ∷ 115 ∷ 101 ∷ []

abbrev pub node_key : Str
node_key = 110 ∷ 111 ∷ 100 ∷ 101 ∷ []

-- `[A-Za-z_]` and `[A-Za-z0-9_]`.
unfoldable pub plain_start : ℕ → Bool
plain_start c = leb 65 c && leb c 90 || leb 97 c && leb c 122 || c == 95

unfoldable pub plain_char : ℕ → Bool
plain_char c = plain_start c || leb 48 c && leb c 57

unfoldable pub plain_chars : Str → Bool
plain_chars [] = true
plain_chars (c ∷ cs) = plain_char c && plain_chars cs

-- `_PLAIN.fullmatch`.
unfoldable pub is_plain : Str → Bool
is_plain [] = false
is_plain (c ∷ cs) = plain_start c && plain_chars cs

-- `reply.outcomes[-1]`, an object's fields.
unfoldable pub last_object : List Outcome → Result (List (Str × Value))
last_object [] = err malformed
last_object (value_outcome names (object fields) ∷ []) = ok (fields_list fields)
last_object (_ ∷ []) = err malformed
last_object (_ ∷ outcome ∷ outcomes) = last_object (outcome ∷ outcomes)

unfoldable pub not_redirected : Reply → Session Reply
not_redirected reply c = elim reply.redirect [ none ↦ (ok reply, c) | some _ ↦ (err malformed, c) ]

unfoldable pub answered : Str → Session Reply
answered script c = and_then (ask script [] c) not_redirected

unfoldable pub context : Session (List (Str × Value))
context c = and_then (answered context_script c) λ reply c'. (last_object reply.outcomes, c')

-- The name, if it is a `Text`.
unfoldable pub text_of : Option Value → Option Str
text_of (some (text name)) = some name
text_of _ = none

-- The `USE` of one level, when the session has selected one by a plain name.
unfoldable pub use_clause : Str → Option Str → Result Str
use_clause word none = ok []
use_clause word (some name) =
    if is_plain name
    then ok (use_word ++ (word ++ 32 ∷ (name ++ 59 ∷ 32 ∷ [])))
    else err (not_followable name)

unfoldable pub use_clauses : List (Str × Value) → Result Str
use_clauses fields =
    bind (use_clause namespace_word (text_of (dict_get namespace_key fields))) λ namespace.
      bind (use_clause database_word (text_of (dict_get database_key fields)))
        λ database. ok (namespace ++ database)

-- `_selection`.
unfoldable pub selection : Session Str
selection c = and_then (context c) λ fields c'. (use_clauses fields, c')

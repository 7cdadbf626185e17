-- ===== src/Worker/Names.antt =====
-- The names that a worker sends, and the `USE` statements before each of its statements.
use tessaridb_sdk_python.Prelude.{
  ℕ, Bool, true, ◌&&◌, ◌||◌, [], ◌∷◌, ◌++◌, length, leb, ◌==◌, if◌then◌else◌,
}
use tessaridb_sdk_python.Result.{Str, Result, ok, err, builder, not_a_name}
use tessaridb_sdk_python.Text.{chars}
use tessaridb_sdk_python.Follow.Selection.{plain_char}

-- `[A-Za-z0-9_.:-]`.
unfoldable pub worker_char : ℕ → Bool
worker_char c = plain_char c || c == 46 || c == 58 || c == 45

unfoldable pub worker_chars : Str → Bool
worker_chars [] = true
worker_chars (c ∷ cs) = worker_char c && worker_chars cs

-- `[A-Za-z0-9_.:-]{1,128}\Z`.
unfoldable pub is_worker : Str → Bool
unfolding worker_chars
is_worker name = leb 1 (length name) && leb (length name) 128 && worker_chars name

unfoldable pub check_worker : Str → Str → Result Str
check_worker what name = if is_worker name then ok name else err (builder (not_a_name what name))

-- `f"USE NAMESPACE {namespace}; USE DATABASE {database}; "`.
unfoldable pub tenancy : Str → Str → Str
tenancy namespace database =
    chars "USE NAMESPACE " ++ (namespace ++ (chars "; USE DATABASE " ++ (database ++ chars "; ")))

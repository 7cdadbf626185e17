-- ===== src/Vault/Statements.antt =====
-- `_Statements` and `audit_statement` of vault.py.
use tessaridb_sdk_python.Prelude.{
  ℕ, suc, ℤ, pos, negsuc, ◌&&◌, Option, none, some, List, [], ◌∷◌, ◌++◌, map, leb, if◌then◌else◌,
}
use tessaridb_sdk_python.Result.{Bytes, Str, Result, ok, err, bind, value_error}
use tessaridb_sdk_python.Value.{Value, text, bytes}
use tessaridb_sdk_python.Dict.{dict_set, sort_by_name}
use tessaridb_sdk_python.Text.{chars, show, join_with}
use tessaridb_sdk_python.Query.Names.{check_name}
use tessaridb_sdk_python.Query.Filter.{Binder}
use tessaridb_sdk_python.Worker.Names.{tenancy}

abbrev pub Statement : Type 0
Statement = Str × Binder

-- `_tenancy`.
unfoldable pub checked_tenancy : Str → Str → Result Str
checked_tenancy namespace database =
    bind (check_name (chars "a namespace") namespace)
      λ n. bind (check_name (chars "a database") database) λ d. ok (tenancy n d)

pub record Statements : Type 0 where
  pub before : Str
  pub vault_name : Str

unfoldable pub statements : Str → Str → Str → Result Statements
unfolding checked_tenancy
statements namespace database vault = bind (checked_tenancy namespace database) λ before.
    bind (check_name (chars "a vault") vault) λ v. ok (record { before = before; vault_name = v })

unfoldable pub audit_statement : Str → Str → Option Str → Result Statement
unfolding checked_tenancy
audit_statement namespace database none =
    bind (checked_tenancy namespace database) λ before. ok (before ++ chars "INFO FOR AUDIT;", [])
audit_statement namespace database (some actor) =
    bind (checked_tenancy namespace database) λ before.
      bind (check_name (chars "an actor") actor)
        λ a. ok (before ++ (chars "INFO FOR AUDIT BY " ++ (a ++ chars ";")), [])

unfoldable pub after_clause : Statements → Option Value → Statement
after_clause w none = ([], [])
after_clause w (some after) =
    (chars " AFTER " ++ (w.vault_name ++ chars ":$after"), (chars "after", after) ∷ [])

unfoldable pub limit_clause : Option ℤ → Result Str
limit_clause none = ok []
limit_clause (some (pos n)) =
    if leb 1 n && leb n 10_000 then ok (chars " LIMIT " ++ show n) else err value_error
limit_clause (some (negsuc n)) = err value_error

unfoldable pub list_statement : Statements → Option Value → Option ℤ → Result Statement
unfolding after_clause limit_clause
list_statement w after limit = bind (limit_clause limit) λ limited.
    let (clause, given) = after_clause w after in
    ok (
      w.before
          ++ (chars "INFO FOR VAULT "
              ++ (w.vault_name ++ (chars " RECORDS" ++ (clause ++ (limited ++ chars ";"))))),
      given,
    )

-- `_sorted_fields`, with what each name holds.
unfoldable pub check_names : {A : Type 0} → List (Str × A) → Result (List (Str × A))
check_names [] = ok []
check_names ((name, a) ∷ items) =
    bind (check_name (chars "a field") name)
      λ n. bind (check_names items) λ others. ok ((n, a) ∷ others)

unfoldable pub sorted_fields : {A : Type 0} → List (Str × A) → Result (List (Str × A))
unfolding check_names
sorted_fields items = bind (check_names items) λ checked. ok (sort_by_name checked)

unfoldable pub in_quotes : {A : Type 0} → Str × A → Str
in_quotes (name, a) = chars "'" ++ (name ++ chars "'")

unfoldable pub which_fields : {A : Type 0} → List (Str × A) → Str
which_fields [] = chars "*"
which_fields (item ∷ items) = join_with (chars ", ") (map in_quotes (item ∷ items))

-- The text behind a word with the record, bound as `$id`.
unfoldable pub at_record : Statements → Str → Str → Value → Statement
at_record w word rest id =
    (w.before ++ (word ++ (w.vault_name ++ (chars ":$id" ++ rest))), (chars "id", id) ∷ [])

unfoldable pub unnamed : Str → Str × Unit {0}
unnamed name = (name, tt)

unfoldable pub reveal_statement : Statements → Value → List Str → Result Statement
unfolding at_record which_fields
reveal_statement w id fields = bind (sorted_fields (map unnamed fields)) λ names.
    ok (at_record w (chars "REVEAL " ++ (which_fields names ++ chars " FROM ")) (chars ";") id)

-- The pairs from `$f<index>` on, and the parameters with what they hold.
unfoldable pub numbered_pairs : ℕ → List (Str × Value) → List Str
numbered_pairs index [] = []
numbered_pairs index ((name, v) ∷ fields) =
    (chars "'" ++ (name ++ (chars "': $f" ++ show index))) ∷ numbered_pairs (suc index) fields

unfoldable pub give_fields : ℕ → List (Str × Value) → Binder → Binder
give_fields index [] given = given
give_fields index ((name, v) ∷ fields) given =
    give_fields (suc index) fields (dict_set (chars "f" ++ show index) v given)

unfoldable pub write_statement : Statements → Value → List (Str × Value) → Result Statement
unfolding at_record give_fields numbered_pairs
write_statement w id [] = err value_error
write_statement w id (field ∷ fields) = bind (sorted_fields (field ∷ fields)) λ sorted.
    let pairs = join_with (chars ", ") (numbered_pairs 0 sorted) in
    let (script, given) =
      at_record w (chars "UPSERT ") (chars " MERGE { " ++ (pairs ++ chars " };")) id in
    ok (script, give_fields 0 sorted given)

unfoldable pub recipients_statement : Statements → Value → Statement
unfolding at_record
recipients_statement w id = at_record w (chars "INFO FOR RECIPIENTS OF ") (chars ";") id

unfoldable pub given_name : Str → Statement → Statement
given_name name (script, given) = (script, given ++ (chars "name", text name) ∷ [])

unfoldable pub given_key : Bytes → Statement → Statement
given_key key (script, given) = (script, given ++ (chars "key", bytes key) ∷ [])

unfoldable pub add_recipient_statement : Statements → Value → Str → Bytes → Statement
unfolding at_record given_name given_key
add_recipient_statement w id name key =
    given_key key
      (given_name name (at_record w (chars "ADD RECIPIENT $name TO ") (chars " KEY $key;") id))

unfoldable pub remove_recipient_statement : Statements → Value → Str → Statement
unfolding at_record given_name
remove_recipient_statement w id name =
    given_name name (at_record w (chars "REMOVE RECIPIENT $name FROM ") (chars ";") id)

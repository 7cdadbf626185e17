-- ===== src/Containers/Statements.antt =====
-- `_ContainerStatements` of _container_statements.py, over the names of a cache. A score is the bits
-- of a double.
use tessaridb_sdk_python.Prelude.{
  ℕ, suc, ℤ, Bool, true, false, Option, none, some, List, [], ◌∷◌, ◌++◌, map,
}
use tessaridb_sdk_python.Result.{Str}
use tessaridb_sdk_python.Value.{Value, integer, float, text}
use tessaridb_sdk_python.Text.{chars, show, join_with}
use tessaridb_sdk_python.Cache.Statements.{Statements, Statement, keyed, given, given_if, at_key}

-- `given[f"{prefix}{at}"] = value` for each value, and the references to them.
unfoldable pub give_values : Str → ℕ → List Value → Statement → Statement
unfolding given
give_values prefix at [] statement = statement
give_values prefix at (v ∷ vs) statement =
    give_values prefix (suc at) vs (given (prefix ++ show at) v statement)

unfoldable pub value_names : Str → ℕ → List Value → List Str
value_names prefix at [] = []
value_names prefix at (v ∷ vs) = (chars "$" ++ (prefix ++ show at)) ∷ value_names prefix (suc at) vs

-- `_numbered`, of what stands before the key, and between it and the list.
unfoldable pub numbered_statement : Statements → Str → Str → Str → Str → List Value → Statement
unfolding keyed give_values at_key
numbered_statement w word rest key prefix vs = give_values prefix 0 vs (
    keyed w
      (at_key w word (rest ++ (join_with (chars ", ") (value_names prefix 0 vs) ++ chars ";"))) key)

-- `_paired`.
unfoldable pub give_pairs : Str → Str → ℕ → List (Value × Value) → Statement → Statement
unfolding given
give_pairs left right at [] statement = statement
give_pairs left right at ((name, value) ∷ pairs) statement =
    give_pairs left right (suc at) pairs
      (given (right ++ show at) value (given (left ++ show at) name statement))

unfoldable pub pair_texts : Str → Str → ℕ → List (Value × Value) → List Str
pair_texts left right at [] = []
pair_texts left right at (pair ∷ pairs) =
    (chars "$" ++ (left ++ (show at ++ (chars " = $" ++ (right ++ show at)))))
    ∷ pair_texts left right (suc at) pairs

unfoldable pub paired_statement :
    Statements → Str → Str → Str → Str → List (Value × Value) → Statement
unfolding keyed give_pairs at_key
paired_statement w word key left right pairs = give_pairs left right 0 pairs (
    keyed w
      (at_key w word
        (chars " " ++ (join_with (chars ", ") (pair_texts left right 0 pairs) ++ chars ";")))
      key)

-- `_bound`.
unfoldable pub bound_statement : Statements → Str → Str → Str → Statement
unfolding keyed at_key
bound_statement w word rest key = keyed w (at_key w word rest) key

unfoldable pub end_text : Bool → Str
end_text true = chars " FRONT"
end_text false = chars " BACK"

unfoldable pub list_push_statement : Statements → Str → List Value → Bool → Statement
unfolding numbered_statement
list_push_statement w key vs front =
    numbered_statement w (chars "LIST PUSH ") (end_text front ++ chars " ") key (chars "v") vs

unfoldable pub list_pop_statement : Statements → Str → Bool → Option ℤ → Statement
unfolding bound_statement end_text
list_pop_statement w key front none =
    bound_statement w (chars "LIST POP ") (end_text front ++ chars ";") key
list_pop_statement w key front (some count) =
    given (chars "n") (integer count)
      (bound_statement w (chars "LIST POP ") (end_text front ++ chars " LIMIT $n;") key)

unfoldable pub list_range_statement : Statements → Str → ℤ → ℤ → Statement
unfolding bound_statement
list_range_statement w key start count = given (chars "n") (integer count) (
    given (chars "i") (integer start)
      (bound_statement w (chars "RETURN array::slice(GET ") (chars ", $i, $n);") key))

unfoldable pub list_at_statement : Statements → Str → ℤ → Statement
unfolding bound_statement
list_at_statement w key index =
    given (chars "i") (integer index)
      (bound_statement w (chars "RETURN array::at(GET ") (chars ", $i);") key)

unfoldable pub list_len_statement : Statements → Str → Statement
unfolding bound_statement
list_len_statement w key = bound_statement w (chars "RETURN array::len(GET ") (chars ");") key

unfoldable pub map_option : {A : Type 0} → (A → Value) → Option A → Option Value
map_option f none = none
map_option f (some a) = some (f a)

unfoldable pub limit_text : Option ℤ → Str
limit_text none = []
limit_text (some count) = chars " LIMIT $n"

unfoldable pub list_remove_statement : Statements → Str → Value → Option ℤ → Statement
unfolding bound_statement limit_text
list_remove_statement w key value count = given_if (chars "n") (map_option integer count) (
    given (chars "v") value (
      bound_statement w (chars "LIST REMOVE ") (chars " $v" ++ (limit_text count ++ chars ";"))
        key))

unfoldable pub list_trim_statement : Statements → Str → ℤ → ℤ → Statement
unfolding bound_statement
list_trim_statement w key start stop = given (chars "j") (integer stop) (
    given (chars "i") (integer start)
      (bound_statement w (chars "LIST TRIM ") (chars " FROM $i TO $j;") key))

unfoldable pub named_text : Str × Value → Value × Value
named_text (name, value) = (text name, value)

unfoldable pub hash_set_statement : Statements → Str → List (Str × Value) → Statement
unfolding paired_statement named_text
hash_set_statement w key fields =
    paired_statement w (chars "HASH SET ") key (chars "f") (chars "v") (map named_text fields)

unfoldable pub hash_get_statement : Statements → Str → Str → Statement
unfolding bound_statement
hash_get_statement w key field =
    given (chars "f") (text field)
      (bound_statement w (chars "RETURN object::get(GET ") (chars ", $f);") key)

unfoldable pub hash_remove_statement : Statements → Str → List Str → Statement
unfolding numbered_statement
hash_remove_statement w key fields =
    numbered_statement w (chars "HASH REMOVE ") (chars " ") key (chars "f") (map text fields)

unfoldable pub hash_incr_statement : Statements → Str → Str → ℤ → Statement
unfolding bound_statement
hash_incr_statement w key field by = given (chars "n") (integer by) (
    given (chars "f") (text field)
      (bound_statement w (chars "HASH INCR ") (chars " $f BY $n;") key))

unfoldable pub hash_len_statement : Statements → Str → Statement
unfolding bound_statement
hash_len_statement w key = bound_statement w (chars "RETURN object::len(GET ") (chars ");") key

unfoldable pub members_statement : Statements → Str → Str → List Value → Statement
unfolding numbered_statement
members_statement w verb key members =
    numbered_statement w (chars "MEMBERS " ++ (verb ++ chars " ")) (chars " ") key (chars "v")
      members

unfoldable pub members_has_statement : Statements → Str → Value → Statement
unfolding bound_statement
members_has_statement w key member =
    given (chars "v") member (bound_statement w (chars "RETURN $v IN GET ") (chars ";") key)

unfoldable pub members_len_statement : Statements → Str → Statement
unfolding bound_statement
members_len_statement w key = bound_statement w (chars "RETURN set::len(GET ") (chars ");") key

unfoldable pub as_score : Str × ℕ → Value × Value
as_score (member, score) = (text member, float score)

unfoldable pub scores_add_statement : Statements → Str → List (Str × ℕ) → Statement
unfolding paired_statement as_score
scores_add_statement w key scores =
    paired_statement w (chars "SCORES ADD ") key (chars "m") (chars "c") (map as_score scores)

unfoldable pub scores_incr_statement : Statements → Str → Str → ℕ → Statement
unfolding bound_statement
scores_incr_statement w key member by = given (chars "c") (float by) (
    given (chars "m") (text member)
      (bound_statement w (chars "SCORES INCR ") (chars " $m BY $c;") key))

unfoldable pub scores_remove_statement : Statements → Str → List Str → Statement
unfolding numbered_statement
scores_remove_statement w key members =
    numbered_statement w (chars "SCORES REMOVE ") (chars " ") key (chars "m") (map text members)

unfoldable pub scores_of_statement : Statements → Str → Str → Str → Statement
unfolding bound_statement
scores_of_statement w function key member = given (chars "m") (text member) (
    bound_statement w (chars "RETURN scores::" ++ (function ++ chars "(GET ")) (chars ", $m);") key)

unfoldable pub scores_range_statement : Statements → Str → ℤ → ℤ → Statement
unfolding bound_statement
scores_range_statement w key start stop = given (chars "j") (integer stop) (
    given (chars "i") (integer start)
      (bound_statement w (chars "RETURN scores::range(GET ") (chars ", $i, $j);") key))

-- An absent bound is written NONE in its place.
unfoldable pub bound_text : Str → Option ℕ → Str
bound_text name none = chars "NONE"
bound_text name (some score) = chars "$" ++ name

unfoldable pub scores_between_statement : Statements → Str → Option ℕ → Option ℕ → Statement
unfolding bound_statement bound_text
scores_between_statement w key low high =
    let rest =
      chars ", "
      ++ (bound_text (chars "lo") low
          ++ (chars ", " ++ (bound_text (chars "hi") high ++ chars ");"))) in
    given_if (chars "hi") (map_option float high) (
      given_if (chars "lo") (map_option float low)
        (bound_statement w (chars "RETURN scores::between(GET ") rest key))

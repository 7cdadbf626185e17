-- ===== src/Containers/Operations.antt =====
-- The calls of `_Containers`, over what the connection executes.
use tessaridb_sdk_python.Prelude.{
  ℕ, ℤ, pos, negsuc, Bool, Option, none, some, List, [], ◌∷◌, if◌then◌else◌,
}
use tessaridb_sdk_python.Result.{Str, Result, ok, err, bind, value_error}
use tessaridb_sdk_python.Value.{
  Value, no_items, item, none_value, float, text, array, set, object, items_list, fields_list,
}
use tessaridb_sdk_python.Text.{chars}
use tessaridb_sdk_python.Query.Filter.{Binder}
use tessaridb_sdk_python.Connection.Messages.{Reply}
use tessaridb_sdk_python.Events.Literals.{is_finite}
use tessaridb_sdk_python.Cache.Statements.{Statements, Statement, get_statement}
use tessaridb_sdk_python.Cache.Operations.{
  integer_of, flag_of, if_any, then_take, checked, value_answer,
}
use tessaridb_sdk_python.Containers.Statements.{
  list_push_statement, list_pop_statement, list_range_statement, list_at_statement,
  list_len_statement, list_remove_statement, list_trim_statement, hash_set_statement,
  hash_get_statement, hash_remove_statement, hash_incr_statement, hash_len_statement,
  members_statement, members_has_statement, members_len_statement, scores_add_statement,
  scores_incr_statement, scores_remove_statement, scores_of_statement, scores_range_statement,
  scores_between_statement,
}

-- `_some` and `_whole`, and `_finite` of the bits of a double.
unfoldable pub not_empty : {A : Type 0} → List A → Result (List A)
not_empty [] = err value_error
not_empty (a ∷ others) = ok (a ∷ others)

unfoldable pub not_negative : ℤ → Result ℤ
not_negative (pos n) = ok (pos n)
not_negative (negsuc n) = err value_error

unfoldable pub limit_of : Option ℤ → Result (Option ℤ)
unfolding not_negative
limit_of none = ok none
limit_of (some count) = bind (not_negative count) λ n. ok (some n)

unfoldable pub finite : ℕ → Result ℕ
finite bits = if is_finite bits then ok bits else err value_error

unfoldable pub all_finite : List (Str × ℕ) → Result (List (Str × ℕ))
unfolding finite
all_finite [] = ok []
all_finite ((member, score) ∷ scores) =
    bind (finite score) λ bits. bind (all_finite scores) λ others. ok ((member, bits) ∷ others)

-- `_length`, `_items` and `_ranked`.
unfoldable pub length_of : Value → Result ℤ
length_of none_value = ok (pos 0)
length_of v = integer_of v

unfoldable pub array_items : Value → Result (List Value)
array_items none_value = ok []
array_items (array items) = ok (items_list items)
array_items _ = err value_error

unfoldable pub ranked_pair : Value → Result (Str × ℕ)
ranked_pair (array (item (text member) (item (float score) no_items))) = ok (member, score)
ranked_pair _ = err value_error

unfoldable pub ranked_pairs : List Value → Result (List (Str × ℕ))
unfolding ranked_pair
ranked_pairs [] = ok []
ranked_pairs (v ∷ vs) =
    bind (ranked_pair v) λ pair. bind (ranked_pairs vs) λ others. ok (pair ∷ others)

unfoldable pub ranked : Value → Result (List (Str × ℕ))
unfolding array_items ranked_pairs
ranked v = bind (array_items v) ranked_pairs

unfoldable pub hash_of : Value → Result (List (Str × Value))
hash_of none_value = ok []
hash_of (object fields) = ok (fields_list fields)
hash_of _ = err value_error

unfoldable pub set_of : Value → Result (List Value)
set_of none_value = ok []
set_of (set items) = ok (items_list items)
set_of _ = err value_error

unfoldable pub score_of : Value → Result ℕ
score_of (float bits) = ok bits
score_of _ = err value_error

unfoldable pub score_if_any : Value → Result (Option ℕ)
unfolding score_of
score_if_any none_value = ok none
score_if_any v = bind (score_of v) λ bits. ok (some bits)

unfoldable pub rank_if_any : Value → Result (Option ℤ)
rank_if_any none_value = ok none
rank_if_any v = bind (integer_of v) λ n. ok (some n)

module _ {S : Type 0} (execute : Str → Binder → S → Result Reply × S) where
  -- What is made of the value that a statement answers with.
  unfoldable pub take_read : {A : Type 0} → (Value → Result A) → Statement → S → Result A × S
  take_read take statement s = then_take execute take (value_answer execute statement s)

  unfoldable pub list_push : Statements → Str → List Value → Bool → S → Result ℤ × S
  unfolding take_read
  list_push w key vs front =
      checked execute (not_empty vs) λ vs. take_read integer_of (list_push_statement w key vs front)

  unfoldable pub list_pop : Statements → Str → Bool → S → Result (Option Value) × S
  unfolding take_read
  list_pop w key front = take_read (λ v. ok (if_any v)) (list_pop_statement w key front none)

  unfoldable pub list_pop_many : Statements → Str → ℤ → Bool → S → Result (List Value) × S
  unfolding take_read
  list_pop_many w key count front =
      checked execute (not_negative count)
        λ n. take_read array_items (list_pop_statement w key front (some n))

  unfoldable pub list_range : Statements → Str → ℤ → ℤ → S → Result (List Value) × S
  unfolding take_read
  list_range w key start count = checked execute (not_negative start) λ i.
      checked execute (not_negative count)
        λ n. take_read array_items (list_range_statement w key i n)

  unfoldable pub list_at : Statements → Str → ℤ → S → Result (Option Value) × S
  unfolding take_read
  list_at w key index = take_read (λ v. ok (if_any v)) (list_at_statement w key index)

  unfoldable pub list_len : Statements → Str → S → Result ℤ × S
  unfolding take_read
  list_len w key = take_read length_of (list_len_statement w key)

  unfoldable pub list_remove : Statements → Str → Value → Option ℤ → S → Result ℤ × S
  unfolding take_read
  list_remove w key value count =
      checked execute (limit_of count)
        λ n. take_read integer_of (list_remove_statement w key value n)

  unfoldable pub list_trim : Statements → Str → ℤ → ℤ → S → Result (Unit {0}) × S
  unfolding take_read
  list_trim w key start stop = take_read (λ v. ok tt) (list_trim_statement w key start stop)

  unfoldable pub hash_set : Statements → Str → List (Str × Value) → S → Result ℤ × S
  unfolding take_read
  hash_set w key fields =
      checked execute (not_empty fields) λ fs. take_read integer_of (hash_set_statement w key fs)

  unfoldable pub hash_get : Statements → Str → Str → S → Result (Option Value) × S
  unfolding take_read
  hash_get w key field = take_read (λ v. ok (if_any v)) (hash_get_statement w key field)

  unfoldable pub hash_get_all : Statements → Str → S → Result (List (Str × Value)) × S
  unfolding take_read
  hash_get_all w key = take_read hash_of (get_statement w key)

  unfoldable pub hash_remove : Statements → Str → List Str → S → Result ℤ × S
  unfolding take_read
  hash_remove w key fields =
      checked execute (not_empty fields) λ fs. take_read integer_of (hash_remove_statement w key fs)

  unfoldable pub hash_incr : Statements → Str → Str → ℤ → S → Result ℤ × S
  unfolding take_read
  hash_incr w key field by = take_read integer_of (hash_incr_statement w key field by)

  unfoldable pub hash_len : Statements → Str → S → Result ℤ × S
  unfolding take_read
  hash_len w key = take_read length_of (hash_len_statement w key)

  unfoldable pub members_add : Statements → Str → List Value → S → Result ℤ × S
  unfolding take_read
  members_add w key members =
      checked execute (not_empty members)
        λ ms. take_read integer_of (members_statement w (chars "ADD") key ms)

  unfoldable pub members_remove : Statements → Str → List Value → S → Result ℤ × S
  unfolding take_read
  members_remove w key members =
      checked execute (not_empty members)
        λ ms. take_read integer_of (members_statement w (chars "REMOVE") key ms)

  unfoldable pub members_has : Statements → Str → Value → S → Result Bool × S
  unfolding take_read
  members_has w key member = take_read flag_of (members_has_statement w key member)

  unfoldable pub members_all : Statements → Str → S → Result (List Value) × S
  unfolding take_read
  members_all w key = take_read set_of (get_statement w key)

  unfoldable pub members_len : Statements → Str → S → Result ℤ × S
  unfolding take_read
  members_len w key = take_read length_of (members_len_statement w key)

  unfoldable pub scores_add : Statements → Str → List (Str × ℕ) → S → Result ℤ × S
  unfolding take_read
  scores_add w key scores =
      checked execute (bind (not_empty scores) all_finite)
        λ given. take_read integer_of (scores_add_statement w key given)

  unfoldable pub scores_incr : Statements → Str → Str → ℕ → S → Result ℕ × S
  unfolding take_read
  scores_incr w key member by =
      checked execute (finite by)
        λ bits. take_read score_of (scores_incr_statement w key member bits)

  unfoldable pub scores_remove : Statements → Str → List Str → S → Result ℤ × S
  unfolding take_read
  scores_remove w key members =
      checked execute (not_empty members)
        λ ms. take_read integer_of (scores_remove_statement w key ms)

  unfoldable pub scores_score : Statements → Str → Str → S → Result (Option ℕ) × S
  unfolding take_read
  scores_score w key member =
      take_read score_if_any (scores_of_statement w (chars "score") key member)

  unfoldable pub scores_rank : Statements → Str → Str → S → Result (Option ℤ) × S
  unfolding take_read
  scores_rank w key member = take_read rank_if_any (scores_of_statement w (chars "rank") key member)

  unfoldable pub scores_range : Statements → Str → ℤ → ℤ → S → Result (List (Str × ℕ)) × S
  unfolding take_read
  scores_range w key start stop = take_read ranked (scores_range_statement w key start stop)

  unfoldable pub scores_between :
      Statements → Str → Option ℕ → Option ℕ → S → Result (List (Str × ℕ)) × S
  unfolding take_read
  scores_between w key low high = take_read ranked (scores_between_statement w key low high)

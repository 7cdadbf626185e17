-- ===== src/Query/Reading.antt =====
-- A reader of rendered filters, and the way back from a rendering to the filter.
use tessaridb_sdk_python.Prelude.{
  ℕ, zero, suc, ◌+◌, true, false, [], ◌∷◌, ◌++◌, length, some, none, Option,
}
use tessaridb_sdk_python.Result.{Str}
use tessaridb_sdk_python.Dict.{dict_get}
use tessaridb_sdk_python.Text.{chars, read_nat, strip, first_of}
use tessaridb_sdk_python.Follow.Selection.{plain_char}
use tessaridb_sdk_python.Query.Filter.{
  Operator, eq, ne, lt, le, gt, ge, operator_text, Word, all_of, any_of, word_text, Filter,
  comparison, junction, Binder, reference,
}
use tessaridb_sdk_python.Query.Binding.{values}

-- A filter with the numbers of its values in their places.
pub data Tree : Type 0 where
  compares : Str → Operator → ℕ → Tree
  joins : Word → Tree → Tree → Tree

-- The characters of a name at the front, and what follows them.
unfoldable pub take_name : Str → Str × Str
take_name [] = ([], [])
take_name (c ∷ t) =
    let (name, rest) = take_name t in
    elim (plain_char c) [ true ↦ (c ∷ name, rest) | false ↦ ([], c ∷ t) ]

-- An operator with the sign of a reference behind it; a word between two sides.
abbrev pub before_reference : Operator → Str
before_reference op = chars " " ++ (operator_text op ++ chars " $p")

abbrev pub between : Word → Str
between word = chars " " ++ (word_text word ++ chars " ")

-- What follows a name is an operator and a number.
unfoldable pub read_comparison : Str × Str → Option (Tree × Str)
read_comparison (name, t) = elim (first_of before_reference (eq ∷ ne ∷ lt ∷ le ∷ gt ∷ ge ∷ []) t) [
  | none ↦ none
  | some (op, number) ↦ let (n, rest) = read_nat 0 number in some (compares name op n, rest)
]

unfoldable pub closing : Word → Tree → Option (Tree × Str) → Option (Tree × Str)
closing word left none = none
closing word left (some (right, t)) = elim (strip (chars ")") t) [
  | none ↦ none
  | some rest ↦ some (joins word left right, rest)
]

-- Behind the left side: the word, and the right side by the reader `read`.
unfoldable pub right_side : (Str → Option (Tree × Str)) → Option (Tree × Str) → Option (Tree × Str)
unfolding closing
right_side read none = none
right_side read (some (left, t)) = elim (first_of between (all_of ∷ any_of ∷ []) t) [
  | none ↦ none
  | some (word, rest) ↦ closing word left (read rest)
]

-- A comparison, or two sides in parentheses, nested at most as deep as there is fuel.
unfoldable pub read_filter : ℕ → Str → Option (Tree × Str)
unfolding read_comparison right_side
read_filter zero t = none
read_filter (suc fuel) t = elim (strip (chars "(") t) [
  | none ↦ read_comparison (take_name t)
  | some rest ↦ right_side (read_filter fuel) (read_filter fuel rest)
]

-- The filter again: its values stand in the parameters.
unfoldable pub resolve : Binder → Tree → Option Filter
resolve binder (compares name op n) = elim (dict_get (reference n) binder) [
  | none ↦ none
  | some v ↦ some (comparison name op v)
]
resolve binder (joins word left right) = elim (resolve binder left) [
  | none ↦ none
  | some l ↦ elim (resolve binder right) [ none ↦ none | some r ↦ some (junction word l r) ]
]

-- A rendering read as a whole.
unfoldable pub read_rendering : Str × Binder → Option Filter
unfolding read_filter
read_rendering (t, binder) = elim (read_filter (length t) t) [
  | none ↦ none
  | some (tree, rest) ↦ elim rest [ [] ↦ resolve binder tree | _ ↦ none ]
]

unfoldable pub tree : ℕ → Filter → Tree
tree n (comparison field op value) = compares field op n
tree n (junction word left right) = joins word (tree n left) (tree (n + length (values left)) right)

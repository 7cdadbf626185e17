-- ===== src/Query/ReadBack.antt =====
-- Reading a rendered filter back: the tree that the caller built is the tree in the text.
use tessaridb_sdk_python.Prelude.{
  ℕ, zero, suc, ◌+◌, ◌≡◌, ◌≤◌, refl, ap, ◌∙◌, true, List, [], ◌∷◌, ◌++◌, length, length-append,
  append_assoc, append-nil, arith, some, none,
}
use tessaridb_sdk_python.Result.{Str}
use tessaridb_sdk_python.Value.{Value}
use tessaridb_sdk_python.Dict.{dict_get, str_eq_refl, ne→str_eq}
use tessaridb_sdk_python.Text.{chars, show, read_nat-show, Ends, strip, first_of}
use tessaridb_sdk_python.Follow.Selection.{plain_start, plain_char, plain_chars, is_plain}
use tessaridb_sdk_python.Query.Filter.{
  Operator, eq, ne, lt, le, gt, ge, operator_text, Word, all_of, any_of, word_text, Filter,
  comparison, junction, reference, render_filter, with_reference, joined, IsNamed,
}
use tessaridb_sdk_python.Query.Binding.{
  values, numbered, filter_text, render_filter-numbered, reference-injective,
}
use tessaridb_sdk_python.Query.Reading.{
  compares, take_name, before_reference, between, read_comparison, closing, right_side, read_filter,
  resolve, read_rendering, tree,
}

take_name-append :
    (name rest : Str) → plain_chars name ≡ true → take_name (name ++ 32 ∷ rest) ≡ (name, 32 ∷ rest)
unfolding take_name plain_chars plain_char plain_start
take_name-append [] rest h = refl
take_name-append (c ∷ name) rest h = ground (arith, take_name-append name rest)

-- A name that is a start does not look like a parenthesis.
strip-name : (c : ℕ) (t : Str) → plain_start c ≡ true → strip (chars "(") (c ∷ t) ≡ none
unfolding strip plain_start
strip-name c t h = ground arith

first_of-operator :
    (op : Operator) (rest : Str)
    → first_of before_reference (eq ∷ ne ∷ lt ∷ le ∷ gt ∷ ge ∷ []) (before_reference op ++ rest)
      ≡ some (op, rest)
unfolding first_of operator_text strip
first_of-operator eq rest = refl
first_of-operator ne rest = refl
first_of-operator lt rest = refl
first_of-operator le rest = refl
first_of-operator gt rest = refl
first_of-operator ge rest = refl

first_of-word :
    (word : Word) (rest : Str)
    → first_of between (all_of ∷ any_of ∷ []) (between word ++ rest) ≡ some (word, rest)
unfolding first_of word_text strip
first_of-word all_of rest = refl
first_of-word any_of rest = refl

unfoldable depth : Filter → ℕ
depth (comparison field op value) = 1
depth (junction word left right) = suc (depth left + depth right)

comparison_text :
    (n : ℕ) (field rest : Str) (op : Operator) (value : Value)
    → filter_text n (comparison field op value) ++ rest
      ≡ field ++ (before_reference op ++ (show n ++ rest))
unfolding filter_text with_reference reference
comparison_text n field rest op value = simp append_assoc

junction_text :
    (n : ℕ) (word : Word) (left right : Filter) (rest : Str)
    → filter_text n (junction word left right) ++ rest
      ≡ 40
        ∷ (filter_text n left
            ++ (between word ++ (filter_text (n + length (values left)) right ++ 41 ∷ rest)))
unfolding filter_text joined
junction_text n word left right rest = simp append_assoc

read_comparison-text :
    (n : ℕ) (field rest : Str) (op : Operator)
    → Ends rest
    → read_comparison (field, before_reference op ++ (show n ++ rest))
      ≡ some (compares field op n, rest)
unfolding read_comparison
read_comparison-text n field rest op h =
    let found = first_of-operator op (show n ++ rest) in
    let number = read_nat-show n rest h in rw (found, read_comparison) (rw number refl)

plain_chars-start :
    (c : ℕ) (cs : Str) → plain_start c ≡ true → plain_chars cs ≡ true → plain_chars (c ∷ cs) ≡ true
unfolding plain_chars plain_char
plain_chars-start c cs h k = ground arith

read_name :
    (fuel n : ℕ) (field rest : Str) (op : Operator)
    → is_plain field ≡ true
    → Ends rest
    → read_filter (suc fuel) (field ++ (before_reference op ++ (show n ++ rest)))
      ≡ some (compares field op n, rest)
unfolding read_filter is_plain
read_name fuel n [] rest op h e = cc
read_name fuel n (c ∷ field) rest op h e =
    let starts : plain_start c ≡ true = ground arith in
    let others : plain_chars field ≡ true = ground arith in
    let all : plain_chars (c ∷ field) ≡ true = plain_chars-start c field starts others in
    rw (strip-name c (field ++ (before_reference op ++ (show n ++ rest))) starts, read_filter)
      (ap read_comparison
          (take_name-append (c ∷ field) ((operator_text op ++ chars " $p") ++ (show n ++ rest)) all)
        ∙ read_comparison-text n (c ∷ field) rest op e)

read_filter-text :
    (fuel n : ℕ) (f : Filter) (rest : Str)
    → IsNamed f
    → depth f ≤ fuel
    → Ends rest
    → read_filter fuel (filter_text n f ++ rest) ≡ some (tree n f, rest)
unfolding read_filter tree depth IsNamed right_side closing strip values
read_filter-text zero n (comparison field op value) rest h d e = absurd (omega arith)
read_filter-text zero n (junction word left right) rest h d e = absurd (omega arith)
read_filter-text (suc fuel) n (comparison field op value) rest h d e =
    ap (read_filter (suc fuel)) (comparison_text n field rest op value)
    ∙ read_name fuel n field rest op h e
read_filter-text (suc fuel) n (junction word left right) rest h d e =
    let m = n + length (values left) in
    let behind = filter_text m right ++ 41 ∷ rest in
    let first = read_filter-text fuel n left (between word ++ behind) h.0 (omega arith) refl in
    let second = read_filter-text fuel m right (41 ∷ rest) h.1 (omega arith) refl in
    ap (read_filter (suc fuel)) (junction_text n word left right rest)
    ∙ rw (first, read_filter)
        (rw (first_of-word word behind, right_side) (rw (second, closing) refl))

-- The number of a value leads to it, among the parameters of a rendering.
dict_get-numbered :
    (n : ℕ) (us : List Value) (v : Value) (ws : List Value)
    → dict_get (reference (n + length us)) (numbered n (us ++ v ∷ ws)) ≡ some v
unfolding dict_get numbered
dict_get-numbered n [] v ws =
    let here : n + 0 ≡ n = omega arith in rw (here, str_eq_refl (reference n)) refl
dict_get-numbered n (u ∷ us) v ws =
    let there : n + length (u ∷ us) ≡ suc n + length us = omega arith in
    let other =
      ne→str_eq (reference n) (reference (suc n + length us))
        (λ same. absurd (omega (arith, reference-injective n (suc n + length us) same))) in
    ap (λ k. dict_get (reference k) (numbered n ((u ∷ us) ++ v ∷ ws))) there
    ∙ rw other (dict_get-numbered (suc n) us v ws)

resolve-tree :
    (f : Filter) (us ws : List Value)
    → resolve (numbered 0 (us ++ (values f ++ ws))) (tree (length us) f) ≡ some f
unfolding resolve tree values
resolve-tree (comparison field op value) us ws =
    let found = dict_get-numbered 0 us value ws in
    let start : 0 + length us ≡ length us = omega arith in
    let found' = rw start at found in rw (found', resolve) refl
resolve-tree (junction word left right) us ws =
    let first = resolve-tree left us (values right ++ ws) in
    let second = resolve-tree right (us ++ values left) ws in
    let count = length-append us (values left) in
    let order : values (junction word left right) ++ ws ≡ values left ++ (values right ++ ws) =
      append_assoc (values left) (values right) ws in
    let order' = append_assoc us (values left) (values right ++ ws) in
    let second' = rw (count, order') at second in
    ap (λ vs. resolve (numbered 0 (us ++ vs)) (tree (length us) (junction word left right))) order
    ∙ rw (first, resolve) (rw (second', resolve) refl)

depth-le-length : (n : ℕ) (f : Filter) → depth f ≤ length (filter_text n f)
unfolding depth filter_text joined with_reference
depth-le-length n (comparison field op value) =
    let l =
      length-append (field ++ (chars " " ++ (operator_text op ++ chars " ")))
        (chars "$" ++ reference n) in
    omega (arith, l)
depth-le-length n (junction word left right) =
    let m = n + length (values left) in
    let last = filter_text m right ++ chars ")" in
    omega (
      arith,
      depth-le-length n left,
      depth-le-length m right,
      length-append (filter_text n left) (chars " " ++ (word_text word ++ (chars " " ++ last))),
      length-append (word_text word) (chars " " ++ last),
      length-append (filter_text m right) (chars ")"),
    )

-- A filter whose names `compare` let through is got back from its text and its parameters: the text
-- is read by a reader that knows the parentheses and nothing of how `AND` and `OR` associate, and
-- each number in it leads to the value that stood there.
pub read_rendering-render_filter :
    (f : Filter) → IsNamed f → read_rendering (render_filter f []) ≡ some f
unfolding read_rendering numbered
read_rendering-render_filter f h =
    let text = filter_text 0 f in
    let read =
      rw (append-nil text) at (read_filter-text (length text) 0 f [] h (depth-le-length 0 f) tt) in
    let there = rw (append-nil (values f)) at (resolve-tree f [] []) in
    let rendered : render_filter f [] ≡ (text, numbered 0 (values f)) =
      render_filter-numbered f [] in
    ap read_rendering rendered ∙ rw (read, read_rendering) there

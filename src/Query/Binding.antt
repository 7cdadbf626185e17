-- ===== src/Query/Binding.antt =====
-- What rendering binds: the values of a filter or of an object, numbered in the order in which
-- their references stand in the text.
use tessaridb_sdk_python.Prelude.{
  ℕ, suc, ◌+◌, ◌≡◌, ◌≤◌, refl, sym, ap, ◌∙◌, List, [], ◌∷◌, ◌++◌, length, length-append,
  append_assoc, arith,
}
use tessaridb_sdk_python.Result.{Str}
use tessaridb_sdk_python.Value.{Value, none_value}
use tessaridb_sdk_python.Dict.{dict_set, dict_set-Fresh, Fresh}
use tessaridb_sdk_python.Text.{chars, show-injective}
use tessaridb_sdk_python.Query.Filter.{
  operator_text, Filter, comparison, junction, Binder, reference, bind_value, with_reference,
  joined, render_filter,
}

-- The values of a filter, depth first and from left to right.
unfoldable pub values : Filter → List Value
values (comparison field operator value) = value ∷ []
values (junction word left right) = values left ++ values right

-- The values with the references `p<n>`, `p<n + 1>`, …
unfoldable pub numbered : ℕ → List Value → Binder
numbered n [] = []
numbered n (v ∷ vs) = (reference n, v) ∷ numbered (suc n) vs

pub reference-injective : (m n : ℕ) → reference m ≡ reference n → m ≡ n
unfolding reference
reference-injective m n h = show-injective m n (cc)

pub numbered-Fresh :
    (k n : ℕ) (vs : List Value) → n + length vs ≤ k → Fresh (reference k) (numbered n vs)
unfolding numbered
numbered-Fresh k n [] h = tt
numbered-Fresh k n (v ∷ vs) h = (
  (λ same. absurd (omega (arith, reference-injective n k same))),
  numbered-Fresh k (suc n) vs (omega arith),
)

pub numbered-append :
    (n : ℕ) (us vs : List Value)
    → numbered n (us ++ vs) ≡ numbered n us ++ numbered (n + length us) vs
unfolding numbered
numbered-append n [] vs = let none_added : n + 0 ≡ n = omega arith in rw none_added refl
numbered-append n (u ∷ us) vs =
    let next : n + length (u ∷ us) ≡ suc n + length us = omega arith in
    rw next (ap (λ l. (reference n, u) ∷ l) (numbered-append (suc n) us vs))

length-numbered : (n : ℕ) (vs : List Value) → length (numbered n vs) ≡ length vs
unfolding numbered
length-numbered n [] = refl
length-numbered n (v ∷ vs) = ap suc (length-numbered (suc n) vs)

pub dict_set-numbered :
    (v : Value) (vs : List Value)
    → dict_set (reference (length vs)) v (numbered 0 vs) ≡ numbered 0 (vs ++ v ∷ [])
dict_set-numbered v vs =
    let start : 0 + length vs ≡ length vs = omega arith in
    dict_set-Fresh (reference (length vs)) v (numbered 0 vs)
      (numbered-Fresh (length vs) 0 vs (omega arith))
    ∙ rw (numbered-append 0 vs (v ∷ []), start) (unfold numbered in refl)

-- Binding a value to what is numbered so far gives it the next number.
pub bind_value-numbered :
    (v : Value) (vs : List Value)
    → bind_value v (numbered 0 vs) ≡ (chars "$" ++ reference (length vs), numbered 0 (vs ++ v ∷ []))
unfolding bind_value
bind_value-numbered v vs =
    let count = length-numbered 0 vs in rw (count, bind_value) (rw (dict_set-numbered v vs) refl)

-- The text of a filter whose first value has the number `n`: the rendering without a binder.
unfoldable pub filter_text : ℕ → Filter → Str
filter_text n (comparison field operator value) =
    (with_reference (field ++ (chars " " ++ (operator_text operator ++ chars " ")))
      (chars "$" ++ reference n, [])).0
filter_text n (junction word left right) =
    (joined word (filter_text n left) (filter_text (n + length (values left)) right, [])).0

-- Binding values while a filter is rendered is the same as numbering them first and writing the
-- text afterwards: the text has the numbers from that of the values bound before, and the values
-- are bound behind those, depth first and from left to right.
pub render_filter-numbered :
    (f : Filter) (vs : List Value)
    → render_filter f (numbered 0 vs) ≡ (filter_text (length vs) f, numbered 0 (vs ++ values f))
unfolding render_filter filter_text values with_reference
render_filter-numbered (comparison field operator value) vs =
    let bound = bind_value-numbered value vs in rw bound refl
render_filter-numbered (junction word left right) vs =
    let first = render_filter-numbered left vs in
    let second = render_filter-numbered right (vs ++ values left) in
    let count = length-append vs (values left) in
    let order = append_assoc vs (values left) (values right) in
    rw (first, render_filter) (rw (second, joined) (rw (count, order) refl))

-- The filter with every value left out.
unfoldable pub bare : Filter → Filter
bare (comparison field operator value) = comparison field operator none_value
bare (junction word left right) = junction word (bare left) (bare right)

length-values-bare : (f : Filter) → length (values (bare f)) ≡ length (values f)
unfolding values bare
length-values-bare (comparison field operator value) = refl
length-values-bare (junction word left right) = omega (
  arith,
  length-values-bare left,
  length-values-bare right,
  length-append (values left) (values right),
  length-append (values (bare left)) (values (bare right)),
)

filter_text-bare : (n : ℕ) (f : Filter) → filter_text n (bare f) ≡ filter_text n f
unfolding filter_text bare joined
filter_text-bare n (comparison field operator value) = refl
filter_text-bare n (junction word left right) =
    rw
      (
        length-values-bare left,
        filter_text-bare n left,
        filter_text-bare (n + length (values left)) right,
      )
      refl

-- The text of a filter does not depend on its values: filters that differ in nothing else are
-- written alike.
pub render_filter-bare :
    (f g : Filter) → bare f ≡ bare g → (render_filter f []).0 ≡ (render_filter g []).0
render_filter-bare f g h =
    let texts = λ (k : Filter). ap (λ r. r.0) (render_filter-numbered k []) in
    unfold numbered in
    texts f
    ∙ sym (filter_text-bare 0 f)
    ∙ ap (filter_text 0) h
    ∙ filter_text-bare 0 g
    ∙ sym (texts g)

-- ===== src/Containers/Numbered.antt =====
-- The parameters of a statement with a list: the key, and the values numbered in their order.
use tessaridb_sdk_python.Prelude.{
  ℕ, suc, ◌+◌, ◌≤◌, ◌≡◌, ◌≢◌, refl, sym, ap, ◌∙◌, Bool, List, [], ◌∷◌, ◌++◌, length, length-append,
  append-nil, append_assoc, arith,
}
use tessaridb_sdk_python.Result.{Str}
use tessaridb_sdk_python.Value.{Value, text}
use tessaridb_sdk_python.Dict.{dict_set, dict_set-Fresh, Fresh}
use tessaridb_sdk_python.Text.{chars, show, show-injective, join_with}
use tessaridb_sdk_python.Query.Filter.{Binder}
use tessaridb_sdk_python.Cache.Statements.{Statements, given, keyed, at_key}
use tessaridb_sdk_python.Containers.Statements.{
  give_values, value_names, numbered_statement, end_text, list_push_statement,
}

-- The values with the names `<c><n>`, `<c><n + 1>`, …
unfoldable pub named : ℕ → ℕ → List Value → Binder
named c n [] = []
named c n (v ∷ vs) = (c ∷ show n, v) ∷ named c (suc n) vs

named-Fresh : (c k n : ℕ) (vs : List Value) → n + length vs ≤ k → Fresh (c ∷ show k) (named c n vs)
unfolding named
named-Fresh c k n [] h = tt
named-Fresh c k n (v ∷ vs) h = (
  (λ same. let equal : show n ≡ show k = cc in absurd (omega (arith, show-injective n k equal))),
  named-Fresh c k (suc n) vs (omega arith),
)

named-append :
    (c n : ℕ) (us vs : List Value)
    → named c n (us ++ vs) ≡ named c n us ++ named c (n + length us) vs
unfolding named
named-append c n [] vs = let none_added : n + 0 ≡ n = omega arith in rw none_added refl
named-append c n (u ∷ us) vs =
    let next : n + length (u ∷ us) ≡ suc n + length us = omega arith in
    rw next (ap (λ l. (c ∷ show n, u) ∷ l) (named-append c (suc n) us vs))

module _ (c : ℕ) (other : 107 ≢ c) (key : Value) where
  -- The values behind the key `k`.
  abbrev behind_key : List Value → Binder
  behind_key vs = (107 ∷ [], key) ∷ named c 0 vs

  dict_set-named :
      (v : Value) (vs : List Value)
      → dict_set (c ∷ show (length vs)) v (behind_key vs) ≡ behind_key (vs ++ v ∷ [])
  dict_set-named v vs =
      let start : 0 + length vs ≡ length vs = omega arith in
      dict_set-Fresh (c ∷ show (length vs)) v (behind_key vs)
        ((λ same. other (cc)), named-Fresh c (length vs) 0 vs (omega arith))
      ∙ rw (named-append c 0 vs (v ∷ []), start) (unfold named in refl)

  give_values-named :
      (script : Str) (us vs : List Value)
      → give_values (c ∷ []) (length us) vs (script, behind_key us)
        ≡ (script, behind_key (us ++ vs))
  unfolding give_values given
  give_values-named script us [] = rw (append-nil us) refl
  give_values-named script us (v ∷ vs) =
      let set = dict_set-named v us in
      let more = give_values-named script (us ++ v ∷ []) vs in
      let count : length (us ++ v ∷ []) ≡ suc (length us) =
        omega (arith, length-append us (v ∷ [])) in
      let order = append_assoc us (v ∷ []) vs in
      rw (set, give_values) (rw count at (rw order at more))

value_names-length :
    (prefix : Str) (n : ℕ) (us vs : List Value)
    → length us ≡ length vs
    → value_names prefix n us ≡ value_names prefix n vs
unfolding value_names
value_names-length prefix n [] [] h = refl
value_names-length prefix n [] (v ∷ vs) h = absurd (omega (arith, h))
value_names-length prefix n (u ∷ us) [] h = absurd (omega (arith, h))
value_names-length prefix n (u ∷ us) (v ∷ vs) h =
    ap (λ l. (chars "$" ++ (prefix ++ show n)) ∷ l)
      (value_names-length prefix (suc n) us vs (omega (arith, h)))

numbered_statement-named :
    (w : Statements) (word rest key : Str) (c : ℕ) (vs : List Value)
    → 107 ≢ c
    → numbered_statement w word rest key (c ∷ []) vs ≡ (
      w.before
          ++ at_key w word
              (rest ++ (join_with (chars ", ") (value_names (c ∷ []) 0 vs) ++ chars ";")),
      (107 ∷ [], text key) ∷ named c 0 vs,
    )
unfolding numbered_statement keyed named
numbered_statement-named w word rest key c vs other = give_values-named c other (text key) _ [] vs

-- The parameters of a push are the key under `k` and the values, numbered from 0 in their order, and
-- its text depends on how many values there are and on nothing else of them or of the key.
pub list_push_statement-named :
    (w : Statements) (key other : Str) (us vs : List Value) (front : Bool)
    → length us ≡ length vs
    → ((list_push_statement w key us front).1 ≡ (chars "k", text key) ∷ named 118 0 us)
      × ((list_push_statement w key us front).0 ≡ (list_push_statement w other vs front).0)
unfolding list_push_statement
list_push_statement-named w key other us vs front h =
    let pushed = numbered_statement-named w (chars "LIST PUSH ") (end_text front ++ chars " ") in
    let apart : 107 ≢ 118 = λ e. absurd (omega (arith, e)) in
    let names = value_names-length (chars "v") 0 us vs h in
    (
      ap (λ p. p.1) (pushed key 118 us apart),
      ap (λ p. p.0) (pushed key 118 us apart)
          ∙ rw names refl
          ∙ sym (ap (λ p. p.0) (pushed other 118 vs apart)),
    )

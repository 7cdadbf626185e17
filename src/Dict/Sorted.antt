-- ===== src/Dict/Sorted.antt =====
-- Sorting by name keeps the items, keeps their names apart, and does not depend on their order.
use tessaridb_sdk_python.Prelude.{
  ◌≡◌, ◌≢◌, refl, sym, ap, ◌∙◌, inl, inr, List, [], ◌∷◌, Bool-cases, length, suc,
}
use tessaridb_sdk_python.Result.{Str}
use tessaridb_sdk_python.Dict.{str_leb, insert_by_name, sort_by_name, Fresh, Distinct}

module _ {ℓ} {A : Type ℓ} where
  insert_by_name-Fresh :
      (other name : Str) (a : A) (items : List (Str × A))
      → name ≢ other
      → Fresh other items
      → Fresh other (insert_by_name (name, a) items)
  unfolding insert_by_name
  insert_by_name-Fresh other name a [] ne h = (ne, tt)
  insert_by_name-Fresh other name a ((key, b) ∷ items) ne h = elim (Bool-cases (str_leb name key)) [
    | inl before ↦ rw before (ne, h)
    | inr after ↦ rw after (h.0, insert_by_name-Fresh other name a items ne h.1)
  ]

  insert_by_name-Distinct :
      (name : Str) (a : A) (items : List (Str × A))
      → Fresh name items
      → Distinct items
      → Distinct (insert_by_name (name, a) items)
  unfolding insert_by_name
  insert_by_name-Distinct name a [] h d = (tt, tt)
  insert_by_name-Distinct name a ((key, b) ∷ items) h d = elim (Bool-cases (str_leb name key)) [
    | inl before ↦ rw before (h, d)
    | inr after ↦ rw after (
      insert_by_name-Fresh key name a items (λ e. h.0 (sym e)) d.0,
      insert_by_name-Distinct name a items h.1 d.1,
    )
  ]

  sort_by_name-Fresh :
      (name : Str) (items : List (Str × A)) → Fresh name items → Fresh name (sort_by_name items)
  unfolding sort_by_name
  sort_by_name-Fresh name [] h = tt
  sort_by_name-Fresh name ((key, b) ∷ items) h =
      insert_by_name-Fresh name key b (sort_by_name items) h.0 (sort_by_name-Fresh name items h.1)

  pub sort_by_name-Distinct :
      (items : List (Str × A)) → Distinct items → Distinct (sort_by_name items)
  unfolding sort_by_name
  sort_by_name-Distinct [] d = tt
  sort_by_name-Distinct ((key, b) ∷ items) d =
      insert_by_name-Distinct key b (sort_by_name items) (sort_by_name-Fresh key items d.0)
        (sort_by_name-Distinct items d.1)

  length-insert_by_name :
      (item : Str × A) (items : List (Str × A))
      → length (insert_by_name item items) ≡ suc (length items)
  unfolding insert_by_name
  length-insert_by_name (name, a) [] = refl
  length-insert_by_name (name, a) ((key, b) ∷ items) = elim (Bool-cases (str_leb name key)) [
    | inl before ↦ rw before
    | inr after ↦ rw after (ap suc (length-insert_by_name (name, a) items))
  ]

  pub length-sort_by_name : (items : List (Str × A)) → length (sort_by_name items) ≡ length items
  unfolding sort_by_name
  length-sort_by_name [] = refl
  length-sort_by_name (item ∷ items) =
      length-insert_by_name item (sort_by_name items) ∙ ap suc (length-sort_by_name items)

-- Two dictionaries with the same names in the same order, what they hold related by `R`.
pub data Alike {ℓ κ μ} {A : Type ℓ} {B : Type κ} (R : A → B → Type μ)
    : List (Str × A) → List (Str × B) → Type (ℓ ⊔ κ ⊔ μ) where
  none_alike : Alike R [] []
  item_alike :
      {name : Str} {a : A} {b : B} {xs : List (Str × A)} {ys : List (Str × B)}
      → R a b
      → Alike R xs ys
      → Alike R ((name, a) ∷ xs) ((name, b) ∷ ys)

module _ {ℓ κ μ} {A : Type ℓ} {B : Type κ} {R : A → B → Type μ} where
  insert_by_name-Alike :
      {xs : List (Str × A)} {ys : List (Str × B)} (name : Str) (a : A) (b : B)
      → R a b
      → Alike R xs ys
      → Alike R (insert_by_name (name, a) xs) (insert_by_name (name, b) ys)
  unfolding insert_by_name
  insert_by_name-Alike name a b r none_alike = item_alike r none_alike
  insert_by_name-Alike name a b r (item_alike {name = key} s rest) =
      elim (Bool-cases (str_leb name key)) [
        | inl before ↦ rw before (item_alike r (item_alike s rest))
        | inr after ↦ rw after (item_alike s (insert_by_name-Alike name a b r rest))
      ]

  pub sort_by_name-Alike :
      {xs : List (Str × A)} {ys : List (Str × B)}
      → Alike R xs ys
      → Alike R (sort_by_name xs) (sort_by_name ys)
  unfolding sort_by_name
  sort_by_name-Alike none_alike = none_alike
  sort_by_name-Alike (item_alike {name} {a} {b} r rest) =
      insert_by_name-Alike name a b r (sort_by_name-Alike rest)

-- ===== src/Dict/Idempotent.antt =====
-- Sorting by name: what is sorted stays, and what the items hold does not matter.
use tessaridb_sdk_python.Prelude.{
  ◌≡◌, refl, ap, ◌∙◌, true, false, inl, inr, List, [], ◌∷◌, Bool-cases, arith,
}
use tessaridb_sdk_python.Result.{Str}
use tessaridb_sdk_python.Dict.{str_leb, insert_by_name, sort_by_name}

pub str_leb_total : (s t : Str) → str_leb s t ≡ false → str_leb t s ≡ true
unfolding str_leb
str_leb_total [] t h = cc
str_leb_total (a ∷ s) [] h = refl
str_leb_total (a ∷ s) (b ∷ t) h = ground (arith, str_leb_total s t)

module _ {ℓ} {A : Type ℓ} where
  abbrev IsSorted : List (Str × A) → Type 0
  IsSorted [] = Unit
  IsSorted ((name, a) ∷ []) = Unit
  IsSorted ((name, a) ∷ (next, b) ∷ items) =
      (str_leb name next ≡ true) × IsSorted ((next, b) ∷ items)

  insert_after :
      (name key : Str) (a b : A) (items : List (Str × A))
      → str_leb key name ≡ true
      → IsSorted ((key, b) ∷ items)
      → IsSorted ((key, b) ∷ insert_by_name (name, a) items)
  unfolding insert_by_name
  insert_after name key a b [] le h = (le, tt)
  insert_after name key a b ((next, c) ∷ items) le h = elim (Bool-cases (str_leb name next)) [
    | inl before ↦ rw before (le, (before, h.1))
    | inr after ↦
        rw after (h.0, insert_after name next a c items (str_leb_total name next after) h.1)
  ]

  insert_by_name-IsSorted :
      (name : Str) (a : A) (items : List (Str × A))
      → IsSorted items
      → IsSorted (insert_by_name (name, a) items)
  unfolding insert_by_name
  insert_by_name-IsSorted name a [] h = tt
  insert_by_name-IsSorted name a ((key, b) ∷ items) h = elim (Bool-cases (str_leb name key)) [
    | inl before ↦ rw before (before, h)
    | inr after ↦ rw after (insert_after name key a b items (str_leb_total name key after) h)
  ]

  sort_by_name-IsSorted : (items : List (Str × A)) → IsSorted (sort_by_name items)
  unfolding sort_by_name
  sort_by_name-IsSorted [] = tt
  sort_by_name-IsSorted ((name, a) ∷ items) =
      insert_by_name-IsSorted name a (sort_by_name items) (sort_by_name-IsSorted items)

  insert_first :
      (name : Str) (a : A) (items : List (Str × A))
      → IsSorted ((name, a) ∷ items)
      → insert_by_name (name, a) items ≡ (name, a) ∷ items
  unfolding insert_by_name
  insert_first name a [] h = refl
  insert_first name a ((next, b) ∷ items) h = rw (h.0) refl

  IsSorted-tail :
      (name : Str) (a : A) (items : List (Str × A)) → IsSorted ((name, a) ∷ items) → IsSorted items
  IsSorted-tail name a [] h = tt
  IsSorted-tail name a ((next, b) ∷ items) h = h.1

  sort_by_name-eq : (items : List (Str × A)) → IsSorted items → sort_by_name items ≡ items
  unfolding sort_by_name
  sort_by_name-eq [] h = refl
  sort_by_name-eq ((name, a) ∷ items) h =
      ap (insert_by_name (name, a)) (sort_by_name-eq items (IsSorted-tail name a items h))
      ∙ insert_first name a items h

  pub sort_by_name-sort_by_name :
      (items : List (Str × A)) → sort_by_name (sort_by_name items) ≡ sort_by_name items
  sort_by_name-sort_by_name items =
      sort_by_name-eq (sort_by_name items) (sort_by_name-IsSorted items)

module _ {ℓ κ} {A : Type ℓ} {B : Type κ} (f : A → B) where
  -- `f` of what each item holds.
  unfoldable pub map_held : List (Str × A) → List (Str × B)
  map_held [] = []
  map_held ((name, a) ∷ items) = (name, f a) ∷ map_held items

  map_held-insert_by_name :
      (name : Str) (a : A) (items : List (Str × A))
      → map_held (insert_by_name (name, a) items) ≡ insert_by_name (name, f a) (map_held items)
  unfolding map_held insert_by_name
  map_held-insert_by_name name a [] = refl
  map_held-insert_by_name name a ((key, b) ∷ items) = elim (Bool-cases (str_leb name key)) [
    | inl before ↦ rw before refl
    | inr after ↦ rw after (ap (λ l. (key, f b) ∷ l) (map_held-insert_by_name name a items))
  ]

  pub map_held-sort_by_name :
      (items : List (Str × A)) → map_held (sort_by_name items) ≡ sort_by_name (map_held items)
  unfolding map_held sort_by_name
  map_held-sort_by_name [] = refl
  map_held-sort_by_name ((name, a) ∷ items) =
      map_held-insert_by_name name a (sort_by_name items)
      ∙ ap (insert_by_name (name, f a)) (map_held-sort_by_name items)

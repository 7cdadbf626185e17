-- ===== src/Dict.antt =====
-- Python strings as keys: their equality and order, `sorted` over the items of a dictionary, and
-- `d[name] = v`. A dictionary is the list of its items, oldest first.
pub mod Sorted
pub mod Idempotent
pub mod Reordered
use tessaridb_sdk_python.Prelude.{
  ℕ, ◌≡◌, ◌≢◌, refl, ap, Bool, true, false, ◌&&◌, Option, none, some, List, [], ◌∷◌, ◌++◌, arith,
  ltb, ◌==◌, if◌then◌else◌, Bool-cases, inl, inr,
}
use tessaridb_sdk_python.Result.{Str}

unfoldable pub str_eq : Str → Str → Bool
str_eq [] [] = true
str_eq [] (b ∷ t) = false
str_eq (a ∷ s) [] = false
str_eq (a ∷ s) (b ∷ t) = a == b && str_eq s t

-- `<=` on strings: by code points, a prefix first.
unfoldable pub str_leb : Str → Str → Bool
str_leb [] t = true
str_leb (a ∷ s) [] = false
str_leb (a ∷ s) (b ∷ t) =
    let rest = str_leb s t in if ltb a b then true else if a == b then rest else false

module _ {ℓ} {A : Type ℓ} where
  unfoldable pub insert_by_name : Str × A → List (Str × A) → List (Str × A)
  insert_by_name (name, a) [] = (name, a) ∷ []
  insert_by_name (name, a) ((other, b) ∷ items) =
      if str_leb name other
      then (name, a) ∷ (other, b) ∷ items
      else (other, b) ∷ insert_by_name (name, a) items

  -- `sorted(d.items())`, and `sorted(d)` with what each name holds.
  unfoldable pub sort_by_name : List (Str × A) → List (Str × A)
  unfolding insert_by_name
  sort_by_name [] = []
  sort_by_name (item ∷ items) = insert_by_name item (sort_by_name items)

  unfoldable pub dict_set : Str → A → List (Str × A) → List (Str × A)
  unfolding str_eq
  dict_set name a [] = (name, a) ∷ []
  dict_set name a ((other, b) ∷ items) =
      if str_eq other name then (other, a) ∷ items else (other, b) ∷ dict_set name a items

  -- `d.get(name)`.
  unfoldable pub dict_get : Str → List (Str × A) → Option A
  unfolding str_eq
  dict_get name [] = none
  dict_get name ((other, b) ∷ items) = if str_eq other name then some b else dict_get name items

  -- `name` is no key of `items`; the keys are all different.
  abbrev pub Fresh : Str → List (Str × A) → Type 0
  Fresh name [] = Unit
  Fresh name ((other, b) ∷ items) = (other ≢ name) × Fresh name items

  abbrev pub Distinct : List (Str × A) → Type 0
  Distinct [] = Unit
  Distinct ((name, a) ∷ items) = Fresh name items × Distinct items

pub str_eq→eq : (s t : Str) → str_eq s t ≡ true → s ≡ t
unfolding str_eq
str_eq→eq [] [] h = refl
str_eq→eq [] (b ∷ t) h = cc
str_eq→eq (a ∷ s) [] h = cc
str_eq→eq (a ∷ s) (b ∷ t) h = ground (arith, str_eq→eq s t)

pub str_eq_refl : (s : Str) → str_eq s s ≡ true
unfolding str_eq
str_eq_refl [] = refl
str_eq_refl (a ∷ s) = ground (arith, str_eq_refl s)

pub ne→str_eq : (s t : Str) → s ≢ t → str_eq s t ≡ false
ne→str_eq s t h = elim (Bool-cases (str_eq s t)) [
  | inl same ↦ absurd (h (str_eq→eq s t same))
  | inr other ↦ other
]

-- A name that no item has is added at the end.
pub dict_set-Fresh {ℓ} :
    {A : Type ℓ} (name : Str) (a : A) (items : List (Str × A))
    → Fresh name items
    → dict_set name a items ≡ items ++ (name, a) ∷ []
unfolding dict_set
dict_set-Fresh name a [] h = refl
dict_set-Fresh name a ((other, b) ∷ items) h =
    rw (ne→str_eq other name h.0) (ap (λ l. (other, b) ∷ l) (dict_set-Fresh name a items h.1))

-- A lookup sees the last assignment to its name.
pub dict_get-dict_set {ℓ} :
    {A : Type ℓ} (name key : Str) (a : A) (items : List (Str × A))
    → dict_get key (dict_set name a items)
      ≡ (if str_eq name key then some a else dict_get key items)
unfolding dict_set dict_get
dict_get-dict_set name key a [] = refl
dict_get-dict_set name key a ((other, b) ∷ items) = elim (Bool-cases (str_eq other name)) [
  | inl same ↦ let e = str_eq→eq other name same in rw (same, ← e) (ground arith)
  | inr differs ↦ rw differs (
      ground (
        arith,
        dict_get-dict_set name key a items,
        str_eq→eq other key,
        str_eq→eq name key,
        str_eq_refl other,
      ))
]

-- ===== src/Dict/Reordered.antt =====
-- Sorting by name forgets the order in which the items of a dictionary were set.
use tessaridb_sdk_python.Prelude.{
  ◌≡◌, ◌≢◌, refl, sym, ap, ◌∙◌, true, false, inl, inr, List, [], ◌∷◌, Bool-cases, arith,
}
use tessaridb_sdk_python.Result.{Str}
use tessaridb_sdk_python.Dict.{str_leb, insert_by_name, sort_by_name, Fresh, Distinct}
use tessaridb_sdk_python.Dict.Idempotent.{str_leb_total}

-- The items `ys` are the items `xs` in another order.
pub data Reordered {ℓ} {A : Type ℓ} : List (Str × A) → List (Str × A) → Type ℓ where
  same : {xs : List (Str × A)} → Reordered xs xs
  keep : (x : Str × A) {xs ys : List (Str × A)} → Reordered xs ys → Reordered (x ∷ xs) (x ∷ ys)
  swap : (x y : Str × A) {xs : List (Str × A)} → Reordered (x ∷ y ∷ xs) (y ∷ x ∷ xs)
  after : {xs ys zs : List (Str × A)} → Reordered xs ys → Reordered ys zs → Reordered xs zs

str_leb_antisymm : (s t : Str) → str_leb s t ≡ true → str_leb t s ≡ true → s ≡ t
unfolding str_leb
str_leb_antisymm [] [] h k = refl
str_leb_antisymm [] (b ∷ t) h k = cc
str_leb_antisymm (a ∷ s) [] h k = cc
str_leb_antisymm (a ∷ s) (b ∷ t) h k = ground (arith, str_leb_antisymm s t)

str_leb_trans : (s t u : Str) → str_leb s t ≡ true → str_leb t u ≡ true → str_leb s u ≡ true
unfolding str_leb
str_leb_trans [] t u h k = refl
str_leb_trans (a ∷ s) [] u h k = cc
str_leb_trans (a ∷ s) (b ∷ t) [] h k = cc
str_leb_trans (a ∷ s) (b ∷ t) (c ∷ u) h k = ground (arith, str_leb_trans s t u)

only : (m n : Str) → m ≢ n → str_leb m n ≡ true → str_leb n m ≡ false
only m n ne h = ground (arith, str_leb_antisymm m n)

module _ {ℓ} {A : Type ℓ} where
  insert_here :
      (m k : Str) (a c : A) (items : List (Str × A))
      → str_leb m k ≡ true
      → insert_by_name (m, a) ((k, c) ∷ items) ≡ (m, a) ∷ (k, c) ∷ items
  unfolding insert_by_name
  insert_here m k a c items h = rw h refl

  insert_past :
      (m k : Str) (a c : A) (items : List (Str × A))
      → str_leb m k ≡ false
      → insert_by_name (m, a) ((k, c) ∷ items) ≡ (k, c) ∷ insert_by_name (m, a) items
  unfolding insert_by_name
  insert_past m k a c items h = rw h refl

  -- Two that belong before everything else.
  insert_two :
      (m n k : Str) (a b c : A) (items : List (Str × A))
      → m ≢ n
      → str_leb m n ≡ true
      → str_leb n k ≡ true
      → insert_by_name (m, a) (insert_by_name (n, b) ((k, c) ∷ items))
        ≡ insert_by_name (n, b) (insert_by_name (m, a) ((k, c) ∷ items))
  insert_two m n k a b c items ne mn nk =
      let mk = str_leb_trans m n k mn nk in
      simp (
        insert_here n k b c items nk,
        insert_here m k a c items mk,
        insert_here m n a b ((k, c) ∷ items) mn,
        insert_past n m b a ((k, c) ∷ items) (only m n ne mn),
      )

  -- One that belongs before, and one that does not.
  insert_around :
      (m n k : Str) (a b c : A) (items : List (Str × A))
      → str_leb m k ≡ true
      → str_leb n k ≡ false
      → insert_by_name (m, a) (insert_by_name (n, b) ((k, c) ∷ items))
        ≡ insert_by_name (n, b) (insert_by_name (m, a) ((k, c) ∷ items))
  insert_around m n k a b c items mk nk =
      let nm : str_leb n m ≡ false = ground (arith, str_leb_trans n m k) in
      simp (
        insert_past n k b c items nk,
        insert_here m k a c items mk,
        insert_here m k a c (insert_by_name (n, b) items) mk,
        insert_past n m b a ((k, c) ∷ items) nm,
      )

  insert_by_name_comm :
      (m n : Str) (a b : A) (items : List (Str × A))
      → m ≢ n
      → insert_by_name (m, a) (insert_by_name (n, b) items)
        ≡ insert_by_name (n, b) (insert_by_name (m, a) items)
  insert_by_name_comm m n a b [] ne =
      unfold insert_by_name in ground (arith, str_leb_antisymm m n, str_leb_total m n)
  insert_by_name_comm m n a b ((k, c) ∷ items) ne = elim (Bool-cases (str_leb m k)) [
    | inl mk ↦ elim (Bool-cases (str_leb n k)) [
      | inl nk ↦ elim (Bool-cases (str_leb m n)) [
        | inl mn ↦ insert_two m n k a b c items ne mn nk
        | inr mn ↦ sym (insert_two n m k b a c items (λ e. ne (sym e)) (str_leb_total m n mn) mk)
      ]
      | inr nk ↦ insert_around m n k a b c items mk nk
    ]
    | inr mk ↦ elim (Bool-cases (str_leb n k)) [
      | inl nk ↦ sym (insert_around n m k b a c items nk mk)
      | inr nk ↦ simp (
        insert_past n k b c items nk,
        insert_past m k a c items mk,
        insert_past m k a c (insert_by_name (n, b) items) mk,
        insert_past n k b c (insert_by_name (m, a) items) nk,
        insert_by_name_comm m n a b items ne,
      )
    ]
  ]

  sort_by_name-swap :
      (x y : Str × A) (items : List (Str × A))
      → x.0 ≢ y.0
      → sort_by_name (x ∷ y ∷ items) ≡ sort_by_name (y ∷ x ∷ items)
  unfolding sort_by_name
  sort_by_name-swap (m, a) (n, b) items ne = insert_by_name_comm m n a b (sort_by_name items) ne

  Fresh-Reordered :
      (name : Str) {xs ys : List (Str × A)} → Reordered xs ys → Fresh name xs → Fresh name ys
  Fresh-Reordered name same h = h
  Fresh-Reordered name (keep (m, a) r) h = (h.0, Fresh-Reordered name r h.1)
  Fresh-Reordered name (swap (m, a) (n, b)) h = (h.1.0, (h.0, h.1.1))
  Fresh-Reordered name (after r r') h = Fresh-Reordered name r' (Fresh-Reordered name r h)

  pub Distinct-Reordered : {xs ys : List (Str × A)} → Reordered xs ys → Distinct xs → Distinct ys
  Distinct-Reordered same d = d
  Distinct-Reordered (keep (m, a) r) d = (Fresh-Reordered m r d.0, Distinct-Reordered r d.1)
  Distinct-Reordered (swap (m, a) (n, b)) d = (((λ e. d.0.0 (sym e)), d.1.0), (d.0.1, d.1.1))
  Distinct-Reordered (after r r') d = Distinct-Reordered r' (Distinct-Reordered r d)

  -- Dictionaries that differ in the order of their items are sorted to the same list.
  pub sort_by_name-Reordered :
      {xs ys : List (Str × A)} → Reordered xs ys → Distinct xs → sort_by_name xs ≡ sort_by_name ys
  unfolding sort_by_name
  sort_by_name-Reordered same d = refl
  sort_by_name-Reordered (keep (m, a) r) d =
      ap (insert_by_name (m, a)) (sort_by_name-Reordered r d.1)
  sort_by_name-Reordered (swap (m, a) (n, b) {xs}) d =
      sort_by_name-swap (m, a) (n, b) xs (λ e. d.0.0 (sym e))
  sort_by_name-Reordered (after r r') d =
      sort_by_name-Reordered r d ∙ sort_by_name-Reordered r' (Distinct-Reordered r d)

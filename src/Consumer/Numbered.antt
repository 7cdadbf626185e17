-- ===== src/Consumer/Numbered.antt =====
-- An acknowledgement carries its positions as parameters and never in its text.
use tessaridb_sdk_python.Prelude.{
  ℕ, suc, ◌≡◌, refl, ap, ℤ, List, [], ◌∷◌, ◌++◌, map, length, length-append, append-nil,
  append_assoc, arith,
}
use tessaridb_sdk_python.Result.{Str}
use tessaridb_sdk_python.Value.{Value, integer}
use tessaridb_sdk_python.Query.Filter.{reference}
use tessaridb_sdk_python.Query.Binding.{numbered, dict_set-numbered}
use tessaridb_sdk_python.Consumer.Statements.{
  Statements, names_from, zip_integers, settle_statement,
}

zip_integers-numbered :
    (positions : List ℤ) (vs : List Value)
    → zip_integers (numbered 0 vs) (names_from (length vs) positions) positions
      ≡ numbered 0 (vs ++ map integer positions)
unfolding zip_integers names_from
zip_integers-numbered [] vs = rw (append-nil vs) refl
zip_integers-numbered (p ∷ ps) vs =
    let set = dict_set-numbered (integer p) vs in
    let more = zip_integers-numbered ps (vs ++ integer p ∷ []) in
    let count : length (vs ++ integer p ∷ []) ≡ suc (length vs) =
      omega (arith, length-append vs (integer p ∷ [])) in
    let order = append_assoc vs (integer p ∷ []) (map integer ps) in
    rw (set, zip_integers) (rw count at (rw order at more))

names_from-length :
    (n : ℕ) (ps qs : List ℤ) → length ps ≡ length qs → names_from n ps ≡ names_from n qs
unfolding names_from
names_from-length n [] [] h = refl
names_from-length n [] (q ∷ qs) h = absurd (omega (arith, h))
names_from-length n (p ∷ ps) [] h = absurd (omega (arith, h))
names_from-length n (p ∷ ps) (q ∷ qs) h =
    ap (λ l. reference n ∷ l) (names_from-length (suc n) ps qs (omega (arith, h)))

-- The parameters of an acknowledgement are its positions, numbered from 0 in their order, and its
-- text depends on how many they are and on nothing else of them.
pub settle_statement-numbered :
    (w : Statements) (verb tail : Str) (ps qs : List ℤ)
    → length ps ≡ length qs
    → ((settle_statement w verb ps tail).1 ≡ numbered 0 (map integer ps))
      × ((settle_statement w verb ps tail).0 ≡ (settle_statement w verb qs tail).0)
unfolding settle_statement numbered
settle_statement-numbered w verb tail ps qs h =
    (zip_integers-numbered ps [], rw (names_from-length 0 ps qs h) refl)

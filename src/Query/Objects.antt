-- ===== src/Query/Objects.antt =====
-- Objects and assignments: what they bind, and that the order of the caller's fields does not show.
use tessaridb_sdk_python.Prelude.{
  ℕ, suc, ◌≡◌, refl, ap, List, [], ◌∷◌, ◌++◌, length, length-append, append_assoc, append-nil,
  arith,
}
use tessaridb_sdk_python.Result.{Str}
use tessaridb_sdk_python.Value.{Value}
use tessaridb_sdk_python.Dict.{Distinct}
use tessaridb_sdk_python.Dict.Reordered.{Reordered, sort_by_name-Reordered}
use tessaridb_sdk_python.Text.{chars}
use tessaridb_sdk_python.Query.Filter.{Binder, reference, assigned, in_braces, render_object}
use tessaridb_sdk_python.Query.Binding.{numbered, bind_value-numbered}

-- What the fields hold, in their order.
unfoldable pub held_values : List (Str × Value) → List Value
held_values [] = []
held_values ((name, value) ∷ fields) = value ∷ held_values fields

-- The fields with the numbers from `n` in the places of the values.
unfoldable pub assigned_texts : Str → ℕ → List (Str × Value) → List Str
assigned_texts sign n [] = []
assigned_texts sign n ((name, value) ∷ fields) =
    (name ++ (sign ++ (chars "$" ++ reference n))) ∷ assigned_texts sign (suc n) fields

-- Behind values that are numbered already, the fields are written with the next numbers, and what
-- they hold is bound in that order.
pub assigned-numbered :
    (sign : Str) (fields : List (Str × Value)) (vs : List Value)
    → assigned sign fields (numbered 0 vs)
      ≡ (assigned_texts sign (length vs) fields, numbered 0 (vs ++ held_values fields))
unfolding assigned assigned_texts held_values
assigned-numbered sign [] vs = rw (append-nil vs) refl
assigned-numbered sign ((name, value) ∷ fields) vs =
    let bound = bind_value-numbered value vs in
    let others = assigned-numbered sign fields (vs ++ value ∷ []) in
    let count : length (vs ++ value ∷ []) ≡ suc (length vs) =
      omega (arith, length-append vs (value ∷ [])) in
    let order = append_assoc vs (value ∷ []) (held_values fields) in
    rw (bound, assigned) (rw (others, count, order) refl)

-- An object is rendered to the same text and the same parameters, in whatever order the caller set
-- its fields.
pub render_object-Reordered :
    (xs ys : List (Str × Value)) (binder : Binder)
    → Reordered xs ys
    → Distinct xs
    → render_object xs binder ≡ render_object ys binder
unfolding render_object
render_object-Reordered xs ys binder r d =
    ap (λ fields. in_braces (assigned (chars ": ") fields binder)) (sort_by_name-Reordered r d)

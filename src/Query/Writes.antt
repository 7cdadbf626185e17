-- ===== src/Query/Writes.antt =====
-- `Create` and `Update`: their texts and parameters, whatever the order in which fields were set.
use tessaridb_sdk_python.Prelude.{
  ◌≡◌, refl, ap, ◌∙◌, true, Option, none, some, List, [], ◌∷◌, ◌++◌, All,
}
use tessaridb_sdk_python.Result.{Str, ok}
use tessaridb_sdk_python.Value.{Value}
use tessaridb_sdk_python.Dict.{Distinct, sort_by_name}
use tessaridb_sdk_python.Dict.Reordered.{Reordered, same, keep, swap, after, sort_by_name-Reordered}
use tessaridb_sdk_python.Text.{chars, join_with}
use tessaridb_sdk_python.Follow.Selection.{is_plain}
use tessaridb_sdk_python.Query.Names.{check_name, check_name-is_plain}
use tessaridb_sdk_python.Query.Filter.{
  reference, bind_value, with_reference, check_each, checked_fields,
}
use tessaridb_sdk_python.Query.Binding.{numbered, bind_value-numbered}
use tessaridb_sdk_python.Query.Objects.{
  held_values, assigned_texts, assigned-numbered, render_object-Reordered,
}
use tessaridb_sdk_python.Query.Statement.{
  subject, render_create, updated, with_identity, render_update,
}

abbrev pub IsNamedField : Str × Value → Type 0
IsNamedField (name, value) = is_plain name ≡ true

check_name-plain : (what name : Str) → is_plain name ≡ true → check_name what name ≡ ok name
check_name-plain what name h = check_name-is_plain what name ∙ rw h refl

check_each-plain :
    (fields : List (Str × Value)) → All IsNamedField fields → check_each fields ≡ ok fields
unfolding check_each
check_each-plain [] h = refl
check_each-plain ((name, value) ∷ fields) h =
    rw (check_name-plain (chars "a field") name h.0) (rw (check_each-plain fields h.1) refl)

checked_fields-plain :
    (x : Str × Value) (fields : List (Str × Value))
    → All IsNamedField (x ∷ fields)
    → checked_fields (x ∷ fields) ≡ ok (x ∷ fields)
unfolding checked_fields
checked_fields-plain x fields h = check_each-plain (x ∷ fields) h

subject-numbered :
    (table : Str) (identity : Value)
    → subject table (some identity) []
      ≡ ((table ++ chars ":") ++ (chars "$" ++ reference 0), numbered 0 (identity ∷ []))
unfolding subject numbered
subject-numbered table identity =
    let bound : bind_value identity [] ≡ (chars "$" ++ reference 0, numbered 0 (identity ∷ [])) =
      bind_value-numbered identity [] in
    rw (bound, with_reference) refl

-- The text of an update of these fields, sorted by name.
unfoldable pub update_text : Str → List (Str × Value) → Str
update_text table fields =
    chars "UPDATE "
    ++ (((table ++ chars ":") ++ (chars "$" ++ reference 0))
        ++ (chars " SET "
            ++ (join_with (chars ", ") (assigned_texts (chars " = ") 1 fields) ++ chars ";")))

-- An update of plain names, with an identity: its text has the numbers from 0 in the places of the
-- identity and of the fields in name order, and these are its parameters, the identity first.
pub render_update-numbered :
    (table : Str) (identity : Value) (x : Str × Value) (fields : List (Str × Value))
    → All IsNamedField (x ∷ fields)
    → render_update (record { table = table; identity = some identity; fields = x ∷ fields })
      ≡ ok (
        update_text table (sort_by_name (x ∷ fields)),
        numbered 0 (identity ∷ held_values (sort_by_name (x ∷ fields))),
      )
unfolding render_update update_text
render_update-numbered table identity x fields h =
    let sorted = sort_by_name (x ∷ fields) in
    let assignments = assigned-numbered (chars " = ") sorted (identity ∷ []) in
    rw (checked_fields-plain x fields h)
      (rw (subject-numbered table identity) (rw assignments refl))

named-Reordered :
    {xs ys : List (Str × Value)} → Reordered xs ys → All IsNamedField xs → All IsNamedField ys
named-Reordered same h = h
named-Reordered (keep x r) h = (h.0, named-Reordered r h.1)
named-Reordered (swap x y) h = (h.1.0, (h.0, h.1.1))
named-Reordered (after r r') h = named-Reordered r' (named-Reordered r h)

with_identity-Reordered :
    (table : Str) (identity : Option Value) (xs ys : List (Str × Value))
    → Reordered xs ys
    → Distinct xs
    → with_identity (record { table = table; identity = identity; fields = xs }) xs identity
      ≡ with_identity (record { table = table; identity = identity; fields = ys }) ys identity
unfolding with_identity updated
with_identity-Reordered table none xs ys r d = refl
with_identity-Reordered table (some identity) xs ys r d = rw (sort_by_name-Reordered r d) refl

module _ (table : Str) (identity : Option Value) (xs ys : List (Str × Value))
    (mine : checked_fields xs ≡ ok xs) (yours : checked_fields ys ≡ ok ys) (r : Reordered xs ys)
    (d : Distinct xs) where
  create_order :
      render_create (record { table = table; identity = identity; fields = xs })
      ≡ render_create (record { table = table; identity = identity; fields = ys })
  unfolding render_create
  create_order =
      rw (mine, yours)
        (let (what, binder) = subject table identity [] in
          ap (λ o. ok (chars "CREATE " ++ (what ++ (chars " = " ++ (o.0 ++ chars ";"))), o.1))
            (render_object-Reordered xs ys binder r d))

  update_order :
      render_update (record { table = table; identity = identity; fields = xs })
      ≡ render_update (record { table = table; identity = identity; fields = ys })
  unfolding render_update
  update_order = rw (mine, yours) (with_identity-Reordered table identity xs ys r d)

-- Setting the same fields in another order gives the same statement: an update and a creation of
-- plain names are rendered to the same text and the same parameters.
pub render_write-Reordered :
    (table : Str) (identity : Option Value) (x y : Str × Value) (xs ys : List (Str × Value))
    → Reordered (x ∷ xs) (y ∷ ys)
    → Distinct (x ∷ xs)
    → All IsNamedField (x ∷ xs)
    → (render_create (record { table = table; identity = identity; fields = x ∷ xs })
        ≡ render_create (record { table = table; identity = identity; fields = y ∷ ys }))
      × (render_update (record { table = table; identity = identity; fields = x ∷ xs })
          ≡ render_update (record { table = table; identity = identity; fields = y ∷ ys }))
render_write-Reordered table identity x y xs ys r d h =
    let mine = checked_fields-plain x xs h in
    let yours = checked_fields-plain y ys (named-Reordered r h) in
    (
      create_order table identity (x ∷ xs) (y ∷ ys) mine yours r d,
      update_order table identity (x ∷ xs) (y ∷ ys) mine yours r d,
    )

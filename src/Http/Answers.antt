-- ===== src/Http/Answers.antt =====
-- What the routes of the HTTP client make of the answers that are let through.
use tessaridb_sdk_python.Prelude.{
  ℕ, ◌<◌, ◌≤◌, ◌≡◌, refl, ap, subst, Bool, true, false, ◌||◌, ◌&&◌, Bool-cases, inl, inr, ◌⊎◌,
  Option, none, some, [], ◌∷◌, arith, ltb, leb, ◌==◌, if◌then◌else◌,
}
use tessaridb_sdk_python.Result.{Bytes, Str, Result, Error, ok, err, bind}
use tessaridb_sdk_python.Json.Node.{Node, Python}
use tessaridb_sdk_python.Http.Session.{
  Answer, Asked, Client, in_list, conclude, again, attempt, concluded, send_route,
}
use tessaridb_sdk_python.Http.Refusals.{refusal_error}
use tessaridb_sdk_python.Http.Files.{file_path}
use tessaridb_sdk_python.Http.Routes.{
  Call, plain_call, taking, prepared, if_found, body_of, send_call, get,
}
use tessaridb_sdk_python.Text.{chars}

-- What comes through with one status allowed: it, a status of success, or an exception.
abbrev Passed : ℕ → Result Answer → Type 0
Passed allowed (ok a) = (a.status ≡ allowed) ⊎ ((200 ≤ a.status) × (a.status < 300))
Passed allowed (err e) = Unit

passes :
    (allowed : ℕ) (a : Answer)
    → ((a.status == allowed || false) || leb 200 a.status && ltb a.status 300) ≡ true
    → (a.status ≡ allowed) ⊎ ((200 ≤ a.status) × (a.status < 300))
passes allowed a h = elim (Bool-cases (a.status == allowed)) [
  | inl same ↦ inl (ground arith)
  | inr other ↦ inr (ground arith)
]

choose-Passed :
    (b : Bool) (allowed : ℕ) (a : Answer) (e : Error)
    → (b ≡ true → (a.status ≡ allowed) ⊎ ((200 ≤ a.status) × (a.status < 300)))
    → Passed allowed (if b then ok a else err e)
choose-Passed true allowed a e h = h refl
choose-Passed false allowed a e h = tt

conclude-Passed :
    (loads : Bytes → Option Node) (allowed : ℕ) (a : Answer)
    → Passed allowed (conclude loads (allowed ∷ []) a)
unfolding conclude in_list
conclude-Passed loads allowed a =
    choose-Passed ((a.status == allowed || false) || leb 200 a.status && ltb a.status 300) allowed a
      (refusal_error a.status a.location (loads a.body)) (passes allowed a)

module _ {S : Type 0} (request : Asked → S → Result Answer × S)
    (token_of : Bytes → Result (Option Str)) (loads : Bytes → Option Node) where
  concluded-Passed :
      (allowed : ℕ) (r : Result Answer × Client × S)
      → Passed allowed (concluded request token_of loads (allowed ∷ []) r).0
  unfolding concluded
  concluded-Passed allowed (ok a, c, s) = conclude-Passed loads allowed a
  concluded-Passed allowed (err e, c, s) = tt

  pub send_route-Passed :
      (allowed : ℕ) (c : Client) (s : S)
      → Passed allowed (send_route request token_of loads (allowed ∷ []) c s).0
  unfolding send_route
  send_route-Passed allowed c s =
      concluded-Passed allowed (again request token_of loads (attempt request token_of loads c s))

if_found-missing :
    {A : Type 0} (read : Answer → Result A) (a : Answer)
    → a.status ≡ 404
    → if_found read a ≡ ok none
unfolding if_found
if_found-missing read a h =
    let is : (a.status == 404) ≡ true = ground arith in rw (is, if_found) refl

if_found-there :
    {A : Type 0} (read : Answer → Result A) (a : Answer)
    → a.status < 300
    → if_found read a ≡ bind (read a) (λ x. ok (some x))
unfolding if_found
if_found-there read a h =
    let not_is : (a.status == 404) ≡ false = ground arith in rw (not_is, if_found) refl

-- `get` of a file with a target that can be written asks once, through `_send`, and answers nothing
-- for a 404, the body for a status of success, be it empty, and raises what `_send` raises; there is
-- no other way that it ends.
pub get-answered :
    {S : Type 0} (request : Call → Asked → S → Result Answer × S)
    (token_of : Bytes → Result (Option Str)) (py : Python) (loads : Bytes → Option Node)
    (namespace database bucket path target : Str) (c c' : Client) (s s' : S) (r : Result Answer)
    → file_path namespace database bucket path ≡ ok target
    → send_route (request (plain_call (chars "GET") target)) token_of loads (404 ∷ []) c s
      ≡ (r, c', s')
    → ((a : Answer) × (r ≡ ok a)
        × (a.status ≡ 404)
        × (get py loads request token_of namespace database bucket path c s ≡ (ok none, c', s')))
      ⊎ (((a : Answer) × (r ≡ ok a)
            × (200 ≤ a.status)
            × (a.status < 300)
            × (get py loads request token_of namespace database bucket path c s
                ≡ (ok (some a.body), c', s')))
          ⊎ ((e : Error) × (r ≡ err e)
              × (get py loads request token_of namespace database bucket path c s
                  ≡ (err e, c', s'))))
unfolding get taking send_call prepared body_of
get-answered request token_of py loads namespace database bucket path target c c' s s' (err e) named
      sent =
    inr (inr (e, refl, rw (named, prepared) (rw sent refl)))
get-answered request token_of py loads namespace database bucket path target c c' s s' (ok a) named
      sent =
    let passed =
      send_route-Passed (request (plain_call (chars "GET") target)) token_of loads 404 c s in
    let through : (a.status ≡ 404) ⊎ ((200 ≤ a.status) × (a.status < 300)) =
      subst (Passed 404) (ap (λ t. t.0) sent) passed in
    elim through [
      | inl missing ↦ inl (
        a,
        refl,
        missing,
        rw (named, prepared) (rw sent (ap (λ x. (x, c', s')) (if_found-missing body_of a missing))),
      )
      | inr (low, high) ↦ inr (
          inl (
            a,
            refl,
            low,
            high,
            rw (named, prepared) (rw sent (ap (λ x. (x, c', s')) (if_found-there body_of a high))),
          ))
    ]

-- ===== src/Http/Noting.antt =====
-- What the HTTP client asks of the node for one call: the requests with the statuses that they were
-- answered with, noted beside the world.
use tessaridb_sdk_python.Prelude.{
  ℕ, ◌+◌, ◌≡◌, refl, ◌∙◌, Option, none, some, List, [], ◌∷◌, ◌++◌, arith,
}
use tessaridb_sdk_python.Result.{Result, ok, err}
use tessaridb_sdk_python.Http.Session.{Answer, Asked, opening, closing, routing}

-- A request, and the status of its answer, if there was one.
pub record Asking : Type 0 where
  pub asked : Asked
  pub status : Option ℕ

abbrev pub Noted : Type 0 → Type 0
Noted S = S × List Asking

unfoldable pub status_of : Result Answer → Option ℕ
status_of (ok a) = some a.status
status_of (err e) = none

unfoldable pub noting :
    {S : Type 0} → (Asked → S → Result Answer × S) → Asked → Noted S → Result Answer × Noted S
unfolding status_of
noting request what (s, log) =
    let (r, s') = request what s in
    (r, (s', log ++ record { asked = what; status = status_of r } ∷ []))

-- How often the route was asked for, and how that was answered the first time.
unfoldable pub is_route : Asked → ℕ
is_route (routing header) = 1
is_route _ = 0

unfoldable pub routes : List Asking → ℕ
unfolding is_route
routes [] = 0
routes (a ∷ log) = is_route a.asked + routes log

unfoldable pub route_status : Asked → Option ℕ → Option ℕ → Option ℕ
route_status (routing header) status later = status
route_status _ status later = later

unfoldable pub first_route : List Asking → Option ℕ
unfolding route_status
first_route [] = none
first_route (a ∷ log) = route_status a.asked a.status (first_route log)

pub routes-append : (xs ys : List Asking) → routes (xs ++ ys) ≡ routes xs + routes ys
unfolding routes
routes-append [] ys = omega arith
routes-append (a ∷ xs) ys = omega (arith, routes-append xs ys)

pub routed_first :
    (what : Asked) (status later later' : Option ℕ) (n : ℕ)
    → (later ≡ some n → later' ≡ some n)
    → route_status what status later ≡ some n
    → route_status what status later' ≡ some n
unfolding route_status
routed_first (routing header) status later later' n go h = h
routed_first (opening b) status later later' n go h = go h
routed_first (closing b) status later later' n go h = go h

pub first_route-append :
    (xs ys : List Asking) (n : ℕ) → first_route xs ≡ some n → first_route (xs ++ ys) ≡ some n
unfolding first_route
first_route-append [] ys n h = cc
first_route-append (a ∷ xs) ys n h =
    routed_first a.asked a.status (first_route xs) (first_route (xs ++ ys)) n
      (first_route-append xs ys n) h

pub not_routed :
    (what : Asked) (status later : Option ℕ) (n : ℕ)
    → is_route what + n ≡ 0
    → (route_status what status later ≡ later) × (n ≡ 0)
unfolding is_route route_status
not_routed (routing header) status later n h = absurd (omega arith)
not_routed (opening b) status later n h = (refl, omega arith)
not_routed (closing b) status later n h = (refl, omega arith)

pub first_route_behind :
    (xs ys : List Asking) → routes xs ≡ 0 → first_route (xs ++ ys) ≡ first_route ys
unfolding routes first_route
first_route_behind [] ys h = refl
first_route_behind (a ∷ xs) ys h =
    let (past, none_left) = not_routed a.asked a.status (first_route (xs ++ ys)) (routes xs) h in
    past ∙ first_route_behind xs ys none_left

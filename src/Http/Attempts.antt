-- ===== src/Http/Attempts.antt =====
-- One attempt of `_send`: at most one request for the route, behind what signing in asks.
use tessaridb_sdk_python.Prelude.{
  ◌≤◌, ◌≡◌, refl, ap, sym, ◌∙◌, Bool, true, false, Bool-cases, ◌⊎◌, inl, inr, Option, none, some,
  List, [], ◌∷◌, ◌++◌, append-nil, append_assoc, ◌==◌, arith,
}
use tessaridb_sdk_python.Result.{Bytes, Str, Result, ok, err}
use tessaridb_sdk_python.Json.Node.{Node}
use tessaridb_sdk_python.Http.Session.{
  Answer, Asked, opening, routing, Client, kept_token, opened, open_session, headed, signing,
  authorized, authorization, with_client, routed, attempt,
}
use tessaridb_sdk_python.Http.Noting.{
  Asking, Noted, status_of, noting, routes, first_route, routes-append, first_route_behind,
}

-- The session was asked for at most, and not the route.
abbrev pub Signs : {S : Type 0} → List Asking → Result (Option Str) × Client × Noted S → Type 0
Signs log (r, c, (s, log')) = (more : List Asking) × (log' ≡ log ++ more) × (routes more ≡ 0)

-- The route was asked for once, if it was answered.
abbrev pub Attempts : {S : Type 0} → List Asking → Result Answer × Client × Noted S → Type 0
Attempts log (ok a, c, (s, log')) =
    (more : List Asking) × (log' ≡ log ++ more)
    × (routes more ≡ 1)
    × (first_route more ≡ some a.status)
Attempts log (err e, c, (s, log')) = (more : List Asking) × (log' ≡ log ++ more) × (routes more ≤ 1)

abbrev pub Sends : {S : Type 0} → List Asking → Result Answer × Client × Noted S → Type 0
Sends log (r, c, (s, log')) =
    (more : List Asking) × (log' ≡ log ++ more)
    × ((routes more ≤ 1) ⊎ ((routes more ≡ 2) × (first_route more ≡ some 401)))

module _ {S : Type 0} (request : Asked → S → Result Answer × S)
    (token_of : Bytes → Result (Option Str)) (loads : Bytes → Option Node) where
  pub kept_token_world :
      (c : Client) (n : Noted S) (t : Result (Option Str))
      → (kept_token (noting request) token_of loads c n t).2 ≡ n
  unfolding kept_token
  kept_token_world c n (ok t) = refl
  kept_token_world c n (err e) = refl

  pub opened_world :
      (c : Client) (r : Result Answer) (n : Noted S)
      → (opened (noting request) token_of loads c (r, n)).2 ≡ n
  unfolding opened
  opened_world c (err e) n = refl
  opened_world c (ok a) n = elim (Bool-cases (a.status == 200)) [
    | inl found ↦ rw (found, opened) (kept_token_world c n (token_of a.body))
    | inr other ↦ elim (Bool-cases (a.status == 401)) [
      | inl none_there ↦ rw (other, opened) (rw none_there refl)
      | inr refused ↦ rw (other, opened) (rw refused refl)
    ]
  ]

  pub headed_world :
      (basic : Str) (r : Result (Option Str) × Client × Noted S)
      → (headed (noting request) token_of loads basic r).2 ≡ r.2
  unfolding headed
  headed_world basic (ok t, c, n) = refl
  headed_world basic (err e, c, n) = refl

  pub signing-Signs :
      (basic : Str) (token : Option Str) (sessionless : Bool) (c : Client) (s : S)
      (log : List Asking)
      → Signs log (signing (noting request) token_of loads basic token sessionless c (s, log))
  unfolding signing open_session noting routes
  signing-Signs basic (some token) sessionless c s log = ([], sym (append-nil log), refl)
  signing-Signs basic none true c s log = ([], sym (append-nil log), refl)
  signing-Signs basic none false c s log =
      let (r, s') = request (opening basic) s in
      let more = record { asked = opening basic; status = status_of r } ∷ [] in
      let opening_answer = opened (noting request) token_of loads c (r, (s', log ++ more)) in
      (
        more,
        ap (λ n. n.1) (headed_world basic opening_answer ∙ opened_world c r (s', log ++ more)),
        omega arith,
      )

  pub authorization-Signs :
      (c : Client) (s : S) (log : List Asking)
      → Signs log (authorization (noting request) token_of loads c (s, log))
  unfolding authorization
  authorization-Signs c s log = by_user c.basic
    where
      by_user :
          (basic : Option Str)
          → Signs log (authorized (noting request) token_of loads basic c (s, log))
      by_user none = unfold authorized routes in ([], sym (append-nil log), refl)
      by_user (some basic) = unfold authorized in signing-Signs basic c.token c.sessionless c s log

  pub with_client-Attempts :
      (log more : List Asking) (header : Option Str) (c : Client) (r : Result Answer) (s : S)
      → routes more ≡ 0
      → Attempts log
          (r, c, (s, (log ++ more) ++ record { asked = routing header; status = status_of r } ∷ []))
  unfolding routes first_route status_of
  with_client-Attempts log more header c (ok a) s h =
      let last = record { asked = routing header; status = some a.status } ∷ [] in
      (
        more ++ last,
        append_assoc log more last,
        routes-append more last ∙ rw h (omega arith),
        first_route_behind more last h,
      )
  with_client-Attempts log more header c (err e) s h =
      let last = record { asked = routing header; status = none } ∷ [] in
      (more ++ last, append_assoc log more last, rw (routes-append more last) (rw h (omega arith)))

  pub routed-Attempts :
      (log : List Asking) (r : Result (Option Str) × Client × Noted S)
      → Signs log r
      → Attempts log (routed (noting request) token_of loads r)
  unfolding routed noting with_client
  routed-Attempts log (err e, c, (s, log')) (more, eq, h) = (more, eq, omega (arith, h))
  routed-Attempts log (ok header, c, (s, log')) (more, eq, h) =
      let (r, s') = request (routing header) s in
      rw eq (with_client-Attempts log more header c r s' h)

  pub attempt-Attempts :
      (c : Client) (s : S) (log : List Asking)
      → Attempts log (attempt (noting request) token_of loads c (s, log))
  unfolding attempt
  attempt-Attempts c s log =
      routed-Attempts log (authorization (noting request) token_of loads c (s, log))
        (authorization-Signs c s log)

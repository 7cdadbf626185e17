-- ===== src/Http/Resends.antt =====
-- What the HTTP client asks of the node for one call: how often for the route.
use tessaridb_sdk_python.Prelude.{
  ℕ, zero, suc, ◌≤◌, ◌≡◌, refl, ap, ◌∙◌, Bool, true, false, Bool-cases, ◌⊎◌, inl, inr, Option, none,
  some, List, [], ◌∷◌, ◌++◌, append_assoc, ◌==◌, arith,
}
use tessaridb_sdk_python.Result.{Bytes, Str, Result, ok, err}
use tessaridb_sdk_python.Json.Node.{Node}
use tessaridb_sdk_python.Http.Session.{
  Answer, Asked, routing, Client, is_held, discard, signing, authorized, authorization, with_client,
  routed, attempt, resent, again, concluded, send_route,
}
use tessaridb_sdk_python.Http.Noting.{
  Asking, Noted, status_of, noting, routes, first_route, routes-append, first_route-append,
}
use tessaridb_sdk_python.Http.Attempts.{Attempts, Sends, attempt-Attempts}

-- A client that learned that the node opens no sessions: it has no token.
abbrev pub basic_client : Str → Client
basic_client basic = record { basic = some basic; token = none; sessionless = true }

module _ {S : Type 0} (request : Asked → S → Result Answer × S)
    (token_of : Bytes → Result (Option Str)) (loads : Bytes → Option Node) where
  -- A second attempt, behind a first one that was answered 401.
  second-Sends :
      (log more : List Asking) (r : Result Answer × Client × Noted S)
      → routes more ≡ 1
      → first_route more ≡ some 401
      → Attempts (log ++ more) r
      → Sends log r
  second-Sends log more (ok a, c, (s, log')) one first (last, eq, once, status) = (
    more ++ last,
    eq ∙ append_assoc log more last,
    inr (
      rw (routes-append more last) (omega (arith, one, once)),
      first_route-append more last 401 first,
    ),
  )
  second-Sends log more (err e, c, (s, log')) one first (last, eq, most) =
      (more ++ last, eq ∙ append_assoc log more last, at_most (routes last) refl)
    where
      at_most :
          (n : ℕ)
          → routes last ≡ n
          → (routes (more ++ last) ≤ 1)
            ⊎ ((routes (more ++ last) ≡ 2) × (first_route (more ++ last) ≡ some 401))
      at_most zero h = inl (rw (routes-append more last) (omega (arith, one, h)))
      at_most (suc n) h = inr (
        rw (routes-append more last) (omega (arith, one, h, most)),
        first_route-append more last 401 first,
      )

  first-Sends :
      (log : List Asking) (r : Result Answer × Client × Noted S) → Attempts log r → Sends log r
  first-Sends log (ok a, c, (s, log')) (more, eq, once, status) =
      (more, eq, inl (omega (arith, once)))
  first-Sends log (err e, c, (s, log')) (more, eq, most) = (more, eq, inl most)

  again-Sends :
      (log : List Asking) (r : Result Answer × Client × Noted S)
      → Attempts log r
      → Sends log (again (noting request) token_of loads r)
  unfolding again discard
  again-Sends log (err e, c, (s, log')) h = first-Sends log (err e, c, (s, log')) h
  again-Sends log (ok a, c, (s, log')) h = elim (Bool-cases (a.status == 401)) [
    | inl unauthorized ↦ rw (unauthorized, again) (resent-Sends (is_held c.token) unauthorized h)
    | inr other ↦ rw (other, again) (first-Sends log (ok a, c, (s, log')) h)
  ]
    where
      resent-Sends :
          (held : Bool)
          → (a.status == 401) ≡ true
          → Attempts log (ok a, c, (s, log'))
          → Sends log
              (resent (noting request) token_of loads a (record c { token = none }, held) (s, log'))
      resent-Sends false unauthorized h =
          unfold resent in first-Sends log (ok a, record c { token = none }, (s, log')) h
      resent-Sends true unauthorized (more, eq, once, status) =
          unfold resent in
          second-Sends log more
            (attempt (noting request) token_of loads (record c { token = none }) (s, log')) once
            (status ∙ ap some (ground arith))
            (rw eq
              (attempt-Attempts request token_of loads (record c { token = none }) s (log ++ more)))

  concluded-Sends :
      (allow : List ℕ) (log : List Asking) (r : Result Answer × Client × Noted S)
      → Sends log r
      → Sends log (concluded (noting request) token_of loads allow r)
  unfolding concluded
  concluded-Sends allow log (ok a, c, n) h = h
  concluded-Sends allow log (err e, c, n) h = h

  -- A call asks for its route once at most, or twice: the second time only after the first was answered
  -- 401. So an append that may have landed is not sent again.
  pub send_route-Sends :
      (allow : List ℕ) (c : Client) (s : S) (log : List Asking)
      → (more : List Asking) × ((send_route (noting request) token_of loads allow c (s, log)).2.1
          ≡ log ++ more)
        × ((routes more ≤ 1) ⊎ ((routes more ≡ 2) × (first_route more ≡ some 401)))
  unfolding send_route
  send_route-Sends allow c s log =
      concluded-Sends allow log
        (again (noting request) token_of loads (attempt (noting request) token_of loads c (s, log)))
        (again-Sends log (attempt (noting request) token_of loads c (s, log))
          (attempt-Attempts request token_of loads c s log))

  kept :
      (basic : Str) (allow : List ℕ) (r : Result Answer) (n : Noted S)
      → (concluded
          (noting request)
          token_of
          loads
          allow
          (again (noting request) token_of loads (r, basic_client basic, n))).1
        ≡ basic_client basic
  unfolding concluded again discard resent is_held
  kept basic allow (err e) n = refl
  kept basic allow (ok a) n = elim (Bool-cases (a.status == 401)) [
    | inl unauthorized ↦ rw (unauthorized, again) refl
    | inr other ↦ rw (other, again) refl
  ]

  kept_world :
      (basic : Str) (allow : List ℕ) (r : Result Answer) (n : Noted S)
      → (concluded
          (noting request)
          token_of
          loads
          allow
          (again (noting request) token_of loads (r, basic_client basic, n))).2
        ≡ n
  unfolding concluded again discard resent is_held
  kept_world basic allow (err e) n = refl
  kept_world basic allow (ok a) n = elim (Bool-cases (a.status == 401)) [
    | inl unauthorized ↦ rw (unauthorized, again) refl
    | inr other ↦ rw (other, again) refl
  ]

  -- A client that learned that the node opens no sessions asks for none again, whatever it is answered:
  -- each call is one request, with the name and the password, and leaves the client as it was.
  pub send_route-basic_client :
      (allow : List ℕ) (basic : Str) (s : S) (log : List Asking)
      → (status : Option ℕ) × ((send_route
            (noting request)
            token_of
            loads
            allow
            (basic_client basic)
            (s, log)).1
          ≡ basic_client basic)
        × ((send_route (noting request) token_of loads allow (basic_client basic) (s, log)).2.1
            ≡ log ++ record { asked = routing (some basic); status = status } ∷ [])
  unfolding send_route attempt routed authorization authorized signing with_client noting
  send_route-basic_client allow basic s log =
      let (r, s') = request (routing (some basic)) s in
      let log' = log ++ record { asked = routing (some basic); status = status_of r } ∷ [] in
      (
        status_of r,
        kept basic allow r (s', log'),
        ap (λ n. n.1) (kept_world basic allow r (s', log')),
      )

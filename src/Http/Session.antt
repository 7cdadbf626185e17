-- ===== src/Http/Session.antt =====
-- `_send`, `_authorization`, `_open_session` and `_discard` of http.py. Sending a request over a
-- connection of its own is a parameter, as are `json.loads` and the reading of a token out of a body.
use tessaridb_sdk_python.Prelude.{
  ℕ, Bool, true, false, ◌&&◌, ◌||◌, Option, none, some, List, [], ◌∷◌, ◌++◌, ◌==◌, leb, ltb,
  if◌then◌else◌,
}
use tessaridb_sdk_python.Result.{Bytes, Str, Result, ok, err}
use tessaridb_sdk_python.Text.{chars}
use tessaridb_sdk_python.Json.Node.{Node}
use tessaridb_sdk_python.Http.Refusals.{refusal_error}

-- `_Answer`.
pub record Answer : Type 0 where
  pub status : ℕ
  pub body : Bytes
  pub location : Str

-- What is asked of the node: a session for these credentials, the end of one, or the route of the
-- call, with the `Authorization` header.
pub data Asked : Type 0 where
  opening : Str → Asked
  closing : Str → Asked
  routing : Option Str → Asked

-- `basic` is the `Basic` header of the user and the password, if there is a user.
pub record Client : Type 0 where
  pub basic : Option Str
  pub token : Option Str
  pub sessionless : Bool

unfoldable pub client : Option Str → Client
client basic = record { basic = basic; token = none; sessionless = false }

unfoldable pub bearer : Str → Str
bearer token = chars "Bearer " ++ token

-- `f"Bearer {token}" if token else self._basic()`.
unfoldable pub bearer_or : Str → Option Str → Str
unfolding bearer
bearer_or basic none = basic
bearer_or basic (some []) = basic
bearer_or basic (some (c ∷ token)) = bearer (c ∷ token)

unfoldable pub is_held : Option Str → Bool
is_held none = false
is_held (some token) = true

-- `_discard`: whether a token was held.
unfoldable pub discard : Client → Client × Bool
unfolding is_held
discard c = (record c { token = none }, is_held c.token)

unfoldable pub in_list : ℕ → List ℕ → Bool
in_list n [] = false
in_list n (m ∷ ms) = n == m || in_list n ms

-- The answer, or the refusal that it is.
unfoldable pub conclude : (Bytes → Option Node) → List ℕ → Answer → Result Answer
unfolding in_list refusal_error
conclude loads allow a =
    if in_list a.status allow || leb 200 a.status && ltb a.status 300
    then ok a
    else err (refusal_error a.status a.location (loads a.body))

module _ {S : Type 0} (request : Asked → S → Result Answer × S)
    (token_of : Bytes → Result (Option Str)) (loads : Bytes → Option Node) where
  -- A null is kept as no token.
  unfoldable pub kept_token : Client → S → Result (Option Str) → Result (Option Str) × Client × S
  kept_token c s (ok token) = (ok token, record c { token = token }, s)
  kept_token c s (err e) = (err e, c, s)

  unfoldable pub opened : Client → Result Answer × S → Result (Option Str) × Client × S
  unfolding kept_token refusal_error
  opened c (err e, s) = (err e, c, s)
  opened c (ok a, s) =
      if a.status == 200
      then kept_token c s (token_of a.body)
      else if a.status == 401
      then (ok none, record c { sessionless = true }, s)
      else (err (refusal_error a.status [] (loads a.body)), c, s)

  -- `_open_session`.
  unfoldable pub open_session : Str → Client → S → Result (Option Str) × Client × S
  open_session basic c s = opened c (request (opening basic) s)

  unfoldable pub headed : Str → Result (Option Str) × Client × S → Result (Option Str) × Client × S
  headed basic (err e, c, s) = (err e, c, s)
  headed basic (ok token, c, s) = (ok (some (bearer_or basic token)), c, s)

  -- `_authorization` of a client that has a user.
  unfoldable pub signing : Str → Option Str → Bool → Client → S → Result (Option Str) × Client × S
  unfolding headed
  signing basic (some token) sessionless c s = (ok (some (bearer token)), c, s)
  signing basic none true c s = (ok (some basic), c, s)
  signing basic none false c s = headed basic (open_session basic c s)

  unfoldable pub authorized : Option Str → Client → S → Result (Option Str) × Client × S
  unfolding signing
  authorized none c s = (ok none, c, s)
  authorized (some basic) c s = signing basic c.token c.sessionless c s

  -- `_authorization`.
  unfoldable pub authorization : Client → S → Result (Option Str) × Client × S
  unfolding authorized
  authorization c s = authorized c.basic c s

  unfoldable pub with_client : Client → Result Answer × S → Result Answer × Client × S
  with_client c (r, s) = (r, c, s)

  unfoldable pub routed : Result (Option Str) × Client × S → Result Answer × Client × S
  unfolding with_client
  routed (err e, c, s) = (err e, c, s)
  routed (ok header, c, s) = with_client c (request (routing header) s)

  -- One request with the header that the session gives.
  unfoldable pub attempt : Client → S → Result Answer × Client × S
  unfolding routed
  attempt c s = routed (authorization c s)

  unfoldable pub resent : Answer → Client × Bool → S → Result Answer × Client × S
  resent a (c, true) s = attempt c s
  resent a (c, false) s = (ok a, c, s)

  -- Once more, if the first was answered 401 and a token was held.
  unfoldable pub again : Result Answer × Client × S → Result Answer × Client × S
  unfolding resent
  again (err e, c, s) = (err e, c, s)
  again (ok a, c, s) = elim (a.status == 401) [
    | true ↦ resent a (discard c) s
    | false ↦ (ok a, c, s)
  ]

  unfoldable pub concluded : List ℕ → Result Answer × Client × S → Result Answer × Client × S
  concluded allow (err e, c, s) = (err e, c, s)
  concluded allow (ok a, c, s) = (conclude loads allow a, c, s)

  -- `_send`.
  unfoldable pub send_route : List ℕ → Client → S → Result Answer × Client × S
  unfolding again concluded
  send_route allow c s = concluded allow (again (attempt c s))

  unfoldable pub ended : Client → Option Str → S → Result (Unit {0}) × Client × S
  ended c none s = (ok tt, c, s)
  ended c (some token) s =
      let (r, s') = request (closing (bearer token)) s in
      (elim r [ ok a ↦ ok tt | err e ↦ err e ], record c { token = none }, s')

  -- `end_session`.
  unfoldable pub end_session : Client → S → Result (Unit {0}) × Client × S
  unfolding ended
  end_session c s = ended c c.token s

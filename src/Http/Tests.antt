-- ===== src/Http/Tests.antt =====
-- A node that opens sessions and then forgets them, and one that opens none.
use tessaridb_sdk_python.Prelude.{
  ℕ, zero, suc, ◌≤◌, ◌≡◌, refl, ◌⊎◌, Option, none, some, false, List, [], ◌∷◌,
}
use tessaridb_sdk_python.Result.{Bytes, Str, Result, ok}
use tessaridb_sdk_python.Text.{chars}
use tessaridb_sdk_python.Json.Node.{Node}
use tessaridb_sdk_python.Http.Session.{
  Answer, Asked, opening, closing, routing, Client, send_route, bearer, bearer_or, attempt,
  authorization, open_session, opened, discard, conclude,
}
use tessaridb_sdk_python.Http.Noting.{Asking, noting, routes, first_route}
use tessaridb_sdk_python.Http.Resends.{send_route-Sends, basic_client, send_route-basic_client}

abbrev answering : ℕ → Bytes → Result Answer
answering status body = ok (record { status = status; body = body; location = [] })

-- The world counts the requests; the first time the route is asked for, the token has lapsed.
abbrev forgetful : Asked → ℕ → Result Answer × ℕ
forgetful (opening basic) n = (answering 200 (chars "t2"), suc n)
forgetful (closing header) n = (answering 204 [], suc n)
forgetful (routing header) n = (answering (if_first n) [], suc n)
  where
    if_first : ℕ → ℕ
    if_first zero = 401
    if_first (suc k) = 200

abbrev token_of : Bytes → Result (Option Str)
token_of body = ok (some body)

abbrev loads : Bytes → Option Node
loads body = none

abbrev with_token : Client
with_token = record {
  basic = some (chars "Basic dTpw");
  token = some (chars "t1");
  sessionless = false;
}

send_route-Sends_example :
    (more : List Asking) × ((send_route (noting forgetful) token_of loads [] with_token (0, [])).2.1
      ≡ more)
    × ((routes more ≤ 1) ⊎ ((routes more ≡ 2) × (first_route more ≡ some 401)))
send_route-Sends_example = send_route-Sends forgetful token_of loads [] with_token 0 []

asked_sample :
    (send_route (noting forgetful) token_of loads [] with_token (0, [])).2.1
    ≡ record { asked = routing (some (chars "Bearer t1")); status = some 401 }
      ∷ record { asked = opening (chars "Basic dTpw"); status = some 200 }
      ∷ record { asked = routing (some (chars "Bearer t2")); status = some 200 }
      ∷ []
unfolding send_route attempt authorization open_session opened noting bearer bearer_or discard
    conclude
asked_sample = refl

abbrev sessionless_node : Asked → ℕ → Result Answer × ℕ
sessionless_node what n = (answering 401 [], suc n)

send_route-basic_client_example :
    (status : Option ℕ) × ((send_route
        (noting sessionless_node)
        token_of
        loads
        []
        (basic_client (chars "Basic dTpw"))
        (0, [])).1
      ≡ basic_client (chars "Basic dTpw"))
    × ((send_route
          (noting sessionless_node)
          token_of
          loads
          []
          (basic_client (chars "Basic dTpw"))
          (0, [])).2.1
        ≡ record { asked = routing (some (chars "Basic dTpw")); status = status } ∷ [])
send_route-basic_client_example =
    send_route-basic_client sessionless_node token_of loads [] (chars "Basic dTpw") 0 []

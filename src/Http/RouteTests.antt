-- ===== src/Http/RouteTests.antt =====
-- A node that has one file.
use tessaridb_sdk_python.Http.Session.{attempt, authorization, conclude}
use tessaridb_sdk_python.Bytes.Utf8.{encode_char}
use tessaridb_sdk_python.Follow.Selection.{plain_char, plain_start}
use tessaridb_sdk_python.Events.Literals.{segment_chars}
use tessaridb_sdk_python.Prelude.{
  ℕ, suc, ◌<◌, ◌≤◌, ◌≡◌, refl, ◌⊎◌, false, Option, none, some, [], ◌∷◌, ◌++◌, All,
}
use tessaridb_sdk_python.Result.{Bytes, Str, Result, Error, ok, err}
use tessaridb_sdk_python.Bytes.Utf8.{encode_utf8}
use tessaridb_sdk_python.Text.{chars}
use tessaridb_sdk_python.Json.Node.{Node}
use tessaridb_sdk_python.Json.Samples.{ascii_python}
use tessaridb_sdk_python.Http.Session.{Answer, Asked, Client, send_route}
use tessaridb_sdk_python.Http.Files.{bucket_path, file_path, percent_decode}
use tessaridb_sdk_python.Http.Routes.{Call, plain_call, get}
use tessaridb_sdk_python.Http.Paths.{IsPathChar, file_path-percent_decode}
use tessaridb_sdk_python.Http.Answers.{get-answered}

-- A name with a space, a per cent sign and an e with an accent.
abbrev odd_name : Str
odd_name = 97 ∷ 32 ∷ 37 ∷ 47 ∷ 233 ∷ []

abbrev odd_target : Str
odd_target = chars "/files/n/d/b/a%20%25/%C3%A9"

file_path-odd : file_path (chars "n") (chars "d") (chars "b") odd_name ≡ ok odd_target
unfolding file_path segment_chars plain_char plain_start encode_utf8 encode_char
file_path-odd = refl

file_path-percent_decode_example :
    (before : Str) × (segment : Str) × (bucket_path (chars "n") (chars "d") (chars "b") ≡ ok before)
    × (odd_target ≡ before ++ 47 ∷ segment)
    × All IsPathChar segment
    × (encode_utf8 odd_name ≡ ok (percent_decode segment))
file_path-percent_decode_example =
    file_path-percent_decode (chars "n") (chars "d") (chars "b") odd_name odd_target file_path-odd

abbrev served : Result Answer
served = ok (record { status = 200; body = []; location = [] })

abbrev empty_file : Call → Asked → ℕ → Result Answer × ℕ
empty_file call asked n = (served, suc n)

abbrev no_token : Bytes → Result (Option Str)
no_token body = ok none

abbrev no_json : Bytes → Option Node
no_json body = none

abbrev stranger : Client
stranger = record { basic = none; token = none; sessionless = false }

sent :
    send_route
      (empty_file (plain_call (chars "GET") odd_target))
      no_token
      no_json
      (404 ∷ [])
      stranger
      0
    ≡ (served, stranger, 1)
unfolding send_route attempt authorization conclude
sent = refl

get-answered_example :
    ((a : Answer) × (served ≡ ok a)
      × (a.status ≡ 404)
      × (get ascii_python no_json empty_file no_token
            (chars "n")
            (chars "d")
            (chars "b")
            odd_name
            stranger
            0
          ≡ (ok none, stranger, 1)))
    ⊎ (((a : Answer) × (served ≡ ok a)
          × (200 ≤ a.status)
          × (a.status < 300)
          × (get ascii_python no_json empty_file no_token
                (chars "n")
                (chars "d")
                (chars "b")
                odd_name
                stranger
                0
              ≡ (ok (some a.body), stranger, 1)))
        ⊎ ((e : Error) × (served ≡ err e)
            × (get ascii_python no_json empty_file no_token
                  (chars "n")
                  (chars "d")
                  (chars "b")
                  odd_name
                  stranger
                  0
                ≡ (err e, stranger, 1))))
get-answered_example =
    get-answered empty_file no_token ascii_python no_json (chars "n") (chars "d") (chars "b")
      odd_name odd_target stranger stranger 0 1 served file_path-odd sent

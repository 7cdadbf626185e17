-- ===== src/Http/Routes.antt =====
-- The routes of the HTTP client over `_send`. Sending a request is a parameter, and so is
-- `json.loads`, of which `none` is a ValueError.
use tessaridb_sdk_python.Prelude.{
  ℕ, ℤ, pos, Option, none, some, List, [], ◌∷◌, ◌++◌, ◌==◌, if◌then◌else◌,
}
use tessaridb_sdk_python.Result.{Bytes, Str, Result, ok, err, bind, malformed}
use tessaridb_sdk_python.Bytes.Utf8.{encode_utf8}
use tessaridb_sdk_python.Dict.{dict_get}
use tessaridb_sdk_python.Text.{chars, show_int}
use tessaridb_sdk_python.Value.{Value}
use tessaridb_sdk_python.Events.Literals.{batch, series_path}
use tessaridb_sdk_python.Json.Node.{
  Node, boolean, number, list, no_nodes, Python, gettable, iterate,
}
use tessaridb_sdk_python.Json.Geometry.{each_of}
use tessaridb_sdk_python.Script.Outcome.{Reading, ScriptOutcome}
use tessaridb_sdk_python.Script.Reading.{get_default, read_results}
use tessaridb_sdk_python.Http.Session.{Answer, Asked, Client, send_route}
use tessaridb_sdk_python.Http.Health.{Health, read_health}
use tessaridb_sdk_python.Http.Files.{FileEntry, bucket_path, file_path, read_entry}

-- What `_send` is called with.
pub record Call : Type 0 where
  pub verb : Str
  pub target : Str
  pub content : Option Bytes
  pub media : Option Str

unfoldable pub plain_call : Str → Str → Call
plain_call verb target = record { verb = verb; target = target; content = none; media = none }

unfoldable pub call_with : Str → Str → Bytes → Str → Call
call_with verb target content media = record {
  verb = verb;
  target = target;
  content = some content;
  media = some media;
}

-- What is made of the answer, and the client and the world that it came with.
unfoldable pub taking :
    {A S : Type 0} → (Answer → Result A) → Result Answer × Client × S → Result A × Client × S
taking read (r, c, s) = (bind r read, c, s)

-- What goes on with an argument that may have been refused.
unfoldable pub prepared :
    {A B S : Type 0}
    → Result B
    → (B → Client → S → Result A × Client × S)
    → Client
    → S
    → Result A × Client × S
prepared (ok b) go_on c s = go_on b c s
prepared (err e) go_on c s = (err e, c, s)

-- A 404 is that nothing is there.
unfoldable pub if_found : {A : Type 0} → (Answer → Result A) → Answer → Result (Option A)
if_found read a = if a.status == 404 then ok none else bind (read a) (λ x. ok (some x))

unfoldable pub body_of : Answer → Result Bytes
body_of a = ok a.body

unfoldable pub nothing_of : Answer → Result (Unit {0})
nothing_of a = ok tt

-- `isinstance(appended, int)`, which a bool is.
unfoldable pub appended_of : Option Node → Result ℤ
appended_of (some (number n)) = ok n
appended_of (some (boolean b)) = ok (if b then pos 1 else pos 0)
appended_of _ = err malformed

unfoldable pub backup_target : Option ℤ → Str
backup_target none = chars "/backup"
backup_target (some since) = chars "/backup?from=" ++ show_int since

module _ {S : Type 0} (py : Python) (loads : Bytes → Option Node)
    (request : Call → Asked → S → Result Answer × S) (token_of : Bytes → Result (Option Str)) where
  -- `_json`.
  unfoldable pub json_of : Answer → Result Node
  json_of a = elim (loads a.body) [ none ↦ err malformed | some n ↦ ok n ]

  unfoldable pub send_call : Call → List ℕ → Client → S → Result Answer × Client × S
  send_call call allow = send_route (request call) token_of loads allow

  unfoldable pub script : Str → Reading → Client → S → Result (List ScriptOutcome) × Client × S
  unfolding prepared taking json_of send_call
  script source reading = prepared (encode_utf8 source) λ content c s.
      taking (λ a. bind (json_of a) (read_results py reading))
        (send_call (call_with (chars "POST") (chars "/script") content (chars "text/plain")) [] c s)

  unfoldable pub put : Str → Str → Str → Str → Bytes → Client → S → Result (Unit {0}) × Client × S
  unfolding prepared taking send_call
  put namespace database bucket path content =
      prepared (file_path namespace database bucket path) λ target c s. taking nothing_of (
        send_call (call_with (chars "PUT") target content (chars "application/octet-stream")) [] c
          s)

  unfoldable pub get : Str → Str → Str → Str → Client → S → Result (Option Bytes) × Client × S
  unfolding prepared taking if_found send_call
  get namespace database bucket path =
      prepared (file_path namespace database bucket path) λ target c s.
        taking (if_found body_of) (send_call (plain_call (chars "GET") target) (404 ∷ []) c s)

  unfoldable pub delete : Str → Str → Str → Str → Client → S → Result (Unit {0}) × Client × S
  unfolding prepared taking send_call
  delete namespace database bucket path =
      prepared (file_path namespace database bucket path)
        λ target c s. taking nothing_of (send_call (plain_call (chars "DELETE") target) [] c s)

  unfoldable pub entries : Answer → Result (List FileEntry)
  unfolding json_of
  entries a = bind (json_of a) λ body. bind (gettable body) λ items.
      bind (iterate (get_default (chars "files") (list no_nodes) items)) (each_of read_entry)

  unfoldable pub listing :
      Str → Str → Str → Client → S → Result (Option (List FileEntry)) × Client × S
  unfolding prepared taking if_found send_call entries
  listing namespace database bucket = prepared (bucket_path namespace database bucket) λ target c s.
      taking (if_found entries) (send_call (plain_call (chars "GET") target) (404 ∷ []) c s)

  unfoldable pub append :
      (ℕ → Str)
      → (ℤ → ℤ → Result Str)
      → Str
      → Str
      → Str
      → List Value
      → Client
      → S
      → Result ℤ × Client × S
  unfolding prepared taking json_of appended_of send_call
  append repr instant namespace database series events =
      prepared (bind (batch repr instant events) encode_utf8) λ content.
        prepared (series_path namespace database series) λ target c s.
          taking
            (λ a.
              bind (json_of a) λ body.
                bind (gettable body) λ items. appended_of (dict_get (chars "appended") items))
            (send_call (call_with (chars "POST") target content (chars "text/plain")) [] c s)

  unfoldable pub backup : Option ℤ → Client → S → Result Bytes × Client × S
  unfolding taking backup_target send_call
  backup since c s =
      taking body_of (send_call (plain_call (chars "GET") (backup_target since)) [] c s)

  -- `_condition`.
  unfoldable pub condition : Str → Client → S → Result Health × Client × S
  unfolding taking json_of send_call
  condition target c s =
      taking (λ a. bind (json_of a) (read_health py))
        (send_call (plain_call (chars "GET") target) (503 ∷ []) c s)

  unfoldable pub health : Client → S → Result Health × Client × S
  unfolding condition
  health = condition (chars "/health")

  unfoldable pub ready : Client → S → Result Health × Client × S
  unfolding condition
  ready = condition (chars "/ready")

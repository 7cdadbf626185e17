-- ===== src/Http/Refusals.antt =====
-- `HTTPError`, `_message` and `_code` of http.py, of what `json.loads` makes of a body; `none` is a
-- ValueError. The text of the message is left out, but not how reading it fails.
use tessaridb_sdk_python.Prelude.{ℕ, Option, none, some, if◌then◌else◌}
use tessaridb_sdk_python.Result.{
  Str, RefusalClass, invalid, unauthenticated, forbidden, throttled, elsewhere, retry, conflict,
  unavailable, internal, unknown, Error, http_error, attribute_error,
}
use tessaridb_sdk_python.Dict.{str_eq, dict_get}
use tessaridb_sdk_python.Text.{chars}
use tessaridb_sdk_python.Json.Node.{Node, string, dict, members_list}

-- `RefusalClass.from_word`.
unfoldable pub from_word : Str → RefusalClass
from_word w =
    if str_eq w (chars "invalid")
    then invalid
    else if str_eq w (chars "unauthenticated")
    then unauthenticated
    else if str_eq w (chars "forbidden")
    then forbidden
    else if str_eq w (chars "throttled")
    then throttled
    else if str_eq w (chars "elsewhere")
    then elsewhere
    else if str_eq w (chars "retry")
    then retry
    else if str_eq w (chars "conflict")
    then conflict
    else if str_eq w (chars "unavailable")
    then unavailable
    else if str_eq w (chars "internal")
    then internal
    else unknown

unfoldable pub word_class : Option Node → Option RefusalClass
unfolding from_word
word_class (some (string w)) = some (from_word w)
word_class _ = none

-- `_code`.
unfoldable pub code_of : Option Node → Option RefusalClass
unfolding word_class
code_of (some (dict ms)) = word_class (dict_get (chars "code") (members_list ms))
code_of _ = none

-- `raise HTTPError(status, _message(body), location, _code(body))`: a body that is JSON and no
-- object has no `get`.
unfoldable pub refusal_error : ℕ → Str → Option Node → Error
unfolding code_of
refusal_error status location none = http_error status location none
refusal_error status location (some (dict ms)) =
    http_error status location (code_of (some (dict ms)))
refusal_error status location (some _) = attribute_error

-- ===== src/Http/Files.antt =====
-- _files.py, with `quote` of a path, and a decoder of what it writes.
use tessaridb_sdk_python.Prelude.{
  ℕ, ◌+◌, ◌-◌, ◌*◌, ◌/◌, ◌%◌, Bool, true, false, ◌&&◌, ◌||◌, Option, none, some, List, [], ◌∷◌,
  ◌++◌, leb, ltb, ◌==◌, if◌then◌else◌,
}
use tessaridb_sdk_python.Result.{
  Bytes, Str, Result, ok, err, bind, malformed, value_error, type_error, attribute_error,
}
use tessaridb_sdk_python.Bytes.Utf8.{encode_utf8}
use tessaridb_sdk_python.Dict.{dict_get}
use tessaridb_sdk_python.Text.{chars}
use tessaridb_sdk_python.Events.Literals.{segment_chars}
use tessaridb_sdk_python.Json.Node.{Node, null, string, list, dict, nodes_list, members_list}
use tessaridb_sdk_python.Script.Reading.{get_default, holds_word, holds_text}

unfoldable pub is_unreserved : ℕ → Bool
is_unreserved b =
    leb 97 b && leb b 122
    || (leb 65 b && leb b 90
        || (leb 48 b && leb b 57 || (b == 45 || (b == 46 || (b == 95 || b == 126)))))

unfoldable pub upper_hex : ℕ → ℕ
upper_hex d = if ltb d 10 then 48 + d else 55 + d

-- `quote(path, safe='/')`, of the bytes of the path.
unfoldable pub quote_bytes : Bytes → Str
unfolding is_unreserved upper_hex
quote_bytes [] = []
quote_bytes (b ∷ bs) =
    let rest = quote_bytes bs in
    if is_unreserved b || b == 47
    then b ∷ rest
    else 37 ∷ upper_hex (b / 16) ∷ upper_hex (b % 16) ∷ rest

unfoldable pub bucket_path : Str → Str → Str → Result Str
bucket_path namespace database bucket =
    if segment_chars false namespace && (segment_chars false database && segment_chars false bucket)
    then ok (chars "/files/" ++ (namespace ++ (chars "/" ++ (database ++ (chars "/" ++ bucket)))))
    else err value_error

unfoldable pub file_path : Str → Str → Str → Str → Result Str
unfolding bucket_path quote_bytes
file_path namespace database bucket path =
    bind (bucket_path namespace database bucket)
      λ before. bind (encode_utf8 path) λ bs. ok (before ++ (47 ∷ quote_bytes bs))

-- `FileEntry`; what is missing is null.
pub record FileEntry : Type 0 where
  pub path : Str
  pub size : Node
  pub updated : Node

unfoldable pub is_there : Option Node → Bool
is_there none = false
is_there (some n) = true

unfoldable pub entry_of : Option Node → List (Str × Node) → Result FileEntry
unfolding get_default
entry_of (some (string path)) items = ok (record {
  path = path;
  size = get_default (chars "size") null items;
  updated = get_default (chars "updated") null items;
})
entry_of _ items = err malformed

-- `read_entry`: a list or a text may hold both words, and has no `get`.
unfoldable pub read_entry : Node → Result FileEntry
unfolding entry_of is_there
read_entry (dict ms) =
    if is_there (dict_get (chars "kind") (members_list ms))
      && is_there (dict_get (chars "records") (members_list ms))
    then err malformed
    else entry_of (dict_get (chars "path") (members_list ms)) (members_list ms)
read_entry (list ns) =
    if holds_word (chars "kind") (nodes_list ns) && holds_word (chars "records") (nodes_list ns)
    then err malformed
    else err attribute_error
read_entry (string s) =
    if holds_text (chars "kind") s && holds_text (chars "records") s
    then err malformed
    else err attribute_error
read_entry _ = err type_error

-- What a server makes of a quoted path: `%XX` is a byte.
unfoldable pub hex_digit_value : ℕ → ℕ
hex_digit_value c = if ltb c 58 then c - 48 else c - 55

unfoldable pub percent_decode : Str → Bytes
unfolding hex_digit_value
percent_decode [] = []
percent_decode (c ∷ []) = c ∷ []
percent_decode (c ∷ d ∷ []) = c ∷ d ∷ []
percent_decode (c ∷ d ∷ e ∷ s) =
    let plain = percent_decode (d ∷ e ∷ s) in
    let decoded = percent_decode s in
    if c == 37 then (hex_digit_value d * 16 + hex_digit_value e) ∷ decoded else c ∷ plain

-- ===== src/Events/Literals.antt =====
-- `literal`, `batch` and `series_path` of _events.py. How Python prints a float (`repr`) and a moment
-- (`_instant`) are parameters.
use tessaridb_sdk_python.Prelude.{
  ℕ, zero, suc, ◌+◌, ◌-◌, ◌/◌, ◌%◌, ◌^◌, ℤ, pos, negsuc, Bool, true, false, ◌&&◌, ◌||◌, not, List,
  [], ◌∷◌, ◌++◌, length, ltb, ◌==◌, if◌then◌else◌, take, drop,
}
use tessaridb_sdk_python.Result.{Bytes, Str, Result, ok, err, bind, not_an_event, value_error}
use tessaridb_sdk_python.Value.{
  Value, none_value, null_value, bool, integer, float, decimal, text, datetime, uuid, array, object,
  Items, no_items, item, Fields, no_fields, field,
}
use tessaridb_sdk_python.Dict.{sort_by_name}
use tessaridb_sdk_python.Text.{chars, show, show_int, join_with}
use tessaridb_sdk_python.Follow.Selection.{plain_char}
use tessaridb_sdk_python.Events.Quoting.{quoted}

-- `math.isfinite`, of the bits of a double.
unfoldable pub is_finite : ℕ → Bool
is_finite bits = not (bits / 2 ^ 52 % 2 ^ 11 == 2_047)

unfoldable pub hex_digit : ℕ → ℕ
hex_digit n = if ltb n 10 then 48 + n else 87 + n

-- `bytes.hex`.
unfoldable pub hex : Bytes → Str
unfolding hex_digit
hex [] = []
hex (b ∷ bs) = hex_digit (b / 16) ∷ hex_digit (b % 16) ∷ hex bs

unfoldable pub uuid_text : Bytes → Str
unfolding hex
uuid_text bs =
    let hexed = hex bs in
    chars "uuid '"
    ++ (take 8 hexed
        ++ (chars "-"
            ++ (take 4 (drop 8 hexed)
                ++ (chars "-"
                    ++ (take 4 (drop 12 hexed)
                        ++ (chars "-"
                            ++ (take 4 (drop 16 hexed)
                                ++ (chars "-" ++ (drop 20 hexed ++ chars "'")))))))))

-- `n` zeros before a text.
unfoldable pub zeros : ℕ → Str → Str
zeros zero t = t
zeros (suc n) t = 48 ∷ zeros n t

-- `digits.rjust(width, "0")`.
unfoldable pub rjust : ℕ → Str → Str
unfolding zeros
rjust width digits = zeros (width - length digits) digits

-- The text with a point before position `n`.
unfoldable pub pointed : ℕ → Str → Str
pointed n digits = take n digits ++ (chars "." ++ drop n digits)

unfoldable pub with_point : ℤ → Str → Str
unfolding pointed rjust
with_point (pos zero) digits = digits
with_point (pos (suc s)) digits =
    let padded = rjust (suc s + 1) digits in pointed (length padded - suc s) padded
with_point (negsuc n) digits = pointed (suc n) digits

unfoldable pub signed_text : ℤ → (Str → Str) → Str
signed_text (pos n) layout = layout (show n)
signed_text (negsuc n) layout = chars "-" ++ layout (show (suc n))

-- `_decimal`.
unfoldable pub decimal_text : ℤ → ℤ → Str
unfolding with_point signed_text
decimal_text mantissa scale = chars "dec " ++ signed_text mantissa (with_point scale)

unfoldable pub in_order : List (Str × Result Str) → Result (List Str)
in_order [] = ok []
in_order ((name, written) ∷ fields) =
    bind written λ t. bind (in_order fields) λ ts. ok ((quoted name ++ (chars ": " ++ t)) ∷ ts)

unfoldable pub braces : List Str → Str
braces [] = chars "{}"
braces (t ∷ ts) = chars "{ " ++ (join_with (chars ", ") (t ∷ ts) ++ chars " }")

unfoldable pub brackets : List Str → Str
brackets ts = chars "[" ++ (join_with (chars ", ") ts ++ chars "]")

-- Whether the value is NONE.
unfoldable pub is_none : Value → Bool
is_none none_value = true
is_none _ = false

unfoldable pub any_none : Items → Bool
unfolding is_none
any_none no_items = false
any_none (item v items) = is_none v || any_none items

module _ (repr : ℕ → Str) (instant : ℤ → ℤ → Result Str) where
  -- `literal`; the items of an array in their order, and the fields of an object that hold something.
  unfoldable mutual
    pub literal : Value → Result Str
    literal null_value = ok (chars "NULL")
    literal (bool b) = ok (if b then chars "true" else chars "false")
    literal (integer n) = ok (show_int n)
    literal (float bits) = if is_finite bits then ok (repr bits) else err not_an_event
    literal (decimal mantissa scale) = ok (decimal_text mantissa scale)
    literal (text t) = ok (quoted t)
    literal (datetime seconds nanos) =
        bind (instant seconds nanos) λ t. ok (chars "datetime '" ++ (t ++ chars "'"))
    literal (uuid bs) = ok (uuid_text bs)
    literal (array items) =
        let written = literal_items items in
        if any_none items then err not_an_event else bind written λ ts. ok (brackets ts)
    literal (object fields) =
        bind (in_order (sort_by_name (literal_fields fields))) λ ts. ok (braces ts)
    literal _ = err not_an_event

    pub literal_items : Items → Result (List Str)
    literal_items no_items = ok []
    literal_items (item v items) =
        let others = literal_items items in bind (literal v) λ t. bind others λ ts. ok (t ∷ ts)

    pub literal_fields : Fields → List (Str × Result Str)
    literal_fields no_fields = []
    literal_fields (field name v fields) =
        let others = literal_fields fields in
        let written = literal v in if is_none v then others else (name, written) ∷ others

  unfoldable pub event : Value → Result Str
  event (object fields) = literal (object fields)
  event _ = err not_an_event

  unfoldable pub events : List Value → Result (List Str)
  unfolding event
  events [] = ok []
  events (v ∷ vs) = bind (event v) λ t. bind (events vs) λ ts. ok (t ∷ ts)

  unfoldable pub batch : List Value → Result Str
  unfolding events
  batch vs = bind (events vs) λ ts. ok (brackets ts)

-- A segment is one or more of `[A-Za-z0-9_]`, and not underscores alone.
unfoldable pub segment_chars : Bool → Str → Bool
segment_chars seen [] = seen
segment_chars seen (c ∷ t) = plain_char c && segment_chars (seen || not (c == 95)) t

unfoldable pub series_path : Str → Str → Str → Result Str
unfolding segment_chars
series_path namespace database series =
    if segment_chars false namespace && (segment_chars false database && segment_chars false series)
    then ok (chars "/series/" ++ (namespace ++ (chars "/" ++ (database ++ (chars "/" ++ series)))))
    else err value_error

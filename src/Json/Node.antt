-- ===== src/Json/Node.antt =====
-- What `json.loads` returns, and how Python looks into it. What Python does with characters, floats and
-- the calendar is a parameter.
use tessaridb_sdk_python.Prelude.{
  ℕ, zero, ◌^◌, ℤ, pos, Bool, true, false, not, ◌||◌, ◌==◌, Option, none, some, List, [], ◌∷◌,
}
use tessaridb_sdk_python.Result.{
  Str, Result, ok, err, malformed, type_error, key_error, attribute_error,
}
use tessaridb_sdk_python.Dict.{str_eq, dict_get}

-- A float is its bits; a dictionary is the list of its items.
mutual
  pub data Node : Type 0 where
    null : Node
    boolean : Bool → Node
    number : ℤ → Node
    double : ℕ → Node
    string : Str → Node
    list : Nodes → Node
    dict : Members → Node

  pub data Nodes : Type 0 where
    no_nodes : Nodes
    node_then : Node → Nodes → Nodes

  pub data Members : Type 0 where
    no_members : Members
    member : Str → Node → Members → Members

unfoldable pub nodes_list : Nodes → List Node
nodes_list no_nodes = []
nodes_list (node_then n ns) = n ∷ nodes_list ns

unfoldable pub members_list : Members → List (Str × Node)
members_list no_members = []
members_list (member name n ms) = (name, n) ∷ members_list ms

-- What `str.isdigit`, `str.isspace` and `int` see in a character.
pub data Character : Type 0 where
  space other_digit other_character : Character
  decimal_digit : ℕ → Character

-- The character table, `float` of an integer and of a text, `int` of a float, and the seconds of
-- an instant that `strptime` reads.
pub record Python : Type 0 where
  pub character : ℕ → Character
  pub float_of_int : ℤ → Result ℕ
  pub int_of_float : ℕ → Result ℤ
  pub float_of_text : Str → Result ℕ
  pub instant : Str → Option ℤ

-- `value == word`, of what `get` returned.
unfoldable pub is_word : Option Node → Str → Bool
is_word (some (string s)) word = str_eq s word
is_word _ word = false

-- `_typed` for each of the types that it is called with.
unfoldable pub typed_bool : Node → Result Bool
typed_bool (boolean b) = ok b
typed_bool _ = err malformed

unfoldable pub typed_str : Node → Result Str
typed_str (string s) = ok s
typed_str _ = err malformed

unfoldable pub typed_list : Node → Result (List Node)
unfolding nodes_list
typed_list (list ns) = ok (nodes_list ns)
typed_list _ = err malformed

unfoldable pub typed_dict : Node → Result (List (Str × Node))
unfolding members_list
typed_dict (dict ms) = ok (members_list ms)
typed_dict _ = err malformed

-- The items that Python iterates over.
unfoldable pub letters : Str → List Node
letters [] = []
letters (c ∷ s) = string (c ∷ []) ∷ letters s

unfoldable pub key_names : Members → List Node
key_names no_members = []
key_names (member name n ms) = string name ∷ key_names ms

unfoldable pub iterate : Node → Result (List Node)
unfolding nodes_list letters key_names
iterate (list ns) = ok (nodes_list ns)
iterate (string s) = ok (letters s)
iterate (dict ms) = ok (key_names ms)
iterate _ = err type_error

-- The methods and items of a dictionary: anything else has no `get`, and is no mapping.
unfoldable pub gettable : Node → Result (List (Str × Node))
unfolding members_list
gettable (dict ms) = ok (members_list ms)
gettable _ = err attribute_error

unfoldable pub subscript : Str → Node → Result Node
unfolding members_list
subscript name (dict ms) = elim (dict_get name (members_list ms)) [
  | none ↦ err key_error
  | some n ↦ ok n
]
subscript name _ = err type_error

-- `bool(node)`.
unfoldable pub is_truthy : Node → Bool
is_truthy null = false
is_truthy (boolean b) = b
is_truthy (number (pos zero)) = false
is_truthy (number _) = true
is_truthy (double bits) = not (bits == 0 || bits == 2 ^ 63)
is_truthy (string []) = false
is_truthy (string _) = true
is_truthy (list no_nodes) = false
is_truthy (list _) = true
is_truthy (dict no_members) = false
is_truthy (dict _) = true

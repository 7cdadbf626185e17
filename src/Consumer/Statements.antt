-- ===== src/Consumer/Statements.antt =====
-- `_Statements` and `_message` of consumer.py. A delay is given in the whole milliseconds that
-- `int(delay * 1000)` is.
use tessaridb_sdk_python.Prelude.{
  ℕ, suc, ℤ, pos, Option, none, some, List, [], ◌∷◌, ◌++◌, if◌then◌else◌,
}
use tessaridb_sdk_python.Result.{Str, Result, ok, err, builder, not_a_name, value_error, bind}
use tessaridb_sdk_python.Value.{Value, none_value, integer, object, fields_list}
use tessaridb_sdk_python.Dict.{dict_get, dict_set}
use tessaridb_sdk_python.Text.{chars, show_int, join_with}
use tessaridb_sdk_python.Follow.Selection.{is_plain}
use tessaridb_sdk_python.Query.Filter.{Binder, reference}
use tessaridb_sdk_python.Answer.Outcome.{Row, Outcome, records, value_outcome}
use tessaridb_sdk_python.Worker.Names.{check_worker, tenancy}
use tessaridb_sdk_python.Queue.Statements.{delay_tail}

pub record Statements : Type 0 where
  pub before : Str
  pub topic : Str
  pub group : Str

unfoldable pub plain : Str → Str → Result Str
plain what name = if is_plain name then ok name else err (builder (not_a_name what name))

unfoldable pub statements : Str → Str → Str → Str → Result Statements
unfolding tenancy plain
statements namespace database topic group = bind (plain (chars "a namespace") namespace) λ n.
    bind (plain (chars "a database") database) λ d. bind (plain (chars "a topic") topic) λ t.
      bind (check_worker (chars "a group") group)
        λ g. ok (record { before = tenancy n d; topic = t; group = g })

unfoldable pub read_statement : Statements → ℤ → Str
read_statement w limit =
    w.before
    ++ (chars "READ FROM "
        ++ (w.topic
            ++ (chars " FOR CONSUMER '"
                ++ (w.group ++ (chars "' LIMIT " ++ (show_int limit ++ chars ";"))))))

-- `[f"p{index}" for index in range(len(positions))]`, from `index` on.
unfoldable pub names_from : ℕ → List ℤ → List Str
names_from index [] = []
names_from index (position ∷ positions) = reference index ∷ names_from (suc index) positions

unfoldable pub dollars : List Str → List Str
dollars [] = []
dollars (name ∷ names) = (chars "$" ++ name) ∷ dollars names

-- The dictionary of `zip(names, positions)`, over the items that it has so far.
unfoldable pub zip_integers : Binder → List Str → List ℤ → Binder
zip_integers items (name ∷ names) (position ∷ positions) =
    zip_integers (dict_set name (integer position) items) names positions
zip_integers items _ _ = items

-- `_Statements._settle`.
unfoldable pub settle_statement : Statements → Str → List ℤ → Str → Str × Binder
unfolding names_from dollars
settle_statement w verb positions tail =
    let names = names_from 0 positions in
    (
      w.before
          ++ (verb
              ++ (chars " "
                  ++ (w.topic
                      ++ (chars " FOR CONSUMER '"
                          ++ (w.group
                              ++ (chars "' AT "
                                  ++ (join_with (chars ", ") (dollars names)
                                      ++ (tail ++ chars ";")))))))),
      zip_integers [] names positions,
    )

unfoldable pub ack_statement : Statements → List ℤ → Str × Binder
unfolding settle_statement
ack_statement w positions = settle_statement w (chars "ACK") positions []

unfoldable pub nack_statement : Statements → List ℤ → Option ℤ → Str × Binder
unfolding settle_statement delay_tail
nack_statement w positions delay =
    settle_statement w (chars "NACK") positions (delay_tail (chars " DELAY ") delay)

pub record Message : Type 0 where
  pub position : ℕ
  pub value : Value
  pub deliveries : ℕ

-- `_whole`.
unfoldable pub whole : Option Value → Result ℕ
whole (some (integer (pos n))) = ok n
whole _ = err value_error

unfoldable pub or_none : Option Value → Value
or_none (some v) = v
or_none none = none_value

-- `_message`.
unfoldable pub message : Value → Result Message
unfolding whole or_none
message (object fields) =
    bind (whole (dict_get (chars "position") (fields_list fields))) λ position.
      bind (whole (dict_get (chars "deliveries") (fields_list fields))) λ deliveries. ok (record {
        position = position;
        value = or_none (dict_get (chars "value") (fields_list fields));
        deliveries = deliveries;
      })
message _ = err value_error

unfoldable pub messages : List Row → Result (List Message)
unfolding message
messages [] = ok []
messages (row ∷ rows) = bind (message row.value) λ m. bind (messages rows) λ ms. ok (m ∷ ms)

unfoldable pub read_messages : Option Outcome → Result (List Message)
unfolding messages
read_messages (some (records r)) = messages r.rows
read_messages _ = err value_error

-- How many were in flight.
unfoldable pub settled_count : Option Outcome → Result ℕ
unfolding whole
settled_count (some (value_outcome names v)) = whole (some v)
settled_count _ = err value_error

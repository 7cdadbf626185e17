-- ===== src/Follow/Tests.antt =====
-- The theorems of redirects at a concrete session.
use tessaridb_sdk_python.Prelude.{
  ◌↔◌, List, ◌++◌, ◌≡◌, ◌≤◌, ℕ, refl, [], ◌∷◌, true, false, none, length,
}
use tessaridb_sdk_python.Result.{Str, Result, ok, err, io}
use tessaridb_sdk_python.Dict.{dict_get}
use tessaridb_sdk_python.Text.{chars}
use tessaridb_sdk_python.Value.{Value, text, fields_list, fields_of}
use tessaridb_sdk_python.Bytes.Endian.{to_bytes, from_bytes, read_onto}
use tessaridb_sdk_python.Bytes.Utf8.{encode_char, encode_utf8}
use tessaridb_sdk_python.Bytes.Writer
use tessaridb_sdk_python.Bytes.Writer.{◌⨾◌}
use tessaridb_sdk_python.Bytes.Reader.{◌>>=◌, take_bytes, fixed, u8, u32, lenbytes, repeat}
use tessaridb_sdk_python.Codec.Encode.{put_each}
use tessaridb_sdk_python.Codec.Decode.{counted, get_fields, get_value, value, finish, decode}
use tessaridb_sdk_python.Frames.Socket.{
  Socket, hung_up, sendall, recv, recv_pieces, receive, receive_loop,
}
use tessaridb_sdk_python.Frames.Framing.{frame, send, read, read_body, from_node}
use tessaridb_sdk_python.Answer.Read.{
  get_names, names, held, nested_value, get_outcome, outcome, get_body, next_outcome, read_answer,
}
use tessaridb_sdk_python.Connection.Messages.{Elsewhere, transient}
use tessaridb_sdk_python.Connection.Session.{
  Connection, owes, spend, or_empty, put_credentials, put_parameters, and_then, after_send,
  finish_request, request_body, take_frame, read_open, reply_to, reply, exchange, ask,
}
use tessaridb_sdk_python.Follow.Selection.{
  text_of, use_clause, use_clauses, namespace_key, is_plain, plain_start, plain_char, plain_chars,
  last_object, not_redirected, answered, context, selection,
}
use tessaridb_sdk_python.Follow.Hops.{halt, hop, proceed, follow, from_selection, followed}
use tessaridb_sdk_python.Follow.Bounds.{Ascending, followed-dialled, followed-unmoved}
use tessaridb_sdk_python.Follow.Plain.{Selects, use_clauses-Selects}

-- A session whose node answers that it has selected nothing.
abbrev unselected : Connection
unselected = record {
  sock = record {
    pieces =
        (
          2,
          0 ∷ 0 ∷ 0 ∷ 22 ∷ 0 ∷ 0 ∷ 0 ∷ 1 ∷ 0 ∷ 0 ∷ 0 ∷ 14 ∷ 2 ∷ 0 ∷ 0 ∷ 0 ∷ 0 ∷ 0 ∷ 0 ∷ 0 ∷ 5 ∷ 13
              ∷ 0 ∷ 0 ∷ 0 ∷ 0 ∷ [],
        )
        ∷ [];
    ending = hung_up;
    sent = [];
    writable = true;
  };
  user = none;
  password = none;
  owed = false;
  subscribed = false;
  minor = 4;
}

abbrev away : Elsewhere
away = record { node = []; epoch = 3; settlement = transient; endpoint = 58 ∷ 49 ∷ [] }

-- A network on which nothing can be reached.
abbrev unreachable : ℕ → Str → Result Socket
unreachable left endpoint = err io

followed-dialled_example :
    (length (followed unreachable (120 ∷ []) [] away unselected).dialled ≤ 3)
    × Ascending 0 (followed unreachable (120 ∷ []) [] away unselected).dialled
followed-dialled_example = followed-dialled unreachable (120 ∷ []) [] away unselected

raised_io : (followed unreachable (120 ∷ []) [] away unselected).result ≡ err io
unfolding followed from_selection selection context answered not_redirected last_object use_clauses
    use_clause text_of follow hop proceed halt ask request_body finish_request put_credentials
    put_parameters put_each owes or_empty spend and_then exchange after_send send sendall frame
    reply read_open take_frame read recv recv_pieces receive receive_loop read_body from_node
    reply_to read_answer counted repeat next_outcome get_body outcome get_outcome names get_names
    nested_value held decode value get_value get_fields finish fixed u8 u32 take_bytes lenbytes
    ◌>>=◌ from_bytes read_onto to_bytes ◌⨾◌ Writer.u8 Writer.u32 Writer.text Writer.lenbytes
    Writer.raw encode_utf8 encode_char dict_get fields_list fields_of
raised_io = refl

followed-unmoved_example :
    (followed unreachable (120 ∷ []) [] away unselected).conn ≡ (selection unselected).1
followed-unmoved_example = followed-unmoved unreachable (120 ∷ []) [] away unselected io raised_io

-- "USE NAMESPACE a; ".
abbrev selecting : Str
selecting = 85 ∷ 83 ∷ 69 ∷ 32 ∷ 78 ∷ 65 ∷ 77 ∷ 69 ∷ 83 ∷ 80 ∷ 65 ∷ 67 ∷ 69 ∷ 32 ∷ 97 ∷ 59 ∷ 32 ∷ []

abbrev fields_a : List (Str × Value)
fields_a = (namespace_key, text (97 ∷ [])) ∷ []

selects_a : use_clauses fields_a ≡ ok selecting
unfolding use_clauses use_clause text_of is_plain plain_start plain_char plain_chars dict_get
selects_a = refl

use_clauses-Selects_example : (use_clauses fields_a ≡ ok selecting) ↔ (
    (namespace database : Str) × Selects
      (chars "NAMESPACE")
      (text_of (dict_get (chars "namespace") fields_a))
      namespace
    × Selects (chars "DATABASE") (text_of (dict_get (chars "database") fields_a)) database
    × (selecting ≡ namespace ++ database))
use_clauses-Selects_example = use_clauses-Selects fields_a selecting

-- ===== src/Connection/Tests.antt =====
-- The theorems of the session at a concrete connection.
use tessaridb_sdk_python.Prelude.{◌≡◌, refl, [], ◌∷◌, true, false, some, none, arith, pos}
use tessaridb_sdk_python.Result.{Bytes, ok, err, bind, protocol, does_not_fit, refused}
use tessaridb_sdk_python.Value.{integer}
use tessaridb_sdk_python.Bytes.Endian.{to_bytes, from_bytes, read_onto}
use tessaridb_sdk_python.Bytes.Reader.{◌>>=◌, exhausted, take_bytes, u64}
use tessaridb_sdk_python.Connection.Messages.{read_progress, run, cursor_at_end}
use tessaridb_sdk_python.Bytes.Utf8.{encode_char, encode_utf8}
use tessaridb_sdk_python.Bytes.Writer
use tessaridb_sdk_python.Bytes.Writer.{◌⨾◌}
use tessaridb_sdk_python.Codec.Encode.{encode, put_value, put_each}
use tessaridb_sdk_python.Frames.Socket.{
  Socket, hung_up, sendall, recv, recv_pieces, receive, receive_loop,
}
use tessaridb_sdk_python.Frames.Framing.{
  frame, send, read, read_body, from_node, request, read_refusal,
}
use tessaridb_sdk_python.Frames.Flat.{join, view}
use tessaridb_sdk_python.Answer.Bodies.{answer_bytes, bodies, count_of, each_outcome}
use tessaridb_sdk_python.Connection.Session.{
  Connection, Parameters, owes, spend, or_empty, put_credentials, put_parameter, put_parameters,
  finish_request, request_body, ask,
}
use tessaridb_sdk_python.Connection.Feed.{
  Subscription, Event, progressed, latest, moved, on_progress, on_frame, after_read, subscribe_body,
  put_table, put_cursor, put_condition, too_old, begin, start_feed, next,
}
use tessaridb_sdk_python.Connection.Credentials.{ask-unwritable}
use tessaridb_sdk_python.Connection.Presented.{IsRequest, ask-IsRequest}
use tessaridb_sdk_python.Connection.Asking.{ask-answered, ask-refused}
use tessaridb_sdk_python.Connection.Resuming.{point, past_all, no_round, one_round, Run-point}

-- A session of the user "u" with a stream that this begins.
abbrev session_of : Bytes → Connection
session_of bs = record {
  sock = record { pieces = (2, bs) ∷ []; ending = hung_up; sent = []; writable = true };
  user = some (117 ∷ []);
  password = none;
  owed = true;
  subscribed = false;
  minor = 4;
}

-- One outcome, Done, and a byte behind the frame.
abbrev answering : Connection
answering = session_of (0 ∷ 0 ∷ 0 ∷ 9 ∷ 0 ∷ 0 ∷ 0 ∷ 1 ∷ 0 ∷ 0 ∷ 0 ∷ 1 ∷ 0 ∷ 3 ∷ [])

abbrev refusing : Connection
refusing = record answering {
  sock = record {
    pieces = (3, 0 ∷ 0 ∷ 0 ∷ 2 ∷ 1 ∷ 110 ∷ 5 ∷ []) ∷ [];
    ending = hung_up;
    sent = [];
    writable = true;
  };
}

-- "x" with the credentials and no parameter.
abbrev asked : Bytes
asked = 0 ∷ 0 ∷ 0 ∷ 1 ∷ 120 ∷ 1 ∷ 0 ∷ 0 ∷ 0 ∷ 1 ∷ 117 ∷ 0 ∷ 0 ∷ 0 ∷ 0 ∷ 0 ∷ 0 ∷ 0 ∷ 0 ∷ []

asked_body : (request_body (120 ∷ []) [] answering).0 ≡ ok asked
unfolding request_body finish_request put_credentials put_parameters put_each owes or_empty ◌⨾◌
    Writer.u8 Writer.u32 Writer.text Writer.lenbytes Writer.raw encode_utf8 encode_char to_bytes
asked_body = refl

asked-refusing : (request_body (120 ∷ []) [] refusing).0 ≡ ok asked
unfolding request_body finish_request put_credentials put_parameters put_each owes or_empty ◌⨾◌
    Writer.u8 Writer.u32 Writer.text Writer.lenbytes Writer.raw encode_utf8 encode_char to_bytes
asked-refusing = refl

ask-answered_example :
    (s : Socket) × (ask (120 ∷ []) [] answering ≡ (
      bind (each_outcome ((0 ∷ []) ∷ [])) (λ os. ok (record { outcomes = os; redirect = none })),
      record (spend (owes answering) answering) { sock = s },
    ))
    × (view s ≡ record (view answering.sock) { bytes = 3 ∷ []; sent = frame request asked })
unfolding frame to_bytes join answer_bytes bodies count_of
ask-answered_example =
    ask-answered (120 ∷ []) [] answering asked (3 ∷ []) ((0 ∷ []) ∷ []) refl asked_body
      (omega arith) refl ((omega arith, omega arith), tt) (omega arith) (omega arith) refl

-- The same request again, without credentials.
abbrev asked_again : Bytes
asked_again = 0 ∷ 0 ∷ 0 ∷ 1 ∷ 120 ∷ 0 ∷ 0 ∷ 0 ∷ 0 ∷ 0 ∷ []

again_body : (request_body (120 ∷ []) [] (ask (120 ∷ []) [] answering).1).0 ≡ ok asked_again
unfolding request_body finish_request put_credentials put_parameters put_each owes spend or_empty
    ◌⨾◌ Writer.u8 Writer.u32 Writer.text Writer.lenbytes Writer.raw encode_utf8 encode_char to_bytes
again_body = let (s, answered, seen) = ask-answered_example in rw answered refl

ask-IsRequest_example :
    ((ask (120 ∷ []) [] answering).1.sock.sent ≡ frame request asked)
    × IsRequest (120 ∷ []) (some (117 ∷ [], [])) [] asked
    × IsRequest (120 ∷ []) none [] asked_again
unfolding or_empty
ask-IsRequest_example =
    ask-IsRequest (120 ∷ []) (120 ∷ []) [] [] answering (117 ∷ []) asked asked_again refl refl refl
      asked_body (omega arith) refl again_body

ask-refused_example :
    (s : Socket) × (ask (120 ∷ []) [] refusing ≡ (
      err (refused (read_refusal (1 ∷ 110 ∷ [])).1 (read_refusal (1 ∷ 110 ∷ [])).0),
      record (spend (owes refusing) refusing) { sock = s },
    ))
    × (view s ≡ record (view refusing.sock) { bytes = 5 ∷ []; sent = frame request asked })
unfolding frame to_bytes join
ask-refused_example =
    ask-refused (120 ∷ []) [] refusing asked (1 ∷ 110 ∷ []) (5 ∷ []) refl asked-refusing
      (omega arith) refl (omega arith) refl

-- 2 ^ 63 fits no integer of the value layer.
abbrev too_great : Parameters
too_great = (97 ∷ [], integer (pos 9_223_372_036_854_775_808)) ∷ []

begun :
    (Writer.text (120 ∷ []) ⨾ put_credentials (owes answering))
    ≡ ok (0 ∷ 0 ∷ 0 ∷ 1 ∷ 120 ∷ 1 ∷ 0 ∷ 0 ∷ 0 ∷ 1 ∷ 117 ∷ 0 ∷ 0 ∷ 0 ∷ 0 ∷ [])
unfolding put_credentials owes or_empty ◌⨾◌ Writer.u8 Writer.u32 Writer.text Writer.lenbytes
    Writer.raw encode_utf8 encode_char to_bytes
begun = refl

unwritable :
    put_parameters too_great ≡ err (protocol (does_not_fit (pos 9_223_372_036_854_775_808)))
unfolding put_parameters put_parameter put_each encode put_value ◌⨾◌ Writer.check Writer.u8
    Writer.u32 Writer.i64 Writer.text Writer.lenbytes Writer.raw encode_utf8 encode_char to_bytes
unwritable = refl

ask-unwritable_example :
    (ask (120 ∷ []) too_great answering ≡ (
      err (protocol (does_not_fit (pos 9_223_372_036_854_775_808))),
      spend (owes answering) answering,
    ))
    × ((ask (120 ∷ []) too_great answering).1.sock ≡ answering.sock)
    × (owes (ask (120 ∷ []) too_great answering).1 ≡ none)
ask-unwritable_example = ask-unwritable (120 ∷ []) too_great answering _ _ refl begun unwritable

abbrev feed : Subscription
feed = record {
  conn = record answering {
    sock = record answering.sock {
      sent = 4 ∷ 0 ∷ 0 ∷ 0 ∷ 9 ∷ 0 ∷ 0 ∷ 0 ∷ 0 ∷ 0 ∷ 0 ∷ 0 ∷ 7 ∷ 0 ∷ [];
    };
    subscribed = true;
  };
  resume_from = pos 7;
  resume_cursor = none;
}

started : (start_feed (pos 7) none none none [] answering).0 ≡ ok feed
unfolding start_feed too_old begin subscribe_body put_table put_cursor put_condition ◌⨾◌ Writer.u8
    Writer.u64 Writer.check Writer.raw send sendall frame to_bytes
started = refl

-- A feed of one progress frame, at 5.
abbrev quiet : Subscription
quiet = record {
  conn = record answering {
    sock = record {
      pieces = (37, 0 ∷ 0 ∷ 0 ∷ 8 ∷ 0 ∷ 0 ∷ 0 ∷ 0 ∷ 0 ∷ 0 ∷ 0 ∷ 5 ∷ []) ∷ [];
      ending = hung_up;
      sent = [];
      writable = true;
    };
    subscribed = true;
  };
  resume_from = pos 0;
  resume_cursor = none;
}

abbrev reached : Event
reached = progressed (record { sequence = 5; cursor = none })

abbrev behind : Subscription
behind = record {
  conn = record answering {
    sock = record { pieces = []; ending = hung_up; sent = []; writable = true };
    subscribed = true;
  };
  resume_from = pos 6;
  resume_cursor = none;
}

next-quiet : next quiet ≡ (ok (some reached), behind)
unfolding next after_read read recv recv_pieces receive receive_loop read_body from_node on_frame
    on_progress read_progress run cursor_at_end exhausted moved latest u64 take_bytes ◌>>=◌
    from_bytes read_onto
next-quiet = refl

Run-point_example : point behind ≡ past_all (reached ∷ []) (point quiet)
Run-point_example = Run-point (one_round next-quiet no_round)

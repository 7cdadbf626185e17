-- ===== src/Connection/Feed.antt =====
-- `subscribe` and `Subscription`: the position to resume from is one past the last event handed
-- over.
use tessaridb_sdk_python.Prelude.{
  ℕ, suc, Bool, true, false, Option, none, some, [], ◌==◌, ltb, pos, if◌then◌else◌, ℤ,
}
use tessaridb_sdk_python.Result.{
  Bytes, Str, Result, ok, err, bind, session, unknown_frame, refused, node_too_old,
}
use tessaridb_sdk_python.Value.{object, fields_of}
use tessaridb_sdk_python.Bytes.Writer
use tessaridb_sdk_python.Bytes.Writer.{Put, ◌⨾◌}
use tessaridb_sdk_python.Codec.Encode.{encode}
use tessaridb_sdk_python.Frames.Socket.{Socket}
use tessaridb_sdk_python.Frames.Framing.{
  refusal, subscribe, change, progress, condition_minor, send, read, read_refusal,
}
use tessaridb_sdk_python.Connection.Messages.{Change, Progress, read_change, read_progress}
use tessaridb_sdk_python.Connection.Session.{Connection, Parameters, close, or_empty}

pub record Subscription : Type 0 where
  pub conn : Connection
  pub resume_from : ℤ
  pub resume_cursor : Option Str

-- What the iterator yields.
pub data Event : Type 0 where
  changed : Change → Event
  progressed : Progress → Event

unfoldable pub put_table : Option Str → Put
put_table none = Writer.u8 (pos 0)
put_table (some table) = Writer.u8 (pos 1) ⨾ Writer.text table

-- The cursor, or an empty one in front of a condition.
unfoldable pub put_cursor : Option Str → Option Str → Put
put_cursor none none = ok []
put_cursor cursor condition = Writer.text (or_empty cursor)

unfoldable pub put_condition : Option Str → Parameters → Put
put_condition none parameters = ok []
put_condition (some condition) parameters =
    Writer.text condition ⨾ bind (encode (object (fields_of parameters))) (λ bs. Writer.lenbytes bs)

unfoldable pub subscribe_body : ℤ → Option Str → Option Str → Option Str → Parameters → Result Bytes
subscribe_body start table cursor condition parameters =
    Writer.u64 start
    ⨾ put_table table
    ⨾ put_cursor cursor condition
    ⨾ put_condition condition parameters

-- A condition on a node that is too old to read it.
unfoldable pub too_old : Option Str → ℕ → Bool
too_old none minor = false
too_old (some _) minor = ltb minor condition_minor

unfoldable pub begin :
    Result Socket → ℤ → Option Str → Connection → Result Subscription × Connection
begin (err e) start cursor c = (err e, c)
begin (ok s) start cursor c =
    let c' = record c { sock = s; subscribed = true } in
    (ok (record { conn = c'; resume_from = start; resume_cursor = cursor }), c')

-- `subscribe`.
unfoldable pub start_feed :
    ℤ
    → Option Str
    → Option Str
    → Option Str
    → Parameters
    → Connection
    → Result Subscription × Connection
start_feed start table cursor condition parameters c =
    if c.subscribed
    then (err session, c)
    else if too_old condition c.minor
    then (err (node_too_old c.minor condition_minor), c)
    else begin
        (bind (subscribe_body start table cursor condition parameters)
          λ body. send subscribe body c.sock)
        start cursor c

unfoldable pub latest : Option Str → Option Str → Option Str
latest none old = old
latest (some cursor) old = some cursor

-- The resume point after an event at `sequence`.
unfoldable pub moved : ℕ → Option Str → Subscription → Subscription
moved sequence cursor feed = record feed {
  resume_from = pos (suc sequence);
  resume_cursor = latest cursor feed.resume_cursor;
}

unfoldable pub give_up : Subscription → Subscription
give_up feed = record feed { conn = close feed.conn }

unfoldable pub on_progress : Result Progress → Subscription → Result (Option Event) × Subscription
on_progress (err e) feed = (err e, feed)
on_progress (ok reached) feed =
    (ok (some (progressed reached)), moved reached.sequence reached.cursor feed)

unfoldable pub on_change : Result Change → Subscription → Result (Option Event) × Subscription
on_change (err e) feed = (err e, feed)
on_change (ok event) feed = (ok (some (changed event)), moved event.sequence event.cursor feed)

unfoldable pub on_frame : ℕ → Bytes → Subscription → Result (Option Event) × Subscription
on_frame kind body feed =
    if kind == refusal
    then (let (class, message) = read_refusal body in err (refused message class), give_up feed)
    else if kind == progress
    then on_progress (read_progress body) feed
    else if kind == change
    then on_change (read_change body) feed
    else (err (unknown_frame kind), give_up feed)

unfoldable pub after_read :
    Result (Option (ℕ × Bytes) × Socket) → Subscription → Result (Option Event) × Subscription
after_read (err e) feed = (err e, give_up feed)
after_read (ok (none, s)) feed = (ok none, give_up feed)
after_read (ok (some (kind, body), s)) feed =
    let conn = feed.conn in on_frame kind body (record feed { conn = record conn { sock = s } })

-- One round of `__iter__`: an event, the end of the feed, or an exception.
unfoldable pub next : Subscription → Result (Option Event) × Subscription
next feed = after_read (read feed.conn.sock) feed

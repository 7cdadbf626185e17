-- ===== src/Connection/Resuming.antt =====
-- The resume point of a subscription, over the rounds of its iterator.
use tessaridb_sdk_python.Prelude.{
  ℕ, suc, ◌≡◌, refl, ap, ◌∙◌, sym, Bool, true, false, Option, none, some, List, [], ◌∷◌, ◌==◌, pos,
  ℤ, if◌then◌else◌,
}
use tessaridb_sdk_python.Result.{Bytes, Str, Result, ok, err, session, ok-injective}
use tessaridb_sdk_python.Frames.Socket.{Socket}
use tessaridb_sdk_python.Frames.Framing.{request, refusal, change, progress, read}
use tessaridb_sdk_python.Connection.Messages.{Change, Progress, read_change, read_progress}
use tessaridb_sdk_python.Connection.Session.{
  Connection, Parameters, request_body, ask, and_then, exchange,
}
use tessaridb_sdk_python.Connection.Feed.{
  Subscription, Event, changed, progressed, latest, moved, give_up, on_progress, on_change,
  on_frame, next, after_read, start_feed, begin, too_old,
}

unfoldable pub sequence_of : Event → ℕ
sequence_of (changed event) = event.sequence
sequence_of (progressed reached) = reached.sequence

unfoldable pub cursor_of : Event → Option Str
cursor_of (changed event) = event.cursor
cursor_of (progressed reached) = reached.cursor

-- Where to resume: the position, and the cursor.
abbrev pub Point : Type 0
Point = ℤ × Option Str

unfoldable pub point : Subscription → Point
point feed = (feed.resume_from, feed.resume_cursor)

-- One past the event, with its cursor if it has one.
unfoldable pub past : Event → Point → Point
past event (start, cursor) = (pos (suc (sequence_of event)), latest (cursor_of event) cursor)

-- The point behind a round that gave this.
unfoldable pub point_after : Result (Option Event) → Point → Point
point_after (ok (some event)) here = past event here
point_after _ here = here

-- What a round does to the resume point is what its result says.
abbrev Keeps : Point → Result (Option Event) × Subscription → Type 0
Keeps here (r, feed) = point feed ≡ point_after r here

either-Keeps :
    (here : Point) (b : Bool) (x y : Result (Option Event) × Subscription)
    → Keeps here x
    → Keeps here y
    → Keeps here (if b then x else y)
either-Keeps here true x y hx hy = hx
either-Keeps here false x y hx hy = hy

on_frame-Keeps :
    (kind : ℕ) (body : Bytes) (feed : Subscription) → Keeps (point feed) (on_frame kind body feed)
unfolding on_frame on_progress on_change point point_after past moved give_up sequence_of cursor_of
on_frame-Keeps kind body feed = either-Keeps _ (kind == refusal) _ _ refl (
    either-Keeps _ (kind == progress) _ _ (progress_keeps (read_progress body))
      (either-Keeps _ (kind == change) _ _ (change_keeps (read_change body)) refl))
  where
    progress_keeps : (r : Result Progress) → Keeps (point feed) (on_progress r feed)
    progress_keeps (err e) = refl
    progress_keeps (ok reached) = refl

    change_keeps : (r : Result Change) → Keeps (point feed) (on_change r feed)
    change_keeps (err e) = refl
    change_keeps (ok event) = refl

after_read-Keeps :
    (r : Result (Option (ℕ × Bytes) × Socket)) (feed : Subscription)
    → Keeps (point feed) (after_read r feed)
unfolding after_read point point_after give_up
after_read-Keeps (err e) feed = refl
after_read-Keeps (ok (none, s)) feed = refl
after_read-Keeps (ok (some (kind, body), s)) feed =
    let conn = feed.conn in
    on_frame-Keeps kind body (record feed { conn = record conn { sock = s } })

-- A round of the iterator moves the resume point one past the event that it hands over, and keeps
-- it when it hands over none: at the end of the feed, at a refusal and at any other exception.
pub next-point :
    (feed : Subscription) → point (next feed).1 ≡ point_after (next feed).0 (point feed)
unfolding next
next-point feed = after_read-Keeps (read feed.conn.sock) feed

-- The events of a run of the iterator, first to last.
pub data Run : Subscription → List Event → Subscription → Type 0 where
  no_round : {feed : Subscription} → Run feed [] feed
  one_round :
      {feed middle last : Subscription} {event : Event} {events : List Event}
      → next feed ≡ (ok (some event), middle)
      → Run middle events last
      → Run feed (event ∷ events) last

unfoldable pub past_all : List Event → Point → Point
past_all [] here = here
past_all (event ∷ events) here = past_all events (past event here)

-- After any run of the iterator the resume point is one past the last event handed over, with the
-- last cursor that an event had; it is the point of the subscription where there was no event.
pub Run-point :
    {feed last : Subscription} {events : List Event}
    → Run feed events last
    → point last ≡ past_all events (point feed)
unfolding past_all point_after
Run-point no_round = refl
Run-point (one_round {feed} {middle} {last} {event} {events} e run) =
    let step : point middle ≡ past event (point feed) =
      sym (ap (λ r. point r.1) e) ∙ next-point feed ∙ ap (λ r. point_after r.0 (point feed)) e in
    Run-point run ∙ ap (past_all events) step

module _ (feed : Subscription) where
  -- A branch that returned the feed.
  either_feed :
      {P : Type 0} (b : Bool) (x y : Result Subscription × Connection)
      → (x.0 ≡ ok feed → P)
      → (y.0 ≡ ok feed → P)
      → (if b then x else y).0 ≡ ok feed
      → P
  either_feed true x y px py h = px h
  either_feed false x y px py h = py h

  begin-subscribed :
      (r : Result Socket) (start : ℤ) (cursor : Option Str) (c : Connection)
      → (begin r start cursor c).0 ≡ ok feed
      → feed.conn.subscribed ≡ true
  unfolding begin
  begin-subscribed (err e) start cursor c h = cc
  begin-subscribed (ok s) start cursor c h = ap (λ f. f.conn.subscribed) (sym (ok-injective h))

  start_feed-subscribed :
      (start : ℤ) (table cursor condition : Option Str) (parameters : Parameters) (c : Connection)
      → (start_feed start table cursor condition parameters c).0 ≡ ok feed
      → feed.conn.subscribed ≡ true
  unfolding start_feed
  start_feed-subscribed start table cursor condition parameters c h =
      either_feed c.subscribed _ _ (λ raised. cc)
        (either_feed (too_old condition c.minor) _ _ (λ raised. cc)
          (begin-subscribed _ start cursor c))
        h

-- A connection that a subscription took over sends no statement: `_ask` raises an error, and the
-- connection is as it was.
pub ask-start_feed :
    (start : ℤ) (table cursor condition : Option Str) (parameters : Parameters) (c : Connection)
    (feed : Subscription) (script : Str) (bound : Parameters)
    → (start_feed start table cursor condition parameters c).0 ≡ ok feed
    → ask script bound feed.conn ≡ (err session, feed.conn)
unfolding start_feed ask
ask-start_feed start table cursor condition parameters c feed script bound h =
    ap
      (λ b.
        if b
        then (err session, feed.conn)
        else and_then (request_body script bound feed.conn) (exchange request))
      (start_feed-subscribed feed start table cursor condition parameters c h)

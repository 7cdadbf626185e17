-- ===== src/Lib.antt =====
-- A model of the Python client of TessariDB, src/tessaridb/*.py in the repository.
--
-- The client speaks a binary protocol over one socket. A value is written and read by the value
-- layer (_bytes.py, _encode.py, _decode.py); a frame carries a request or an answer over the
-- socket (_frames.py). A connection (connection.py) keeps one session over a socket: it sends
-- requests and reads answers (_answer.py), or becomes a subscription that delivers changes.
-- Builders (query.py, statement.py) make the text of a statement and its parameters; workers
-- (queue.py, consumer.py) send statements in a loop, and a cache (cache.py) one for each call.
-- http.py is a second client, over HTTP.
--
-- Files, and what they model:
-- - Prelude: Booleans, lists and integers over the native ℕ, shared by all.
-- - Result: errors.py, every exception as a value of `Error`. The texts of messages are left out.
-- - Dict: a Python dictionary as the list of its items, oldest first; `sorted` over its names.
-- - Bytes: _bytes.py. A method of `Writer` is the bytes it appends, or the exception it raises; a
--   method of `Reader` takes the bytes from `_at` on and returns what is left of them. Bytes.Utf8
--   and Bytes.Replace are Python's UTF-8 codec, with its "strict" and "replace" handlers: what
--   the code calls, and no code of the repository.
-- - Value: value.py. A float is its IEEE-754 bits, a string the list of its code points.
-- - Codec: _tags.py, _encode.py and _decode.py.
-- - Frames: _frames.py over a model of a socket: the pieces that `recv` will deliver, how the stream
--   ends, and what `sendall` has written.
-- - Answer: _answer.py and outcome.py, the outcomes of an answer frame.
-- - Connection: connection.py. A method returns its result, or the exception it raises, with the
--   connection as it leaves it. A subscription is a sequence of rounds of its iterator.
-- - Text: literals, `str` of an integer and `join` of Python strings.
-- - Query: query.py and statement.py. A method of a builder returns the builder that it leaves, or
--   the exception. `set` is one function of both ways to give fields. Query.Reading is the reader of
--   the rendered text against which the rendering is judged; it is no code of the repository.
-- - Worker: what queue.py and consumer.py share. The world is a parameter: the connection, the stop
--   flag and whatever a handler changes; `execute`, `pause` and the handler change it. `next_batch`
--   and `run` have fuel for their rounds: more than the waits and settlements that are left until
--   another thread calls `stop`.
-- - Queue and Consumer: queue.py and consumer.py over that.
-- - Events: _events.py, and `unquoted` of cache.py. Python's `repr` of a float and the calendar of
--   `_instant` are parameters.
-- - Cache: cache.py over `execute`, which is a parameter.
-- - Containers: _containers.py and _container_statements.py, over the names of a cache. A score is the
--   bits of a double.
-- - Vault: _vault_frame.py and vault.py. How Python makes a moment of seconds and nanoseconds since
--   the epoch, and a period of a duration, are parameters. A record id is a value.
-- - Http: http.py in one thread, health.py and _files.py. Sending a request, `json.loads` and reading a
--   token out of a body are parameters.
-- - Json: kind.py, _json.py and _geojson.py, over what `json.loads` returns. What Python makes of
--   characters, floats and dates is a parameter, a record `Python`. Values are read by recursion on the
--   kind and shapes by recursion on the JSON; a duration has a round for each character.
-- - Script: script.py over that.
-- - Follow: _follow.py and `execute`. The network is a parameter, `dial`: the socket or the exception
--   that connecting to an endpoint gives. The hops that are left are counted down from three, so the
--   loop needs no fuel. The redirects that were dialled are listed beside the result.
--
-- A reader that calls itself has fuel for the depth of the calls, and `decode` gives it the length
-- of the payload and one more, which is enough since every call reads a byte. The loops of
-- `_receive` and `greet` have one round for each byte that they want.
--
-- A send that fails leaves the socket as it was, for the code looks at nothing of it; a socket that
-- was closed neither delivers nor sends.
--
-- Not modelled: dialling and TLS; Python's limits on the depth of recursion, which a deeply nested
-- value can reach, and on the digits of an int; timeouts of the socket; threads; a token of an
-- HTTP session that is neither a string nor null, which http.py keeps as it is.
pub mod Prelude
pub mod Result
pub mod Bytes
pub mod Dict
pub mod Value
pub mod Codec
pub mod Frames
pub mod Answer
pub mod Connection
pub mod Containers
pub mod Follow
pub mod Text
pub mod Query
pub mod Worker
pub mod Queue
pub mod Consumer
pub mod Events
pub mod Cache
pub mod Http
pub mod Json
pub mod Script
pub mod Vault

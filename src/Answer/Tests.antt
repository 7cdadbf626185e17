-- ===== src/Answer/Tests.antt =====
-- The theorems of answers at concrete bodies.
use tessaridb_sdk_python.Prelude.{◌≡◌, refl, [], ◌∷◌, ◌++◌, true, arith}
use tessaridb_sdk_python.Result.{Bytes, ok}
use tessaridb_sdk_python.Bytes.Endian.{from_bytes, read_onto}
use tessaridb_sdk_python.Bytes.Utf8.{decode_utf8, decode_chars}
use tessaridb_sdk_python.Bytes.Reader.{
  ◌>>=◌, exhausted, take_bytes, u8, u32, lenbytes, as_text, text, repeat,
}
use tessaridb_sdk_python.Codec.Decode.{counted}
use tessaridb_sdk_python.Answer.Outcome.{Records, record_path, exact, complete, records}
use tessaridb_sdk_python.Answer.Read.{
  path_at, get_names, names, get_suggestion, suggestion, or_end, with_suggestion, with_exactness,
  with_only, with_notes, get_records, get_outcome, outcome, read_answer,
}
use tessaridb_sdk_python.Answer.Bodies.{
  answer_bytes, count_of, each_outcome, read_answer-each_outcome,
}

-- Done, an outcome of a kind that is not known, and a byte behind them.
read_answer-each_outcome_example :
    read_answer (answer_bytes ((0 ∷ []) ∷ (9 ∷ 1 ∷ 2 ∷ []) ∷ []) ++ 7 ∷ [])
    ≡ each_outcome ((0 ∷ []) ∷ (9 ∷ 1 ∷ 2 ∷ []) ∷ [])
unfolding count_of
read_answer-each_outcome_example =
    read_answer-each_outcome ((0 ∷ []) ∷ (9 ∷ 1 ∷ 2 ∷ []) ∷ []) (7 ∷ [])
      ((omega arith, omega arith), ((omega arith, omega arith), tt)) (omega arith)

-- No rows, exact, and a dictionary that holds every term.
abbrev full_body : Bytes
full_body = 1 ∷ 0 ∷ 0 ∷ 0 ∷ 0 ∷ 0 ∷ 0 ∷ 0 ∷ 0 ∷ 0 ∷ 0 ∷ 0 ∷ 0 ∷ 0 ∷ 1 ∷ 0 ∷ 0 ∷ 0 ∷ 0 ∷ 0 ∷ 1 ∷ []

abbrev full_answer : Records
full_answer = record {
  path = record_path;
  names = [];
  rows = [];
  notes = [];
  only = true;
  exactness = exact;
  suggestion = complete;
}

read_full : outcome full_body ≡ ok (records full_answer)
unfolding outcome get_outcome get_records path_at names get_names with_notes with_only
    with_exactness with_suggestion suggestion get_suggestion or_end exhausted counted repeat u8 u32
    take_bytes text lenbytes as_text decode_utf8 decode_chars from_bytes read_onto ◌>>=◌
read_full = refl

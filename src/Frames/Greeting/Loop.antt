-- ===== src/Frames/Greeting/Loop.antt =====
-- The loop of `greet` over the byte stream.
use tessaridb_sdk_python.Prelude.{
  ℕ, zero, suc, ◌+◌, ◌-◌, ◌≤◌, ◌≡◌, refl, sym, ◌∙◌, true, false, Bool-cases, inl, inr, List, [],
  ◌∷◌, ◌++◌, append_assoc, append-nil, arith, ltb, le→ltb, lt→ltb, length, length-append, take,
  drop, if◌then◌else◌,
}
use tessaridb_sdk_python.Result.{
  Bytes, Result, Error, ok, err, bind, io, truncated, not_this_protocol,
}
use tessaridb_sdk_python.Frames.Socket.{
  Socket, Ending, hung_up, broken, put_back, recv, recv_pieces,
}
use tessaridb_sdk_python.Frames.Framing.{magic, starts_with, greet_loop}
use tessaridb_sdk_python.Frames.Flat.{
  Stream, join, view, join-put_back, take_piece, drop_piece, enough_piece, length-take_le, ltb-suc,
}

-- The end of the stream inside the magic, after `seen`.
unfoldable pub stopped : Ending → Bytes → Error
stopped broken seen = io
stopped hung_up [] = not_this_protocol
stopped hung_up (_ ∷ _) = truncated

-- `need` more bytes of the magic behind `seen`.
unfoldable pub magic_flat : Bytes → ℕ → Stream → Result Stream
magic_flat seen need st =
    let arrived = seen ++ take need st.bytes in
    if starts_with magic arrived
    then (if ltb (length st.bytes) need
        then err (stopped st.ending arrived)
        else ok (record st { bytes = drop need st.bytes }))
    else err not_this_protocol

abbrev pub viewed : Result Socket → Result Stream
viewed (ok s) = ok (view s)
viewed (err e) = err e

starts_with-append :
    (whole xs ys : Bytes) → starts_with whole xs ≡ false → starts_with whole (xs ++ ys) ≡ false
unfolding starts_with
starts_with-append whole [] ys h = cc
starts_with-append [] (x ∷ xs) ys h = refl
starts_with-append (a ∷ whole) (x ∷ xs) ys h = ground (arith, starts_with-append whole xs ys)

-- What is claimed of the loop for a prefix of the magic that it has seen.
abbrev pub GreetsOn : ℕ → Type 0
GreetsOn rounds =
    (need : ℕ) (seen : Bytes) (s : Socket)
    → need ≤ rounds
    → length seen + need ≡ 4
    → starts_with magic seen ≡ true
    → viewed (greet_loop rounds seen s) ≡ magic_flat seen need (view s)

next : ℕ → Bytes → Bytes × Socket → Result Socket
next rounds seen (piece, s) = elim piece [
  | [] ↦ elim seen [ [] ↦ err not_this_protocol | _ ∷ _ ↦ err truncated ]
  | b ∷ bs ↦ elim (starts_with magic (seen ++ b ∷ bs)) [
    | true ↦ greet_loop rounds (seen ++ b ∷ bs) s
    | false ↦ err not_this_protocol
  ]
]

magic_piece :
    (k : ℕ) (seen : Bytes) (b : ℕ) (bs : Bytes) (pieces : List (ℕ × Bytes)) (s : Socket)
    → magic_flat
        (seen ++ b ∷ take k bs)
        (k - length (take k bs))
        (view (record s { pieces = put_back (drop k bs) pieces }))
      ≡ magic_flat seen (suc k) (record (view s) { bytes = b ∷ (bs ++ join pieces) })
unfolding magic_flat view
magic_piece k seen b bs pieces s =
    rw
      (
        join-put_back (drop k bs) pieces,
        enough_piece k bs (join pieces),
        drop_piece k bs (join pieces),
        append_assoc,
      )
      (rw (take_piece k bs (join pieces), ltb-suc (length (bs ++ join pieces)) k))

magic_flat-wrong :
    (seen : Bytes) (need : ℕ) (st : Stream)
    → starts_with magic seen ≡ false
    → magic_flat seen need st ≡ err not_this_protocol
unfolding magic_flat
magic_flat-wrong seen need st h = rw (starts_with-append magic seen (take need st.bytes) h)

module _ (rounds k : ℕ) (seen : Bytes) (s : Socket) (le : k ≤ rounds) (ih : GreetsOn rounds)
    (size : length seen + suc k ≡ 4) (prefix : starts_with magic seen ≡ true) where
  no_piece :
      (ending : Ending)
      → s.ending ≡ ending
      → viewed (bind (recv_pieces [] (suc k) s) (next rounds seen))
        ≡ magic_flat seen (suc k) (record (view s) { bytes = [] })
  unfolding recv_pieces next magic_flat view stopped
  no_piece ending e = rw (append-nil, prefix) (ground arith)

  a_piece :
      (b : ℕ) (bs : Bytes) (pieces : List (ℕ × Bytes))
      → viewed (bind (recv_pieces ((b, bs) ∷ pieces) (suc k) s) (next rounds seen))
        ≡ magic_flat seen (suc k) (record (view s) { bytes = b ∷ (bs ++ join pieces) })
  unfolding recv_pieces next
  a_piece b bs pieces =
      let piece = b ∷ take k bs in
      let rest = record s { pieces = put_back (drop k bs) pieces } in
      let need = k - length (take k bs) in
      let whole = magic_piece k seen b bs pieces s in
      elim (Bool-cases (starts_with magic (seen ++ piece))) [
        | inl goes ↦
            let sizes : length (seen ++ piece) + need ≡ 4 =
              omega (arith, length-append {0} seen piece, length-take_le k bs) in
            rw (goes, viewed) (ih need (seen ++ piece) rest (omega arith) sizes goes ∙ whole)
        | inr wrong ↦
            rw (wrong, viewed)
              (sym (magic_flat-wrong (seen ++ piece) need (view rest) wrong) ∙ whole)
      ]

  any_pieces :
      (pieces : List (ℕ × Bytes))
      → viewed (bind (recv_pieces pieces (suc k) s) (next rounds seen))
        ≡ magic_flat seen (suc k) (record (view s) { bytes = join pieces })
  unfolding join
  any_pieces [] = no_piece s.ending refl
  any_pieces ((b, bs) ∷ pieces) = a_piece b bs pieces

  open_round : viewed (greet_loop (suc rounds) seen s) ≡ magic_flat seen (suc k) (view s)
  unfolding greet_loop recv next view
  open_round =
      let short : ltb (length seen) 4 ≡ true = lt→ltb _ _ (omega arith) in
      let left : 4 - length seen ≡ suc k = omega arith in
      rw (short, greet_loop) (rw (left, recv) (any_pieces s.pieces))

full_round :
    (rounds : ℕ) (seen : Bytes) (s : Socket)
    → length seen ≡ 4
    → starts_with magic seen ≡ true
    → viewed (greet_loop rounds seen s) ≡ magic_flat seen 0 (view s)
unfolding greet_loop magic_flat view
full_round zero seen s size prefix =
    rw (le→ltb (length seen) 4 (omega arith), append-nil)
      (rw (prefix, le→ltb (length (join s.pieces)) 0 (omega arith)))
full_round (suc rounds) seen s size prefix =
    rw (le→ltb (length seen) 4 (omega arith), greet_loop, append-nil)
      (rw (prefix, le→ltb (length (join s.pieces)) 0 (omega arith)))

pub greet_loop-view : (rounds : ℕ) → GreetsOn rounds
greet_loop-view rounds zero seen s le size prefix = full_round rounds seen s (omega arith) prefix
greet_loop-view zero (suc k) seen s le size prefix = absurd (omega arith)
greet_loop-view (suc rounds) (suc k) seen s le size prefix =
    open_round rounds k seen s (omega arith) (greet_loop-view rounds) size prefix

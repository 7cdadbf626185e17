-- ===== src/Frames/Flat.antt =====
-- The byte stream that a socket carries, with no trace of how it was cut into pieces, and the
-- frame layer over it. Every operation on a socket is the operation on its stream.
use tessaridb_sdk_python.Prelude.{
  ℕ, zero, suc, ◌+◌, ◌-◌, ◌≤◌, ◌≡◌, refl, ap, ◌∙◌, Bool, true, List, [], ◌∷◌, ◌++◌, append_assoc,
  append-nil, arith, ltb, lt→ltb, le→ltb, length, length-append, take, drop, if◌then◌else◌,
}
use tessaridb_sdk_python.Result.{Bytes, Result, Error, ok, err, bind, via, io, truncated}
use tessaridb_sdk_python.Frames.Socket.{
  Socket, Ending, hung_up, broken, put_back, recv, recv_pieces, receive_loop, receive,
}

pub record Stream : Type 0 where
  pub bytes : Bytes
  pub ending : Ending
  pub sent : Bytes
  pub writable : Bool

unfoldable pub join : List (ℕ × Bytes) → Bytes
join [] = []
join ((b, bs) ∷ pieces) = b ∷ (bs ++ join pieces)

unfoldable pub view : Socket → Stream
view s = record { bytes = join s.pieces; ending = s.ending; sent = s.sent; writable = s.writable }

-- What a read that the stream cannot fill raises.
unfoldable pub cut_short : Ending → Error
cut_short hung_up = truncated
cut_short broken = io

unfoldable pub receive_flat : ℕ → Stream → Result (Bytes × Stream)
receive_flat width st =
    if ltb (length st.bytes) width
    then err (cut_short st.ending)
    else ok (take width st.bytes, record st { bytes = drop width st.bytes })

pub join-put_back :
    (bs : Bytes) (pieces : List (ℕ × Bytes)) → join (put_back bs pieces) ≡ bs ++ join pieces
unfolding join
join-put_back [] pieces = refl
join-put_back (b ∷ bs) pieces = refl

-- What is taken of one piece, and then of the rest, is what is taken of the whole.
pub take_piece :
    (k : ℕ) (bs ys : Bytes)
    → take k bs ++ take (k - length (take k bs)) (drop k bs ++ ys) ≡ take k (bs ++ ys)
take_piece zero bs ys = refl
take_piece (suc k) [] ys = let e : suc k - 0 ≡ suc k = omega arith in rw e
take_piece (suc k) (b ∷ bs) ys =
    let e : suc k - suc (length (take k bs)) ≡ k - length (take k bs) = omega arith in
    rw e (ap (λ l. b ∷ l) (take_piece k bs ys))

pub drop_piece :
    (k : ℕ) (bs ys : Bytes) → drop (k - length (take k bs)) (drop k bs ++ ys) ≡ drop k (bs ++ ys)
drop_piece zero bs ys = refl
drop_piece (suc k) [] ys = let e : suc k - 0 ≡ suc k = omega arith in rw e
drop_piece (suc k) (b ∷ bs) ys =
    let e : suc k - suc (length (take k bs)) ≡ k - length (take k bs) = omega arith in
    rw e (drop_piece k bs ys)

pub ltb-suc : (m n : ℕ) → ltb m n ≡ ltb (suc m) (suc n)
ltb-suc m n = ground arith

pub enough_piece :
    (k : ℕ) (bs ys : Bytes)
    → ltb (length (drop k bs ++ ys)) (k - length (take k bs)) ≡ ltb (length (bs ++ ys)) k
enough_piece zero bs ys = refl
enough_piece (suc k) [] ys = let e : suc k - 0 ≡ suc k = omega arith in rw e
enough_piece (suc k) (b ∷ bs) ys =
    let e : suc k - suc (length (take k bs)) ≡ k - length (take k bs) = omega arith in
    rw e (enough_piece k bs ys ∙ ltb-suc (length (bs ++ ys)) k)

pub length-take_le : (k : ℕ) (bs : Bytes) → length (take k bs) ≤ k
length-take_le zero bs = omega arith
length-take_le (suc k) [] = omega arith
length-take_le (suc k) (b ∷ bs) = omega (arith, length-take_le k bs)

-- `need` more bytes of the stream behind what is there already.
more : Bytes → ℕ → Stream → Result (Bytes × Stream)
more out need st =
    if ltb (length st.bytes) need
    then err (cut_short st.ending)
    else ok (out ++ take need st.bytes, record st { bytes = drop need st.bytes })

receive_loop-end :
    (rounds : ℕ) (out : Bytes) (s : Socket)
    → via view (receive_loop rounds (length out) out s) ≡ more out 0 (view s)
unfolding receive_loop more view
receive_loop-end zero out s = rw (
  le→ltb (length out) (length out) (omega arith),
  le→ltb (length (join s.pieces)) 0 (omega arith),
  append-nil,
)
receive_loop-end (suc rounds) out s =
    rw (le→ltb (length out) (length out) (omega arith), receive_loop)
      (rw (le→ltb (length (join s.pieces)) 0 (omega arith), append-nil))

-- What the loop does once it has the next piece.
go_on : ℕ → ℕ → Bytes → Bytes × Socket → Result (Bytes × Socket)
go_on rounds width out (piece, s) = elim piece [
  | [] ↦ err truncated
  | b ∷ bs ↦ receive_loop rounds width (out ++ b ∷ bs) s
]

-- The claim of `receive_loop-more` for all that is left to read after a piece.
abbrev LoopsOn : ℕ → Type 0
LoopsOn rounds =
    (need : ℕ) (out : Bytes) (s : Socket)
    → need ≤ rounds
    → via view (receive_loop rounds (length out + need) out s) ≡ more out need (view s)

-- A piece, and the rest of what is wanted from what follows it.
more_piece :
    (k : ℕ) (out : Bytes) (b : ℕ) (bs : Bytes) (pieces : List (ℕ × Bytes)) (s : Socket)
    → more
        (out ++ b ∷ take k bs)
        (k - length (take k bs))
        (view (record s { pieces = put_back (drop k bs) pieces }))
      ≡ more out (suc k) (record (view s) { bytes = b ∷ (bs ++ join pieces) })
unfolding more view
more_piece k out b bs pieces s =
    rw
      (
        join-put_back (drop k bs) pieces,
        enough_piece k bs (join pieces),
        drop_piece k bs (join pieces),
        append_assoc,
      )
      (rw (take_piece k bs (join pieces), ltb-suc (length (bs ++ join pieces)) k))

next_piece :
    (rounds k : ℕ) (out : Bytes) (pieces : List (ℕ × Bytes)) (s : Socket)
    → k ≤ rounds
    → LoopsOn rounds
    → via view (bind (recv_pieces pieces (suc k) s) (go_on rounds (length out + suc k) out))
      ≡ more out (suc k) (record (view s) { bytes = join pieces })
unfolding recv_pieces go_on more view join
next_piece rounds k out [] s le ih = unfold cut_short in ground arith
next_piece rounds k out ((b, bs) ∷ pieces) s le ih =
    let piece = b ∷ take k bs in
    let rest = record s { pieces = put_back (drop k bs) pieces } in
    let small = length-take_le k bs in
    let widths : length (out ++ piece) + (k - length (take k bs)) ≡ length out + suc k =
      omega (arith, length-append {0} out piece) in
    let after : via view (receive_loop rounds (length out + suc k) (out ++ piece) rest)
        ≡ more (out ++ piece) (k - length (take k bs)) (view rest) =
      rw (← widths) (ih (k - length (take k bs)) (out ++ piece) rest (omega arith)) in
    after ∙ more_piece k out b bs pieces s

-- A round of the loop that still wants bytes.
open_loop :
    (rounds k : ℕ) (out : Bytes) (s : Socket)
    → k ≤ rounds
    → LoopsOn rounds
    → via view (receive_loop (suc rounds) (length out + suc k) out s) ≡ more out (suc k) (view s)
unfolding receive_loop go_on view recv
open_loop rounds k out s le ih =
    let short : ltb (length out) (length out + suc k) ≡ true = lt→ltb _ _ (omega arith) in
    let left : length out + suc k - length out ≡ suc k = omega arith in
    rw (short, receive_loop) (rw (left, recv) (next_piece rounds k out s.pieces s le ih))

receive_loop-more : (rounds : ℕ) → LoopsOn rounds
receive_loop-more rounds zero out s le =
    let e : length out + 0 ≡ length out = omega arith in rw e (receive_loop-end rounds out s)
receive_loop-more zero (suc k) out s le = absurd (omega arith)
receive_loop-more (suc rounds) (suc k) out s le =
    open_loop rounds k out s (omega arith) (receive_loop-more rounds)

receive_flat-eq : (width : ℕ) (st : Stream) → more [] width st ≡ receive_flat width st
unfolding more receive_flat
receive_flat-eq width st = refl

-- `_receive` reads the first `width` bytes of the stream, however they are cut into pieces.
pub receive-view :
    (width : ℕ) (s : Socket) → via view (receive width s) ≡ receive_flat width (view s)
unfolding receive
receive-view width s =
    let e : 0 + width ≡ width = omega arith in
    (rw e at (receive_loop-more width width [] s (omega arith))) ∙ receive_flat-eq width (view s)

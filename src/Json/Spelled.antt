-- ===== src/Json/Spelled.antt =====
-- A duration in the units of the node is read back, however it is split over them.
use tessaridb_sdk_python.Prelude.{
  ℕ, zero, suc, ◌+◌, ◌-◌, ◌*◌, ◌<◌, ◌≤◌, ◌≡◌, refl, sym, ap, ◌∙◌, Bool, true, false, ℤ, pos,
  pos_part, neg_part, [], ◌∷◌, ◌++◌, map, append-nil, All, arith, length, length-append, ◌==◌,
  if◌then◌else◌,
}
use tessaridb_sdk_python.Result.{Str, ok}
use tessaridb_sdk_python.Value.{duration}
use tessaridb_sdk_python.Text.{is_digit, show, read_nat, read_nat-show}
use tessaridb_sdk_python.Json.Node.{other_character, decimal_digit, Python}
use tessaridb_sdk_python.Json.Numbers.{negative}
use tessaridb_sdk_python.Json.Durations.{
  TimeUnit, millis, micros, nanos, hours, minutes, seconds, time_text, time_nanos, behind_count,
  part_of, floor_div, floor_mod, normalised, split_digits, sum_parts, magnitude, read_duration,
}
use tessaridb_sdk_python.Json.Counts.{
  Parts, spelled, span_nanos, sign_text, IsNumeral, show-IsNumeral, as_digit, count_of-digits,
  Starts, first_unit-time_text, negative_parts, normalised_lem,
}

module _ (py : Python) (ascii : (d : ℕ) → d < 10 → py.character (48 + d) ≡ decimal_digit d)
    (letters : (c : ℕ) → 97 ≤ c → c ≤ 122 → py.character c ≡ other_character) where
  character-digit : (c : ℕ) → is_digit c ≡ true → py.character c ≡ as_digit c
  unfolding as_digit
  character-digit c h =
      let small : c - 48 < 10 = ground arith in
      let same : 48 + (c - 48) ≡ c = ground arith in rw same at (ascii (c - 48) small)

  split_digits-append :
      (ds rest : Str)
      → All (λ c. is_digit c ≡ true) ds
      → split_digits py rest ≡ ([], rest)
      → split_digits py (ds ++ rest) ≡ (map as_digit ds, rest)
  unfolding split_digits as_digit
  split_digits-append [] rest h stop = stop
  split_digits-append (c ∷ ds) rest h stop =
      let more = split_digits-append ds rest h.1 stop in
      let this = character-digit c h.0 in
      rw (this, split_digits) (ap (λ r. (as_digit c ∷ r.0, r.1)) more)

  split_digits-unit :
      (u : TimeUnit) (rest : Str)
      → split_digits py (time_text u ++ rest) ≡ ([], time_text u ++ rest)
  unfolding split_digits time_text
  split_digits-unit millis rest = rw (letters 109 (omega arith) (omega arith)) refl
  split_digits-unit micros rest = rw (letters 117 (omega arith) (omega arith)) refl
  split_digits-unit nanos rest = rw (letters 110 (omega arith) (omega arith)) refl
  split_digits-unit hours rest = rw (letters 104 (omega arith) (omega arith)) refl
  split_digits-unit minutes rest = rw (letters 109 (omega arith) (omega arith)) refl
  split_digits-unit seconds rest = rw (letters 115 (omega arith) (omega arith)) refl

  spelled-Starts : (parts : Parts) → Starts (spelled parts)
  unfolding spelled
  spelled-Starts [] = tt
  spelled-Starts ((n, u) ∷ parts) =
      numeral-Starts (show n) (time_text u ++ spelled parts) (show-IsNumeral n)
    where
      numeral-Starts : (ds rest : Str) → IsNumeral ds → Starts (ds ++ rest)
      numeral-Starts [] rest h = absurd h
      numeral-Starts (c ∷ ds) rest h = h.0

  part_of-digits :
      (ds : Str) (u : TimeUnit) (rest : Str)
      → IsNumeral ds
      → Starts rest
      → part_of (split_digits py (ds ++ (time_text u ++ rest)))
        ≡ ok ((read_nat 0 ds).0 * time_nanos u, rest)
  unfolding part_of behind_count
  part_of-digits [] u rest h starts = absurd h
  part_of-digits (c ∷ ds) u rest h starts =
      let split = split_digits-append (c ∷ ds) (time_text u ++ rest) h (split_digits-unit u rest) in
      let count = count_of-digits 0 (c ∷ ds) h in
      let unit = first_unit-time_text u rest starts in
      ap part_of split
      ∙ ap (λ r. behind_count r (time_text u ++ rest)) count
      ∙ rw (unit, behind_count) refl

  part_of-spelled :
      (n : ℕ) (u : TimeUnit) (parts : Parts)
      → part_of (split_digits py (show n ++ (time_text u ++ spelled parts)))
        ≡ ok (n * time_nanos u, spelled parts)
  part_of-spelled n u parts =
      let value : (read_nat 0 (show n)).0 ≡ n =
        ap (λ s. (read_nat 0 s).0) (sym (append-nil (show n)))
        ∙ ap (λ r. r.0) (read_nat-show n [] tt) in
      part_of-digits (show n) u (spelled parts) (show-IsNumeral n) (spelled-Starts parts)
      ∙ ap (λ m. ok (m * time_nanos u, spelled parts)) value

  -- One round of the loop, on a text that is not empty.
  sum_parts-step :
      (rounds total more : ℕ) (ds t rest : Str)
      → IsNumeral ds
      → part_of (split_digits py (ds ++ t)) ≡ ok (more, rest)
      → sum_parts py (suc rounds) total (ds ++ t) ≡ sum_parts py rounds (total + more) rest
  unfolding sum_parts
  sum_parts-step rounds total more [] t rest h e = absurd h
  sum_parts-step rounds total more (c ∷ ds) t rest h e = rw (e, sum_parts) refl

  length-numeral : (ds : Str) → IsNumeral ds → 1 ≤ length ds
  length-numeral [] h = absurd h
  length-numeral (c ∷ ds) h = omega arith

  sum_parts-spelled :
      (rounds total : ℕ) (parts : Parts)
      → length (spelled parts) ≤ rounds
      → sum_parts py rounds total (spelled parts) ≡ ok (total + span_nanos parts)
  unfolding spelled span_nanos sum_parts
  sum_parts-spelled rounds total [] h = ap ok (omega arith)
  sum_parts-spelled zero total ((n, u) ∷ parts) h = absurd (
      omega (
        arith,
        length-numeral (show n) (show-IsNumeral n),
        length-append (show n) (time_text u ++ spelled parts),
      ))
  sum_parts-spelled (suc rounds) total ((n, u) ∷ parts) h =
      let fewer : length (spelled parts) ≤ rounds = omega (
        arith,
        length-numeral (show n) (show-IsNumeral n),
        length-append (show n) (time_text u ++ spelled parts),
        length-append (time_text u) (spelled parts),
      ) in
      sum_parts-step rounds total (n * time_nanos u) (show n) (time_text u ++ spelled parts)
        (spelled parts) (show-IsNumeral n) (part_of-spelled n u parts)
      ∙ sum_parts-spelled rounds (total + n * time_nanos u) parts fewer
      ∙ ap ok (omega arith)

  -- The magnitude of what starts with a digit, and the duration with a sign.
  magnitude-numeral :
      (ds t : Str)
      → IsNumeral ds
      → magnitude py (ds ++ t) ≡ sum_parts py (length (ds ++ t)) 0 (ds ++ t)
  unfolding magnitude
  magnitude-numeral [] t h = absurd h
  magnitude-numeral (c ∷ ds) t h = refl

  read_duration-positive :
      (ds t : Str) (n : ℕ)
      → IsNumeral ds
      → magnitude py (ds ++ t) ≡ ok n
      → read_duration py (ds ++ t) ≡ ok (normalised (pos n))
  unfolding read_duration
  read_duration-positive [] t n h e = absurd h
  read_duration-positive (c ∷ ds) t n h e =
      let digit : (c == 45) ≡ false = ground (arith, h.0) in rw (digit, e) refl

  read_duration-negative :
      (s : Str) (n : ℕ)
      → magnitude py s ≡ ok n
      → read_duration py (45 ∷ s) ≡ ok (normalised (negative n))
  unfolding read_duration
  read_duration-negative s n e = rw e refl

  magnitude-spelled :
      (n : ℕ) (u : TimeUnit) (parts : Parts)
      → magnitude py (spelled ((n, u) ∷ parts)) ≡ ok (span_nanos ((n, u) ∷ parts))
  magnitude-spelled n u parts =
      let all = spelled ((n, u) ∷ parts) in
      unfold spelled in
      magnitude-numeral (show n) (time_text u ++ spelled parts) (show-IsNumeral n)
      ∙ sum_parts-spelled (length all) 0 ((n, u) ∷ parts) (omega arith)
      ∙ ap ok (omega arith)

  read_duration-plain :
      (n : ℕ) (u : TimeUnit) (parts : Parts)
      → read_duration py (spelled ((n, u) ∷ parts))
        ≡ ok (normalised (pos (span_nanos ((n, u) ∷ parts))))
  unfolding spelled
  read_duration-plain n u parts =
      read_duration-positive (show n) (time_text u ++ spelled parts) (span_nanos ((n, u) ∷ parts))
        (show-IsNumeral n) (magnitude-spelled n u parts)

-- A text of counts with units, in any order and as often as one likes, is read as the duration of
-- its nanoseconds, where the nanoseconds that are not whole seconds count forwards also behind a
-- sign. It is supposed of Python's character table that the ASCII digits are the ten decimal digits
-- and that the small ASCII letters are no digits and no spaces.
pub read_duration-spelled :
    (py : Python)
    → ((d : ℕ) → d < 10 → py.character (48 + d) ≡ decimal_digit d)
    → ((c : ℕ) → 97 ≤ c → c ≤ 122 → py.character c ≡ other_character)
    → (negated : Bool) (n : ℕ) (u : TimeUnit) (parts : Parts)
    → (whole : ℤ) × (left : ℕ) × (read_duration py (sign_text negated ++ spelled ((n, u) ∷ parts))
        ≡ ok (duration whole (pos left)))
      × (left < 1_000_000_000)
      × (pos_part whole * 1_000_000_000
            + left
            + (if negated then span_nanos ((n, u) ∷ parts) else 0)
          ≡ neg_part whole * 1_000_000_000 + (if negated then 0 else span_nanos ((n, u) ∷ parts)))
unfolding sign_text
read_duration-spelled py ascii letters true n u parts =
    let total = span_nanos ((n, u) ∷ parts) in
    let (shape, small, sum) = normalised_lem (negative total) in
    let read =
      read_duration-negative py ascii letters (spelled ((n, u) ∷ parts)) total
        (magnitude-spelled py ascii letters n u parts) in
    (
      floor_div (negative total) 1_000_000_000,
      floor_mod (negative total) 1_000_000_000,
      read ∙ ap ok shape,
      small,
      omega (arith, sum, negative_parts total),
    )
read_duration-spelled py ascii letters false n u parts =
    let total = span_nanos ((n, u) ∷ parts) in
    let (shape, small, sum) = normalised_lem (pos total) in
    let read = read_duration-plain py ascii letters n u parts in
    (
      floor_div (pos total) 1_000_000_000,
      floor_mod (pos total) 1_000_000_000,
      read ∙ ap ok shape,
      small,
      sum,
    )

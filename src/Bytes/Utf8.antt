-- ===== src/Bytes/Utf8.antt =====
-- `str.encode("utf-8")` and the strict `bytes.decode("utf-8")`: a string is its code points, and a
-- surrogate, which a Python string may hold, has no encoding.
use tessaridb_sdk_python.Prelude.{
  ℕ, zero, suc, ◌+◌, ◌-◌, ◌*◌, ◌/◌, ◌%◌, ◌≤◌, ◌<◌, ◌≡◌, refl, ap, Bool, true, false, ◌&&◌, ◌||◌,
  Option, none, some, [], ◌∷◌, ◌++◌, arith, ltb, leb, if◌then◌else◌, length, length-append,
}
use tessaridb_sdk_python.Result.{
  Bytes, Str, Result, ok, err, surrogate, bind, bind-eq-ok, OnOk, returned, raised, OnOk-if,
  OnOk-apply, ok-injective,
}

abbrev pub is_surrogate : ℕ → Bool
is_surrogate c = leb 0xd800 c && ltb c 0xe000

unfoldable pub encode_char : ℕ → Result Bytes
encode_char c =
    if ltb c 0x80
    then ok (c ∷ [])
    else if ltb c 0x800
    then ok ((0xc0 + c / 64) ∷ (0x80 + c % 64) ∷ [])
    else if is_surrogate c
    then err (surrogate c)
    else if ltb c 0x10000
    then ok ((0xe0 + c / 4096) ∷ (0x80 + c / 64 % 64) ∷ (0x80 + c % 64) ∷ [])
    else if ltb c 0x110000
    then ok
        ((0xf0 + c / 262144) ∷ (0x80 + c / 4096 % 64) ∷ (0x80 + c / 64 % 64) ∷ (0x80 + c % 64) ∷ [])
    else err (surrogate c)

unfoldable pub encode_utf8 : Str → Result Bytes
encode_utf8 [] = ok []
encode_utf8 (c ∷ s) = bind (encode_char c) λ head. bind (encode_utf8 s) λ rest. ok (head ++ rest)

-- A continuation byte, and a lead byte of each length.
abbrev pub is_cont : ℕ → Bool
is_cont b = leb 0x80 b && ltb b 0xc0

unfoldable pub two : ℕ → Bytes → Option (ℕ × Bytes)
two b (c ∷ rest) = if is_cont c then some ((b - 0xc0) * 64 + (c - 0x80), rest) else none
two b _ = none

unfoldable pub three : ℕ → Bytes → Option (ℕ × Bytes)
three b (c ∷ d ∷ rest) =
    let v = (b - 0xe0) * 4096 + (c - 0x80) * 64 + (d - 0x80) in
    if is_cont c && is_cont d && leb 0x800 v && not_surrogate v then some (v, rest) else none
  where
    not_surrogate : ℕ → Bool
    not_surrogate v = ltb v 0xd800 || leb 0xe000 v
three b _ = none

unfoldable pub four : ℕ → Bytes → Option (ℕ × Bytes)
four b (c ∷ d ∷ e ∷ rest) =
    let v = (b - 0xf0) * 262144 + (c - 0x80) * 4096 + (d - 0x80) * 64 + (e - 0x80) in
    if is_cont c && is_cont d && is_cont e && leb 0x10000 v && ltb v 0x110000
    then some (v, rest)
    else none
four b _ = none

-- One character off the front, by the strict rules: no overlong form, no surrogate.
unfoldable pub decode_char : Bytes → Option (ℕ × Bytes)
decode_char [] = none
decode_char (b ∷ rest) =
    if ltb b 0x80
    then some (b, rest)
    else if leb 0xc0 b && ltb b 0xe0
    then (if ltb b 0xc2 then none else two b rest)
    else if leb 0xe0 b && ltb b 0xf0
    then three b rest
    else if leb 0xf0 b && ltb b 0xf5
    then four b rest
    else none

abbrev pub and_then {ℓ κ} : {A : Type ℓ} {B : Type κ} → Option A → (A → Option B) → Option B
and_then none f = none
and_then (some a) f = f a

unfoldable pub decode_chars : ℕ → Bytes → Option Str
decode_chars rounds [] = some []
decode_chars zero (b ∷ bs) = none
decode_chars (suc rounds) (b ∷ bs) =
    and_then (decode_char (b ∷ bs))
      λ (c, rest). and_then (decode_chars rounds rest) λ s. some (c ∷ s)

-- A character is a byte at least, so the length is rounds enough.
unfoldable pub decode_utf8 : Bytes → Option Str
unfolding decode_chars decode_char two three four
decode_utf8 bs = decode_chars (length bs) bs

-- `bs` decodes to the one character `c`, whatever follows.
abbrev DecodesTo : ℕ → Bytes → Type 0
DecodesTo c bs = (rest : Bytes) → decode_char (bs ++ rest) ≡ some (c, rest)

module _ (c : ℕ) where
  one_byte : ltb c 0x80 ≡ true → DecodesTo c (c ∷ [])
  unfolding decode_char
  one_byte h rest = ground arith

  two_bytes :
      ltb c 0x80 ≡ false → ltb c 0x800 ≡ true → DecodesTo c ((0xc0 + c / 64) ∷ (0x80 + c % 64) ∷ [])
  unfolding decode_char two
  two_bytes h k rest = ground arith

  three_bytes :
      ltb c 0x800 ≡ false
      → is_surrogate c ≡ false
      → ltb c 0x10000 ≡ true
      → DecodesTo c ((0xe0 + c / 4096) ∷ (0x80 + c / 64 % 64) ∷ (0x80 + c % 64) ∷ [])
  unfolding decode_char three
  three_bytes h k l rest = ground arith

  four_bytes :
      ltb c 0x10000 ≡ false
      → ltb c 0x110000 ≡ true
      → DecodesTo c (
          (0xf0 + c / 262144)
          ∷ (0x80 + c / 4096 % 64)
          ∷ (0x80 + c / 64 % 64)
          ∷ (0x80 + c % 64)
          ∷ [])
  unfolding decode_char four
  four_bytes h k rest = ground arith

  decode_char-encode_char : OnOk (DecodesTo c) (encode_char c)
  unfolding encode_char
  decode_char-encode_char =
      OnOk-if (ltb c 0x80) (λ h. returned (one_byte h))
        λ h₁.
          OnOk-if (ltb c 0x800) (λ h. returned (two_bytes h₁ h))
            λ h₂.
              OnOk-if (is_surrogate c) (λ h. raised)
                λ h₃.
                  OnOk-if (ltb c 0x10000) (λ h. returned (three_bytes h₂ h₃ h))
                    λ h₄. OnOk-if (ltb c 0x110000) (λ h. returned (four_bytes h₄ h)) λ h. raised

  encode_char-nonempty : OnOk (λ bs. 0 < length bs) (encode_char c)
  unfolding encode_char
  encode_char-nonempty =
      OnOk-if (ltb c 0x80) (λ h. returned (omega arith))
        λ h.
          OnOk-if (ltb c 0x800) (λ h. returned (omega arith))
            λ h.
              OnOk-if (is_surrogate c) (λ h. raised)
                λ h.
                  OnOk-if (ltb c 0x10000) (λ h. returned (omega arith))
                    λ h. OnOk-if (ltb c 0x110000) (λ h. returned (omega arith)) λ h. raised

-- One round of the decoder over an encoded character.
decode_chars-step :
    (rounds c : ℕ) (head rest : Bytes)
    → encode_char c ≡ ok head
    → decode_chars (suc rounds) (head ++ rest)
      ≡ and_then (decode_chars rounds rest) (λ s. some (c ∷ s))
unfolding decode_chars
decode_chars-step rounds c [] rest e = absurd (omega (arith, OnOk-apply (encode_char-nonempty c) e))
decode_chars-step rounds c (b ∷ bs) rest e = rw (OnOk-apply (decode_char-encode_char c) e rest)

decode_chars-encode_utf8 :
    (s : Str) (rounds : ℕ) (bs : Bytes)
    → encode_utf8 s ≡ ok bs
    → length bs ≤ rounds
    → decode_chars rounds bs ≡ some s
unfolding encode_utf8
decode_chars-encode_utf8 [] rounds bs h le = rw (← ok-injective h) (unfold decode_chars in refl)
decode_chars-encode_utf8 (c ∷ s) rounds bs h le =
    let (head, e, h') = bind-eq-ok (encode_char c) _ h in
    let (rest, e', h'') = bind-eq-ok (encode_utf8 s) _ h' in
    let joined = ok-injective h'' in
    let measured : length head + length rest ≤ rounds =
      omega (arith, length-append {0} head rest, ap length joined) in
    rw (← joined) (go rounds head rest e measured (λ r. decode_chars-encode_utf8 s r rest e'))
  where
    go :
        (rounds : ℕ) (head rest : Bytes)
        → encode_char c ≡ ok head
        → length head + length rest ≤ rounds
        → ((r : ℕ) → length rest ≤ r → decode_chars r rest ≡ some s)
        → decode_chars rounds (head ++ rest) ≡ some (c ∷ s)
    go zero head rest e le ih = absurd (omega (arith, OnOk-apply (encode_char-nonempty c) e))
    go (suc r) head rest e le ih = rw (
      decode_chars-step r c head rest e,
      ih r (omega (arith, OnOk-apply (encode_char-nonempty c) e)),
    )

-- What was encoded decodes to itself.
pub decode_utf8-encode_utf8 :
    (s : Str) (bs : Bytes) → encode_utf8 s ≡ ok bs → decode_utf8 bs ≡ some s
unfolding decode_utf8
decode_utf8-encode_utf8 s bs h = decode_chars-encode_utf8 s (length bs) bs h (omega arith)

-- ===== src/Bytes/Reader.antt =====
-- `Reader`. Its state is the bytes from `_at` on, so `remaining` is their length; a method returns
-- what it read with what is left. The `what` of a message is left out.
use tessaridb_sdk_python.Prelude.{
  ℕ, zero, suc, ◌^◌, Bool, true, false, none, some, List, [], ◌∷◌, ◌++◌, if◌then◌else◌, ltb, leb,
  ◌==◌, length, take, drop, ℤ, pos,
}
use tessaridb_sdk_python.Result.{
  Bytes, Str, Result, ok, err, bind, protocol, wanted, outside_nanos, not_utf8, no_terminator,
  invalid_escape,
}
use tessaridb_sdk_python.Bytes.Endian.{from_bytes, from_twos, flip_first}
use tessaridb_sdk_python.Bytes.Utf8.{decode_utf8}
use tessaridb_sdk_python.Bytes.Writer.{nanos_per_second}

abbrev pub Get {ℓ} : Type ℓ → Type ℓ
Get A = Bytes → Result (A × Bytes)

abbrev pub pure {ℓ} : {A : Type ℓ} → A → Get A
pure a r = ok (a, r)

module _ {ℓ κ} {A : Type ℓ} {B : Type κ} where
  infixl 5 ◌>>=◌
  unfoldable pub ◌>>=◌ : Get A → (A → Get B) → Get B
  ◌>>=◌ p f r = bind (p r) λ (a, rest). f a rest

unfoldable pub exhausted : Bytes → Bool
exhausted [] = true
exhausted (_ ∷ _) = false

-- `_take`, which is also `fixed`.
unfoldable pub take_bytes : ℕ → Get Bytes
take_bytes width r =
    if ltb (length r) width
    then err (protocol (wanted width (length r)))
    else ok (take width r, drop width r)

unfoldable pub u8 : Get ℕ
u8 [] = err (protocol (wanted 1 0))
u8 (b ∷ rest) = ok (b, rest)

unfoldable pub u32 : Get ℕ
unfolding ◌>>=◌ take_bytes
u32 = do bs ← take_bytes 4; pure (from_bytes bs)

unfoldable pub u64 : Get ℕ
unfolding ◌>>=◌ take_bytes
u64 = do bs ← take_bytes 8; pure (from_bytes bs)

unfoldable pub i64 : Get ℤ
unfolding ◌>>=◌ take_bytes
i64 = do bs ← take_bytes 8; pure (from_twos (2 ^ 64) (from_bytes (flip_first bs)))

unfoldable pub i128 : Get ℤ
unfolding ◌>>=◌ take_bytes
i128 = do bs ← take_bytes 16; pure (from_twos (2 ^ 128) (from_bytes bs))

-- An unsigned read as a Python integer.
unfoldable pub integer : Get ℕ → Get ℤ
unfolding ◌>>=◌
integer p = do n ← p; pure (pos n)

unfoldable pub nanos : Get ℕ
unfolding ◌>>=◌ u32
nanos = do
  value ← u32
  if leb nanos_per_second value then (λ r. err (protocol (outside_nanos value))) else pure value

unfoldable pub double : Get ℕ
unfolding ◌>>=◌ take_bytes
double = do bs ← take_bytes 8; pure (from_bytes bs)

unfoldable pub fixed : ℕ → Get Bytes
unfolding take_bytes
fixed width = take_bytes width

unfoldable pub lenbytes : Get Bytes
lenbytes = do width ← u32; take_bytes width

-- The strict decoder's error is a `ProtocolError`.
unfoldable pub as_text : Bytes → Get Str
as_text bs r = elim (decode_utf8 bs) [ some s ↦ ok (s, r) | none ↦ err (protocol not_utf8) ]

unfoldable pub text : Get Str
text = do bs ← lenbytes; as_text bs

-- The loop of `varbytes`: `out` is what it has collected.
unfoldable pub unescape : Bytes → Get Bytes
unescape out [] = err (protocol no_terminator)
unescape out (b ∷ []) = if b == 0 then err (protocol (wanted 1 0)) else err (protocol no_terminator)
unescape out (b ∷ marker ∷ rest) = elim (b == 0) [
  | false ↦ unescape (out ++ b ∷ []) (marker ∷ rest)
  | true ↦ elim (marker == 1) [
    | true ↦ ok (out, rest)
    | false ↦ elim (marker == 0xff) [
      | true ↦ unescape (out ++ 0 ∷ []) rest
      | false ↦ err (protocol (invalid_escape marker))
    ]
  ]
]

unfoldable pub varbytes : Get Bytes
unfolding unescape
varbytes = unescape []

-- `tuple(p(r) for _ in range(count))`.
unfoldable pub repeat {ℓ} : {A : Type ℓ} → ℕ → Get A → Get (List A)
repeat zero p r = ok ([], r)
repeat (suc count) p r =
    bind (p r) λ (a, rest). bind (repeat count p rest) λ (more, rest'). ok (a ∷ more, rest')

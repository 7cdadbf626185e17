-- ===== src/Bytes/Writer.antt =====
-- `Writer`. Its methods only append to `_out`, so an action is the bytes that it appends, or the
-- error that it raises; `⨾` runs two in turn. A float is its IEEE-754 bits.
use tessaridb_sdk_python.Prelude.{
  ℕ, ◌^◌, ◌&&◌, [], ◌∷◌, ◌++◌, if◌then◌else◌, ◌==◌, length, ℤ, pos, negsuc, pos_part, leb_ℤ,
}
use tessaridb_sdk_python.Result.{
  Bytes, Str, Result, ok, err, bind, protocol, does_not_fit, wrong_width,
}
use tessaridb_sdk_python.Bytes.Endian.{to_bytes, to_twos, flip_first}
use tessaridb_sdk_python.Bytes.Utf8.{encode_utf8}

-- The ranges: `h` stands for the bounds -(h + 1) and h.
abbrev pub int64_max : ℕ
int64_max = 9_223_372_036_854_775_807

abbrev pub int128_max : ℕ
int128_max = 170_141_183_460_469_231_731_687_303_715_884_105_727

abbrev pub uint32_max : ℕ
uint32_max = 4_294_967_295

abbrev pub uint64_max : ℕ
uint64_max = 18_446_744_073_709_551_615

abbrev pub nanos_per_second : ℕ
nanos_per_second = 1_000_000_000

abbrev pub Put : Type 0
Put = Result Bytes

infixr 20 ◌⨾◌
unfoldable pub ◌⨾◌ : Put → Put → Put
a ⨾ b = bind a λ x. bind b λ y. ok (x ++ y)

unfoldable pub check : ℤ → ℤ → ℤ → Result ℤ
check value low high =
    if leb_ℤ low value && leb_ℤ value high then ok value else err (protocol (does_not_fit value))

unfoldable pub raw : Bytes → Put
raw bs = ok bs

unfoldable pub u8 : ℤ → Put
unfolding check
u8 value = bind (check value (pos 0) (pos 255)) λ v. ok (pos_part v ∷ [])

unfoldable pub u32 : ℤ → Put
unfolding check
u32 value = bind (check value (pos 0) (pos uint32_max)) λ v. ok (to_bytes 4 (pos_part v))

unfoldable pub u64 : ℤ → Put
unfolding check
u64 value = bind (check value (pos 0) (pos uint64_max)) λ v. ok (to_bytes 8 (pos_part v))

unfoldable pub i64 : ℤ → Put
unfolding check
i64 value =
    bind (check value (negsuc int64_max) (pos int64_max))
      λ v. ok (flip_first (to_bytes 8 (to_twos (2 ^ 64) v)))

unfoldable pub i128 : ℤ → Put
unfolding check
i128 value =
    bind (check value (negsuc int128_max) (pos int128_max))
      λ v. ok (to_bytes 16 (to_twos (2 ^ 128) v))

unfoldable pub nanos : ℤ → Put
unfolding check
nanos value = bind (check value (pos 0) (pos 999_999_999)) λ v. ok (to_bytes 4 (pos_part v))

unfoldable pub double : ℕ → Put
double bits = ok (to_bytes 8 bits)

unfoldable pub fixed : Bytes → ℕ → Put
fixed bs width =
    if length bs == width then ok bs else err (protocol (wrong_width width (length bs)))

unfoldable pub lenbytes : Bytes → Put
lenbytes bs = u32 (pos (length bs)) ⨾ raw bs

unfoldable pub text : Str → Put
text s = bind (encode_utf8 s) lenbytes

-- The loop of `varbytes`: a zero byte is followed by 0xFF.
unfoldable pub escape : Bytes → Bytes
escape [] = []
escape (b ∷ bs) = if b == 0 then 0 ∷ 0xff ∷ escape bs else b ∷ escape bs

unfoldable pub varbytes : Bytes → Put
unfolding escape
varbytes bs = ok (escape bs ++ 0 ∷ 1 ∷ [])

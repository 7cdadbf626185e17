-- ===== src/Bytes/RoundTrip.antt =====
-- Each `Reader` method reads back what the `Writer` method of its name wrote, whatever follows.
use tessaridb_sdk_python.Prelude.{
  ℕ, ◌^◌, ◌<◌, ◌≡◌, refl, ap, ◌∙◌, false, [], ◌∷◌, ◌++◌, append_assoc, append-nil, arith, le→ltb,
  leb, length, length-append, take-append, drop-append, ℤ, pos, negsuc, ◌≤ℤ◌, ◌==◌, Bool-cases, inl,
  inr, ==→eq,
}
use tessaridb_sdk_python.Result.{Bytes, Str, ok, bind, bind-eq-ok}
use tessaridb_sdk_python.Bytes.Endian.{
  to_bytes, to_twos, flip_first, length-to_bytes, from_bytes-to_bytes, flip_first-to_bytes,
  length-flip_first, from_twos-to_twos, to_twos-lt,
}
use tessaridb_sdk_python.Bytes.Utf8.{encode_utf8, decode_utf8-encode_utf8}
use tessaridb_sdk_python.Bytes.Reads.{Reads, Reads-bind, Reads-map}
use tessaridb_sdk_python.Bytes.Writer
use tessaridb_sdk_python.Bytes.Writer.{
  Put, ◌⨾◌, check, int64_max, int128_max, uint32_max, uint64_max,
}
use tessaridb_sdk_python.Bytes.Reader
use tessaridb_sdk_python.Bytes.Reader.{Get, pure, ◌>>=◌, integer, take_bytes, as_text, unescape}

take_bytes-append :
    (n : ℕ) (bs rest : Bytes) → length bs ≡ n → take_bytes n (bs ++ rest) ≡ ok (bs, rest)
unfolding take_bytes
take_bytes-append n bs rest h = rw (
  le→ltb (length (bs ++ rest)) n (omega (arith, length-append {0} bs rest)),
  take-append n bs rest h,
  drop-append n bs rest h,
)

-- A byte that is not zero is collected as it stands.
unescape-plain :
    (b : ℕ) (out bs : Bytes) (c : ℕ) (rest : Bytes)
    → (b == 0) ≡ false
    → unescape out (b ∷ (bs ++ c ∷ rest)) ≡ unescape (out ++ b ∷ []) (bs ++ c ∷ rest)
unfolding unescape
unescape-plain b out [] c rest h = ground arith
unescape-plain b out (x ∷ bs) c rest h = ground arith

-- The reader's loop undoes the escape, from whatever it has collected.
unescape-escape :
    (bs out rest : Bytes) → unescape out (Writer.escape bs ++ 0 ∷ 1 ∷ rest) ≡ ok (out ++ bs, rest)
unfolding unescape Writer.escape
unescape-escape [] out rest = rw append-nil
unescape-escape (b ∷ bs) out rest = elim (Bool-cases (b == 0)) [
  | inl zero_byte ↦
      let is_zero : b ≡ 0 = ==→eq b 0 zero_byte in
      rw is_zero (
        unescape-escape bs (out ++ 0 ∷ []) rest
        ∙ ap (λ l. ok (l, rest)) (append_assoc out (0 ∷ []) bs))
  | inr plain ↦ rw plain (
      unescape-plain b out (Writer.escape bs) 0 (1 ∷ rest) plain
      ∙ unescape-escape bs (out ++ b ∷ []) rest
      ∙ ap (λ l. ok (l, rest)) (append_assoc out (b ∷ []) bs))
]

module _ {n : ℕ} where
  pub u8-Reads : (k : ℕ) → Reads n (Writer.u8 (pos k)) Reader.u8 k
  unfolding Writer.u8 Reader.u8
  u8-Reads k = record {
    at = λ bs rest h le. let written : bs ≡ k ∷ [] = ground arith in rw written;
  }

  pub u32_length-Reads : (k : ℕ) → Reads n (Writer.u32 (pos k)) Reader.u32 k
  unfolding Writer.u32 Reader.u32
  u32_length-Reads k = record {
    at = λ bs rest h le.
        let written : bs ≡ to_bytes 4 k = ground arith in
        let fits : k < 256 ^ 4 = ground arith in
        rw (written, take_bytes-append 4 (to_bytes 4 k) rest (length-to_bytes 4 k))
          (rw (from_bytes-to_bytes 4 k fits));
  }

  pub u32-Reads : (v : ℤ) → Reads n (Writer.u32 v) (integer Reader.u32) v
  unfolding integer Writer.u32
  u32-Reads (pos k) = Reads-map pos (u32_length-Reads k)
  u32-Reads (negsuc k) = record { at = λ bs rest h le. absurd (ground arith) }

  u64_length-Reads : (k : ℕ) → Reads n (Writer.u64 (pos k)) Reader.u64 k
  unfolding Writer.u64 Reader.u64
  u64_length-Reads k = record {
    at = λ bs rest h le.
        let written : bs ≡ to_bytes 8 k = ground arith in
        let fits : k < 256 ^ 8 = ground arith in
        rw (written, take_bytes-append 8 (to_bytes 8 k) rest (length-to_bytes 8 k))
          (rw (from_bytes-to_bytes 8 k fits));
  }

  pub u64-Reads : (v : ℤ) → Reads n (Writer.u64 v) (integer Reader.u64) v
  unfolding integer Writer.u64
  u64-Reads (pos k) = Reads-map pos (u64_length-Reads k)
  u64-Reads (negsuc k) = record { at = λ bs rest h le. absurd (ground arith) }

  nanos_length-Reads : (k : ℕ) → Reads n (Writer.nanos (pos k)) Reader.nanos k
  unfolding Writer.nanos Reader.nanos
  nanos_length-Reads k = record {
    at = λ bs rest h le.
        let written : bs ≡ to_bytes 4 k = ground arith in
        let fits : k < 256 ^ 4 = ground arith in
        let inside : leb 1_000_000_000 k ≡ false = ground arith in
        rw (written, take_bytes-append 4 (to_bytes 4 k) rest (length-to_bytes 4 k))
          (rw (from_bytes-to_bytes 4 k fits, inside));
  }

  pub nanos-Reads : (v : ℤ) → Reads n (Writer.nanos v) (integer Reader.nanos) v
  unfolding integer Writer.nanos
  nanos-Reads (pos k) = Reads-map pos (nanos_length-Reads k)
  nanos-Reads (negsuc k) = record { at = λ bs rest h le. absurd (ground arith) }

  pub i64-Reads : (v : ℤ) → Reads n (Writer.i64 v) Reader.i64 v
  unfolding Writer.i64 Reader.i64
  i64-Reads v = record {
    at = λ bs rest h le.
        let raw = to_bytes 8 (to_twos (2 ^ 64) v) in
        let low : negsuc int64_max ≤ℤ v = ground arith in
        let high : v ≤ℤ pos int64_max = ground arith in
        let written : bs ≡ flip_first raw = ground arith in
        let width : length (flip_first raw) ≡ 8 =
          rw (length-flip_first raw) (length-to_bytes 8 (to_twos (2 ^ 64) v)) in
        rw (written, take_bytes-append 8 (flip_first raw) rest width)
          (rw (
            flip_first-to_bytes 8 (to_twos (2 ^ 64) v),
            from_bytes-to_bytes 8 (to_twos (2 ^ 64) v) (to_twos-lt int64_max v high),
            from_twos-to_twos int64_max v low high,
          ));
  }

  pub i128-Reads : (v : ℤ) → Reads n (Writer.i128 v) Reader.i128 v
  unfolding Writer.i128 Reader.i128
  i128-Reads v = record {
    at = λ bs rest h le.
        let raw = to_bytes 16 (to_twos (2 ^ 128) v) in
        let low : negsuc int128_max ≤ℤ v = ground arith in
        let high : v ≤ℤ pos int128_max = ground arith in
        let written : bs ≡ raw = ground arith in
        rw (written, take_bytes-append 16 raw rest (length-to_bytes 16 (to_twos (2 ^ 128) v)))
          (rw (
            from_bytes-to_bytes 16 (to_twos (2 ^ 128) v) (to_twos-lt int128_max v high),
            from_twos-to_twos int128_max v low high,
          ));
  }

  -- A float is 64 bits.
  pub double-Reads : (bits : ℕ) → bits < 2 ^ 64 → Reads n (Writer.double bits) Reader.double bits
  unfolding Writer.double Reader.double
  double-Reads bits lt = record {
    at = λ bs rest h le.
        let written : bs ≡ to_bytes 8 bits = cc in
        rw (written, take_bytes-append 8 (to_bytes 8 bits) rest (length-to_bytes 8 bits))
          (rw (from_bytes-to_bytes 8 bits (omega arith)));
  }

  pub fixed-Reads :
      (bs : Bytes) (width : ℕ) → Reads n (Writer.fixed bs width) (Reader.fixed width) bs
  unfolding Writer.fixed Reader.fixed
  fixed-Reads raw width = record {
    at = λ bs rest h le.
        let written : bs ≡ raw = ground arith in
        let measured : length raw ≡ width = ground arith in
        rw written (unfold take_bytes in take_bytes-append width raw rest measured);
  }

  raw-Reads : (bs : Bytes) → Reads n (Writer.raw bs) (take_bytes (length bs)) bs
  unfolding Writer.raw
  raw-Reads raw = record {
    at = λ bs rest h le.
        let written : bs ≡ raw = cc in rw written (take_bytes-append (length raw) raw rest refl);
  }

  pub lenbytes-Reads : (bs : Bytes) → Reads n (Writer.lenbytes bs) Reader.lenbytes bs
  unfolding Writer.lenbytes Reader.lenbytes
  lenbytes-Reads bs = Reads-bind _ (u32_length-Reads (length bs)) (raw-Reads bs)

  pub text-Reads : (s : Str) → Reads n (Writer.text s) Reader.text s
  unfolding Writer.text Reader.text ◌>>=◌ as_text
  text-Reads s = record {
    at = λ bs rest h le.
        let (raw, e, h') = bind-eq-ok (encode_utf8 s) _ h in
        from_raw raw bs rest e ((lenbytes-Reads raw).at bs rest h' le);
  }
    where
      from_raw :
          (raw bs rest : Bytes)
          → encode_utf8 s ≡ ok raw
          → Reader.lenbytes (bs ++ rest) ≡ ok (raw, rest)
          → Reader.text (bs ++ rest) ≡ ok (s, rest)
      from_raw raw bs rest e inner = rw inner (rw (decode_utf8-encode_utf8 s raw e, as_text))

  pub varbytes-Reads : (bs : Bytes) → Reads n (Writer.varbytes bs) Reader.varbytes bs
  unfolding Writer.varbytes Reader.varbytes
  varbytes-Reads raw = record {
    at = λ bs rest h le.
        let written : bs ≡ Writer.escape raw ++ 0 ∷ 1 ∷ [] = cc in
        rw (written, append_assoc) (unescape-escape raw [] rest);
  }

  -- A text record id: escaped bytes, then their text.
  pub varbytes_text-Reads {ℓ} :
      {A : Type ℓ} (g : Str → A) (s : Str)
      → Reads n
          (bind (encode_utf8 s) Writer.varbytes)
          (Reader.varbytes >>= λ bs. as_text bs >>= λ s. pure (g s))
          (g s)
  unfolding ◌>>=◌ as_text
  varbytes_text-Reads {A} g s = record {
    at = λ bs rest h le.
        let (raw, e, h') = bind-eq-ok (encode_utf8 s) _ h in
        from_raw raw bs rest e ((varbytes-Reads raw).at bs rest h' le);
  }
    where
      from_raw :
          (raw bs rest : Bytes)
          → encode_utf8 s ≡ ok raw
          → Reader.varbytes (bs ++ rest) ≡ ok (raw, rest)
          → (Reader.varbytes >>= λ bs. as_text bs >>= λ s. pure (g s)) (bs ++ rest) ≡ ok (g s, rest)
      from_raw raw bs rest e inner = rw inner (rw (decode_utf8-encode_utf8 s raw e, as_text))

-- ===== src/Http/Paths.antt =====
-- The target of a file reaches the node as its bytes.
use tessaridb_sdk_python.Prelude.{
  ℕ, ◌/◌, ◌%◌, ◌<◌, ◌≡◌, refl, ap, sym, subst, ◌∙◌, true, false, ◌||◌, Bool-cases, inl, inr, [],
  ◌∷◌, ◌++◌, All, arith, ◌==◌,
}
use tessaridb_sdk_python.Result.{Bytes, Str, ok, bind-eq-ok, ok-injective}
use tessaridb_sdk_python.Bytes.Utf8.{encode_char, encode_utf8}
use tessaridb_sdk_python.Http.Files.{
  is_unreserved, upper_hex, quote_bytes, bucket_path, file_path, hex_digit_value, percent_decode,
}

abbrev IsByte : ℕ → Type 0
IsByte b = b < 256

encode_char-IsByte : (c : ℕ) (bs : Bytes) → encode_char c ≡ ok bs → All IsByte bs
unfolding encode_char
encode_char-IsByte c bs e = ground arith

All-append : (xs ys : Bytes) → All IsByte xs → All IsByte ys → All IsByte (xs ++ ys)
All-append [] ys h k = k
All-append (x ∷ xs) ys h k = (h.0, All-append xs ys h.1 k)

encode_utf8-IsByte : (s : Str) (bs : Bytes) → encode_utf8 s ≡ ok bs → All IsByte bs
unfolding encode_utf8
encode_utf8-IsByte [] bs e = ground arith
encode_utf8-IsByte (c ∷ s) bs e =
    let (head, first, more) = bind-eq-ok (encode_char c) _ e in
    let (rest, later, whole) = bind-eq-ok (encode_utf8 s) _ more in
    subst (All IsByte) (ok-injective whole)
      (All-append head rest (encode_char-IsByte c head first) (encode_utf8-IsByte s rest later))

-- What a request line may hold of a path.
abbrev pub IsPathChar : ℕ → Type 0
IsPathChar c = (is_unreserved c || (c == 47 || c == 37)) ≡ true

kept_path : (b : ℕ) → (is_unreserved b || b == 47) ≡ true → IsPathChar b
kept_path b h = ground arith

upper_hex-path : (d : ℕ) → d < 16 → IsPathChar (upper_hex d)
unfolding upper_hex is_unreserved
upper_hex-path d h = ground arith

quote_bytes-path : (bs : Bytes) → All IsByte bs → All IsPathChar (quote_bytes bs)
unfolding quote_bytes
quote_bytes-path [] h = tt
quote_bytes-path (b ∷ bs) h =
    let more = quote_bytes-path bs h.1 in
    elim (Bool-cases (is_unreserved b || b == 47)) [
      | inl plain ↦ rw (plain, quote_bytes, All) (kept_path b plain, more)
      | inr other ↦
          rw (other, quote_bytes, All)
            (
              refl,
              (
                upper_hex-path (b / 16) (omega (arith, h.0)),
                (upper_hex-path (b % 16) (omega arith), more),
              ),
            )
    ]

percent_decode-hex :
    (b : ℕ) (s : Str)
    → b < 256
    → percent_decode (37 ∷ upper_hex (b / 16) ∷ upper_hex (b % 16) ∷ s) ≡ b ∷ percent_decode s
unfolding percent_decode upper_hex hex_digit_value
percent_decode-hex b s h = ground arith

percent_decode-plain :
    (b : ℕ) (s : Str) → (b == 37) ≡ false → percent_decode (b ∷ s) ≡ b ∷ percent_decode s
unfolding percent_decode
percent_decode-plain b [] h = refl
percent_decode-plain b (d ∷ []) h = refl
percent_decode-plain b (d ∷ e ∷ s) h = rw h refl

kept_plain : (b : ℕ) → (is_unreserved b || b == 47) ≡ true → (b == 37) ≡ false
unfolding is_unreserved
kept_plain b h = ground arith

percent_decode-quote_bytes : (bs : Bytes) → All IsByte bs → percent_decode (quote_bytes bs) ≡ bs
unfolding quote_bytes
percent_decode-quote_bytes [] h = unfold percent_decode in refl
percent_decode-quote_bytes (b ∷ bs) h =
    let more = percent_decode-quote_bytes bs h.1 in
    elim (Bool-cases (is_unreserved b || b == 47)) [
      | inl plain ↦
          rw (plain, quote_bytes)
            (percent_decode-plain b (quote_bytes bs) (kept_plain b plain) ∙ ap (λ l. b ∷ l) more)
      | inr other ↦
          rw (other, quote_bytes) (percent_decode-hex b (quote_bytes bs) h.0 ∙ ap (λ l. b ∷ l) more)
    ]

-- The target of a file is the bucket of the checked names, a slash, and characters that a request
-- line may hold; decoding these gives the UTF-8 of the path, so that the node has the name that was
-- given, whatever it is spelled with.
pub file_path-percent_decode :
    (namespace database bucket path target : Str)
    → file_path namespace database bucket path ≡ ok target
    → (before : Str) × (segment : Str) × (bucket_path namespace database bucket ≡ ok before)
      × (target ≡ before ++ 47 ∷ segment)
      × All IsPathChar segment
      × (encode_utf8 path ≡ ok (percent_decode segment))
unfolding file_path
file_path-percent_decode namespace database bucket path target h =
    let (before, named, more) = bind-eq-ok (bucket_path namespace database bucket) _ h in
    let (bs, encoded, whole) = bind-eq-ok (encode_utf8 path) _ more in
    let bytes = encode_utf8-IsByte path bs encoded in
    (
      before,
      quote_bytes bs,
      named,
      sym (ok-injective whole),
      quote_bytes-path bs bytes,
      encoded ∙ ap ok (sym (percent_decode-quote_bytes bs bytes)),
    )

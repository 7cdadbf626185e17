-- ===== src/Answer/Resume.antt =====
-- The resume point of an outcome: what a later node appends to a body that this client has read to
-- its last field.
use tessaridb_sdk_python.Prelude.{
  ℕ, zero, suc, ◌≡◌, refl, Bool, true, false, [], ◌∷◌, ◌++◌, ◌==◌, if◌then◌else◌,
}
use tessaridb_sdk_python.Result.{Bytes, Result, ok, bind-eq-ok}
use tessaridb_sdk_python.Bytes.Reader.{Get, pure, ◌>>=◌, exhausted, u8}
use tessaridb_sdk_python.Bytes.Extends.{
  Extends, Extends-pure, Extends-bind, Extends-map, Extends-if, Extends-repeat, Extends-lift,
  Extends-u8, Extends-u32, Extends-u64, Extends-lenbytes, Extends-text,
}
use tessaridb_sdk_python.Codec.Decode.{decode, counted}
use tessaridb_sdk_python.Answer.Outcome.{
  Suggestion, not_consulted, complete, corrections, Names, Records, Outcome, records,
  unknown_outcome,
}
use tessaridb_sdk_python.Answer.Read.{
  set_name, get_names, names, held, nested_value, row, note, correction, get_suggestion, suggestion,
  or_end, with_suggestion, with_exactness, with_only, with_notes, get_records, get_outcome, outcome,
}

-- A dictionary was consulted: the suggestion is the last field, so it was there.
unfoldable pub consulted : Suggestion → Bool
consulted not_consulted = false
consulted complete = true
consulted (corrections _) = true

-- This client read every field that it knows of the outcome.
unfoldable pub read_to_end : Outcome → Bool
unfolding consulted
read_to_end (records answer) = consulted answer.suggestion
read_to_end (unknown_outcome _ _) = false
read_to_end _ = true

-- `p` extends where it returns what `whole` holds of.
record Resumes {ℓ} {A : Type ℓ} (whole : A → Bool) (p : Get A) : Type ℓ where
  at :
      (bs extra : Bytes) (a : A) (rest : Bytes)
      → p bs ≡ ok (a, rest)
      → whole a ≡ true
      → p (bs ++ extra) ≡ ok (a, rest ++ extra)

module _ {ℓ} {A : Type ℓ} {whole : A → Bool} where
  Resumes-Extends : {p : Get A} → Extends p → Resumes whole p
  Resumes-Extends ep = record { at = λ bs extra a rest h w. ep.at bs extra a rest h }

  Resumes-bind {κ} :
      {B : Type κ} {p : Get B} (f : B → Get A)
      → Extends p
      → ((b : B) → Resumes whole (f b))
      → Resumes whole (p >>= f)
  unfolding ◌>>=◌
  Resumes-bind {p = p} f ep ef = record {
    at = λ bs extra a rest h w.
        let ((b, rest'), e, e') = bind-eq-ok (p bs) _ h in
        rw (ep.at bs extra b rest' e) ((ef b).at rest' extra a rest e' w);
  }

  Resumes-if :
      (b : Bool) {p q : Get A}
      → Resumes whole p
      → Resumes whole q
      → Resumes whole (if b then p else q)
  Resumes-if true rp rq = rp
  Resumes-if false rp rq = rq

Extends-counted {ℓ} : {A : Type ℓ} {p : Get A} → Extends p → Extends (counted p)
unfolding counted
Extends-counted ep = Extends-bind _ Extends-u32 λ count. Extends-repeat count ep

Extends-get_names : (count : ℕ) (ns : Names) → Extends (get_names count ns)
unfolding get_names ◌>>=◌
Extends-get_names zero ns = Extends-pure ns
Extends-get_names (suc count) ns = record {
  at =
      (Extends-bind _ Extends-u32 λ table.
        Extends-bind _ Extends-text λ name. Extends-get_names count (set_name table name ns)).at;
}

Extends-names : Extends names
unfolding names
Extends-names = Extends-bind _ Extends-u32 λ count. Extends-get_names count []

Extends-nested_value : Extends nested_value
unfolding nested_value held
Extends-nested_value = Extends-bind _ Extends-lenbytes λ bs. Extends-lift (decode bs)

Extends-row : Extends row
unfolding row
Extends-row = Extends-bind _ Extends-text λ identity. Extends-map _ Extends-nested_value

Extends-note : Extends note
unfolding note
Extends-note = Extends-bind _ Extends-text λ kind. Extends-map _ Extends-text

Extends-correction : Extends correction
unfolding correction
Extends-correction = Extends-bind _ Extends-text λ typed. Extends-map _ Extends-text

Extends-suggestion : Extends suggestion
unfolding suggestion get_suggestion
Extends-suggestion = Extends-bind _ Extends-u8 λ state.
    Extends-if (state == 1) (Extends-pure _) (
      Extends-if (state == 2) (Extends-map _ (Extends-counted Extends-correction)) (Extends-pure _))

abbrev advised : Records → Bool
advised answer = consulted answer.suggestion

-- A body that ends early has no advice, so advice shows that it went on.
module _ (so_far : Records) (silent : so_far.suggestion ≡ not_consulted) where
  or_end_whole :
      {more : Get Records} (bs extra : Bytes) (a : Records) (rest : Bytes)
      → Resumes advised more
      → or_end so_far more bs ≡ ok (a, rest)
      → advised a ≡ true
      → or_end so_far more (bs ++ extra) ≡ ok (a, rest ++ extra)
  unfolding or_end exhausted consulted
  or_end_whole [] extra a rest rm h w =
      let same : so_far ≡ a = cc in
      let advice : consulted a.suggestion ≡ false = rw (← same) (rw silent) in cc
  or_end_whole (b ∷ bs) extra a rest rm h w = rm.at (b ∷ bs) extra a rest h w

  Resumes-or_end :
      {more : Get Records} → Resumes advised more → Resumes advised (or_end so_far more)
  Resumes-or_end rm = record { at = λ bs extra a rest h w. or_end_whole bs extra a rest rm h w }

  Resumes-with_suggestion : Resumes advised (with_suggestion so_far)
  unfolding with_suggestion
  Resumes-with_suggestion = Resumes-or_end (Resumes-Extends (Extends-map _ Extends-suggestion))

Resumes-with_exactness :
    (so_far : Records) → so_far.suggestion ≡ not_consulted → Resumes advised (with_exactness so_far)
unfolding with_exactness
Resumes-with_exactness so_far silent = Resumes-or_end so_far silent (
    Resumes-bind _ Extends-u8
      λ byte. Resumes-bind _ Extends-text λ reason. Resumes-with_suggestion _ silent)

Resumes-with_notes :
    (so_far : Records) → so_far.suggestion ≡ not_consulted → Resumes advised (with_notes so_far)
unfolding with_notes with_only
Resumes-with_notes so_far silent = Resumes-or_end so_far silent (
    Resumes-bind _ (Extends-counted Extends-note) λ notes.
      Resumes-or_end _ silent (Resumes-bind _ Extends-u8 λ byte. Resumes-with_exactness _ silent))

Resumes-get_records : Resumes advised get_records
unfolding get_records
Resumes-get_records = Resumes-bind _ Extends-u8 λ byte.
    Resumes-bind _ Extends-names
      λ ns. Resumes-bind _ (Extends-counted Extends-row) λ rows. Resumes-with_notes _ refl

Resumes-records : Resumes read_to_end (get_records >>= λ answer. pure (records answer))
unfolding ◌>>=◌ read_to_end
Resumes-records = record {
  at = λ bs extra o rest h w.
      let ((answer, rest'), e, e') = bind-eq-ok (get_records bs) _ h in
      let same : records answer ≡ o = cc in
      let left : rest' ≡ rest = cc in
      let advice : advised answer ≡ true = rw (← same) at w in
      rw (Resumes-get_records.at bs extra answer rest' e advice) (cc);
}

kept :
    (t : ℕ) (bs extra : Bytes) (o : Outcome) (rest : Bytes)
    → ◌≡◌ {A = Result (Outcome × Bytes)} (ok (unknown_outcome t bs, bs)) (ok (o, rest))
    → read_to_end o ≡ true
    → ◌≡◌ {A = Result (Outcome × Bytes)}
        (ok (unknown_outcome t (bs ++ extra), bs ++ extra))
        (ok (o, rest ++ extra))
unfolding read_to_end
kept t bs extra o rest h w =
    let same : unknown_outcome t bs ≡ o = cc in let never : false ≡ true = rw (← same) at w in cc

Resumes-get_outcome : (t : ℕ) → Resumes read_to_end (get_outcome t)
unfolding get_outcome
Resumes-get_outcome t = Resumes-if (t == 0) (Resumes-Extends (Extends-pure _)) (
    Resumes-if (t == 1) Resumes-records (
      Resumes-if (t == 2)
        (Resumes-Extends (Extends-bind _ Extends-names λ ns. Extends-map _ Extends-nested_value))
        (Resumes-if (t == 3) (Resumes-Extends (Extends-map _ (Extends-counted Extends-text))) (
          Resumes-if (t == 4) (Resumes-Extends (Extends-map _ Extends-u64))
            (record { at = λ bs extra o rest h w. kept t bs extra o rest h w })))))

-- An outcome that was read to its last field is read the same with bytes appended to its body.
pub outcome-append :
    (raw extra : Bytes) (o : Outcome)
    → outcome raw ≡ ok o
    → read_to_end o ≡ true
    → outcome (raw ++ extra) ≡ ok o
unfolding outcome
outcome-append raw extra o h whole =
    let ((o', rest), e, e') = bind-eq-ok ((u8 >>= get_outcome) raw) _ h in
    let same : o' ≡ o = cc in
    let whole' : read_to_end o' ≡ true = rw same whole in
    let reads = Resumes-bind get_outcome Extends-u8 Resumes-get_outcome in
    rw (reads.at raw extra o' rest e whole') (cc)

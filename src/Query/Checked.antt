-- ===== src/Query/Checked.antt =====
-- What a `Select` holds after any calls of its methods, and what its text is made of.
use tessaridb_sdk_python.Prelude.{
  ℕ, ℤ, ◌≤◌, ◌≡◌, refl, Bool, true, false, Option, none, some, List, [], ◌∷◌, ◌++◌, ◌||◌, leb,
  arith, All, length, pos, negsuc,
}
use tessaridb_sdk_python.Result.{
  Str, Result, ok, err, bind, OnOk, returned, raised, OnOk-apply, OnOk-if, OnOk-bind,
}
use tessaridb_sdk_python.Dict.{str_eq, str_eq→eq}
use tessaridb_sdk_python.Text.{chars, join_with}
use tessaridb_sdk_python.Follow.Selection.{is_plain, plain_char, plain_start}
use tessaridb_sdk_python.Query.Names.{check_name, check_name-eq-ok, check_answerer, count, u64_max}
use tessaridb_sdk_python.Query.Spans.{check_span, span_from, span_from}
use tessaridb_sdk_python.Query.Grammar.{check_span-spelled}
use tessaridb_sdk_python.Query.Filter.{Filter, Binder, render_filter, IsNamed}
use tessaridb_sdk_python.Query.Binding.{numbered, values, filter_text, render_filter-numbered}
use tessaridb_sdk_python.Query.Safe.{
  IsSafe, all_safe, nil-IsSafe, append-IsSafe, cons-IsSafe, join_with-IsSafe, is_plain-IsSafe,
  show-IsSafe, spelled-IsSafe, filter_text-IsSafe,
}
use tessaridb_sdk_python.Query.Statement.{
  Select, select, field, window, lines, narrow, direction, order_by, start, limit, staleness,
  answered_by, projection, clause, shown, order_clause, where_clause, tail_clauses, head_clauses,
  finished, render_select,
}

-- A call of one of the methods.
pub data Call : Type 0 where
  field_call : Str → Call
  lines_call : Str → ℤ → ℤ → Call
  where_call : Filter → Call
  order_by_call : Str → Bool → Call
  start_call limit_call : ℤ → Call
  staleness_call answered_by_call : Str → Call

unfoldable pub perform : Call → Select → Result Select
perform (field_call name) = field name
perform (lines_call name from many) = lines name from many
perform (where_call f) = narrow f
perform (order_by_call name descending) = order_by name descending
perform (start_call n) = start n
perform (limit_call n) = limit n
perform (staleness_call span) = staleness span
perform (answered_by_call word) = answered_by word

unfoldable pub perform_all : List Call → Select → Result Select
unfolding perform
perform_all [] s = ok s
perform_all (call ∷ calls) s = bind (perform call s) (perform_all calls)

-- The filters come from `compare`, `&` and `|`.
abbrev pub IsCall : Call → Type 0
IsCall (where_call f) = IsNamed f
IsCall _ = Unit

abbrev pub OnSome {ℓ κ} : {A : Type ℓ} → (A → Type κ) → Option A → Type κ
OnSome P none = Unit
OnSome P (some a) = P a

pub record IsChecked (s : Select) : Type 0 where
  pub table : is_plain s.table ≡ true
  pub items : All IsSafe s.items
  pub filter : OnSome IsNamed s.filter
  pub order : All IsSafe s.order
  pub first : OnSome (λ n. n ≤ u64_max) s.first
  pub most : OnSome (λ n. n ≤ u64_max) s.most
  pub freshness : OnSome IsSafe s.freshness
  pub answerer : OnSome IsSafe s.answerer

checked_name : (what name : Str) → OnOk (λ checked. is_plain checked ≡ true) (check_name what name)
checked_name what name =
    plainly (check_name what name) (λ checked h. (check_name-eq-ok what name checked h).1)
  where
    plainly :
        (r : Result Str)
        → ((s : Str) → r ≡ ok s → is_plain s ≡ true)
        → OnOk (λ s. is_plain s ≡ true) r
    plainly (ok s) h = returned (h s refl)
    plainly (err e) h = raised

counted_IsU64 : (n : ℤ) → OnOk (λ k. k ≤ u64_max) (count n)
unfolding count
counted_IsU64 (pos n) = OnOk-if (leb n u64_max) (λ h. returned (ground arith)) (λ h. raised)
counted_IsU64 (negsuc n) = raised

spanned : (t : Str) → OnOk IsSafe (check_span t)
unfolding check_span
spanned t = OnOk-if (span_from (length t) false t) (λ h. returned (safe t h)) (λ h. raised)
  where
    safe : (t : Str) → span_from (length t) false t ≡ true → IsSafe t
    safe t h =
        let (p, parts, all, spelt) = (check_span-spelled t).0 (rw h refl) in
        rw spelt (spelled-IsSafe (p ∷ parts) all)

checked_answerer : (t : Str) → OnOk IsSafe (check_answerer t)
unfolding check_answerer all_safe plain_char plain_start
checked_answerer t =
    OnOk-if (str_eq t (chars "ANY") || str_eq t (chars "LEADER"))
      (λ h. returned (ground (arith, str_eq→eq t (chars "ANY"), str_eq→eq t (chars "LEADER"))))
      (λ h. raised)

window-IsSafe : (name : Str) (from many : ℕ) → IsSafe name → IsSafe (window name from many)
unfolding window all_safe plain_char plain_start
window-IsSafe name from many h = search (append-IsSafe, cons-IsSafe, show-IsSafe, h)

direction-IsSafe : (descending : Bool) → IsSafe (direction descending)
unfolding direction all_safe plain_char plain_start
direction-IsSafe true = refl
direction-IsSafe false = refl

append_item :
    (items : List Str) (item : Str)
    → All IsSafe items
    → IsSafe item
    → All IsSafe (items ++ item ∷ [])
append_item [] item h k = (k, tt)
append_item (other ∷ items) item h k = (h.0, append_item items item h.1 k)

perform-IsChecked :
    (call : Call) (s : Select) → IsCall call → IsChecked s → OnOk IsChecked (perform call s)
unfolding perform field lines narrow order_by start limit staleness answered_by
perform-IsChecked (field_call name) s c h =
    OnOk-bind (checked_name (chars "a field") name) λ checked plain.
      let items = append_item s.items checked h.items (is_plain-IsSafe checked plain) in
      returned (ground arith)
perform-IsChecked (lines_call name from many) s c h =
    OnOk-bind (checked_name (chars "a field") name) λ checked plain.
      OnOk-bind (counted_IsU64 from) λ n fits. OnOk-bind (counted_IsU64 many) λ m fits'.
        let item = window-IsSafe checked n m (is_plain-IsSafe checked plain) in
        let items = append_item s.items (window checked n m) h.items item in returned (ground arith)
perform-IsChecked (where_call f) s c h = returned (ground arith)
perform-IsChecked (order_by_call name descending) s c h =
    OnOk-bind (checked_name (chars "a field") name) λ checked plain.
      let item =
        append-IsSafe checked (direction descending) (is_plain-IsSafe checked plain)
          (direction-IsSafe descending) in
      let items = append_item s.order (checked ++ direction descending) h.order item in
      returned (ground arith)
perform-IsChecked (start_call n) s c h =
    OnOk-bind (counted_IsU64 n) λ k fits. returned (ground arith)
perform-IsChecked (limit_call n) s c h =
    OnOk-bind (counted_IsU64 n) λ k fits. returned (ground arith)
perform-IsChecked (staleness_call span) s c h =
    OnOk-bind (spanned span) λ t safe. returned (ground arith)
perform-IsChecked (answered_by_call word) s c h =
    OnOk-bind (checked_answerer word) λ t safe. returned (ground arith)

perform_all-IsChecked :
    (calls : List Call) (s : Select)
    → All IsCall calls
    → IsChecked s
    → OnOk IsChecked (perform_all calls s)
unfolding perform_all
perform_all-IsChecked [] s c h = returned h
perform_all-IsChecked (call ∷ calls) s c h =
    OnOk-bind (perform-IsChecked call s c.0 h) λ s' h'. perform_all-IsChecked calls s' c.1 h'

select-IsChecked : (name : Str) → OnOk IsChecked (select name)
unfolding select
select-IsChecked name =
    OnOk-bind (checked_name (chars "a table") name) λ checked plain. returned (ground arith)

-- A `Select` that was built by any calls of its methods holds a plain table name, filters whose
-- names are plain, counts that fit 64 bits, and no text but safe characters.
pub built-IsChecked :
    (name : Str) (calls : List Call) (s : Select)
    → All IsCall calls
    → bind (select name) (perform_all calls) ≡ ok s
    → IsChecked s
built-IsChecked name calls s c h =
    OnOk-apply (OnOk-bind (select-IsChecked name) λ s' h'. perform_all-IsChecked calls s' c h') h

projection-IsSafe : (items : List Str) → All IsSafe items → IsSafe (projection items)
unfolding projection all_safe plain_char plain_start
projection-IsSafe [] h = refl
projection-IsSafe (item ∷ items) h = join_with-IsSafe (chars ", ") (item ∷ items) refl h

clause-IsSafe :
    (word : Str) (t : Option Str) → IsSafe word → OnSome IsSafe t → IsSafe (clause word t)
unfolding clause
clause-IsSafe word none w h = nil-IsSafe
clause-IsSafe word (some t) w h = append-IsSafe word t w h

shown-IsSafe : (n : Option ℕ) → OnSome IsSafe (shown n)
unfolding shown
shown-IsSafe none = tt
shown-IsSafe (some n) = show-IsSafe n

order_clause-IsSafe : (fields : List Str) → All IsSafe fields → IsSafe (order_clause fields)
unfolding order_clause all_safe plain_char plain_start
order_clause-IsSafe [] h = refl
order_clause-IsSafe (field ∷ fields) h =
    append-IsSafe (chars " ORDER BY ") (join_with (chars ", ") (field ∷ fields)) refl
      (join_with-IsSafe (chars ", ") (field ∷ fields) refl h)

where_clause-IsSafe : (f : Option Filter) → OnSome IsNamed f → IsSafe (where_clause f).0
unfolding where_clause numbered all_safe plain_char plain_start
where_clause-IsSafe none h = refl
where_clause-IsSafe (some f) h =
    let rendered : render_filter f [] ≡ (filter_text 0 f, numbered 0 (values f)) =
      render_filter-numbered f [] in
    rw rendered (append-IsSafe (chars " WHERE ") (filter_text 0 f) refl (filter_text-IsSafe 0 f h))

head_clauses-IsSafe : (s : Select) → IsChecked s → IsSafe (head_clauses s)
unfolding head_clauses all_safe plain_char plain_start
head_clauses-IsSafe s h =
    let items = projection-IsSafe s.items h.items in
    let table = is_plain-IsSafe s.table h.table in search (append-IsSafe, cons-IsSafe, items, table)

tail_clauses-IsSafe : (s : Select) → IsChecked s → IsSafe (tail_clauses s)
unfolding tail_clauses all_safe plain_char plain_start
tail_clauses-IsSafe s h =
    let order = order_clause-IsSafe s.order h.order in
    let first = clause-IsSafe (chars " START ") (shown s.first) refl (shown-IsSafe s.first) in
    let most = clause-IsSafe (chars " LIMIT ") (shown s.most) refl (shown-IsSafe s.most) in
    let bound = clause-IsSafe (chars " STALENESS ") s.freshness refl h.freshness in
    let answerer = clause-IsSafe (chars " ANSWERED BY ") s.answerer refl h.answerer in
    search (append-IsSafe, order, first, most, bound, answerer)

one_statement :
    (before behind : Str) (middle : Str × Binder)
    → IsSafe before
    → IsSafe behind
    → IsSafe middle.0
    → (body : Str) × IsSafe body × ((finished before behind middle).0 ≡ body ++ chars ";")
unfolding finished
one_statement before behind (t, binder) b e m = (
  before ++ (t ++ behind),
  append-IsSafe before (t ++ behind) b (append-IsSafe t behind m e),
  refl,
)

-- The script of a `Select` that was built by any calls of its methods is one statement: safe
-- characters, among them no quote, no semicolon and no brace, and the semicolon that ends it. So no
-- text that a caller gave opened a string or ended the statement.
pub render_select-IsSafe :
    (name : Str) (calls : List Call) (s : Select)
    → All IsCall calls
    → bind (select name) (perform_all calls) ≡ ok s
    → (body : Str) × IsSafe body × ((render_select s).0 ≡ body ++ chars ";")
unfolding render_select
render_select-IsSafe name calls s c h =
    let checked = built-IsChecked name calls s c h in
    one_statement (head_clauses s) (tail_clauses s) (where_clause s.filter)
      (head_clauses-IsSafe s checked) (tail_clauses-IsSafe s checked)
      (where_clause-IsSafe s.filter checked.filter)

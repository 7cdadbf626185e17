-- ===== src/Queue/Statements.antt =====
-- `_Statements` of queue.py. A delay is given in the whole milliseconds that `int(after * 1000)` is.
use tessaridb_sdk_python.Prelude.{
  ℕ, suc, ℤ, pos, negsuc, ◌&&◌, Option, some, [], ◌++◌, leb, if◌then◌else◌,
}
use tessaridb_sdk_python.Result.{Str, Result, ok, err, builder, not_a_count, bind}
use tessaridb_sdk_python.Text.{chars, show, show_int}
use tessaridb_sdk_python.Query.Names.{check_name}
use tessaridb_sdk_python.Query.Filter.{Filter, Binder}
use tessaridb_sdk_python.Query.Statement.{where_clause}
use tessaridb_sdk_python.Worker.Names.{check_worker, tenancy}

abbrev pub ceiling : ℕ
ceiling = 500

-- What the constructor keeps.
pub record Statements : Type 0 where
  pub before : Str
  pub queue : Str
  pub worker : Str

unfoldable pub statements : Str → Str → Str → Str → Result Statements
unfolding tenancy
statements namespace database queue worker = bind (check_name (chars "a namespace") namespace) λ n.
    bind (check_name (chars "a database") database) λ d.
      bind (check_name (chars "a queue") queue) λ q.
        bind (check_worker (chars "a worker") worker)
          λ w. ok (record { before = tenancy n d; queue = q; worker = w })

-- The text around a filter, which may be none.
unfoldable pub claimed : Statements → ℕ → Str × Binder → Str × Binder
claimed w count (narrowed, binder) = (
  w.before
      ++ (chars "USE CONSUMER '"
          ++ (w.worker
              ++ (chars "'; CLAIM "
                  ++ (show count ++ (chars " FROM " ++ (w.queue ++ (narrowed ++ chars ";"))))))),
  binder,
)

unfoldable pub claim_statement : Statements → ℤ → Option Filter → Result (Str × Binder)
unfolding claimed
claim_statement w (pos count) filter =
    if leb 1 count && leb count ceiling
    then ok (claimed w count (where_clause filter))
    else err (builder (not_a_count (show count)))
claim_statement w (negsuc n) filter = err (builder (not_a_count (show_int (negsuc n))))

unfoldable pub done_statement : Statements → Str → Str
done_statement w identity =
    w.before ++ (chars "DELETE " ++ (w.queue ++ (chars ":" ++ (identity ++ chars ";"))))

-- `f" {word} {millis}ms"`, if there is a positive delay.
unfoldable pub delay_tail : Str → Option ℤ → Str
delay_tail word (some (pos (suc n))) = word ++ (show (suc n) ++ chars "ms")
delay_tail word _ = []

unfoldable pub release_statement : Statements → Str → Option ℤ → Str
unfolding delay_tail
release_statement w identity after =
    w.before
    ++ (chars "RELEASE "
        ++ (w.queue
            ++ (chars ":"
                ++ (identity
                    ++ (chars " FOR CONSUMER '"
                        ++ (w.worker
                            ++ (chars "'"
                                ++ (delay_tail (chars " NOT BEFORE ") after ++ chars ";"))))))))

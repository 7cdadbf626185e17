-- ===== src/Http/Health.antt =====
-- `read_health` of health.py.
use tessaridb_sdk_python.Prelude.{ℤ, pos, [], if◌then◌else◌}
use tessaridb_sdk_python.Result.{Result, ok, err, bind, malformed}
use tessaridb_sdk_python.Dict.{dict_get}
use tessaridb_sdk_python.Text.{chars}
use tessaridb_sdk_python.Json.Node.{Node, number, string, Python, is_word, gettable}
use tessaridb_sdk_python.Json.Geometry.{required}
use tessaridb_sdk_python.Script.Reading.{get_default, to_int}

-- The complaint is what the body holds.
pub data Health : Type 0 where
  healthy : ℤ → Health
  unwell : ℤ → ℤ → Node → Health
  leaving : Health

module _ (py : Python) where
  unfoldable pub read_health : Node → Result Health
  unfolding to_int get_default
  read_health body = bind (gettable body) λ items.
      let status = dict_get (chars "status") items in
      if is_word status (chars "ok")
      then bind (bind (required (chars "committed") items) (to_int py)) (λ n. ok (healthy n))
      else if is_word status (chars "unwell")
      then bind (bind (required (chars "committed") items) (to_int py)) (λ n.
        bind (to_int py (get_default (chars "background_errors") (number (pos 0)) items))
          (λ errors. ok (unwell n errors (get_default (chars "complaint") (string []) items))))
      else if is_word status (chars "leaving")
      then ok leaving
      else err malformed

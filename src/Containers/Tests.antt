-- ===== src/Containers/Tests.antt =====
-- Concrete statements of containers.
use tessaridb_sdk_python.Prelude.{◌≡◌, refl, pos, true, false, List, [], ◌∷◌}
use tessaridb_sdk_python.Value.{Value, integer, text, bool}
use tessaridb_sdk_python.Text.{chars, show, join_with}
use tessaridb_sdk_python.Worker.Names.{tenancy}
use tessaridb_sdk_python.Cache.Statements.{Statements, keyed, at_key, given}
use tessaridb_sdk_python.Containers.Statements.{
  end_text, value_names, give_values, numbered_statement, list_push_statement,
}

abbrev space : Statements
space = record { before = tenancy (chars "ns") (chars "db"); space = chars "cache" }

abbrev two_values : List Value
two_values = integer (pos 5) ∷ text (chars "a") ∷ []

abbrev other_values : List Value
other_values = bool true ∷ bool false ∷ []

list_push_statement-two :
    (list_push_statement space (chars "q") two_values true).0
    ≡ chars "USE NAMESPACE ns; USE DATABASE db; LIST PUSH cache:$k FRONT $v0, $v1;"
unfolding list_push_statement numbered_statement end_text value_names give_values keyed at_key given
    show join_with tenancy
list_push_statement-two = refl

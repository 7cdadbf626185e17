-- ===== src/Consumer/Tests.antt =====
-- Statements of a consumer at concrete names.
use tessaridb_sdk_python.Prelude.{◌≡◌, refl, [], ◌∷◌, pos, some}
use tessaridb_sdk_python.Value.{integer}
use tessaridb_sdk_python.Text.{chars, show, join_with}
use tessaridb_sdk_python.Query.Filter.{reference}
use tessaridb_sdk_python.Query.Binding.{numbered}
use tessaridb_sdk_python.Worker.Names.{tenancy}
use tessaridb_sdk_python.Consumer.Statements.{Statements, nack_statement, settle_statement}
use tessaridb_sdk_python.Consumer.Numbered.{settle_statement-numbered}

abbrev group : Statements
group = record {
  before = tenancy (chars "ns") (chars "db");
  topic = chars "mail";
  group = chars "g.1";
}

nack_text :
    (nack_statement group (pos 4 ∷ pos 9 ∷ []) (some (pos 250))).0
    ≡ chars
        "USE NAMESPACE ns; USE DATABASE db; NACK mail FOR CONSUMER 'g.1' AT $p0, $p1 DELAY 250ms;"
unfolding nack_statement tenancy reference show join_with
nack_text = refl

settle_statement-numbered_example :
    ((settle_statement group (chars "ACK") (pos 4 ∷ pos 9 ∷ []) []).1
      ≡ numbered 0 (integer (pos 4) ∷ integer (pos 9) ∷ []))
    × ((settle_statement group (chars "ACK") (pos 4 ∷ pos 9 ∷ []) []).0
        ≡ (settle_statement group (chars "ACK") (pos 1 ∷ pos 2 ∷ []) []).0)
settle_statement-numbered_example =
    settle_statement-numbered group (chars "ACK") [] (pos 4 ∷ pos 9 ∷ []) (pos 1 ∷ pos 2 ∷ []) refl

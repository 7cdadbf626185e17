-- ===== src/Script/Outcome.antt =====
-- The outcomes of script.py. Where the code keeps a part of the JSON as it is, it is a node.
use tessaridb_sdk_python.Prelude.{ℤ, Bool, Option, none, List}
use tessaridb_sdk_python.Result.{Str}
use tessaridb_sdk_python.Json.Node.{Node}
use tessaridb_sdk_python.Json.Kinds.{Kind, Held}

-- `Reading`: the kind of the values, if one was declared.
pub record Reading : Type 0 where
  pub declared_kind : Option Kind

unfoldable pub undeclared : Reading
undeclared = record { declared_kind = none }

-- The exactness of a plan.
pub data Claim : Type 0 where
  exact_claim unstated_claim : Claim
  inexact_claim : Node → Claim

pub record Plan : Type 0 where
  pub access : Node
  pub exactness : Claim
  pub details : List (Str × Node)

pub record ScriptRow : Type 0 where
  pub identity : Node
  pub value : Held

pub record ScriptNote : Type 0 where
  pub kind : Node
  pub message : Node

pub record ScriptCorrection : Type 0 where
  pub typed : Node
  pub instead : Node

pub data ScriptSuggestion : Type 0 where
  never_consulted nothing_near : ScriptSuggestion
  corrected : List ScriptCorrection → ScriptSuggestion

pub record ScriptRecords : Type 0 where
  pub path : Str
  pub plan : Plan
  pub rows : List ScriptRow
  pub notes : List ScriptNote
  pub only : Bool
  pub suggestion : ScriptSuggestion

pub data ScriptOutcome : Type 0 where
  script_done script_unknown : ScriptOutcome
  script_value : Held → ScriptOutcome
  script_keys : List Node → ScriptOutcome
  script_removed : ℤ → ScriptOutcome
  script_records : ScriptRecords → ScriptOutcome

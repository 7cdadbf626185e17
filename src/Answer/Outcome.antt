-- ===== src/Answer/Outcome.antt =====
-- outcome.py: what an answer says.
use tessaridb_sdk_python.Prelude.{ℕ, Bool, List}
use tessaridb_sdk_python.Result.{Bytes, Str}
use tessaridb_sdk_python.Value.{Value}

-- The words of `ACCESS_PATHS`, in their order.
pub data AccessPath : Type 0 where
  record_path index scan ordered approximate graph join materialised span : AccessPath

pub record Note : Type 0 where
  pub kind : Str
  pub message : Str

pub data Exactness : Type 0 where
  exact : Exactness
  inexact : Str → Exactness
  unstated : Exactness

pub record Correction : Type 0 where
  pub typed : Str
  pub instead : Str

pub data Suggestion : Type 0 where
  not_consulted complete : Suggestion
  corrections : List Correction → Suggestion

pub record Row : Type 0 where
  pub identity : Str
  pub value : Value

-- `dict[int, str]`, oldest first.
abbrev pub Names : Type 0
Names = List (ℕ × Str)

pub record Records : Type 0 where
  pub path : AccessPath
  pub names : Names
  pub rows : List Row
  pub notes : List Note
  pub only : Bool
  pub exactness : Exactness
  pub suggestion : Suggestion

pub data Outcome : Type 0 where
  done : Outcome
  records : Records → Outcome
  value_outcome : Names → Value → Outcome
  keys : List Str → Outcome
  removed : ℕ → Outcome
  unknown_outcome : ℕ → Bytes → Outcome

-- ===== src/Scankit.antt =====
-- The documents of the scankit module that the code reads and writes: a finding, a result and an
-- assessment, by the fields that the repository uses (frozen in cmd/testdata/frozen/assessment.json).
use pepin.Prelude.{String, Bool, true, false, Option, List, Dict}

-- The statuses that the code names, `exempted` of internal/exempt among them. `other` is any further
-- value that an assessment read from a file may hold.
pub data Status : Type 0 where
  pass fail not_applicable not_evaluated error exempted : Status
  other : String → Status

pub record Reference : Type 0 where
  pub framework : String
  pub id : String

pub record Evidence : Type 0 where
  pub observed : String
  pub attribute : String
  pub source : String

pub record Waiver : Type 0 where
  pub justification : String
  pub until : String

pub record Result : Type 0 where
  pub control : String
  pub title : String
  pub status : Status
  pub severity : String
  pub subject : String
  pub evidence : Evidence
  pub references : List Reference
  pub remediation : String
  pub labels : Dict String
  pub waiver : Option Waiver

pub record Target : Type 0 where
  pub id : String
  pub provider : String
  pub region : String
  pub platform : String

pub record Run : Type 0 where
  pub source : String
  pub target : Target

pub record Assessment : Type 0 where
  pub run : Run
  pub results : List Result

pub record Finding : Type 0 where
  pub code : String
  pub title : String
  pub message : String
  pub severity : String
  pub subject : String
  pub remediation : String
  pub labels : Dict String

abbrev pub is_fail : Status → Bool
is_fail Status.fail = true
is_fail _ = false

abbrev pub is_pass : Status → Bool
is_pass Status.pass = true
is_pass _ = false

abbrev pub is_exempted : Status → Bool
is_exempted Status.exempted = true
is_exempted _ = false

abbrev pub is_not_evaluated : Status → Bool
is_not_evaluated Status.not_evaluated = true
is_not_evaluated _ = false

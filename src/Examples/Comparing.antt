-- ===== src/Examples/Comparing.antt =====
-- Two scans of the tenant, before and after a volume was encrypted and a server became unreadable.
use pepin.Prelude.{◌≡◌, refl, List, [], ◌∷◌, none, str_dec, String}
use pepin.Scankit.{Status, Result}
use pepin.Assess.Diff.{ResultChange, DiffSummary, compare_results, done}
use pepin.Assess.Diff.Report.{Compares, compare_results-Compares}
use pepin.Examples.Data.{volume_code, server_code}

abbrev result_of : String → String → Status → Result
result_of control subject status = record {
  control = control;
  title = "";
  status = status;
  severity = "high";
  subject = subject;
  evidence = record { observed = ""; attribute = ""; source = "live" };
  references = [];
  remediation = "";
  labels = [];
  waiver = none;
}

abbrev before : List Result
before = result_of volume_code "vol-1" Status.fail ∷ result_of server_code "vm-1" Status.pass ∷ []

abbrev after : List Result
after =
    result_of volume_code "vol-1" Status.pass
    ∷ result_of server_code "vm-1" Status.not_evaluated
    ∷ []

compare_results-Compares_example :
    (out : List ResultChange × DiffSummary) × (compare_results before after ≡ done out)
    × Compares before after out.0 out.1
unfolding str_dec
compare_results-Compares_example = compare_results-Compares before after refl refl

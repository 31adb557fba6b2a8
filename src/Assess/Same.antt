-- ===== src/Assess/Same.antt =====
-- What the passes behind `Build` leave alone in a result.
use pepin.Prelude.{◌≡◌, ◌∙◌}
use pepin.Scankit.{Result}

-- The result is about the same control and subject, and says the same of both.
pub record SameResult (old new : Result) : Type 0 where
  pub control : new.control ≡ old.control
  pub title : new.title ≡ old.title
  pub severity : new.severity ≡ old.severity
  pub subject : new.subject ≡ old.subject
  pub remediation : new.remediation ≡ old.remediation

pub SameResult-trans : (x y z : Result) → SameResult x y → SameResult y z → SameResult x z
SameResult-trans x y z p q = record {
  control = q.control ∙ p.control;
  title = q.title ∙ p.title;
  severity = q.severity ∙ p.severity;
  subject = q.subject ∙ p.subject;
  remediation = q.remediation ∙ p.remediation;
}

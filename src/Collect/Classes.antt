-- ===== src/Collect/Classes.antt =====
-- When an error has a class.
use pepin.Prelude.{
  ℕ, ◌≡◌, String, Bool, true, false, ◌&&◌, Option, none, some, List, arith, ltb, Option-cases, inl,
  inr,
}
use pepin.Model.Collection.{CollectionOutcome}
use pepin.Collect.Status.{
  HttpError, CollectError, outcome_for_status, outcome_for_api_error_code, or_else, classify,
}

abbrev pub is_unset : CollectionOutcome → Bool
is_unset CollectionOutcome.unset = true
is_unset o = false

is_unset-or_else : (a b : CollectionOutcome) → is_unset (or_else a b) ≡ (is_unset a && is_unset b)
is_unset-or_else a b = ground arith

is_unset-outcome_for_status : (n : ℕ) → is_unset (outcome_for_status n) ≡ ltb n 400
unfolding outcome_for_status
is_unset-outcome_for_status n = ground arith

module _ (outscale : String → Option (List (String × String)))
    (scaleway : String → Option String) where
  -- The refusals that get no class: an HTTP response below 400 whose body carries no documented code.
  abbrev pub is_unclassed : Option HttpError → Bool
  is_unclassed none = false
  is_unclassed (some he) =
      ltb he.status 400 && is_unset (outcome_for_api_error_code outscale scaleway he.body)

  -- Every error has a class but one kind: an HTTP refusal with a status below 400 and a body without
  -- a documented code gets the empty class, the one of a complete unit. Every other error, whatever
  -- its code, its status or its cause, gets one.
  pub classify_unset_iff :
      (e : CollectError) → is_unset (classify outscale scaleway (some e)) ≡ is_unclassed e.http
  unfolding classify
  classify_unset_iff e = elim (Option-cases (e.http)) [
    | inl absent ↦ ground (arith, absent)
    | inr (he, found) ↦ ground (
      arith,
      found,
      is_unset-outcome_for_status he.status,
      is_unset-or_else (outcome_for_api_error_code outscale scaleway he.body)
          (outcome_for_status he.status),
    )
  ]

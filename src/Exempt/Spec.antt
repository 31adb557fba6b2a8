-- ===== src/Exempt/Spec.antt =====
-- What an exemption is meant to do, one result at a time and without the piles: the first one in the
-- file that is in force and covers a deviation sets it aside.
use pepin.Prelude.{
  ℕ, String, Bool, true, false, not, ◌&&◌, ◌||◌, Option, none, some, List, [], ◌∷◌, if◌then◌else◌,
  ◌==◌, has,
}
use pepin.Scankit.{Result, is_fail}
use pepin.Exempt.Defs.{Exemption, covers, is_expired, exempt_result}

abbrev pub is_found : Option Exemption → Bool
is_found none = false
is_found (some e) = true

module _ (parse : String → String → Option ℕ) (now : ℕ) (controls known : List String) where
  -- The control exists, the resource does if one is named, and the date has not passed.
  abbrev pub in_force : Exemption → Bool
  in_force e =
      has controls e.control
      && ((e.resource == "" || has known e.resource) && not (is_expired parse now e))

  unfoldable pub first_covering : List Exemption → String → String → Option Exemption
  first_covering [] control subject = none
  first_covering (e ∷ es) control subject =
      let rest = first_covering es control subject in
      if in_force e && covers e control subject then some e else rest

  unfoldable pub exempted_result : List Exemption → Result → Result
  unfolding first_covering
  exempted_result es r =
      if is_fail r.status
      then elim (first_covering es r.control r.subject) [ none ↦ r | some e ↦ exempt_result e r ]
      else r

  -- Some exemption in force covers the deviation.
  abbrev pub sets_aside : List Exemption → Result → Bool
  sets_aside es r = is_fail r.status && is_found (first_covering es r.control r.subject)

-- ===== src/Assess/Degrade/Controls.antt =====
-- Which controls an incomplete collection degrades.
use pepin.Prelude.{
  ◌≡◌, refl, String, Bool, true, false, ◌&&◌, Option, none, some, List, [], ◌∷◌, arith, inl, inr,
  Bool-cases, if◌then◌else◌, Dict, lookup, has, any_by,
}
use pepin.Model.Collection.{CollectionUnit, Collection, incomplete_types}
use pepin.Model.Collection.Incomplete.{fails_on, incomplete_types_iff}
use pepin.Assess.Attributes.{is_nil, lookup_of_nil}
use pepin.Assess.Degrade.Defs.{types_read, first_incomplete, degraded_from, degraded_controls}

abbrev pub is_some : Option CollectionUnit → Bool
is_some none = false
is_some (some u) = true

-- Some unit that feeds the type was attempted and did not complete.
abbrev pub unread : Collection → String → Bool
unread c t = any_by (fails_on t) c.units

unread-eq_is_some :
    (c : Collection) (t : String) → is_some (lookup t (incomplete_types c)) ≡ unread c t
unread-eq_is_some c t = ground (arith, incomplete_types_iff t c)

module _ (c : Collection) where
  is_some-first_incomplete :
      (ts : List String) → is_some (first_incomplete (incomplete_types c) ts) ≡ any_by (unread c) ts
  unfolding first_incomplete
  is_some-first_incomplete [] = refl
  is_some-first_incomplete (t ∷ ts) =
      ground (arith, unread-eq_is_some c t, is_some-first_incomplete ts)

  lookup-degraded_from :
      (inc : Dict CollectionUnit) (k : String) (tagged codes : List String)
      → lookup k (degraded_from inc tagged codes)
        ≡ (if has codes k then first_incomplete inc (types_read tagged k) else none)
  unfolding degraded_from
  lookup-degraded_from inc k tagged [] = refl
  lookup-degraded_from inc k tagged (code ∷ codes) =
      ground (arith, lookup-degraded_from inc k tagged codes)

  none_unread :
      (ts : List String) → is_nil (incomplete_types c) ≡ true → any_by (unread c) ts ≡ false
  none_unread [] e = refl
  none_unread (t ∷ ts) e =
      ground
        (arith, unread-eq_is_some c t, lookup_of_nil (incomplete_types c) t e, none_unread ts e)

  -- A control is degraded exactly when it is in the scope of the scan and one of the types that it
  -- reads is fed by a unit that was attempted and did not complete. The tagging control reads the
  -- types of the policy.
  pub degraded_controls_iff :
      (scope tagged : List String) (k : String)
      → is_some (lookup k (degraded_controls c scope tagged))
        ≡ (has scope k && any_by (unread c) (types_read tagged k))
  unfolding degraded_controls
  degraded_controls_iff scope tagged k = elim (Bool-cases (is_nil (incomplete_types c))) [
    | inl e ↦ rw e (ground (arith, none_unread (types_read tagged k) e))
    | inr e ↦
        rw (e, lookup-degraded_from)
          (ground (arith, is_some-first_incomplete (types_read tagged k)))
  ]

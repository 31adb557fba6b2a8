-- ===== src/Exempt/Effect.antt =====
-- When `Apply` reports that an exemption was applied.
use pepin.I18n.{Lang}
use pepin.Prelude.{
  ℕ, ◌+◌, ◌≡◌, refl, sym, ◌∙◌, String, Bool, true, false, ◌&&◌, ◌||◌, Option, List, [], ◌∷◌, ◌++◌,
  map, arith, inl, inr, Option-cases, any_by, count_by, ap, filter_by, count_by-append,
  count_by-sort_by,
}
use pepin.Scankit.{Result, Assessment, is_fail}
use pepin.Exempt.Defs.{
  Exemption, Effect, Candidate, Pile, set_aside, sort_piles, pile, apply_one, apply_from,
  known_subjects, apply, is_used, applied_record, is_effect, is_applied, record_le, positive,
}
use pepin.Exempt.Spec.{first_covering, is_found, sets_aside}
use pepin.Exempt.Statuses.{
  exs, first_in, first_in-sort_piles, apply_one_lem, take_match-none, take_match-some,
}

abbrev hits : List Exemption → Result → Bool
hits es r = is_fail r.status && is_found (first_in es r.control r.subject)

apply_one-is_used :
    (cs : List Candidate) (r : Result)
    → any_by is_used (apply_one cs r).0 ≡ (any_by is_used cs || hits (exs cs) r)
unfolding apply_one
apply_one-is_used cs r = elim (Option-cases (first_in (exs cs) r.control r.subject)) [
  | inl absent ↦ let e = take_match-none cs r.control r.subject absent in ground (arith, e, absent)
  | inr (ex, present) ↦
      let t = take_match-some cs r.control r.subject ex present in
      ground (arith, t.found, present, t.used)
]

apply_from-is_used :
    (cs : List Candidate) (rs : List Result)
    → any_by is_used (apply_from cs rs).0 ≡ (any_by is_used cs || any_by (hits (exs cs)) rs)
unfolding apply_from
apply_from-is_used cs [] = ground arith
apply_from-is_used cs (r ∷ rs) =
    let same = (apply_one_lem cs r).1 in
    apply_from-is_used (apply_one cs r).0 rs ∙ rw same (ground (arith, apply_one-is_used cs r))

count-applied_record :
    (cs : List Candidate)
    → positive (count_by (is_effect Effect.applied) (map applied_record (filter_by is_used cs)))
      ≡ any_by is_used cs
count-applied_record [] = refl
count-applied_record (c ∷ cs) = ground (arith, count-applied_record cs)

module _ (l : Lang) (parse : String → String → Option ℕ) (now : ℕ)
    (controls known : List String) where
  abbrev not_applied : Pile → Bool
  not_applied (set_aside Effect.applied _) = false
  not_applied p = true

  not_applied-pile : (e : Exemption) → not_applied (pile l parse now controls known e) ≡ true
  unfolding pile
  not_applied-pile e = ground arith

  fresh_piles :
      (es : List Exemption)
      → (any_by is_used (sort_piles l parse now controls known es).1 ≡ false)
        × (count_by (is_effect Effect.applied) (sort_piles l parse now controls known es).0 ≡ 0)
  unfolding sort_piles
  fresh_piles [] = (refl, refl)
  fresh_piles (e ∷ es) = ground (arith, not_applied-pile e, fresh_piles es)

  hits-sort_piles :
      (es : List Exemption) (rs : List Result)
      → any_by (hits (exs (sort_piles l parse now controls known es).1)) rs
        ≡ any_by (sets_aside parse now controls known es) rs
  hits-sort_piles es [] = refl
  hits-sort_piles es (r ∷ rs) = ground (
    arith,
    first_in-sort_piles l parse now controls known es r.control r.subject,
    hits-sort_piles es rs,
  )

none_aside :
    (parse : String → String → Option ℕ) (now : ℕ) (controls known : List String) (rs : List Result)
    → any_by (sets_aside parse now controls known []) rs ≡ false
unfolding first_covering
none_aside parse now controls known [] = refl
none_aside parse now controls known (r ∷ rs) =
    ground (arith, none_aside parse now controls known rs)

positive_add : (m n : ℕ) → m ≡ 0 → positive (m + n) ≡ positive n
positive_add m n h = ground arith

-- The report counts an applied exemption exactly when some exemption in force covers some deviation
-- of the assessment. An expired or orphan exemption, or one whose control does not fail, is not
-- reported as applied.
pub is_applied-apply :
    (l : Lang) (parse : String → String → Option ℕ) (sha256 : String → String) (a : Assessment)
    (es : List Exemption) (now : ℕ) (subjects controls : List String)
    → is_applied (apply l parse sha256 a es now subjects controls).1
      ≡ any_by (sets_aside parse now controls (known_subjects subjects a.results) es) a.results
unfolding apply is_applied
is_applied-apply l parse sha256 a [] now subjects controls =
    sym (none_aside parse now controls (known_subjects subjects a.results) a.results)
is_applied-apply l parse sha256 a (e ∷ es) now subjects controls =
    let known = known_subjects subjects a.results in
    let piles = sort_piles l parse now controls known (e ∷ es) in
    let used = filter_by is_used (apply_from piles.1 a.results).0 in
    ap positive (
      count_by-sort_by record_le (is_effect Effect.applied) (piles.0 ++ map applied_record used)
      ∙ count_by-append (is_effect Effect.applied) piles.0 (map applied_record used))
    ∙ positive_add (count_by (is_effect Effect.applied) piles.0) _
        (fresh_piles l parse now controls known (e ∷ es)).1
    ∙ count-applied_record (apply_from piles.1 a.results).0
    ∙ apply_from-is_used piles.1 a.results
    ∙ rw (fresh_piles l parse now controls known (e ∷ es)).0
        (hits-sort_piles l parse now controls known (e ∷ es) a.results)

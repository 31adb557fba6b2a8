-- ===== src/Assess/Diff/Report.antt =====
-- What `compareResults` returns for two assessments.
use mathlib.Core.Path.{fun_ext, subst}
use pepin.Prelude.{
  ◌≡◌, refl, sym, ◌∙◌, String, Bool, true, false, not, ◌&&◌, Option, none, some, List, [], ◌∷◌,
  arith, any_by, Option-cases, Bool-cases, inl, inr, All,
}
use pepin.Scankit.{Status, Result, is_pass, is_fail}
use pepin.Assess.Diff.Defs.{
  done, Kind, ResultChange, DiffSummary, no_change, Key, Index, find, is_there, is_visible,
  same_status, change_at, add_kind, changes_from, ordered_keys, compare_results, result_change_kind,
}
use pepin.Assess.Diff.Indexing.{result_of, is_keyed, entries, find-entries, index_results-done}
use pepin.Assess.Diff.Changes.{
  differs, is_change, is_kind, Summed, any_changes, any_ordered, changes_from-Summed,
}

-- The result is there, with such a status.
abbrev pub has_status : (Status → Bool) → Option Result → Bool
has_status p none = false
has_status p (some r) = p r.status

abbrev hidden : Status → Bool
hidden st = not (is_visible st)

-- The kind of a change, against the two results at its key.
pub record Justified (old new : Option Result) (x : ResultChange) : Type 0 where
  pub fixed : is_kind Kind.fixed x ≡ (has_status is_fail old && has_status is_pass new)
  pub regressed : is_kind Kind.regressed x ≡ (has_status is_pass old && has_status is_fail new)
  pub lost : is_kind Kind.visibility_lost x ≡ (has_status is_visible old && has_status hidden new)
  pub restored :
      is_kind Kind.visibility_restored x ≡ (has_status hidden old && has_status is_visible new)
  pub added : is_kind Kind.added x ≡ not (is_there old)
  pub removed : is_kind Kind.removed x ≡ not (is_there new)

-- At the keys of a change.
abbrev pub JustifiedBy :
    (String → String → Option Result) → (String → String → Option Result) → ResultChange → Type 0
JustifiedBy old new x = Justified (old x.control x.subject) (new x.control x.subject) x

abbrev OnChange : Option Result → Option Result → String → String → Option ResultChange → Type 0
OnChange old new a b none = Unit
OnChange old new a b (some x) = Justified old new x × (x.control ≡ a) × (x.subject ≡ b)

change_at-Justified :
    (old new : Option Result) (a b : String) → OnChange old new a b (change_at a b old new)
unfolding change_at result_change_kind
change_at-Justified none none a b = tt
change_at-Justified none (some y) a b = (ground arith, refl, refl)
change_at-Justified (some x) none a b = (ground arith, refl, refl)
change_at-Justified (some x) (some y) a b = elim (Bool-cases (same_status x.status y.status)) [
  | inl e ↦ rw (e, change_at) tt
  | inr e ↦ rw (e, change_at) (ground (arith, e), refl, refl)
]

Justified-at :
    (old new : String → String → Option Result) (a b : String) (x : ResultChange)
    → Justified (old a b) (new a b) x
    → x.control ≡ a
    → x.subject ≡ b
    → JustifiedBy old new x
Justified-at old new a b x j p q =
    subst (λ c. Justified (old c x.subject) (new c x.subject) x) (sym p)
      (subst (λ s. Justified (old a s) (new a s) x) (sym q) j)

justified_changes :
    (old new : Index) (ks : List Key) (r : DiffSummary)
    → All (JustifiedBy (find old) (find new)) (changes_from old new ks r).0
unfolding changes_from
justified_changes old new [] r = tt
justified_changes old new ((a, b) ∷ ks) r =
    elim (Option-cases (change_at a b (find old a b) (find new a b))) [
      | inl e ↦ rw (e, changes_from) (justified_changes old new ks r)
      | inr (x, e) ↦
          let j : OnChange (find old a b) (find new a b) a b (some x) =
            subst (OnChange (find old a b) (find new a b) a b) e
              (change_at-Justified (find old a b) (find new a b) a b) in
          rw (e, changes_from)
            (
              Justified-at (find old) (find new) a b x j.0 j.1 j.2,
              justified_changes old new ks (add_kind r x.kind),
            )
    ]

-- A report against the two assessments that it compares.
pub record Compares (before after : List Result) (changes : List ResultChange)
    (summary : DiffSummary) : Type 0 where
  pub complete :
      (c s : String)
      → any_by (is_change c s) changes ≡ differs (result_of before c s) (result_of after c s)
  pub justified : All (JustifiedBy (result_of before) (result_of after)) changes
  pub counted : Summed no_change summary changes

find-result_of : (rs : List Result) → find (entries rs) ≡ result_of rs
find-result_of rs = fun_ext (λ c. fun_ext (λ s. find-entries c s rs))

entries-Compares :
    (before after : List Result)
    → (let out =
          changes_from
            (entries before)
            (entries after)
            (ordered_keys (entries before) (entries after))
            no_change in
        Compares before after out.0 out.1)
entries-Compares before after =
    let old = entries before in
    let new = entries after in
    record {
      complete = λ c s.
          any_changes c s old new (ordered_keys old new) no_change
          ∙ ground
              (arith, any_ordered c s old new, find-entries c s before, find-entries c s after);
      justified =
          rw (sym (find-result_of before), sym (find-result_of after))
            (justified_changes old new (ordered_keys old new) no_change);
      counted = changes_from-Summed old new (ordered_keys old new) no_change;
    }

-- The comparison of two assessments, in each of which every result names a control and no two have
-- the control and the subject in common, succeeds, and its report is right: there is a change at a
-- control and a subject exactly when the two results there have different statuses or one of them is
-- missing; a change is `fixed` only from `fail` to `pass`, `regressed` only from `pass` to `fail`, and
-- the loss and the return of visibility, an addition and a removal are named as such and never as
-- a fix; each counter of the summary is the number of the changes of its kind.
pub compare_results-Compares :
    (before after : List Result)
    → is_keyed before ≡ true
    → is_keyed after ≡ true
    → (out : List ResultChange × DiffSummary) × (compare_results before after ≡ done out)
      × Compares before after out.0 out.1
unfolding compare_results
compare_results-Compares before after h k = (
  changes_from (entries before) (entries after) (ordered_keys (entries before) (entries after))
      no_change,
  rw (index_results-done before h, index_results-done after k, compare_results) refl,
  entries-Compares before after,
)

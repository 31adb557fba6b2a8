-- ===== src/Assess/Diff/Changes.antt =====
-- What `compareResults` reports.
use pepin.Prelude.{
  ◌+◌, ◌≡◌, refl, ◌∙◌, String, Bool, true, false, not, ◌&&◌, ◌||◌, Option, none, some, List, [],
  ◌∷◌, ◌++◌, arith, ◌==◌, any_by, count_by, filter_by, any_by-append, any_by-sort_by, Option-cases,
  inl, inr,
}
use pepin.Scankit.{Result}
use pepin.Assess.Diff.Defs.{
  Kind, ResultChange, DiffSummary, Key, is_key, Index, find, is_there, same_status, change_at,
  add_kind, changes_from, key_le, keys_of, is_new, ordered_keys,
}

-- There is no change where both assessments are silent, or where both have one status.
abbrev pub differs : Option Result → Option Result → Bool
differs none none = false
differs (some old) (some new) = not (same_status old.status new.status)
differs old new = true

abbrev pub is_change : String → String → ResultChange → Bool
is_change c s x = c == x.control && s == x.subject

is_there-find :
    (c s : String) (index : Index) → any_by (is_key c s) (keys_of index) ≡ is_there (find index c s)
is_there-find c s [] = refl
is_there-find c s ((k, r) ∷ index) = ground (arith, is_there-find c s index)

any_new :
    (c s : String) (old : Index) (ks : List Key)
    → any_by (is_key c s) (filter_by (is_new old) ks)
      ≡ (any_by (is_key c s) ks && not (is_there (find old c s)))
any_new c s old [] = refl
any_new c s old ((a, b) ∷ ks) = ground (arith, any_new c s old ks)

pub any_ordered :
    (c s : String) (old new : Index)
    → any_by (is_key c s) (ordered_keys old new)
      ≡ (is_there (find old c s) || is_there (find new c s))
unfolding ordered_keys
any_ordered c s old new =
    any_by-sort_by key_le (is_key c s) (keys_of old ++ filter_by (is_new old) (keys_of new))
    ∙ any_by-append (is_key c s) (keys_of old) _
    ∙ ground (arith, is_there-find c s old, is_there-find c s new, any_new c s old (keys_of new))

abbrev is_some_change : Option ResultChange → Bool
is_some_change none = false
is_some_change (some x) = true

abbrev is_change_of : String → String → Option ResultChange → Bool
is_change_of c s none = false
is_change_of c s (some x) = is_change c s x

change_at-differs :
    (a b c s : String) (old new : Option Result)
    → is_change_of c s (change_at a b old new) ≡ (is_key c s (a, b) && differs old new)
unfolding change_at
change_at-differs a b c s none none = ground arith
change_at-differs a b c s none (some y) = ground arith
change_at-differs a b c s (some x) none = ground arith
change_at-differs a b c s (some x) (some y) = ground arith

pub any_changes :
    (c s : String) (old new : Index) (ks : List Key) (summary : DiffSummary)
    → any_by (is_change c s) (changes_from old new ks summary).0
      ≡ (any_by (is_key c s) ks && differs (find old c s) (find new c s))
unfolding changes_from
any_changes c s old new [] summary = refl
any_changes c s old new ((a, b) ∷ ks) summary =
    elim (Option-cases (change_at a b (find old a b) (find new a b))) [
      | inl e ↦
          rw (e, changes_from)
            (ground (
              arith,
              any_changes c s old new ks summary,
              change_at-differs a b c s (find old a b) (find new a b),
            ))
      | inr (x, e) ↦
          rw (e, changes_from)
            (ground (
              arith,
              any_changes c s old new ks (add_kind summary x.kind),
              change_at-differs a b c s (find old a b) (find new a b),
            ))
    ]

abbrev same_kind : Kind → Kind → Bool
same_kind Kind.fixed Kind.fixed = true
same_kind Kind.regressed Kind.regressed = true
same_kind Kind.visibility_lost Kind.visibility_lost = true
same_kind Kind.visibility_restored Kind.visibility_restored = true
same_kind Kind.status_changed Kind.status_changed = true
same_kind Kind.added Kind.added = true
same_kind Kind.removed Kind.removed = true
same_kind _ _ = false

abbrev pub is_kind : Kind → ResultChange → Bool
is_kind k x = same_kind k x.kind

-- The totals behind a loop that started from `r`.
pub record Summed (r out : DiffSummary) (xs : List ResultChange) : Type 0 where
  pub fixed : out.fixed ≡ count_by (is_kind Kind.fixed) xs + r.fixed
  pub regressed : out.regressed ≡ count_by (is_kind Kind.regressed) xs + r.regressed
  pub lost : out.visibility_lost ≡ count_by (is_kind Kind.visibility_lost) xs + r.visibility_lost
  pub restored :
      out.visibility_restored
      ≡ count_by (is_kind Kind.visibility_restored) xs + r.visibility_restored
  pub changed : out.status_changed ≡ count_by (is_kind Kind.status_changed) xs + r.status_changed
  pub added : out.results_added ≡ count_by (is_kind Kind.added) xs + r.results_added
  pub removed : out.results_removed ≡ count_by (is_kind Kind.removed) xs + r.results_removed

pub changes_from-Summed :
    (old new : Index) (ks : List Key) (r : DiffSummary)
    → Summed r (changes_from old new ks r).1 (changes_from old new ks r).0
unfolding changes_from
changes_from-Summed old new [] r = ground arith
changes_from-Summed old new ((a, b) ∷ ks) r =
    elim (Option-cases (change_at a b (find old a b) (find new a b))) [
      | inl e ↦ rw (e, changes_from) (changes_from-Summed old new ks r)
      | inr (x, e) ↦
          let t = changes_from-Summed old new ks (add_kind r x.kind) in
          rw (e, changes_from)
            (record {
              fixed = ground (arith, t.fixed);
              regressed = ground (arith, t.regressed);
              lost = ground (arith, t.lost);
              restored = ground (arith, t.restored);
              changed = ground (arith, t.changed);
              added = ground (arith, t.added);
              removed = ground (arith, t.removed);
            })
    ]

-- ===== src/Assess/Diff/Defs.antt =====
-- internal/assess/diff.go: `compareResults`, over the results of the two assessments. A `resultKey` is
-- a pair of a control and a subject, and the zero value of a status `none`.
use pepin.Prelude.{
  ℕ, suc, String, ◌<>◌, Bool, true, false, not, ◌&&◌, Option, none, some, List, [], ◌∷◌, ◌++◌,
  if◌then◌else◌, ◌==◌, str_le, sort_by, filter_by,
}
use pepin.Scankit.{Status, Result, is_pass, is_fail}

pub data Fallible (A : Type 0) : Type 0 where
  failed : String → Fallible A
  done : A → Fallible A

-- The kinds of a change.
pub data Kind : Type 0 where
  fixed regressed visibility_lost visibility_restored status_changed added removed : Kind

pub record ResultChange : Type 0 where
  pub control : String
  pub subject : String
  pub kind : Kind
  pub before : Option Status
  pub after : Option Status

-- The counts that the results give.
pub record DiffSummary : Type 0 where
  pub fixed : ℕ
  pub regressed : ℕ
  pub visibility_lost : ℕ
  pub visibility_restored : ℕ
  pub status_changed : ℕ
  pub results_added : ℕ
  pub results_removed : ℕ

abbrev pub no_change : DiffSummary
no_change = record {
  fixed = 0;
  regressed = 0;
  visibility_lost = 0;
  visibility_restored = 0;
  status_changed = 0;
  results_added = 0;
  results_removed = 0;
}

abbrev pub Key : Type 0
Key = String × String

abbrev pub is_key : String → String → Key → Bool
is_key control subject k = control == k.0 && subject == k.1

abbrev pub Index : Type 0
Index = List (Key × Result)

-- A read of the map.
abbrev pub find : Index → String → String → Option Result
find [] control subject = none
find ((k, r) ∷ index) control subject =
    if is_key control subject k then some r else find index control subject

abbrev pub is_there : Option Result → Bool
is_there none = false
is_there (some r) = true

-- The loop of `indexResults`. The texts quote the two names as they stand.
unfoldable pub index_from : List Result → Index → Fallible Index
index_from [] index = done index
index_from (r ∷ rs) index =
    let rest = index_from rs (index ++ ((r.control, r.subject), r) ∷ []) in
    if r.control == ""
    then failed "assessment result has an empty control identifier"
    else if is_there (find index r.control r.subject)
    then failed (
        "duplicate assessment result for control \"" <> r.control <> "\" and subject \""
        <> r.subject <> "\"")
    else rest

unfoldable pub index_results : List Result → Fallible Index
unfolding index_from
index_results rs = index_from rs []

-- Two statuses are one string.
abbrev pub same_status : Status → Status → Bool
same_status Status.pass Status.pass = true
same_status Status.fail Status.fail = true
same_status Status.not_applicable Status.not_applicable = true
same_status Status.not_evaluated Status.not_evaluated = true
same_status Status.error Status.error = true
same_status Status.exempted Status.exempted = true
same_status (Status.other s) (Status.other t) = s == t
same_status _ _ = false

abbrev pub is_visible : Status → Bool
is_visible Status.not_evaluated = false
is_visible Status.error = false
is_visible _ = true

-- `resultChangeKind`
unfoldable pub result_change_kind : Status → Status → Kind
result_change_kind before after =
    if is_fail before && is_pass after
    then Kind.fixed
    else if is_pass before && is_fail after
    then Kind.regressed
    else if is_visible before && not (is_visible after)
    then Kind.visibility_lost
    else if not (is_visible before) && is_visible after
    then Kind.visibility_restored
    else Kind.status_changed

-- The body of the loop at one key; `none` is `continue`. A key is in one of the two maps.
unfoldable pub change_at : String → String → Option Result → Option Result → Option ResultChange
unfolding result_change_kind
change_at control subject none none = none
change_at control subject none (some new) = some (record {
  control = control;
  subject = subject;
  kind = Kind.added;
  before = none;
  after = some new.status;
})
change_at control subject (some old) none = some (record {
  control = control;
  subject = subject;
  kind = Kind.removed;
  before = some old.status;
  after = none;
})
change_at control subject (some old) (some new) =
    if same_status old.status new.status
    then none
    else some (record {
      control = control;
      subject = subject;
      kind = result_change_kind old.status new.status;
      before = some old.status;
      after = some new.status;
    })

-- The increments.
abbrev pub add_kind : DiffSummary → Kind → DiffSummary
add_kind s Kind.fixed = record s { fixed = suc s.fixed }
add_kind s Kind.regressed = record s { regressed = suc s.regressed }
add_kind s Kind.visibility_lost = record s { visibility_lost = suc s.visibility_lost }
add_kind s Kind.visibility_restored = record s { visibility_restored = suc s.visibility_restored }
add_kind s Kind.status_changed = record s { status_changed = suc s.status_changed }
add_kind s Kind.added = record s { results_added = suc s.results_added }
add_kind s Kind.removed = record s { results_removed = suc s.results_removed }

unfoldable pub changes_from :
    Index → Index → List Key → DiffSummary → List ResultChange × DiffSummary
unfolding change_at
changes_from old new [] summary = ([], summary)
changes_from old new ((c, s) ∷ ks) summary = elim (change_at c s (find old c s) (find new c s)) [
  | none ↦ changes_from old new ks summary
  | some change ↦
      let (changes, total) = changes_from old new ks (add_kind summary change.kind) in
      (change ∷ changes, total)
]

abbrev pub key_le : Key → Key → Bool
key_le a b = if a.0 == b.0 then str_le a.1 b.1 else str_le a.0 b.0

abbrev pub keys_of : Index → List Key
keys_of [] = []
keys_of ((k, _) ∷ index) = k ∷ keys_of index

abbrev pub is_new : Index → Key → Bool
is_new old k = not (is_there (find old k.0 k.1))

-- The keys of both maps, once each and sorted.
unfoldable pub ordered_keys : Index → Index → List Key
unfolding sort_by
ordered_keys old new = sort_by key_le (keys_of old ++ filter_by (is_new old) (keys_of new))

unfoldable pub compare_results :
    List Result → List Result → Fallible (List ResultChange × DiffSummary)
unfolding index_results changes_from ordered_keys
compare_results before after = elim (index_results before) [
  | failed e ↦ failed ("indexing before assessment: " <> e)
  | done old ↦ elim (index_results after) [
    | failed e ↦ failed ("indexing after assessment: " <> e)
    | done new ↦ done (changes_from old new (ordered_keys old new) no_change)
  ]
]

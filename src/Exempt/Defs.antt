-- ===== src/Exempt/Defs.antt =====
-- internal/exempt/exempt.go and apply.go. `time.Parse` and the SHA-256 digest are parameters: the
-- first takes a layout and a text to an instant in nanoseconds, `none` being its error.
use pepin.I18n.{Lang, t_in}
use pepin.Prelude.{
  ℕ, ◌+◌, ◌-◌, ◌*◌, String, ◌<>◌, Bool, true, false, not, ◌&&◌, ◌||◌, Option, none, some, List, [],
  ◌∷◌, ◌++◌, map, if◌then◌else◌, ◌==◌, ltb, Dict, insert, has, count_by, filter_by, join, str_le,
  sort_by, sort_strings, trim_space,
}
use pepin.Scankit.{Status, Result, Assessment, is_fail}

pub record Exemption : Type 0 where
  pub control : String
  pub resource : String
  pub justification : String
  pub expires_at : String
  pub owner : String
  pub approved_by : String

pub data Effect : Type 0 where
  applied expired orphan : Effect

pub record Record : Type 0 where
  pub exemption : Exemption
  pub effect : Effect
  pub subjects : List String
  pub reason : String

pub record Report : Type 0 where
  pub policy_digest : String
  pub exemptions : List Exemption
  pub records : List Record

abbrev pub no_report : Report
no_report = record { policy_digest = ""; exemptions = []; records = [] }

abbrev date_only : String
date_only = "2006-01-02"

abbrev rfc3339 : String
rfc3339 = "2006-01-02T15:04:05Z07:00"

-- 24 hours less a nanosecond: a date alone expires at the end of its day.
abbrev last_instant : ℕ
last_instant = 24 * 3_600_000_000_000 - 1

-- `Date.Time`, over `time.Parse`; `none` is its error.
unfoldable pub date_time : (String → String → Option ℕ) → String → Option ℕ
unfolding trim_space
date_time parse d =
    let s = trim_space d in
    elim (parse date_only s) [ some t ↦ some (t + last_instant) | none ↦ parse rfc3339 s ]

-- The mandatory fields of `validate`, in its order.
abbrev mandatory : Exemption → List (String × String)
mandatory e =
    ("control", e.control)
    ∷ ("justification", e.justification)
    ∷ ("owner", e.owner)
    ∷ ("approved_by", e.approved_by)
    ∷ []

abbrev empty_fields : Lang → List (String × String) → List String
empty_fields l [] = []
empty_fields l ((name, value) ∷ fs) =
    let rest = empty_fields l fs in
    if trim_space value == ""
    then t_in l ("champ `" <> name <> "` obligatoire et vide")
        ("mandatory field `" <> name <> "` is empty")
      ∷ rest
    else rest

-- `validate`, the message of an unreadable date with its text quoted as it stands.
unfoldable pub validate : Lang → (String → String → Option ℕ) → Exemption → List String
unfolding date_time
validate l parse e =
    empty_fields l (mandatory e)
    ++ (if trim_space e.expires_at == ""
        then t_in l
            "champ `expires_at` obligatoire et vide (sans date, une dérogation devient permanente par oubli)"
            "mandatory field `expires_at` is empty (without a date an exemption becomes permanent by oversight)"
          ∷ []
        else elim (date_time parse e.expires_at) [
          | some _ ↦ []
          | none ↦
              t_in l
                ("date \""
                  <> trim_space e.expires_at
                  <> "\" illisible (formes acceptées : 2006-01-02, RFC3339)")
                ("unreadable date \""
                  <> trim_space e.expires_at
                  <> "\" (accepted forms: 2006-01-02, RFC3339)")
              ∷ []
        ])

abbrev digest_key : Exemption → String
digest_key e =
    join (e.control ∷ e.resource ∷ e.expires_at ∷ e.owner ∷ e.approved_by ∷ e.justification ∷ [])
      "\0"

abbrev lines : List String → String
lines [] = ""
lines (k ∷ ks) = k <> "\n" <> lines ks

-- `Policy.Digest`
unfoldable pub digest : (String → String) → List Exemption → String
digest sha256 es = "sha256:" <> sha256 (lines (sort_strings (map digest_key es)))

-- `expired`: a date that cannot be read has passed.
unfoldable pub is_expired : (String → String → Option ℕ) → ℕ → Exemption → Bool
unfolding date_time
is_expired parse now e = elim (date_time parse e.expires_at) [ none ↦ true | some t ↦ ltb t now ]

-- A candidate, with the subjects that it set aside.
pub record Candidate : Type 0 where
  pub ex : Exemption
  pub subjects : List String

abbrev pub covers : Exemption → String → String → Bool
covers e control subject = e.control == control && (e.resource == "" || e.resource == subject)

-- The known subjects: those of the inventory, and those that the results carry.
unfoldable pub known_subjects : List String → List Result → List String
known_subjects subjects [] = subjects
known_subjects subjects (r ∷ rs) =
    let rest = known_subjects subjects rs in if r.subject == "" then rest else r.subject ∷ rest

-- The three piles.
pub data Pile : Type 0 where
  set_aside : Effect → String → Pile
  candidate : Pile

module _ (l : Lang) (parse : String → String → Option ℕ) (now : ℕ)
    (controls known : List String) where
  -- The `switch` of the first loop.
  unfoldable pub pile : Exemption → Pile
  unfolding is_expired
  pile e =
      if not (has controls e.control)
      then set_aside Effect.orphan (
          t_in l ("aucun contrôle « " <> e.control <> " » au référentiel")
            ("no control \"" <> e.control <> "\" in the reference"))
      else if not (e.resource == "") && not (has known e.resource)
      then set_aside Effect.orphan (
          t_in l ("aucune ressource « " <> e.resource <> " » dans l'inventaire évalué")
            ("no resource \"" <> e.resource <> "\" in the assessed inventory"))
      else if is_expired parse now e
      then set_aside Effect.expired
          (t_in l ("échue depuis le " <> e.expires_at) ("lapsed since " <> e.expires_at))
      else candidate

  -- The first loop: the records of what does not apply, and the candidates.
  unfoldable pub sort_piles : List Exemption → List Record × List Candidate
  unfolding pile
  sort_piles [] = ([], [])
  sort_piles (e ∷ es) =
      let (records, candidates) = sort_piles es in
      elim (pile e) [
        | set_aside effect reason ↦ (
          record { exemption = e; effect = effect; subjects = []; reason = reason } ∷ records,
          candidates,
        )
        | candidate ↦ (records, record { ex = e; subjects = [] } ∷ candidates)
      ]

-- `match`, with the write to the subjects of the candidate that it returns.
unfoldable pub take_match : List Candidate → String → String → Option (Exemption × List Candidate)
take_match [] control subject = none
take_match (c ∷ cs) control subject =
    let rest = take_match cs control subject in
    if covers c.ex control subject
    then some (
      c.ex,
      record c { subjects = if has c.subjects subject then c.subjects else subject ∷ c.subjects }
          ∷ cs,
    )
    else elim rest [ none ↦ none | some (ex, cs') ↦ some (ex, c ∷ cs') ]

-- `withExemptionLabels`
unfoldable pub with_exemption_labels : Dict String → Exemption → Dict String
with_exemption_labels labels e =
    insert "exemption_expires_at" e.expires_at
      (insert "exemption_approved_by" e.approved_by (insert "exemption_owner" e.owner labels))

abbrev pub exempt_result : Exemption → Result → Result
exempt_result e r = record r {
  status = Status.exempted;
  waiver = some (record { justification = e.justification; until = e.expires_at });
  labels = with_exemption_labels r.labels e;
}

-- The body of the second loop.
unfoldable pub apply_one : List Candidate → Result → List Candidate × Result
unfolding take_match
apply_one cs r =
    if not (is_fail r.status) then (cs, r) else elim (take_match cs r.control r.subject) [
      | none ↦ (cs, r)
      | some (ex, cs') ↦ (cs', exempt_result ex r)
    ]

unfoldable pub apply_from : List Candidate → List Result → List Candidate × List Result
unfolding apply_one
apply_from cs [] = (cs, [])
apply_from cs (r ∷ rs) =
    let (cs₁, r') = apply_one cs r in let (cs', rs') = apply_from cs₁ rs in (cs', r' ∷ rs')

abbrev pub is_used : Candidate → Bool
is_used c = elim c.subjects [ [] ↦ false | x ∷ xs ↦ true ]

abbrev pub applied_record : Candidate → Record
applied_record c = record {
  exemption = c.ex;
  effect = Effect.applied;
  subjects = sort_strings c.subjects;
  reason = "";
}

abbrev effect_name : Effect → String
effect_name Effect.applied = "applied"
effect_name Effect.expired = "expired"
effect_name Effect.orphan = "orphan"

abbrev str_lt : String → String → Bool
str_lt a b = not (str_le b a)

abbrev record_less : Record → Record → Bool
record_less a b =
    if not (effect_name a.effect == effect_name b.effect)
    then str_lt (effect_name a.effect) (effect_name b.effect)
    else if not (a.exemption.control == b.exemption.control)
    then str_lt a.exemption.control b.exemption.control
    else str_lt a.exemption.resource b.exemption.resource

abbrev pub record_le : Record → Record → Bool
record_le a b = not (record_less b a)

-- `Apply`. `subjects` and `controls` are sets.
unfoldable pub apply :
    Lang
    → (String → String → Option ℕ)
    → (String → String)
    → Assessment
    → List Exemption
    → ℕ
    → List String
    → List String
    → Assessment × Report
unfolding known_subjects sort_piles apply_from digest sort_by
apply l parse sha256 a [] now subjects controls = (a, no_report)
apply l parse sha256 a (e ∷ es) now subjects controls =
    let known = known_subjects subjects a.results in
    let (records, candidates) = sort_piles l parse now controls known (e ∷ es) in
    let (candidates', results') = apply_from candidates a.results in
    (
      record a { results = results' },
      record {
        policy_digest = digest sha256 (e ∷ es);
        exemptions = e ∷ es;
        records = sort_by record_le (records ++ map applied_record (filter_by is_used candidates'));
      },
    )

-- `Count`, `Applied` and `Stale`
abbrev pub same_effect : Effect → Effect → Bool
same_effect Effect.applied Effect.applied = true
same_effect Effect.expired Effect.expired = true
same_effect Effect.orphan Effect.orphan = true
same_effect _ _ = false

abbrev pub is_effect : Effect → Record → Bool
is_effect e r = same_effect r.effect e

unfoldable pub count : Effect → Report → ℕ
count e rep = count_by (is_effect e) rep.records

abbrev pub positive : ℕ → Bool
positive n = ltb 0 n

unfoldable pub is_applied : Report → Bool
unfolding count
is_applied rep = positive (count Effect.applied rep)

unfoldable pub is_stale : Report → Bool
unfolding count
is_stale rep = positive (count Effect.expired rep + count Effect.orphan rep)

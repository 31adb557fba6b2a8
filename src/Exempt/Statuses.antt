-- ===== src/Exempt/Statuses.antt =====
-- What `Apply` writes, result by result.
use mathlib.Core.Path.{ap₂, fun_ext}
use pepin.I18n.{Lang}
use pepin.Prelude.{
  ℕ, ◌≡◌, refl, sym, ◌∙◌, String, Bool, true, false, Option, none, some, List, [], ◌∷◌, map, arith,
  inl, inr, Bool-cases, Option-cases, if◌then◌else◌, has, any_by, ap,
}
use pepin.Scankit.{Result, Assessment, is_fail}
use pepin.Exempt.Defs.{
  Exemption, Candidate, Pile, set_aside, candidate, covers, sort_piles, pile, take_match, apply_one,
  apply_from, known_subjects, apply, exempt_result, is_used,
}
use pepin.Exempt.Spec.{in_force, first_covering, exempted_result}

abbrev pub first_in : List Exemption → String → String → Option Exemption
first_in [] control subject = none
first_in (e ∷ es) control subject =
    let rest = first_in es control subject in if covers e control subject then some e else rest

abbrev pub ex_of : Candidate → Exemption
ex_of c = c.ex

abbrev pub exs : List Candidate → List Exemption
exs cs = map ex_of cs

-- `match` finds the first candidate that covers, and changes no exemption.
pub record Taken (cs : List Candidate) (c s : String) (e : Exemption) : Type 0 where
  pub rest : List Candidate
  pub found : take_match cs c s ≡ some (e, rest)
  pub same : exs rest ≡ exs cs
  pub used : any_by is_used rest ≡ true

-- The subjects behind a match are some.
used_of_subjects :
    (xs : List String) (s : String)
    → (elim (if has xs s then xs else s ∷ xs) [ [] ↦ false | _ ↦ true ]) ≡ true
used_of_subjects [] s = refl
used_of_subjects (x ∷ xs) s = ground arith

pub take_match-none :
    (cs : List Candidate) (c s : String) → first_in (exs cs) c s ≡ none → take_match cs c s ≡ none
unfolding take_match
take_match-none [] c s h = refl
take_match-none (x ∷ xs) c s h = ground (arith, take_match-none xs c s)

pub take_match-some :
    (cs : List Candidate) (c s : String) (e : Exemption)
    → first_in (exs cs) c s ≡ some e
    → Taken cs c s e
unfolding take_match
take_match-some [] c s e h = absurd (ground arith)
take_match-some (x ∷ xs) c s e h = elim (Bool-cases (covers x.ex c s)) [
  | inl hit ↦ record {
    rest = record x { subjects = if has x.subjects s then x.subjects else s ∷ x.subjects } ∷ xs;
    found = ground arith;
    same = refl;
    used = ground (arith, used_of_subjects x.subjects s);
  }
  | inr miss ↦
      let t = take_match-some xs c s e (ground arith) in
      record {
        rest = x ∷ t.rest;
        found = ground (arith, t.found);
        same = λ i. x.ex ∷ t.same i;
        used = ground (arith, t.used);
      }
]

-- The result that the loop writes, from the exemptions of the candidates.
abbrev written : List Exemption → Result → Result
written es r =
    if is_fail r.status
    then elim (first_in es r.control r.subject) [ none ↦ r | some e ↦ exempt_result e r ]
    else r

pub apply_one_lem :
    (cs : List Candidate) (r : Result)
    → ((apply_one cs r).1 ≡ written (exs cs) r) × (exs (apply_one cs r).0 ≡ exs cs)
unfolding apply_one
apply_one_lem cs r = elim (Option-cases (first_in (exs cs) r.control r.subject)) [
  | inl absent ↦
      let e = take_match-none cs r.control r.subject absent in
      (ground (arith, e, absent), ground (arith, e))
  | inr (ex, present) ↦
      let t = take_match-some cs r.control r.subject ex present in
      (ground (arith, t.found, present), ground (arith, t.found, t.same))
]

apply_from_lem :
    (cs : List Candidate) (rs : List Result) → (apply_from cs rs).1 ≡ map (written (exs cs)) rs
unfolding apply_from
apply_from_lem cs [] = refl
apply_from_lem cs (r ∷ rs) =
    ap₂ ◌∷◌ (apply_one_lem cs r).0
      (apply_from_lem (apply_one cs r).0 rs ∙ ap (λ es. map (written es) rs) (apply_one_lem cs r).1)

module _ (l : Lang) (parse : String → String → Option ℕ) (now : ℕ)
    (controls known : List String) where
  abbrev is_candidate : Pile → Bool
  is_candidate (set_aside _ _) = false
  is_candidate candidate = true

  is_candidate-pile :
      (e : Exemption)
      → is_candidate (pile l parse now controls known e) ≡ in_force parse now controls known e
  unfolding pile
  is_candidate-pile e = ground arith

  pub first_in-sort_piles :
      (es : List Exemption) (c s : String)
      → first_in (exs (sort_piles l parse now controls known es).1) c s
        ≡ first_covering parse now controls known es c s
  unfolding sort_piles first_covering
  first_in-sort_piles [] c s = refl
  first_in-sort_piles (e ∷ es) c s = ground (arith, is_candidate-pile e, first_in-sort_piles es c s)

  written-sort_piles :
      (es : List Exemption) (r : Result)
      → written (exs (sort_piles l parse now controls known es).1) r
        ≡ exempted_result parse now controls known es r
  unfolding exempted_result
  written-sort_piles es r = ground (arith, first_in-sort_piles es r.control r.subject)

map_id_of : (f : Result → Result) → ((r : Result) → f r ≡ r) → (rs : List Result) → map f rs ≡ rs
map_id_of f h [] = refl
map_id_of f h (r ∷ rs) = ap₂ ◌∷◌ (h r) (map_id_of f h rs)

-- `Apply` sets aside exactly the deviations that an exemption in force covers, by the first such
-- exemption of the file; it changes no other result, and the order stays. An exemption is in force
-- if its control and its resource are known and its date has not passed.
pub apply-results :
    (l : Lang) (parse : String → String → Option ℕ) (sha256 : String → String) (a : Assessment)
    (es : List Exemption) (now : ℕ) (subjects controls : List String)
    → (apply l parse sha256 a es now subjects controls).0.results
      ≡ map (exempted_result parse now controls (known_subjects subjects a.results) es) a.results
unfolding apply exempted_result
apply-results l parse sha256 a [] now subjects controls = sym (
    map_id_of (exempted_result parse now controls (known_subjects subjects a.results) [])
      (λ r. ground arith) a.results)
apply-results l parse sha256 a (e ∷ es) now subjects controls =
    apply_from_lem _ a.results
    ∙ ap (λ f. map f a.results) (fun_ext (written-sort_piles l parse now controls _ (e ∷ es)))

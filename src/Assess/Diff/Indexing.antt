-- ===== src/Assess/Diff/Indexing.antt =====
-- When `indexResults` accepts an assessment.
use pepin.Prelude.{
  ◌≡◌, refl, sym, ◌∙◌, ap, String, Bool, true, false, not, ◌&&◌, ◌||◌, Option, none, some, List, [],
  ◌∷◌, ◌++◌, arith, if◌then◌else◌, ◌==◌, all_by,
}
use pepin.Scankit.{Result}
use pepin.Assess.Diff.Defs.{
  Fallible, failed, done, Key, Index, find, is_there, index_from, index_results,
}

-- The result of a control and a subject in an assessment.
abbrev pub result_of : List Result → String → String → Option Result
result_of [] c s = none
result_of (r ∷ rs) c s = if c == r.control && s == r.subject then some r else result_of rs c s

-- Every result names a control, and no two have the control and the subject in common.
abbrev pub is_keyed : List Result → Bool
is_keyed [] = true
is_keyed (r ∷ rs) =
    not (r.control == "") && (not (is_there (result_of rs r.control r.subject)) && is_keyed rs)

abbrev pub entries : List Result → Index
entries [] = []
entries (r ∷ rs) = ((r.control, r.subject), r) ∷ entries rs

abbrev is_done : Fallible Index → Bool
is_done (failed e) = false
is_done (done x) = true

abbrev is_fresh : Index → Result → Bool
is_fresh index r = not (is_there (find index r.control r.subject))

pub find-entries : (c s : String) (rs : List Result) → find (entries rs) c s ≡ result_of rs c s
find-entries c s [] = refl
find-entries c s (r ∷ rs) = ground (arith, find-entries c s rs)

find-snoc :
    (index : Index) (r : Result) (c s : String)
    → is_there (find (index ++ ((r.control, r.subject), r) ∷ []) c s)
      ≡ (is_there (find index c s) || c == r.control && s == r.subject)
find-snoc [] r c s = ground arith
find-snoc ((k, x) ∷ index) r c s = ground (arith, find-snoc index r c s)

fresh-snoc :
    (index : Index) (r : Result) (rs : List Result)
    → all_by (is_fresh (index ++ ((r.control, r.subject), r) ∷ [])) rs
      ≡ (all_by (is_fresh index) rs && not (is_there (result_of rs r.control r.subject)))
fresh-snoc index r [] = refl
fresh-snoc index r (x ∷ rs) =
    ground (arith, find-snoc index r x.control x.subject, fresh-snoc index r rs)

index_from-is_done :
    (rs : List Result) (index : Index)
    → is_done (index_from rs index) ≡ (is_keyed rs && all_by (is_fresh index) rs)
unfolding index_from
index_from-is_done [] index = refl
index_from-is_done (r ∷ rs) index = ground (
  arith,
  index_from-is_done rs (index ++ ((r.control, r.subject), r) ∷ []),
  fresh-snoc index r rs,
)

append_nil : (xs : Index) → xs ++ [] ≡ xs
append_nil [] = refl
append_nil (x ∷ xs) = ap (λ ys. x ∷ ys) (append_nil xs)

append_cons : (xs : Index) (y : Key × Result) (ys : Index) → (xs ++ y ∷ []) ++ ys ≡ xs ++ y ∷ ys
append_cons [] y ys = refl
append_cons (x ∷ xs) y ys = ap (λ l. x ∷ l) (append_cons xs y ys)

abbrev out_of : Fallible Index → Index
out_of (failed e) = []
out_of (done x) = x

index_from-out :
    (rs : List Result) (index : Index)
    → is_done (index_from rs index) ≡ true
    → out_of (index_from rs index) ≡ index ++ entries rs
unfolding index_from
index_from-out [] index h = sym (append_nil index)
index_from-out (r ∷ rs) index h = ground (
  arith,
  index_from-out rs (index ++ ((r.control, r.subject), r) ∷ []),
  append_cons index ((r.control, r.subject), r) (entries rs),
)

done_of : (f : Fallible Index) → is_done f ≡ true → f ≡ done (out_of f)
done_of (failed e) h = absurd (ground arith)
done_of (done x) h = refl

pub index_results-done :
    (rs : List Result) → is_keyed rs ≡ true → index_results rs ≡ done (entries rs)
unfolding index_results
index_results-done rs h =
    let ok : is_done (index_from rs []) ≡ true =
      index_from-is_done rs [] ∙ ground (arith, fresh_nil rs) in
    done_of (index_from rs []) ok ∙ ap done (index_from-out rs [] ok)
  where
    fresh_nil : (rs : List Result) → all_by (is_fresh []) rs ≡ true
    fresh_nil [] = refl
    fresh_nil (r ∷ rs) = ground (arith, fresh_nil rs)

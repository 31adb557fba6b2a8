-- ===== src/Scan/Observed.antt =====
-- Which attributes of a type the scan takes for observed.
use pepin.Prelude.{
  ◌≡◌, refl, ◌∙◌, ap, String, Bool, not, ◌&&◌, ◌||◌, List, [], ◌∷◌, ◌++◌, arith, if◌then◌else◌,
  ◌==◌, index, insert, keys, has, has-append, filter_by, any_by, all_by,
}
use pepin.Model.Resource.{Resource}
use pepin.Assess.Attributes.{is_nil}
use pepin.Scan.Inventory.{
  collected_names, carried, exposed, is_rescued, present, intersect_from, intersect, group_from,
  finish, attrs_by_type_of,
}

has-filter_by :
    (p : String → Bool) (xs : List String) (k : String) → has (filter_by p xs) k ≡ (has xs k && p k)
has-filter_by p [] k = refl
has-filter_by p (x ∷ xs) k = ground (arith, has-filter_by p xs k)

-- The source gave the attribute on this resource.
abbrev pub shows : String → Resource → Bool
shows a r = has (collected_names r.attributes) a || (a == "region" && not (r.region == ""))

-- The collector looked for the attribute, and the source did not give it on this resource.
abbrev pub seeks : String → Resource → Bool
seeks a r = has (keys r.provenance) a && not (has (keys r.attributes) a)

has-carried : (a : String) (r : Resource) → has (carried r) a ≡ shows a r
unfolding carried
has-carried a r = has-append (collected_names r.attributes) _ a ∙ ground arith

has-exposed : (a : String) (rs : List Resource) → has (exposed rs) a ≡ any_by (shows a) rs
unfolding exposed
has-exposed a [] = refl
has-exposed a (r ∷ rs) =
    has-append (carried r) (exposed rs) a ∙ ground (arith, has-carried a r, has-exposed a rs)

has-present :
    (a : String) (all_ : List String) (r : Resource)
    → has (present all_ r) a ≡ (shows a r || seeks a r && has all_ a)
unfolding present
has-present a all_ r =
    has-append (carried r) _ a
    ∙ ground (arith, has-carried a r, has-filter_by (is_rescued all_ r) (keys r.provenance) a)

-- The attribute was given on the resource, or sought there and given on some resource of the list.
abbrev pub is_observed : List Resource → String → Resource → Bool
is_observed rs a r = shows a r || seeks a r && any_by (shows a) rs

abbrev in_present : List String → String → Resource → Bool
in_present all_ a r = has (present all_ r) a

has-intersect_from :
    (a : String) (all_ inter : List String) (rs : List Resource)
    → has (intersect_from all_ inter rs) a ≡ (has inter a && all_by (in_present all_ a) rs)
unfolding intersect_from
has-intersect_from a all_ inter [] = ground arith
has-intersect_from a all_ inter (r ∷ rs) =
    has-intersect_from a all_ (filter_by (has (present all_ r)) inter) rs
    ∙ ground (arith, has-filter_by (has (present all_ r)) inter a)

all_by-present :
    (a : String) (whole rs : List Resource)
    → all_by (in_present (exposed whole) a) rs ≡ all_by (is_observed whole a) rs
all_by-present a whole [] = refl
all_by-present a whole (r ∷ rs) =
    ground (arith, has-present a (exposed whole) r, has-exposed a whole, all_by-present a whole rs)

has-intersect :
    (a : String) (rs : List Resource)
    → has (intersect rs) a ≡ (not (is_nil rs) && all_by (is_observed rs a) rs)
unfolding intersect
has-intersect a [] = refl
has-intersect a (r ∷ rs) =
    has-intersect_from a (exposed (r ∷ rs)) (present (exposed (r ∷ rs)) r) rs
    ∙ all_by-present a (r ∷ rs) (r ∷ rs)

index-finish :
    (t : String) (m : List (String × List Resource))
    → index [] (finish m) t ≡ intersect (index [] m t)
unfolding finish intersect
index-finish t [] = refl
index-finish t ((u, rs) ∷ m) = ground (arith, index-finish t m)

index-insert :
    (t u : String) (v : List Resource) (m : List (String × List Resource))
    → index [] (insert u v m) t ≡ (if t == u then v else index [] m t)
index-insert t u v [] = refl
index-insert t u v ((j, w) ∷ m) = ground (arith, index-insert t u v m)

-- The resources of a type; a resource without a type is of none.
abbrev pub is_of : String → Resource → Bool
is_of t r = not (r.type == "") && t == r.type

append_nil : (xs : List Resource) → xs ++ [] ≡ xs
append_nil [] = refl
append_nil (x ∷ xs) = ap (λ ys. x ∷ ys) (append_nil xs)

append_assoc : (xs ys zs : List Resource) → (xs ++ ys) ++ zs ≡ xs ++ (ys ++ zs)
append_assoc [] ys zs = refl
append_assoc (x ∷ xs) ys zs = ap (λ l. x ∷ l) (append_assoc xs ys zs)

index-group_from :
    (t : String) (rs : List Resource) (m : List (String × List Resource))
    → index [] (group_from rs m) t ≡ index [] m t ++ filter_by (is_of t) rs
unfolding group_from
index-group_from t [] m = ground (arith, append_nil (index [] m t))
index-group_from t (r ∷ rs) m =
    index-group_from t rs
      (if r.type == "" then m else insert r.type (index [] m r.type ++ r ∷ []) m)
    ∙ ground (
      arith,
      index-insert t r.type (index [] m r.type ++ r ∷ []) m,
      append_assoc (index [] m t) (r ∷ []) (filter_by (is_of t) rs),
    )

pub attrs_by_type_of_iff :
    (t a : String) (rs : List Resource)
    → has (index [] (attrs_by_type_of rs) t) a ≡ (
        not (is_nil (filter_by (is_of t) rs))
        && all_by (is_observed (filter_by (is_of t) rs) a) (filter_by (is_of t) rs))
unfolding attrs_by_type_of
attrs_by_type_of_iff t a rs =
    rw (index-finish, index-group_from) (has-intersect a (filter_by (is_of t) rs))

-- ===== src/Prelude/Sort.antt =====
-- `sort.Strings`, `sort.Slice` and `sort.SliceStable`, as an insertion sort that keeps the order of
-- equals. What a proof uses is that the result is in order and holds the same elements as often.
use Prim.Native.Nat.{◌+◌}
use mathlib.Core.Path.{◌≡◌, refl}
use mathlib.Core.Logic.{inl, inr}
use mathlib.Core.Bool.{Bool, true, false, ◌||◌}
use mathlib.Core.List.{List, [], ◌∷◌}
use native.Mathlib.Omega.{arith}
use pepin.Prelude.Tests.{if◌then◌else◌, Bool-cases}
use pepin.Prelude.Lists.{any_by, count_by}

module _ {ℓ} {A : Type ℓ} (le : A → A → Bool) where
  unfoldable pub insert_by : A → List A → List A
  insert_by x [] = x ∷ []
  insert_by x (y ∷ ys) = if le x y then x ∷ y ∷ ys else y ∷ insert_by x ys

  unfoldable pub sort_by : List A → List A
  unfolding insert_by
  sort_by [] = []
  sort_by (x ∷ xs) = insert_by x (sort_by xs)

  -- Each element is at most its successor.
  abbrev pub IsSorted : List A → Type 0
  IsSorted [] = Unit
  IsSorted (x ∷ []) = Unit
  IsSorted (x ∷ y ∷ ys) = (le x y ≡ true) × IsSorted (y ∷ ys)

  count_by-insert_by :
      (p : A → Bool) (x : A) (ys : List A)
      → count_by p (insert_by x ys) ≡ (if p x then 1 else 0) + count_by p ys
  unfolding insert_by
  count_by-insert_by p x [] = refl
  count_by-insert_by p x (y ∷ ys) = ground (arith, count_by-insert_by p x ys)

  pub count_by-sort_by : (p : A → Bool) (xs : List A) → count_by p (sort_by xs) ≡ count_by p xs
  unfolding sort_by
  count_by-sort_by p [] = refl
  count_by-sort_by p (x ∷ xs) =
      omega (arith, count_by-insert_by p x (sort_by xs), count_by-sort_by p xs)

  any_by-insert_by :
      (p : A → Bool) (x : A) (ys : List A) → any_by p (insert_by x ys) ≡ (p x || any_by p ys)
  unfolding insert_by
  any_by-insert_by p x [] = refl
  any_by-insert_by p x (y ∷ ys) = ground (arith, any_by-insert_by p x ys)

  pub any_by-sort_by : (p : A → Bool) (xs : List A) → any_by p (sort_by xs) ≡ any_by p xs
  unfolding sort_by
  any_by-sort_by p [] = refl
  any_by-sort_by p (x ∷ xs) = ground (arith, any_by-insert_by p x (sort_by xs), any_by-sort_by p xs)

  module _ (total : (x y : A) → le x y ≡ false → le y x ≡ true) where
    IsSorted-cons_insert_by :
        (y x : A) (ys : List A)
        → le y x ≡ true
        → IsSorted (y ∷ ys)
        → IsSorted (insert_by x ys)
        → IsSorted (y ∷ insert_by x ys)
    unfolding insert_by
    IsSorted-cons_insert_by y x [] h s r = (h, tt)
    IsSorted-cons_insert_by y x (z ∷ ys) h s r = elim (Bool-cases (le x z)) [
      | inl e ↦ rw e (h, (e, s.1))
      | inr e ↦ rw e (s.0, rw e at r)
    ]

    pub insert_by-IsSorted : (x : A) (ys : List A) → IsSorted ys → IsSorted (insert_by x ys)
    unfolding insert_by
    insert_by-IsSorted x [] s = tt
    insert_by-IsSorted x (y ∷ []) s = elim (Bool-cases (le x y)) [
      | inl e ↦ rw e (e, tt)
      | inr e ↦ rw e (total x y e, tt)
    ]
    insert_by-IsSorted x (y ∷ z ∷ ys) s = elim (Bool-cases (le x y)) [
      | inl e ↦ rw e (e, s)
      | inr e ↦
          rw e (
            IsSorted-cons_insert_by y x (z ∷ ys) (total x y e) s
              (insert_by-IsSorted x (z ∷ ys) s.1))
    ]

    pub sort_by-IsSorted : (xs : List A) → IsSorted (sort_by xs)
    unfolding sort_by
    sort_by-IsSorted [] = tt
    sort_by-IsSorted (x ∷ xs) = insert_by-IsSorted x (sort_by xs) (sort_by-IsSorted xs)

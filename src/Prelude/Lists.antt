-- ===== src/Prelude/Lists.antt =====
-- Loops over a slice, and predicates on lists.
use Prim.Native.Nat.{ℕ, suc, ◌+◌}
use mathlib.Core.Path.{◌≡◌, refl, ap}
use mathlib.Core.Logic.{◌⊎◌, inl, inr}
use mathlib.Core.Bool.{Bool, true, false, ◌&&◌, ◌||◌}
use mathlib.Core.List.{List, [], ◌∷◌, ◌++◌, map}
use native.Mathlib.Omega.{arith}
use pepin.Prelude.Tests.{if◌then◌else◌, Bool-cases}

abbrev pub All {ℓ κ} : {A : Type ℓ} → (A → Type κ) → List A → Type κ
All P [] = Unit
All P (x ∷ xs) = P x × All P xs

-- The elements at the same index are related, and the lengths agree.
abbrev pub Each₂ {ℓ μ} : {A : Type ℓ} {B : Type μ} → (A → B → Type 0) → List A → List B → Type 0
Each₂ R [] [] = Unit
Each₂ R [] (y ∷ ys) = ⊥
Each₂ R (x ∷ xs) [] = ⊥
Each₂ R (x ∷ xs) (y ∷ ys) = R x y × Each₂ R xs ys

abbrev pub IsIn : {A : Type 0} → A → List A → Type 0
IsIn a [] = ⊥
IsIn a (x ∷ xs) = (a ≡ x) ⊎ IsIn a xs

module _ {ℓ} {A : Type ℓ} where
  abbrev pub length : List A → ℕ
  length [] = 0
  length (x ∷ xs) = suc (length xs)

  abbrev pub filter_by : (A → Bool) → List A → List A
  filter_by p [] = []
  filter_by p (x ∷ xs) = let rest = filter_by p xs in if p x then x ∷ rest else rest

  abbrev pub any_by : (A → Bool) → List A → Bool
  any_by p [] = false
  any_by p (x ∷ xs) = p x || any_by p xs

  abbrev pub all_by : (A → Bool) → List A → Bool
  all_by p [] = true
  all_by p (x ∷ xs) = p x && all_by p xs

  abbrev pub count_by : (A → Bool) → List A → ℕ
  count_by p [] = 0
  count_by p (x ∷ xs) = (if p x then 1 else 0) + count_by p xs

  pub any_by-append :
      (p : A → Bool) (xs ys : List A) → any_by p (xs ++ ys) ≡ (any_by p xs || any_by p ys)
  any_by-append p [] ys = refl
  any_by-append p (x ∷ xs) ys = ground (arith, any_by-append p xs ys)

  pub count_by-append :
      (p : A → Bool) (xs ys : List A) → count_by p (xs ++ ys) ≡ count_by p xs + count_by p ys
  count_by-append p [] ys = omega arith
  count_by-append p (x ∷ xs) ys = omega (arith, count_by-append p xs ys)

  -- A predicate counts to nothing exactly where it holds nowhere.
  pub any_by_of_count : (p : A → Bool) (xs : List A) → count_by p xs ≡ 0 → any_by p xs ≡ false
  any_by_of_count p [] h = refl
  any_by_of_count p (x ∷ xs) h = ground (arith, any_by_of_count p xs)

  pub All-mono {κ μ} :
      (P : A → Type κ) (Q : A → Type μ) (xs : List A) → ((x : A) → P x → Q x) → All P xs → All Q xs
  All-mono P Q [] f h = tt
  All-mono P Q (x ∷ xs) f h = (f x h.0, All-mono P Q xs f h.1)

  pub All-append {κ} : (P : A → Type κ) (xs ys : List A) → All P xs → All P ys → All P (xs ++ ys)
  All-append P [] ys h k = k
  All-append P (x ∷ xs) ys h k = (h.0, All-append P xs ys h.1 k)

  pub All-filter_by {κ} :
      (P : A → Type κ) (p : A → Bool) (xs : List A) → All P xs → All P (filter_by p xs)
  All-filter_by P p [] h = tt
  All-filter_by P p (x ∷ xs) h = elim (Bool-cases (p x)) [
    | inl e ↦ rw e (h.0, All-filter_by P p xs h.1)
    | inr e ↦ rw e (All-filter_by P p xs h.1)
  ]

  pub Each₂-refl : (R : A → A → Type 0) → ((x : A) → R x x) → (xs : List A) → Each₂ R xs xs
  Each₂-refl R r [] = tt
  Each₂-refl R r (x ∷ xs) = (r x, Each₂-refl R r xs)

  pub Each₂-map :
      (R : A → A → Type 0) (f : A → A)
      → ((x : A) → R x (f x))
      → (xs : List A) → Each₂ R xs (map f xs)
  Each₂-map R f r [] = tt
  Each₂-map R f r (x ∷ xs) = (r x, Each₂-map R f r xs)

  pub Each₂-trans :
      (R S T : A → A → Type 0)
      → ((x y z : A) → R x y → S y z → T x z)
      → (xs ys zs : List A) → Each₂ R xs ys
      → Each₂ S ys zs
      → Each₂ T xs zs
  Each₂-trans R S T t [] [] [] h k = tt
  Each₂-trans R S T t [] [] (z ∷ zs) h k = k
  Each₂-trans R S T t [] (y ∷ ys) zs h k = absurd h
  Each₂-trans R S T t (x ∷ xs) [] zs h k = absurd h
  Each₂-trans R S T t (x ∷ xs) (y ∷ ys) [] h k = k
  Each₂-trans R S T t (x ∷ xs) (y ∷ ys) (z ∷ zs) h k =
      (t x y z h.0 k.0, Each₂-trans R S T t xs ys zs h.1 k.1)

  pub any_by-Each₂ :
      (R : A → A → Type 0) (p q : A → Bool)
      → ((x y : A) → R x y → p y ≡ q x)
      → (xs ys : List A) → Each₂ R xs ys
      → any_by p ys ≡ any_by q xs
  any_by-Each₂ R p q f [] [] h = refl
  any_by-Each₂ R p q f [] (y ∷ ys) h = absurd h
  any_by-Each₂ R p q f (x ∷ xs) [] h = absurd h
  any_by-Each₂ R p q f (x ∷ xs) (y ∷ ys) h =
      ground (arith, f x y h.0, any_by-Each₂ R p q f xs ys h.1)

pub length-append {ℓ} : {A : Type ℓ} (xs ys : List A) → length (xs ++ ys) ≡ length xs + length ys
length-append [] ys = omega arith
length-append (x ∷ xs) ys = omega (arith, length-append xs ys)

pub append_assoc {ℓ} : {A : Type ℓ} (xs ys zs : List A) → (xs ++ ys) ++ zs ≡ xs ++ (ys ++ zs)
append_assoc [] ys zs = refl
append_assoc (x ∷ xs) ys zs = ap (λ ws. x ∷ ws) (append_assoc xs ys zs)

pub append_nil {ℓ} : {A : Type ℓ} (xs : List A) → xs ++ [] ≡ xs
append_nil [] = refl
append_nil (x ∷ xs) = ap (λ ys. x ∷ ys) (append_nil xs)

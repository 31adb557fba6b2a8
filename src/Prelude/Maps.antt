-- ===== src/Prelude/Maps.antt =====
-- A Go map with string keys, as a list of its entries. The iteration order of a Go map is unknown:
-- where the code sorts the keys the model does too, and elsewhere the order of the list stands for
-- any order.
use mathlib.Core.Path.{◌≡◌, refl}
use mathlib.Core.Bool.{false}
use mathlib.Core.Option.{Option, none, some}
use mathlib.Core.List.{List, [], ◌∷◌}
use Prim.Native.String.{String}
use native.Mathlib.Omega.{arith}
use pepin.Prelude.Tests.{if◌then◌else◌}
use pepin.Prelude.Texts.{◌==◌, has}

abbrev pub Dict {ℓ} : Type ℓ → Type ℓ
Dict V = List (String × V)

module _ {ℓ} {V : Type ℓ} where
  -- `v, ok := m[k]`
  abbrev pub lookup : String → Dict V → Option V
  lookup k [] = none
  lookup k ((j, v) ∷ m) = if k == j then some v else lookup k m

  -- `m[k]`, the zero value where the key is missing.
  abbrev pub index : V → Dict V → String → V
  index zero [] k = zero
  index zero ((j, v) ∷ m) k = if k == j then v else index zero m k

  abbrev pub keys : Dict V → List String
  keys [] = []
  keys ((k, _) ∷ m) = k ∷ keys m

  -- `m[k] = v`
  abbrev pub insert : String → V → Dict V → Dict V
  insert k v [] = (k, v) ∷ []
  insert k v ((j, w) ∷ m) = if k == j then (k, v) ∷ m else (j, w) ∷ insert k v m

  pub lookup-insert :
      (j k : String) (v : V) (m : Dict V)
      → lookup j (insert k v m) ≡ (if j == k then some v else lookup j m)
  lookup-insert j k v [] = refl
  lookup-insert j k v (_ ∷ m) = ground (arith, lookup-insert j k v m)

  pub lookup_of_keys : (k : String) (m : Dict V) → has (keys m) k ≡ false → lookup k m ≡ none
  lookup_of_keys k [] h = refl
  lookup_of_keys k ((j, w) ∷ m) h = ground (arith, lookup_of_keys k m)

  pub keys_of_lookup : (k : String) (m : Dict V) → lookup k m ≡ none → has (keys m) k ≡ false
  keys_of_lookup k [] h = refl
  keys_of_lookup k ((j, w) ∷ m) h = ground (arith, keys_of_lookup k m)

  pub index-insert :
      (zero : V) (j k : String) (v : V) (m : Dict V)
      → index zero (insert k v m) j ≡ (if j == k then v else index zero m j)
  index-insert zero j k v [] = refl
  index-insert zero j k v (_ ∷ m) = ground (arith, index-insert zero j k v m)

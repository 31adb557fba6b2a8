-- ===== src/Terraform/Only.antt =====
-- internal/tfparse/tfparse.go: what a resolved reference names.
use mathlib.Core.Path.{subst}
use pepin.Prelude.{
  ℕ, zero, suc, ◌≡◌, refl, sym, ap, ◌∙◌, String, ◌<>◌, Bool, true, ◌||◌, some, List, [], ◌∷◌, ◌++◌,
  inl, inr, ◌==◌, Dict, lookup, index, insert, index-insert, append_assoc, append_nil, has-append,
  has, filter_by, map, All, arith, Bool-cases, Option-cases, has-sort_strings,
}
use pepin.Terraform.Plan.{TfResource}
use pepin.Terraform.Addresses.{config_address, module_prefix, parent_prefix}
use pepin.Terraform.References.{
  Targets, Resolver, single, passed, add_address, add_addresses, instances_of, resolve_each,
  resolve, resolved_fields, with_resolved, references_for, max_depth, is_empty,
}

abbrev pub declares : String → String → Bool
declares key address = config_address address == key

-- The address is in the list, and no other one there is of an instance of the same declaration.
abbrev pub IsOnly : List String → String → Type 0
IsOnly addresses a = filter_by (declares (config_address a)) addresses ≡ a ∷ []

abbrev pub address_of : TfResource → String
address_of x = x.address

instances_of-declares :
    (key : String) (xs : List TfResource) (out : Targets)
    → index [] (instances_of xs out) key
      ≡ index [] out key ++ filter_by (declares key) (map address_of xs)
unfolding instances_of
instances_of-declares key [] out = sym (append_nil (index [] out key))
instances_of-declares key (x ∷ xs) out =
    let here = config_address x.address in
    instances_of-declares key xs (insert here (index [] out here ++ x.address ∷ []) out)
    ∙ elim (Bool-cases (key == here)) [
      | inl same ↦ ground (
        arith,
        same,
        index-insert [] key here (index [] out here ++ x.address ∷ []) out,
        append_assoc (index [] out here) (x.address ∷ [])
            (filter_by (declares key) (map address_of xs)),
      )
      | inr differs ↦
          ground
            (arith, differs, index-insert [] key here (index [] out here ++ x.address ∷ []) out)
    ]

declares-head :
    (key a : String) (rest addresses : List String)
    → filter_by (declares key) addresses ≡ a ∷ rest
    → config_address a ≡ key
declares-head key a rest [] h = absurd (ground (arith, h))
declares-head key a rest (b ∷ addresses) h = elim (Bool-cases (declares key b)) [
  | inl e ↦ ground (arith, h, e)
  | inr e ↦ declares-head key a rest addresses (ground (arith, h, e))
]

-- Every address of a list is the only one of its declaration.
abbrev pub AllOnly : List String → List String → Type 0
AllOnly addresses found = (a : String) → has found a ≡ true → IsOnly addresses a

single_all : (a : String) (as_ : List String) → single as_ ≡ some a → as_ ≡ a ∷ []
single_all a [] h = absurd (ground (arith, h))
single_all a (b ∷ []) h = ground (arith, h)
single_all a (b ∷ c ∷ as_) h = absurd (ground (arith, h))

add_address-has :
    (seen : List String) (a b : String) → has (add_address seen a) b ≡ (has seen b || b == a)
add_address-has seen a b = ground (arith, has-append seen (a ∷ []) b)

add_addresses-has :
    (seen as_ : List String) (b : String)
    → has (add_addresses seen as_) b ≡ (has seen b || has as_ b)
unfolding add_addresses
add_addresses-has seen [] b = ground arith
add_addresses-has seen (a ∷ as_) b =
    add_addresses-has (add_address seen a) as_ b ∙ ground (arith, add_address-has seen a b)

add_address-AllOnly :
    (known : List String) (seen : List String) (a : String)
    → AllOnly known seen
    → IsOnly known a
    → AllOnly known (add_address seen a)
add_address-AllOnly known seen a h k b there = elim (Bool-cases (has seen b)) [
  | inl old ↦ h b old
  | inr new ↦ subst (IsOnly known) (ground (arith, there, new, add_address-has seen a b)) k
]

add_addresses-AllOnly :
    (known : List String) (seen as_ : List String)
    → AllOnly known seen
    → AllOnly known as_
    → AllOnly known (add_addresses seen as_)
add_addresses-AllOnly known seen as_ h k b there = elim (Bool-cases (has seen b)) [
  | inl old ↦ h b old
  | inr new ↦ k b (ground (arith, there, new, add_addresses-has seen as_ b))
]

-- Every reference of a resource.
abbrev pub RefersOnly : List String → TfResource → Type 0
RefersOnly known x = (field : String) → AllOnly known (index [] x.references field)

module _ (xs : List TfResource) (args : Dict Targets) where
  abbrev pub resolver : Resolver
  resolver = record { instances = instances_of xs []; args = args }

  abbrev pub addresses : List String
  addresses = map address_of xs

  single-IsOnly :
      (key a : String) → single (index [] (instances_of xs []) key) ≡ some a → IsOnly addresses a
  single-IsOnly key a h =
      let listed = sym (instances_of-declares key xs []) ∙ single_all a _ h in
      rw (declares-head key a [] addresses listed) listed

  resolve_each-AllOnly :
      (deeper : List String → String → List String) (targets : List String) (scope : String)
      (seen : List String)
      → ((ts : List String) (sc : String) → AllOnly addresses (deeper ts sc))
      → AllOnly addresses seen
      → AllOnly addresses (resolve_each deeper resolver targets scope seen)
  unfolding resolve_each
  resolve_each-AllOnly deeper [] scope seen below known = known
  resolve_each-AllOnly deeper (c ∷ cs) scope seen below known =
      elim (Option-cases (single (index [] (instances_of xs []) (scope <> c)))) [
        | inl several ↦
            rw (several, resolve_each)
              (resolve_each-AllOnly deeper cs scope _ below (
                add_addresses-AllOnly addresses seen _ known
                  (below (passed resolver scope c) (parent_prefix scope))))
        | inr (a, one) ↦
            rw (one, resolve_each)
              (resolve_each-AllOnly deeper cs scope _ below
                (add_address-AllOnly addresses seen a known (single-IsOnly (scope <> c) a one)))
      ]

  resolve-AllOnly :
      (left : ℕ) (targets : List String) (scope : String)
      → AllOnly addresses (resolve left resolver targets scope)
  unfolding resolve
  resolve-AllOnly zero targets scope a h = absurd (ground (arith, h))
  resolve-AllOnly (suc left) targets scope a h =
      resolve_each-AllOnly (resolve left resolver) targets scope [] (resolve-AllOnly left)
        (λ b k. absurd (ground (arith, k))) a (sym (has-sort_strings _ a) ∙ h)

  resolved_fields-AllOnly :
      (scope field : String) (targets : Targets)
      → AllOnly addresses (index [] (resolved_fields resolver scope targets) field)
  unfolding resolved_fields
  resolved_fields-AllOnly scope field [] a h = absurd (ground (arith, h))
  resolved_fields-AllOnly scope field ((f, ts) ∷ targets) a h =
      let found = resolve (suc max_depth) resolver ts scope in
      elim (Bool-cases (is_empty found)) [
        | inl empty ↦ resolved_fields-AllOnly scope field targets a (ground (arith, h, empty))
        | inr some_found ↦ elim (Bool-cases (field == f)) [
          | inl same ↦
              resolve-AllOnly (suc max_depth) ts scope a (ground (arith, h, some_found, same))
          | inr differs ↦
              resolved_fields-AllOnly scope field targets a (ground (arith, h, some_found, differs))
        ]
      ]

  references_for-AllOnly :
      (refs : Dict Targets) (x : TfResource)
      → RefersOnly addresses x
      → (field : String) → AllOnly addresses (index [] (references_for resolver refs x) field)
  references_for-AllOnly refs x h field a there =
      elim (Option-cases (lookup (config_address x.address) refs)) [
        | inl absent ↦ h field a (ground (arith, there, absent))
        | inr (fields, declared) ↦
            let scope = module_prefix (config_address x.address) in
            elim (Bool-cases (is_empty (resolved_fields resolver scope fields))) [
              | inl empty ↦ h field a (ground (arith, there, declared, empty))
              | inr found ↦
                  resolved_fields-AllOnly scope field fields a
                    (ground (arith, there, declared, found))
            ]
      ]

  pub with_resolved-RefersOnly :
      (refs : Dict Targets) (ys : List TfResource)
      → All (RefersOnly addresses) ys
      → All (RefersOnly addresses) (with_resolved resolver refs ys)
  unfolding with_resolved
  with_resolved-RefersOnly refs [] h = tt
  with_resolved-RefersOnly refs (y ∷ ys) h =
      (references_for-AllOnly refs y h.0, with_resolved-RefersOnly refs ys h.1)

  pub with_resolved-address_of :
      (refs : Dict Targets) (ys : List TfResource)
      → map address_of (with_resolved resolver refs ys) ≡ map address_of ys
  unfolding with_resolved
  with_resolved-address_of refs [] = refl
  with_resolved-address_of refs (y ∷ ys) =
      ap (λ as_. y.address ∷ as_) (with_resolved-address_of refs ys)

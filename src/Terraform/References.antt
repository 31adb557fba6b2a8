-- ===== src/Terraform/References.antt =====
-- internal/tfparse/tfparse.go: the references that the configuration of a plan declares. The decoder of
-- an expression is a parameter; `none` is a text that does not decode into an object.
use pepin.Prelude.{
  ℕ, zero, suc, String, ◌<>◌, Bool, true, false, Option, none, some, List, [], ◌∷◌, ◌++◌,
  if◌then◌else◌, ◌==◌, Dict, lookup, index, insert, has, sort_strings, cut_prefix,
}
use pepin.Terraform.Plan.{ConfigResource, ConfigModule, ModuleCalls, TfResource}
use pepin.Terraform.Addresses.{config_address, module_prefix, parent_prefix}

abbrev pub Targets : Type 0
Targets = Dict (List String)

-- What `collectConfig` gathers: the references of each resource, and the arguments of each call.
pub record Gathered : Type 0 where
  pub refs : Dict Targets
  pub args : Dict Targets

pub record Resolver : Type 0 where
  pub instances : Targets
  pub args : Dict Targets

abbrev pub is_empty {ℓ} : {A : Type ℓ} → List A → Bool
is_empty [] = true
is_empty (x ∷ xs) = false

module _ (decode : String → Option (List String)) where
  -- `referencesOf`
  abbrev pub references_of : String → List String
  references_of raw = elim (decode raw) [ none ↦ [] | some refs ↦ refs ]

  -- The expressions that have references.
  unfoldable pub targets_of : Dict String → Targets
  targets_of [] = []
  targets_of ((name, raw) ∷ es) =
      let rest = targets_of es in
      if is_empty (references_of raw) then rest else (name, references_of raw) ∷ rest

  -- An entry under a key, where it has targets.
  abbrev put : String → Targets → Dict Targets → Dict Targets
  put key targets out = if is_empty targets then out else insert key targets out

  -- The first loop of `collectConfig`.
  unfoldable pub config_resources : String → List ConfigResource → Dict Targets → Dict Targets
  unfolding targets_of
  config_resources prefix_ [] refs = refs
  config_resources prefix_ (r ∷ rs) refs =
      config_resources prefix_ rs (
        if r.address == ""
        then refs
        else put (prefix_ <> r.address) (targets_of r.expressions) refs)

  -- `collectConfig`
  unfoldable mutual
    unfolding config_resources

    pub collect_config : String → ConfigModule → Gathered → Gathered
    collect_config prefix_ (ConfigModule.config_module rs calls) out =
        collect_calls prefix_ calls (record out { refs = config_resources prefix_ rs out.refs })

    pub collect_calls : String → ModuleCalls → Gathered → Gathered
    collect_calls prefix_ ModuleCalls.stop out = out
    collect_calls prefix_ (ModuleCalls.call name source m expressions calls) out =
        let below = prefix_ <> "module." <> name <> "." in
        collect_calls prefix_ calls (
          collect_config below m
            (record out { args = put below (targets_of expressions) out.args }))

-- `instances[c] = append(instances[c], r.Address)` for each resource.
unfoldable pub instances_of : List TfResource → Targets → Targets
instances_of [] out = out
instances_of (r ∷ rs) out =
    let key = config_address r.address in
    instances_of rs (insert key (index [] out key ++ r.address ∷ []) out)

-- The closure `ajoute`.
abbrev pub add_address : List String → String → List String
add_address seen a = if has seen a then seen else seen ++ a ∷ []

unfoldable pub add_addresses : List String → List String → List String
add_addresses seen [] = seen
add_addresses seen (a ∷ as_) = add_addresses (add_address seen a) as_

abbrev pub max_depth : ℕ
max_depth = 8

-- The only instance of a declaration.
abbrev pub single : List String → Option String
single [] = none
single (a ∷ []) = some a
single (a ∷ b ∷ as_) = none

-- What the variable of a target passes in a module.
abbrev pub passed : Resolver → String → String → List String
passed r scope target = elim (cut_prefix target "var.") [
  | none ↦ []
  | some name ↦ if scope == "" then [] else index [] (index [] r.args scope) name
]

-- The loop of `resoudre` over the targets; `deeper` is `resoudre` one level down.
unfoldable pub resolve_each :
    (List String → String → List String)
    → Resolver
    → List String
    → String
    → List String
    → List String
unfolding add_addresses cut_prefix parent_prefix
resolve_each deeper r [] scope seen = seen
resolve_each deeper r (c ∷ cs) scope seen = elim (single (index [] r.instances (scope <> c))) [
  | some a ↦ resolve_each deeper r cs scope (add_address seen a)
  | none ↦
      resolve_each deeper r cs scope
        (add_addresses seen (deeper (passed r scope c) (parent_prefix scope)))
]

-- `resoudre`, by the levels that are left: the code stops where the depth is above `max_depth`.
unfoldable pub resolve : ℕ → Resolver → List String → String → List String
unfolding resolve_each sort_strings
resolve zero r targets scope = []
resolve (suc left) r targets scope = sort_strings (resolve_each (resolve left r) r targets scope [])

-- The fields of a resource whose targets resolve.
unfoldable pub resolved_fields : Resolver → String → Targets → Targets
unfolding resolve
resolved_fields r scope [] = []
resolved_fields r scope ((field, targets) ∷ fields) =
    let rest = resolved_fields r scope fields in
    let addresses = resolve (suc max_depth) r targets scope in
    if is_empty addresses then rest else (field, addresses) ∷ rest

abbrev pub references_for : Resolver → Dict Targets → TfResource → Dict (List String)
references_for r refs x = elim (lookup (config_address x.address) refs) [
  | none ↦ x.references
  | some fields ↦
      let found = resolved_fields r (module_prefix (config_address x.address)) fields in
      if is_empty found then x.references else found
]

-- The last loop of `resolveReferences`.
unfoldable pub with_resolved : Resolver → Dict Targets → List TfResource → List TfResource
unfolding resolved_fields
with_resolved r refs [] = []
with_resolved r refs (x ∷ xs) =
    record x { references = references_for r refs x } ∷ with_resolved r refs xs

-- `resolveReferences`
unfoldable pub resolve_references :
    (String → Option (List String)) → Option ConfigModule → List TfResource → List TfResource
unfolding collect_config instances_of with_resolved
resolve_references decode none out = out
resolve_references decode (some cfg) out =
    let gathered = collect_config decode "" cfg (record { refs = []; args = [] }) in
    with_resolved (record { instances = instances_of out []; args = gathered.args }) gathered.refs
      out

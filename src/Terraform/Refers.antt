-- ===== src/Terraform/Refers.antt =====
-- internal/tfparse/tfparse.go: what the references of a parsed plan name.
use mathlib.Core.Path.{subst}
use pepin.Prelude.{
  ◌≡◌, refl, sym, ◌∙◌, String, Bool, true, false, not, Option, none, some, List, [], ◌∷◌, inl, inr,
  Dict, index, has, map, All, any_by, any_by-append, any_by-sort_by, arith, Option-cases,
}
use pepin.Terraform.Plan.{
  PlanResource, Module, Modules, TfResource, ConfigModule, collect_resources, collect_module,
  collect_child_modules,
}
use pepin.Terraform.Origins.{Index, resolve_origins}
use pepin.Terraform.References.{
  Targets, with_resolved, resolve_references, collect_config, is_empty,
}
use pepin.Terraform.Parse.{address_le, Document, parse_plan, resources_of, root_of}
use pepin.Terraform.Only.{
  address_of, RefersOnly, resolver, with_resolved-RefersOnly, with_resolved-address_of,
}

resolve_references-RefersOnly :
    (decode : String → Option (List String)) (cfg : Option ConfigModule) (xs : List TfResource)
    → ((known : List String) → All (RefersOnly known) xs)
    → All
        (RefersOnly (map address_of (resolve_references decode cfg xs)))
        (resolve_references decode cfg xs)
unfolding resolve_references
resolve_references-RefersOnly decode none xs h = h _
resolve_references-RefersOnly decode (some cfg) xs h =
    let gathered = collect_config decode "" cfg (record { refs = []; args = [] }) in
    subst
      (λ known. All (RefersOnly known) (with_resolved (resolver xs gathered.args) gathered.refs xs))
      (sym (with_resolved-address_of xs gathered.args gathered.refs xs))
      (with_resolved-RefersOnly xs gathered.args gathered.refs xs (h _))

abbrev has_references : TfResource → Bool
has_references x = not (is_empty x.references)

bare_index :
    (refs : Targets) (field a : String) → is_empty refs ≡ true → has (index [] refs field) a ≡ false
bare_index [] field a h = refl
bare_index (r ∷ refs) field a h = absurd (ground (arith, h))

bare-All :
    (xs : List TfResource)
    → any_by has_references xs ≡ false
    → (known : List String) → All (RefersOnly known) xs
bare-All [] h known = tt
bare-All (x ∷ xs) h known = (
  λ field a there. absurd (ground (arith, h, there, bare_index x.references field a)),
  bare-All xs (ground (arith, h)) known,
)

collect_resources-bare :
    (rs : List PlanResource) → any_by has_references (collect_resources rs) ≡ false
unfolding collect_resources
collect_resources-bare [] = refl
collect_resources-bare (r ∷ rs) = ground (arith, collect_resources-bare rs)

mutual
  unfolding collect_module

  collect_module-bare : (m : Module) → any_by has_references (collect_module m) ≡ false
  collect_module-bare (Module.module_of rs children) =
      any_by-append has_references (collect_resources rs) (collect_child_modules children)
      ∙ ground (arith, collect_resources-bare rs, collect_child_modules-bare children)

  collect_child_modules-bare :
      (ms : Modules) → any_by has_references (collect_child_modules ms) ≡ false
  collect_child_modules-bare Modules.stop = refl
  collect_child_modules-bare (Modules.child m ms) =
      any_by-append has_references (collect_module m) (collect_child_modules ms)
      ∙ ground (arith, collect_module-bare m, collect_child_modules-bare ms)

resolve_origins-bare :
    (indexes : Dict Index) (xs : List TfResource)
    → any_by has_references (resolve_origins indexes xs) ≡ any_by has_references xs
unfolding resolve_origins
resolve_origins-bare indexes [] = refl
resolve_origins-bare indexes (x ∷ xs) = ground (arith, resolve_origins-bare indexes xs)

-- A resolved reference names one resource of the plan: in the resources that `ParsePlan` returns,
-- every address that an argument refers to is the address of a resource that is among them, and no
-- other one among them is of an instance of the same declaration.
pub parse_plan-RefersOnly :
    (decode : String → Option (List String)) (index_of : Option ConfigModule → Dict Index)
    (doc : Document) (out : List TfResource)
    → parse_plan decode index_of doc ≡ inr out
    → All (RefersOnly (map address_of out)) out
unfolding parse_plan resources_of
parse_plan-RefersOnly decode index_of Document.no_file out h = absurd (ground (arith, h))
parse_plan-RefersOnly decode index_of Document.no_json out h = absurd (ground (arith, h))
parse_plan-RefersOnly decode index_of (Document.plan p) out h = elim (Option-cases (root_of p)) [
  | inl absent ↦ absurd (ground (arith, h, absent))
  | inr (root, present) ↦
      let placed = resolve_origins (index_of p.configuration) (resources_of root) in
      subst (λ (made : List TfResource). All (RefersOnly (map address_of made)) made)
        (ground (arith, h, present))
        (resolve_references-RefersOnly decode p.configuration placed (
          bare-All placed (
            resolve_origins-bare (index_of p.configuration) (resources_of root)
            ∙ any_by-sort_by address_le has_references (collect_module root)
            ∙ collect_module-bare root)))
]

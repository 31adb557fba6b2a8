-- ===== src/Terraform/Filling.antt =====
-- internal/tfmap/tfmap.go: the values that the references of a resource fill.
use pepin.Prelude.{
  ◌≡◌, refl, String, ◌<>◌, Bool, true, false, not, ◌&&◌, ◌||◌, Option, none, some, List, [], ◌∷◌,
  if◌then◌else◌, ◌==◌, Dict, index, insert, contains, cut_prefix, inl, inr, Bool-cases,
  Option-cases, arith,
}
use pepin.Model.Resource.{Value, Values, Fields, Attestation}
use pepin.Model.Json.{field_of, set_field}
use pepin.Terraform.References.{is_empty}

abbrev without_parent : String → String
without_parent path = elim (cut_prefix path "_parent.") [ none ↦ path | some rest ↦ rest ]

-- `champArgument`
unfoldable pub argument_of : String → Option String
unfolding cut_prefix contains
argument_of path =
    let name = without_parent path in
    if name == "" || (contains name "." || contains name "[") then none else some name

abbrev addresses_of : List String → Values
addresses_of [] = Values.end
addresses_of (a ∷ as_) = Values.item (Value.text a) (addresses_of as_)

-- One address is a text, several are a list.
abbrev pub reference_value : List String → Value
reference_value (a ∷ []) = Value.text a
reference_value as_ = Value.array (addresses_of as_)

abbrev pub is_there {ℓ} : {A : Type ℓ} → Option A → Bool
is_there none = false
is_there (some a) = true

-- The arguments that the code fills: the plan has no value for them, and references.
abbrev pub is_filled : Fields → Dict (List String) → String → Bool
is_filled values refs name =
    not (is_there (field_of name values)) && not (is_empty (index [] refs name))

-- The loop of `withReferences`, over the values and the copy of them.
unfoldable pub fill : Fields → Dict (List String) → Dict String → Fields → Fields
unfolding argument_of
fill values refs [] complete = complete
fill values refs ((attr, path) ∷ mapping) complete = elim (argument_of path) [
  | none ↦ fill values refs mapping complete
  | some name ↦
      if is_filled values refs name
      then fill values refs mapping (set_field name (reference_value (index [] refs name)) complete)
      else fill values refs mapping complete
]

-- `withReferences`; `none` is the nil map.
unfoldable pub with_references : Option Fields → Dict String → Dict (List String) → Option Fields
unfolding fill
with_references none mapping refs = none
with_references (some values) mapping refs =
    if is_empty refs then some values else some (fill values refs mapping values)

-- `champsInjectes`, a set of attributes.
unfoldable pub injected_fields : Fields → Dict (List String) → Dict String → List String
unfolding argument_of
injected_fields values refs [] = []
injected_fields values refs ((attr, path) ∷ mapping) =
    let rest = injected_fields values refs mapping in
    elim (argument_of path) [
      | none ↦ rest
      | some name ↦ if is_filled values refs name then attr ∷ rest else rest
    ]

-- `attestReferences`
unfoldable pub attest_references :
    String → Fields → Dict (List String) → Dict String → Dict Attestation → Dict Attestation
unfolding argument_of
attest_references type values refs [] prov = prov
attest_references type values refs ((attr, path) ∷ mapping) prov = elim (argument_of path) [
  | none ↦ attest_references type values refs mapping prov
  | some name ↦
      if is_filled values refs name
      then attest_references type values refs mapping (
          insert attr
            (record {
              origin = "terraform-plan";
              source = "configuration:" <> type;
              path = name <> ".references";
              observed = true;
              derived = true;
            })
            prov)
      else attest_references type values refs mapping prov
]

field_of-set_field :
    (j k : String) (v : Value) (fs : Fields)
    → field_of j (set_field k v fs) ≡ (if j == k then some v else field_of j fs)
field_of-set_field j k v Fields.stop = refl
field_of-set_field j k v (Fields.field i w fs) = ground (arith, field_of-set_field j k v fs)

-- A path of the mapping names the argument.
abbrev pub names_argument : String → Dict String → Bool
names_argument k [] = false
names_argument k ((attr, path) ∷ mapping) = elim (argument_of path) [
  | none ↦ names_argument k mapping
  | some name ↦ k == name || names_argument k mapping
]

abbrev pub filled_value : Fields → Dict (List String) → String → Bool → Option Value → Option Value
filled_value values refs k named o =
    if named && is_filled values refs k then some (reference_value (index [] refs k)) else o

fill-filled_value :
    (k : String) (values : Fields) (refs : Dict (List String)) (mapping : Dict String)
    (complete : Fields)
    → field_of k (fill values refs mapping complete)
      ≡ filled_value values refs k (names_argument k mapping) (field_of k complete)
unfolding fill
fill-filled_value k values refs [] complete = refl
fill-filled_value k values refs ((attr, path) ∷ mapping) complete =
    elim (Option-cases (argument_of path)) [
      | inl nested ↦ ground (arith, nested, fill-filled_value k values refs mapping complete)
      | inr (name, argument) ↦ elim (Bool-cases (is_filled values refs name)) [
        | inl filled ↦ ground (
          arith,
          argument,
          filled,
          field_of-set_field k name (reference_value (index [] refs name)) complete,
          fill-filled_value k values refs mapping
              (set_field name (reference_value (index [] refs name)) complete),
        )
        | inr kept ↦
            ground (arith, argument, kept, fill-filled_value k values refs mapping complete)
      ]
    ]

abbrev pub or_stop : Option Fields → Fields
or_stop none = Fields.stop
or_stop (some fs) = fs

-- The references fill holes only: with the references of a resource, an argument has the addresses
-- exactly where the plan has no value for it, it has references, and a path of the mapping names it;
-- in every other case it has what the plan says, a value that is there first of all.
pub with_references-filled_value :
    (k : String) (values : Fields) (mapping : Dict String) (refs : Dict (List String))
    → field_of k (or_stop (with_references (some values) mapping refs))
      ≡ filled_value values refs k (names_argument k mapping) (field_of k values)
unfolding with_references
with_references-filled_value k values mapping [] = ground arith
with_references-filled_value k values mapping (r ∷ refs) =
    fill-filled_value k values (r ∷ refs) mapping values

-- ===== src/Terraform/Addresses.antt =====
-- internal/tfparse: the addresses of a plan.
use Prim.Native.Char.{code}
use pepin.Prelude.{
  ℕ, zero, suc, ◌-◌, String, ◌<>◌, Option, none, some, List, [], ◌∷◌, if◌then◌else◌, ◌==◌, nat_eq,
  starts_with, cut_prefix, cut_suffix, split_char, join, size,
}

-- `configAddress`, with the number of open brackets.
unfoldable pub config_from : ℕ → String → String
config_from depth String.[] = ""
config_from depth (String.◌∷◌ c s) =
    if nat_eq (code c) b'['
    then config_from (suc depth) s
    else if nat_eq (code c) b']'
    then config_from (depth - 1) s
    else if nat_eq depth 0
    then String.◌∷◌ c (config_from depth s)
    else config_from depth s

unfoldable pub config_address : String → String
unfolding config_from
config_address address = config_from 0 address

-- What stands up to the first `.`, that included, and what stands behind it.
unfoldable pub cut_dot : String → Option (String × String)
cut_dot String.[] = none
cut_dot (String.◌∷◌ c s) =
    let rest = cut_dot s in
    if nat_eq (code c) b'.'
    then some (String.◌∷◌ c "", s)
    else elim rest [ none ↦ none | some (front, behind) ↦ some (String.◌∷◌ c front, behind) ]

-- The loop of `modulePrefix`. Each turn takes seven characters at least, so as many turns as the
-- address has characters are enough.
unfoldable pub prefix_from : ℕ → String → String
unfolding cut_dot cut_prefix
prefix_from zero rest = ""
prefix_from (suc n) rest = elim (cut_prefix rest "module.") [
  | none ↦ ""
  | some behind ↦ elim (cut_dot behind) [
    | none ↦ ""
    | some (name, next) ↦ "module." <> name <> prefix_from n next
  ]
]

-- `modulePrefix`
unfoldable pub module_prefix : String → String
unfolding prefix_from
module_prefix address = prefix_from (size address) address

-- What stands before the last `module.`; `none` where it has none.
unfoldable pub before_last_module : String → Option String
before_last_module String.[] = none
before_last_module (String.◌∷◌ c s) =
    let rest = before_last_module s in
    elim rest [
      | some front ↦ some (String.◌∷◌ c front)
      | none ↦ if starts_with (String.◌∷◌ c s) "module." then some "" else none
    ]

abbrev without_dot : String → String
without_dot prefix_ = elim (cut_suffix prefix_ ".") [ none ↦ prefix_ | some front ↦ front ]

-- `parentPrefix`: where `module.` stands at the start, it is the root.
unfoldable pub parent_prefix : String → String
unfolding before_last_module cut_suffix
parent_prefix prefix_ = elim (before_last_module (without_dot prefix_)) [
  | none ↦ ""
  | some front ↦ front
]

-- The loop of `moduleOf`, by pairs.
unfoldable pub module_parts : List String → List String
module_parts [] = []
module_parts (part ∷ []) = []
module_parts (part ∷ name ∷ parts) =
    let rest = module_parts parts in if part == "module" then part ∷ name ∷ rest else []

-- `moduleOf`
unfoldable pub module_of : String → String
unfolding module_parts split_char
module_of address = join (module_parts (split_char b'.' address)) "."

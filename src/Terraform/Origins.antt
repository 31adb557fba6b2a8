-- ===== src/Terraform/Origins.antt =====
-- internal/tfparse/origin.go: where the code declares the resources of a plan. The files, path/filepath
-- and the regular expression of a block's header are parameters.
use pepin.Prelude.{
  ℕ, suc, String, ◌<>◌, Bool, not, ◌||◌, Option, none, some, List, [], ◌∷◌, if◌then◌else◌, ◌==◌,
  Dict, lookup, insert, split_char, starts_with, cut_suffix,
}
use pepin.Terraform.Plan.{Origin, TfResource, ConfigModule, ModuleCalls}
use pepin.Terraform.Addresses.{module_of}

pub record Paths : Type 0 where
  pub join_path : String → String → String
  pub clean_path : String → String
  pub header : String → Option (String × String)

-- An entry of a directory; `none` is a file that cannot be read.
pub record DirEntry : Type 0 where
  pub name : String
  pub is_dir : Bool
  pub content : Option String

-- `none` is `ambiguous`: a block that was seen more than once.
abbrev pub Index : Type 0
Index = Dict (Option Origin)

abbrev has_suffix : String → String → Bool
has_suffix s suffix = elim (cut_suffix s suffix) [ none ↦ Bool.false | some front ↦ Bool.true ]

module _ (paths : Paths) where
  abbrev index_key : String → ℕ → String → Index → Index
  index_key file line key idx = elim (lookup key idx) [
    | some seen ↦ insert key none idx
    | none ↦ insert key (some (record { file = file; line = line; module_address = "" })) idx
  ]

  -- The loop of `indexDir` over the lines of a file.
  unfoldable pub index_lines : String → ℕ → List String → Index → Index
  index_lines file i [] idx = idx
  index_lines file i (line ∷ lines) idx = elim (paths.header line) [
    | none ↦ index_lines file (suc i) lines idx
    | some (type, name) ↦
        index_lines file (suc i) lines (index_key file (suc i) (type <> "." <> name) idx)
  ]

  abbrev index_file : String → DirEntry → Index → Index
  index_file rel e idx = if e.is_dir || not (has_suffix e.name ".tf") then idx else elim e.content [
    | none ↦ idx
    | some raw ↦ index_lines (paths.join_path rel e.name) 0 (split_char b'\n' raw) idx
  ]

  -- `indexDir`; a directory that cannot be read has no entries.
  unfoldable pub index_dir : String → List DirEntry → Index → Index
  unfolding index_lines
  index_dir rel [] idx = idx
  index_dir rel (e ∷ es) idx = index_dir rel es (index_file rel e idx)

  -- `moduleDirsOf`; the name of a call is in one place of the map of the calls.
  unfoldable mutual
    pub dirs_of_module : String → String → ConfigModule → Dict String → Dict String
    dirs_of_module address base (ConfigModule.config_module rs calls) out =
        dirs_of_calls address base calls out

    pub dirs_of_calls : String → String → ModuleCalls → Dict String → Dict String
    dirs_of_calls address base ModuleCalls.stop out = out
    dirs_of_calls address base (ModuleCalls.call name source m expressions calls) out =
        let below = if address == "" then "module." <> name else address <> ".module." <> name in
        let dir = paths.join_path base (paths.clean_path source) in
        if starts_with source "./" || starts_with source "../"
        then dirs_of_calls address base calls (dirs_of_module below dir m (insert below dir out))
        else dirs_of_calls address base calls out

  unfoldable pub module_dirs_of : Option ConfigModule → Dict String
  unfolding dirs_of_module
  module_dirs_of none = []
  module_dirs_of (some cfg) = dirs_of_module "" "." cfg []

-- The file and the line that an index gives a block.
abbrev placed : Option (Option Origin) → Origin → Origin
placed (some (some o)) origin = record origin { file = o.file; line = o.line }
placed o origin = origin

abbrev locate : Dict Index → TfResource → Origin
locate indexes r =
    let mod_address = module_of r.address in
    let origin = record (r.origin) { module_address = mod_address } in
    elim (lookup mod_address indexes) [
      | none ↦ origin
      | some idx ↦ placed (lookup (r.type <> "." <> r.name) idx) origin
    ]

-- `resolveOrigins`, with the index of the root and of each local module.
unfoldable pub resolve_origins : Dict Index → List TfResource → List TfResource
unfolding module_of
resolve_origins indexes [] = []
resolve_origins indexes (r ∷ rs) =
    record r { origin = locate indexes r } ∷ resolve_origins indexes rs

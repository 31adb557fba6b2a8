-- ===== src/Collect/Paths.antt =====
-- internal/collect/engine.go: the dotted paths of a mapping, read for the value and for the presence.
use Prim.Native.Char.{code}
use pepin.Prelude.{
  ℕ, ◌+◌, ◌-◌, ◌*◌, ◌≡◌, refl, String, Bool, true, false, not, ◌&&◌, Option, none, some, List, [],
  ◌∷◌, arith, if◌then◌else◌, ◌==◌, leb, nat_eq, any_by, inl, inr, Option-cases, trim_space,
  split_char, split_bars, contains,
}
use pepin.Model.Resource.{Value, Values, Fields}
use pepin.Model.Json.{is_null, field_of, field_or_null, nth}

abbrev is_digit : ℕ → Bool
is_digit c = leb b'0' c && leb c b'9'

unfoldable pub digits_value : String → ℕ → Option ℕ
digits_value String.[] acc = some acc
digits_value (String.◌∷◌ c s) acc =
    let rest = digits_value s (10 * acc + (code c - b'0')) in
    if is_digit (code c) then rest else none

-- `strconv.Atoi`, where it gives an index: what it refuses, what is negative and what does not fit in
-- an int is past the end of every slice.
unfoldable pub index_of_key : String → Option ℕ
unfolding digits_value
index_of_key String.[] = none
index_of_key (String.◌∷◌ c String.[]) = if is_digit (code c) then some (code c - b'0') else none
index_of_key (String.◌∷◌ c (String.◌∷◌ d s)) =
    if nat_eq (code c) b'+'
    then digits_value (String.◌∷◌ d s) 0
    else if nat_eq (code c) b'-'
    then elim (digits_value (String.◌∷◌ d s) 0) [
      | none ↦ none
      | some n ↦ if nat_eq n 0 then some 0 else none
    ]
    else digits_value (String.◌∷◌ c (String.◌∷◌ d s)) 0

abbrev element : String → Values → Option Value
element key vs = elim (index_of_key key) [ none ↦ none | some i ↦ nth i vs ]

-- The loop of `lookup` over the keys.
unfoldable pub lookup_keys : Value → List String → Value
lookup_keys v [] = v
lookup_keys (Value.object fs) (k ∷ ks) = lookup_keys (field_or_null k fs) ks
lookup_keys (Value.array vs) (k ∷ ks) = elim (element k vs) [
  | none ↦ Value.null
  | some v ↦ lookup_keys v ks
]
lookup_keys Value.null (k ∷ ks) = Value.null
lookup_keys (Value.bool b) (k ∷ ks) = Value.null
lookup_keys (Value.number n) (k ∷ ks) = Value.null
lookup_keys (Value.text s) (k ∷ ks) = Value.null

abbrev pub keys_of_path : String → List String
keys_of_path path = split_char b'.' path

-- `lookup`
unfoldable pub lookup_path : Value → String → Value
unfolding lookup_keys
lookup_path v path = if path == "" then v else lookup_keys v (keys_of_path path)

-- The loop of `pathExists`.
unfoldable pub exists_keys : Value → List String → Bool
exists_keys v [] = true
exists_keys (Value.object fs) (k ∷ ks) = elim (field_of k fs) [
  | none ↦ false
  | some v ↦ exists_keys v ks
]
exists_keys (Value.array vs) (k ∷ ks) = elim (element k vs) [
  | none ↦ false
  | some v ↦ exists_keys v ks
]
exists_keys Value.null (k ∷ ks) = false
exists_keys (Value.bool b) (k ∷ ks) = false
exists_keys (Value.number n) (k ∷ ks) = false
exists_keys (Value.text s) (k ∷ ks) = false

-- `pathExists`. `strings.Split` gives at least one key, so the loop returns at the last one.
unfoldable pub path_exists : Value → String → Bool
unfolding exists_keys
path_exists v path = if path == "" then not (is_null v) else exists_keys v (keys_of_path path)

abbrev exists_trimmed : Value → String → Bool
exists_trimmed it p = path_exists it (trim_space p)

-- `sourcePresent`
unfoldable pub source_present : Value → String → Bool
unfolding path_exists
source_present it path =
    if not (contains path "||")
    then path_exists it path
    else any_by (exists_trimmed it) (split_bars path)

-- The loop of `lookupCoalesce`: the first value that is not nil.
unfoldable pub first_found : Value → List String → Value
unfolding lookup_path
first_found it [] = Value.null
first_found it (p ∷ ps) =
    let rest = first_found it ps in
    if is_null (lookup_path it (trim_space p)) then rest else lookup_path it (trim_space p)

-- `lookupCoalesce`
unfoldable pub lookup_coalesce : Value → String → Value
unfolding first_found
lookup_coalesce it path =
    if not (contains path "||") then lookup_path it path else first_found it (split_bars path)

field_or_null-field_of :
    (k : String) (fs : Fields)
    → field_or_null k fs ≡ elim (field_of k fs) [ none ↦ Value.null | some v ↦ v ]
field_or_null-field_of k Fields.stop = refl
field_or_null-field_of k (Fields.field j v fs) = ground (arith, field_or_null-field_of k fs)

lookup_null : (ks : List String) → lookup_keys Value.null ks ≡ Value.null
unfolding lookup_keys
lookup_null [] = refl
lookup_null (k ∷ ks) = refl

lookup_keys-exists :
    (v : Value) (ks : List String) → exists_keys v ks ≡ false → is_null (lookup_keys v ks) ≡ true
unfolding lookup_keys exists_keys
lookup_keys-exists v [] h = absurd (ground arith)
lookup_keys-exists (Value.object fs) (k ∷ ks) h = elim (Option-cases (field_of k fs)) [
  | inl absent ↦ ground (arith, absent, field_or_null-field_of k fs, lookup_null ks)
  | inr (v, found) ↦ ground (arith, found, field_or_null-field_of k fs, lookup_keys-exists v ks)
]
lookup_keys-exists (Value.array vs) (k ∷ ks) h = elim (Option-cases (element k vs)) [
  | inl absent ↦ ground (arith, absent)
  | inr (v, found) ↦ ground (arith, found, lookup_keys-exists v ks)
]
lookup_keys-exists Value.null (k ∷ ks) h = refl
lookup_keys-exists (Value.bool b) (k ∷ ks) h = refl
lookup_keys-exists (Value.number n) (k ∷ ks) h = refl
lookup_keys-exists (Value.text s) (k ∷ ks) h = refl

lookup_path-exists :
    (v : Value) (path : String) → path_exists v path ≡ false → is_null (lookup_path v path) ≡ true
unfolding lookup_path path_exists
lookup_path-exists v path h = ground (arith, lookup_keys-exists v (keys_of_path path))

first_found-exists :
    (v : Value) (ps : List String)
    → any_by (exists_trimmed v) ps ≡ false
    → is_null (first_found v ps) ≡ true
unfolding first_found
first_found-exists v [] h = refl
first_found-exists v (p ∷ ps) h =
    ground (arith, lookup_path-exists v (trim_space p), first_found-exists v ps)

-- A path that does not exist in the source, in any of its alternatives, has no value.
pub lookup_coalesce-absent :
    (v : Value) (path : String)
    → source_present v path ≡ false
    → is_null (lookup_coalesce v path) ≡ true
unfolding lookup_coalesce source_present
lookup_coalesce-absent v path h =
    ground (arith, lookup_path-exists v path, first_found-exists v (split_bars path))

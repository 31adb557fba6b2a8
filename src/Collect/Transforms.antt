-- ===== src/Collect/Transforms.antt =====
-- internal/collect/engine.go: `applyTransform`, the named transforms of a mapping. What Go's standard
-- library computes on a value is the parameter `go`.
use Prim.Native.Char.{Char, code}
use Prim.Native.String.{char_at}
use pepin.Prelude.{
  ℕ, ◌-◌, String, ◌<>◌, Bool, true, false, ◌&&◌, ◌||◌, Option, none, some, List, [], ◌∷◌, ◌++◌,
  if◌then◌else◌, ◌==◌, leb, nat_eq, has, any_by, starts_with, trim_space, cut_suffix,
}
use pepin.Model.Resource.{Value, Values, Fields}
use pepin.Model.Json.{field_or_null, from_list}

-- `fmt.Sprintf("%v", x)` on what is not a string; `strings.ToLower` and `ToUpper`; a compiled
-- expression, `none` being its error; `int64` of a float; `strconv.ParseInt` and `ParseFloat`, by the
-- text of their result; `strings.Cut(s, "=")`; the decoded `Statement` of a policy document, `none`
-- where the document does not decode or has none.
pub record Go : Type 0 where
  pub sprint : Value → String
  pub to_lower : String → String
  pub to_upper : String → String
  pub regexp : String → Option (String → Bool)
  pub truncate : String → String
  pub parse_int : String → Option String
  pub parse_float : String → Option String
  pub cut_equals : String → String × String
  pub statement_of : String → Option Value

-- A transform of a mapping: a name, a chain, a table of replacements, or another YAML value.
mutual
  pub data Transform : Type 0 where
    named : String → Transform
    chain : Transforms → Transform
    table : Fields → Transform
    literal : Transform

  pub data Transforms : Type 0 where
    stop : Transforms
    step : Transform → Transforms → Transforms

unfoldable pub known_bare_transforms : List String
known_bare_transforms =
    "lower" ∷ "upper" ∷ "first" ∷ "range_from" ∷ "range_to" ∷ "iampolicy" ∷ "list" ∷ "kv" ∷ "to_int"
    ∷ "to_bool" ∷ "nonempty" ∷ "snake_keys" ∷ "region_of_zone" ∷ "duration_seconds" ∷ []

unfoldable pub known_transform_prefixes : List String
known_transform_prefixes =
    "equals:" ∷ "default:" ∷ "default_null:" ∷ "pluck:" ∷ "contains:" ∷ "matches:" ∷ []

abbrev is_known_transform : String → Bool
is_known_transform t =
    has known_bare_transforms t || any_by (starts_with t) known_transform_prefixes

-- `ValidateTransform`: the unknown names.
unfoldable mutual
  pub validate_transform : Transform → List String
  validate_transform (Transform.named t) = if is_known_transform t then [] else t ∷ []
  validate_transform (Transform.chain ts) = validate_transforms ts
  validate_transform (Transform.table fs) = []
  validate_transform Transform.literal = []

  pub validate_transforms : Transforms → List String
  validate_transforms Transforms.stop = []
  validate_transforms (Transforms.step t ts) = validate_transform t ++ validate_transforms ts

abbrev is_upper : ℕ → Bool
is_upper c = leb b'A' c && leb c b'Z'

abbrev is_lower : ℕ → Bool
is_lower c = leb b'a' c && leb c b'z'

abbrev is_digit : ℕ → Bool
is_digit c = leb b'0' c && leb c b'9'

-- The rune behind, 0 at the end.
abbrev next_code : String → ℕ
next_code String.[] = 0
next_code (String.◌∷◌ c s) = code c

abbrev lower_char : Char → Char
lower_char c = if is_upper (code c) then char_at "abcdefghijklmnopqrstuvwxyz" (code c - b'A') else c

-- The loop of `toSnakeCase`, with the code of the rune before, 0 at the start.
unfoldable pub snake_from : ℕ → String → String
snake_from prev String.[] = ""
snake_from prev (String.◌∷◌ c s) =
    let rest = snake_from (code c) s in
    if is_upper (code c)
    then (if is_lower prev || is_digit prev || is_upper prev && is_lower (next_code s)
        then "_" <> String.◌∷◌ (lower_char c) rest
        else String.◌∷◌ (lower_char c) rest)
    else String.◌∷◌ c rest

-- `toSnakeCase`
unfoldable pub to_snake_case : String → String
unfolding snake_from
to_snake_case s = snake_from 0 s

-- `snakeKeys`
unfoldable mutual
  unfolding to_snake_case

  pub snake_keys : Value → Value
  snake_keys (Value.object fs) = Value.object (snake_fields fs)
  snake_keys (Value.array vs) = Value.array (snake_values vs)
  snake_keys Value.null = Value.null
  snake_keys (Value.bool b) = Value.bool b
  snake_keys (Value.number n) = Value.number n
  snake_keys (Value.text s) = Value.text s

  pub snake_values : Values → Values
  snake_values Values.end = Values.end
  snake_values (Values.item v vs) = Values.item (snake_keys v) (snake_values vs)

  pub snake_fields : Fields → Fields
  snake_fields Fields.stop = Fields.stop
  snake_fields (Fields.field k v fs) =
      Fields.field (to_snake_case k) (snake_keys v) (snake_fields fs)

unfoldable all_digits : String → Bool
all_digits String.[] = true
all_digits (String.◌∷◌ c s) = is_digit (code c) && all_digits s

-- The two suffixes that the expression `zoneSuffixe` accepts.
abbrev is_zone_suffix : String → Bool
is_zone_suffix String.[] = false
is_zone_suffix (String.◌∷◌ c String.[]) = is_lower (code c)
is_zone_suffix (String.◌∷◌ c (String.◌∷◌ d s)) =
    nat_eq (code c) b'-' && is_digit (code d) && all_digits s

-- The group of the expression: the shortest text, without a line feed, before a suffix.
unfoldable pub zone_front : String → Option String
unfolding all_digits
zone_front String.[] = none
zone_front (String.◌∷◌ c s) =
    let rest = zone_front s in
    if is_zone_suffix (String.◌∷◌ c s)
    then some ""
    else if nat_eq (code c) 10
    then none
    else elim rest [ none ↦ none | some front ↦ some (String.◌∷◌ c front) ]

abbrev trim_dash : String → String
trim_dash s = elim (cut_suffix s "-") [ none ↦ s | some front ↦ front ]

-- The text up to the first dash, and the text behind it.
unfoldable pub cut_dash : String → String × Option String
cut_dash String.[] = ("", none)
cut_dash (String.◌∷◌ c s) =
    let (front, behind) = cut_dash s in
    if nat_eq (code c) b'-' then ("", some s) else (String.◌∷◌ c front, behind)

abbrev pub or_null : Value → Value → Value
or_null Value.null w = w
or_null v w = v

abbrev text_list : Value → Value
text_list (Value.text s) = Value.array (Values.item (Value.text s) Values.end)
text_list (Value.array vs) = Value.array vs
text_list v = Value.null

-- One statement, with the names of the rules; `toAnyList` is `text_list`.
abbrev statement : Fields → Value
statement st = Value.object (
    Fields.field "effect" (field_or_null "Effect" st) (
      Fields.field "actions" (text_list (field_or_null "Action" st)) (
        Fields.field "resources" (text_list (field_or_null "Resource" st)) (
          Fields.field "not_action" (text_list (field_or_null "NotAction" st)) (
            Fields.field "not_resource" (text_list (field_or_null "NotResource" st))
              Fields.stop)))))

-- `[]map[string]any`: `none` where an element is neither an object nor null.
unfoldable pub statements_of : Values → Option (List Value)
statements_of Values.end = some []
statements_of (Values.item v vs) =
    let rest = statements_of vs in
    elim v [
      | Value.object fs ↦ elim rest [ none ↦ none | some sts ↦ some (statement fs ∷ sts) ]
      | Value.null ↦ elim rest [ none ↦ none | some sts ↦ some (statement Fields.stop ∷ sts) ]
      | _ ↦ none
    ]

module _ (go : Go) where
  -- `toStr`
  abbrev pub to_str : Value → String
  to_str (Value.text s) = s
  to_str Value.null = ""
  to_str v = go.sprint v

  -- `regionOfZone`
  unfoldable pub region_of_zone : String → String
  unfolding zone_front cut_suffix trim_space
  region_of_zone zone = elim (zone_front (trim_space (go.to_lower zone))) [
    | none ↦ ""
    | some front ↦ if front == "" then "" else trim_dash front
  ]

  -- `splitRange`, `none` where the third result is false.
  unfoldable pub split_range : String → Option (String × String)
  unfolding cut_dash trim_space
  split_range s =
      let (front, behind) = cut_dash (trim_space s) in
      elim (go.parse_int (trim_space front)) [
        | none ↦ none
        | some from ↦ elim behind [
          | none ↦ some (from, from)
          | some text ↦ elim (go.parse_int (trim_space text)) [
            | none ↦ some (from, from)
            | some to ↦ some (from, to)
          ]
        ]
      ]

  -- `splitPortRange`
  unfoldable pub split_port_range : Value → String × String
  unfolding split_range
  split_port_range (Value.number n) = (go.truncate n, go.truncate n)
  split_port_range (Value.text s) = elim (split_range s) [ none ↦ ("0", "0") | some r ↦ r ]
  split_port_range v = ("0", "0")

  -- `iamPolicyStatements`, null being nil.
  unfoldable pub iam_policy_statements : Value → Value
  unfolding statements_of
  iam_policy_statements (Value.text doc) =
      if doc == "" then Value.null else elim (go.statement_of doc) [
        | none ↦ Value.null
        | some (Value.array vs) ↦ elim (statements_of vs) [
          | none ↦ Value.null
          | some sts ↦ Value.array (from_list sts)
        ]
        | some (Value.object fs) ↦ Value.array (Values.item (statement fs) Values.end)
        | some _ ↦ Value.null
      ]
  iam_policy_statements v = Value.null

  -- `durationSeconds`
  unfoldable pub duration_seconds : String → Value
  unfolding cut_suffix trim_space
  duration_seconds raw =
      let t = trim_space raw in
      if t == ""
      then Value.null
      else elim (go.parse_float (elim (cut_suffix t "s") [ none ↦ t | some front ↦ front ])) [
        | none ↦ Value.null
        | some n ↦ Value.number n
      ]

-- ===== src/Collect/Apply.antt =====
-- internal/collect/engine.go: `applyTransform`.
use pepin.Prelude.{
  String, Bool, true, false, not, ◌&&◌, ◌||◌, none, some, List, [], ◌∷◌, if◌then◌else◌, ◌==◌, has,
  starts_with, cut_prefix, contains,
}
use pepin.Model.Resource.{Value, Values, Fields}
use pepin.Model.Json.{is_null, field_of, field_or_null}
use pepin.Collect.Transforms.{
  Go, Transform, Transforms, to_str, or_null, region_of_zone, split_port_range,
  iam_policy_statements, duration_seconds, snake_keys,
}

abbrev empty_list : Value
empty_list = Value.array Values.end

abbrev pair_of : String → String → Value
pair_of key value =
    Value.object
      (Fields.field "key" (Value.text key) (Fields.field "value" (Value.text value) Fields.stop))

-- The loop of `pluck:`.
unfoldable pluck : String → Values → Values
pluck name Values.end = Values.end
pluck name (Values.item v vs) =
    let rest = pluck name vs in
    elim v [ Value.object fs ↦ Values.item (field_or_null name fs) rest | _ ↦ rest ]

-- `nonempty`
abbrev is_filled : Value → Bool
is_filled Value.null = false
is_filled (Value.text s) = not (s == "")
is_filled (Value.array Values.end) = false
is_filled (Value.object Fields.stop) = false
is_filled v = true

-- `to_bool`
abbrev pub to_bool : Value → Value
to_bool (Value.text s) =
    if s == "true" then Value.bool true else if s == "false" then Value.bool false else Value.text s
to_bool v = v

-- `first`
abbrev first_of : Value → Value
first_of (Value.array (Values.item v vs)) = v
first_of v = v

-- `list`
abbrev list_of : Value → Value
list_of (Value.array vs) = Value.array vs
list_of Value.null = empty_list
list_of (Value.text s) =
    if s == "" then empty_list else Value.array (Values.item (Value.text s) Values.end)
list_of v = Value.array (Values.item v Values.end)

-- The names that a nil value does not stop.
unfoldable pub made_of_nil : List String
made_of_nil = "nonempty" ∷ "kv" ∷ "list" ∷ []

module _ (go : Go) where
  unfoldable pairs_of_fields : Fields → Values
  pairs_of_fields Fields.stop = Values.end
  pairs_of_fields (Fields.field k v fs) = Values.item (pair_of k (to_str go v)) (pairs_of_fields fs)

  abbrev pair_of_element : Value → Value
  pair_of_element (Value.object m) =
      pair_of (to_str go (or_null (field_or_null "key" m) (field_or_null "Key" m)))
        (to_str go (or_null (field_or_null "value" m) (field_or_null "Value" m)))
  pair_of_element v = let (k, w) = go.cut_equals (to_str go v) in pair_of k w

  unfoldable pairs_of_values : Values → Values
  pairs_of_values Values.end = Values.end
  pairs_of_values (Values.item v vs) = Values.item (pair_of_element v) (pairs_of_values vs)

  -- `kv`
  unfoldable kv : Value → Value
  unfolding pairs_of_fields pairs_of_values
  kv (Value.object fs) = Value.array (pairs_of_fields fs)
  kv (Value.array vs) = Value.array (pairs_of_values vs)
  kv v = empty_list

  -- The `switch` on a bare name; a value is returned as it is under a name that no case takes.
  unfoldable pub apply_bare : String → Value → Value
  unfolding kv region_of_zone split_port_range iam_policy_statements duration_seconds
  apply_bare t v =
      if is_null v && not (has made_of_nil t)
      then Value.null
      else if t == "region_of_zone"
      then Value.text (region_of_zone go (to_str go v))
      else if t == "lower"
      then Value.text (go.to_lower (to_str go v))
      else if t == "upper"
      then Value.text (go.to_upper (to_str go v))
      else if t == "first"
      then first_of v
      else if t == "range_from"
      then Value.number (split_port_range go v).0
      else if t == "range_to"
      then Value.number (split_port_range go v).1
      else if t == "iampolicy"
      then iam_policy_statements go v
      else if t == "list"
      then list_of v
      else if t == "kv"
      then kv v
      else if t == "duration_seconds"
      then duration_seconds go (to_str go v)
      else if t == "to_int"
      then elim (go.parse_int (to_str go v)) [ none ↦ v | some n ↦ Value.number n ]
      else if t == "to_bool"
      then to_bool v
      else if t == "snake_keys"
      then snake_keys v
      else if t == "nonempty"
      then Value.bool (is_filled v)
      else v

  -- `matches:`, false for an expression that does not compile.
  abbrev matches : String → Value → Bool
  matches motif v = elim (go.regexp motif) [ none ↦ false | some test ↦ test (to_str go v) ]

  -- The prefixes, in the order of the tests.
  unfoldable pub apply_named : String → Value → Value
  unfolding apply_bare pluck cut_prefix contains
  apply_named t v = elim (cut_prefix t "equals:") [
    | some want ↦ Value.bool (to_str go v == want)
    | none ↦ elim (cut_prefix t "default:") [
      | some def ↦ if to_str go v == "" then Value.text def else v
      | none ↦ elim (cut_prefix t "default_null:") [
        | some def ↦ if is_null v then Value.text def else v
        | none ↦ elim (cut_prefix t "pluck:") [
          | some name ↦ elim v [ Value.array vs ↦ Value.array (pluck name vs) | _ ↦ empty_list ]
          | none ↦ elim (cut_prefix t "matches:") [
            | some motif ↦ Value.bool (matches motif v)
            | none ↦ elim (cut_prefix t "contains:") [
              | some sub ↦ Value.bool (sub == "" || contains (to_str go v) sub)
              | none ↦ apply_bare t v
            ]
          ]
        ]
      ]
    ]
  ]

  -- `applyTransform`
  unfoldable mutual
    unfolding apply_named

    pub apply_transform : Transform → Value → Value
    apply_transform (Transform.named t) v = apply_named t v
    apply_transform (Transform.chain ts) v = apply_chain ts v
    apply_transform (Transform.table fs) v = elim (field_of (to_str go v) fs) [
      | none ↦ v
      | some mapped ↦ mapped
    ]
    apply_transform Transform.literal v = v

    pub apply_chain : Transforms → Value → Value
    apply_chain Transforms.stop v = v
    apply_chain (Transforms.step t ts) v = apply_chain ts (apply_transform t v)

  -- Whether a transform derives the value, `applyTransformAttested`.
  abbrev derives_named : String → Value → Bool
  derives_named t v =
      if starts_with t "default_null:" && not (is_null v)
      then false
      else if t == "to_bool"
      then elim v [
        | Value.text s ↦ elim (to_bool (Value.text s)) [ Value.bool b ↦ true | _ ↦ false ]
        | _ ↦ false
      ]
      else true

  -- `applyTransformAttested`: the value of `applyTransform`, and the flag.
  unfoldable mutual
    unfolding apply_transform

    pub apply_transform_attested : Transform → Value → Value × Bool
    apply_transform_attested (Transform.named t) v =
        (apply_transform (Transform.named t) v, derives_named t v)
    apply_transform_attested (Transform.chain ts) v = apply_chain_attested ts v false
    apply_transform_attested (Transform.table fs) v = (apply_transform (Transform.table fs) v, true)
    apply_transform_attested Transform.literal v = (v, true)

    pub apply_chain_attested : Transforms → Value → Bool → Value × Bool
    apply_chain_attested Transforms.stop v derived = (v, derived)
    apply_chain_attested (Transforms.step t ts) v derived =
        let (w, step_derived) = apply_transform_attested t v in
        apply_chain_attested ts w (derived || step_derived)

-- ===== src/Collect/Items.antt =====
-- internal/collect/engine.go: `extractItems`, the items of a response, each with its parent.
use pepin.Prelude.{
  String, not, Option, none, some, List, [], ◌∷◌, ◌++◌, if◌then◌else◌, ◌==◌, contains, cut_suffix,
}
use pepin.Model.Resource.{Value, Fields}
use pepin.Model.Json.{field_or_null, set_field, to_list}
use pepin.Collect.Paths.{lookup_path, keys_of_path}

-- The parent of a leaf; `none` is the nil map.
abbrev pub Parent : Type 0
Parent = Option Fields

-- A leaf of `gather`.
abbrev pub leaf : Value → Parent → Value
leaf (Value.object fs) (some parent) = Value.object (set_field "_parent" (Value.object parent) fs)
leaf v parent = v

abbrev elements_of : Value → List Value
elements_of (Value.array vs) = to_list vs
elements_of v = []

abbrev each_element : (Value → List Value) → List Value → List Value
each_element f [] = []
each_element f (v ∷ vs) = f v ++ each_element f vs

-- `gather`, which appends to `out`; a segment `name[*]` runs through an array.
unfoldable pub gather : List String → Value → Parent → List Value
gather [] v parent = leaf v parent ∷ []
gather (seg ∷ segs) (Value.object fs) parent = elim (cut_suffix seg "[*]") [
  | none ↦ gather segs (field_or_null seg fs) parent
  | some name ↦ each_element (λ v. gather segs v (some fs)) (elements_of (field_or_null name fs))
]
gather (seg ∷ segs) v parent = []

-- The two `switch` of `extractItems` on a path without `[*]`.
abbrev items_of : Value → List Value
items_of (Value.array vs) = to_list vs
items_of (Value.object fs) = Value.object fs ∷ []
items_of v = []

-- `extractItems`
unfoldable pub extract_items : Value → String → List Value
unfolding gather
extract_items doc path =
    if path == ""
    then []
    else if path == "."
    then doc ∷ []
    else if not (contains path "[*]")
    then items_of (lookup_path doc path)
    else gather (keys_of_path path) doc none

-- ===== src/Model/Json.antt =====
-- Reads of a decoded JSON document, `map[string]any` and `[]any`.
use pepin.Prelude.{
  ℕ, zero, suc, String, Bool, true, false, Option, none, some, List, [], ◌∷◌, if◌then◌else◌, ◌==◌,
}
use pepin.Model.Resource.{Value, Values, Fields}

abbrev pub is_null : Value → Bool
is_null Value.null = true
is_null v = false

-- `v, ok := m[k]`
abbrev pub field_of : String → Fields → Option Value
field_of k Fields.stop = none
field_of k (Fields.field j v fs) = if k == j then some v else field_of k fs

-- `m[k]`
abbrev pub field_or_null : String → Fields → Value
field_or_null k Fields.stop = Value.null
field_or_null k (Fields.field j v fs) = if k == j then v else field_or_null k fs

-- `m[k] = v`
abbrev pub set_field : String → Value → Fields → Fields
set_field k v Fields.stop = Fields.field k v Fields.stop
set_field k v (Fields.field j w fs) =
    if k == j then Fields.field k v fs else Fields.field j w (set_field k v fs)

abbrev pub nth : ℕ → Values → Option Value
nth n Values.end = none
nth zero (Values.item v vs) = some v
nth (suc n) (Values.item v vs) = nth n vs

abbrev pub to_list : Values → List Value
to_list Values.end = []
to_list (Values.item v vs) = v ∷ to_list vs

abbrev pub from_list : List Value → Values
from_list [] = Values.end
from_list (v ∷ vs) = Values.item v (from_list vs)

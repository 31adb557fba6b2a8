-- ===== src/Assess/Attributes.antt =====
-- internal/assess/assess.go: the locks before a `pass`. Does the contract confirm the data, is a
-- resource of the type present, and was the deciding attribute collected on each type?
use pepin.I18n.{Lang, t_in}
use pepin.Prelude.{
  ◌≡◌, refl, lookup, arith, String, ◌<>◌, Bool, true, false, not, ◌&&◌, Option, none, some, List,
  [], ◌∷◌, ◌++◌, if◌then◌else◌, ◌==◌, Dict, index, keys, has, all_by, any_by, filter_by, join,
  sort_strings, starts_with,
}
use pepin.Provider.{Contrat, control_type, control_types, type_etat}
use pepin.Assess.Tables.{required_attr, require_all, governance_provider_readers}

-- `Verified`
unfoldable pub is_verified : Dict Contrat → String → String → Bool
is_verified registry provider code =
    if has governance_provider_readers code
    then true
    else if not (control_type code == "")
    then type_etat registry provider (control_type code) == "verifie"
    else any_by (λ t. type_etat registry provider t == "verifie") (control_types code)

-- `controlType` is the map that the caller builds with `ControlType`.
unfoldable pub applicable : String → Dict String → List String → Bool
applicable code types_of resource_types =
    if starts_with code "governance_"
    then elim (control_types code) [ [] ↦ true | t ∷ ts ↦ any_by (has resource_types) (t ∷ ts) ]
    else if index "" types_of code == ""
    then false
    else has resource_types (index "" types_of code)

unfoldable pub types_in_scope : String → String → List String → List String
types_in_scope code typ resource_types =
    if not (typ == "") then typ ∷ [] else filter_by (has resource_types) (control_types code)

-- `out[t] = append(out[t], attrs...)`
unfoldable pub append_at : String → List String → Dict (List String) → Dict (List String)
append_at t attrs [] = (t, attrs) ∷ []
append_at t attrs ((u, old) ∷ out) =
    if t == u then (t, old ++ attrs) ∷ out else (u, old) ∷ append_at t attrs out

unfoldable pub append_each : List String → List String → Dict (List String) → Dict (List String)
unfolding append_at
append_each [] attrs out = out
append_each (s ∷ ss) attrs out = append_each ss attrs (append_at s attrs out)

unfoldable pub deciding_from :
    String → String → List String → Dict (List String) → Dict (List String) → Dict (List String)
unfolding append_each types_in_scope
deciding_from code typ resource_types [] out = out
deciding_from code typ resource_types ((t, attrs) ∷ rows) out =
    deciding_from code typ resource_types rows (
      if not (t == "")
      then (if has resource_types t then append_at t attrs out else out)
      else append_each (types_in_scope code typ resource_types) attrs out)

unfoldable pub deciding_by_type : String → String → List String → Dict (List String)
unfolding deciding_from
deciding_by_type code typ resource_types =
    deciding_from code typ resource_types (index [] required_attr code) []

unfoldable pub attrs_on_type : String → String → List String → Dict (List String) → Bool
attrs_on_type code typ attrs attrs_by_type =
    if has require_all code
    then all_by (has (index [] attrs_by_type typ)) attrs
    else any_by (has (index [] attrs_by_type typ)) attrs

abbrev pub row_collected : String → Dict (List String) → String × List String → Bool
row_collected code attrs_by_type row = attrs_on_type code row.0 row.1 attrs_by_type

abbrev pub is_nil {ℓ} : {A : Type ℓ} → List A → Bool
is_nil [] = true
is_nil (x ∷ xs) = false

pub lookup_of_nil {ℓ} : {V : Type ℓ} (m : Dict V) (k : String) → is_nil m ≡ true → lookup k m ≡ none
lookup_of_nil [] k e = refl
lookup_of_nil (x ∷ m) k e = absurd (ground arith)

pub index_of_nil {ℓ} :
    {V : Type ℓ} (zero : V) (m : Dict V) (k : String) → is_nil m ≡ true → index zero m k ≡ zero
index_of_nil zero [] k e = refl
index_of_nil zero (x ∷ m) k e = absurd (ground arith)

unfoldable pub attr_collected : String → String → List String → Dict (List String) → Bool
unfolding deciding_by_type attrs_on_type
attr_collected code typ resource_types attrs_by_type =
    let exige = deciding_by_type code typ resource_types in
    if is_nil (index [] required_attr code)
    then true
    else if is_nil exige
    then false
    else all_by (row_collected code attrs_by_type) exige

abbrev pub is_secondary : List String → String → Bool
is_secondary resource_types t = not (t == "") && has resource_types t

-- The clauses of the motive, one for each secondary type whose attributes are missing.
unfoldable pub broken_clauses :
    Lang → String → Dict (List String) → Dict (List String) → List String → List String
unfolding attrs_on_type
broken_clauses l code rows attrs_by_type [] = []
broken_clauses l code rows attrs_by_type (t ∷ ts) =
    let rest = broken_clauses l code rows attrs_by_type ts in
    let attrs = join (sort_strings (index [] rows t)) " / " in
    if attrs_on_type code t (index [] rows t) attrs_by_type
    then rest
    else t_in l ("« " <> attrs <> " » non collecté sur les ressources de type « " <> t <> " »")
        ("\"" <> attrs <> "\" not collected on the resources of type \"" <> t <> "\"")
      ∷ rest

-- `some` is the pair of a motive and `true`.
unfoldable pub correlation_broken : Lang → String → List String → Dict (List String) → Option String
unfolding broken_clauses
correlation_broken l code resource_types attrs_by_type =
    let rows = index [] required_attr code in
    let types = sort_strings (filter_by (is_secondary resource_types) (keys rows)) in
    elim (broken_clauses l code rows attrs_by_type types) [
      | [] ↦ none
      | c ∷ cs ↦ some (
          t_in l
            ("corrélation impossible : "
              <> join (c ∷ cs) ", "
              <> " — l'écart ne peut être ni établi ni écarté (garde de capacité)")
            ("correlation impossible: "
              <> join (c ∷ cs) ", "
              <> " — the deviation can be neither established nor ruled out (capability guard)"))
    ]

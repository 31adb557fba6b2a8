-- ===== src/Assess/Reasons.antt =====
-- internal/assess/assess.go: why a control could not be evaluated, and on what a `pass` rests.
use pepin.I18n.{Lang, t_in}
use pepin.Prelude.{
  String, ◌<>◌, Bool, not, ◌&&◌, List, [], ◌∷◌, if◌then◌else◌, ◌==◌, Dict, index, keys, has, join,
  sort_strings, starts_with,
}
use pepin.Provider.{control_types}
use pepin.Assess.Tables.{required_attr}
use pepin.Assess.Attributes.{
  types_in_scope, deciding_by_type, attrs_on_type, attr_collected, is_nil,
}

-- The pairs (attributes, type) that are missing, in the order of the types.
unfoldable pub gaps :
    String → Dict (List String) → Dict (List String) → List String → List (String × String)
unfolding attrs_on_type
gaps code exige attrs_by_type [] = []
gaps code exige attrs_by_type (t ∷ ts) =
    let rest = gaps code exige attrs_by_type ts in
    if attrs_on_type code t (index [] exige t) attrs_by_type
    then rest
    else (join (sort_strings (index [] exige t)) " / ", t) ∷ rest

abbrev gap_clauses : Lang → List (String × String) → List String
gap_clauses l [] = []
gap_clauses l ((attrs, typ) ∷ gs) =
    t_in l ("« " <> attrs <> " » sur les ressources de type « " <> typ <> " »")
      ("\"" <> attrs <> "\" on the resources of type \"" <> typ <> "\"")
    ∷ gap_clauses l gs

abbrev several_gaps : Lang → List (String × String) → String
several_gaps l gs =
    t_in l
      ("attributs décisifs non collectés : "
        <> join (gap_clauses l gs) ", "
        <> " (garde de capacité)")
      ("deciding attributes not collected: "
        <> join (gap_clauses l gs) ", "
        <> " (capability guard)")

abbrev gap_reason : Lang → List (String × String) → String
gap_reason l [] = several_gaps l []
gap_reason l ((attrs, typ) ∷ []) =
    t_in l
      ("attribut « " <> attrs <> " » non collecté sur les ressources de type « " <> typ
        <> " » (garde de capacité)")
      ("attribute \"" <> attrs <> "\" not collected on the resources of type \"" <> typ
        <> "\" (capability guard)")
gap_reason l (g ∷ h ∷ gs) = several_gaps l (g ∷ h ∷ gs)

unfoldable pub not_evaluated_reason :
    Lang → String → String → Bool → List String → Dict (List String) → String
unfolding gaps
not_evaluated_reason l code typ verified resource_types attrs_by_type =
    let exige = deciding_by_type code typ resource_types in
    if not verified
    then t_in l
        "collecte de la donnée nécessaire non confirmée pour ce fournisseur (contrat non « vérifié »)"
        "collection of the required data is not confirmed for this provider (contract not \"verified\")"
    else if not (typ == "") && not (has resource_types typ)
    then t_in l ("aucune ressource de type « " <> typ <> " » dans l'inventaire évalué")
        ("no resource of type \"" <> typ <> "\" in the assessed inventory")
    else if typ == ""
        && (is_nil (types_in_scope code typ resource_types) && not (is_nil (control_types code)))
    then t_in l "aucune ressource des types que ce contrôle examine dans l'inventaire évalué"
        "no resource of the types this control examines in the assessed inventory"
    else if not (is_nil (index [] required_attr code))
        && not (attr_collected code typ resource_types attrs_by_type)
    then gap_reason l (gaps code exige attrs_by_type (sort_strings (keys exige)))
    else t_in l "contrôle non évaluable sur cet inventaire"
        "control not evaluable on this inventory"

-- What `Build` writes as the evidence of a `pass`.
unfoldable pub pass_reason : Lang → String → String → List String → String
pass_reason l code typ resource_types =
    let scope = types_in_scope code typ resource_types in
    let listed = join (sort_strings scope) " / " in
    if not (typ == "")
    then t_in l
        ("aucune non-conformité détectée sur les ressources de type « " <> typ
          <> " » collectées (contrat vérifié)")
        ("no deviation detected on the collected resources of type \"" <> typ
          <> "\" (contract verified)")
    else if starts_with code "governance_provider_"
    then t_in l
        "conforme selon les faits de souveraineté déclarés au descripteur du fournisseur (attestation, non mesuré sur le tenant)"
        "compliant according to the sovereignty facts declared in the provider descriptor (an attestation, not measured on the tenant)"
    else if not (is_nil scope)
    then t_in l
        ("aucune non-conformité détectée sur les ressources de type « " <> listed
          <> " », dont la donnée décisive a été observée sur chacune")
        ("no deviation detected on the resources of type \"" <> listed
          <> "\", whose deciding data was observed on every one of them")
    else t_in l "aucune non-conformité détectée (contrat vérifié)"
        "no deviation detected (contract verified)"

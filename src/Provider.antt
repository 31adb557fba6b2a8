-- ===== src/Provider.antt =====
-- internal/genprovider/contrat.go and controltypes.go: the types that a control reads, and what the
-- contract of a provider says of them. The descriptors, read from the embedded YAML files, are the
-- parameter `registry`.
use pepin.I18n.{Lang, t_in, pick_in}
use pepin.Prelude.{
  String, ◌<>◌, Bool, not, ◌||◌, Option, none, some, List, [], ◌∷◌, if◌then◌else◌, ◌==◌, Dict,
  lookup, index, filter_by, starts_with,
}

pub record TypeContrat : Type 0 where
  pub etat : String
  pub reason : String
  pub reason_en : String

pub record NaEntry : Type 0 where
  pub control : String
  pub reason : String
  pub reason_en : String

pub record Contrat : Type 0 where
  pub types : Dict TypeContrat
  pub non_applicable : List NaEntry

abbrev pub no_type : TypeContrat
no_type = record { etat = ""; reason = ""; reason_en = "" }

abbrev pub no_contrat : Contrat
no_contrat = record { types = []; non_applicable = [] }

-- The tests in the order of the `switch`.
unfoldable pub control_type : String → String
control_type code =
    if code == "network_securitygroup_default_deny"
    then "security_group"
    else if starts_with code "network_securitygroup"
    then "security_group_rule"
    else if code == "network_flow_matrix_documented"
    then "security_group_rule"
    else if code == "network_documented"
    then "network"
    else if code == "network_peering_cross_organization"
    then "network_peering"
    else if code == "network_subnet_no_public_ip_by_default"
    then "subnet"
    else if starts_with code "database_"
    then "managed_database"
    else if starts_with code "compute_image"
    then "compute_image"
    else if starts_with code "compute_instance"
    then "compute_instance"
    else if starts_with code "kubernetes_cluster"
    then "kubernetes_cluster"
    else if starts_with code "k8s_rbac"
    then "k8s_cluster_role_binding"
    else if starts_with code "k8s_namespace"
    then "k8s_namespace"
    else if starts_with code "k8s_secrets"
    then "k8s_crd"
    else if starts_with code "objectstorage_bucket"
    then "object_storage_bucket"
    else if starts_with code "blockstorage_snapshot"
    then "blockstorage_snapshot"
    else if starts_with code "blockstorage_volume"
    then "blockstorage_volume"
    else if starts_with code "loadbalancer"
    then "load_balancer"
    else if code == "iam_user_mfa_enabled"
    then "iam_user"
    else if code == "iam_account_mfa_enforced"
    then "api_access_policy"
    else if code == "iam_no_root_access_key"
        || code == "iam_accesskey_expiration_set"
        || code == "iam_accesskey_rotated"
    then "access_key"
    else if starts_with code "iam_role"
    then "iam_role"
    else if starts_with code "iam_policy"
    then "iam_policy"
    else if code == "iam_apiaccesspolicy_max_key_expiration"
    then "api_access_policy"
    else if code == "iam_apiaccessrule_no_public_cidr"
    then "api_access_rule"
    else if code == "iam_apiaccessrule_defined"
    then "api_access_summary"
    else ""

unfoldable pub extra_control_types : Dict (List String)
extra_control_types =
    ("blockstorage_volume_snapshots_exist", "blockstorage_snapshot" ∷ [])
    ∷ (
      "compute_instance_public_ip_with_open_securitygroup",
      "network_interface" ∷ "security_group_rule" ∷ [],
    )
    ∷ ("iam_apiaccesspolicy_max_key_expiration", "api_access_rule" ∷ "api_access_summary" ∷ [])
    ∷ (
      "iam_apiaccessrule_defined",
      "api_access_policy" ∷ "api_access_rule" ∷ "api_access_summary" ∷ [],
    )
    ∷ ("iam_apiaccessrule_no_public_cidr", "api_access_policy" ∷ "api_access_summary" ∷ [])
    ∷ ("iam_policy_no_privilege_escalation", "iam_role" ∷ [])
    ∷ ("governance_provider_sovereignty", "governance_provider" ∷ [])
    ∷ (
      "governance_resource_region_in_eu",
      "compute_instance" ∷ "object_storage_bucket" ∷ "blockstorage_volume" ∷ "blockstorage_snapshot"
          ∷ "kubernetes_cluster" ∷ "load_balancer" ∷ "managed_database" ∷ [],
    )
    ∷ []

-- `if t == primary { continue }`
abbrev pub other_than : String → String → Bool
other_than primary t = not (t == primary)

unfoldable pub control_types : String → List String
control_types code =
    let primary = control_type code in
    let extra = index [] extra_control_types code in
    if primary == "" then extra else primary ∷ filter_by (other_than primary) extra

module _ (registry : Dict Contrat) where
  unfoldable pub type_etat : String → String → String
  type_etat provider typ = (index no_type (index no_contrat registry provider).types typ).etat

  abbrev declared_reason : Lang → String → String → List NaEntry → Option String
  declared_reason l provider code [] = none
  declared_reason l provider code (e ∷ es) =
      let rest = declared_reason l provider code es in
      if e.control == code
      then some (
          if not (e.reason == "")
          then pick_in l e.reason e.reason_en
          else t_in l ("déclaré non applicable pour " <> provider <> " (mécanisme inexistant)")
              ("declared not applicable for " <> provider <> " (no such mechanism)"))
      else rest

  abbrev absent_reason : Lang → String → String → Option TypeContrat → String
  absent_reason l provider t none = ""
  absent_reason l provider t (some tc) =
      if tc.etat == "absent"
      then (if not (tc.reason == "")
          then pick_in l tc.reason tc.reason_en
          else t_in l ("type de ressource « " <> t <> " » absent de l'API " <> provider)
              ("resource type \"" <> t <> "\" absent from the " <> provider <> " API"))
      else ""

  unfoldable pub non_applicable_reason_in : Lang → String → String → String
  non_applicable_reason_in l provider code =
      let d = index no_contrat registry provider in
      let t = control_type code in
      elim (declared_reason l provider code d.non_applicable) [
        | some reason ↦ reason
        | none ↦ if t == "" then "" else absent_reason l provider t (lookup t d.types)
      ]

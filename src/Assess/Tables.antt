-- ===== src/Assess/Tables.antt =====
-- The tables of internal/assess: the attributes that a `pass` needs, and the controls that need all
-- of them.
use pepin.Prelude.{String, List, [], ◌∷◌, Dict}

-- The key "" is the primary type of the control. The table is shut in proofs, which hold for any
-- table of this form.
unfoldable pub required_attr : Dict (Dict (List String))
required_attr =
    ("compute_instance_deletion_protection", ("", "deletion_protection" ∷ []) ∷ [])
    ∷ ("compute_instance_no_secrets_in_user_data", ("", "user_data" ∷ []) ∷ [])
    ∷ ("compute_instance_has_security_group", ("", "security_group_ids" ∷ []) ∷ [])
    ∷ (
      "compute_instance_public_ip_with_open_securitygroup",
      ("", "public_ip" ∷ "nic_public_ips" ∷ []) ∷ [],
    )
    ∷ ("compute_image_not_public", ("", "public" ∷ []) ∷ [])
    ∷ (
      "iam_no_root_access_key",
      ("", "root_owned" ∷ "scope" ∷ "owner_user_id" ∷ "owner_application_id" ∷ []) ∷ [],
    )
    ∷ ("iam_accesskey_rotated", ("", "creation_date" ∷ []) ∷ [])
    ∷ ("iam_user_mfa_enabled", ("", "mfa_enabled" ∷ []) ∷ [])
    ∷ ("iam_account_mfa_enforced", ("", "require_trusted_env" ∷ []) ∷ [])
    ∷ (
      "iam_apiaccesspolicy_max_key_expiration",
      ("", "max_access_key_expiration_seconds" ∷ []) ∷ [],
    )
    ∷ ("blockstorage_volume_encryption", ("", "encrypted" ∷ []) ∷ [])
    ∷ ("blockstorage_snapshot_not_public", ("", "global_permission" ∷ []) ∷ [])
    ∷ ("objectstorage_bucket_object_lock_enabled", ("", "object_lock_enabled" ∷ []) ∷ [])
    ∷ ("objectstorage_bucket_kms_encryption", ("", "sse_kms_enabled" ∷ []) ∷ [])
    ∷ ("objectstorage_bucket_versioning_enabled", ("", "versioning" ∷ []) ∷ [])
    ∷ ("objectstorage_bucket_default_encryption", ("", "default_encryption_enabled" ∷ []) ∷ [])
    ∷ (
      "objectstorage_bucket_public_access",
      ("", "acl" ∷ "acl_grants" ∷ "public_via_acl" ∷ []) ∷ [],
    )
    ∷ ("database_encryption_at_rest_enabled", ("", "encryption_at_rest" ∷ []) ∷ [])
    ∷ ("loadbalancer_logging_enabled", ("", "access_log" ∷ []) ∷ [])
    ∷ ("loadbalancer_http_redirect_to_https", ("", "redirect_to_https" ∷ []) ∷ [])
    ∷ ("loadbalancer_ssl_listeners", ("", "load_balancer_type" ∷ []) ∷ [])
    ∷ ("network_subnet_no_public_ip_by_default", ("", "map_public_ip_on_launch" ∷ []) ∷ [])
    ∷ ("network_securitygroup_default_restrict_traffic", ("", "security_group_name" ∷ []) ∷ [])
    ∷ ("network_peering_cross_organization", ("", "source_account" ∷ "accepter_account" ∷ []) ∷ [])
    ∷ ("kubernetes_cluster_not_publicly_accessible", ("", "admin_whitelist" ∷ []) ∷ [])
    ∷ (
      "kubernetes_cluster_control_plane_highly_available",
      ("", "control_plane_multi_az" ∷ []) ∷ [],
    )
    ∷ ("kubernetes_cluster_auto_upgrade_enabled", ("", "auto_upgrade" ∷ []) ∷ [])
    ∷ ("kubernetes_cluster_deletion_protection", ("", "deletion_protection" ∷ []) ∷ [])
    ∷ ("kubernetes_cluster_audit_logging_enabled", ("", "audit_enabled" ∷ []) ∷ [])
    ∷ ("governance_resource_region_in_eu", ("", "region" ∷ []) ∷ [])
    ∷ ("database_service_not_open_to_internet", ("", "ip_filter" ∷ []) ∷ [])
    ∷ ("database_backup_enabled", ("", "disable_backup" ∷ []) ∷ [])
    ∷ ("iam_policy_no_administrative_privileges", ("", "statements" ∷ []) ∷ [])
    ∷ ("iam_policy_no_notaction_notresource", ("", "statements" ∷ []) ∷ [])
    ∷ ("iam_policy_no_wildcard_resource", ("", "statements" ∷ []) ∷ [])
    ∷ ("iam_policy_no_privilege_escalation", ("", "statements" ∷ "manages_iam" ∷ []) ∷ [])
    ∷ ("iam_role_key_lifetime_bounded", ("", "max_session_ttl" ∷ "policy_has_expiration" ∷ []) ∷ [])
    ∷ ("iam_role_no_admin_privileges", ("", "admin_privileges" ∷ []) ∷ [])
    ∷ ("iam_role_source_ip_restricted", ("", "source_ip_restricted" ∷ []) ∷ [])
    ∷ ("iam_apiaccessrule_no_public_cidr", ("", "ip_ranges" ∷ []) ∷ [])
    ∷ ("network_securitygroup_default_deny", ("", "inbound_default_policy" ∷ []) ∷ [])
    ∷ ("network_flow_matrix_documented", ("", "description" ∷ []) ∷ [])
    ∷ ("network_documented", ("", "tags" ∷ []) ∷ [])
    ∷ (
      "blockstorage_volume_snapshots_exist",
      ("", "state" ∷ []) ∷ ("blockstorage_snapshot", "volume_id" ∷ []) ∷ [],
    )
    ∷ []

-- The controls whose attributes are needed together.
unfoldable pub require_all : List String
require_all = "network_peering_cross_organization" ∷ []

-- The controls whose data is the provider's own descriptor.
unfoldable pub governance_provider_readers : List String
governance_provider_readers = "governance_provider_sovereignty" ∷ []

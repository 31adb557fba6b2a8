-- ===== src/Eim/Policies.antt =====
-- internal/eimpolicy/eimpolicy.go: `CollectInlinePolicies`, with the turns that each loop without a bound
-- is given; `none` where one of them is still turning.
use pepin.Prelude.{
  ℕ, String, ◌<>◌, Option, none, some, List, [], ◌∷◌, ◌++◌, ◌⊎◌, inl, inr, Dict, insert, Bool, true,
  false,
}
use pepin.Model.Resource.{Value, Fields, Attestation, Resource}
use pepin.Model.Json.{is_null}
use pepin.Collect.{CollectError}
use pepin.Collect.Transforms.{Go, iam_policy_statements}
use pepin.Collect.Fetch.{Transport}
use pepin.Eim.Reading.{
  InlinePolicy, Decoders, must_json, post, read_all_users, read_all_user_groups,
  read_all_user_policies, read_all_group_policies,
}

-- What a function of the package returns, or `none`.
abbrev pub Outcome : Type 0
Outcome = Option (CollectError ⊎ List Resource)

abbrev by_api : String → String → Bool → Attestation
by_api call path derived = record {
  origin = "api";
  source = call;
  path = path;
  observed = true;
  derived = derived;
}

-- `inlineProvenance`
unfoldable pub inline_provenance : String → String → String → Dict Attestation
inline_provenance call doc_path owner =
    insert "scope"
      (record {
        origin = "derived";
        source = "collector:eimpolicy";
        path = "";
        observed = false;
        derived = true;
      })
      (insert "statements" (by_api call doc_path true) (
        insert "policy_id" (by_api call "" true) (
          insert owner (by_api call "" true) (insert "policy_name" (by_api call "Name" false) []))))

abbrev with_statements : Value → Dict Value → Dict Value
with_statements st attrs = elim (is_null st) [ true ↦ attrs | false ↦ insert "statements" st attrs ]

-- A policy of an owner, from its document.
abbrev policy_resource :
    Go → String → String → String → String → String → String → String → Dict Attestation → Resource
policy_resource go provider id name owner_key owner scope doc prov = record {
  provider = provider;
  type = "iam_policy";
  id = id;
  name = name;
  region = "";
  attributes = with_statements (iam_policy_statements go (Value.text doc)) (
      ("policy_name", Value.text name)
      ∷ ("policy_id", Value.text id)
      ∷ (owner_key, Value.text owner)
      ∷ ("scope", Value.text scope)
      ∷ []);
  provenance = prov;
  source = none;
}

abbrev pub and_then {ℓ} : {A : Type ℓ} → Option (CollectError ⊎ A) → (A → Outcome) → Outcome
and_then none next = none
and_then (some (inl e)) next = some (inl e)
and_then (some (inr a)) next = next a

module _ (go : Go) (net : Transport) (decoders : Decoders) (provider base_url : String)
    (fuel : ℕ) where
  abbrev group_policies : String → List InlinePolicy → List Resource
  group_policies g [] = []
  group_policies g (pol ∷ policies) =
      policy_resource go provider ("group/" <> g <> "/" <> pol.name) pol.name "owner_group" g
        "inline_group" pol.body
        (inline_provenance (base_url <> "/ReadUserGroupPolicies") "Policies.Body" "owner_group")
      ∷ group_policies g policies

  -- The loop of `collectGroupPolicies`.
  unfoldable pub policies_of_groups : List String → List Resource → Outcome
  unfolding read_all_group_policies inline_provenance
  policies_of_groups [] out = some (inr out)
  policies_of_groups (g ∷ groups) out =
      and_then (read_all_group_policies net decoders base_url fuel g)
        (λ policies. policies_of_groups groups (out ++ group_policies g policies))

  -- `collectGroupPolicies`
  unfoldable pub collect_group_policies : Outcome
  unfolding policies_of_groups read_all_user_groups
  collect_group_policies =
      and_then (some (read_all_user_groups net decoders base_url))
        (λ groups. policies_of_groups groups [])

  abbrev document_body : String → String → String
  document_body user name = must_json net (
      Fields.field "PolicyName" (Value.text name)
        (Fields.field "UserName" (Value.text user) Fields.stop))

  abbrev user_policy : String → String → String → Resource
  user_policy user name doc =
      policy_resource go provider (user <> "/" <> name) name "owner_user" user "inline" doc
        (inline_provenance (base_url <> "/ReadUserPolicy") "PolicyDocument" "owner_user")

  -- The loop over the names of the policies of a user.
  unfoldable pub policies_of_user : String → List String → List Resource → Outcome
  unfolding post inline_provenance must_json
  policies_of_user user [] out = some (inr out)
  policies_of_user user (name ∷ names) out =
      and_then
        (some
          (post net (base_url <> "/ReadUserPolicy") (document_body user name) decoders.document))
        (λ doc. policies_of_user user names (out ++ user_policy user name doc ∷ []))

  unfoldable pub policies_of_users : List String → List Resource → Outcome
  unfolding policies_of_user read_all_user_policies
  policies_of_users [] out = some (inr out)
  policies_of_users (user ∷ users) out =
      and_then (read_all_user_policies net decoders base_url fuel user)
        (λ names. and_then (policies_of_user user names out) (λ read. policies_of_users users read))

  -- `CollectInlinePolicies`
  unfoldable pub collect_inline_policies : Outcome
  unfolding collect_group_policies policies_of_users read_all_users
  collect_inline_policies =
      and_then (some (read_all_users net decoders base_url))
        (λ users. and_then collect_group_policies (λ out. policies_of_users users out))

-- ===== src/Eim/Reading.antt =====
-- internal/eimpolicy/eimpolicy.go: one call, and the four loops over pages. The decoders of the answers
-- are parameters; `none` is a body that does not decode.
use pepin.Prelude.{
  ℕ, zero, suc, ◌+◌, String, ◌<>◌, Bool, true, false, not, ◌||◌, Option, none, some, List, [], ◌∷◌,
  ◌++◌, ◌⊎◌, inl, inr, if◌then◌else◌, ◌==◌, leb, filter_by, length, itoa, trim_space,
}
use pepin.Model.Resource.{Value, Fields}
use pepin.Collect.{CollectError}
use pepin.Collect.Fetch.{
  Request, Reply, Transport, authorized, http_error, json_failure, unset_error,
}

-- `inlinePolicy`
pub record InlinePolicy : Type 0 where
  pub name : String
  pub body : String

-- The structures that the answers are decoded into: what a page holds, and HasMoreItems.
pub record Decoders : Type 0 where
  pub users : String → Option (List String × Bool)
  pub user_groups : String → Option (List String × Bool)
  pub policy_names : String → Option (List String × Bool)
  pub policies : String → Option (List InlinePolicy × Bool)
  pub document : String → Option String

abbrev page_size : ℕ
page_size = 100

abbrev pub max_pages : ℕ
max_pages = 1000

abbrev pub is_nil {ℓ} : {A : Type ℓ} → List A → Bool
is_nil [] = true
is_nil (x ∷ xs) = false

abbrev pub is_named : String → Bool
is_named name = not (name == "")

-- `mustJSON`
unfoldable pub must_json : Transport → Fields → String
must_json net fields = elim (net.marshal fields) [ none ↦ "{}" | some b ↦ b ]

abbrev reply_body : Reply → CollectError ⊎ String
reply_body (Reply.failed e) = inl e
reply_body (Reply.unread e) = inl e
reply_body (Reply.answered status body) =
    if leb 300 status then inl (http_error status (trim_space body)) else inr body

abbrev sent : Transport → Request → CollectError ⊎ String
sent net req = elim (net.new_request req) [
  | some e ↦ inl e
  | none ↦ elim (authorized net req) [ some e ↦ inl e | none ↦ reply_body (net.send req) ]
]

abbrev decoded {ℓ} : {A : Type ℓ} → (String → Option A) → CollectError ⊎ String → CollectError ⊎ A
decoded decode (inl e) = inl e
decoded decode (inr raw) = elim (decode raw) [ none ↦ inl json_failure | some x ↦ inr x ]

-- `post`
unfoldable pub post {ℓ} :
    {A : Type ℓ} → Transport → String → String → (String → Option A) → CollectError ⊎ A
post net url body decode =
    decoded decode (sent net (record { method = "POST"; url = url; body = body }))

abbrev pub page_body : Transport → (Fields → Fields) → ℕ → String
page_body net of_owner first = must_json net (
    of_owner (
      Fields.field "FirstItem" (Value.number (itoa first))
        (Fields.field "ResultsPerPage" (Value.number (itoa page_size)) Fields.stop)))

-- The last page, by the code.
abbrev pub is_last {ℓ} : {A : Type ℓ} → List A → Bool → Bool
is_last page more = not more || is_nil page

-- The loops of `readAllUsers` and `readAllUserGroups`, by the pages that are left; `ask` is the call at
-- an offset.
unfoldable pub read_bounded :
    (ℕ → CollectError ⊎ (List String × Bool)) → ℕ → ℕ → List String → CollectError ⊎ List String
read_bounded ask zero seen out = inl unset_error
read_bounded ask (suc left) seen out = elim (ask seen) [
  | inl e ↦ inl e
  | inr (page, more) ↦ elim (is_last page more) [
    | true ↦ inr (out ++ filter_by is_named page)
    | false ↦ read_bounded ask left (seen + length page) (out ++ filter_by is_named page)
  ]
]

-- The loops of `readAllGroupPolicies` and `readAllUserPolicies`, which have no bound: `none` after the
-- turns of `fuel`.
unfoldable pub read_unbounded {ℓ} :
    {A : Type ℓ}
    → (ℕ → CollectError ⊎ (List A × Bool))
    → ℕ
    → List A
    → Option (CollectError ⊎ List A)
read_unbounded ask zero out = none
read_unbounded ask (suc fuel) out = elim (ask (length out)) [
  | inl e ↦ some (inl e)
  | inr (page, more) ↦ elim (is_last page more) [
    | true ↦ some (inr (out ++ page))
    | false ↦ read_unbounded ask fuel (out ++ page)
  ]
]

module _ (net : Transport) (decoders : Decoders) (base_url : String) where
  abbrev pub ask_users : ℕ → CollectError ⊎ (List String × Bool)
  ask_users first =
      post net (base_url <> "/ReadUsers") (page_body net (λ fs. fs) first) decoders.users

  abbrev pub ask_groups : ℕ → CollectError ⊎ (List String × Bool)
  ask_groups first =
      post net (base_url <> "/ReadUserGroups") (page_body net (λ fs. fs) first) decoders.user_groups

  unfoldable pub read_all_users : CollectError ⊎ List String
  unfolding read_bounded post
  read_all_users = read_bounded ask_users max_pages 0 []

  unfoldable pub read_all_user_groups : CollectError ⊎ List String
  unfolding read_bounded post
  read_all_user_groups = read_bounded ask_groups max_pages 0 []

  abbrev pub ask_user_policies : String → ℕ → CollectError ⊎ (List String × Bool)
  ask_user_policies user first =
      post net (base_url <> "/ReadUserPolicies")
        (page_body net (Fields.field "UserName" (Value.text user)) first) decoders.policy_names

  unfoldable pub read_all_user_policies : ℕ → String → Option (CollectError ⊎ List String)
  unfolding read_unbounded post
  read_all_user_policies fuel user = read_unbounded (ask_user_policies user) fuel []

  abbrev pub ask_group_policies : String → ℕ → CollectError ⊎ (List InlinePolicy × Bool)
  ask_group_policies group first =
      post net (base_url <> "/ReadUserGroupPolicies")
        (page_body net (Fields.field "UserGroupName" (Value.text group)) first) decoders.policies

  unfoldable pub read_all_group_policies : ℕ → String → Option (CollectError ⊎ List InlinePolicy)
  unfolding read_unbounded post
  read_all_group_policies fuel group = read_unbounded (ask_group_policies group) fuel []

-- ===== src/Collect/Status.antt =====
-- internal/collect/status.go: the class of a collection error. An error is modelled by what
-- `errors.As` and `errors.Is` find along its chain, and the two decoders of a JSON body are parameters
-- (`none` is a body that does not decode). The detail, a text for the reader, is not modelled.
use pepin.Prelude.{
  ℕ, String, Bool, ◌&&◌, ◌||◌, Option, none, some, List, [], ◌∷◌, if◌then◌else◌, ◌==◌, leb, ltb,
  nat_eq, has,
}
use pepin.Model.Collection.{CollectionOutcome}

pub record HttpError : Type 0 where
  pub status : ℕ
  pub body : String

pub record CollectError : Type 0 where
  pub http : Option HttpError
  pub truncated : Bool
  pub unreadable : Bool
  pub error_code : Option String
  pub http_status_code : Option ℕ
  pub deadline_exceeded : Bool
  pub net_timeout : Bool
  pub json_error : Bool

-- `outcomeForStatus`
unfoldable pub outcome_for_status : ℕ → CollectionOutcome
outcome_for_status status =
    if nat_eq status 401 || nat_eq status 403
    then CollectionOutcome.permission_denied
    else if nat_eq status 404 || nat_eq status 410
    then CollectionOutcome.not_found
    else if nat_eq status 429
    then CollectionOutcome.rate_limited
    else if nat_eq status 408 || nat_eq status 504
    then CollectionOutcome.timeout
    else if leb 400 status && ltb status 500
    then CollectionOutcome.rejected
    else if leb 500 status
    then CollectionOutcome.unavailable
    else CollectionOutcome.unset

-- The loop of `outcomeForOutscaleError` over the pairs of a type and a code.
unfoldable pub outscale_loop : List (String × String) → CollectionOutcome
outscale_loop [] = CollectionOutcome.unset
outscale_loop ((type_, code) ∷ es) =
    let rest = outscale_loop es in
    if code == "4120" && type_ == "InvalidParameterValue"
    then CollectionOutcome.unauthenticated
    else if code == "1" && type_ == "AccessDenied"
    then CollectionOutcome.unauthenticated
    else rest

-- The `switch` of `outcomeForScalewayError`.
abbrev scaleway_type : String → CollectionOutcome
scaleway_type t =
    if t == "denied_authentication"
    then CollectionOutcome.unauthenticated
    else if t == "permissions_denied"
    then CollectionOutcome.permission_denied
    else CollectionOutcome.unset

-- The `switch` on the code of a third-party client; `unset` where no case matches.
unfoldable pub outcome_for_code : String → CollectionOutcome
outcome_for_code code =
    if has ("InvalidAccessKeyId" ∷ "SignatureDoesNotMatch" ∷ []) code
    then CollectionOutcome.unauthenticated
    else if has
        ("AccessDenied" ∷ "AccessDeniedException" ∷ "AllAccessDisabled" ∷ "Forbidden"
          ∷ "UnauthorizedOperation" ∷ [])
        code
    then CollectionOutcome.permission_denied
    else if has ("SlowDown" ∷ "RequestLimitExceeded" ∷ "TooManyRequests" ∷ "Throttling" ∷ []) code
    then CollectionOutcome.rate_limited
    else CollectionOutcome.unset

-- `o != ""`, and the fallback where it is not.
abbrev pub or_else : CollectionOutcome → CollectionOutcome → CollectionOutcome
or_else CollectionOutcome.unset o = o
or_else known o = known

module _ (outscale : String → Option (List (String × String)))
    (scaleway : String → Option String) where
  unfoldable pub outcome_for_outscale_error : String → CollectionOutcome
  unfolding outscale_loop
  outcome_for_outscale_error body = elim (outscale body) [
    | none ↦ CollectionOutcome.unset
    | some es ↦ outscale_loop es
  ]

  unfoldable pub outcome_for_scaleway_error : String → CollectionOutcome
  outcome_for_scaleway_error body = elim (scaleway body) [
    | none ↦ CollectionOutcome.unset
    | some t ↦ scaleway_type t
  ]

  -- `outcomeForAPIErrorCode`
  unfoldable pub outcome_for_api_error_code : String → CollectionOutcome
  unfolding outcome_for_outscale_error outcome_for_scaleway_error
  outcome_for_api_error_code body =
      or_else (outcome_for_outscale_error body) (outcome_for_scaleway_error body)

  -- The tests behind the typed errors: a code, a status, a cause of transport.
  abbrev sdk_outcome : CollectError → CollectionOutcome
  sdk_outcome e =
      or_else (elim e.error_code [ none ↦ CollectionOutcome.unset | some c ↦ outcome_for_code c ])
        (or_else
          (elim e.http_status_code [
            | none ↦ CollectionOutcome.unset
            | some st ↦ outcome_for_status st
          ])
          (if e.deadline_exceeded
            then CollectionOutcome.timeout
            else if e.net_timeout
            then CollectionOutcome.timeout
            else if e.json_error
            then CollectionOutcome.unreadable
            else CollectionOutcome.unavailable))

  -- `Classify`, the class; `none` is the error nil.
  unfoldable pub classify : Option CollectError → CollectionOutcome
  unfolding outcome_for_status outcome_for_api_error_code outcome_for_code
  classify none = CollectionOutcome.unset
  classify (some e) = elim e.http [
    | some he ↦ or_else (outcome_for_api_error_code he.body) (outcome_for_status he.status)
    | none ↦
        if e.truncated
        then CollectionOutcome.truncated
        else if e.unreadable
        then CollectionOutcome.unreadable
        else sdk_outcome e
  ]

-- ===== src/Examples/Refusals.antt =====
-- A redirection that the API does not explain.
use pepin.Prelude.{◌≡◌, true, false, String, Option, none, some, List}
use pepin.Collect.{CollectError, classify, outcome_for_api_error_code}
use pepin.Collect.Classes.{is_unset, classify_unset_iff}

abbrev redirected : CollectError
redirected = record {
  http = some (record { status = 304; body = "" });
  truncated = false;
  unreadable = false;
  error_code = none;
  http_status_code = none;
  deadline_exceeded = false;
  net_timeout = false;
  json_error = false;
}

abbrev no_errors : String → Option (List (String × String))
no_errors body = none

abbrev no_type : String → Option String
no_type body = none

classify_unset_iff_example : is_unset (classify no_errors no_type (some redirected)) ≡ true
unfolding outcome_for_api_error_code
classify_unset_iff_example = classify_unset_iff no_errors no_type redirected

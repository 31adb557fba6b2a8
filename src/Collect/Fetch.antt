-- ===== src/Collect/Fetch.antt =====
-- internal/collect/engine.go: `fetch`, one request. net/url, net/http and encoding/json are the fields
-- of a parameter, which also holds the answers of the provider's API to the requests.
use pepin.Prelude.{
  ℕ, String, ◌<>◌, Bool, true, false, not, ◌&&◌, ◌||◌, Option, none, some, ◌⊎◌, inl, inr,
  if◌then◌else◌, ◌==◌, leb, itoa, trim_space,
}
use pepin.Model.Resource.{Value, Fields}
use pepin.Model.Json.{set_field}
use pepin.Collect.Status.{CollectError}
use pepin.Collect.Paths.{lookup_path}

-- A size or a bound that is not positive is 0.
pub record Paging : Type 0 where
  pub style : String
  pub param : String
  pub size_param : String
  pub size : ℕ
  pub token_param : String
  pub more_path : String
  pub token_path : String
  pub max_pages : ℕ

pub record Request : Type 0 where
  pub method : String
  pub url : String
  pub body : String

-- `hc.Do` and the read of the body, which stops at 64 MiB.
pub data Reply : Type 0 where
  failed unread : CollectError → Reply
  answered : ℕ → String → Reply

pub record Transport : Type 0 where
  pub parse_url : String → CollectError ⊎ String
  pub set_query : String → String → String → String
  pub scheme : String → String
  pub host : String → String
  pub url_path : String → String
  pub new_request : Request → Option CollectError
  pub authorize : Option (Request → Option CollectError)
  pub send : Request → Reply
  pub unmarshal : String → Option Value
  pub unmarshal_object : String → Option Fields
  pub marshal : Fields → Option String

-- The endpoint that answered, and the document.
pub record Fetched : Type 0 where
  pub endpoint : String
  pub outcome : CollectError ⊎ Value

-- `boolFromDoc`
unfoldable pub bool_from_doc : Value → String → Bool
bool_from_doc doc path = elim (lookup_path doc path) [ Value.bool b ↦ b | _ ↦ false ]

-- `tokenFromDoc`
unfoldable pub token_from_doc : Value → String → String
token_from_doc doc path =
    if path == "" then "" else elim (lookup_path doc path) [ Value.text s ↦ s | _ ↦ "" ]

-- `CallSignature`
unfoldable pub call_signature : Transport → String → String → String
call_signature net method url =
    method <> " " <> net.scheme url <> "://" <> net.host url <> net.url_path url

abbrev or_empty : Option Fields → Fields
or_empty none = Fields.stop
or_empty (some fs) = fs

abbrev with_size : Paging → Fields → Fields
with_size p m =
    if not (p.size_param == "") && leb 1 p.size
    then set_field p.size_param (Value.number (itoa p.size)) m
    else m

abbrev with_position : Paging → ℕ → String → Fields → Fields
with_position p offset token m =
    if p.style == "token-body"
    then if not (token == "") && not (p.token_param == "")
      then set_field p.token_param (Value.text token) m
      else m
    else if p.style == "offset-body"
    then if not (p.param == "") then set_field p.param (Value.number (itoa offset)) m else m
    else m

-- `withBodyPaging`
unfoldable pub with_body_paging : Transport → String → Paging → ℕ → String → String
with_body_paging net body p offset token =
    let m = if trim_space body == "" then Fields.stop else or_empty (net.unmarshal_object body) in
    elim (net.marshal (with_position p offset token (with_size p m))) [ none ↦ body | some b ↦ b ]

abbrev with_page : Transport → Paging → ℕ → String → String
with_page net p page u =
    let v = net.set_query u p.param (itoa page) in
    if p.size_param == "" then v else net.set_query v p.size_param (itoa p.size)

-- The query of the styles `page` and `token`.
abbrev with_query : Transport → Option Paging → ℕ → String → String → String
with_query net none page token u = u
with_query net (some p) page token u =
    if p.style == "page"
    then with_page net p page u
    else if p.style == "token" && not (token == "") && not (p.token_param == "")
    then net.set_query u p.token_param token
    else u

abbrev with_body : Transport → Option Paging → ℕ → String → String → String
with_body net none offset token body = body
with_body net (some p) offset token body =
    if p.style == "token-body" || p.style == "offset-body"
    then with_body_paging net body p offset token
    else body

abbrev pub unset_error : CollectError
unset_error = record {
  http = none;
  truncated = false;
  unreadable = false;
  error_code = none;
  http_status_code = none;
  deadline_exceeded = false;
  net_timeout = false;
  json_error = false;
}

abbrev pub http_error : ℕ → String → CollectError
http_error status body = record unset_error {
  http = some (record { status = status; body = body });
}

abbrev pub json_failure : CollectError
json_failure = record unset_error { json_error = true }

-- `TruncatedError`
abbrev pub truncated_error : CollectError
truncated_error = record unset_error { truncated = true }

abbrev refused : String → CollectError → Fetched
refused endpoint e = record { endpoint = endpoint; outcome = inl e }

abbrev pub authorized : Transport → Request → Option CollectError
authorized net req = elim net.authorize [ none ↦ none | some apply ↦ apply req ]

-- The end of `fetch`, with the answer to the request.
abbrev decoded : Transport → String → Reply → Fetched
decoded net called (Reply.failed e) = refused "" e
decoded net called (Reply.unread e) = refused called e
decoded net called (Reply.answered status body) =
    if leb 300 status
    then refused called (http_error status (trim_space body))
    else elim (net.unmarshal body) [
      | none ↦ refused called json_failure
      | some doc ↦ record { endpoint = called; outcome = inr doc }
    ]

abbrev requested : Transport → Request → Fetched
requested net req = elim (net.new_request req) [
  | some e ↦ refused "" e
  | none ↦ elim (authorized net req) [
    | some e ↦ refused "" e
    | none ↦ decoded net (call_signature net req.method req.url) (net.send req)
  ]
]

-- `fetch`
unfoldable pub fetch :
    Transport → String → Option Paging → ℕ → ℕ → String → String → String → Fetched
unfolding call_signature
fetch net raw_url p page offset token method body = elim (net.parse_url raw_url) [
  | inl e ↦ refused "" e
  | inr u ↦ requested net (record {
    method = if method == "" then "GET" else method;
    url = with_query net p page token u;
    body = with_body net p offset token body;
  })
]

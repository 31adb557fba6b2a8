-- ===== src/Examples/Live.antt =====
-- A live collection from an API of three servers, which gives at most two of them in an answer.
use mathlib.Core.Path.{subst}
use mathlib.Core.Sum.{inr-injective}
use pepin.Prelude.{
  ℕ, ◌*◌, ◌≤◌, ◌≡◌, refl, sym, ap, ◌∙◌, String, Bool, true, false, ◌&&◌, Option, none, some, List,
  [], ◌∷◌, ◌++◌, inr, Dict, length, itoa, str_dec, arith, lookup, ltb, all_by, split_bars,
  trim_space, contains, split_char,
}
use pepin.Model.Resource.{Value, Fields}
use pepin.Model.Json.{from_list, field_of}
use pepin.Collect.{CollectError, lookup_path, lookup_coalesce, path_exists, source_present}
use pepin.Collect.Transforms.{Go}
use pepin.Collect.Items.{extract_items}
use pepin.Collect.Fetch.{with_body_paging, Paging, Fetched, Reply, Transport, fetch, bool_from_doc}
use pepin.Collect.Pages.{max_pages, fetch_items}
use pepin.Collect.Listing.{HoldsAtMost, fetch_items-length}
use pepin.Collect.Served.{take, drop, Serves}
use pepin.Collect.Specs.{subst as subst_vars, ResourceSpec, Spec}
use pepin.Model.Collection.Merge.{complete_in}
use pepin.Crypto.{validate_hmac_secret}
use pepin.Collect.Engine.{Collected, Inventory, collect_resource, list_resource}
use pepin.Collect.Run.{S3, Oks, collect, collect_apart, is_weak, run}
use pepin.Collect.Kept.{reads_complete, says_unit, run_complete}
use pepin.Collect.Projection.{Source, project_attested}
use pepin.Collect.Attested.{
  is_there, has_source, observation_of, presence_of, project_attested-has_source,
  project_attested-observed,
}
use pepin.Collect.Units.{request_of, Counted, collect_resource-Serves, collect_resource-Counted}

abbrev pub go : Go
go = record {
  sprint = λ v. "";
  to_lower = λ s. s;
  to_upper = λ s. s;
  regexp = λ s. none;
  truncate = λ s. s;
  parse_int = λ s. none;
  parse_float = λ s. none;
  cut_equals = λ s. (s, "");
  statement_of = λ s. none;
}

abbrev server : String → Value
server id = Value.object (Fields.field "id" (Value.text id) Fields.stop)

abbrev servers : List Value
servers = server "a" ∷ server "b" ∷ server "c" ∷ []

abbrev answer : List Value → Bool → Value
answer vs more = Value.object (
    Fields.field "servers" (Value.array (from_list vs))
      (Fields.field "more" (Value.bool more) Fields.stop))

abbrev number_in : Option Value → Option String
number_in (some (Value.number n)) = some n
number_in v = none

-- The API answers the offset that it finds in the body, which is the only text of the request that it
-- reads.
abbrev pub net : Transport
net = record {
  parse_url = inr;
  set_query = λ url k v. url;
  scheme = λ url. "https";
  host = λ url. "api";
  url_path = λ url. "/servers";
  new_request = λ req. none;
  authorize = none;
  send = λ req. Reply.answered 200 req.body;
  unmarshal = λ body. lookup body (
      ("0", answer (server "a" ∷ server "b" ∷ []) true)
      ∷ ("1", answer (server "b" ∷ server "c" ∷ []) false)
      ∷ ("2", answer (server "c" ∷ []) false)
      ∷ ("3", answer [] false)
      ∷ []);
  unmarshal_object = λ body. none;
  marshal = λ fs. number_in (field_of "FirstItem" fs);
}

abbrev paging : Paging
paging = record {
  style = "offset-body";
  param = "FirstItem";
  size_param = "";
  size = 100;
  token_param = "";
  more_path = "more";
  token_path = "";
  max_pages = 2;
}

abbrev machines : ResourceSpec
machines = record {
  type = "compute_instance";
  path = "/servers";
  base_url = "";
  method = "POST";
  body = "";
  items = "servers";
  id = "id";
  mapping = ("id", "id") ∷ [];
  transforms = [];
  const = [];
  aggregate = "";
  paging = some paging;
  for_each = none;
}

abbrev spec : Spec
spec = record {
  provider = "demo";
  base_url = "https://api";
  region_key = "";
  resources = machines ∷ [];
}

drop-append : (before rest : List Value) → drop (length before) (before ++ rest) ≡ rest
drop-append [] [] = refl
drop-append [] (x ∷ rest) = refl
drop-append (a ∷ before) rest = drop-append before rest

-- The answers that `Serves` asks for, where the offset is that of `rest`.
abbrev Answered : ℕ → List Value → Type 0
Answered offset rest =
    (page : ℕ) (token : String)
    → (doc : Value) × ((request_of go net spec machines [] page offset token).outcome ≡ inr doc)
      × (extract_items doc "servers" ≡ take 2 rest)
      × (bool_from_doc doc "more" ≡ ltb 2 (length rest))

Answered-each :
    (before rest : List Value)
    → before ++ rest ≡ servers
    → Answered (length before) (drop (length before) servers)
unfolding fetch str_dec with_body_paging trim_space subst_vars itoa extract_items contains
    lookup_path split_char bool_from_doc
Answered-each [] rest h = λ page token. (_, refl, refl, refl)
Answered-each (a ∷ []) rest h = λ page token. (_, refl, refl, refl)
Answered-each (a ∷ b ∷ []) rest h = λ page token. (_, refl, refl, refl)
Answered-each (a ∷ b ∷ c ∷ []) rest h = λ page token. (_, refl, refl, refl)
Answered-each (a ∷ b ∷ c ∷ d ∷ before) rest h = absurd (ground arith)

machines-Serves : Serves (request_of go net spec machines []) "servers" paging servers 2
machines-Serves before rest split =
    subst (Answered (length before))
      (ap (drop (length before)) (sym split) ∙ drop-append before rest)
      (Answered-each before rest split)

collect_resource-Serves_example :
    (length (collect_resource go net spec machines []).resources ≡ 3)
    × ((collect_resource go net spec machines []).error ≡ none)
unfolding str_dec
collect_resource-Serves_example =
    collect_resource-Serves go net spec machines [] paging servers 2 refl refl refl machines-Serves
      refl refl (omega arith) (omega arith)

-- A listing without pages, whose only answer has two servers.
abbrev two : ℕ → ℕ → String → Fetched
two page offset token = record {
  endpoint = "GET https://api/servers";
  outcome = inr (answer (server "a" ∷ server "b" ∷ []) false);
}

two-HoldsAtMost : HoldsAtMost two "servers" none 2
unfolding extract_items contains lookup_path split_char str_dec
two-HoldsAtMost page offset token doc h =
    subst (λ d. length (extract_items d "servers") ≤ 2) (inr-injective _ _ h) (omega arith)

fetch_items-length_example : length (fetch_items two "servers" none).items ≤ max_pages none * 2
fetch_items-length_example = fetch_items-length two "servers" none 2 two-HoldsAtMost

abbrev server_count : ResourceSpec
server_count = record machines { aggregate = "server_count"; id = "server_count"; mapping = [] }

collect_resource-Counted_example :
    Counted go net spec server_count
      (list_resource go net spec server_count [])
      (collect_resource go net spec server_count [])
      (list_resource go net spec server_count []).error
unfolding str_dec
collect_resource-Counted_example =
    collect_resource-Counted go net spec server_count [] refl refl refl

abbrev no_list : String → Option (List (String × String))
no_list body = none

abbrev no_text : String → Option String
no_text body = none

abbrev plain_detail : CollectError → String
plain_detail e = "refused"

abbrev buckets : Collected
buckets = record { resources = []; error = none }

-- A refusal, of the policies.
abbrev policies : Collected
policies = record {
  resources = [];
  error = some (record {
    http = some (record { status = 403; body = "" });
    truncated = false;
    unreadable = false;
    error_code = none;
    http_status_code = none;
    deadline_exceeded = false;
    net_timeout = false;
    json_error = false;
  });
}

abbrev s3 : S3
s3 = record { endpoint = "https://s3"; secret = "0123456789abcdef" }

abbrev oks : Oks
oks = record { endpoint = ""; secret = "" }

abbrev live : Inventory
live =
    collect_apart no_list no_text plain_detail s3 oks "https://eim" buckets policies buckets
      (collect no_list no_text plain_detail go net spec [])

runs :
    run no_list no_text plain_detail go net spec [] s3 oks "https://eim" false false buckets
      policies buckets
    ≡ inr live
unfolding run str_dec validate_hmac_secret
runs = refl

run_complete_example :
    (is_weak "https://s3" "0123456789abcdef" ≡ false)
    × (is_weak "" "" ≡ false)
    × (complete_in "iam_policy_inline" live.collection ≡ (
        ((all_by
              (reads_complete no_list no_text plain_detail go net spec [] "iam_policy_inline")
              (machines ∷ [])
            && says_unit no_list no_text plain_detail go net spec [] "iam_policy_inline" true
                "object_storage_bucket" buckets)
          && says_unit no_list no_text plain_detail go net spec [] "iam_policy_inline" true
              "iam_policy_inline" policies)
        && says_unit no_list no_text plain_detail go net spec [] "iam_policy_inline" false
            "kubernetes_cluster" buckets))
unfolding str_dec
run_complete_example =
    run_complete no_list no_text plain_detail go net spec [] s3 oks "https://eim" buckets policies
      buckets false false live "iam_policy_inline" runs

abbrev api : Source
api = record { origin = "api"; ref = "GET https://api/servers" }

abbrev fields : Dict String
fields = ("id", "id") ∷ ("zone", "zone || region") ∷ []

id_projected : is_there (lookup "id" (project_attested go (server "a") fields [] api).attrs) ≡ true
unfolding project_attested str_dec lookup_coalesce lookup_path split_char contains source_present
    path_exists split_bars trim_space
id_projected = refl

project_attested-has_source_example : has_source go (server "a") [] api "id" fields ≡ true
project_attested-has_source_example =
    project_attested-has_source go (server "a") [] api "id" fields id_projected

project_attested-observed_example :
    observation_of (lookup "zone" (project_attested go (server "a") fields [] api).prov)
    ≡ presence_of go (server "a") [] api (lookup "zone" fields)
unfolding str_dec
project_attested-observed_example =
    project_attested-observed go (server "a") [] api "zone" fields refl (refl, (refl, tt))

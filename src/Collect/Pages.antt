-- ===== src/Collect/Pages.antt =====
-- internal/collect/engine.go: `fetchItems`, the loop over the pages of a listing.
use pepin.Prelude.{
  ℕ, zero, suc, String, not, ◌||◌, Option, none, some, List, [], ◌++◌, inl, inr, if◌then◌else◌,
  ◌==◌, leb, ltb, nat_eq, length,
}
use pepin.Model.Resource.{Value}
use pepin.Collect.Status.{CollectError}
use pepin.Collect.Items.{extract_items}
use pepin.Collect.Fetch.{Paging, Fetched, bool_from_doc, token_from_doc, truncated_error}

-- What `fetchItems` returns: what was read, the last endpoint that answered, and the error.
pub record Listing : Type 0 where
  pub items : List Value
  pub called : String
  pub error : Option CollectError

abbrev default_max_pages : ℕ
default_max_pages = 1000

abbrev pub max_pages : Option Paging → ℕ
max_pages none = default_max_pages
max_pages (some p) = if leb 1 p.max_pages then p.max_pages else default_max_pages

abbrev unless_empty : String → Option String
unless_empty t = if t == "" then none else some t

-- The `switch` of the loop: the token of the next turn, `none` where the loop returns.
unfoldable pub next_token : Paging → Value → ℕ → String → Option String
next_token p doc count token =
    if p.style == "page" || p.style == "offset-body"
    then if nat_eq count 0
      then none
      else if not (p.more_path == "")
      then if bool_from_doc doc p.more_path then some token else none
      else if ltb count p.size
      then none
      else some token
    else if p.style == "token" || p.style == "token-body"
    then unless_empty (token_from_doc doc p.token_path)
    else none

abbrev pub continues : Option Paging → Value → ℕ → String → Option String
continues none doc count token = none
continues (some p) doc count token = next_token p doc count token

abbrev pub last_called : String → String → String
last_called called endpoint = if endpoint == "" then called else endpoint

module _ (request : ℕ → ℕ → String → Fetched) (items_path : String) (paging : Option Paging) where
  -- The loop, by the number of pages that the bound leaves; `request` is `fetch` of the listing.
  unfoldable pub read_pages : ℕ → ℕ → List Value → String → String → Listing
  unfolding next_token
  read_pages zero page items called token = record {
    items = items;
    called = called;
    error = some truncated_error;
  }
  read_pages (suc left) page items called token =
      let r = request page (length items) token in
      let now = last_called called r.endpoint in
      elim r.outcome [
        | inl e ↦ record { items = items; called = now; error = some e }
        | inr doc ↦
            let batch = extract_items doc items_path in
            elim (continues paging doc (length batch) token) [
              | none ↦ record { items = items ++ batch; called = now; error = none }
              | some t ↦ read_pages left (suc page) (items ++ batch) now t
            ]
      ]

  -- `fetchItems`
  unfoldable pub fetch_items : Listing
  unfolding read_pages
  fetch_items = read_pages (max_pages paging) 1 [] "" ""

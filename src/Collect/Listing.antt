-- ===== src/Collect/Listing.antt =====
-- internal/collect/engine.go: what `fetchItems` promises of the listing that it returns.
use pepin.Prelude.{
  length-append, ℕ, zero, suc, ◌+◌, ◌*◌, ◌≤◌, ◌≡◌, refl, String, Option, none, some, List, [], ◌++◌,
  inl, inr, length, arith, Option-cases, Sum-cases,
}
use pepin.Model.Resource.{Value}
use pepin.Collect.Status.{CollectError}
use pepin.Collect.Items.{extract_items}
use pepin.Collect.Fetch.{Paging, Fetched}
use pepin.Collect.Pages.{continues, last_called, max_pages, read_pages, fetch_items}

module _ (request : ℕ → ℕ → String → Fetched) (items_path : String) (paging : Option Paging) where
  -- A request whose answer holds at most `n` items.
  abbrev pub HoldsAtMost : ℕ → Type 0
  HoldsAtMost n =
      (page offset : ℕ) (token : String) (doc : Value)
      → (request page offset token).outcome ≡ inr doc
      → length (extract_items doc items_path) ≤ n

  -- The three turns of the loop: a refused page, the last page, and a page that others follow.
  module _ (left page : ℕ) (items : List Value) (called token : String) where
    read_pages-refused :
        (e : CollectError)
        → (request page (length items) token).outcome ≡ inl e
        → ((read_pages request items_path paging (suc left) page items called token).items ≡ items)
          × ((read_pages request items_path paging (suc left) page items called token).error
              ≡ some e)
    unfolding read_pages
    read_pages-refused e h = rw (h, read_pages) (refl, refl)

    pub read_pages-last :
        (doc : Value)
        → (request page (length items) token).outcome ≡ inr doc
        → continues paging doc (length (extract_items doc items_path)) token ≡ none
        → ((read_pages request items_path paging (suc left) page items called token).items
            ≡ items ++ extract_items doc items_path)
          × ((read_pages request items_path paging (suc left) page items called token).error ≡ none)
    unfolding read_pages
    read_pages-last doc h last = rw (h, last, read_pages) (refl, refl)

    pub read_pages-more :
        (doc : Value) (t : String)
        → (request page (length items) token).outcome ≡ inr doc
        → continues paging doc (length (extract_items doc items_path)) token ≡ some t
        → read_pages request items_path paging (suc left) page items called token
          ≡ read_pages request items_path paging left
              (suc page)
              (items ++ extract_items doc items_path)
              (last_called called (request page (length items) token).endpoint)
              t
    unfolding read_pages
    read_pages-more doc t h more = rw (h, more, read_pages) refl

  read_pages-length :
      (n left page : ℕ) (items : List Value) (called token : String)
      → HoldsAtMost n
      → length (read_pages request items_path paging left page items called token).items
        ≤ length items + left * n
  unfolding read_pages
  read_pages-length n zero page items called token h = omega arith
  read_pages-length n (suc left) page items called token h =
      elim (Sum-cases (request page (length items) token).outcome) [
        | inl (e, refused) ↦
            rw (read_pages-refused left page items called token e refused).0 (omega arith)
        | inr (doc, read) ↦
            elim (Option-cases
              (continues paging doc (length (extract_items doc items_path)) token)) [
                | inl last ↦ rw (read_pages-last left page items called token doc read last).0 (
                    omega (
                      arith,
                      h page (length items) token doc read,
                      length-append items (extract_items doc items_path),
                    ))
                | inr (t, more) ↦
                    rw (read_pages-more left page items called token doc t read more) (
                      omega (
                        arith,
                        h page (length items) token doc read,
                        length-append items (extract_items doc items_path),
                        read_pages-length n left (suc page) (items ++ extract_items doc items_path)
                            (last_called called (request page (length items) token).endpoint) t h,
                      ))
              ]
      ]

  -- The listing ended where the provider's own answer ends it.
  abbrev pub Ended : Type 0
  Ended =
      (page offset : ℕ) × (token : String) × (doc : Value) × ((request page offset token).outcome
        ≡ inr doc)
      × (continues paging doc (length (extract_items doc items_path)) token ≡ none)

  -- The listing is bounded whatever the provider answers: where no answer holds more than `n` items, it
  -- has at most `n` items for each page that the bound on pages allows.
  pub fetch_items-length :
      (n : ℕ)
      → HoldsAtMost n
      → length (fetch_items request items_path paging).items ≤ max_pages paging * n
  unfolding fetch_items
  fetch_items-length n h = omega (arith, read_pages-length n (max_pages paging) 1 [] "" "" h)

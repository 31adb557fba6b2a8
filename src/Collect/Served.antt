-- ===== src/Collect/Served.antt =====
-- internal/collect/engine.go: a listing by offset of an API that gives what it says.
use pepin.Prelude.{
  append_assoc, ℕ, zero, suc, ◌+◌, ◌*◌, ◌≤◌, ◌<◌, ◌≡◌, refl, ap, ◌∙◌, String, false, not, ◌&&◌,
  none, some, List, [], ◌∷◌, ◌++◌, inl, inr, if◌then◌else◌, ◌==◌, ltb, nat_eq, length, arith,
  Bool-cases,
}
use pepin.Model.Resource.{Value}
use pepin.Collect.Items.{extract_items}
use pepin.Collect.Fetch.{Paging, Fetched, bool_from_doc}
use pepin.Collect.Pages.{last_called, max_pages, read_pages, fetch_items, next_token}
use pepin.Collect.Listing.{read_pages-last, read_pages-more}

-- The first `n` elements.
abbrev pub take {ℓ} : {A : Type ℓ} → ℕ → List A → List A
take n [] = []
take zero (x ∷ xs) = []
take (suc n) (x ∷ xs) = x ∷ take n xs

abbrev pub drop {ℓ} : {A : Type ℓ} → ℕ → List A → List A
drop n [] = []
drop zero (x ∷ xs) = x ∷ xs
drop (suc n) (x ∷ xs) = drop n xs

take-drop {ℓ} : {A : Type ℓ} (n : ℕ) (xs : List A) → take n xs ++ drop n xs ≡ xs
take-drop n [] = refl
take-drop zero (x ∷ xs) = refl
take-drop (suc n) (x ∷ xs) = ap (λ ys. x ∷ ys) (take-drop n xs)

take-length {ℓ} : {A : Type ℓ} (n : ℕ) (xs : List A) → length xs ≤ n → take n xs ≡ xs
take-length n [] h = refl
take-length zero (x ∷ xs) h = absurd (omega (arith, h))
take-length (suc n) (x ∷ xs) h = ap (λ ys. x ∷ ys) (take-length n xs (omega (arith, h)))

length-drop {ℓ} :
    {A : Type ℓ} (n : ℕ) (xs : List A) → n ≤ length xs → length (drop n xs) + n ≡ length xs
length-drop n [] h = omega (arith, h)
length-drop zero (x ∷ xs) h = omega arith
length-drop (suc n) (x ∷ xs) h = omega (arith, length-drop n xs (omega (arith, h)))

-- An offset listing with a flag of what is left goes on exactly while the flag is set and the answer
-- has items.
next_token-offset :
    (p : Paging) (doc : Value) (count : ℕ) (token : String)
    → p.style ≡ "offset-body"
    → (p.more_path == "") ≡ false
    → next_token p doc count token
      ≡ (if not (nat_eq count 0) && bool_from_doc doc p.more_path then some token else none)
unfolding next_token
next_token-offset p doc count token h k = rw h (ground (arith, k))

next_token-take :
    (p : Paging) (doc : Value) (most : ℕ) (token : String) (rest : List Value)
    → p.style ≡ "offset-body"
    → (p.more_path == "") ≡ false
    → 1 ≤ most
    → bool_from_doc doc p.more_path ≡ ltb most (length rest)
    → next_token p doc (length (take most rest)) token
      ≡ (if ltb most (length rest) then some token else none)
next_token-take p doc zero token rest h k one flag = absurd (omega (arith, one))
next_token-take p doc (suc most) token [] h k one flag =
    ground (arith, flag, next_token-offset p doc 0 token h k)
next_token-take p doc (suc most) token (x ∷ rest) h k one flag =
    ground (arith, flag, next_token-offset p doc (suc (length (take most rest))) token h k)

-- The turn after an answer that holds `take most rest`.
next_token-batch :
    (p : Paging) (doc : Value) (most : ℕ) (token : String) (batch rest : List Value)
    → p.style ≡ "offset-body"
    → (p.more_path == "") ≡ false
    → 1 ≤ most
    → batch ≡ take most rest
    → bool_from_doc doc p.more_path ≡ ltb most (length rest)
    → next_token p doc (length batch) token ≡ (if ltb most (length rest) then some token else none)
next_token-batch p doc most token batch rest h k one e flag =
    rw e (next_token-take p doc most token rest h k one flag)

turns_left : (left most n : ℕ) → n ≤ suc left * most → most < n → 1 ≤ left
turns_left zero most n h k = absurd (omega (arith, h, k))
turns_left (suc left) most n h k = omega arith

-- An API that lists `all` by offset, at most `most` items an answer whatever the size that is asked for,
-- and says in each answer whether items are left.
module _ (request : ℕ → ℕ → String → Fetched) (items_path : String) (p : Paging) (all : List Value)
    (most : ℕ) where
  abbrev pub Serves : Type 0
  Serves =
      (before rest : List Value)
      → before ++ rest ≡ all
      → (page : ℕ) (token : String)
      → (doc : Value) × ((request page (length before) token).outcome ≡ inr doc)
        × (extract_items doc items_path ≡ take most rest)
        × (bool_from_doc doc p.more_path ≡ ltb most (length rest))

  read_pages-Serves :
      (left page : ℕ) (before rest : List Value) (called token : String)
      → before ++ rest ≡ all
      → Serves
      → p.style ≡ "offset-body"
      → (p.more_path == "") ≡ false
      → 1 ≤ most
      → length rest ≤ left * most
      → 1 ≤ left
      → ((read_pages request items_path (some p) left page before called token).items ≡ all)
        × ((read_pages request items_path (some p) left page before called token).error ≡ none)
  read_pages-Serves zero page before rest called token split serves offset more one enough turn =
      absurd (omega arith)
  read_pages-Serves (suc left) page before rest called token split serves offset more one enough
        turn =
      let (doc, read, batch, flag) = serves before rest split page token in
      let got = extract_items doc items_path in
      let step = next_token-batch p doc most token got rest offset more one batch flag in
      elim (Bool-cases (ltb most (length rest))) [
        | inr short ↦
            let end =
              read_pages-last request items_path (some p) left page before called token doc read
                (ground (arith, step, short)) in
            (end.0 ∙ rw (batch, take-length most rest (ground (arith, short))) split, end.1)
        | inl long ↦
            rw
              (read_pages-more request items_path (some p) left page before called token doc token
                read (ground (arith, step, long)))
              (read_pages-Serves left (suc page) (before ++ got) (drop most rest)
                (last_called called (request page (length before) token).endpoint) token
                (append_assoc before got (drop most rest) ∙ rw (batch, take-drop most rest) split)
                serves offset more one
                (omega (arith, enough, length-drop most rest (ground (arith, long))))
                (turns_left left most (length rest) enough (ground (arith, long))))
      ]

  -- A listing by offset is complete: where the API serves `all` in answers of at most `most` items and
  -- says in each whether items are left, and the bound on pages allows for them, the collector returns
  -- every item once, in the order of the API, without an error, whatever size it asks for.
  pub fetch_items-Serves :
      Serves
      → p.style ≡ "offset-body"
      → (p.more_path == "") ≡ false
      → 1 ≤ most
      → length all ≤ max_pages (some p) * most
      → ((fetch_items request items_path (some p)).items ≡ all)
        × ((fetch_items request items_path (some p)).error ≡ none)
  unfolding fetch_items
  fetch_items-Serves serves offset more one enough =
      read_pages-Serves (max_pages (some p)) 1 [] all "" "" refl serves offset more one enough
        (ground arith)

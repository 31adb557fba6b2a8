-- ===== src/Eim/Turns.antt =====
-- internal/eimpolicy/eimpolicy.go: how long the loops over pages turn.
use pepin.Prelude.{
  ℕ, zero, suc, ◌+◌, ◌≡◌, refl, String, Bool, true, none, List, [], ◌∷◌, ◌++◌, ◌⊎◌, inl, inr,
  length, filter_by,
}
use pepin.Collect.{CollectError}
use pepin.Collect.Fetch.{Transport, unset_error}
use pepin.Eim.Reading.{
  Decoders, is_named, max_pages, read_bounded, ask_users, ask_groups, read_all_users,
  read_all_user_groups, read_unbounded, ask_user_policies, ask_group_policies,
  read_all_user_policies, read_all_group_policies,
}

-- A listing that never ends: each answer has items, and says that more are left.
abbrev pub IsEndless {ℓ} : {A : Type ℓ} → (ℕ → CollectError ⊎ (List A × Bool)) → Type ℓ
IsEndless {A = A} ask = (first : ℕ) → (a : A) × (rest : List A) × (ask first ≡ inr (a ∷ rest, true))

read_unbounded-IsEndless {ℓ} :
    {A : Type ℓ} (ask : ℕ → CollectError ⊎ (List A × Bool)) (fuel : ℕ) (out : List A)
    → IsEndless ask
    → read_unbounded ask fuel out ≡ none
unfolding read_unbounded
read_unbounded-IsEndless ask zero out h = refl
read_unbounded-IsEndless ask (suc fuel) out h =
    let (a, rest, e) = h (length out) in
    rw (e, read_unbounded) (read_unbounded-IsEndless ask fuel (out ++ a ∷ rest) h)

read_bounded-IsEndless :
    (ask : ℕ → CollectError ⊎ (List String × Bool)) (left seen : ℕ) (out : List String)
    → IsEndless ask
    → read_bounded ask left seen out ≡ inl unset_error
unfolding read_bounded
read_bounded-IsEndless ask zero seen out h = refl
read_bounded-IsEndless ask (suc left) seen out h =
    let (a, rest, e) = h seen in
    rw (e, read_bounded)
      (read_bounded-IsEndless ask left (seen + suc (length rest))
        (out ++ filter_by is_named (a ∷ rest)) h)

-- An API that never ends its listings stops two of the four loops only: the lists of the users and of
-- the groups end with an error at the bound on pages, while those of the policies of a user and of a
-- group are still turning after any number of pages.
pub read_all-IsEndless :
    (net : Transport) (decoders : Decoders) (base_url user group : String) (fuel : ℕ)
    → IsEndless (ask_users net decoders base_url)
    → IsEndless (ask_groups net decoders base_url)
    → IsEndless (ask_user_policies net decoders base_url user)
    → IsEndless (ask_group_policies net decoders base_url group)
    → (read_all_users net decoders base_url ≡ inl unset_error)
      × (read_all_user_groups net decoders base_url ≡ inl unset_error)
      × (read_all_user_policies net decoders base_url fuel user ≡ none)
      × (read_all_group_policies net decoders base_url fuel group ≡ none)
unfolding read_all_users read_all_user_groups read_all_user_policies read_all_group_policies
read_all-IsEndless net decoders base_url user group fuel u g up gp = (
  read_bounded-IsEndless _ max_pages 0 [] u,
  read_bounded-IsEndless _ max_pages 0 [] g,
  read_unbounded-IsEndless _ fuel [] up,
  read_unbounded-IsEndless _ fuel [] gp,
)

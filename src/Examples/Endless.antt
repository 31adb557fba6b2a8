-- ===== src/Examples/Endless.antt =====
-- An API whose listings never end.
use pepin.Prelude.{◌≡◌, refl, String, true, none, some, [], ◌∷◌, inl}
use pepin.Collect.Fetch.{unset_error}
use pepin.Eim.Reading.{
  Decoders, post, ask_users, ask_groups, ask_user_policies, ask_group_policies, read_all_users,
  read_all_user_groups, read_all_user_policies, read_all_group_policies,
}
use pepin.Eim.Turns.{IsEndless, read_all-IsEndless}
use pepin.Examples.Live.{net}

abbrev endless : Decoders
endless = record {
  users = λ body. some ("user" ∷ [], true);
  user_groups = λ body. some ("group" ∷ [], true);
  policy_names = λ body. some ("policy" ∷ [], true);
  policies = λ body. some (record { name = "policy"; body = "" } ∷ [], true);
  document = λ body. some "";
}

abbrev url : String
url = "https://eim"

users-IsEndless : IsEndless (ask_users net endless url)
unfolding post
users-IsEndless first = (_, _, refl)

groups-IsEndless : IsEndless (ask_groups net endless url)
unfolding post
groups-IsEndless first = (_, _, refl)

policies-IsEndless : IsEndless (ask_user_policies net endless url "user")
unfolding post
policies-IsEndless first = (_, _, refl)

shared-IsEndless : IsEndless (ask_group_policies net endless url "group")
unfolding post
shared-IsEndless first = (_, _, refl)

read_all-IsEndless_example :
    (read_all_users net endless url ≡ inl unset_error)
    × (read_all_user_groups net endless url ≡ inl unset_error)
    × (read_all_user_policies net endless url 5000 "user" ≡ none)
    × (read_all_group_policies net endless url 5000 "group" ≡ none)
read_all-IsEndless_example =
    read_all-IsEndless net endless url "user" "group" 5000 users-IsEndless groups-IsEndless
      policies-IsEndless shared-IsEndless

-- ===== src/Users/Tests.antt =====
-- One user gets another limit, one leaves and one comes.
use oldxr.Base.{ℕ, ◌≡◌, refl, some, List, [], ◌∷◌, ℕ_discrete}
use oldxr.Base.Int.{ℤ, pos, ℤ_discrete}
use oldxr.Base.Dict.{load, store}
use oldxr.Base.Text.{Str-discrete}
use oldxr.Api.{UserInfo}
use oldxr.Users.{
  Changes, same_runtime_user, same_limits, index_users, compare_user, compare_users, add_gone,
  compare_user_list,
}
use oldxr.Users.Selected.{find_last}
use oldxr.Users.Applied.{IsDistinct, user_after, compare_user_list-applies}

abbrev limited_user : ℤ → ℕ → UserInfo
limited_user uid limit = record {
  uid = uid;
  email = [];
  passwd = [];
  port = 0;
  method = [];
  speed_limit = limit;
  device_limit = pos 0;
  protocol = [];
  protocol_param = [];
  obfs = [];
  obfs_param = [];
  uuid = [];
  alter_id = 0;
}

abbrev old_users : List UserInfo
old_users = limited_user (pos 7) 1 ∷ limited_user (pos 8) 0 ∷ []

abbrev new_users : List UserInfo
new_users = limited_user (pos 7) 2 ∷ limited_user (pos 9) 0 ∷ []

new_users-IsDistinct : IsDistinct new_users
unfolding IsDistinct find_last ℤ_discrete ℕ_discrete
new_users-IsDistinct = (refl, (refl, tt))

compare_user_list-applies_example :
    (c : Changes) × ((compare_user_list old_users new_users ≡ some c)
      × ((uid : ℤ) → user_after old_users c uid ≡ find_last uid new_users))
compare_user_list-applies_example =
    compare_user_list-applies old_users new_users new_users-IsDistinct

abbrev changes : Changes
changes = record {
  deleted = limited_user (pos 8) 0 ∷ [];
  added = limited_user (pos 9) 0 ∷ [];
  limit_updated = limited_user (pos 7) 2 ∷ [];
}

compared : compare_user_list old_users new_users ≡ some changes
unfolding compare_user_list index_users compare_users compare_user add_gone same_runtime_user
    same_limits load store Str-discrete ℤ_discrete ℕ_discrete
compared = refl

seven_was : find_last (pos 7) old_users ≡ some (limited_user (pos 7) 1)
unfolding find_last ℤ_discrete ℕ_discrete
seven_was = refl

seven_is : find_last (pos 7) new_users ≡ some (limited_user (pos 7) 2)
unfolding find_last ℤ_discrete ℕ_discrete
seven_is = refl

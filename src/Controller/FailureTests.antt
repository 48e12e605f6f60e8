-- ===== src/Controller/FailureTests.antt =====
-- A server that takes no users and removes none, and the rounds that follow. A retired user whose
-- flow is open is not finalized.
use oldxr.Base.{ℕ, ◌≡◌, refl, Bool, true, false, none, some, List, [], ◌∷◌, ℕ_discrete}
use oldxr.Base.Int.{ℤ, ℤ_discrete}
use oldxr.Base.Dict.{load, store}
use oldxr.Base.Text.{Str, Str-discrete, bytes, itoa, append_nat}
use oldxr.Api.{UserInfo, DetectResult}
use oldxr.Limiter.Users.{key_of}
use oldxr.Limiter.Key.{format_user_key}
use oldxr.Users.{
  compare_user_list, index_users, compare_users, compare_user, add_gone, same_runtime_user,
  same_limits,
}
use oldxr.Users.Selected.{find_last}
use oldxr.Users.Applied.{IsDistinct}
use oldxr.Controller.{
  RetiringUserKey-discrete, User, server_error, ServerOps, Environment, Controller,
}
use oldxr.Controller.Builders.{build_users, build_trojan_user}
use oldxr.Controller.Server.{add_users, add_each, remove_users, remove_each, user_manager_of}
use oldxr.Controller.Retirement.{runtime_user_emails, finalize_retiring_users}
use oldxr.Controller.Monitor.{check_rule, keep_node, apply_changes, remove_deleted, end_removal}
use oldxr.Controller.Keys.{find_key}
use oldxr.Controller.Serving.{admits}
use oldxr.Controller.Failures.{
  add_error, remove_error, failed_add_not_retried, failed_removal_not_retried,
}
use oldxr.Traffic.{StatsOps, RetiringUser}
use oldxr.Controller.Finalizing.{key_at, HasFlows, busy_user_stays}
use oldxr.Controller.Tests.{keeping, env, idle, trojan_node, numbered}

abbrev refusing : ServerOps (List Str) Str Str Str Str Str User
refusing = record keeping {
  add_user = λ m v x. (x, some (bytes "full"));
  remove_user = λ m email x. (x, some (bytes "busy"));
}

abbrev strict : Environment (List Str) Str Str Str Str Str User (ℕ × ℤ) ℕ (Unit {0}) Str ℕ
strict = record env { server_ops = refusing }

abbrev one_user : List UserInfo
one_user = numbered 7 1 ∷ []

abbrev two_users : List UserInfo
two_users = numbered 7 1 ∷ numbered 9 0 ∷ []

abbrev Node : Type 0
Node = Controller (List Str) (ℕ × ℤ) (Unit {0}) Str (List DetectResult) ℕ

abbrev with_users : List UserInfo → Node
with_users users = record idle { node_info = trojan_node; tag = bytes "t"; user_list = users }

-- The state after a round, or the one before where there is none.
round : List UserInfo → Bool → Node → Node
round users changed c = elim (keep_node strict users changed c) [ some c' ↦ c' | none ↦ c ]

two_users-IsDistinct : IsDistinct two_users
unfolding IsDistinct find_last ℤ_discrete ℕ_discrete
two_users-IsDistinct = (refl, (refl, tt))

nine_added :
    compare_user_list one_user two_users
    ≡ some (record { deleted = []; added = numbered 9 0 ∷ []; limit_updated = [] })
unfolding compare_user_list index_users compare_users compare_user add_gone same_runtime_user
    same_limits load store Str-discrete ℤ_discrete ℕ_discrete
nine_added = refl

after_add : Node
after_add = round two_users true (with_users one_user)

added_first : keep_node strict two_users true (with_users one_user) ≡ some after_add
unfolding after_add round keep_node apply_changes remove_deleted compare_user_list index_users
    compare_users compare_user add_gone same_runtime_user same_limits load store Str-discrete
    ℤ_discrete ℕ_discrete
added_first = refl

after_second : Node
after_second = round two_users true after_add

added_second : keep_node strict two_users true after_add ≡ some after_second
unfolding after_second after_add round keep_node apply_changes remove_deleted compare_user_list
    index_users compare_users compare_user add_gone same_runtime_user same_limits load store
    Str-discrete ℤ_discrete ℕ_discrete
added_second = refl

nine_refused :
    add_error strict (numbered 9 0 ∷ []) (check_rule strict (bytes "t") (with_users one_user))
    ≡ some (server_error (bytes "full"))
unfolding build_users build_trojan_user add_users user_manager_of add_each check_rule Str-discrete
    ℕ_discrete
nine_refused = refl

nine_found :
    find_key (bytes "t") (key_of (bytes "t") (numbered 9 0)) (numbered 9 0 ∷ [])
    ≡ some (numbered 9 0)
unfolding find_key format_user_key Str-discrete ℕ_discrete itoa append_nat
nine_found = refl

failed_add_not_retried_example :
    (after_add.user_list ≡ two_users)
    × (admits (bytes "t") (key_of (bytes "t") (numbered 9 0)) after_add.user_flows ≡ false)
    × (admits (bytes "t") (key_of (bytes "t") (numbered 9 0)) after_second.user_flows ≡ false)
failed_add_not_retried_example =
    failed_add_not_retried strict two_users _ (with_users one_user) after_add after_second
      (server_error (bytes "full")) (key_of (bytes "t") (numbered 9 0)) (numbered 9 0)
      two_users-IsDistinct nine_added refl nine_refused nine_found added_first added_second

nine_deleted :
    compare_user_list two_users one_user
    ≡ some (record { deleted = numbered 9 0 ∷ []; added = []; limit_updated = [] })
unfolding compare_user_list index_users compare_users compare_user add_gone same_runtime_user
    same_limits load store Str-discrete ℤ_discrete ℕ_discrete
nine_deleted = refl

after_removal : Node
after_removal = round one_user true (with_users two_users)

removed_first : keep_node strict one_user true (with_users two_users) ≡ some after_removal
unfolding after_removal round keep_node apply_changes remove_deleted end_removal remove_users
    user_manager_of remove_each compare_user_list index_users compare_users compare_user add_gone
    same_runtime_user same_limits load store Str-discrete ℤ_discrete ℕ_discrete runtime_user_emails
removed_first = refl

after_no_change : Node
after_no_change = round after_removal.user_list false after_removal

no_change : keep_node strict after_removal.user_list false after_removal ≡ some after_no_change
unfolding after_no_change round keep_node
no_change = refl

nine_kept :
    remove_error strict (numbered 9 0 ∷ []) (check_rule strict (bytes "t") (with_users two_users))
    ≡ some (server_error (bytes "busy"))
unfolding remove_users user_manager_of remove_each check_rule runtime_user_emails
nine_kept = refl

failed_removal_not_retried_example :
    (after_no_change.user_list ≡ two_users)
    × (admits (bytes "t") (key_of (bytes "t") (numbered 9 0)) after_no_change.user_flows ≡ true)
failed_removal_not_retried_example =
    failed_removal_not_retried strict one_user _ (with_users two_users) after_removal
      after_no_change (server_error (bytes "busy")) (key_of (bytes "t") (numbered 9 0))
      (numbered 9 0) nine_deleted nine_kept nine_found removed_first no_change

abbrev no_counters : StatsOps ℕ (Unit {0})
no_counters = record {
  get_counter = λ name s. none;
  set_counter = λ v a s. (s, 0);
  add_counter = λ v a s. s;
  value = λ a s. 0;
}

abbrev retired_nine : RetiringUser
retired_nine = record { tag = bytes "t"; user = numbered 9 0 }

abbrev nine_key : Str
nine_key = key_of (bytes "t") (numbered 9 0)

-- User 9 has been retired with one open flow.
abbrev busy_node : Node
busy_node = record idle {
  retiring_users = (key_at (bytes "t") nine_key, retired_nine) ∷ [];
  user_flows = record {
    nodes = (bytes "t", record { current = []; runtime = (nine_key, 0) ∷ [] }) ∷ [];
    heap = 1 ∷ [];
  };
}

nine_busy : HasFlows (bytes "t") nine_key 0 0 busy_node
unfolding load format_user_key Str-discrete ℕ_discrete itoa append_nat
nine_busy = (refl, refl)

busy_user_stays_example :
    let c' =
      (finalize_retiring_users no_counters (λ name s. s) (retired_nine ∷ []) (busy_node, tt)).0 in
    (load RetiringUserKey-discrete (key_at (bytes "t") nine_key) c'.retiring_users
      ≡ load RetiringUserKey-discrete (key_at (bytes "t") nine_key) busy_node.retiring_users)
    × HasFlows (bytes "t") nine_key 0 0 c'
busy_user_stays_example =
    busy_user_stays no_counters (λ name s. s) (retired_nine ∷ []) (bytes "t") nine_key 0 0 busy_node
      tt nine_busy

-- ===== src/Controller/Agreement.antt =====
-- All rounds of the node monitor: what is served is the controller's own list.
use oldxr.Base.{
  ℕ, ◌≡◌, refl, Bool, true, false, Option, none, some, List, Bool-cases, inl, inr, ◌⊎◌, holds, ltb,
}
use oldxr.Base.Text.{Str}
use oldxr.Api.{UserInfo, NodeInfo}
use oldxr.Clients.{ApiError, users_no_change}
use oldxr.Controller.{Environment, Controller, PanelOps, NodeInfo-discrete}
use oldxr.Controller.Monitor.{user_update, change_node, finish_round, poll_users, node_info_monitor}
use oldxr.Controller.Keys.{IsUserList}
use oldxr.Controller.Building.{is_supported}
use oldxr.Controller.Steps.{Reliable}
use oldxr.Controller.Rounds.{IsServing, Serves-same, keep_node-IsServing}
use oldxr.Controller.Switching.{change_node-IsServing}

-- What the panel means by its answers: users with numbers of their own, and a type of node that
-- the controller knows.
pub record PanelLaws {K P : Type 0} (methods_2022 : List Str) (panel : PanelOps K P) : Type 0 where
  pub lists :
      (k : K) (users : List UserInfo) → (panel.get_user_list k).1 ≡ inl users → IsUserList users
  pub types :
      (k : K) (n : NodeInfo)
      → (panel.get_node_info k).1 ≡ inl n
      → is_supported methods_2022 n ≡ true

-- A list that the round works with.
abbrev IsUpdate : List UserInfo → Option (List UserInfo × Bool) → Type 0
IsUpdate old none = Unit
IsUpdate old (some (users, changed)) = IsUserList users × (changed ≡ false → users ≡ old)

user_update-IsUpdate :
    (old : List UserInfo) (answer : List UserInfo ⊎ ApiError)
    → IsUserList old
    → ((users : List UserInfo) → answer ≡ inl users → IsUserList users)
    → IsUpdate old (user_update old answer)
unfolding user_update
user_update-IsUpdate old (inl users) l m = (m users refl, λ e. absurd (cc))
user_update-IsUpdate old (inr err) l m = elim err as (λ k. IsUpdate old (user_update old (inr k))) [
  | users_no_change ↦ (l, λ e. refl)
  | _ ↦ tt
]

module _ {X C O H I M V B R G P K S : Type 0} (env : Environment X C O H I M V B R G P K) where
  -- Another state of the client.
  pub polled-IsServing :
      (k : K) (c : Controller X B G P S K)
      → IsServing env.methods_2022 c
      → IsServing env.methods_2022 (record c { api_client = k })
  polled-IsServing k c s = record {
    listed = s.listed;
    supported = s.supported;
    serves = Serves-same env c.user_list c _ refl refl refl s.serves;
  }

  module _ (reliable : Reliable env) where
    finish_round-IsServing :
        (n : NodeInfo) (update : Option (List UserInfo × Bool)) (c : Controller X B G P S K)
        → IsServing env.methods_2022 c
        → is_supported env.methods_2022 n ≡ true
        → IsUpdate c.user_list update
        → (c' : _) × (finish_round env n update c ≡ some c') × IsServing env.methods_2022 c'
    unfolding finish_round
    finish_round-IsServing n none c s h u = (c, refl, s)
    finish_round-IsServing n (some (users, changed)) c s h u =
        elim (Bool-cases (holds (NodeInfo-discrete c.node_info n))) [
          | inl e ↦ rw (e) (keep_node-IsServing env reliable users changed c s u.0 u.1)
          | inr e ↦ rw (e) (
            change_node env n users c,
            refl,
            change_node-IsServing env reliable n users c s u.0 h,
          )
        ]

    poll_users-IsServing :
        (answer : K × (NodeInfo ⊎ ApiError)) (c : Controller X B G P S K)
        → PanelLaws env.methods_2022 env.panel
        → IsServing env.methods_2022 c
        → ((n : NodeInfo) → answer.1 ≡ inl n → is_supported env.methods_2022 n ≡ true)
        → (c' : _) × (poll_users env answer c ≡ some c') × IsServing env.methods_2022 c'
    unfolding poll_users
    poll_users-IsServing (k, inr err) c laws s h = (_, refl, polled-IsServing k c s)
    poll_users-IsServing (k, inl n) c laws s h =
        let (k', answer) = env.panel.get_user_list k in
        finish_round-IsServing n (user_update c.user_list answer) (record c { api_client = k' })
          (polled-IsServing k' c s) (h n refl)
          (user_update-IsUpdate c.user_list answer s.listed (laws.lists k))

    -- Where the server takes users and handlers, though it may refuse to remove them, a round of
    -- the node monitor ends without a panic, whatever the panel answers. If before it just the
    -- users of the controller's list were admitted under its tag, nobody under another, and the
    -- limits were theirs, then so it is after it, for the list, the tag and the node of then.
    pub node_info_monitor-IsServing :
        (elapsed : ℕ) (c : Controller X B G P S K)
        → PanelLaws env.methods_2022 env.panel
        → IsServing env.methods_2022 c
        → (c' : _) × (node_info_monitor env elapsed c ≡ some c') × IsServing env.methods_2022 c'
    unfolding node_info_monitor
    node_info_monitor-IsServing elapsed c laws s =
        elim (Bool-cases (ltb elapsed env.config.update_periodic)) [
          | inl e ↦ rw (e) (c, refl, s)
          | inr e ↦ rw (e) (
              poll_users-IsServing (env.panel.get_node_info c.api_client) c laws s
                (laws.types c.api_client))
        ]

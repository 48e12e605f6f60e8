-- ===== src/Controller/Delivery.antt =====
-- The panel's list reaches the controller, in a round in which the server does all it is asked.
use mathlib.Core.Option
use mathlib.Core.Option.{some-injective}
use oldxr.Base.{
  ℕ, ◌≡◌, ◌∙◌, refl, sym, ap, true, false, Option, none, some, List, [], ◌∷◌, arith, Bool-cases,
  inl, inr, ltb, holds,
}
use oldxr.Base.Text.{Str}
use oldxr.Api.{UserInfo, NodeInfo}
use oldxr.Users.Selected.{compare_user_list-selects}
use oldxr.Controller.{Environment, Controller, Error, NodeInfo-discrete}
use oldxr.Controller.Server.{remove_users}
use oldxr.Controller.Retirement.{runtime_user_emails, retire_managed_users}
use oldxr.Controller.Handlers.{and_then, dokodemo_tag, remove_old_tag, build_node_tag}
use oldxr.Controller.Monitor.{
  end_removal, remove_deleted, apply_changes, end_switch, switch_node, check_rule, keep_node,
  change_node, user_update, finish_round, poll_users, node_info_monitor,
}
use oldxr.Controller.Building.{is_supported}
use oldxr.Controller.Updates.{selected}
use oldxr.Controller.Serving.{admits}
use oldxr.Controller.Steps.{Reliable}
use oldxr.Controller.Rounds.{IsServing, check_rule-leaves}
use oldxr.Controller.Switching.{switch_node-ends, serve_new_node-Serves}
use oldxr.Controller.Agreement.{PanelLaws, polled-IsServing, node_info_monitor-IsServing}

-- A server that removes users and handlers when asked.
pub record Removing {X C O H I M V B R G P K : Type 0} (env : Environment X C O H I M V B R G P K)
    : Type 0 where
  pub removes :
      (emails : List Str) (tag : Str) (x : X) → (remove_users env.server_ops emails tag x).1 ≡ none
  pub closes : (tag : Str) (x : X) → (remove_old_tag env tag x).1 ≡ none

abbrev list_of : {X B G P S K : Type 0} → Option (Controller X B G P S K) → Option (List UserInfo)
list_of o = Option.map (λ c. c.user_list) o

and_then-none :
    {X : Type 0}
    → (answer : X × Option Error) (next : X → X × Option Error) → answer.1 ≡ none
    → ((x : X) → (next x).1 ≡ none)
    → (and_then answer next).1 ≡ none
and_then-none (x, none) next h k = k x
and_then-none (x, some err) next h k = absurd (cc)

module _ {X C O H I M V B R G P K S : Type 0} (env : Environment X C O H I M V B R G P K) where
  end_removal-true :
      (us : List UserInfo) (c : Controller X B G P S K) (answer : X × Option Error)
      → answer.1 ≡ none
      → (end_removal env us c answer).1 ≡ true
  unfolding end_removal
  end_removal-true us c (x, none) h = refl
  end_removal-true us c (x, some err) h = absurd (cc)

  module _ (reliable : Reliable env) (removing : Removing env) where
    remove_deleted-true :
        (us : List UserInfo) (c : Controller X B G P S K) → (remove_deleted env us c).1 ≡ true
    unfolding remove_deleted
    remove_deleted-true [] c = refl
    remove_deleted-true (u ∷ us) c =
        let retired = retire_managed_users c.tag (u ∷ us) c in
        let emails = runtime_user_emails c.tag (u ∷ us) in
        end_removal-true (u ∷ us) retired (remove_users env.server_ops emails c.tag retired.server)
          (removing.removes emails c.tag retired.server)

    keep_node-list :
        (users : List UserInfo) (c : Controller X B G P S K)
        → list_of (keep_node env users true c) ≡ some users
    unfolding keep_node apply_changes
    keep_node-list users c = ground (
      arith,
      compare_user_list-selects c.user_list users,
      remove_deleted-true (selected c.user_list users).deleted (check_rule env c.tag c),
    )

    end_switch-true :
        (n : NodeInfo) (c : Controller X B G P S K) (answer : X × Option Error)
        → answer.1 ≡ none
        → (end_switch env n c answer).1 ≡ true
    unfolding end_switch
    end_switch-true n c (x, none) h =
        ground (arith, reliable.opens n (build_node_tag env.config n) x)
    end_switch-true n c (x, some err) h = absurd (cc)

    switch_node-true : (n : NodeInfo) (c : Controller X B G P S K) → (switch_node env n c).1 ≡ true
    unfolding switch_node
    switch_node-true n c = end_switch-true n (retire_managed_users c.tag c.user_list c) _ (
        and_then-none _ _ (removing.closes c.tag _)
          (λ x. ground (arith, removing.closes (dokodemo_tag c.tag) x)))

    change_node-list :
        (n : NodeInfo) (users : List UserInfo) (c : Controller X B G P S K)
        → IsServing env.methods_2022 c
        → is_supported env.methods_2022 n ≡ true
        → (change_node env n users c).user_list ≡ users
    unfolding change_node
    change_node-list n users c s h =
        let tag = build_node_tag env.config n in
        let c1 = (switch_node env n c).0 in
        elim (switch_node-ends env reliable n c s) [
          | inr (e, served) ↦ absurd (ground (arith, e, switch_node-true n c))
          | inl (e, closed) ↦
              let leaves = check_rule-leaves env tag c1 in
              let served =
                serve_new_node-Serves env reliable n tag users (check_rule env tag c1) h
                  (λ t m. ap (admits t m) leaves.1 ∙ closed t m) in
              rw (e) (rw (served.0) refl)
        ]

    finish_round-list :
        (n : NodeInfo) (users : List UserInfo) (c : Controller X B G P S K)
        → IsServing env.methods_2022 c
        → is_supported env.methods_2022 n ≡ true
        → list_of (finish_round env n (some (users, true)) c) ≡ some users
    unfolding finish_round
    finish_round-list n users c s h = elim (Bool-cases (holds (NodeInfo-discrete c.node_info n))) [
      | inl e ↦ rw (e) (keep_node-list users c)
      | inr e ↦ rw (e) (ap some (change_node-list n users c s h))
    ]

    poll_users-list :
        (n : NodeInfo) (users : List UserInfo) (k : K) (c : Controller X B G P S K)
        → IsServing env.methods_2022 c
        → is_supported env.methods_2022 n ≡ true
        → (env.panel.get_user_list k).1 ≡ inl users
        → list_of (poll_users env (k, inl n) c) ≡ some users
    unfolding poll_users user_update
    poll_users-list n users k c s h e =
        let k' = (env.panel.get_user_list k).0 in
        rw (e)
          (finish_round-list n users (record c { api_client = k' }) (polled-IsServing env k' c s) h)

    -- Let the panel's lists have distinct int64 numbers, its nodes be such that users can always be
    -- built, and the server do all it is asked. In a round that is due, from a state in which the
    -- controller's own list is served, and in which the panel answers with a node, changed or not,
    -- and a list, the controller ends with that list and serves just its users.
    pub node_info_monitor-delivers :
        (elapsed : ℕ) (c : Controller X B G P S K) (k : K) (n : NodeInfo) (users : List UserInfo)
        → PanelLaws env.methods_2022 env.panel
        → IsServing env.methods_2022 c
        → ltb elapsed env.config.update_periodic ≡ false
        → env.panel.get_node_info c.api_client ≡ (k, inl n)
        → (env.panel.get_user_list k).1 ≡ inl users
        → (c' : _) × (node_info_monitor env elapsed c ≡ some c')
          × IsServing env.methods_2022 c'
          × (c'.user_list ≡ users)
    unfolding node_info_monitor
    node_info_monitor-delivers elapsed c k n users laws s due node list =
        let (c', e, s') = node_info_monitor-IsServing env reliable elapsed c laws s in
        let supported = laws.types c.api_client n (ap (λ r. r.1) node) in
        let published : list_of (node_info_monitor env elapsed c) ≡ some users =
          rw (due, node_info_monitor) (rw (node) (poll_users-list n users k c s supported list)) in
        (c', e, s', some-injective _ _ (sym (ap list_of e) ∙ published))

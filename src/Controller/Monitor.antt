-- ===== src/Controller/Monitor.antt =====
-- `nodeInfoMonitor` of service/controller/controller.go, and what it calls there.
--
-- A panic is `none`. `reflect.DeepEqual` is equality of the modelled fields.
use oldxr.Base.{
  ℕ, Bool, true, false, Option, none, some, List, [], ◌∷◌, ◌++◌, ◌⊎◌, inl, inr, if◌then◌else◌, ltb,
  holds,
}
use oldxr.Base.Text.{Str}
use oldxr.Api.{UserInfo, NodeInfo}
use oldxr.Clients.{ApiError, users_no_change}
use oldxr.Limiter.Users.{
  add_inbound_limiter, update_inbound_limiter, delete_inbound_limiter_users, delete_inbound_limiter,
}
use oldxr.Rule.{update_rule}
use oldxr.Users.{Changes, compare_user_list}
use oldxr.Controller.{Error, unsupported_node_type, Environment, Controller, NodeInfo-discrete}
use oldxr.Controller.Builders.{build_users}
use oldxr.Controller.Server.{add_users, remove_users}
use oldxr.Controller.Retirement.{
  runtime_user_emails, register_managed_users, retire_managed_users, restore_managed_users,
}
use oldxr.Controller.Handlers.{
  and_then, build_node_tag, dokodemo_tag, is_plugin, remove_old_tag, add_new_tag,
}

-- What the answer to the user list means: the new list and whether it has changed, or the
-- end of the round.
unfoldable pub user_update :
    List UserInfo → List UserInfo ⊎ ApiError → Option (List UserInfo × Bool)
user_update old (inl users) = some (users, true)
user_update old (inr users_no_change) = some (old, false)
user_update old (inr err) = none

module _ {X C O H I M V B R G P K : Type 0} (env : Environment X C O H I M V B R G P K) where
  module _ {S : Type 0} where
    unfoldable pub add_new_user :
        List UserInfo
        → NodeInfo
        → Str
        → Controller X B G P S K
        → Controller X B G P S K × Option Error
    unfolding build_users add_users register_managed_users retire_managed_users
    add_new_user user_info node_info tag c =
        elim (build_users env.panel_type env.encode_base64 env.methods_2022 user_info node_info
          tag) [
            | none ↦ (c, some (unsupported_node_type node_info.node_type))
            | some users ↦
                let c1 = register_managed_users tag user_info c in
                let (x, failed) = add_users env.server_ops users tag c1.server in
                let c2 = record c1 { server = x } in
                elim failed [
                  | none ↦ (c2, none)
                  | some err ↦ (retire_managed_users tag user_info c2, some err)
                ]
          ]

    -- What follows the calls of `removeOldTag`, for a controller whose users are retired: the flag
    -- says whether the monitor goes on.
    unfoldable pub end_switch :
        NodeInfo → Controller X B G P S K → X × Option Error → Controller X B G P S K × Bool
    unfolding add_new_tag restore_managed_users
    end_switch new_node_info c (x, some err) =
        (restore_managed_users c.tag c.user_list (record c { server = x }), false)
    end_switch new_node_info c (x, none) =
        let (x', failed) =
          add_new_tag env new_node_info (build_node_tag env.config new_node_info) x in
        elim failed [
          | some err ↦ (record c { server = x' }, false)
          | none ↦
              (record c { server = x'; limiter = delete_inbound_limiter c.tag c.limiter }, true)
        ]

    -- The branch for a node that has changed, up to the new handlers.
    unfoldable pub switch_node : NodeInfo → Controller X B G P S K → Controller X B G P S K × Bool
    unfolding remove_old_tag retire_managed_users end_switch
    switch_node new_node_info c =
        let retired = retire_managed_users c.tag c.user_list c in
        end_switch new_node_info retired (
          and_then (remove_old_tag env c.tag retired.server) (λ x.
            if is_plugin c.node_info then remove_old_tag env (dokodemo_tag c.tag) x else (x, none)))

    -- Errors are logged, and the monitor goes on.
    unfoldable pub check_rule : Str → Controller X B G P S K → Controller X B G P S K
    unfolding update_rule
    check_rule active_tag c =
        if env.config.disable_get_rule
        then c
        else (let (k, answer) = env.panel.get_node_rule c.api_client in
            let c' = record c { api_client = k } in
            elim answer [
              | inr err ↦ c'
              | inl rule_list ↦ record c' {
                rule_manager = update_rule env.patterns active_tag rule_list c'.rule_manager;
              }
            ])

    -- What follows the call of `addNewUser` for a new node; the flag is as above.
    unfoldable pub end_serving :
        NodeInfo
        → Str
        → List UserInfo
        → Controller X B G P S K × Option Error
        → Controller X B G P S K × Bool
    end_serving new_node_info active_tag new_user_info (c, some err) = (c, false)
    end_serving new_node_info active_tag new_user_info (c, none) = (
      record c {
        limiter =
            add_inbound_limiter env.cache active_tag new_node_info.speed_limit new_user_info
              env.config.global_device_limit_config c.limiter;
      },
      true,
    )

    unfoldable pub serve_new_node :
        NodeInfo → Str → List UserInfo → Controller X B G P S K → Controller X B G P S K × Bool
    unfolding add_new_user end_serving
    serve_new_node new_node_info active_tag new_user_info c =
        end_serving new_node_info active_tag new_user_info
          (add_new_user new_user_info new_node_info active_tag c)

    -- What follows the call of `removeUsers` for users who are retired.
    unfoldable pub end_removal :
        List UserInfo → Controller X B G P S K → X × Option Error → Controller X B G P S K × Bool
    unfolding restore_managed_users
    end_removal us c (x, some err) =
        (restore_managed_users c.tag us (record c { server = x }), false)
    end_removal us c (x, none) = (
      record c { server = x; limiter = (delete_inbound_limiter_users c.tag us c.limiter).0 },
      true,
    )

    unfoldable pub remove_deleted :
        List UserInfo → Controller X B G P S K → Controller X B G P S K × Bool
    unfolding remove_users retire_managed_users end_removal
    remove_deleted [] c = (c, true)
    remove_deleted (u ∷ us) c =
        let c1 = retire_managed_users c.tag (u ∷ us) c in
        end_removal (u ∷ us) c1
          (remove_users env.server_ops (runtime_user_emails c.tag (u ∷ us)) c.tag c1.server)

    unfoldable pub add_added : List UserInfo → Controller X B G P S K → Controller X B G P S K
    unfolding add_new_user
    add_added [] c = c
    add_added (u ∷ us) c = (add_new_user (u ∷ us) c.node_info c.tag c).0

    unfoldable pub update_limits : List UserInfo → Controller X B G P S K → Controller X B G P S K
    update_limits [] c = c
    update_limits (u ∷ us) c = record c {
      limiter = (update_inbound_limiter env.rate c.tag (u ∷ us) c.limiter).0;
    }

    unfoldable pub apply_changes : Changes → Controller X B G P S K → Controller X B G P S K × Bool
    unfolding remove_deleted add_added update_limits
    apply_changes changes c =
        let (c1, goes_on) = remove_deleted changes.deleted c in
        if goes_on
        then (
          update_limits (changes.added ++ changes.limit_updated) (add_added changes.added c1),
          true,
        )
        else (c1, false)

    -- The round once both answers are there.
    unfoldable pub keep_node :
        List UserInfo → Bool → Controller X B G P S K → Option (Controller X B G P S K)
    unfolding check_rule apply_changes
    keep_node new_user_info false c =
        some (record (check_rule c.tag c) { user_list = new_user_info })
    keep_node new_user_info true c =
        let checked = check_rule c.tag c in
        elim (compare_user_list c.user_list new_user_info) [
          | none ↦ none
          | some changes ↦
              let (c', goes_on) = apply_changes changes checked in
              some (if goes_on then record c' { user_list = new_user_info } else c')
        ]

    unfoldable pub change_node :
        NodeInfo → List UserInfo → Controller X B G P S K → Controller X B G P S K
    unfolding switch_node check_rule serve_new_node
    change_node new_node_info new_user_info c =
        let active_tag = build_node_tag env.config new_node_info in
        let (c1, goes_on) = switch_node new_node_info c in
        if goes_on
        then (let (c2, served) =
              serve_new_node new_node_info active_tag new_user_info (check_rule active_tag c1) in
            if served
            then record c2 {
              node_info = new_node_info;
              tag = active_tag;
              user_list = new_user_info;
            }
            else c2)
        else c1

    -- The round once the panel has answered twice.
    unfoldable pub finish_round :
        NodeInfo
        → Option (List UserInfo × Bool)
        → Controller X B G P S K
        → Option (Controller X B G P S K)
    unfolding keep_node change_node
    finish_round new_node_info none c = some c
    finish_round new_node_info (some (new_user_info, users_changed)) c =
        if holds (NodeInfo-discrete c.node_info new_node_info)
        then keep_node new_user_info users_changed c
        else some (change_node new_node_info new_user_info c)

    unfoldable pub poll_users :
        K × (NodeInfo ⊎ ApiError) → Controller X B G P S K → Option (Controller X B G P S K)
    unfolding user_update finish_round
    poll_users (k, inr err) c = some (record c { api_client = k })
    poll_users (k, inl new_node_info) c =
        let (k', answer) = env.panel.get_user_list k in
        finish_round new_node_info (user_update c.user_list answer) (record c { api_client = k' })

    -- `elapsed` is the time since the start, in seconds.
    unfoldable pub node_info_monitor : ℕ → Controller X B G P S K → Option (Controller X B G P S K)
    unfolding poll_users
    node_info_monitor elapsed c =
        if ltb elapsed env.config.update_periodic
        then some c
        else poll_users (env.panel.get_node_info c.api_client) c

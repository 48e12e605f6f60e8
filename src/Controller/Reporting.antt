-- ===== src/Controller/Reporting.antt =====
-- `userInfoMonitor` of service/controller/controller.go: the traffic, the speed limits, the
-- retiring users, the devices and the audit of one round.
--
-- `A` is a counter, `T` the state of all, `N` the load of the host, which a library reads.
pub mod Samples
pub mod Turns
pub mod Rounds
pub mod Exceeding
pub mod Failures
pub mod Unreported
mod Tests
use oldxr.Base.{
  ℕ, Bool, true, false, ◌||◌, ◌&&◌, not, Option, none, some, List, [], ◌∷◌, ◌++◌, ltb,
  if◌then◌else◌, ◌⊎◌, inl, inr,
}
use oldxr.Base.Int.{is_positive}
use oldxr.Base.Text.{Str}
use oldxr.Api.{UserInfo, UserTraffic, OnlineUser, DetectResult}
use oldxr.Clients.{ApiError}
use oldxr.Limiter.Users.{key_of, update_inbound_limiter}
use oldxr.Limiter.Online.{get_online_device}
use oldxr.Rule.{SetOps, get_detect_result}
use oldxr.Traffic.{
  StatsOps, Batch, empty_batch, RetiringUser, is_at_most_0, drain_traffic, append_user_traffic,
  collect_users, flush_user_traffic,
}
use oldxr.Controller.{Environment, Controller}
use oldxr.Controller.Retirement.{RetiringUsers, retiring_user_snapshot, finalize_retiring_users}
use oldxr.Controller.SpeedLimits.{
  AutoSpeedLimitConfig, SpeedLimits, check_speed, clear_warning, release_users,
}

-- The reports of a panel client.
pub record ReportOps (K N : Type 0) : Type 0 where
  pub report_node_status : N → K → K × Option ApiError
  pub report_user_traffic : List UserTraffic → K → K × Option ApiError
  pub report_node_online_users : List OnlineUser → K → K × Option ApiError
  pub report_illegal : List DetectResult → K → K × Option ApiError

-- What the round is given besides the environment.
pub record ReportEnvironment (A T N K S : Type 0) : Type 0 where
  pub stats : StatsOps A T
  pub unregister_counter : Str → T → T
  pub reports : ReportOps K N
  pub sets : SetOps S
  pub auto_speed_limit : AutoSpeedLimitConfig
  pub disable_upload_traffic : Bool

-- The controller, its speed limits and the counters.
pub record Monitored (X B G P S K T : Type 0) : Type 0 where
  pub controller : Controller X B G P S K
  pub speed_limits : SpeedLimits
  pub counters : T

-- The limits under construction: those of now, and the users to slow down.
abbrev pub Limiting : Type 0
Limiting = SpeedLimits × List UserInfo

module _ {A T : Type 0} (stats : StatsOps A T) (config : AutoSpeedLimitConfig) (period now : ℕ)
    (tag : Str) where
  -- The body of the loop over the users; `none` is a panic, as in the loop over the retiring ones.
  unfoldable pub collect_current_user :
      UserInfo → (T × Batch A) × Limiting → Option ((T × Batch A) × Limiting)
  unfolding drain_traffic append_user_traffic check_speed clear_warning
  collect_current_user user ((t, b), (l, silent_users)) =
      let (t', (up, down, deltas)) = drain_traffic stats (key_of tag user) t in
      if not (is_at_most_0 up) || not (is_at_most_0 down)
      then (elim (append_user_traffic user up down (b.traffic, b.index)) [
        | none ↦ none
        | some (traffic, index) ↦ some (
          (t', record { traffic = traffic; index = index; deltas = b.deltas ++ deltas }),
          check_speed config period now user up down (l, silent_users),
        )
      ])
      else some ((t', b), (clear_warning user l, silent_users))

  unfoldable pub collect_current_users :
      List UserInfo → (T × Batch A) × Limiting → Option ((T × Batch A) × Limiting)
  unfolding collect_current_user
  collect_current_users [] s = some s
  collect_current_users (u ∷ us) s = elim (collect_current_user u s) [
    | none ↦ none
    | some s' ↦ collect_current_users us s'
  ]

module _ {X C O H I M V B R G P K : Type 0} (env : Environment X C O H I M V B R G P K) where
  module _ {S : Type 0} where
    -- `UpdateInboundLimiter` for a list that is not empty; an error is logged.
    unfoldable pub update_some : List UserInfo → Controller X B G P S K → Controller X B G P S K
    update_some [] c = c
    update_some (u ∷ us) c = record c {
      limiter = (update_inbound_limiter env.rate c.tag (u ∷ us) c.limiter).0;
    }

  module _ {A T N S : Type 0} (round : ReportEnvironment A T N K S) where
    -- The users whose time is over are released.
    unfoldable pub unlock_users : ℕ → Monitored X B G P S K T → Monitored X B G P S K T
    unfolding release_users update_some
    unlock_users now m =
        if is_positive round.auto_speed_limit.limit
        then (let (kept, released) =
              release_users now m.speed_limits.limited_users m.speed_limits.limited_users in
            record m {
              controller = update_some released m.controller;
              speed_limits = record (m.speed_limits) { limited_users = kept };
            })
        else m

    -- The samples of the users, then of the retiring ones.
    unfoldable pub collect_all : ℕ → Monitored X B G P S K T → Option ((T × Batch A) × Limiting)
    unfolding collect_current_users collect_users retiring_user_snapshot
    collect_all now m =
        elim (collect_current_users round.stats round.auto_speed_limit env.config.update_periodic
          now m.controller.tag m.controller.user_list
          ((m.counters, empty_batch), (m.speed_limits, []))) [
            | none ↦ none
            | some (sampled, limiting) ↦
                elim (collect_users round.stats (retiring_user_snapshot m.controller.retiring_users)
                  sampled) [ none ↦ none | some sampled' ↦ some (sampled', limiting) ]
          ]

    -- The report of the traffic, if there is any; the flag says whether it succeeded.
    unfoldable pub report_traffic : Batch A → K × T → (K × T) × Bool
    unfolding flush_user_traffic
    report_traffic b (k, t) = elim (b.traffic) [
      | [] ↦ ((k, t), true)
      | entry ∷ entries ↦
          let (kt, failed) =
            flush_user_traffic round.stats round.reports.report_user_traffic
              round.disable_upload_traffic b (k, t) in
          elim failed [ none ↦ (kt, true) | some err ↦ (kt, false) ]
    ]

    -- The retiring users of the snapshot are finalized once their traffic is reported.
    unfoldable pub finish_report :
        List RetiringUser → Batch A → Controller X B G P S K × T → Controller X B G P S K × T
    unfolding report_traffic finalize_retiring_users
    finish_report retiring b (c, t) =
        let ((k, t'), succeeded) = report_traffic b (c.api_client, t) in
        let c' = record c { api_client = k } in
        if succeeded
        then finalize_retiring_users round.stats round.unregister_counter retiring (c', t')
        else (c', t')

    unfoldable pub report_online : Controller X B G P S K → Controller X B G P S K
    unfolding get_online_device
    report_online c =
        let (l, answer) = get_online_device c.tag c.limiter in
        let c' = record c { limiter = l } in
        elim answer [
          | inr err ↦ c'
          | inl [] ↦ c'
          | inl (device ∷ devices) ↦ record c' {
            api_client =
                (round.reports.report_node_online_users (device ∷ devices) c'.api_client).0;
          }
        ]

    unfoldable pub report_detected : Controller X B G P S K → Controller X B G P S K
    unfolding get_detect_result
    report_detected c =
        let (rules, results) = get_detect_result env.patterns round.sets c.tag c.rule_manager in
        let c' = record c { rule_manager = rules } in
        elim results [
          | [] ↦ c'
          | result ∷ rest ↦ record c' {
            api_client = (round.reports.report_illegal (result ∷ rest) c'.api_client).0;
          }
        ]

    -- The round after the samples.
    unfoldable pub conclude :
        List RetiringUser
        → (T × Batch A) × Limiting
        → Monitored X B G P S K T
        → Monitored X B G P S K T
    unfolding update_some finish_report report_online report_detected
    conclude retiring ((t, b), (l, silent_users)) m =
        let c = update_some silent_users m.controller in
        let (c', t') = finish_report retiring b (c, t) in
        record { controller = report_detected (report_online c'); speed_limits = l; counters = t' }

    -- `elapsed` is the time since the start, in seconds, and `now` the time of the clock.
    unfoldable pub user_info_monitor :
        ℕ → ℕ → N → Monitored X B G P S K T → Option (Monitored X B G P S K T)
    unfolding unlock_users collect_all conclude
    user_info_monitor elapsed now load m =
        if ltb elapsed env.config.update_periodic
        then some m
        else (let c = m.controller in
            let k = (round.reports.report_node_status load c.api_client).0 in
            let m1 = unlock_users now (record m { controller = record c { api_client = k } }) in
            elim (collect_all now m1) [
              | none ↦ none
              | some collected ↦
                  some (conclude (retiring_user_snapshot m1.controller.retiring_users) collected m1)
            ])

-- ===== src/Controller/Reporting/Failures.antt =====
-- A round whose traffic report the panel does not take.

use oldxr.Base.{ℕ, ◌≡◌, ◌∙◌, refl, false, some, List, [], ◌∷◌, ◌++◌, arith, Option-cases, inl, inr}
use oldxr.Api.{UserInfo, UserTraffic}
use oldxr.Clients.{ApiError}
use oldxr.Traffic.{
  Batch, empty_batch, RetiringUser, collect_users, flush_user_traffic, restore_traffic,
}
use oldxr.Controller.{Environment, Controller}
use oldxr.Controller.Retirement.{retiring_user_snapshot}
use oldxr.Controller.SpeedLimits.{release_users}
use oldxr.Controller.Reporting.{
  ReportEnvironment, Monitored, Limiting, collect_current_users, update_some, unlock_users,
  collect_all, report_traffic, finish_report, report_online, report_detected, conclude,
}
use oldxr.Controller.Reporting.Samples.{
  as_retiring, samples_of, collect_current_users-samples, collect_users-append,
}

module _ {X C O H I M V B R G P K : Type 0} (env : Environment X C O H I M V B R G P K) where
  module _ {A T N S : Type 0} (round : ReportEnvironment A T N K S) where
    -- Everybody whose counters a round samples, the users first.
    abbrev pub sampled_users : Controller X B G P S K → List RetiringUser
    sampled_users c = as_retiring c.tag c.user_list ++ retiring_user_snapshot c.retiring_users

    -- Whatever the speed limits, a round drains and reports just what the loop over the retiring
    -- users would of the users of the list and of the retiring users, in this order, and it panics
    -- just when that would.
    pub collect_all-samples :
        (now : ℕ) (m : Monitored X B G P S K T)
        → samples_of (collect_all env round now m)
          ≡ collect_users round.stats (sampled_users m.controller) (m.counters, empty_batch)
    unfolding collect_all
    collect_all-samples now m =
        let c = m.controller in
        let config = round.auto_speed_limit in
        let period = env.config.update_periodic in
        let users = as_retiring c.tag c.user_list in
        let start : T × Batch A = (m.counters, empty_batch) in
        let limiting : Limiting = (m.speed_limits, []) in
        let current =
          collect_current_users-samples round.stats config period now c.tag c.user_list start
            limiting in
        elim (Option-cases (
          collect_current_users round.stats config period now c.tag c.user_list
            (start, limiting))) [
              | inl e ↦ ground (
                arith,
                e,
                current,
                collect_users-append round.stats users (retiring_user_snapshot c.retiring_users)
                    start,
              )
              | inr ((s, l), e) ↦ ground (
                arith,
                e,
                current,
                collect_users-append round.stats users (retiring_user_snapshot c.retiring_users)
                    start,
              )
            ]

    -- What a step of the round leaves alone.
    pub record Leaves (c c' : Controller X B G P S K) : Type 0 where
      pub retiring_users : c'.retiring_users ≡ c.retiring_users
      pub user_flows : c'.user_flows ≡ c.user_flows
      pub user_list : c'.user_list ≡ c.user_list
      pub tag : c'.tag ≡ c.tag

    update_some-Leaves :
        (us : List UserInfo) (c : Controller X B G P S K) → Leaves c (update_some env us c)
    unfolding update_some
    update_some-Leaves [] c = record {
      retiring_users = refl;
      user_flows = refl;
      user_list = refl;
      tag = refl;
    }
    update_some-Leaves (u ∷ us) c = record {
      retiring_users = refl;
      user_flows = refl;
      user_list = refl;
      tag = refl;
    }

    report_online-Leaves : (c : Controller X B G P S K) → Leaves c (report_online env round c)
    unfolding report_online
    report_online-Leaves c = record {
      retiring_users = ground arith;
      user_flows = ground arith;
      user_list = ground arith;
      tag = ground arith;
    }

    report_detected-Leaves : (c : Controller X B G P S K) → Leaves c (report_detected env round c)
    unfolding report_detected
    report_detected-Leaves c = record {
      retiring_users = ground arith;
      user_flows = ground arith;
      user_list = ground arith;
      tag = ground arith;
    }

    pub unlock_users-Leaves :
        (now : ℕ) (m : Monitored X B G P S K T)
        → Leaves m.controller (unlock_users env round now m).controller
    unfolding unlock_users
    unlock_users-Leaves now m =
        let released =
          (release_users now m.speed_limits.limited_users m.speed_limits.limited_users).1 in
        let l = update_some-Leaves released m.controller in
        record {
          retiring_users = ground (arith, l.retiring_users);
          user_flows = ground (arith, l.user_flows);
          user_list = ground (arith, l.user_list);
          tag = ground (arith, l.tag);
        }

    pub unlock_users-counters :
        (now : ℕ) (m : Monitored X B G P S K T)
        → (unlock_users env round now m).counters ≡ m.counters
    unfolding unlock_users
    unlock_users-counters now m = ground arith

    pub Leaves-trans : {c d e : Controller X B G P S K} → Leaves c d → Leaves d e → Leaves c e
    Leaves-trans p q = record {
      retiring_users = q.retiring_users ∙ p.retiring_users;
      user_flows = q.user_flows ∙ p.user_flows;
      user_list = q.user_list ∙ p.user_list;
      tag = q.tag ∙ p.tag;
    }

    -- Once the panel has refused the report, the rest of the round leaves everything alone.
    pub conclude_refused :
        (retiring : List RetiringUser) (t : T) (b : Batch A) (l : Limiting)
        (m : Monitored X B G P S K T)
        → ((k : K) → (report_traffic env round b (k, t)).1 ≡ false)
        → Leaves m.controller (conclude env round retiring ((t, b), l) m).controller
    unfolding conclude finish_report
    conclude_refused retiring t b (l, silent_users) m refused =
        let c = update_some env silent_users m.controller in
        let c1 = (finish_report env round retiring b (c, t)).0 in
        let s1 : Leaves c c1 = record {
          retiring_users = ground (arith, refused c.api_client);
          user_flows = ground (arith, refused c.api_client);
          user_list = ground (arith, refused c.api_client);
          tag = ground (arith, refused c.api_client);
        } in
        Leaves-trans (update_some-Leaves silent_users m.controller) (
          Leaves-trans s1 (
            Leaves-trans (report_online-Leaves c1)
              (report_detected-Leaves (report_online env round c1))))

    pub Leaves-sampled_users :
        {c c' : Controller X B G P S K} → Leaves c c' → sampled_users c' ≡ sampled_users c
    Leaves-sampled_users l = ground (arith, l.retiring_users, l.user_list, l.tag)

    pub report_traffic_refused :
        (b : Batch A) (entry : UserTraffic) (entries : List UserTraffic) (err : ApiError) (k : K)
        (t : T)
        → round.disable_upload_traffic ≡ false
        → b.traffic ≡ entry ∷ entries
        → (round.reports.report_user_traffic b.traffic k).1 ≡ some err
        → ((report_traffic env round b (k, t)).1 ≡ false)
          × ((report_traffic env round b (k, t)).0.1 ≡ restore_traffic round.stats b.deltas t)
    unfolding report_traffic flush_user_traffic
    report_traffic_refused b entry entries err k t enabled some_traffic refused =
        (ground arith, ground arith)

    pub conclude_counters :
        (retiring : List RetiringUser) (t : T) (b : Batch A) (l : Limiting)
        (m : Monitored X B G P S K T) (after : T)
        → ((k : K)
            → ((report_traffic env round b (k, t)).1 ≡ false)
              × ((report_traffic env round b (k, t)).0.1 ≡ after))
        → (conclude env round retiring ((t, b), l) m).counters ≡ after
    unfolding conclude finish_report
    conclude_counters retiring t b (l, silent_users) m after refused =
        let c = update_some env silent_users m.controller in
        ground (arith, (refused c.api_client).0, (refused c.api_client).1)

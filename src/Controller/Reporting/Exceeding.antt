-- ===== src/Controller/Reporting/Exceeding.antt =====
-- Rounds of the monitor on end: when a user of the list is limited.
use oldxr.Base.{
  ap, subst, sym, ◌∙◌, ◌≢◌, ℕ, suc, ◌<◌, ◌≤◌, ◌≡◌, refl, Bool, true, false, Option, none, some,
  List, [], ◌∷◌, ◌++◌, ltb, arith, Bool-cases, inl, inr, map, All,
}
use oldxr.Base.Int.{pos, is_positive}
use oldxr.Base.Dict.{load}
use oldxr.Base.Text.{Str}
use oldxr.Api.{UserInfo, UserInfo-discrete}
use oldxr.Traffic.{empty_batch}
use oldxr.Controller.{Environment, Controller}
use oldxr.Controller.Retirement.{retiring_user_snapshot}
use oldxr.Controller.SpeedLimits.{SpeedLimits}
use oldxr.Controller.SpeedLimits.Warnings.{streak, longest, streak-le-longest, is_limited, IsWarned}
use oldxr.Controller.Reporting.{
  ReportEnvironment, Monitored, Limiting, collect_current_users, conclude, user_info_monitor,
}
use oldxr.Controller.Reporting.Failures.{unlock_users-counters}
use oldxr.Controller.Reporting.Turns.{drained_by, exceeds, Judged, collect_current_users-Judged}
use oldxr.Controller.Reporting.Unreported.{before_samples, before_samples-Leaves}
use oldxr.Controller.Reporting.Rounds.{
  Listed, unlock_users-IsWarned, conclude-Listed, collect_all-Sampled,
}

-- A round: the seconds since the start, the time, the host's load, and the counters as the
-- connections have left them.
pub record Round (T N : Type 0) : Type 0 where
  pub elapsed : ℕ
  pub now : ℕ
  pub load : N
  pub counters : T

module _ {X C O H I M V B R G P K A T N S : Type 0} (env : Environment X C O H I M V B R G P K)
    (round : ReportEnvironment A T N K S) where
  -- Rounds on end, the last one at the head.
  unfoldable pub rounds :
      List (Round T N) → Monitored X B G P S K T → Option (Monitored X B G P S K T)
  rounds [] m = some m
  rounds (r ∷ rs) m = elim (rounds rs m) [
    | none ↦ none
    | some m' ↦
        user_info_monitor env round r.elapsed r.now r.load (record m' { counters = r.counters })
  ]

  abbrev pub IsDue : Round T N → Type 0
  IsDue r = ltb r.elapsed env.config.update_periodic ≡ false

  -- The user is on the list, once; `before` are those who have their turn first.
  abbrev pub IsListed : UserInfo → List UserInfo → List UserInfo → Controller X B G P S K → Type 0
  IsListed user before after c =
      (c.user_list ≡ before ++ user ∷ after)
      × All (λ v. v ≢ user) before
      × All (λ v. v ≢ user) after

  module _ (user : UserInfo) (before after : List UserInfo) (warnings : ℕ)
      (set : round.auto_speed_limit.warn_times ≡ pos warnings)
      (enabled : is_positive round.auto_speed_limit.limit ≡ true) where
    -- Whether the traffic at the user's turn is above the allowance.
    abbrev pub is_exceeding : Str → Round T N → Bool
    is_exceeding tag r =
        exceeds round.stats round.auto_speed_limit env.config.update_periodic r.now tag user
          (drained_by round.stats tag before r.counters)

    -- A round ends with the user judged by it.
    abbrev JudgedBy : Str → Round T N → ℕ → SpeedLimits → Type 0
    JudgedBy tag r k l =
        Judged round.stats round.auto_speed_limit env.config.update_periodic r.now tag user warnings
          set enabled (is_exceeding tag r) k l

    sampled-Judged :
        (tag : Str) (r : Round T N) (k : ℕ) (m : Monitored X B G P S K T)
        → IsListed user before after m.controller
        → m.controller.tag ≡ tag
        → m.counters ≡ r.counters
        → IsWarned user k m.speed_limits
        → JudgedBy tag r k (collect_all-Sampled env round r.now m).limits
    sampled-Judged tag r k m (listed, first, last) same_tag same_counters w =
        let s = collect_all-Sampled env round r.now m in
        let start : Limiting = (m.speed_limits, []) in
        let current : collect_current_users round.stats round.auto_speed_limit
              env.config.update_periodic r.now tag (before ++ user ∷ after)
              ((r.counters, empty_batch), start)
            ≡ some ((s.current_t, s.current_b), (s.limits, s.silent)) =
          ap
            (λ x.
              collect_current_users round.stats round.auto_speed_limit env.config.update_periodic
                r.now tag x ((r.counters, empty_batch), start))
            (sym listed)
          ∙ ap
              (λ x.
                collect_current_users round.stats round.auto_speed_limit env.config.update_periodic
                  r.now x m.controller.user_list ((r.counters, empty_batch), start))
              (sym same_tag)
          ∙ ap
              (λ x.
                collect_current_users round.stats round.auto_speed_limit env.config.update_periodic
                  r.now m.controller.tag m.controller.user_list ((x, empty_batch), start))
              (sym same_counters)
          ∙ s.current in
        collect_current_users-Judged round.stats round.auto_speed_limit env.config.update_periodic
          r.now tag user warnings set enabled before after k r.counters empty_batch m.speed_limits
          [] _ first last w current

    -- The round is concluded, with the list and the tag in place.
    record Concluded (r : Round T N) (k : ℕ) (m : Monitored X B G P S K T) : Type 0 where
      m' : Monitored X B G P S K T
      ended :
          user_info_monitor env round r.elapsed r.now r.load (record m { counters = r.counters })
          ≡ some m'
      list : Listed env round m.controller m'.controller
      judged : JudgedBy m.controller.tag r k m'.speed_limits

    round-Concluded :
        (r : Round T N) (k : ℕ) (m : Monitored X B G P S K T)
        → IsDue r
        → IsListed user before after m.controller
        → IsWarned user k m.speed_limits
        → Concluded r k m
    unfolding user_info_monitor
    round-Concluded r k m due (listed, first, last) w =
        let m0 : Monitored X B G P S K T = record m { counters = r.counters } in
        let reported : Monitored X B G P S K T = record m0 {
          controller = record (m.controller) {
            api_client = (round.reports.report_node_status r.load m.controller.api_client).0;
          };
        } in
        let m1 = before_samples env round r.now r.load m0 in
        let leaves = before_samples-Leaves env round r.now r.load m0 in
        let s = collect_all-Sampled env round r.now m1 in
        let w1 = unlock_users-IsWarned env round user k r.now reported w in
        let retiring = retiring_user_snapshot m1.controller.retiring_users in
        let done = conclude-Listed env round retiring s.t' s.b' s.limits s.silent m1 in
        let judged =
          sampled-Judged m.controller.tag r k m1 (leaves.user_list ∙ listed, first, last) leaves.tag
            (unlock_users-counters env round r.now reported) w1 in
        record {
          m' = conclude env round retiring ((s.t', s.b'), (s.limits, s.silent)) m1;
          ended = ground (arith, due, s.all);
          list = (done.0.0 ∙ leaves.user_list, done.0.1 ∙ leaves.tag);
          judged = subst (JudgedBy m.controller.tag r k) (sym done.1) judged;
        }

    abbrev pub exceeding : Str → List (Round T N) → List Bool
    exceeding tag rs = map (is_exceeding tag) rs

    -- As long as the warnings suffice, they are as many as the last rounds on end that exceeded.
    record Warned (rs : List (Round T N)) (m : Monitored X B G P S K T) : Type 0 where
      m' : Monitored X B G P S K T
      ended : rounds rs m ≡ some m'
      list : Listed env round m.controller m'.controller
      warned : IsWarned user (streak (exceeding m.controller.tag rs)) m'.speed_limits

    IsListed-Listed :
        (c c' : Controller X B G P S K)
        → Listed env round c c'
        → IsListed user before after c
        → IsListed user before after c'
    IsListed-Listed c c' same (listed, first, last) = (same.0 ∙ listed, first, last)

    -- One round more.
    next_round :
        (r : Round T N) (rs : List (Round T N)) (m : Monitored X B G P S K T)
        → IsDue r
        → IsListed user before after m.controller
        → Warned rs m
        → (m' : Monitored X B G P S K T) × (rounds (r ∷ rs) m ≡ some m')
          × Listed env round m.controller m'.controller
          × JudgedBy m.controller.tag r (streak (exceeding m.controller.tag rs)) m'.speed_limits
    unfolding rounds
    next_round r rs m due listed w =
        let k = streak (exceeding m.controller.tag rs) in
        let c =
          round-Concluded r k w.m' due (IsListed-Listed m.controller w.m'.controller w.list listed)
            w.warned in
        (
          c.m',
          ground (arith, w.ended, c.ended),
          (c.list.0 ∙ w.list.0, c.list.1 ∙ w.list.1),
          subst (λ tag. JudgedBy tag r k c.m'.speed_limits) w.list.1 c.judged,
        )

    rounds-Warned :
        (rs : List (Round T N)) (m : Monitored X B G P S K T)
        → All IsDue rs
        → IsListed user before after m.controller
        → IsWarned user 0 m.speed_limits
        → longest (exceeding m.controller.tag rs) ≤ warnings
        → Warned rs m
    unfolding rounds streak longest
    rounds-Warned [] m due listed w enough = record {
      m' = m;
      ended = refl;
      list = (refl, refl);
      warned = w;
    }
    rounds-Warned (r ∷ rs) m (due, dues) listed w enough =
        let tag = m.controller.tag in
        let before_it = rounds-Warned rs m dues listed w (ground (arith, enough)) in
        let (m', ended, list, (below, warns, limits)) = next_round r rs m due listed before_it in
        record {
          m' = m';
          ended = ended;
          list = list;
          warned = elim (Bool-cases (is_exceeding tag r)) [
            | inr e ↦
                let cut : streak (exceeding tag (r ∷ rs)) ≡ 0 = ground (arith, e) in
                subst (λ k. IsWarned user k m'.speed_limits) (sym cut) (below e)
            | inl e ↦
                let k = streak (exceeding tag rs) in
                let grown : streak (exceeding tag (r ∷ rs)) ≡ suc k = ground (arith, e) in
                let lt : k < warnings =
                  omega (arith, grown, enough, streak-le-longest (exceeding tag (r ∷ rs))) in
                subst (λ k. IsWarned user k m'.speed_limits) (sym grown) (warns e lt)
          ];
        }

    -- Let the speed limit be on, and let rounds of `userInfoMonitor` that are due follow on each
    -- other with none of `nodeInfoMonitor` between. A user who is on the list once, and at first
    -- neither limited nor warned: if so far the traffic that is drained at her turn, up or down, was
    -- above the allowance in no more rounds on end than there are warnings, then one round more
    -- comes to its end without a panic, and after it she is limited if and only if her traffic was
    -- above the allowance in more rounds on end than there are warnings.
    pub limited_iff_exceeded :
        (r : Round T N) (rs : List (Round T N)) (m : Monitored X B G P S K T)
        → All IsDue (r ∷ rs)
        → IsListed user before after m.controller
        → load UserInfo-discrete user m.speed_limits.limited_users ≡ none
        → load UserInfo-discrete user m.speed_limits.warned_users ≡ none
        → longest (exceeding m.controller.tag rs) ≤ warnings
        → (m' : Monitored X B G P S K T) × (rounds (r ∷ rs) m ≡ some m')
          × (is_limited user m'.speed_limits
              ≡ ltb warnings (longest (exceeding m.controller.tag (r ∷ rs))))
    unfolding streak longest
    limited_iff_exceeded r rs m (due, dues) listed free unwarned enough =
        let tag = m.controller.tag in
        let w = rounds-Warned rs m dues listed (ground (arith, free), unwarned) enough in
        let (m', ended, list, (below, warns, limits)) = next_round r rs m due listed w in
        let k = streak (exceeding tag rs) in
        let k-le = streak-le-longest (exceeding tag rs) in
        (
          m',
          ended,
          elim (Bool-cases (is_exceeding tag r)) [
            | inr e ↦ ground (arith, e, enough, (below e).0)
            | inl e ↦ elim (Bool-cases (ltb k warnings)) [
              | inl lt ↦
                  let lt' : k < warnings = ground (arith, lt) in
                  ground (arith, e, enough, lt', (warns e lt').0)
              | inr ge ↦
                  let ge' : warnings ≤ k = ground (arith, ge) in
                  ground (arith, e, enough, ge', k-le, limits e ge')
            ]
          ],
        )

-- ===== src/Controller/Reporting/Tests.antt =====
-- A user with traffic, in a round whose report the panel refuses; one who exceeds the allowance,
-- and one whose time is over.
use oldxr.Base.{
  subst, sym, arith, ◌≤◌, ℕ_discrete, true, ltb, ℕ, suc, ◌≡◌, refl, false, none, some, List, [],
  ◌∷◌,
}
use oldxr.Base.Int.{ℤ, pos}
use oldxr.Base.Dict.{Dict, load, store, load-store_self}
use oldxr.Base.Text.{Str, Str-discrete, bytes, itoa}
use oldxr.Api.{DetectResult}
use oldxr.Clients.{request_failed}
use oldxr.Rule.{SetOps}
use oldxr.Traffic.{
  empty_batch, collect_users, drain_traffic, drain_traffic_counter, uplink_name, downlink_name,
}
use oldxr.Limiter.Key.{format_user_key}
use oldxr.Traffic.Tests.{
  uplink, named, named-laws, alice, counters, drained_counters, alice_batch, collected_alice,
}
use oldxr.Controller.Tests.{env, idle}
use oldxr.Controller.Retirement.{retiring_user_snapshot}
use oldxr.Controller.Limits.{has_inbound-add}
use oldxr.Controller.Serving.{limits_at}
use oldxr.Controller.SpeedLimits.{AutoSpeedLimitConfig, LimitInfo, is_above, allowance}
use oldxr.Controller.SpeedLimits.Warnings.{streak, longest, is_limited}
use oldxr.Controller.Reporting.Exceeding.{Round, rounds, exceeding, limited_iff_exceeded}
use oldxr.Controller.SpeedLimits.Releases.{released_as, released_limits}
use oldxr.Limiter.Users.{key_of, limits_of, add_inbound_limiter}
use oldxr.Api.{UserInfo-discrete}
use oldxr.Controller.Reporting.{
  ReportOps, ReportEnvironment, Monitored, collect_all, unlock_users, user_info_monitor,
}
use oldxr.Controller.Reporting.Samples.{samples_of}
use oldxr.Controller.Reporting.Failures.{sampled_users, collect_all-samples}
use oldxr.Controller.Reporting.Unreported.{KeepsAll, unreported_round}

-- The panel takes nothing but the status, and counts the calls.
abbrev refusing : ReportOps ℕ (Unit {0})
refusing = record {
  report_node_status = λ n k. (suc k, none);
  report_user_traffic = λ ts k. (suc k, some request_failed);
  report_node_online_users = λ us k. (suc k, some request_failed);
  report_illegal = λ rs k. (suc k, some request_failed);
}

abbrev listed : SetOps (List DetectResult)
listed = record { new_set_with = λ a. a ∷ []; add = λ a s. a ∷ s; elements = λ s. s }

-- 8 Mbps, after two warnings.
abbrev slow : AutoSpeedLimitConfig
slow = record { limit = pos 8; warn_times = pos 2; limit_speed = pos 1; limit_duration = pos 10 }

abbrev refused_round : ReportEnvironment Str (Dict Str ℕ) (Unit {0}) ℕ (List DetectResult)
refused_round = record {
  stats = named;
  unregister_counter = λ name t. t;
  reports = refusing;
  sets = listed;
  auto_speed_limit = slow;
  disable_upload_traffic = false;
}

abbrev State : Type 0
State = Monitored (List Str) (ℕ × ℤ) (Unit {0}) Str (List DetectResult) ℕ (Dict Str ℕ)

abbrev with_traffic : State
with_traffic = record {
  controller = record idle { tag = bytes "n"; user_list = alice.user ∷ [] };
  speed_limits = record { limited_users = []; warned_users = [] };
  counters = counters;
}

collect_all-samples_example :
    samples_of (collect_all env refused_round 1000 with_traffic)
    ≡ collect_users named
        (sampled_users env refused_round with_traffic.controller)
        (counters, empty_batch)
collect_all-samples_example = collect_all-samples env refused_round 1000 with_traffic

sampled_alice :
    collect_users named
      (sampled_users env refused_round with_traffic.controller)
      (counters, empty_batch)
    ≡ some (drained_counters, alice_batch)
unfolding retiring_user_snapshot
sampled_alice = collected_alice

unreported_round_example :
    KeepsAll Str-discrete env refused_round with_traffic
      (user_info_monitor env refused_round 60 1000 tt with_traffic)
unreported_round_example =
    unreported_round Str-discrete env refused_round named-laws 60 1000 tt with_traffic
      drained_counters alice_batch _ [] request_failed refl refl sampled_alice refl (λ k. refl)

-- A round in which Alice has sent so many bytes.
abbrev round_at : ℕ → ℕ → Round (Dict Str ℕ) (Unit {0})
round_at now bytes_up = record {
  elapsed = 60;
  now = now;
  load = tt;
  counters = (uplink, bytes_up) ∷ [];
}

-- Two rounds above 60 MB, which the warnings allow, and a third one.
abbrev warned_rounds : List (Round (Dict Str ℕ) (Unit {0}))
warned_rounds = round_at 1060 60000001 ∷ round_at 1000 70000000 ∷ []

both_exceed :
    exceeding env refused_round alice.user [] [] 2 refl refl (bytes "n") warned_rounds
    ≡ true ∷ true ∷ []
unfolding drain_traffic drain_traffic_counter uplink_name downlink_name format_user_key itoa load
    store Str-discrete ℕ_discrete is_above allowance
both_exceed = refl

two_on_end : longest (true ∷ true ∷ []) ≤ 2
unfolding longest streak
two_on_end = omega arith

within_warnings :
    longest (exceeding env refused_round alice.user [] [] 2 refl refl (bytes "n") warned_rounds) ≤ 2
within_warnings = subst (λ bs. longest bs ≤ 2) (sym both_exceed) two_on_end

limited_iff_exceeded_example :
    (m' : State) × (rounds env refused_round (round_at 1120 60000001 ∷ warned_rounds) with_traffic
      ≡ some m')
    × (is_limited alice.user m'.speed_limits
        ≡ ltb 2 (
            longest (
              exceeding env refused_round alice.user [] [] 2 refl refl
                (bytes "n")
                (round_at 1120 60000001 ∷ warned_rounds))))
unfolding load
limited_iff_exceeded_example =
    limited_iff_exceeded env refused_round alice.user [] [] 2 refl refl (round_at 1120 60000001)
      warned_rounds with_traffic (refl, (refl, (refl, tt))) (refl, tt, tt) refl refl within_warnings

abbrev limit : LimitInfo
limit = record { end_time = 900; current_speed_limit = pos 1; origin_speed_limit = 500 }

-- Alice is limited until 900, and the panel has taken her off the list.
abbrev with_limited : State
with_limited = record {
  controller = record idle {
    tag = bytes "n";
    limiter = add_inbound_limiter env.cache (bytes "n") 0 [] none idle.limiter;
  };
  speed_limits = record { limited_users = (alice.user, limit) ∷ []; warned_users = [] };
  counters = counters;
}

alice_limited : load UserInfo-discrete alice.user ((alice.user, limit) ∷ []) ≡ some limit
unfolding store
alice_limited = load-store_self UserInfo-discrete alice.user limit []

over_at_1000 : is_above 1000 limit.end_time ≡ true
unfolding is_above
over_at_1000 = refl

released_limits_example :
    limits_at
      (bytes "n")
      (key_of (bytes "n") alice.user)
      (unlock_users env refused_round 1000 with_limited).controller.limiter
    ≡ some (limits_of (released_as (alice.user, limit)))
released_limits_example =
    released_limits env refused_round 1000 with_limited alice.user limit refl
      (has_inbound-add (bytes "n") env.cache 0 [] none idle.limiter) (λ same. refl, tt)
      alice_limited over_at_1000

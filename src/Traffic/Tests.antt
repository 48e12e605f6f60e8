-- ===== src/Traffic/Tests.antt =====
-- A user with traffic, whose report fails once.
use oldxr.Base.{
  ℕ, ◌+◌, ◌%◌, ◌^◌, ◌≡◌, refl, false, Option, none, some, List, [], ◌∷◌, arith, ℕ_discrete,
}
use oldxr.Base.Int.{pos, ℤ_discrete}
use oldxr.Base.Dict.{Dict, load, store, load-store}
use oldxr.Base.Text.{Str, Str-discrete, itoa}
use oldxr.Api.{UserTraffic}
use oldxr.Limiter.Key.{format_user_key}
use oldxr.Traffic.{
  StatsOps, StatsLaws, Batch, empty_batch, uplink_name, downlink_name, drain_traffic_counter,
  drain_traffic, restore_traffic, flush_user_traffic, append_user_traffic, RetiringUser,
  collect_user, collect_users,
}
use oldxr.Traffic.Counters.{failed_report_restores}
use oldxr.Traffic.Entries.{IsOncePerUser}
use oldxr.Traffic.Totals.{upload_of, download_of}
use oldxr.Traffic.Report.{sum_up, sum_down, report_totals}

-- Counters by name; one that is not there counts 0.
abbrev pub value_of : Str → Dict Str ℕ → ℕ
value_of a s = elim (load Str-discrete a s) [ none ↦ 0 | some v ↦ v % 2 ^ 64 ]

abbrev pub named : StatsOps Str (Dict Str ℕ)
named = record {
  get_counter = λ name s. elim (load Str-discrete name s) [ none ↦ none | some v ↦ some name ];
  set_counter = λ v a s. (store Str-discrete a v s, value_of a s);
  add_counter = λ v a s. store Str-discrete a ((value_of a s + v) % 2 ^ 64) s;
  value = value_of;
}

pub named-laws : StatsLaws Str-discrete named
named-laws = record {
  value-lt = λ a s. ground arith;
  old-set = λ v a s. refl;
  value-set = λ v a b s small. ground (arith, load-store Str-discrete a b v s);
  value-add =
      λ v a b s. ground (arith, load-store Str-discrete a b ((value_of a s + v) % 2 ^ 64) s);
}

abbrev pub alice : RetiringUser
alice = record {
  tag = b'n' ∷ [];
  user = record {
    uid = pos 7;
    email = b'a' ∷ [];
    passwd = [];
    port = 0;
    method = [];
    speed_limit = 0;
    device_limit = pos 0;
    protocol = [];
    protocol_param = [];
    obfs = [];
    obfs_param = [];
    uuid = [];
    alter_id = 0;
  };
}

abbrev pub alice_key : Str
alice_key = format_user_key (b'n' ∷ []) (b'a' ∷ []) (pos 7)

abbrev pub uplink : Str
uplink = uplink_name alice_key

abbrev pub counters : Dict Str ℕ
counters = (uplink, 5) ∷ []

abbrev pub drained_counters : Dict Str ℕ
drained_counters = (uplink, 0) ∷ []

abbrev pub alice_batch : Batch Str
alice_batch = record {
  traffic = record { uid = pos 7; email = b'a' ∷ []; upload = 5; download = 0 } ∷ [];
  index = (pos 7, 0) ∷ [];
  deltas = record { counter = uplink; value = 5 } ∷ [];
}

pub collected_alice :
    collect_users named (alice ∷ []) (counters, empty_batch) ≡ some (drained_counters, alice_batch)
unfolding collect_users collect_user drain_traffic drain_traffic_counter append_user_traffic
    uplink_name downlink_name format_user_key itoa load store Str-discrete ℤ_discrete ℕ_discrete
collected_alice = refl

-- A panel that takes nothing, and counts the attempts.
abbrev refuses : List UserTraffic → ℕ → ℕ × Option Str
refuses traffic n = (n + 1, some alice_key)

failed_report_restores_example :
    let (ps, answer) =
      flush_user_traffic named refuses false alice_batch
        (0, restore_traffic named (record { counter = uplink; value = 2 } ∷ []) drained_counters) in
    (answer ≡ some alice_key)
    × (value_of uplink ps.1
        ≡ value_of uplink
            (restore_traffic named (record { counter = uplink; value = 2 } ∷ []) counters))
failed_report_restores_example =
    failed_report_restores Str-discrete named named-laws refuses 0 alice_key (alice ∷ []) counters
      drained_counters alice_batch (record { counter = uplink; value = 2 } ∷ []) uplink
      collected_alice refl

report_totals_example :
    (s' : Dict Str ℕ) × ((batch : Batch Str) × (collect_users named
          (alice ∷ alice ∷ [])
          (counters, empty_batch)
        ≡ some (s', batch))
      × IsOncePerUser batch.traffic
      × (upload_of (pos 7) batch.traffic
          ≡ sum_up named (pos 7) (alice ∷ alice ∷ []) counters % 2 ^ 64)
      × (download_of (pos 7) batch.traffic
          ≡ sum_down named (pos 7) (alice ∷ alice ∷ []) counters % 2 ^ 64))
report_totals_example = report_totals named (alice ∷ alice ∷ []) counters (pos 7)

-- ===== src/Traffic.antt =====
-- The traffic report of service/controller/control.go and controller.go: the counters of each
-- user are drained into a report, and restored when the panel does not take it.
--
-- Counters are xray-core's: `S` is the state of all of them, `A` a counter. An int64 is its bit
-- pattern, below 2 ^ 64.
pub mod Counters
pub mod Entries
pub mod Totals
pub mod Report
pub mod Tests
use oldxr.Base.{
  ℕ, ◌+◌, ◌%◌, ◌^◌, ◌<◌, ◌≡◌, Bool, true, false, ◌&&◌, ◌||◌, Option, none, some, List, [], ◌∷◌,
  ◌++◌, ite, ltb, leb, ◌==◌, if◌then◌else◌, length, get_elem?, set,
}
use oldxr.Base.Int.{ℤ, ℤ_discrete}
use oldxr.Base.Dict.{Dict, load, store}
use oldxr.Base.Text.{Str, bytes}
use oldxr.Api.{UserInfo, UserTraffic}
use oldxr.Limiter.Key.{format_user_key}

-- What the program uses of the stats manager and of `stats.Counter`; `set_counter` answers the
-- value before.
pub record StatsOps (A S : Type 0) : Type 0 where
  pub get_counter : Str → S → Option A
  pub set_counter : ℕ → A → S → S × ℕ
  pub add_counter : ℕ → A → S → S
  pub value : A → S → ℕ

-- The documented behaviour: counters are int64 words, set and added to one by one.
pub record StatsLaws {A S : Type 0} (dec : Discrete A) (stats : StatsOps A S) : Type 0 where
  pub value-lt : (a : A) (s : S) → stats.value a s < 2 ^ 64
  pub old-set : (v : ℕ) (a : A) (s : S) → (stats.set_counter v a s).1 ≡ stats.value a s
  pub value-set :
      (v : ℕ) (a b : A) (s : S)
      → v < 2 ^ 64
      → stats.value b (stats.set_counter v a s).0 ≡ ite (dec a b) v (stats.value b s)
  pub value-add :
      (v : ℕ) (a b : A) (s : S)
      → stats.value b (stats.add_counter v a s)
        ≡ ite (dec a b) ((stats.value b s + v) % 2 ^ 64) (stats.value b s)

pub record TrafficCounterDelta (A : Type 0) : Type 0 where
  pub counter : A
  pub value : ℕ

-- `x < 0` and `x <= 0` of an int64.
abbrev pub is_negative : ℕ → Bool
is_negative x = leb (2 ^ 63) x

abbrev pub is_at_most_0 : ℕ → Bool
is_at_most_0 x = x == 0 || is_negative x

-- `userUplinkCounterName` and `userDownlinkCounterName`, and the names in `drainTraffic`.
unfoldable pub uplink_name : Str → Str
uplink_name email = let name = bytes "user>>>" ++ email in name ++ bytes ">>>traffic>>>uplink"

unfoldable pub downlink_name : Str → Str
downlink_name email = let name = bytes "user>>>" ++ email in name ++ bytes ">>>traffic>>>downlink"

-- The report under construction. `trafficIndex` says where a user's entry is.
pub record Batch (A : Type 0) : Type 0 where
  pub traffic : List UserTraffic
  pub index : Dict ℤ ℕ
  pub deltas : List (TrafficCounterDelta A)

abbrev pub empty_batch : {A : Type 0} → Batch A
empty_batch = record { traffic = []; index = []; deltas = [] }

module _ {A S : Type 0} (stats : StatsOps A S) where
  -- A negative value is put back.
  unfoldable pub drain_traffic_counter : Option A → S → S × Option (TrafficCounterDelta A)
  drain_traffic_counter none s = (s, none)
  drain_traffic_counter (some a) s =
      let (s', v) = stats.set_counter 0 a s in
      if is_at_most_0 v
      then (if is_negative v then stats.add_counter v a s' else s', none)
      else (s', some (record { counter = a; value = v }))

  unfoldable pub restore_traffic : List (TrafficCounterDelta A) → S → S
  restore_traffic [] s = s
  restore_traffic (d ∷ ds) s = restore_traffic ds (stats.add_counter d.value d.counter s)

  abbrev pub delta_list : Option (TrafficCounterDelta A) → List (TrafficCounterDelta A)
  delta_list none = []
  delta_list (some d) = d ∷ []

  abbrev pub delta_value : Option (TrafficCounterDelta A) → ℕ
  delta_value none = 0
  delta_value (some d) = d.value

  -- The state after, then `up`, `down` and `deltas`.
  unfoldable pub drain_traffic : Str → S → S × (ℕ × ℕ × List (TrafficCounterDelta A))
  drain_traffic email s =
      let (s1, up) = drain_traffic_counter (stats.get_counter (uplink_name email) s) s in
      let (s2, down) = drain_traffic_counter (stats.get_counter (downlink_name email) s1) s1 in
      (s2, (delta_value up, delta_value down, delta_list up ++ delta_list down))

  -- `P` is the panel's state, and `E` its errors.
  unfoldable pub flush_user_traffic :
      {P E : Type 0}
      → (List UserTraffic → P → P × Option E)
      → Bool
      → Batch A
      → P × S
      → (P × S) × Option E
  flush_user_traffic report disabled b (p, s) =
      if disabled
      then ((p, s), none)
      else (let (p', answer) = report b.traffic p in
          elim answer [
            | none ↦ ((p', s), none)
            | some err ↦ ((p', restore_traffic b.deltas s), some err)
          ])

-- `none` is the panic of an index out of range.
unfoldable pub append_user_traffic :
    UserInfo → ℕ → ℕ → List UserTraffic × Dict ℤ ℕ → Option (List UserTraffic × Dict ℤ ℕ)
append_user_traffic user up down (traffic, index) =
    if is_at_most_0 up && is_at_most_0 down
    then some (traffic, index)
    else (elim (load ℤ_discrete user.uid index) [
      | none ↦ some (
        traffic ++ record { uid = user.uid; email = user.email; upload = up; download = down } ∷ [],
        store ℤ_discrete user.uid (length traffic) index,
      )
      | some position ↦ elim (get_elem? traffic position) [
        | none ↦ none
        | some entry ↦ some (
          set traffic position (record entry {
            upload = (entry.upload + up) % 2 ^ 64;
            download = (entry.download + down) % 2 ^ 64;
          }),
          index,
        )
      ]
    ])

pub record RetiringUser : Type 0 where
  pub tag : Str
  pub user : UserInfo

module _ {A S : Type 0} (stats : StatsOps A S) where
  -- The body of the loop of `userInfoMonitor` over the retiring users.
  unfoldable pub collect_user : RetiringUser → S × Batch A → Option (S × Batch A)
  unfolding drain_traffic
  collect_user retired (s, b) =
      let email = format_user_key retired.tag retired.user.email retired.user.uid in
      let (s', (up, down, deltas)) = drain_traffic stats email s in
      elim (append_user_traffic (retired.user) up down (b.traffic, b.index)) [
        | none ↦ none
        | some (traffic, index) ↦
            some (s', record { traffic = traffic; index = index; deltas = b.deltas ++ deltas })
      ]

  unfoldable pub collect_users : List RetiringUser → S × Batch A → Option (S × Batch A)
  unfolding collect_user
  collect_users [] sb = some sb
  collect_users (u ∷ us) sb = elim (collect_user u sb) [
    | none ↦ none
    | some sb' ↦ collect_users us sb'
  ]

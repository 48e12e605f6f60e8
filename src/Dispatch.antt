-- ===== src/Dispatch.antt =====
-- `getUserIO` of app/mydispatcher/default.go: what a new connection gets from the registry of
-- flows, the limiter and the counters, or why it is refused.
--
-- `S` is the state of xray-core's stats manager, and `A` a counter.
pub mod Soundness
pub mod Direct
mod Tests
use oldxr.Base.{
  ℕ, ◌⊎◌, inl, inr, Bool, true, false, Option, none, some, List, [], ◌∷◌, if◌then◌else◌,
}
use oldxr.Base.Text.{Str, is_empty}
use oldxr.Limiter.{RateOps, CacheOps, Limiter}
use oldxr.Limiter.Admit.{get_user_bucket}
use oldxr.Flow.{UserFlowRegistry, acquire, release}
use oldxr.Traffic.{uplink_name, downlink_name}

-- What the dispatcher uses of the manager: the registration gives an error (true) or a counter.
pub record ManagerOps (A S : Type 0) : Type 0 where
  pub get_or_register : Str → S → S × (Option A × Bool)
  pub get_counter : Str → S → Option A

-- The inbound of a connection, its user and source, and the policy on the user's counters.
pub record Session : Type 0 where
  pub tag : Str
  pub email : Str
  pub source_ip : Str
  pub user_uplink : Bool
  pub user_downlink : Bool

pub record UserIo (A : Type 0) : Type 0 where
  pub bucket : Option ℕ
  pub speed_limited : Bool
  pub uplink_counter : Option A
  pub downlink_counter : Option A
  pub runtime : Option ℕ

abbrev pub new_user_io : {A : Type 0} → UserIo A
new_user_io = record {
  bucket = none;
  speed_limited = false;
  uplink_counter = none;
  downlink_counter = none;
  runtime = none;
}

pub data Refusal : Type 0 where
  not_active devices_reach_limit : Str → Refusal

pub record DefaultDispatcher (B G S : Type 0) : Type 0 where
  pub stats : S
  pub limiter : Limiter B G
  pub user_flows : UserFlowRegistry

module _ {A S : Type 0} (manager : ManagerOps A S) where
  -- After an error the manager is read once more.
  unfoldable pub get_or_register_counter : Str → S → S × Option A
  get_or_register_counter name s =
      let (s', (counter, failed)) = manager.get_or_register name s in
      if failed then (s', manager.get_counter name s') else (s', counter)

  unfoldable pub counter_if : Bool → Str → S → S × Option A
  unfolding get_or_register_counter
  counter_if wanted name s = if wanted then get_or_register_counter name s else (s, none)

module _ {A S B R G : Type 0} (manager : ManagerOps A S) (rate : RateOps B R)
    (cache : CacheOps G) where
  -- The part after `acquire`. The deferred call releases the runtime on a refusal.
  unfoldable pub limit_user_io :
      Session → ℕ → DefaultDispatcher B G S → DefaultDispatcher B G S × (UserIo A ⊎ Refusal)
  unfolding counter_if
  limit_user_io session runtime d =
      let (limiter, v) =
        get_user_bucket rate cache session.tag session.email session.source_ip d.limiter in
      if v.reject
      then (
        record d { limiter = limiter; user_flows = release runtime d.user_flows },
        inr (devices_reach_limit session.email),
      )
      else (let (s1, up) =
            counter_if manager session.user_uplink (uplink_name session.email) d.stats in
          let (s2, down) =
            counter_if manager session.user_downlink (downlink_name session.email) s1 in
          (
            record d { stats = s2; limiter = limiter },
            inl (record {
              bucket = v.bucket;
              speed_limited = v.speed_limited;
              uplink_counter = up;
              downlink_counter = down;
              runtime = some runtime;
            }),
          ))

  unfoldable pub get_user_io :
      Option Session → DefaultDispatcher B G S → DefaultDispatcher B G S × (UserIo A ⊎ Refusal)
  get_user_io none d = (d, inl new_user_io)
  get_user_io (some session) d =
      if is_empty session.email
      then (d, inl new_user_io)
      else (let (user_flows, allowed) = acquire session.tag session.email d.user_flows in
          let d' = record d { user_flows = user_flows } in
          elim allowed [
            | none ↦ (d', inr (not_active session.email))
            | some runtime ↦ limit_user_io session runtime d'
          ])

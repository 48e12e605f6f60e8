-- ===== src/Limiter.antt =====
-- common/limiter/limiter.go: the speed and device limits of each inbound's users.
--
-- Go's heap is explicit where it is shared: a `*rate.Limiter` is an address in `heap`, so that the
-- bucket which an open connection holds is the one that a later update retunes. An
-- `*InboundInfo` is reached through its tag alone, so it is a value. Each operation runs as one
-- step: the code makes the steps for one user atomic by the lock of the user's shard.
-- `golang.org/x/time/rate` and the cache of the global limit are parameters.
pub mod Key
pub mod Keys
pub mod Speed
pub mod Users
pub mod Admit
pub mod Online
pub mod Views
pub mod Devices
pub mod Admission
pub mod Buckets
pub mod Removal
pub mod Retuning
pub mod Runs
pub mod Reports
mod Tests
use oldxr.Base.{
  ℕ, suc, ◌+◌, ◌≡◌, Bool, true, false, ◌&&◌, not, Option, none, some, List, [], ◌∷◌, ◌++◌, ltb,
  if◌then◌else◌, length, get_elem?, set,
}
use oldxr.Base.Int.{ℤ, pos, negsuc, int_of_u64, is_positive, leb_ℤ}
use oldxr.Base.Dict.{Dict, load, store, delete}
use oldxr.Base.Text.{Str, Str-discrete}
use oldxr.Api
use oldxr.Api.{OnlineUser}

pub record UserInfo : Type 0 where
  pub uid : ℤ
  pub speed_limit : ℕ  -- uint64
  pub device_limit : ℤ

pub record GlobalDeviceLimitConfig : Type 0 where
  pub enable : Bool
  pub redis_addr : Str
  pub redis_password : Str
  pub redis_db : ℤ
  pub timeout : ℤ
  pub expiry : ℤ

-- What the program uses of `rate.Limiter`: `B` is a bucket, `R` a `rate.Limit`.
pub record RateOps (B R : Type 0) : Type 0 where
  pub limit_of : ℕ → R
  pub new_limiter : R → ℤ → B
  pub set_limit : R → B → B
  pub set_burst : ℤ → B → B
  pub limit : B → R
  pub burst : B → ℤ

-- The documented behaviour of the setters and getters.
pub record RateLaws {B R : Type 0} (rate : RateOps B R) : Type 0 where
  pub limit-new : (r : R) (b : ℤ) → rate.limit (rate.new_limiter r b) ≡ r
  pub burst-new : (r : R) (b : ℤ) → rate.burst (rate.new_limiter r b) ≡ b
  pub limit-set_limit : (r : R) (x : B) → rate.limit (rate.set_limit r x) ≡ r
  pub limit-set_burst : (b : ℤ) (x : B) → rate.limit (rate.set_burst b x) ≡ rate.limit x
  pub burst-set_burst : (b : ℤ) (x : B) → rate.burst (rate.set_burst b x) ≡ b

-- The answer of a cache's `Get`: a map of addresses, `store.NotFound`, or another error.
pub data Reply : Type 0 where
  found : Dict Str ℤ → Reply
  not_found failed : Reply

-- `globalIPCache`, with the method of `atomicGlobalIPCache` where the cache has it (`none` in its
-- answer is an error), and what opens one. A cache that is closed is not used again.
pub record CacheOps (G : Type 0) : Type 0 where
  pub new_cache : GlobalDeviceLimitConfig → G
  pub reserve_ip : Option (Str → Str → ℤ → ℤ → G → Option Bool × G)
  pub get : Str → G → Reply × G
  pub put : Str → Dict Str ℤ → G → Bool × G

-- `config` and `globalOnlineIP` of `GlobalLimit`: `AddInboundLimiter` sets both or neither.
pub record GlobalLimit (G : Type 0) : Type 0 where
  pub config : GlobalDeviceLimitConfig
  pub global_online_ip : G

pub record InboundInfo (G : Type 0) : Type 0 where
  pub tag : Str
  pub node_speed_limit : ℕ  -- uint64
  pub user_info : Dict Str UserInfo
  pub bucket_hub : Dict Str ℕ  -- the addresses of the users' buckets
  pub user_online_ip : Dict Str (Dict Str ℤ)
  pub global_limit : Option (GlobalLimit G)

pub record Limiter (B G : Type 0) : Type 0 where
  pub inbound_info : Dict Str (InboundInfo G)
  pub heap : List B

-- The three results of `GetUserBucket`.
pub record Verdict : Type 0 where
  pub bucket : Option ℕ
  pub speed_limited : Bool
  pub reject : Bool

pub data Error : Type 0 where
  no_such_inbound : Str → Error

abbrev pub pass : Verdict
pass = record { bucket = none; speed_limited = false; reject = false }

abbrev pub refuse : Verdict
refuse = record { bucket = none; speed_limited = false; reject = true }

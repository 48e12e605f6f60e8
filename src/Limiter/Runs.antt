-- ===== src/Limiter/Runs.antt =====
-- The limiter over any sequence of its operations.
use oldxr.Base.{ℕ, Option, List, [], ◌∷◌, arith}
use oldxr.Base.Dict.{load-nil}
use oldxr.Base.Text.{Str, Str-discrete}
use oldxr.Api
use oldxr.Limiter.{GlobalDeviceLimitConfig, RateOps, CacheOps, InboundInfo, Limiter}
use oldxr.Limiter.Users.{
  add_inbound_limiter, update_inbound_limiter, delete_inbound_limiter_users, delete_inbound_limiter,
}
use oldxr.Limiter.Admit.{get_user_bucket}
use oldxr.Limiter.Online.{get_online_device}
use oldxr.Limiter.Buckets.{BucketsSeparate}
use oldxr.Limiter.Buckets.Operations.{
  get_user_bucket-BucketsSeparate, add_inbound_limiter-BucketsSeparate,
  update_inbound_limiter-BucketsSeparate, delete_inbound_limiter_users-BucketsSeparate,
  delete_inbound_limiter-BucketsSeparate, get_online_device-BucketsSeparate,
}

-- The calls that the controller and the dispatcher make.
pub data Call : Type 0 where
  add_inbound : Str → ℕ → List Api.UserInfo → Option GlobalDeviceLimitConfig → Call
  update_inbound : Str → List Api.UserInfo → Call
  delete_users : Str → List Api.UserInfo → Call
  delete_inbound : Str → Call
  online_report : Str → Call
  connect : Str → Str → Str → Call

-- `New`.
unfoldable pub new : {B G : Type 0} → Limiter B G
new = record { inbound_info = []; heap = [] }

module _ {B R G : Type 0} (rate : RateOps B R) (cache : CacheOps G) where
  unfoldable pub step : Limiter B G → Call → Limiter B G
  step l (add_inbound tag limit users config) = add_inbound_limiter cache tag limit users config l
  step l (update_inbound tag users) = (update_inbound_limiter rate tag users l).0
  step l (delete_users tag users) = (delete_inbound_limiter_users tag users l).0
  step l (delete_inbound tag) = delete_inbound_limiter tag l
  step l (online_report tag) = (get_online_device tag l).0
  step l (connect tag email ip) = (get_user_bucket rate cache tag email ip l).0

  unfoldable pub run : Limiter B G → List Call → Limiter B G
  unfolding step
  run l [] = l
  run l (c ∷ cs) = run (step l c) cs

  step-BucketsSeparate :
      (l : Limiter B G) (c : Call) → BucketsSeparate l → BucketsSeparate (step l c)
  unfolding step
  step-BucketsSeparate l (add_inbound tag limit users config) inv =
      add_inbound_limiter-BucketsSeparate rate cache tag limit users config l inv
  step-BucketsSeparate l (update_inbound tag users) inv =
      update_inbound_limiter-BucketsSeparate rate tag users l inv
  step-BucketsSeparate l (delete_users tag users) inv =
      delete_inbound_limiter_users-BucketsSeparate tag l inv users
  step-BucketsSeparate l (delete_inbound tag) inv = delete_inbound_limiter-BucketsSeparate tag l inv
  step-BucketsSeparate l (online_report tag) inv = get_online_device-BucketsSeparate tag l inv
  step-BucketsSeparate l (connect tag email ip) inv =
      get_user_bucket-BucketsSeparate rate cache tag email ip l inv

  run-BucketsSeparate :
      (l : Limiter B G) (cs : List Call) → BucketsSeparate l → BucketsSeparate (run l cs)
  unfolding run
  run-BucketsSeparate l [] inv = inv
  run-BucketsSeparate l (c ∷ cs) inv =
      run-BucketsSeparate (step l c) cs (step-BucketsSeparate l c inv)

  new-BucketsSeparate : BucketsSeparate {B = B} {G = G} new
  unfolding new
  new-BucketsSeparate = record {
    allocated = λ t e a h. ground (arith, load-nil {V = InboundInfo G} Str-discrete t);
    unshared = λ t e t' e' a h h'. ground (arith, load-nil {V = InboundInfo G} Str-discrete t);
  }

  -- After any calls on a new limiter every user's bucket is on the heap, and no two users of any
  -- inbounds share one.
  pub run-new-BucketsSeparate : (cs : List Call) → BucketsSeparate (run new cs)
  run-new-BucketsSeparate cs = run-BucketsSeparate new cs new-BucketsSeparate

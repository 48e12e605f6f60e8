-- ===== src/Limiter/Users.antt =====
-- `AddInboundLimiter`, `UpdateInboundLimiter`, `DeleteInboundLimiterUsers` and
-- `DeleteInboundLimiter` of common/limiter/limiter.go.
use oldxr.Base.{ℕ, Option, none, some, List, [], ◌∷◌, ltb, if◌then◌else◌, get_elem?, set}
use oldxr.Base.Int.{int_of_u64}
use oldxr.Base.Dict.{Dict, load, store, delete}
use oldxr.Base.Text.{Str, Str-discrete}
use oldxr.Api
use oldxr.Limiter.Key.{format_user_key}
use oldxr.Limiter.Speed.{determine_rate}
use oldxr.Limiter.{
  UserInfo, GlobalDeviceLimitConfig, RateOps, CacheOps, GlobalLimit, InboundInfo, Limiter, Error,
  no_such_inbound,
}

-- The limits of a panel user.
abbrev pub limits_of : Api.UserInfo → UserInfo
limits_of u = record { uid = u.uid; speed_limit = u.speed_limit; device_limit = u.device_limit }

abbrev pub key_of : Str → Api.UserInfo → Str
key_of tag u = format_user_key tag u.email u.uid

-- The loop of `AddInboundLimiter` over the users.
unfoldable pub store_users : Str → List Api.UserInfo → Dict Str UserInfo → Dict Str UserInfo
store_users tag [] m = m
store_users tag (u ∷ us) m = store_users tag us (store Str-discrete (key_of tag u) (limits_of u) m)

module _ {G : Type 0} (cache : CacheOps G) where
  -- `nil`, or a configuration that is not enabled, leaves the inbound without a global limit.
  unfoldable pub new_global_limit : Option GlobalDeviceLimitConfig → Option (GlobalLimit G)
  new_global_limit none = none
  new_global_limit (some config) =
      if config.enable
      then some (record { config = config; global_online_ip = cache.new_cache config })
      else none

  unfoldable pub new_inbound :
      Str → ℕ → List Api.UserInfo → Option GlobalDeviceLimitConfig → InboundInfo G
  unfolding new_global_limit store_users
  new_inbound tag node_speed_limit user_list global_limit = record {
    tag = tag;
    node_speed_limit = node_speed_limit;
    user_info = store_users tag user_list [];
    bucket_hub = [];
    user_online_ip = [];
    global_limit = new_global_limit global_limit;
  }

  -- The cache of an inbound that is replaced is closed, and the table no longer reaches it.
  unfoldable pub add_inbound_limiter :
      {B : Type 0}
      → Str
      → ℕ
      → List Api.UserInfo
      → Option GlobalDeviceLimitConfig
      → Limiter B G
      → Limiter B G
  unfolding new_inbound
  add_inbound_limiter tag node_speed_limit user_list global_limit l = record l {
    inbound_info =
        store Str-discrete tag (new_inbound tag node_speed_limit user_list global_limit)
          l.inbound_info;
  }

module _ {B R : Type 0} (rate : RateOps B R) where
  -- `SetLimit` and `SetBurst` on the bucket at an address.
  unfoldable pub retune : ℕ → ℕ → List B → List B
  retune a limit heap = elim (get_elem? heap a) [
    | none ↦ heap
    | some b ↦
        set heap a (rate.set_burst (int_of_u64 limit) (rate.set_limit (rate.limit_of limit) b))
  ]

module _ {B R G : Type 0} (rate : RateOps B R) where
  -- The body of the loop of `UpdateInboundLimiter`.
  unfoldable pub update_user : Str → Api.UserInfo → InboundInfo G × List B → InboundInfo G × List B
  unfolding retune
  update_user tag u (info, heap) =
      let email = key_of tag u in
      let stored = record info {
        user_info = store Str-discrete email (limits_of u) info.user_info;
      } in
      let limit = determine_rate info.node_speed_limit u.speed_limit in
      if ltb 0 limit
      then (elim (load Str-discrete email stored.bucket_hub) [
        | some a ↦ (stored, retune rate a limit heap)
        | none ↦ (stored, heap)
      ])
      else (record stored { bucket_hub = delete Str-discrete email stored.bucket_hub }, heap)

  unfoldable pub update_users :
      Str → List Api.UserInfo → InboundInfo G × List B → InboundInfo G × List B
  unfolding update_user
  update_users tag [] s = s
  update_users tag (u ∷ us) s = update_users tag us (update_user tag u s)

  unfoldable pub update_inbound_limiter :
      Str → List Api.UserInfo → Limiter B G → Limiter B G × Option Error
  unfolding update_users
  update_inbound_limiter tag updated l = elim (load Str-discrete tag l.inbound_info) [
    | none ↦ (l, some (no_such_inbound tag))
    | some info ↦
        let (info', heap') = update_users tag updated (info, l.heap) in
        (record { inbound_info = store Str-discrete tag info' l.inbound_info; heap = heap' }, none)
  ]

module _ {G : Type 0} where
  -- The body of the loop of `DeleteInboundLimiterUsers`.
  unfoldable pub delete_user : Str → Api.UserInfo → InboundInfo G → InboundInfo G
  delete_user tag u info =
      let email = key_of tag u in
      record info {
        user_info = delete Str-discrete email info.user_info;
        bucket_hub = delete Str-discrete email info.bucket_hub;
        user_online_ip = delete Str-discrete email info.user_online_ip;
      }

  unfoldable pub delete_users : Str → List Api.UserInfo → InboundInfo G → InboundInfo G
  unfolding delete_user
  delete_users tag [] info = info
  delete_users tag (u ∷ us) info = delete_users tag us (delete_user tag u info)

module _ {B G : Type 0} where
  unfoldable pub delete_inbound_limiter_users :
      Str → List Api.UserInfo → Limiter B G → Limiter B G × Option Error
  unfolding delete_users
  delete_inbound_limiter_users tag deleted l = elim (load Str-discrete tag l.inbound_info) [
    | none ↦ (l, some (no_such_inbound tag))
    | some info ↦ (
      record l {
        inbound_info = store Str-discrete tag (delete_users tag deleted info) l.inbound_info;
      },
      none,
    )
  ]

  unfoldable pub delete_inbound_limiter : Str → Limiter B G → Limiter B G
  delete_inbound_limiter tag l = record l { inbound_info = delete Str-discrete tag l.inbound_info }

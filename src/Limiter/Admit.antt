-- ===== src/Limiter/Admit.antt =====
-- `GetUserBucket` and `globalLimit` of common/limiter/limiter.go.
use oldxr.Base.{
  ℕ, suc, ◌++◌, Bool, true, false, ◌&&◌, not, Option, none, some, List, [], ◌∷◌, ltb, if◌then◌else◌,
  length,
}
use oldxr.Base.Int.{ℤ, pos, int_of_u64, is_positive, leb_ℤ}
use oldxr.Base.Dict.{Dict, load, store}
use oldxr.Base.Text.{Str, Str-discrete}
use oldxr.Limiter.Key.{unique_key}
use oldxr.Limiter.Speed.{determine_rate}
use oldxr.Limiter.{
  UserInfo, RateOps, CacheOps, Reply, found, not_found, failed, InboundInfo, Limiter, Verdict, pass,
  refuse,
}

-- The counting loop: it stops at the limit.
unfoldable pub count_devices : ℤ → ℕ → Dict Str ℤ → ℕ
count_devices device_limit counter [] = counter
count_devices device_limit counter (e ∷ ips) =
    let rest = count_devices device_limit (suc counter) ips in
    if leb_ℤ device_limit (pos (suc counter)) then suc counter else rest

-- Whether a new address is one too many.
unfoldable pub is_full : ℤ → Dict Str ℤ → Bool
unfolding count_devices
is_full device_limit ips =
    let counter = if is_positive device_limit then count_devices device_limit 0 ips else 0 in
    is_positive device_limit && leb_ℤ device_limit (pos counter)

module _ {G : Type 0} where
  -- `UserOnlineIP`'s map for the user, made if there is none.
  unfoldable pub open_devices : Str → InboundInfo G → InboundInfo G × Dict Str ℤ
  open_devices email info = elim (load Str-discrete email info.user_online_ip) [
    | some ips ↦ (info, ips)
    | none ↦ (record info { user_online_ip = store Str-discrete email [] info.user_online_ip }, [])
  ]

  -- The local device limit; the second part is true for a refusal.
  unfoldable pub local_limit : Str → Str → UserInfo → InboundInfo G → InboundInfo G × Bool
  unfolding open_devices is_full
  local_limit email ip u info =
      let (opened, ips) = open_devices email info in
      elim (load Str-discrete ip ips) [
        | some uid ↦ (opened, false)
        | none ↦ if is_full u.device_limit ips then (opened, true) else (
          record opened {
            user_online_ip =
                store Str-discrete email (store Str-discrete ip u.uid ips) opened.user_online_ip;
          },
          false,
        )
      ]

module _ {B R G : Type 0} (rate : RateOps B R) where
  -- The user's bucket, made if there is none; no bucket without a speed limit.
  unfoldable pub take_bucket :
      Str → ℕ → InboundInfo G × List B → (InboundInfo G × List B) × Option ℕ
  take_bucket email limit (info, heap) =
      if ltb 0 limit
      then (elim (load Str-discrete email info.bucket_hub) [
        | some a ↦ ((info, heap), some a)
        | none ↦ (
          (
            record info { bucket_hub = store Str-discrete email (length heap) info.bucket_hub },
            heap ++ rate.new_limiter (rate.limit_of limit) (int_of_u64 limit) ∷ [],
          ),
          some (length heap),
        )
      ])
      else ((info, heap), none)

-- The part of `globalLimit` for a cache without `ReserveIP`. A failing cache refuses nobody.
module _ {G : Type 0} (cache : CacheOps G) where
  unfoldable pub global_read : Str → ℤ → Str → ℤ → Reply × G → G × Bool
  global_read key uid ip device_limit (failed, g) = (g, false)
  global_read key uid ip device_limit (not_found, g) = ((cache.put key ((ip, uid) ∷ []) g).1, false)
  global_read key uid ip device_limit (found ips, g) = elim (load Str-discrete ip ips) [
    | some known ↦ (g, false)
    | none ↦
        if is_positive device_limit && leb_ℤ device_limit (pos (length ips))
        then (g, true)
        else ((cache.put key (store Str-discrete ip uid ips) g).1, false)
  ]

  abbrev refused : Option Bool → Bool
  refused none = false
  refused (some accepted) = not accepted

  -- The new state of the cache, and true for a refusal.
  unfoldable pub global_limit : Str → Str → ℤ → Str → ℤ → G → G × Bool
  unfolding global_read
  global_limit tag email uid ip device_limit g =
      let key = unique_key email tag device_limit in
      elim (cache.reserve_ip) [
        | some reserve ↦
            let (answer, g') = reserve key ip uid device_limit g in (g', refused answer)
        | none ↦ global_read key uid ip device_limit (cache.get key g)
      ]

  -- The check of `GetUserBucket` around it.
  unfoldable pub check_global : Str → Str → UserInfo → InboundInfo G → InboundInfo G × Bool
  unfolding global_limit
  check_global email ip u info = elim (info.global_limit) [
    | none ↦ (info, false)
    | some gl ↦
        if gl.config.enable
        then (let (g', rejected) =
              global_limit info.tag email u.uid ip u.device_limit gl.global_online_ip in
            (record info { global_limit = some (record gl { global_online_ip = g' }) }, rejected))
        else (info, false)
  ]

module _ {B R G : Type 0} (rate : RateOps B R) (cache : CacheOps G) where
  -- `GetUserBucket` on the inbound of the tag.
  unfoldable pub get_bucket :
      Str → Str → InboundInfo G × List B → (InboundInfo G × List B) × Verdict
  get_bucket email ip (info, heap) = elim (load Str-discrete email info.user_info) [
    | none ↦ ((info, heap), pass)
    | some u ↦
        let (admitted, full) = local_limit email ip u info in
        if full
        then ((admitted, heap), refuse)
        else (let limit = determine_rate info.node_speed_limit u.speed_limit in
            let (s, bucket) = take_bucket rate email limit (admitted, heap) in
            let (checked, rejected) = check_global cache email ip u s.0 in
            if rejected then ((checked, s.1), refuse) else (
              (checked, s.1),
              record { bucket = bucket; speed_limited = ltb 0 limit; reject = false },
            ))
  ]

  unfoldable pub get_user_bucket : Str → Str → Str → Limiter B G → Limiter B G × Verdict
  get_user_bucket tag email ip l = elim (load Str-discrete tag l.inbound_info) [
    | none ↦ (l, pass)
    | some info ↦
        let (s, v) = get_bucket email ip (info, l.heap) in
        (record { inbound_info = store Str-discrete tag s.0 l.inbound_info; heap = s.1 }, v)
  ]

-- ===== src/Limiter/Views.antt =====
-- What the limiter holds for one user of one inbound, and the parts that each step of
-- `GetUserBucket` leaves alone.
use oldxr.Base.{ℕ, ◌≡◌, Option, none, some, List, [], arith}
use oldxr.Base.Int.{ℤ}
use oldxr.Base.Dict.{Dict, load}
use oldxr.Base.Text.{Str, Str-discrete}
use oldxr.Limiter.{UserInfo, RateOps, CacheOps, InboundInfo}
use oldxr.Limiter.Admit.{local_limit, take_bucket, check_global, get_bucket}

abbrev pub or_empty : Option (Dict Str ℤ) → Dict Str ℤ
or_empty none = []
or_empty (some ips) = ips

-- The addresses from which a user is online.
abbrev pub devices : {G : Type 0} → Str → InboundInfo G → Dict Str ℤ
devices email info = or_empty (load Str-discrete email info.user_online_ip)

module _ {B R G : Type 0} (rate : RateOps B R) where
  pub take_bucket-devices :
      (email : Str) (limit : ℕ) (info : InboundInfo G) (heap : List B)
      → let info' = (take_bucket rate email limit (info, heap)).0.0 in
        (info'.user_online_ip ≡ info.user_online_ip)
        × (info'.user_info ≡ info.user_info)
        × (info'.tag ≡ info.tag)
        × (info'.node_speed_limit ≡ info.node_speed_limit)
  unfolding take_bucket
  take_bucket-devices email limit info heap = ground arith

module _ {G : Type 0} (cache : CacheOps G) where
  pub check_global_parts :
      (email ip : Str) (u : UserInfo) (info : InboundInfo G)
      → let info' = (check_global cache email ip u info).0 in
        (info'.user_online_ip ≡ info.user_online_ip)
        × (info'.user_info ≡ info.user_info)
        × (info'.bucket_hub ≡ info.bucket_hub)
        × (info'.tag ≡ info.tag)
        × (info'.node_speed_limit ≡ info.node_speed_limit)
  unfolding check_global
  check_global_parts email ip u info = ground arith

module _ {G : Type 0} where
  pub local_limit_parts :
      (email ip : Str) (u : UserInfo) (info : InboundInfo G)
      → let info' = (local_limit email ip u info).0 in
        (info'.user_info ≡ info.user_info)
        × (info'.bucket_hub ≡ info.bucket_hub)
        × (info'.tag ≡ info.tag)
        × (info'.node_speed_limit ≡ info.node_speed_limit)
        × (info'.global_limit ≡ info.global_limit)
  unfolding local_limit
  local_limit_parts email ip u info = ground arith

module _ {B R G : Type 0} (rate : RateOps B R) (cache : CacheOps G) where
  -- The device table after `GetUserBucket` is the one that the local limit leaves.
  pub get_bucket-online :
      (email ip : Str) (info : InboundInfo G) (heap : List B) (u : UserInfo)
      → load Str-discrete email info.user_info ≡ some u
      → (get_bucket rate cache email ip (info, heap)).0.0.user_online_ip
        ≡ (local_limit email ip u info).0.user_online_ip
  unfolding get_bucket take_bucket check_global
  get_bucket-online email ip info heap u h = ground arith

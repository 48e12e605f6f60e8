-- ===== src/Limiter/Admission.antt =====
-- `GetUserBucket` as a whole: whom it refuses, and what it does to the table of online devices.
use oldxr.Base.{
  Option-cases, inl, inr, ◌⊎◌, ℕ, suc, ◌≤◌, ◌≡◌, ◌↔◌, ◌≢◌, true, false, none, some, [], length,
  arith,
}
use oldxr.Base.Int.{ℤ, pos}
use oldxr.Base.Dict.{Dict, load, load-store_self, length-store_new}
use oldxr.Base.Text.{Str, Str-discrete}
use oldxr.Limiter.{UserInfo, RateOps, CacheOps, InboundInfo, Limiter, refuse}
use oldxr.Limiter.Admit.{local_limit, take_bucket, check_global, get_bucket, get_user_bucket}
use oldxr.Limiter.Views.{devices, get_bucket-online, local_limit_parts}
use oldxr.Limiter.Devices.{is_full_iff, IsOver, local_limit_refuses, local_limit-devices}

-- The addresses from which a user of an inbound is online.
abbrev pub online : {B G : Type 0} → Str → Str → Limiter B G → Dict Str ℤ
online tag email l = elim (load Str-discrete tag l.inbound_info) [
  | none ↦ []
  | some info ↦ devices email info
]

module _ {B R G : Type 0} (rate : RateOps B R) (cache : CacheOps G) where
  -- A user of the inbound under the tag.
  abbrev pub IsUser : Str → Str → Limiter B G → InboundInfo G → UserInfo → Type 0
  IsUser tag email l info u =
      (load Str-discrete tag l.inbound_info ≡ some info)
      × (load Str-discrete email info.user_info ≡ some u)

  module _ (tag email ip : Str) (l : Limiter B G) where
    online-get_user_bucket :
        {info : InboundInfo G} {u : UserInfo}
        → IsUser tag email l info u
        → online tag email (get_user_bucket rate cache tag email ip l).0
          ≡ devices email (local_limit email ip u info).0
    unfolding get_user_bucket
    online-get_user_bucket {info} {u} h = ground (
      arith,
      get_bucket-online rate cache email ip info l.heap u h.1,
      load-store_self Str-discrete tag (get_bucket rate cache email ip (info, l.heap)).0.0
          l.inbound_info,
    )

    get_user_bucket-verdict :
        {info : InboundInfo G} {u : UserInfo}
        → IsUser tag email l info u
        → (get_user_bucket rate cache tag email ip l).1
          ≡ (get_bucket rate cache email ip (info, l.heap)).1
    unfolding get_user_bucket
    get_user_bucket-verdict h = ground arith

    -- A user at a positive device limit is refused from a new address, whatever the global limit
    -- says, gets no bucket, and stays online from the same addresses.
    pub over_limit_refused :
        {info : InboundInfo G} {u : UserInfo}
        → IsUser tag email l info u
        → IsOver email ip u info
        → let (l', verdict) = get_user_bucket rate cache tag email ip l in
          (verdict ≡ refuse) × (online tag email l' ≡ devices email info)
    unfolding get_bucket
    over_limit_refused {info} {u} h over = (
      ground (arith, get_user_bucket-verdict h, local_limit_refuses email ip u info),
      ground (
        arith,
        online-get_user_bucket h,
        local_limit_refuses email ip u info,
        local_limit-devices email ip u info,
      ),
    )

    known_refused :
        {info : InboundInfo G} {u : UserInfo}
        → IsUser tag email l info u
        → info.global_limit ≡ none
        → ((get_user_bucket rate cache tag email ip l).1.reject ≡ true) ↔ IsOver email ip u info
    unfolding get_bucket take_bucket check_global
    known_refused {info} {u} h g = ground (
      arith,
      get_user_bucket-verdict h,
      local_limit_refuses email ip u info,
      local_limit_parts email ip u info,
    )

    unknown_passes :
        (load Str-discrete tag l.inbound_info ≡ none)
          ⊎ ((info : InboundInfo G) × (load Str-discrete tag l.inbound_info ≡ some info)
              × (load Str-discrete email info.user_info ≡ none))
        → (get_user_bucket rate cache tag email ip l).1.reject ≡ false
    unfolding get_user_bucket get_bucket
    unknown_passes (inl e) = ground (arith, e)
    unknown_passes (inr (info, e, f)) = ground (arith, e, f)

    -- The inbound under the tag, if there is one, has no global limit.
    abbrev pub LacksGlobalLimit : Type 0
    LacksGlobalLimit =
        (info : InboundInfo G)
        → load Str-discrete tag l.inbound_info ≡ some info
        → info.global_limit ≡ none

    -- A connection to an inbound without a global limit, or to none, is refused if and only if the
    -- inbound knows the user, the user is at a positive device limit, and the address is new.
    pub refused_iff_over :
        LacksGlobalLimit
        → ((get_user_bucket rate cache tag email ip l).1.reject ≡ true) ↔ (
            (info : InboundInfo G) × ((u : UserInfo) × IsUser tag email l info u
              × IsOver email ip u info))
    refused_iff_over lacks = elim (Option-cases (load Str-discrete tag l.inbound_info)) [
      | inl e ↦ (
        λ refused. absurd (ground (arith, refused, unknown_passes (inl e))),
        λ (info, (u, h, over)). absurd (ground (arith, e, h.0)),
      )
      | inr (info, e) ↦ elim (Option-cases (load Str-discrete email info.user_info)) [
        | inl f ↦ (
          λ refused. absurd (ground (arith, refused, unknown_passes (inr (info, e, f)))),
          λ (info', (u, h, over)). (known_refused h (lacks info' h.0)).1 over,
        )
        | inr (u, f) ↦ (
          λ refused. (info, (u, (e, f), (known_refused (e, f) (lacks info e)).0 refused)),
          λ (info', (u', h, over)). (known_refused h (lacks info' h.0)).1 over,
        )
      ]
    ]

    -- A connection that is not refused leaves its address in the user's table.
    pub admitted_online :
        {info : InboundInfo G} {u : UserInfo}
        → IsUser tag email l info u
        → (get_user_bucket rate cache tag email ip l).1.reject ≡ false
        → load Str-discrete ip (online tag email (get_user_bucket rate cache tag email ip l).0)
          ≢ none
    unfolding get_bucket
    admitted_online {info} {u} h ok = ground (
      arith,
      online-get_user_bucket h,
      get_user_bucket-verdict h,
      local_limit-devices email ip u info,
      load-store_self Str-discrete ip u.uid (devices email info),
    )

    -- A user within a positive device limit is still within it after any connection attempt.
    pub device_limit_kept :
        {info : InboundInfo G} {u : UserInfo} (n : ℕ)
        → IsUser tag email l info u
        → u.device_limit ≡ pos (suc n)
        → length (devices email info) ≤ suc n
        → length (online tag email (get_user_bucket rate cache tag email ip l).0) ≤ suc n
    device_limit_kept {info} {u} n h d within = ground (
      arith,
      online-get_user_bucket h,
      local_limit_refuses email ip u info,
      local_limit-devices email ip u info,
      is_full_iff u.device_limit (devices email info),
      length-store_new Str-discrete ip u.uid (devices email info),
    )

-- ===== src/Limiter/Devices.antt =====
-- The device limit: who is refused, and how many addresses a user can have at once.
use oldxr.Base.{
  ℕ, suc, ◌+◌, ◌<◌, ◌≡◌, refl, ◌↔◌, true, ◌&&◌, none, some, [], ◌∷◌, leb, if◌then◌else◌, length,
  arith,
}
use oldxr.Base.Int.{ℤ, pos, negsuc, is_positive, leb_ℤ}
use oldxr.Base.Dict.{Dict, load, store, load-store_self}
use oldxr.Base.Text.{Str, Str-discrete}
use oldxr.Limiter.{UserInfo, InboundInfo}
use oldxr.Limiter.Admit.{count_devices, is_full, local_limit}
use oldxr.Limiter.Views.{devices}

count_devices_reaches :
    (n c : ℕ) (ips : Dict Str ℤ)
    → c < n
    → leb n (count_devices (pos n) c ips) ≡ leb n (c + length ips)
unfolding count_devices
count_devices_reaches n c [] h = ground arith
count_devices_reaches n c (e ∷ ips) h = ground (arith, count_devices_reaches n (suc c) ips)

-- The counting loop, which stops early, decides whether the table holds the limit or more.
pub is_full_iff :
    (d : ℤ) (ips : Dict Str ℤ) → is_full d ips ≡ (is_positive d && leb_ℤ d (pos (length ips)))
unfolding is_full
is_full_iff (negsuc n) ips = refl
is_full_iff (pos n) ips = ground (arith, count_devices_reaches n 0 ips)

module _ {G : Type 0} (email ip : Str) (u : UserInfo) (info : InboundInfo G) where
  -- Refused: a positive limit, a new address, and as many known addresses as the limit allows.
  abbrev pub IsOver : Type 0
  IsOver =
      (load Str-discrete ip (devices email info) ≡ none)
      × ((is_positive u.device_limit && leb_ℤ u.device_limit (pos (length (devices email info))))
          ≡ true)

  pub local_limit_refuses : ((local_limit email ip u info).1 ≡ true) ↔ IsOver
  unfolding local_limit
  local_limit_refuses = ground (arith, is_full_iff u.device_limit (devices email info))

  pub local_limit-devices : devices email (local_limit email ip u info).0 ≡ (
      if (local_limit email ip u info).1
      then devices email info
      else elim (load Str-discrete ip (devices email info)) [
        | some uid ↦ devices email info
        | none ↦ store Str-discrete ip u.uid (devices email info)
      ])
  unfolding local_limit
  local_limit-devices =
      let m = info.user_online_ip in
      let ips = devices email info in
      ground (
        arith,
        load-store_self Str-discrete email [] m,
        load-store_self Str-discrete email (store Str-discrete ip u.uid ips) m,
        load-store_self Str-discrete email (store Str-discrete ip u.uid ips)
            (store Str-discrete email [] m),
      )

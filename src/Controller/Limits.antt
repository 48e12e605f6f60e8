-- ===== src/Controller/Limits.antt =====
-- Which inbounds the limiter has after a call of the controller, and the limits of a new one.
use oldxr.Base.{ℕ, ◌≡◌, true, Option, none, some, List, [], arith, Option-cases, inl, inr}
use oldxr.Base.Dict.{load, load-nil, load-store_self}
use oldxr.Base.Text.{Str, Str-discrete}
use oldxr.Api.{UserInfo}
use oldxr.Limiter
use oldxr.Limiter.{Limiter, RateOps, CacheOps, GlobalDeviceLimitConfig}
use oldxr.Limiter.Users.{
  limits_of, update_users, update_inbound_limiter, delete_users, delete_inbound_limiter_users,
  new_inbound, add_inbound_limiter,
}
use oldxr.Controller.Keys.{find_key}
use oldxr.Controller.Serving.{limits_at, has_inbound, load-store_users}

module _ (tag : Str) where
  pub has_inbound-update :
      {B R G : Type 0} (rate : RateOps B R) (us : List UserInfo) (l : Limiter B G)
      → has_inbound tag (update_inbound_limiter rate tag us l).0 ≡ has_inbound tag l
  unfolding update_inbound_limiter
  has_inbound-update rate us l = elim (Option-cases (load Str-discrete tag l.inbound_info)) [
    | inl e ↦ ground arith
    | inr (info, e) ↦ ground (
      arith,
      load-store_self Str-discrete tag (update_users rate tag us (info, l.heap)).0 l.inbound_info,
    )
  ]

  pub has_inbound-delete :
      {B G : Type 0} (us : List UserInfo) (l : Limiter B G)
      → has_inbound tag (delete_inbound_limiter_users tag us l).0 ≡ has_inbound tag l
  unfolding delete_inbound_limiter_users
  has_inbound-delete us l = elim (Option-cases (load Str-discrete tag l.inbound_info)) [
    | inl e ↦ ground arith
    | inr (info, e) ↦
        ground (arith, load-store_self Str-discrete tag (delete_users tag us info) l.inbound_info)
  ]

  module _ {B G : Type 0} (cache : CacheOps G) where
    pub has_inbound-add :
        (speed : ℕ) (us : List UserInfo) (config : Option GlobalDeviceLimitConfig) (l : Limiter B G)
        → has_inbound tag (add_inbound_limiter cache tag speed us config l) ≡ true
    unfolding add_inbound_limiter
    has_inbound-add speed us config l = ground (
      arith,
      load-store_self Str-discrete tag (new_inbound cache tag speed us config) l.inbound_info,
    )

    pub limits_at-add :
        (email : Str) (speed : ℕ) (us : List UserInfo) (config : Option GlobalDeviceLimitConfig)
        (l : Limiter B G)
        → limits_at tag email (add_inbound_limiter cache tag speed us config l)
          ≡ (elim (find_key tag email us) [ some u ↦ some (limits_of u) | none ↦ none ])
    unfolding add_inbound_limiter new_inbound
    limits_at-add email speed us config l = ground (
      arith,
      load-store_self Str-discrete tag (new_inbound cache tag speed us config) l.inbound_info,
      load-store_users tag email us [],
      load-nil {V = Limiter.UserInfo} Str-discrete email,
    )

-- ===== src/Limiter/Buckets/Operations.antt =====
-- Every operation of the limiter keeps the buckets separate.
use oldxr.Base.{
  ℕ, ◌<◌, ◌≡◌, refl, sym, ap, ◌∙◌, Option, some, List, [], ◌∷◌, length, arith, Option-cases,
  Bool-cases, inl, inr, length-append, length-set, ◌⊎◌, get_elem?,
}
use oldxr.Base.Dict.{Dict, load, delete, load-store, load-delete, load-nil}
use oldxr.Base.Text.{Str, Str-discrete}
use oldxr.Api
use oldxr.Api.{OnlineUser}
use oldxr.Base.Int.{ℤ, int_of_u64}
use oldxr.Limiter.Speed.{determine_rate}
use oldxr.Limiter.{GlobalDeviceLimitConfig, RateOps, CacheOps, InboundInfo, Limiter}
use oldxr.Limiter.Users.{
  key_of, retune, update_user, update_users, update_inbound_limiter, delete_users,
  delete_inbound_limiter_users, delete_inbound_limiter, new_inbound, add_inbound_limiter,
}
use oldxr.Limiter.Admit.{local_limit, take_bucket, get_bucket, get_user_bucket}
use oldxr.Limiter.Online.{clear_bucket, clear_idle, drain_online, get_online_device}
use oldxr.Limiter.Views.{local_limit_parts, check_global_parts}
use oldxr.Limiter.Buckets.{
  hub_at, BucketsSeparate, Evolves, replaced-BucketsSeparate, Keeps, shrink-BucketsSeparate,
  keep-BucketsSeparate,
}

module _ {G : Type 0} where
  delete-Keeps :
      (email : Str) (info : InboundInfo G)
      → Keeps info (record info { bucket_hub = delete Str-discrete email info.bucket_hub })
  delete-Keeps email info e a h = ground (arith, load-delete Str-discrete email e info.bucket_hub)

  delete_users-Keeps :
      (tag : Str) (us : List Api.UserInfo) (info : InboundInfo G)
      → Keeps info (delete_users tag us info)
  unfolding delete_users
  delete_users-Keeps tag [] info e a h = h
  delete_users-Keeps tag (u ∷ us) info e a h =
      delete-Keeps (key_of tag u) info e a (delete_users-Keeps tag us _ e a h)

  clear_bucket-Keeps : (email : Str) (info : InboundInfo G) → Keeps info (clear_bucket email info)
  unfolding clear_bucket
  clear_bucket-Keeps email info e a h =
      ground (arith, load-delete Str-discrete email e info.bucket_hub)

  clear_idle-Keeps : (hub : Dict Str ℕ) (info : InboundInfo G) → Keeps info (clear_idle hub info)
  unfolding clear_idle
  clear_idle-Keeps [] info e a h = h
  clear_idle-Keeps ((email, b) ∷ hub) info e a h =
      clear_bucket-Keeps email info e a (clear_idle-Keeps hub (clear_bucket email info) e a h)

  drain_online-hub :
      (m : Dict Str (Dict Str ℤ)) (us : List OnlineUser) (info : InboundInfo G)
      → (drain_online m us info).0.bucket_hub ≡ info.bucket_hub
  unfolding drain_online
  drain_online-hub [] us info = refl
  drain_online-hub ((email, ips) ∷ m) us info = drain_online-hub m _ _

module _ {B R : Type 0} (rate : RateOps B R) where
  length-retune : (a limit : ℕ) (heap : List B) → length (retune rate a limit heap) ≡ length heap
  unfolding retune
  length-retune a limit heap = elim (Option-cases (get_elem? heap a)) [
    | inl e ↦ rw (e, retune) refl
    | inr (b, e) ↦ rw (e, retune) (length-set heap a _)
  ]

module _ {B R G : Type 0} (rate : RateOps B R) where
  update_user-Keeps :
      (tag : Str) (u : Api.UserInfo) (info : InboundInfo G) (heap : List B) (e : Str) (a : ℕ)
      → hub_at e (update_user rate tag u (info, heap)).0 ≡ some a
      → hub_at e info ≡ some a
  unfolding update_user
  update_user-Keeps tag u info heap e a h =
      ground (arith, load-delete Str-discrete (key_of tag u) e info.bucket_hub)

  length-update_user :
      (tag : Str) (u : Api.UserInfo) (info : InboundInfo G) (heap : List B)
      → length heap ≡ length (update_user rate tag u (info, heap)).1
  unfolding update_user
  length-update_user tag u info heap = grind (arith, length-retune rate)

  update_users-Keeps :
      (tag : Str) (us : List Api.UserInfo) (info : InboundInfo G) (heap : List B)
      → Keeps info (update_users rate tag us (info, heap)).0
        × (length heap ≡ length (update_users rate tag us (info, heap)).1)
  unfolding update_users
  update_users-Keeps tag [] info heap = ((λ e a h. h), refl)
  update_users-Keeps tag (u ∷ us) info heap =
      let s = update_user rate tag u (info, heap) in
      let rest = update_users-Keeps tag us s.0 s.1 in
      (
        (λ e a h. update_user-Keeps tag u info heap e a (rest.0 e a h)),
        length-update_user tag u info heap ∙ rest.1,
      )

module _ {B R G : Type 0} (rate : RateOps B R) (cache : CacheOps G) where
  take_bucket-Evolves :
      (email : Str) (limit : ℕ) (info : InboundInfo G) (heap : List B)
      → ((e : Str) (a : ℕ) → hub_at e info ≡ some a → a < length heap)
      → let s = (take_bucket rate email limit (info, heap)).0 in
        Evolves info.bucket_hub heap s.0.bucket_hub s.1
  unfolding take_bucket
  take_bucket-Evolves email limit info heap valid =
      let fresh =
        length-append heap (rate.new_limiter (rate.limit_of limit) (int_of_u64 limit) ∷ []) in
      let stored = λ (e : Str). load-store Str-discrete email e (length heap) info.bucket_hub in
      record {
        longer = ground (arith, fresh);
        origin = λ e a h. ground (arith, fresh, stored e);
        distinct = λ e e' a h h' new. ground (arith, stored e, stored e', valid e a, valid e' a);
      }

  -- The hub and the heap are those of `take_bucket`, or what they were.
  get_bucket-hub :
      (email ip : Str) (info : InboundInfo G) (heap : List B)
      → let s = (get_bucket rate cache email ip (info, heap)).0 in
        ((s.0.bucket_hub ≡ info.bucket_hub) × (s.1 ≡ heap))
        ⊎ ((limit : ℕ) × (i : InboundInfo G) × (i.bucket_hub ≡ info.bucket_hub)
            × (s.0.bucket_hub ≡ (take_bucket rate email limit (i, heap)).0.0.bucket_hub)
            × (s.1 ≡ (take_bucket rate email limit (i, heap)).0.1))
  unfolding get_bucket
  get_bucket-hub email ip info heap = elim (Option-cases (load Str-discrete email info.user_info)) [
    | inl stranger ↦ inl (ground arith, ground arith)
    | inr (u, known) ↦
        let i = (local_limit email ip u info).0 in
        let limit = determine_rate info.node_speed_limit u.speed_limit in
        let kept = (local_limit_parts email ip u info).1 in
        let s = (take_bucket rate email limit (i, heap)).0 in
        let checked = (check_global_parts cache email ip u s.0).2 in
        (elim (Bool-cases (local_limit email ip u info).1) [
          | inl full ↦ inl (ground (arith, kept), ground arith)
          | inr room ↦ inr (limit, i, kept, ground (arith, checked), ground arith)
        ])
  ]

  get_bucket-Evolves :
      (email ip : Str) (info : InboundInfo G) (heap : List B)
      → ((e : Str) (a : ℕ) → hub_at e info ≡ some a → a < length heap)
      → let s = (get_bucket rate cache email ip (info, heap)).0 in
        Evolves info.bucket_hub heap s.0.bucket_hub s.1
  get_bucket-Evolves email ip info heap valid = elim (get_bucket-hub email ip info heap) [
    | inl (hub, same) ↦ record {
      longer = omega (arith, ap length same);
      origin = λ e a h. inl (rw hub at h);
      distinct = λ e e' a h h' new. absurd (omega (arith, valid e a (rw hub at h)));
    }
    | inr (limit, i, kept, hub, grown) ↦
        rw (hub, grown, ← kept)
          (take_bucket-Evolves email limit i heap (λ e a h. valid e a (rw kept at h)))
  ]

  pub get_user_bucket-BucketsSeparate :
      (tag email ip : Str) (l : Limiter B G)
      → BucketsSeparate l
      → BucketsSeparate (get_user_bucket rate cache tag email ip l).0
  unfolding get_user_bucket
  get_user_bucket-BucketsSeparate tag email ip l inv =
      elim (Option-cases (load Str-discrete tag l.inbound_info)) [
        | inl absent ↦ rw (absent, get_user_bucket) inv
        | inr (info, here) ↦
            rw (here, get_user_bucket)
              (replaced-BucketsSeparate l tag info _ _ here
                (get_bucket-Evolves email ip info l.heap
                  (λ e a h. inv.allocated tag e a (ground arith)))
                inv)
      ]

  pub add_inbound_limiter-BucketsSeparate :
      (tag : Str) (limit : ℕ) (users : List Api.UserInfo) (c : Option GlobalDeviceLimitConfig)
      (l : Limiter B G)
      → BucketsSeparate l
      → BucketsSeparate (add_inbound_limiter cache tag limit users c l)
  unfolding add_inbound_limiter
  add_inbound_limiter-BucketsSeparate tag limit users c l =
      shrink-BucketsSeparate l _ refl (λ t e a h. ground (
        arith,
        load-store Str-discrete tag t (new_inbound cache tag limit users c) l.inbound_info,
        load-nil {V = ℕ} Str-discrete e,
      ))

module _ {B R G : Type 0} (rate : RateOps B R) where
  pub update_inbound_limiter-BucketsSeparate :
      (tag : Str) (users : List Api.UserInfo) (l : Limiter B G)
      → BucketsSeparate l
      → BucketsSeparate (update_inbound_limiter rate tag users l).0
  unfolding update_inbound_limiter
  update_inbound_limiter-BucketsSeparate tag users l inv =
      elim (Option-cases (load Str-discrete tag l.inbound_info)) [
        | inl absent ↦ rw (absent, update_inbound_limiter) inv
        | inr (info, here) ↦
            let k = update_users-Keeps rate tag users info l.heap in
            rw (here, update_inbound_limiter) (keep-BucketsSeparate l tag info _ _ here k.0 k.1 inv)
      ]

module _ {B G : Type 0} (tag : Str) (l : Limiter B G) (inv : BucketsSeparate l) where
  pub delete_inbound_limiter_users-BucketsSeparate :
      (users : List Api.UserInfo) → BucketsSeparate (delete_inbound_limiter_users tag users l).0
  unfolding delete_inbound_limiter_users
  delete_inbound_limiter_users-BucketsSeparate users =
      elim (Option-cases (load Str-discrete tag l.inbound_info)) [
        | inl absent ↦ rw (absent, delete_inbound_limiter_users) inv
        | inr (info, here) ↦
            rw (here, delete_inbound_limiter_users)
              (keep-BucketsSeparate l tag info _ _ here (delete_users-Keeps tag users info) refl
                inv)
      ]

  pub delete_inbound_limiter-BucketsSeparate : BucketsSeparate (delete_inbound_limiter tag l)
  unfolding delete_inbound_limiter
  delete_inbound_limiter-BucketsSeparate =
      shrink-BucketsSeparate l _ refl
        (λ t e a h. ground (arith, load-delete Str-discrete tag t l.inbound_info)) inv

  pub get_online_device-BucketsSeparate : BucketsSeparate (get_online_device tag l).0
  unfolding get_online_device
  get_online_device-BucketsSeparate = elim (Option-cases (load Str-discrete tag l.inbound_info)) [
    | inl absent ↦ rw (absent, get_online_device) inv
    | inr (info, here) ↦
        let cleared = clear_idle info.bucket_hub info in
        rw (here, get_online_device)
          (keep-BucketsSeparate l tag info _ _ here
            (λ e a h. clear_idle-Keeps info.bucket_hub info e a (
              ap (load Str-discrete e) (sym (drain_online-hub cleared.user_online_ip [] cleared))
              ∙ h))
            refl inv)
  ]

-- ===== src/Limiter/Buckets.antt =====
-- The buckets of the users: each has its own, and no operation makes two users share one.
pub mod Operations
use oldxr.Base.{
  ℕ, ◌≤◌, ◌<◌, ◌≡◌, refl, sym, ap, ◌∙◌, Option, none, some, List, [], ◌∷◌, length, arith,
  Option-cases, Bool-cases, inl, inr, length-append, length-set, ◌⊎◌, get_elem?,
}
use oldxr.Base.Dict.{Dict, load, store, delete, load-store_self, load-store, load-delete, load-nil}
use oldxr.Base.Text.{Str, Str-discrete}
use oldxr.Api
use oldxr.Api.{OnlineUser}
use oldxr.Base.Int.{ℤ, int_of_u64}
use oldxr.Limiter.Speed.{determine_rate}
use oldxr.Limiter.{GlobalDeviceLimitConfig, RateOps, CacheOps, InboundInfo, Limiter}
use oldxr.Limiter.Users.{
  key_of, retune, update_user, update_users, update_inbound_limiter, delete_users,
  delete_inbound_limiter_users, delete_inbound_limiter, new_inbound, add_inbound_limiter,
}
use oldxr.Limiter.Admit.{local_limit, take_bucket, get_bucket, get_user_bucket}
use oldxr.Limiter.Online.{clear_bucket, clear_idle, drain_online, get_online_device}
use oldxr.Limiter.Views.{local_limit_parts, check_global_parts}

abbrev hub_at : {G : Type 0} → Str → InboundInfo G → Option ℕ
hub_at email info = load Str-discrete email info.bucket_hub

-- The address of a user's bucket.
abbrev pub bucket_at : {B G : Type 0} → Str → Str → Limiter B G → Option ℕ
bucket_at tag email l = elim (load Str-discrete tag l.inbound_info) [
  | none ↦ none
  | some info ↦ hub_at email info
]

-- Every bucket is on the heap, and no two users have the same.
pub record BucketsSeparate {B G : Type 0} (l : Limiter B G) : Type 0 where
  pub allocated : (tag email : Str) (a : ℕ) → bucket_at tag email l ≡ some a → a < length l.heap
  pub unshared :
      (tag email tag' email' : Str) (a : ℕ)
      → bucket_at tag email l ≡ some a
      → bucket_at tag' email' l ≡ some a
      → (tag ≡ tag') × (email ≡ email')

-- What a step on one inbound may do to its buckets: keep some, and make new ones.
record Evolves {B : Type 0} (hub : Dict Str ℕ) (heap : List B) (hub' : Dict Str ℕ) (heap' : List B)
    : Type 0 where
  longer : length heap ≤ length heap'
  origin :
      (email : Str) (a : ℕ)
      → load Str-discrete email hub' ≡ some a
      → (load Str-discrete email hub ≡ some a) ⊎ ((length heap ≤ a) × (a < length heap'))
  distinct :
      (email email' : Str) (a : ℕ)
      → load Str-discrete email hub' ≡ some a
      → load Str-discrete email' hub' ≡ some a
      → length heap ≤ a
      → email ≡ email'

module _ {B G : Type 0} (l : Limiter B G) (tag : Str) (info info' : InboundInfo G)
    (heap' : List B) where
  abbrev replaced : Limiter B G
  replaced = record { inbound_info = store Str-discrete tag info' l.inbound_info; heap = heap' }

  bucket_origin :
      load Str-discrete tag l.inbound_info ≡ some info
      → Evolves info.bucket_hub l.heap info'.bucket_hub heap'
      → (tag' email : Str) (a : ℕ) → bucket_at tag' email replaced ≡ some a
      → (bucket_at tag' email l ≡ some a)
        ⊎ ((tag ≡ tag') × (length l.heap ≤ a) × (a < length heap'))
  bucket_origin here ev tag' email a h =
      ground (arith, load-store Str-discrete tag tag' info' l.inbound_info, ev.origin email a)

  bucket_at-replaced_self : (email : Str) → bucket_at tag email replaced ≡ hub_at email info'
  bucket_at-replaced_self email =
      ground (arith, load-store_self Str-discrete tag info' l.inbound_info)

  replaced-BucketsSeparate :
      load Str-discrete tag l.inbound_info ≡ some info
      → Evolves info.bucket_hub l.heap info'.bucket_hub heap'
      → BucketsSeparate l
      → BucketsSeparate replaced
  replaced-BucketsSeparate here ev inv = record {
    allocated =
        λ t e a h. ground (arith, bucket_origin here ev t e a, inv.allocated t e a, ev.longer);
    unshared = λ t e t' e' a h h'. ground (
      arith,
      bucket_origin here ev t e a,
      bucket_origin here ev t' e' a,
      inv.allocated t e a,
      inv.allocated t' e' a,
      inv.unshared t e t' e' a,
      ev.distinct e e' a,
      bucket_at-replaced_self e,
      bucket_at-replaced_self e',
    );
  }

-- No new bucket.
abbrev Keeps : {G : Type 0} → InboundInfo G → InboundInfo G → Type 0
Keeps info info' = (email : Str) (a : ℕ) → hub_at email info' ≡ some a → hub_at email info ≡ some a

module _ {B G : Type 0} where
  shrink-BucketsSeparate :
      (l l' : Limiter B G)
      → length l.heap ≡ length l'.heap
      → ((tag email : Str) (a : ℕ)
          → bucket_at tag email l' ≡ some a
          → bucket_at tag email l ≡ some a)
      → BucketsSeparate l
      → BucketsSeparate l'
  shrink-BucketsSeparate l l' same sub inv = record {
    allocated = λ t e a h. omega (arith, inv.allocated t e a (sub t e a h));
    unshared = λ t e t' e' a h h'. inv.unshared t e t' e' a (sub t e a h) (sub t' e' a h');
  }

  keep-BucketsSeparate :
      (l : Limiter B G) (tag : Str) (info info' : InboundInfo G) (heap' : List B)
      → load Str-discrete tag l.inbound_info ≡ some info
      → Keeps info info'
      → length l.heap ≡ length heap'
      → BucketsSeparate l
      → BucketsSeparate (replaced l tag info info' heap')
  keep-BucketsSeparate l tag info info' heap' here k same =
      shrink-BucketsSeparate l (replaced l tag info info' heap') same
        (λ t e a h. ground (arith, load-store Str-discrete tag t info' l.inbound_info, k e a))

-- ===== src/Limiter/Removal.antt =====
-- What is left of a user who is removed, and of one who is not.
use oldxr.Base.{◌≡◌, refl, ap, ◌≢◌, none, some, List, [], ◌∷◌, ◌⊎◌, inl, inr, Elem, All, arith}
use oldxr.Base.Dict.{load, load-delete, load-store_self}
use oldxr.Base.Text.{Str, Str-discrete}
use oldxr.Api
use oldxr.Limiter.{InboundInfo, Limiter}
use oldxr.Limiter.Users.{key_of, delete_user, delete_users, delete_inbound_limiter_users}

-- All that an inbound holds under a key.
abbrev pub Holds : {G : Type 0} → Str → InboundInfo G → InboundInfo G → Type 0
Holds email info info' =
    (load Str-discrete email info'.user_info ≡ load Str-discrete email info.user_info)
    × (load Str-discrete email info'.bucket_hub ≡ load Str-discrete email info.bucket_hub)
    × (load Str-discrete email info'.user_online_ip ≡ load Str-discrete email info.user_online_ip)

abbrev pub IsForgotten : {G : Type 0} → Str → InboundInfo G → Type 0
IsForgotten email info =
    (load Str-discrete email info.user_info ≡ none)
    × (load Str-discrete email info.bucket_hub ≡ none)
    × (load Str-discrete email info.user_online_ip ≡ none)

module _ {G : Type 0} (tag : Str) where
  delete_user-IsForgotten :
      (u : Api.UserInfo) (email : Str) (info : InboundInfo G)
      → (key_of tag u ≡ email) ⊎ IsForgotten email info
      → IsForgotten email (delete_user tag u info)
  unfolding delete_user
  delete_user-IsForgotten u email info h = ground (
    arith,
    load-delete Str-discrete (key_of tag u) email info.user_info,
    load-delete Str-discrete (key_of tag u) email info.bucket_hub,
    load-delete Str-discrete (key_of tag u) email info.user_online_ip,
  )

  delete_users-IsForgotten :
      (us : List Api.UserInfo) (u : Api.UserInfo) (info : InboundInfo G)
      → Elem u us ⊎ IsForgotten (key_of tag u) info
      → IsForgotten (key_of tag u) (delete_users tag us info)
  unfolding delete_users
  delete_users-IsForgotten [] u info (inl h) = absurd h
  delete_users-IsForgotten [] u info (inr h) = h
  delete_users-IsForgotten (v ∷ us) u info (inl (inl e)) =
      delete_users-IsForgotten us u (delete_user tag v info)
        (inr (delete_user-IsForgotten v (key_of tag u) info (inl (ap (key_of tag) e))))
  delete_users-IsForgotten (v ∷ us) u info (inl (inr m)) =
      delete_users-IsForgotten us u (delete_user tag v info) (inl m)
  delete_users-IsForgotten (v ∷ us) u info (inr h) =
      delete_users-IsForgotten us u (delete_user tag v info)
        (inr (delete_user-IsForgotten v (key_of tag u) info (inr h)))

  delete_users-Holds :
      (us : List Api.UserInfo) (email : Str) (info : InboundInfo G)
      → All (λ u. key_of tag u ≢ email) us
      → Holds email info (delete_users tag us info)
  unfolding delete_users delete_user
  delete_users-Holds [] email info h = (refl, refl, refl)
  delete_users-Holds (u ∷ us) email info h = ground (
    arith,
    delete_users-Holds us email (delete_user tag u info) h.1,
    load-delete Str-discrete (key_of tag u) email info.user_info,
    load-delete Str-discrete (key_of tag u) email info.bucket_hub,
    load-delete Str-discrete (key_of tag u) email info.user_online_ip,
  )

module _ {B G : Type 0} (tag : Str) (l : Limiter B G) {info : InboundInfo G} where
  -- Deleting users of an inbound that is there succeeds: nothing is left under the key of a
  -- deleted user, no limits, bucket or devices, and a key that is none of theirs keeps all three.
  pub deleted_users-IsForgotten :
      (us : List Api.UserInfo) (u : Api.UserInfo) (email : Str)
      → load Str-discrete tag l.inbound_info ≡ some info
      → Elem u us
      → All (λ v. key_of tag v ≢ email) us
      → let (l', err) = delete_inbound_limiter_users tag us l in
        (err ≡ none)
        × ((info' : InboundInfo G) × (load Str-discrete tag l'.inbound_info ≡ some info')
            × IsForgotten (key_of tag u) info'
            × Holds email info info')
  unfolding delete_inbound_limiter_users
  deleted_users-IsForgotten us u email here m others =
      rw (here, delete_inbound_limiter_users)
        (
          refl,
          (
            delete_users tag us info,
            load-store_self Str-discrete tag _ l.inbound_info,
            delete_users-IsForgotten tag us u info (inl m),
            delete_users-Holds tag us email info others,
          ),
        )

-- ===== src/Controller/SpeedLimits/Releases.antt =====
-- A user whose time is over gets the limits back that she had when she was limited.
use oldxr.Base.{
  ◌≢◌, ap, if◌then◌else◌, ◌⊎◌, All, ℕ, ◌≡◌, refl, true, none, some, List, [], ◌∷◌, arith,
  Bool-cases, inl, inr,
}
use oldxr.Base.Int.{is_positive}
use oldxr.Base.Dict.{Dict, load, delete, load-delete}
use oldxr.Base.Text.{Str, Str-discrete}
use oldxr.Api.{UserInfo, UserInfo-discrete}
use oldxr.Limiter.Users.{key_of, limits_of}
use oldxr.Controller.{Environment, Controller}
use oldxr.Controller.Keys.{find_key}
use oldxr.Controller.Serving.{limits_at, has_inbound, limits_at-update}
use oldxr.Controller.SpeedLimits.{LimitInfo, release_users, is_above, is_due}
use oldxr.Controller.Reporting.{ReportEnvironment, Monitored, update_some, unlock_users}

-- The entry is the only one with its key.
abbrev pub IsOnlyWithKey : Str → UserInfo × LimitInfo → UserInfo × LimitInfo → Type 0
IsOnlyWithKey tag entry other = key_of tag other.0 ≡ key_of tag entry.0 → other ≡ entry

abbrev pub released_as : UserInfo × LimitInfo → UserInfo
released_as (user, info) = record user { speed_limit = info.origin_speed_limit }

module _ (tag : Str) (now : ℕ) (user : UserInfo) (info : LimitInfo) where
  -- The entries that are left when one has been looked at.
  abbrev left_after : UserInfo × LimitInfo → Dict UserInfo LimitInfo → Dict UserInfo LimitInfo
  left_after entry limited =
      if is_due now limited entry
      then delete UserInfo-discrete (released_as entry) limited
      else limited

  -- Whoever is found under the key is this user.
  release_users-key :
      (entries limited : Dict UserInfo LimitInfo)
      → All (IsOnlyWithKey tag (user, info)) entries
      → (find_key tag (key_of tag user) (release_users now entries limited).1 ≡ none)
        ⊎ (find_key tag (key_of tag user) (release_users now entries limited).1
            ≡ some (released_as (user, info)))
  unfolding release_users find_key
  release_users-key [] limited only = inl refl
  release_users-key ((u, i) ∷ entries) limited (first, only) =
      let later = release_users-key entries (left_after (u, i) limited) only in
      elim (Bool-cases (is_due now limited (u, i))) [
        | inr kept ↦ elim later [
          | inl e ↦ inl (ground (arith, e, kept))
          | inr e ↦ inr (ground (arith, e, kept))
        ]
        | inl released ↦ elim later [
          | inr e ↦ inr (ground (arith, e, released))
          | inl e ↦ elim (Str-discrete (key_of tag u) (key_of tag user)) [
            | yes same ↦
                let it : (u, i) ≡ (user, info) = first same in
                inr (ground (arith, e, released, same, it))
            | no other ↦ inl (ground (arith, e, released, other))
          ]
        ]
      ]

  -- Another user's turn leaves the entry.
  left_after-load :
      (u : UserInfo) (i : LimitInfo) (limited : Dict UserInfo LimitInfo)
      → key_of tag u ≢ key_of tag user
      → load UserInfo-discrete user limited ≢ none
      → load UserInfo-discrete user (left_after (u, i) limited) ≢ none
  left_after-load u i limited other here =
      let away : released_as (u, i) ≢ user = λ same. other (ap (key_of tag) same) in
      elim (Bool-cases (is_due now limited (u, i))) [
        | inl e ↦
            ground (
              arith,
              e,
              here,
              away,
              load-delete UserInfo-discrete (released_as (u, i)) user limited,
            )
        | inr e ↦ ground (arith, e, here)
      ]

  release_users-find_key :
      (entries limited : Dict UserInfo LimitInfo)
      → All (IsOnlyWithKey tag (user, info)) entries
      → load UserInfo-discrete user entries ≡ some info
      → load UserInfo-discrete user limited ≢ none
      → is_above now info.end_time ≡ true
      → find_key tag (key_of tag user) (release_users now entries limited).1
        ≡ some (released_as (user, info))
  unfolding release_users find_key load is_due
  release_users-find_key [] limited only h here over = ground arith
  release_users-find_key ((u, i) ∷ entries) limited (first, only) h here over =
      let later = left_after (u, i) limited in
      elim (Str-discrete (key_of tag u) (key_of tag user)) [
        | yes same ↦
            let it : (u, i) ≡ (user, info) = first same in
            let due : is_due now limited (u, i) ≡ true = ground (arith, here, over, it) in
            elim (release_users-key entries later only) [
              | inl e ↦ ground (arith, e, due, same, it)
              | inr e ↦ ground (arith, e, due, same, it)
            ]
        | no other ↦
            let rest =
              release_users-find_key entries later only (ground (arith, h, other))
                (left_after-load u i limited other here) over in
            elim (Bool-cases (is_due now limited (u, i))) [
              | inl e ↦ ground (arith, other, rest, e)
              | inr e ↦ ground (arith, other, rest, e)
            ]
      ]

module _ {X C O H I M V B R G P K A T N S : Type 0} (env : Environment X C O H I M V B R G P K)
    (round : ReportEnvironment A T N K S) where
  update_some-limits_at :
      (tag email : Str) (us : List UserInfo) (v : UserInfo) (c : Controller X B G P S K)
      → tag ≡ c.tag
      → has_inbound tag c.limiter ≡ true
      → find_key tag email us ≡ some v
      → limits_at tag email (update_some env us c).limiter ≡ some (limits_of v)
  unfolding update_some find_key
  update_some-limits_at tag email [] v c same inbound found = ground arith
  update_some-limits_at tag email (u ∷ us) v c same inbound found =
      let updated = limits_at-update tag email env.rate (u ∷ us) c.limiter inbound in
      ground (arith, same, found, updated)

  -- Where the speed limit is on and the tag has an inbound: a user whose time is over, and who is
  -- the only limited one with her key, has in the limiter, after the release, the limits of the
  -- time when she was limited, whatever limits she had by now, and whether or not she is still on
  -- the list.
  pub released_limits :
      (now : ℕ) (m : Monitored X B G P S K T) (user : UserInfo) (info : LimitInfo)
      → is_positive round.auto_speed_limit.limit ≡ true
      → has_inbound m.controller.tag m.controller.limiter ≡ true
      → All (IsOnlyWithKey m.controller.tag (user, info)) m.speed_limits.limited_users
      → load UserInfo-discrete user m.speed_limits.limited_users ≡ some info
      → is_above now info.end_time ≡ true
      → limits_at m.controller.tag
          (key_of m.controller.tag user)
          (unlock_users env round now m).controller.limiter
        ≡ some (limits_of (released_as (user, info)))
  unfolding unlock_users
  released_limits now m user info enabled inbound only limited over =
      let tag = m.controller.tag in
      let found =
        release_users-find_key tag now user info m.speed_limits.limited_users
          m.speed_limits.limited_users only limited (λ gone. ground arith) over in
      let (kept, released) =
        release_users now m.speed_limits.limited_users m.speed_limits.limited_users in
      let updated =
        update_some-limits_at tag (key_of tag user) released (released_as (user, info)) m.controller
          refl inbound found in
      ground (arith, enabled, updated)

-- ===== src/Controller/Reporting/Samples.antt =====
-- The traffic of a round: the speed limits do not touch it, and a report that fails loses none.
use mathlib.Core.Option
use mathlib.Core.Option.{some-injective}
use oldxr.Base.{
  ℕ, ◌≡◌, refl, true, Option, none, some, List, [], ◌∷◌, ◌++◌, arith, Option-cases, inl, inr,
}
use oldxr.Base.Text.{Str}
use oldxr.Api.{UserInfo}
use mathlib.Core.List.{append-nil}
use oldxr.Limiter.Users.{key_of}
use oldxr.Traffic.{
  StatsOps, Batch, RetiringUser, is_at_most_0, drain_traffic_counter, drain_traffic,
  append_user_traffic, collect_user, collect_users, delta_value, delta_list, uplink_name,
}
use oldxr.Controller.SpeedLimits.{AutoSpeedLimitConfig}
use oldxr.Controller.Reporting.{Limiting, collect_current_user, collect_current_users}

-- The users of the list, as the loop over the retiring users knows them.
abbrev pub as_retiring : Str → List UserInfo → List RetiringUser
as_retiring tag [] = []
as_retiring tag (u ∷ us) = record { tag = tag; user = u } ∷ as_retiring tag us

-- What a round samples, without its speed limits.
abbrev pub samples_of : {A T : Type 0} → Option ((T × Batch A) × Limiting) → Option (T × Batch A)
samples_of o = Option.map (λ s. s.0) o

module _ {A T : Type 0} (stats : StatsOps A T) where
  -- What is not positive leaves nothing to restore.
  drain_traffic_counter-nothing :
      (counter : Option A) (t : T)
      → is_at_most_0 (delta_value stats (drain_traffic_counter stats counter t).1) ≡ true
      → delta_list stats (drain_traffic_counter stats counter t).1 ≡ []
  unfolding drain_traffic_counter
  drain_traffic_counter-nothing none t h = refl
  drain_traffic_counter-nothing (some a) t h = ground arith

  drain_traffic-nothing :
      (email : Str) (t : T)
      → is_at_most_0 (drain_traffic stats email t).1.0 ≡ true
      → is_at_most_0 (drain_traffic stats email t).1.1 ≡ true
      → (drain_traffic stats email t).1.2 ≡ []
  unfolding drain_traffic
  drain_traffic-nothing email t h k =
      let up = stats.get_counter (uplink_name email) t in
      ground (arith, drain_traffic_counter-nothing up t h, drain_traffic_counter-nothing _ _ k)

  module _ (config : AutoSpeedLimitConfig) (period now : ℕ) (tag : Str) where
    collect_current_user-samples :
        (u : UserInfo) (s : T × Batch A) (l : Limiting)
        → samples_of (collect_current_user stats config period now tag u (s, l))
          ≡ collect_user stats (record { tag = tag; user = u }) s
    unfolding collect_current_user collect_user append_user_traffic
    collect_current_user-samples u (t, b) l =
        let d = drain_traffic stats (key_of tag u) t in
        ground (arith, drain_traffic-nothing (key_of tag u) t, append-nil b.deltas)

    -- The samples of the users are those that the loop over the retiring users would take of them.
    pub collect_current_users-samples :
        (us : List UserInfo) (s : T × Batch A) (l : Limiting)
        → samples_of (collect_current_users stats config period now tag us (s, l))
          ≡ collect_users stats (as_retiring tag us) s
    unfolding collect_current_users collect_users
    collect_current_users-samples [] s l = refl
    collect_current_users-samples (u ∷ us) s l =
        elim (Option-cases (collect_current_user stats config period now tag u (s, l))) [
          | inl e ↦ ground (arith, e, collect_current_user-samples u s l)
          | inr ((s', l'), e) ↦
              ground (
                arith,
                e,
                collect_current_user-samples u s l,
                collect_current_users-samples us s' l',
              )
        ]

  pub collect_users-append :
      (us vs : List RetiringUser) (s : T × Batch A)
      → collect_users stats (us ++ vs) s
        ≡ (elim (collect_users stats us s) [ none ↦ none | some s' ↦ collect_users stats vs s' ])
  unfolding collect_users
  collect_users-append [] vs s = refl
  collect_users-append (u ∷ us) vs s = elim (Option-cases (collect_user stats u s)) [
    | inl e ↦ ground (arith, e)
    | inr (s', e) ↦ ground (arith, e, collect_users-append us vs s')
  ]

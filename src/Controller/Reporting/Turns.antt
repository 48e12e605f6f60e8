-- ===== src/Controller/Reporting/Turns.antt =====
-- Rounds of the monitor on end: when a user of the list is limited.
use oldxr.Base.{
  ap, subst, sym, ◌∙◌, ◌≢◌, ℕ, suc, ◌<◌, ◌≤◌, ◌≡◌, refl, Bool, true, false, ◌||◌, ◌&&◌, not, some,
  List, [], ◌∷◌, ◌++◌, arith, Bool-cases, Option-cases, inl, inr, All, if◌then◌else◌,
}
use mathlib.Core.List.{append-nil}
use mathlib.Core.Option.{some-injective}
use oldxr.Base.Int.{pos, is_positive}
use oldxr.Base.Text.{Str}
use oldxr.Api.{UserInfo}
use oldxr.Limiter.Users.{key_of}
use oldxr.Traffic.{StatsOps, Batch, is_at_most_0, drain_traffic}
use oldxr.Controller.SpeedLimits.{AutoSpeedLimitConfig, SpeedLimits, check_speed, clear_warning}
use oldxr.Controller.SpeedLimits.Warnings.{
  is_limited, SameFor, IsWarned, SameFor-IsWarned, SameFor-is_limited, clear_warning-IsWarned,
  is_over, clear_warning-SameFor, check_speed-SameFor, checked_over, over-IsWarned, below-IsWarned,
}
use oldxr.Controller.Reporting.{Limiting, collect_current_user, collect_current_users}

module _ {A T : Type 0} (stats : StatsOps A T) (tag : Str) where
  -- The counters when the users have had their turn.
  abbrev pub drained_by : List UserInfo → T → T
  drained_by [] t = t
  drained_by (u ∷ us) t = drained_by us (drain_traffic stats (key_of tag u) t).0

module _ {A T : Type 0} (stats : StatsOps A T) (config : AutoSpeedLimitConfig) (period now : ℕ)
    (tag : Str) where
  abbrev has_traffic : UserInfo → T → Bool
  has_traffic user t =
      let (up, down, deltas) = (drain_traffic stats (key_of tag user) t).1 in
      not (is_at_most_0 up) || not (is_at_most_0 down)

  -- Whether the counters have traffic of the user, and above the allowance.
  abbrev pub exceeds : UserInfo → T → Bool
  exceeds user t =
      let (up, down, deltas) = (drain_traffic stats (key_of tag user) t).1 in
      has_traffic user t && is_over config period now up down

  -- The limits that a user's turn leaves.
  abbrev turned : UserInfo → T → Limiting → SpeedLimits
  turned user t limiting =
      let (up, down, deltas) = (drain_traffic stats (key_of tag user) t).1 in
      if has_traffic user t
      then (check_speed config period now user up down limiting).0
      else clear_warning user limiting.0

  turn :
      (user : UserInfo) (t : T) (b : Batch A) (limiting : Limiting) (s : (T × Batch A) × Limiting)
      → collect_current_user stats config period now tag user ((t, b), limiting) ≡ some s
      → (s.0.0 ≡ (drain_traffic stats (key_of tag user) t).0) × (s.1.0 ≡ turned user t limiting)
  unfolding collect_current_user
  turn user t b limiting s h = elim (Bool-cases (has_traffic user t)) [
    | inl e ↦ (ground (arith, e, h), ground (arith, e, h))
    | inr e ↦ (ground (arith, e, h), ground (arith, e, h))
  ]

  turned-SameFor :
      (user other : UserInfo) (t : T) (l : SpeedLimits) (silent : List UserInfo)
      → other ≢ user
      → SameFor user l (turned other t (l, silent))
  turned-SameFor user other t l silent ne =
      let (up, down, deltas) = (drain_traffic stats (key_of tag other) t).1 in
      let checked = check_speed-SameFor config period now up down user other l silent ne in
      let cleared = clear_warning-SameFor config period now up down user other l ne in
      elim (Bool-cases (has_traffic other t)) [
        | inl e ↦ (ground (arith, e, checked.0), ground (arith, e, checked.1))
        | inr e ↦ (ground (arith, e, cleared.0), ground (arith, e, cleared.1))
      ]

  -- The turns of the users before leave the user's limits, and then it is her turn.
  record Reached (user : UserInfo) (t : T) (l : SpeedLimits) (after : List UserInfo)
      (s : (T × Batch A) × Limiting) : Type 0 where
    b1 : Batch A
    l1 : SpeedLimits
    silent1 : List UserInfo
    same : SameFor user l l1
    rest : collect_current_users stats config period now tag after ((t, b1), (l1, silent1)) ≡ some s

  reach :
      (user : UserInfo) (before after : List UserInfo) (t : T) (b : Batch A) (l : SpeedLimits)
      (silent : List UserInfo) (s : (T × Batch A) × Limiting)
      → All (λ v. v ≢ user) before
      → collect_current_users stats config period now tag (before ++ after) ((t, b), (l, silent))
        ≡ some s
      → Reached user (drained_by stats tag before t) l after s
  unfolding collect_current_users
  reach user [] after t b l silent s others h = record {
    b1 = b;
    l1 = l;
    silent1 = silent;
    same = (refl, refl);
    rest = h;
  }
  reach user (v ∷ vs) after t b l silent s (other, others) h =
      elim (Option-cases
        (collect_current_user stats config period now tag v ((t, b), (l, silent)))) [
          | inl e ↦ absurd (ground (arith, e, h))
          | inr (((t1, b1), (l1, silent1)), e) ↦
              let (counters, limits) = turn v t b (l, silent) ((t1, b1), (l1, silent1)) e in
              let next : collect_current_users stats config period now tag (vs ++ after)
                    ((t1, b1), (l1, silent1))
                  ≡ some s =
                ground (arith, e, h) in
              let r = reach user vs after t1 b1 l1 silent1 s others next in
              let first : SameFor user l l1 =
                subst (SameFor user l) (sym limits) (turned-SameFor user v t l silent other) in
              let here : drained_by stats tag vs t1 ≡ drained_by stats tag (v ∷ vs) t =
                ap (drained_by stats tag vs) counters in
              record {
                b1 = r.b1;
                l1 = r.l1;
                silent1 = r.silent1;
                same = (r.same.0 ∙ first.0, r.same.1 ∙ first.1);
                rest =
                    subst
                      (λ x.
                        collect_current_users stats config period now tag after
                          ((x, r.b1), (r.l1, r.silent1))
                        ≡ some s)
                      here r.rest;
              }
        ]

  module _ (user : UserInfo) (warnings : ℕ) (set : config.warn_times ≡ pos warnings)
      (enabled : is_positive config.limit ≡ true) where
    -- After a turn of a user with `k` warnings, who was over or not.
    abbrev pub Judged : Bool → ℕ → SpeedLimits → Type 0
    Judged over k l =
        (over ≡ false → IsWarned user 0 l)
        × (over ≡ true → k < warnings → IsWarned user (suc k) l)
        × (over ≡ true → warnings ≤ k → is_limited user l ≡ true)

    own_turn :
        (k : ℕ) (t : T) (l : SpeedLimits) (silent : List UserInfo)
        → IsWarned user k l
        → Judged (exceeds user t) k (turned user t (l, silent))
    own_turn k t l silent w =
        let (up, down, deltas) = (drain_traffic stats (key_of tag user) t).1 in
        let P = λ (over : Bool). Judged (over && is_over config period now up down) k (
          if over
          then (check_speed config period now user up down (l, silent)).0
          else clear_warning user l) in
        elim (Bool-cases (has_traffic user t)) [
          | inl e ↦ subst P (sym e) (
            λ below.
                below-IsWarned config period now up down user warnings set enabled k l silent below
                  w,
            λ over lt.
                over-IsWarned config period now up down user warnings set enabled k l silent over w
                  lt,
            λ over ge.
                checked_over config period now up down user warnings set enabled k l silent over w
                  ge,
          )
          | inr e ↦ subst P (sym e) (
            λ below. clear_warning-IsWarned user k l w,
            λ over lt. absurd (ground arith),
            λ over ge. absurd (ground arith),
          )
        ]

    Judged-SameFor :
        (over : Bool) (k : ℕ) (l l' : SpeedLimits)
        → SameFor user l l'
        → Judged over k l
        → Judged over k l'
    Judged-SameFor over k l l' same (below, warn, limit) = (
      λ e. SameFor-IsWarned user 0 l l' same (below e),
      λ e lt. SameFor-IsWarned user (suc k) l l' same (warn e lt),
      λ e ge. SameFor-is_limited user l l' same ∙ limit e ge,
    )

    pub collect_current_users-Judged :
        (before after : List UserInfo) (k : ℕ) (t : T) (b : Batch A) (l : SpeedLimits)
        (silent : List UserInfo) (s : (T × Batch A) × Limiting)
        → All (λ v. v ≢ user) before
        → All (λ v. v ≢ user) after
        → IsWarned user k l
        → collect_current_users stats config period now tag
            (before ++ user ∷ after)
            ((t, b), (l, silent))
          ≡ some s
        → Judged (exceeds user (drained_by stats tag before t)) k s.1.0
    unfolding collect_current_users
    collect_current_users-Judged before after k t b l silent s others others' w h =
        let t1 = drained_by stats tag before t in
        let r = reach user before (user ∷ after) t b l silent s others h in
        let w1 = SameFor-IsWarned user k l r.l1 r.same w in
        elim (Option-cases
          (collect_current_user stats config period now tag user ((t1, r.b1), (r.l1, r.silent1)))) [
            | inl e ↦ absurd (ground (arith, e, r.rest))
            | inr (((t2, b2), (l2, silent2)), e) ↦
                let (counters, limits) =
                  turn user t1 r.b1 (r.l1, r.silent1) ((t2, b2), (l2, silent2)) e in
                let judged : Judged (exceeds user t1) k l2 =
                  subst (Judged (exceeds user t1) k) (sym limits)
                    (own_turn k t1 r.l1 r.silent1 w1) in
                let next : collect_current_users stats config period now tag (after ++ [])
                      ((t2, b2), (l2, silent2))
                    ≡ some s =
                  ap
                    (λ us.
                      collect_current_users stats config period now tag us
                        ((t2, b2), (l2, silent2)))
                    (append-nil after)
                  ∙ ground (arith, e, r.rest) in
                let q = reach user after [] t2 b2 l2 silent2 s others' next in
                let last = some-injective _ _ q.rest in
                let same : SameFor user l2 s.1.0 =
                  subst (λ x. SameFor user l2 x) (ap (λ x. x.1.0) last) q.same in
                Judged-SameFor (exceeds user t1) k l2 s.1.0 same judged
          ]

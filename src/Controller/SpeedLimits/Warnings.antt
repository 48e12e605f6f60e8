-- ===== src/Controller/SpeedLimits/Warnings.antt =====
-- The warnings of a user: what her own turn and the turns of the others do to them.
use oldxr.Base.{
  ◌≢◌, ◌∙◌, ap, ℕ, ◌<◌, ◌≤◌, zero, suc, ◌≡◌, refl, Bool, true, false, ◌||◌, Option, none, some,
  List, [], ◌∷◌, ltb, arith, if◌then◌else◌,
}
use oldxr.Base.Int.{ℤ, pos, is_positive}
use oldxr.Base.Dict.{load, store, load-store_self, load-delete_self, load-store_ne, load-delete_ne}
use oldxr.Api.{UserInfo, UserInfo-discrete}
use oldxr.Controller.SpeedLimits.{
  AutoSpeedLimitConfig, SpeedLimits, is_above, allowance, limit_user, clear_warning, warn_user,
  check_speed, one_more,
}

-- The true ones at the head, and the most on end.
unfoldable pub streak : List Bool → ℕ
streak [] = 0
streak (true ∷ bs) = suc (streak bs)
streak (false ∷ bs) = 0

unfoldable pub longest : List Bool → ℕ
unfolding streak
longest [] = 0
longest (b ∷ bs) = if ltb (longest bs) (streak (b ∷ bs)) then streak (b ∷ bs) else longest bs

pub streak-le-longest : (bs : List Bool) → streak bs ≤ longest bs
unfolding streak longest
streak-le-longest [] = omega arith
streak-le-longest (true ∷ bs) = ground arith
streak-le-longest (false ∷ bs) = ground arith

abbrev pub is_limited : UserInfo → SpeedLimits → Bool
is_limited user l = elim (load UserInfo-discrete user l.limited_users) [
  | some info ↦ true
  | none ↦ false
]

-- The warnings are counted from 1.
abbrev pub count : ℕ → Option ℤ
count zero = none
count (suc k) = some (pos (suc k))

one_more-count : (k : ℕ) → one_more (count k) ≡ pos (suc k)
one_more-count zero = refl
one_more-count (suc k) = ap pos (omega arith)

limit_user-is_limited :
    (config : AutoSpeedLimitConfig) (now : ℕ) (user : UserInfo) (l : SpeedLimits)
    (us : List UserInfo)
    → is_limited user (limit_user config now user (l, us)).0 ≡ true
unfolding limit_user
limit_user-is_limited config now user l us =
    ap (λ o. elim o [ some info ↦ true | none ↦ false ])
      (load-store_self UserInfo-discrete user _ l.limited_users)

abbrev pub SameFor : UserInfo → SpeedLimits → SpeedLimits → Type 0
SameFor user l l' =
    (load UserInfo-discrete user l'.limited_users ≡ load UserInfo-discrete user l.limited_users)
    × (load UserInfo-discrete user l'.warned_users ≡ load UserInfo-discrete user l.warned_users)

-- The user is not limited, and has been warned `k` times.
abbrev pub IsWarned : UserInfo → ℕ → SpeedLimits → Type 0
IsWarned user k l =
    (is_limited user l ≡ false) × (load UserInfo-discrete user l.warned_users ≡ count k)

pub SameFor-IsWarned :
    (user : UserInfo) (k : ℕ) (l l' : SpeedLimits)
    → SameFor user l l'
    → IsWarned user k l
    → IsWarned user k l'
SameFor-IsWarned user k l l' (limited, warned) (free, w) =
    (ground (arith, limited, free), warned ∙ w)

pub SameFor-is_limited :
    (user : UserInfo) (l l' : SpeedLimits)
    → SameFor user l l'
    → is_limited user l' ≡ is_limited user l
SameFor-is_limited user l l' (limited, warned) = ground (arith, limited)

pub clear_warning-IsWarned :
    (user : UserInfo) (k : ℕ) (l : SpeedLimits)
    → IsWarned user k l
    → IsWarned user 0 (clear_warning user l)
unfolding clear_warning
clear_warning-IsWarned user k l (free, warned) =
    (free, load-delete_self UserInfo-discrete user l.warned_users)

module _ (config : AutoSpeedLimitConfig) (period now up down : ℕ) where
  -- Traffic, up or down, above the allowance.
  abbrev pub is_over : Bool
  is_over = is_above down (allowance config period) || is_above up (allowance config period)

  -- The turn of another user.
  pub clear_warning-SameFor :
      (user other : UserInfo) (l : SpeedLimits)
      → other ≢ user
      → SameFor user l (clear_warning other l)
  unfolding clear_warning
  clear_warning-SameFor user other l ne =
      (refl, load-delete_ne UserInfo-discrete other user l.warned_users ne)

  limit_user-SameFor :
      (user other : UserInfo) (l : SpeedLimits) (us : List UserInfo)
      → other ≢ user
      → SameFor user l (limit_user config now other (l, us)).0
  unfolding limit_user
  limit_user-SameFor user other l us ne =
      (load-store_ne UserInfo-discrete other user _ l.limited_users ne, refl)

  warn_user-SameFor :
      (user other : UserInfo) (l : SpeedLimits) (us : List UserInfo)
      → other ≢ user
      → SameFor user l (warn_user config now other (l, us)).0
  unfolding warn_user
  warn_user-SameFor user other l us ne =
      let count = one_more (load UserInfo-discrete other l.warned_users) in
      let next = record l { warned_users = store UserInfo-discrete other count l.warned_users } in
      let counted = load-store_ne UserInfo-discrete other user count l.warned_users ne in
      let limited = limit_user-SameFor user other l us ne in
      let limited' = limit_user-SameFor user other next us ne in
      let cleared =
        clear_warning-SameFor user other (limit_user config now other (next, us)).0 ne in
      (
        ground (arith, limited.0, limited'.0, cleared.0),
        ground (arith, counted, limited.1, limited'.1, cleared.1),
      )

  pub check_speed-SameFor :
      (user other : UserInfo) (l : SpeedLimits) (us : List UserInfo)
      → other ≢ user
      → SameFor user l (check_speed config period now other up down (l, us)).0
  unfolding check_speed
  check_speed-SameFor user other l us ne =
      let warned = warn_user-SameFor user other l us ne in
      let cleared = clear_warning-SameFor user other l ne in
      (ground (arith, warned.0, cleared.0), ground (arith, warned.1, cleared.1))

  module _ (user : UserInfo) (warnings : ℕ) (set : config.warn_times ≡ pos warnings)
      (enabled : is_positive config.limit ≡ true) where
    over_warns :
        (l : SpeedLimits) (us : List UserInfo)
        → is_over ≡ true
        → check_speed config period now user up down (l, us) ≡ warn_user config now user (l, us)
    unfolding check_speed
    over_warns l us over = ground arith

    pub checked_over :
        (k : ℕ) (l : SpeedLimits) (us : List UserInfo)
        → is_over ≡ true
        → IsWarned user k l
        → warnings ≤ k
        → is_limited user (check_speed config period now user up down (l, us)).0 ≡ true
    unfolding warn_user clear_warning
    checked_over k l us over (free, warned) h =
        let next = record l {
          warned_users = store UserInfo-discrete user (pos (suc k)) l.warned_users;
        } in
        ground (
          arith,
          over_warns l us over,
          set,
          one_more-count k,
          limit_user-is_limited config now user l us,
          limit_user-is_limited config now user next us,
        )

    pub over-IsWarned :
        (k : ℕ) (l : SpeedLimits) (us : List UserInfo)
        → is_over ≡ true
        → IsWarned user k l
        → k < warnings
        → IsWarned user (suc k) (check_speed config period now user up down (l, us)).0
    unfolding warn_user
    over-IsWarned k l us over (free, warned) h = (
      ground (arith, over_warns l us over, set, one_more-count k),
      ground (
        arith,
        over_warns l us over,
        set,
        one_more-count k,
        load-store_self UserInfo-discrete user (pos (suc k)) l.warned_users,
      ),
    )

    pub below-IsWarned :
        (k : ℕ) (l : SpeedLimits) (us : List UserInfo)
        → is_over ≡ false
        → IsWarned user k l
        → IsWarned user 0 (check_speed config period now user up down (l, us)).0
    unfolding check_speed clear_warning
    below-IsWarned k l us below (free, warned) =
        (ground arith, ground (arith, load-delete_self UserInfo-discrete user l.warned_users))

-- ===== src/Controller/SpeedLimits.antt =====
-- The automatic speed limit of service/controller/controller.go: `limitUser`, and the parts of
-- `userInfoMonitor` that warn, limit and release users.
--
-- The times are int64 seconds, as words. The clock is read once in a round.
pub mod Warnings
pub mod Releases
use oldxr.Base.{
  ℕ, ◌+◌, ◌-◌, ◌*◌, ◌/◌, ◌%◌, ◌^◌, Bool, true, false, ◌||◌, not, Option, none, some, List, [], ◌∷◌,
  ◌++◌, ltb, ◌==◌, if◌then◌else◌, holds,
}
use oldxr.Base.Int.{ℤ, pos, negsuc, ℤ_discrete, int_of_u64, leb_ℤ, is_positive, to_word, quot_word}
use oldxr.Base.Dict.{Dict, load, store, delete}
use oldxr.Api.{UserInfo, UserInfo-discrete}

-- In Mbps and minutes.
pub record AutoSpeedLimitConfig : Type 0 where
  pub limit : ℤ
  pub warn_times : ℤ
  pub limit_speed : ℤ
  pub limit_duration : ℤ

pub record LimitInfo : Type 0 where
  pub end_time : ℕ
  pub current_speed_limit : ℤ
  pub origin_speed_limit : ℕ  -- uint64

-- `limitedUsers` and `warnedUsers`: a nil map, where the limit is off, is only read and deleted
-- from, so it is an empty one.
pub record SpeedLimits : Type 0 where
  pub limited_users : Dict UserInfo LimitInfo
  pub warned_users : Dict UserInfo ℤ

-- `>` of two int64 words.
unfoldable pub is_above : ℕ → ℕ → Bool
is_above x y = not (leb_ℤ (int_of_u64 x) (int_of_u64 y))

-- `x * 1000000 / 8` of an int, which wraps.
unfoldable pub bytes_per_second : ℤ → ℕ
bytes_per_second x = quot_word (to_word x * 1000000 % 2 ^ 64) 8

-- `AutoSpeedLimit*1000000*UpdatePeriodic/8`: the bytes of a period at the limit.
unfoldable pub allowance : AutoSpeedLimitConfig → ℕ → ℕ
allowance config period =
    let per_second = to_word config.limit * 1000000 % 2 ^ 64 in
    quot_word (per_second * period % 2 ^ 64) 8

unfoldable pub limit_user :
    AutoSpeedLimitConfig → ℕ → UserInfo → SpeedLimits × List UserInfo → SpeedLimits × List UserInfo
unfolding bytes_per_second
limit_user config now user (l, silent_users) =
    let info : LimitInfo = record {
      end_time = (now + to_word config.limit_duration * 60) % 2 ^ 64;
      current_speed_limit = config.limit_speed;
      origin_speed_limit = user.speed_limit;
    } in
    (
      record l { limited_users = store UserInfo-discrete user info l.limited_users },
      silent_users ++ record user { speed_limit = bytes_per_second config.limit_speed } ∷ [],
    )

-- `c.warnedUsers[user] += 1`; the count stays far below 2 ^ 63.
abbrev pub one_more : Option ℤ → ℤ
one_more none = pos 1
one_more (some (pos n)) = pos (n + 1)
one_more (some (negsuc n)) = int_of_u64 ((to_word (negsuc n) + 1) % 2 ^ 64)

unfoldable pub clear_warning : UserInfo → SpeedLimits → SpeedLimits
clear_warning user l = record l { warned_users = delete UserInfo-discrete user l.warned_users }

-- A user over the allowance.
unfoldable pub warn_user :
    AutoSpeedLimitConfig → ℕ → UserInfo → SpeedLimits × List UserInfo → SpeedLimits × List UserInfo
unfolding limit_user clear_warning
warn_user config now user (l, silent_users) = elim (load UserInfo-discrete user l.limited_users) [
  | some info ↦ (l, silent_users)
  | none ↦
      if holds (ℤ_discrete config.warn_times (pos 0))
      then limit_user config now user (l, silent_users)
      else (let count = one_more (load UserInfo-discrete user l.warned_users) in
          let warned = record l {
            warned_users = store UserInfo-discrete user count l.warned_users;
          } in
          if not (leb_ℤ count config.warn_times)
          then (let (limited, silent_users') = limit_user config now user (warned, silent_users) in
              (clear_warning user limited, silent_users'))
          else (warned, silent_users))
]

-- The body of the loop over the users, for one who has traffic.
unfoldable pub check_speed :
    AutoSpeedLimitConfig
    → ℕ
    → ℕ
    → UserInfo
    → ℕ
    → ℕ
    → SpeedLimits × List UserInfo
    → SpeedLimits × List UserInfo
unfolding warn_user clear_warning allowance
check_speed config period now user up down (l, silent_users) =
    if is_positive config.limit
    then (if is_above down (allowance config period) || is_above up (allowance config period)
        then warn_user config now user (l, silent_users)
        else (clear_warning user l, silent_users))
    else (l, silent_users)

-- Whether a limited user is released: the entry is still there, and its time is over.
unfoldable pub is_due : ℕ → Dict UserInfo LimitInfo → UserInfo × LimitInfo → Bool
is_due now limited (user, info) = elim (load UserInfo-discrete user limited) [
  | none ↦ false
  | some present ↦ is_above now info.end_time
]

-- The loop over the entries of the limited users: those who stay limited, and those to release,
-- with the speed limit that they had. What is deleted is the entry of the user with that limit.
unfoldable pub release_users :
    ℕ → Dict UserInfo LimitInfo → Dict UserInfo LimitInfo → Dict UserInfo LimitInfo × List UserInfo
unfolding is_due
release_users now [] limited = (limited, [])
release_users now ((user, info) ∷ entries) limited =
    let user' = record user { speed_limit = info.origin_speed_limit } in
    let due = is_due now limited (user, info) in
    let (kept, released) =
      release_users now entries (if due then delete UserInfo-discrete user' limited else limited) in
    (kept, if due then user' ∷ released else released)

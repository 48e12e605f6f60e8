-- ===== src/Users.antt =====
-- `sameRuntimeUser` and `compareUserList` of service/controller/controller.go: what changes when
-- the panel gives a new list of users.
pub mod Selected
pub mod Applied
mod Tests
use oldxr.Base.{
  ℕ, suc, Bool, true, false, ◌&&◌, ◌||◌, not, Option, none, some, List, [], ◌∷◌, ◌++◌, holds,
  if◌then◌else◌, get_elem?, ℕ_discrete,
}
use oldxr.Base.Int.{ℤ, ℤ_discrete}
use oldxr.Base.Dict.{Dict, load, store}
use oldxr.Base.Text.{Str-discrete}
use oldxr.Api.{UserInfo}

unfoldable pub same_runtime_user : UserInfo → UserInfo → Bool
same_runtime_user old new =
    holds (ℤ_discrete old.uid new.uid)
    && holds (Str-discrete old.email new.email)
    && holds (Str-discrete old.passwd new.passwd)
    && holds (ℕ_discrete old.port new.port)
    && holds (Str-discrete old.method new.method)
    && holds (Str-discrete old.protocol new.protocol)
    && holds (Str-discrete old.protocol_param new.protocol_param)
    && holds (Str-discrete old.obfs new.obfs)
    && holds (Str-discrete old.obfs_param new.obfs_param)
    && holds (Str-discrete old.uuid new.uuid)
    && holds (ℕ_discrete old.alter_id new.alter_id)

unfoldable pub same_limits : UserInfo → UserInfo → Bool
same_limits old new = not (
    not (holds (ℕ_discrete old.speed_limit new.speed_limit))
    || not (holds (ℤ_discrete old.device_limit new.device_limit)))

pub record Changes : Type 0 where
  pub deleted : List UserInfo
  pub added : List UserInfo
  pub limit_updated : List UserInfo

abbrev pub no_changes : Changes
no_changes = record { deleted = []; added = []; limit_updated = [] }

-- The loop that fills `oldIndex`, from an index on.
unfoldable pub index_users : ℕ → List UserInfo → Dict ℤ ℕ → Dict ℤ ℕ
index_users i [] m = m
index_users i (u ∷ us) m = index_users (suc i) us (store ℤ_discrete u.uid i m)

module _ (old : List UserInfo) (old_index : Dict ℤ ℕ) where
  -- The body of the loop over the new list; `none` is the panic of an index out of range.
  unfoldable pub compare_user : UserInfo → Changes → Option Changes
  compare_user user c = elim (load ℤ_discrete user.uid old_index) [
    | none ↦ some (record c { added = c.added ++ user ∷ [] })
    | some old_position ↦ elim (get_elem? old old_position) [
      | none ↦ none
      | some old_user ↦ some (
          if not (same_runtime_user old_user user)
          then record c { deleted = c.deleted ++ old_user ∷ []; added = c.added ++ user ∷ [] }
          else if not (same_limits old_user user)
          then record c { limit_updated = c.limit_updated ++ user ∷ [] }
          else c)
    ]
  ]

  -- The loop, which also fills `newUIDs`.
  unfoldable pub compare_users :
      List UserInfo → Changes → Dict ℤ (Unit {0}) → Option (Changes × Dict ℤ (Unit {0}))
  unfolding compare_user
  compare_users [] c new_uids = some (c, new_uids)
  compare_users (user ∷ us) c new_uids = elim (compare_user user c) [
    | none ↦ none
    | some c' ↦ compare_users us c' (store ℤ_discrete user.uid tt new_uids)
  ]

-- The loop over the old list.
unfoldable pub add_gone : List UserInfo → Dict ℤ (Unit {0}) → Changes → Changes
add_gone [] new_uids c = c
add_gone (user ∷ us) new_uids c = add_gone us new_uids (elim (load ℤ_discrete user.uid new_uids) [
  | some u ↦ c
  | none ↦ record c { deleted = c.deleted ++ user ∷ [] }
])

unfoldable pub compare_user_list : List UserInfo → List UserInfo → Option Changes
unfolding index_users compare_users add_gone
compare_user_list old new = elim (compare_users old (index_users 0 old []) new no_changes []) [
  | none ↦ none
  | some (c, new_uids) ↦ some (add_gone old new_uids c)
]

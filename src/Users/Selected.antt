-- ===== src/Users/Selected.antt =====
-- What `compareUserList` selects, without indices: the lists that its loops build.
use mathlib.Core.List.{append_assoc, append-nil}
use oldxr.Base.{
  ℕ, zero, suc, ◌+◌, ◌≡◌, refl, Bool, true, false, not, Option, none, some, List, [], ◌∷◌, ◌++◌,
  ite, if◌then◌else◌, arith, get_elem?, Option-cases, inl, inr,
}
use oldxr.Base.Int.{ℤ, ℤ_discrete}
use oldxr.Base.Dict.{Dict, load, store, load-store, load-nil}
use oldxr.Api.{UserInfo}
use oldxr.Users.{
  same_runtime_user, same_limits, Changes, no_changes, index_users, compare_user, compare_users,
  add_gone, compare_user_list,
}

-- The last user of a number, and where it is.
unfoldable pub find_last : ℤ → List UserInfo → Option UserInfo
find_last uid [] = none
find_last uid (u ∷ us) = elim (find_last uid us) [
  | some v ↦ some v
  | none ↦ ite (ℤ_discrete u.uid uid) (some u) none
]

last_position : ℤ → List UserInfo → Option ℕ
last_position uid [] = none
last_position uid (u ∷ us) = elim (last_position uid us) [
  | some p ↦ some (suc p)
  | none ↦ ite (ℤ_discrete u.uid uid) (some 0) none
]

load-index_users :
    (uid : ℤ) (i : ℕ) (us : List UserInfo) (m : Dict ℤ ℕ)
    → load ℤ_discrete uid (index_users i us m)
      ≡ (elim (last_position uid us) [ some p ↦ some (i + p) | none ↦ load ℤ_discrete uid m ])
unfolding index_users last_position
load-index_users uid i [] m = refl
load-index_users uid i (u ∷ us) m =
    let m' = store ℤ_discrete u.uid i m in
    ground (arith, load-index_users uid (suc i) us m', load-store ℤ_discrete u.uid uid i m)

last_position_inside :
    (uid : ℤ) (us : List UserInfo) (p : ℕ)
    → last_position uid us ≡ some p
    → (v : UserInfo) × (get_elem? us p ≡ some v)
unfolding last_position
last_position_inside uid [] p h = absurd (ground arith)
last_position_inside uid (u ∷ us) zero h = (u, refl)
last_position_inside uid (u ∷ us) (suc p) h = last_position_inside uid us p (ground arith)

last_position-find_last :
    (uid : ℤ) (us : List UserInfo)
    → find_last uid us ≡ (elim (last_position uid us) [ some p ↦ get_elem? us p | none ↦ none ])
unfolding last_position find_last
last_position-find_last uid [] = refl
last_position-find_last uid (u ∷ us) = elim (Option-cases (last_position uid us)) [
  | inl e ↦ ground (arith, last_position-find_last uid us)
  | inr (p, e) ↦
      let at = last_position_inside uid us p e in
      ground (arith, last_position-find_last uid us, at.1)
]

-- Whether the last old user of the same number differs.
unfoldable pub is_changed : Option UserInfo → UserInfo → Bool
is_changed none u = true
is_changed (some o) u = not (same_runtime_user o u)

unfoldable pub is_limited_anew : Option UserInfo → UserInfo → Bool
is_limited_anew none u = false
is_limited_anew (some o) u = if same_runtime_user o u then not (same_limits o u) else false

module _ (old : List UserInfo) where
  unfoldable pub select_added : List UserInfo → List UserInfo
  select_added [] = []
  select_added (u ∷ us) =
      let rest = select_added us in if is_changed (find_last u.uid old) u then u ∷ rest else rest

  unfoldable pub select_limited : List UserInfo → List UserInfo
  select_limited [] = []
  select_limited (u ∷ us) =
      let rest = select_limited us in
      if is_limited_anew (find_last u.uid old) u then u ∷ rest else rest

  unfoldable pub select_replaced : List UserInfo → List UserInfo
  select_replaced [] = []
  select_replaced (u ∷ us) =
      let rest = select_replaced us in
      elim (find_last u.uid old) [
        | none ↦ rest
        | some o ↦ if same_runtime_user o u then rest else o ∷ rest
      ]

-- The users of a list without a number in a set.
unfoldable pub select_gone : List UserInfo → Dict ℤ (Unit {0}) → List UserInfo
select_gone [] uids = []
select_gone (u ∷ us) uids =
    let rest = select_gone us uids in
    elim (load ℤ_discrete u.uid uids) [ some x ↦ rest | none ↦ u ∷ rest ]

unfoldable pub store_uids : List UserInfo → Dict ℤ (Unit {0}) → Dict ℤ (Unit {0})
store_uids [] m = m
store_uids (u ∷ us) m = store_uids us (store ℤ_discrete u.uid tt m)

module _ (old : List UserInfo) where
  -- One round of the loop, told by the last old user of the number.
  abbrev after_user : UserInfo → Changes → Changes
  after_user u c = record {
    deleted = c.deleted ++ select_replaced old (u ∷ []);
    added = c.added ++ select_added old (u ∷ []);
    limit_updated = c.limit_updated ++ select_limited old (u ∷ []);
  }

  compare_user-after :
      (u : UserInfo) (c : Changes)
      → compare_user old (index_users 0 old []) u c ≡ some (after_user u c)
  unfolding compare_user select_replaced select_added select_limited is_changed is_limited_anew
  compare_user-after u c =
      let at = load-index_users u.uid 0 old [] in
      let found = last_position-find_last u.uid old in
      let e0 = append-nil c.deleted in
      let e1 = append-nil c.added in
      let e2 = append-nil c.limit_updated in
      elim (Option-cases (last_position u.uid old)) [
        | inl e ↦ ground (arith, at, found, load-nil {V = ℕ} ℤ_discrete u.uid, e0, e1, e2)
        | inr (p, e) ↦
            let here = last_position_inside u.uid old p e in
            ground (arith, at, found, here.1, e0, e1, e2)
      ]

  select-cons :
      (u : UserInfo) (us : List UserInfo)
      → (select_added old (u ∷ us) ≡ select_added old (u ∷ []) ++ select_added old us)
        × (select_limited old (u ∷ us) ≡ select_limited old (u ∷ []) ++ select_limited old us)
        × (select_replaced old (u ∷ us) ≡ select_replaced old (u ∷ []) ++ select_replaced old us)
  unfolding select_added select_limited select_replaced
  select-cons u us = (ground arith, ground arith, ground arith)

  compare_users-selects :
      (new : List UserInfo) (c : Changes) (uids : Dict ℤ (Unit {0}))
      → compare_users old (index_users 0 old []) new c uids
        ≡ some (
          record {
            deleted = c.deleted ++ select_replaced old new;
            added = c.added ++ select_added old new;
            limit_updated = c.limit_updated ++ select_limited old new;
          },
          store_uids new uids,
        )
  unfolding compare_users select_added select_limited select_replaced store_uids
  compare_users-selects [] c uids =
      ground (arith, append-nil c.deleted, append-nil c.added, append-nil c.limit_updated)
  compare_users-selects (u ∷ us) c uids =
      let c' = after_user u c in
      let parts = select-cons u us in
      ground (
        arith,
        compare_user-after u c,
        compare_users-selects us c' (store ℤ_discrete u.uid tt uids),
        parts,
        append_assoc c.deleted (select_replaced old (u ∷ [])) (select_replaced old us),
        append_assoc c.added (select_added old (u ∷ [])) (select_added old us),
        append_assoc c.limit_updated (select_limited old (u ∷ [])) (select_limited old us),
      )

add_gone-selects :
    (us : List UserInfo) (uids : Dict ℤ (Unit {0})) (c : Changes)
    → add_gone us uids c ≡ record c { deleted = c.deleted ++ select_gone us uids }
unfolding add_gone select_gone
add_gone-selects [] uids c = ground (arith, append-nil c.deleted)
add_gone-selects (u ∷ us) uids c = elim (Option-cases (load ℤ_discrete u.uid uids)) [
  | inl e ↦
      let c' : Changes = record c { deleted = c.deleted ++ u ∷ [] } in
      ground
        (arith, add_gone-selects us uids c', append_assoc c.deleted (u ∷ []) (select_gone us uids))
  | inr (x, e) ↦ ground (arith, add_gone-selects us uids c)
]

-- The loops build these lists, and never index out of range.
pub compare_user_list-selects :
    (old new : List UserInfo)
    → compare_user_list old new
      ≡ some (record {
        deleted = select_replaced old new ++ select_gone old (store_uids new []);
        added = select_added old new;
        limit_updated = select_limited old new;
      })
unfolding compare_user_list
compare_user_list-selects old new =
    let c : Changes = record {
      deleted = select_replaced old new;
      added = select_added old new;
      limit_updated = select_limited old new;
    } in
    ground (
      arith,
      compare_users-selects old new no_changes [],
      add_gone-selects old (store_uids new []) c,
    )

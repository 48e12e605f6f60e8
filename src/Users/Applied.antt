-- ===== src/Users/Applied.antt =====
-- The changes turn the old users into the new ones, and disturb nobody whose credentials stay.
use mathlib.Core.Option.{some-injective}
use oldxr.Base.{
  ◌&&◌, ◌↔◌, subst, ◌≡◌, refl, sym, ◌∙◌, true, Option, none, some, List, [], ◌∷◌, ◌++◌,
  if◌then◌else◌, arith, Option-cases, inl, inr,
}
use oldxr.Base.Int.{ℤ, ℤ_discrete}
use oldxr.Base.Dict.{Dict, load, store, load-store, load-nil}
use oldxr.Api.{UserInfo}
use oldxr.Users.{same_runtime_user, same_limits, Changes, compare_user_list}
use oldxr.Users.Selected.{
  find_last, is_changed, is_limited_anew, select_added, select_limited, select_replaced,
  select_gone, store_uids, compare_user_list-selects,
}

-- No two users of one number.
unfoldable pub IsDistinct : List UserInfo → Type 0
IsDistinct [] = Unit {0}
IsDistinct (u ∷ us) = (find_last u.uid us ≡ none) × IsDistinct us

find_last-append :
    (uid : ℤ) (xs ys : List UserInfo)
    → find_last uid (xs ++ ys)
      ≡ (elim (find_last uid ys) [ some v ↦ some v | none ↦ find_last uid xs ])
unfolding find_last
find_last-append uid [] ys = ground arith
find_last-append uid (x ∷ xs) ys = ground (arith, find_last-append uid xs ys)

pub find_last-uid :
    (uid : ℤ) (us : List UserInfo) (u : UserInfo) → find_last uid us ≡ some u → u.uid ≡ uid
unfolding find_last
find_last-uid uid [] u h = absurd (ground arith)
find_last-uid uid (x ∷ us) u h = ground (arith, find_last-uid uid us u)

module _ (old : List UserInfo) (uid : ℤ) where
  find_last-select_added :
      (new : List UserInfo)
      → IsDistinct new
      → find_last uid (select_added old new) ≡ (elim (find_last uid new) [
        | none ↦ none
        | some u ↦ if is_changed (find_last uid old) u then some u else none
      ])
  unfolding find_last select_added IsDistinct
  find_last-select_added [] d = refl
  find_last-select_added (u ∷ us) d = ground (arith, find_last-select_added us d.1, d.0)

  find_last-select_limited :
      (new : List UserInfo)
      → IsDistinct new
      → find_last uid (select_limited old new) ≡ (elim (find_last uid new) [
        | none ↦ none
        | some u ↦ if is_limited_anew (find_last uid old) u then some u else none
      ])
  unfolding find_last select_limited IsDistinct
  find_last-select_limited [] d = refl
  find_last-select_limited (u ∷ us) d = ground (arith, find_last-select_limited us d.1, d.0)

  find_last-select_replaced :
      (new : List UserInfo)
      → IsDistinct new
      → find_last uid (select_replaced old new) ≡ (elim (find_last uid new) [
        | none ↦ none
        | some u ↦ elim (find_last uid old) [
          | none ↦ none
          | some o ↦ if same_runtime_user o u then none else some o
        ]
      ])
  unfolding find_last select_replaced IsDistinct
  find_last-select_replaced [] d = refl
  find_last-select_replaced (u ∷ us) d = elim (Option-cases (find_last u.uid old)) [
    | inl e ↦ ground (arith, find_last-select_replaced us d.1, d.0)
    | inr (o, e) ↦
        ground (arith, find_last-select_replaced us d.1, d.0, find_last-uid u.uid old o e)
  ]

  find_last-select_gone :
      (us : List UserInfo) (uids : Dict ℤ (Unit {0}))
      → find_last uid (select_gone us uids)
        ≡ (elim (load ℤ_discrete uid uids) [ some x ↦ none | none ↦ find_last uid us ])
  unfolding find_last select_gone
  find_last-select_gone [] uids = ground arith
  find_last-select_gone (u ∷ us) uids = ground (arith, find_last-select_gone us uids)

  pub load-store_uids :
      (us : List UserInfo) (m : Dict ℤ (Unit {0}))
      → load ℤ_discrete uid (store_uids us m)
        ≡ (elim (find_last uid us) [ some u ↦ some tt | none ↦ load ℤ_discrete uid m ])
  unfolding find_last store_uids
  load-store_uids [] m = refl
  load-store_uids (u ∷ us) m = ground (
    arith,
    load-store_uids us (store ℤ_discrete u.uid tt m),
    load-store ℤ_discrete u.uid uid tt m,
  )

pub same_user : (o u : UserInfo) → same_runtime_user o u ≡ true → same_limits o u ≡ true → o ≡ u
unfolding same_runtime_user same_limits
same_user o u h k = ground arith

-- The user of a number once the controller has deleted, then added and updated: the last one that
-- is added or updated, else nobody if one is deleted, else the old one.
abbrev pub user_after : List UserInfo → Changes → ℤ → Option UserInfo
user_after old c uid = elim (find_last uid (c.added ++ c.limit_updated)) [
  | some u ↦ some u
  | none ↦ elim (find_last uid (c.deleted)) [ some o ↦ none | none ↦ find_last uid old ]
]

module _ (old new : List UserInfo) where
  selected : Changes
  selected = record {
    deleted = select_replaced old new ++ select_gone old (store_uids new []);
    added = select_added old new;
    limit_updated = select_limited old new;
  }

  module _ (d : IsDistinct new) (uid : ℤ) where
    deleted_user : find_last uid selected.deleted ≡ (elim (find_last uid new) [
      | none ↦ find_last uid old
      | some u ↦ elim (find_last uid old) [
        | none ↦ none
        | some o ↦ if same_runtime_user o u then none else some o
      ]
    ])
    unfolding selected
    deleted_user =
        let replaced = select_replaced old new in
        let gone = select_gone old (store_uids new []) in
        ground (
          arith,
          find_last-append uid replaced gone,
          find_last-select_replaced old uid new d,
          find_last-select_gone old uid old (store_uids new []),
          load-store_uids old uid new [],
          load-nil {V = Unit {0}} ℤ_discrete uid,
        )

    added_user :
        find_last uid (selected.added ++ selected.limit_updated) ≡ (elim (find_last uid new) [
          | none ↦ none
          | some u ↦ elim (find_last uid old) [
            | none ↦ some u
            | some o ↦ if same_runtime_user o u && same_limits o u then none else some u
          ]
        ])
    unfolding selected is_changed is_limited_anew
    added_user =
        let added = select_added old new in
        let limited = select_limited old new in
        ground (
          arith,
          find_last-append uid added limited,
          find_last-select_added old uid new d,
          find_last-select_limited old uid new d,
        )

    selected-user_after : user_after old selected uid ≡ find_last uid new
    selected-user_after = elim (Option-cases (find_last uid new)) [
      | inl e ↦ ground (arith, added_user, deleted_user)
      | inr (u, e) ↦ elim (Option-cases (find_last uid old)) [
        | inl f ↦ ground (arith, added_user, deleted_user)
        | inr (o, f) ↦ ground (arith, added_user, deleted_user, same_user o u)
      ]
    ]

  -- Where the new list has no number twice, the comparison succeeds, and deleting, adding and
  -- updating by its changes leaves under each number just the user of the new list.
  pub compare_user_list-applies :
      IsDistinct new
      → (c : Changes) × ((compare_user_list old new ≡ some c)
          × ((uid : ℤ) → user_after old c uid ≡ find_last uid new))
  unfolding selected
  compare_user_list-applies d =
      (selected, (compare_user_list-selects old new, λ uid. selected-user_after d uid))

  -- Of the users of a number in both lists, the old one is deleted if and only if the credentials
  -- differ: the connections of the others stay.
  pub compare_user_list-undisturbed :
      (c : Changes) (o u : UserInfo) (uid : ℤ)
      → IsDistinct new
      → compare_user_list old new ≡ some c
      → find_last uid old ≡ some o
      → find_last uid new ≡ some u
      → (find_last uid c.deleted ≡ none) ↔ (same_runtime_user o u ≡ true)
  unfolding selected
  compare_user_list-undisturbed c o u uid d compared was is =
      let same = some-injective _ _ (sym compared ∙ compare_user_list-selects old new) in
      subst (λ x. (find_last uid (x.deleted) ≡ none) ↔ (same_runtime_user o u ≡ true)) (sym same)
        (ground (arith, deleted_user d uid))

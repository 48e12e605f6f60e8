-- ===== src/Controller/Updates.antt =====
-- Under each key, the changes of `compareUserList` lead from the old user to the new one.
use oldxr.Base.{
  ◌≡◌, sym, ◌∙◌, true, false, Option, none, some, List, [], ◌++◌, if◌then◌else◌, arith,
  Option-cases, inl, inr,
}
use oldxr.Base.Int.{ℤ_discrete}
use oldxr.Base.Dict.{load-nil}
use oldxr.Base.Text.{Str}
use oldxr.Api.{UserInfo}
use oldxr.Limiter.Users.{key_of}
use oldxr.Users.{same_runtime_user, Changes}
use oldxr.Users.Selected.{
  find_last, is_changed, is_limited_anew, select_added, select_limited, select_replaced,
  select_gone, store_uids,
}
use oldxr.Users.Applied.{same_user, load-store_uids}
use oldxr.Controller.Building.{is_some}
use oldxr.Controller.Keys.{
  IsUserList, find_key, find_key-append, find_key-key, find_last-key, find_key-uid, same_key,
  find_last_bounded,
}
use oldxr.Controller.Selections.{
  find_key-select_added, find_key-select_limited, replaced_none, replaced_some, gone_of,
}

-- The user of a key once the controller has deleted, then added and updated.
abbrev pub key_after : Str → Str → List UserInfo → Changes → Option UserInfo
key_after tag email old c = elim (find_key tag email (c.added ++ c.limit_updated)) [
  | some u ↦ some u
  | none ↦ elim (find_key tag email c.deleted) [ some o ↦ none | none ↦ find_key tag email old ]
]

-- Whether the registry admits the key then: users whose limits change are not registered again.
abbrev pub admitted_after : Str → Str → List UserInfo → Changes → Option UserInfo
admitted_after tag email old c = elim (find_key tag email c.added) [
  | some u ↦ some u
  | none ↦ elim (find_key tag email c.deleted) [ some o ↦ none | none ↦ find_key tag email old ]
]

same_runtime_user-key :
    (tag : Str) (o u : UserInfo) → same_runtime_user o u ≡ true → key_of tag o ≡ key_of tag u
unfolding same_runtime_user
same_runtime_user-key tag o u h = ground arith

abbrev pub selected : List UserInfo → List UserInfo → Changes
selected old new = record {
  deleted = select_replaced old new ++ select_gone old (store_uids new []);
  added = select_added old new;
  limit_updated = select_limited old new;
}

module _ (tag email : Str) (old new : List UserInfo) (l : IsUserList old) (m : IsUserList new) where
  deleted_absent :
      find_key tag email old ≡ none → find_key tag email (selected old new).deleted ≡ none
  deleted_absent h =
      let gone = select_gone old (store_uids new []) in
      ground (
        arith,
        find_key-append tag email (select_replaced old new) gone,
        replaced_none tag email old new l h,
        gone_of tag email old old (store_uids new []) l,
      )

  deleted_present :
      (o : UserInfo)
      → find_key tag email old ≡ some o
      → find_key tag email (selected old new).deleted ≡ (elim (find_last o.uid new) [
        | none ↦ some o
        | some u ↦ if same_runtime_user o u then none else some o
      ])
  deleted_present o h =
      let gone = select_gone old (store_uids new []) in
      ground (
        arith,
        find_key-append tag email (select_replaced old new) gone,
        replaced_some tag email old new o l m h,
        gone_of tag email old old (store_uids new []) l,
        load-store_uids old o.uid new [],
        load-nil {V = Unit {0}} ℤ_discrete o.uid,
      )

  abbrev Result : Type 0
  Result =
      (key_after tag email old (selected old new) ≡ find_key tag email new)
      × (is_some (admitted_after tag email old (selected old new))
          ≡ is_some (find_key tag email new))

  both_absent : find_key tag email new ≡ none → find_key tag email old ≡ none → Result
  both_absent e f =
      let updates = find_key-append tag email (select_added old new) (select_limited old new) in
      let added = find_key-select_added tag email old new m in
      let limited = find_key-select_limited tag email old new m in
      (ground (arith, updates, added, limited), ground (arith, added))

  removed :
      (o : UserInfo) → find_key tag email new ≡ none → find_key tag email old ≡ some o → Result
  removed o e f =
      let updates = find_key-append tag email (select_added old new) (select_limited old new) in
      let added = find_key-select_added tag email old new m in
      let limited = find_key-select_limited tag email old new m in
      let gone : find_key tag email (selected old new).deleted ≡ some o =
        elim (Option-cases (find_last o.uid new)) [
          | inl g ↦ ground (arith, deleted_present o f)
          | inr (u, g) ↦ ground (
            arith,
            deleted_present o f,
            find_last-key tag o.uid new u m g,
            same_runtime_user-key tag o u,
            find_key-key tag email old o f,
          )
        ] in
      (ground (arith, updates, added, limited, gone), ground (arith, added, gone))

  appeared :
      (u : UserInfo) → find_key tag email new ≡ some u → find_key tag email old ≡ none → Result
  unfolding is_changed is_limited_anew
  appeared u e f =
      let updates = find_key-append tag email (select_added old new) (select_limited old new) in
      let added = find_key-select_added tag email old new m in
      let limited = find_key-select_limited tag email old new m in
      let changed : is_changed (find_last u.uid old) u ≡ true =
        elim (Option-cases (find_last u.uid old)) [
          | inl g ↦ ground (arith, g)
          | inr (o, g) ↦ ground (
            arith,
            g,
            find_last-key tag u.uid old o l g,
            same_runtime_user-key tag o u,
            find_key-key tag email new u e,
          )
        ] in
      let unlimited : is_limited_anew (find_last u.uid old) u ≡ false =
        elim (Option-cases (find_last u.uid old)) [
          | inl g ↦ ground (arith, g)
          | inr (o, g) ↦ ground (arith, g, changed)
        ] in
      (ground (arith, updates, added, limited, changed, unlimited), ground (arith, added, changed))

  stayed :
      (o u : UserInfo) → find_key tag email new ≡ some u → find_key tag email old ≡ some o → Result
  unfolding is_changed is_limited_anew
  stayed o u e f =
      let updates = find_key-append tag email (select_added old new) (select_limited old new) in
      let added = find_key-select_added tag email old new m in
      let limited = find_key-select_limited tag email old new m in
      let was = find_key-uid tag email old o l f in
      let is = find_key-uid tag email new u m e in
      let number : o.uid ≡ u.uid =
        same_key tag o u (find_last_bounded tag o.uid old o l.bounded was)
          (find_last_bounded tag u.uid new u m.bounded is)
          (find_key-key tag email old o f ∙ sym (find_key-key tag email new u e)) in
      (
        ground
            (arith, updates, added, limited, was, is, number, deleted_present o f, same_user o u),
        ground (arith, added, was, is, number, deleted_present o f),
      )

  -- Under every key, the changes leave the user of the new list, and admit the key if and only if
  -- there is one.
  pub selected-key_after : Result
  selected-key_after = elim (Option-cases (find_key tag email new)) [
    | inl e ↦ elim (Option-cases (find_key tag email old)) [
      | inl f ↦ both_absent e f
      | inr (o, f) ↦ removed o e f
    ]
    | inr (u, e) ↦ elim (Option-cases (find_key tag email old)) [
      | inl f ↦ appeared u e f
      | inr (o, f) ↦ stayed o u e f
    ]
  ]

  -- Whoever is deleted was there.
  pub selected_deleted-within :
      is_some (find_key tag email (selected old new).deleted) ≡ true
      → is_some (find_key tag email old) ≡ true
  selected_deleted-within h = elim (Option-cases (find_key tag email old)) [
    | inl e ↦ absurd (ground (arith, deleted_absent e))
    | inr (o, e) ↦ ground (arith, e)
  ]

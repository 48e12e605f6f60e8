-- ===== src/Controller/Selections.antt =====
-- What `compareUserList` selects, told by the users' keys.
use oldxr.Base.{
  ◌≡◌, refl, sym, ap, ◌∙◌, none, some, List, [], ◌∷◌, if◌then◌else◌, arith, Option-cases, inl, inr,
}
use oldxr.Base.Int.{ℤ, ℤ_discrete}
use oldxr.Base.Dict.{Dict, load}
use oldxr.Base.Text.{Str}
use oldxr.Api.{UserInfo}
use oldxr.Limiter.Users.{key_of}
use oldxr.Users.{same_runtime_user}
use oldxr.Users.Selected.{
  find_last, is_changed, is_limited_anew, select_added, select_limited, select_replaced,
  select_gone,
}
use oldxr.Users.Applied.{IsDistinct, find_last-uid}
use oldxr.Controller.Keys.{
  IsUserList, find_key, find_key_absent, find_key-key, find_last-key, find_key-uid,
}

pub tail_list : {u : UserInfo} {us : List UserInfo} → IsUserList (u ∷ us) → IsUserList us
unfolding IsDistinct
tail_list l = record { distinct = l.distinct.1; bounded = l.bounded.1 }

head_absent :
    (tag email : Str) {u : UserInfo} {us : List UserInfo}
    → IsUserList (u ∷ us)
    → key_of tag u ≡ email
    → find_key tag email us ≡ none
unfolding IsDistinct
head_absent tag email {u} {us} l e =
    ap (λ k. find_key tag k us) (sym e)
    ∙ find_key_absent tag u us l.bounded.0 l.bounded.1 l.distinct.0

module _ (tag email : Str) (old : List UserInfo) where
  pub find_key-select_added :
      (new : List UserInfo)
      → IsUserList new
      → find_key tag email (select_added old new) ≡ (elim (find_key tag email new) [
        | none ↦ none
        | some u ↦ if is_changed (find_last u.uid old) u then some u else none
      ])
  unfolding find_key select_added
  find_key-select_added [] l = refl
  find_key-select_added (u ∷ us) l =
      ground (arith, find_key-select_added us (tail_list l), head_absent tag email l)

  pub find_key-select_limited :
      (new : List UserInfo)
      → IsUserList new
      → find_key tag email (select_limited old new) ≡ (elim (find_key tag email new) [
        | none ↦ none
        | some u ↦ if is_limited_anew (find_last u.uid old) u then some u else none
      ])
  unfolding find_key select_limited
  find_key-select_limited [] l = refl
  find_key-select_limited (u ∷ us) l =
      ground (arith, find_key-select_limited us (tail_list l), head_absent tag email l)

  -- The old user of a key is the last old user of its number.
  found_by_number :
      (uid : ℤ) (o v : UserInfo)
      → IsUserList old
      → find_key tag email old ≡ some o
      → find_last uid old ≡ some v
      → key_of tag v ≡ email
      → v ≡ o
  found_by_number uid o v l h k e = ground (arith, find_last-key tag uid old v l k)

  pub replaced_none :
      (new : List UserInfo)
      → IsUserList old
      → find_key tag email old ≡ none
      → find_key tag email (select_replaced old new) ≡ none
  unfolding find_key select_replaced
  replaced_none [] l h = refl
  replaced_none (u ∷ us) l h = elim (Option-cases (find_last u.uid old)) [
    | inl e ↦ ground (arith, replaced_none us l h)
    | inr (v, e) ↦ ground (arith, replaced_none us l h, find_last-key tag u.uid old v l e)
  ]

  pub replaced_some :
      (new : List UserInfo) (o : UserInfo)
      → IsUserList old
      → IsUserList new
      → find_key tag email old ≡ some o
      → find_key tag email (select_replaced old new) ≡ (elim (find_last o.uid new) [
        | none ↦ none
        | some u ↦ if same_runtime_user o u then none else some o
      ])
  unfolding find_key select_replaced find_last IsDistinct
  replaced_some [] o l m h = refl
  replaced_some (u ∷ us) o l m h =
      let here = find_key-uid tag email old o l h in
      let key = find_key-key tag email old o h in
      elim (Option-cases (find_last u.uid old)) [
        | inl e ↦ ground (arith, replaced_some us o l (tail_list m) h, here)
        | inr (v, e) ↦
            let uid = find_last-uid u.uid old v e in
            ground (
              arith,
              replaced_some us o l (tail_list m) h,
              here,
              key,
              uid,
              m.distinct.0,
              found_by_number u.uid o v l h e,
            )
      ]

  pub gone_of :
      (us : List UserInfo) (uids : Dict ℤ (Unit {0}))
      → IsUserList us
      → find_key tag email (select_gone us uids) ≡ (elim (find_key tag email us) [
        | none ↦ none
        | some o ↦ elim (load ℤ_discrete o.uid uids) [ some x ↦ none | none ↦ some o ]
      ])
  unfolding find_key select_gone
  gone_of [] uids l = refl
  gone_of (u ∷ us) uids l = ground (arith, gone_of us uids (tail_list l), head_absent tag email l)

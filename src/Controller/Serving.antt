-- ===== src/Controller/Serving.antt =====
-- What a call of the controller changes, told by key: whom the registry admits, and which limits
-- the limiter has.
use oldxr.Base.{
  ◌≡◌, ◌≢◌, refl, Bool, true, false, Option, none, some, List, [], ◌∷◌, map, arith, Option-cases, ℕ,
  inl, inr,
}
use oldxr.Base.Dict.{
  Dict, load, store, delete, load-store, load-delete, load-store_self, load-store_ne,
}
use oldxr.Base.Text.{Str, Str-discrete}
use oldxr.Api.{UserInfo}
use oldxr.Flow.{
  ManagedUserNode, UserFlowRegistry, ensure_runtime, register_users, retire_users, node, register,
  retire,
}
use oldxr.Flow.Admission.{ensure_runtime-current}
use oldxr.Limiter
use oldxr.Limiter.{Limiter, InboundInfo, RateOps, CacheOps}
use oldxr.Limiter.Users.{
  key_of, limits_of, store_users, update_user, update_users, update_inbound_limiter, delete_user,
  delete_users, delete_inbound_limiter_users,
}
use oldxr.Controller.Keys.{find_key}
use oldxr.Controller.Building.{is_some}

-- Whether a node has the user among its current ones.
abbrev pub admits : Str → Str → UserFlowRegistry → Bool
admits tag email r = is_some (load Str-discrete email (node tag r).current)

abbrev pub limits_at : {B G : Type 0} → Str → Str → Limiter B G → Option Limiter.UserInfo
limits_at tag email l = elim (load Str-discrete tag l.inbound_info) [
  | none ↦ none
  | some info ↦ load Str-discrete email info.user_info
]

abbrev pub has_inbound : {B G : Type 0} → Str → Limiter B G → Bool
has_inbound tag l = is_some (load Str-discrete tag l.inbound_info)

module _ (tag email : Str) where
  register_users-admits :
      (us : List UserInfo) (n : ManagedUserNode) (heap : List ℕ)
      → is_some (load Str-discrete email (register_users (map (key_of tag) us) (n, heap)).0.current)
        ≡ (elim (find_key tag email us) [
          | some u ↦ true
          | none ↦ is_some (load Str-discrete email n.current)
        ])
  unfolding register_users find_key
  register_users-admits [] n heap = refl
  register_users-admits (u ∷ us) n heap =
      let m = record n { current = store Str-discrete (key_of tag u) tt n.current } in
      let s = (ensure_runtime (key_of tag u) (m, heap)).0 in
      ground (
        arith,
        register_users-admits us s.0 s.1,
        ensure_runtime-current (key_of tag u) m heap,
        load-store Str-discrete (key_of tag u) email tt n.current,
      )

  retire_users-admits :
      (us : List UserInfo) (n : ManagedUserNode) (heap : List ℕ)
      → is_some (load Str-discrete email (retire_users (map (key_of tag) us) (n, heap)).0.current)
        ≡ (elim (find_key tag email us) [
          | some u ↦ false
          | none ↦ is_some (load Str-discrete email n.current)
        ])
  unfolding retire_users find_key
  retire_users-admits [] n heap = refl
  retire_users-admits (u ∷ us) n heap =
      let m = record n { current = delete Str-discrete (key_of tag u) n.current } in
      let s = (ensure_runtime (key_of tag u) (m, heap)).0 in
      ground (
        arith,
        retire_users-admits us s.0 s.1,
        ensure_runtime-current (key_of tag u) m heap,
        load-delete Str-discrete (key_of tag u) email n.current,
      )

  pub admits-register :
      (us : List UserInfo) (r : UserFlowRegistry)
      → admits tag email (register tag (map (key_of tag) us) r)
        ≡ (elim (find_key tag email us) [ some u ↦ true | none ↦ admits tag email r ])
  unfolding register node
  admits-register us r =
      let s = register_users (map (key_of tag) us) (node tag r, r.heap) in
      ground (
        arith,
        load-store_self Str-discrete tag s.0 r.nodes,
        register_users-admits us (node tag r) r.heap,
      )

  pub admits-retire :
      (us : List UserInfo) (r : UserFlowRegistry)
      → admits tag email (retire tag (map (key_of tag) us) r)
        ≡ (elim (find_key tag email us) [ some u ↦ false | none ↦ admits tag email r ])
  unfolding retire node
  admits-retire us r =
      let s = retire_users (map (key_of tag) us) (node tag r, r.heap) in
      ground (
        arith,
        load-store_self Str-discrete tag s.0 r.nodes,
        retire_users-admits us (node tag r) r.heap,
      )

pub admits-register_other :
    (tag other email : Str) (emails : List Str) (r : UserFlowRegistry)
    → tag ≢ other
    → admits other email (register tag emails r) ≡ admits other email r
unfolding register node
admits-register_other tag other email emails r ne =
    let s = register_users emails (node tag r, r.heap) in
    ground (arith, load-store_ne Str-discrete tag other s.0 r.nodes ne)

pub admits-retire_other :
    (tag other email : Str) (emails : List Str) (r : UserFlowRegistry)
    → tag ≢ other
    → admits other email (retire tag emails r) ≡ admits other email r
unfolding retire node
admits-retire_other tag other email emails r ne =
    let s = retire_users emails (node tag r, r.heap) in
    ground (arith, load-store_ne Str-discrete tag other s.0 r.nodes ne)

module _ (tag email : Str) where
  pub load-store_users :
      (us : List UserInfo) (m : Dict Str Limiter.UserInfo)
      → load Str-discrete email (store_users tag us m) ≡ (elim (find_key tag email us) [
        | some u ↦ some (limits_of u)
        | none ↦ load Str-discrete email m
      ])
  unfolding store_users find_key
  load-store_users [] m = refl
  load-store_users (u ∷ us) m = ground (
    arith,
    load-store_users us (store Str-discrete (key_of tag u) (limits_of u) m),
    load-store Str-discrete (key_of tag u) email (limits_of u) m,
  )

  delete_users-limits :
      {G : Type 0} (us : List UserInfo) (info : InboundInfo G)
      → load Str-discrete email (delete_users tag us info).user_info
        ≡ (elim (find_key tag email us) [
          | some u ↦ none
          | none ↦ load Str-discrete email info.user_info
        ])
  unfolding delete_users delete_user find_key
  delete_users-limits [] info = refl
  delete_users-limits (u ∷ us) info = ground (
    arith,
    delete_users-limits us (delete_user tag u info),
    load-delete Str-discrete (key_of tag u) email info.user_info,
  )

  module _ {B R G : Type 0} (rate : RateOps B R) where
    update_user-user_info :
        (u : UserInfo) (info : InboundInfo G) (heap : List B)
        → (update_user rate tag u (info, heap)).0.user_info
          ≡ store Str-discrete (key_of tag u) (limits_of u) info.user_info
    unfolding update_user
    update_user-user_info u info heap = ground arith

    update_users-limits :
        (us : List UserInfo) (info : InboundInfo G) (heap : List B)
        → load Str-discrete email (update_users rate tag us (info, heap)).0.user_info
          ≡ (elim (find_key tag email us) [
            | some u ↦ some (limits_of u)
            | none ↦ load Str-discrete email info.user_info
          ])
    unfolding update_users find_key
    update_users-limits [] info heap = refl
    update_users-limits (u ∷ us) info heap =
        let s = update_user rate tag u (info, heap) in
        ground (
          arith,
          update_users-limits us s.0 s.1,
          update_user-user_info u info heap,
          load-store Str-discrete (key_of tag u) email (limits_of u) info.user_info,
        )

    pub limits_at-update :
        (us : List UserInfo) (l : Limiter B G)
        → has_inbound tag l ≡ true
        → limits_at tag email (update_inbound_limiter rate tag us l).0
          ≡ (elim (find_key tag email us) [
            | some u ↦ some (limits_of u)
            | none ↦ limits_at tag email l
          ])
    unfolding update_inbound_limiter
    limits_at-update us l h = elim (Option-cases (load Str-discrete tag l.inbound_info)) [
      | inl e ↦ absurd (ground arith)
      | inr (info, e) ↦
          let s = update_users rate tag us (info, l.heap) in
          ground (
            arith,
            load-store_self Str-discrete tag s.0 l.inbound_info,
            update_users-limits us info l.heap,
          )
    ]

  pub limits_at-delete :
      {B G : Type 0} (us : List UserInfo) (l : Limiter B G)
      → has_inbound tag l ≡ true
      → limits_at tag email (delete_inbound_limiter_users tag us l).0
        ≡ (elim (find_key tag email us) [ some u ↦ none | none ↦ limits_at tag email l ])
  unfolding delete_inbound_limiter_users
  limits_at-delete us l h = elim (Option-cases (load Str-discrete tag l.inbound_info)) [
    | inl e ↦ absurd (ground arith)
    | inr (info, e) ↦ ground (
      arith,
      load-store_self Str-discrete tag (delete_users tag us info) l.inbound_info,
      delete_users-limits us info,
    )
  ]

-- Whether the registry knows the tag at all: of an unknown one it admits everybody.
abbrev pub is_managed : Str → UserFlowRegistry → Bool
is_managed tag r = is_some (load Str-discrete tag r.nodes)

pub is_managed-register :
    (tag : Str) (emails : List Str) (r : UserFlowRegistry)
    → is_managed tag (register tag emails r) ≡ true
unfolding register
is_managed-register tag emails r =
    let s = register_users emails (node tag r, r.heap) in
    ground (arith, load-store_self Str-discrete tag s.0 r.nodes)

pub is_managed-retire :
    (tag : Str) (emails : List Str) (r : UserFlowRegistry)
    → is_managed tag (retire tag emails r) ≡ true
unfolding retire
is_managed-retire tag emails r =
    let s = retire_users emails (node tag r, r.heap) in
    ground (arith, load-store_self Str-discrete tag s.0 r.nodes)

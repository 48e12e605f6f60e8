-- ===== src/Controller/Server.antt =====
-- The calls of xray-core in service/controller/control.go.
use oldxr.Base.{Option, none, some, List, [], ◌∷◌, ◌⊎◌, inl, inr}
use oldxr.Base.Text.{Str}
use oldxr.Controller.{
  User, Error, server_error, not_an_inbound_handler, no_such_inbound, no_get_inbound,
  no_user_manager, ServerOps,
}

-- An error that is returned as it came.
abbrev pub passed_on : {X : Type 0} → X × Option Str → X × Option Error
passed_on (x, none) = (x, none)
passed_on (x, some text) = (x, some (server_error text))

module _ {X C O H I M V : Type 0} (ops : ServerOps X C O H I M V) where
  unfoldable pub remove_inbound : Str → X → X × Option Error
  remove_inbound tag x = passed_on (ops.remove_inbound_handler tag x)

  unfoldable pub remove_outbound : Str → X → X × Option Error
  remove_outbound tag x = passed_on (ops.remove_outbound_handler tag x)

  unfoldable pub add_inbound : C → X → X × Option Error
  add_inbound config x = elim (ops.create_object config x) [
    | inr text ↦ (x, some (server_error text))
    | inl raw ↦ elim (ops.as_inbound raw) [
      | none ↦ (x, some not_an_inbound_handler)
      | some handler ↦ passed_on (ops.add_inbound_handler handler x)
    ]
  ]

  unfoldable pub add_outbound : C → X → X × Option Error
  add_outbound config x = elim (ops.create_object config x) [
    | inr text ↦ (x, some (server_error text))
    | inl raw ↦ elim (ops.as_outbound raw) [
      | none ↦ (x, some not_an_inbound_handler)
      | some handler ↦ passed_on (ops.add_outbound_handler handler x)
    ]
  ]

  -- The user manager of an inbound, or the error that there is none.
  unfoldable pub user_manager_of : Str → X → M ⊎ Error
  user_manager_of tag x = elim (ops.get_handler tag x) [
    | none ↦ inr no_such_inbound
    | some handler ↦ elim (ops.get_inbound handler) [
      | none ↦ inr no_get_inbound
      | some inbound ↦ elim (ops.user_manager inbound) [
        | none ↦ inr no_user_manager
        | some manager ↦ inl manager
      ]
    ]
  ]

  -- The loop of `addUsers` stops at the first error, and keeps the users before it.
  unfoldable pub add_each : M → List (Option User) → X → X × Option Error
  add_each manager [] x = (x, none)
  add_each manager (item ∷ items) x = elim (ops.to_memory_user item) [
    | inr text ↦ (x, some (server_error text))
    | inl m_user ↦
        let (x', failed) = ops.add_user manager m_user x in
        elim failed [
          | some text ↦ (x', some (server_error text))
          | none ↦ add_each manager items x'
        ]
  ]

  unfoldable pub add_users : List (Option User) → Str → X → X × Option Error
  unfolding user_manager_of add_each
  add_users users tag x = elim (user_manager_of tag x) [
    | inr err ↦ (x, some err)
    | inl manager ↦ add_each manager users x
  ]

  unfoldable pub remove_each : M → List Str → X → X × Option Error
  remove_each manager [] x = (x, none)
  remove_each manager (email ∷ emails) x =
      let (x', failed) = ops.remove_user manager email x in
      elim failed [
        | some text ↦ (x', some (server_error text))
        | none ↦ remove_each manager emails x'
      ]

  unfoldable pub remove_users : List Str → Str → X → X × Option Error
  unfolding user_manager_of remove_each
  remove_users emails tag x = elim (user_manager_of tag x) [
    | inr err ↦ (x, some err)
    | inl manager ↦ remove_each manager emails x
  ]

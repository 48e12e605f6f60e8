-- ===== src/Flow/Admission.antt =====
-- Who may open a flow after the controller has registered or retired users.
use oldxr.Base.{
  ℕ, ◌≡◌, sym, ap, ◌∙◌, ◌≢◌, ◌⊎◌, inl, inr, Option, none, some, List, [], ◌∷◌, arith, Elem,
  Option-cases,
}
use oldxr.Base.Dict.{load, store, delete, load-store, load-delete, load-store_self}
use oldxr.Base.Text.{Str, Str-discrete}
use oldxr.Flow.{
  ManagedUserNode, UserFlowRegistry, ensure_runtime, register_users, retire_users, node, put_node,
  register, retire, acquire,
}
use oldxr.Flow.Opening.{acquire_stranger, acquire_current}

some_ne_none : {A : Type 0} {a : A} → ◌≢◌ {A = Option A} (some a) none
some_ne_none e = cc

pub ensure_runtime-current :
    (email : Str) (n : ManagedUserNode) (heap : List ℕ)
    → (ensure_runtime email (n, heap)).0.0.current ≡ n.current
unfolding ensure_runtime
ensure_runtime-current email n heap = ground arith

retire_users-current :
    (emails : List Str) (e : Str) (n : ManagedUserNode) (heap : List ℕ)
    → Elem e emails ⊎ (load Str-discrete e n.current ≡ none)
    → load Str-discrete e (retire_users emails (n, heap)).0.current ≡ none
unfolding retire_users
retire_users-current [] e n heap (inl h) = absurd h
retire_users-current [] e n heap (inr h) = h
retire_users-current (email ∷ emails) e n heap h =
    let m = record n { current = delete Str-discrete email n.current } in
    let s = (ensure_runtime email (m, heap)).0 in
    let same = ensure_runtime-current email m heap in
    let gone = load-delete Str-discrete email e n.current in
    retire_users-current emails e s.0 s.1 (elim h [
      | inl (inl here) ↦ inr (ground (arith, same, gone))
      | inl (inr later) ↦ inl later
      | inr absent ↦ inr (ground (arith, same, gone))
    ])

register_users-current :
    (emails : List Str) (e : Str) (n : ManagedUserNode) (heap : List ℕ)
    → Elem e emails ⊎ (load Str-discrete e n.current ≢ none)
    → load Str-discrete e (register_users emails (n, heap)).0.current ≢ none
unfolding register_users
register_users-current [] e n heap (inl h) = absurd h
register_users-current [] e n heap (inr h) = h
register_users-current (email ∷ emails) e n heap h =
    let m = record n { current = store Str-discrete email tt n.current } in
    let s = (ensure_runtime email (m, heap)).0 in
    let same = ensure_runtime-current email m heap in
    let put = load-store Str-discrete email e tt n.current in
    register_users-current emails e s.0 s.1 (elim h [
      | inl (inl here) ↦ inr (ground (arith, same, put))
      | inl (inr later) ↦ inl later
      | inr present ↦ inr (ground (arith, same, put, present))
    ])

-- A retired user is refused a new flow and the registry stays as it is; a registered user is given
-- one.
pub admission_follows_registration :
    (tag email : Str) (emails : List Str) (r : UserFlowRegistry)
    → Elem email emails
    → (acquire tag email (retire tag emails r) ≡ (retire tag emails r, none))
      × ((acquire tag email (register tag emails r)).1 ≢ none)
unfolding register retire
admission_follows_registration tag email emails r h =
    let retired = retire_users emails (node tag r, r.heap) in
    let registered = register_users emails (node tag r, r.heap) in
    (
      acquire_stranger tag email (put_node tag retired r) retired.0
          (load-store_self Str-discrete tag retired.0 r.nodes)
          (retire_users-current emails email (node tag r) r.heap (inl h)),
      (elim (Option-cases (load Str-discrete email registered.0.current)) [
        | inl absent ↦
            absurd (register_users-current emails email (node tag r) r.heap (inl h) absent)
        | inr (u, present) ↦ λ refused. some_ne_none (
            sym (
              ap (λ p. p.1)
                (acquire_current tag email (put_node tag registered r) registered.0 u
                  (load-store_self Str-discrete tag registered.0 r.nodes) present))
            ∙ refused)
      ]),
    )

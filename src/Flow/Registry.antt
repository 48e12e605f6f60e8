-- ===== src/Flow/Registry.antt =====
-- The registry and the flows that are open: the counts are right, and an open flow keeps its
-- user's runtime.
use mathlib.Core.Option
use oldxr.Base.{
  ℕ, zero, suc, ◌-◌, ◌≤◌, ◌<◌, ◌≡◌, refl, ◌++◌, ◌⊎◌, inl, some, List, [], ◌∷◌, length, get_elem?,
  arith, ite, ℕ_discrete, length-append, get_elem?-lt, get_elem?-set_self, get_elem?-set_ne,
}
use oldxr.Base.Dict.{load, store, delete, load-store}
use oldxr.Base.Text.{Str, Str-discrete}
use oldxr.Flow.{
  ManagedUserNode, acquire_runtime, release_runtime, ensure_runtime, register_users, retire_users,
}

pub acquire_runtime-at :
    (a b : ℕ) (heap : List ℕ)
    → get_elem? (acquire_runtime a heap) b
      ≡ ite (ℕ_discrete a b) (Option.map suc (get_elem? heap b)) (get_elem? heap b)
unfolding acquire_runtime
acquire_runtime-at a b heap = grind (arith, get_elem?-set_self, get_elem?-set_ne, get_elem?-lt)

pub release_runtime-at :
    (a b : ℕ) (heap : List ℕ)
    → get_elem? (release_runtime a heap) b
      ≡ ite (ℕ_discrete a b) (Option.map (λ n. n - 1) (get_elem? heap b)) (get_elem? heap b)
unfolding release_runtime
release_runtime-at a b heap = grind (arith, get_elem?-set_self, get_elem?-set_ne, get_elem?-lt)

pub get_elem?-append_zero :
    (xs : List ℕ) (a k v : ℕ)
    → get_elem? (xs ++ v ∷ []) a ≡ some k
    → (get_elem? xs a ≡ some k) ⊎ ((a ≡ length xs) × (k ≡ v))
get_elem?-append_zero [] zero k v h = ground arith
get_elem?-append_zero [] (suc a) k v h = ground arith
get_elem?-append_zero (x ∷ xs) zero k v h = ground arith
get_elem?-append_zero (x ∷ xs) (suc a) k v h = ground (arith, get_elem?-append_zero xs a k v)

-- New runtimes, and nothing else.
pub record Extends (n : ManagedUserNode) (heap : List ℕ) (n' : ManagedUserNode) (heap' : List ℕ)
    : Type 0 where
  pub longer : length heap ≤ length heap'
  pub kept :
      (e : Str) (a : ℕ)
      → load Str-discrete e n.runtime ≡ some a
      → load Str-discrete e n'.runtime ≡ some a
  pub origin :
      (e : Str) (a : ℕ)
      → load Str-discrete e n'.runtime ≡ some a
      → (load Str-discrete e n.runtime ≡ some a) ⊎ ((length heap ≤ a) × (a < length heap'))
  pub fresh :
      (a k : ℕ)
      → get_elem? heap' a ≡ some k
      → (get_elem? heap a ≡ some k) ⊎ ((length heap ≤ a) × (k ≡ 0))

pub Extends-refl : (n : ManagedUserNode) (heap : List ℕ) → Extends n heap n heap
Extends-refl n heap = record {
  longer = omega arith;
  kept = λ e a h. h;
  origin = λ e a h. inl h;
  fresh = λ a k h. inl h;
}

pub Extends-trans :
    {n n' n'' : ManagedUserNode} {heap heap' heap'' : List ℕ}
    → Extends n heap n' heap'
    → Extends n' heap' n'' heap''
    → Extends n heap n'' heap''
Extends-trans p q = record {
  longer = omega (arith, p.longer, q.longer);
  kept = λ e a h. q.kept e a (p.kept e a h);
  origin = λ e a h. ground (arith, q.origin e a, p.origin e a, p.longer, q.longer);
  fresh = λ a k h. ground (arith, q.fresh a k, p.fresh a k, p.longer);
}

pub ensure_runtime-Extends :
    (email : Str) (n n₀ : ManagedUserNode) (heap : List ℕ)
    → n.runtime ≡ n₀.runtime
    → let s = (ensure_runtime email (n, heap)).0 in Extends n₀ heap s.0 s.1
unfolding ensure_runtime
ensure_runtime-Extends email n n₀ heap same = record {
  longer = ground (arith, length-append heap (0 ∷ []));
  kept = λ e a h. ground (arith, load-store Str-discrete email e (length heap) n.runtime);
  origin = λ e a h.
      ground (
        arith,
        load-store Str-discrete email e (length heap) n.runtime,
        length-append heap (0 ∷ []),
      );
  fresh = λ a k h. ground (arith, get_elem?-append_zero heap a k 0);
}

pub register_users-Extends :
    (emails : List Str) (n : ManagedUserNode) (heap : List ℕ)
    → let s = register_users emails (n, heap) in Extends n heap s.0 s.1
unfolding register_users
register_users-Extends [] n heap = Extends-refl n heap
register_users-Extends (email ∷ emails) n heap =
    let m = record n { current = store Str-discrete email tt n.current } in
    let s = (ensure_runtime email (m, heap)).0 in
    Extends-trans (ensure_runtime-Extends email m n heap refl)
      (register_users-Extends emails s.0 s.1)

pub retire_users-Extends :
    (emails : List Str) (n : ManagedUserNode) (heap : List ℕ)
    → let s = retire_users emails (n, heap) in Extends n heap s.0 s.1
unfolding retire_users
retire_users-Extends [] n heap = Extends-refl n heap
retire_users-Extends (email ∷ emails) n heap =
    let m = record n { current = delete Str-discrete email n.current } in
    let s = (ensure_runtime email (m, heap)).0 in
    Extends-trans (ensure_runtime-Extends email m n heap refl) (retire_users-Extends emails s.0 s.1)

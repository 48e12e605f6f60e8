-- ===== src/Flow/Opening.antt =====
-- Opening and closing flows, and finalizing a retired user.

use oldxr.Base.{
  ℕ, subst, get_elem?-lt, zero, suc, ◌+◌, ◌<◌, ◌≡◌, sym, ap, ◌++◌, inl, inr, Option, none, some,
  List, [], ◌∷◌, length, get_elem?, arith, ite, ℕ_discrete, All, Option-cases, length-append,
  length-set, All-map,
}
use oldxr.Base.Dict.{load, load-store_self}
use oldxr.Base.Text.{Str, Str-discrete}
use oldxr.Flow.{
  ManagedUserNode, UserFlowRegistry, acquire_runtime, release_runtime, ensure_runtime, node,
  put_node, acquire, release,
}
use oldxr.Flow.Registry.{
  acquire_runtime-at, release_runtime-at, get_elem?-append_zero, ensure_runtime-Extends,
}
use oldxr.Flow.World.{
  OpenFlow, World, IsSound, KeepsRuntime, runtime_at, has_node, count_at, count_at-fresh,
  extend-IsSound,
}

-- The answer of `acquire`: a flow opens with the runtime that it got.
abbrev opened : Str → Str → World → UserFlowRegistry × Option ℕ → World
opened tag email w (r, none) = record w { registry = r }
opened tag email w (r, some a) = record {
  registry = r;
  flows =
      record { tag = tag; email = email; runtime = a; managed = has_node tag w.registry } ∷ w.flows;
}

unfoldable pub open_flow : Str → Str → World → World
open_flow tag email w = opened tag email w (acquire tag email w.registry)

abbrev pub remove_at : ℕ → List OpenFlow → List OpenFlow
remove_at i [] = []
remove_at zero (f ∷ fs) = fs
remove_at (suc i) (f ∷ fs) = f ∷ remove_at i fs

-- A flow closes once (`releaseOnce`): it is then no longer open.
unfoldable pub close_flow : ℕ → World → World
close_flow i w = elim (get_elem? w.flows i) [
  | none ↦ w
  | some f ↦ record { registry = release f.runtime w.registry; flows = remove_at i w.flows }
]

length-acquire_runtime : (a : ℕ) (heap : List ℕ) → length (acquire_runtime a heap) ≡ length heap
unfolding acquire_runtime
length-acquire_runtime a heap = grind (arith, length-set)

length-release_runtime : (a : ℕ) (heap : List ℕ) → length (release_runtime a heap) ≡ length heap
unfolding release_runtime
length-release_runtime a heap = grind (arith, length-set)

-- One more flow on a runtime.
bump-IsSound :
    (w : World) (f : OpenFlow)
    → f.runtime < length w.registry.heap
    → KeepsRuntime w.registry f
    → IsSound w
    → IsSound (record {
      registry = record (w.registry) { heap = acquire_runtime f.runtime w.registry.heap };
      flows = f ∷ w.flows;
    })
bump-IsSound w f lt keeps s = record {
  counted = λ a k h. elim (Option-cases (get_elem? w.registry.heap a)) [
    | inl e ↦ absurd (ground (arith, acquire_runtime-at f.runtime a w.registry.heap))
    | inr (m, e) ↦ ground (arith, acquire_runtime-at f.runtime a w.registry.heap, s.counted a m e)
  ];
  allocated = (
    omega (arith, length-acquire_runtime f.runtime w.registry.heap),
    All-map (λ g h. omega (arith, length-acquire_runtime f.runtime w.registry.heap)) w.flows
        s.allocated,
  );
  placed =
      λ t e a h. omega (arith, s.placed t e a h, length-acquire_runtime f.runtime w.registry.heap);
  kept = (keeps, s.kept);
}

ensure_runtime-at :
    (email : Str) (n : ManagedUserNode) (heap : List ℕ)
    → let (s, a) = ensure_runtime email (n, heap) in load Str-discrete email s.0.runtime ≡ some a
unfolding ensure_runtime
ensure_runtime-at email n heap =
    ground (arith, load-store_self Str-discrete email (length heap) n.runtime)

module _ (tag email : Str) (r : UserFlowRegistry) where
  pub acquire_unmanaged :
      load Str-discrete tag r.nodes ≡ none
      → acquire tag email r ≡ (record r { heap = r.heap ++ 1 ∷ [] }, some (length r.heap))
  unfolding acquire
  acquire_unmanaged h = ground arith

  pub acquire_stranger :
      (n : ManagedUserNode)
      → load Str-discrete tag r.nodes ≡ some n
      → load Str-discrete email n.current ≡ none
      → acquire tag email r ≡ (r, none)
  unfolding acquire
  acquire_stranger n h k = ground arith

  pub acquire_current :
      (n : ManagedUserNode) (u : Unit {0})
      → load Str-discrete tag r.nodes ≡ some n
      → load Str-discrete email n.current ≡ some u
      → let (s, a) = ensure_runtime email (n, r.heap) in
        acquire tag email r ≡ (put_node tag (s.0, acquire_runtime a s.1) r, some a)
  unfolding acquire
  acquire_current n u h k = ground arith

pub node_here :
    (tag : Str) (r : UserFlowRegistry) (n : ManagedUserNode)
    → load Str-discrete tag r.nodes ≡ some n
    → node tag r ≡ n
unfolding node
node_here tag r n h = ground arith

-- A flow with a runtime of its own.
open_unmanaged-IsSound :
    (tag email : Str) (w : World)
    → load Str-discrete tag w.registry.nodes ≡ none
    → IsSound w
    → IsSound (
        opened tag email w
          (record (w.registry) { heap = w.registry.heap ++ 1 ∷ [] }, some (length w.registry.heap)))
open_unmanaged-IsSound tag email w absent s =
    let grown = length-append w.registry.heap (1 ∷ []) in
    record {
      counted = λ a k h. ground (
        arith,
        get_elem?-append_zero w.registry.heap a k 1,
        s.counted a k,
        get_elem?-lt w.registry.heap a k,
        count_at-fresh (length w.registry.heap) a w.flows s.allocated,
      );
      allocated = (omega (arith, grown), All-map (λ g h. omega (arith, grown)) w.flows s.allocated);
      placed = λ t e a h. omega (arith, s.placed t e a h, grown);
      kept = ((λ m. absurd (ground arith)), s.kept);
    }

pub open_flow-IsSound : (tag email : Str) (w : World) → IsSound w → IsSound (open_flow tag email w)
unfolding open_flow
open_flow-IsSound tag email w s = elim (Option-cases (load Str-discrete tag w.registry.nodes)) [
  | inl unmanaged ↦
      becomes (acquire_unmanaged tag email w.registry unmanaged)
        (open_unmanaged-IsSound tag email w unmanaged s)
  | inr (n, here) ↦ (elim (Option-cases (load Str-discrete email n.current)) [
    | inl stranger ↦ becomes (acquire_stranger tag email w.registry n here stranger) s
    | inr (u, current) ↦
        becomes (acquire_current tag email w.registry n u here current) (managed n here)
  ])
]
  where
    becomes :
        {p : UserFlowRegistry × Option ℕ}
        → acquire tag email w.registry ≡ p
        → IsSound (opened tag email w p)
        → IsSound (opened tag email w (acquire tag email w.registry))
    becomes e h = subst (λ p. IsSound (opened tag email w p)) (sym e) h

    managed :
        (n : ManagedUserNode)
        → load Str-discrete tag w.registry.nodes ≡ some n
        → let (m, a) = ensure_runtime email (n, w.registry.heap) in
          IsSound
            (opened tag email w (put_node tag (m.0, acquire_runtime a m.1) w.registry, some a))
    managed n here =
        let (m, a) = ensure_runtime email (n, w.registry.heap) in
        let extended : World = record w { registry = put_node tag m w.registry } in
        let sound : IsSound extended =
          extend-IsSound w tag m.0 m.1
            (ensure_runtime-Extends email n (node tag w.registry) w.registry.heap
              (ap (λ k. k.runtime) (sym (node_here tag w.registry n here))))
            s in
        let at : runtime_at tag email extended.registry ≡ some a = ground (
          arith,
          ensure_runtime-at email n w.registry.heap,
          load-store_self Str-discrete tag m.0 w.registry.nodes,
        ) in
        bump-IsSound extended
          (record { tag = tag; email = email; runtime = a; managed = has_node tag w.registry })
          (sound.placed tag email a at) (λ _. at) sound

remove_at-All {ℓ} :
    (P : OpenFlow → Type ℓ) (i : ℕ) (fs : List OpenFlow) → All P fs → All P (remove_at i fs)
remove_at-All P i [] h = tt
remove_at-All P zero (f ∷ fs) h = h.1
remove_at-All P (suc i) (f ∷ fs) h = (h.0, remove_at-All P i fs h.1)

count_at-remove_at :
    (i a : ℕ) (fs : List OpenFlow) (f : OpenFlow)
    → get_elem? fs i ≡ some f
    → count_at a fs ≡ ite (ℕ_discrete f.runtime a) 1 0 + count_at a (remove_at i fs)
count_at-remove_at i a [] f h = absurd (cc)
count_at-remove_at zero a (g ∷ fs) f h = ground arith
count_at-remove_at (suc i) a (g ∷ fs) f h = ground (arith, count_at-remove_at i a fs f h)

closed-IsSound :
    (i : ℕ) (w : World)
    → IsSound w
    → (f : OpenFlow) → get_elem? w.flows i ≡ some f
    → IsSound (record { registry = release f.runtime w.registry; flows = remove_at i w.flows })
unfolding release
closed-IsSound i w s f present =
    let same = length-release_runtime f.runtime w.registry.heap in
    record {
      counted = λ a k h. elim (Option-cases (get_elem? w.registry.heap a)) [
        | inl e ↦ absurd (ground (arith, release_runtime-at f.runtime a w.registry.heap))
        | inr (m, e) ↦ ground (
          arith,
          release_runtime-at f.runtime a w.registry.heap,
          s.counted a m e,
          count_at-remove_at i a w.flows f present,
        )
      ];
      allocated =
          remove_at-All _ i w.flows (All-map (λ g h. omega (arith, same)) w.flows s.allocated);
      placed = λ t e a h. omega (arith, s.placed t e a h, same);
      kept = remove_at-All _ i w.flows s.kept;
    }

pub close_flow-IsSound : (i : ℕ) (w : World) → IsSound w → IsSound (close_flow i w)
unfolding close_flow
close_flow-IsSound i w s = elim (Option-cases (get_elem? w.flows i)) [
  | inl absent ↦ rw (absent, close_flow) s
  | inr (f, present) ↦ rw (present, close_flow) (closed-IsSound i w s f present)
]

-- ===== src/Flow/World.antt =====
-- The registry together with the flows that are open. However the calls interleave, the counts
-- are right, and an open flow keeps its user's runtime.

use oldxr.Base.{
  ℕ, ◌+◌, ◌≤◌, ◌<◌, ◌≡◌, refl, Bool, true, false, Option, none, some, List, [], ◌∷◌, length,
  get_elem?, arith, ite, ℕ_discrete, All, All-map,
}
use oldxr.Base.Dict.{load, load-store, load-nil}
use oldxr.Base.Text.{Str, Str-discrete}
use oldxr.Flow.{ManagedUserNode, UserFlowRegistry, node, put_node, register, retire}
use oldxr.Flow.Registry.{Extends, register_users-Extends, retire_users-Extends}

-- An open flow: whose it is, its runtime, and whether its inbound had a node when it opened.
pub record OpenFlow : Type 0 where
  pub tag : Str
  pub email : Str
  pub runtime : ℕ
  pub managed : Bool

pub record World : Type 0 where
  pub registry : UserFlowRegistry
  pub flows : List OpenFlow

abbrev pub runtime_at : Str → Str → UserFlowRegistry → Option ℕ
runtime_at tag email r = elim (load Str-discrete tag r.nodes) [
  | none ↦ none
  | some n ↦ load Str-discrete email n.runtime
]

abbrev pub has_node : Str → UserFlowRegistry → Bool
has_node tag r = elim (load Str-discrete tag r.nodes) [ none ↦ false | some n ↦ true ]

-- How many open flows count on the runtime at an address.
abbrev pub count_at : ℕ → List OpenFlow → ℕ
count_at a [] = 0
count_at a (f ∷ fs) = ite (ℕ_discrete f.runtime a) 1 0 + count_at a fs

abbrev pub KeepsRuntime : UserFlowRegistry → OpenFlow → Type 0
KeepsRuntime r f = f.managed ≡ true → runtime_at f.tag f.email r ≡ some f.runtime

pub record IsSound (w : World) : Type 0 where
  pub counted : (a k : ℕ) → get_elem? w.registry.heap a ≡ some k → k ≡ count_at a w.flows
  pub allocated : All (λ f. f.runtime < length w.registry.heap) w.flows
  pub placed :
      (tag email : Str) (a : ℕ)
      → runtime_at tag email w.registry ≡ some a
      → a < length w.registry.heap
  pub kept : All (KeepsRuntime w.registry) w.flows

pub count_at-fresh :
    (n a : ℕ) (fs : List OpenFlow) → All (λ f. f.runtime < n) fs → n ≤ a → count_at a fs ≡ 0
count_at-fresh n a [] h k = refl
count_at-fresh n a (f ∷ fs) h k = ground (arith, count_at-fresh n a fs h.1)

-- A call that only adds runtimes to one node.
pub extend-IsSound :
    (w : World) (tag : Str) (n' : ManagedUserNode) (heap' : List ℕ)
    → Extends (node tag w.registry) w.registry.heap n' heap'
    → IsSound w
    → IsSound (record w { registry = put_node tag (n', heap') w.registry })
unfolding node
extend-IsSound w tag n' heap' x s = record {
  counted = λ a k h. ground (
    arith,
    x.fresh a k,
    s.counted a k,
    count_at-fresh (length w.registry.heap) a w.flows s.allocated,
  );
  allocated = All-map (λ f h. omega (arith, x.longer)) w.flows s.allocated;
  placed = λ t e a h. ground (
    arith,
    load-store Str-discrete tag t n' w.registry.nodes,
    x.origin e a,
    s.placed t e a,
    x.longer,
    load-nil {V = ℕ} Str-discrete e,
  );
  kept =
      All-map
        (λ f h m. ground (
          arith,
          h m,
          load-store Str-discrete tag f.tag n' w.registry.nodes,
          x.kept f.email f.runtime,
        ))
        w.flows s.kept;
}

pub register-IsSound :
    (tag : Str) (emails : List Str) (w : World)
    → IsSound w
    → IsSound (record w { registry = register tag emails w.registry })
unfolding register
register-IsSound tag emails w =
    extend-IsSound w tag _ _ (register_users-Extends emails (node tag w.registry) w.registry.heap)

pub retire-IsSound :
    (tag : Str) (emails : List Str) (w : World)
    → IsSound w
    → IsSound (record w { registry = retire tag emails w.registry })
unfolding retire
retire-IsSound tag emails w =
    extend-IsSound w tag _ _ (retire_users-Extends emails (node tag w.registry) w.registry.heap)

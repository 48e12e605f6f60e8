-- ===== src/Flow.antt =====
-- app/mydispatcher/user_lifecycle.go: which users may open a flow, and when a removed user's
-- counters may go.
--
-- A `*userFlowRuntime` is an address in `heap`, which holds its `active` count. The count starts
-- at 0 and `release` stops there, so it is a number; it never nears 2^63, the count of flows that
-- are open at once. Each method runs under the registry's mutex, as one step.
pub mod Registry
pub mod World
pub mod Opening
pub mod Retirement
pub mod Admission
pub mod Connection
mod Tests
use oldxr.Base.{
  ℕ, zero, suc, ◌-◌, ◌≡◌, ◌++◌, Bool, true, false, ◌&&◌, Option, none, some, List, [], ◌∷◌, ltb,
  ◌==◌, if◌then◌else◌, length, get_elem?, set,
}
use oldxr.Base.Dict.{Dict, load, store, delete}
use oldxr.Base.Text.{Str, Str-discrete}

-- `current` is a set of keys; the runtimes are addresses.
pub record ManagedUserNode : Type 0 where
  pub current : Dict Str (Unit {0})
  pub runtime : Dict Str ℕ

pub record UserFlowRegistry : Type 0 where
  pub nodes : Dict Str ManagedUserNode
  pub heap : List ℕ

abbrev pub new_node : ManagedUserNode
new_node = record { current = []; runtime = [] }

abbrev pub new_registry : UserFlowRegistry
new_registry = record { nodes = []; heap = [] }

-- `userFlowRuntime.acquire` and `release`, on the count at an address.
unfoldable pub acquire_runtime : ℕ → List ℕ → List ℕ
acquire_runtime a heap = elim (get_elem? heap a) [ none ↦ heap | some n ↦ set heap a (suc n) ]

unfoldable pub release_runtime : ℕ → List ℕ → List ℕ
release_runtime a heap = elim (get_elem? heap a) [
  | none ↦ heap
  | some zero ↦ heap
  | some (suc n) ↦ set heap a n
]

-- The node of a tag, made if there is none.
unfoldable pub node : Str → UserFlowRegistry → ManagedUserNode
node tag r = elim (load Str-discrete tag r.nodes) [ none ↦ new_node | some n ↦ n ]

-- The user's runtime, made if there is none.
unfoldable pub ensure_runtime : Str → ManagedUserNode × List ℕ → (ManagedUserNode × List ℕ) × ℕ
ensure_runtime email (n, heap) = elim (load Str-discrete email n.runtime) [
  | some a ↦ ((n, heap), a)
  | none ↦ (
    (record n { runtime = store Str-discrete email (length heap) n.runtime }, heap ++ 0 ∷ []),
    length heap,
  )
]

unfoldable pub register_users : List Str → ManagedUserNode × List ℕ → ManagedUserNode × List ℕ
register_users [] s = s
register_users (email ∷ emails) (n, heap) =
    register_users emails (
      (ensure_runtime email (record n { current = store Str-discrete email tt n.current }, heap)).0)

unfoldable pub retire_users : List Str → ManagedUserNode × List ℕ → ManagedUserNode × List ℕ
retire_users [] s = s
retire_users (email ∷ emails) (n, heap) =
    retire_users emails
      ((ensure_runtime email (record n { current = delete Str-discrete email n.current }, heap)).0)

abbrev pub put_node : Str → ManagedUserNode × List ℕ → UserFlowRegistry → UserFlowRegistry
put_node tag s r = record { nodes = store Str-discrete tag s.0 r.nodes; heap = s.1 }

unfoldable pub register : Str → List Str → UserFlowRegistry → UserFlowRegistry
register tag emails r = put_node tag (register_users emails (node tag r, r.heap)) r

unfoldable pub retire : Str → List Str → UserFlowRegistry → UserFlowRegistry
retire tag emails r = put_node tag (retire_users emails (node tag r, r.heap)) r

-- The runtime of a new flow, `none` for a user who may open none. An inbound without a node
-- gives each flow a runtime of its own.
unfoldable pub acquire : Str → Str → UserFlowRegistry → UserFlowRegistry × Option ℕ
acquire tag email r = elim (load Str-discrete tag r.nodes) [
  | none ↦ (record r { heap = r.heap ++ 1 ∷ [] }, some (length r.heap))
  | some n ↦ elim (load Str-discrete email n.current) [
    | none ↦ (r, none)
    | some u ↦
        let (s, a) = ensure_runtime email (n, r.heap) in
        (put_node tag (s.0, acquire_runtime a s.1) r, some a)
  ]
]

-- `userIO.Release` for a flow's runtime.
unfoldable pub release : ℕ → UserFlowRegistry → UserFlowRegistry
release a r = record r { heap = release_runtime a r.heap }

-- `active.Load() != 0` at an address.
unfoldable pub is_idle : ℕ → List ℕ → Bool
is_idle a heap = elim (get_elem? heap a) [ none ↦ false | some n ↦ n == 0 ]

-- `S` is the state that `cleanup` works on; its answer says whether it did.
module _ {S : Type 0} (cleanup : S → S × Bool) where
  unfoldable pub finalize_idle :
      Str → Str → ManagedUserNode → UserFlowRegistry × S → (UserFlowRegistry × S) × Bool
  finalize_idle tag email n (r, s) =
      let (s', done) = cleanup s in
      if done
      then (
        (
          record r {
            nodes =
                store Str-discrete tag (record n { runtime = delete Str-discrete email n.runtime })
                  r.nodes;
          },
          s',
        ),
        true,
      )
      else ((r, s'), false)

  unfoldable pub finalize : Str → Str → UserFlowRegistry × S → (UserFlowRegistry × S) × Bool
  finalize tag email (r, s) = elim (load Str-discrete tag r.nodes) [
    | none ↦ ((r, s), false)
    | some n ↦ elim (load Str-discrete email n.current) [
      | some u ↦ ((r, s), false)
      | none ↦ elim (load Str-discrete email n.runtime) [
        | none ↦ ((r, s), false)
        | some a ↦ if is_idle a r.heap then finalize_idle tag email n (r, s) else ((r, s), false)
      ]
    ]
  ]

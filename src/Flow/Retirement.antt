-- ===== src/Flow/Retirement.antt =====
-- A retired user opens no flow, and is finalized only when the last flow has closed.
use oldxr.Base.{
  ℕ, ◌<◌, ◌≡◌, sym, ◌≢◌, inl, inr, Bool, true, false, none, some, List, [], ◌∷◌, length, get_elem?,
  arith, All, All-map, All-map₂, Option-cases, Bool-cases, subst,
}
use oldxr.Base.Dict.{load, store, delete, load-store, load-delete, load-nil}
use oldxr.Base.Text.{Str, Str-discrete}
use oldxr.Flow.{
  ManagedUserNode, UserFlowRegistry, node, register, retire, finalize, finalize_idle, is_idle,
  new_registry,
}
use oldxr.Flow.World.{OpenFlow, World, IsSound, count_at, register-IsSound, retire-IsSound}
use oldxr.Flow.Opening.{open_flow, close_flow, open_flow-IsSound, close_flow-IsSound, node_here}

-- What a finalization that succeeds has found and done.
record Finalized (tag email : Str) (r r' : UserFlowRegistry) : Type 0 where
  n : ManagedUserNode
  a : ℕ
  here : load Str-discrete tag r.nodes ≡ some n
  retired : load Str-discrete email n.current ≡ none
  runtime : load Str-discrete email n.runtime ≡ some a
  idle : get_elem? r.heap a ≡ some 0
  heap : r'.heap ≡ r.heap
  nodes :
      r'.nodes
      ≡ store Str-discrete tag (record n { runtime = delete Str-discrete email n.runtime }) r.nodes

module _ {S : Type 0} (cleanup : S → S × Bool) (tag email : Str) (r : UserFlowRegistry)
    (s : S) where
  is_idle-zero : (a : ℕ) → is_idle a r.heap ≡ true → get_elem? r.heap a ≡ some 0
  unfolding is_idle
  is_idle-zero a h = ground arith

  finalize-true :
      (finalize cleanup tag email (r, s)).1 ≡ true
      → Finalized tag email r (finalize cleanup tag email (r, s)).0.0
  unfolding finalize finalize_idle
  finalize-true h = elim (Option-cases (load Str-discrete tag r.nodes)) [
    | inl e ↦ absurd (ground arith)
    | inr (n, here) ↦ (elim (Option-cases (load Str-discrete email n.runtime)) [
      | inl e ↦ absurd (ground arith)
      | inr (a, at) ↦ record {
        n = n;
        a = a;
        here = here;
        retired = ground arith;
        runtime = at;
        idle = ground (arith, is_idle-zero a);
        heap = ground arith;
        nodes = ground arith;
      }
    ])
  ]

  finalize_cleanup :
      (finalize cleanup tag email (r, s)).1 ≡ true
      → ((finalize cleanup tag email (r, s)).0.1 ≡ (cleanup s).0) × ((cleanup s).1 ≡ true)
  unfolding finalize finalize_idle
  finalize_cleanup h = ground arith

  finalize-false :
      (finalize cleanup tag email (r, s)).1 ≡ false → (finalize cleanup tag email (r, s)).0.0 ≡ r
  unfolding finalize finalize_idle
  finalize-false h = ground arith

-- A managed flow of a user.
abbrev pub IsFlowOf : Str → Str → OpenFlow → Type 0
IsFlowOf tag email f = (f.managed ≡ true) × (f.tag ≡ tag) × (f.email ≡ email)

count_at-zero : (a : ℕ) (fs : List OpenFlow) → count_at a fs ≡ 0 → All (λ f. f.runtime ≢ a) fs
count_at-zero a [] h = tt
count_at-zero a (f ∷ fs) h = ((λ e. ground arith), count_at-zero a fs (ground arith))

module _ {w : World} {tag email : Str} {r' : UserFlowRegistry} (s : IsSound w)
    (f : Finalized tag email w.registry r') where
  finalized_no_flow : All (λ g. ¬ IsFlowOf tag email g) w.flows
  finalized_no_flow =
      All-map₂ (λ g keeps other m. other (ground (arith, keeps m.0, f.here, f.runtime))) w.flows
        s.kept (count_at-zero f.a w.flows (sym (s.counted f.a 0 f.idle)))

  finalized-IsSound : IsSound (record w { registry = r' })
  finalized-IsSound =
      let n' = record (f.n) { runtime = delete Str-discrete email f.n.runtime } in
      record {
        counted = λ a k h. s.counted a k (subst (λ hp. get_elem? hp a ≡ some k) f.heap h);
        allocated =
            All-map (λ g h. subst (λ hp. g.runtime < length hp) (sym f.heap) h) w.flows s.allocated;
        placed = λ t e a h.
            subst (λ hp. a < length hp) (sym f.heap)
              (s.placed t e a (
                ground (
                  arith,
                  f.nodes,
                  f.here,
                  load-store Str-discrete tag t n' w.registry.nodes,
                  load-delete Str-discrete email e f.n.runtime,
                )));
        kept =
            All-map₂
              (λ g keeps other m. ground (
                arith,
                keeps m,
                f.nodes,
                f.here,
                other,
                load-store Str-discrete tag g.tag n' w.registry.nodes,
                load-delete Str-discrete email g.email f.n.runtime,
              ))
              w.flows s.kept finalized_no_flow;
      }

-- The calls that the controller and the connections make; `finalizes` has the answer of the
-- cleanup that it is given.
pub data Call : Type 0 where
  registers retires : Str → List Str → Call
  opens : Str → Str → Call
  closes : ℕ → Call
  finalizes : Str → Str → Bool → Call

abbrev answer : Bool → Unit {0} → Unit {0} × Bool
answer done s = (s, done)

unfoldable pub step : World → Call → World
step w (registers tag emails) = record w { registry = register tag emails w.registry }
step w (retires tag emails) = record w { registry = retire tag emails w.registry }
step w (opens tag email) = open_flow tag email w
step w (closes i) = close_flow i w
step w (finalizes tag email done) = record w {
  registry = (finalize (answer done) tag email (w.registry, tt)).0.0;
}

unfoldable pub run : World → List Call → World
unfolding step
run w [] = w
run w (c ∷ cs) = run (step w c) cs

step-IsSound : (w : World) (c : Call) → IsSound w → IsSound (step w c)
unfolding step
step-IsSound w (registers tag emails) s = register-IsSound tag emails w s
step-IsSound w (retires tag emails) s = retire-IsSound tag emails w s
step-IsSound w (opens tag email) s = open_flow-IsSound tag email w s
step-IsSound w (closes i) s = close_flow-IsSound i w s
step-IsSound w (finalizes tag email done) s =
    elim (Bool-cases (finalize (answer done) tag email (w.registry, tt)).1) [
      | inl yes_done ↦
          finalized-IsSound s (finalize-true (answer done) tag email w.registry tt yes_done)
      | inr not_done ↦
          subst (λ r. IsSound (record w { registry = r }))
            (sym (finalize-false (answer done) tag email w.registry tt not_done)) s
    ]

abbrev pub empty_world : World
empty_world = record { registry = new_registry; flows = [] }

run-IsSound : (w : World) (cs : List Call) → IsSound w → IsSound (run w cs)
unfolding run
run-IsSound w [] s = s
run-IsSound w (c ∷ cs) s = run-IsSound (step w c) cs (step-IsSound w c s)

empty_world-IsSound : IsSound empty_world
empty_world-IsSound = record {
  counted = λ a k h. absurd (cc);
  allocated = tt;
  placed = λ t e a h. absurd (ground (arith, load-nil {V = ManagedUserNode} Str-discrete t));
  kept = tt;
}

-- However the calls interleave, every count is the number of open flows on its runtime, and a
-- flow that opened under a node still has its user's runtime in that node.
pub runtimes-IsSound : (cs : List Call) → IsSound (run empty_world cs)
runtimes-IsSound cs = run-IsSound empty_world cs empty_world-IsSound

-- After any calls: if finalizing a user succeeds, then the user is retired, the cleanup ran and
-- agreed, and no flow that the user opened under the node is open.
pub finalized_user_has_no_flow :
    {S : Type 0} (cs : List Call) (cleanup : S → S × Bool) (tag email : Str) (s : S)
    → (finalize cleanup tag email ((run empty_world cs).registry, s)).1 ≡ true
    → let w = run empty_world cs in
      All (λ f. ¬ IsFlowOf tag email f) w.flows
      × (load Str-discrete email (node tag w.registry).current ≡ none)
      × ((finalize cleanup tag email (w.registry, s)).0.1 ≡ (cleanup s).0)
      × ((cleanup s).1 ≡ true)
finalized_user_has_no_flow cs cleanup tag email s h =
    let w = run empty_world cs in
    let f = finalize-true cleanup tag email w.registry s h in
    (
      finalized_no_flow (runtimes-IsSound cs) f,
      rw (node_here tag w.registry f.n f.here) f.retired,
      (finalize_cleanup cleanup tag email w.registry s h).0,
      (finalize_cleanup cleanup tag email w.registry s h).1,
    )

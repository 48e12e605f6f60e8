-- ===== src/Dispatch/Soundness.antt =====
-- A connection that is refused leaves nothing behind in the registry; one that is admitted counts.
use oldxr.Base.{
  ◌≡◌, refl, sym, ◌⊎◌, inl, inr, Option, none, some, List, ◌∷◌, arith, subst, Option-cases,
  Bool-cases,
}
use oldxr.Base.Text.{is_empty}
use oldxr.Limiter.{RateOps, CacheOps}
use oldxr.Limiter.Admit.{get_user_bucket}
use oldxr.Flow.{UserFlowRegistry, acquire}
use oldxr.Flow.World.{OpenFlow, World, IsSound, has_node}
use oldxr.Flow.Opening.{open_flow, close_flow, open_flow-IsSound, close_flow-IsSound}
use oldxr.Dispatch.{
  ManagerOps, Session, UserIo, Refusal, DefaultDispatcher, limit_user_io, get_user_io,
}

-- The flows that are open after an answer: one more if it comes with a runtime.
abbrev pub flows_after :
    {A : Type 0}
    → Option Session
    → UserFlowRegistry
    → UserIo A ⊎ Refusal
    → List OpenFlow
    → List OpenFlow
flows_after none r answer flows = flows
flows_after (some session) r (inr refusal) flows = flows
flows_after (some session) r (inl io) flows = elim (io.runtime) [
  | none ↦ flows
  | some a ↦
      record {
        tag = session.tag;
        email = session.email;
        runtime = a;
        managed = has_node session.tag r;
      }
      ∷ flows
]

module _ {A S B R G : Type 0} (manager : ManagerOps A S) (rate : RateOps B R)
    (cache : CacheOps G) where
  world_after : Option Session → DefaultDispatcher B G S → List OpenFlow → World
  world_after session d flows =
      let (d', answer) = get_user_io manager rate cache session d in
      record { registry = d'.user_flows; flows = flows_after session d.user_flows answer flows }

  world_after_cases :
      (session : Session) (d : DefaultDispatcher B G S) (flows : List OpenFlow)
      → let w : World = record { registry = d.user_flows; flows = flows } in
        let w' = open_flow session.tag session.email w in
        (world_after (some session) d flows ≡ w)
        ⊎ ((world_after (some session) d flows ≡ w')
            ⊎ (world_after (some session) d flows ≡ close_flow 0 w'))
  unfolding world_after get_user_io limit_user_io open_flow close_flow
  world_after_cases session d flows =
      let answer = acquire session.tag session.email d.user_flows in
      let d1 : DefaultDispatcher B G S = record d { user_flows = answer.0 } in
      elim (Bool-cases (is_empty session.email)) [
        | inl e ↦ inl (rw (e, get_user_io) refl)
        | inr e ↦ elim (Option-cases answer.1) [
          | inl refused ↦ inr (inl (ground arith))
          | inr (a, allowed) ↦
              (elim (Bool-cases
                (get_user_bucket rate cache session.tag session.email session.source_ip
                  d.limiter).1.reject) [
                    | inl over ↦ inr (inr (ground arith))
                    | inr within ↦ inr (inl (ground arith))
                  ])
        ]
      ]

  -- Whatever the answer to a new connection, the registry's counts are right for the flows that
  -- are then open: those before, and this one if and only if it got a runtime.
  pub get_user_io-IsSound :
      (session : Option Session) (d : DefaultDispatcher B G S) (flows : List OpenFlow)
      → IsSound (record { registry = d.user_flows; flows = flows })
      → let (d', answer) = get_user_io manager rate cache session d in
        IsSound (record {
          registry = d'.user_flows;
          flows = flows_after session d.user_flows answer flows;
        })
  unfolding world_after get_user_io
  get_user_io-IsSound none d flows sound = sound
  get_user_io-IsSound (some session) d flows sound =
      let w : World = record { registry = d.user_flows; flows = flows } in
      let w' = open_flow session.tag session.email w in
      let sound' = open_flow-IsSound session.tag session.email w sound in
      elim (world_after_cases session d flows) [
        | inl e ↦ subst IsSound (sym e) sound
        | inr (inl e) ↦ subst IsSound (sym e) sound'
        | inr (inr e) ↦ subst IsSound (sym e) (close_flow-IsSound 0 w' sound')
      ]

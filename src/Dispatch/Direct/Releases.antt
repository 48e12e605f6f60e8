-- ===== src/Dispatch/Direct/Releases.antt =====
-- A direct link holds the user's flow; every other end of `DispatchDirect` gives it back.
use oldxr.Base.{
  ℕ, ◌≡◌, refl, sym, subst, ◌⊎◌, inl, inr, Bool, true, false, Option, none, some, List, ◌∷◌, arith,
  Option-cases,
}
use oldxr.Limiter.{RateOps, CacheOps}
use oldxr.Flow.{UserFlowRegistry}
use oldxr.Flow.World.{OpenFlow, IsSound, has_node}
use oldxr.Flow.Opening.{close_flow, close_flow-IsSound}
use oldxr.Rule.{PatternOps, SetOps}
use oldxr.Dispatch.{ManagerOps, Session, UserIo, Refusal, DefaultDispatcher, get_user_io}
use oldxr.Dispatch.Soundness.{flows_after, get_user_io-IsSound}
use oldxr.Dispatch.Direct.{
  RouteOps, Opened, not_direct, open_failed, unsupported, invalid_link, opened, Direct, Outcome,
  fallback, failed, linked, Call, release_if, release_io, take_link, route_flow, with_flow,
  open_selected, early_end, start_direct, SelectError, dispatch_direct,
}

-- The flows that are open at the end: one more with a link whose user has a runtime.
abbrev pub flows_at_end :
    {L A : Type 0} → Option Session → UserFlowRegistry → Outcome L A → List OpenFlow → List OpenFlow
flows_at_end session r fallback flows = flows
flows_at_end session r failed flows = flows
flows_at_end session r (linked link io) flows = flows_after session r (inl io) flows

-- The flow of a session with a runtime, and the flows with it.
abbrev flow_of : Session → UserFlowRegistry → ℕ → OpenFlow
flow_of session r a = record {
  tag = session.tag;
  email = session.email;
  runtime = a;
  managed = has_node session.tag r;
}

module _ {B G C P S : Type 0} where
  abbrev pub HoldsFlows : List OpenFlow → Direct B G C P S → Type 0
  HoldsFlows flows s = IsSound (record { registry = s.dispatcher.user_flows; flows = flows })

  release_if-IsSound :
      (f : OpenFlow) (flows : List OpenFlow) (s : Direct B G C P S)
      → HoldsFlows (f ∷ flows) s
      → HoldsFlows flows (release_if (some f.runtime) s)
  unfolding release_if close_flow
  release_if-IsSound f flows s sound =
      close_flow-IsSound 0 (record { registry = s.dispatcher.user_flows; flows = f ∷ flows }) sound

  flows_after-refused :
      (A : Type 0) (session : Option Session) (r : UserFlowRegistry) (refusal : Refusal)
      (flows : List OpenFlow) (s : Direct B G C P S)
      → HoldsFlows (flows_after {A = A} session r (inr refusal) flows) s
      → HoldsFlows flows s
  flows_after-refused A none r refusal flows s sound = sound
  flows_after-refused A (some session) r refusal flows s sound = sound

module _ {B G C P S A : Type 0} where
  -- The flow of an answer, released again. Without a session it has no runtime.
  release_io-IsSound :
      (session : Option Session) (r : UserFlowRegistry) (io : UserIo A) (flows : List OpenFlow)
      (s : Direct B G C P S)
      → (session ≡ none → io.runtime ≡ none)
      → HoldsFlows (flows_after session r (inl io) flows) s
      → HoldsFlows flows (release_io io s)
  unfolding release_io
  release_io-IsSound none r io flows s no_runtime sound =
      subst (λ o. HoldsFlows flows (release_if o s)) (sym (no_runtime refl)) sound
  release_io-IsSound (some session) r io flows s no_runtime sound =
      elim (Option-cases (io.runtime)) [
        | inl e ↦
            let same : flows_after (some session) r (inl io) flows ≡ flows = ground (arith, e) in
            subst (λ o. HoldsFlows flows (release_if o s)) (sym e)
              (subst (λ fs. HoldsFlows fs s) same sound)
        | inr (a, e) ↦
            let f = flow_of session r a in
            let same : flows_after (some session) r (inl io) flows ≡ f ∷ flows =
              ground (arith, e) in
            subst (λ o. HoldsFlows flows (release_if o s)) (sym e)
              (release_if-IsSound f flows s (subst (λ fs. HoldsFlows fs s) same sound))
      ]

  take_link-IsSound :
      {L : Type 0} (o : Opened L) (session : Option Session) (r : UserFlowRegistry) (io : UserIo A)
      (flows : List OpenFlow) (s : Direct B G C P S)
      → (session ≡ none → io.runtime ≡ none)
      → HoldsFlows (flows_after session r (inl io) flows) s
      → let (s', outcome) = take_link o io s in HoldsFlows (flows_at_end session r outcome flows) s'
  unfolding take_link
  take_link-IsSound not_direct session r io flows s h sound =
      release_io-IsSound session r io flows s h sound
  take_link-IsSound open_failed session r io flows s h sound =
      release_io-IsSound session r io flows s h sound
  take_link-IsSound unsupported session r io flows s h sound =
      release_io-IsSound session r io flows s h sound
  take_link-IsSound invalid_link session r io flows s h sound =
      release_io-IsSound session r io flows s h sound
  take_link-IsSound (opened link) session r io flows s h sound = sound

  open_selected-IsSound :
      {D T H L : Type 0} (ops : RouteOps D T H L) (selected : (H × D) ⊎ SelectError)
      (session : Option Session) (r : UserFlowRegistry) (io : UserIo A) (flows : List OpenFlow)
      (s : Direct B G C P S)
      → (session ≡ none → io.runtime ≡ none)
      → HoldsFlows (flows_after session r (inl io) flows) s
      → let (s', outcome) = open_selected ops selected io s in
        HoldsFlows (flows_at_end session r outcome flows) s'
  unfolding open_selected
  open_selected-IsSound ops (inr e) session r io flows s h sound =
      release_io-IsSound session r io flows s h sound
  open_selected-IsSound ops (inl (handler, target)) session r io flows s h sound =
      take_link-IsSound (ops.open_direct handler target) session r io flows s h sound

module _ {D T H L A C B R G P S : Type 0} (ops : RouteOps D T H L) (manager : ManagerOps A C)
    (rate : RateOps B R) (cache : CacheOps G) (patterns : PatternOps P) (sets : SetOps S) where
  -- Without a user no flow has a runtime.
  get_user_io-no_runtime :
      (session : Option Session) (d : DefaultDispatcher B G C) (io : UserIo A)
      → (get_user_io manager rate cache session d).1 ≡ inl io
      → session ≡ none
      → io.runtime ≡ none
  unfolding get_user_io
  get_user_io-no_runtime none d io h none_there = ground (arith, h)
  get_user_io-no_runtime (some session) d io h none_there = absurd (ground (arith, none_there))

  with_flow-IsSound :
      (call : Call) (destination : D) (sniffed : Option (T × Bool)) (r : UserFlowRegistry)
      (answer : UserIo A ⊎ Refusal) (flows : List OpenFlow) (s : Direct B G C P S)
      → ((io : UserIo A) → answer ≡ inl io → call.session ≡ none → io.runtime ≡ none)
      → HoldsFlows (flows_after call.session r answer flows) s
      → let (s', outcome) = with_flow ops patterns sets call destination sniffed answer s in
        HoldsFlows (flows_at_end call.session r outcome flows) s'
  unfolding with_flow route_flow
  with_flow-IsSound call destination sniffed r (inr refusal) flows s h sound =
      flows_after-refused A call.session r refusal flows s sound
  with_flow-IsSound call destination sniffed r (inl io) flows s h sound =
      open_selected-IsSound ops _ call.session r io flows _ (h io refl) sound

  start_direct-IsSound :
      (early : Option Bool) (call : Call) (destination : D) (sniffed : Option (T × Bool))
      (flows : List OpenFlow) (s : Direct B G C P S)
      → HoldsFlows flows s
      → let (s', outcome) =
          start_direct ops manager rate cache patterns sets early call destination sniffed s in
        HoldsFlows (flows_at_end call.session s.dispatcher.user_flows outcome flows) s'
  unfolding start_direct
  start_direct-IsSound (some true) call destination sniffed flows s sound = sound
  start_direct-IsSound (some false) call destination sniffed flows s sound = sound
  start_direct-IsSound none call destination sniffed flows s sound =
      with_flow-IsSound call destination sniffed s.dispatcher.user_flows
        (get_user_io manager rate cache call.session s.dispatcher).1 flows _
        (λ io. get_user_io-no_runtime call.session s.dispatcher io)
        (get_user_io-IsSound manager rate cache call.session s.dispatcher flows sound)

  -- Whatever the destination, the rules, the routes and the handlers do: if the registry's counts
  -- are right for the flows that are open, they are right after a direct dispatch for these and, if
  -- it answers with a link, the link's flow. Where it falls back or fails, no flow is left behind.
  pub dispatch_direct-IsSound :
      (call : Call) (destination : D) (sniffed : Option (T × Bool)) (flows : List OpenFlow)
      (s : Direct B G C P S)
      → HoldsFlows flows s
      → let (s', outcome) =
          dispatch_direct ops manager rate cache patterns sets call destination sniffed s in
        HoldsFlows (flows_at_end call.session s.dispatcher.user_flows outcome flows) s'
  unfolding dispatch_direct
  dispatch_direct-IsSound call destination sniffed flows s sound =
      start_direct-IsSound (early_end ops call destination) call destination sniffed flows s sound

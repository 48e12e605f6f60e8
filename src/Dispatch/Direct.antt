-- ===== src/Dispatch/Direct.antt =====
-- `selectOutbound` and `DispatchDirect` of app/mydispatcher/default.go: the handler of a
-- destination, and a direct link, which holds the user's flow.
--
-- `D` is a destination, `T` an address, `H` an outbound handler and `L` a direct link, of xray-core.
-- What sniffing found is an argument: the address that overrides the destination, and whether it
-- does so for routing alone.
pub mod Releases
use oldxr.Base.{
  ℕ, ◌⊎◌, inl, inr, Bool, true, false, ◌&&◌, not, Option, none, some, List, if◌then◌else◌,
}
use oldxr.Base.Text.{Str, is_empty}
use oldxr.Limiter.{RateOps, CacheOps}
use oldxr.Flow.{release}
use oldxr.Rule.{PatternOps, SetOps, Manager, detect}
use oldxr.Dispatch.{ManagerOps, Session, UserIo, Refusal, DefaultDispatcher, get_user_io}

-- `session.Outbound`; a route target that is not valid is `none`.
pub record Outbound (D : Type 0) : Type 0 where
  pub target : D
  pub route_target : Option D

-- What a handler makes of `OpenDirect`. A link without a reader or a writer is closed.
pub data Opened (L : Type 0) : Type 0 where
  not_direct open_failed unsupported invalid_link : Opened L
  opened : L → Opened L

-- `pick_route` is `none` where there is no router or no route, `lookup_hosts` for a client without
-- hosts.
pub record RouteOps (D T H L : Type 0) : Type 0 where
  pub to_string : D → Str
  pub is_valid : D → Bool
  pub is_tcp : D → Bool
  pub is_domain : D → Bool
  pub with_address : T → D → D
  pub same : Option D → D → Bool
  pub lookup_hosts : Str → Option T
  pub pick_route : Outbound D → Option Str
  pub get_handler : Str → Option H
  pub default_handler : Option H
  pub open_direct : H → D → Opened L

pub data SelectError : Type 0 where
  rejected_by_rule no_default_handler : SelectError
  no_forced_handler : Str → SelectError

module _ {D T H L : Type 0} (ops : RouteOps D T H L) where
  -- The address goes to the route target or to the target.
  unfoldable pub override : Bool → D → Outbound D → Outbound D
  override route_only destination ob =
      if route_only
      then record ob { route_target = some destination }
      else record ob { target = destination }

  -- A domain that the hosts know is replaced by its address.
  unfoldable pub resolve : D → Outbound D → D × Outbound D
  unfolding override
  resolve destination ob =
      if ops.is_domain destination
      then (elim (ops.lookup_hosts (ops.to_string ob.target)) [
        | none ↦ (destination, ob)
        | some address ↦
            let destination' = ops.with_address address destination in
            (destination', override (ops.same ob.route_target destination) destination' ob)
      ])
      else (destination, ob)

  abbrev pub or_else : Option H → Option H → Option H
  or_else none other = other
  or_else (some h) other = some h

  -- A forced tag needs its handler; otherwise the route's handler, the inbound's, or the default.
  unfoldable pub pick_handler : Str → Str → Outbound D → H ⊎ SelectError
  pick_handler forced in_tag ob =
      if is_empty forced
      then (let routed = elim (ops.pick_route ob) as (λ x. Option H) [
        | none ↦ none
        | some out_tag ↦ ops.get_handler out_tag
      ] in
          elim (or_else routed (or_else (ops.get_handler in_tag) ops.default_handler)) [
            | none ↦ inr no_default_handler
            | some h ↦ inl h
          ])
      else (elim (ops.get_handler forced) [
        | none ↦ inr (no_forced_handler forced)
        | some h ↦ inl h
      ])

  module _ {P S : Type 0} (patterns : PatternOps P) (sets : SetOps S) where
    -- The rules see the destination after the hosts, for an inbound with a user.
    unfoldable pub is_rejected : Option Session → D → Manager P S → Manager P S × Bool
    unfolding detect
    is_rejected none destination rules = (rules, false)
    is_rejected (some session) destination rules =
        detect patterns sets session.tag (ops.to_string destination) session.email rules

    -- The handler, and the destination that it gets.
    unfoldable pub select_outbound :
        Str
        → Str
        → Option Session
        → D
        → Outbound D
        → Manager P S
        → Manager P S × ((H × D) ⊎ SelectError)
    unfolding resolve is_rejected pick_handler
    select_outbound forced in_tag session destination ob rules =
        let (destination', ob') = resolve destination ob in
        let (rules', rejected) = is_rejected session destination' rules in
        if rejected
        then (rules', inr rejected_by_rule)
        else (elim (pick_handler forced in_tag ob') [
          | inr e ↦ (rules', inr e)
          | inl h ↦ (rules', inl (h, ob'.target))
        ])

-- The dispatcher with its rules.
pub record Direct (B G C P S : Type 0) : Type 0 where
  pub dispatcher : DefaultDispatcher B G C
  pub rules : Manager P S

-- A link has the user's flow; otherwise the caller falls back, or fails.
pub data Outcome (L A : Type 0) : Type 0 where
  fallback failed : Outcome L A
  linked : L → UserIo A → Outcome L A

-- The arguments of the context: whether direct links are enabled, the tag that is forced, the
-- inbound's tag and its user.
pub record Call : Type 0 where
  pub enabled : Bool
  pub forced : Str
  pub in_tag : Str
  pub session : Option Session

module _ {B G C P S : Type 0} where
  -- `userIO.Release`, once, of a flow's runtime.
  unfoldable pub release_if : Option ℕ → Direct B G C P S → Direct B G C P S
  release_if none s = s
  release_if (some a) s =
      let d = s.dispatcher in
      record s { dispatcher = record d { user_flows = release a d.user_flows } }

  unfoldable pub release_io : {A : Type 0} → UserIo A → Direct B G C P S → Direct B G C P S
  unfolding release_if
  release_io io s = release_if io.runtime s

  -- Only an open link keeps the flow.
  unfoldable pub take_link :
      {L A : Type 0} → Opened L → UserIo A → Direct B G C P S → Direct B G C P S × Outcome L A
  unfolding release_io
  take_link not_direct io s = (release_io io s, fallback)
  take_link open_failed io s = (release_io io s, failed)
  take_link unsupported io s = (release_io io s, fallback)
  take_link invalid_link io s = (release_io io s, failed)
  take_link (opened link) io s = (s, linked link io)

module _ {D T H L : Type 0} (ops : RouteOps D T H L) where
  -- What sniffing found goes to the destination first.
  unfoldable pub sniffed_target : D → Option (T × Bool) → D × Outbound D
  unfolding override
  sniffed_target destination none =
      (destination, record { target = destination; route_target = none })
  sniffed_target destination (some (address, route_only)) =
      let ob : Outbound D = record { target = destination; route_target = none } in
      let destination' = ops.with_address address destination in
      (destination', override ops route_only destination' ob)

  -- Whether the call ends before it looks at the user, and then whether as a failure.
  unfoldable pub early_end : Call → D → Option Bool
  early_end call destination =
      if not call.enabled
      then some false
      else if not (ops.is_valid destination)
      then some true
      else if not (ops.is_tcp destination)
      then some false
      else none

module _ {D T H L B G C P S : Type 0} (ops : RouteOps D T H L) where
  unfoldable pub open_selected :
      {A : Type 0}
      → (H × D) ⊎ SelectError
      → UserIo A
      → Direct B G C P S
      → Direct B G C P S × Outcome L A
  unfolding take_link
  open_selected (inr e) io s = (release_io io s, failed)
  open_selected (inl (handler, target)) io s = take_link (ops.open_direct handler target) io s

module _ {D T H L B G C P S : Type 0} (ops : RouteOps D T H L) (patterns : PatternOps P)
    (sets : SetOps S) where
  -- The part with the user's flow.
  unfoldable pub route_flow :
      {A : Type 0}
      → Call
      → D
      → Option (T × Bool)
      → UserIo A
      → Direct B G C P S
      → Direct B G C P S × Outcome L A
  unfolding sniffed_target select_outbound open_selected
  route_flow call destination sniffed io s =
      let (destination', ob) = sniffed_target ops destination sniffed in
      let (rules, selected) =
        select_outbound ops patterns sets call.forced call.in_tag call.session destination' ob
          s.rules in
      open_selected ops selected io (record s { rules = rules })

  -- What follows `getUserIO`.
  unfoldable pub with_flow :
      {A : Type 0}
      → Call
      → D
      → Option (T × Bool)
      → UserIo A ⊎ Refusal
      → Direct B G C P S
      → Direct B G C P S × Outcome L A
  unfolding route_flow
  with_flow call destination sniffed (inr refusal) s = (s, failed)
  with_flow call destination sniffed (inl io) s = route_flow call destination sniffed io s

module _ {D T H L A C B R G P S : Type 0} (ops : RouteOps D T H L) (manager : ManagerOps A C)
    (rate : RateOps B R) (cache : CacheOps G) (patterns : PatternOps P) (sets : SetOps S) where
  unfoldable pub start_direct :
      Option Bool → Call → D → Option (T × Bool) → Direct B G C P S → Direct B G C P S × Outcome L A
  unfolding get_user_io with_flow
  start_direct (some true) call destination sniffed s = (s, failed)
  start_direct (some false) call destination sniffed s = (s, fallback)
  start_direct none call destination sniffed s =
      let (d, answer) = get_user_io manager rate cache call.session s.dispatcher in
      with_flow ops patterns sets call destination sniffed answer (record s { dispatcher = d })

  unfoldable pub dispatch_direct :
      Call → D → Option (T × Bool) → Direct B G C P S → Direct B G C P S × Outcome L A
  unfolding early_end start_direct
  dispatch_direct call destination sniffed s =
      start_direct (early_end ops call destination) call destination sniffed s

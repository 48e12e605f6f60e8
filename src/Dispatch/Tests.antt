-- ===== src/Dispatch/Tests.antt =====
-- A registered user connects to an inbound that the limiter does not know, and then asks for a
-- direct link, which the handler does not support.
use oldxr.Base.{ℕ, List, true, false, none, some, [], ◌∷◌}
use oldxr.Base.Int.{ℤ}
use oldxr.Base.Text.{Str}
use oldxr.Limiter.{RateOps, CacheOps, not_found}
use oldxr.Limiter.Runs.{new}
use oldxr.Flow.World.{World, IsSound}
use oldxr.Flow.Retirement.{registers, run, empty_world, runtimes-IsSound}
use oldxr.Dispatch.{ManagerOps, Session, DefaultDispatcher, get_user_io}
use oldxr.Dispatch.Direct.{RouteOps, unsupported, Direct, Call, dispatch_direct}
use oldxr.Dispatch.Direct.Releases.{flows_at_end, HoldsFlows, dispatch_direct-IsSound}
use oldxr.Rule
use oldxr.Rule.{PatternOps, SetOps}
use oldxr.Api.{DetectResult}
use oldxr.Dispatch.Soundness.{flows_after, get_user_io-IsSound}

-- A manager that has no counters.
abbrev no_counters : ManagerOps Str (Unit {0})
no_counters = record { get_or_register = λ name s. (s, (none, true)); get_counter = λ name s. none }

abbrev plain_rate : RateOps (ℕ × ℤ) ℕ
plain_rate = record {
  limit_of = λ n. n;
  new_limiter = λ r b. (r, b);
  set_limit = λ r x. (r, x.1);
  set_burst = λ b x. (x.0, b);
  limit = λ x. x.0;
  burst = λ x. x.1;
}

abbrev no_cache : CacheOps (Unit {0})
no_cache = record {
  new_cache = λ config. tt;
  reserve_ip = none;
  get = λ key g. (not_found, g);
  put = λ key ips g. (true, g);
}

abbrev w : World
w = run empty_world (registers (b'n' ∷ []) ((b'a' ∷ []) ∷ []) ∷ [])

abbrev session : Session
session = record {
  tag = b'n' ∷ [];
  email = b'a' ∷ [];
  source_ip = b'h' ∷ [];
  user_uplink = true;
  user_downlink = false;
}

abbrev d : DefaultDispatcher (ℕ × ℤ) (Unit {0}) (Unit {0})
d = record { stats = tt; limiter = new; user_flows = w.registry }

w-IsSound : IsSound w
w-IsSound = runtimes-IsSound (registers (b'n' ∷ []) ((b'a' ∷ []) ∷ []) ∷ [])

get_user_io-IsSound_example :
    let (d', answer) = get_user_io no_counters plain_rate no_cache (some session) d in
    IsSound (record {
      registry = d'.user_flows;
      flows = flows_after (some session) d.user_flows answer w.flows;
    })
get_user_io-IsSound_example =
    get_user_io-IsSound no_counters plain_rate no_cache (some session) d w.flows w-IsSound

-- Every destination is of TCP, and routed to a handler without direct links for it.
abbrev routes : RouteOps Str Str Str Str
routes = record {
  to_string = λ t. t;
  is_valid = λ t. true;
  is_tcp = λ t. true;
  is_domain = λ t. false;
  with_address = λ a t. a;
  same = λ o t. false;
  lookup_hosts = λ t. none;
  pick_route = λ ob. none;
  get_handler = λ tag. some tag;
  default_handler = none;
  open_direct = λ h t. unsupported;
}

abbrev literal : PatternOps Str
literal = record { text = λ p. p; match_string = λ p s. false }

abbrev listed : SetOps (List DetectResult)
listed = record { new_set_with = λ a. a ∷ []; add = λ a s. a ∷ s; elements = λ s. s }

abbrev direct : Direct (ℕ × ℤ) (Unit {0}) (Unit {0}) Str (List DetectResult)
direct = record { dispatcher = d; rules = Rule.new }

abbrev call : Call
call = record { enabled = true; forced = []; in_tag = b'n' ∷ []; session = some session }

dispatch_direct-IsSound_example :
    let (s', outcome) =
      dispatch_direct routes no_counters plain_rate no_cache literal listed call
        (b'h' ∷ [])
        none
        direct in
    HoldsFlows (flows_at_end (some session) d.user_flows outcome w.flows) s'
dispatch_direct-IsSound_example =
    dispatch_direct-IsSound routes no_counters plain_rate no_cache literal listed call (b'h' ∷ [])
      none w.flows direct w-IsSound

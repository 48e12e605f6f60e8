-- ===== src/Flow/Tests.antt =====
-- A user of one inbound who connects, is retired, and is finalized when the connection has closed.
use oldxr.Base.{ℕ, suc, ◌≡◌, refl, Bool, true, none, List, [], ◌∷◌, All, ℕ_discrete}
use oldxr.Base.Int.{pos}
use oldxr.Base.Dict.{load, store, delete}
use oldxr.Base.Text.{Str, Str-discrete}
use oldxr.Flow.{
  node, register, register_users, retire, retire_users, ensure_runtime, acquire, acquire_runtime,
  release, release_runtime, finalize, finalize_idle, is_idle,
}
use oldxr.Flow.World.{IsSound}
use oldxr.Flow.Opening.{open_flow, close_flow}
use oldxr.Flow.Retirement.{
  Call, registers, retires, opens, closes, finalizes, step, run, empty_world, IsFlowOf,
  runtimes-IsSound, finalized_user_has_no_flow,
}
use oldxr.Flow.Connection
use oldxr.Flow.Connection.{
  Writer, inbound, outbound, new_connection, closes_inbound, closes_outbound, released_once,
}

abbrev node_tag : Str
node_tag = b'n' ∷ []

abbrev alice : Str
alice = b'a' ∷ []

abbrev day : List Call
day =
    registers node_tag (alice ∷ [])
    ∷ opens node_tag alice
    ∷ opens node_tag alice
    ∷ retires node_tag (alice ∷ [])
    ∷ finalizes node_tag alice true
    ∷ closes 0
    ∷ closes 0
    ∷ []

runtimes-IsSound_example : IsSound (run empty_world day)
runtimes-IsSound_example = runtimes-IsSound day

-- The cleanup counts its calls, and agrees.
abbrev count_cleanup : ℕ → ℕ × Bool
count_cleanup n = (suc n, true)

alice_finalized :
    (finalize count_cleanup node_tag alice ((run empty_world day).registry, 0)).1 ≡ true
unfolding finalize finalize_idle is_idle run step open_flow close_flow register retire node
    register_users retire_users ensure_runtime acquire acquire_runtime release release_runtime load
    store delete Str-discrete ℕ_discrete
alice_finalized = refl

finalized_user_has_no_flow_example :
    let w = run empty_world day in
    All (λ f. ¬ IsFlowOf node_tag alice f) w.flows
    × (load Str-discrete alice (node node_tag w.registry).current ≡ none)
    × ((finalize count_cleanup node_tag alice (w.registry, 0)).0.1 ≡ 1)
    × (true ≡ true)
finalized_user_has_no_flow_example =
    finalized_user_has_no_flow day count_cleanup node_tag alice 0 alice_finalized

released_once_example :
    (Connection.run (inbound ∷ inbound ∷ outbound ∷ []) (new_connection (pos 2))).released ≡ 1
released_once_example = released_once (inbound ∷ inbound ∷ outbound ∷ [])

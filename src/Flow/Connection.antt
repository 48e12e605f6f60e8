-- ===== src/Flow/Connection.antt =====
-- app/mydispatcher/stats.go and `userIO.Release` of default.go: a connection has two writers, each
-- of which is closed or interrupted any number of times, in any order; the flow that they share
-- is released once, when both are done.
use oldxr.Base.{
  ℕ, zero, suc, ◌+◌, ◌≡◌, refl, Bool, true, false, ◌&&◌, ◌||◌, List, [], ◌∷◌, if◌then◌else◌, ap,
  ℕ_discrete, ◌∙◌,
}
use oldxr.Base.Int.{ℤ, pos, negsuc, ℤ_discrete}
use oldxr.Base.{holds}

-- `remaining` of the lifecycle, the `once` of each writer, `releaseOnce` of the flow, and how often
-- the flow's runtime has been released.
pub record Connection : Type 0 where
  pub remaining : ℤ
  pub inbound_once : Bool
  pub outbound_once : Bool
  pub release_once : Bool
  pub released : ℕ

pub data Writer : Type 0 where
  inbound outbound : Writer

-- `atomic.Int32.Add(-1)`, above the least value.
abbrev minus_one : ℤ → ℤ
minus_one (pos zero) = negsuc 0
minus_one (pos (suc n)) = pos n
minus_one (negsuc n) = negsuc (suc n)

-- `newUserConnectionLifecycle(io, owners)`, with writers that have not been closed.
unfoldable pub new_connection : ℤ → Connection
new_connection owners = record {
  remaining = owners;
  inbound_once = false;
  outbound_once = false;
  release_once = false;
  released = 0;
}

-- `userIO.Release`.
unfoldable pub release_flow : Connection → Connection
release_flow c =
    if c.release_once then c else record c { release_once = true; released = c.released + 1 }

-- `userConnectionLifecycle.release`, for a lifecycle and a flow that are not nil.
unfoldable pub release_owner : Connection → Connection
unfolding release_flow
release_owner c =
    let left = minus_one c.remaining in
    if holds (ℤ_discrete left (pos 0))
    then release_flow (record c { remaining = left })
    else record c { remaining = left }

-- `Close` and `Interrupt` of a writer do the same to the lifecycle.
unfoldable pub close_writer : Writer → Connection → Connection
unfolding release_owner
close_writer inbound c =
    if c.inbound_once then c else release_owner (record c { inbound_once = true })
close_writer outbound c =
    if c.outbound_once then c else release_owner (record c { outbound_once = true })

unfoldable pub run : List Writer → Connection → Connection
unfolding close_writer
run [] c = c
run (w ∷ ws) c = run ws (close_writer w c)

abbrev is_inbound : Writer → Bool
is_inbound inbound = true
is_inbound outbound = false

-- Whether a writer is among those closed.
abbrev pub closes_inbound : List Writer → Bool
closes_inbound [] = false
closes_inbound (inbound ∷ ws) = true
closes_inbound (outbound ∷ ws) = closes_inbound ws

abbrev pub closes_outbound : List Writer → Bool
closes_outbound [] = false
closes_outbound (inbound ∷ ws) = closes_outbound ws
closes_outbound (outbound ∷ ws) = true

abbrev left_of : Bool → Bool → ℤ
left_of true true = pos 0
left_of true false = pos 1
left_of false true = pos 1
left_of false false = pos 2

abbrev count_of : Bool → Bool → ℕ
count_of true true = 1
count_of _ _ = 0

-- A connection of two owners, told by which of its writers are closed.
abbrev closed : Bool → Bool → Connection
closed i o = record {
  remaining = left_of i o;
  inbound_once = i;
  outbound_once = o;
  release_once = i && o;
  released = count_of i o;
}

close_writer-closed_inbound : (i o : Bool) → close_writer inbound (closed i o) ≡ closed true o
unfolding close_writer ℤ_discrete ℕ_discrete
close_writer-closed_inbound true true = refl
close_writer-closed_inbound true false = refl
close_writer-closed_inbound false true = refl
close_writer-closed_inbound false false = refl

close_writer-closed_outbound : (i o : Bool) → close_writer outbound (closed i o) ≡ closed i true
unfolding close_writer ℤ_discrete ℕ_discrete
close_writer-closed_outbound true true = refl
close_writer-closed_outbound true false = refl
close_writer-closed_outbound false true = refl
close_writer-closed_outbound false false = refl

run-closed :
    (ws : List Writer) (i o : Bool)
    → run ws (closed i o) ≡ closed (i || closes_inbound ws) (o || closes_outbound ws)
unfolding run
run-closed [] true true = refl
run-closed [] true false = refl
run-closed [] false true = refl
run-closed [] false false = refl
run-closed (inbound ∷ ws) true o =
    ap (run ws) (close_writer-closed_inbound true o) ∙ run-closed ws true o
run-closed (inbound ∷ ws) false o =
    ap (run ws) (close_writer-closed_inbound false o) ∙ run-closed ws true o
run-closed (outbound ∷ ws) i true =
    ap (run ws) (close_writer-closed_outbound i true) ∙ run-closed ws i true
run-closed (outbound ∷ ws) i false =
    ap (run ws) (close_writer-closed_outbound i false) ∙ run-closed ws i true

-- However often and in whatever order the two writers of a new connection are closed, its flow is
-- released exactly once if both have been, and not at all otherwise.
pub released_once :
    (ws : List Writer)
    → (run ws (new_connection (pos 2))).released
      ≡ (if closes_inbound ws && closes_outbound ws then 1 else 0)
unfolding new_connection
released_once ws =
    ap (λ c. c.released) (run-closed ws false false)
    ∙ count_of-if (closes_inbound ws) (closes_outbound ws)
  where
    count_of-if : (i o : Bool) → count_of i o ≡ (if i && o then 1 else 0)
    count_of-if true true = refl
    count_of-if true false = refl
    count_of-if false true = refl
    count_of-if false false = refl

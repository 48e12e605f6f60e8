-- ===== src/Limiter/Speed.antt =====
-- `determineRate` of common/limiter/limiter.go.
use oldxr.Base.{ℕ, ◌≤◌, ◌<◌, ◌≡◌, ◌⊎◌, ◌||◌, ◌==◌, ltb, if◌then◌else◌, arith}

unfoldable pub determine_rate : ℕ → ℕ → ℕ
determine_rate node_limit user_limit =
    if node_limit == 0 || user_limit == 0
    then (if ltb user_limit node_limit
        then node_limit
        else if ltb node_limit user_limit
        then user_limit
        else 0)
    else if ltb user_limit node_limit
    then user_limit
    else if ltb node_limit user_limit
    then node_limit
    else node_limit

-- `limit` is the tightest of two limits, where 0 means no limit.
pub record IsTightest (node user limit : ℕ) : Type 0 where
  pub within_node : 0 < node → (0 < limit)
  pub below_node : 0 < node → limit ≤ node
  pub within_user : 0 < user → (0 < limit)
  pub below_user : 0 < user → limit ≤ user
  pub chosen : (limit ≡ node) ⊎ (limit ≡ user)

-- `determineRate` gives the tightest of the node's and the user's limit, 0 standing for no limit.
pub determine_rate-IsTightest : (node user : ℕ) → IsTightest node user (determine_rate node user)
unfolding determine_rate
determine_rate-IsTightest node user = ground arith

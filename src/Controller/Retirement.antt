-- ===== src/Controller/Retirement.antt =====
-- service/controller/user_retirement.go: the users who are removed while their flows are open,
-- and `FinalizeRetiredUser` of app/mydispatcher/user_lifecycle.go.
use oldxr.Base.{
  Bool, true, false, ◌||◌, not, Option, none, some, List, [], ◌∷◌, map, ◌==◌, if◌then◌else◌, holds,
}
use oldxr.Base.Dict.{Dict, load, store, delete}
use oldxr.Base.Text.{Str}
use oldxr.Api.{UserInfo, UserInfo-discrete}
use oldxr.Flow.{UserFlowRegistry, register, retire, finalize}
use oldxr.Limiter.Users.{key_of}
use oldxr.Traffic.{StatsOps, RetiringUser, uplink_name, downlink_name}
use oldxr.Controller.{RetiringUserKey, RetiringUserKey-discrete, Controller}

abbrev pub RetiringUsers : Type 0
RetiringUsers = Dict RetiringUserKey RetiringUser

unfoldable pub runtime_user_emails : Str → List UserInfo → List Str
runtime_user_emails tag users = map (key_of tag) users

-- The loops over the retiring users in `registerManagedUsers` and `retireManagedUsers`.
unfoldable pub unlist_retiring : Str → List Str → RetiringUsers → RetiringUsers
unlist_retiring tag [] m = m
unlist_retiring tag (email ∷ emails) m =
    unlist_retiring tag emails
      (delete RetiringUserKey-discrete (record { tag = tag; email = email }) m)

unfoldable pub list_retiring : Str → List UserInfo → RetiringUsers → RetiringUsers
list_retiring tag [] m = m
list_retiring tag (u ∷ us) m = list_retiring tag us (
    store RetiringUserKey-discrete (record { tag = tag; email = key_of tag u })
      (record { tag = tag; user = u }) m)

module _ {X B G P S K : Type 0} where
  unfoldable pub register_managed_users :
      Str → List UserInfo → Controller X B G P S K → Controller X B G P S K
  unfolding runtime_user_emails unlist_retiring
  register_managed_users tag users c = record c {
    user_flows = register tag (runtime_user_emails tag users) c.user_flows;
    retiring_users = unlist_retiring tag (runtime_user_emails tag users) c.retiring_users;
  }

  unfoldable pub retire_managed_users :
      Str → List UserInfo → Controller X B G P S K → Controller X B G P S K
  unfolding runtime_user_emails list_retiring
  retire_managed_users tag [] c = c
  retire_managed_users tag (u ∷ us) c = record c {
    user_flows = retire tag (runtime_user_emails tag (u ∷ us)) c.user_flows;
    retiring_users = list_retiring tag (u ∷ us) c.retiring_users;
  }

  unfoldable pub restore_managed_users :
      Str → List UserInfo → Controller X B G P S K → Controller X B G P S K
  unfolding register_managed_users
  restore_managed_users tag users c = register_managed_users tag users c

-- The values of a map, in its order.
unfoldable pub retiring_user_snapshot : RetiringUsers → List RetiringUser
retiring_user_snapshot [] = []
retiring_user_snapshot ((k, v) ∷ m) = v ∷ retiring_user_snapshot m

module _ {A T : Type 0} (stats : StatsOps A T) (unregister_counter : Str → T → T) where
  -- A counter that is there and not 0.
  unfoldable pub has_traffic : Option A → T → Bool
  has_traffic none t = false
  has_traffic (some a) t = not (stats.value a t == 0)

  -- The closure of `FinalizeRetiredUser`.
  unfoldable pub drop_counters : Str → T → T × Bool
  unfolding has_traffic
  drop_counters email t =
      if has_traffic (stats.get_counter (uplink_name email) t) t
        || has_traffic (stats.get_counter (downlink_name email) t) t
      then (t, false)
      else (
        unregister_counter (downlink_name email) (unregister_counter (uplink_name email) t),
        true,
      )

  unfoldable pub finalize_retired_user :
      Str → Str → UserFlowRegistry × T → (UserFlowRegistry × T) × Bool
  unfolding drop_counters
  finalize_retired_user tag email s = finalize (drop_counters email) tag email s

  -- A finalized user leaves the list, unless the entry has become another user's.
  unfoldable pub unlist_finalized : RetiringUser → RetiringUsers → RetiringUsers
  unlist_finalized retired m =
      let key : RetiringUserKey = record {
        tag = retired.tag;
        email = key_of retired.tag retired.user;
      } in
      elim (load RetiringUserKey-discrete key m) [
        | none ↦ m
        | some current ↦
            if holds (UserInfo-discrete current.user retired.user)
            then delete RetiringUserKey-discrete key m
            else m
      ]

  module _ {X B G P S K : Type 0} where
    -- The body of the loop of `finalizeRetiringUsers`.
    unfoldable pub finalize_one :
        RetiringUser → Controller X B G P S K × T → Controller X B G P S K × T
    unfolding finalize_retired_user unlist_finalized
    finalize_one retired (c, t) =
        let ((flows, t'), done) =
          finalize_retired_user retired.tag (key_of retired.tag retired.user) (c.user_flows, t) in
        let c' = record c { user_flows = flows } in
        if done
        then (record c' { retiring_users = unlist_finalized retired c'.retiring_users }, t')
        else (c', t')

    unfoldable pub finalize_retiring_users :
        List RetiringUser → Controller X B G P S K × T → Controller X B G P S K × T
    unfolding finalize_one
    finalize_retiring_users [] s = s
    finalize_retiring_users (u ∷ us) s = finalize_retiring_users us (finalize_one u s)

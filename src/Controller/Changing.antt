-- ===== src/Controller/Changing.antt =====
-- The changes of the user list, as the node monitor applies them, and the rules.
use oldxr.Base.{
  ◌≡◌, refl, sym, ap, subst, true, false, Option, none, some, List, [], ◌∷◌, arith, inl, inr, ◌⊎◌,
}
use oldxr.Base.Text.{Str}
use oldxr.Api.{UserInfo, NodeInfo}
use oldxr.Limiter.Users.{limits_of}
use oldxr.Controller.{Error, Environment, Controller}
use oldxr.Controller.Building.{build_users-is_supported}
use oldxr.Controller.Server.{add_users}
use oldxr.Controller.Retirement.{
  register_managed_users, retire_managed_users, restore_managed_users,
}
use oldxr.Controller.Monitor.{add_new_user, end_removal, remove_deleted, add_added, update_limits}
use oldxr.Controller.Keys.{find_key}
use oldxr.Controller.Serving.{limits_at, has_inbound, limits_at-update, limits_at-delete}
use oldxr.Controller.Limits.{has_inbound-update, has_inbound-delete}
use oldxr.Controller.Building.{is_supported}
use oldxr.Controller.Steps.{
  Reliable, Keeps, Admits, Admits-with, Admits-again, retire_managed_users-Admits,
  register_managed_users-Admits,
}

module _ {X C O H I M V B R G P K : Type 0} (env : Environment X C O H I M V B R G P K) where
  module _ {S : Type 0} (reliable : Reliable env) where
    -- Where the server takes the users, all that is left of adding them is that they are
    -- registered.
    pub add_new_user-registers :
        (us : List UserInfo) (n : NodeInfo) (tag : Str) (c : Controller X B G P S K)
        → is_supported env.methods_2022 n ≡ true
        → (x : X) × (add_new_user env us n tag c
            ≡ (record (register_managed_users tag us c) { server = x }, none))
    unfolding add_new_user
    add_new_user-registers us n tag c h =
        let (users, e, built) =
          build_users-is_supported env.panel_type env.encode_base64 env.methods_2022 us n tag h in
        let c1 = register_managed_users tag us c in
        (
          (add_users env.server_ops users tag c1.server).0,
          ground (arith, e, reliable.adds users tag c1.server built),
        )

    pub add_added-Admits :
        (us : List UserInfo) (c : Controller X B G P S K)
        → is_supported env.methods_2022 c.node_info ≡ true
        → Admits true us c (add_added env us c)
    unfolding add_added find_key
    add_added-Admits [] c h = record {
      keeps = record {
        tag = refl;
        node_info = refl;
        user_list = refl;
        elsewhere = λ o e ne. refl;
        managed = λ h. h;
        inbound = refl;
      };
      admission = λ e. refl;
    }
    add_added-Admits (u ∷ us) c h =
        let (x, e) = add_new_user-registers (u ∷ us) c.node_info c.tag c h in
        subst (λ r. Admits true (u ∷ us) c (r.0)) (sym e)
          (Admits-with x _ refl (register_managed_users-Admits (u ∷ us) c))

    pub add_added-limiter :
        (us : List UserInfo) (c : Controller X B G P S K)
        → is_supported env.methods_2022 c.node_info ≡ true
        → (add_added env us c).limiter ≡ c.limiter
    unfolding add_added register_managed_users
    add_added-limiter [] c h = refl
    add_added-limiter (u ∷ us) c h =
        let (x, e) = add_new_user-registers (u ∷ us) c.node_info c.tag c h in
        ap (λ r. r.0.limiter) e

  module _ {S : Type 0} where
    -- The two ends of the removal.
    pub record Removed (us : List UserInfo) (c c' : Controller X B G P S K) : Type 0 where
      pub admission : Admits false us c c'
      pub limits :
          (email : Str)
          → has_inbound c.tag c.limiter ≡ true
          → limits_at c.tag email c'.limiter ≡ (elim (find_key c.tag email us) [
            | some u ↦ none
            | none ↦ limits_at c.tag email c.limiter
          ])

    pub record Restored (us : List UserInfo) (c c' : Controller X B G P S K) : Type 0 where
      pub admission : Admits true us c c'
      pub limiter : c'.limiter ≡ c.limiter

    -- Users who are retired, and an answer of the server.
    end_removal-ends :
        (us : List UserInfo) (c c1 : Controller X B G P S K) (answer : X × Option Error)
        → Admits false us c c1
        → c1.limiter ≡ c.limiter
        → let (c', goes_on) = end_removal env us c1 answer in
          ((goes_on ≡ true) × Removed us c c') ⊎ ((goes_on ≡ false) × Restored us c c')
    unfolding end_removal restore_managed_users
    end_removal-ends us c c1 (x, none) s same = inl (
      refl,
      record {
        admission =
            Admits-with x _ (ground (arith, has_inbound-delete c.tag us c1.limiter, s.keeps.tag)) s;
        limits = λ e h. ground (arith, limits_at-delete c.tag e us c1.limiter, s.keeps.tag, same);
      },
    )
    end_removal-ends us c c1 (x, some err) s same = inr (
      refl,
      record {
        admission =
            Admits-again (Admits-with x c1.limiter refl s)
              (register_managed_users-Admits us (record c1 { server = x }));
        limiter = same;
      },
    )

    pub remove_deleted-ends :
        (us : List UserInfo) (c : Controller X B G P S K)
        → let (c', goes_on) = remove_deleted env us c in
          ((goes_on ≡ true) × Removed us c c') ⊎ ((goes_on ≡ false) × Restored us c c')
    unfolding remove_deleted find_key retire_managed_users
    remove_deleted-ends [] c =
        inl (refl, record { admission = retire_managed_users-Admits [] c; limits = λ e h. refl })
    remove_deleted-ends (u ∷ us) c =
        end_removal-ends (u ∷ us) c (retire_managed_users c.tag (u ∷ us) c) _
          (retire_managed_users-Admits (u ∷ us) c) refl

    -- New limits, which leave the registry alone.
    pub record Limits (us : List UserInfo) (c c' : Controller X B G P S K) : Type 0 where
      pub keeps : Keeps c c'
      pub user_flows : c'.user_flows ≡ c.user_flows
      pub limits :
          (email : Str)
          → has_inbound c.tag c.limiter ≡ true
          → limits_at c.tag email c'.limiter ≡ (elim (find_key c.tag email us) [
            | some u ↦ some (limits_of u)
            | none ↦ limits_at c.tag email c.limiter
          ])

    pub update_limits-Limits :
        (us : List UserInfo) (c : Controller X B G P S K) → Limits us c (update_limits env us c)
    unfolding update_limits find_key retire_managed_users
    update_limits-Limits [] c = record {
      keeps = (retire_managed_users-Admits [] c).keeps;
      user_flows = refl;
      limits = λ e h. refl;
    }
    update_limits-Limits (u ∷ us) c = record {
      keeps = record {
        tag = refl;
        node_info = refl;
        user_list = refl;
        elsewhere = λ o e ne. refl;
        managed = λ h. h;
        inbound = has_inbound-update c.tag env.rate (u ∷ us) c.limiter;
      };
      user_flows = refl;
      limits = λ e h. limits_at-update c.tag e env.rate (u ∷ us) c.limiter h;
    }

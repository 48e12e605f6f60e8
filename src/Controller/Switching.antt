-- ===== src/Controller/Switching.antt =====
-- The rounds in which the node changes, and all rounds.
use oldxr.Base.{
  ◌≡◌, refl, sym, ap, ◌∙◌, subst, true, false, Option, none, some, List, [], ◌∷◌, map, arith, inl,
  inr, ◌⊎◌,
}
use oldxr.Base.Text.{Str, Str-discrete}
use oldxr.Api.{UserInfo, NodeInfo}
use oldxr.Flow.{register}
use oldxr.Limiter.Users.{key_of, delete_inbound_limiter}
use oldxr.Controller.{Environment, Controller, Error}
use oldxr.Controller.Retirement.{
  runtime_user_emails, register_managed_users, retire_managed_users, restore_managed_users,
}
use oldxr.Controller.Handlers.{build_node_tag, add_new_tag}
use oldxr.Controller.Monitor.{
  end_switch, switch_node, check_rule, end_serving, serve_new_node, change_node,
}
use oldxr.Controller.Keys.{IsUserList}
use oldxr.Controller.Serving.{admits, admits-register, admits-register_other, is_managed-register}
use oldxr.Controller.Limits.{has_inbound-add, limits_at-add}
use oldxr.Controller.Building.{is_supported}
use oldxr.Controller.Steps.{
  Reliable, Admits, Admits-with, Admits-again, retire_managed_users-Admits,
  register_managed_users-Admits,
}
use oldxr.Controller.Changing.{add_new_user-registers}
use oldxr.Controller.Rounds.{Serves, IsServing, Serves-same, check_rule-leaves}

module _ {X C O H I M V B R G P K S : Type 0} (env : Environment X C O H I M V B R G P K) where
  -- Nobody may open a flow.
  abbrev pub IsClosed : Controller X B G P S K → Type 0
  IsClosed c = (tag email : Str) → admits tag email c.user_flows ≡ false

  retired-IsClosed :
      (c c' : Controller X B G P S K)
      → Serves c.user_list c
      → Admits false c.user_list c c'
      → IsClosed c'
  retired-IsClosed c c' s a tag email = elim (Str-discrete c.tag tag) [
    | yes e ↦ ground (arith, e, a.admission email, s.admitted email)
    | no ne ↦ a.keeps.elsewhere tag email ne ∙ s.elsewhere tag email ne
  ]

  -- Users who are retired and registered again are served as before.
  restored-IsServing :
      (c c' : Controller X B G P S K)
      → IsServing env.methods_2022 c
      → Admits true c.user_list c c'
      → c'.limiter ≡ c.limiter
      → IsServing env.methods_2022 c'
  restored-IsServing c c' s a same =
      let k = a.keeps in
      record {
        listed = subst IsUserList (sym k.user_list) s.listed;
        supported = ap (is_supported env.methods_2022) k.node_info ∙ s.supported;
        serves = record {
          managed = ground (arith, k.managed s.serves.managed, k.tag);
          admitted = λ e. ground (arith, a.admission e, s.serves.admitted e, k.tag, k.user_list);
          elsewhere = λ o e ne.
              k.elsewhere o e (λ t. ne (k.tag ∙ t)) ∙ s.serves.elsewhere o e (λ t. ne (k.tag ∙ t));
          inbound = ground (arith, s.serves.inbound, same, k.tag);
          limited = λ e. ground (arith, s.serves.limited e, same, k.tag, k.user_list);
        };
      }

  retire_managed_users-limiter :
      (us : List UserInfo) (c : Controller X B G P S K)
      → (retire_managed_users c.tag us c).limiter ≡ c.limiter
  unfolding retire_managed_users
  retire_managed_users-limiter [] c = refl
  retire_managed_users-limiter (u ∷ us) c = refl

  module _ (reliable : Reliable env) where
    end_switch-ends :
        (n : NodeInfo) (c c1 : Controller X B G P S K) (answer : X × Option Error)
        → IsServing env.methods_2022 c
        → Admits false c.user_list c c1
        → c1.limiter ≡ c.limiter
        → let (c', goes_on) = end_switch env n c1 answer in
          ((goes_on ≡ true) × IsClosed c') ⊎ ((goes_on ≡ false) × IsServing env.methods_2022 c')
    unfolding end_switch restore_managed_users register_managed_users
    end_switch-ends n c c1 (x, some err) s a same =
        let c2 = record c1 { server = x } in
        let k = a.keeps in
        let again : Admits true c.user_list c (register_managed_users c2.tag c2.user_list c2) =
          subst (λ us. Admits true c.user_list c (register_managed_users c2.tag us c2))
            (sym k.user_list)
            (Admits-again (Admits-with x c1.limiter refl a)
              (register_managed_users-Admits c.user_list c2)) in
        inr (refl, restored-IsServing c _ s again same)
    end_switch-ends n c c1 (x, none) s a same =
        let x' = (add_new_tag env n (build_node_tag env.config n) x).0 in
        let opened : end_switch env n c1 (x, none) ≡ (
          record c1 { server = x'; limiter = delete_inbound_limiter c1.tag c1.limiter },
          true,
        ) =
          ground (arith, reliable.opens n (build_node_tag env.config n) x) in
        subst
          (λ r.
            ((r.1 ≡ true) × IsClosed (r.0)) ⊎ ((r.1 ≡ false) × IsServing env.methods_2022 (r.0)))
          (sym opened) (inl (refl, retired-IsClosed c c1 s.serves a))

    pub switch_node-ends :
        (n : NodeInfo) (c : Controller X B G P S K)
        → IsServing env.methods_2022 c
        → let (c', goes_on) = switch_node env n c in
          ((goes_on ≡ true) × IsClosed c') ⊎ ((goes_on ≡ false) × IsServing env.methods_2022 c')
    unfolding switch_node
    switch_node-ends n c s =
        end_switch-ends n c (retire_managed_users c.tag c.user_list c) _ s
          (retire_managed_users-Admits c.user_list c) (retire_managed_users-limiter c.user_list c)

    -- A node that was closed serves its new users.
    pub serve_new_node-Serves :
        (n : NodeInfo) (tag : Str) (users : List UserInfo) (c : Controller X B G P S K)
        → is_supported env.methods_2022 n ≡ true
        → IsClosed c
        → let (c', served) = serve_new_node env n tag users c in
          (served ≡ true) × Serves users (record c' { tag = tag })
    unfolding serve_new_node register_managed_users runtime_user_emails
    serve_new_node-Serves n tag users c h closed =
        let (x, e) = add_new_user-registers env reliable users n tag c h in
        let config = env.config.global_device_limit_config in
        let flows = register tag (map (key_of tag) users) c.user_flows in
        subst
          (λ r.
            let (c', served) = end_serving env n tag users r in
            (served ≡ true) × Serves users (record c' { tag = tag }))
          (sym e)
          (
            refl,
            record {
              managed = is_managed-register tag (map (key_of tag) users) c.user_flows;
              admitted =
                  λ m. ground (arith, admits-register tag m users c.user_flows, closed tag m);
              elsewhere = λ o m ne.
                  admits-register_other tag o m (map (key_of tag) users) c.user_flows ne
                  ∙ closed o m;
              inbound = has_inbound-add tag env.cache n.speed_limit users config c.limiter;
              limited = λ m. limits_at-add tag env.cache m n.speed_limit users config c.limiter;
            },
          )

    pub serve_new_node-leaves :
        (n : NodeInfo) (tag : Str) (users : List UserInfo) (c : Controller X B G P S K)
        → is_supported env.methods_2022 n ≡ true
        → let c' = (serve_new_node env n tag users c).0 in
          (c'.tag ≡ c.tag) × (c'.user_list ≡ c.user_list) × (c'.node_info ≡ c.node_info)
    unfolding serve_new_node register_managed_users
    serve_new_node-leaves n tag users c h =
        let (x, e) = add_new_user-registers env reliable users n tag c h in
        subst
          (λ r.
            let c' = (end_serving env n tag users r).0 in
            (c'.tag ≡ c.tag) × (c'.user_list ≡ c.user_list) × (c'.node_info ≡ c.node_info))
          (sym e) (refl, refl, refl)

    -- A round in which the node changes.
    pub change_node-IsServing :
        (n : NodeInfo) (users : List UserInfo) (c : Controller X B G P S K)
        → IsServing env.methods_2022 c
        → IsUserList users
        → is_supported env.methods_2022 n ≡ true
        → IsServing env.methods_2022 (change_node env n users c)
    unfolding change_node
    change_node-IsServing n users c s l h =
        let tag = build_node_tag env.config n in
        let c1 = (switch_node env n c).0 in
        elim (switch_node-ends n c s) [
          | inr (e, served) ↦ rw (e) served
          | inl (e, closed) ↦
              let leaves = check_rule-leaves env tag c1 in
              let (e', served) =
                serve_new_node-Serves n tag users (check_rule env tag c1) h
                  (λ t m. ap (admits t m) leaves.1 ∙ closed t m) in
              rw (e) (
                rw (e') (record {
                  listed = l;
                  supported = h;
                  serves = Serves-same env users _ _ refl refl refl served;
                }))
        ]

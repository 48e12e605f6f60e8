-- ===== src/Controller/Rounds.antt =====
-- The rounds of the node monitor keep the registry and the limiter in step with the user list.
use oldxr.Base.{
  ◌≡◌, ◌≢◌, refl, sym, ap, ◌∙◌, subst, Bool, true, false, Option, none, some, List, ◌++◌, arith,
  inl, inr, if◌then◌else◌,
}
use oldxr.Base.Text.{Str}
use oldxr.Api.{UserInfo}
use oldxr.Limiter
use oldxr.Limiter.{Limiter}
use oldxr.Limiter.Users.{limits_of}
use oldxr.Users.Selected.{compare_user_list-selects}
use oldxr.Controller.{Environment, Controller}
use oldxr.Controller.Monitor.{
  remove_deleted, add_added, update_limits, apply_changes, check_rule, keep_node,
}
use oldxr.Controller.Keys.{IsUserList, find_key}
use oldxr.Controller.Building.{is_some}
use oldxr.Controller.Updates.{selected, selected-key_after, selected_deleted-within}
use oldxr.Controller.Serving.{admits, limits_at, has_inbound, is_managed}
use oldxr.Controller.Building.{is_supported}
use oldxr.Controller.Steps.{Reliable, Keeps-trans, Admits}
use oldxr.Controller.Changing.{
  add_added-Admits, add_added-limiter, Removed, Restored, remove_deleted-ends, Limits,
  update_limits-Limits,
}

abbrev pub limits_in : Str → Str → List UserInfo → Option Limiter.UserInfo
limits_in tag email users = elim (find_key tag email users) [
  | some u ↦ some (limits_of u)
  | none ↦ none
]

-- The registry and the limiter are those of a list of users: under the tag they admit and limit
-- just its users, and under no other tag is anybody current.
pub record Serves {X B G P S K : Type 0} (users : List UserInfo) (c : Controller X B G P S K)
    : Type 0 where
  pub managed : is_managed c.tag c.user_flows ≡ true
  pub admitted :
      (email : Str) → admits c.tag email c.user_flows ≡ is_some (find_key c.tag email users)
  pub elsewhere : (other email : Str) → c.tag ≢ other → admits other email c.user_flows ≡ false
  pub inbound : has_inbound c.tag c.limiter ≡ true
  pub limited : (email : Str) → limits_at c.tag email c.limiter ≡ limits_in c.tag email users

-- The controller's own list is the one that is served.
pub record IsServing {X B G P S K : Type 0} (methods_2022 : List Str) (c : Controller X B G P S K)
    : Type 0 where
  pub listed : IsUserList c.user_list
  pub supported : is_supported methods_2022 c.node_info ≡ true
  pub serves : Serves c.user_list c

-- The list that is served after the changes: the new one, or the old one if the server did not
-- remove the users who are gone.
abbrev pub list_after : List UserInfo → List UserInfo → Bool → List UserInfo
list_after old new true = new
list_after old new false = old

module _ {X C O H I M V B R G P K S : Type 0} (env : Environment X C O H I M V B R G P K) where
  -- A removal that fails leaves the users as they were.
  restored-Serves :
      (users us : List UserInfo) (c c' : Controller X B G P S K)
      → Serves users c
      → Restored env us c c'
      → ((email : Str)
          → is_some (find_key c.tag email us) ≡ true
          → is_some (find_key c.tag email users) ≡ true)
      → Serves users c'
  restored-Serves users us c c' s r within =
      let k = r.admission.keeps in
      record {
        managed = ground (arith, k.managed s.managed, k.tag);
        admitted = λ e. ground (arith, r.admission.admission e, s.admitted e, within e, k.tag);
        elsewhere =
            λ o e ne. k.elsewhere o e (λ t. ne (k.tag ∙ t)) ∙ s.elsewhere o e (λ t. ne (k.tag ∙ t));
        inbound = ground (arith, k.inbound, s.inbound, k.tag);
        limited = λ e. ground (arith, s.limited e, r.limiter, k.tag);
      }

  -- The three steps of the changes, where the removal succeeds.
  changed-Serves :
      (old new : List UserInfo) (c c1 c2 c3 : Controller X B G P S K)
      → IsUserList old
      → IsUserList new
      → Serves old c
      → Removed env (selected old new).deleted c c1
      → Admits true (selected old new).added c1 c2
      → c2.limiter ≡ c1.limiter
      → Limits env ((selected old new).added ++ (selected old new).limit_updated) c2 c3
      → Serves new c3
  changed-Serves old new c c1 c2 c3 l m s r a same u =
      let k = Keeps-trans r.admission.keeps (Keeps-trans a.keeps u.keeps) in
      let t1 = r.admission.keeps.tag in
      let t2 = a.keeps.tag ∙ t1 in
      record {
        managed = ground (arith, k.managed s.managed, k.tag);
        admitted = λ e.
            let after = selected-key_after c.tag e old new l m in
            ground (
              arith,
              u.user_flows,
              a.admission e,
              r.admission.admission e,
              s.admitted e,
              after.1,
              k.tag,
              t1,
            );
        elsewhere =
            λ o e ne. k.elsewhere o e (λ t. ne (k.tag ∙ t)) ∙ s.elsewhere o e (λ t. ne (k.tag ∙ t));
        inbound = ground (arith, k.inbound, s.inbound, k.tag);
        limited = λ e.
            let after = selected-key_after c.tag e old new l m in
            let has1 : has_inbound c2.tag c2.limiter ≡ true =
              ground (arith, r.admission.keeps.inbound, s.inbound, same, t2) in
            ground (
              arith,
              u.limits e has1,
              same,
              r.limits e s.inbound,
              s.limited e,
              after.0,
              k.tag,
              t1,
              t2,
            );
      }

  -- Two states with the same tag, registry and limiter.
  pub Serves-same :
      (users : List UserInfo) (c c' : Controller X B G P S K)
      → c'.tag ≡ c.tag
      → c'.user_flows ≡ c.user_flows
      → c'.limiter ≡ c.limiter
      → Serves users c
      → Serves users c'
  Serves-same users c c' t f e s = record {
    managed = ground (arith, s.managed, t, f);
    admitted = λ x. ground (arith, s.admitted x, t, f);
    elsewhere = λ o x ne. ap (admits o x) f ∙ s.elsewhere o x (λ h. ne (t ∙ h));
    inbound = ground (arith, s.inbound, t, e);
    limited = λ x. ground (arith, s.limited x, t, e);
  }

  pub check_rule-leaves :
      (tag : Str) (c : Controller X B G P S K)
      → let c' = check_rule env tag c in
        (c'.tag ≡ c.tag)
        × (c'.user_flows ≡ c.user_flows)
        × (c'.limiter ≡ c.limiter)
        × (c'.user_list ≡ c.user_list)
        × (c'.node_info ≡ c.node_info)
  unfolding check_rule
  check_rule-leaves tag c = ground arith

  module _ (reliable : Reliable env) where
    apply_changes-Serves :
        (old new : List UserInfo) (c : Controller X B G P S K)
        → IsUserList old
        → IsUserList new
        → is_supported env.methods_2022 c.node_info ≡ true
        → Serves old c
        → let (c', goes_on) = apply_changes env (selected old new) c in
          Serves (list_after old new goes_on) c'
          × (c'.user_list ≡ c.user_list)
          × (c'.node_info ≡ c.node_info)
    unfolding apply_changes
    apply_changes-Serves old new c l m h s =
        let (c1, goes_on) = remove_deleted env (selected old new).deleted c in
        elim (remove_deleted-ends env (selected old new).deleted c) [
          | inl (e, r) ↦
              let supported : is_supported env.methods_2022 c1.node_info ≡ true =
                ap (is_supported env.methods_2022) r.admission.keeps.node_info ∙ h in
              let a = add_added-Admits env reliable (selected old new).added c1 supported in
              let same = add_added-limiter env reliable (selected old new).added c1 supported in
              let c2 = add_added env (selected old new).added c1 in
              let updates = (selected old new).added ++ (selected old new).limit_updated in
              let u = update_limits-Limits env updates c2 in
              let k = Keeps-trans r.admission.keeps (Keeps-trans a.keeps u.keeps) in
              let all =
                changed-Serves old new c c1 c2 (update_limits env updates c2) l m s r a same u in
              rw (e) (all, k.user_list, k.node_info)
          | inr (e, r) ↦ rw (e) (
            restored-Serves old (selected old new).deleted c c1 s r
                (λ x. selected_deleted-within c.tag x old new l m),
            r.admission.keeps.user_list,
            r.admission.keeps.node_info,
          )
        ]

    -- The new list is published where the round came to its end.
    published-IsServing :
        (old new : List UserInfo) (goes_on : Bool) (c : Controller X B G P S K)
        → IsUserList old
        → IsUserList new
        → is_supported env.methods_2022 c.node_info ≡ true
        → c.user_list ≡ old
        → Serves (list_after old new goes_on) c
        → IsServing env.methods_2022 (if goes_on then record c { user_list = new } else c)
    published-IsServing old new true c l m h e s = record {
      listed = m;
      supported = h;
      serves = Serves-same new c _ refl refl refl s;
    }
    published-IsServing old new false c l m h e s = record {
      listed = subst IsUserList (sym e) l;
      supported = h;
      serves = subst (λ us. Serves us c) (sym e) s;
    }

    -- A round that leaves the node as it is.
    pub keep_node-IsServing :
        (new : List UserInfo) (users_changed : Bool) (c : Controller X B G P S K)
        → IsServing env.methods_2022 c
        → IsUserList new
        → (users_changed ≡ false → new ≡ c.user_list)
        → (c' : _) × (keep_node env new users_changed c ≡ some c') × IsServing env.methods_2022 c'
    unfolding keep_node
    keep_node-IsServing new false c s m same =
        let (t, f, e, ul, n) = check_rule-leaves c.tag c in
        (
          record (check_rule env c.tag c) { user_list = new },
          refl,
          record {
            listed = m;
            supported = ap (is_supported env.methods_2022) n ∙ s.supported;
            serves =
                Serves-same new c _ t f e (subst (λ us. Serves us c) (sym (same refl)) s.serves);
          },
        )
    keep_node-IsServing new true c s m same =
        let (t, f, e, ul, n) = check_rule-leaves c.tag c in
        let checked = check_rule env c.tag c in
        let (served, ul', n') =
          apply_changes-Serves c.user_list new checked s.listed m
            (ap (is_supported env.methods_2022) n ∙ s.supported)
            (Serves-same c.user_list c checked t f e s.serves) in
        (
          _,
          ground (arith, compare_user_list-selects c.user_list new),
          published-IsServing c.user_list new _ _ s.listed m
              (ap (is_supported env.methods_2022) (n' ∙ n) ∙ s.supported) (ul' ∙ ul) served,
        )

-- ===== src/Controller/Steps.antt =====
-- The steps of a round of the node monitor, as what they change and what they leave alone.
use oldxr.Base.{
  All, ◌≡◌, ◌≢◌, refl, sym, ◌∙◌, Bool, true, false, Option, none, some, List, [], ◌∷◌, map, arith,
}
use oldxr.Base.Text.{Str}
use oldxr.Api.{UserInfo, NodeInfo}
use oldxr.Limiter.{Limiter}
use oldxr.Limiter.Users.{key_of}
use oldxr.Controller.{User, Environment, Controller}
use oldxr.Controller.Server.{add_users}
use oldxr.Controller.Retirement.{runtime_user_emails, register_managed_users, retire_managed_users}
use oldxr.Controller.Handlers.{add_new_tag}
use oldxr.Controller.Keys.{find_key}
use oldxr.Controller.Building.{is_some}
use oldxr.Controller.Serving.{
  admits, has_inbound, is_managed, admits-register, admits-retire, admits-register_other,
  admits-retire_other, is_managed-register, is_managed-retire,
}

-- A server that takes every user who was built and every handler; removing may fail.
pub record Reliable {X C O H I M V B R G P K : Type 0} (env : Environment X C O H I M V B R G P K)
    : Type 0 where
  pub adds :
      (users : List (Option User)) (tag : Str) (x : X)
      → All (λ u. is_some u ≡ true) users
      → (add_users env.server_ops users tag x).1 ≡ none
  pub opens : (n : NodeInfo) (tag : Str) (x : X) → (add_new_tag env n tag x).1 ≡ none

module _ {X B G P S K : Type 0} where
  -- What a step within one inbound leaves alone.
  pub record Keeps (c c' : Controller X B G P S K) : Type 0 where
    pub tag : c'.tag ≡ c.tag
    pub node_info : c'.node_info ≡ c.node_info
    pub user_list : c'.user_list ≡ c.user_list
    pub elsewhere :
        (other email : Str)
        → c.tag ≢ other
        → admits other email c'.user_flows ≡ admits other email c.user_flows
    pub managed : is_managed c.tag c.user_flows ≡ true → is_managed c.tag c'.user_flows ≡ true
    pub inbound : has_inbound c.tag c'.limiter ≡ has_inbound c.tag c.limiter

  pub Keeps-trans : {c c' c'' : Controller X B G P S K} → Keeps c c' → Keeps c' c'' → Keeps c c''
  Keeps-trans p q = record {
    tag = q.tag ∙ p.tag;
    node_info = q.node_info ∙ p.node_info;
    user_list = q.user_list ∙ p.user_list;
    elsewhere = λ o e ne. q.elsewhere o e (λ t. ne (sym p.tag ∙ t)) ∙ p.elsewhere o e ne;
    managed = λ h. ground (arith, q.managed, p.managed h, p.tag);
    inbound = ground (arith, q.inbound, p.inbound, p.tag);
  }

  -- A step that admits the users, or refuses them, and leaves the others.
  pub record Admits (b : Bool) (users : List UserInfo) (c c' : Controller X B G P S K)
      : Type 0 where
    pub keeps : Keeps c c'
    pub admission :
        (email : Str)
        → admits c.tag email c'.user_flows ≡ (elim (find_key c.tag email users) [
          | some u ↦ b
          | none ↦ admits c.tag email c.user_flows
        ])

  pub retire_managed_users-Admits :
      (us : List UserInfo) (c : Controller X B G P S K)
      → Admits false us c (retire_managed_users c.tag us c)
  unfolding retire_managed_users runtime_user_emails find_key
  retire_managed_users-Admits [] c = record {
    keeps = record {
      tag = refl;
      node_info = refl;
      user_list = refl;
      elsewhere = λ o e ne. refl;
      managed = λ h. h;
      inbound = refl;
    };
    admission = λ e. refl;
  }
  retire_managed_users-Admits (u ∷ us) c =
      let emails = map (key_of c.tag) (u ∷ us) in
      record {
        keeps = record {
          tag = refl;
          node_info = refl;
          user_list = refl;
          elsewhere = λ o e ne. admits-retire_other c.tag o e emails c.user_flows ne;
          managed = λ h. is_managed-retire c.tag emails c.user_flows;
          inbound = refl;
        };
        admission = λ e. admits-retire c.tag e (u ∷ us) c.user_flows;
      }

  pub register_managed_users-Admits :
      (us : List UserInfo) (c : Controller X B G P S K)
      → Admits true us c (register_managed_users c.tag us c)
  unfolding register_managed_users runtime_user_emails
  register_managed_users-Admits us c =
      let emails = map (key_of c.tag) us in
      record {
        keeps = record {
          tag = refl;
          node_info = refl;
          user_list = refl;
          elsewhere = λ o e ne. admits-register_other c.tag o e emails c.user_flows ne;
          managed = λ h. is_managed-register c.tag emails c.user_flows;
          inbound = refl;
        };
        admission = λ e. admits-register c.tag e us c.user_flows;
      }

  -- Another state of the server, and another limiter with the same inbound.
  pub Admits-with :
      {b : Bool} {us : List UserInfo} {c c' : Controller X B G P S K} (x : X) (l : Limiter B G)
      → has_inbound c.tag l ≡ has_inbound c.tag c'.limiter
      → Admits b us c c'
      → Admits b us c (record c' { server = x; limiter = l })
  Admits-with x l h s = record {
    keeps = record {
      tag = s.keeps.tag;
      node_info = s.keeps.node_info;
      user_list = s.keeps.user_list;
      elsewhere = s.keeps.elsewhere;
      managed = s.keeps.managed;
      inbound = h ∙ s.keeps.inbound;
    };
    admission = s.admission;
  }

  pub Admits-again :
      {b b' : Bool} {us : List UserInfo} {c c' c'' : Controller X B G P S K}
      → Admits b us c c'
      → Admits b' us c' c''
      → Admits b' us c c''
  unfolding find_key
  Admits-again {b} {b'} {us} {c} {c'} {c''} p q = record {
    keeps = Keeps-trans p.keeps q.keeps;
    admission = λ e. ground (arith, p.admission e, q.admission e, p.keeps.tag);
  }

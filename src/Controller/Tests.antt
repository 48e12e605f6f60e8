-- ===== src/Controller/Tests.antt =====
-- A controller of one Trojan node: it starts with two users, and the panel then changes one, takes
-- one away and sends a new one.
use mathlib.Core.Option.{some-injective}
use oldxr.Base.{
  ap, All, ℕ, zero, suc, ◌≡◌, refl, sym, subst, true, false, Option, none, some, List, [], ◌∷◌, inl,
  inr, arith, ℕ_discrete, holds,
}
use oldxr.Base.Int.{ℤ, pos, ℤ_discrete}
use oldxr.Base.Dict.{load}
use oldxr.Base.Text.{Str, Str-discrete, bytes}
use oldxr.Api.{UserInfo, NodeInfo, DetectResult, zero_node_info, zero_user_info}
use oldxr.Flow.{new_registry, node}
use oldxr.Limiter.{RateOps, CacheOps, not_found}
use oldxr.Rule.{PatternOps}
use oldxr.Users.Selected.{find_last}
use oldxr.Users.Applied.{IsDistinct}
use oldxr.Controller.{trojan, User, ServerOps, PanelOps, Config, Environment, Controller}
use oldxr.Controller.Server.{
  remove_each, remove_users, remove_inbound, remove_outbound, add_each, add_users, user_manager_of,
  add_inbound, add_outbound,
}
use oldxr.Controller.Handlers.{remove_old_tag, add_handlers, add_inbound_for_ss_plugin, add_new_tag}
use oldxr.Controller.Monitor.{
  check_rule, add_new_user, end_serving, serve_new_node, node_info_monitor,
}
use oldxr.Controller.Keys.{IsUserList}
use oldxr.Controller.Building.{is_some, is_supported, AreUsersOf, build_users-AreUsersOf}
use oldxr.Controller.Retirement.{register_managed_users}
use oldxr.Controller.Delivery.{Removing, node_info_monitor-delivers}
use oldxr.Limiter.Users.{key_of}
use oldxr.Controller.Steps.{Reliable}
use oldxr.Limiter.Key.{format_user_key}
use oldxr.Controller.Builders.{build_user_tag_with_tag, build_users, build_trojan_user}
use oldxr.Controller.Switching.{IsClosed}
use oldxr.Controller.Rounds.{IsServing}
use oldxr.Controller.Agreement.{PanelLaws}
use oldxr.Controller.Start.{start_users, start_node, start, monitor_rounds, run-IsServing}

-- A server that keeps the keys of its users, the last one first.
abbrev pub keeping : ServerOps (List Str) Str Str Str Str Str User
keeping = record {
  create_object = λ config x. inl config;
  as_inbound = λ o. some o;
  as_outbound = λ o. some o;
  add_inbound_handler = λ h x. (x, none);
  add_outbound_handler = λ h x. (x, none);
  remove_inbound_handler = λ tag x. ([], none);
  remove_outbound_handler = λ tag x. (x, none);
  get_handler = λ tag x. some tag;
  get_inbound = λ h. some h;
  user_manager = λ i. some i;
  to_memory_user = λ u. elim u [ none ↦ inr [] | some v ↦ inl v ];
  add_user = λ m v x. (v.email ∷ x, none);
  remove_user = λ m email x. (x, none);
}

abbrev plain_rate : RateOps (ℕ × ℤ) ℕ
plain_rate = record {
  limit_of = λ n. n;
  new_limiter = λ r b. (r, b);
  set_limit = λ r x. (r, x.1);
  set_burst = λ b x. (x.0, b);
  limit = λ x. x.0;
  burst = λ x. x.1;
}

abbrev no_cache : CacheOps (Unit {0})
no_cache = record {
  new_cache = λ config. tt;
  reserve_ip = none;
  get = λ key g. (not_found, g);
  put = λ key ips g. (true, g);
}

abbrev literal : PatternOps Str
literal = record { text = λ p. p; match_string = λ p s. holds (Str-discrete p s) }

abbrev pub trojan_node : NodeInfo
trojan_node = record zero_node_info { node_type = bytes "Trojan"; port = 443 }

abbrev pub numbered : ℕ → ℕ → UserInfo
numbered n limit = record zero_user_info { uid = pos n; speed_limit = limit }

-- The panel's lists, in the order of its answers.
abbrev answer_list : ℕ → List UserInfo
answer_list zero = numbered 7 1 ∷ numbered 8 0 ∷ []
answer_list (suc k) = numbered 7 2 ∷ numbered 9 0 ∷ []

abbrev panel : PanelOps ℕ Str
panel = record {
  get_node_info = λ k. (k, inl trojan_node);
  get_user_list = λ k. (suc k, inl (answer_list k));
  get_node_rule = λ k. (k, inl []);
}

answer_list-IsUserList : (k : ℕ) → IsUserList (answer_list k)
unfolding IsDistinct find_last ℤ_discrete ℕ_discrete
answer_list-IsUserList zero = record {
  distinct = (refl, (refl, tt));
  bounded = (omega arith, (omega arith, tt));
}
answer_list-IsUserList (suc k) = record {
  distinct = (refl, (refl, tt));
  bounded = (omega arith, (omega arith, tt));
}

trojan-is_supported : is_supported [] trojan_node ≡ true
unfolding Str-discrete ℕ_discrete
trojan-is_supported = refl

panel-laws : PanelLaws [] panel
panel-laws = record {
  lists = λ k users e.
      let same : answer_list k ≡ users = cc in subst IsUserList same (answer_list-IsUserList k);
  types = λ k n e.
      let same : trojan_node ≡ n = cc in
      subst (λ m. is_supported [] m ≡ true) same trojan-is_supported;
}

abbrev config : Config
config = record {
  listen_ip = bytes "0.0.0.0";
  update_periodic = 60;
  disable_get_rule = false;
  global_device_limit_config = none;
}

abbrev pub env : Environment (List Str) Str Str Str Str Str User (ℕ × ℤ) ℕ (Unit {0}) Str ℕ
env = record {
  config = config;
  panel_type = bytes "NewV2board";
  server_ops = keeping;
  panel = panel;
  rate = plain_rate;
  cache = no_cache;
  patterns = literal;
  inbound_builder = λ n tag. inl tag;
  outbound_builder = λ n tag. inl tag;
  encode_base64 = λ s. s;
  methods_2022 = [];
}

add_each-keeping :
    (tag : Str) (users : List (Option User)) (x : List Str)
    → All (λ u. is_some u ≡ true) users
    → (add_each keeping tag users x).1 ≡ none
unfolding add_each
add_each-keeping tag [] x h = refl
add_each-keeping tag (none ∷ users) x h = absurd (cc)
add_each-keeping tag (some u ∷ users) x h = add_each-keeping tag users (u.email ∷ x) h.1

env-Reliable : Reliable env
unfolding add_users user_manager_of add_new_tag add_handlers add_inbound_for_ss_plugin add_inbound
    add_outbound
env-Reliable = record {
  adds = λ users tag x h. add_each-keeping tag users x h;
  opens = λ n tag x. ground arith;
}

abbrev pub idle : Controller (List Str) (ℕ × ℤ) (Unit {0}) Str (List DetectResult) ℕ
idle = record {
  node_info = zero_node_info;
  tag = [];
  user_list = [];
  retiring_users = [];
  user_flows = new_registry;
  limiter = record { inbound_info = []; heap = [] };
  rule_manager = record { inbound_rule = []; inbound_detect_result = [] };
  server = [];
  api_client = 0;
}

idle-IsClosed : IsClosed env idle
unfolding node load
idle-IsClosed tag email = refl

idle_starts : (start env idle).1 ≡ none
unfolding start start_node start_users serve_new_node add_new_user build_users build_trojan_user
    add_users user_manager_of add_each add_new_tag add_handlers add_inbound add_outbound
    Str-discrete ℕ_discrete end_serving
idle_starts = refl

run-IsServing_example :
    (c' : _) × (monitor_rounds env (30 ∷ 60 ∷ 120 ∷ []) (start env idle).0 ≡ some c')
    × IsServing [] c'
run-IsServing_example =
    run-IsServing env env-Reliable (30 ∷ 60 ∷ 120 ∷ []) idle panel-laws idle-IsClosed idle_starts

keeping_removes :
    (emails : List Str) (tag : Str) (x : List Str) → (remove_each keeping tag emails x).1 ≡ none
unfolding remove_each
keeping_removes [] tag x = refl
keeping_removes (email ∷ emails) tag x = keeping_removes emails tag x

env-Removing : Removing env
unfolding remove_users user_manager_of remove_old_tag remove_inbound remove_outbound
env-Removing = record {
  removes = λ emails tag x. keeping_removes emails tag x;
  closes = λ tag x. refl;
}

started : Controller (List Str) (ℕ × ℤ) (Unit {0}) Str (List DetectResult) ℕ
started = (start env idle).0

started_asks : started.api_client ≡ 1
unfolding started start start_node start_users serve_new_node add_new_user build_users
    build_trojan_user add_users user_manager_of add_each add_new_tag add_handlers add_inbound
    add_outbound Str-discrete ℕ_discrete end_serving check_rule register_managed_users
started_asks = refl

started-IsServing : IsServing [] started
unfolding started monitor_rounds
started-IsServing =
    let (c, e, s) = run-IsServing env env-Reliable [] idle panel-laws idle-IsClosed idle_starts in
    subst (IsServing []) (sym (some-injective _ _ e)) s

node_info_monitor-delivers_example :
    (c' : _) × (node_info_monitor env 90 started ≡ some c')
    × IsServing [] c'
    × (c'.user_list ≡ answer_list 1)
node_info_monitor-delivers_example =
    node_info_monitor-delivers env env-Reliable env-Removing 90 started 1 trojan_node
      (answer_list 1) panel-laws started-IsServing refl
      (ap (λ k. (k, inl trojan_node)) started_asks) refl

built :
    build_users [] (λ s. s) [] (numbered 7 1 ∷ []) trojan_node (bytes "t")
    ≡ some (
        some (record {
          level = 0;
          email = key_of (bytes "t") (numbered 7 1);
          account = trojan [] (bytes "xtls-rprx-direct");
        })
        ∷ [])
unfolding build_users build_trojan_user Str-discrete ℕ_discrete build_user_tag_with_tag
    format_user_key
built = refl

build_users-AreUsersOf_example : AreUsersOf (bytes "t") (numbered 7 1 ∷ []) (
    some (record {
      level = 0;
      email = key_of (bytes "t") (numbered 7 1);
      account = trojan [] (bytes "xtls-rprx-direct");
    })
    ∷ [])
build_users-AreUsersOf_example =
    build_users-AreUsersOf [] (λ s. s) [] (numbered 7 1 ∷ []) trojan_node (bytes "t") _ built

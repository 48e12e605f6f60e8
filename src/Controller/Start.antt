-- ===== src/Controller/Start.antt =====
-- `Start` of service/controller/controller.go up to its periodic tasks, and a run of the
-- controller: a start, then rounds of the node monitor.
use oldxr.Base.{
  ℕ, ◌≡◌, refl, sym, ap, ◌∙◌, subst, true, false, Option, none, some, List, [], ◌∷◌, arith, inl,
  inr, ◌⊎◌,
}
use oldxr.Api.{UserInfo, NodeInfo}
use oldxr.Clients.{ApiError}
use oldxr.Controller.{Environment, Controller, Error}
use oldxr.Controller.Handlers.{build_node_tag, add_new_tag}
use oldxr.Controller.Monitor.{check_rule, serve_new_node, node_info_monitor}
use oldxr.Controller.Keys.{IsUserList}
use oldxr.Controller.Building.{is_supported}
use oldxr.Controller.Steps.{Reliable}
use oldxr.Controller.Rounds.{Serves, IsServing, Serves-same, check_rule-leaves}
use oldxr.Controller.Switching.{IsClosed, serve_new_node-Serves, serve_new_node-leaves}
use oldxr.Controller.Agreement.{PanelLaws, node_info_monitor-IsServing}

-- How `Start` may end without starting: an error of the client or of the server that is
-- returned, or the panic on the new handlers.
pub data StartError : Type 0 where
  client_failed : ApiError → StartError
  users_failed : StartError
  panicked : Error → StartError

module _ {X C O H I M V B R G P K S : Type 0} (env : Environment X C O H I M V B R G P K) where
  -- The limiter is added after the users, as for a new node.
  unfoldable pub start_users :
      NodeInfo
      → K × (List UserInfo ⊎ ApiError)
      → Controller X B G P S K
      → Controller X B G P S K × Option StartError
  unfolding serve_new_node check_rule
  start_users n (k, inr err) c = (record c { api_client = k }, some (client_failed err))
  start_users n (k, inl users) c =
      let synced = record c { api_client = k; user_list = users } in
      let (c', served) = serve_new_node env n synced.tag users synced in
      elim served [ false ↦ (c', some users_failed) | true ↦ (check_rule env c'.tag c', none) ]

  unfoldable pub start_node :
      K × (NodeInfo ⊎ ApiError)
      → Controller X B G P S K
      → Controller X B G P S K × Option StartError
  unfolding add_new_tag start_users
  start_node (k, inr err) c = (record c { api_client = k }, some (client_failed err))
  start_node (k, inl n) c =
      let tag = build_node_tag env.config n in
      let (x, failed) = add_new_tag env n tag c.server in
      let c' = record c { api_client = k; node_info = n; tag = tag; server = x } in
      elim failed [
        | some err ↦ (c', some (panicked err))
        | none ↦ start_users n (env.panel.get_user_list k) c'
      ]

  unfoldable pub start : Controller X B G P S K → Controller X B G P S K × Option StartError
  unfolding start_node
  start c = start_node (env.panel.get_node_info c.api_client) c

  -- The rounds of the node monitor, at the given times since the start.
  unfoldable pub monitor_rounds : List ℕ → Controller X B G P S K → Option (Controller X B G P S K)
  unfolding node_info_monitor
  monitor_rounds [] c = some c
  monitor_rounds (elapsed ∷ times) c = elim (node_info_monitor env elapsed c) [
    | none ↦ none
    | some c' ↦ monitor_rounds times c'
  ]

  module _ (reliable : Reliable env) where
    start_users-IsServing :
        (n : NodeInfo) (answer : K × (List UserInfo ⊎ ApiError)) (c : Controller X B G P S K)
        → IsClosed env c
        → c.node_info ≡ n
        → is_supported env.methods_2022 n ≡ true
        → ((users : List UserInfo) → answer.1 ≡ inl users → IsUserList users)
        → (start_users n answer c).1 ≡ none
        → IsServing env.methods_2022 (start_users n answer c).0
    unfolding start_users
    start_users-IsServing n (k, inr err) c closed e h l ok = absurd (cc)
    start_users-IsServing n (k, inl users) c closed e h l ok =
        let synced : Controller X B G P S K = record c { api_client = k; user_list = users } in
        let (done, served) = serve_new_node-Serves env reliable n c.tag users synced h closed in
        let (t, ul, ni) = serve_new_node-leaves env reliable n c.tag users synced h in
        let c' = (serve_new_node env n c.tag users synced).0 in
        let (t', f, lim, ul', ni') = check_rule-leaves env c'.tag c' in
        rw (done, start_users)
          (record {
            listed = subst IsUserList (sym (ul' ∙ ul)) (l users refl);
            supported = ap (is_supported env.methods_2022) (ni' ∙ ni ∙ e) ∙ h;
            serves =
                subst (λ us. Serves us (check_rule env c'.tag c')) (sym (ul' ∙ ul))
                  (Serves-same env users (record c' { tag = c.tag }) _ (t' ∙ t) f lim served);
          })

    start_node-IsServing :
        (answer : K × (NodeInfo ⊎ ApiError)) (c : Controller X B G P S K)
        → PanelLaws env.methods_2022 env.panel
        → IsClosed env c
        → ((n : NodeInfo) → answer.1 ≡ inl n → is_supported env.methods_2022 n ≡ true)
        → (start_node answer c).1 ≡ none
        → IsServing env.methods_2022 (start_node answer c).0
    unfolding start_node
    start_node-IsServing (k, inr err) c laws closed h ok = absurd (cc)
    start_node-IsServing (k, inl n) c laws closed h ok =
        let tag = build_node_tag env.config n in
        let opened = add_new_tag env n tag c.server in
        let c' : Controller X B G P S K = record c {
          api_client = k;
          node_info = n;
          tag = tag;
          server = opened.0;
        } in
        let same : start_node (k, inl n) c ≡ start_users n (env.panel.get_user_list k) c' =
          ground (arith, reliable.opens n tag c.server) in
        subst (λ r. IsServing env.methods_2022 (r.0)) (sym same)
          (start_users-IsServing n (env.panel.get_user_list k) c' closed refl (h n refl)
            (laws.lists k) (sym (ap (λ r. r.1) same) ∙ ok))

    monitor_rounds-IsServing :
        (times : List ℕ) (c : Controller X B G P S K)
        → PanelLaws env.methods_2022 env.panel
        → IsServing env.methods_2022 c
        → (c' : _) × (monitor_rounds times c ≡ some c') × IsServing env.methods_2022 c'
    unfolding monitor_rounds
    monitor_rounds-IsServing [] c laws s = (c, refl, s)
    monitor_rounds-IsServing (elapsed ∷ times) c laws s =
        let (c1, e, s1) = node_info_monitor-IsServing env reliable elapsed c laws s in
        rw (e, monitor_rounds) (monitor_rounds-IsServing times c1 laws s1)

    -- Let the server take all users and handlers, though it may refuse to remove them, and let the
    -- panel answer, if not with errors, with lists whose numbers are distinct int64s and with
    -- nodes for which users can always be built. Then a start that succeeds while nobody is
    -- admitted anywhere, followed by any number of rounds of `nodeInfoMonitor`, with none of
    -- `userInfoMonitor` between, ends without a panic, and after it just the users of the
    -- controller's list are admitted and limited under its tag, and nobody is admitted elsewhere.
    pub run-IsServing :
        (times : List ℕ) (c : Controller X B G P S K)
        → PanelLaws env.methods_2022 env.panel
        → IsClosed env c
        → (start c).1 ≡ none
        → (c' : _) × (monitor_rounds times (start c).0 ≡ some c') × IsServing env.methods_2022 c'
    unfolding start
    run-IsServing times c laws closed ok = monitor_rounds-IsServing times (start c).0 laws (
        start_node-IsServing (env.panel.get_node_info c.api_client) c laws closed
          (laws.types c.api_client) ok)

-- ===== src/Clients/V2board/Nodes.antt =====
-- api/v2board/v2board.go: the node, the rules and the traffic reports.
use oldxr.Base.{
  ℕ, suc, ◌%◌, ◌^◌, ◌⊎◌, inl, inr, true, Option, none, some, List, [], ◌∷◌, ◌++◌, if◌then◌else◌,
}
use oldxr.Base.Int.{ℤ, pos}
use oldxr.Base.Text.{Str, bytes, text_eq, strip_prefix}
use oldxr.Api.{UserInfo, NodeInfo, DetectRule, UserTraffic, zero_node_info, compile_detect_rule}
use oldxr.Clients.{
  Request, Reply, ApiError, unsupported_node_type, no_node_users, no_inbound, panicked,
  header_invalid, parse_failed, invalid_rule, JsonOps, SpeedOps, parse_response,
}
use oldxr.Clients.V2board.{ApiClient, v2ray, trojan, shadowsocks, fetch_user_list_locked}

-- A row of the traffic report.
pub record TrafficRow : Type 0 where
  pub user_id : ℤ
  pub upload : ℕ
  pub download : ℕ

unfoldable pub rows : List UserTraffic → List TrafficRow
rows [] = []
rows (t ∷ ts) = record { user_id = t.uid; upload = t.upload; download = t.download } ∷ rows ts

-- The rules of the panel, from an index on: an invalid one is an error.
unfoldable pub compile_rules :
    {P : Type 0} → (Str → Option P) → ℕ → List Str → List (DetectRule P) ⊎ ApiError
unfolding compile_detect_rule
compile_rules compile i [] = inl []
compile_rules compile i (rule ∷ rules) =
    let text : Str = elim (strip_prefix (bytes "regexp:") rule) [
      | some rest ↦ rest
      | none ↦ rule
    ] in
    elim (compile_detect_rule compile (pos i) text) [
      | none ↦ inr (invalid_rule i)
      | some r ↦ elim (compile_rules compile (suc i) rules) [
        | inr e ↦ inr e
        | inl rs ↦ inl (r ∷ rs)
      ]
    ]

module _ {J F P : Type 0} where
  unfoldable pub build_ss_node_response : ApiClient J F P → List UserInfo → NodeInfo ⊎ ApiError
  build_ss_node_response c [] = inr no_node_users
  build_ss_node_response c (u ∷ us) = inl (record zero_node_info {
    node_type = c.node_type;
    node_id = c.node_id;
    port = u.port;
    transport_protocol = bytes "tcp";
    cypher_method = u.method;
  })

  -- An empty list keeps the last node, if there was one.
  unfoldable pub build_or_reuse_ss_node_response :
      ApiClient J F P → List UserInfo → ApiClient J F P × (NodeInfo ⊎ ApiError)
  unfolding build_ss_node_response
  build_or_reuse_ss_node_response c users = elim (build_ss_node_response c users) [
    | inl node ↦ (record c { last_ss_node_info = some node }, inl node)
    | inr e ↦ (c, elim (c.last_ss_node_info) [ none ↦ inr e | some node ↦ inl node ])
  ]

module _ {J F P : Type 0} (json : JsonOps J) (speed : SpeedOps F) where
  -- The fetched list waits for the call of `GetUserList` that follows.
  unfoldable pub fetch_ss_node_response :
      (Request → Reply) → ApiClient J F P → ApiClient J F P × (NodeInfo ⊎ ApiError)
  fetch_ss_node_response panel c =
      let (c', fetched) = fetch_user_list_locked json speed panel c in
      elim fetched [
        | inr e ↦ (c', inr e)
        | inl f ↦
            let (c'', built) = build_or_reuse_ss_node_response c' f.users in
            elim built [
              | inr e ↦ (c'', inr e)
              | inl node ↦ (record c'' { ss_pending = some f }, inl node)
            ]
      ]

  unfoldable pub parse_ss_node_response :
      (Request → Reply) → ApiClient J F P → ApiClient J F P × (NodeInfo ⊎ ApiError)
  parse_ss_node_response panel c =
      let (c', fetched) = fetch_user_list_locked json speed panel c in
      elim fetched [ inr e ↦ (c', inr e) | inl f ↦ build_or_reuse_ss_node_response c' f.users ]

module _ {J : Type 0} (json : JsonOps J) where
  -- `inbound`, or the first of `inbounds`, which goes through its text.
  unfoldable pub find_inbound : J → J ⊎ ApiError
  find_inbound j = elim (json.check_get (bytes "inbound") j) [
    | some inbound ↦ inl inbound
    | none ↦ elim (json.check_get (bytes "inbounds") j) [
      | none ↦ inr no_inbound
      | some inbounds ↦ elim (json.must_array inbounds) [
        | [] ↦ inr panicked
        | first ∷ others ↦ elim (json.marshal_map first) [
          | none ↦ inr panicked
          | some text ↦ elim (json.new_json text) [
            | none ↦ inr panicked
            | some inbound ↦ inl inbound
          ]
        ]
      ]
    ]
  ]

  -- The header of a tcp transport; `none` in the answer is an error.
  unfoldable pub tcp_header : J → Option (Option Str)
  tcp_header settings = elim (json.check_get (bytes "header") settings) [
    | none ↦ some none
    | some header ↦ elim (json.marshal header) [ none ↦ none | some text ↦ some (some text) ]
  ]

module _ {J F P : Type 0} (json : JsonOps J) where
  abbrev tls_type : ApiClient J F P → Str
  tls_type c = if c.enable_xtls then bytes "xtls" else bytes "tls"

  unfoldable pub parse_trojan_node_response : ApiClient J F P → J → NodeInfo
  parse_trojan_node_response c j = record zero_node_info {
    node_type = c.node_type;
    node_id = c.node_id;
    port = json.must_uint64 (json.get (bytes "local_port") j) % 2 ^ 32;
    transport_protocol = bytes "tcp";
    enable_tls = true;
    tls_type = tls_type c;
    host = json.must_string (json.get (bytes "sni") (json.get (bytes "ssl") j));
  }

  unfoldable pub v2ray_node : ApiClient J F P → J → NodeInfo ⊎ ApiError
  unfolding tcp_header
  v2ray_node c inbound =
      let stream = json.get (bytes "streamSettings") inbound in
      let network = json.must_string (json.get (bytes "network") stream) in
      let node = record zero_node_info {
        node_type = c.node_type;
        node_id = c.node_id;
        port = json.must_uint64 (json.get (bytes "port") inbound) % 2 ^ 32;
        transport_protocol = network;
        enable_tls = text_eq (json.must_string (json.get (bytes "security") stream)) (bytes "tls");
        tls_type = tls_type c;
        enable_vless = c.enable_vless;
      } in
      let ws = json.get (bytes "wsSettings") stream in
      if text_eq network (bytes "ws")
      then inl (record node {
        path = json.must_string (json.get (bytes "path") ws);
        host = json.must_string (json.get (bytes "Host") (json.get (bytes "headers") ws));
      })
      else if text_eq network (bytes "grpc")
      then inl (record node {
        service_name =
            elim (json.check_get (bytes "serviceName") (json.get (bytes "grpcSettings") stream)) [
              | none ↦ []
              | some name ↦ json.must_string name
            ];
      })
      else if text_eq network (bytes "tcp")
      then (elim (tcp_header json (json.get (bytes "tcpSettings") stream)) [
        | none ↦ inr header_invalid
        | some header ↦ inl (record node { header = header })
      ])
      else inl node

  unfoldable pub parse_v2ray_node_response : ApiClient J F P → J → NodeInfo ⊎ ApiError
  unfolding find_inbound v2ray_node
  parse_v2ray_node_response c j = elim (find_inbound json j) [
    | inr e ↦ inr e
    | inl inbound ↦ v2ray_node c inbound
  ]

-- A panic is not wrapped.
abbrev pub wrapped : NodeInfo ⊎ ApiError → NodeInfo ⊎ ApiError
wrapped (inl node) = inl node
wrapped (inr panicked) = inr panicked
wrapped (inr e) = inr (parse_failed e)

unfoldable pub submit_path : Str → Str
submit_path node_type =
    if text_eq node_type v2ray
    then bytes "/api/v1/server/Deepbwork/submit"
    else if text_eq node_type trojan
    then bytes "/api/v1/server/TrojanTidalab/submit"
    else if text_eq node_type shadowsocks
    then bytes "/api/v1/server/ShadowsocksTidalab/submit"
    else []

module _ {J F P : Type 0} (json : JsonOps J) (speed : SpeedOps F) where
  -- The configuration, fetched and parsed; an error leaves no response behind.
  unfoldable pub fetch_config :
      (Request → Reply)
      → Str
      → (J → NodeInfo ⊎ ApiError)
      → ApiClient J F P
      → ApiClient J F P × (NodeInfo ⊎ ApiError)
  fetch_config panel path parse c =
      elim (parse_response json (panel (record { path = path; if_none_match = none }))) [
        | inr e ↦ (record c { config_resp = none }, inr e)
        | inl j ↦ (record c { config_resp = some j }, wrapped (parse j))
      ]

  unfoldable pub get_node_info :
      (Request → Reply) → ApiClient J F P → ApiClient J F P × (NodeInfo ⊎ ApiError)
  get_node_info panel c =
      if text_eq c.node_type v2ray
      then fetch_config panel (bytes "/api/v1/server/Deepbwork/config")
          (parse_v2ray_node_response json c) c
      else if text_eq c.node_type trojan
      then fetch_config panel (bytes "/api/v1/server/TrojanTidalab/config")
          (λ j. inl (parse_trojan_node_response json c j)) c
      else if text_eq c.node_type shadowsocks
      then fetch_ss_node_response json speed panel c
      else (c, inr (unsupported_node_type c.node_type))

module _ {J F P : Type 0} (json : JsonOps J) where
  -- V2Board has rules for V2ray only. The response of the configuration is used again; there has
  -- to be one.
  unfoldable pub get_node_rule : (Str → Option P) → ApiClient J F P → List (DetectRule P) ⊎ ApiError
  unfolding compile_rules
  get_node_rule compile c =
      if text_eq c.node_type v2ray
      then (elim (c.config_resp) [
        | none ↦ inr panicked
        | some j ↦
            let rules = json.get (bytes "rules") (json.get (bytes "routing") j) in
            let domains =
              json.must_string_array (json.get (bytes "domain") (json.get_index 1 rules)) in
            elim (compile_rules compile 0 domains) [
              | inr e ↦ inr e
              | inl rs ↦ inl (c.local_rule_list ++ rs)
            ]
      ])
      else inl c.local_rule_list

  unfoldable pub report_user_traffic :
      (Str → List TrafficRow → Reply) → ApiClient J F P → List UserTraffic → Option ApiError
  unfolding rows
  report_user_traffic panel c traffic =
      elim (parse_response json (panel (submit_path c.node_type) (rows traffic))) [
        | inl j ↦ none
        | inr e ↦ some e
      ]

-- ===== src/Clients/NewV2board/Nodes.antt =====
-- api/newV2board/v2board.go: the node, the rules and the traffic reports.
use oldxr.Base.{
  ℕ, ◌%◌, ◌^◌, ◌⊎◌, inl, inr, true, Option, none, some, List, [], ◌++◌, holds, if◌then◌else◌,
}
use oldxr.Base.Int.{ℤ, pos, ℤ_discrete, to_word}
use oldxr.Base.Dict.{Dict}
use oldxr.Base.Text.{Str, bytes, text_eq}
use oldxr.Api.{NodeInfo, DetectRule, UserTraffic, zero_node_info}
use oldxr.Clients.{
  Request, Reply, ApiError, unsupported_node_type, port_is_zero, panicked, JsonOps, parse_response,
}
use oldxr.Clients.NewV2board.{
  ServerConfig, ApiClient, DecodeOps, parse_dns_config, obfs_path_of, block_rules, push_data,
}

-- The host in the headers of a ws transport, which are JSON; `none` in the answer is a panic.
unfoldable pub ws_host : {J : Type 0} → JsonOps J → ServerConfig → Option Str
ws_host json s = elim (s.headers) [
  | none ↦ some []
  | some text ↦ elim (json.new_json text) [
    | none ↦ none
    | some b ↦ some (json.must_string (json.get (bytes "Host") b))
  ]
]

module _ {F P : Type 0} (parse_address : Str → Str) where
  abbrev tls_type : ApiClient F P → Str
  tls_type c = if c.enable_xtls then bytes "xtls" else bytes "tls"

  unfoldable pub parse_trojan_node_response : ApiClient F P → ServerConfig → NodeInfo
  unfolding parse_dns_config
  parse_trojan_node_response c s = record zero_node_info {
    node_type = c.node_type;
    node_id = c.node_id;
    port = to_word s.server_port % 2 ^ 32;
    transport_protocol = bytes "tcp";
    enable_tls = true;
    tls_type = tls_type c;
    host = s.host;
    service_name = s.server_name;
    name_server_config = parse_dns_config parse_address s.routes;
  }

  unfoldable pub parse_ss_node_response : (Str → Str) → ApiClient F P → ServerConfig → NodeInfo
  unfolding parse_dns_config obfs_path_of
  parse_ss_node_response http_header c s = record zero_node_info {
    node_type = c.node_type;
    node_id = c.node_id;
    port = to_word s.server_port % 2 ^ 32;
    transport_protocol = bytes "tcp";
    cypher_method = s.cipher;
    server_key = s.server_key;
    name_server_config = parse_dns_config parse_address s.routes;
    header =
        if text_eq s.obfs (bytes "http")
        then some (http_header (obfs_path_of s.obfs_path))
        else none;
  }

  unfoldable pub parse_v2ray_node_response :
      {J : Type 0} → JsonOps J → ApiClient F P → ServerConfig → NodeInfo ⊎ ApiError
  unfolding ws_host parse_dns_config
  parse_v2ray_node_response json c s =
      let node = record zero_node_info {
        node_type = c.node_type;
        node_id = c.node_id;
        port = to_word s.server_port % 2 ^ 32;
        transport_protocol = s.network;
        enable_tls = holds (ℤ_discrete s.tls (pos 1));
        tls_type = tls_type c;
        path = s.path;
        enable_vless = c.enable_vless;
        service_name = s.service_name;
        name_server_config = parse_dns_config parse_address s.routes;
      } in
      if text_eq s.network (bytes "ws")
      then (elim (ws_host json s) [
        | none ↦ inr panicked
        | some host ↦ inl (record node { host = host })
      ])
      else if text_eq s.network (bytes "tcp")
      then inl (record node { header = s.header })
      else inl node

  unfoldable pub parse_node :
      {J : Type 0} → JsonOps J → (Str → Str) → ApiClient F P → ServerConfig → NodeInfo ⊎ ApiError
  unfolding parse_trojan_node_response parse_ss_node_response parse_v2ray_node_response
  parse_node json http_header c s =
      if text_eq c.node_type (bytes "V2ray")
      then parse_v2ray_node_response json c s
      else if text_eq c.node_type (bytes "Trojan")
      then inl (parse_trojan_node_response c s)
      else if text_eq c.node_type (bytes "Shadowsocks")
      then inl (parse_ss_node_response http_header c s)
      else inr (unsupported_node_type c.node_type)

  -- A port of 0 is refused before the configuration is kept.
  unfoldable pub get_node_info :
      {J : Type 0}
      → JsonOps J
      → DecodeOps J
      → (Str → Str)
      → (Request → Reply)
      → ApiClient F P
      → ApiClient F P × (NodeInfo ⊎ ApiError)
  unfolding parse_node
  get_node_info json decode http_header panel c =
      let path = bytes "/api/v1/server/UniProxy/config" in
      elim (parse_response json (panel (record { path = path; if_none_match = none }))) [
        | inr e ↦ (c, inr e)
        | inl j ↦
            let server = decode.to_config j in
            if holds (ℤ_discrete server.server_port (pos 0))
            then (c, inr port_is_zero)
            else (record c { resp = some server }, parse_node json http_header c server)
      ]

module _ {F P : Type 0} where
  -- Before a configuration has been kept there is nothing to load, which is a panic.
  unfoldable pub get_node_rule : (Str → Option P) → ApiClient F P → List (DetectRule P) ⊎ ApiError
  unfolding block_rules
  get_node_rule compile c = elim (c.resp) [
    | none ↦ inr panicked
    | some server ↦ elim (block_rules compile 0 server.routes) [
      | inr e ↦ inr e
      | inl rules ↦ inl (c.local_rule_list ++ rules)
    ]
  ]

unfoldable pub report_user_traffic :
    {J : Type 0} → JsonOps J → (Dict ℤ (ℕ × ℕ) → Reply) → List UserTraffic → Option ApiError
unfolding push_data
report_user_traffic json panel traffic = elim (parse_response json (panel (push_data traffic []))) [
  | inl j ↦ none
  | inr e ↦ some e
]

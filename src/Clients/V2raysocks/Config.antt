-- ===== src/Clients/V2raysocks/Config.antt =====
-- api/v2raysocks/v2raysocks.go: the node.
use oldxr.Base.{
  ◌%◌, ◌^◌, ◌⊎◌, inl, inr, Bool, true, Option, none, some, List, [], ◌∷◌, if◌then◌else◌,
}
use oldxr.Base.Text.{Str, bytes, text_eq, to_lower}
use oldxr.Api.{UserInfo, NodeInfo, zero_node_info}
use oldxr.Clients.{
  Reply, ApiError, unsupported_node_type, panicked, header_invalid, parse_failed, JsonOps, SpeedOps,
  parse_response,
}
use oldxr.Clients.V2raysocks.{Request, ApiClient, is_supported, get_user_list}

-- The first of `inbounds`, which goes through its text; a value that is no map is a panic.
unfoldable pub first_inbound : {J : Type 0} → JsonOps J → J → Option J
first_inbound json j = elim (json.must_array (json.get (bytes "inbounds") j)) [
  | [] ↦ none
  | first ∷ others ↦ elim (json.marshal_map first) [ none ↦ none | some text ↦ json.new_json text ]
]

module _ {J F P : Type 0} (json : JsonOps J) where
  abbrev tls_type : ApiClient J F P → Str
  tls_type c = if c.enable_xtls then bytes "xtls" else bytes "tls"

  abbrev node_base : ApiClient J F P → J → NodeInfo
  node_base c inbound = record zero_node_info {
    node_type = c.node_type;
    node_id = c.node_id;
    port = json.must_uint64 (json.get (bytes "port") inbound) % 2 ^ 32;
  }

  unfoldable pub parse_trojan_node_response : ApiClient J F P → J → NodeInfo
  parse_trojan_node_response c inbound =
      let tls = json.get (bytes "tlsSettings") (json.get (bytes "streamSettings") inbound) in
      record (node_base c inbound) {
        transport_protocol = bytes "tcp";
        enable_tls = true;
        tls_type = tls_type c;
        host = json.must_string (json.get (bytes "serverName") tls);
      }

  unfoldable pub parse_v2ray_node_response : ApiClient J F P → J → NodeInfo ⊎ ApiError
  parse_v2ray_node_response c inbound =
      let stream = json.get (bytes "streamSettings") inbound in
      let network = json.must_string (json.get (bytes "network") stream) in
      let node = record (node_base c inbound) {
        transport_protocol = network;
        enable_tls = text_eq (json.must_string (json.get (bytes "security") stream)) (bytes "tls");
        tls_type = tls_type c;
        enable_vless = c.enable_vless;
      } in
      let ws = json.get (bytes "wsSettings") stream in
      let tcp = json.get (bytes "tcpSettings") stream in
      if text_eq network (bytes "ws")
      then inl (record node {
        path = json.must_string (json.get (bytes "path") ws);
        host = json.must_string (json.get (bytes "Host") (json.get (bytes "headers") ws));
      })
      else if text_eq network (bytes "grpc")
      then (elim (json.check_get (bytes "serviceName") (json.get (bytes "grpcSettings") stream)) [
        | none ↦ inl node
        | some name ↦ inl (record node { service_name = json.must_string name })
      ])
      else if text_eq network (bytes "tcp")
      then (elim (json.check_get (bytes "header") tcp) [
        | none ↦ inl node
        | some header ↦ elim (json.marshal header) [
          | none ↦ inr header_invalid
          | some text ↦ inl (record node { header = some text })
        ]
      ])
      else inl node

-- The method of the first user, if there is one.
abbrev pub method_of : Str → List UserInfo → Str
method_of method [] = method
method_of method (u ∷ us) = u.method

-- An error is wrapped, a panic is not.
abbrev pub wrapped : NodeInfo ⊎ ApiError → NodeInfo ⊎ ApiError
wrapped (inl node) = inl node
wrapped (inr panicked) = inr panicked
wrapped (inr e) = inr (parse_failed e)

module _ {J F P : Type 0} (json : JsonOps J) (speed : SpeedOps F) (is_2022 : Str → Bool)
    (panel : Request → Reply) where
  -- A method of 2022 has a key of the server, another is that of the first user.
  unfoldable pub parse_ss_node_response : ApiClient J F P → J → NodeInfo ⊎ ApiError
  unfolding get_user_list
  parse_ss_node_response c inbound =
      let settings = json.get (bytes "settings") inbound in
      let method = json.must_string (json.get (bytes "method") settings) in
      let node = record (node_base json c inbound) { transport_protocol = bytes "tcp" } in
      if is_2022 method
      then inl (record node {
        cypher_method = method;
        server_key = json.must_string (json.get (bytes "password") settings);
      })
      else (elim (get_user_list json speed panel c) [
        | inr e ↦ inr e
        | inl users ↦ inl (record node { cypher_method = method_of method users })
      ])

  unfoldable pub parse_node : ApiClient J F P → J → NodeInfo ⊎ ApiError
  unfolding first_inbound parse_v2ray_node_response parse_trojan_node_response
      parse_ss_node_response
  parse_node c j = elim (first_inbound json j) [
    | none ↦ inr panicked
    | some inbound ↦
        if text_eq c.node_type (bytes "V2ray")
        then parse_v2ray_node_response json c inbound
        else if text_eq c.node_type (bytes "Trojan")
        then inl (parse_trojan_node_response json c inbound)
        else parse_ss_node_response c inbound
  ]

  -- The configuration is kept before it is read, and forgotten where there was no answer.
  unfoldable pub get_node_info : ApiClient J F P → ApiClient J F P × (NodeInfo ⊎ ApiError)
  unfolding parse_node
  get_node_info c =
      let request : Request = record {
        act = bytes "config";
        nodetype = to_lower c.node_type;
        rows = [];
      } in
      if is_supported c.node_type
      then (elim (parse_response json (panel request)) [
        | inr e ↦ (record c { config_resp = none }, inr e)
        | inl j ↦
            let c' : ApiClient J F P = record c { config_resp = some j } in
            (c', wrapped (parse_node c' j))
      ])
      else (c, inr (unsupported_node_type c.node_type))

-- ===== src/Clients/Sspanel/Custom.antt =====
-- api/sspanel/sspanel.go: the node of custom_config, that of Shadowsocks, and `GetNodeInfo`.
use oldxr.Base.{
  ℕ, ◌%◌, ◌^◌, ◌⊎◌, inl, inr, Bool, true, false, ◌&&◌, ◌||◌, not, none, some, List, [], ◌∷◌, ◌++◌,
  ◌==◌, if◌then◌else◌,
}
use oldxr.Base.Int.{ℤ, to_word, is_positive}
use oldxr.Base.Text.{Str, bytes, itoa, text_eq, is_empty}
use oldxr.Base.Text.Split.{parse_int}
use oldxr.Api.{NodeInfo}
use oldxr.Clients.{
  Answer, ApiError, unsupported_node_type, decode_failed, panicked, bad_number, no_multi_user,
  parse_failed, SpeedOps,
}
use oldxr.Clients.Sspanel.{
  NodeInfoResponse, CustomConfig, UserResponse, Response, Request, no_body, DecodeOps, ApiClient,
  parse_response, user_list_request,
}
use oldxr.Clients.Sspanel.Nodes.{
  is_tls, node_base, parse_v2ray_node_response, parse_ss_plugin_node_response,
  parse_trojan_node_response,
}

-- The port and the method of the first user with several users, or zero values.
unfoldable pub find_multi_user : {F : Type 0} → List (UserResponse F) → ℕ × Str
find_multi_user [] = (0, [])
find_multi_user (u ∷ us) =
    let rest = find_multi_user us in if is_positive u.multi_user then (u.port, u.method) else rest

-- A V2Ray node has TLS by its security; VLESS is on if it is "1".
unfoldable pub v2ray_custom : CustomConfig → ℤ → NodeInfo → NodeInfo
v2ray_custom config alter_id n = record n {
  transport_protocol = config.network;
  tls_type = config.security;
  alter_id = to_word alter_id % 2 ^ 16;
  enable_tls = is_tls config.security;
  enable_vless = text_eq config.enable_vless (bytes "1");
}

unfoldable pub trojan_custom : CustomConfig → NodeInfo → NodeInfo
trojan_custom config n = record n {
  enable_tls = true;
  tls_type =
      if text_eq config.enable_xtls (bytes "1")
      then bytes "xtls"
      else if is_empty config.security
      then bytes "tls"
      else config.security;
  transport_protocol =
      if text_eq config.grpc (bytes "1")
      then bytes "grpc"
      else if is_empty config.network
      then bytes "tcp"
      else config.network;
}

-- The part that depends on the type; the node of another type stays as it is.
unfoldable pub custom_node : Str → CustomConfig → NodeInfo → NodeInfo ⊎ ApiError
unfolding parse_int v2ray_custom trojan_custom
custom_node node_type config n =
    if text_eq node_type (bytes "Shadowsocks")
    then inl (record n { transport_protocol = bytes "tcp" })
    else if text_eq node_type (bytes "V2ray")
    then (elim (parse_int 16 config.alter_id) [
      | none ↦ inr bad_number
      | some alter_id ↦ inl (v2ray_custom config alter_id n)
    ])
    else if text_eq node_type (bytes "Trojan")
    then inl (trojan_custom config n)
    else inl n

-- An error of the parsers is wrapped, a panic and the one of another type are not.
abbrev pub wrapped : NodeInfo ⊎ ApiError → NodeInfo ⊎ ApiError
wrapped (inl node) = inl node
wrapped (inr panicked) = inr panicked
wrapped (inr (unsupported_node_type t)) = inr (unsupported_node_type t)
wrapped (inr e) = inr (parse_failed e)

module _ {F P W : Type 0} (speed : SpeedOps F) (decode : DecodeOps F W) where
  unfoldable pub parse_sspanel_node_info :
      ApiClient F P → NodeInfoResponse F W → NodeInfo ⊎ ApiError
  unfolding parse_int custom_node
  parse_sspanel_node_info c n =
      let config = decode.to_custom n.custom_config in
      elim (parse_int 32 config.offset_port_node) [
        | none ↦ inr bad_number
        | some port ↦
            custom_node c.node_type config (record (node_base speed c n (to_word port % 2 ^ 32)) {
              host = config.host;
              path = config.path;
              cypher_method = config.mu_encryption;
              service_name = config.servicename;
              header = config.header;
            })
      ]

  module _ (panel : Request → Answer (Response W)) where
    unfoldable pub ss_node : ApiClient F P → NodeInfoResponse F W → ℕ × Str → NodeInfo ⊎ ApiError
    ss_node c n (port, method) =
        if port == 0 || is_empty method
        then inr no_multi_user
        else inl (record (node_base speed c n port) {
          transport_protocol = bytes "tcp";
          cypher_method = method;
        })

    unfoldable pub parse_ss_node_response :
        ApiClient F P → NodeInfoResponse F W → NodeInfo ⊎ ApiError
    unfolding parse_response find_multi_user ss_node
    parse_ss_node_response c n = elim (parse_response (panel (user_list_request c))) [
      | inr e ↦ inr e
      | inl response ↦ elim (decode.to_users response.data_json) [
        | none ↦ inr decode_failed
        | some users ↦ ss_node c n (find_multi_user users)
      ]
    ]

    -- Whether the node is read from custom_config: only from a panel that has a version, and
    -- unless it is an empty list.
    unfoldable pub has_custom_config : ApiClient F P → NodeInfoResponse F W → Bool
    has_custom_config c n =
        if not (is_empty n.version) && not c.disable_custom_config
        then (elim (decode.custom_text n.custom_config) [
          | none ↦ false
          | some text ↦ not (text_eq text (bytes "[]"))
        ])
        else false

    unfoldable pub parse_node :
        (Str → Str) → ApiClient F P → NodeInfoResponse F W → NodeInfo ⊎ ApiError
    unfolding has_custom_config parse_sspanel_node_info parse_v2ray_node_response
        parse_ss_plugin_node_response parse_trojan_node_response parse_ss_node_response
    parse_node type_header c n =
        if has_custom_config c n
        then parse_sspanel_node_info c n
        else if text_eq c.node_type (bytes "V2ray")
        then parse_v2ray_node_response speed type_header c n
        else if text_eq c.node_type (bytes "Trojan")
        then parse_trojan_node_response speed c n
        else if text_eq c.node_type (bytes "Shadowsocks")
        then parse_ss_node_response c n
        else if text_eq c.node_type (bytes "Shadowsocks-Plugin")
        then parse_ss_plugin_node_response speed c n
        else inr (unsupported_node_type c.node_type)

    unfoldable pub get_node_info : (Str → Str) → ApiClient F P → NodeInfo ⊎ ApiError
    unfolding parse_response parse_node
    get_node_info type_header c =
        let request : Request = record {
          path = bytes "/mod_mu/nodes/" ++ (itoa c.node_id ++ bytes "/info");
          node_id = none;
          body = no_body;
        } in
        elim (parse_response (panel request)) [
          | inr e ↦ inr e
          | inl response ↦ elim (decode.to_node response.data_json) [
            | none ↦ inr decode_failed
            | some n ↦ wrapped (parse_node type_header c n)
          ]
        ]

-- ===== src/Clients/Proxypanel.antt =====
-- api/proxypanel: the client of ProxyPanel.
--
-- `W` is raw JSON and `F` a float64; resty answers a request by an argument, with the body decoded,
-- and encoding/json on the structs of model.go is `DecodeOps`. A JSON list of pointers may hold
-- null, which is `none`; to use it is a panic.
pub mod Users
pub mod Limits
mod Tests
use oldxr.Base.{
  ℕ, ◌*◌, ◌/◌, ◌%◌, ◌^◌, ◌⊎◌, inl, inr, Bool, true, ◌&&◌, Option, none, some, List, [], ◌∷◌, ◌++◌,
  map, holds, if◌then◌else◌,
}
use oldxr.Base.Int.{ℤ, pos, ℤ_discrete, is_positive, int_of_u64}
use oldxr.Base.Text.{Str, bytes, itoa, text_eq}
use oldxr.Api.{
  Config, UserInfo, NodeInfo, OnlineUser, UserTraffic, DetectRule, DetectResult, zero_user_info,
  zero_node_info,
}
use oldxr.Clients.{
  Answer, ApiError, unsupported_node_type, decode_failed, panicked, parse_failed, SpeedOps,
  parse_answer, append_rules, read_local_rule_list,
}

pub record Response (W : Type 0) : Type 0 where
  pub status : Str
  pub data_json : W

-- The fields that the client reads.
pub record V2rayNodeInfo : Type 0 where
  pub speed_limit : ℕ  -- uint64
  pub client_limit : ℤ
  pub v2_alter_id : ℕ  -- uint16
  pub v2_port : ℕ  -- uint32
  pub v2_net : Str
  pub v2_type : Str
  pub v2_host : Str
  pub v2_path : Str
  pub v2_tls : Bool

pub record ShadowsocksNodeInfo : Type 0 where
  pub speed_limit : ℕ
  pub client_limit : ℤ
  pub method : Str
  pub port : ℕ

pub record TrojanNodeInfo : Type 0 where
  pub speed_limit : ℕ
  pub client_limit : ℤ
  pub trojan_port : ℕ

-- `VMessUser`, `TrojanUser` and `SSUser` differ in the JSON name of the secret.
pub record PanelUser : Type 0 where
  pub uid : ℤ
  pub secret : Str
  pub speed_limit : ℕ  -- uint64

pub record NodeRuleItem : Type 0 where
  pub id : ℤ
  pub rule_type : Str
  pub pattern : Str

pub record NodeRule : Type 0 where
  pub mode : Str
  pub rules : List NodeRuleItem

pub data Body : Type 0 where
  no_body : Body
  node_status : (cpu mem disk : Str) (uptime : ℤ) → Body
  node_online : List (ℤ × Str) → Body
  user_traffic : List (ℤ × ℕ × ℕ) → Body
  illegal_report : (uid rule_id : ℤ) (reason : Str) → Body

pub record Request : Type 0 where
  pub path : Str
  pub body : Body

pub record DecodeOps (W : Type 0) : Type 0 where
  pub to_v2ray : W → Option V2rayNodeInfo
  pub to_shadowsocks : W → Option ShadowsocksNodeInfo
  pub to_trojan : W → Option TrojanNodeInfo
  pub to_vmess_users : W → Option (List (Option PanelUser))
  pub to_trojan_users : W → Option (List (Option PanelUser))
  pub to_ss_users : W → Option (List (Option PanelUser))
  pub to_node_rule : W → Option NodeRule

pub record ApiClient (F P : Type 0) : Type 0 where
  pub api_host : Str
  pub node_id : ℤ
  pub key : Str
  pub node_type : Str
  pub enable_vless : Bool
  pub enable_xtls : Bool
  pub speed_limit : F
  pub device_limit : ℤ
  pub local_rule_list : List (DetectRule P)

unfoldable pub new :
    {F P : Type 0} → (Str → Option P) → Option (List Str) → Config F → ApiClient F P
new compile lines config = record {
  api_host = config.api_host;
  node_id = config.node_id;
  key = config.key;
  node_type = config.node_type;
  enable_vless = config.enable_vless;
  enable_xtls = config.enable_xtls;
  speed_limit = config.speed_limit;
  device_limit = config.device_limit;
  local_rule_list = read_local_rule_list compile lines;
}

unfoldable pub parse_response : {W : Type 0} → Answer (Response W) → Response W ⊎ ApiError
unfolding parse_answer
parse_response answer = parse_answer (λ r. text_eq r.status (bytes "success")) answer

-- A value for each of the three types, `none` for another.
abbrev pub by_type : {A : Type 0} → Str → A → A → A → Option A
by_type node_type v2ray trojan shadowsocks =
    if text_eq node_type (bytes "V2ray")
    then some v2ray
    else if text_eq node_type (bytes "Trojan")
    then some trojan
    else if text_eq node_type (bytes "Shadowsocks")
    then some shadowsocks
    else none

module _ {F P : Type 0} where
  -- The path of a resource of the node.
  unfoldable pub path_of : Str → ApiClient F P → Option Str
  path_of resource c =
      let rest = bytes "/v1/" ++ (resource ++ (bytes "/" ++ itoa c.node_id)) in
      by_type c.node_type (bytes "/api/v2ray" ++ rest) (bytes "/api/trojan" ++ rest)
        (bytes "/api/ss" ++ rest)

  -- A request without a body, whose answer goes on.
  unfoldable pub fetch :
      {W A : Type 0}
      → (Request → Answer (Response W))
      → Str
      → ApiClient F P
      → (W → A ⊎ ApiError)
      → A ⊎ ApiError
  unfolding path_of parse_response
  fetch panel resource c go_on = elim (path_of resource c) [
    | none ↦ inr (unsupported_node_type c.node_type)
    | some path ↦ elim (parse_response (panel (record { path = path; body = no_body }))) [
      | inr e ↦ inr e
      | inl response ↦ go_on response.data_json
    ]
  ]

  unfoldable pub post :
      {W : Type 0}
      → (Request → Answer (Response W))
      → Str
      → ApiClient F P
      → List Body
      → Option ApiError
  unfolding path_of parse_response
  post panel resource c [] = elim (path_of resource c) [
    | none ↦ some (unsupported_node_type c.node_type)
    | some path ↦ none
  ]
  post panel resource c (body ∷ bodies) =
      let rest = post panel resource c bodies in
      elim (path_of resource c) [
        | none ↦ some (unsupported_node_type c.node_type)
        | some path ↦ elim (parse_response (panel (record { path = path; body = body }))) [
          | inr e ↦ some e
          | inl response ↦ rest
        ]
      ]

module _ {F P : Type 0} (speed : SpeedOps F) where
  -- The panel's limit is a uint64, in Mbps, and the product wraps.
  abbrev pub speed_of : ApiClient F P → ℕ → ℕ
  speed_of c limit =
      if speed.is_positive c.speed_limit
      then speed.bps c.speed_limit
      else (limit * 1000000 % 2 ^ 64) / 8

  -- A client without a device limit takes the node's.
  unfoldable pub take_client_limit : ℤ → ApiClient F P → ApiClient F P
  take_client_limit client_limit c =
      if holds (ℤ_discrete c.device_limit (pos 0)) && is_positive client_limit
      then record c { device_limit = client_limit }
      else c

  abbrev pub node_base : ApiClient F P → ℕ → ℕ → NodeInfo
  node_base c port limit = record zero_node_info {
    node_type = c.node_type;
    node_id = c.node_id;
    port = port;
    speed_limit = speed_of c limit;
  }

  abbrev pub tls_type : ApiClient F P → Str
  tls_type c = if c.enable_xtls then bytes "xtls" else bytes "tls"

  unfoldable pub v2ray_node : V2rayNodeInfo → ApiClient F P → ApiClient F P × NodeInfo
  unfolding take_client_limit
  v2ray_node n c = (
    take_client_limit n.client_limit c,
    record (node_base c n.v2_port n.speed_limit) {
      alter_id = n.v2_alter_id;
      transport_protocol = n.v2_net;
      fake_type = n.v2_type;
      enable_tls = n.v2_tls;
      tls_type = tls_type c;
      path = n.v2_path;
      host = n.v2_host;
      enable_vless = c.enable_vless;
    },
  )

  unfoldable pub ss_node : ShadowsocksNodeInfo → ApiClient F P → ApiClient F P × NodeInfo
  unfolding take_client_limit
  ss_node n c = (
    take_client_limit n.client_limit c,
    record (node_base c n.port n.speed_limit) {
      transport_protocol = bytes "tcp";
      cypher_method = n.method;
    },
  )

  unfoldable pub trojan_node : TrojanNodeInfo → ApiClient F P → ApiClient F P × NodeInfo
  unfolding take_client_limit
  trojan_node n c = (
    take_client_limit n.client_limit c,
    record (node_base c n.trojan_port n.speed_limit) {
      transport_protocol = bytes "tcp";
      enable_tls = true;
      tls_type = tls_type c;
    },
  )

  -- What has been decoded, as a node; an error of the decoding is wrapped.
  abbrev pub decoded :
      {A : Type 0}
      → (A → ApiClient F P → ApiClient F P × NodeInfo)
      → Option A
      → ApiClient F P
      → (ApiClient F P × NodeInfo) ⊎ ApiError
  decoded to_node none c = inr (parse_failed decode_failed)
  decoded to_node (some n) c = inl (to_node n c)

  module _ {W : Type 0} (decode : DecodeOps W) (panel : Request → Answer (Response W)) where
    unfoldable pub parse_node : ApiClient F P → W → (ApiClient F P × NodeInfo) ⊎ ApiError
    unfolding v2ray_node trojan_node ss_node
    parse_node c w =
        if text_eq c.node_type (bytes "V2ray")
        then decoded v2ray_node (decode.to_v2ray w) c
        else if text_eq c.node_type (bytes "Trojan")
        then decoded trojan_node (decode.to_trojan w) c
        else if text_eq c.node_type (bytes "Shadowsocks")
        then decoded ss_node (decode.to_shadowsocks w) c
        else inr (unsupported_node_type c.node_type)

    unfoldable pub get_node_info : ApiClient F P → ApiClient F P × (NodeInfo ⊎ ApiError)
    unfolding fetch parse_node
    get_node_info c = elim (fetch panel (bytes "node") c (parse_node c)) [
      | inr e ↦ (c, inr e)
      | inl (c', node) ↦ (c', inl node)
    ]

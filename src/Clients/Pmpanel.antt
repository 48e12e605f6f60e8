-- ===== src/Clients/Pmpanel.antt =====
-- api/pmpanel: the client of PMPanel.
--
-- `W` is raw JSON and `F` a float64; resty answers a request by an argument, with the body decoded,
-- and encoding/json on the structs of model.go is `DecodeOps`.
use oldxr.Base.{
  ℕ, ◌⊎◌, inl, inr, Bool, true, false, ◌||◌, Option, none, some, List, [], ◌∷◌, ◌==◌, map,
  if◌then◌else◌,
}
use oldxr.Base.Int.{ℤ, is_positive}
use oldxr.Base.Text.{Str, bytes, text_eq}
use oldxr.Api.{
  Config, UserInfo, NodeInfo, OnlineUser, UserTraffic, DetectRule, DetectResult, zero_user_info,
  zero_node_info,
}
use oldxr.Clients.{
  Answer, ApiError, unsupported_node_type, decode_failed, panicked, SpeedOps, parse_answer,
  append_rules, read_local_rule_list,
}

-- The fields that the client reads.
pub record NodeInfoResponse (F : Type 0) : Type 0 where
  pub speed_limit : F
  pub method : Str
  pub port : ℕ  -- uint32
  pub alter_id : ℕ  -- uint16
  pub network : Str
  pub security : Str
  pub host : Str
  pub path : Str
  pub grpc : Bool
  pub sni : Str

pub record UserResponse (F : Type 0) : Type 0 where
  pub id : ℤ
  pub passwd : Str
  pub speed_limit : F
  pub device_limit : ℤ

pub record Response (W : Type 0) : Type 0 where
  pub ret : ℕ
  pub data_json : W

-- The query of a GET, or `PostData`.
pub data Body : Type 0 where
  node_query : (node_type : Str) (node_id : ℤ) (all : Bool) → Body
  online_users : (node_type : Str) (node_id : ℤ) → List (ℤ × Str) → Body
  user_traffic : (node_type : Str) (node_id : ℤ) → List (ℤ × ℕ × ℕ) → Body

pub record Request : Type 0 where
  pub path : Str
  pub body : Body

-- The list of users is read into a nil pointer, which null leaves nil.
pub record DecodeOps (F W : Type 0) : Type 0 where
  pub to_node : W → Option (NodeInfoResponse F)
  pub to_users : W → Option (Option (List (UserResponse F)))
  pub to_rules : W → Option (List (ℤ × Str))

pub record ApiClient (F P : Type 0) : Type 0 where
  pub api_host : Str
  pub node_id : ℤ
  pub key : Str
  pub node_type : Str
  pub enable_vless : Bool
  pub enable_xtls : Bool
  pub speed_limit : F
  pub device_limit : ℤ
  pub local_rule_list : List (DetectRule P)

unfoldable pub new :
    {F P : Type 0} → (Str → Option P) → Option (List Str) → Config F → ApiClient F P
new compile lines config = record {
  api_host = config.api_host;
  node_id = config.node_id;
  key = config.key;
  node_type = config.node_type;
  enable_vless = config.enable_vless;
  enable_xtls = config.enable_xtls;
  speed_limit = config.speed_limit;
  device_limit = config.device_limit;
  local_rule_list = read_local_rule_list compile lines;
}

unfoldable pub parse_response : {W : Type 0} → Answer (Response W) → Response W ⊎ ApiError
unfolding parse_answer
parse_response answer = parse_answer (λ r. r.ret == 200) answer

-- The panel's name of a type.
unfoldable pub panel_type : Str → Option Str
panel_type node_type =
    if text_eq node_type (bytes "Shadowsocks")
    then some (bytes "ss")
    else if text_eq node_type (bytes "V2ray")
    then some (bytes "v2ray")
    else if text_eq node_type (bytes "Trojan")
    then some (bytes "trojan")
    else none

module _ {F P W : Type 0} (panel : Request → Answer (Response W)) where
  -- A request made of the panel's name of the type.
  unfoldable pub ask : Str → (Str → Body) → ApiClient F P → Response W ⊎ ApiError
  unfolding panel_type parse_response
  ask path body c = elim (panel_type c.node_type) [
    | none ↦ inr (unsupported_node_type c.node_type)
    | some node_type ↦ parse_response (panel (record { path = path; body = body node_type }))
  ]

  unfoldable pub post : Str → (Str → Body) → ApiClient F P → Option ApiError
  unfolding ask
  post path body c = elim (ask path body c) [ inl response ↦ none | inr e ↦ some e ]

  unfoldable pub report_node_online_users : List OnlineUser → ApiClient F P → Option ApiError
  unfolding post
  report_node_online_users users c =
      post (bytes "/api/online")
        (λ node_type. online_users node_type c.node_id (map (λ u. (u.uid, u.ip)) users)) c

  unfoldable pub report_user_traffic : List UserTraffic → ApiClient F P → Option ApiError
  unfolding post
  report_user_traffic traffic c =
      post (bytes "/api/traffic")
        (λ node_type.
          user_traffic node_type c.node_id (map (λ t. (t.uid, t.upload, t.download)) traffic))
        c

-- Neither is reported.
abbrev pub report_node_status : {F P N : Type 0} → N → ApiClient F P → Option ApiError
report_node_status status c = none

abbrev pub report_illegal : {F P : Type 0} → List DetectResult → ApiClient F P → Option ApiError
report_illegal results c = none

module _ {F P : Type 0} (speed : SpeedOps F) where
  abbrev pub speed_of : ApiClient F P → F → ℕ
  speed_of c limit =
      if speed.is_positive c.speed_limit then speed.bps c.speed_limit else speed.bps limit

  abbrev pub node_base : ApiClient F P → NodeInfoResponse F → NodeInfo
  node_base c n = record zero_node_info {
    node_type = c.node_type;
    node_id = c.node_id;
    port = n.port;
    speed_limit = speed_of c n.speed_limit;
  }

  abbrev pub tls_type : ApiClient F P → Str
  tls_type c = if c.enable_xtls then bytes "xtls" else bytes "tls"

  unfoldable pub parse_v2ray_node_response : ApiClient F P → NodeInfoResponse F → NodeInfo
  parse_v2ray_node_response c n =
      let is_ws = text_eq n.network (bytes "ws") in
      let is_tls = text_eq n.security (bytes "tls") || text_eq n.security (bytes "xtls") in
      record (node_base c n) {
        alter_id = n.alter_id;
        transport_protocol = n.network;
        enable_tls = is_tls;
        tls_type = if is_tls then tls_type c else [];
        path = if is_ws then n.path else [];
        host = if is_ws then n.host else [];
        enable_vless = c.enable_vless;
        service_name = if text_eq n.network (bytes "grpc") then n.sni else [];
      }

  unfoldable pub parse_ss_node_response : ApiClient F P → NodeInfoResponse F → NodeInfo
  parse_ss_node_response c n = record (node_base c n) {
    transport_protocol = bytes "tcp";
    cypher_method = n.method;
  }

  unfoldable pub parse_trojan_node_response : ApiClient F P → NodeInfoResponse F → NodeInfo
  parse_trojan_node_response c n = record (node_base c n) {
    transport_protocol = if n.grpc then bytes "grpc" else bytes "tcp";
    enable_tls = true;
    tls_type = tls_type c;
    host = n.host;
    service_name = n.sni;
  }

  unfoldable pub parse_node : ApiClient F P → NodeInfoResponse F → NodeInfo ⊎ ApiError
  unfolding parse_v2ray_node_response parse_trojan_node_response parse_ss_node_response
  parse_node c n =
      if text_eq c.node_type (bytes "V2ray")
      then inl (parse_v2ray_node_response c n)
      else if text_eq c.node_type (bytes "Trojan")
      then inl (parse_trojan_node_response c n)
      else if text_eq c.node_type (bytes "Shadowsocks")
      then inl (parse_ss_node_response c n)
      else inr (unsupported_node_type c.node_type)

  unfoldable pub parse_users : ApiClient F P → List (UserResponse F) → List UserInfo
  parse_users c [] = []
  parse_users c (user ∷ users) =
      record zero_user_info {
        uid = user.id;
        passwd = user.passwd;
        uuid = user.passwd;
        speed_limit = speed_of c user.speed_limit;
        device_limit = if is_positive c.device_limit then c.device_limit else user.device_limit;
      }
      ∷ parse_users c users

  module _ {W : Type 0} (decode : DecodeOps F W) (panel : Request → Answer (Response W)) where
    unfoldable pub get_node_info : ApiClient F P → NodeInfo ⊎ ApiError
    unfolding ask parse_node
    get_node_info c =
        let query : Str → Body = λ node_type. node_query node_type c.node_id false in
        elim (ask panel (bytes "/api/node") query c) [
          | inr e ↦ inr e
          | inl response ↦ elim (decode.to_node response.data_json) [
            | none ↦ inr decode_failed
            | some n ↦ parse_node c n
          ]
        ]

    -- The list of null is a nil pointer, and to range over it a panic.
    unfoldable pub get_user_list : ApiClient F P → List UserInfo ⊎ ApiError
    unfolding ask parse_users
    get_user_list c =
        let query : Str → Body = λ node_type. node_query node_type c.node_id true in
        elim (ask panel (bytes "/api/users") query c) [
          | inr e ↦ inr e
          | inl response ↦ elim (decode.to_users response.data_json) [
            | none ↦ inr decode_failed
            | some none ↦ inr panicked
            | some (some users) ↦ inl (parse_users c users)
          ]
        ]

    unfoldable pub get_node_rule : (Str → Option P) → ApiClient F P → List (DetectRule P) ⊎ ApiError
    unfolding ask append_rules
    get_node_rule compile c =
        let query : Str → Body = λ node_type. node_query node_type c.node_id false in
        elim (ask panel (bytes "/api/rules") query c) [
          | inr e ↦ inr e
          | inl response ↦ elim (decode.to_rules response.data_json) [
            | none ↦ inr decode_failed
            | some rules ↦ append_rules compile c.local_rule_list rules
          ]
        ]

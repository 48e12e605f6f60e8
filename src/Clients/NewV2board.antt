-- ===== src/Clients/NewV2board.antt =====
-- api/newV2board: the client of V2Board's UniProxy interface.
--
-- `DecodeOps` is encoding/json on the structs of model.go, `parse_address` is xray-core's
-- `net.ParseAddress`, and `http_header` is the text of the header object that the client builds.
pub mod Nodes
pub mod Delivery
pub mod Reports
use oldxr.Base.{
  ℕ, zero, suc, ◌+◌, ◌-◌, ◌*◌, ◌/◌, ◌%◌, ◌^◌, ◌⊎◌, inl, inr, Bool, true, false, ◌&&◌, not, Option,
  none, some, List, [], ◌∷◌, ◌++◌, ltb, ◌==◌, if◌then◌else◌,
}
use oldxr.Base.Int.{ℤ, pos, negsuc, ℤ_discrete, to_word, quot_word}
use oldxr.Base.Dict.{Dict, store}
use oldxr.Base.Text.{Str, bytes, text_eq, is_empty, strip_prefix, join}
use oldxr.Api.{
  Config, UserInfo, NodeInfo, NameServerConfig, DetectRule, UserTraffic, zero_user_info,
  zero_node_info, compile_detect_rule,
}
use oldxr.Clients.{
  Request, Reply, status_code, etag_header, ApiError, unsupported_node_type, users_no_change,
  port_is_zero, panicked, parse_failed, invalid_rule, JsonOps, SpeedOps, parse_response,
  read_local_rule_list,
}

pub record Route : Type 0 where
  pub id : ℤ
  pub match_list : List Str
  pub action : Str
  pub action_value : Str

-- `serverConfig` with the structs that it embeds; a nil raw message is `none`.
pub record ServerConfig : Type 0 where
  pub cipher : Str
  pub obfs : Str
  pub obfs_path : Str
  pub obfs_host : Str
  pub server_key : Str
  pub network : Str
  pub path : Str
  pub headers : Option Str
  pub service_name : Str
  pub header : Option Str
  pub tls : ℤ
  pub host : Str
  pub server_name : Str
  pub server_port : ℤ
  pub routes : List Route

pub record User : Type 0 where
  pub id : ℤ
  pub uuid : Str
  pub speed_limit : ℤ

pub record DecodeOps (J : Type 0) : Type 0 where
  pub to_config : J → ServerConfig
  pub to_users : J → List User

pub record ApiClient (F P : Type 0) : Type 0 where
  pub api_host : Str
  pub node_id : ℤ
  pub key : Str
  pub node_type : Str
  pub enable_vless : Bool
  pub enable_xtls : Bool
  pub speed_limit : F
  pub device_limit : ℤ
  pub local_rule_list : List (DetectRule P)
  pub resp : Option ServerConfig
  pub etag : Str

unfoldable pub new :
    {F P : Type 0} → (Str → Option P) → Option (List Str) → Config F → ApiClient F P
new compile lines config = record {
  api_host = config.api_host;
  node_id = config.node_id;
  key = config.key;
  node_type = config.node_type;
  enable_vless = config.enable_vless;
  enable_xtls = config.enable_xtls;
  speed_limit = config.speed_limit;
  device_limit = config.device_limit;
  local_rule_list = read_local_rule_list compile lines;
  resp = none;
  etag = [];
}

abbrev pub is_supported : Str → Bool
is_supported node_type =
    if text_eq node_type (bytes "V2ray")
    then true
    else if text_eq node_type (bytes "Trojan")
    then true
    else text_eq node_type (bytes "Shadowsocks")

-- `uint64(x * 1000000 / 8)` of an int: the product wraps, and the quotient is cut towards zero.
unfoldable pub bps_of_int : ℤ → ℕ
bps_of_int x = let product = to_word x * 1000000 % 2 ^ 64 in quot_word product 8

-- The address and the domains of each dns route.
unfoldable pub parse_dns_config : (Str → Str) → List Route → List NameServerConfig
parse_dns_config parse_address [] = []
parse_dns_config parse_address (r ∷ rs) =
    let rest = parse_dns_config parse_address rs in
    if text_eq r.action (bytes "dns")
    then record { address = parse_address r.action_value; domains = r.match_list } ∷ rest
    else rest

-- The path of an obfuscated header, which begins with a slash.
unfoldable pub obfs_path_of : Str → Str
obfs_path_of p =
    if is_empty p
    then bytes "/"
    else (elim (strip_prefix (bytes "/") p) [ some rest ↦ p | none ↦ bytes "/" ++ p ])

-- The block routes as rules, from an index on.
unfoldable pub block_rules :
    {P : Type 0} → (Str → Option P) → ℕ → List Route → List (DetectRule P) ⊎ ApiError
unfolding compile_detect_rule
block_rules compile i [] = inl []
block_rules compile i (r ∷ rs) =
    let rest = block_rules compile (suc i) rs in
    if text_eq r.action (bytes "block")
    then (elim (compile_detect_rule compile (pos i) (join (bytes "|") r.match_list)) [
      | none ↦ inr (invalid_rule i)
      | some rule ↦ elim rest [ inr e ↦ inr e | inl rules ↦ inl (rule ∷ rules) ]
    ])
    else rest

-- The body of the report: a map, in which a later row of a user replaces an earlier one.
unfoldable pub push_data : List UserTraffic → Dict ℤ (ℕ × ℕ) → Dict ℤ (ℕ × ℕ)
push_data [] m = m
push_data (t ∷ ts) m = push_data ts (store ℤ_discrete t.uid (t.upload, t.download) m)

module _ {F P : Type 0} (speed : SpeedOps F) where
  unfoldable pub to_user_info : ApiClient F P → User → UserInfo
  unfolding bps_of_int
  to_user_info c user =
      let u = record zero_user_info {
        uid = user.id;
        uuid = user.uuid;
        speed_limit =
            if speed.is_positive c.speed_limit
            then speed.bps c.speed_limit
            else bps_of_int user.speed_limit;
        device_limit = c.device_limit;
        email = user.uuid ++ bytes "@v2board.user";
      } in
      if text_eq c.node_type (bytes "Shadowsocks") then record u { passwd = user.uuid } else u

  unfoldable pub to_user_list : ApiClient F P → List User → List UserInfo
  unfolding to_user_info
  to_user_list c [] = []
  to_user_list c (u ∷ us) = to_user_info c u ∷ to_user_list c us

module _ {F P : Type 0} where
  unfoldable pub user_request : ApiClient F P → Request
  user_request c = record {
    path = bytes "/api/v1/server/UniProxy/user";
    if_none_match = some c.etag;
  }

  -- The ETag of an answer is kept before its body is looked at.
  unfoldable pub update_etag : Str → ApiClient F P → ApiClient F P
  update_etag tag c =
      if not (is_empty tag) && not (text_eq tag c.etag) then record c { etag = tag } else c

module _ {J F P : Type 0} (json : JsonOps J) (decode : DecodeOps J) (speed : SpeedOps F) where
  unfoldable pub users_of : ApiClient F P → J → List UserInfo
  users_of c j = to_user_list speed c (decode.to_users (json.get (bytes "users") j))

  unfoldable pub take_reply : ApiClient F P → Reply → ApiClient F P × (List UserInfo ⊎ ApiError)
  unfolding update_etag
  take_reply c reply =
      if status_code reply == 304
      then (c, inr users_no_change)
      else (let c' = update_etag (etag_header reply) c in
          elim (parse_response json reply) [
            | inr e ↦ (c', inr e)
            | inl j ↦ (c', inl (users_of c' j))
          ])

  unfoldable pub get_user_list :
      (Request → Reply) → ApiClient F P → ApiClient F P × (List UserInfo ⊎ ApiError)
  get_user_list panel c =
      if is_supported c.node_type
      then take_reply c (panel (user_request c))
      else (c, inr (unsupported_node_type c.node_type))

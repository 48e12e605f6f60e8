-- ===== src/Clients/V2raysocks.antt =====
-- api/v2raysocks: the client of V2RaySocks.
--
-- `J` is a JSON value of simplejson. The list of Shadowsocks 2022 methods is an argument, and so is
-- the answer to a request.
pub mod Config
use oldxr.Base.{
  ℕ, zero, suc, ◌*◌, ◌/◌, ◌%◌, ◌^◌, ◌⊎◌, inl, inr, Bool, true, false, Option, none, some, List, [],
  ◌∷◌, length, map, if◌then◌else◌,
}
use oldxr.Base.Int.{ℤ, pos}
use oldxr.Base.Text.{Str, bytes, text_eq, to_lower, strip_prefix}
use oldxr.Api
use oldxr.Api.{
  UserInfo, NodeInfo, UserTraffic, DetectRule, OnlineUser, DetectResult, zero_user_info,
  zero_node_info,
}
use oldxr.Clients.{
  Reply, ApiError, unsupported_node_type, panicked, header_invalid, parse_failed, JsonOps, SpeedOps,
  parse_response, append_rules, read_local_rule_list,
}

-- `act` and `nodetype` of the query, and the rows of a report.
pub record Request : Type 0 where
  pub act : Str
  pub nodetype : Str
  pub rows : List (ℤ × ℕ × ℕ)

pub record ApiClient (J F P : Type 0) : Type 0 where
  pub api_host : Str
  pub node_id : ℤ
  pub key : Str
  pub node_type : Str
  pub enable_vless : Bool
  pub enable_xtls : Bool
  pub speed_limit : F
  pub device_limit : ℤ
  pub local_rule_list : List (DetectRule P)
  pub config_resp : Option J

unfoldable pub new :
    {J F P : Type 0} → (Str → Option P) → Option (List Str) → Api.Config F → ApiClient J F P
new compile lines config = record {
  api_host = config.api_host;
  node_id = config.node_id;
  key = config.key;
  node_type = config.node_type;
  enable_vless = config.enable_vless;
  enable_xtls = config.enable_xtls;
  speed_limit = config.speed_limit;
  device_limit = config.device_limit;
  local_rule_list = read_local_rule_list compile lines;
  config_resp = none;
}

abbrev pub is_supported : Str → Bool
is_supported node_type =
    if text_eq node_type (bytes "V2ray")
    then true
    else if text_eq node_type (bytes "Trojan")
    then true
    else text_eq node_type (bytes "Shadowsocks")

-- The panel's limit, in Mbps; the product wraps.
abbrev pub panel_speed : {J : Type 0} → JsonOps J → J → ℕ
panel_speed json fields =
    (json.must_uint64 (json.get (bytes "speed_limit") fields) * 1000000 % 2 ^ 64) / 8

module _ {J F P : Type 0} (json : JsonOps J) (speed : SpeedOps F) where
  -- The limit of the configuration, if it is positive.
  abbrev pub speed_of : ApiClient J F P → J → ℕ
  speed_of c fields =
      if speed.is_positive c.speed_limit then speed.bps c.speed_limit else panel_speed json fields

  unfoldable pub decode_user : ApiClient J F P → J → UserInfo
  decode_user c item =
      let user = record zero_user_info {
        uid = json.must_int (json.get (bytes "id") item);
        device_limit = c.device_limit;
      } in
      let field = λ (name : Str) (j : J). json.must_string (json.get name j) in
      let ss = json.get (bytes "shadowsocks_user") item in
      let trojan = json.get (bytes "trojan_user") item in
      let v2ray = json.get (bytes "v2ray_user") item in
      if text_eq c.node_type (bytes "Shadowsocks")
      then (record user {
        email = field (bytes "secret") ss;
        passwd = field (bytes "secret") ss;
        method = field (bytes "cipher") ss;
        speed_limit = speed_of c ss;
      })
      else if text_eq c.node_type (bytes "Trojan")
      then (record user {
        uuid = field (bytes "password") trojan;
        email = field (bytes "password") trojan;
        speed_limit = speed_of c trojan;
      })
      else (record user {
        uuid = field (bytes "uuid") v2ray;
        email = field (bytes "email") v2ray;
        alter_id = json.must_uint64 (json.get (bytes "alter_id") v2ray) % 2 ^ 16;
        speed_limit = speed_of c v2ray;
      })

  -- The loop, from an index on.
  unfoldable pub decode_users : ApiClient J F P → J → ℕ → ℕ → List UserInfo
  unfolding decode_user
  decode_users c items i zero = []
  decode_users c items i (suc n) =
      decode_user c (json.get_index i items) ∷ decode_users c items (suc i) n

  unfoldable pub get_user_list : (Request → Reply) → ApiClient J F P → List UserInfo ⊎ ApiError
  unfolding decode_users
  get_user_list panel c =
      let request : Request = record {
        act = bytes "user";
        nodetype = to_lower c.node_type;
        rows = [];
      } in
      if is_supported c.node_type
      then (elim (parse_response json (panel request)) [
        | inr e ↦ inr e
        | inl j ↦
            let items = json.get (bytes "data") j in
            inl (decode_users c items 0 (length (json.must_array items)))
      ])
      else inr (unsupported_node_type c.node_type)

abbrev pub trim_prefix : Str → Str → Str
trim_prefix prefix s = elim (strip_prefix prefix s) [ none ↦ s | some rest ↦ rest ]

-- The patterns with their positions, without a prefix `regexp:`.
unfoldable pub numbered_rules : ℕ → List Str → List (ℤ × Str)
numbered_rules i [] = []
numbered_rules i (rule ∷ rules) =
    (pos i, trim_prefix (bytes "regexp:") rule) ∷ numbered_rules (suc i) rules

module _ {J F P : Type 0} (json : JsonOps J) where
  unfoldable pub report_user_traffic :
      (Request → Reply) → List UserTraffic → ApiClient J F P → Option ApiError
  report_user_traffic panel traffic c =
      let request : Request = record {
        act = bytes "submit";
        nodetype = to_lower c.node_type;
        rows = map (λ t. (t.uid, t.upload, t.download)) traffic;
      } in
      elim (parse_response json (panel request)) [ inl j ↦ none | inr e ↦ some e ]

  -- Only V2Ray has rules. Without a configuration there is nothing to read, which is a panic.
  unfoldable pub get_node_rule : (Str → Option P) → ApiClient J F P → List (DetectRule P) ⊎ ApiError
  unfolding numbered_rules append_rules
  get_node_rule compile c =
      if text_eq c.node_type (bytes "V2ray")
      then (elim (c.config_resp) [
        | none ↦ inr panicked
        | some j ↦
            let rules = json.get (bytes "rules") (json.get (bytes "routing") j) in
            let domains = json.get (bytes "domain") (json.get_index 1 rules) in
            append_rules compile c.local_rule_list
              (numbered_rules 0 (json.must_string_array domains))
      ])
      else inl c.local_rule_list

-- None of these is reported.
abbrev pub report_node_status : {J F P N : Type 0} → N → ApiClient J F P → Option ApiError
report_node_status status c = none

abbrev pub report_node_online_users :
    {J F P : Type 0} → List OnlineUser → ApiClient J F P → Option ApiError
report_node_online_users users c = none

abbrev pub report_illegal : {J F P : Type 0} → List DetectResult → ApiClient J F P → Option ApiError
report_illegal results c = none

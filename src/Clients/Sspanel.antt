-- ===== src/Clients/Sspanel.antt =====
-- api/sspanel: the client of SSPanel, its users and its reports.
--
-- `W` is raw JSON, `F` a float64. encoding/json on the structs of model.go is `DecodeOps`, and
-- resty answers a request by an argument, with the body decoded.
pub mod Nodes
pub mod Custom
pub mod Counting
pub mod Devices
pub mod Strings
mod Tests
use oldxr.Base.{
  ℕ, ◌⊎◌, inl, inr, Bool, ◌&&◌, not, Option, none, some, List, [], ◌∷◌, ◌++◌, ◌==◌, map,
  if◌then◌else◌,
}
use oldxr.Base.Int.{ℤ, pos, ℤ_discrete, is_positive, sub_int, add_int}
use oldxr.Base.Dict.{Dict, load, store}
use oldxr.Base.Text.{Str, bytes, itoa}
use oldxr.Api.{Config, UserInfo, OnlineUser, UserTraffic, DetectRule, DetectResult, zero_user_info}
use oldxr.Clients.{
  Answer, ApiError, decode_failed, SpeedOps, parse_answer, append_rules, read_local_rule_list,
}

pub record NodeInfoResponse (F W : Type 0) : Type 0 where
  pub speed_limit : F
  pub raw_server_string : Str
  pub custom_config : W
  pub version : Str

-- The fields that the client reads.
pub record CustomConfig : Type 0 where
  pub offset_port_node : Str
  pub host : Str
  pub mu_encryption : Str
  pub enable_vless : Str
  pub alter_id : Str
  pub network : Str
  pub security : Str
  pub path : Str
  pub header : Option Str
  pub grpc : Str
  pub servicename : Str
  pub enable_xtls : Str

pub record UserResponse (F : Type 0) : Type 0 where
  pub id : ℤ
  pub email : Str
  pub passwd : Str
  pub port : ℕ  -- uint32
  pub method : Str
  pub speed_limit : F
  pub device_limit : ℤ
  pub protocol : Str
  pub protocol_param : Str
  pub obfs : Str
  pub obfs_param : Str
  pub uuid : Str
  pub multi_user : ℤ
  pub alive_ip : ℤ

pub record Response (W : Type 0) : Type 0 where
  pub ret : ℕ
  pub data_json : W

-- The bodies that are posted; the fields of a row are in the order of model.go.
pub data Body : Type 0 where
  no_body : Body
  system_load : (uptime load_text : Str) → Body
  online_users : List (ℤ × Str) → Body
  user_traffic : List (ℤ × ℕ × ℕ) → Body
  illegal_items : List (ℤ × ℤ) → Body

pub record Request : Type 0 where
  pub path : Str
  pub node_id : Option ℤ
  pub body : Body

-- `custom_text` prints what was read as `custom_config`, and `to_custom` ignores an error.
pub record DecodeOps (F W : Type 0) : Type 0 where
  pub to_node : W → Option (NodeInfoResponse F W)
  pub to_users : W → Option (List (UserResponse F))
  pub to_rules : W → Option (List (ℤ × Str))
  pub to_custom : W → CustomConfig
  pub custom_text : W → Option Str

pub record ApiClient (F P : Type 0) : Type 0 where
  pub api_host : Str
  pub node_id : ℤ
  pub key : Str
  pub node_type : Str
  pub enable_vless : Bool
  pub enable_xtls : Bool
  pub speed_limit : F
  pub device_limit : ℤ
  pub disable_custom_config : Bool
  pub local_rule_list : List (DetectRule P)
  pub last_report_online : Dict ℤ ℤ

unfoldable pub new :
    {F P : Type 0} → (Str → Option P) → Option (List Str) → Config F → ApiClient F P
new compile lines config = record {
  api_host = config.api_host;
  node_id = config.node_id;
  key = config.key;
  node_type = config.node_type;
  enable_vless = config.enable_vless;
  enable_xtls = config.enable_xtls;
  speed_limit = config.speed_limit;
  device_limit = config.device_limit;
  disable_custom_config = config.disable_custom_config;
  local_rule_list = read_local_rule_list compile lines;
  last_report_online = [];
}

-- `Ret != 1` is an error.
unfoldable pub parse_response : {W : Type 0} → Answer (Response W) → Response W ⊎ ApiError
unfolding parse_answer
parse_response answer = parse_answer (λ r. r.ret == 1) answer

-- The configured limit, if it is positive, or the panel's.
abbrev pub speed_of : {F P : Type 0} → SpeedOps F → ApiClient F P → F → ℕ
speed_of speed c limit =
    if speed.is_positive c.speed_limit then speed.bps c.speed_limit else speed.bps limit

abbrev pub last_online_of : ℤ → Dict ℤ ℤ → ℤ
last_online_of id last = elim (load ℤ_discrete id last) [ some v ↦ v | none ↦ pos 0 ]

-- The devices that a user is left, `none` where the user is left out.
unfoldable pub devices_left : ℤ → ℤ → ℤ → Option ℤ
devices_left limit alive_ip last_online =
    if is_positive limit && is_positive alive_ip
    then (let local_limit = add_int (sub_int limit alive_ip) last_online in
        if is_positive local_limit
        then some local_limit
        else if is_positive last_online
        then some last_online
        else none)
    else some limit

abbrev pub user_list_request : {F P : Type 0} → ApiClient F P → Request
user_list_request c = record {
  path = bytes "/mod_mu/users";
  node_id = some c.node_id;
  body = no_body;
}

module _ {F P : Type 0} (speed : SpeedOps F) where
  -- A user of the panel's list, with the devices left.
  unfoldable pub to_user_info : ApiClient F P → UserResponse F → ℤ → UserInfo
  to_user_info c user devices = record zero_user_info {
    uid = user.id;
    email = user.email;
    uuid = user.uuid;
    passwd = user.passwd;
    speed_limit = speed_of speed c user.speed_limit;
    device_limit = devices;
    port = user.port;
    method = user.method;
    protocol = user.protocol;
    protocol_param = user.protocol_param;
    obfs = user.obfs;
    obfs_param = user.obfs_param;
  }

  -- The device limit of a user before the devices online are looked at.
  abbrev pub limit_of : ApiClient F P → UserResponse F → ℤ
  limit_of c user = if is_positive c.device_limit then c.device_limit else user.device_limit

  -- The devices that the user is left by the last report.
  abbrev pub devices_of : ApiClient F P → UserResponse F → Option ℤ
  devices_of c user =
      devices_left (limit_of c user) user.alive_ip (last_online_of user.id c.last_report_online)

  -- The user goes in front, if there is one to keep.
  unfoldable pub keep_user :
      ApiClient F P → UserResponse F → Option ℤ → List UserInfo → List UserInfo
  unfolding to_user_info
  keep_user c user none rest = rest
  keep_user c user (some devices) rest = to_user_info c user devices ∷ rest

  unfoldable pub parse_users : ApiClient F P → List (UserResponse F) → List UserInfo
  unfolding devices_left keep_user
  parse_users c [] = []
  parse_users c (user ∷ users) = keep_user c user (devices_of c user) (parse_users c users)

  -- The last report is forgotten afterwards.
  unfoldable pub parse_user_list_response :
      ApiClient F P → List (UserResponse F) → ApiClient F P × List UserInfo
  unfolding parse_users
  parse_user_list_response c users = (record c { last_report_online = [] }, parse_users c users)

  module _ {W : Type 0} (decode : DecodeOps F W) (panel : Request → Answer (Response W)) where
    unfoldable pub get_user_list : ApiClient F P → ApiClient F P × (List UserInfo ⊎ ApiError)
    unfolding parse_response parse_user_list_response
    get_user_list c = elim (parse_response (panel (user_list_request c))) [
      | inr e ↦ (c, inr e)
      | inl response ↦ elim (decode.to_users response.data_json) [
        | none ↦ (c, inr decode_failed)
        | some users ↦ let (c', list) = parse_user_list_response c users in (c', inl list)
      ]
    ]

    unfoldable pub get_node_rule : (Str → Option P) → ApiClient F P → List (DetectRule P) ⊎ ApiError
    unfolding parse_response append_rules
    get_node_rule compile c =
        let request : Request = record {
          path = bytes "/mod_mu/func/detect_rules";
          node_id = none;
          body = no_body;
        } in
        elim (parse_response (panel request)) [
          | inr e ↦ inr e
          | inl response ↦ elim (decode.to_rules response.data_json) [
            | none ↦ inr decode_failed
            | some rules ↦ append_rules compile c.local_rule_list rules
          ]
        ]

abbrev pub one_more_online : Option ℤ → ℤ
one_more_online (some n) = add_int n (pos 1)
one_more_online none = pos 1

-- How often each user is reported online.
unfoldable pub count_online : List OnlineUser → Dict ℤ ℤ → Dict ℤ ℤ
count_online [] m = m
count_online (user ∷ users) m =
    let count = one_more_online (load ℤ_discrete user.uid m) in
    count_online users (store ℤ_discrete user.uid count m)

-- A report, of whose answer only the error matters.
unfoldable pub post : {W : Type 0} → (Request → Answer (Response W)) → Request → Option ApiError
unfolding parse_response
post panel request = elim (parse_response (panel request)) [ inl response ↦ none | inr e ↦ some e ]

module _ {F P W : Type 0} (panel : Request → Answer (Response W)) where
  -- `load_text` prints the three shares of the load with two digits.
  unfoldable pub report_node_status :
      {N : Type 0} → (N → Str) → ℕ → N → ApiClient F P → Option ApiError
  unfolding post
  report_node_status load_text uptime status c = post panel (record {
    path = bytes "/mod_mu/nodes/" ++ (itoa c.node_id ++ bytes "/info");
    node_id = none;
    body = system_load (itoa (pos uptime)) (load_text status);
  })

  -- The counts are kept whether or not the panel takes the report.
  unfoldable pub report_node_online_users :
      List OnlineUser → ApiClient F P → ApiClient F P × Option ApiError
  unfolding count_online post
  report_node_online_users users c =
      let answer = post panel (record {
        path = bytes "/mod_mu/users/aliveip";
        node_id = some c.node_id;
        body = online_users (map (λ u. (u.uid, u.ip)) users);
      }) in
      (record c { last_report_online = count_online users [] }, answer)

  unfoldable pub report_user_traffic : List UserTraffic → ApiClient F P → Option ApiError
  unfolding post
  report_user_traffic traffic c = post panel (record {
    path = bytes "/mod_mu/users/traffic";
    node_id = some c.node_id;
    body = user_traffic (map (λ t. (t.uid, t.upload, t.download)) traffic);
  })

  unfoldable pub report_illegal : List DetectResult → ApiClient F P → Option ApiError
  unfolding post
  report_illegal results c = post panel (record {
    path = bytes "/mod_mu/users/detectlog";
    node_id = some c.node_id;
    body = illegal_items (map (λ r. (r.rule_id, r.uid)) results);
  })

-- ===== src/Clients/V2board.antt =====
-- api/v2board/v2board.go: the client of V2Board, which polls with the ETag of the last user list.
pub mod Nodes
pub mod Polling
pub mod Rounds
use oldxr.Base.{
  ℕ, zero, suc, ◌%◌, ◌^◌, ◌⊎◌, inl, inr, Bool, true, false, ◌&&◌, not, Option, none, some, List, [],
  ◌∷◌, ◌++◌, length, map, ◌==◌, if◌then◌else◌,
}
use oldxr.Base.Int.{ℤ}
use oldxr.Base.Text.{Str, bytes, text_eq, is_empty}
use oldxr.Api.{Config, UserInfo, NodeInfo, DetectRule, UserTraffic, zero_user_info, zero_node_info}
use oldxr.Clients.{
  Request, Reply, transport_error, response, status_code, etag_header, ApiError, request_failed,
  unsupported_node_type, users_no_change, not_modified_without_list, no_node_users, JsonOps,
  SpeedOps, parse_response, read_local_rule_list,
}

-- A fetched list and whether it is the cached one.
pub record UserListFetch : Type 0 where
  pub users : List UserInfo
  pub unchanged : Bool

pub record ApiClient (J F P : Type 0) : Type 0 where
  pub api_host : Str
  pub node_id : ℤ
  pub key : Str
  pub node_type : Str
  pub enable_vless : Bool
  pub enable_xtls : Bool
  pub speed_limit : F
  pub device_limit : ℤ
  pub local_rule_list : List (DetectRule P)
  pub config_resp : Option J
  pub user_etag : Str
  pub last_user_list : Option (List UserInfo)
  pub ss_pending : Option UserListFetch
  pub last_ss_node_info : Option NodeInfo

-- `New`, with the lines of the rule file.
unfoldable pub new :
    {J F P : Type 0} → (Str → Option P) → Option (List Str) → Config F → ApiClient J F P
new compile lines config = record {
  api_host = config.api_host;
  node_id = config.node_id;
  key = config.key;
  node_type = config.node_type;
  enable_vless = config.enable_vless;
  enable_xtls = config.enable_xtls;
  speed_limit = config.speed_limit;
  device_limit = config.device_limit;
  local_rule_list = read_local_rule_list compile lines;
  config_resp = none;
  user_etag = [];
  last_user_list = none;
  ss_pending = none;
  last_ss_node_info = none;
}

abbrev pub v2ray : Str
v2ray = bytes "V2ray"

abbrev pub trojan : Str
trojan = bytes "Trojan"

abbrev pub shadowsocks : Str
shadowsocks = bytes "Shadowsocks"

-- The path of the user list.
unfoldable pub user_path : Str → Option Str
user_path node_type =
    if text_eq node_type v2ray
    then some (bytes "/api/v1/server/Deepbwork/user")
    else if text_eq node_type trojan
    then some (bytes "/api/v1/server/TrojanTidalab/user")
    else if text_eq node_type shadowsocks
    then some (bytes "/api/v1/server/ShadowsocksTidalab/user")
    else none

abbrev pub publish : UserListFetch → List UserInfo ⊎ ApiError
publish f = if f.unchanged then inr users_no_change else inl f.users

module _ {J F P : Type 0} (json : JsonOps J) (speed : SpeedOps F) where
  -- The body of the loop over the users; `item` is the element of the array.
  unfoldable pub decode_user : ApiClient J F P → J → UserInfo
  decode_user c item =
      let user = record zero_user_info {
        uid = json.must_int (json.get (bytes "id") item);
        speed_limit = speed.bps c.speed_limit;
        device_limit = c.device_limit;
      } in
      let field = λ (name : Str) (j : J). json.must_string (json.get name j) in
      if text_eq c.node_type shadowsocks
      then (record user {
        email = field (bytes "secret") item;
        passwd = field (bytes "secret") item;
        method = field (bytes "cipher") item;
        port = json.must_uint64 (json.get (bytes "port") item) % 2 ^ 32;
      })
      else if text_eq c.node_type trojan
      then (record user {
        uuid = field (bytes "password") (json.get (bytes "trojan_user") item);
        email = field (bytes "password") (json.get (bytes "trojan_user") item);
      })
      else if text_eq c.node_type v2ray
      then (record user {
        uuid = field (bytes "uuid") (json.get (bytes "v2ray_user") item);
        email = field (bytes "email") (json.get (bytes "v2ray_user") item);
        alter_id =
            json.must_uint64 (json.get (bytes "alter_id") (json.get (bytes "v2ray_user") item))
            % 2 ^ 16;
      })
      else user

  -- The loop, from an index on.
  unfoldable pub decode_users : ApiClient J F P → J → ℕ → ℕ → List UserInfo
  unfolding decode_user
  decode_users c items i zero = []
  decode_users c items i (suc n) =
      decode_user c (json.get_index i items) ∷ decode_users c items (suc i) n

  unfoldable pub decode_user_list : ApiClient J F P → J → List UserInfo
  unfolding decode_users
  decode_user_list c j =
      let items = json.get (bytes "data") j in
      decode_users c items 0 (length (json.must_array items))

  -- The request of a poll: conditional on the last ETag, if there is one.
  unfoldable pub user_request : Str → ApiClient J F P → Request
  user_request path c = record {
    path = path;
    if_none_match = if is_empty c.user_etag then none else some c.user_etag;
  }

  -- What a poll makes of its answer.
  unfoldable pub take_reply : ApiClient J F P → Reply → ApiClient J F P × (UserListFetch ⊎ ApiError)
  take_reply c transport_error = (c, inr request_failed)
  take_reply c (response status etag body) =
      if status == 304
      then (
        c,
        elim (c.last_user_list) [
          | none ↦ inr not_modified_without_list
          | some users ↦ inl (record { users = users; unchanged = true })
        ],
      )
      else (elim (parse_response json (response status etag body)) [
        | inr e ↦ (c, inr e)
        | inl j ↦
            let users = decode_user_list c j in
            (
              record c { user_etag = etag; last_user_list = some users },
              inl (record { users = users; unchanged = false }),
            )
      ])

  -- `panel` answers the requests.
  unfoldable pub fetch_user_list_locked :
      (Request → Reply) → ApiClient J F P → ApiClient J F P × (UserListFetch ⊎ ApiError)
  fetch_user_list_locked panel c = elim (user_path c.node_type) [
    | none ↦ (c, inr (unsupported_node_type c.node_type))
    | some path ↦ take_reply c (panel (user_request path c))
  ]

  unfoldable pub get_user_list :
      (Request → Reply) → ApiClient J F P → ApiClient J F P × (List UserInfo ⊎ ApiError)
  get_user_list panel c =
      let fetched : ApiClient J F P × (List UserInfo ⊎ ApiError) =
        let (c', answer) = fetch_user_list_locked panel c in
        (c', elim answer [ inr e ↦ inr e | inl f ↦ publish f ]) in
      elim (c.ss_pending) [
        | none ↦ fetched
        | some pending ↦
            if text_eq c.node_type shadowsocks
            then (record c { ss_pending = none }, publish pending)
            else fetched
      ]

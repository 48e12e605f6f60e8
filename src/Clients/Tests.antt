-- ===== src/Clients/Tests.antt =====
-- Panels whose body is the identity of their only user.
use oldxr.Base.{
  ℕ, ◌≡◌, ◌≢◌, ◌⊎◌, inl, inr, refl, true, false, Option, none, some, List, [], ◌∷◌, arith,
  ℕ_discrete, ap, ◌∙◌, if◌then◌else◌,
}
use oldxr.Base.Int.{pos, ℤ_discrete}
use oldxr.Base.Text.{Str, Str-discrete, bytes, is_empty}
use oldxr.Api.{Config, UserInfo, NodeInfo, UserTraffic, zero_user_info}
use oldxr.Clients.{
  Request, Reply, response, request_failed, users_no_change, JsonOps, SpeedOps, parse_response,
}
use oldxr.Clients.V2board
use oldxr.Clients.V2board.{
  UserListFetch, user_path, decode_users, decode_user_list, fetch_user_list_locked, publish,
}
use oldxr.Clients.V2board.Polling
use oldxr.Clients.V2board.Polling.{
  Serves, IsFresh, Polled, fetch_user_list_locked-Polled, fetch_user_list_locked_failed,
}
use oldxr.Clients.V2board.Nodes
use oldxr.Clients.V2board.Nodes.{
  fetch_ss_node_response, build_ss_node_response, build_or_reuse_ss_node_response,
}
use oldxr.Clients.V2board.Rounds.{MadeFrom, TakesPending, round_agrees}
use oldxr.Clients.NewV2board
use oldxr.Clients.NewV2board.{DecodeOps, to_user_list, push_data}
use oldxr.Clients.NewV2board.Delivery
use oldxr.Clients.NewV2board.Delivery.{
  IsDelivered, get_user_list-IsDelivered, broken_answer_loses_list,
}
use oldxr.Traffic.Entries.{position, IsOncePerUser}

abbrev text_json : JsonOps Str
text_json = record {
  new_json = λ s. if is_empty s then none else some s;
  marshal = λ j. some j;
  marshal_map = λ j. some j;
  get = λ k j. j;
  check_get = λ k j. some j;
  get_index = λ i j. j;
  must_array = λ j. j ∷ [];
  must_string = λ j. j;
  must_string_array = λ j. j ∷ [];
  must_int = λ j. pos 7;
  must_uint64 = λ j. 80;
}

abbrev whole_speed : SpeedOps ℕ
whole_speed = record { is_positive = λ n. true; bps = λ n. n }

abbrev config : Str → Config ℕ
config node_type = record {
  api_host = [];
  node_id = pos 1;
  key = [];
  node_type = node_type;
  enable_vless = false;
  enable_xtls = false;
  timeout = pos 0;
  speed_limit = 5;
  device_limit = pos 0;
  rule_list_path = [];
  disable_custom_config = false;
}

abbrev never : Str → Option Str
never s = none

abbrev trojan_client : V2board.ApiClient Str ℕ Str
trojan_client = V2board.new never none (config (bytes "Trojan"))

abbrev tag : Str
tag = bytes "v1"

abbrev body : Str
body = bytes "u"

-- A panel that always answers in full.
abbrev full_panel : Request → Reply
full_panel request = response 200 tag body

abbrev trojan_user : UserInfo
trojan_user = record zero_user_info { uid = pos 7; speed_limit = 5; uuid = body; email = body }

served : Serves tag body full_panel
served request = inl refl

trojan_path : user_path (bytes "Trojan") ≡ some (bytes "/api/v1/server/TrojanTidalab/user")
unfolding user_path Str-discrete ℕ_discrete
trojan_path = refl

trojan_download :
    Polling.download text_json whole_speed trojan_client body ≡ some (trojan_user ∷ [])
unfolding decode_user_list V2board.new Str-discrete ℕ_discrete
trojan_download = refl

no_etag : trojan_client.user_etag ≡ []
unfolding V2board.new
no_etag = refl

trojan_kind : trojan_client.node_type ≡ bytes "Trojan"
unfolding V2board.new
trojan_kind = refl

fetch_user_list_locked-Polled_example :
    Polled text_json whole_speed trojan_client
      (trojan_user ∷ [])
      (fetch_user_list_locked text_json whole_speed full_panel trojan_client)
    × IsFresh text_json whole_speed
        (λ t. body)
        (fetch_user_list_locked text_json whole_speed full_panel trojan_client).0
fetch_user_list_locked-Polled_example =
    fetch_user_list_locked-Polled text_json whole_speed (λ t. body) trojan_client full_panel
      (bytes "/api/v1/server/TrojanTidalab/user") tag body (trojan_user ∷ [])
      (ap user_path trojan_kind ∙ trojan_path) served (inr refl) trojan_download (inl no_etag)

abbrev failing_panel : Request → Reply
failing_panel request = response 500 tag body

poll_fails :
    (fetch_user_list_locked text_json whole_speed failing_panel trojan_client).1
    ≡ inr request_failed
unfolding fetch_user_list_locked V2board.take_reply parse_response V2board.new user_path
    Str-discrete ℕ_discrete
poll_fails = refl

abbrev ss_client : V2board.ApiClient Str ℕ Str
ss_client = V2board.new never none (config (bytes "Shadowsocks"))

abbrev ss_node : NodeInfo
ss_node = record {
  node_type = bytes "Shadowsocks";
  node_id = pos 1;
  port = 80;
  speed_limit = 0;
  alter_id = 0;
  transport_protocol = bytes "tcp";
  fake_type = [];
  host = [];
  path = [];
  enable_tls = false;
  tls_type = [];
  enable_vless = false;
  cypher_method = body;
  server_key = [];
  service_name = [];
  header = none;
  name_server_config = [];
}

ss_kind : ss_client.node_type ≡ V2board.shadowsocks
unfolding V2board.new
ss_kind = refl

ss_fetched : (Nodes.get_node_info text_json whole_speed full_panel ss_client).1 ≡ inl ss_node
unfolding Nodes.get_node_info fetch_ss_node_response build_or_reuse_ss_node_response
    fetch_user_list_locked V2board.take_reply decode_user_list parse_response V2board.new user_path
    Str-discrete ℕ_discrete
ss_fetched = refl

round_agrees_example :
    let c' = (Nodes.get_node_info text_json whole_speed full_panel ss_client).0 in
    (f : UserListFetch) × ((fetch_user_list_locked text_json whole_speed full_panel ss_client).1
      ≡ inl f)
    × MadeFrom text_json whole_speed ss_client f.users ss_node
    × TakesPending f c' (V2board.get_user_list text_json whole_speed failing_panel c')
round_agrees_example =
    round_agrees text_json whole_speed full_panel failing_panel ss_client ss_node ss_kind ss_fetched

abbrev one_user : DecodeOps Str
one_user = record {
  to_config = λ j. record {
    cipher = [];
    obfs = [];
    obfs_path = [];
    obfs_host = [];
    server_key = [];
    network = [];
    path = [];
    headers = none;
    service_name = [];
    header = none;
    tls = pos 0;
    host = [];
    server_name = [];
    server_port = pos 80;
    routes = [];
  };
  to_users = λ j. record { id = pos 7; uuid = j; speed_limit = pos 1 } ∷ [];
}

abbrev uni_client : NewV2board.ApiClient ℕ Str
uni_client = NewV2board.new never none (config (bytes "Trojan"))

abbrev uni_user : UserInfo
uni_user = record zero_user_info {
  uid = pos 7;
  speed_limit = 5;
  uuid = body;
  email = bytes "u@v2board.user";
}

uni_supported : NewV2board.is_supported uni_client.node_type ≡ true
unfolding NewV2board.new Str-discrete ℕ_discrete
uni_supported = refl

uni_no_etag : uni_client.etag ≡ []
unfolding NewV2board.new
uni_no_etag = refl

tag_given : tag ≢ []
tag_given e = cc

uni_download :
    Delivery.download text_json one_user whole_speed uni_client body ≡ some (uni_user ∷ [])
unfolding NewV2board.users_of to_user_list NewV2board.new Str-discrete ℕ_discrete
uni_download = refl

get_user_list-IsDelivered_example :
    let (c', answer) =
      NewV2board.get_user_list text_json one_user whole_speed full_panel uni_client in
    ((answer ≡ inl (uni_user ∷ []))
      × IsDelivered text_json one_user whole_speed (λ t. body) c' (uni_user ∷ []))
    ⊎ ((answer ≡ inr users_no_change) × ([] ≡ uni_user ∷ []) × (c' ≡ uni_client))
get_user_list-IsDelivered_example =
    get_user_list-IsDelivered text_json one_user whole_speed (λ t. body) uni_client [] full_panel
      tag (uni_user ∷ []) uni_supported served tag_given uni_download (inl uni_no_etag)

not_304 : ◌≢◌ {A = ℕ} 500 304
not_304 e = ground arith

bad_status : parse_response text_json (response 500 tag body) ≡ inr request_failed
unfolding parse_response
bad_status = refl

abbrev unmodified_panel : Request → Reply
unmodified_panel request = response 304 [] []

broken_answer_loses_list_example :
    let (c', first) =
      NewV2board.get_user_list text_json one_user whole_speed failing_panel uni_client in
    (first ≡ inr request_failed)
    × ((NewV2board.get_user_list text_json one_user whole_speed unmodified_panel c').1
        ≡ inr users_no_change)
broken_answer_loses_list_example =
    broken_answer_loses_list text_json one_user whole_speed uni_client failing_panel
      unmodified_panel 500 tag body [] [] request_failed uni_supported tag_given refl not_304
      bad_status refl

abbrev report : List UserTraffic
report =
    record { uid = pos 7; email = []; upload = 5; download = 0 }
    ∷ record { uid = pos 8; email = []; upload = 0; download = 3 }
    ∷ []

report-IsOncePerUser : IsOncePerUser report
unfolding IsOncePerUser position ℤ_discrete ℕ_discrete
report-IsOncePerUser = (refl, (refl, tt))

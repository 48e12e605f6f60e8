-- ===== src/Clients/Sspanel/Tests.antt =====
-- A panel with two users, and a server of V2Ray.
use oldxr.Base.{
  Elem, ℕ, ◌+◌, ◌<◌, ◌≡◌, ◌⊎◌, refl, true, false, none, some, List, [], ◌∷◌, arith, ℕ_discrete, inl,
}
use oldxr.Base.Int.{pos, ℤ_discrete}
use oldxr.Base.Text.{Str, Str-discrete, bytes}
use oldxr.Base.Text.Split.{lacks-Without}
use oldxr.Api.{UserInfo, OnlineUser}
use oldxr.Clients.{Answer, answered, SpeedOps, parse_answer}
use oldxr.Clients.Sspanel.{
  UserResponse, NodeInfoResponse, Response, Request, DecodeOps, CustomConfig, ApiClient,
  parse_response,
}
use oldxr.Clients.Sspanel.Counting.{entries_of}
use oldxr.Clients.Sspanel.Devices.{AnswersWith, IsEntryOf, poll_after, reported_devices_kept}
use oldxr.Clients.Sspanel.Nodes.{parse_v2ray_node_response}
use oldxr.Clients.Sspanel.Strings.{
  Server, IsPlain, print_server, node_of, parse_v2ray_node_response-print_server,
}

abbrev in_mbps : SpeedOps ℕ
in_mbps = record { is_positive = λ x. false; bps = λ x. x }

abbrev no_custom : CustomConfig
no_custom = record {
  offset_port_node = [];
  host = [];
  mu_encryption = [];
  enable_vless = [];
  alter_id = [];
  network = [];
  security = [];
  path = [];
  header = none;
  grpc = [];
  servicename = [];
  enable_xtls = [];
}

-- A user with three devices allowed and some online.
abbrev user_with : ℕ → ℕ → UserResponse ℕ
user_with id alive = record {
  id = pos id;
  email = [];
  passwd = [];
  port = 0;
  method = [];
  speed_limit = 0;
  device_limit = pos 3;
  protocol = [];
  protocol_param = [];
  obfs = [];
  obfs_param = [];
  uuid = [];
  multi_user = pos 0;
  alive_ip = pos alive;
}

abbrev panel_list : List (UserResponse ℕ)
panel_list = user_with 7 4 ∷ user_with 8 3 ∷ []

abbrev decode : DecodeOps ℕ (Unit {0})
decode = record {
  to_node = λ w. none;
  to_users = λ w. some panel_list;
  to_rules = λ w. none;
  to_custom = λ w. no_custom;
  custom_text = λ w. none;
}

abbrev response : Response (Unit {0})
response = record { ret = 1; data_json = tt }

abbrev panel : Request → Answer (Response (Unit {0}))
panel request = answered 200 response

abbrev client : ApiClient ℕ Str
client = record {
  api_host = [];
  node_id = pos 1;
  key = [];
  node_type = bytes "V2ray";
  enable_vless = false;
  enable_xtls = false;
  speed_limit = 0;
  device_limit = pos 0;
  disable_custom_config = false;
  local_rule_list = [];
  last_report_online = [];
}

-- User 7 is online from two addresses here.
abbrev online : List OnlineUser
online =
    record { uid = pos 7; ip = bytes "10.0.0.1" }
    ∷ record { uid = pos 7; ip = bytes "10.0.0.2" }
    ∷ []

panel-AnswersWith : AnswersWith in_mbps decode panel client response panel_list
unfolding parse_response parse_answer
panel-AnswersWith = (refl, refl)

two_here : entries_of (pos 7) online ≡ 2
unfolding entries_of ℤ_discrete ℕ_discrete
two_here = refl

reported_devices_kept_example :
    (d : ℕ) × ((users : List UserInfo) × (poll_after in_mbps decode panel online client ≡ inl users)
      × ((w : UserInfo) × Elem w users × IsEntryOf (user_with 7 4) d w)
      × (0 < d)
      × ((d ≡ entries_of (pos 7) online) ⊎ (d + 4 ≡ 3 + entries_of (pos 7) online)))
reported_devices_kept_example =
    reported_devices_kept in_mbps decode panel client online response panel_list (user_with 7 4) 3 4
      panel-AnswersWith (inl refl) refl refl (omega arith) (omega arith) (omega arith) (omega arith)
      (omega arith) (inl (omega (arith, two_here)))

abbrev server : Server
server = record {
  address = bytes "a.example";
  port = 443;
  alter_id = 0;
  network = bytes "ws";
  has_tls = true;
  path = bytes "/?ed=2048";
  host = bytes "b.example";
}

server-IsPlain : IsPlain server
unfolding Str-discrete ℕ_discrete
server-IsPlain = record {
  port = omega arith;
  alter_id = omega arith;
  address = lacks-Without 59 (bytes "a.example") refl;
  network = lacks-Without 59 (bytes "ws") refl;
  path = lacks-Without 59 (bytes "/?ed=2048") refl;
  no_bar = lacks-Without 124 (bytes "/?ed=2048") refl;
  host = lacks-Without 59 (bytes "b.example") refl;
  host_no_bar = lacks-Without 124 (bytes "b.example") refl;
  host_no_equals = lacks-Without 61 (bytes "b.example") refl;
  some_network = λ e. cc;
  other_network = refl;
}

abbrev node_response : NodeInfoResponse ℕ (Unit {0})
node_response = record {
  speed_limit = 0;
  raw_server_string = print_server server;
  custom_config = tt;
  version = [];
}

parse_v2ray_node_response-print_server_example :
    parse_v2ray_node_response in_mbps (λ t. t) client node_response
    ≡ inl (node_of in_mbps client node_response server)
parse_v2ray_node_response-print_server_example =
    parse_v2ray_node_response-print_server in_mbps (λ t. t) client node_response server
      server-IsPlain refl

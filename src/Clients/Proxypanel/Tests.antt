-- ===== src/Clients/Proxypanel/Tests.antt =====
-- A client with a device limit of 3, whose node then answers with 5.
use oldxr.Base.{ℕ, ◌≡◌, false, none, some, [], ◌∷◌, arith}
use oldxr.Base.Int.{pos}
use oldxr.Base.Text.{Str, bytes}
use oldxr.Clients.{Answer, answered, SpeedOps}
use oldxr.Clients.Proxypanel.{Response, Request, DecodeOps, ApiClient, TrojanNodeInfo}
use oldxr.Clients.Proxypanel.Limits.{polls, device_limit_stays}

abbrev in_mbps : SpeedOps ℕ
in_mbps = record { is_positive = λ x. false; bps = λ x. x }

abbrev five : TrojanNodeInfo
five = record { speed_limit = 0; client_limit = pos 5; trojan_port = 443 }

abbrev decode : DecodeOps (Unit {0})
decode = record {
  to_v2ray = λ w. none;
  to_shadowsocks = λ w. none;
  to_trojan = λ w. some five;
  to_vmess_users = λ w. none;
  to_trojan_users = λ w. none;
  to_ss_users = λ w. none;
  to_node_rule = λ w. none;
}

abbrev panel : Request → Answer (Response (Unit {0}))
panel request = answered 200 (record { status = bytes "success"; data_json = tt })

abbrev client : ApiClient ℕ Str
client = record {
  api_host = [];
  node_id = pos 1;
  key = [];
  node_type = bytes "Trojan";
  enable_vless = false;
  enable_xtls = false;
  speed_limit = 0;
  device_limit = pos 3;
  local_rule_list = [];
}

device_limit_stays_example :
    (polls in_mbps decode (panel ∷ panel ∷ []) client).device_limit ≡ client.device_limit
device_limit_stays_example =
    device_limit_stays in_mbps decode (panel ∷ panel ∷ []) client (λ e. absurd (ground arith))

-- ===== src/Clients/Proxypanel/Users.antt =====
-- api/proxypanel/proxypanel.go: the users, the rules and the reports.
use oldxr.Base.{ℕ, ◌⊎◌, inl, inr, Option, none, some, List, [], ◌∷◌, map, if◌then◌else◌}
use oldxr.Base.Int.{ℤ, int_of_u64}
use oldxr.Base.Text.{Str, bytes, text_eq}
use oldxr.Api.{UserInfo, OnlineUser, UserTraffic, DetectRule, DetectResult, zero_user_info}
use oldxr.Clients.{
  Answer, ApiError, unsupported_node_type, decode_failed, panicked, parse_failed, SpeedOps,
  append_rules,
}
use oldxr.Clients.Proxypanel.{
  Response, PanelUser, NodeRuleItem, NodeRule, Request, node_status, node_online, user_traffic,
  illegal_report, DecodeOps, ApiClient, fetch, post, speed_of,
}

-- The rules that are regular expressions.
unfoldable pub reg_rules : List NodeRuleItem → List (ℤ × Str)
reg_rules [] = []
reg_rules (r ∷ rs) =
    let rest = reg_rules rs in
    if text_eq r.rule_type (bytes "reg") then (r.id, r.pattern) ∷ rest else rest

module _ {F P : Type 0} (speed : SpeedOps F) where
  abbrev pub user_base : ApiClient F P → PanelUser → UserInfo
  user_base c user = record zero_user_info {
    uid = user.uid;
    device_limit = c.device_limit;
    speed_limit = speed_of speed c user.speed_limit;
  }

  unfoldable pub uuid_user : ApiClient F P → PanelUser → UserInfo
  uuid_user c user = record (user_base c user) { uuid = user.secret }

  unfoldable pub passwd_user : ApiClient F P → PanelUser → UserInfo
  passwd_user c user = record (user_base c user) { passwd = user.secret }

-- The loop over the users; `none` is a panic.
unfoldable pub each_user : (PanelUser → UserInfo) → List (Option PanelUser) → Option (List UserInfo)
each_user to_user [] = some []
each_user to_user (none ∷ users) = none
each_user to_user (some user ∷ users) = elim (each_user to_user users) [
  | none ↦ none
  | some rest ↦ some (to_user user ∷ rest)
]

unfoldable pub user_list_of :
    (PanelUser → UserInfo) → Option (List (Option PanelUser)) → List UserInfo ⊎ ApiError
unfolding each_user
user_list_of to_user none = inr (parse_failed decode_failed)
user_list_of to_user (some users) = elim (each_user to_user users) [
  | none ↦ inr panicked
  | some list ↦ inl list
]

module _ {F P W : Type 0} (speed : SpeedOps F) (decode : DecodeOps W)
    (panel : Request → Answer (Response W)) where
  unfoldable pub parse_user_list : ApiClient F P → W → List UserInfo ⊎ ApiError
  unfolding user_list_of uuid_user passwd_user
  parse_user_list c w =
      if text_eq c.node_type (bytes "V2ray")
      then user_list_of (uuid_user speed c) (decode.to_vmess_users w)
      else if text_eq c.node_type (bytes "Trojan")
      then user_list_of (uuid_user speed c) (decode.to_trojan_users w)
      else if text_eq c.node_type (bytes "Shadowsocks")
      then user_list_of (passwd_user speed c) (decode.to_ss_users w)
      else inr (unsupported_node_type c.node_type)

  unfoldable pub get_user_list : ApiClient F P → List UserInfo ⊎ ApiError
  unfolding fetch parse_user_list
  get_user_list c = fetch panel (bytes "userList") c (parse_user_list c)

module _ {F P W : Type 0} (decode : DecodeOps W) (panel : Request → Answer (Response W)) where
  -- Only the mode `reject` has rules.
  unfoldable pub parse_rules :
      (Str → Option P) → ApiClient F P → Option NodeRule → List (DetectRule P) ⊎ ApiError
  unfolding reg_rules append_rules
  parse_rules compile c none = inr decode_failed
  parse_rules compile c (some rule) =
      if text_eq rule.mode (bytes "reject")
      then append_rules compile c.local_rule_list (reg_rules rule.rules)
      else inl c.local_rule_list

  unfoldable pub get_node_rule : (Str → Option P) → ApiClient F P → List (DetectRule P) ⊎ ApiError
  unfolding fetch parse_rules
  get_node_rule compile c =
      fetch panel (bytes "nodeRule") c (λ w. parse_rules compile c (decode.to_node_rule w))

module _ {F P W : Type 0} (panel : Request → Answer (Response W)) where
  -- `percent` prints the integer part of a share with a percent sign.
  unfoldable pub report_node_status :
      {N : Type 0} → (N → Str) → ℕ → N × (N × N) → ApiClient F P → Option ApiError
  unfolding post
  report_node_status percent uptime (cpu, (mem, disk)) c =
      post panel (bytes "nodeStatus") c
        (node_status (percent cpu) (percent mem) (percent disk) (int_of_u64 uptime) ∷ [])

  unfoldable pub report_node_online_users : List OnlineUser → ApiClient F P → Option ApiError
  unfolding post
  report_node_online_users users c =
      post panel (bytes "nodeOnline") c (node_online (map (λ u. (u.uid, u.ip)) users) ∷ [])

  unfoldable pub report_user_traffic : List UserTraffic → ApiClient F P → Option ApiError
  unfolding post
  report_user_traffic traffic c =
      post panel (bytes "userTraffic") c
        (user_traffic (map (λ t. (t.uid, t.upload, t.download)) traffic) ∷ [])

  -- One request for each result, up to the first error.
  unfoldable pub report_illegal : List DetectResult → ApiClient F P → Option ApiError
  unfolding post
  report_illegal results c =
      post panel (bytes "trigger") c
        (map (λ r. illegal_report r.uid r.rule_id (bytes "XrayR cannot save reason")) results)

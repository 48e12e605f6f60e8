-- ===== src/Api.antt =====
-- api/apimodel.go: the values that a panel client and the controller exchange.
-- Strings are bytes, Go's int is ℤ, the unsigned fields are numbers below their width.
use oldxr.Base.{ℕ, Bool, false, Option, none, some, List, [], ℕ_discrete}
use oldxr.Base.Int.{ℤ, pos}
use oldxr.Base.Text.{Str}

pub record UserInfo : Type 0 where
  pub uid : ℤ
  pub email : Str
  pub passwd : Str
  pub port : ℕ  -- uint32
  pub method : Str
  pub speed_limit : ℕ  -- uint64, Bps
  pub device_limit : ℤ
  pub protocol : Str
  pub protocol_param : Str
  pub obfs : Str
  pub obfs_param : Str
  pub uuid : Str
  pub alter_id : ℕ  -- uint16

unfoldable pub UserInfo-discrete : Discrete UserInfo
UserInfo-discrete = hlevel ℕ_discrete

-- `Config`; the configured speed limit is a float64, a value of `F`.
pub record Config (F : Type 0) : Type 0 where
  pub api_host : Str
  pub node_id : ℤ
  pub key : Str
  pub node_type : Str
  pub enable_vless : Bool
  pub enable_xtls : Bool
  pub timeout : ℤ
  pub speed_limit : F
  pub device_limit : ℤ
  pub rule_list_path : Str
  pub disable_custom_config : Bool

-- `conf.NameServerConfig`, as far as the panels fill it in.
pub record NameServerConfig : Type 0 where
  pub address : Str
  pub domains : List Str

-- A nil `Header` is `none`.
pub record NodeInfo : Type 0 where
  pub node_type : Str
  pub node_id : ℤ
  pub port : ℕ  -- uint32
  pub speed_limit : ℕ  -- uint64, Bps
  pub alter_id : ℕ  -- uint16
  pub transport_protocol : Str
  pub fake_type : Str
  pub host : Str
  pub path : Str
  pub enable_tls : Bool
  pub tls_type : Str
  pub enable_vless : Bool
  pub cypher_method : Str
  pub server_key : Str
  pub service_name : Str
  pub header : Option Str
  pub name_server_config : List NameServerConfig

-- The fields that a composite literal leaves out are zero.
abbrev pub zero_node_info : NodeInfo
zero_node_info = record {
  node_type = [];
  node_id = pos 0;
  port = 0;
  speed_limit = 0;
  alter_id = 0;
  transport_protocol = [];
  fake_type = [];
  host = [];
  path = [];
  enable_tls = false;
  tls_type = [];
  enable_vless = false;
  cypher_method = [];
  server_key = [];
  service_name = [];
  header = none;
  name_server_config = [];
}

abbrev pub zero_user_info : UserInfo
zero_user_info = record {
  uid = pos 0;
  email = [];
  passwd = [];
  port = 0;
  method = [];
  speed_limit = 0;
  device_limit = pos 0;
  protocol = [];
  protocol_param = [];
  obfs = [];
  obfs_param = [];
  uuid = [];
  alter_id = 0;
}

pub record OnlineUser : Type 0 where
  pub uid : ℤ
  pub ip : Str

-- `Upload` and `Download` are int64, as bit patterns.
pub record UserTraffic : Type 0 where
  pub uid : ℤ
  pub email : Str
  pub upload : ℕ
  pub download : ℕ

-- `P` is the type of compiled patterns; a nil pattern is `none`.
pub record DetectRule (P : Type 0) : Type 0 where
  pub id : ℤ
  pub pattern : Option P

-- Compiling is regexp's; an invalid pattern is an error, and the rule keeps its number.
unfoldable pub compile_detect_rule :
    {P : Type 0} → (Str → Option P) → ℤ → Str → Option (DetectRule P)
compile_detect_rule compile id pattern = elim (compile pattern) [
  | none ↦ none
  | some compiled ↦ some (record { id = id; pattern = some compiled })
]

pub record DetectResult : Type 0 where
  pub uid : ℤ
  pub rule_id : ℤ

pub DetectResult-discrete : Discrete DetectResult
DetectResult-discrete = hlevel ℕ_discrete

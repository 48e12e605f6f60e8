-- ===== src/Controller.antt =====
-- service/controller/: the controller of one node, which keeps the xray-core server, the limiter,
-- the rules and the flow registry in step with the panel's node and users.
--
-- xray-core's managers are an argument: `X` is the server's state, `C` a handler's configuration,
-- `O` an object that the server makes of one, `H` a handler, `I` an inbound, `M` a user manager
-- and `V` a user in its memory. The monitors run one at a time here; `stateMu` is not modelled.
pub mod Builders
pub mod Server
pub mod Building
pub mod Retirement
pub mod Handlers
pub mod Monitor
pub mod Keys
pub mod Serving
pub mod Selections
pub mod Updates
pub mod Limits
pub mod Steps
pub mod Changing
pub mod Rounds
pub mod Switching
pub mod Agreement
pub mod Start
pub mod Delivery
pub mod Failures
pub mod Finalizing
pub mod SpeedLimits
pub mod Reporting
mod Tests
mod FailureTests
use oldxr.Base.{ℕ, Bool, Option, none, some, List, ◌⊎◌, ℕ_discrete}
use oldxr.Base.Int.{ℤ}
use oldxr.Base.Dict.{Dict}
use oldxr.Base.Text.{Str}
use oldxr.Api.{UserInfo, NodeInfo, DetectRule}
use oldxr.Clients.{ApiError}
use oldxr.Flow.{UserFlowRegistry}
use oldxr.Limiter.{Limiter, GlobalDeviceLimitConfig, RateOps, CacheOps}
use oldxr.Rule.{Manager, PatternOps}
use oldxr.Traffic.{RetiringUser}

-- `shadowsocks.CipherType`, as far as the builders name its values.
pub data CipherType : Type 0 where
  aes_128_gcm aes_256_gcm chacha20_poly1305 xchacha20_poly1305 plain unknown : CipherType

-- The accounts that the builders fill in.
pub data Account : Type 0 where
  vmess : (id : Str) (alter_ids : ℕ) (security : Str) → Account
  vless trojan : (id flow : Str) → Account
  shadowsocks : (password : Str) (cipher_type : CipherType) → Account
  shadowsocks_2022 : (key email : Str) (level : ℕ) → Account

-- `protocol.User`.
pub record User : Type 0 where
  pub level : ℕ
  pub email : Str
  pub account : Account

pub data Error : Type 0 where
  server_error : Str → Error
  not_an_inbound_handler no_such_inbound no_get_inbound no_user_manager build_failed : Error
  unsupported_node_type : Str → Error
  limiter_error : Error

-- What the controller uses of xray-core. `get_handler` is `none` for an error, and the three
-- conversions are type assertions; the others answer with the text of an error.
pub record ServerOps (X C O H I M V : Type 0) : Type 0 where
  pub create_object : C → X → O ⊎ Str
  pub as_inbound : O → Option H
  pub as_outbound : O → Option H
  pub add_inbound_handler : H → X → X × Option Str
  pub add_outbound_handler : H → X → X × Option Str
  pub remove_inbound_handler : Str → X → X × Option Str
  pub remove_outbound_handler : Str → X → X × Option Str
  pub get_handler : Str → X → Option H
  pub get_inbound : H → Option I
  pub user_manager : I → Option M
  pub to_memory_user : Option User → V ⊎ Str
  pub add_user : M → V → X → X × Option Str
  pub remove_user : M → Str → X → X × Option Str

-- What the controller asks its panel client. `K` is the client's state.
pub record PanelOps (K P : Type 0) : Type 0 where
  pub get_node_info : K → K × (NodeInfo ⊎ ApiError)
  pub get_user_list : K → K × (List UserInfo ⊎ ApiError)
  pub get_node_rule : K → K × (List (DetectRule P) ⊎ ApiError)

-- The part of the configuration that the node monitor reads.
pub record Config : Type 0 where
  pub listen_ip : Str
  pub update_periodic : ℕ  -- seconds
  pub disable_get_rule : Bool
  pub global_device_limit_config : Option GlobalDeviceLimitConfig

-- All that the controller is given and never changes. The builders of handler configurations,
-- `methods_2022` and base64 come with xray-core and its libraries.
pub record Environment (X C O H I M V B R G P K : Type 0) : Type 0 where
  pub config : Config
  pub panel_type : Str
  pub server_ops : ServerOps X C O H I M V
  pub panel : PanelOps K P
  pub rate : RateOps B R
  pub cache : CacheOps G
  pub patterns : PatternOps P
  pub inbound_builder : NodeInfo → Str → C ⊎ Str
  pub outbound_builder : NodeInfo → Str → C ⊎ Str
  pub encode_base64 : Str → Str
  pub methods_2022 : List Str

pub record RetiringUserKey : Type 0 where
  pub tag : Str
  pub email : Str

unfoldable pub RetiringUserKey-discrete : Discrete RetiringUserKey
RetiringUserKey-discrete = hlevel ℕ_discrete

unfoldable pub NodeInfo-discrete : Discrete NodeInfo
NodeInfo-discrete = hlevel ℕ_discrete

-- The controller with what it reaches: the dispatcher's registry, limiter and rules, the server
-- and the panel's client. The list of users is nil only before `Start` has fetched it; an empty
-- list stands for a nil one.
pub record Controller (X B G P S K : Type 0) : Type 0 where
  pub node_info : NodeInfo
  pub tag : Str
  pub user_list : List UserInfo
  pub retiring_users : Dict RetiringUserKey RetiringUser
  pub user_flows : UserFlowRegistry
  pub limiter : Limiter B G
  pub rule_manager : Manager P S
  pub server : X
  pub api_client : K

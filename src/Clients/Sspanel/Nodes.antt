-- ===== src/Clients/Sspanel/Nodes.antt =====
-- api/sspanel/sspanel.go: the node, out of the server's string or of custom_config.
--
-- A server's string is `address;port;alter id;protocol;security;key=value|key=value`, and
-- `address;port=outer#inner|host=name` for Trojan. An index out of range is `panicked`.
use oldxr.Base.{
  ℕ, zero, suc, ◌+◌, ◌-◌, ◌%◌, ◌^◌, ◌⊎◌, inl, inr, Bool, true, false, ◌||◌, Option, none, some,
  List, [], ◌∷◌, ◌==◌, if◌then◌else◌,
}
use oldxr.Base.Int.{ℤ, to_word}
use oldxr.Base.Text.{Str, bytes, text_eq, is_empty, join}
use oldxr.Base.Text.Split.{split, parse_int, first_port, second_port, first_host}
use oldxr.Api.{NodeInfo, zero_node_info}
use oldxr.Clients.{ApiError, panicked, no_server_info, bad_number, port_too_small, SpeedOps}
use oldxr.Clients.Sspanel.{NodeInfoResponse, ApiClient, speed_of}

-- The part at an index, as a number of some bits.
unfoldable pub number_at : ℕ → ℕ → List Str → ℤ ⊎ ApiError
number_at bits i [] = inr panicked
number_at bits zero (part ∷ parts) = elim (parse_int bits part) [
  | none ↦ inr bad_number
  | some n ↦ inl n
]
number_at bits (suc i) (part ∷ parts) = number_at bits i parts

-- The parts 3 and 4, and part 5.
abbrev pub stream_parts : List Str → Option ((Str × Str) × Str)
stream_parts (a ∷ p ∷ q ∷ x ∷ y ∷ z ∷ more) = some ((x, y), z)
stream_parts short = none

pub record Transport : Type 0 where
  pub transport_protocol : Str
  pub tls_type : Str
  pub enable_tls : Bool

abbrev pub plain_transport : Transport
plain_transport = record { transport_protocol = []; tls_type = []; enable_tls = false }

abbrev pub tls_name : Bool → Str
tls_name enable_xtls = if enable_xtls then bytes "xtls" else bytes "tls"

abbrev pub is_tls : Str → Bool
is_tls value = text_eq value (bytes "tls") || text_eq value (bytes "xtls")

-- The bodies of the loops over the parts 3 and 4.
unfoldable pub read_v2ray_part : Bool → Str → Transport → Transport
read_v2ray_part enable_xtls value t =
    if is_tls value
    then record t { tls_type = tls_name enable_xtls; enable_tls = true }
    else if is_empty value
    then t
    else record t { transport_protocol = value }

unfoldable pub read_plugin_part : Bool → Str → Transport → Transport
read_plugin_part enable_xtls value t =
    if is_tls value
    then record t { tls_type = tls_name enable_xtls; enable_tls = true }
    else if text_eq value (bytes "ws")
    then record t { transport_protocol = bytes "ws" }
    else if text_eq value (bytes "obfs")
    then record t { transport_protocol = bytes "tcp" }
    else t

pub record Extra : Type 0 where
  pub path : Str
  pub host : Str
  pub service_name : Str
  pub header_type : Str

abbrev pub no_extra : Extra
no_extra = record { path = []; host = []; service_name = []; header_type = [] }

-- A path keeps the `=` in it. A key without a value is a panic.
unfoldable pub read_extra : List Str → Extra → Option Extra
read_extra [] e = some e
read_extra (key ∷ []) e = if is_empty key then some e else none
read_extra (key ∷ value ∷ more) e =
    if text_eq key (bytes "path")
    then some (record e { path = join (bytes "=") (value ∷ more) })
    else if text_eq key (bytes "host")
    then some (record e { host = value })
    else if text_eq key (bytes "servicename")
    then some (record e { service_name = value })
    else if text_eq key (bytes "headertype")
    then some (record e { header_type = value })
    else some e

unfoldable pub read_extras : List Str → Extra → Option Extra
unfolding read_extra split
read_extras [] e = some e
read_extras (item ∷ items) e = elim (read_extra (split 61 item) e) [
  | none ↦ none
  | some e' ↦ read_extras items e'
]

-- The pairs of a Trojan string: a key `grpc`, which has a value too, and `servicename`.
unfoldable pub read_trojan_extra : List Str → Str × Str → Option (Str × Str)
read_trojan_extra [] (transport, service) = some (transport, service)
read_trojan_extra (key ∷ []) (transport, service) =
    if is_empty key then some (transport, service) else none
read_trojan_extra (key ∷ value ∷ more) (transport, service) =
    if text_eq key (bytes "grpc")
    then some (bytes "grpc", service)
    else if text_eq key (bytes "servicename")
    then some (transport, value)
    else some (transport, service)

unfoldable pub read_trojan_extras : List Str → Str × Str → Option (Str × Str)
unfolding read_trojan_extra split
read_trojan_extras [] t = some t
read_trojan_extras (item ∷ items) t = elim (read_trojan_extra (split 61 item) t) [
  | none ↦ none
  | some t' ↦ read_trojan_extras items t'
]

-- The port below the one given, as a uint32.
unfoldable pub plugin_port : ℤ → ℕ
plugin_port port = (to_word port % 2 ^ 32 + (2 ^ 32 - 1)) % 2 ^ 32

abbrev pub text_of : Option Str → Str
text_of none = []
text_of (some s) = s

-- The inner port, or the outer one where there is none.
unfoldable pub trojan_port : Str → Str
unfolding second_port first_port
trojan_port s = elim (second_port s) [ some inner ↦ inner | none ↦ text_of (first_port s) ]

module _ {F P W : Type 0} (speed : SpeedOps F) where
  -- What all nodes have.
  abbrev pub node_base : ApiClient F P → NodeInfoResponse F W → ℕ → NodeInfo
  node_base c n port = record zero_node_info {
    node_type = c.node_type;
    node_id = c.node_id;
    port = port;
    speed_limit = speed_of speed c n.speed_limit;
  }

  unfoldable pub v2ray_node :
      (Str → Str) → ApiClient F P → NodeInfoResponse F W → ℤ → ℤ → Str × Str → Extra → NodeInfo
  unfolding read_v2ray_part
  v2ray_node type_header c n port alter_id (x, y) extra =
      let t = read_v2ray_part c.enable_xtls y (read_v2ray_part c.enable_xtls x plain_transport) in
      record (node_base c n (to_word port % 2 ^ 32)) {
        alter_id = to_word alter_id % 2 ^ 16;
        transport_protocol = t.transport_protocol;
        enable_tls = t.enable_tls;
        tls_type = t.tls_type;
        path = extra.path;
        host = extra.host;
        enable_vless = c.enable_vless;
        service_name = extra.service_name;
        header = if is_empty extra.header_type then none else some (type_header extra.header_type);
      }

  -- `type_header` is the JSON of a map with the type alone.
  unfoldable pub parse_v2ray_node_response :
      (Str → Str) → ApiClient F P → NodeInfoResponse F W → NodeInfo ⊎ ApiError
  unfolding number_at split read_extras v2ray_node
  parse_v2ray_node_response type_header c n =
      let conf = split 59 n.raw_server_string in
      if is_empty n.raw_server_string then inr no_server_info else (elim (number_at 32 1 conf) [
        | inr e ↦ inr e
        | inl port ↦ elim (number_at 16 2 conf) [
          | inr e ↦ inr e
          | inl alter_id ↦ elim (stream_parts conf) [
            | none ↦ inr panicked
            | some (parts, text) ↦ elim (read_extras (split 124 text) no_extra) [
              | none ↦ inr panicked
              | some extra ↦ inl (v2ray_node type_header c n port alter_id parts extra)
            ]
          ]
        ]
      ])

  unfoldable pub plugin_node :
      ApiClient F P → NodeInfoResponse F W → ℕ → Str × Str → Extra → NodeInfo
  unfolding read_plugin_part
  plugin_node c n port (x, y) extra =
      let t = read_plugin_part c.enable_xtls y (read_plugin_part c.enable_xtls x plain_transport) in
      record (node_base c n port) {
        transport_protocol = t.transport_protocol;
        enable_tls = t.enable_tls;
        tls_type = t.tls_type;
        path = extra.path;
        host = extra.host;
      }

  unfoldable pub parse_ss_plugin_node_response :
      ApiClient F P → NodeInfoResponse F W → NodeInfo ⊎ ApiError
  unfolding number_at split read_extras plugin_port plugin_node
  parse_ss_plugin_node_response c n =
      let conf = split 59 n.raw_server_string in
      elim (number_at 32 1 conf) [
        | inr e ↦ inr e
        | inl port ↦
            if plugin_port port == 0 then inr port_too_small else (elim (stream_parts conf) [
              | none ↦ inr panicked
              | some (parts, text) ↦ elim (read_extras (split 124 text) no_extra) [
                | none ↦ inr panicked
                | some extra ↦ inl (plugin_node c n (plugin_port port) parts extra)
              ]
            ])
      ]

  unfoldable pub trojan_node :
      ApiClient F P → NodeInfoResponse F W → ℤ → List Str → NodeInfo ⊎ ApiError
  unfolding read_trojan_extras first_host split
  trojan_node c n port (address ∷ text ∷ more) =
      elim (read_trojan_extras (split 124 text) (bytes "tcp", [])) [
        | none ↦ inr panicked
        | some (transport, service) ↦ inl (record (node_base c n (to_word port % 2 ^ 32)) {
          transport_protocol = transport;
          enable_tls = true;
          tls_type = tls_name c.enable_xtls;
          host = text_of (first_host n.raw_server_string);
          service_name = service;
        })
      ]
  trojan_node c n port short = inr panicked

  unfoldable pub parse_trojan_node_response :
      ApiClient F P → NodeInfoResponse F W → NodeInfo ⊎ ApiError
  unfolding trojan_port trojan_node parse_int split
  parse_trojan_node_response c n =
      let s = n.raw_server_string in
      if is_empty s then inr no_server_info else (elim (parse_int 32 (trojan_port s)) [
        | none ↦ inr bad_number
        | some port ↦ trojan_node c n port (split 59 s)
      ])

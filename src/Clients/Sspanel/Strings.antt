-- ===== src/Clients/Sspanel/Strings.antt =====
-- The string of a V2Ray server, printed and read again.
use oldxr.Base.{
  ℕ, ◌^◌, ◌<◌, ◌≡◌, ◌≢◌, inl, refl, sym, ap, ◌∙◌, subst, Bool, true, false, some, List, [], ◌∷◌,
  ◌++◌, if◌then◌else◌, arith, ℕ_discrete,
}
use oldxr.Base.Int.{pos}
use oldxr.Base.Text.{Str, Str-discrete, bytes, itoa, is_empty, join}
use oldxr.Base.Text.Decimal.{Without, itoa-Without}
use oldxr.Base.Text.Split.{
  split, split-join, split-cons, join-split, split-part, lacks, lacks-Without, parse_int-itoa,
}
use oldxr.Api.{NodeInfo, zero_node_info}
use oldxr.Clients.{SpeedOps}
use oldxr.Clients.Sspanel.{NodeInfoResponse, ApiClient, speed_of}
use oldxr.Clients.Sspanel.Nodes.{
  Transport, number_at, tls_name, is_tls, plain_transport, read_v2ray_part, Extra, no_extra,
  read_extra, read_extras, v2ray_node, parse_v2ray_node_response,
}

-- What a server's string tells.
pub record Server : Type 0 where
  pub address : Str
  pub port : ℕ
  pub alter_id : ℕ
  pub network : Str
  pub has_tls : Bool
  pub path : Str
  pub host : Str

abbrev pub extra_text : Server → Str
extra_text s = join (bytes "|") ((bytes "path=" ++ s.path) ∷ (bytes "host=" ++ s.host) ∷ [])

abbrev pub server_parts : Server → List Str
server_parts s =
    s.address
    ∷ itoa (pos s.port)
    ∷ itoa (pos s.alter_id)
    ∷ s.network
    ∷ (if s.has_tls then bytes "tls" else [])
    ∷ extra_text s
    ∷ []

unfoldable pub print_server : Server → Str
unfolding join
print_server s = join (bytes ";") (server_parts s)

-- The separators do not occur in the parts. A path may have an `=`.
pub record IsPlain (s : Server) : Type 0 where
  pub port : s.port < 2 ^ 31
  pub alter_id : s.alter_id < 2 ^ 15
  pub address : Without 59 s.address
  pub network : Without 59 s.network
  pub path : Without 59 s.path
  pub no_bar : Without 124 s.path
  pub host : Without 59 s.host
  pub host_no_bar : Without 124 s.host
  pub host_no_equals : Without 61 s.host
  pub some_network : s.network ≢ []
  pub other_network : is_tls s.network ≡ false

Without-append : (b : ℕ) (s t : Str) → Without b s → Without b t → Without b (s ++ t)
Without-append b [] t hs ht = ht
Without-append b (c ∷ cs) t (h, hs) ht = (h, Without-append b cs t hs ht)

Without-prefix : (b : ℕ) (s t : Str) → lacks b s ≡ true → Without b t → Without b (s ++ t)
Without-prefix b s t literal h = Without-append b s t (lacks-Without b s literal) h

tls_part-Without : (b : Bool) → Without 59 (if b then bytes "tls" else [])
tls_part-Without true = lacks-Without 59 (bytes "tls") refl
tls_part-Without false = tt

extra_text-Without : (s : Server) → IsPlain s → Without 59 (extra_text s)
unfolding join
extra_text-Without s plain =
    let host = Without-prefix 59 (bytes "|host=") s.host refl plain.host in
    let path = Without-append 59 s.path (bytes "|host=" ++ s.host) plain.path host in
    Without-prefix 59 (bytes "path=") (s.path ++ (bytes "|host=" ++ s.host)) refl path

split-print_server : (s : Server) → IsPlain s → split 59 (print_server s) ≡ server_parts s
unfolding print_server
split-print_server s plain = split-join 59 s.address _ plain.address (
  itoa-Without 59 (pos s.port) (omega arith),
  (
    itoa-Without 59 (pos s.alter_id) (omega arith),
    (plain.network, (tls_part-Without s.has_tls, (extra_text-Without s plain, tt))),
  ),
)

read_extra-path :
    (e : Extra) (path : Str)
    → read_extra (split 61 (bytes "path=" ++ path)) e ≡ some (record e { path = path })
unfolding read_extra split Str-discrete
read_extra-path e path =
    let (v, (more, parts)) = split-cons 61 path in
    let joined = join-split 61 path in ground (arith, parts, joined)

read_extra-host :
    (e : Extra) (host : Str)
    → Without 61 host
    → read_extra (split 61 (bytes "host=" ++ host)) e ≡ some (record e { host = host })
unfolding read_extra split Str-discrete ℕ_discrete
read_extra-host e host h =
    subst (λ parts. read_extra (bytes "host" ∷ parts) e ≡ some (record e { host = host }))
      (sym (split-part 61 host h)) refl

read_extras_printed :
    (s : Server)
    → IsPlain s
    → read_extras (split 124 (extra_text s)) no_extra
      ≡ some (record no_extra { path = s.path; host = s.host })
unfolding read_extras
read_extras_printed s plain =
    let path = Without-prefix 124 (bytes "path=") s.path refl plain.no_bar in
    let host = Without-prefix 124 (bytes "host=") s.host refl plain.host_no_bar in
    let parts =
      split-join 124 (bytes "path=" ++ s.path) ((bytes "host=" ++ s.host) ∷ []) path (host, tt) in
    subst
      (λ items.
        read_extras items no_extra ≡ some (record no_extra { path = s.path; host = s.host }))
      (sym parts)
      (ground (
        arith,
        read_extra-path no_extra s.path,
        read_extra-host (record no_extra { path = s.path }) s.host plain.host_no_equals,
      ))

is_empty-append : (s t : Str) (c : ℕ) → is_empty (s ++ (c ∷ t)) ≡ false
is_empty-append [] t c = refl
is_empty-append (d ∷ s) t c = refl

print_server_some : (s : Server) → is_empty (print_server s) ≡ false
unfolding print_server join
print_server_some s = is_empty-append s.address _ _

network_read :
    (enable_xtls : Bool) (c : ℕ) (cs : Str)
    → is_tls (c ∷ cs) ≡ false
    → read_v2ray_part enable_xtls (c ∷ cs) plain_transport
      ≡ record { transport_protocol = c ∷ cs; tls_type = []; enable_tls = false }
unfolding read_v2ray_part
network_read enable_xtls c cs other = ground (arith, other)

-- The parts of the transport: a network, then TLS or nothing.
transport_read :
    (enable_xtls has_tls : Bool) (network : Str)
    → network ≢ []
    → is_tls network ≡ false
    → read_v2ray_part enable_xtls
        (if has_tls then bytes "tls" else [])
        (read_v2ray_part enable_xtls network plain_transport)
      ≡ record {
        transport_protocol = network;
        tls_type = if has_tls then tls_name enable_xtls else [];
        enable_tls = has_tls;
      }
unfolding read_v2ray_part Str-discrete ℕ_discrete
transport_read enable_xtls has_tls [] some_network other = absurd (some_network refl)
transport_read enable_xtls true (c ∷ cs) some_network other =
    ap {A = Transport} {B = Transport}
      (λ t. record t { tls_type = tls_name enable_xtls; enable_tls = true })
      (network_read enable_xtls c cs other)
transport_read enable_xtls false (c ∷ cs) some_network other = network_read enable_xtls c cs other

module _ {F P W : Type 0} (speed : SpeedOps F) where
  -- The node of a server, with the values of the string.
  abbrev pub node_of : ApiClient F P → NodeInfoResponse F W → Server → NodeInfo
  node_of c n s = record zero_node_info {
    node_type = c.node_type;
    node_id = c.node_id;
    port = s.port;
    speed_limit = speed_of speed c n.speed_limit;
    alter_id = s.alter_id;
    transport_protocol = s.network;
    enable_tls = s.has_tls;
    tls_type = if s.has_tls then tls_name c.enable_xtls else [];
    path = s.path;
    host = s.host;
    enable_vless = c.enable_vless;
  }

  v2ray_node_printed :
      (type_header : Str → Str) (c : ApiClient F P) (n : NodeInfoResponse F W) (s : Server)
      → IsPlain s
      → v2ray_node speed type_header c n
          (pos s.port)
          (pos s.alter_id)
          (s.network, if s.has_tls then bytes "tls" else [])
          (record no_extra { path = s.path; host = s.host })
        ≡ node_of c n s
  unfolding v2ray_node
  v2ray_node_printed type_header c n s plain =
      let transport =
        transport_read c.enable_xtls s.has_tls s.network plain.some_network plain.other_network in
      ground (arith, transport, plain.port, plain.alter_id)

  -- A string whose parts are free of the separators, with a port below 2 ^ 31, an alter id below
  -- 2 ^ 15 and a network that is neither empty nor a name of TLS, gives a node with just these
  -- values, however many `=` the path has.
  pub parse_v2ray_node_response-print_server :
      (type_header : Str → Str) (c : ApiClient F P) (n : NodeInfoResponse F W) (s : Server)
      → IsPlain s
      → n.raw_server_string ≡ print_server s
      → parse_v2ray_node_response speed type_header c n ≡ inl (node_of c n s)
  unfolding parse_v2ray_node_response number_at
  parse_v2ray_node_response-print_server type_header c n s plain printed =
      let conf : split 59 n.raw_server_string ≡ server_parts s =
        ap (split 59) printed ∙ split-print_server s plain in
      let port = parse_int-itoa 32 s.port plain.port in
      let alter_id = parse_int-itoa 16 s.alter_id plain.alter_id in
      let extras = read_extras_printed s plain in
      let some_string : is_empty n.raw_server_string ≡ false =
        ap is_empty printed ∙ print_server_some s in
      let first : number_at 32 1 (server_parts s) ≡ inl (pos s.port) = ground (arith, port) in
      let second : number_at 16 2 (server_parts s) ≡ inl (pos s.alter_id) =
        ground (arith, alter_id) in
      ground (
        arith,
        conf,
        some_string,
        first,
        second,
        extras,
        v2ray_node_printed type_header c n s plain,
      )

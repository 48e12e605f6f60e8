-- ===== src/Clients.antt =====
-- The panel clients below api/: what they share.
--
-- HTTP is resty's and JSON is simplejson's and encoding/json's. A request is answered by an
-- argument; `J` is the type of JSON values, of which the clients use the operations below.
pub mod V2board
pub mod NewV2board
pub mod Sspanel
pub mod Proxypanel
pub mod Pmpanel
pub mod V2raysocks
mod Tests
use oldxr.Base.{ℕ, ◌⊎◌, inl, inr, Bool, Option, none, some, List, [], ◌∷◌, ◌++◌, leb, if◌then◌else◌}
use oldxr.Base.Int.{ℤ, negsuc}
use oldxr.Base.Text.{Str}
use oldxr.Api.{DetectRule, compile_detect_rule}

-- A request as far as the answer depends on it: the path, and the `If-None-Match` header.
pub record Request : Type 0 where
  pub path : Str
  pub if_none_match : Option Str

-- A response with its `ETag` header, empty if there is none, or an error of the transport.
pub data Reply : Type 0 where
  transport_error : Reply
  response : (status : ℕ) (etag body : Str) → Reply

-- After an error of the transport there is no raw response: its status is 0, its headers are empty.
abbrev pub status_code : Reply → ℕ
status_code transport_error = 0
status_code (response status etag body) = status

abbrev pub etag_header : Reply → Str
etag_header transport_error = []
etag_header (response status etag body) = etag

-- The errors of the clients, told apart by where they are made.
pub data ApiError : Type 0 where
  unsupported_node_type : Str → ApiError
  request_failed ret_invalid users_no_change not_modified_without_list no_node_users no_inbound
        panicked port_is_zero header_invalid decode_failed no_server_info bad_number no_multi_user
        port_too_small :
      ApiError
  parse_failed : ApiError → ApiError
  invalid_rule : ℕ → ApiError
  invalid_panel_rule : ℤ → ApiError

-- What the clients use of simplejson: reading never fails, and gives a zero value for what is not
-- there; `new_json` parses, and `marshal` prints.
pub record JsonOps (J : Type 0) : Type 0 where
  pub new_json : Str → Option J
  pub marshal : J → Option Str
  pub marshal_map : J → Option Str  -- `none` for a value that is no map
  pub get : Str → J → J
  pub check_get : Str → J → Option J
  pub get_index : ℕ → J → J
  pub must_array : J → List J
  pub must_string : J → Str
  pub must_string_array : J → List Str
  pub must_int : J → ℤ
  pub must_uint64 : J → ℕ

-- The float64 of a configured speed limit, in Mbps: whether it is above 0, and
-- `uint64(x * 1000000 / 8)`.
pub record SpeedOps (F : Type 0) : Type 0 where
  pub is_positive : F → Bool
  pub bps : F → ℕ

-- What resty answers where it decodes the body itself: an error, or a status with the value
-- decoded, which is the zero value where the status is none of success.
pub data Answer (D : Type 0) : Type 0 where
  no_answer : Answer D
  answered : (status : ℕ) (result : D) → Answer D

-- `parseResponse` of those clients: `is_valid` looks at the status that the panel's answer has
-- within.
unfoldable pub parse_answer : {D : Type 0} → (D → Bool) → Answer D → D ⊎ ApiError
parse_answer is_valid no_answer = inr request_failed
parse_answer is_valid (answered status result) =
    if leb 400 status
    then inr request_failed
    else if is_valid result
    then inl result
    else inr ret_invalid

-- The rules of a panel after the local ones; one that is invalid refuses them all.
unfoldable pub append_rules :
    {P : Type 0}
    → (Str → Option P)
    → List (DetectRule P)
    → List (ℤ × Str)
    → List (DetectRule P) ⊎ ApiError
unfolding compile_detect_rule
append_rules compile rules [] = inl rules
append_rules compile rules ((id, pattern) ∷ items) = elim (compile_detect_rule compile id pattern) [
  | none ↦ inr (invalid_panel_rule id)
  | some rule ↦ append_rules compile (rules ++ rule ∷ []) items
]

unfoldable pub parse_response : {J : Type 0} → JsonOps J → Reply → J ⊎ ApiError
parse_response json transport_error = inr request_failed
parse_response json (response status etag body) =
    if leb 400 status
    then inr request_failed
    else (elim (json.new_json body) [ none ↦ inr ret_invalid | some j ↦ inl j ])

-- The lines of the local rule file, `none` where there is no file to open; invalid ones are left
-- out. An error while reading ends the program.
unfoldable pub read_local_rules : {P : Type 0} → (Str → Option P) → List Str → List (DetectRule P)
unfolding compile_detect_rule
read_local_rules compile [] = []
read_local_rules compile (line ∷ lines) =
    let rest = read_local_rules compile lines in
    elim (compile_detect_rule compile (negsuc 0) line) [ none ↦ rest | some rule ↦ rule ∷ rest ]

unfoldable pub read_local_rule_list :
    {P : Type 0} → (Str → Option P) → Option (List Str) → List (DetectRule P)
unfolding read_local_rules
read_local_rule_list compile none = []
read_local_rule_list compile (some lines) = read_local_rules compile lines

-- ===== src/Controller/Builders.antt =====
-- service/controller/userbuilder.go: the users of xray-core that stand for the panel's.
--
-- The list of Shadowsocks 2022 methods and base64 are arguments. A user that cannot be built stays
-- nil in the slice, here `none`. Where the other files of the controller call
-- `buildUserTagWithTag`, `key_of` stands for it.
use oldxr.Base.{
  ℕ, Bool, true, false, ◌||◌, Option, none, some, List, [], ◌∷◌, map, if◌then◌else◌, length, ltb,
  take, ◌++◌,
}
use oldxr.Base.Text.{Str, bytes, text_eq, contains, to_lower, itoa}
use oldxr.Api.{UserInfo, NodeInfo}
use oldxr.Controller.{
  CipherType, aes_128_gcm, aes_256_gcm, chacha20_poly1305, xchacha20_poly1305, plain, unknown,
  Account, vmess, vless, trojan, shadowsocks, shadowsocks_2022, User,
}

-- `C.Contains` on a slice of strings.
abbrev pub is_listed : Str → List Str → Bool
is_listed s [] = false
is_listed s (t ∷ ts) = text_eq t s || is_listed s ts

unfoldable pub cipher_from_string : Str → CipherType
cipher_from_string c =
    let lower = to_lower c in
    if is_listed lower (bytes "aes-128-gcm" ∷ bytes "aead_aes_128_gcm" ∷ [])
    then aes_128_gcm
    else if is_listed lower (bytes "aes-256-gcm" ∷ bytes "aead_aes_256_gcm" ∷ [])
    then aes_256_gcm
    else if is_listed lower (
        bytes "chacha20-poly1305"
        ∷ bytes "aead_chacha20_poly1305"
        ∷ bytes "chacha20-ietf-poly1305"
        ∷ [])
    then chacha20_poly1305
    else if is_listed lower (bytes "none" ∷ bytes "plain" ∷ [])
    then plain
    else unknown

-- The keys of `AEADMethod`.
unfoldable pub is_aead : CipherType → Bool
is_aead aes_128_gcm = true
is_aead aes_256_gcm = true
is_aead chacha20_poly1305 = true
is_aead xchacha20_poly1305 = true
is_aead plain = false
is_aead unknown = false

-- The three parts of `fmt.Sprintf` with bars between.
unfoldable pub build_user_tag_with_tag : Str → UserInfo → Str
build_user_tag_with_tag tag u = tag ++ bytes "|" ++ u.email ++ bytes "|" ++ itoa u.uid

abbrev pub user_at : Str → UserInfo → Account → User
user_at tag u account = record {
  level = 0;
  email = build_user_tag_with_tag tag u;
  account = account;
}

unfoldable pub build_vmess_user : List UserInfo → ℕ → Str → List (Option User)
build_vmess_user user_info server_alter_id tag =
    map (λ u. some (user_at tag u (vmess u.uuid server_alter_id (bytes "auto")))) user_info

unfoldable pub build_vless_user : List UserInfo → Str → List (Option User)
build_vless_user user_info tag =
    map (λ u. some (user_at tag u (vless u.uuid (bytes "xtls-rprx-vision,none")))) user_info

unfoldable pub build_trojan_user : List UserInfo → Str → List (Option User)
build_trojan_user user_info tag =
    map (λ u. some (user_at tag u (trojan u.uuid (bytes "xtls-rprx-direct")))) user_info

-- The alterId of the users of a V2ray node: the newest is the first user's.
abbrev pub alter_id_of : Str → List UserInfo → NodeInfo → ℕ
alter_id_of panel_type [] node_info = node_info.alter_id
alter_id_of panel_type (u ∷ us) node_info =
    if text_eq panel_type (bytes "V2board") || text_eq panel_type (bytes "V2RaySocks")
    then u.alter_id
    else node_info.alter_id

module _ (panel_type : Str) (encode_base64 : Str → Str) where
  -- `none` is an error: the password is too short to be cut to a key.
  unfoldable pub check_shadowsocks_password : Str → Str → Option Str
  check_shadowsocks_password password method =
      if contains (bytes "V2board") panel_type
      then (if ltb (length password) 16
          then none
          else if text_eq method (bytes "2022-blake3-aes-128-gcm")
          then some (encode_base64 (take 16 password))
          else if ltb (length password) 32
          then none
          else some (encode_base64 (take 32 password)))
      else some password

  module _ (methods_2022 : List Str) where
    unfoldable pub build_2022_user : Str → Str → UserInfo → Option User
    unfolding check_shadowsocks_password
    build_2022_user method tag u = elim (check_shadowsocks_password (u.passwd) method) [
      | none ↦ none
      | some key ↦ some (user_at tag u (shadowsocks_2022 key (build_user_tag_with_tag tag u) 0))
    ]

    -- The body of the loop of `buildSSUser`.
    unfoldable pub ss_user : Str → Str → UserInfo → Option User
    unfolding build_2022_user cipher_from_string
    ss_user method tag u =
        if is_listed (to_lower method) methods_2022
        then build_2022_user method tag u
        else some (user_at tag u (shadowsocks (u.passwd) (cipher_from_string method)))

    unfoldable pub build_ss_user : List UserInfo → Str → Str → List (Option User)
    unfolding ss_user
    build_ss_user user_info method tag = map (ss_user method tag) user_info

    -- The body of the loop of `buildSSPluginUser`.
    unfoldable pub ss_plugin_user : Str → UserInfo → Option User
    unfolding build_2022_user cipher_from_string is_aead
    ss_plugin_user tag u =
        if is_listed (to_lower u.method) methods_2022
        then build_2022_user (u.method) tag u
        else (let cypher_method = cipher_from_string (u.method) in
            if is_aead cypher_method
            then some (user_at tag u (shadowsocks (u.passwd) cypher_method))
            else none)

    unfoldable pub build_ss_plugin_user : List UserInfo → Str → List (Option User)
    unfolding ss_plugin_user
    build_ss_plugin_user user_info tag = map (ss_plugin_user tag) user_info

    -- The switch of `addNewUser`; `none` for a type of node that is not supported.
    unfoldable pub build_users : List UserInfo → NodeInfo → Str → Option (List (Option User))
    unfolding build_vmess_user build_vless_user build_trojan_user build_ss_user build_ss_plugin_user
    build_users user_info node_info tag =
        if text_eq node_info.node_type (bytes "V2ray")
        then some (
            if node_info.enable_vless
            then build_vless_user user_info tag
            else build_vmess_user user_info (alter_id_of panel_type user_info node_info) tag)
        else if text_eq node_info.node_type (bytes "Trojan")
        then some (build_trojan_user user_info tag)
        else if text_eq node_info.node_type (bytes "Shadowsocks")
        then some (build_ss_user user_info (node_info.cypher_method) tag)
        else if text_eq node_info.node_type (bytes "Shadowsocks-Plugin")
        then some (build_ss_plugin_user user_info tag)
        else none

-- ===== src/Controller/Building.antt =====
-- The users that the builders make: under which key, and for which nodes always.
use oldxr.Base.{
  ◌≡◌, subst, refl, sym, Bool, true, false, ◌||◌, ◌&&◌, not, Option, none, some, List, [], ◌∷◌, map,
  arith, All, Bool-cases, inl, inr,
}
use oldxr.Base.Text.{Str, bytes, text_eq, to_lower}
use oldxr.Api.{UserInfo, NodeInfo}
use oldxr.Limiter.Key.{format_user_key}
use oldxr.Limiter.Users.{key_of}
use oldxr.Controller.{User}
use oldxr.Controller.Builders.{
  is_listed, build_vmess_user, build_vless_user, build_trojan_user, build_2022_user, ss_user,
  build_ss_user, ss_plugin_user, build_ss_plugin_user, build_users, alter_id_of,
  build_user_tag_with_tag,
}

abbrev pub is_some : {A : Type 0} → Option A → Bool
is_some none = false
is_some (some a) = true

-- The nodes for which a user is always built. With a Shadowsocks 2022 method, or the plugin, it
-- depends on the user.
abbrev pub is_supported : List Str → NodeInfo → Bool
is_supported methods_2022 n =
    text_eq n.node_type (bytes "V2ray")
    || (text_eq n.node_type (bytes "Trojan")
        || text_eq n.node_type (bytes "Shadowsocks")
          && not (is_listed (to_lower n.cypher_method) methods_2022))

map-All :
    {A B : Type 0} (P : B → Type 0) (f : A → B)
    → ((a : A) → P (f a))
    → (xs : List A) → All P (map f xs)
map-All P f h [] = tt
map-All P f h (x ∷ xs) = (h x, map-All P f h xs)

-- The key of the controller is the limiter's.
build_user_tag_with_tag-key_of :
    (tag : Str) (u : UserInfo) → build_user_tag_with_tag tag u ≡ key_of tag u
unfolding build_user_tag_with_tag format_user_key
build_user_tag_with_tag-key_of tag u = refl

-- The user who is built for a panel user, if any, goes by the panel user's key.
abbrev pub IsUserOf : Str → UserInfo → Option User → Type 0
IsUserOf tag u none = Unit
IsUserOf tag u (some v) = v.email ≡ key_of tag u

-- Position by position.
abbrev pub AreUsersOf : Str → List UserInfo → List (Option User) → Type 0
AreUsersOf tag [] [] = Unit
AreUsersOf tag [] (v ∷ vs) = ⊥
AreUsersOf tag (u ∷ us) [] = ⊥
AreUsersOf tag (u ∷ us) (v ∷ vs) = IsUserOf tag u v × AreUsersOf tag us vs

map-AreUsersOf :
    (tag : Str) (f : UserInfo → Option User)
    → ((u : UserInfo) → IsUserOf tag u (f u))
    → (us : List UserInfo) → AreUsersOf tag us (map f us)
map-AreUsersOf tag f h [] = tt
map-AreUsersOf tag f h (u ∷ us) = (h u, map-AreUsersOf tag f h us)

module _ (panel_type : Str) (encode_base64 : Str → Str) (methods_2022 : List Str) where
  ss_user-is_some :
      (method tag : Str) (u : UserInfo)
      → is_listed (to_lower method) methods_2022 ≡ false
      → is_some (ss_user panel_type encode_base64 methods_2022 method tag u) ≡ true
  unfolding ss_user
  ss_user-is_some method tag u h = rw (h) refl

  pub build_users-is_supported :
      (us : List UserInfo) (n : NodeInfo) (tag : Str)
      → is_supported methods_2022 n ≡ true
      → (users : _) × (build_users panel_type encode_base64 methods_2022 us n tag ≡ some users)
        × All (λ u. is_some u ≡ true) users
  unfolding build_users build_vmess_user build_vless_user build_trojan_user build_ss_user
  build_users-is_supported us n tag h = elim (Bool-cases (text_eq n.node_type (bytes "V2ray"))) [
    | inl e ↦ elim (Bool-cases (n.enable_vless)) [
      | inl f ↦ (build_vless_user us tag, ground (arith, e, f), map-All _ _ (λ u. refl) us)
      | inr f ↦ (
        build_vmess_user us (alter_id_of panel_type us n) tag,
        ground (arith, e, f),
        map-All _ _ (λ u. refl) us,
      )
    ]
    | inr e ↦ elim (Bool-cases (text_eq n.node_type (bytes "Trojan"))) [
      | inl f ↦ (build_trojan_user us tag, ground (arith, e, f), map-All _ _ (λ u. refl) us)
      | inr f ↦ (
        build_ss_user panel_type encode_base64 methods_2022 us n.cypher_method tag,
        ground (arith, e, f),
        map-All _ _ (λ u. ss_user-is_some n.cypher_method tag u (ground (arith, e, f))) us,
      )
    ]
  ]

  ss_user-IsUserOf :
      (method tag : Str) (u : UserInfo)
      → IsUserOf tag u (ss_user panel_type encode_base64 methods_2022 method tag u)
  unfolding ss_user build_2022_user
  ss_user-IsUserOf method tag u = ground (arith, build_user_tag_with_tag-key_of tag u)

  ss_plugin_user-IsUserOf :
      (tag : Str) (u : UserInfo)
      → IsUserOf tag u (ss_plugin_user panel_type encode_base64 methods_2022 tag u)
  unfolding ss_plugin_user build_2022_user
  ss_plugin_user-IsUserOf tag u = ground (arith, build_user_tag_with_tag-key_of tag u)

  -- Each branch of the switch builds user by user.
  abbrev Maps : List UserInfo → Str → Option (List (Option User)) → Type 0
  Maps us tag none = Unit
  Maps us tag (some users) =
      (f : UserInfo → Option User) × ((u : UserInfo) → IsUserOf tag u (f u)) × (users ≡ map f us)

  build_users-Maps :
      (us : List UserInfo) (n : NodeInfo) (tag : Str)
      → Maps us tag (build_users panel_type encode_base64 methods_2022 us n tag)
  unfolding build_users build_vmess_user build_vless_user build_trojan_user build_ss_user
      build_ss_plugin_user
  build_users-Maps us n tag = elim (Bool-cases (text_eq n.node_type (bytes "V2ray"))) [
    | inl e ↦ elim (Bool-cases (n.enable_vless)) [
      | inl f ↦ rw (e, f) (_, build_user_tag_with_tag-key_of tag, refl)
      | inr f ↦ rw (e, f) (_, build_user_tag_with_tag-key_of tag, refl)
    ]
    | inr e ↦ elim (Bool-cases (text_eq n.node_type (bytes "Trojan"))) [
      | inl f ↦ rw (e, f) (_, build_user_tag_with_tag-key_of tag, refl)
      | inr f ↦ elim (Bool-cases (text_eq n.node_type (bytes "Shadowsocks"))) [
        | inl g ↦ rw (e, f, g) (_, ss_user-IsUserOf n.cypher_method tag, refl)
        | inr g ↦ elim (Bool-cases (text_eq n.node_type (bytes "Shadowsocks-Plugin"))) [
          | inl h ↦ rw (e, f, g, h) (_, ss_plugin_user-IsUserOf tag, refl)
          | inr h ↦ rw (e, f, g, h) tt
        ]
      ]
    ]
  ]

  -- Whatever the node, there is a place for each panel user in turn, and the user who is built
  -- there, if any, goes by the key under which the limiter and the registry know the panel user.
  pub build_users-AreUsersOf :
      (us : List UserInfo) (n : NodeInfo) (tag : Str) (users : List (Option User))
      → build_users panel_type encode_base64 methods_2022 us n tag ≡ some users
      → AreUsersOf tag us users
  build_users-AreUsersOf us n tag users h =
      let (f, built, same) = subst (Maps us tag) h (build_users-Maps us n tag) in
      subst (AreUsersOf tag us) (sym same) (map-AreUsersOf tag f built us)

-- ===== src/Controller/Handlers.antt =====
-- The tags and the handlers of a node: `buildNodeTag`, `removeOldTag`, `addNewTag` and
-- `addInboundForSSPlugin` of service/controller/controller.go.
use oldxr.Base.{◌+◌, ◌%◌, ◌^◌, Bool, false, Option, none, some, ◌∷◌, ◌++◌, inl, inr, if◌then◌else◌}
use oldxr.Base.Int.{pos}
use oldxr.Base.Text.{Str, bytes, text_eq, itoa}
use oldxr.Api.{NodeInfo}
use oldxr.Controller.{Error, server_error, Environment, Config}
use oldxr.Controller.Server.{remove_inbound, remove_outbound, add_inbound, add_outbound}

-- A step that runs only where the one before did not fail.
abbrev pub and_then : {X : Type 0} → X × Option Error → (X → X × Option Error) → X × Option Error
and_then (x, none) next = next x
and_then (x, some err) next = (x, some err)

unfoldable pub build_node_tag : Config → NodeInfo → Str
build_node_tag config node_info =
    node_info.node_type ++ (95 ∷ config.listen_ip ++ (95 ∷ itoa (pos node_info.port)))

-- `fmt.Sprintf("dokodemo-door_%s+1", tag)`.
abbrev pub dokodemo_tag : Str → Str
dokodemo_tag tag = bytes "dokodemo-door_" ++ (tag ++ bytes "+1")

abbrev pub is_plugin : NodeInfo → Bool
is_plugin node_info = text_eq node_info.node_type (bytes "Shadowsocks-Plugin")

module _ {X C O H I M V B R G P K : Type 0} (env : Environment X C O H I M V B R G P K) where
  unfoldable pub remove_old_tag : Str → X → X × Option Error
  unfolding remove_inbound remove_outbound
  remove_old_tag tag x =
      and_then (remove_inbound env.server_ops tag x) (remove_outbound env.server_ops tag)

  -- An inbound and an outbound for a node, as both functions below add them.
  unfoldable pub add_handlers : NodeInfo → Str → X → X × Option Error
  unfolding add_inbound add_outbound
  add_handlers node_info tag x = elim (env.inbound_builder node_info tag) [
    | inr text ↦ (x, some (server_error text))
    | inl inbound_config ↦ and_then (add_inbound env.server_ops inbound_config x) (λ x'.
        elim (env.outbound_builder node_info tag) [
          | inr text ↦ (x', some (server_error text))
          | inl outbound_config ↦ add_outbound env.server_ops outbound_config x'
        ])
  ]

  unfoldable pub add_inbound_for_ss_plugin : NodeInfo → Str → X → X × Option Error
  unfolding add_handlers
  add_inbound_for_ss_plugin node_info tag x =
      let regular = record node_info { transport_protocol = bytes "tcp"; enable_tls = false } in
      let upper = record node_info {
        port = (node_info.port + 1) % 2 ^ 32;
        node_type = bytes "dokodemo-door";
      } in
      and_then (add_handlers regular tag x) (add_handlers upper (dokodemo_tag tag))

  unfoldable pub add_new_tag : NodeInfo → Str → X → X × Option Error
  unfolding add_handlers add_inbound_for_ss_plugin
  add_new_tag node_info tag x =
      if is_plugin node_info
      then add_inbound_for_ss_plugin node_info tag x
      else add_handlers node_info tag x

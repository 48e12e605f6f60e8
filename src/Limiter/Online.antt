-- ===== src/Limiter/Online.antt =====
-- `GetOnlineDevice` of common/limiter/limiter.go: the report of the addresses in use.
use oldxr.Base.{ℕ, ◌++◌, ◌⊎◌, inl, inr, none, some, List, [], ◌∷◌}
use oldxr.Base.Int.{ℤ}
use oldxr.Base.Dict.{Dict, load, store, delete}
use oldxr.Base.Text.{Str, Str-discrete}
use oldxr.Api.{OnlineUser}
use oldxr.Limiter.{InboundInfo, Limiter, Error, no_such_inbound}

-- The inner `Range`, over one user's addresses.
unfoldable pub list_devices : Dict Str ℤ → List OnlineUser
list_devices [] = []
list_devices ((ip, uid) ∷ ips) = record { uid = uid; ip = ip } ∷ list_devices ips

module _ {G : Type 0} where
  -- The bucket of a user who is not online goes.
  unfoldable pub clear_bucket : Str → InboundInfo G → InboundInfo G
  clear_bucket email info = elim (load Str-discrete email info.user_online_ip) [
    | some ips ↦ info
    | none ↦ record info { bucket_hub = delete Str-discrete email info.bucket_hub }
  ]

  -- The first `Range`, over the entries of the bucket hub.
  unfoldable pub clear_idle : Dict Str ℕ → InboundInfo G → InboundInfo G
  unfolding clear_bucket
  clear_idle [] info = info
  clear_idle ((email, a) ∷ hub) info = clear_idle hub (clear_bucket email info)

  -- The second `Range`: list the addresses of each user, and reset them.
  unfoldable pub drain_online :
      Dict Str (Dict Str ℤ) → List OnlineUser → InboundInfo G → InboundInfo G × List OnlineUser
  unfolding list_devices
  drain_online [] online info = (info, online)
  drain_online ((email, ips) ∷ m) online info =
      drain_online m (online ++ list_devices ips)
        (record info { user_online_ip = delete Str-discrete email info.user_online_ip })

module _ {B G : Type 0} where
  -- The devices online, or an error for a tag that is not there.
  unfoldable pub get_online_device : Str → Limiter B G → Limiter B G × (List OnlineUser ⊎ Error)
  unfolding clear_idle drain_online
  get_online_device tag l = elim (load Str-discrete tag l.inbound_info) [
    | none ↦ (l, inr (no_such_inbound tag))
    | some info ↦
        let cleared = clear_idle info.bucket_hub info in
        let (info', online) = drain_online cleared.user_online_ip [] cleared in
        (record l { inbound_info = store Str-discrete tag info' l.inbound_info }, inl online)
  ]

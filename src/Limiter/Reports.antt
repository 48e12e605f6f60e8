-- ===== src/Limiter/Reports.antt =====
-- The report of the devices online, and what it resets.
use mathlib.Core.List.{append_assoc, append-nil}
use oldxr.Base.{
  ℕ, ◌≡◌, refl, sym, ap, ◌∙◌, ◌≢◌, ◌++◌, Option, none, some, List, [], ◌∷◌, ◌⊎◌, inl, inr, arith,
  map,
}
use oldxr.Base.Dict.{Dict, load, load-delete, load-nil, load-store_self}
use oldxr.Base.Int.{ℤ}
use oldxr.Base.Text.{Str, Str-discrete}
use oldxr.Api.{OnlineUser}
use oldxr.Limiter.{InboundInfo, Limiter}
use oldxr.Limiter.Online.{clear_bucket, clear_idle, list_devices, drain_online, get_online_device}

-- One entry for each address of each user.
abbrev pub listing : Dict Str (Dict Str ℤ) → List OnlineUser
listing [] = []
listing ((email, ips) ∷ m) =
    map (λ device. record { uid = device.1; ip = device.0 }) ips ++ listing m

list_devices-map :
    (ips : Dict Str ℤ)
    → list_devices ips ≡ map (λ device. record { uid = device.1; ip = device.0 }) ips
unfolding list_devices
list_devices-map [] = refl
list_devices-map ((ip, uid) ∷ ips) =
    ap (λ us. record { uid = uid; ip = ip } ∷ us) (list_devices-map ips)

present : {A : Type 0} (o : Option A) → (o ≢ none) ⊎ (o ≡ none)
present none = inr refl
present (some a) = inl (λ e. cc)

module _ {G : Type 0} where
  clear_bucket-online :
      (email : Str) (info : InboundInfo G)
      → ((clear_bucket email info).user_online_ip ≡ info.user_online_ip)
        × ((clear_bucket email info).user_info ≡ info.user_info)
  unfolding clear_bucket
  clear_bucket-online email info = ground arith

  clear_idle-online :
      (hub : Dict Str ℕ) (info : InboundInfo G)
      → ((clear_idle hub info).user_online_ip ≡ info.user_online_ip)
        × ((clear_idle hub info).user_info ≡ info.user_info)
  unfolding clear_idle
  clear_idle-online [] info = (refl, refl)
  clear_idle-online ((email, a) ∷ hub) info =
      let step = clear_bucket-online email info in
      let rest = clear_idle-online hub (clear_bucket email info) in
      (rest.0 ∙ step.0, rest.1 ∙ step.1)

  clear_idle_kept :
      (e : Str) (hub : Dict Str ℕ) (info : InboundInfo G)
      → load Str-discrete e info.user_online_ip ≢ none
      → load Str-discrete e (clear_idle hub info).bucket_hub ≡ load Str-discrete e info.bucket_hub
  unfolding clear_idle clear_bucket
  clear_idle_kept e [] info h = refl
  clear_idle_kept e ((email, a) ∷ hub) info h = ground (
    arith,
    clear_idle_kept e hub (clear_bucket email info),
    load-delete Str-discrete email e info.bucket_hub,
  )

  clear_idle_gone :
      (e : Str) (hub : Dict Str ℕ) (info : InboundInfo G)
      → load Str-discrete e info.user_online_ip ≡ none
      → (load Str-discrete e hub ≢ none) ⊎ (load Str-discrete e info.bucket_hub ≡ none)
      → load Str-discrete e (clear_idle hub info).bucket_hub ≡ none
  unfolding clear_idle clear_bucket load
  clear_idle_gone e [] info h (inl k) = absurd (k refl)
  clear_idle_gone e [] info h (inr k) = k
  clear_idle_gone e ((email, a) ∷ hub) info h k =
      clear_idle_gone e hub (clear_bucket email info) (ground arith) (elim (Str-discrete email e) [
        | yes here ↦ inr (ground (arith, load-delete Str-discrete email e info.bucket_hub))
        | no away ↦ (elim k [
          | inl more ↦ inl (λ none_left. more (ground arith))
          | inr gone ↦ inr (ground (arith, load-delete Str-discrete email e info.bucket_hub))
        ])
      ])

  clear_idle_hub :
      (e : Str) (info : InboundInfo G)
      → load Str-discrete e (clear_idle info.bucket_hub info).bucket_hub
        ≡ (elim (load Str-discrete e info.user_online_ip) [
          | none ↦ none
          | some ips ↦ load Str-discrete e info.bucket_hub
        ])
  clear_idle_hub e info = ground (
    arith,
    clear_idle_kept e info.bucket_hub info,
    clear_idle_gone e info.bucket_hub info,
    present (load Str-discrete e info.bucket_hub),
  )

  drain_online-hub :
      (m : Dict Str (Dict Str ℤ)) (us : List OnlineUser) (info : InboundInfo G)
      → ((drain_online m us info).0.bucket_hub ≡ info.bucket_hub)
        × ((drain_online m us info).0.user_info ≡ info.user_info)
  unfolding drain_online
  drain_online-hub [] us info = (refl, refl)
  drain_online-hub ((email, ips) ∷ m) us info = drain_online-hub m _ _

  drain_online-listing :
      (m : Dict Str (Dict Str ℤ)) (us : List OnlineUser) (info : InboundInfo G)
      → (drain_online m us info).1 ≡ us ++ listing m
  unfolding drain_online
  drain_online-listing [] us info = sym (append-nil us)
  drain_online-listing ((email, ips) ∷ m) us info =
      drain_online-listing m (us ++ list_devices ips) _
      ∙ append_assoc us (list_devices ips) (listing m)
      ∙ ap (λ here. us ++ (here ++ listing m)) (list_devices-map ips)

  drain_online_reset :
      (e : Str) (m : Dict Str (Dict Str ℤ)) (us : List OnlineUser) (info : InboundInfo G)
      → (load Str-discrete e m ≢ none) ⊎ (load Str-discrete e info.user_online_ip ≡ none)
      → load Str-discrete e (drain_online m us info).0.user_online_ip ≡ none
  unfolding drain_online load
  drain_online_reset e [] us info (inl k) = absurd (k (load-nil Str-discrete e))
  drain_online_reset e [] us info (inr k) = k
  drain_online_reset e ((email, ips) ∷ m) us info k =
      drain_online_reset e m _ _ (elim (Str-discrete email e) [
        | yes here ↦ inr (ground (arith, load-delete Str-discrete email e info.user_online_ip))
        | no away ↦ (elim k [
          | inl more ↦ inl (λ none_left. more (ground arith))
          | inr gone ↦ inr (ground (arith, load-delete Str-discrete email e info.user_online_ip))
        ])
      ])

module _ {B G : Type 0} (tag : Str) (l : Limiter B G) {info : InboundInfo G} where
  -- The report for an inbound that is there lists every address of every user once. It leaves the
  -- users as they were, nobody online, a bucket with every user who was online and had one, and no
  -- bucket with the others.
  pub report_resets :
      (email : Str)
      → load Str-discrete tag l.inbound_info ≡ some info
      → let (l', answer) = get_online_device tag l in
        (answer ≡ inl (listing info.user_online_ip))
        × ((info' : InboundInfo G) × (load Str-discrete tag l'.inbound_info ≡ some info')
            × (info'.user_info ≡ info.user_info)
            × (load Str-discrete email info'.user_online_ip ≡ none)
            × (load Str-discrete email info'.bucket_hub
                ≡ (elim (load Str-discrete email info.user_online_ip) [
                  | none ↦ none
                  | some ips ↦ load Str-discrete email info.bucket_hub
                ])))
  unfolding get_online_device
  report_resets email here =
      let cleared = clear_idle info.bucket_hub info in
      let parts = clear_idle-online info.bucket_hub info in
      let s = drain_online cleared.user_online_ip [] cleared in
      let drained = drain_online-hub cleared.user_online_ip [] cleared in
      rw (here, get_online_device)
        (
          ap inl (drain_online-listing cleared.user_online_ip [] cleared ∙ ap listing parts.0),
          (
            s.0,
            load-store_self Str-discrete tag s.0 l.inbound_info,
            drained.1 ∙ parts.1,
            drain_online_reset email cleared.user_online_ip [] cleared (present _),
            ap (load Str-discrete email) drained.0 ∙ clear_idle_hub email info,
          ),
        )

-- ===== src/Clients/Proxypanel/Limits.antt =====
-- The device limit that a client takes from its node, and keeps.
use oldxr.Base.{
  ◌≡◌, ◌≢◌, refl, sym, ◌∙◌, ◌⊎◌, inl, inr, Option, none, some, List, [], ◌∷◌, arith, Option-cases,
  Sum-cases,
}
use oldxr.Base.Int.{ℤ, pos}
use oldxr.Base.Text.{Str, bytes}
use oldxr.Api.{NodeInfo}
use oldxr.Clients.{Answer, ApiError, SpeedOps}
use oldxr.Clients.Proxypanel.{
  Response, Request, DecodeOps, ApiClient, decoded, path_of, parse_response, no_body,
  take_client_limit, v2ray_node, ss_node, trojan_node, fetch, parse_node, get_node_info,
}

module _ {F P W : Type 0} (speed : SpeedOps F) (decode : DecodeOps W) where
  take_client_limit-keeps :
      (k : ℤ) (c : ApiClient F P)
      → c.device_limit ≢ pos 0
      → (take_client_limit speed k c).device_limit ≡ c.device_limit
  unfolding take_client_limit
  take_client_limit-keeps k c some_limit = ground (arith, some_limit)

  decoded-keeps :
      {A : Type 0} (to_node : A → ApiClient F P → ApiClient F P × NodeInfo) (o : Option A)
      (c c' : ApiClient F P) (node : NodeInfo)
      → ((n : A) → (to_node n c).0.device_limit ≡ c.device_limit)
      → decoded speed to_node o c ≡ inl (c', node)
      → c'.device_limit ≡ c.device_limit
  decoded-keeps to_node none c c' node keeps parsed = absurd (ground (arith, parsed))
  decoded-keeps to_node (some n) c c' node keeps parsed = ground (arith, parsed, keeps n)

  parse_node-keeps :
      (panel : Request → Answer (Response W)) (c c' : ApiClient F P) (w : W) (node : NodeInfo)
      → c.device_limit ≢ pos 0
      → parse_node speed decode panel c w ≡ inl (c', node)
      → c'.device_limit ≡ c.device_limit
  unfolding parse_node v2ray_node ss_node trojan_node
  parse_node-keeps panel c c' w node some_limit parsed =
      let keeps : (k : ℤ) → (take_client_limit speed k c).device_limit ≡ c.device_limit =
        λ k. take_client_limit-keeps k c some_limit in
      ground (
        arith,
        parsed,
        decoded-keeps (v2ray_node speed) (decode.to_v2ray w) c c' node (λ n. keeps n.client_limit),
        decoded-keeps (trojan_node speed) (decode.to_trojan w) c c' node
            (λ n. keeps n.client_limit),
        decoded-keeps (ss_node speed) (decode.to_shadowsocks w) c c' node
            (λ n. keeps n.client_limit),
      )

  fetched :
      {A : Type 0} (panel : Request → Answer (Response W)) (resource : Str) (c : ApiClient F P)
      (go_on : W → A ⊎ ApiError) (a : A)
      → fetch panel resource c go_on ≡ inl a
      → (w : W) × (go_on w ≡ inl a)
  unfolding fetch
  fetched panel resource c go_on a h = elim (Option-cases (path_of resource c)) [
    | inl e ↦ absurd (ground (arith, e, h))
    | inr (path, e) ↦
        let request : Request = record { path = path; body = no_body } in
        elim (Sum-cases (parse_response (panel request))) [
          | inr (err, f) ↦ absurd (ground (arith, e, f, h))
          | inl (response, f) ↦ (response.data_json, ground (arith, e, f, h))
        ]
  ]

  -- Whatever the panel answers.
  get_node_info-keeps :
      (panel : Request → Answer (Response W)) (c : ApiClient F P)
      → c.device_limit ≢ pos 0
      → (get_node_info speed decode panel c).0.device_limit ≡ c.device_limit
  unfolding get_node_info
  get_node_info-keeps panel c some_limit =
      elim (Sum-cases (fetch panel (bytes "node") c (parse_node speed decode panel c))) [
        | inr (e, failed) ↦ ground (arith, failed)
        | inl ((c', node), parsed) ↦
            let (w, done) =
              fetched panel (bytes "node") c (parse_node speed decode panel c) _ parsed in
            ground (arith, parsed, parse_node-keeps panel c c' w node some_limit done)
      ]

  -- The state after a poll of the node for each of the panels.
  abbrev pub polls : List (Request → Answer (Response W)) → ApiClient F P → ApiClient F P
  polls [] c = c
  polls (panel ∷ panels) c = polls panels (get_node_info speed decode panel c).0

  -- Once the client has a device limit, its own or one that it has taken from the node, it has this
  -- one after any polls, whatever limits the panel answers with.
  pub device_limit_stays :
      (panels : List (Request → Answer (Response W))) (c : ApiClient F P)
      → c.device_limit ≢ pos 0
      → (polls panels c).device_limit ≡ c.device_limit
  device_limit_stays [] c some_limit = refl
  device_limit_stays (panel ∷ panels) c some_limit =
      let kept = get_node_info-keeps panel c some_limit in
      let c' = (get_node_info speed decode panel c).0 in
      device_limit_stays panels c' (λ e. some_limit (sym kept ∙ e)) ∙ kept

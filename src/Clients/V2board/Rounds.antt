-- ===== src/Clients/V2board/Rounds.antt =====
-- A round for Shadowsocks: one request serves the node and the user list.
use oldxr.Base.{
  ◌≡◌, refl, sym, ap, ◌∙◌, subst, inl, inr, true, false, ◌⊎◌, none, some, List, [], ◌∷◌, arith,
  Option-cases, Sum-cases, ℕ_discrete,
}
use oldxr.Base.Text.{Str, Str-discrete, text_eq}
use oldxr.Api.{UserInfo, NodeInfo}
use oldxr.Clients.{
  ApiError, users_no_change, Request, Reply, transport_error, response, JsonOps, SpeedOps,
}
use oldxr.Clients.V2board.{
  ApiClient, UserListFetch, user_path, user_request, take_reply, shadowsocks,
  fetch_user_list_locked, publish, get_user_list,
}
use oldxr.Clients.V2board.Nodes.{
  build_or_reuse_ss_node_response, fetch_ss_node_response, get_node_info,
}

text_eq_refl : (s : Str) → text_eq s s ≡ true
text_eq_refl s = ground arith

-- The list that came with the node, or that it has not changed.
abbrev pub Delivers : UserListFetch → List UserInfo ⊎ ApiError → Type 0
Delivers f answer =
    (f.unchanged ≡ false → answer ≡ inl f.users)
    × (f.unchanged ≡ true → answer ≡ inr users_no_change)

publish-Delivers : (f : UserListFetch) → Delivers f (publish f)
publish-Delivers f = (λ new. ground (arith, new), λ old. ground (arith, old))

-- The list is given out and waits no longer.
abbrev pub TakesPending :
    {J F P : Type 0}
    → UserListFetch
    → ApiClient J F P
    → ApiClient J F P × (List UserInfo ⊎ ApiError)
    → Type 0
TakesPending f c answer = (answer.0 ≡ record c { ss_pending = none }) × Delivers f answer.1

module _ {J F P : Type 0} (json : JsonOps J) (speed : SpeedOps F) where
  -- What a node is made from: the first user, or for an empty list the last node.
  abbrev pub MadeFrom : ApiClient J F P → List UserInfo → NodeInfo → Type 0
  MadeFrom c [] node = c.last_ss_node_info ≡ some node
  MadeFrom c (u ∷ us) node = (node.port ≡ u.port) × (node.cypher_method ≡ u.method)

  build_or_reuse-MadeFrom :
      (c : ApiClient J F P) (users : List UserInfo) (node : NodeInfo)
      → (build_or_reuse_ss_node_response c users).1 ≡ inl node
      → MadeFrom c users node
  unfolding build_or_reuse_ss_node_response
  build_or_reuse-MadeFrom c [] node h = ground arith
  build_or_reuse-MadeFrom c (u ∷ us) node h = ground arith

  take_reply_keeps :
      (c : ApiClient J F P) (reply : Reply)
      → let c' = (take_reply json speed c reply).0 in
        (c'.last_ss_node_info ≡ c.last_ss_node_info) × (c'.node_type ≡ c.node_type)
  unfolding take_reply
  take_reply_keeps c transport_error = (refl, refl)
  take_reply_keeps c (response status etag body) = (ground arith, ground arith)

  fetch_user_list_locked_keeps :
      (panel : Request → Reply) (c : ApiClient J F P)
      → let c' = (fetch_user_list_locked json speed panel c).0 in
        (c'.last_ss_node_info ≡ c.last_ss_node_info) × (c'.node_type ≡ c.node_type)
  unfolding fetch_user_list_locked
  fetch_user_list_locked_keeps panel c = elim (Option-cases (user_path c.node_type)) [
    | inl e ↦ (ground arith, ground arith)
    | inr (path, e) ↦
        let request = user_request json speed path c in
        ground (arith, take_reply_keeps c (panel request))
  ]

  build_or_reuse_keeps :
      (c : ApiClient J F P) (users : List UserInfo)
      → (build_or_reuse_ss_node_response c users).0.node_type ≡ c.node_type
  unfolding build_or_reuse_ss_node_response
  build_or_reuse_keeps c users = ground arith

  MadeFrom-stored :
      (c c' : ApiClient J F P) (users : List UserInfo) (node : NodeInfo)
      → c'.last_ss_node_info ≡ c.last_ss_node_info
      → MadeFrom c' users node
      → MadeFrom c users node
  MadeFrom-stored c c' [] node same h = sym same ∙ h
  MadeFrom-stored c c' (u ∷ us) node same h = h

  -- What a successful fetch of the node leaves: the list that it was made from, for later.
  record Pending (panel : Request → Reply) (c : ApiClient J F P) (node : NodeInfo) : Type 0 where
    c' : ApiClient J F P
    fetched : UserListFetch
    answered : fetch_ss_node_response json speed panel c ≡ (c', inl node)
    got : (fetch_user_list_locked json speed panel c).1 ≡ inl fetched
    made : MadeFrom c fetched.users node
    kind : c'.node_type ≡ c.node_type
    waits : c'.ss_pending ≡ some fetched

  fetch_ss-Pending :
      (panel : Request → Reply) (c : ApiClient J F P) (node : NodeInfo)
      → (fetch_ss_node_response json speed panel c).1 ≡ inl node
      → Pending panel c node
  unfolding fetch_ss_node_response
  fetch_ss-Pending panel c node h =
      let c1 = (fetch_user_list_locked json speed panel c).0 in
      let kept = fetch_user_list_locked_keeps panel c in
      elim (Sum-cases (fetch_user_list_locked json speed panel c).1) [
        | inr (e, failed) ↦ absurd (ground arith)
        | inl (f, got) ↦
            let c2 = (build_or_reuse_ss_node_response c1 f.users).0 in
            let built : (build_or_reuse_ss_node_response c1 f.users).1 ≡ inl node = ground arith in
            record {
              c' = record c2 { ss_pending = some f };
              fetched = f;
              answered = ground arith;
              got = got;
              made =
                  MadeFrom-stored c c1 f.users node kept.0
                    (build_or_reuse-MadeFrom c1 f.users node built);
              kind = build_or_reuse_keeps c1 f.users ∙ kept.1;
              waits = refl;
            }
      ]

  shadowsocks_only :
      (panel : Request → Reply) (c : ApiClient J F P)
      → c.node_type ≡ shadowsocks
      → get_node_info json speed panel c ≡ fetch_ss_node_response json speed panel c
  unfolding get_node_info Str-discrete ℕ_discrete
  shadowsocks_only panel c ss = rw (ss, get_node_info) refl

  take_pending :
      (panel : Request → Reply) (c : ApiClient J F P) (f : UserListFetch)
      → c.ss_pending ≡ some f
      → text_eq c.node_type shadowsocks ≡ true
      → TakesPending f c (get_user_list json speed panel c)
  unfolding get_user_list
  take_pending panel c f waits ss =
      let taken : get_user_list json speed panel c ≡ (record c { ss_pending = none }, publish f) =
        ground arith in
      subst (TakesPending f c) (sym taken) (refl, publish-Delivers f)

  -- For Shadowsocks, when the node has been fetched, the next call for the user list makes no
  -- request, whatever the panel would answer: it gives the list that came with the node, or that
  -- nothing has changed if that was not new, and the node's port and cipher are those of the list's first user, or of the last node
  -- where the list is empty.
  pub round_agrees :
      (panel later : Request → Reply) (c : ApiClient J F P) (node : NodeInfo)
      → c.node_type ≡ shadowsocks
      → (get_node_info json speed panel c).1 ≡ inl node
      → let c' = (get_node_info json speed panel c).0 in
        (f : UserListFetch) × ((fetch_user_list_locked json speed panel c).1 ≡ inl f)
        × MadeFrom c f.users node
        × TakesPending f c' (get_user_list json speed later c')
  round_agrees panel later c node ss h =
      let only = shadowsocks_only panel c ss in
      let p = fetch_ss-Pending panel c node (ap (λ r. r.1) (sym only) ∙ h) in
      let here : (get_node_info json speed panel c).0 ≡ p.c' = ap (λ r. r.0) (only ∙ p.answered) in
      let kind = ap (λ s. text_eq s shadowsocks) (p.kind ∙ ss) ∙ text_eq_refl shadowsocks in
      (
        p.fetched,
        p.got,
        p.made,
        subst (λ x. TakesPending p.fetched x (get_user_list json speed later x)) (sym here)
            (take_pending later p.c' p.fetched p.waits kind),
      )

-- ===== src/Clients/V2board/Polling.antt =====
-- A poll with an ETag is as good as a full download.
use oldxr.Base.{
  ℕ, zero, suc, ◌≡◌, refl, sym, ap, ◌∙◌, ◌≢◌, ◌⊎◌, inl, inr, true, false, Option, none, some, List,
  [], length, arith, Option-cases, subst,
}
use oldxr.Base.Text.{Str, bytes}
use oldxr.Api.{UserInfo}
use oldxr.Clients.{
  Request, Reply, transport_error, response, ApiError, JsonOps, SpeedOps, parse_response,
}
use oldxr.Clients.V2board.{
  ApiClient, UserListFetch, user_path, user_request, decode_users, decode_user_list, take_reply,
  fetch_user_list_locked,
}

-- A panel that holds a version answers with it, or, to a request that names its ETag, that it is
-- not modified.
abbrev pub Serves : Str → Str → (Request → Reply) → Type 0
Serves tag body panel =
    (request : Request)
    → (panel request ≡ response 200 tag body)
      ⊎ ((request.if_none_match ≡ some tag)
          × ((t : Str) × ((b : Str) × (panel request ≡ response 304 t b))))

module _ {J F P : Type 0} (json : JsonOps J) (speed : SpeedOps F) where
  -- The users in a body.
  abbrev pub download : ApiClient J F P → Str → Option (List UserInfo)
  download c body = elim (json.new_json body) [
    | none ↦ none
    | some j ↦ some (decode_user_list json speed c j)
  ]

  -- The cached list is that of the version whose ETag the client holds; `content` is the body of a
  -- version.
  abbrev pub IsFresh : (Str → Str) → ApiClient J F P → Type 0
  IsFresh content c =
      (c.user_etag ≡ [])
      ⊎ ((users : List UserInfo) × (c.last_user_list ≡ some users)
          × (download c (content c.user_etag) ≡ some users))

  decode_users_stored :
      (c : ApiClient J F P) (tag : Str) (users : Option (List UserInfo)) (items : J) (i n : ℕ)
      → decode_users json speed (record c { user_etag = tag; last_user_list = users }) items i n
        ≡ decode_users json speed c items i n
  unfolding decode_users
  decode_users_stored c tag users items i zero = refl
  decode_users_stored c tag users items i (suc n) =
      ground (arith, decode_users_stored c tag users items (suc i) n)

  download_stored :
      (c : ApiClient J F P) (tag body : Str) (users : Option (List UserInfo))
      → download (record c { user_etag = tag; last_user_list = users }) body ≡ download c body
  unfolding decode_user_list
  download_stored c tag body users = elim (Option-cases (json.new_json body)) [
    | inl e ↦ ground arith
    | inr (j, e) ↦
        let items = json.get (bytes "data") j in
        ground (arith, decode_users_stored c tag users items 0 (length (json.must_array items)))
  ]

  -- The list of a version, after a poll: new, or said to be unchanged, and then it is the list that
  -- the client had.
  abbrev pub Polled :
      ApiClient J F P → List UserInfo → ApiClient J F P × (UserListFetch ⊎ ApiError) → Type 0
  Polled c users (c', answer) =
      (c'.last_user_list ≡ some users)
      × ((answer ≡ inl (record { users = users; unchanged = false }))
          ⊎ ((answer ≡ inl (record { users = users; unchanged = true }))
              × (c' ≡ c)
              × (c.last_user_list ≡ some users)))

  take_reply_failed :
      (c : ApiClient J F P) (reply : Reply) (e : ApiError)
      → (take_reply json speed c reply).1 ≡ inr e
      → (take_reply json speed c reply).0 ≡ c
  unfolding take_reply
  take_reply_failed c transport_error e failed = refl
  take_reply_failed c (response status etag body) e failed = ground arith

  module _ (content : Str → Str) (c : ApiClient J F P) where
    take_reply_full :
        (tag body : Str) (users : List UserInfo)
        → (tag ≡ []) ⊎ (content tag ≡ body)
        → download c body ≡ some users
        → Polled c users (take_reply json speed c (response 200 tag body))
          × IsFresh content (take_reply json speed c (response 200 tag body)).0
    unfolding take_reply parse_response
    take_reply_full tag body users known full = elim (Option-cases (json.new_json body)) [
      | inl e ↦ absurd (ground (arith, full))
      | inr (j, e) ↦
          let got : decode_user_list json speed c j ≡ users = ground (arith, full) in
          let stored = download_stored c tag body (some users) in
          (
            (ground (arith, got), inl (ground (arith, got))),
            elim known [
              | inl none_given ↦ inl (ground arith)
              | inr current ↦
                  inr (users, ground (arith, got), ground (arith, got, stored, full, current))
            ],
          )
    ]

    take_reply_not_modified :
        (t b : Str) (users : List UserInfo)
        → c.last_user_list ≡ some users
        → Polled c users (take_reply json speed c (response 304 t b))
          × ((take_reply json speed c (response 304 t b)).0 ≡ c)
    unfolding take_reply
    take_reply_not_modified t b users held =
        ((ground arith, inr (ground arith, ground arith, held)), ground arith)

    request_tag :
        (path tag : Str)
        → (user_request json speed path c).if_none_match ≡ some tag
        → (c.user_etag ≡ tag) × (tag ≢ [])
    unfolding user_request
    request_tag path tag h = (ground arith, λ e. ground arith)

    fetched :
        (panel : Request → Reply) (path : Str) (reply : Reply)
        → user_path c.node_type ≡ some path
        → panel (user_request json speed path c) ≡ reply
        → fetch_user_list_locked json speed panel c ≡ take_reply json speed c reply
    unfolding fetch_user_list_locked
    fetched panel path reply here answer = ground arith

    -- A poll of a panel that holds a version, by a client whose cached list is that of the version
    -- whose ETag it holds: the client then holds the list of the panel's version, as after a full
    -- download, and so again for the next poll. The answer is that list, and it is said to be
    -- unchanged only if the client held it before.
    pub fetch_user_list_locked-Polled :
        (panel : Request → Reply) (path tag body : Str) (users : List UserInfo)
        → user_path c.node_type ≡ some path
        → Serves tag body panel
        → (tag ≡ []) ⊎ (content tag ≡ body)
        → download c body ≡ some users
        → IsFresh content c
        → Polled c users (fetch_user_list_locked json speed panel c)
          × IsFresh content (fetch_user_list_locked json speed panel c).0
    fetch_user_list_locked-Polled panel path tag body users here serves known full fresh =
        elim (serves (user_request json speed path c)) [
          | inl answer ↦
              subst (λ r. Polled c users r × IsFresh content r.0)
                (sym (fetched panel path _ here answer)) (take_reply_full tag body users known full)
          | inr (named, (t, (b, answer))) ↦
              let (mine, given) = request_tag path tag named in
              elim fresh [
                | inl nothing ↦ absurd (given (sym mine ∙ nothing))
                | inr (old, held, old_full) ↦
                    let same : old ≡ users = elim known [
                      | inl nothing ↦ absurd (given nothing)
                      | inr current ↦ ground (arith, mine, current, old_full, full)
                    ] in
                    let (polled, kept) = take_reply_not_modified t b users (held ∙ ap some same) in
                    subst (λ r. Polled c users r × IsFresh content r.0)
                      (sym (fetched panel path _ here answer))
                      (polled, subst (IsFresh content) (sym kept) (inr (old, held, old_full)))
              ]
        ]

  -- A poll that fails, by whatever answer, leaves the client as it was: the next one asks for no
  -- less.
  pub fetch_user_list_locked_failed :
      (panel : Request → Reply) (c : ApiClient J F P) (e : ApiError)
      → (fetch_user_list_locked json speed panel c).1 ≡ inr e
      → (fetch_user_list_locked json speed panel c).0 ≡ c
  unfolding fetch_user_list_locked
  fetch_user_list_locked_failed panel c e failed = elim (Option-cases (user_path c.node_type)) [
    | inl none_known ↦ ground arith
    | inr (path, known) ↦
        let request = user_request json speed path c in
        ground (arith, take_reply_failed c (panel request) e)
  ]

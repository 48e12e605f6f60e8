-- ===== src/Clients/NewV2board/Delivery.antt =====
-- What reaches the controller of the panel's user lists. `Serves` and `content` are those of the
-- older client: how a panel answers that holds a version, and the bodies of the versions.
use mathlib.Core.Option.{some-injective}
use oldxr.Base.{
  ℕ, ◌≡◌, refl, sym, ap, ◌∙◌, ◌≢◌, ◌⊎◌, inl, inr, true, Option, none, some, List, [], ◌∷◌, arith,
  Option-cases, subst,
}
use oldxr.Base.Text.{Str, bytes}
use oldxr.Api.{UserInfo}
use oldxr.Clients.{
  Request, Reply, response, ApiError, users_no_change, JsonOps, SpeedOps, parse_response,
}
use oldxr.Clients.V2board.Polling.{Serves}
use oldxr.Clients.NewV2board.{
  User, ApiClient, DecodeOps, is_supported, to_user_list, users_of, user_request, update_etag,
  take_reply, get_user_list,
}

module _ {J F P : Type 0} (json : JsonOps J) (decode : DecodeOps J) (speed : SpeedOps F) where
  abbrev pub download : ApiClient F P → Str → Option (List UserInfo)
  download c body = elim (json.new_json body) [
    | none ↦ none
    | some j ↦ some (users_of json decode speed c j)
  ]

  to_user_list_stored :
      (c : ApiClient F P) (tag : Str) (us : List User)
      → to_user_list speed (record c { etag = tag }) us ≡ to_user_list speed c us
  unfolding to_user_list
  to_user_list_stored c tag [] = refl
  to_user_list_stored c tag (u ∷ us) = ground (arith, to_user_list_stored c tag us)

  download_stored :
      (c : ApiClient F P) (tag body : Str)
      → download (record c { etag = tag }) body ≡ download c body
  unfolding users_of
  download_stored c tag body = elim (Option-cases (json.new_json body)) [
    | inl e ↦ ground arith
    | inr (j, e) ↦
        ground (arith, to_user_list_stored c tag (decode.to_users (json.get (bytes "users") j)))
  ]

  update_etag-etag :
      (c : ApiClient F P) (tag : Str) → tag ≢ [] → update_etag tag c ≡ record c { etag = tag }
  unfolding update_etag
  update_etag-etag c tag given = ground arith

  -- The list that was delivered last is that of the version whose ETag the client holds.
  abbrev pub IsDelivered : (Str → Str) → ApiClient F P → List UserInfo → Type 0
  IsDelivered content c delivered = (c.etag ≡ []) ⊎ (download c (content c.etag) ≡ some delivered)

  module _ (content : Str → Str) (c : ApiClient F P) (delivered : List UserInfo) where
    take_reply_full :
        (tag : Str) (users : List UserInfo)
        → tag ≢ []
        → download c (content tag) ≡ some users
        → let r = take_reply json decode speed c (response 200 tag (content tag)) in
          (r.1 ≡ inl users) × IsDelivered content r.0 users
    unfolding take_reply parse_response
    take_reply_full tag users given full =
        let stored = download_stored c tag (content tag) in
        let moved = update_etag-etag c tag given in
        elim (Option-cases (json.new_json (content tag))) [
          | inl e ↦ absurd (ground (arith, full))
          | inr (j, e) ↦
              (ground (arith, moved, stored, full), inr (ground (arith, moved, stored, full)))
        ]

    asked :
        (panel : Request → Reply) (reply : Reply)
        → is_supported c.node_type ≡ true
        → panel (user_request c) ≡ reply
        → get_user_list json decode speed panel c ≡ take_reply json decode speed c reply
    unfolding get_user_list
    asked panel reply supported answer = ground arith

    requested : (tag : Str) → (user_request c).if_none_match ≡ some tag → c.etag ≡ tag
    unfolding user_request
    requested tag h = some-injective _ _ h

    not_modified :
        (t b : Str) → take_reply json decode speed c (response 304 t b) ≡ (c, inr users_no_change)
    unfolding take_reply
    not_modified t b = refl

    -- As long as every full answer of the panel can be read: a poll delivers the list of the panel's
    -- version, or it says that there is no change and that list is the one that was delivered last.
    pub get_user_list-IsDelivered :
        (panel : Request → Reply) (tag : Str) (users : List UserInfo)
        → is_supported c.node_type ≡ true
        → Serves tag (content tag) panel
        → tag ≢ []
        → download c (content tag) ≡ some users
        → IsDelivered content c delivered
        → let (c', answer) = get_user_list json decode speed panel c in
          ((answer ≡ inl users) × IsDelivered content c' users)
          ⊎ ((answer ≡ inr users_no_change) × (delivered ≡ users) × (c' ≡ c))
    get_user_list-IsDelivered panel tag users supported serves given full fresh =
        elim (serves (user_request c)) [
          | inl answer ↦ inl (
              subst (λ r. (r.1 ≡ inl users) × IsDelivered content r.0 users)
                (sym (asked panel _ supported answer)) (take_reply_full tag users given full))
          | inr (named, (t, (b, answer))) ↦
              let same : c.etag ≡ tag = requested tag named in
              let r = asked panel _ supported answer ∙ not_modified t b in
              inr (
                ap (λ x. x.1) r,
                elim fresh [
                  | inl nothing ↦ absurd (given (sym same ∙ nothing))
                  | inr held ↦
                      some-injective _ _ (sym held ∙ ap (λ x. download c (content x)) same ∙ full)
                ],
                ap (λ x. x.0) r,
              )
        ]

  -- The ETag is kept before the body is read. So a version whose body arrives broken, or with the
  -- status of an error, is lost: the next poll names its ETag, and a panel that still holds the
  -- version answers that nothing has changed.
  pub broken_answer_loses_list :
      (c : ApiClient F P) (panel later : Request → Reply) (status : ℕ) (tag broken t b : Str)
      (e : ApiError)
      → is_supported c.node_type ≡ true
      → tag ≢ []
      → panel (user_request c) ≡ response status tag broken
      → status ≢ 304
      → parse_response json (response status tag broken) ≡ inr e
      → later (user_request (record c { etag = tag })) ≡ response 304 t b
      → let (c', first) = get_user_list json decode speed panel c in
        (first ≡ inr e) × ((get_user_list json decode speed later c').1 ≡ inr users_no_change)
  unfolding get_user_list take_reply user_request
  broken_answer_loses_list c panel later status tag broken t b e supported given answer changed
        fails again =
      ground (arith, update_etag-etag c tag given)

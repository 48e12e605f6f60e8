-- ===== src/Clients/Sspanel/Devices.antt =====
-- Which users the list keeps, and how many devices they are left.
use oldxr.Base.{
  All, Elem, length, ℕ, ◌+◌, ◌^◌, ◌≤◌, ◌<◌, ◌≡◌, ◌≢◌, ◌⊎◌, inl, inr, refl, sym, subst, ap, ◌∙◌,
  Option, none, some, List, [], ◌∷◌, arith,
}
use oldxr.Base.Int.{ℤ, pos, ℤ_discrete}
use oldxr.Api.{UserInfo, OnlineUser}
use oldxr.Clients.{Answer, ApiError, SpeedOps}
use oldxr.Clients.Sspanel.{
  UserResponse, Response, Request, DecodeOps, ApiClient, parse_response, devices_left, limit_of,
  devices_of, keep_user, user_list_request, to_user_info, parse_users, parse_user_list_response,
  get_user_list, count_online, report_node_online_users,
}
use oldxr.Clients.Sspanel.Counting.{
  entries_of, entries-le-length, report_counted, devices_left-room, devices_left-nothing,
}

-- An entry of the answer for a user of the panel's list, with a number of devices.
abbrev pub IsEntryOf : {F : Type 0} → UserResponse F → ℕ → UserInfo → Type 0
IsEntryOf u d w =
    (w.uid ≡ u.id)
    × (w.email ≡ u.email)
    × (w.uuid ≡ u.uuid)
    × (w.passwd ≡ u.passwd)
    × (w.device_limit ≡ pos d)

module _ {F P W : Type 0} (speed : SpeedOps F) (decode : DecodeOps F W)
    (panel : Request → Answer (Response W)) where
  keep_user-Elem :
      (c : ApiClient F P) (v : UserResponse F) (left : Option ℤ) (w : UserInfo)
      (rest : List UserInfo)
      → Elem w rest
      → Elem w (keep_user speed c v left rest)
  unfolding keep_user
  keep_user-Elem c v none w rest h = h
  keep_user-Elem c v (some devices) w rest h = inr h

  parse_users-Elem :
      (c : ApiClient F P) (u : UserResponse F) (devices : ℤ) (us : List (UserResponse F))
      → devices_of speed c u ≡ some devices
      → Elem u us
      → Elem (to_user_info speed c u devices) (parse_users speed c us)
  unfolding parse_users keep_user
  parse_users-Elem c u devices [] left h = h
  parse_users-Elem c u devices (v ∷ us) left (inl same) =
      let rest = parse_users speed c us in
      let kept : Elem (to_user_info speed c u devices)
          (keep_user speed c u (devices_of speed c u) rest) =
        subst (λ o. Elem (to_user_info speed c u devices) (keep_user speed c u o rest)) (sym left)
          (inl refl) in
      subst
        (λ w.
          Elem (to_user_info speed c u devices) (keep_user speed c w (devices_of speed c w) rest))
        (sym same) kept
  parse_users-Elem c u devices (v ∷ us) left (inr later) =
      keep_user-Elem c v (devices_of speed c v) _ (parse_users speed c us)
        (parse_users-Elem c u devices us left later)

  keep_user-All :
      (c : ApiClient F P) (v : UserResponse F) (left : Option ℤ) (id : ℤ) (rest : List UserInfo)
      → (left ≡ none) ⊎ (v.id ≢ id)
      → All (λ w. w.uid ≢ id) rest
      → All (λ w. w.uid ≢ id) (keep_user speed c v left rest)
  unfolding keep_user to_user_info
  keep_user-All c v none id rest h all = all
  keep_user-All c v (some devices) id rest (inl e) all = absurd (ground (arith, e))
  keep_user-All c v (some devices) id rest (inr other) all = (other, all)

  parse_users-All :
      (c : ApiClient F P) (u : UserResponse F) (us : List (UserResponse F))
      → devices_of speed c u ≡ none
      → All (λ v. v.id ≡ u.id → v ≡ u) us
      → All (λ w. w.uid ≢ u.id) (parse_users speed c us)
  unfolding parse_users
  parse_users-All c u [] left only = tt
  parse_users-All c u (v ∷ us) left (first, only) =
      let here : (devices_of speed c v ≡ none) ⊎ (v.id ≢ u.id) = elim (ℤ_discrete v.id u.id) [
        | yes same ↦ inl (ap (λ w. devices_of speed c w) (first same) ∙ left)
        | no other ↦ inr other
      ] in
      keep_user-All c v (devices_of speed c v) u.id (parse_users speed c us) here
        (parse_users-All c u us left only)

  -- The panel's list of users, where it answers with one.
  abbrev pub AnswersWith : ApiClient F P → Response W → List (UserResponse F) → Type 0
  AnswersWith c response list =
      (parse_response (panel (user_list_request c)) ≡ inl response)
      × (decode.to_users response.data_json ≡ some list)

  -- The state after a report of who is online, and the answer to the next poll.
  abbrev pub poll_after : List OnlineUser → ApiClient F P → List UserInfo ⊎ ApiError
  poll_after online c =
      (get_user_list speed decode panel (report_node_online_users panel online c).0).1

  poll_after-parsed :
      (online : List OnlineUser) (c : ApiClient F P) (response : Response W)
      (list : List (UserResponse F))
      → AnswersWith c response list
      → poll_after online c
        ≡ inl (parse_users speed (record c { last_report_online = count_online online [] }) list)
  unfolding get_user_list report_node_online_users parse_user_list_response
  poll_after-parsed online c response list (answer, decoded) = ground (arith, answer, decoded)

  polled_devices :
      (c : ApiClient F P) (online : List OnlineUser) (u : UserResponse F) (limit alive : ℕ)
      → limit_of speed c u ≡ pos limit
      → u.alive_ip ≡ pos alive
      → length online < 2 ^ 62
      → devices_of speed (record c { last_report_online = count_online online [] }) u
        ≡ devices_left (pos limit) (pos alive) (pos (entries_of u.id online))
  polled_devices c online u limit alive e-limit e-alive small =
      let counted = report_counted u.id online small in cc

  -- Let `list` be the panel's list, and let the user on it have a positive limit and some devices
  -- online, all numbers below 2 ^ 62. If the last report names devices of hers, or if there are
  -- fewer online than the limit, the poll after the report answers with a list that has her with
  -- a positive number of devices. This is the number in the report, or makes the limit full
  -- together with the devices elsewhere.
  pub reported_devices_kept :
      (c : ApiClient F P) (online : List OnlineUser) (response : Response W)
      (list : List (UserResponse F)) (u : UserResponse F) (limit alive : ℕ)
      → AnswersWith c response list
      → Elem u list
      → limit_of speed c u ≡ pos limit
      → u.alive_ip ≡ pos alive
      → limit < 2 ^ 62
      → alive < 2 ^ 62
      → length online < 2 ^ 62
      → 0 < limit
      → 0 < alive
      → (0 < entries_of u.id online) ⊎ (alive < limit)
      → (d : ℕ) × ((users : List UserInfo) × (poll_after online c ≡ inl users)
          × ((w : UserInfo) × Elem w users × IsEntryOf u d w)
          × (0 < d)
          × ((d ≡ entries_of u.id online) ⊎ (d + alive ≡ limit + entries_of u.id online)))
  unfolding to_user_info
  reported_devices_kept c online response list u limit alive answers listed e-limit e-alive small
        small' small'' some_limit some_alive room =
      let c' : ApiClient F P = record c { last_report_online = count_online online [] } in
      let here = entries_of u.id online in
      let (d, left, positive, share) =
        devices_left-room limit alive here small small'
          (omega (arith, small'', entries-le-length u.id online)) some_limit some_alive room in
      let left' : devices_of speed c' u ≡ some (pos d) =
        polled_devices c online u limit alive e-limit e-alive small'' ∙ left in
      (
        d,
        (
          parse_users speed c' list,
          poll_after-parsed online c response list answers,
          (
            to_user_info speed c' u (pos d),
            parse_users-Elem c' u (pos d) list left' listed,
            (refl, refl, refl, refl, refl),
          ),
          positive,
          share,
        ),
      )

  -- A user with a positive limit that the devices elsewhere fill, and of whom the last report names
  -- none, is not on the list of the next poll, where only this entry of the panel's list has her
  -- number.
  exhausted_user_left_out :
      (c : ApiClient F P) (online : List OnlineUser) (response : Response W)
      (list : List (UserResponse F)) (u : UserResponse F) (limit alive : ℕ)
      → AnswersWith c response list
      → All (λ v. v.id ≡ u.id → v ≡ u) list
      → limit_of speed c u ≡ pos limit
      → u.alive_ip ≡ pos alive
      → limit ≤ alive
      → alive < 2 ^ 62
      → length online < 2 ^ 62
      → 0 < limit
      → entries_of u.id online ≡ 0
      → (users : List UserInfo) × (poll_after online c ≡ inl users) × All (λ w. w.uid ≢ u.id) users
  exhausted_user_left_out c online response list u limit alive answers only e-limit e-alive full
        small small' some_limit none_here =
      let c' : ApiClient F P = record c { last_report_online = count_online online [] } in
      let left' : devices_of speed c' u ≡ none =
        polled_devices c online u limit alive e-limit e-alive small'
        ∙ ap (λ n. devices_left (pos limit) (pos alive) (pos n)) none_here
        ∙ devices_left-nothing limit alive full small some_limit in
      (
        parse_users speed c' list,
        poll_after-parsed online c response list answers,
        parse_users-All c' u list left' only,
      )

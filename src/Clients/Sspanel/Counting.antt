-- ===== src/Clients/Sspanel/Counting.antt =====
-- The counts of a report, and the devices that a poll leaves a user by them.
use oldxr.Base.{
  length, ℕ, ◌+◌, ◌-◌, ◌^◌, ◌≤◌, ◌<◌, ◌≡◌, ◌⊎◌, inl, inr, refl, ap, ◌∙◌, false, none, some, List,
  [], ◌∷◌, ite, arith, Option-cases, Bool-cases, ltb,
}
use oldxr.Base.Int.{ℤ, pos, ℤ_discrete, is_positive, add_int, sub_int}
use oldxr.Base.Dict.{Dict, load, store, load-store, load-nil}
use oldxr.Api.{OnlineUser}
use oldxr.Clients.Sspanel.{devices_left, last_online_of, one_more_online, count_online}

-- How many of the entries are a user's.
unfoldable pub entries_of : ℤ → List OnlineUser → ℕ
entries_of id [] = 0
entries_of id (u ∷ us) = ite (ℤ_discrete u.uid id) 1 0 + entries_of id us

pub entries-le-length : (id : ℤ) (us : List OnlineUser) → entries_of id us ≤ length us
unfolding entries_of
entries-le-length id [] = omega arith
entries-le-length id (u ∷ us) = ground (arith, entries-le-length id us)

one_more_online-next :
    (id : ℤ) (m : Dict ℤ ℤ) (k : ℕ)
    → k < 2 ^ 62
    → last_online_of id m ≡ pos k
    → one_more_online (load ℤ_discrete id m) ≡ pos (k + 1)
one_more_online-next id m k small h = elim (Option-cases (load ℤ_discrete id m)) [
  | inl e ↦ ground (arith, e, h)
  | inr (v, e) ↦ let same : v ≡ pos k = ground (arith, e, h) in ground (arith, e, same)
]

-- The counts of a report, after those that are there.
count_online-entries :
    (id : ℤ) (us : List OnlineUser) (m : Dict ℤ ℤ) (k : ℕ)
    → k + length us < 2 ^ 62
    → last_online_of id m ≡ pos k
    → last_online_of id (count_online us m) ≡ pos (k + entries_of id us)
unfolding count_online entries_of
count_online-entries id [] m k small h = ground (arith, h)
count_online-entries id (u ∷ us) m k small h = elim (ℤ_discrete u.uid id) [
  | no other ↦
      let count = one_more_online (load ℤ_discrete u.uid m) in
      let stored = load-store ℤ_discrete u.uid id count m in
      let kept : last_online_of id (store ℤ_discrete u.uid count m) ≡ pos k =
        ground (arith, stored, other, h) in
      ground (arith, other, count_online-entries id us _ k (omega arith) kept)
  | yes same ↦
      let count = one_more_online (load ℤ_discrete u.uid m) in
      let stored = load-store ℤ_discrete u.uid id count m in
      let next = one_more_online-next id m k (omega arith) h in
      let counted : last_online_of id (store ℤ_discrete u.uid count m) ≡ pos (k + 1) =
        ground (arith, stored, same, next) in
      ground (arith, same, count_online-entries id us _ (k + 1) (omega arith) counted)
]

pub report_counted :
    (id : ℤ) (us : List OnlineUser)
    → length us < 2 ^ 62
    → last_online_of id (count_online us []) ≡ pos (entries_of id us)
report_counted id us small =
    let nobody : last_online_of id [] ≡ pos 0 = ground (arith, load-nil {V = ℤ} ℤ_discrete id) in
    count_online-entries id us [] 0 (omega (arith, small)) nobody ∙ ap pos (omega arith)

-- The sums of a poll, which do not overflow.
local_limit-sum :
    (limit alive here : ℕ)
    → limit < 2 ^ 62
    → alive < 2 ^ 62
    → here < 2 ^ 62
    → alive ≤ limit + here
    → add_int (sub_int (pos limit) (pos alive)) (pos here) ≡ pos (limit + here - alive)
local_limit-sum limit alive here l a h enough = elim (Bool-cases (ltb limit alive)) [
  | inl e ↦ ground (arith, e)
  | inr e ↦ ground (arith, e)
]

local_limit-none :
    (limit alive here : ℕ)
    → limit < 2 ^ 62
    → alive < 2 ^ 62
    → here < 2 ^ 62
    → limit + here ≤ alive
    → is_positive (add_int (sub_int (pos limit) (pos alive)) (pos here)) ≡ false
local_limit-none limit alive here l a h short = ground arith

pub devices_left-room :
    (limit alive here : ℕ)
    → limit < 2 ^ 62
    → alive < 2 ^ 62
    → here < 2 ^ 62
    → 0 < limit
    → 0 < alive
    → (0 < here) ⊎ (alive < limit)
    → (d : ℕ) × (devices_left (pos limit) (pos alive) (pos here) ≡ some (pos d))
      × (0 < d)
      × ((d ≡ here) ⊎ (d + alive ≡ limit + here))
unfolding devices_left
devices_left-room limit alive here small small' small'' some_limit some_alive room =
    elim (Bool-cases (ltb alive (limit + here))) [
      | inl e ↦ (
        limit + here - alive,
        ground (arith, e, local_limit-sum limit alive here small small' small''),
        ground (arith, e),
        inr (ground (arith, e)),
      )
      | inr e ↦ (
        here,
        ground (arith, e, room, local_limit-none limit alive here small small' small''),
        ground (arith, e, room),
        inl refl,
      )
    ]

pub devices_left-nothing :
    (limit alive : ℕ)
    → limit ≤ alive
    → alive < 2 ^ 62
    → 0 < limit
    → devices_left (pos limit) (pos alive) (pos 0) ≡ none
unfolding devices_left
devices_left-nothing limit alive full small some_limit = ground arith

-- ===== src/Clients/NewV2board/Reports.antt =====
-- The values that the client computes: speeds, and the map of a traffic report.
use oldxr.Base.{
  ℕ, zero, suc, ◌*◌, ◌^◌, ◌<◌, ◌≡◌, refl, Option, none, some, List, [], ◌∷◌, get_elem?, arith, inl,
  inr, ite, ◌⊎◌, Option-cases,
}
use oldxr.Base.Int.{ℤ, pos, ℤ_discrete}
use oldxr.Base.Dict.{Dict, load, store, load-store, load-nil}
use oldxr.Api.{UserTraffic}
use oldxr.Traffic.Entries.{position, position-entry, IsOncePerUser}
use oldxr.Clients.NewV2board.{bps_of_int, push_data}

-- A limit of less than 9223372036855 Mbps is turned into bytes per second without wrapping.
pub bps_of_int-mul : (n : ℕ) → n * 1000000 < 2 ^ 63 → bps_of_int (pos n) ≡ n * 125000
unfolding bps_of_int
bps_of_int-mul n h = ground arith

entry_of : ℤ → List UserTraffic → Option (ℕ × ℕ)
entry_of uid [] = none
entry_of uid (t ∷ ts) = ite (ℤ_discrete t.uid uid) (some (t.upload, t.download)) (entry_of uid ts)

entry_of_absent :
    (uid : ℤ) (ts : List UserTraffic) → position uid ts ≡ none → entry_of uid ts ≡ none
unfolding entry_of position
entry_of_absent uid [] h = refl
entry_of_absent uid (t ∷ ts) h = ground (arith, entry_of_absent uid ts)

entry_of-get :
    (uid : ℤ) (ts : List UserTraffic) (p : ℕ) (t : UserTraffic)
    → position uid ts ≡ some p
    → get_elem? ts p ≡ some t
    → entry_of uid ts ≡ some (t.upload, t.download)
unfolding entry_of position
entry_of-get uid [] p t h at = absurd (ground arith)
entry_of-get uid (x ∷ ts) zero t h at = ground arith
entry_of-get uid (x ∷ ts) (suc p) t h at = ground (arith, entry_of-get uid ts p t)

load-push_data :
    (uid : ℤ) (ts : List UserTraffic) (m : Dict ℤ (ℕ × ℕ))
    → IsOncePerUser ts
    → load ℤ_discrete uid (push_data ts m)
      ≡ (elim (entry_of uid ts) [ some e ↦ some e | none ↦ load ℤ_discrete uid m ])
unfolding push_data entry_of IsOncePerUser
load-push_data uid [] m once = refl
load-push_data uid (t ∷ ts) m once =
    let e : ℕ × ℕ = (t.upload, t.download) in
    ground (
      arith,
      load-push_data uid ts (store ℤ_discrete t.uid e m) once.1,
      load-store ℤ_discrete t.uid uid e m,
      entry_of_absent uid ts,
      once.0,
    )

-- Of a report with one entry for each user nothing is lost on the way: the map that is pushed has
-- for a user in the report the upload and download of the user's entry, and no other users.
pub push_data-entry :
    (uid : ℤ) (ts : List UserTraffic)
    → IsOncePerUser ts
    → ((position uid ts ≡ none) × (load ℤ_discrete uid (push_data ts []) ≡ none))
      ⊎ ((p : ℕ) × ((t : UserTraffic) × (position uid ts ≡ some p)
            × (get_elem? ts p ≡ some t)
            × (load ℤ_discrete uid (push_data ts []) ≡ some (t.upload, t.download))))
push_data-entry uid ts once =
    let pushed = load-push_data uid ts [] once in
    let nothing = load-nil {V = ℕ × ℕ} ℤ_discrete uid in
    elim (Option-cases (position uid ts)) [
      | inl absent ↦ inl (absent, ground (arith, pushed, nothing, entry_of_absent uid ts absent))
      | inr (p, present) ↦
          let (t, at, mine) = position-entry uid ts p present in
          inr (p, (t, present, at, ground (arith, pushed, entry_of-get uid ts p t present at)))
    ]

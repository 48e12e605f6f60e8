-- ===== src/Traffic/Entries.antt =====
-- The entries of a report, found by user: `appendUserTraffic` keeps one for each, and the index
-- says where.
use oldxr.Base.{
  ℕ, zero, suc, ◌≡◌, refl, Option, none, some, List, [], ◌∷◌, ◌++◌, ite, arith, length, get_elem?,
  set,
}
use oldxr.Base.Int.{ℤ, ℤ_discrete}
use oldxr.Api.{UserTraffic}

-- Where the first entry of a user is.
unfoldable pub position : ℤ → List UserTraffic → Option ℕ
position uid [] = none
position uid (e ∷ t) =
    ite (ℤ_discrete e.uid uid) (some 0)
      (elim (position uid t) [ none ↦ none | some p ↦ some (suc p) ])

-- A field of the first entry of a user, 0 without an entry.
unfoldable pub field_of : (UserTraffic → ℕ) → ℤ → List UserTraffic → ℕ
field_of f uid [] = 0
field_of f uid (e ∷ t) = ite (ℤ_discrete e.uid uid) (f e) (field_of f uid t)

pub position-append :
    (uid : ℤ) (t : List UserTraffic) (e : UserTraffic)
    → position uid (t ++ e ∷ []) ≡ (elim (position uid t) [
      | some p ↦ some p
      | none ↦ ite (ℤ_discrete e.uid uid) (some (length t)) none
    ])
unfolding position
position-append uid [] e = ground arith
position-append uid (x ∷ t) e = ground (arith, position-append uid t e)

pub position-entry :
    (uid : ℤ) (t : List UserTraffic) (p : ℕ)
    → position uid t ≡ some p
    → (e : UserTraffic) × (get_elem? t p ≡ some e) × (e.uid ≡ uid)
unfolding position
position-entry uid [] p h = absurd (ground arith)
position-entry uid (x ∷ t) zero h = (x, refl, ground arith)
position-entry uid (x ∷ t) (suc p) h = position-entry uid t p (ground arith)

pub position-set :
    (uid : ℤ) (t : List UserTraffic) (p : ℕ) (e e' : UserTraffic)
    → get_elem? t p ≡ some e
    → e'.uid ≡ e.uid
    → position uid (set t p e') ≡ position uid t
unfolding position
position-set uid [] p e e' h same = refl
position-set uid (x ∷ t) zero e e' h same = ground arith
position-set uid (x ∷ t) (suc p) e e' h same = ground (arith, position-set uid t p e e')

module _ (f : UserTraffic → ℕ) where
  pub field_of-append :
      (uid : ℤ) (t : List UserTraffic) (e : UserTraffic)
      → field_of f uid (t ++ e ∷ []) ≡ (elim (position uid t) [
        | some p ↦ field_of f uid t
        | none ↦ ite (ℤ_discrete e.uid uid) (f e) 0
      ])
  unfolding field_of position
  field_of-append uid [] e = ground arith
  field_of-append uid (x ∷ t) e = ground (arith, field_of-append uid t e)

  pub field_of_absent :
      (uid : ℤ) (t : List UserTraffic) → position uid t ≡ none → field_of f uid t ≡ 0
  unfolding field_of position
  field_of_absent uid [] h = refl
  field_of_absent uid (x ∷ t) h = ground (arith, field_of_absent uid t)

  pub field_of_present :
      (uid : ℤ) (t : List UserTraffic) (p : ℕ) (e : UserTraffic)
      → position uid t ≡ some p
      → get_elem? t p ≡ some e
      → field_of f uid t ≡ f e
  unfolding field_of position
  field_of_present uid [] p e h at = absurd (ground arith)
  field_of_present uid (x ∷ t) zero e h at = ground arith
  field_of_present uid (x ∷ t) (suc p) e h at = ground (arith, field_of_present uid t p e)

  pub field_of-set :
      (v uid : ℤ) (t : List UserTraffic) (p : ℕ) (e' : UserTraffic)
      → position v t ≡ some p
      → e'.uid ≡ v
      → field_of f uid (set t p e') ≡ ite (ℤ_discrete v uid) (f e') (field_of f uid t)
  unfolding field_of position
  field_of-set v uid [] p e' h same = absurd (ground arith)
  field_of-set v uid (x ∷ t) zero e' h same = ground arith
  field_of-set v uid (x ∷ t) (suc p) e' h same = ground (arith, field_of-set v uid t p e')

-- No user has a second entry.
unfoldable pub IsOncePerUser : List UserTraffic → Type 0
IsOncePerUser [] = Unit {0}
IsOncePerUser (e ∷ t) = (position e.uid t ≡ none) × IsOncePerUser t

pub append-IsOncePerUser :
    (t : List UserTraffic) (e : UserTraffic)
    → IsOncePerUser t
    → position e.uid t ≡ none
    → IsOncePerUser (t ++ e ∷ [])
unfolding IsOncePerUser position
append-IsOncePerUser [] e once absent = (refl, tt)
append-IsOncePerUser (x ∷ t) e once absent = (
  ground (arith, position-append x.uid t e, once.0),
  append-IsOncePerUser t e once.1 (ground arith),
)

pub set-IsOncePerUser :
    (t : List UserTraffic) (p : ℕ) (e e' : UserTraffic)
    → get_elem? t p ≡ some e
    → e'.uid ≡ e.uid
    → IsOncePerUser t
    → IsOncePerUser (set t p e')
unfolding IsOncePerUser
set-IsOncePerUser [] p e e' h same once = once
set-IsOncePerUser (x ∷ t) zero e e' h same once = (ground (arith, once.0), once.1)
set-IsOncePerUser (x ∷ t) (suc p) e e' h same once =
    (ground (arith, position-set x.uid t p e e', once.0), set-IsOncePerUser t p e e' h same once.1)

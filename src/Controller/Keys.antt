-- ===== src/Controller/Keys.antt =====
-- The users of a list under the keys that the limiter, the registry and the server know them by,
-- and what `compareUserList` selects, told by those keys.
use oldxr.Base.{
  ◌≡◌, refl, Option, none, some, List, [], ◌∷◌, ◌++◌, ite, arith, Option-cases, inl, inr, All,
}
use oldxr.Base.Int.{ℤ}
use oldxr.Base.Text.{Str, Str-discrete}
use oldxr.Api.{UserInfo}
use oldxr.Base.Text.Decimal.{IsInt64}
use oldxr.Limiter.Keys.{format_user_key_injective}
use oldxr.Limiter.Users.{key_of}
use oldxr.Users.Selected.{find_last}
use oldxr.Users.Applied.{IsDistinct}

-- A list as the panel means it: the numbers are int64, and no number comes twice.
pub record IsUserList (us : List UserInfo) : Type 0 where
  pub distinct : IsDistinct us
  pub bounded : All (λ u. IsInt64 u.uid) us

module _ (tag : Str) where
  -- The last user under a key.
  unfoldable pub find_key : Str → List UserInfo → Option UserInfo
  find_key email [] = none
  find_key email (u ∷ us) = elim (find_key email us) [
    | some v ↦ some v
    | none ↦ ite (Str-discrete (key_of tag u) email) (some u) none
  ]

  pub find_key-append :
      (email : Str) (xs ys : List UserInfo)
      → find_key email (xs ++ ys)
        ≡ (elim (find_key email ys) [ some v ↦ some v | none ↦ find_key email xs ])
  unfolding find_key
  find_key-append email [] ys = ground arith
  find_key-append email (x ∷ xs) ys = ground (arith, find_key-append email xs ys)

  pub same_key :
      (u v : UserInfo) → IsInt64 u.uid → IsInt64 v.uid → key_of tag u ≡ key_of tag v → u.uid ≡ v.uid
  same_key u v b b' e = (format_user_key_injective tag u.email v.email u.uid v.uid b b' e).1

  pub find_key_absent :
      (u : UserInfo) (us : List UserInfo)
      → IsInt64 u.uid
      → All (λ v. IsInt64 v.uid) us
      → find_last u.uid us ≡ none
      → find_key (key_of tag u) us ≡ none
  unfolding find_key find_last
  find_key_absent u [] b bs h = refl
  find_key_absent u (v ∷ us) b bs h =
      ground (arith, find_key_absent u us b bs.1, same_key v u bs.0 b)

  pub find_key-key :
      (email : Str) (us : List UserInfo) (u : UserInfo)
      → find_key email us ≡ some u
      → key_of tag u ≡ email
  unfolding find_key
  find_key-key email [] u h = absurd (ground arith)
  find_key-key email (v ∷ us) u h = ground (arith, find_key-key email us u)

  pub find_last_bounded :
      (uid : ℤ) (us : List UserInfo) (u : UserInfo)
      → All (λ v. IsInt64 v.uid) us
      → find_last uid us ≡ some u
      → IsInt64 u.uid
  unfolding find_last
  find_last_bounded uid [] u b h = absurd (ground arith)
  find_last_bounded uid (v ∷ us) u b h = elim (Option-cases (find_last uid us)) [
    | inl e ↦ ground (arith, b.0)
    | inr (w, e) ↦ ground (arith, find_last_bounded uid us w b.1)
  ]

  -- A user found by number is found under its key, and the other way round.
  pub find_last-key :
      (uid : ℤ) (us : List UserInfo) (u : UserInfo)
      → IsUserList us
      → find_last uid us ≡ some u
      → find_key (key_of tag u) us ≡ some u
  unfolding find_key find_last IsDistinct
  find_last-key uid [] u l h = absurd (ground arith)
  find_last-key uid (v ∷ us) u l h =
      let rest : IsUserList us = record { distinct = l.distinct.1; bounded = l.bounded.1 } in
      ground (
        arith,
        find_last-key uid us u rest,
        find_key_absent v us l.bounded.0 l.bounded.1 l.distinct.0,
      )

  pub find_key-uid :
      (email : Str) (us : List UserInfo) (u : UserInfo)
      → IsUserList us
      → find_key email us ≡ some u
      → find_last u.uid us ≡ some u
  unfolding find_key find_last IsDistinct
  find_key-uid email [] u l h = absurd (ground arith)
  find_key-uid email (v ∷ us) u l h =
      let rest : IsUserList us = record { distinct = l.distinct.1; bounded = l.bounded.1 } in
      ground (arith, find_key-uid email us u rest, l.distinct.0)

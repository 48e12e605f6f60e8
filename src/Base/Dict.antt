-- ===== src/Base/Dict.antt =====
-- A Go map, or a sync.Map, as an association list: at most one entry for a key, in an order
-- that the program may not rely on.
use Prim.Native.Nat.{◌+◌}
use mathlib.Core.Path.{◌≡◌, refl}
use mathlib.Core.Logic.{◌≢◌, ite}
use mathlib.Core.List.{List, [], ◌∷◌}
use mathlib.Core.Option.{Option, none, some}
use native.Mathlib.Omega.{arith}
use oldxr.Base.Lists.{length}

abbrev pub Dict {ℓ} : Type ℓ → Type ℓ → Type ℓ
Dict K V = List (K × V)

module _ {ℓ} {K V : Type ℓ} (dec : Discrete K) where
  unfoldable pub load : K → Dict K V → Option V
  load k [] = none
  load k ((j, v) ∷ m) = ite (dec j k) (some v) (load k m)

  unfoldable pub store : K → V → Dict K V → Dict K V
  store k v [] = (k, v) ∷ []
  store k v ((j, w) ∷ m) = ite (dec j k) ((j, v) ∷ m) ((j, w) ∷ store k v m)

  unfoldable pub delete : K → Dict K V → Dict K V
  delete k [] = []
  delete k ((j, w) ∷ m) = ite (dec j k) (delete k m) ((j, w) ∷ delete k m)

  pub load-nil : (k : K) → load k [] ≡ none
  unfolding load
  load-nil k = refl

  pub load-store_self : (k : K) (v : V) (m : Dict K V) → load k (store k v m) ≡ some v
  unfolding load store
  load-store_self k v [] = ground arith
  load-store_self k v ((j, w) ∷ m) = ground (arith, load-store_self k v m)

  pub load-store_ne : (k j : K) (v : V) (m : Dict K V) → k ≢ j → load j (store k v m) ≡ load j m
  unfolding load store
  load-store_ne k j v [] h = ground arith
  load-store_ne k j v ((i, w) ∷ m) h = ground (arith, load-store_ne k j v m)

  pub load-delete_self : (k : K) (m : Dict K V) → load k (delete k m) ≡ none
  unfolding load delete
  load-delete_self k [] = refl
  load-delete_self k ((j, w) ∷ m) = ground (arith, load-delete_self k m)

  pub load-delete_ne : (k j : K) (m : Dict K V) → k ≢ j → load j (delete k m) ≡ load j m
  unfolding load delete
  load-delete_ne k j [] h = refl
  load-delete_ne k j ((i, w) ∷ m) h = ground (arith, load-delete_ne k j m)

  -- A store adds one entry for a new key and none for an old one.
  pub length-store_new :
      (k : K) (v : V) (m : Dict K V) → load k m ≡ none → length (store k v m) ≡ length m + 1
  unfolding load store
  length-store_new k v [] h = omega arith
  length-store_new k v ((j, w) ∷ m) h = ground (arith, length-store_new k v m)

  pub length-store_old :
      (k : K) (v w : V) (m : Dict K V) → load k m ≡ some w → length (store k v m) ≡ length m
  unfolding load store
  length-store_old k v w [] h = absurd (cc)
  length-store_old k v w ((j, u) ∷ m) h = ground (arith, length-store_old k v w m)

  -- Both laws of a store as one equation.
  pub load-store :
      (k j : K) (v : V) (m : Dict K V) → load j (store k v m) ≡ ite (dec k j) (some v) (load j m)
  unfolding load store
  load-store k j v [] = refl
  load-store k j v ((i, w) ∷ m) = ground (arith, load-store k j v m)

  pub load-delete : (k j : K) (m : Dict K V) → load j (delete k m) ≡ ite (dec k j) none (load j m)
  unfolding load delete
  load-delete k j [] = ground arith
  load-delete k j ((i, w) ∷ m) = ground (arith, load-delete k j m)

  -- The entries of a map have distinct keys.
  abbrev pub Distinct : Dict K V → Type ℓ
  Distinct [] = Unit
  Distinct ((k, v) ∷ m) = (load k m ≡ none) × Distinct m

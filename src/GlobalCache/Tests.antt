-- ===== src/GlobalCache/Tests.antt =====
-- A second address under a key with a limit of one.
use oldxr.Base.{
  sym, ◌≤◌, ◌≡◌, ◌≢◌, ◌⊎◌, true, false, none, some, [], ◌∷◌, length, arith, ℕ_discrete,
}
use oldxr.Base.Int.{ℤ, pos}
use oldxr.Base.Dict.{Dict, load}
use oldxr.Base.Text.{Str, Str-discrete}
use oldxr.GlobalCache.{CodecOps, RoundTrips, LayeredGlobalIpCache, reserve_local}
use oldxr.GlobalCache.Reservation.{addresses, reserve_local-bounded}

-- Values as they are.
abbrev plain : CodecOps (Dict Str ℤ)
plain = record { marshal = λ ips. some ips; unmarshal = λ t. some t }

plain-RoundTrips : RoundTrips plain
plain-RoundTrips ips t e = sym e

abbrev c : LayeredGlobalIpCache (Dict Str ℤ)
c = record {
  local = (b'k' ∷ [], record { value = (b'h' ∷ [], pos 7) ∷ []; expires_at = some 9 }) ∷ [];
  local_expiry = pos 5;
}

one_address : length (addresses plain 4 (b'k' ∷ []) c) ≤ 1
unfolding addresses load Str-discrete ℕ_discrete
one_address = omega arith

reserve_local-bounded_example :
    let (c', answer) = reserve_local plain 4 (b'k' ∷ []) (b'w' ∷ []) (pos 7) (pos 1) c in
    (length (addresses plain 4 (b'k' ∷ []) c') ≤ 1)
    × (((answer ≡ some true)
          × (load Str-discrete (b'w' ∷ []) (addresses plain 4 (b'k' ∷ []) c') ≢ none))
        ⊎ (((answer ≡ some false)
              × (load Str-discrete (b'w' ∷ []) (addresses plain 4 (b'k' ∷ []) c) ≡ none)
              × (length (addresses plain 4 (b'k' ∷ []) c) ≡ 1))
            ⊎ (answer ≡ none)))
reserve_local-bounded_example =
    reserve_local-bounded plain plain-RoundTrips 4 (b'k' ∷ []) (b'w' ∷ []) (pos 7) 0 c one_address

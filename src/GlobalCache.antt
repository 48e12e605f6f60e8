-- ===== src/GlobalCache.antt =====
-- `reserveLocal` of common/limiter/global_cache.go, for a process without a redis client: the addresses of a user's devices
-- under a key, encoded, with a time at which they expire.
--
-- Times are numbers, and a zero time is `none`; `T` is the type of encoded values.
pub mod Reservation
mod Tests
use oldxr.Base.{
  ℕ, zero, suc, ◌+◌, ◌%◌, ◌^◌, ◌≡◌, Bool, true, false, ◌&&◌, Option, none, some, List, [], ◌∷◌, ltb,
  ◌==◌, if◌then◌else◌, length,
}
use oldxr.Base.Int.{ℤ, pos, negsuc, is_positive, leb_ℤ}
use oldxr.Base.Dict.{Dict, load, store, delete}
use oldxr.Base.Text.{Str, Str-discrete}

-- What the program uses of msgpack.
pub record CodecOps (T : Type 0) : Type 0 where
  pub marshal : Dict Str ℤ → Option T
  pub unmarshal : T → Option (Dict Str ℤ)

-- What is encoded is decoded.
abbrev pub RoundTrips : {T : Type 0} → CodecOps T → Type 0
RoundTrips {T} codec =
    (ips : Dict Str ℤ) → (t : T) → codec.marshal ips ≡ some t → codec.unmarshal t ≡ some ips

pub record GlobalIpCacheEntry (T : Type 0) : Type 0 where
  pub value : T
  pub expires_at : Option ℕ

pub record LayeredGlobalIpCache (T : Type 0) : Type 0 where
  pub local : Dict Str (GlobalIpCacheEntry T)
  pub local_expiry : ℤ

abbrev pub is_expired : {T : Type 0} → ℕ → GlobalIpCacheEntry T → Bool
is_expired now entry = elim (entry.expires_at) [ none ↦ false | some t ↦ ltb t now ]

-- The time that an entry written now expires at.
abbrev pub expiry_at : ℕ → ℤ → Option ℕ
expiry_at now (pos zero) = none
expiry_at now (pos (suc n)) = some (now + suc n)
expiry_at now (negsuc n) = none

module _ {T : Type 0} (codec : CodecOps T) where
  -- The entry under the key if it has not expired; one that has is deleted.
  unfoldable pub live_entry :
      ℕ → Str → LayeredGlobalIpCache T → LayeredGlobalIpCache T × Option (GlobalIpCacheEntry T)
  live_entry now key c = elim (load Str-discrete key c.local) [
    | none ↦ (c, none)
    | some entry ↦
        if is_expired now entry
        then (record c { local = delete Str-discrete key c.local }, none)
        else (c, some entry)
  ]

  -- Encode the addresses and store them; `none` is an error.
  unfoldable pub write_local :
      ℕ → Str → Dict Str ℤ → LayeredGlobalIpCache T → LayeredGlobalIpCache T × Option Bool
  write_local now key values c = elim (codec.marshal values) [
    | none ↦ (c, none)
    | some encoded ↦ (
      record c {
        local =
            store Str-discrete key
              (record { value = encoded; expires_at = expiry_at now c.local_expiry }) c.local;
      },
      some true,
    )
  ]

  unfoldable pub reserve_values :
      ℕ
      → Str
      → Str
      → ℤ
      → ℤ
      → Dict Str ℤ
      → LayeredGlobalIpCache T
      → LayeredGlobalIpCache T × Option Bool
  unfolding write_local
  reserve_values now key ip uid limit values c = elim (load Str-discrete ip values) [
    | some known ↦ write_local now key values c
    | none ↦
        if is_positive limit && leb_ℤ limit (pos (length values))
        then (c, some false)
        else write_local now key (store Str-discrete ip uid values) c
  ]

  unfoldable pub reserve_local :
      ℕ → Str → Str → ℤ → ℤ → LayeredGlobalIpCache T → LayeredGlobalIpCache T × Option Bool
  unfolding live_entry reserve_values
  reserve_local now key ip uid limit c =
      let (c', found) = live_entry now key c in
      elim found [
        | none ↦ reserve_values now key ip uid limit [] c'
        | some entry ↦ elim (codec.unmarshal (entry.value)) [
          | none ↦ (c', none)
          | some values ↦ reserve_values now key ip uid limit values c'
        ]
      ]

-- ===== src/GlobalCache/Reservation.antt =====
-- A reservation keeps the addresses under a key within the limit.
use oldxr.Base.{
  ℕ, zero, suc, ◌≤◌, ◌≡◌, ◌≢◌, ◌⊎◌, inl, inr, refl, Bool, true, false, ◌&&◌, Option, none, some, [],
  length, arith, if◌then◌else◌, Option-cases, Bool-cases, ◌∙◌,
}
use oldxr.Base.Int.{ℤ, pos, negsuc, is_positive, leb_ℤ}
use oldxr.Base.Dict.{Dict, load, store, load-store_self, load-delete_self, length-store_new}
use oldxr.Base.Text.{Str, Str-discrete}
use oldxr.GlobalCache.{
  CodecOps, RoundTrips, GlobalIpCacheEntry, LayeredGlobalIpCache, is_expired, expiry_at, live_entry,
  write_local, reserve_values, reserve_local,
}

module _ {T : Type 0} (codec : CodecOps T) where
  -- The addresses that are known under a key at a time; an entry that does not decode counts none.
  unfoldable pub addresses : ℕ → Str → LayeredGlobalIpCache T → Dict Str ℤ
  addresses now key c = elim (load Str-discrete key c.local) [
    | none ↦ []
    | some entry ↦
        if is_expired now entry
        then []
        else (elim (codec.unmarshal (entry.value)) [ none ↦ [] | some ips ↦ ips ])
  ]

  fresh_not_expired :
      (now : ℕ) (expiry : ℤ) (t : T)
      → is_expired now (record { value = t; expires_at = expiry_at now expiry }) ≡ false
  fresh_not_expired now (pos zero) t = refl
  fresh_not_expired now (pos (suc n)) t = ground arith
  fresh_not_expired now (negsuc n) t = refl

  module _ (laws : RoundTrips codec) (now : ℕ) (key ip : Str) (uid : ℤ) where
    write_local-addresses :
        (values : Dict Str ℤ) (c : LayeredGlobalIpCache T)
        → let (c', answer) = write_local codec now key values c in
          ((answer ≡ some true) × (addresses now key c' ≡ values)) ⊎ ((answer ≡ none) × (c' ≡ c))
    unfolding write_local addresses
    write_local-addresses values c = elim (Option-cases (codec.marshal values)) [
      | inl e ↦ inr (ground arith, ground arith)
      | inr (t, e) ↦
          let entry : GlobalIpCacheEntry T = record {
            value = t;
            expires_at = expiry_at now c.local_expiry;
          } in
          inl (
            ground arith,
            ground (
              arith,
              load-store_self Str-discrete key entry c.local,
              laws values t e,
              fresh_not_expired now c.local_expiry t,
            ),
          )
    ]

    -- What a reservation comes to, from the addresses that were known: it is refused as one too
    -- many, or done, or an error that changes nothing.
    Reserved : ℤ → Dict Str ℤ → LayeredGlobalIpCache T × Option Bool → Type 0
    Reserved limit values r =
        ((r.1 ≡ some false)
          × (addresses now key r.0 ≡ values)
          × (load Str-discrete ip values ≡ none)
          × ((is_positive limit && leb_ℤ limit (pos (length values))) ≡ true))
        ⊎ (((r.1 ≡ some true)
              × (addresses now key r.0 ≡ (elim (load Str-discrete ip values) [
                | some known ↦ values
                | none ↦ store Str-discrete ip uid values
              ]))
              × ((load Str-discrete ip values ≢ none)
                  ⊎ ((is_positive limit && leb_ℤ limit (pos (length values))) ≡ false)))
            ⊎ ((r.1 ≡ none) × (addresses now key r.0 ≡ values)))

    reserve_values-Reserved :
        (limit : ℤ) (values : Dict Str ℤ) (c : LayeredGlobalIpCache T)
        → addresses now key c ≡ values
        → Reserved limit values (reserve_values codec now key ip uid limit values c)
    unfolding reserve_values Reserved
    reserve_values-Reserved limit values c here =
        elim (Option-cases (load Str-discrete ip values)) [
          | inr (known, e) ↦ (elim (write_local-addresses values c) [
            | inl (done, now_there) ↦ inr (inl (ground arith, ground arith, inl (ground arith)))
            | inr (failed, same) ↦ inr (inr (ground arith, ground (arith, here)))
          ])
          | inl e ↦ (elim (Bool-cases (is_positive limit && leb_ℤ limit (pos (length values)))) [
            | inl over ↦ inl (ground arith, ground arith, e, over)
            | inr within ↦ (elim (write_local-addresses (store Str-discrete ip uid values) c) [
              | inl (done, now_there) ↦ inr (inl (ground arith, ground arith, inr within))
              | inr (failed, same) ↦ inr (inr (ground arith, ground (arith, here)))
            ])
          ])
        ]

    live_entry-addresses :
        (c : LayeredGlobalIpCache T)
        → let (c', found) = live_entry codec now key c in
          (addresses now key c' ≡ addresses now key c)
          × (addresses now key c ≡ (elim found [
            | none ↦ []
            | some entry ↦ elim (codec.unmarshal (entry.value)) [ none ↦ [] | some ips ↦ ips ]
          ]))
    unfolding live_entry addresses
    live_entry-addresses c =
        (ground (arith, load-delete_self Str-discrete key c.local), ground arith)

    reserve_local-Reserved :
        (limit : ℤ) (c : LayeredGlobalIpCache T)
        → Reserved limit (addresses now key c) (reserve_local codec now key ip uid limit c)
    unfolding reserve_local Reserved
    reserve_local-Reserved limit c =
        let (c', found) = live_entry codec now key c in
        let (kept, read) = live_entry-addresses c in
        elim (Option-cases found) [
          | inl e ↦
              let empty : addresses now key c ≡ [] = ground (arith, read) in
              ground (arith, empty, reserve_values-Reserved limit [] c' (kept ∙ empty))
          | inr (entry, e) ↦ (elim (Option-cases (codec.unmarshal (entry.value))) [
            | inl broken ↦ inr (inr (ground arith, ground (arith, kept)))
            | inr (ips, decoded) ↦
                let there : addresses now key c ≡ ips = ground (arith, read) in
                ground (arith, there, reserve_values-Reserved limit ips c' (kept ∙ there))
          ])
        ]

    -- A reservation of an address under a key: where the codec decodes what it encodes and at most
    -- as many addresses as a positive limit are known, that stays so, whatever the answer; either
    -- the answer is yes and the address is known from then on, or it is no, the address was not
    -- known and the limit was reached, or it is an error.
    pub reserve_local-bounded :
        (n : ℕ) (c : LayeredGlobalIpCache T)
        → length (addresses now key c) ≤ suc n
        → let (c', answer) = reserve_local codec now key ip uid (pos (suc n)) c in
          (length (addresses now key c') ≤ suc n)
          × (((answer ≡ some true) × (load Str-discrete ip (addresses now key c') ≢ none))
              ⊎ (((answer ≡ some false)
                    × (load Str-discrete ip (addresses now key c) ≡ none)
                    × (length (addresses now key c) ≡ suc n))
                  ⊎ (answer ≡ none)))
    unfolding Reserved
    reserve_local-bounded n c small =
        let values = addresses now key c in
        let put = load-store_self Str-discrete ip uid values in
        let grown = length-store_new Str-discrete ip uid values in
        elim (reserve_local-Reserved (pos (suc n)) c) [
          | inl refused ↦
              (ground (arith, refused), inr (inl (refused.0, refused.2, ground (arith, refused))))
          | inr (inl accepted) ↦
              (ground (arith, accepted, grown), inl (accepted.0, ground (arith, accepted, put)))
          | inr (inr failed) ↦ (ground (arith, failed), inr (inr failed.0))
        ]

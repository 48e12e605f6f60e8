-- ===== src/Rate.antt =====
-- common/limiter/rate.go: a reader and a writer that wait for the bytes they pass on.
--
-- `W` is the state that waiting changes, `rate.Limiter` and the clock; `E` the errors.
mod Tests
use oldxr.Base.{
  ℕ, zero, suc, ◌+◌, ◌-◌, ◌≤◌, ◌<◌, ◌≡◌, ◌⊎◌, refl, ap, inl, inr, Bool, true, false, Option, none,
  some, List, [], ◌∷◌, ltb, leb, if◌then◌else◌, length, All, arith, ◌++◌, Option-cases,
}
use oldxr.Base.Int.{ℤ, pos, negsuc}

pub data WaitError (E : Type 0) : Type 0 where
  burst_not_positive : WaitError E
  wait_failed : E → WaitError E

module _ {W E : Type 0} (wait_n : ℕ → W → W × Option E) where
  -- The loop, for a positive burst, in which case each round takes at least a byte: as much fuel
  -- as there are bytes is enough.
  unfoldable pub wait_chunks : ℕ → ℕ → ℕ → W → W × Option (WaitError E)
  wait_chunks zero burst n w = (w, none)
  wait_chunks (suc fuel) burst n w =
      let chunk = if ltb burst n then burst else n in
      let (w', err) = wait_n chunk w in
      let rest = wait_chunks fuel burst (n - chunk) w' in
      if ltb 0 n
      then (elim err [ none ↦ rest | some e ↦ (w', some (wait_failed e)) ])
      else (w, none)

  unfoldable pub wait_rate_limit : ℤ → ℤ → W → W × Option (WaitError E)
  unfolding wait_chunks
  wait_rate_limit burst (negsuc n) w = (w, none)
  wait_rate_limit burst (pos zero) w = (w, none)
  wait_rate_limit (negsuc b) (pos (suc n)) w = (w, some burst_not_positive)
  wait_rate_limit (pos zero) (pos (suc n)) w = (w, some burst_not_positive)
  wait_rate_limit (pos (suc b)) (pos (suc n)) w = wait_chunks (suc n) (suc b) (suc n) w

  -- Waiting for some chunks one after the other, none of which fails.
  abbrev Waits : List ℕ → W → W → Type 0
  Waits [] w w' = w ≡ w'
  Waits (c ∷ cs) w w' = ((wait_n c w).1 ≡ none) × Waits cs (wait_n c w).0 w'

  abbrev sum : List ℕ → ℕ
  sum [] = 0
  sum (c ∷ cs) = c + sum cs

  -- What a wait for some bytes may come to: chunks within the burst that add up to all bytes; or
  -- to less, and then one more that is refused and ends the wait with its error.
  pub record HasWaited (burst n : ℕ) (w : W) (r : W × Option (WaitError E)) : Type 0 where
    chunks : List ℕ
    w' : W
    waits : Waits chunks w w'
    within : All (λ c. (0 < c) × (c ≤ burst)) chunks
    ends :
        ((r ≡ (w', none)) × (sum chunks ≡ n))
        ⊎ ((c : ℕ) × ((e : E) × ((wait_n c w').1 ≡ some e)
              × (0 < c)
              × (c ≤ burst)
              × (sum chunks + c ≤ n)
              × (r ≡ ((wait_n c w').0, some (wait_failed e)))))

  wait_chunks-HasWaited :
      (fuel burst n : ℕ) (w : W)
      → n ≤ fuel
      → 0 < burst
      → HasWaited burst n w (wait_chunks fuel burst n w)
  unfolding wait_chunks
  wait_chunks-HasWaited zero burst n w enough b = record {
    chunks = [];
    w' = w;
    waits = refl;
    within = tt;
    ends = inl (refl, omega arith);
  }
  wait_chunks-HasWaited (suc fuel) burst zero w enough b = record {
    chunks = [];
    w' = w;
    waits = refl;
    within = tt;
    ends = inl (ground arith, refl);
  }
  wait_chunks-HasWaited (suc fuel) burst (suc n) w enough b =
      let chunk = if ltb burst (suc n) then burst else suc n in
      let fits : (0 < chunk) × (chunk ≤ burst) × (chunk ≤ suc n) =
        (ground arith, ground arith, ground arith) in
      elim (Option-cases (wait_n chunk w).1) [
        | inr (e, failed) ↦ record {
          chunks = [];
          w' = w;
          waits = refl;
          within = tt;
          ends = inr (chunk, (e, failed, fits.0, fits.1, omega (arith, fits.2), ground arith));
        }
        | inl accepted ↦
            let rest =
              wait_chunks-HasWaited fuel burst (suc n - chunk) (wait_n chunk w).0
                (omega (arith, fits)) b in
            record {
              chunks = chunk ∷ rest.chunks;
              w' = rest.w';
              waits = (accepted, rest.waits);
              within = ((fits.0, fits.1), rest.within);
              ends = elim (rest.ends) [
                | inl (done, all) ↦ inl (ground arith, omega (arith, fits, all))
                | inr (c, (e, failed, some_bytes, small, room, done)) ↦
                    inr (c, (e, failed, some_bytes, small, omega (arith, fits, room), ground arith))
              ];
            }
      ]

  -- Under a positive burst a wait for bytes always ends: it waits for chunks of at most the burst
  -- which add up to the bytes, and succeeds, unless the limiter refuses one of them, whose error
  -- it gives at once.
  pub wait_rate_limit-HasWaited :
      (burst n : ℕ) (w : W)
      → 0 < burst
      → HasWaited burst n w (wait_rate_limit (pos burst) (pos n) w)
  unfolding wait_rate_limit
  wait_rate_limit-HasWaited (suc b) zero w positive = record {
    chunks = [];
    w' = w;
    waits = refl;
    within = tt;
    ends = inl (refl, refl);
  }
  wait_rate_limit-HasWaited (suc b) (suc n) w positive =
      wait_chunks-HasWaited (suc n) (suc b) (suc n) w (omega arith) positive
  wait_rate_limit-HasWaited zero n w positive = absurd (omega arith)

-- ===== src/Traffic/Counters.antt =====
-- No traffic is lost or counted twice when a report fails.
use oldxr.Base.{
  ℕ, ◌+◌, ◌%◌, ◌^◌, ◌≡◌, sym, false, Option, none, some, List, [], ◌∷◌, ◌++◌, ite, arith,
  Option-cases, subst, inl, inr,
}
use mathlib.Core.Option.{some-injective}
use oldxr.Base.Text.{Str}
use oldxr.Api.{UserTraffic}
use oldxr.Limiter.Key.{format_user_key}
use oldxr.Traffic.{
  StatsOps, StatsLaws, TrafficCounterDelta, Batch, empty_batch, drain_traffic_counter,
  restore_traffic, drain_traffic, uplink_name, downlink_name, delta_list, flush_user_traffic,
  RetiringUser, collect_user, collect_users,
}

module _ {A S : Type 0} (dec : Discrete A) (stats : StatsOps A S) (laws : StatsLaws dec stats) where
  -- What a counter is owed by the drained values.
  owed : A → List (TrafficCounterDelta A) → ℕ
  owed b [] = 0
  owed b (d ∷ ds) = ite (dec d.counter b) d.value 0 + owed b ds

  owed-append :
      (b : A) (ds es : List (TrafficCounterDelta A)) → owed b (ds ++ es) ≡ owed b ds + owed b es
  unfolding owed
  owed-append b [] es = omega arith
  owed-append b (d ∷ ds) es = ground (arith, owed-append b ds es)

  restore_traffic-value :
      (b : A) (ds : List (TrafficCounterDelta A)) (s : S)
      → stats.value b (restore_traffic stats ds s) ≡ (stats.value b s + owed b ds) % 2 ^ 64
  unfolding restore_traffic owed
  restore_traffic-value b [] s = ground (arith, laws.value-lt b s)
  restore_traffic-value b (d ∷ ds) s =
      let s' = stats.add_counter d.value d.counter s in
      ground (arith, restore_traffic-value b ds s', laws.value-add d.value d.counter b s)

  -- From one state to a later one, the deltas account for what has gone.
  Accounts : S → S → List (TrafficCounterDelta A) → Type 0
  Accounts s s' ds = (b : A) → (stats.value b s' + owed b ds) % 2 ^ 64 ≡ stats.value b s

  Accounts-append :
      (s s' s'' : S) (ds es : List (TrafficCounterDelta A))
      → Accounts s s' ds
      → Accounts s' s'' es
      → Accounts s s'' (ds ++ es)
  unfolding Accounts
  Accounts-append s s' s'' ds es h k = λ b. ground (arith, h b, k b, owed-append b ds es)

  drain_traffic_counter-Accounts :
      (counter : Option A) (s : S)
      → let (s', d) = drain_traffic_counter stats counter s in Accounts s s' (delta_list stats d)
  unfolding Accounts drain_traffic_counter owed
  drain_traffic_counter-Accounts none s = λ b. ground (arith, laws.value-lt b s)
  drain_traffic_counter-Accounts (some a) s = λ b.
      let s' = (stats.set_counter 0 a s).0 in
      let v = stats.value a s in
      ground (
        arith,
        laws.old-set 0 a s,
        laws.value-set 0 a b s (omega arith),
        laws.value-lt b s,
        laws.value-add v a b s',
      )

  drain_traffic-Accounts :
      (email : Str) (s : S)
      → let (s', (up, down, deltas)) = drain_traffic stats email s in Accounts s s' deltas
  unfolding drain_traffic
  drain_traffic-Accounts email s =
      let first = drain_traffic_counter-Accounts (stats.get_counter (uplink_name email) s) s in
      let (s1, up) = drain_traffic_counter stats (stats.get_counter (uplink_name email) s) s in
      let mc = stats.get_counter (downlink_name email) s1 in
      let (s2, down) = drain_traffic_counter stats mc s1 in
      Accounts-append s s1 s2 (delta_list stats up) (delta_list stats down) first
        (drain_traffic_counter-Accounts mc s1)

  collect_user-Accounts :
      (u : RetiringUser) (s : S) (b : Batch A) (s' : S) (b' : Batch A)
      → collect_user stats u (s, b) ≡ some (s', b')
      → (ds : List (TrafficCounterDelta A)) × (b'.deltas ≡ b.deltas ++ ds) × Accounts s s' ds
  unfolding collect_user
  collect_user-Accounts u s b s' b' h =
      let email = format_user_key u.tag u.user.email u.user.uid in
      let d = drain_traffic stats email s in
      (
        d.1.2,
        ground arith,
        subst (λ t. Accounts s t d.1.2) (ground arith) (drain_traffic-Accounts email s),
      )

  collect_users-Accounts :
      (us : List RetiringUser) (s s0 : S) (b : Batch A) (s' : S) (b' : Batch A)
      → Accounts s0 s b.deltas
      → collect_users stats us (s, b) ≡ some (s', b')
      → Accounts s0 s' b'.deltas
  unfolding collect_users
  collect_users-Accounts [] s s0 b s' b' so_far h =
      subst (λ p. Accounts s0 (p.0) (p.1.deltas)) (some-injective _ _ h) so_far
  collect_users-Accounts (u ∷ us) s s0 b s' b' so_far h =
      elim (Option-cases (collect_user stats u (s, b))) [
        | inl e ↦ absurd (ground arith)
        | inr ((s1, b1), e) ↦
            let (ds, grown, mine) = collect_user-Accounts u s b s1 b1 e in
            collect_users-Accounts us s1 s0 b1 s' b'
              (subst (Accounts s0 s1) (sym grown) (Accounts-append s0 s s1 b.deltas ds so_far mine))
              (ground arith)
      ]

  empty-Accounts : (s : S) → Accounts s s []
  unfolding Accounts owed
  empty-Accounts s = λ b. ground (arith, laws.value-lt b s)

  -- Connections go on counting while the report is sent. If the panel does not take it, every
  -- counter is in the end what it would be had nothing been drained.
  pub failed_report_restores :
      {P E : Type 0} (report : List UserTraffic → P → P × Option E) (p : P) (err : E)
      (us : List RetiringUser) (s s' : S) (batch : Batch A)
      (meanwhile : List (TrafficCounterDelta A)) (b : A)
      → collect_users stats us (s, empty_batch) ≡ some (s', batch)
      → (report batch.traffic p).1 ≡ some err
      → let (ps, answer) =
          flush_user_traffic stats report false batch (p, restore_traffic stats meanwhile s') in
        (answer ≡ some err)
        × (stats.value b ps.1 ≡ stats.value b (restore_traffic stats meanwhile s))
  unfolding flush_user_traffic Accounts
  failed_report_restores report p err us s s' batch meanwhile b collected failed =
      let counted = restore_traffic stats meanwhile s' in
      let all = collect_users-Accounts us s s empty_batch s' batch (empty-Accounts s) collected b in
      (
        ground arith,
        ground (
          arith,
          all,
          restore_traffic-value b batch.deltas counted,
          restore_traffic-value b meanwhile s',
          restore_traffic-value b meanwhile s,
        ),
      )

-- ===== src/Traffic/Report.antt =====
-- The report that the monitor collects, against the samples that it drains.
use oldxr.Base.{
  ℕ, ◌+◌, ◌%◌, ◌^◌, ◌<◌, ◌≡◌, refl, Option, none, some, List, [], ◌∷◌, ◌++◌, ite, arith,
}
use oldxr.Base.Int.{ℤ, ℤ_discrete}
use oldxr.Base.Dict.{load-nil}
use oldxr.Limiter.Key.{format_user_key}
use oldxr.Traffic.{
  StatsOps, TrafficCounterDelta, Batch, empty_batch, drain_traffic_counter, delta_value,
  drain_traffic, RetiringUser, collect_user, collect_users,
}
use oldxr.Traffic.Entries.{position, field_of, IsOncePerUser}
use oldxr.Traffic.Totals.{upload_of, download_of, IsReport, append_user_traffic-Grown}

empty-IsReport : IsReport [] []
unfolding position field_of IsOncePerUser
empty-IsReport = record {
  located = λ uid. load-nil {V = ℕ} ℤ_discrete uid;
  once = tt;
  upload-lt = λ uid. omega arith;
  download-lt = λ uid. omega arith;
}

module _ {A S : Type 0} (stats : StatsOps A S) where
  drain_traffic_counter-lt :
      (counter : Option A) (s : S)
      → delta_value stats (drain_traffic_counter stats counter s).1 < 2 ^ 63
  unfolding drain_traffic_counter
  drain_traffic_counter-lt none s = omega arith
  drain_traffic_counter-lt (some a) s = ground arith

  -- What draining the counters of a list of users gives for a user's number.
  abbrev pub drained : RetiringUser → S → S × (ℕ × ℕ × List (TrafficCounterDelta A))
  drained u s = drain_traffic stats (format_user_key u.tag u.user.email u.user.uid) s

  pub sum_up : ℤ → List RetiringUser → S → ℕ
  sum_up uid [] s = 0
  sum_up uid (u ∷ us) s =
      ite (ℤ_discrete u.user.uid uid) (drained u s).1.0 0 + sum_up uid us (drained u s).0

  pub sum_down : ℤ → List RetiringUser → S → ℕ
  sum_down uid [] s = 0
  sum_down uid (u ∷ us) s =
      ite (ℤ_discrete u.user.uid uid) (drained u s).1.1 0 + sum_down uid us (drained u s).0

  drained-lt :
      (u : RetiringUser) (s : S) → ((drained u s).1.0 < 2 ^ 63) × ((drained u s).1.1 < 2 ^ 63)
  unfolding drain_traffic
  drained-lt u s = (drain_traffic_counter-lt _ s, drain_traffic_counter-lt _ _)

  -- A report that has grown by the samples of a list of users.
  record Collected (us : List RetiringUser) (s : S) (b : Batch A) : Type 0 where
    s' : S
    b' : Batch A
    collected : collect_users stats us (s, b) ≡ some (s', b')
    report : IsReport b'.traffic b'.index
    uploads :
        (uid : ℤ) → upload_of uid b'.traffic ≡ (upload_of uid b.traffic + sum_up uid us s) % 2 ^ 64
    downloads :
        (uid : ℤ)
        → download_of uid b'.traffic ≡ (download_of uid b.traffic + sum_down uid us s) % 2 ^ 64

  collect_users-Collected :
      (us : List RetiringUser) (s : S) (b : Batch A) → IsReport b.traffic b.index → Collected us s b
  unfolding collect_users collect_user sum_up sum_down
  collect_users-Collected [] s b r = record {
    s' = s;
    b' = b;
    collected = refl;
    report = r;
    uploads = λ uid. ground (arith, r.upload-lt uid);
    downloads = λ uid. ground (arith, r.download-lt uid);
  }
  collect_users-Collected (u ∷ us) s b r =
      let d = drained u s in
      let small = drained-lt u s in
      let g = append_user_traffic-Grown (u.user) d.1.0 d.1.1 b.traffic b.index r small.0 small.1 in
      let b1 : Batch A = record { traffic = g.t'; index = g.ix'; deltas = b.deltas ++ d.1.2 } in
      let rest = collect_users-Collected us d.0 b1 g.report in
      record {
        s' = rest.s';
        b' = rest.b';
        collected = ground (arith, g.appended, rest.collected);
        report = rest.report;
        uploads = λ uid. ground (arith, g.uploads uid, rest.uploads uid);
        downloads = λ uid. ground (arith, g.downloads uid, rest.downloads uid);
      }

  -- Collecting never indexes out of range. Its report has at most one entry for each user, which
  -- holds the sum, in 64 bits, of all that was drained under the user's number.
  pub report_totals :
      (us : List RetiringUser) (s : S) (uid : ℤ)
      → (s' : S) × ((batch : Batch A) × (collect_users stats us (s, empty_batch) ≡ some (s', batch))
          × IsOncePerUser batch.traffic
          × (upload_of uid batch.traffic ≡ sum_up uid us s % 2 ^ 64)
          × (download_of uid batch.traffic ≡ sum_down uid us s % 2 ^ 64))
  unfolding field_of
  report_totals us s uid =
      let c = collect_users-Collected us s empty_batch empty-IsReport in
      (
        c.s',
        (
          c.b',
          c.collected,
          c.report.once,
          ground (arith, c.uploads uid),
          ground (arith, c.downloads uid),
        ),
      )

-- ===== src/Controller/Reporting/Unreported.antt =====
-- A round whose traffic report the panel does not take: the counters and the retiring users are
-- afterwards as they were before.
use oldxr.Base.{
  ℕ, ◌≡◌, ◌∙◌, refl, sym, ap, false, Option, none, some, List, [], ◌∷◌, arith, Option-cases, inl,
  inr, ltb,
}
use mathlib.Core.Option.{some-injective}
use oldxr.Api.{UserTraffic}
use oldxr.Clients.{ApiError}
use oldxr.Traffic.{
  StatsLaws, Batch, empty_batch, RetiringUser, collect_users, flush_user_traffic, restore_traffic,
}
use oldxr.Traffic.Counters.{failed_report_restores}
use oldxr.Controller.{Environment}
use oldxr.Controller.Retirement.{retiring_user_snapshot}
use oldxr.Controller.Reporting.{
  ReportEnvironment, Monitored, Limiting, unlock_users, collect_all, report_traffic, conclude,
  user_info_monitor,
}
use oldxr.Controller.Reporting.Samples.{samples_of}
use oldxr.Controller.Reporting.Failures.{
  sampled_users, collect_all-samples, Leaves, Leaves-trans, Leaves-sampled_users,
  unlock_users-Leaves, unlock_users-counters, report_traffic_refused, conclude_refused,
  conclude_counters,
}

module _ {X C O H I M V B R G P K A T N S : Type 0} (env : Environment X C O H I M V B R G P K)
    (round : ReportEnvironment A T N K S) where
  -- The state in which the users are sampled: the node's status is reported, and the users whose
  -- time is over are released.
  abbrev pub before_samples : ℕ → N → Monitored X B G P S K T → Monitored X B G P S K T
  before_samples now load m =
      let c = m.controller in
      let k = (round.reports.report_node_status load c.api_client).0 in
      unlock_users env round now (record m { controller = record c { api_client = k } })

  pub before_samples-Leaves :
      (now : ℕ) (load : N) (m : Monitored X B G P S K T)
      → Leaves env round m.controller (before_samples now load m).controller
  before_samples-Leaves now load m =
      let c = m.controller in
      let k = (round.reports.report_node_status load c.api_client).0 in
      let first : Leaves env round c (record c { api_client = k }) = record {
        retiring_users = refl;
        user_flows = refl;
        user_list = refl;
        tag = refl;
      } in
      Leaves-trans env round first
        (unlock_users-Leaves env round now (record m { controller = record c { api_client = k } }))

  before_samples_collected :
      (now : ℕ) (load : N) (m : Monitored X B G P S K T)
      → samples_of (collect_all env round now (before_samples now load m))
        ≡ collect_users round.stats (sampled_users env round m.controller) (m.counters, empty_batch)
  before_samples_collected now load m =
      let m1 = before_samples now load m in
      let same = Leaves-sampled_users env round (before_samples-Leaves now load m) in
      let counters : m1.counters ≡ m.counters = unlock_users-counters env round now _ in
      collect_all-samples env round now m1
      ∙ ap (λ t. collect_users round.stats (sampled_users env round m1.controller) (t, empty_batch))
          counters
      ∙ ap (λ us. collect_users round.stats us (m.counters, empty_batch)) same

module _ {X C O H I M V B R G P K A T N S : Type 0} (dec : Discrete A)
    (env : Environment X C O H I M V B R G P K) (round : ReportEnvironment A T N K S) where
  -- The round comes to an end, and every counter and the retiring users are as they were.
  abbrev pub KeepsAll : Monitored X B G P S K T → Option (Monitored X B G P S K T) → Type 0
  KeepsAll m none = ⊥
  KeepsAll m (some m') =
      Leaves env round m.controller m'.controller
      × ((b : A) → round.stats.value b m'.counters ≡ round.stats.value b m.counters)

  restored :
      (laws : StatsLaws dec round.stats) (us : List RetiringUser) (t t' : T) (batch : Batch A)
      (b : A)
      → collect_users round.stats us (t, empty_batch) ≡ some (t', batch)
      → round.stats.value b (restore_traffic round.stats batch.deltas t') ≡ round.stats.value b t
  unfolding flush_user_traffic restore_traffic
  restored laws us t t' batch b collected =
      (failed_report_restores dec round.stats laws (λ traffic n. (n, some tt)) tt tt us t t' batch
        [] b collected refl).1

  -- A round that has sampled, and whose report the panel does not take.
  concluded :
      (laws : StatsLaws dec round.stats) (now : ℕ) (load : N) (m : Monitored X B G P S K T) (t : T)
      (batch : Batch A) (l : Limiting)
      → collect_users round.stats (sampled_users env round m.controller) (m.counters, empty_batch)
        ≡ some (t, batch)
      → ((k : K)
          → ((report_traffic env round batch (k, t)).1 ≡ false)
            × ((report_traffic env round batch (k, t)).0.1
                ≡ restore_traffic round.stats batch.deltas t))
      → let m1 = before_samples env round now load m in
        KeepsAll m (
          some (
            conclude env round
              (retiring_user_snapshot m1.controller.retiring_users)
              ((t, batch), l)
              m1))
  concluded laws now load m t batch l collected refused =
      let m1 = before_samples env round now load m in
      let retiring = retiring_user_snapshot m1.controller.retiring_users in
      (
        Leaves-trans env round (before_samples-Leaves env round now load m)
            (conclude_refused env round retiring t batch l m1 (λ k. (refused k).0)),
        λ b.
            ap (λ s. round.stats.value b s)
              (conclude_counters env round retiring t batch l m1 _ refused)
            ∙ restored laws (sampled_users env round m.controller) m.counters t batch b collected,
      )

  -- Let the counters keep their laws, and let reports be enabled. A round that is due, in which
  -- some traffic is sampled without a panic and in which the panel refuses it, comes to an end:
  -- every counter is then what it was before, and the retiring users, the flow registry and the
  -- list of users are too.
  pub unreported_round :
      (laws : StatsLaws dec round.stats) (elapsed now : ℕ) (load : N) (m : Monitored X B G P S K T)
      (t : T) (batch : Batch A) (entry : UserTraffic) (entries : List UserTraffic) (err : ApiError)
      → ltb elapsed env.config.update_periodic ≡ false
      → round.disable_upload_traffic ≡ false
      → collect_users round.stats (sampled_users env round m.controller) (m.counters, empty_batch)
        ≡ some (t, batch)
      → batch.traffic ≡ entry ∷ entries
      → ((k : K) → (round.reports.report_user_traffic batch.traffic k).1 ≡ some err)
      → KeepsAll m (user_info_monitor env round elapsed now load m)
  unfolding user_info_monitor
  unreported_round laws elapsed now load m t batch entry entries err due enabled collected
        some_traffic refused =
      let m1 = before_samples env round now load m in
      let samples = before_samples_collected env round now load m ∙ collected in
      elim (Option-cases (collect_all env round now m1)) [
        | inl e ↦ ground (arith, e, samples)
        | inr (((t1, b1), l), e) ↦
            let same : (t1, b1) ≡ (t, batch) =
              some-injective _ _ (sym (ap samples_of e) ∙ samples) in
            let done = concluded laws now load m t batch l collected (λ k.
              report_traffic_refused env round batch entry entries err k t enabled some_traffic
                (refused k)) in
            let sampled : collect_all env round now m1 ≡ some ((t, batch), l) =
              e ∙ ap (λ s. some (s, l)) same in
            ground (arith, due, sampled, done)
      ]

-- ===== src/Controller/Reporting/Rounds.antt =====
-- What a round of the monitor leaves in place, and the state in which its samples leave the limits.
use oldxr.Base.{
  ◌∙◌, ℕ, ◌≡◌, refl, none, some, List, [], ◌∷◌, arith, Option-cases, inl, inr, if◌then◌else◌,
}
use oldxr.Base.Int.{pos}
use oldxr.Base.Dict.{Dict, load, delete, load-delete}
use oldxr.Api.{UserInfo, UserInfo-discrete}
use oldxr.Traffic.{Batch, empty_batch, RetiringUser, collect_users}
use oldxr.Traffic.Report.{report_totals}
use oldxr.Controller.{Environment, Controller}
use oldxr.Controller.Retirement.{finalize_one, finalize_retiring_users, retiring_user_snapshot}
use oldxr.Controller.SpeedLimits.{SpeedLimits, LimitInfo, release_users, is_due}
use oldxr.Controller.SpeedLimits.Warnings.{IsWarned}
use oldxr.Controller.Reporting.{
  ReportEnvironment, Monitored, collect_current_users, update_some, unlock_users, collect_all,
  report_traffic, finish_report, report_online, report_detected, conclude,
}
use oldxr.Controller.Reporting.Failures.{sampled_users, collect_all-samples}

release_users-none :
    (now : ℕ) (user : UserInfo) (entries limited : Dict UserInfo LimitInfo)
    → load UserInfo-discrete user limited ≡ none
    → load UserInfo-discrete user (release_users now entries limited).0 ≡ none
unfolding release_users
release_users-none now user [] limited h = h
release_users-none now user ((u, i) ∷ entries) limited h =
    let u' = record u { speed_limit = i.origin_speed_limit } in
    release_users-none now user entries
      (if is_due now limited (u, i) then delete UserInfo-discrete u' limited else limited)
      (ground (arith, h, load-delete UserInfo-discrete u' user limited))

module _ {X C O H I M V B R G P K A T N S : Type 0} (env : Environment X C O H I M V B R G P K)
    (round : ReportEnvironment A T N K S) where
  -- The list and the tag, which a round leaves.
  abbrev pub Listed : Controller X B G P S K → Controller X B G P S K → Type 0
  Listed c c' = (c'.user_list ≡ c.user_list) × (c'.tag ≡ c.tag)

  finalize_one-Listed :
      (u : RetiringUser) (c : Controller X B G P S K) (t : T)
      → Listed c (finalize_one round.stats round.unregister_counter u (c, t)).0
  unfolding finalize_one
  finalize_one-Listed u c t = (ground arith, ground arith)

  finalize_retiring_users-Listed :
      (us : List RetiringUser) (c : Controller X B G P S K) (t : T)
      → Listed c (finalize_retiring_users round.stats round.unregister_counter us (c, t)).0
  unfolding finalize_retiring_users
  finalize_retiring_users-Listed [] c t = (refl, refl)
  finalize_retiring_users-Listed (u ∷ us) c t =
      let first = finalize_one-Listed u c t in
      let (c1, t1) = finalize_one round.stats round.unregister_counter u (c, t) in
      let rest = finalize_retiring_users-Listed us c1 t1 in (rest.0 ∙ first.0, rest.1 ∙ first.1)

  finish_report-Listed :
      (us : List RetiringUser) (b : Batch A) (c : Controller X B G P S K) (t : T)
      → Listed c (finish_report env round us b (c, t)).0
  unfolding finish_report
  finish_report-Listed us b c t =
      let ((k, t'), succeeded) = report_traffic env round b (c.api_client, t) in
      let done = finalize_retiring_users-Listed us (record c { api_client = k }) t' in
      (ground (arith, done.0), ground (arith, done.1))

  rest-Listed :
      (c : Controller X B G P S K)
      → Listed c (report_detected env round (report_online env round c))
  unfolding report_detected report_online
  rest-Listed c = (ground arith, ground arith)

  update_some-Listed :
      (us : List UserInfo) (c : Controller X B G P S K) → Listed c (update_some env us c)
  unfolding update_some
  update_some-Listed [] c = (refl, refl)
  update_some-Listed (u ∷ us) c = (refl, refl)

  pub conclude-Listed :
      (retiring : List RetiringUser) (t : T) (b : Batch A) (l : SpeedLimits)
      (silent : List UserInfo) (m : Monitored X B G P S K T)
      → let m' = conclude env round retiring ((t, b), (l, silent)) m in
        Listed m.controller m'.controller × (m'.speed_limits ≡ l)
  unfolding conclude
  conclude-Listed retiring t b l silent m =
      let c1 = update_some env silent m.controller in
      let c2 = (finish_report env round retiring b (c1, t)).0 in
      let p = update_some-Listed silent m.controller in
      let q = finish_report-Listed retiring b c1 t in
      let r = rest-Listed c2 in ((r.0 ∙ q.0 ∙ p.0, r.1 ∙ q.1 ∙ p.1), refl)

  pub unlock_users-IsWarned :
      (user : UserInfo) (k now : ℕ) (m : Monitored X B G P S K T)
      → IsWarned user k m.speed_limits
      → IsWarned user k (unlock_users env round now m).speed_limits
  unfolding unlock_users
  unlock_users-IsWarned user k now m (free, warned) =
      let limited = m.speed_limits.limited_users in
      (ground (arith, free, release_users-none now user limited limited), ground (arith, warned))

  -- The round comes as far as its samples, and these end with the limits of the loop over the users.
  pub record Sampled (now : ℕ) (m : Monitored X B G P S K T) : Type 0 where
    pub t' : T
    pub b' : Batch A
    pub limits : SpeedLimits
    pub silent : List UserInfo
    pub all : collect_all env round now m ≡ some ((t', b'), (limits, silent))
    pub current_t : T
    pub current_b : Batch A
    pub current :
        collect_current_users round.stats round.auto_speed_limit env.config.update_periodic now
          m.controller.tag m.controller.user_list
          ((m.counters, empty_batch), (m.speed_limits, []))
        ≡ some ((current_t, current_b), (limits, silent))

  pub collect_all-Sampled : (now : ℕ) (m : Monitored X B G P S K T) → Sampled now m
  unfolding collect_all
  collect_all-Sampled now m =
      let c = m.controller in
      let retiring = retiring_user_snapshot c.retiring_users in
      let (t0, (b0, collected, once, uploads, downloads)) =
        report_totals round.stats (sampled_users env round c) m.counters (pos 0) in
      let samples = collect_all-samples env round now m ∙ collected in
      elim (Option-cases (
        collect_current_users round.stats round.auto_speed_limit env.config.update_periodic now
          c.tag c.user_list ((m.counters, empty_batch), (m.speed_limits, [])))) [
            | inl e ↦ absurd (ground (arith, e, samples))
            | inr (((t1, b1), (l1, silent1)), e) ↦
                elim (Option-cases (collect_users round.stats retiring (t1, b1))) [
                  | inl f ↦ absurd (ground (arith, e, f, samples))
                  | inr ((t2, b2), f) ↦ record {
                    t' = t2;
                    b' = b2;
                    limits = l1;
                    silent = silent1;
                    all = ground (arith, e, f);
                    current_t = t1;
                    current_b = b1;
                    current = e;
                  }
                ]
          ]

-- ===== src/Controller/Finalizing.antt =====
-- Who stays on the list of retiring users when they are finalized.
use oldxr.Base.{
  ℕ, suc, get_elem?, ◌≡◌, ◌∙◌, ◌≢◌, refl, ap, Bool, true, false, Option, some, List, [], ◌∷◌, arith,
  Option-cases, Bool-cases, inl, inr, ◌⊎◌,
}
use oldxr.Base.Dict.{load, store, delete, load-store, load-delete}
use oldxr.Base.Text.{Str, Str-discrete}
use oldxr.Flow.{ManagedUserNode, UserFlowRegistry, is_idle, finalize, finalize_idle}
use oldxr.Flow.World.{runtime_at}
use oldxr.Limiter.Users.{key_of}
use oldxr.Traffic.{StatsOps, RetiringUser}
use oldxr.Controller.{RetiringUserKey, RetiringUserKey-discrete, Controller}
use oldxr.Controller.Retirement.{
  RetiringUsers, drop_counters, finalize_retired_user, unlist_finalized, finalize_one,
  finalize_retiring_users,
}

abbrev pub key_at : Str → Str → RetiringUserKey
key_at tag email = record { tag = tag; email = email }

-- A registry in which one runtime has gone, that of a user without an open flow.
record Dropped (tag email : Str) (r r' : UserFlowRegistry) : Type 0 where
  idle : (a n : ℕ) → runtime_at tag email r ≡ some a → get_elem? r.heap a ≡ some n → n ≡ 0
  heap : r'.heap ≡ r.heap
  kept : (t e : Str) → key_at tag email ≢ key_at t e → runtime_at t e r' ≡ runtime_at t e r

idle_count : (a n : ℕ) (heap : List ℕ) → is_idle a heap ≡ true → get_elem? heap a ≡ some n → n ≡ 0
unfolding is_idle
idle_count a n heap h count = ground arith

module _ {S : Type 0} (cleanup : S → S × Bool) where
  finalize-ends :
      (tag email : Str) (r : UserFlowRegistry) (s : S)
      → let ((r', s'), done) = finalize cleanup tag email (r, s) in
        ((done ≡ false) × (r' ≡ r)) ⊎ ((done ≡ true) × Dropped tag email r r')
  unfolding finalize finalize_idle
  finalize-ends tag email r s = elim (Bool-cases (finalize cleanup tag email (r, s)).1) [
    | inl e ↦ elim (Option-cases (load Str-discrete tag r.nodes)) [
      | inl h ↦ absurd (ground (arith, e, h))
      | inr (n, h) ↦
          let n' : ManagedUserNode = record n { runtime = delete Str-discrete email n.runtime } in
          let nodes : (finalize cleanup tag email (r, s)).0.0.nodes
              ≡ store Str-discrete tag n' r.nodes =
            ground (arith, e, h) in
          inr (
            e,
            record {
              idle = λ a k at count. ground (arith, e, h, at, count, idle_count a k r.heap);
              heap = ground (arith, e, h);
              kept = λ t m ne. ground (
                arith,
                nodes,
                h,
                load-store Str-discrete tag t n' r.nodes,
                load-delete Str-discrete email m n.runtime,
                ne,
              );
            },
          )
    ]
    | inr e ↦ inl (e, ground (arith, e))
  ]

module _ {X B G P S K : Type 0} where
  abbrev entry_of : Str → Str → Controller X B G P S K → Option RetiringUser
  entry_of tag email c = load RetiringUserKey-discrete (key_at tag email) c.retiring_users

  -- The user's runtime, with the count of its open flows.
  abbrev pub HasFlows : Str → Str → ℕ → ℕ → Controller X B G P S K → Type 0
  HasFlows tag email a n c =
      (runtime_at tag email c.user_flows ≡ some a) × (get_elem? c.user_flows.heap a ≡ some (suc n))

module _ {A T : Type 0} (stats : StatsOps A T) (unregister_counter : Str → T → T) where
  unlist_finalized_other :
      (retired : RetiringUser) (key : RetiringUserKey) (m : RetiringUsers)
      → key_at retired.tag (key_of retired.tag retired.user) ≢ key
      → load RetiringUserKey-discrete key (unlist_finalized stats unregister_counter retired m)
        ≡ load RetiringUserKey-discrete key m
  unfolding unlist_finalized
  unlist_finalized_other retired key m ne = ground (
    arith,
    load-delete RetiringUserKey-discrete (key_at retired.tag (key_of retired.tag retired.user)) key
        m,
  )

  module _ {X B G P S K : Type 0} where
    finalize_one_busy :
        (retired : RetiringUser) (tag email : Str) (a n : ℕ) (c : Controller X B G P S K) (t : T)
        → HasFlows tag email a n c
        → let c' = (finalize_one stats unregister_counter retired (c, t)).0 in
          (entry_of tag email c' ≡ entry_of tag email c) × HasFlows tag email a n c'
    unfolding finalize_one finalize_retired_user
    finalize_one_busy retired tag email a n c t busy =
        let email0 = key_of retired.tag retired.user in
        let cleanup = drop_counters stats unregister_counter email0 in
        elim (finalize-ends cleanup retired.tag email0 c.user_flows t) [
          | inl (e, same) ↦ rw (e) (
            refl,
            (ap (runtime_at tag email) same ∙ busy.0, ap (λ r. get_elem? r.heap a) same ∙ busy.1),
          )
          | inr (e, d) ↦
              rw (e)
                (elim (RetiringUserKey-discrete (key_at retired.tag email0) (key_at tag email)) [
                  | yes here ↦ absurd (
                      ground (
                        arith,
                        d.idle a (suc n)
                            (ap (λ k. runtime_at k.tag k.email c.user_flows) here ∙ busy.0) busy.1,
                      ))
                  | no ne ↦ (
                    unlist_finalized_other retired (key_at tag email) c.retiring_users ne,
                    (d.kept tag email ne ∙ busy.0, ap (λ heap. get_elem? heap a) d.heap ∙ busy.1),
                  )
                ])
        ]

    -- A user with an open flow stays: whichever users are finalized, the entry on the list of
    -- retiring users, the runtime and the count of its flows are as they were.
    pub busy_user_stays :
        (us : List RetiringUser) (tag email : Str) (a n : ℕ) (c : Controller X B G P S K) (t : T)
        → HasFlows tag email a n c
        → let c' = (finalize_retiring_users stats unregister_counter us (c, t)).0 in
          (load RetiringUserKey-discrete (key_at tag email) c'.retiring_users
            ≡ load RetiringUserKey-discrete (key_at tag email) c.retiring_users)
          × HasFlows tag email a n c'
    unfolding finalize_retiring_users
    busy_user_stays [] tag email a n c t busy = (refl, busy)
    busy_user_stays (u ∷ us) tag email a n c t busy =
        let (c1, t1) = finalize_one stats unregister_counter u (c, t) in
        let (entry, busy1) = finalize_one_busy u tag email a n c t busy in
        let (entry', busy') = busy_user_stays us tag email a n c1 t1 busy1 in
        (entry' ∙ entry, busy')

-- ===== src/Rule/Detection.antt =====
-- `Detect` and `GetDetectResult`: who is refused, and what is recorded against whom.
use oldxr.Base.{
  subst, ◌≡◌, refl, sym, ap, ◌∙◌, ◌≢◌, ◌↔◌, ◌⊎◌, inl, inr, Bool, true, false, none, some, List, [],
  ◌∷◌, arith, if◌then◌else◌, Elem, Option-cases, Bool-cases, ◌&&◌, not, holds,
}
use oldxr.Base.Int.{ℤ, ℤ_discrete}
use oldxr.Base.Dict.{load, load-store_self, load-delete_self, load-delete_ne}
use oldxr.Base.Text.{Str, Str-discrete}
use oldxr.Base.Text.Decimal.{IsInt64}
use oldxr.Api.{DetectRule, DetectResult}
use oldxr.Limiter.Key.{format_user_key}
use oldxr.Limiter.Keys.{uid_of_key}
use oldxr.Rule.{
  PatternOps, SetOps, SetLaws, Manager, no_rule, hits, scan, uid_of, record_result, record_hit,
  detect, get_detect_result,
}
use oldxr.Rule.Update.{in_force}

-- The results on record for a tag.
abbrev pub on_record : {P S : Type 0} → SetOps S → Str → Manager P S → List DetectResult
on_record sets tag r = elim (load Str-discrete tag r.inbound_detect_result) [
  | none ↦ []
  | some s ↦ sets.elements s
]

module _ {P : Type 0} (ops : PatternOps P) where
  -- The first rule of the list that matches: those before it do not.
  abbrev pub FirstHit : List (DetectRule P) → DetectRule P → Str → Type 0
  FirstHit [] q s = ⊥
  FirstHit (r ∷ rs) q s =
      ((r ≡ q) × (hits ops r s ≡ true)) ⊎ ((hits ops r s ≡ false) × FirstHit rs q s)

  -- A rule with a pattern that matches.
  abbrev pub Matches : DetectRule P → Str → Type 0
  Matches r s = (p : P) × (r.pattern ≡ some p) × (ops.match_string p s ≡ true)

  hits-Matches : (r : DetectRule P) (s : Str) → (hits ops r s ≡ true) ↔ Matches r s
  unfolding hits
  hits-Matches r s = elim (Option-cases (r.pattern)) [
    | inl e ↦ (λ h. absurd (ground (arith, e, h)), λ (p, f, m). absurd (ground (arith, e, f)))
    | inr (p, e) ↦ (λ h. (p, e, ground (arith, e, h)), λ (q, f, m). ground (arith, f, m))
  ]

  FirstHit-Elem :
      (rs : List (DetectRule P)) (q : DetectRule P) (s : Str)
      → FirstHit rs q s
      → Elem q rs × (hits ops q s ≡ true)
  FirstHit-Elem [] q s h = absurd h
  FirstHit-Elem (r ∷ rs) q s (inl (e, h)) = (inl e, ap (λ x. hits ops x s) (sym e) ∙ h)
  FirstHit-Elem (r ∷ rs) q s (inr (h, later)) =
      let (there, hit) = FirstHit-Elem rs q s later in (inr there, hit)

  scan-Elem :
      (rs : List (DetectRule P)) (q : DetectRule P) (s : Str)
      → Elem q rs
      → hits ops q s ≡ true
      → (scan ops rs s).1 ≡ true
  unfolding scan
  scan-Elem [] q s h hit = absurd h
  scan-Elem (r ∷ rs) q s (inl e) hit = ground (arith, e, hit)
  scan-Elem (r ∷ rs) q s (inr later) hit = ground (arith, scan-Elem rs q s later hit)

  scan-nil : (s : Str) → scan ops [] s ≡ (no_rule, false)
  unfolding scan
  scan-nil s = refl

  scan-FirstHit :
      (rs : List (DetectRule P)) (q : DetectRule P) (s : Str)
      → FirstHit rs q s
      → scan ops rs s ≡ (q.id, true)
  unfolding scan
  scan-FirstHit (r ∷ rs) q s (inl (e, h)) = rw (h, e) refl
  scan-FirstHit (r ∷ rs) q s (inr (h, later)) = rw h (scan-FirstHit rs q s later)
  scan-FirstHit [] q s h = absurd h

  scan_cases :
      (rs : List (DetectRule P)) (s : Str)
      → ((q : DetectRule P) × FirstHit rs q s) ⊎ (scan ops rs s ≡ (no_rule, false))
  unfolding scan
  scan_cases [] s = inr refl
  scan_cases (r ∷ rs) s = elim (Bool-cases (hits ops r s)) [
    | inl h ↦ inl (r, inl (refl, h))
    | inr h ↦ (elim (scan_cases rs s) [
      | inl (q, later) ↦ inl (q, inr (h, later))
      | inr none_left ↦ inr (rw h none_left)
    ])
  ]

uid_of-format_user_key :
    (tag email : Str) (uid : ℤ) → IsInt64 uid → uid_of (format_user_key tag email uid) ≡ some uid
unfolding uid_of
uid_of-format_user_key tag email uid h =
    let (s, e, ne, back) = uid_of_key tag email uid h in ground (arith, e, ne, back)

module _ {P S : Type 0} (ops : PatternOps P) (sets : SetOps S) (tag destination : Str)
    (r : Manager P S) where
  -- `Detect` over the rules in force.
  outcome : Str → ℤ × Bool → Manager P S × Bool
  outcome email (id, reject) = (
    if reject && not (holds (ℤ_discrete id no_rule)) then record_hit ops sets tag email id r else r,
    reject,
  )

  detect-scan :
      (email : Str)
      → detect ops sets tag destination email r
        ≡ outcome email (scan ops (in_force tag r) destination)
  unfolding detect outcome
  detect-scan email = ground (arith, scan-nil ops destination)

  detect-hit :
      (email : Str) (q : DetectRule P)
      → FirstHit ops (in_force tag r) q destination
      → detect ops sets tag destination email r ≡ outcome email (q.id, true)
  detect-hit email q first =
      detect-scan email
      ∙ ap (outcome email) (scan-FirstHit ops (in_force tag r) q destination first)

  -- A connection is refused exactly if a rule in force for its inbound has a pattern and the
  -- pattern matches the destination.
  pub detect_refuses :
      (email : Str)
      → ((detect ops sets tag destination email r).1 ≡ true)
        ↔ ((q : DetectRule P) × Elem q (in_force tag r) × Matches ops q destination)
  unfolding outcome
  detect_refuses email = (
    λ refused. elim (scan_cases ops (in_force tag r) destination) [
      | inl (q, first) ↦
          let (there, hit) = FirstHit-Elem ops (in_force tag r) q destination first in
          (q, there, (hits-Matches ops q destination).0 hit)
      | inr miss ↦ absurd (ground (arith, detect-scan email, miss))
    ],
    λ (q, there, matches).
        ap (λ p. p.1) (detect-scan email)
        ∙ scan-Elem ops (in_force tag r) q destination there
            ((hits-Matches ops q destination).1 matches),
  )

  recorded :
      (t email : Str) (uid : ℤ) (q : DetectRule P)
      → FirstHit ops (in_force tag r) q destination
      → q.id ≢ no_rule
      → IsInt64 uid
      → (detect ops sets tag destination (format_user_key t email uid) r).0
        ≡ record_result ops sets tag (record { uid = uid; rule_id = q.id }) r
  unfolding outcome record_hit
  recorded t email uid q first id range = ground (
    arith,
    detect-hit (format_user_key t email uid) q first,
    uid_of-format_user_key t email uid range,
  )

  record_result-Elem :
      SetLaws sets
      → (a x : DetectResult)
      → let r' = record_result ops sets tag a r in
        (Elem x (on_record sets tag r') ↔ ((a ≡ x) ⊎ Elem x (on_record sets tag r)))
        × (r'.inbound_rule ≡ r.inbound_rule)
  unfolding record_result
  record_result-Elem laws a x =
      elim (Option-cases (load Str-discrete tag r.inbound_detect_result)) [
        | inl absent ↦
            let s = sets.new_set_with a in
            let now : on_record sets tag (record_result ops sets tag a r) ≡ sets.elements s =
              ground (arith, load-store_self Str-discrete tag s r.inbound_detect_result) in
            let before : on_record sets tag r ≡ [] = ground arith in
            let law = laws.elem-new_set_with x a in
            (
              (
                λ h. inl (law.0 (subst (Elem x) now h)),
                λ h. elim h [
                  | inl e ↦ subst (Elem x) (sym now) (law.1 e)
                  | inr old ↦ absurd (subst (Elem x) before old)
                ],
              ),
              ground arith,
            )
        | inr (s, present) ↦
            let now : on_record sets tag (record_result ops sets tag a r)
                ≡ sets.elements (sets.add a s) =
              ground
                (arith, load-store_self Str-discrete tag (sets.add a s) r.inbound_detect_result) in
            let before : on_record sets tag r ≡ sets.elements s = ground arith in
            let law = laws.elem-add x a s in
            (
              (
                λ h. elim (law.0 (subst (Elem x) now h)) [
                  | inl e ↦ inl e
                  | inr old ↦ inr (subst (Elem x) (sym before) old)
                ],
                λ h. elim h [
                  | inl e ↦ subst (Elem x) (sym now) (law.1 (inl e))
                  | inr old ↦ subst (Elem x) (sym now) (law.1 (inr (subst (Elem x) before old)))
                ],
              ),
              ground arith,
            )
      ]

  -- A hit on a rule with a number of its own is recorded against the user whose key the connection
  -- carries: the results of the inbound are what they were, and this one. The rules stay.
  pub detect_records :
      SetLaws sets
      → (q : DetectRule P) (t email : Str) (uid : ℤ) (x : DetectResult)
      → FirstHit ops (in_force tag r) q destination
      → q.id ≢ no_rule
      → IsInt64 uid
      → let r' = (detect ops sets tag destination (format_user_key t email uid) r).0 in
        (Elem x (on_record sets tag r')
          ↔ ((record { uid = uid; rule_id = q.id } ≡ x) ⊎ Elem x (on_record sets tag r)))
        × (r'.inbound_rule ≡ r.inbound_rule)
  detect_records laws q t email uid x first id range =
      rw (recorded t email uid q first id range)
        (record_result-Elem laws (record { uid = uid; rule_id = q.id }) x)

  -- Without a hit, or on a hit of a rule without a number, nothing is recorded.
  pub detect_unrecorded :
      (email : Str)
      → ((q : DetectRule P) → FirstHit ops (in_force tag r) q destination → q.id ≡ no_rule)
      → (detect ops sets tag destination email r).0 ≡ r
  unfolding outcome
  detect_unrecorded email h = elim (scan_cases ops (in_force tag r) destination) [
    | inl (q, first) ↦ ground (arith, detect-hit email q first, h q first)
    | inr miss ↦ ground (arith, detect-scan email, miss)
  ]

module _ {P S : Type 0} (ops : PatternOps P) (sets : SetOps S) where
  -- Collecting the results of an inbound gives all that is on record and clears it, so that a
  -- second collection gives nothing; the results of other inbounds and the rules stay.
  pub results_collected_once :
      (tag other : Str) (r : Manager P S)
      → tag ≢ other
      → let (r', results) = get_detect_result ops sets tag r in
        (results ≡ on_record sets tag r)
        × ((get_detect_result ops sets tag r').1 ≡ [])
        × (on_record sets other r' ≡ on_record sets other r)
        × (r'.inbound_rule ≡ r.inbound_rule)
  unfolding get_detect_result
  results_collected_once tag other r ne =
      let gone = load-delete_self Str-discrete tag r.inbound_detect_result in
      let stay = load-delete_ne Str-discrete tag other r.inbound_detect_result ne in
      (ground arith, ground (arith, gone), ground (arith, stay), ground arith)

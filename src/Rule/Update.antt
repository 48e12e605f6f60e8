-- ===== src/Rule/Update.antt =====
-- `UpdateRule`: the rules in force after an update are the new ones, also where the update keeps
-- the old list.
use oldxr.Base.{◌≡◌, refl, ◌≢◌, true, none, some, List, [], ◌∷◌, arith}
use oldxr.Base.Dict.{load, load-store_self, load-store_ne, load-delete_self, load-delete_ne}
use oldxr.Base.Text.{Str, Str-discrete}
use oldxr.Api.{DetectRule}
use oldxr.Rule.{
  PatternOps, SameText, Manager, same_pattern, same_rule_list, publish, update_rule, hits, scan,
}

-- The rules that `Detect` reads for a tag.
abbrev pub in_force : {P S : Type 0} → Str → Manager P S → List (DetectRule P)
in_force tag r = elim (load Str-discrete tag r.inbound_rule) [ none ↦ [] | some rs ↦ rs ]

module _ {P : Type 0} (ops : PatternOps P) (same : SameText ops) where
  same_pattern-hits :
      (r q : DetectRule P) (s : Str)
      → same_pattern ops r.pattern q.pattern ≡ true
      → hits ops r s ≡ hits ops q s
  unfolding same_pattern hits
  same_pattern-hits r q s h = grind (arith, same)

  same_rule_list-scan :
      (rs qs : List (DetectRule P)) (s : Str)
      → same_rule_list ops rs qs ≡ true
      → scan ops rs s ≡ scan ops qs s
  unfolding same_rule_list scan
  same_rule_list-scan [] [] s h = refl
  same_rule_list-scan [] (q ∷ qs) s h = absurd (cc)
  same_rule_list-scan (r ∷ rs) [] s h = absurd (cc)
  same_rule_list-scan (r ∷ rs) (q ∷ qs) s h =
      ground (arith, same_pattern-hits r q s, same_rule_list-scan rs qs s)

  -- Where patterns of one text match alike, an update makes `Detect` scan for the tag as if over
  -- the new list, whether it stores that list or keeps an equal one, and leaves the rules of every
  -- other tag.
  pub update_rule-in_force :
      {S : Type 0} (tag other : Str) (rules : List (DetectRule P)) (r : Manager P S) (s : Str)
      → tag ≢ other
      → (scan ops (in_force tag (update_rule ops tag rules r)) s ≡ scan ops rules s)
        × (in_force other (update_rule ops tag rules r) ≡ in_force other r)
  unfolding update_rule publish
  update_rule-in_force tag other [] r s ne = (
    ground (arith, load-delete_self Str-discrete tag r.inbound_rule),
    ground (arith, load-delete_ne Str-discrete tag other r.inbound_rule),
  )
  update_rule-in_force tag other (q ∷ qs) r s ne =
      let stored = load-store_self Str-discrete tag (q ∷ qs) r.inbound_rule in
      let others = load-store_ne Str-discrete tag other (q ∷ qs) r.inbound_rule ne in
      (
        ground (arith, stored, same_rule_list-scan (in_force tag r) (q ∷ qs) s),
        ground (arith, others),
      )

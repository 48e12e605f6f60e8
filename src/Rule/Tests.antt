-- ===== src/Rule/Tests.antt =====
-- The audit rules of one inbound with one rule, whose pattern matches its own text only.
use oldxr.Base.{
  ◌≡◌, ◌≢◌, ◌↔◌, ◌⊎◌, inl, inr, refl, ap, true, some, List, [], ◌∷◌, holds, Elem, arith, ℕ_discrete,
}
use oldxr.Base.Int.{pos}
use oldxr.Base.Dict.{load, store}
use oldxr.Base.Text.{Str, Str-discrete}
use oldxr.Base.Text.Decimal.{IsInt64}
use oldxr.Api.{DetectRule, DetectResult}
use oldxr.Limiter.Key.{format_user_key}
use oldxr.Rule.{
  PatternOps, SameText, SetOps, SetLaws, Manager, new, no_rule, hits, scan, update_rule, detect,
}
use oldxr.Rule.Update.{in_force, update_rule-in_force}
use oldxr.Rule.Detection.{on_record, FirstHit, Matches, detect_refuses, detect_records}

-- A pattern is its text, and matches nothing else.
abbrev literal : PatternOps Str
literal = record { text = λ p. p; match_string = λ p s. holds (Str-discrete p s) }

literal-SameText : SameText literal
literal-SameText p q s e = ap (λ t. holds (Str-discrete t s)) e

-- A set that lists what is added last first.
abbrev listed : SetOps (List DetectResult)
listed = record { new_set_with = λ a. a ∷ []; add = λ a s. a ∷ s; elements = λ s. s }

listed-laws : SetLaws listed
listed-laws = record {
  elem-new_set_with = λ r a. (λ h. elim h [ inl e ↦ e | inr empty ↦ absurd empty ], λ e. inl e);
  elem-add = λ r a s. (λ h. h, λ h. h);
}

abbrev node_tag : Str
node_tag = b'n' ∷ []

abbrev other_tag : Str
other_tag = b'o' ∷ []

abbrev site : Str
site = b's' ∷ []

abbrev park : Str
park = b'p' ∷ []

abbrev site_rule : DetectRule Str
site_rule = record { id = pos 4; pattern = some site }

abbrev r : Manager Str (List DetectResult)
r = record {
  inbound_rule = (node_tag, site_rule ∷ []) ∷ [];
  inbound_detect_result = (node_tag, record { uid = pos 2; rule_id = pos 4 } ∷ []) ∷ [];
}

r-eq :
    (update_rule literal {S = List DetectResult} node_tag (site_rule ∷ []) new).inbound_rule
    ≡ r.inbound_rule
unfolding update_rule new load store Str-discrete ℕ_discrete
r-eq = refl

tags_differ : node_tag ≢ other_tag
tags_differ e = ground arith

update_rule-in_force_example :
    (scan literal (in_force node_tag (update_rule literal node_tag (site_rule ∷ []) r)) site
      ≡ scan literal (site_rule ∷ []) site)
    × (in_force other_tag (update_rule literal node_tag (site_rule ∷ []) r) ≡ in_force other_tag r)
update_rule-in_force_example =
    update_rule-in_force literal literal-SameText node_tag other_tag (site_rule ∷ []) r site
      tags_differ

site_hit : FirstHit literal (in_force node_tag r) site_rule site
unfolding hits load Str-discrete ℕ_discrete
site_hit = inl (refl, refl)

detect_refuses_example :
    ((detect literal listed node_tag site [] r).1 ≡ true)
    ↔ ((q : DetectRule Str) × Elem q (in_force node_tag r) × Matches literal q site)
detect_refuses_example = detect_refuses literal listed node_tag site r []

numbered : pos 4 ≢ no_rule
numbered e = ground arith

three : IsInt64 (pos 3)
three = omega arith

detect_records_example :
    let r' = (detect literal listed node_tag site (format_user_key node_tag park (pos 3)) r).0 in
    (Elem (record { uid = pos 3; rule_id = pos 4 }) (on_record listed node_tag r') ↔ (
      ◌≡◌ {A = DetectResult}
        (record { uid = pos 3; rule_id = pos 4 })
        (record { uid = pos 3; rule_id = pos 4 })
      ⊎ Elem (record { uid = pos 3; rule_id = pos 4 }) (on_record listed node_tag r)))
    × (r'.inbound_rule ≡ r.inbound_rule)
detect_records_example =
    detect_records literal listed node_tag site r listed-laws site_rule node_tag park (pos 3)
      (record { uid = pos 3; rule_id = pos 4 }) site_hit numbered three

park_missed : (q : DetectRule Str) → FirstHit literal (in_force node_tag r) q park → q.id ≡ no_rule
unfolding hits load Str-discrete ℕ_discrete
park_missed q (inl (e, h)) = absurd (ground arith)
park_missed q (inr (h, later)) = absurd later

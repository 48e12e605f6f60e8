-- ===== src/Rule.antt =====
-- common/rule/rule.go: the audit rules of each inbound, and the record of who hit them.
--
-- A compiled pattern is a value of `P`, known by its text and by what it matches; the set of
-- results is one of `S`, a `mapset.Set`. Both are parameters.
pub mod Update
pub mod Detection
mod Tests
use oldxr.Base.{
  ℕ, ◌≡◌, ◌↔◌, ◌⊎◌, Bool, true, false, ◌&&◌, not, Option, none, some, List, [], ◌∷◌, holds, Elem,
  if◌then◌else◌,
}
use oldxr.Base.Int.{ℤ, negsuc, ℤ_discrete}
use oldxr.Base.Dict.{Dict, load, store, delete}
use oldxr.Base.Text.{Str, Str-discrete, after_last, atoi}
use oldxr.Api.{DetectRule, DetectResult}

-- What the program uses of `regexp.Regexp`.
pub record PatternOps (P : Type 0) : Type 0 where
  pub text : P → Str
  pub match_string : P → Str → Bool

-- Patterns compiled from one text match alike.
abbrev pub SameText : {P : Type 0} → PatternOps P → Type 0
SameText {P} ops =
    (p q : P) (s : Str) → ops.text p ≡ ops.text q → ops.match_string p s ≡ ops.match_string q s

-- What the program uses of `mapset.Set`; an iterator gives the elements in some order.
pub record SetOps (S : Type 0) : Type 0 where
  pub new_set_with : DetectResult → S
  pub add : DetectResult → S → S
  pub elements : S → List DetectResult

pub record SetLaws {S : Type 0} (ops : SetOps S) : Type 0 where
  pub elem-new_set_with :
      (r a : DetectResult) → Elem r (ops.elements (ops.new_set_with a)) ↔ (a ≡ r)
  pub elem-add :
      (r a : DetectResult) (s : S)
      → Elem r (ops.elements (ops.add a s)) ↔ ((a ≡ r) ⊎ Elem r (ops.elements s))

pub record Manager (P S : Type 0) : Type 0 where
  pub inbound_rule : Dict Str (List (DetectRule P))
  pub inbound_detect_result : Dict Str S

unfoldable pub new : {P S : Type 0} → Manager P S
new = record { inbound_rule = []; inbound_detect_result = [] }

-- `hitRuleID` before a hit, and the number of a rule that is not reported.
abbrev pub no_rule : ℤ
no_rule = negsuc 0

unfoldable pub publish : {P S : Type 0} → Str → List (DetectRule P) → Manager P S → Manager P S
publish tag new_rule_list r = record r {
  inbound_rule = store Str-discrete tag new_rule_list r.inbound_rule;
}

module _ {P : Type 0} (ops : PatternOps P) where
  -- The part of `sameRuleList` on the patterns: two nil pointers, or two equal texts.
  unfoldable pub same_pattern : Option P → Option P → Bool
  same_pattern none none = true
  same_pattern (some p) none = false
  same_pattern none (some q) = false
  same_pattern (some p) (some q) = holds (Str-discrete (ops.text p) (ops.text q))

  unfoldable pub same_rule_list : List (DetectRule P) → List (DetectRule P) → Bool
  unfolding same_pattern
  same_rule_list [] [] = true
  same_rule_list [] (r ∷ rs) = false
  same_rule_list (r ∷ rs) [] = false
  same_rule_list (r ∷ rs) (q ∷ qs) =
      holds (ℤ_discrete r.id q.id) && same_pattern r.pattern q.pattern && same_rule_list rs qs

  module _ {S : Type 0} where
    -- An empty list deletes the entry; an equal list leaves the published one.
    unfoldable pub update_rule : Str → List (DetectRule P) → Manager P S → Manager P S
    unfolding publish same_rule_list
    update_rule tag [] r = record r { inbound_rule = delete Str-discrete tag r.inbound_rule }
    update_rule tag (q ∷ qs) r = elim (load Str-discrete tag r.inbound_rule) [
      | none ↦ publish tag (q ∷ qs) r
      | some old ↦ if same_rule_list old (q ∷ qs) then r else publish tag (q ∷ qs) r
    ]

  -- A rule with a nil pattern matches nothing.
  unfoldable pub hits : DetectRule P → Str → Bool
  hits r destination = elim (r.pattern) [ none ↦ false | some p ↦ ops.match_string p destination ]

  -- The loop of `Detect`: the number of the first rule that matches, and whether one does.
  unfoldable pub scan : List (DetectRule P) → Str → ℤ × Bool
  unfolding hits
  scan [] destination = (no_rule, false)
  scan (r ∷ rs) destination =
      let rest = scan rs destination in if hits r destination then (r.id, true) else rest

-- The user id in a user's key: what follows the last bar, if that is not empty and a number.
unfoldable pub uid_of : Str → Option ℤ
uid_of email = elim (after_last b'|' email) [
  | none ↦ none
  | some [] ↦ none
  | some (c ∷ cs) ↦ atoi (c ∷ cs)
]

module _ {P S : Type 0} (ops : PatternOps P) (sets : SetOps S) where
  unfoldable pub record_result : Str → DetectResult → Manager P S → Manager P S
  record_result tag result r = elim (load Str-discrete tag r.inbound_detect_result) [
    | none ↦ record r {
      inbound_detect_result =
          store Str-discrete tag (sets.new_set_with result) r.inbound_detect_result;
    }
    | some old ↦ record r {
      inbound_detect_result = store Str-discrete tag (sets.add result old) r.inbound_detect_result;
    }
  ]

  unfoldable pub record_hit : Str → Str → ℤ → Manager P S → Manager P S
  record_hit tag email hit_rule_id r = elim (uid_of email) [
    | none ↦ r
    | some uid ↦ record_result tag (record { uid = uid; rule_id = hit_rule_id }) r
  ]

  unfoldable pub detect : Str → Str → Str → Manager P S → Manager P S × Bool
  detect tag destination email r = elim (load Str-discrete tag r.inbound_rule) [
    | none ↦ (r, false)
    | some rule_list ↦
        let (hit_rule_id, reject) = scan ops rule_list destination in
        (
          if reject && not (holds (ℤ_discrete hit_rule_id no_rule))
              then record_hit tag email hit_rule_id r
              else r,
          reject,
        )
  ]

  unfoldable pub get_detect_result : Str → Manager P S → Manager P S × List DetectResult
  get_detect_result tag r = elim (load Str-discrete tag r.inbound_detect_result) [
    | none ↦ (r, [])
    | some result_set ↦ (
      record r { inbound_detect_result = delete Str-discrete tag r.inbound_detect_result },
      sets.elements result_set,
    )
  ]

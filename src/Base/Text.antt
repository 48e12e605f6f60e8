-- ===== src/Base/Text.antt =====
-- Go's strings as their bytes, and what the program uses of strings, strconv and fmt.
pub mod Decimal
pub mod Split
use Prim.Native.Char.{code}
use Prim.Native.String.{String}
use Prim.Native.Nat.{ℕ, zero, suc, ◌+◌, ◌-◌, ◌*◌, ◌/◌, ◌%◌, ◌^◌}
use mathlib.Core.Bool.{Bool, true, false, ◌&&◌}
use mathlib.Core.List.{List, [], ◌∷◌, ◌++◌}
use mathlib.Core.Option.{Option, none, some}
use native.Mathlib.Decide.{ℕ_discrete}
use oldxr.Base.Tests.{ltb, leb, ◌==◌, if◌then◌else◌, holds}
use oldxr.Base.Int.{ℤ, pos, negsuc}

abbrev pub Str : Type 0
Str = List ℕ

unfoldable pub Str-discrete : Discrete Str
Str-discrete = hlevel ℕ_discrete

abbrev pub text_eq : Str → Str → Bool
text_eq s t = holds (Str-discrete s t)

abbrev pub is_empty : Str → Bool
is_empty [] = true
is_empty (c ∷ cs) = false

abbrev pub bytes : String → Str
bytes String.[] = []
bytes (String.◌∷◌ c s) = code c ∷ bytes s

-- `strconv.AppendInt` in base 10, least digit first into the accumulator. A number has at most
-- as many digits as its value, plus one, so that is fuel enough.
unfoldable pub append_nat : ℕ → ℕ → Str → Str
append_nat zero n acc = acc
append_nat (suc f) n acc =
    let rest = append_nat f (n / 10) ((48 + n % 10) ∷ acc) in
    if ltb n 10 then (48 + n) ∷ acc else rest

unfoldable pub itoa : ℤ → Str
unfolding append_nat
itoa (pos n) = append_nat (suc n) n []
itoa (negsuc n) = 45 ∷ append_nat (suc (suc n)) (suc n) []

unfoldable pub parse_digits : ℕ → Str → Option ℕ
parse_digits acc [] = some acc
parse_digits acc (c ∷ cs) =
    let rest = parse_digits (acc * 10 + (c - 48)) cs in if leb 48 c && leb c 57 then rest else none

-- A number without digits is a syntax error.
unfoldable pub parse_nat : Str → Option ℕ
unfolding parse_digits
parse_nat [] = none
parse_nat (c ∷ cs) = parse_digits 0 (c ∷ cs)

abbrev pub in_range : Bool → Option ℕ → Option ℤ
in_range neg none = none
in_range true (some zero) = some (pos 0)
in_range true (some (suc n)) = if ltb n (2 ^ 63) then some (negsuc n) else none
in_range false (some n) = if ltb n (2 ^ 63) then some (pos n) else none

-- `strconv.Atoi` for a 64-bit int: a sign, then digits, in range.
unfoldable pub atoi : Str → Option ℤ
unfolding parse_nat
atoi [] = none
atoi (c ∷ cs) =
    if c == 45
    then in_range true (parse_nat cs)
    else if c == 43
    then in_range false (parse_nat cs)
    else in_range false (parse_nat (c ∷ cs))

-- What follows the last occurrence of a byte, `none` if there is no such byte: the use that the
-- program makes of `strings.LastIndexByte`.
unfoldable pub after_last : ℕ → Str → Option Str
after_last b [] = none
after_last b (c ∷ cs) = elim (after_last b cs) [
  | some s ↦ some s
  | none ↦ if c == b then some cs else none
]

-- `strings.Replace(s, old, new, 1)`.
unfoldable pub strip_prefix : Str → Str → Option Str
strip_prefix [] s = some s
strip_prefix (p ∷ ps) [] = none
strip_prefix (p ∷ ps) (c ∷ cs) = elim (p == c) [ true ↦ strip_prefix ps cs | false ↦ none ]

unfoldable pub replace_first : Str → Str → Str → Str
unfolding strip_prefix
replace_first old new [] = elim (strip_prefix old []) [ some rest ↦ new ++ rest | none ↦ [] ]
replace_first old new (c ∷ cs) = elim (strip_prefix old (c ∷ cs)) [
  | some rest ↦ new ++ rest
  | none ↦ c ∷ replace_first old new cs
]

-- `strings.Join`.
unfoldable pub join : Str → List Str → Str
join sep [] = []
join sep (s ∷ []) = s
join sep (s ∷ t ∷ ts) = s ++ (sep ++ join sep (t ∷ ts))

-- `strings.ToLower` on the letters of ASCII.
abbrev pub to_lower : Str → Str
to_lower [] = []
to_lower (c ∷ cs) = (if leb 65 c && leb c 90 then c + 32 else c) ∷ to_lower cs

-- `strings.Contains`.
unfoldable pub contains : Str → Str → Bool
unfolding strip_prefix
contains needle [] = elim (strip_prefix needle []) [ some rest ↦ true | none ↦ false ]
contains needle (c ∷ cs) = elim (strip_prefix needle (c ∷ cs)) [
  | some rest ↦ true
  | none ↦ contains needle cs
]

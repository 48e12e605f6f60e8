-- ===== src/Base/Text/Split.antt =====
-- `strings.Split` at one byte, `strconv.ParseInt` of fewer bits, and the three regular expressions
-- by which the program reads a port and a host.
use Prim.Native.Nat.{ℕ, zero, suc, ◌-◌, ◌^◌, ◌<◌}
use mathlib.Core.Path.{◌≡◌, refl, ap, ◌∙◌}
use mathlib.Core.Logic.{inl, inr}
use mathlib.Core.Bool.{Bool, true, false, ◌&&◌, ◌||◌, not}
use mathlib.Core.List.{List, [], ◌∷◌, ◌++◌}
use mathlib.Core.Option.{Option, none, some}
use native.Mathlib.Omega.{arith}
use oldxr.Base.Tests.{ltb, leb, ◌==◌, if◌then◌else◌, Bool-cases}
use oldxr.Base.Lists.{All}
use oldxr.Base.Int.{ℤ, pos, negsuc}
use oldxr.Base.Text.Decimal.{Without, Starts, append_nat-Starts, parse_nat-append_nat}
use oldxr.Base.Text.{itoa, Str, bytes, parse_nat, strip_prefix, join, is_empty}

-- The byte goes in front of the first part.
abbrev pub push_byte : ℕ → List Str → List Str
push_byte c [] = (c ∷ []) ∷ []
push_byte c (part ∷ parts) = (c ∷ part) ∷ parts

unfoldable pub split : ℕ → Str → List Str
split sep [] = [] ∷ []
split sep (c ∷ cs) = let rest = split sep cs in if c == sep then [] ∷ rest else push_byte c rest

-- The test of it.
abbrev pub lacks : ℕ → Str → Bool
lacks b [] = true
lacks b (c ∷ cs) = not (c == b) && lacks b cs

pub lacks-Without : (b : ℕ) (s : Str) → lacks b s ≡ true → Without b s
lacks-Without b [] h = tt
lacks-Without b (c ∷ cs) h = (ground (arith, h), lacks-Without b cs (ground (arith, h)))

pub split-part : (sep : ℕ) (s : Str) → Without sep s → split sep s ≡ s ∷ []
unfolding split
split-part sep [] h = refl
split-part sep (c ∷ cs) h = ground (arith, h.0, split-part sep cs h.1)

split-append :
    (sep : ℕ) (s rest : Str) → Without sep s → split sep (s ++ (sep ∷ rest)) ≡ s ∷ split sep rest
unfolding split
split-append sep [] rest h = ground arith
split-append sep (c ∷ cs) rest h = ground (arith, h.0, split-append sep cs rest h.1)

-- Splitting undoes joining, for a part at least.
pub split-join :
    (sep : ℕ) (s : Str) (parts : List Str)
    → Without sep s
    → All (Without sep) parts
    → split sep (join (sep ∷ []) (s ∷ parts)) ≡ s ∷ parts
unfolding join
split-join sep s [] h hs = split-part sep s h
split-join sep s (t ∷ ts) h hs =
    split-append sep s _ h ∙ ap (λ parts. s ∷ parts) (split-join sep t ts hs.0 hs.1)

-- There is a part at least, and joining undoes splitting.
pub split-cons : (sep : ℕ) (s : Str) → (t : Str) × ((ts : List Str) × (split sep s ≡ t ∷ ts))
unfolding split
split-cons sep [] = ([], ([], refl))
split-cons sep (c ∷ cs) =
    let (t, (ts, e)) = split-cons sep cs in
    elim (Bool-cases (c == sep)) [
      | inl here ↦ ([], (split sep cs, ground (arith, here)))
      | inr other ↦ (c ∷ t, (ts, ground (arith, other, e)))
    ]

pub join-split : (sep : ℕ) (s : Str) → join (sep ∷ []) (split sep s) ≡ s
unfolding split join
join-split sep [] = refl
join-split sep (c ∷ cs) =
    let (t, (ts, e)) = split-cons sep cs in
    let rest = join-split sep cs in
    elim (Bool-cases (c == sep)) [
      | inl here ↦ ground (arith, here, e, rest)
      | inr other ↦ elim ts [
        | [] ↦ ground (arith, other, e, rest)
        | u ∷ us ↦ ground (arith, other, e, rest)
      ]
    ]

-- `strconv.ParseInt(s, 10, bits)`: a sign, then digits, in range. The bound is `2 ^ (bits - 1)`.
abbrev pub in_bounds : ℕ → Bool → Option ℕ → Option ℤ
in_bounds bound neg none = none
in_bounds bound true (some zero) = some (pos 0)
in_bounds bound true (some (suc n)) = if ltb n bound then some (negsuc n) else none
in_bounds bound false (some n) = if ltb n bound then some (pos n) else none

unfoldable pub parse_int : ℕ → Str → Option ℤ
unfolding parse_nat
parse_int bits [] = none
parse_int bits (c ∷ cs) =
    if c == 45
    then in_bounds (2 ^ (bits - 1)) true (parse_nat cs)
    else if c == 43
    then in_bounds (2 ^ (bits - 1)) false (parse_nat cs)
    else in_bounds (2 ^ (bits - 1)) false (parse_nat (c ∷ cs))

parse_int-Starts :
    (bits : ℕ) (s : Str)
    → Starts s
    → parse_int bits s ≡ in_bounds (2 ^ (bits - 1)) false (parse_nat s)
unfolding parse_int
parse_int-Starts bits s (c, cs, e, lo, hi) = rw e (ground arith)

-- A printed number below the bound reads back.
pub parse_int-itoa :
    (bits n : ℕ) → n < 2 ^ (bits - 1) → parse_int bits (itoa (pos n)) ≡ some (pos n)
unfolding itoa
parse_int-itoa bits n h =
    parse_int-Starts bits _ (append_nat-Starts (suc n) n [] (inl (omega arith)))
    ∙ ap (in_bounds (2 ^ (bits - 1)) false) (parse_nat-append_nat n)
    ∙ ground arith

-- The longest prefix whose bytes pass the test, and the rest.
unfoldable pub span : (ℕ → Bool) → Str → Str × Str
span test [] = ([], [])
span test (c ∷ cs) =
    let (ds, rest) = span test cs in if test c then (c ∷ ds, rest) else ([], c ∷ cs)

abbrev pub is_digit : ℕ → Bool
is_digit c = leb 48 c && leb c 57

-- `[\w.]`.
abbrev pub is_host_byte : ℕ → Bool
is_host_byte c =
    is_digit c || (leb 65 c && leb c 90) || (leb 97 c && leb c 122) || c == 95 || c == 46

-- The group of a match of `prefix([test]+)` at the front.
unfoldable pub group_after : Str → (ℕ → Bool) → Str → Option (Str × Str)
unfolding span strip_prefix
group_after before test s = elim (strip_prefix before s) [
  | none ↦ none
  | some rest ↦
      let (group, after) = span test rest in if is_empty group then none else some (group, after)
]

-- The group of the leftmost match of `port=(\d+)#?`.
unfoldable pub first_port : Str → Option Str
unfolding group_after
first_port [] = none
first_port (c ∷ cs) = elim (group_after (bytes "port=") is_digit (c ∷ cs)) [
  | some (port, after) ↦ some port
  | none ↦ first_port cs
]

-- `port=\d+#(\d+)`.
unfoldable pub port_pair : Str → Option Str
unfolding group_after
port_pair s = elim (group_after (bytes "port=") is_digit s) [
  | none ↦ none
  | some (port, after) ↦ elim (group_after (bytes "#") is_digit after) [
    | none ↦ none
    | some (second, rest) ↦ some second
  ]
]

unfoldable pub second_port : Str → Option Str
unfolding port_pair
second_port [] = none
second_port (c ∷ cs) = elim (port_pair (c ∷ cs)) [ some port ↦ some port | none ↦ second_port cs ]

-- `host=([\w.]+)\|?`.
unfoldable pub first_host : Str → Option Str
unfolding group_after
first_host [] = none
first_host (c ∷ cs) = elim (group_after (bytes "host=") is_host_byte (c ∷ cs)) [
  | some (host, after) ↦ some host
  | none ↦ first_host cs
]

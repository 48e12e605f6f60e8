-- ===== src/Base/Text/Decimal.antt =====
-- A printed integer reads back, and its text holds digits and a sign only.
use oldxr.Base.Tests.{ltb, Bool-cases}
use oldxr.Base.Lists.{All}
use oldxr.Base.Int.{ℤ, pos, negsuc}
use Prim.Native.Nat.{ℕ, zero, suc, ◌+◌, ◌*◌, ◌/◌, ◌%◌, ◌^◌, ◌≤◌, ◌<◌}
use mathlib.Core.Path.{◌≡◌, refl, ap, ◌∙◌}
use mathlib.Core.Logic.{◌≢◌, inl, inr, ◌⊎◌}
use mathlib.Core.List.{[], ◌∷◌, ◌++◌}
use mathlib.Core.Option.{none, some}
use mathlib.Core.Bool.{true, false}
use native.Mathlib.Omega.{arith}
use oldxr.Base.Text.{Str, append_nat, itoa, parse_digits, parse_nat, in_range, atoi, after_last}

parse_digit :
    (acc d : ℕ) (cs : Str)
    → d < 10
    → parse_digits acc ((48 + d) ∷ cs) ≡ parse_digits (acc * 10 + d) cs
unfolding parse_digits
parse_digit acc d cs h = ground arith

parse-append_nat :
    (f n : ℕ) (acc : Str) → n < f → parse_digits 0 (append_nat f n acc) ≡ parse_digits n acc
unfolding append_nat
parse-append_nat zero n acc h = elim h [ ]
parse-append_nat (suc f) n acc h = elim (Bool-cases (ltb n 10)) [
  | inl small ↦
      rw small (parse_digit 0 n acc (ground arith) ∙ ap (λ t. parse_digits t acc) (omega arith))
  | inr large ↦ rw large (
      parse-append_nat f (n / 10) _ (ground arith)
      ∙ parse_digit (n / 10) (n % 10) acc (omega arith)
      ∙ ap (λ t. parse_digits t acc) (omega arith))
]

-- What the digits are, before a text that is not parsed here.
abbrev IsDigit : ℕ → Type 0
IsDigit c = (48 ≤ c) × (c ≤ 57)

append_nat-digits : (f n : ℕ) (acc : Str) → All IsDigit acc → All IsDigit (append_nat f n acc)
unfolding append_nat
append_nat-digits zero n acc h = h
append_nat-digits (suc f) n acc h =
    ground (arith, append_nat-digits f (n / 10) ((48 + n % 10) ∷ acc))

-- The first byte of a number is a digit.
abbrev pub Starts : Str → Type 0
Starts s = (c : ℕ) × (cs : Str) × (s ≡ c ∷ cs) × (48 ≤ c) × (c ≤ 57)

pub append_nat-Starts : (f n : ℕ) (acc : Str) → (0 < f) ⊎ Starts acc → Starts (append_nat f n acc)
unfolding append_nat
append_nat-Starts zero n acc (inl h) = elim h [ ]
append_nat-Starts zero n acc (inr h) = h
append_nat-Starts (suc f) n acc h = elim (Bool-cases (ltb n 10)) [
  | inl small ↦ rw small (48 + n, acc, refl, omega arith, ground arith)
  | inr large ↦
      rw large
        (append_nat-Starts f (n / 10) _ (inr (48 + n % 10, acc, refl, omega arith, omega arith)))
]

parse_nat-Starts : (s : Str) → Starts s → parse_nat s ≡ parse_digits 0 s
unfolding parse_nat
parse_nat-Starts s (c, cs, e, lo, hi) = rw e

atoi-Starts : (s : Str) → Starts s → atoi s ≡ in_range false (parse_nat s)
unfolding atoi
atoi-Starts s (c, cs, e, lo, hi) = rw e (ground arith)

pub parse_nat-append_nat : (n : ℕ) → parse_nat (append_nat (suc n) n []) ≡ some n
unfolding parse_digits
parse_nat-append_nat n =
    parse_nat-Starts _ (append_nat-Starts (suc n) n [] (inl (omega arith)))
    ∙ parse-append_nat (suc n) n [] (omega arith)

-- What a 64-bit int can hold.
abbrev pub IsInt64 : ℤ → Type 0
IsInt64 (pos n) = n < 2 ^ 63
IsInt64 (negsuc n) = n < 2 ^ 63

-- Reading a printed 64-bit integer gives it back.
pub atoi-itoa : (z : ℤ) → IsInt64 z → atoi (itoa z) ≡ some z
unfolding itoa atoi
atoi-itoa (pos n) h =
    atoi-Starts _ (append_nat-Starts (suc n) n [] (inl (omega arith)))
    ∙ ap (in_range false) (parse_nat-append_nat n)
    ∙ ground arith
atoi-itoa (negsuc n) h = ap (in_range true) (parse_nat-append_nat (suc n)) ∙ ground arith

-- A byte that is not in a text.
abbrev pub Without : ℕ → Str → Type 0
Without b s = All (λ c. c ≢ b) s

digits-Without : (b : ℕ) (s : Str) → 57 < b → All IsDigit s → Without b s
digits-Without b [] h a = tt
digits-Without b (c ∷ cs) h a = (omega (arith, a.0), digits-Without b cs h a.1)

pub itoa-Without : (b : ℕ) (z : ℤ) → 57 < b → Without b (itoa z)
unfolding itoa
itoa-Without b (pos n) h = digits-Without b _ h (append_nat-digits (suc n) n [] tt)
itoa-Without b (negsuc n) h =
    (omega arith, digits-Without b _ h (append_nat-digits (suc (suc n)) (suc n) [] tt))

pub itoa-ne-nil : (z : ℤ) → itoa z ≢ []
unfolding itoa
itoa-ne-nil (pos n) e =
    let (c, cs, p, _, _) = append_nat-Starts (suc n) n [] (inl (omega arith)) in cc
itoa-ne-nil (negsuc n) e = cc

pub after_last-Without : (b : ℕ) (s : Str) → Without b s → after_last b s ≡ none
unfolding after_last
after_last-Without b [] h = refl
after_last-Without b (c ∷ cs) h = rw (after_last-Without b cs h.1) (ground arith)

-- The text after the last occurrence is what was appended, if that lacks the byte.
pub after_last-append : (b : ℕ) (xs ys : Str) → Without b ys → after_last b (xs ++ b ∷ ys) ≡ some ys
unfolding after_last
after_last-append b [] ys h = rw (after_last-Without b ys h) (ground arith)
after_last-append b (x ∷ xs) ys h = rw (after_last-append b xs ys h)

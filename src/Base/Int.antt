-- ===== src/Base/Int.antt =====
-- Go's `int` as a signed integer, and a two's complement word as its bit pattern.
use Prim.Native.Nat.{ℕ, ◌+◌, ◌-◌, ◌/◌, ◌%◌, ◌^◌}
use mathlib.Core.Bool.{Bool, true, false}
use native.Mathlib.Decide.{ℕ_discrete}
use oldxr.Base.Tests.{ltb, leb, if◌then◌else◌}

-- `negsuc n` is -(n + 1).
pub data ℤ : Type 0 where
  pos : ℕ → ℤ
  negsuc : ℕ → ℤ

unfoldable pub ℤ_discrete : Discrete ℤ
ℤ_discrete = hlevel ℕ_discrete

-- The number that a positive integer is; 0 for the others.
abbrev pub to_nat : ℤ → ℕ
to_nat (pos n) = n
to_nat (negsuc n) = 0

abbrev pub is_positive : ℤ → Bool
is_positive (pos n) = ltb 0 n
is_positive (negsuc n) = false

-- `int(x)` of a uint64.
abbrev pub int_of_u64 : ℕ → ℤ
int_of_u64 x = if ltb x (2 ^ 63) then pos x else negsuc (2 ^ 64 - 1 - x)

abbrev pub leb_ℤ : ℤ → ℤ → Bool
leb_ℤ (pos a) (pos b) = leb a b
leb_ℤ (pos a) (negsuc b) = false
leb_ℤ (negsuc a) (pos b) = true
leb_ℤ (negsuc a) (negsuc b) = leb b a

-- A Go int as a 64-bit word.
abbrev pub to_word : ℤ → ℕ
to_word (pos n) = n % 2 ^ 64
to_word (negsuc n) = 2 ^ 64 - 1 - n % 2 ^ 64

-- The quotient of a word, as an int64, by a positive number: it is cut towards zero.
abbrev pub quot_word : ℕ → ℕ → ℕ
quot_word x d = if ltb x (2 ^ 63) then x / d else (2 ^ 64 - (2 ^ 64 - x) / d) % 2 ^ 64

-- `x - y` and `x + y` of an int, which wrap.
abbrev pub sub_int : ℤ → ℤ → ℤ
sub_int x y = int_of_u64 ((to_word x + (2 ^ 64 - to_word y)) % 2 ^ 64)

abbrev pub add_int : ℤ → ℤ → ℤ
add_int x y = int_of_u64 ((to_word x + to_word y) % 2 ^ 64)

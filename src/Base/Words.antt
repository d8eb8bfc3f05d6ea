-- ===== src/Base/Words.antt =====
-- The C integer types of the program's 32-bit ARM kernel: `size_t` and `unsigned long` are numbers
-- below 2^32 with their wrap-around written out, `int` and `loff_t` are integers in two's
-- complement of 32 and 64 bits.
use Prim.Native.Nat.{ℕ, suc, ◌+◌, ◌-◌, ◌*◌, ◌%◌, ◌^◌, ◌≤◌, ◌<◌, min}
use mathlib.Core.Path.{◌≡◌}
use mathlib.Core.Bool.{Bool}
use native.Mathlib.Omega.{arith}
use petulant_wookie.Base.Tests.{ltb, leb, if◌then◌else◌}

abbrev pub size_mod : ℕ
size_mod = 2 ^ 32

-- Sums, differences and products of `size_t`.
abbrev pub add_size : ℕ → ℕ → ℕ
add_size a b = (a + b) % size_mod

abbrev pub sub_size : ℕ → ℕ → ℕ
sub_size a b = (a + size_mod - b) % size_mod

abbrev pub mul_size : ℕ → ℕ → ℕ
mul_size a b = a * b % size_mod

-- `negsuc n` is -(n + 1).
pub data ℤ : Type 0 where
  pos : ℕ → ℤ
  negsuc : ℕ → ℤ

abbrev pub pos_part : ℤ → ℕ
pos_part (pos n) = n
pos_part (negsuc n) = 0

abbrev pub neg_part : ℤ → ℕ
neg_part (pos n) = 0
neg_part (negsuc n) = suc n

-- a - b, as an integer.
abbrev pub sub_ℕ : ℕ → ℕ → ℤ
sub_ℕ a b = if leb b a then pos (a - b) else negsuc (b - a - 1)

infixl 65 ◌+ℤ◌ ◌-ℤ◌
infix 50 ◌≤ℤ◌ ◌<ℤ◌
unfoldable pub ◌+ℤ◌ : ℤ → ℤ → ℤ
a +ℤ b = sub_ℕ (pos_part a + pos_part b) (neg_part a + neg_part b)

unfoldable pub ◌-ℤ◌ : ℤ → ℤ → ℤ
a -ℤ b = sub_ℕ (pos_part a + neg_part b) (neg_part a + pos_part b)

abbrev pub ◌≤ℤ◌ : ℤ → ℤ → Type 0
a ≤ℤ b = pos_part a + neg_part b ≤ pos_part b + neg_part a

abbrev pub ◌<ℤ◌ : ℤ → ℤ → Type 0
a <ℤ b = pos_part a + neg_part b < pos_part b + neg_part a

abbrev pub ltb_ℤ : ℤ → ℤ → Bool
ltb_ℤ a b = ltb (pos_part a + neg_part b) (pos_part b + neg_part a)

abbrev pub leb_ℤ : ℤ → ℤ → Bool
leb_ℤ a b = leb (pos_part a + neg_part b) (pos_part b + neg_part a)

-- The value of a bit pattern of `2 * half` values read as a signed integer.
abbrev pub signed : ℕ → ℕ → ℤ
signed half m = if ltb m half then pos m else negsuc (2 * half - 1 - m)

-- The bit pattern of an integer among `modulus` values.
abbrev pub unsigned : ℕ → ℤ → ℕ
unsigned modulus (pos n) = n % modulus
unsigned modulus (negsuc n) = modulus - 1 - n % modulus

-- `(int) n` and `(size_t) i`.
abbrev pub to_int : ℕ → ℤ
to_int n = signed (2 ^ 31) (n % size_mod)

abbrev pub to_size : ℤ → ℕ
to_size i = unsigned size_mod i

-- An `int` and a `loff_t` result, wrapped.
abbrev pub wrap_int : ℤ → ℤ
wrap_int i = signed (2 ^ 31) (unsigned (2 ^ 32) i)

abbrev pub wrap_loff : ℤ → ℤ
wrap_loff i = signed (2 ^ 63) (unsigned (2 ^ 64) i)

-- `(size_t) min((int) a, (int) b)`
unfoldable pub min_int : ℕ → ℕ → ℕ
min_int a b = if ltb_ℤ (to_int a) (to_int b) then to_size (to_int a) else to_size (to_int b)

-- Both casts keep a value below 2^31.
pub min_int-eq-min : (a b : ℕ) → a < 2 ^ 31 → b < 2 ^ 31 → min_int a b ≡ min a b
unfolding min_int
min_int-eq-min a b ha hb = ground arith

pub sub_size-eq : (a b : ℕ) → b ≤ a → a < 2 ^ 32 → sub_size a b ≡ a - b
sub_size-eq a b h l = omega arith

pub to_int_small : (n : ℕ) → n < 2 ^ 31 → to_int n ≡ pos n
to_int_small n h = ground arith

-- An increment and a decrement within the range of `int` do not wrap.
pub wrap_int_inc : (n : ℕ) → n + 1 < 2 ^ 31 → wrap_int (pos n +ℤ pos 1) ≡ pos (n + 1)
unfolding ◌+ℤ◌
wrap_int_inc n h = ground arith

pub wrap_int_dec : (n : ℕ) → 0 < n → n < 2 ^ 31 → wrap_int (pos n -ℤ pos 1) ≡ pos (n - 1)
unfolding ◌-ℤ◌
wrap_int_dec n h l = ground arith

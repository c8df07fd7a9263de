-- ===== src/Wire/Bits.antt =====
-- The masks and shifts of the varint code as arithmetic.
use Prim.Native.Nat.{bit_and, bit_or, digits, bit_and-bitwise, bit_or-bitwise, min, max}
use exec_relay.Base.{
  ℕ, zero, suc, ◌+◌, ◌*◌, ◌/◌, ◌%◌, ◌^◌, ◌≤◌, ◌<◌, ◌≡◌, refl, ap, sym, ◌∙◌, arith,
}
use native.Mathlib.Nat.{pow-suc}

-- The digit recursion does not depend on how much fuel is left.
digits_fuel :
    (z : ℕ → ℕ) (f : ℕ → ℕ → ℕ) (n m a b : ℕ) → a ≤ n → a ≤ m → digits z f n a b ≡ digits z f m a b
digits_fuel z f zero zero a b p q = refl
digits_fuel z f zero (suc m) zero b p q = refl
digits_fuel z f zero (suc m) (suc a) b p q = absurd (omega arith)
digits_fuel z f (suc n) zero zero b p q = refl
digits_fuel z f (suc n) zero (suc a) b p q = absurd (omega arith)
digits_fuel z f (suc n) (suc m) zero b p q = refl
digits_fuel z f (suc n) (suc m) (suc a) b p q =
    omega (arith, digits_fuel z f n m (suc a / 2) (b / 2) (omega arith) (omega arith))

-- One digit of a bitwise operation: the lowest one, over those of the halves.
lowest_digit :
    (z : ℕ → ℕ) (f : ℕ → ℕ → ℕ) (a b : ℕ)
    → digits z f (suc a) (suc a) b
      ≡ digits z f (suc a / 2) (suc a / 2) (b / 2) * 2 + f (suc a % 2) (b % 2)
lowest_digit z f a b =
    ap (λ q. q * 2 + f (suc a % 2) (b % 2))
      (digits_fuel z f a (suc a / 2) (suc a / 2) (b / 2) (omega arith) (omega arith))

bit_and-halves : (m n : ℕ) → bit_and m n ≡ bit_and (m / 2) (n / 2) * 2 + min (m % 2) (n % 2)
bit_and-halves zero n = omega (arith, bit_and-bitwise 0 n, bit_and-bitwise 0 (n / 2))
bit_and-halves (suc m) n =
    bit_and-bitwise (suc m) n
    ∙ lowest_digit (λ _. 0) min m n
    ∙ ap (λ q. q * 2 + min (suc m % 2) (n % 2)) (sym (bit_and-bitwise (suc m / 2) (n / 2)))

bit_or-halves : (m n : ℕ) → bit_or m n ≡ bit_or (m / 2) (n / 2) * 2 + max (m % 2) (n % 2)
bit_or-halves zero n = omega (arith, bit_or-bitwise 0 n, bit_or-bitwise 0 (n / 2))
bit_or-halves (suc m) n =
    bit_or-bitwise (suc m) n
    ∙ lowest_digit (λ c. c) max m n
    ∙ ap (λ q. q * 2 + max (suc m % 2) (n % 2)) (sym (bit_or-bitwise (suc m / 2) (n / 2)))

no_digits : (n a : ℕ) → digits (λ _. 0) min n a 0 ≡ 0
no_digits zero zero = refl
no_digits (suc n) zero = refl
no_digits zero (suc a) = refl
no_digits (suc n) (suc a) = omega (arith, no_digits n (suc a / 2))

bit_and-zero : (a : ℕ) → bit_and a 0 ≡ 0
bit_and-zero a = bit_and-bitwise a 0 ∙ no_digits a a

bit_and-one : (a : ℕ) → bit_and a 1 ≡ a % 2
bit_and-one a = omega (arith, bit_and-halves a 1, bit_and-zero (a / 2))

bit_and_three : (a : ℕ) → bit_and a 3 ≡ a % 4
bit_and_three a = omega (arith, bit_and-halves a 3, bit_and-one (a / 2))

-- n & 0x7
pub bit_and_seven : (a : ℕ) → bit_and a 7 ≡ a % 8
bit_and_seven a = omega (arith, bit_and-halves a 7, bit_and_three (a / 2))

bit_and_fifteen : (a : ℕ) → bit_and a 15 ≡ a % 16
bit_and_fifteen a = omega (arith, bit_and-halves a 15, bit_and_seven (a / 2))

low_five : (a : ℕ) → bit_and a 31 ≡ a % 32
low_five a = omega (arith, bit_and-halves a 31, bit_and_fifteen (a / 2))

low_six : (a : ℕ) → bit_and a 63 ≡ a % 64
low_six a = omega (arith, bit_and-halves a 63, low_five (a / 2))

-- n & 0x7F
pub low_bits : (a : ℕ) → bit_and a 127 ≡ a % 128
low_bits a = omega (arith, bit_and-halves a 127, low_six (a / 2))

bit_one : (a : ℕ) → bit_and a 2 ≡ a / 2 % 2 * 2
bit_one a = omega (arith, bit_and-halves a 2, bit_and-one (a / 2))

bit_two : (a : ℕ) → bit_and a 4 ≡ a / 4 % 2 * 4
bit_two a = omega (arith, bit_and-halves a 4, bit_one (a / 2))

bit_three : (a : ℕ) → bit_and a 8 ≡ a / 8 % 2 * 8
bit_three a = omega (arith, bit_and-halves a 8, bit_two (a / 2))

bit_four : (a : ℕ) → bit_and a 16 ≡ a / 16 % 2 * 16
bit_four a = omega (arith, bit_and-halves a 16, bit_three (a / 2))

bit_five : (a : ℕ) → bit_and a 32 ≡ a / 32 % 2 * 32
bit_five a = omega (arith, bit_and-halves a 32, bit_four (a / 2))

bit_six : (a : ℕ) → bit_and a 64 ≡ a / 64 % 2 * 64
bit_six a = omega (arith, bit_and-halves a 64, bit_five (a / 2))

-- n & 0x80
pub top_bit : (a : ℕ) → bit_and a 128 ≡ a / 128 % 2 * 128
top_bit a = omega (arith, bit_and-halves a 128, bit_six (a / 2))

double_pow : (s : ℕ) → 2 ^ suc s ≡ 2 * 2 ^ s
double_pow s = rw pow-suc (omega arith)

double_shift : (s x : ℕ) → x * 2 ^ suc s ≡ x * 2 ^ s * 2
double_shift s x = rw double_pow (omega arith)

-- r | (x << s), where r has no bit from s on.
pub bit_or_disjoint : (s r x : ℕ) → r < 2 ^ s → bit_or r (x * 2 ^ s) ≡ r + x * 2 ^ s
bit_or_disjoint zero zero x h = omega (arith, bit_or-bitwise 0 (x * 2 ^ 0))
bit_or_disjoint zero (suc r) x h = absurd (omega arith)
bit_or_disjoint (suc s) r x h = rw (double_shift s x) (
    omega (
      arith,
      bit_or-halves r (x * 2 ^ s * 2),
      ap (bit_or (r / 2)) halved,
      double_pow s,
      bit_or_disjoint s (r / 2) x (omega (arith, double_pow s)),
    ))
  where
    halved : x * 2 ^ s * 2 / 2 ≡ x * 2 ^ s
    halved = omega arith

own_digits : (n a : ℕ) → a ≤ n → digits (λ c. c) max n a 0 ≡ a
own_digits zero zero h = refl
own_digits (suc n) zero h = refl
own_digits zero (suc a) h = absurd (omega arith)
own_digits (suc n) (suc a) h = omega (arith, own_digits n (suc a / 2) (omega arith))

pub bit_or-zero : (a : ℕ) → bit_or a 0 ≡ a
bit_or-zero a = bit_or-bitwise a 0 ∙ own_digits a a (omega arith)

bit_or-one : (a : ℕ) → bit_or (a * 2) 1 ≡ a * 2 + 1
bit_or-one a =
    omega (arith, bit_or-halves (a * 2) 1, ap (λ x. bit_or x 0) (doubled a), bit_or-zero a)
  where
    doubled : (a : ℕ) → a * 2 / 2 ≡ a
    doubled a = omega arith

-- (n << 3) | 2
pub tag_two : (n : ℕ) → bit_or (n * 2 ^ 3) 2 ≡ n * 8 + 2
tag_two n =
    omega (arith, bit_or-halves (n * 8) 2, ap (λ x. bit_or x 1) (halved n), bit_or-one (n * 2))
  where
    halved : (n : ℕ) → n * 8 / 2 ≡ n * 2 * 2
    halved n = omega arith

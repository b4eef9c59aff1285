-- ===== src/Base/Bits.antt =====
-- The laws of exclusive or, from the digit recursion that the native operation means.
use Prim.Native.Nat.{
  ℕ, zero, suc, ◌+◌, ◌*◌, ◌/◌, ◌%◌, ◌^◌, ◌≤◌, ◌<◌, bit_xor, digits, differ, bit_xor-bitwise,
}
use mathlib.Core.Path.{◌≡◌, refl, ap}
use native.Mathlib.Nat.{pow-suc}
use native.Mathlib.Omega.{arith}

abbrev xor_digits : ℕ → ℕ → ℕ → ℕ
xor_digits n a b = digits (λ b. b) differ n a b

-- Any fuel from the first number on gives the same digits.
xor_digits_fuel : (n m a b : ℕ) → a ≤ n → a ≤ m → xor_digits n a b ≡ xor_digits m a b
xor_digits_fuel zero zero a b p q = refl
xor_digits_fuel zero (suc m) zero b p q = refl
xor_digits_fuel zero (suc m) (suc a) b p q = absurd (omega arith)
xor_digits_fuel (suc n) zero zero b p q = refl
xor_digits_fuel (suc n) zero (suc a) b p q = absurd (omega arith)
xor_digits_fuel (suc n) (suc m) zero b p q = refl
xor_digits_fuel (suc n) (suc m) (suc a) b p q =
    omega (arith, xor_digits_fuel n m (suc a / 2) (b / 2) (omega arith) (omega arith))

-- The exclusive or of two binary digits.
abbrev pub digit_xor : ℕ → ℕ → ℕ
digit_xor a b = (a + b) % 2

differ-digit_xor : (a b : ℕ) → a < 2 → b < 2 → differ a b ≡ digit_xor a b
differ-digit_xor zero zero ha hb = refl
differ-digit_xor zero (suc zero) ha hb = refl
differ-digit_xor zero (suc (suc b)) ha hb = absurd (omega arith)
differ-digit_xor (suc zero) zero ha hb = refl
differ-digit_xor (suc zero) (suc zero) ha hb = refl
differ-digit_xor (suc zero) (suc (suc b)) ha hb = absurd (omega arith)
differ-digit_xor (suc (suc a)) b ha hb = absurd (omega arith)

pub bit_xor_step : (a b : ℕ) → bit_xor a b ≡ bit_xor (a / 2) (b / 2) * 2 + digit_xor (a % 2) (b % 2)
bit_xor_step zero b = omega (arith, bit_xor-bitwise 0 b, bit_xor-bitwise 0 (b / 2))
bit_xor_step (suc a) b = omega (
  arith,
  bit_xor-bitwise (suc a) b,
  bit_xor-bitwise (suc a / 2) (b / 2),
  xor_digits_fuel a (suc a / 2) (suc a / 2) (b / 2) (omega arith) (omega arith),
  differ-digit_xor (suc a % 2) (b % 2) (omega arith) (omega arith),
)

-- A width bounds the result.
pub bit_xor-lt : (k a b : ℕ) → a < 2 ^ k → b < 2 ^ k → bit_xor a b < 2 ^ k
bit_xor-lt zero zero zero ha hb = ground (arith, bit_xor-bitwise 0 0)
bit_xor-lt zero zero (suc b) ha hb = absurd (omega arith)
bit_xor-lt zero (suc a) b ha hb = absurd (omega arith)
bit_xor-lt (suc k) a b ha hb =
    ground (arith, bit_xor_step a b, pow-suc 2 k, bit_xor-lt k (a / 2) (b / 2))

-- Below a width: a second exclusive or with the same number undoes the first.
pub bit_xor_cancel : (k a b : ℕ) → a < 2 ^ k → b < 2 ^ k → bit_xor (bit_xor a b) b ≡ a
bit_xor_cancel zero zero zero ha hb = refl
bit_xor_cancel zero zero (suc b) ha hb = absurd (omega arith)
bit_xor_cancel zero (suc a) b ha hb = absurd (omega arith)
bit_xor_cancel (suc k) a b ha hb = ground (
  arith,
  bit_xor_step a b,
  bit_xor_step (bit_xor a b) b,
  pow-suc 2 k,
  bit_xor_cancel k (a / 2) (b / 2),
)

-- The bit at `k` of one number alone shows in the result.
pub bit_xor_top : (k a p : ℕ) → a < 2 ^ k → p < 2 ^ k → bit_xor a (2 ^ k + p) ≡ 2 ^ k + bit_xor a p
bit_xor_top zero zero zero ha hp = refl
bit_xor_top zero zero (suc p) ha hp = absurd (omega arith)
bit_xor_top zero (suc a) p ha hp = absurd (omega arith)
bit_xor_top (suc k) a p ha hp = ground (
  arith,
  bit_xor_step a (2 ^ suc k + p),
  bit_xor_step a p,
  pow-suc 2 k,
  ap (λ (t : ℕ). bit_xor (a / 2) t) halved,
  bit_xor_top k (a / 2) (p / 2),
)
  where
    halved : (2 ^ suc k + p) / 2 ≡ 2 ^ k + p / 2
    halved = omega (arith, pow-suc 2 k)

pub bit_xor_comm : (k a b : ℕ) → a < 2 ^ k → b < 2 ^ k → bit_xor a b ≡ bit_xor b a
bit_xor_comm zero zero zero ha hb = refl
bit_xor_comm zero zero (suc b) ha hb = absurd (omega arith)
bit_xor_comm zero (suc a) b ha hb = absurd (omega arith)
bit_xor_comm (suc k) a b ha hb =
    ground (arith, bit_xor_step a b, bit_xor_step b a, pow-suc 2 k, bit_xor_comm k (a / 2) (b / 2))

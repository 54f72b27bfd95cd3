-- ===== src/Prelude/Bits.antt =====
-- Laws of `bit_xor` and `bit_or` at variables: one equation for the lowest digit, then induction.
use Prim.Native.Nat.{
  ℕ, zero, suc, ◌+◌, ◌*◌, ◌/◌, ◌%◌, ◌^◌, ◌≤◌, ◌<◌, max, min, bit_and, bit_and-bitwise, bit_or,
  bit_xor, digits, bitwise, bit_or-bitwise, bit_xor-bitwise, differ,
}
use mathlib.Core.Path.{◌≡◌, refl, ap, ◌∙◌}
use native.Mathlib.Omega.{arith}
use native.Mathlib.Decide.{dec_le}
use native.Mathlib.Nat.{pow-suc}

-- `past` is what follows once the first number has no digit left, `join` works on two digits.
module _ (past : ℕ → ℕ) (join : ℕ → ℕ → ℕ) where
  -- One round more than the first number needs is not used.
  spare_round :
      (rounds x y : ℕ)
      → x ≤ rounds
      → digits past join (suc rounds) x y ≡ digits past join rounds x y
  spare_round zero zero y le = refl
  spare_round (suc rounds) zero y le = refl
  spare_round zero (suc x) y le = absurd (omega arith)
  spare_round (suc rounds) (suc x) y le =
      ap (λ high. high * 2 + join (suc x % 2) (y % 2))
        (spare_round rounds (suc x / 2) (y / 2) (omega arith))

  trim : (rounds x y : ℕ) → x ≤ rounds → digits past join rounds x y ≡ bitwise past join x y
  trim zero zero y le = refl
  trim zero (suc x) y le = absurd (omega arith)
  trim (suc rounds) x y le = elim (dec_le x rounds) [
    | yes short ↦ spare_round rounds x y short ∙ trim rounds x y short
    | no long ↦ let whole : suc rounds ≡ x = omega arith in ap (λ n. digits past join n x y) whole
  ]

  -- One round of the recursion on a number that has a digit.
  lowest_digit :
      (x y : ℕ)
      → bitwise past join (suc x) y
        ≡ bitwise past join (suc x / 2) (y / 2) * 2 + join (suc x % 2) (y % 2)
  lowest_digit x y =
      ap (λ high. high * 2 + join (suc x % 2) (y % 2)) (trim x (suc x / 2) (y / 2) (omega arith))

differ_lem : (x y : ℕ) → x < 2 → y < 2 → differ x y ≡ (x + y) % 2
differ_lem zero y p q = omega arith
differ_lem (suc zero) zero p q = refl
differ_lem (suc zero) (suc zero) p q = refl
differ_lem (suc zero) (suc (suc y)) p q = absurd (omega arith)
differ_lem (suc (suc x)) y p q = absurd (omega arith)

-- The lowest digit of `|`.
pub bit_or_step : (x y : ℕ) → bit_or x y ≡ bit_or (x / 2) (y / 2) * 2 + max (x % 2) (y % 2)
bit_or_step zero y = simp bit_or-bitwise (omega arith)
bit_or_step (suc x) y = simp bit_or-bitwise (lowest_digit (λ t. t) max x y)

zero-bit_xor : (b : ℕ) → bit_xor 0 b ≡ b
zero-bit_xor b = bit_xor-bitwise 0 b

pub bit_xor_step : (a b : ℕ) → bit_xor a b ≡ bit_xor (a / 2) (b / 2) * 2 + (a % 2 + b % 2) % 2
bit_xor_step zero b = omega (arith, zero-bit_xor b, zero-bit_xor (b / 2))
bit_xor_step (suc a) b =
    rw (← differ_lem (suc a % 2) (b % 2) (omega arith) (omega arith))
      (simp bit_xor-bitwise (lowest_digit (λ t. t) differ a b))

bit_xor-zero_fuel : (n a : ℕ) → a ≤ n → bit_xor a 0 ≡ a
bit_xor-zero_fuel n zero h = refl
bit_xor-zero_fuel zero (suc a) h = absurd (omega arith)
bit_xor-zero_fuel (suc n) (suc a) h =
    omega (arith, bit_xor_step (suc a) 0, bit_xor-zero_fuel n (suc a / 2) (omega arith))

bit_xor-cancel_fuel : (n a b : ℕ) → a ≤ n → b ≤ n → bit_xor (bit_xor a b) b ≡ a
bit_xor-cancel_fuel zero a b p q = ground (arith, zero-bit_xor b, bit_xor-zero_fuel 0 a)
bit_xor-cancel_fuel (suc n) a b p q = ground (
  arith,
  bit_xor_step a b,
  bit_xor_step (bit_xor a b) b,
  bit_xor-cancel_fuel n (a / 2) (b / 2) (omega arith) (omega arith),
)

-- A second exclusive or by the same number undoes the first.
pub bit_xor-cancel : (a b : ℕ) → bit_xor (bit_xor a b) b ≡ a
bit_xor-cancel a b = bit_xor-cancel_fuel (max a b) a b (omega arith) (omega arith)

-- Neither operation makes a number wider than its wider argument.
pub bit_xor-lt_pow : (k a b : ℕ) → a < 2 ^ k → b < 2 ^ k → bit_xor a b < 2 ^ k
bit_xor-lt_pow zero a b p q = ground (arith, bit_xor-zero_fuel 0 a)
bit_xor-lt_pow (suc k) a b p q = omega (
  arith,
  pow-suc 2 k,
  bit_xor_step a b,
  bit_xor-lt_pow k (a / 2) (b / 2) (omega (arith, pow-suc 2 k)) (omega (arith, pow-suc 2 k)),
)

pub bit_or-lt_pow : (k a b : ℕ) → a < 2 ^ k → b < 2 ^ k → bit_or a b < 2 ^ k
bit_or-lt_pow zero a b p q = ground (arith, bit_or_step a b)
bit_or-lt_pow (suc k) a b p q = omega (
  arith,
  pow-suc 2 k,
  bit_or_step a b,
  bit_or-lt_pow k (a / 2) (b / 2) (omega (arith, pow-suc 2 k)) (omega (arith, pow-suc 2 k)),
)

zero_zero-bit_xor :
    (a b c : ℕ) → a ≤ 0 → b ≤ 0 → c ≤ 0 → bit_xor (bit_xor a b) c ≡ bit_xor (bit_xor a c) b
zero_zero-bit_xor zero zero zero p q r = refl
zero_zero-bit_xor zero zero (suc c) p q r = absurd (omega arith)
zero_zero-bit_xor zero (suc b) c p q r = absurd (omega arith)
zero_zero-bit_xor (suc a) b c p q r = absurd (omega arith)

bit_xor_right_comm_fuel :
    (n a b c : ℕ) → a ≤ n → b ≤ n → c ≤ n → bit_xor (bit_xor a b) c ≡ bit_xor (bit_xor a c) b
bit_xor_right_comm_fuel zero a b c p q r = zero_zero-bit_xor a b c p q r
bit_xor_right_comm_fuel (suc n) a b c p q r = ground (
  arith,
  bit_xor_step a b,
  bit_xor_step a c,
  bit_xor_step (bit_xor a b) c,
  bit_xor_step (bit_xor a c) b,
  bit_xor_right_comm_fuel n (a / 2) (b / 2) (c / 2) (omega arith) (omega arith) (omega arith),
)

-- The order of two exclusive ors does not matter.
pub bit_xor_right_comm : (a b c : ℕ) → bit_xor (bit_xor a b) c ≡ bit_xor (bit_xor a c) b
bit_xor_right_comm a b c =
    bit_xor_right_comm_fuel (max (max a b) c) a b c (omega arith) (omega arith) (omega arith)

-- The lowest digit of `&`.
bit_and_step : (x y : ℕ) → bit_and x y ≡ bit_and (x / 2) (y / 2) * 2 + min (x % 2) (y % 2)
bit_and_step zero y = simp bit_and-bitwise (omega arith)
bit_and_step (suc x) y = simp bit_and-bitwise (lowest_digit (λ t. 0) min x y)

empty_mask : (rounds x : ℕ) → x ≤ rounds → bit_and x 0 ≡ 0
empty_mask rounds zero le = refl
empty_mask zero (suc x) le = absurd (omega arith)
empty_mask (suc rounds) (suc x) le =
    omega (arith, empty_mask rounds (suc x / 2) (omega arith), bit_and_step (suc x) 0)

-- Nothing is left under an empty mask.
pub bit_and-zero : (a : ℕ) → bit_and a 0 ≡ 0
bit_and-zero a = empty_mask a a (omega arith)

-- ===== src/Prelude/Bits.antt =====
-- Single bits of a number, and what `&` and `|` do to them.
use Prim.Native.Nat.{
  ℕ, zero, suc, ◌+◌, ◌-◌, ◌*◌, ◌/◌, ◌%◌, ◌^◌, ◌≤◌, ◌<◌, min, max, bit_and, bit_or, digits,
  bit_and-bitwise, bit_or-bitwise,
}
use mathlib.Core.Path.{◌≡◌, refl, ◌∙◌, ap}
use mathlib.Core.Logic.{◌↔◌}
use native.Mathlib.Nat.{pow-suc, pow-le-pow_right}
use native.Mathlib.Omega.{arith}
use fx5_slmp_library.Prelude.Tests.{◌==◌, if◌then◌else◌}

-- The `j`th bit of `x`.
abbrev pub test_bit : ℕ → ℕ → ℕ
test_bit x zero = x % 2
test_bit x (suc j) = test_bit (x / 2) j

pub test_bit-zero : (j : ℕ) → test_bit 0 j ≡ 0
test_bit-zero zero = refl
test_bit-zero (suc j) = test_bit-zero j

pub test_bit-lt : (x j : ℕ) → test_bit x j < 2
test_bit-lt x zero = omega arith
test_bit-lt x (suc j) = test_bit-lt (x / 2) j

-- Each binary digit of the result is the operation on the two digits there.
module _ (z : ℕ → ℕ) (f : ℕ → ℕ → ℕ) (ends : (b j : ℕ) → test_bit (z b) j ≡ f 0 (test_bit b j))
    (small : (a b : ℕ) → a < 2 → b < 2 → f a b < 2) where
  test_bit-digits :
      (n a b j : ℕ) → a ≤ n → test_bit (digits z f n a b) j ≡ f (test_bit a j) (test_bit b j)
  test_bit-digits zero zero b j h = rw test_bit-zero (ends b j)
  test_bit-digits zero (suc a) b j h = absurd (omega arith)
  test_bit-digits (suc n) zero b j h = rw test_bit-zero (ends b j)
  test_bit-digits (suc n) (suc a) b zero h =
      let s = small (suc a % 2) (b % 2) (omega arith) (omega arith) in omega arith
  test_bit-digits (suc n) (suc a) b (suc j) h =
      let s = small (suc a % 2) (b % 2) (omega arith) (omega arith) in
      let e : (digits z f n (suc a / 2) (b / 2) * 2 + f (suc a % 2) (b % 2)) / 2
          ≡ digits z f n (suc a / 2) (b / 2) =
        omega arith in
      rw e (test_bit-digits n (suc a / 2) (b / 2) j (omega arith))

pub test_bit-bit_and : (a b j : ℕ) → test_bit (bit_and a b) j ≡ min (test_bit a j) (test_bit b j)
test_bit-bit_and a b j =
    ap (λ x. test_bit x j) (bit_and-bitwise a b)
    ∙ test_bit-digits (λ _. 0) min (λ b j. test_bit-zero j ∙ omega arith) (λ a b p q. omega arith) a
        a b j (omega arith)

pub test_bit-bit_or : (a b j : ℕ) → test_bit (bit_or a b) j ≡ max (test_bit a j) (test_bit b j)
test_bit-bit_or a b j =
    ap (λ x. test_bit x j) (bit_or-bitwise a b)
    ∙ test_bit-digits (λ b. b) max (λ b j. omega arith) (λ a b p q. omega arith) a a b j
        (omega arith)

-- Numbers with the same bits are equal.
pub test_bit_ext : (n a b : ℕ) → a ≤ n → b ≤ n → ((j : ℕ) → test_bit a j ≡ test_bit b j) → a ≡ b
test_bit_ext zero a b p q h = omega arith
test_bit_ext (suc n) a b p q h =
    let halves = test_bit_ext n (a / 2) (b / 2) (omega arith) (omega arith) (λ j. h (suc j)) in
    let low = h 0 in omega arith

pub test_bit-pow : (k j : ℕ) → test_bit (2 ^ k) j ≡ (if j == k then 1 else 0)
test_bit-pow zero zero = refl
test_bit-pow zero (suc j) = ground (arith, test_bit-zero j)
test_bit-pow (suc k) zero = ground (arith, pow-suc 2 k)
test_bit-pow (suc k) (suc j) =
    let e : 2 ^ suc k / 2 ≡ 2 ^ k = omega (arith, pow-suc 2 k) in
    rw e (ground (arith, test_bit-pow k j))

-- `~ x` on `n` bits.
pub test_bit-complement :
    (n x j : ℕ) → x < 2 ^ n → j < n → test_bit (2 ^ n - 1 - x) j ≡ 1 - test_bit x j
test_bit-complement zero x j p q = absurd (omega arith)
test_bit-complement (suc n) x zero p q = omega (arith, pow-suc 2 n)
test_bit-complement (suc n) x (suc j) p q =
    let e : (2 ^ suc n - 1 - x) / 2 ≡ 2 ^ n - 1 - x / 2 = omega (arith, pow-suc 2 n) in
    rw e (test_bit-complement n (x / 2) j (omega (arith, pow-suc 2 n)) (omega arith))

zero_of_bits : (x : ℕ) → ((j : ℕ) → test_bit x j ≡ 0) → x ≡ 0
zero_of_bits x h = test_bit_ext x x 0 (omega arith) (omega arith) (λ j. rw test_bit-zero (h j))

-- `x & (1 << k)` is zero exactly when the `k`th bit is.
pub bit_and-pow_zero : (x k : ℕ) → (bit_and x (2 ^ k) ≡ 0) ↔ (test_bit x k ≡ 0)
bit_and-pow_zero x k = (there, back)
  where
    there : bit_and x (2 ^ k) ≡ 0 → test_bit x k ≡ 0
    there e =
        let at_k = ap (λ y. test_bit y k) e in
        ground (
          arith,
          at_k,
          test_bit-bit_and x (2 ^ k) k,
          test_bit-pow k k,
          test_bit-lt x k,
          test_bit-zero k,
        )

    back : test_bit x k ≡ 0 → bit_and x (2 ^ k) ≡ 0
    back e =
        zero_of_bits (bit_and x (2 ^ k))
          (λ j. ground (arith, test_bit-bit_and x (2 ^ k) j, test_bit-pow k j, test_bit-lt x j))

-- The powers of two that fit 16 bits.
pub pow_lt : (k : ℕ) → k < 16 → 2 ^ k < 2 ^ 16
pow_lt k h = omega (arith, pow-le-pow_right {n = 2} (omega arith) {i = k} {j = 15} (omega arith))

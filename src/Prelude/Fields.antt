-- ===== src/Prelude/Fields.antt =====
-- Masks, shifts and `|` of disjoint fields, as arithmetic.
use Prim.Native.Nat.{ℕ, zero, suc, ◌+◌, ◌-◌, ◌*◌, ◌/◌, ◌%◌, ◌^◌, ◌<◌, min, max, bit_and, bit_or}
use mathlib.Core.Path.{◌≡◌, ◌∙◌, ap, sym}
use native.Mathlib.Nat.{pow-suc}
use native.Mathlib.Omega.{arith}
use fx5_slmp_library.Prelude.Tests.{u16}
use fx5_slmp_library.Prelude.Bits.{
  test_bit, test_bit-zero, test_bit_ext, test_bit-bit_and, test_bit-bit_or,
}

double_field : (q k : ℕ) → q * 2 ^ suc k ≡ 2 * (q * 2 ^ k)
double_field q k = omega (arith, ap (λ (t : ℕ). q * t) (pow-suc 2 k))

-- The bits of a field above `k` low ones.
test_bit-field :
    (k q r j : ℕ)
    → r < 2 ^ k
    → test_bit (r + q * 2 ^ k) j ≡ max (test_bit r j) (test_bit (q * 2 ^ k) j)
test_bit-field zero q r j h = let e : r ≡ 0 = omega arith in ground (arith, test_bit-zero j)
test_bit-field (suc k) q r zero h = omega (arith, double_field q k)
test_bit-field (suc k) q r (suc j) h =
    let e : (r + q * 2 ^ suc k) / 2 ≡ r / 2 + q * 2 ^ k = omega (arith, double_field q k) in
    let e' : q * 2 ^ suc k / 2 ≡ q * 2 ^ k = omega (arith, double_field q k) in
    rw (e, e') (test_bit-field k q (r / 2) j (omega (arith, pow-suc 2 k)))

-- `lo | (hi << k)` is a sum if `lo` fits `k` bits.
pub bit_or-field : (k q r : ℕ) → r < 2 ^ k → bit_or r (q * 2 ^ k) ≡ r + q * 2 ^ k
bit_or-field k q r h =
    test_bit_ext (bit_or r (q * 2 ^ k) + (r + q * 2 ^ k)) _ _ (omega arith) (omega arith)
      (λ j. test_bit-bit_or r (q * 2 ^ k) j ∙ sym (test_bit-field k q r j h))

test_bit-mask :
    (k q r j : ℕ)
    → r < 2 ^ k
    → min (test_bit (r + q * 2 ^ k) j) (test_bit (2 ^ k - 1) j) ≡ test_bit r j
test_bit-mask zero q r j h = let e : r ≡ 0 = omega arith in ground (arith, test_bit-zero j)
test_bit-mask (suc k) q r zero h = omega (arith, double_field q k, pow-suc 2 k)
test_bit-mask (suc k) q r (suc j) h =
    let e : (r + q * 2 ^ suc k) / 2 ≡ r / 2 + q * 2 ^ k = omega (arith, double_field q k) in
    let e' : (2 ^ suc k - 1) / 2 ≡ 2 ^ k - 1 = omega (arith, pow-suc 2 k) in
    rw (e, e') (test_bit-mask k q (r / 2) j (omega (arith, pow-suc 2 k)))

-- A mask of `k` ones keeps the `k` low bits.
bit_and-field : (k q r : ℕ) → r < 2 ^ k → bit_and (r + q * 2 ^ k) (2 ^ k - 1) ≡ r
bit_and-field k q r h =
    test_bit_ext (bit_and (r + q * 2 ^ k) (2 ^ k - 1) + r) _ _ (omega arith) (omega arith)
      (λ j. test_bit-bit_and (r + q * 2 ^ k) (2 ^ k - 1) j ∙ test_bit-mask k q r j h)

pub bit_and_ff : (x : ℕ) → bit_and x 0xff ≡ x % 256
bit_and_ff x =
    ap (λ y. bit_and y 0xff) (omega arith) ∙ bit_and-field 8 (x / 256) (x % 256) (omega arith)

pub bit_and_0f : (x : ℕ) → bit_and x 0x0f ≡ x % 16
bit_and_0f x =
    ap (λ y. bit_and y 0x0f) (omega arith) ∙ bit_and-field 4 (x / 16) (x % 16) (omega arith)

pub bit_and_one : (x : ℕ) → bit_and x 1 ≡ x % 2
bit_and_one x = ap (λ y. bit_and y 1) (omega arith) ∙ bit_and-field 1 (x / 2) (x % 2) (omega arith)

test_bit-low : (k q r j : ℕ) → r < 2 ^ k → j < k → test_bit (r + q * 2 ^ k) j ≡ test_bit r j
test_bit-low zero q r j h l = absurd (omega arith)
test_bit-low (suc k) q r zero h l = omega (arith, double_field q k)
test_bit-low (suc k) q r (suc j) h l =
    let e : (r + q * 2 ^ suc k) / 2 ≡ r / 2 + q * 2 ^ k = omega (arith, double_field q k) in
    rw e (test_bit-low k q (r / 2) j (omega (arith, pow-suc 2 k)) (omega arith))

-- A number cut to 16 bits keeps those.
pub test_bit-u16 : (x j : ℕ) → j < 16 → test_bit (u16 x) j ≡ test_bit x j
test_bit-u16 x j h =
    sym (test_bit-low 16 (x / 2 ^ 16) (u16 x) j (omega arith) h)
    ∙ ap (λ y. test_bit y j) (omega arith)

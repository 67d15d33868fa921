-- ===== src/Client/Format/Digits.antt =====
-- Printed numbers read back.
use fx5_slmp_library.Prelude.{
  ℕ, zero, suc, ◌+◌, ◌*◌, ◌/◌, ◌%◌, ◌≤◌, ◌<◌, ◌≡◌, refl, ap, ◌∙◌, sym, List, [], ◌∷◌, ◌++◌, arith,
  ltb, Bool-cases, inl, inr, append_assoc,
}
use fx5_slmp_library.Client.Numbers.{digit_value, AreDigits, spelled}
use fx5_slmp_library.Client.Format.{digit_char, print_digits, digits_in}

digit_value-digit_char : (d : ℕ) → d < 16 → digit_value (digit_char d) ≡ d
unfolding digit_value digit_char
digit_value-digit_char d h = ground arith

spelled-append :
    (base value : ℕ) (ds : List ℕ) (c : ℕ)
    → spelled base value (ds ++ (c ∷ [])) ≡ spelled base value ds * base + digit_value c
spelled-append base value [] c = refl
spelled-append base value (d ∷ ds) c = spelled-append base (value * base + digit_value d) ds c

AreDigits-append :
    (base : ℕ) (ds : List ℕ) (c : ℕ)
    → AreDigits base ds
    → digit_value c < base
    → AreDigits base (ds ++ (c ∷ []))
AreDigits-append base [] c h k = (k, tt)
AreDigits-append base (d ∷ ds) c h k = (h.0, AreDigits-append base ds c h.1 k)

-- A text of digits that spell `n`, in front of `acc`.
pub record IsPrinted (base n : ℕ) (acc out : List ℕ) : Type 0 where
  pub first : ℕ
  pub others : List ℕ
  pub digits : AreDigits base (first ∷ others)
  pub spells : spelled base 0 (first ∷ others) ≡ n
  pub text : out ≡ (first ∷ others) ++ acc

div_lt : (n base : ℕ) → 2 ≤ base → base ≤ n → n / base < n
div_lt n base h k = grind arith

rebuild : (n base : ℕ) → 2 ≤ base → n / base * base + n % base ≡ n
rebuild n base h = grind arith

remainder : (n base : ℕ) → 2 ≤ base → n % base < base
remainder n base h = grind arith

quotient : (fuel n base : ℕ) → 2 ≤ base → base ≤ n → n < suc fuel → n / base < fuel
quotient fuel n base h k l = omega (arith, div_lt n base h k)

one_digit :
    (base n : ℕ) (acc : List ℕ) → base ≤ 16 → n < base → IsPrinted base n acc (digit_char n ∷ acc)
one_digit base n acc h k =
    let v = digit_value-digit_char n (omega arith) in
    record {
      first = digit_char n;
      others = [];
      digits = (omega (arith, v), tt);
      spells = omega (arith, v);
      text = refl;
    }

more_digits :
    (base n : ℕ) (acc out : List ℕ)
    → 2 ≤ base
    → base ≤ 16
    → n % base < base
    → IsPrinted base (n / base) (digit_char (n % base) ∷ acc) out
    → IsPrinted base n acc out
more_digits base n acc out l h k p =
    let c = digit_char (n % base) in
    let v = digit_value-digit_char (n % base) (omega arith) in
    record {
      first = p.first;
      others = p.others ++ (c ∷ []);
      digits = (p.digits.0, AreDigits-append base p.others c p.digits.1 (omega (arith, v)));
      spells =
          spelled-append base 0 (p.first ∷ p.others) c
          ∙ ap (λ (q : ℕ). q * base + digit_value c) p.spells
          ∙ ap (λ (q : ℕ). n / base * base + q) v
          ∙ rebuild n base l;
      text = p.text ∙ ap (λ (q : List ℕ). p.first ∷ q) (sym (append_assoc p.others (c ∷ []) acc));
    }

print_digits_lem :
    (fuel base n : ℕ) (acc : List ℕ)
    → n < fuel
    → 2 ≤ base
    → base ≤ 16
    → IsPrinted base n acc (print_digits fuel base n acc)
unfolding print_digits
print_digits_lem zero base n acc h l k = absurd (omega arith)
print_digits_lem (suc fuel) base n acc h l k = elim (Bool-cases (ltb n base)) [
  | inl last ↦ rw last (one_digit base n acc k (ground arith))
  | inr more ↦ rw more (
      more_digits base n acc _ l k (remainder n base l) (
        print_digits_lem fuel base (n / base) (digit_char (n % base) ∷ acc)
          (quotient fuel n base l (ground arith) h) l k))
]

-- What `printf` writes for a number in a base from 2 to 16 are digits of the base that spell it.
pub digits_in_lem : (base n : ℕ) → 2 ≤ base → base ≤ 16 → IsPrinted base n [] (digits_in base n)
unfolding digits_in
digits_in_lem base n l k = print_digits_lem (suc n) base n [] (omega arith) l k

-- ===== src/Client/Config/Entries.antt =====
-- Keys and values that a line of the configuration file can hold.
use fx5_slmp_library.Prelude.{
  ℕ, zero, suc, ◌+◌, ◌≤◌, ◌<◌, ◌^◌, ◌≡◌, ◌≢◌, ap, ◌∙◌, sym, subst, false, List, [], ◌∷◌, some,
  arith, length, get_or, append-nil, ◌/◌, ◌%◌, Bool-cases, inl, inr, ltb, u32, min,
}
use native.Mathlib.Nat.{pow-suc}
use fx5_slmp_library.Client.Text.{is_space, IsTrimmed}
use fx5_slmp_library.Client.Numbers.{
  AreDigits, parse_uint16_text, parse_uint32_text, parse_uint32_text_decimal, decimal_digit,
  ulong_max,
}
use fx5_slmp_library.Client.Format.{digit_char, print_digits, digits_in}
use fx5_slmp_library.Client.Format.Digits.{digits_in_lem}
use fx5_slmp_library.Client.Config.Ini.{IsLine, HasNoEquals, IsEntry}

pub record IsKey (key : List ℕ) : Type 0 where
  trimmed : IsTrimmed key
  line : IsLine key
  no_equals : HasNoEquals key
  no_comment : get_or key 0 b'#' ≢ b'#'
  short : length key ≤ 17

-- A value of up to 236 characters.
pub record IsValue (value : List ℕ) : Type 0 where
  pub trimmed : IsTrimmed value
  pub line : IsLine value
  pub present : 0 < length value
  pub short : length value ≤ 236

pub key_value-IsEntry : (key value : List ℕ) → IsKey key → IsValue value → IsEntry key value
key_value-IsEntry key value k v = record {
  key_trimmed = k.trimmed;
  value_trimmed = v.trimmed;
  key_line = k.line;
  value_line = v.line;
  no_equals = k.no_equals;
  no_comment = k.no_comment;
  some_value = v.present;
  short = omega (arith, k.short, v.short);
}

-- Small letters and underscores.
abbrev pub AreLetters : List ℕ → Type 0
AreLetters [] = Unit
AreLetters (c ∷ s) = (b'_' ≤ c) × (c ≤ b'z') × AreLetters s

letter_not_blank : (c : ℕ) → b'_' ≤ c → is_space c ≡ false
unfolding is_space
letter_not_blank c h = ground arith

letters_not_blank :
    (s : List ℕ) (i : ℕ) → AreLetters s → i < length s → is_space (get_or s i 0) ≡ false
letters_not_blank [] i h l = absurd (omega arith)
letters_not_blank (c ∷ s) zero h l = letter_not_blank c h.0
letters_not_blank (c ∷ s) (suc i) h l = letters_not_blank s i h.2 (omega arith)

pub letters_IsLine : (s : List ℕ) → AreLetters s → IsLine s
letters_IsLine [] h = tt
letters_IsLine (c ∷ s) h =
    (λ e. omega (arith, e, h), λ e. omega (arith, e, h), letters_IsLine s h.2)

letters_HasNoEquals : (s : List ℕ) → AreLetters s → HasNoEquals s
letters_HasNoEquals [] h = tt
letters_HasNoEquals (c ∷ s) h = (λ e. omega (arith, e, h), letters_HasNoEquals s h.2)

pub letters_IsKey : (c : ℕ) (s : List ℕ) → AreLetters (c ∷ s) → length s ≤ 16 → IsKey (c ∷ s)
letters_IsKey c s h l = record {
  trimmed = (letter_not_blank c h.0, letters_not_blank (c ∷ s) (length s) h (omega arith));
  line = letters_IsLine (c ∷ s) h;
  no_equals = letters_HasNoEquals (c ∷ s) h;
  no_comment = λ e. omega (arith, e, h);
  short = omega arith;
}

-- Digits are a value.
digits_not_blank :
    (d : ℕ) (ds : List ℕ) (i : ℕ)
    → AreDigits 10 (d ∷ ds)
    → i ≤ length ds
    → is_space (get_or (d ∷ ds) i 0) ≡ false
digits_not_blank d ds zero h l = (decimal_digit d h.0).0
digits_not_blank d [] (suc i) h l = absurd (omega arith)
digits_not_blank d (e ∷ ds) (suc i) h l = digits_not_blank e ds i h.1 (omega arith)

digits_IsLine : (ds : List ℕ) → AreDigits 10 ds → IsLine ds
digits_IsLine [] h = tt
digits_IsLine (d ∷ ds) h =
    let c = decimal_digit d h.0 in
    (λ e. omega (arith, e, c), λ e. omega (arith, e, c), digits_IsLine ds h.1)

digits-IsTrimmed : (ds : List ℕ) → AreDigits 10 ds → IsTrimmed ds
digits-IsTrimmed [] h = tt
digits-IsTrimmed (d ∷ ds) h =
    ((decimal_digit d h.0).0, digits_not_blank d ds (length ds) h (omega arith))

-- A number below a power of 10 has no more digits than its exponent.
length-print_digits :
    (fuel k n : ℕ) (acc : List ℕ)
    → n < 10 ^ suc k
    → length (print_digits fuel 10 n acc) ≤ suc k + length acc
unfolding print_digits
length-print_digits zero k n acc h = omega arith
length-print_digits (suc fuel) zero n acc h = ground arith
length-print_digits (suc fuel) (suc k) n acc h =
    let more =
      length-print_digits fuel k (n / 10) (digit_char (n % 10) ∷ acc)
        (omega (arith, pow-suc 10 (suc k))) in
    elim (Bool-cases (ltb n 10)) [
      | inl last ↦ rw last (omega arith)
      | inr other ↦ rw other (omega (arith, more))
    ]

length-digits_in : (n : ℕ) → n < 2 ^ 32 → length (digits_in 10 n) ≤ 10
unfolding digits_in
length-digits_in n h = omega (arith, length-print_digits (suc n) 9 n [])

-- A printed number of 32 bits is a value, and reads back.
pub digits_IsValue : (n : ℕ) → n < 2 ^ 32 → IsValue (digits_in 10 n)
digits_IsValue n h =
    let p = digits_in_lem 10 n (omega arith) (omega arith) in
    let e : digits_in 10 n ≡ p.first ∷ p.others = p.text ∙ append-nil (p.first ∷ p.others) in
    record {
      trimmed = subst IsTrimmed (sym e) (digits-IsTrimmed (p.first ∷ p.others) p.digits);
      line = subst IsLine (sym e) (digits_IsLine (p.first ∷ p.others) p.digits);
      present = omega (arith, ap length e);
      short = omega (arith, length-digits_in n h);
    }

pub parse_uint32_text-digits_in : (n : ℕ) → n < 2 ^ 32 → parse_uint32_text (digits_in 10 n) ≡ some n
parse_uint32_text-digits_in n h =
    let p = digits_in_lem 10 n (omega arith) (omega arith) in
    ap parse_uint32_text (p.text ∙ append-nil (p.first ∷ p.others))
    ∙ parse_uint32_text_decimal p.first p.others p.digits
    ∙ ap some (ap (λ (m : ℕ). u32 (min m ulong_max)) p.spells ∙ omega arith)

pub parse_uint16_text-digits_in : (n : ℕ) → n < 2 ^ 16 → parse_uint16_text (digits_in 10 n) ≡ some n
unfolding parse_uint16_text
parse_uint16_text-digits_in n h =
    let e = parse_uint32_text-digits_in n (omega arith) in ground (arith, e)

-- ===== src/Client/Numbers.antt =====
-- The number parsers of tools/fx5_client/src/fx5_client_utility.c and
-- `fx5_client_parse_uint32_cursor_base` of fx5_client_parser.c, over `strtoul` of the C library with
-- an `unsigned long` of 64 bits.
use fx5_slmp_library.Prelude.{
  ℕ, ◌+◌, ◌-◌, ◌*◌, ◌%◌, ◌^◌, ◌≤◌, ◌<◌, ◌≡◌, refl, ap, ◌∙◌, sym, Bool, true, false, ◌&&◌, ◌||◌, not,
  Option, some, none, List, [], ◌∷◌, ◌++◌, arith, ltb, leb, ◌==◌, if◌then◌else◌, get_or, drop, u16,
  u32, append-nil, min,
}
use fx5_slmp_library.Client.Text.{is_space, is_digit, is_xdigit, skip_spaces}

abbrev pub ulong_max : ℕ
ulong_max = 0xFFFFFFFFFFFFFFFF

-- The value of a digit in a base up to 36; 36 for what is no digit.
unfoldable pub digit_value : ℕ → ℕ
digit_value c =
    if leb b'0' c && leb c b'9'
    then c - b'0'
    else if leb b'A' c && leb c b'Z'
    then c - b'A' + 10
    else if leb b'a' c && leb c b'z'
    then c - b'a' + 10
    else 36

-- The digits at the front, behind the number `value`; what is behind them.
unfoldable pub take_digits : ℕ → ℕ → List ℕ → ℕ × List ℕ
take_digits base value [] = (value, [])
take_digits base value (c ∷ s) =
    let rest = take_digits base (value * base + digit_value c) s in
    if ltb (digit_value c) base then rest else (value, c ∷ s)

-- The digits behind a sign. `none` is the end pointer at the start of the text.
unfoldable pub convert : ℕ → Bool → List ℕ → ℕ × Option (List ℕ)
convert base negative s =
    let (value, rest) = take_digits base 0 s in
    let result =
      (if ltb ulong_max value
        then ulong_max
        else if negative
        then (2 ^ 64 - value) % 2 ^ 64
        else value) in
    if ltb (digit_value (get_or s 0 36)) base then (result, some rest) else (0, none)

-- The prefix `0x` of base 16, where a digit follows.
unfoldable pub skip_prefix : ℕ → List ℕ → List ℕ
skip_prefix base s =
    if (base == 16)
      && (get_or s 0 0 == b'0')
      && ((get_or s 1 0 == b'x') || (get_or s 1 0 == b'X'))
      && is_xdigit (get_or s 2 0)
    then drop 2 s
    else s

-- `strtoul`: the number, and what the end pointer points to.
unfoldable pub strtoul : ℕ → List ℕ → ℕ × Option (List ℕ)
strtoul base text =
    let s = skip_spaces text in
    let first = get_or s 0 0 in
    if first == b'-'
    then convert base true (skip_prefix base (drop 1 s))
    else if first == b'+'
    then convert base false (skip_prefix base (drop 1 s))
    else convert base false (skip_prefix base s)

-- `*out_value` if it was written.
unfoldable pub parse_uint32_text : List ℕ → Option ℕ
parse_uint32_text [] = none
parse_uint32_text (c ∷ s) =
    let (value, end) = strtoul 10 (c ∷ s) in
    elim end [ none ↦ none | some [] ↦ some (u32 value) | some (d ∷ rest) ↦ none ]

unfoldable pub parse_uint16_text : List ℕ → Option ℕ
parse_uint16_text text = elim (parse_uint32_text text) [
  | none ↦ none
  | some tmp ↦ if ltb 0xFFFF tmp then none else some (u16 tmp)
]

-- `*out_value` and `*text` if they were written.
unfoldable pub parse_uint32_cursor : List ℕ → Option (ℕ × List ℕ)
parse_uint32_cursor s =
    let (value, end) = strtoul 10 s in
    if not (is_digit (get_or s 0 0))
    then none
    else elim end [ none ↦ none | some rest ↦ some (u32 value, rest) ]

unfoldable pub parse_uint32_cursor_base : ℕ → List ℕ → Option (ℕ × List ℕ)
parse_uint32_cursor_base base s =
    let (value, end) = strtoul base s in
    if not (is_xdigit (get_or s 0 0))
    then none
    else elim end [ none ↦ none | some rest ↦ some (u32 value, rest) ]

-- Digits of a base, the number that they spell behind `value`, and a text that starts with no digit.
abbrev pub AreDigits : ℕ → List ℕ → Type 0
AreDigits base [] = Unit
AreDigits base (c ∷ s) = (digit_value c < base) × AreDigits base s

abbrev pub spelled : ℕ → ℕ → List ℕ → ℕ
spelled base value [] = value
spelled base value (c ∷ s) = spelled base (value * base + digit_value c) s

abbrev pub EndsDigits : ℕ → List ℕ → Type 0
EndsDigits base [] = Unit
EndsDigits base (c ∷ s) = base ≤ digit_value c

pub take_digits-append :
    (base value : ℕ) (ds rest : List ℕ)
    → AreDigits base ds
    → EndsDigits base rest
    → take_digits base value (ds ++ rest) ≡ (spelled base value ds, rest)
unfolding take_digits
take_digits-append base value [] [] h k = refl
take_digits-append base value [] (c ∷ s) h k = ground arith
take_digits-append base value (d ∷ ds) rest h k =
    ground (arith, take_digits-append base (value * base + digit_value d) ds rest h.1 k)

-- A digit of base 10 is no blank and no sign.
pub decimal_digit :
    (c : ℕ)
    → digit_value c < 10
    → (is_space c ≡ false) × (is_digit c ≡ true) × (b'0' ≤ c) × (c ≤ b'9')
unfolding digit_value is_space is_digit
decimal_digit c h = (ground arith, ground arith, ground arith, ground arith)

-- Decimal digits at the front are converted, up to the largest `unsigned long`.
pub strtoul_decimal :
    (d : ℕ) (ds rest : List ℕ)
    → AreDigits 10 (d ∷ ds)
    → EndsDigits 10 rest
    → strtoul 10 (d ∷ (ds ++ rest)) ≡ (min (spelled 10 0 (d ∷ ds)) ulong_max, some rest)
unfolding strtoul convert skip_prefix skip_spaces
strtoul_decimal d ds rest h k =
    let c = decimal_digit d h.0 in ground (arith, c, take_digits-append 10 0 (d ∷ ds) rest h k)

-- A text of decimal digits parses to the number that they spell, modulo 2 ^ 32, if that number is an
-- `unsigned long`, and otherwise to 2 ^ 32 - 1: no number is too large.
pub parse_uint32_text_decimal :
    (d : ℕ) (ds : List ℕ)
    → AreDigits 10 (d ∷ ds)
    → parse_uint32_text (d ∷ ds) ≡ some (u32 (min (spelled 10 0 (d ∷ ds)) ulong_max))
unfolding parse_uint32_text
parse_uint32_text_decimal d ds h =
    let e =
      ap (λ (q : List ℕ). strtoul 10 (d ∷ q)) (sym (append-nil ds))
      ∙ strtoul_decimal d ds [] h tt in
    ground (arith, e)

-- A text of decimal digits is accepted as a 16-bit number exactly if the number that they spell, at
-- most the largest `unsigned long`, has 16 bits after the reduction modulo 2 ^ 32.
pub parse_uint16_text_decimal :
    (d : ℕ) (ds : List ℕ)
    → AreDigits 10 (d ∷ ds)
    → parse_uint16_text (d ∷ ds) ≡ (
        let n = u32 (min (spelled 10 0 (d ∷ ds)) ulong_max) in
        if leb n 0xFFFF then some n else none)
unfolding parse_uint16_text
parse_uint16_text_decimal d ds h = ground (arith, parse_uint32_text_decimal d ds h)

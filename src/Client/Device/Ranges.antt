-- ===== src/Client/Device/Ranges.antt =====
-- Printed addresses and ranges, with any text behind them that does not go on with a digit or letter.
use fx5_slmp_library.Prelude.{
  ℕ, ◌+◌, ◌-◌, ◌^◌, ◌≤◌, ◌<◌, ◌≡◌, refl, ap, ◌∙◌, true, false, ◌||◌, some, none, List, [], ◌∷◌,
  ◌++◌, arith, ◌==◌, get_or, min,
}
use fx5_slmp_library.Types.{
  Device, dev_m, dev_sm, dev_l, dev_f, dev_s, dev_x, dev_y, dev_b, dev_sb, dev_d, dev_sd, dev_w,
  dev_sw, other_device,
}
use fx5_slmp_library.Client.Text.{is_space, is_alpha, skip_spaces}
use fx5_slmp_library.Client.Numbers.{
  parse_uint32_cursor_base, ulong_max, digit_value, convert, skip_prefix, strtoul, AreDigits,
  EndsDigits, spelled, take_digits-append,
}
use fx5_slmp_library.Client.Device.{
  parse_range, parse_range_end, parse_range_device, parse_device_and_range, same_device,
  DeviceRange,
}
use fx5_slmp_library.Client.Device.Addresses.{
  descriptor_of, hex_digit, parse_device_prefix_lem, base_le, name_start, range_of_prefix,
  described_device, exact,
}

-- A text that does not start with a digit or a letter.
abbrev pub IsClosed : List ℕ → Type 0
IsClosed [] = Unit
IsClosed (c ∷ s) = digit_value c ≡ 36

IsClosed-EndsDigits : (base : ℕ) (rest : List ℕ) → base ≤ 16 → IsClosed rest → EndsDigits base rest
IsClosed-EndsDigits base [] h k = tt
IsClosed-EndsDigits base (c ∷ rest) h k = omega arith

no_x : (c : ℕ) → digit_value c ≡ 36 → ((c == b'x') || (c == b'X')) ≡ false
unfolding digit_value
no_x c h = ground arith

second_char :
    (base : ℕ) (ds rest : List ℕ)
    → base ≤ 16
    → AreDigits base ds
    → IsClosed rest
    → ((get_or (ds ++ rest) 0 0 == b'x') || (get_or (ds ++ rest) 0 0 == b'X')) ≡ false
second_char base [] [] h k l = refl
second_char base [] (c ∷ rest) h k l = no_x c l
second_char base (d ∷ ds) rest h k l = (hex_digit d (omega (arith, k.0))).4

module _ (base d : ℕ) (ds rest : List ℕ) (h : base ≤ 16) (k : AreDigits base (d ∷ ds))
    (l : IsClosed rest) where
  no_prefix : skip_prefix base (d ∷ (ds ++ rest)) ≡ d ∷ (ds ++ rest)
  unfolding skip_prefix
  no_prefix = ground (arith, second_char base ds rest h k.1 l)

  converted :
      convert base false (d ∷ (ds ++ rest)) ≡ (min (spelled base 0 (d ∷ ds)) ulong_max, some rest)
  unfolding convert
  converted =
      let e = take_digits-append base 0 (d ∷ ds) rest k (IsClosed-EndsDigits base rest h l) in
      ground (arith, e)

  strtoul_closed :
      strtoul base (d ∷ (ds ++ rest)) ≡ (min (spelled base 0 (d ∷ ds)) ulong_max, some rest)
  unfolding strtoul skip_spaces
  strtoul_closed =
      let c = hex_digit d (omega (arith, k.0)) in ground (arith, c, no_prefix, converted)

  -- Digits of a base up to 16 are read, with what is behind them left.
  pub parse_uint32_cursor_base_closed :
      spelled base 0 (d ∷ ds) < 2 ^ 32
      → parse_uint32_cursor_base base (d ∷ (ds ++ rest)) ≡ some (spelled base 0 (d ∷ ds), rest)
  unfolding parse_uint32_cursor_base
  parse_uint32_cursor_base_closed small =
      let c = hex_digit d (omega (arith, k.0)) in
      let e = exact (spelled base 0 (d ∷ ds)) small in ground (arith, c, strtoul_closed, e)

dash_closed : digit_value b'-' ≡ 36
unfolding digit_value
dash_closed = refl

-- The name of a device starts with a letter.
name_letter :
    (device : Device) (d : ℕ) (s : List ℕ)
    → digit_value d < (descriptor_of device).base
    → is_alpha (get_or ((descriptor_of device).name ++ (d ∷ s)) 0 0) ≡ true
unfolding is_alpha
name_letter dev_sm d s h = refl
name_letter dev_sd d s h = refl
name_letter dev_sb d s h = refl
name_letter dev_sw d s h = refl
name_letter dev_d d s h = refl
name_letter dev_m d s h = refl
name_letter dev_x d s h = refl
name_letter dev_y d s h = refl
name_letter dev_l d s h = refl
name_letter dev_f d s h = refl
name_letter dev_s d s h = refl
name_letter dev_b d s h = refl
name_letter dev_w d s h = refl
name_letter (other_device n) d s h = absurd (omega arith)

same_device_refl : (device : Device) → same_device device device ≡ true
unfolding same_device
same_device_refl device = ground arith

range_device_named :
    (device : Device) (d : ℕ) (s : List ℕ)
    → digit_value d < (descriptor_of device).base
    → parse_range_device device ((descriptor_of device).name ++ (d ∷ s)) ≡ some (d ∷ s)
unfolding parse_range_device
range_device_named device d s h =
    let e = described_device device in
    ground (
      arith,
      name_letter device d s h,
      parse_device_prefix_lem device d s h,
      same_device_refl device,
      ap (λ (q : Device). same_device q device) e,
    )

-- A text that a range leaves behind: what follows neither goes on with the number nor is blank.
abbrev pub IsBehind : List ℕ → Type 0
IsBehind rest = IsClosed rest × (skip_spaces rest ≡ rest) × ((get_or rest 0 0 == b'-') ≡ false)

module _ (device : Device) (d : ℕ) (ds : List ℕ)
    (k : AreDigits (descriptor_of device).base (d ∷ ds))
    (small : spelled (descriptor_of device).base 0 (d ∷ ds) < 2 ^ 32) where
  abbrev base : ℕ
  base = (descriptor_of device).base

  abbrev name : List ℕ
  name = (descriptor_of device).name

  first_number :
      (rest : List ℕ)
      → IsClosed rest
      → parse_uint32_cursor_base base (d ∷ (ds ++ rest)) ≡ some (spelled base 0 (d ∷ ds), rest)
  first_number rest l = parse_uint32_cursor_base_closed base d ds rest (base_le device) k l small

  by_prefix :
      (s : List ℕ)
      → parse_device_and_range (name ++ (d ∷ (ds ++ s)))
        ≡ parse_range (descriptor_of device) (d ∷ (ds ++ s))
  by_prefix s =
      range_of_prefix (name ++ (d ∷ (ds ++ s))) (descriptor_of device) (d ∷ (ds ++ s))
        (name_start device d (ds ++ s) k.0) (parse_device_prefix_lem device d (ds ++ s) k.0)

  bad_end :
      (s : List ℕ)
      → parse_range_end (descriptor_of device) (spelled base 0 (d ∷ ds)) s ≡ none
      → parse_range (descriptor_of device) (d ∷ (ds ++ (b'-' ∷ s))) ≡ none
  unfolding parse_range skip_spaces is_space
  bad_end s e = let n = first_number (b'-' ∷ s) dash_closed in ground (arith, n, e)

  -- Where the end of a range is refused, the range is.
  pub parse_device_and_range_bad :
      (s : List ℕ)
      → parse_range_end (descriptor_of device) (spelled base 0 (d ∷ ds)) s ≡ none
      → parse_device_and_range (name ++ (d ∷ (ds ++ (b'-' ∷ s)))) ≡ none
  parse_device_and_range_bad s e = by_prefix (b'-' ∷ s) ∙ bad_end s e

  one_address :
      (rest : List ℕ)
      → IsBehind rest
      → parse_range (descriptor_of device) (d ∷ (ds ++ rest))
        ≡ some (record {
          device = (descriptor_of device).device;
          start = spelled base 0 (d ∷ ds);
          count = 1;
          rest = rest;
        })
  unfolding parse_range
  one_address rest b = ground (arith, first_number rest b.0, b)

  pub parse_device_and_range_one :
      (rest : List ℕ)
      → IsBehind rest
      → parse_device_and_range (name ++ (d ∷ (ds ++ rest)))
        ≡ some (record { device = device; start = spelled base 0 (d ∷ ds); count = 1; rest = rest })
  parse_device_and_range_one rest b = by_prefix rest ∙ one_address rest b ∙ (λ i. some (record {
    device = described_device device i;
    start = spelled base 0 (d ∷ ds);
    count = 1;
    rest = rest;
  }))

  module _ (e : ℕ) (es rest : List ℕ) (k' : AreDigits base (e ∷ es)) (l : IsClosed rest)
      (small' : spelled base 0 (e ∷ es) < 2 ^ 32)
      (ordered : spelled base 0 (d ∷ ds) ≤ spelled base 0 (e ∷ es))
      (short : spelled base 0 (e ∷ es) - spelled base 0 (d ∷ ds) < 0xFFFF) where
    abbrev range : DeviceRange
    range = record {
      device = (descriptor_of device).device;
      start = spelled base 0 (d ∷ ds);
      count = spelled base 0 (e ∷ es) - spelled base 0 (d ∷ ds) + 1;
      rest = rest;
    }

    range_end :
        parse_range_end
          (descriptor_of device)
          (spelled base 0 (d ∷ ds))
          (name ++ (e ∷ (es ++ rest)))
        ≡ some range
    unfolding parse_range_end
    range_end =
        let s = name_start device e (es ++ rest) k'.0 in
        let r =
          ap (λ (q : Device). parse_range_device q (name ++ (e ∷ (es ++ rest))))
            (described_device device)
          ∙ range_device_named device e (es ++ rest) k'.0 in
        let n = parse_uint32_cursor_base_closed base e es rest (base_le device) k' l small' in
        ground (arith, s, r, n)

    two_addresses :
        parse_range (descriptor_of device) (d ∷ (ds ++ (b'-' ∷ (name ++ (e ∷ (es ++ rest))))))
        ≡ some range
    unfolding parse_range skip_spaces is_space
    two_addresses =
        let n = first_number (b'-' ∷ (name ++ (e ∷ (es ++ rest)))) dash_closed in
        ground (arith, n, range_end)

    pub parse_device_and_range_two :
        parse_device_and_range (name ++ (d ∷ (ds ++ (b'-' ∷ (name ++ (e ∷ (es ++ rest)))))))
        ≡ some (record range { device = device })
    parse_device_and_range_two =
        by_prefix (b'-' ∷ (name ++ (e ∷ (es ++ rest))))
        ∙ two_addresses
        ∙ (λ i. some (record range { device = described_device device i }))

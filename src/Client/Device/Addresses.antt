-- ===== src/Client/Device/Addresses.antt =====
-- Single addresses: a device name and the digits behind it.
use fx5_slmp_library.Prelude.{
  ℕ, ◌^◌, ◌≤◌, ◌<◌, ◌≡◌, refl, ap, ◌∙◌, sym, true, false, ◌||◌, some, List, [], ◌∷◌, ◌++◌, arith,
  ◌==◌, get_or, u32, min, append-nil,
}
use fx5_slmp_library.Types.{
  Device, dev_m, dev_sm, dev_l, dev_f, dev_s, dev_x, dev_y, dev_b, dev_sb, dev_d, dev_sd, dev_w,
  dev_sw, other_device,
}
use fx5_slmp_library.Client.Text.{is_space, is_digit, is_xdigit, skip_spaces}
use fx5_slmp_library.Client.Numbers.{
  parse_uint32_cursor_base, ulong_max, digit_value, take_digits, convert, skip_prefix, strtoul,
  AreDigits, spelled, take_digits-append,
}
use fx5_slmp_library.Client.Device.{
  DeviceDescriptor, described, has_prefix, find_prefix, parse_device_prefix, parse_range,
  parse_device_and_range,
}

-- A digit of a base up to 16 is a hexadecimal digit, and no blank, sign or `x`.
pub hex_digit :
    (c : ℕ)
    → digit_value c < 16
    → (is_space c ≡ false)
      × (is_xdigit c ≡ true)
      × ((c == b'-') ≡ false)
      × ((c == b'+') ≡ false)
      × (((c == b'x') || (c == b'X')) ≡ false)
unfolding digit_value is_space is_xdigit is_digit
hex_digit c h = (ground arith, ground arith, ground arith, ground arith, ground arith)

-- The second character of a text of digits is no `x` either.
second_digit :
    (base : ℕ) (ds : List ℕ)
    → base ≤ 16
    → AreDigits base ds
    → ((get_or ds 0 0 == b'x') || (get_or ds 0 0 == b'X')) ≡ false
second_digit base [] h k = refl
second_digit base (d ∷ ds) h k = (hex_digit d (omega (arith, k.0))).4

skip_prefix_digits :
    (base d : ℕ) (ds : List ℕ)
    → base ≤ 16
    → AreDigits base (d ∷ ds)
    → skip_prefix base (d ∷ ds) ≡ d ∷ ds
unfolding skip_prefix
skip_prefix_digits base d ds h k = ground (arith, second_digit base ds h k.1)

convert_digits :
    (base d : ℕ) (ds : List ℕ)
    → AreDigits base (d ∷ ds)
    → convert base false (d ∷ ds) ≡ (min (spelled base 0 (d ∷ ds)) ulong_max, some [])
unfolding convert
convert_digits base d ds k =
    let e =
      ap (take_digits base 0) (sym (append-nil (d ∷ ds)))
      ∙ take_digits-append base 0 (d ∷ ds) [] k tt in
    ground (arith, e)

-- A text of digits of a base up to 16 is converted whole, up to the largest `unsigned long`.
pub strtoul_digits :
    (base d : ℕ) (ds : List ℕ)
    → base ≤ 16
    → AreDigits base (d ∷ ds)
    → strtoul base (d ∷ ds) ≡ (min (spelled base 0 (d ∷ ds)) ulong_max, some [])
unfolding strtoul skip_spaces
strtoul_digits base d ds h k =
    let c = hex_digit d (omega (arith, k.0)) in
    ground (arith, c, skip_prefix_digits base d ds h k, convert_digits base d ds k)

parse_uint32_cursor_base_digits :
    (base d : ℕ) (ds : List ℕ)
    → base ≤ 16
    → AreDigits base (d ∷ ds)
    → parse_uint32_cursor_base base (d ∷ ds)
      ≡ some (u32 (min (spelled base 0 (d ∷ ds)) ulong_max), [])
unfolding parse_uint32_cursor_base
parse_uint32_cursor_base_digits base d ds h k =
    let c = hex_digit d (omega (arith, k.0)) in ground (arith, c, strtoul_digits base d ds h k)

-- The entry of the table for a device.
abbrev pub descriptor_of : Device → DeviceDescriptor
descriptor_of dev_sm = described (b'S' ∷ b'M' ∷ []) dev_sm 10
descriptor_of dev_sd = described (b'S' ∷ b'D' ∷ []) dev_sd 10
descriptor_of dev_sb = described (b'S' ∷ b'B' ∷ []) dev_sb 16
descriptor_of dev_sw = described (b'S' ∷ b'W' ∷ []) dev_sw 16
descriptor_of dev_d = described (b'D' ∷ []) dev_d 10
descriptor_of dev_m = described (b'M' ∷ []) dev_m 10
descriptor_of dev_x = described (b'X' ∷ []) dev_x 8
descriptor_of dev_y = described (b'Y' ∷ []) dev_y 8
descriptor_of dev_l = described (b'L' ∷ []) dev_l 10
descriptor_of dev_f = described (b'F' ∷ []) dev_f 10
descriptor_of dev_s = described (b'S' ∷ []) dev_s 10
descriptor_of dev_b = described (b'B' ∷ []) dev_b 16
descriptor_of dev_w = described (b'W' ∷ []) dev_w 16
descriptor_of (other_device n) = described [] (other_device n) 0

-- Behind `S`, a decimal digit is no letter that makes another name.
decimal_no_letter :
    (d : ℕ)
    → digit_value d < 10
    → ((b'M' == d) ≡ false) × ((b'D' == d) ≡ false) × ((b'B' == d) ≡ false) × ((b'W' == d) ≡ false)
unfolding digit_value
decimal_no_letter d h = (ground arith, ground arith, ground arith, ground arith)

pub parse_device_prefix_lem :
    (device : Device) (d : ℕ) (ds : List ℕ)
    → digit_value d < (descriptor_of device).base
    → parse_device_prefix ((descriptor_of device).name ++ (d ∷ ds))
      ≡ some (descriptor_of device, d ∷ ds)
unfolding parse_device_prefix find_prefix has_prefix
parse_device_prefix_lem dev_sm d ds h = refl
parse_device_prefix_lem dev_sd d ds h = refl
parse_device_prefix_lem dev_sb d ds h = refl
parse_device_prefix_lem dev_sw d ds h = refl
parse_device_prefix_lem dev_d d ds h = refl
parse_device_prefix_lem dev_m d ds h = refl
parse_device_prefix_lem dev_x d ds h = refl
parse_device_prefix_lem dev_y d ds h = refl
parse_device_prefix_lem dev_l d ds h = refl
parse_device_prefix_lem dev_f d ds h = refl
parse_device_prefix_lem dev_s d ds h = let n = decimal_no_letter d h in rw (n.0, n.1, n.2, n.3) refl
parse_device_prefix_lem dev_b d ds h = refl
parse_device_prefix_lem dev_w d ds h = refl
parse_device_prefix_lem (other_device n) d ds h = absurd (omega arith)

pub base_le : (device : Device) → (descriptor_of device).base ≤ 16
base_le dev_sm = omega arith
base_le dev_sd = omega arith
base_le dev_sb = omega arith
base_le dev_sw = omega arith
base_le dev_d = omega arith
base_le dev_m = omega arith
base_le dev_x = omega arith
base_le dev_y = omega arith
base_le dev_l = omega arith
base_le dev_f = omega arith
base_le dev_s = omega arith
base_le dev_b = omega arith
base_le dev_w = omega arith
base_le (other_device n) = omega arith

parse_range_one :
    (device : Device) (d : ℕ) (ds : List ℕ)
    → AreDigits (descriptor_of device).base (d ∷ ds)
    → parse_range (descriptor_of device) (d ∷ ds)
      ≡ some (record {
        device = (descriptor_of device).device;
        start = u32 (min (spelled (descriptor_of device).base 0 (d ∷ ds)) ulong_max);
        count = 1;
        rest = [];
      })
unfolding parse_range skip_spaces
parse_range_one device d ds k =
    let e = parse_uint32_cursor_base_digits (descriptor_of device).base d ds (base_le device) k in
    rw (e, parse_range) refl

-- The name of a device starts with a letter.
pub name_start :
    (device : Device) (d : ℕ) (ds : List ℕ)
    → digit_value d < (descriptor_of device).base
    → skip_spaces ((descriptor_of device).name ++ (d ∷ ds))
      ≡ (descriptor_of device).name ++ (d ∷ ds)
unfolding skip_spaces is_space
name_start dev_sm d ds h = refl
name_start dev_sd d ds h = refl
name_start dev_sb d ds h = refl
name_start dev_sw d ds h = refl
name_start dev_d d ds h = refl
name_start dev_m d ds h = refl
name_start dev_x d ds h = refl
name_start dev_y d ds h = refl
name_start dev_l d ds h = refl
name_start dev_f d ds h = refl
name_start dev_s d ds h = refl
name_start dev_b d ds h = refl
name_start dev_w d ds h = refl
name_start (other_device n) d ds h = absurd (omega arith)

pub described_device : (device : Device) → (descriptor_of device).device ≡ device
described_device dev_sm = refl
described_device dev_sd = refl
described_device dev_sb = refl
described_device dev_sw = refl
described_device dev_d = refl
described_device dev_m = refl
described_device dev_x = refl
described_device dev_y = refl
described_device dev_l = refl
described_device dev_f = refl
described_device dev_s = refl
described_device dev_b = refl
described_device dev_w = refl
described_device (other_device n) = refl

pub exact : (n : ℕ) → n < 2 ^ 32 → u32 (min n ulong_max) ≡ n
exact n h = omega arith

with_prefix :
    (c : ℕ) (s : List ℕ) (desc : DeviceDescriptor) (rest : List ℕ)
    → skip_spaces (c ∷ s) ≡ c ∷ s
    → parse_device_prefix (c ∷ s) ≡ some (desc, rest)
    → parse_device_and_range (c ∷ s) ≡ parse_range desc rest
unfolding parse_device_and_range
with_prefix c s desc rest e f = ground (arith, e, f)

pub range_of_prefix :
    (p : List ℕ) (desc : DeviceDescriptor) (rest : List ℕ)
    → skip_spaces p ≡ p
    → parse_device_prefix p ≡ some (desc, rest)
    → parse_device_and_range p ≡ parse_range desc rest
unfolding parse_device_and_range parse_device_prefix find_prefix has_prefix
range_of_prefix [] desc rest e f = absurd (cc)
range_of_prefix (c ∷ s) desc rest e f = with_prefix c s desc rest e f

-- A device name followed by digits of the device's base, and by nothing else, parses to that device,
-- the number that the digits spell, if it has 32 bits, and a count of 1: the digits are octal for X
-- and Y, hexadecimal for B, W, SB and SW, and decimal for the others.
pub parse_device_and_range_single :
    (device : Device) (d : ℕ) (ds : List ℕ)
    → AreDigits (descriptor_of device).base (d ∷ ds)
    → spelled (descriptor_of device).base 0 (d ∷ ds) < 2 ^ 32
    → parse_device_and_range ((descriptor_of device).name ++ (d ∷ ds))
      ≡ some (record {
        device = device;
        start = spelled (descriptor_of device).base 0 (d ∷ ds);
        count = 1;
        rest = [];
      })
parse_device_and_range_single device d ds k small =
    range_of_prefix ((descriptor_of device).name ++ (d ∷ ds)) (descriptor_of device) (d ∷ ds)
      (name_start device d ds k.0) (parse_device_prefix_lem device d ds k.0)
    ∙ parse_range_one device d ds k
    ∙ (λ i. some (record {
      device = described_device device i;
      start = exact (spelled (descriptor_of device).base 0 (d ∷ ds)) small i;
      count = 1;
      rest = [];
    }))

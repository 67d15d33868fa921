-- ===== src/Client/Device.antt =====
-- tools/fx5_client/src/fx5_client_parser.c: device names and ranges such as `D100-D109`.
pub mod Addresses
pub mod Ranges
pub mod HexEnds
use fx5_slmp_library.Prelude.{
  ℕ, ◌+◌, ◌-◌, ◌^◌, ◌≤◌, ◌<◌, ◌≡◌, refl, ap, ◌∙◌, sym, Bool, true, false, ◌&&◌, ◌||◌, not, Option,
  some, none, List, [], ◌∷◌, ◌++◌, arith, ltb, ◌==◌, if◌then◌else◌, length, get_or, drop, u16, u32,
  min, append-nil,
}
use fx5_slmp_library.Types.{
  Device, dev_m, dev_sm, dev_l, dev_f, dev_s, dev_x, dev_y, dev_b, dev_sb, dev_d, dev_sd, dev_w,
  dev_sw, other_device, device_code,
}
use fx5_slmp_library.Client.Text.{is_space, is_alpha, is_digit, is_xdigit, skip_spaces}
use fx5_slmp_library.Client.Numbers.{
  parse_uint32_cursor_base, ulong_max, digit_value, take_digits, convert, skip_prefix, strtoul,
  AreDigits, spelled, take_digits-append,
}

pub record DeviceDescriptor : Type 0 where
  pub name : List ℕ
  pub device : Device
  pub base : ℕ

abbrev pub described : List ℕ → Device → ℕ → DeviceDescriptor
described name device base = record { name = name; device = device; base = base }

-- Two letters stand before one, so that `SM1` is no `S` with the rest `M1`.
abbrev pub device_descriptors : List DeviceDescriptor
device_descriptors =
    described (b'S' ∷ b'M' ∷ []) dev_sm 10
    ∷ described (b'S' ∷ b'D' ∷ []) dev_sd 10
    ∷ described (b'S' ∷ b'B' ∷ []) dev_sb 16
    ∷ described (b'S' ∷ b'W' ∷ []) dev_sw 16
    ∷ described (b'D' ∷ []) dev_d 10
    ∷ described (b'M' ∷ []) dev_m 10
    ∷ described (b'X' ∷ []) dev_x 8
    ∷ described (b'Y' ∷ []) dev_y 8
    ∷ described (b'L' ∷ []) dev_l 10
    ∷ described (b'F' ∷ []) dev_f 10
    ∷ described (b'S' ∷ []) dev_s 10
    ∷ described (b'B' ∷ []) dev_b 16
    ∷ described (b'W' ∷ []) dev_w 16
    ∷ []

-- `strncmp(s, name, strlen(name)) == 0`
unfoldable pub has_prefix : List ℕ → List ℕ → Bool
has_prefix [] s = true
has_prefix (c ∷ name) [] = false
has_prefix (c ∷ name) (d ∷ s) = (c == d) && has_prefix name s

-- The loop over the table, from an entry on: the entry and the text behind its name.
unfoldable pub find_prefix : List DeviceDescriptor → List ℕ → Option (DeviceDescriptor × List ℕ)
find_prefix [] p = none
find_prefix (desc ∷ descs) p =
    let rest = find_prefix descs p in
    if has_prefix desc.name p then some (desc, drop (length desc.name) p) else rest

unfoldable pub parse_device_prefix : List ℕ → Option (DeviceDescriptor × List ℕ)
parse_device_prefix p = find_prefix device_descriptors p

-- Two values of an enumeration are compared by their numbers.
unfoldable pub same_device : Device → Device → Bool
unfolding device_code
same_device a b = device_code a == device_code b

pub record DeviceRange : Type 0 where
  pub device : Device
  pub start : ℕ
  pub count : ℕ
  pub rest : List ℕ

-- After the `-`: the text from the second number on, if a device name there is the first one's.
unfoldable pub parse_range_device : Device → List ℕ → Option (List ℕ)
parse_range_device device s =
    if is_alpha (get_or s 0 0)
    then elim (parse_device_prefix s) [
      | none ↦ none
      | some found ↦ if not (same_device found.0.device device) then none else some found.1
    ]
    else some s

unfoldable pub parse_range_end : DeviceDescriptor → ℕ → List ℕ → Option DeviceRange
parse_range_end desc start s = elim (parse_range_device desc.device (skip_spaces s)) [
  | none ↦ none
  | some q ↦ elim (parse_uint32_cursor_base desc.base q) [
    | none ↦ none
    | some (end, rest) ↦
        if ltb end start
        then none
        else if ltb 0xFFFF (u32 (end - start + 1))
        then none
        else some (record {
          device = desc.device;
          start = start;
          count = u16 (end - start + 1);
          rest = rest;
        })
  ]
]

-- The range behind a device name.
unfoldable pub parse_range : DeviceDescriptor → List ℕ → Option DeviceRange
parse_range desc s = elim (parse_uint32_cursor_base desc.base s) [
  | none ↦ none
  | some (start, rest) ↦
      let q = skip_spaces rest in
      if get_or q 0 0 == b'-'
      then parse_range_end desc start (drop 1 q)
      else some (record { device = desc.device; start = start; count = 1; rest = q })
]

-- What is written through `p` and the output pointers, if the result is true.
unfoldable pub parse_device_and_range : List ℕ → Option DeviceRange
parse_device_and_range p = elim (skip_spaces p) [
  | [] ↦ none
  | c ∷ s ↦ elim (parse_device_prefix (c ∷ s)) [
    | none ↦ none
    | some (desc, rest) ↦ parse_range desc rest
  ]
]

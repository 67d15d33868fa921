-- ===== src/Client/Device/HexEnds.antt =====
-- Ranges of the devices with hexadecimal addresses whose end is given without the device's name.
use fx5_slmp_library.Prelude.{
  ℕ, ◌≤◌, ◌≡◌, ◌≢◌, refl, true, none, some, List, [], ◌∷◌, arith, ◌==◌, if◌then◌else◌, ◌⊎◌,
}
use fx5_slmp_library.Types.{Device, dev_b, dev_sb, dev_w, dev_sw, dev_d, dev_f}
use fx5_slmp_library.Client.Text.{is_space, is_alpha, skip_spaces}
use fx5_slmp_library.Client.Device.{
  described, has_prefix, find_prefix, parse_device_prefix, parse_range_device, parse_range_end,
  same_device,
}
use fx5_slmp_library.Client.Device.Addresses.{descriptor_of}

-- A device whose addresses are hexadecimal, and a hexadecimal letter that is not its name.
abbrev pub IsHexDevice : Device → ℕ → Type 0
IsHexDevice dev_w c = Unit
IsHexDevice dev_sw c = Unit
IsHexDevice dev_sb c = Unit
IsHexDevice dev_b c = c ≢ b'B'
IsHexDevice _ c = ⊥

-- `A` to `F`, in either case.
abbrev pub IsHexLetter : ℕ → Type 0
IsHexLetter c = ((b'A' ≤ c) × (c ≤ b'F')) ⊎ ((b'a' ≤ c) × (c ≤ b'f'))

letter_prefix :
    (c : ℕ) (s : List ℕ)
    → IsHexLetter c
    → parse_device_prefix (c ∷ s) ≡ (
        if c == b'D'
        then some (described (b'D' ∷ []) dev_d 10, s)
        else if c == b'F'
        then some (described (b'F' ∷ []) dev_f 10, s)
        else if c == b'B'
        then some (described (b'B' ∷ []) dev_b 16, s)
        else none)
unfolding parse_device_prefix find_prefix has_prefix
letter_prefix c s h = ground arith

letter_alpha :
    (c : ℕ) (s : List ℕ) → IsHexLetter c → (is_alpha c ≡ true) × (skip_spaces (c ∷ s) ≡ c ∷ s)
unfolding is_alpha skip_spaces is_space
letter_alpha c s h = (ground arith, ground arith)

letter_refused :
    (device : Device) (c : ℕ) (s : List ℕ)
    → IsHexDevice device c
    → IsHexLetter c
    → parse_range_device (descriptor_of device).device (c ∷ s) ≡ none
unfolding parse_range_device same_device
letter_refused dev_w c s h l = ground (arith, letter_prefix c s l, letter_alpha c s l)
letter_refused dev_sw c s h l = ground (arith, letter_prefix c s l, letter_alpha c s l)
letter_refused dev_sb c s h l = ground (arith, letter_prefix c s l, letter_alpha c s l)
letter_refused dev_b c s h l = ground (arith, letter_prefix c s l, letter_alpha c s l)
letter_refused _ c s h l = absurd h

pub range_end_refused :
    (device : Device) (start c : ℕ) (s : List ℕ)
    → IsHexDevice device c
    → IsHexLetter c
    → parse_range_end (descriptor_of device) start (c ∷ s) ≡ none
unfolding parse_range_end
range_end_refused device start c s h l =
    let k = (letter_alpha c s l).1 in
    let r = letter_refused device c s h l in rw (k, parse_range_end) (rw (r, parse_range_end) refl)

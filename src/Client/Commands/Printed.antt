-- ===== src/Client/Commands/Printed.antt =====
-- Commands in the addresses that the client itself prints.
use fx5_slmp_library.Prelude.{
  ℕ, ◌+◌, ◌-◌, ◌≤◌, ◌<◌, ◌^◌, ◌≡◌, refl, ap, ◌∙◌, some, none, List, [], ◌∷◌, ◌++◌, arith,
  append_assoc, append-nil,
}
use fx5_slmp_library.Types.{
  Device, dev_m, dev_sm, dev_l, dev_f, dev_s, dev_x, dev_y, dev_b, dev_sb, dev_d, dev_sd, dev_w,
  dev_sw, other_device,
}
use fx5_slmp_library.Client.Format.{digits_in}
use fx5_slmp_library.Client.Format.Digits.{IsPrinted, digits_in_lem}
use fx5_slmp_library.Client.Device.{parse_device_and_range, parse_range_end}
use fx5_slmp_library.Client.Device.Addresses.{descriptor_of, base_le}
use fx5_slmp_library.Client.Device.Ranges.{
  IsClosed, IsBehind, parse_device_and_range_bad, parse_device_and_range_one,
  parse_device_and_range_two,
}
use fx5_slmp_library.Client.Commands.{client_device_name, print_device_address}

-- A device that the client has a name for.
abbrev pub IsNamed : Device → Type 0
IsNamed (other_device n) = ⊥
IsNamed _ = Unit

base_ge : (device : Device) → IsNamed device → 2 ≤ (descriptor_of device).base
base_ge dev_m h = omega arith
base_ge dev_sm h = omega arith
base_ge dev_l h = omega arith
base_ge dev_f h = omega arith
base_ge dev_s h = omega arith
base_ge dev_x h = omega arith
base_ge dev_y h = omega arith
base_ge dev_b h = omega arith
base_ge dev_sb h = omega arith
base_ge dev_d h = omega arith
base_ge dev_sd h = omega arith
base_ge dev_w h = omega arith
base_ge dev_sw h = omega arith
base_ge (other_device n) h = absurd h

-- The printer's tables agree with those of the parser.
print_device_address_lem :
    (device : Device) (address : ℕ)
    → IsNamed device
    → print_device_address device address
      ≡ (descriptor_of device).name ++ digits_in (descriptor_of device).base address
unfolding print_device_address client_device_name
print_device_address_lem dev_m n h = refl
print_device_address_lem dev_sm n h = refl
print_device_address_lem dev_l n h = refl
print_device_address_lem dev_f n h = refl
print_device_address_lem dev_s n h = refl
print_device_address_lem dev_x n h = refl
print_device_address_lem dev_y n h = refl
print_device_address_lem dev_b n h = refl
print_device_address_lem dev_sb n h = refl
print_device_address_lem dev_d n h = refl
print_device_address_lem dev_sd n h = refl
print_device_address_lem dev_w n h = refl
print_device_address_lem dev_sw n h = refl
print_device_address_lem (other_device n) m h = absurd h

module _ (device : Device) (named : IsNamed device) where
  abbrev base : ℕ
  base = (descriptor_of device).base

  abbrev name : List ℕ
  name = (descriptor_of device).name

  printed : (address : ℕ) → IsPrinted base address [] (digits_in base address)
  printed address = digits_in_lem base address (base_ge device named) (base_le device)

  -- The address in front of a text, as a name and digits.
  address_text :
      (address : ℕ) (rest : List ℕ)
      → print_device_address device address ++ rest
        ≡ name ++ ((printed address).first ∷ ((printed address).others ++ rest))
  address_text address rest =
      let p = printed address in
      ap (λ (q : List ℕ). q ++ rest) (print_device_address_lem device address named)
      ∙ append_assoc name (digits_in base address) rest
      ∙ ap (λ (q : List ℕ). name ++ (q ++ rest)) (p.text ∙ append-nil (p.first ∷ p.others))

  -- What the client prints for an address of 32 bits is read as that address, alone.
  pub parse_device_and_range-address :
      (address : ℕ) (rest : List ℕ)
      → address < 2 ^ 32
      → IsBehind rest
      → parse_device_and_range (print_device_address device address ++ rest)
        ≡ some (record { device = device; start = address; count = 1; rest = rest })
  parse_device_and_range-address address rest small b =
      let p = printed address in
      ap parse_device_and_range (address_text address rest)
      ∙ parse_device_and_range_one device p.first p.others p.digits (omega (arith, p.spells)) rest b
      ∙ ap (λ (n : ℕ). some (record { device = device; start = n; count = 1; rest = rest }))
          p.spells

  -- Two of them with a dash between are read as the range from one to the other.
  pub parse_device_and_range-range :
      (first last : ℕ) (rest : List ℕ)
      → first ≤ last
      → last < 2 ^ 32
      → last - first < 0xFFFF
      → IsClosed rest
      → parse_device_and_range
          (print_device_address device first ++ (b'-' ∷ (print_device_address device last ++ rest)))
        ≡ some (record { device = device; start = first; count = last - first + 1; rest = rest })
  parse_device_and_range-range first last rest ordered small short l =
      let p = printed first in
      let q = printed last in
      ap (λ (t : List ℕ). parse_device_and_range (print_device_address device first ++ (b'-' ∷ t)))
        (address_text last rest)
      ∙ ap parse_device_and_range
          (address_text first (b'-' ∷ (name ++ (q.first ∷ (q.others ++ rest)))))
      ∙ parse_device_and_range_two device p.first p.others p.digits (omega (arith, p.spells))
          q.first q.others rest q.digits l (omega (arith, q.spells))
          (omega (arith, p.spells, q.spells)) (omega (arith, p.spells, q.spells))
      ∙ (λ i. some (record {
        device = device;
        start = p.spells i;
        count = q.spells i - p.spells i + 1;
        rest = rest;
      }))

  -- With an end that is refused, so is the range.
  pub parse_device_and_range-bad_end :
      (first : ℕ) (s : List ℕ)
      → first < 2 ^ 32
      → parse_range_end (descriptor_of device) first s ≡ none
      → parse_device_and_range (print_device_address device first ++ (b'-' ∷ s)) ≡ none
  parse_device_and_range-bad_end first s small e =
      let p = printed first in
      ap parse_device_and_range (address_text first (b'-' ∷ s))
      ∙ parse_device_and_range_bad device p.first p.others p.digits (omega (arith, p.spells)) s
          (ap (λ (n : ℕ). parse_range_end (descriptor_of device) n s) p.spells ∙ e)

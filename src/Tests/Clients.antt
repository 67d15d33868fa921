-- ===== src/Tests/Clients.antt =====
-- The theorems on the text of the client at concrete texts.
use fx5_slmp_library.Prelude.{ℕ, ◌≡◌, refl, true, Option, some, none, List, [], ◌∷◌, ◌++◌, arith}
use fx5_slmp_library.Prelude.Strings.{codes}
use fx5_slmp_library.Types.{dev_x, dev_m}
use fx5_slmp_library.Client.Text.{skip_spaces, is_space, is_xdigit, is_alpha}
use fx5_slmp_library.Client.Numbers.{
  parse_uint16_text, parse_uint16_text_decimal, parse_uint32_cursor_base, strtoul, convert,
  digit_value, skip_prefix, take_digits,
}
use fx5_slmp_library.Client.Device.{
  DeviceRange, parse_device_and_range, parse_device_prefix, find_prefix, parse_range,
  parse_range_end, parse_range_device, same_device, has_prefix,
}
use fx5_slmp_library.Client.Device.Addresses.{parse_device_and_range_single}
use fx5_slmp_library.Client.Command.{device_is_bit, parse_command}
use fx5_slmp_library.Client.Command.Total.{parse_command-overruns}

-- 4294967297 is 1 modulo 2 ^ 32.
parse_uint16_text_decimal_example :
    parse_uint16_text (b'4' ∷ b'2' ∷ b'9' ∷ b'4' ∷ b'9' ∷ b'6' ∷ b'7' ∷ b'2' ∷ b'9' ∷ b'7' ∷ [])
    ≡ some 1
unfolding digit_value
parse_uint16_text_decimal_example =
    parse_uint16_text_decimal b'4'
      (b'2' ∷ b'9' ∷ b'4' ∷ b'9' ∷ b'6' ∷ b'7' ∷ b'2' ∷ b'9' ∷ b'7' ∷ []) (omega arith)

-- X20 is the point 16.
parse_device_and_range_single_example :
    parse_device_and_range (b'X' ∷ b'2' ∷ b'0' ∷ [])
    ≡ some (record { device = dev_x; start = 16; count = 1; rest = [] })
unfolding digit_value
parse_device_and_range_single_example =
    parse_device_and_range_single dev_x b'2' (b'0' ∷ []) (omega arith) (omega arith)

-- Four points of a bit device, and more of them than a command has values.
abbrev four_points : List ℕ
four_points = codes "set M0-M3=true"

abbrev too_many_points : List ℕ
too_many_points = codes "M0-M599=true"

range_of_many :
    parse_device_and_range too_many_points
    ≡ some (record { device = dev_m; start = 0; count = 600; rest = codes "=true" })
unfolding parse_device_and_range parse_device_prefix find_prefix parse_range has_prefix
    parse_uint32_cursor_base strtoul convert digit_value skip_prefix take_digits is_xdigit is_alpha
    skip_spaces is_space parse_range_end parse_range_device same_device
range_of_many = refl

abbrev points_of : Option DeviceRange → ℕ
points_of none = 0
points_of (some r) = r.count

parse_command-overruns_example : parse_command (codes "set " ++ too_many_points) ≡ none
unfolding device_is_bit
parse_command-overruns_example =
    parse_command-overruns true too_many_points
      (record { device = dev_m; start = 0; count = 600; rest = codes "=true" }) range_of_many refl
      refl (omega arith)

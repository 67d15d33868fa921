-- ===== src/Client/Commands/Lines.antt =====
-- Whole command lines with a range, and what `fx5_client_parse_command` makes of them.
use fx5_slmp_library.Prelude.{
  ℕ, zero, suc, ◌+◌, ◌-◌, ◌≤◌, ◌<◌, ◌^◌, ◌≡◌, refl, ap, ◌∙◌, sym, Bool, true, false, some, none,
  List, [], ◌∷◌, ◌++◌, arith, length, drop, replicate, length-replicate,
}
use fx5_slmp_library.Prelude.Strings.{codes}
use fx5_slmp_library.Types.{Device, dev_w, dev_sw, dev_sb, dev_b}
use fx5_slmp_library.Bytes.Array.{put_list, put_list_start}
use fx5_slmp_library.Client.Text.{skip_spaces, is_space, same_text}
use fx5_slmp_library.Client.Numbers.{digit_value}
use fx5_slmp_library.Client.Device.{parse_device_and_range, has_prefix}
use fx5_slmp_library.Client.Device.Ranges.{IsClosed}
use fx5_slmp_library.Client.Device.HexEnds.{IsHexDevice, IsHexLetter, range_end_refused}
use fx5_slmp_library.Client.Command.{
  ClientCommand, get_command, set_command, command_init, parse_get, parse_set, parse_command,
  parse_command_at, parse_scalar_or_list,
}
use fx5_slmp_library.Client.Command.Lists.{list_text, AreShort, parse_scalar_or_list_values}
use fx5_slmp_library.Client.Command.Total.{blank_before, as_set}
use fx5_slmp_library.Client.Commands.{print_device_address}
use fx5_slmp_library.Client.Commands.Printed.{
  IsNamed, parse_device_and_range-range, parse_device_and_range-bad_end,
}

-- `D100-D109`, with the addresses in the device's digits.
abbrev pub range_text : Device → ℕ → ℕ → List ℕ → List ℕ
range_text device first last rest =
    print_device_address device first ++ (b'-' ∷ (print_device_address device last ++ rest))

-- A command for a range, before its values are known.
abbrev pub for_range : ClientCommand → Device → ℕ → ℕ → ClientCommand
for_range cmd device first last = record cmd {
  device = device;
  start_address = first;
  count = last - first + 1;
}

equals-IsClosed : (s : List ℕ) → IsClosed (b'=' ∷ s)
unfolding digit_value
equals-IsClosed s = refl

drop-replicate : (k n : ℕ) → drop {A = ℕ} k (replicate n 0) ≡ replicate (n - k) 0
drop-replicate zero n = let e : n - 0 ≡ n = omega arith in rw e refl
drop-replicate (suc k) zero = let e : 0 - suc k ≡ 0 = omega arith in rw e refl
drop-replicate (suc k) (suc n) =
    let e : suc n - suc k ≡ n - k = omega arith in rw e (drop-replicate k n)

put_list-replicate :
    (n : ℕ) (xs : List ℕ)
    → length xs ≤ n
    → put_list (replicate n 0) 0 xs ≡ xs ++ replicate (n - length xs) 0
put_list-replicate n xs h =
    put_list_start (replicate n 0) xs (omega (arith, length-replicate n (zero)))
    ∙ ap (λ (q : List ℕ). xs ++ q) (drop-replicate (length xs) n)

no_values : command_init.values ≡ replicate 512 0
unfolding command_init
no_values = refl

first_values :
    (xs : List ℕ)
    → length xs ≤ 512
    → put_list command_init.values 0 xs ≡ xs ++ replicate (512 - length xs) 0
first_values xs h = ap (λ (q : List ℕ). put_list q 0 xs) no_values ∙ put_list-replicate 512 xs h

module _ (device : Device) (first last : ℕ) (named : IsNamed device) (ordered : first ≤ last)
    (small : last < 2 ^ 32) (short : last - first < 0xFFFF) where
  range_read :
      (rest : List ℕ)
      → IsClosed rest
      → parse_device_and_range (b' ' ∷ range_text device first last rest)
        ≡ some (record { device = device; start = first; count = last - first + 1; rest = rest })
  range_read rest l =
      blank_before (range_text device first last rest)
      ∙ parse_device_and_range-range device named first last rest ordered small short l

  get_read :
      (cmd : ClientCommand)
      → parse_get (b' ' ∷ range_text device first last []) cmd
        ≡ (true, for_range (record cmd { command_type = get_command }) device first last)
  unfolding parse_get skip_spaces
  get_read cmd = rw (range_read [] tt, parse_get) refl

  -- The line `get` with the first and the last address of a range, as the client prints them, is the
  -- command to read that range, if it has at most 65535 points and its addresses have 32 bits.
  pub parse_command-get_range :
      parse_command (codes "get " ++ range_text device first last [])
      ≡ some
          (true, for_range (record command_init { command_type = get_command }) device first last)
  unfolding parse_command parse_command_at skip_spaces is_space same_text has_prefix
  parse_command-get_range = ap (λ (r : Bool × ClientCommand). some r) (get_read command_init)

  module _ (v : ℕ) (vs : List ℕ) (shorts : AreShort (v ∷ vs))
      (counted : length (v ∷ vs) ≡ last - first + 1) (room : length (v ∷ vs) ≤ 512) where
    abbrev line_end : List ℕ
    line_end = b'=' ∷ list_text (v ∷ vs)

    abbrev set_there : ClientCommand → ClientCommand
    set_there cmd =
        record (for_range (record cmd { command_type = set_command }) device first last) {
          values = put_list cmd.values 0 (v ∷ vs);
          value_count = last - first + 1;
        }

    values_read :
        (cmd : ClientCommand)
        → parse_scalar_or_list (list_text (v ∷ vs)) device (last - first + 1) cmd
          ≡ some (
            true,
            record cmd { values = put_list cmd.values 0 (v ∷ vs); value_count = last - first + 1 },
          )
    values_read cmd =
        ap (λ (n : ℕ). parse_scalar_or_list (list_text (v ∷ vs)) device n cmd) (sym counted)
        ∙ parse_scalar_or_list_values device v vs cmd shorts room
        ∙ ap
            (λ (n : ℕ).
              some (true, record cmd { values = put_list cmd.values 0 (v ∷ vs); value_count = n }))
            counted

    set_read :
        (cmd : ClientCommand)
        → parse_set (b' ' ∷ range_text device first last line_end) cmd ≡ some (true, set_there cmd)
    unfolding parse_set skip_spaces is_space
    set_read cmd =
        rw (range_read line_end (equals-IsClosed (list_text (v ∷ vs))), parse_set)
          (values_read (for_range (record cmd { command_type = set_command }) device first last))

    -- The line `set` with such a range and one number of 16 bits for each of its points, at most 512,
    -- with commas between, is the command to write these numbers there.
    pub parse_command-set_range :
        parse_command (codes "set " ++ range_text device first last line_end)
        ≡ some (
          true,
          record (for_range
              (record command_init { command_type = set_command })
              device
              first
              last) {
                values = (v ∷ vs) ++ replicate (512 - (last - first + 1)) 0;
                value_count = last - first + 1;
              },
        )
    parse_command-set_range =
        as_set (range_text device first last line_end)
        ∙ set_read command_init
        ∙ ap
            (λ (values : List ℕ). some (
              true,
              record (for_range (record command_init { command_type = set_command }) device first
                  last) { values = values; value_count = last - first + 1 },
            ))
            (first_values (v ∷ vs) room ∙ ap (λ (n : ℕ). (v ∷ vs) ++ replicate (512 - n) 0) counted)

hex_IsNamed : (device : Device) (c : ℕ) → IsHexDevice device c → IsNamed device
hex_IsNamed dev_w c h = tt
hex_IsNamed dev_sw c h = tt
hex_IsNamed dev_sb c h = tt
hex_IsNamed dev_b c h = tt
hex_IsNamed _ c h = absurd h

get_refused :
    (s : List ℕ) (cmd : ClientCommand)
    → parse_device_and_range (b' ' ∷ s) ≡ none
    → parse_get (b' ' ∷ s) cmd ≡ (false, record cmd { command_type = get_command })
unfolding parse_get
get_refused s cmd e = rw (e, parse_get) refl

-- On a device with hexadecimal addresses, a range whose end starts with a hexadecimal letter, and not
-- with the name of that device, is refused, whatever follows the letter: the letter is taken for the
-- name of another device, or of none.
pub parse_command-hex_end :
    (device : Device) (first c : ℕ) (s : List ℕ)
    → IsHexDevice device c
    → IsHexLetter c
    → first < 2 ^ 32
    → parse_command (codes "get " ++ (print_device_address device first ++ (b'-' ∷ c ∷ s)))
      ≡ some (false, record command_init { command_type = get_command })
unfolding parse_command parse_command_at skip_spaces is_space same_text has_prefix
parse_command-hex_end device first c s h l small =
    ap (λ (r : Bool × ClientCommand). some r)
      (get_refused (print_device_address device first ++ (b'-' ∷ c ∷ s)) command_init (
        blank_before (print_device_address device first ++ (b'-' ∷ c ∷ s))
        ∙ parse_device_and_range-bad_end device (hex_IsNamed device c h) first (c ∷ s) small
            (range_end_refused device first c s h l)))

-- ===== src/Client/Command.antt =====
-- tools/fx5_client/src/fx5_client_parser.c: the commands of the client, with the structure of
-- fx5_client_commands.h. A parser returns whether it succeeded and the command as it leaves it.
pub mod Values
pub mod Total
pub mod Lists
use fx5_slmp_library.Prelude.{
  ℕ, zero, suc, ◌+◌, ◌-◌, Bool, true, false, ◌&&◌, ◌||◌, not, Option, some, none, List, [], ◌∷◌,
  ltb, leb, ◌==◌, if◌then◌else◌, length, get_or, set, drop, replicate, u16,
}
use mathlib.Core.Option
use fx5_slmp_library.Types.{
  Device, dev_m, dev_sm, dev_l, dev_f, dev_s, dev_x, dev_y, dev_b, dev_sb, dev_d, dev_sd, dev_w,
  dev_sw, other_device, Header, header_3e, header_4e, max_bit_value_count,
}
use fx5_slmp_library.Client.Text.{is_space, skip_spaces, same_text, true_word, false_word}
use fx5_slmp_library.Client.Numbers.{parse_uint32_cursor}
use fx5_slmp_library.Client.Device.{has_prefix, DeviceRange, parse_device_and_range}

pub data CommandType : Type 0 where
  invalid_command get_command set_command help_command trace_command header_command quit_command :
      CommandType

abbrev pub max_values : ℕ
max_values = max_bit_value_count

pub record ClientCommand : Type 0 where
  pub command_type : CommandType
  pub device : Device
  pub start_address : ℕ
  pub count : ℕ
  pub bool_value : Bool
  pub has_scalar_value : Bool
  pub values : List ℕ
  pub value_count : ℕ
  pub trace_enabled : Bool
  pub header_type : Header

unfoldable pub command_init : ClientCommand
command_init = record {
  command_type = invalid_command;
  device = other_device 0;
  start_address = 0;
  count = 0;
  bool_value = false;
  has_scalar_value = false;
  values = replicate max_values 0;
  value_count = 0;
  trace_enabled = false;
  header_type = header_4e;
}

-- The end of the text is the character 0.
unfoldable pub is_token_boundary : ℕ → Bool
unfolding is_space
is_token_boundary c = (c == 0) || is_space c || (c == b',') || (c == b'=')

-- The value and the length of the word.
unfoldable pub parse_bool_word : List ℕ → Option (Bool × ℕ)
parse_bool_word text =
    if has_prefix true_word text && is_token_boundary (get_or text 4 0)
    then some (true, 4)
    else if has_prefix false_word text && is_token_boundary (get_or text 5 0)
    then some (false, 5)
    else none

-- `fx5_client_device_is_bit`: a table of the client's own.
unfoldable pub device_is_bit : Device → Bool
device_is_bit dev_m = true
device_is_bit dev_sm = true
device_is_bit dev_l = true
device_is_bit dev_f = true
device_is_bit dev_s = true
device_is_bit dev_x = true
device_is_bit dev_y = true
device_is_bit dev_b = true
device_is_bit dev_sb = true
device_is_bit dev_d = false
device_is_bit dev_sd = false
device_is_bit dev_w = false
device_is_bit dev_sw = false
device_is_bit (other_device n) = false

-- `for (…; k < expected_count; ++k) cmd->values[k] = v` with `left` rounds to go; `none` if a round
-- writes past the end of `values`, from where on the program has no defined behaviour.
unfoldable pub fill_values : ℕ → ℕ → ℕ → List ℕ → Option (List ℕ)
fill_values zero k v values = some values
fill_values (suc left) k v values =
    let more = fill_values left (k + 1) v (set values k v) in
    if leb max_values k then none else more

unfoldable pub parse_number : List ℕ → Option (ℕ × List ℕ)
parse_number p = elim (parse_uint32_cursor p) [
  | none ↦ none
  | some (n, rest) ↦ if ltb 0xFFFF n then none else some (u16 n, rest)
]

-- One value of the list and the text behind it.
unfoldable pub parse_item : Device → List ℕ → Option (ℕ × List ℕ)
parse_item device p =
    if device_is_bit device
    then elim (parse_bool_word p) [
      | some (b, len) ↦ some (if b then 1 else 0, drop len p)
      | none ↦ parse_number p
    ]
    else parse_number p

-- `while (*p != '\0')`: the result, the command and `count`; `none` if the fuel runs out.
unfoldable pub list_loop :
    ℕ → Device → List ℕ → ClientCommand → ℕ → Option (Bool × ClientCommand × ℕ)
list_loop zero device [] cmd count = some (true, cmd, count)
list_loop zero device (c ∷ p) cmd count = none
list_loop (suc fuel) device [] cmd count = some (true, cmd, count)
list_loop (suc fuel) device (c ∷ p) cmd count = elim (parse_item device (c ∷ p)) [
  | none ↦ some (false, cmd, count)
  | some (v, rest) ↦
      let cmd' = record cmd { values = set cmd.values count v } in
      let q = skip_spaces rest in
      let more = list_loop fuel device (skip_spaces (drop 1 q)) cmd' (u16 (count + 1)) in
      if leb max_values count
      then some (false, cmd, count)
      else if get_or q 0 0 == b','
      then more
      else some (get_or q 0 0 == 0, cmd', u16 (count + 1))
]

-- The values of a single one for all of the points, where the array has room for them.
unfoldable pub scalar_values :
    Bool → ℕ → ClientCommand → Option (List ℕ) → Option (Bool × ClientCommand)
scalar_values b expected cmd filled =
    Option.map
      (λ values. (
        true,
        record cmd {
          has_scalar_value = true;
          bool_value = b;
          value_count = expected;
          values = values;
        },
      ))
      filled

-- After the loop.
unfoldable pub finish_list : ℕ → ClientCommand → ℕ → Option (Bool × ClientCommand)
unfolding scalar_values
finish_list expected cmd count =
    if count == 0
    then some (false, cmd)
    else if (count == 1) && ltb 1 expected
    then scalar_values (not (get_or cmd.values 0 0 == 0)) expected cmd
        (fill_values (expected - 1) 1 (get_or cmd.values 0 0) cmd.values)
    else if not (count == expected)
    then some (false, cmd)
    else some (true, record cmd { value_count = count })

unfoldable pub parse_list : List ℕ → Device → ℕ → ClientCommand → Option (Bool × ClientCommand)
parse_list p device expected cmd = elim (list_loop (length p) device p cmd 0) [
  | none ↦ none
  | some (false, out, count) ↦ some (false, out)
  | some (true, out, count) ↦ finish_list expected out count
]

-- A single `true` or `false` for all of the points.
unfoldable pub scalar_word : List ℕ → Device → Option Bool
scalar_word p device =
    if device_is_bit device
    then elim (parse_bool_word p) [
      | none ↦ none
      | some (b, len) ↦ if get_or (skip_spaces (drop len p)) 0 0 == 0 then some b else none
    ]
    else none

unfoldable pub parse_scalar_or_list :
    List ℕ → Device → ℕ → ClientCommand → Option (Bool × ClientCommand)
unfolding scalar_values
parse_scalar_or_list text device expected cmd = elim (skip_spaces text) [
  | [] ↦ some (false, cmd)
  | c ∷ p ↦ elim (scalar_word (c ∷ p) device) [
    | some b ↦ scalar_values b expected cmd (fill_values expected 0 (if b then 1 else 0) cmd.values)
    | none ↦ parse_list (c ∷ p) device expected cmd
  ]
]

abbrev pub ranged : ClientCommand → DeviceRange → ClientCommand
ranged cmd r = record cmd { device = r.device; start_address = r.start; count = r.count }

unfoldable pub parse_get : List ℕ → ClientCommand → Bool × ClientCommand
parse_get p cmd =
    let got = record cmd { command_type = get_command } in
    elim (parse_device_and_range p) [
      | none ↦ (false, got)
      | some r ↦ (get_or (skip_spaces r.rest) 0 0 == 0, ranged got r)
    ]

unfoldable pub parse_set : List ℕ → ClientCommand → Option (Bool × ClientCommand)
parse_set p cmd =
    let got = record cmd { command_type = set_command } in
    elim (parse_device_and_range p) [
      | none ↦ some (false, got)
      | some r ↦
          let q = skip_spaces r.rest in
          if not (get_or q 0 0 == b'=')
          then some (false, ranged got r)
          else parse_scalar_or_list (drop 1 q) r.device r.count (ranged got r)
    ]

-- `strcmp(p, word) == 0` with the words of the client, and `strncmp(p, word, 3) == 0` before a blank.
abbrev pub text_help : List ℕ
text_help = b'h' ∷ b'e' ∷ b'l' ∷ b'p' ∷ []

abbrev pub text_quit : List ℕ
text_quit = b'q' ∷ b'u' ∷ b'i' ∷ b't' ∷ []

abbrev pub text_exit : List ℕ
text_exit = b'e' ∷ b'x' ∷ b'i' ∷ b't' ∷ []

abbrev pub text_get : List ℕ
text_get = b'g' ∷ b'e' ∷ b't' ∷ []

abbrev pub text_set : List ℕ
text_set = b's' ∷ b'e' ∷ b't' ∷ []

abbrev pub text_trace_on : List ℕ
text_trace_on = b't' ∷ b'r' ∷ b'a' ∷ b'c' ∷ b'e' ∷ b' ' ∷ b'o' ∷ b'n' ∷ []

abbrev pub text_trace_off : List ℕ
text_trace_off = b't' ∷ b'r' ∷ b'a' ∷ b'c' ∷ b'e' ∷ b' ' ∷ b'o' ∷ b'f' ∷ b'f' ∷ []

abbrev pub text_header_3e : List ℕ
text_header_3e = b'h' ∷ b'e' ∷ b'a' ∷ b'd' ∷ b'e' ∷ b'r' ∷ b' ' ∷ b'3' ∷ b'e' ∷ []

abbrev pub text_header_4e : List ℕ
text_header_4e = b'h' ∷ b'e' ∷ b'a' ∷ b'd' ∷ b'e' ∷ b'r' ∷ b' ' ∷ b'4' ∷ b'e' ∷ []

unfoldable pub parse_command_at : List ℕ → ClientCommand → Option (Bool × ClientCommand)
parse_command_at p cmd =
    if same_text p text_help
    then some (true, record cmd { command_type = help_command })
    else if same_text p text_quit || same_text p text_exit
    then some (true, record cmd { command_type = quit_command })
    else if same_text p text_trace_on
    then some (true, record cmd { command_type = trace_command; trace_enabled = true })
    else if same_text p text_trace_off
    then some (true, record cmd { command_type = trace_command; trace_enabled = false })
    else if same_text p text_header_3e
    then some (true, record cmd { command_type = header_command; header_type = header_3e })
    else if same_text p text_header_4e
    then some (true, record cmd { command_type = header_command; header_type = header_4e })
    else if has_prefix text_get p && is_space (get_or p 3 0)
    then some (parse_get (drop 3 p) cmd)
    else if has_prefix text_set p && is_space (get_or p 3 0)
    then parse_set (drop 3 p) cmd
    else some (false, cmd)

-- `none` if a value is written past the end of the array, or the fuel of the list of values runs out.
unfoldable pub parse_command : List ℕ → Option (Bool × ClientCommand)
parse_command line = elim (skip_spaces line) [
  | [] ↦ some (false, command_init)
  | c ∷ p ↦ parse_command_at (c ∷ p) command_init
]

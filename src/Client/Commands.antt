-- ===== src/Client/Commands.antt =====
-- tools/fx5_client/src/fx5_client_commands.c: a parsed command as a request of the library, and the
-- response as text.
pub mod Printed
pub mod Apply
pub mod Report
pub mod Ready
pub mod Lines
use fx5_slmp_library.Prelude.{
  ℕ, zero, suc, ◌+◌, Bool, true, false, ◌&&◌, ◌||◌, not, Option, none, some, List, [], ◌++◌, ◌==◌,
  if◌then◌else◌, get_or, u32,
}
use mathlib.Core.Option
use fx5_slmp_library.Prelude.Strings.{codes}
use fx5_slmp_library.Types.{
  Status, st_ok, err_null, err_state, err_unsupported, Device, dev_m, dev_sm, dev_l, dev_f, dev_s,
  dev_x, dev_y, dev_b, dev_sb, dev_d, dev_sd, dev_w, dev_sw, other_device, batch_read, batch_write,
}
use fx5_slmp_library.Context.{Context}
use fx5_slmp_library.Api.{
  reset, set_network_settings, set_request, set_write_value, get_response_code, get_response_count,
  get_response_value,
}
use fx5_slmp_library.Client.Command.{ClientCommand, CommandType, get_command, set_command}
use fx5_slmp_library.Client.Config.{ClientConfig}
use fx5_slmp_library.Client.Format.{digits_in, hex4}

unfoldable pub client_device_name : Device → List ℕ
client_device_name dev_d = codes "D"
client_device_name dev_m = codes "M"
client_device_name dev_x = codes "X"
client_device_name dev_y = codes "Y"
client_device_name dev_l = codes "L"
client_device_name dev_f = codes "F"
client_device_name dev_s = codes "S"
client_device_name dev_b = codes "B"
client_device_name dev_w = codes "W"
client_device_name dev_sm = codes "SM"
client_device_name dev_sd = codes "SD"
client_device_name dev_sb = codes "SB"
client_device_name dev_sw = codes "SW"
client_device_name (other_device n) = codes "?"

unfoldable pub client_device_address_base : Device → ℕ
client_device_address_base dev_x = 8
client_device_address_base dev_y = 8
client_device_address_base dev_b = 16
client_device_address_base dev_w = 16
client_device_address_base dev_sb = 16
client_device_address_base dev_sw = 16
client_device_address_base _ = 10

unfoldable pub client_is_bit_device : Device → Bool
client_is_bit_device dev_m = true
client_is_bit_device dev_sm = true
client_is_bit_device dev_l = true
client_is_bit_device dev_f = true
client_is_bit_device dev_s = true
client_is_bit_device dev_x = true
client_is_bit_device dev_y = true
client_is_bit_device dev_b = true
client_is_bit_device dev_sb = true
client_is_bit_device _ = false

unfoldable pub client_device_allows_write : Device → Bool
client_device_allows_write dev_sm = false
client_device_allows_write dev_sd = false
client_device_allows_write dev_sb = false
client_device_allows_write dev_sw = false
client_device_allows_write _ = true

-- What is printed for a device and an address of 32 bits.
unfoldable pub print_device_address : Device → ℕ → List ℕ
unfolding client_device_address_base
print_device_address device address =
    if client_device_address_base device == 16
    then client_device_name device ++ digits_in 16 address
    else if client_device_address_base device == 8
    then client_device_name device ++ digits_in 8 address
    else client_device_name device ++ digits_in 10 address

unfoldable pub is_get : CommandType → Bool
is_get get_command = true
is_get _ = false

unfoldable pub is_set : CommandType → Bool
is_set set_command = true
is_set _ = false

unfoldable pub command_needs_plc_io : ClientCommand → Bool
unfolding is_get is_set
command_needs_plc_io cmd = is_get cmd.command_type || is_set cmd.command_type

-- `if (st != FX5_ST_OK) return st;`, then the next call.
abbrev pub and_then :
    Option Context × Status → (Option Context → Option Context × Status) → Option Context × Status
and_then (ctx, st_ok) next = next ctx
and_then (ctx, status) next = (ctx, status)

-- The loop over `cmd->values` from index `i` on, with `left` rounds to go.
unfoldable pub write_values : ℕ → ℕ → List ℕ → Option Context → Option Context × Status
write_values zero i values ctx = (ctx, st_ok)
write_values (suc left) i values ctx =
    and_then (set_write_value ctx i (get_or values i 0))
      λ ctx'. write_values left (i + 1) values ctx'

-- The request itself, once the context is reset and has its settings.
unfoldable pub apply_request : ClientCommand → Option Context → Option Context × Status
unfolding is_get
apply_request cmd ctx =
    if is_get cmd.command_type
    then set_request ctx batch_read cmd.device cmd.start_address cmd.count
    else and_then (set_request ctx batch_write cmd.device cmd.start_address cmd.count)
        λ ctx'. write_values cmd.value_count 0 cmd.values ctx'

unfoldable pub apply_command_to_context :
    Option Context → ClientCommand → ClientConfig → Option Context × Status
unfolding command_needs_plc_io is_set
apply_command_to_context none cmd config = (none, err_null)
apply_command_to_context (some c) cmd config =
    if not (command_needs_plc_io cmd)
    then (some c, err_state)
    else if is_set cmd.command_type && not (client_device_allows_write cmd.device)
    then (some c, err_unsupported)
    else and_then (reset (some c)) λ ctx.
      and_then (set_network_settings ctx (some config.network_settings))
        λ ctx'. apply_request cmd ctx'

-- The line for one value.
unfoldable pub value_line : Device → ℕ → ℕ → List ℕ
unfolding client_is_bit_device
value_line device address value =
    print_device_address device address
    ++ (if client_is_bit_device device
        then codes "=" ++ ((if not (value == 0) then codes "true" else codes "false") ++ codes "\n")
        else codes "=" ++ (digits_in 10 value ++ codes "\n"))

-- What is printed for the value at index `i`, in front of `rest`; if it cannot be read, the rest is
-- left out.
unfoldable pub print_value : Status × Option ℕ → ℕ → ClientCommand → List ℕ → List ℕ
print_value (st_ok, value) i cmd rest =
    value_line cmd.device (u32 (cmd.start_address + i)) (Option.get_or value 0) ++ rest
print_value (_, value) i cmd rest =
    codes "ERR: failed to read response value " ++ (digits_in 10 i ++ codes "\n")

-- The loop over the values from index `i` on, with `left` rounds to go.
unfoldable pub print_values : ℕ → ℕ → ClientCommand → Option Context → List ℕ
unfolding print_value
print_values zero i cmd ctx = []
print_values (suc left) i cmd ctx =
    print_value (get_response_value ctx i true) i cmd (print_values left (i + 1) cmd ctx)

-- What is written to the stream; `ctx` is not NULL where this is called.
unfoldable pub print_response : ClientCommand → Option Context → List ℕ
unfolding is_get is_set
print_response cmd none = []
print_response cmd (some c) =
    if not (get_response_code (some c) == 0)
    then codes "PLC ERROR: 0x" ++ (hex4 (get_response_code (some c)) ++ codes "\n")
    else if is_set cmd.command_type
    then codes "OK\n"
    else if not (is_get cmd.command_type)
    then []
    else print_values (get_response_count (some c)) 0 cmd (some c)

-- ===== src/Api/Configure.antt =====
-- Settings, the request and its values, and the getters of src/fx5_core.c.
use fx5_slmp_library.Prelude.{
  ℕ, Bool, not, Option, none, some, ltb, leb, ◌==◌, if◌then◌else◌, get_or, set, replicate,
}
use fx5_slmp_library.Types.{
  Status, st_ok, err_null, err_invalid_count, err_invalid_address, err_invalid_index,
  err_unsupported, err_state, Device, Command, Header, NetworkSettings, max_value_count,
  max_word_value_count, max_bit_value_count, max_address, response_ok, bit_true, bit_false,
}
use fx5_slmp_library.Context.{Context, reset_internal}
use fx5_slmp_library.Packed.{slot_of, store_bit, get_packed_bit_value}
use fx5_slmp_library.Request.Devices.{
  is_supported_command, is_supported_device, is_bit_device, is_known,
}
use fx5_slmp_library.Api.Handle.{is_acquired, require_acquired, on_acquired, read_acquired}

unfoldable pub reset : Option Context → Option Context × Status
unfolding require_acquired
reset ctx = on_acquired ctx λ c. (reset_internal c, st_ok)

unfoldable pub set_network_settings :
    Option Context → Option NetworkSettings → Option Context × Status
unfolding require_acquired
set_network_settings ctx settings = on_acquired ctx λ c. elim settings [
  | none ↦ (c, err_null)
  | some s ↦
      if not (is_known s.header_type)
      then (c, err_unsupported)
      else (record c { network_settings = s }, st_ok)
]

unfoldable pub get_network_settings : Option Context → Bool → Status × Option NetworkSettings
unfolding require_acquired
get_network_settings ctx out_given =
    read_acquired ctx
      λ c. if not out_given then (err_null, none) else (st_ok, some c.network_settings)

unfoldable pub set_header_mode : Option Context → Header → Option Context × Status
unfolding require_acquired
set_header_mode ctx mode = on_acquired ctx λ c.
    if not (is_known mode)
    then (c, err_unsupported)
    else (record c { network_settings = record c.network_settings { header_type = mode } }, st_ok)

unfoldable pub set_monitoring_timer : Option Context → ℕ → Option Context × Status
unfolding require_acquired
set_monitoring_timer ctx timer = on_acquired ctx λ c.
    (record c { network_settings = record c.network_settings { monitoring_timer = timer } }, st_ok)

-- The loop that zeroes `values` writes every slot.
unfoldable pub set_request_on : Command → Device → ℕ → ℕ → Context → Context × Status
set_request_on command device address count c =
    if count == 0
    then (c, err_invalid_count)
    else if ltb max_address address
    then (c, err_invalid_address)
    else if not (is_supported_command command)
    then (c, err_unsupported)
    else if not (is_supported_device device)
    then (c, err_unsupported)
    else if ltb (if is_bit_device device then max_bit_value_count else max_word_value_count) count
    then (c, err_invalid_count)
    else (
      record c {
        command = command;
        device = device;
        address = address;
        count = count;
        response_code = response_ok;
        resync_counter = 0;
        values = replicate max_value_count 0;
      },
      st_ok,
    )

unfoldable pub set_request : Option Context → Command → Device → ℕ → ℕ → Option Context × Status
unfolding require_acquired
set_request ctx command device address count =
    on_acquired ctx (set_request_on command device address count)

unfoldable pub set_write_value_on : ℕ → ℕ → Context → Context × Status
set_write_value_on index value c =
    if c.count == 0
    then (c, err_state)
    else if leb c.count index
    then (c, err_invalid_index)
    else if is_bit_device c.device
    then (if leb max_value_count (slot_of index)
        then (c, err_invalid_index)
        else (record c { values = store_bit c.values index (not (value == 0)) }, st_ok))
    else if leb max_word_value_count index
    then (c, err_invalid_index)
    else (record c { values = set c.values index value }, st_ok)

unfoldable pub set_write_value : Option Context → ℕ → ℕ → Option Context × Status
unfolding require_acquired
set_write_value ctx index value = on_acquired ctx (set_write_value_on index value)

unfoldable pub get_response_code : Option Context → ℕ
get_response_code none = 0
get_response_code (some c) = if not (is_acquired (some c)) then 0 else c.response_code

unfoldable pub get_response_count : Option Context → ℕ
get_response_count none = 0
get_response_count (some c) = if not (is_acquired (some c)) then 0 else c.count

unfoldable pub get_last_serial : Option Context → ℕ
get_last_serial none = 0
get_last_serial (some c) = if not (is_acquired (some c)) then 0 else c.serial

unfoldable pub get_response_value_on : ℕ → Bool → Context → Status × Option ℕ
get_response_value_on index out_given c =
    if not out_given
    then (err_null, none)
    else if leb c.count index
    then (err_invalid_index, none)
    else if is_bit_device c.device
    then (if leb max_value_count (slot_of index)
        then (err_invalid_index, none)
        else (st_ok, some (if get_packed_bit_value c.values index then bit_true else bit_false)))
    else (st_ok, some (get_or c.values index 0))

unfoldable pub get_response_value : Option Context → ℕ → Bool → Status × Option ℕ
unfolding require_acquired
get_response_value ctx index out_given = read_acquired ctx (get_response_value_on index out_given)

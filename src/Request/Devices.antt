-- ===== src/Request/Devices.antt =====
-- The tables and sizes of src/fx5_request.c.
use fx5_slmp_library.Prelude.{
  ℕ, ◌+◌, ◌*◌, ◌/◌, Bool, true, false, ◌&&◌, not, ltb, ◌==◌, if◌then◌else◌, u16,
}
use fx5_slmp_library.Types.{
  Status, st_ok, err_invalid_count, err_invalid_address, err_unsupported, Device, dev_m, dev_sm,
  dev_l, dev_f, dev_s, dev_x, dev_y, dev_b, dev_sb, dev_d, dev_sd, dev_w, dev_sw, other_device,
  Command, batch_write, batch_read, other_command, Header, header_3e, header_4e, unknown_header,
  max_bit_value_count, max_word_value_count, max_address, req_header_size_3e, req_header_size_4e,
  req_pdu_header_size,
}
use fx5_slmp_library.Context.{Context}

unfoldable pub is_supported_command : Command → Bool
is_supported_command batch_read = true
is_supported_command batch_write = true
is_supported_command (other_command n) = false

unfoldable pub is_supported_device : Device → Bool
is_supported_device dev_d = true
is_supported_device dev_w = true
is_supported_device dev_sd = true
is_supported_device dev_sw = true
is_supported_device dev_m = true
is_supported_device dev_sm = true
is_supported_device dev_l = true
is_supported_device dev_f = true
is_supported_device dev_s = true
is_supported_device dev_x = true
is_supported_device dev_y = true
is_supported_device dev_b = true
is_supported_device dev_sb = true
is_supported_device (other_device n) = false

unfoldable pub is_bit_device : Device → Bool
is_bit_device dev_d = false
is_bit_device dev_w = false
is_bit_device dev_sd = false
is_bit_device dev_sw = false
is_bit_device dev_m = true
is_bit_device dev_sm = true
is_bit_device dev_l = true
is_bit_device dev_f = true
is_bit_device dev_s = true
is_bit_device dev_x = true
is_bit_device dev_y = true
is_bit_device dev_b = true
is_bit_device dev_sb = true
is_bit_device (other_device n) = false

unfoldable pub device_allows_write : Device → Bool
device_allows_write dev_sm = false
device_allows_write dev_sd = false
device_allows_write dev_sb = false
device_allows_write dev_sw = false
device_allows_write _ = true

unfoldable pub get_max_value_count : Device → ℕ
get_max_value_count device =
    if is_bit_device device then max_bit_value_count else max_word_value_count

-- `header_type == FX5_4E_HEADER`, and the test that rejects any other than 3E and 4E.
abbrev pub is_4e : Header → Bool
is_4e header_4e = true
is_4e header_3e = false
is_4e unknown_header = false

abbrev pub is_known : Header → Bool
is_known header_3e = true
is_known header_4e = true
is_known unknown_header = false

-- `command == FX5_CMD_BATCH_WRITE`, `command == FX5_CMD_BATCH_READ`.
abbrev pub is_write : Command → Bool
is_write batch_write = true
is_write batch_read = false
is_write (other_command n) = false

abbrev pub is_read : Command → Bool
is_read batch_read = true
is_read batch_write = false
is_read (other_command n) = false

unfoldable pub get_request_header_size : Header → ℕ
get_request_header_size h = if is_4e h then req_header_size_4e else req_header_size_3e

unfoldable pub get_write_payload_size : Device → ℕ → ℕ
get_write_payload_size device count =
    if is_bit_device device then u16 ((count + 1) / 2) else u16 (count * 2)

unfoldable pub get_required_request_size : Context → ℕ
unfolding get_request_header_size get_write_payload_size
get_required_request_size c =
    let size =
      u16
        (u16 (0 + get_request_header_size c.network_settings.header_type) + req_pdu_header_size) in
    if is_write c.command then u16 (size + get_write_payload_size c.device c.count) else size

unfoldable pub validate_request : Context → Status
unfolding get_max_value_count
validate_request c =
    if c.count == 0
    then err_invalid_count
    else if ltb max_address c.address
    then err_invalid_address
    else if not (is_supported_command c.command)
    then err_unsupported
    else if not (is_supported_device c.device)
    then err_unsupported
    else if ltb (get_max_value_count c.device) c.count
    then err_invalid_count
    else if is_write c.command && not (device_allows_write c.device)
    then err_unsupported
    else if not (is_known c.network_settings.header_type)
    then err_unsupported
    else st_ok

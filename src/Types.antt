-- ===== src/Types.antt =====
-- include/fx5/fx5.h and include/fx5/fx5_layout.h: the enumerations, the settings and the limits of
-- the public interface, at the default configuration (FX5_MAX_VALUE_COUNT 32, pool of 2, values
-- cleared by `fx5_set_request`).
use fx5_slmp_library.Prelude.{ℕ, ◌+◌, ◌*◌, ◌/◌, u16}

pub data Status : Type 0 where
  st_ok : Status
  err_null err_too_small err_need_more : Status
  err_invalid_address err_invalid_count err_invalid_index : Status
  err_unsupported err_internal err_resync err_header_mismatch : Status
  err_no_context err_not_acquired err_state : Status
  response_error : Status

-- A C enumeration can hold any number: `other_device n` is a value that is none of the names.
pub data Device : Type 0 where
  dev_m dev_sm dev_l dev_f dev_s dev_x dev_y dev_b dev_sb dev_d dev_sd dev_w dev_sw : Device
  other_device : ℕ → Device

-- The numbers of `fx5_device_t`.
unfoldable pub device_code : Device → ℕ
device_code dev_m = 0x90
device_code dev_sm = 0x91
device_code dev_l = 0x92
device_code dev_f = 0x93
device_code dev_s = 0x98
device_code dev_x = 0x9C
device_code dev_y = 0x9D
device_code dev_b = 0xA0
device_code dev_sb = 0xA1
device_code dev_d = 0xA8
device_code dev_sd = 0xA9
device_code dev_w = 0xB4
device_code dev_sw = 0xB5
device_code (other_device n) = n

pub data Command : Type 0 where
  batch_write batch_read : Command
  other_command : ℕ → Command

-- The numbers of `fx5_cmd_t`.
unfoldable pub command_code : Command → ℕ
command_code batch_write = 0x1401
command_code batch_read = 0x0401
command_code (other_command n) = n

-- `unknown_header` also stands for a number that is none of the names.
pub data Header : Type 0 where
  header_3e header_4e unknown_header : Header

pub record NetworkSettings : Type 0 where
  pub header_type : Header
  pub network_no : ℕ
  pub pc_no : ℕ
  pub module_io_no : ℕ
  pub module_station_no : ℕ
  pub monitoring_timer : ℕ

abbrev pub max_value_count : ℕ
max_value_count = 32

abbrev pub max_word_value_count : ℕ
max_word_value_count = max_value_count

abbrev pub max_bit_value_count : ℕ
max_bit_value_count = u16 (max_value_count * 16)

abbrev pub max_bit_payload_bytes : ℕ
max_bit_payload_bytes = u16 ((max_bit_value_count + 1) / 2)

abbrev pub context_pool_size : ℕ
context_pool_size = 2

abbrev pub response_ok : ℕ
response_ok = 0

abbrev pub bit_true : ℕ
bit_true = 0x00FF

abbrev pub bit_false : ℕ
bit_false = 0x0000

abbrev pub max_address : ℕ
max_address = 0x00FFFFFF

abbrev pub resync_limit : ℕ
resync_limit = 64

abbrev pub req_header_size_3e : ℕ
req_header_size_3e = 11

abbrev pub req_header_size_4e : ℕ
req_header_size_4e = 15

abbrev pub resp_header_size_3e : ℕ
resp_header_size_3e = 9

abbrev pub resp_header_size_4e : ℕ
resp_header_size_4e = 13

abbrev pub req_pdu_header_size : ℕ
req_pdu_header_size = 10

abbrev pub resp_pdu_header_size : ℕ
resp_pdu_header_size = 2

abbrev pub iobuf_guard_bytes : ℕ
iobuf_guard_bytes = 16

-- FX5_IOBUF_SIZE of include/fx5/internal/fx5_private.h.
abbrev pub iobuf_size : ℕ
iobuf_size =
    u16 (req_header_size_4e + req_pdu_header_size + max_bit_payload_bytes + iobuf_guard_bytes)

unfoldable pub network_settings_init : NetworkSettings
network_settings_init = record {
  header_type = header_4e;
  network_no = 0x00;
  pc_no = 0xFF;
  module_io_no = 0x03FF;
  module_station_no = 0x00;
  monitoring_timer = 0x0010;
}

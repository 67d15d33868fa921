-- ===== src/Api/Invariant.antt =====
-- The invariant of a context in use (struct fx5_context of include/fx5/internal/fx5_private.h).
use fx5_slmp_library.Prelude.{◌≤◌, ◌<◌, ◌^◌, ◌≡◌, refl, true, arith, length}
use fx5_slmp_library.Types.{iobuf_size, max_value_count, max_address}
use fx5_slmp_library.Context.{Context, reset_internal}
use fx5_slmp_library.RingBuf
use fx5_slmp_library.RingBuf.Contents.{contents}
use fx5_slmp_library.RingBuf.Invariant
use fx5_slmp_library.Bytes.Stream.{AreBytes, IsStream}
use fx5_slmp_library.Request.Devices.{
  get_max_value_count, is_supported_device, is_supported_command, is_known,
}

-- The arrays of a context, whether it is in use or not.
pub record IsStorage (c : Context) : Type 0 where
  pub values_length : length c.values ≡ max_value_count
  pub buffer_length : iobuf_size ≤ length c.rx_cbuffer.bytes

pub record IsWellFormed (c : Context) : Type 0 where
  pub storage : IsStorage c
  pub ring : Invariant.IsValid c.rx_cbuffer
  pub capacity : c.rx_cbuffer.capacity ≡ iobuf_size
  pub bytes : AreBytes (contents c.rx_cbuffer)
  pub count_fits : c.count ≤ get_max_value_count c.device
  pub address_fits : c.address ≤ max_address
  pub device_known : is_supported_device c.device ≡ true
  pub command_known : is_supported_command c.command ≡ true
  pub header_known : is_known c.network_settings.header_type ≡ true
  pub serial_fits : c.serial < 2 ^ 16
  pub next_serial_fits : c.next_serial < 2 ^ 16

pub reset_internal-IsWellFormed : (c : Context) → IsStorage c → IsWellFormed (reset_internal c)
unfolding reset_internal RingBuf.init get_max_value_count is_supported_device is_supported_command
reset_internal-IsWellFormed c s = record {
  storage = record { values_length = s.values_length; buffer_length = s.buffer_length };
  ring = omega arith;
  capacity = refl;
  bytes = tt;
  count_fits = omega arith;
  address_fits = omega arith;
  device_known = refl;
  command_known = refl;
  header_known = refl;
  serial_fits = omega arith;
  next_serial_fits = omega arith;
}

pub rx-IsStream : (c : Context) → IsWellFormed c → IsStream c.rx_cbuffer
rx-IsStream c w = record { valid = w.ring; small = omega arith; bytes = w.bytes }

-- No request has more than 512 values.
pub max_value_count-le : (c : Context) → IsWellFormed c → c.count ≤ 512
unfolding get_max_value_count
max_value_count-le c w = ground (arith, w.count_fits)

-- ===== src/Context.antt =====
-- `struct fx5_context` of include/fx5/internal/fx5_private.h and `fx5_context_reset_internal` of
-- src/fx5_core.c. `rx_cbuffer.data` points to `buffer` of the same context, so that array is the
-- `bytes` of the ring; in the zeroed pool the ring has capacity 0.
use mathlib.Core.Option
use fx5_slmp_library.Prelude.{ℕ, Bool, false, some, List, replicate}
use fx5_slmp_library.Types.{
  NetworkSettings, Device, dev_d, other_device, Command, batch_read, other_command, header_3e,
  network_settings_init, response_ok, iobuf_size, max_value_count,
}
use fx5_slmp_library.RingBuf.{Ring}
use fx5_slmp_library.RingBuf

pub record Context : Type 0 where
  pub in_use : Bool
  pub network_settings : NetworkSettings
  pub next_serial : ℕ
  pub serial : ℕ
  pub resync_counter : ℕ
  pub device : Device
  pub command : Command
  pub address : ℕ
  pub count : ℕ
  pub response_code : ℕ
  pub values : List ℕ
  pub rx_cbuffer : Ring

-- `fx5_ringbuf_init(&rx_cbuffer, buffer, FX5_IOBUF_SIZE)`; the result is not looked at.
unfoldable pub init_rx : Ring → Ring
unfolding RingBuf.init
init_rx rb = Option.get_or (RingBuf.init (some rb) (some rb.bytes) iobuf_size).0 rb

-- The values keep what they held: the loop that clears them is commented out in the source.
unfoldable pub reset_internal : Context → Context
unfolding network_settings_init init_rx
reset_internal c = record c {
  network_settings = network_settings_init;
  next_serial = 0;
  serial = 0;
  device = dev_d;
  command = batch_read;
  resync_counter = 0;
  count = 0;
  response_code = response_ok;
  address = 0x000000;
  rx_cbuffer = init_rx c.rx_cbuffer;
}

-- A context of static storage before its first use: every byte is 0.
abbrev pub zeroed : Context
zeroed = record {
  in_use = false;
  network_settings = record {
    header_type = header_3e;
    network_no = 0;
    pc_no = 0;
    module_io_no = 0;
    module_station_no = 0;
    monitoring_timer = 0;
  };
  next_serial = 0;
  serial = 0;
  resync_counter = 0;
  device = other_device 0;
  command = other_command 0;
  address = 0;
  count = 0;
  response_code = 0;
  values = replicate max_value_count 0;
  rx_cbuffer = record {
    bytes = replicate iobuf_size 0;
    capacity = 0;
    head = 0;
    tail = 0;
    size = 0;
  };
}

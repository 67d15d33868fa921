-- ===== src/Tests.antt =====
-- Concrete contexts, rings and frames, and, in the children, the theorems at these.
mod Receiving
mod Calls
mod Rings
mod Clients
mod Lines
mod Network
mod Program
mod Scripts
use fx5_slmp_library.Prelude.{
  ℕ, ◌+◌, ◌-◌, ◌≤◌, ◌<◌, ◌≡◌, ◌≢◌, refl, true, false, List, [], ◌∷◌, ◌++◌, Option, some, none,
  arith, length, replicate, length-append, length-replicate, if◌then◌else◌, drop,
}
use fx5_slmp_library.Types.{
  Status, st_ok, err_need_more, err_resync, err_unsupported, err_not_acquired, err_too_small,
  response_error, err_invalid_count, Device, dev_d, dev_m, Command, batch_read, batch_write, Header,
  header_4e, header_3e, unknown_header,
}
use fx5_slmp_library.RingBuf.{Ring}
use fx5_slmp_library.RingBuf.Invariant.{IsValid}
use fx5_slmp_library.RingBuf.Contents.{contents}
use fx5_slmp_library.Bytes.Array.{le16, put_list}
use fx5_slmp_library.Bytes.Stream.{AreBytes, IsStream}
use fx5_slmp_library.Context.{Context}
use fx5_slmp_library.Request.Devices.{
  is_bit_device, get_max_value_count, is_supported_device, is_supported_command,
}
use fx5_slmp_library.Api.Invariant.{IsWellFormed}

-- A ring of the receive buffer's size that holds `xs`, from the start of its storage on.
abbrev pub holding : List ℕ → Ring
holding xs = record {
  bytes = xs ++ replicate (297 - length xs) 0;
  capacity = 297;
  head = length xs;
  tail = 0;
  size = length xs;
}

-- A context in use with the default settings.
abbrev pub context_at : Command → Device → ℕ → List ℕ → Context
context_at command device count xs = record {
  in_use = true;
  network_settings = record {
    header_type = header_4e;
    network_no = 0;
    pc_no = 0xFF;
    module_io_no = 0x03FF;
    module_station_no = 0;
    monitoring_timer = 0x10;
  };
  next_serial = 8;
  serial = 7;
  resync_counter = 0;
  device = device;
  command = command;
  address = 100;
  count = count;
  response_code = 0;
  values = replicate 32 0;
  rx_cbuffer = holding xs;
}

pub context_at-IsWellFormed :
    (command : Command) (device : Device) (count : ℕ) (xs : List ℕ)
    → length xs < 297
    → AreBytes (contents (holding xs))
    → count ≤ get_max_value_count device
    → is_supported_command command ≡ true
    → is_supported_device device ≡ true
    → IsWellFormed (context_at command device count xs)
context_at-IsWellFormed command device count xs short bytes fits known_command known_device =
    record {
      storage = record {
        values_length = refl;
        buffer_length = omega (
          arith,
          length-append xs (replicate (297 - length xs) 0),
          length-replicate {A = ℕ} (297 - length xs) 0,
        );
      };
      ring = omega (
        arith,
        length-append xs (replicate (297 - length xs) 0),
        length-replicate {A = ℕ} (297 - length xs) 0,
      );
      capacity = refl;
      bytes = bytes;
      count_fits = fits;
      address_fits = omega arith;
      device_known = known_device;
      command_known = known_command;
      header_known = refl;
      serial_fits = omega arith;
      next_serial_fits = omega arith;
    }

-- The header of a 4E response with serial number 7 that announces `p` bytes.
abbrev pub header_at : ℕ → List ℕ
header_at p = 0xD4 ∷ 0 ∷ 7 ∷ 0 ∷ 0 ∷ 0 ∷ 0 ∷ 0xFF ∷ 0xFF ∷ 3 ∷ 0 ∷ p ∷ 0 ∷ []

-- Two bytes that are no frame, a frame with two words, and a byte behind it.
abbrev pub word_frame : List ℕ
word_frame = 1 ∷ 2 ∷ (header_at 6 ++ (0 ∷ 0 ∷ 0x34 ∷ 0x12 ∷ 0x78 ∷ 0x56 ∷ 9 ∷ []))

abbrev pub two_words : List ℕ
two_words = 0x1234 ∷ 0x5678 ∷ []

abbrev pub word_context : Context
word_context = context_at batch_read dev_d 2 word_frame

pub word_context-IsWellFormed : IsWellFormed word_context
unfolding get_max_value_count is_supported_device is_supported_command is_bit_device
word_context-IsWellFormed =
    context_at-IsWellFormed batch_read dev_d 2 word_frame (omega arith) (omega arith) (omega arith)
      refl refl

-- A frame with three points, the second of them on, and a byte behind it.
abbrev pub point_frame : List ℕ
point_frame = header_at 4 ++ (0 ∷ 0 ∷ 0x01 ∷ 0x00 ∷ 9 ∷ [])

abbrev pub point_context : Context
point_context = context_at batch_read dev_m 3 point_frame

pub point_context-IsWellFormed : IsWellFormed point_context
unfolding get_max_value_count is_supported_device is_supported_command is_bit_device
point_context-IsWellFormed =
    context_at-IsWellFormed batch_read dev_m 3 point_frame (omega arith) (omega arith) (omega arith)
      refl refl

-- A frame with an end code alone, and a byte behind it.
abbrev pub end_frame : ℕ → List ℕ
end_frame code = header_at 2 ++ (code ∷ 0 ∷ 9 ∷ [])

abbrev pub write_context : ℕ → Context
write_context code = context_at batch_write dev_d 1 (end_frame code)

pub write_context-IsWellFormed : (code : ℕ) → code < 256 → IsWellFormed (write_context code)
unfolding get_max_value_count is_supported_device is_supported_command is_bit_device
write_context-IsWellFormed code h =
    context_at-IsWellFormed batch_write dev_d 1 (end_frame code) (omega arith) (omega arith)
      (omega arith) refl refl

-- The header of a frame of which nothing else has come.
abbrev pub part_context : ℕ → Context
part_context p = context_at batch_read dev_d 2 (header_at p)

pub part_context-IsWellFormed : (p : ℕ) → p < 256 → IsWellFormed (part_context p)
unfolding get_max_value_count is_supported_device is_supported_command is_bit_device
part_context-IsWellFormed p h =
    context_at-IsWellFormed batch_read dev_d 2 (header_at p) (omega arith) (omega arith)
      (omega arith) refl refl

-- Bytes none of which can be the start of a frame.
abbrev pub noise_context : ℕ → Context
noise_context n = context_at batch_read dev_d 2 (replicate n 1)

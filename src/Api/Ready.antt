-- ===== src/Api/Ready.antt =====
-- Contexts that calls can be made on, well-formed and in use, under the calls of src/fx5_core.c that
-- set the settings, the request and its values.
pub mod Transfer
use fx5_slmp_library.Prelude.{
  ℕ, zero, suc, ◌+◌, ◌-◌, ◌≤◌, ◌<◌, ◌^◌, ◌≡◌, refl, ap, ◌∙◌, sym, subst, true, false, Bool, Option,
  some, none, List, [], ◌∷◌, arith, length, set, ltb, if◌then◌else◌, u16, Bool-cases, inl, inr, not,
  length-set, length-replicate, ◌==◌, replicate,
}
use native.Mathlib.Decide.{dec_le}
use fx5_slmp_library.Types.{
  Status, st_ok, Device, Command, Header, NetworkSettings, iobuf_size, max_address,
  max_bit_value_count, max_word_value_count,
}
use fx5_slmp_library.Context.{Context, reset_internal}
use fx5_slmp_library.Packed.{store_bit, length-store_bit}
use fx5_slmp_library.RingBuf.Contents.{contents, length-contents}
use fx5_slmp_library.Bytes.Stream.{AreBytes}
use fx5_slmp_library.Request.Devices.{
  is_known, is_supported_command, is_supported_device, is_bit_device, get_max_value_count,
  validate_request, get_required_request_size, get_request_header_size, is_4e,
}
use fx5_slmp_library.Request.Builders.{HeaderOut, build_wire_header_3e, build_wire_header_4e}
use fx5_slmp_library.Api.Handle.{require_acquired, require_acquired-acquired}
use fx5_slmp_library.Api.Configure.{
  reset, set_network_settings, set_header_mode, set_monitoring_timer, set_request_on, set_request,
  set_write_value_on, set_write_value,
}
use fx5_slmp_library.Api.Build.{
  BuildOut, build_header, build_rest, check_header, build_sized, build_request_on, build_request,
}
use fx5_slmp_library.Api.Receive.{feed_response_bytes, feed_on, feed_loop, parse_response}
use fx5_slmp_library.Api.Invariant.{IsWellFormed, IsStorage, reset_internal-IsWellFormed}
use fx5_slmp_library.Api.Feed.{feed_response_bytes_lem, fed}
use fx5_slmp_library.Api.Parse.Total.{parse_response_total}

-- A pointer to a well-formed context in use.
abbrev pub IsReady : Option Context → Type 0
IsReady none = ⊥
IsReady (some c) = IsWellFormed c × (c.in_use ≡ true)

-- A change of the serial numbers, or of the status and the counts, that keeps to their ranges.
pub serials-IsReady :
    (c : Context) (serial next : ℕ)
    → IsReady (some c)
    → serial < 2 ^ 16
    → next < 2 ^ 16
    → IsReady (some (record c { serial = serial; next_serial = next }))
serials-IsReady c serial next r h k = (
  record {
    storage = record {
      values_length = r.0.storage.values_length;
      buffer_length = r.0.storage.buffer_length;
    };
    ring = r.0.ring;
    capacity = r.0.capacity;
    bytes = r.0.bytes;
    count_fits = r.0.count_fits;
    address_fits = r.0.address_fits;
    device_known = r.0.device_known;
    command_known = r.0.command_known;
    header_known = r.0.header_known;
    serial_fits = h;
    next_serial_fits = k;
  },
  r.1,
)

settings-IsReady :
    (c : Context) (s : NetworkSettings)
    → IsReady (some c)
    → is_known s.header_type ≡ true
    → IsReady (some (record c { network_settings = s }))
settings-IsReady c s r k = (
  record {
    storage = record {
      values_length = r.0.storage.values_length;
      buffer_length = r.0.storage.buffer_length;
    };
    ring = r.0.ring;
    capacity = r.0.capacity;
    bytes = r.0.bytes;
    count_fits = r.0.count_fits;
    address_fits = r.0.address_fits;
    device_known = r.0.device_known;
    command_known = r.0.command_known;
    header_known = k;
    serial_fits = r.0.serial_fits;
    next_serial_fits = r.0.next_serial_fits;
  },
  r.1,
)

values-IsReady :
    (c : Context) (values : List ℕ)
    → IsReady (some c)
    → length values ≡ length c.values
    → IsReady (some (record c { values = values }))
values-IsReady c values r e = (
  record {
    storage = record {
      values_length = e ∙ r.0.storage.values_length;
      buffer_length = r.0.storage.buffer_length;
    };
    ring = r.0.ring;
    capacity = r.0.capacity;
    bytes = r.0.bytes;
    count_fits = r.0.count_fits;
    address_fits = r.0.address_fits;
    device_known = r.0.device_known;
    command_known = r.0.command_known;
    header_known = r.0.header_known;
    serial_fits = r.0.serial_fits;
    next_serial_fits = r.0.next_serial_fits;
  },
  r.1,
)

module _ (c : Context) (r : IsReady (some c)) where
  ready : require_acquired (some c) ≡ st_ok
  ready = require_acquired-acquired c r.1

  if-IsReady :
      (t : Bool) (a b : Context × Status)
      → (t ≡ true → IsReady (some a.0))
      → (t ≡ false → IsReady (some b.0))
      → IsReady (some (if t then a else b).0)
  if-IsReady true a b h k = h refl
  if-IsReady false a b h k = k refl

  pub reset-IsReady : IsReady (reset (some c)).0
  unfolding reset reset_internal
  reset-IsReady = rw (ready, IsReady) (reset_internal-IsWellFormed c r.0.storage, r.1)

  pub set_network_settings-IsReady :
      (s : Option NetworkSettings) → IsReady (set_network_settings (some c) s).0
  unfolding set_network_settings
  set_network_settings-IsReady none = rw (ready, IsReady) r
  set_network_settings-IsReady (some s) =
      rw (ready, IsReady)
        (if-IsReady (not (is_known s.header_type)) _ _ (λ _. r)
          (λ e. settings-IsReady c s r (ground arith)))

  pub set_header_mode-IsReady : (m : Header) → IsReady (set_header_mode (some c) m).0
  unfolding set_header_mode
  set_header_mode-IsReady m =
      rw (ready, IsReady)
        (if-IsReady (not (is_known m)) _ _ (λ _. r)
          (λ e.
            settings-IsReady c (record c.network_settings { header_type = m }) r (ground arith)))

  pub set_monitoring_timer-IsReady : (t : ℕ) → IsReady (set_monitoring_timer (some c) t).0
  unfolding set_monitoring_timer
  set_monitoring_timer-IsReady t =
      rw (ready, IsReady)
        (settings-IsReady c (record c.network_settings { monitoring_timer = t }) r r.0.header_known)

  pub set_write_value-IsReady : (i v : ℕ) → IsReady (set_write_value (some c) i v).0
  unfolding set_write_value set_write_value_on
  set_write_value-IsReady i v =
      let bit =
        values-IsReady c (store_bit c.values i (not (v == 0))) r
          (length-store_bit c.values i (not (v == 0))) in
      let word = values-IsReady c (set c.values i v) r (length-set c.values i v) in
      rw (ready, IsReady) (ground (arith, r, bit, word))

  request_stored :
      (command : Command) (device : Device) (address count : ℕ)
      → count ≤ get_max_value_count device
      → address ≤ max_address
      → is_supported_command command ≡ true
      → is_supported_device device ≡ true
      → IsReady (
          some (record c {
            command = command;
            device = device;
            address = address;
            count = count;
            response_code = 0;
            resync_counter = 0;
            values = replicate 32 0;
          }))
  request_stored command device address count h k l m = (
    record {
      storage = record { values_length = refl; buffer_length = r.0.storage.buffer_length };
      ring = r.0.ring;
      capacity = r.0.capacity;
      bytes = r.0.bytes;
      count_fits = h;
      address_fits = k;
      device_known = m;
      command_known = l;
      header_known = r.0.header_known;
      serial_fits = r.0.serial_fits;
      next_serial_fits = r.0.next_serial_fits;
    },
    r.1,
  )

  pub set_request-IsReady :
      (command : Command) (device : Device) (address count : ℕ)
      → IsReady (set_request (some c) command device address count).0
  unfolding set_request set_request_on get_max_value_count
  set_request-IsReady command device address count =
      rw (ready, IsReady) (ground (arith, r, request_stored command device address count))

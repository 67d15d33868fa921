-- ===== src/Api/Requests.antt =====
-- `fx5_set_request` and the validation and sizing that `fx5_build_request` does behind it.
use fx5_slmp_library.Prelude.{
  ℕ, ◌<◌, ◌≡◌, ◌≢◌, true, false, Bool, not, ◌&&◌, some, none, List, arith, length, ltb, leb,
  if◌then◌else◌, replicate,
}
use fx5_slmp_library.Types.{st_ok, err_too_small, err_unsupported, Command, Device}
use fx5_slmp_library.Context.{Context}
use fx5_slmp_library.Request.Devices.{
  is_supported_command, is_supported_device, is_bit_device, device_allows_write, is_write,
  get_max_value_count, validate_request, is_known,
}
use fx5_slmp_library.Api.Handle.{require_acquired}
use fx5_slmp_library.Api.Configure.{set_request, set_request_on}
use fx5_slmp_library.Api.Build.{build_request, build_request_on, build_sized}
use fx5_slmp_library.Api.Invariant.{IsWellFormed, max_value_count-le}
use fx5_slmp_library.Api.Frame.{frame_bytes, get_required_request_size-eq-length}

-- The requests that the library can make: a known command and device, 1 to 512 bits or 1 to 32
-- words, and a 24-bit address.
abbrev pub is_request : Command → Device → ℕ → ℕ → Bool
is_request command device address count =
    is_supported_command command
    && is_supported_device device
    && ltb address 0x01000000
    && leb 1 count
    && leb count (if is_bit_device device then 512 else 32)

-- The context with a request stored and its values cleared.
abbrev pub requested : Context → Command → Device → ℕ → ℕ → Context
requested c command device address count = record c {
  command = command;
  device = device;
  address = address;
  count = count;
  response_code = 0;
  resync_counter = 0;
  values = replicate 32 0;
}

module _ (c : Context) (command : Command) (device : Device) (address count : ℕ) where
  -- On a context in use a request is stored, with its values cleared, if the library can make it;
  -- any other is refused and changes nothing.
  pub set_request_lem :
      c.in_use ≡ true
      → (is_request command device address count ≡ true
          → set_request (some c) command device address count
            ≡ (some (requested c command device address count), st_ok))
        × (is_request command device address count ≡ false
            → let (ctx, status) = set_request (some c) command device address count in
              (ctx ≡ some c) × (status ≢ st_ok))
  unfolding set_request set_request_on require_acquired
  set_request_lem used = (λ e. ground arith, λ e. (ground arith, ground arith))

  -- On a context in use with a known header type, a request that the library can make is stored, and
  -- is then valid but for a write to a device that does not take one.
  pub validate_request-set_request :
      c.in_use ≡ true
      → is_known c.network_settings.header_type ≡ true
      → is_request command device address count ≡ true
      → (stored : Context) × (set_request (some c) command device address count
          ≡ (some stored, st_ok))
        × (validate_request stored ≡ (
            if is_write command && not (device_allows_write device)
            then err_unsupported
            else st_ok))
  unfolding validate_request get_max_value_count
  validate_request-set_request used known ok =
      (requested c command device address count, (set_request_lem used).0 ok, ground arith)

-- On a well-formed context in use, a request that is not valid is refused with the status of the
-- validation, and one that the array has no room for with another; both leave the context and the
-- array as they are. If there is no room the length of the frame is reported all the same.
pub build_request-refused :
    (c : Context) (out_buf : List ℕ) (out_buf_size : ℕ)
    → IsWellFormed c
    → c.in_use ≡ true
    → (validate_request c ≢ st_ok
        → build_request (some c) (some out_buf) out_buf_size true ≡ record {
          status = validate_request c;
          context = some c;
          out_buf = out_buf;
          actual_size = none;
        })
      × (validate_request c ≡ st_ok
          → out_buf_size < length (frame_bytes c)
          → build_request (some c) (some out_buf) out_buf_size true ≡ record {
            status = err_too_small;
            context = some c;
            out_buf = out_buf;
            actual_size = some (length (frame_bytes c));
          })
unfolding build_request build_request_on build_sized require_acquired
build_request-refused c out_buf out_buf_size w used =
    let size = get_required_request_size-eq-length c (max_value_count-le c w) in
    (λ bad. ground arith, λ valid small. ground (arith, size))

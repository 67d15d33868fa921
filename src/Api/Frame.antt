-- ===== src/Api/Frame.antt =====
-- `fx5_build_request` of src/fx5_core.c against the specified frame.
use fx5_slmp_library.Prelude.{
  ℕ, ◌+◌, ◌-◌, ◌≤◌, ◌<◌, ◌^◌, ◌≡◌, ap, ◌∙◌, sym, true, false, List, ◌++◌, some, arith,
  if◌then◌else◌, u16, length, length-append, drop, Bool-cases, inl, inr,
}
use fx5_slmp_library.Types.{st_ok}
use fx5_slmp_library.Context.{Context}
use fx5_slmp_library.Bytes.Array.{put_list, put_list-append, put_list_start}
use fx5_slmp_library.Request.Devices.{
  is_4e, is_write, validate_request, get_required_request_size, get_request_header_size,
  get_write_payload_size, is_supported_command,
}
use fx5_slmp_library.Request.Encoding.{
  header_bytes_3e, header_bytes_4e, pdu_bytes, prefix_bytes, payload_bytes,
}
use fx5_slmp_library.Request.Frame.Header.{build_wire_header_3e_lem, build_wire_header_4e_lem}
use fx5_slmp_library.Request.Frame.Pdu.{build_pdu_read_request_lem, build_pdu_write_request_lem}
use fx5_slmp_library.Request.Frame.Loops.{length-nibble_bytes, length-word_bytes}
use fx5_slmp_library.Api.Build.{
  BuildOut, build_header, build_pdu, build_rest, check_header, build_sized, build_request_on,
  build_request,
}
use fx5_slmp_library.Api.Invariant.{IsWellFormed, max_value_count-le}

-- The whole request frame of a context, in the header mode that it is set to.
abbrev pub frame_bytes : Context → List ℕ
frame_bytes c =
    let pdu = pdu_bytes c in
    if is_4e c.network_settings.header_type
    then header_bytes_4e c.network_settings c.next_serial (length pdu) ++ pdu
    else header_bytes_3e c.network_settings (length pdu) ++ pdu

-- The serial number of a 4E request is the next one, which moves on; that of a 3E request is 0.
abbrev pub after_build : Context → Context
after_build c =
    if is_4e c.network_settings.header_type
    then record c { serial = c.next_serial; next_serial = u16 (c.next_serial + 1) }
    else record c { serial = 0 }

length-payload_bytes :
    (c : Context)
    → c.count ≤ 512
    → length (payload_bytes c) ≡ get_write_payload_size c.device c.count
unfolding get_write_payload_size
length-payload_bytes c h =
    ground (arith, length-nibble_bytes c.values 0 c.count, length-word_bytes c.values 0 c.count)

length-pdu_bytes :
    (c : Context)
    → c.count ≤ 512
    → length (pdu_bytes c)
      ≡ 10 + (if is_write c.command then get_write_payload_size c.device c.count else 0)
length-pdu_bytes c h =
    ground (arith, length-payload_bytes c h, length-append (prefix_bytes c) (payload_bytes c))

-- The size announced for a request of at most 512 values is the length of the specified frame.
pub get_required_request_size-eq-length :
    (c : Context) → c.count ≤ 512 → get_required_request_size c ≡ length (frame_bytes c)
unfolding get_required_request_size get_write_payload_size
get_required_request_size-eq-length c h = ground (arith, length-pdu_bytes c h)

build_pdu_lem :
    (c : Context) (buf : List ℕ) (base buffer_size : ℕ)
    → c.count ≤ 512
    → is_supported_command c.command ≡ true
    → buffer_size < 2 ^ 16
    → length (pdu_bytes c) ≤ buffer_size
    → build_pdu c buf base buffer_size ≡ record {
      status = st_ok;
      buf = put_list buf base (pdu_bytes c);
      written = length (pdu_bytes c);
    }
unfolding build_pdu is_supported_command
build_pdu_lem c buf base buffer_size h s l k = ground (
  arith,
  length-pdu_bytes c h,
  build_pdu_read_request_lem c buf base buffer_size,
  build_pdu_write_request_lem c buf base buffer_size,
)

-- A header and then the PDU behind it, at the start of the array.
put_two :
    (out_buf header pdu : List ℕ) (n : ℕ)
    → length header ≡ n
    → n + length pdu ≤ length out_buf
    → put_list (put_list out_buf 0 header) n pdu ≡ (header ++ pdu) ++ drop (n + length pdu) out_buf
put_two out_buf header pdu n e h =
    ap (λ k. put_list (put_list out_buf 0 header) k pdu) (omega arith)
    ∙ sym (put_list-append out_buf 0 header pdu)
    ∙ put_list_start out_buf (header ++ pdu) (omega (arith, length-append header pdu))
    ∙ ap (λ k. (header ++ pdu) ++ drop k out_buf) (omega (arith, length-append header pdu))

module _ (c : Context) (w : IsWellFormed c) (out_buf : List ℕ) (out_buf_size : ℕ)
    (in_array : out_buf_size ≤ length out_buf) (in_range : out_buf_size < 2 ^ 16)
    (room : length (frame_bytes c) ≤ out_buf_size) where
  abbrev built : BuildOut
  built = record {
    status = st_ok;
    context = some (after_build c);
    out_buf = frame_bytes c ++ drop (length (frame_bytes c)) out_buf;
    actual_size = some (length (frame_bytes c));
  }

  build_rest_lem :
      (c' : Context) (header : List ℕ) (n : ℕ)
      → pdu_bytes c' ≡ pdu_bytes c
      → c'.count ≤ 512
      → is_supported_command c'.command ≡ true
      → length header ≡ n
      → n + length (pdu_bytes c) ≤ out_buf_size
      → build_rest
          (record { status = st_ok; context = c'; buf = put_list out_buf 0 header; written = n })
          out_buf_size
          (n + length (pdu_bytes c))
        ≡ record {
          status = st_ok;
          context = some c';
          out_buf = (header ++ pdu_bytes c) ++ drop (n + length (pdu_bytes c)) out_buf;
          actual_size = some (n + length (pdu_bytes c));
        }
  unfolding build_rest
  build_rest_lem c' header n same h s l k = ground (
    arith,
    put_two out_buf header (pdu_bytes c) n,
    build_pdu_lem c' (put_list out_buf 0 header) n (u16 (out_buf_size - n)),
  )

  build_header_4e :
      is_4e c.network_settings.header_type ≡ true
      → build_header c out_buf out_buf_size (length (pdu_bytes c)) ≡ record {
        status = st_ok;
        context = after_build c;
        buf =
            put_list out_buf 0
              (header_bytes_4e c.network_settings c.next_serial (length (pdu_bytes c)));
        written = 15;
      }
  unfolding build_header
  build_header_4e e =
      ground (arith, build_wire_header_4e_lem out_buf c out_buf_size (length (pdu_bytes c)))

  build_header_3e :
      is_4e c.network_settings.header_type ≡ false
      → build_header c out_buf out_buf_size (length (pdu_bytes c)) ≡ record {
        status = st_ok;
        context = after_build c;
        buf = put_list out_buf 0 (header_bytes_3e c.network_settings (length (pdu_bytes c)));
        written = 11;
      }
  unfolding build_header
  build_header_3e e =
      ground (arith, build_wire_header_3e_lem out_buf c out_buf_size (length (pdu_bytes c)))

  pdu_size_lem :
      u16 (get_required_request_size c - get_request_header_size c.network_settings.header_type)
      ≡ length (pdu_bytes c)
  unfolding get_request_header_size
  pdu_size_lem = ground (arith, get_required_request_size-eq-length c (max_value_count-le c w))

  build_sized_lem :
      build_sized c out_buf out_buf_size (get_required_request_size c)
      ≡ check_header
          (build_header c out_buf out_buf_size (length (pdu_bytes c)))
          out_buf_size
          (length (frame_bytes c))
  unfolding build_sized
  build_sized_lem =
      ground (arith, pdu_size_lem, get_required_request_size-eq-length c (max_value_count-le c w))

  check_header_lem :
      check_header
        (build_header c out_buf out_buf_size (length (pdu_bytes c)))
        out_buf_size
        (length (frame_bytes c))
      ≡ built
  unfolding check_header
  check_header_lem = elim (Bool-cases (is_4e c.network_settings.header_type)) [
    | inl four ↦ rw (build_header_4e four) (
        ground (
          arith,
          build_rest_lem (after_build c)
              (header_bytes_4e c.network_settings c.next_serial (length (pdu_bytes c))) 15,
          max_value_count-le c w,
        ))
    | inr three ↦ rw (build_header_3e three) (
        ground (
          arith,
          build_rest_lem (after_build c) (header_bytes_3e c.network_settings (length (pdu_bytes c)))
              11,
          max_value_count-le c w,
        ))
  ]

  build_request_on_lem :
      validate_request c ≡ st_ok → build_request_on c out_buf out_buf_size ≡ built
  unfolding build_request_on
  build_request_on_lem valid = rw (valid, build_request_on) (build_sized_lem ∙ check_header_lem)

-- For a valid request of a well-formed context in use, and an array of fewer than 2 ^ 16 bytes with
-- room for it, `fx5_build_request` succeeds, writes exactly the specified frame to the start of the
-- array, leaves the rest of it alone, reports the frame's length, and takes the next serial number
-- in 4E mode.
pub build_request_lem :
    (c : Context) (out_buf : List ℕ) (out_buf_size : ℕ)
    → IsWellFormed c
    → c.in_use ≡ true
    → validate_request c ≡ st_ok
    → out_buf_size ≤ length out_buf
    → out_buf_size < 2 ^ 16
    → length (frame_bytes c) ≤ out_buf_size
    → build_request (some c) (some out_buf) out_buf_size true ≡ record {
      status = st_ok;
      context = some (after_build c);
      out_buf = frame_bytes c ++ drop (length (frame_bytes c)) out_buf;
      actual_size = some (length (frame_bytes c));
    }
unfolding build_request
build_request_lem c out_buf out_buf_size w used valid in_array in_range room =
    ground (arith, build_request_on_lem c w out_buf out_buf_size in_array in_range room valid)

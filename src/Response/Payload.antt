-- ===== src/Response/Payload.antt =====
-- Response PDUs: the end code and the values.
use fx5_slmp_library.Prelude.{
  ℕ, zero, suc, ◌+◌, ◌-◌, ◌*◌, ◌/◌, ◌^◌, ◌||◌, not, List, bit_and, ltb, ◌==◌, if◌then◌else◌, u8,
  u16, set,
}
use fx5_slmp_library.Types.{
  Status, st_ok, err_invalid_count, response_error, response_ok, resp_pdu_header_size,
  max_value_count, max_bit_value_count,
}
use fx5_slmp_library.Context.{Context}
use fx5_slmp_library.RingBuf.{Ring, drop_front}
use fx5_slmp_library.Bytes.{rdc_u16_le, peek_or_0}
use fx5_slmp_library.Packed.{store_bit}
use fx5_slmp_library.Request.Devices.{is_bit_device, is_write}

-- `if (n > 0u) fx5_ringbuf_drop_front(rx_buffer, n)`
unfoldable pub drop_payload : Context → ℕ → Context
drop_payload c n = if ltb 0 n then record c { rx_cbuffer = (drop_front c.rx_cbuffer n).0 } else c

-- `for (k = 0; k < value_count; ++k)` with `left` rounds to go.
unfoldable pub read_words : ℕ → ℕ → Context → Context
read_words zero k c = c
read_words (suc left) k c =
    let (rb, v) = rdc_u16_le c.rx_cbuffer in
    read_words left (u16 (k + 1)) (record c { rx_cbuffer = rb; values = set c.values k v })

unfoldable pub parse_word_response_payload : Context → ℕ → Context × Status
parse_word_response_payload c payload_size =
    let value_count = u16 (payload_size / 2) in
    let expected_payload_size = u16 (c.count * 2) in
    if not (bit_and payload_size 1 == 0)
    then (c, err_invalid_count)
    else if (c.count == 0) || ltb max_value_count c.count
    then (drop_payload c payload_size, err_invalid_count)
    else if not (payload_size == expected_payload_size)
    then (drop_payload c payload_size, err_invalid_count)
    else (read_words value_count 0 (record c { count = value_count }), st_ok)

-- What `fx5_unpack_bitunit_bytes` works on: the ring, the values and `bit_index`.
pub record Unpack : Type 0 where
  pub ring : Ring
  pub values : List ℕ
  pub bit_index : ℕ

-- `if (bit_index < bit_count) { … bit_index++; }`
unfoldable pub put_nibble : ℕ → ℕ → Unpack → Unpack
put_nibble bit_count nibble u =
    if ltb u.bit_index bit_count
    then record u {
      values = store_bit u.values u.bit_index (nibble == 0x01);
      bit_index = u16 (u.bit_index + 1);
    }
    else u

-- One byte: the high nibble first.
unfoldable pub unpack_byte : ℕ → Unpack → Unpack
unpack_byte bit_count u =
    let b = peek_or_0 u.ring 0 in
    let hi = u8 (bit_and (b / 2 ^ 4) 0x0f) in
    let lo = u8 (bit_and b 0x0f) in
    put_nibble bit_count lo (put_nibble bit_count hi (record u { ring = (drop_front u.ring 1).0 }))

-- `for (i = 0; i < bytes_needed; ++i)` with `left` rounds to go.
unfoldable pub unpack_loop : ℕ → ℕ → Unpack → Unpack
unpack_loop zero bit_count u = u
unpack_loop (suc left) bit_count u = unpack_loop left bit_count (unpack_byte bit_count u)

pub record Unpacked : Type 0 where
  pub ring : Ring
  pub values : List ℕ
  pub bit_count : ℕ
  pub remaining_bytes : ℕ

unfoldable pub unpack_bitunit_bytes : Ring → ℕ → List ℕ → ℕ → Unpacked
unpack_bitunit_bytes rb payload_size values max_count =
    let all = u16 (payload_size * 2) in
    let bit_count = if ltb max_count all then max_count else all in
    let bytes_needed = u16 ((bit_count + 1) / 2) in
    let out =
      unpack_loop bytes_needed bit_count (record { ring = rb; values = values; bit_index = 0 }) in
    record {
      ring = out.ring;
      values = out.values;
      bit_count = bit_count;
      remaining_bytes = u16 (payload_size + 2 ^ 16 - bytes_needed);
    }

unfoldable pub parse_bit_response_payload : Context → ℕ → Context × Status
parse_bit_response_payload c payload_size =
    let expected_payload_size = u16 ((c.count + 1) / 2) in
    let out = unpack_bitunit_bytes c.rx_cbuffer payload_size c.values c.count in
    if (c.count == 0) || ltb max_bit_value_count c.count
    then (drop_payload c payload_size, err_invalid_count)
    else if not (payload_size == expected_payload_size)
    then (drop_payload c payload_size, err_invalid_count)
    else (
      drop_payload (record c { rx_cbuffer = out.ring; values = out.values; count = out.bit_count })
          out.remaining_bytes,
      st_ok,
    )

-- What follows the end code, when that is 0.
unfoldable pub parse_response_payload : Context → ℕ → Context × Status
parse_response_payload c payload_size =
    if is_write c.command
    then (if ltb 0 payload_size
        then (drop_payload c payload_size, err_invalid_count)
        else (record c { count = 0 }, st_ok))
    else if is_bit_device c.device
    then parse_bit_response_payload c payload_size
    else parse_word_response_payload c payload_size

unfoldable pub parse_response_pdu : Context → ℕ → Context × Status
parse_response_pdu c packet_size =
    let (rb, code) = rdc_u16_le c.rx_cbuffer in
    let c' = record c { rx_cbuffer = rb; response_code = code } in
    let payload_size = u16 (packet_size - resp_pdu_header_size) in
    if ltb packet_size resp_pdu_header_size
    then (c, err_invalid_count)
    else if not (code == response_ok)
    then (record (drop_payload c' payload_size) { count = 0 }, response_error)
    else parse_response_payload c' payload_size

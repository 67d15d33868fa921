-- ===== src/Request/Frame/Pdu.antt =====
-- The request PDUs: the access prefix and the payload.
use fx5_slmp_library.Prelude.{
  ℕ, ◌+◌, ◌-◌, ◌/◌, ◌^◌, ◌≤◌, ◌<◌, ◌≡◌, refl, ap, sym, List, [], ◌++◌, some, arith, u16, length,
}
use fx5_slmp_library.Types.{st_ok, req_pdu_header_size, device_code, command_code}
use fx5_slmp_library.Context.{Context}
use fx5_slmp_library.Bytes.Array.{le16, put_list, put_list-append}
use fx5_slmp_library.Request.Devices.{get_write_payload_size}
use fx5_slmp_library.Request.Builders.{
  PduOut, emit_u8, emit_u16, emit_u24, build_pdu_access_prefix, build_pdu_read_request,
  build_pdu_write_request, append_bits, append_words, pack_bits_to_nibbles, sub_command_of,
}
use fx5_slmp_library.Request.Frame.Loops.{
  pack_loop_lem, word_loop_lem, length-nibble_bytes, length-word_bytes,
}
use fx5_slmp_library.Request.Encoding.{
  prefix_bytes, nibble_bytes, word_bytes, payload_bytes, Emits, Emits-then, Emits-eq, emit_u8_lem,
  emit_u16_lem, emit_u24_lem,
}

module _ (c : Context) (buf : List ℕ) (base : ℕ) where
  sub_lem : le16 (u16 (sub_command_of c)) ≡ le16 (sub_command_of c)
  sub_lem = ap le16 (ground arith)

  emit_prefix_lem :
      Emits buf base
        (λ cur. emit_u16 c.count (
          emit_u8 (device_code c.device) (
            emit_u24 c.address
              (emit_u16 (sub_command_of c) (emit_u16 (command_code c.command) cur)))))
        (prefix_bytes c)
  emit_prefix_lem = Emits-then buf base (emit_u16_lem buf base (command_code c.command)) (
      Emits-then buf base
        (Emits-eq buf base (λ cur. refl) sub_lem (emit_u16_lem buf base (sub_command_of c)))
        (Emits-then buf base (emit_u24_lem buf base c.address) (
          Emits-then buf base (emit_u8_lem buf base (device_code c.device))
            (emit_u16_lem buf base c.count))))

  -- The prefix of a PDU.
  pub build_pdu_access_prefix_lem :
      (buffer_size : ℕ)
      → req_pdu_header_size ≤ buffer_size
      → build_pdu_access_prefix c (sub_command_of c) buf base buffer_size
        ≡ record { status = st_ok; buf = put_list buf base (prefix_bytes c); written = 10 }
  unfolding build_pdu_access_prefix
  build_pdu_access_prefix_lem buffer_size h =
      let e = emit_prefix_lem.from [] (omega arith) in ground (arith, e)

  pub build_pdu_read_request_lem :
      (buffer_size : ℕ)
      → req_pdu_header_size ≤ buffer_size
      → build_pdu_read_request c buf base buffer_size
        ≡ record { status = st_ok; buf = put_list buf base (prefix_bytes c); written = 10 }
  unfolding build_pdu_read_request
  build_pdu_read_request_lem buffer_size h = build_pdu_access_prefix_lem buffer_size h

  abbrev prefixed : PduOut
  prefixed = record { status = st_ok; buf = put_list buf base (prefix_bytes c); written = 10 }

  abbrev finished : List ℕ → PduOut
  finished payload = record {
    status = st_ok;
    buf = put_list buf base (prefix_bytes c ++ payload);
    written = 10 + length payload;
  }

  after_prefix :
      (payload : List ℕ)
      → put_list (put_list buf base (prefix_bytes c)) (base + 10) payload
        ≡ put_list buf base (prefix_bytes c ++ payload)
  after_prefix payload = sym (put_list-append buf base (prefix_bytes c) payload)

  pack_bits_lem :
      (buffer_size : ℕ)
      → c.count < 2 ^ 15
      → (c.count + 1) / 2 ≤ buffer_size
      → pack_bits_to_nibbles c.values c.count prefixed.buf (base + 10) buffer_size
        ≡ some (
          put_list buf base (prefix_bytes c ++ nibble_bytes c.values 0 c.count),
          (c.count + 1) / 2,
        )
  unfolding pack_bits_to_nibbles
  pack_bits_lem buffer_size h k =
      let e =
        (pack_loop_lem c.values c.count h prefixed.buf (base + 10) c.count 0 c.count (omega arith)
            (omega arith)).from
          [] (omega (arith, length-nibble_bytes c.values 0 c.count)) in
      ground (
        arith,
        e,
        after_prefix (nibble_bytes c.values 0 c.count),
        length-nibble_bytes c.values 0 c.count,
      )

  append_bits_lem :
      (buffer_size : ℕ)
      → c.count < 2 ^ 15
      → buffer_size < 2 ^ 16
      → 10 + (c.count + 1) / 2 ≤ buffer_size
      → append_bits c prefixed base buffer_size ≡ finished (nibble_bytes c.values 0 c.count)
  unfolding append_bits
  append_bits_lem buffer_size h l k = ground (
    arith,
    pack_bits_lem (u16 (buffer_size - 10)) h (omega arith),
    length-nibble_bytes c.values 0 c.count,
  )

  append_words_lem :
      c.count < 2 ^ 13 → append_words c prefixed base ≡ finished (word_bytes c.values 0 c.count)
  unfolding append_words
  append_words_lem h =
      let e =
        (word_loop_lem buf base c.values c.count 0 (omega arith)).from (prefix_bytes c)
          (omega (arith, length-word_bytes c.values 0 c.count)) in
      ground (arith, e)

  -- With room for it, a write PDU is its prefix and its payload.
  pub build_pdu_write_request_lem :
      (buffer_size : ℕ)
      → c.count ≤ 512
      → buffer_size < 2 ^ 16
      → req_pdu_header_size + get_write_payload_size c.device c.count ≤ buffer_size
      → build_pdu_write_request c buf base buffer_size ≡ finished (payload_bytes c)
  unfolding build_pdu_write_request get_write_payload_size
  build_pdu_write_request_lem buffer_size h l k = ground (
    arith,
    build_pdu_access_prefix_lem buffer_size,
    append_bits_lem buffer_size,
    append_words_lem,
  )

-- ===== src/Request/Builders.antt =====
-- The builders of src/fx5_request.c.
use fx5_slmp_library.Prelude.{
  ℕ, zero, suc, ◌+◌, ◌-◌, ◌/◌, bit_or, List, Option, none, some, ltb, if◌then◌else◌, u8, u16, set,
  get_or,
}
use fx5_slmp_library.Types.{
  Status, st_ok, err_too_small, err_internal, device_code, command_code, req_header_size_3e,
  req_header_size_4e, req_pdu_header_size,
}
use fx5_slmp_library.Context.{Context}
use fx5_slmp_library.Packed.{get_packed_bit_value}
use fx5_slmp_library.Bytes.{wr_u16_le, wr_u24_le}
use fx5_slmp_library.Request.Devices.{is_bit_device, get_write_payload_size}

-- An array, the position that `buffer` is at, and `index`.
pub record Cursor : Type 0 where
  pub buf : List ℕ
  pub base : ℕ
  pub index : ℕ

-- `buffer[index++] = (uint8_t)v`
unfoldable pub emit_u8 : ℕ → Cursor → Cursor
emit_u8 v c = record c { buf = set c.buf (c.base + c.index) (u8 v); index = u16 (c.index + 1) }

-- `index += pdu_wr_u16_le(&buffer[index], v)`
unfoldable pub emit_u16 : ℕ → Cursor → Cursor
emit_u16 v c = record c {
  buf = wr_u16_le c.buf (c.base + c.index) (u16 v);
  index = u16 (c.index + 2);
}

-- `index += pdu_wr_u24_le(&buffer[index], v)`
unfoldable pub emit_u24 : ℕ → Cursor → Cursor
emit_u24 v c = record c { buf = wr_u24_le c.buf (c.base + c.index) v; index = u16 (c.index + 3) }

abbrev pub start_at : List ℕ → ℕ → Cursor
start_at buf base = record { buf = buf; base = base; index = 0 }

infixl 6 ◌▷◌
abbrev pub ◌▷◌ : Cursor → (Cursor → Cursor) → Cursor
c ▷ f = f c

abbrev pub request_subheader_3e : ℕ
request_subheader_3e = 0x0050

abbrev pub request_subheader_4e : ℕ
request_subheader_4e = 0x0054

abbrev pub sub_word_unit : ℕ
sub_word_unit = 0x0000

abbrev pub sub_bit_unit : ℕ
sub_bit_unit = 0x0001

pub record HeaderOut : Type 0 where
  pub status : Status
  pub context : Context
  pub buf : List ℕ
  pub written : ℕ

-- The routing fields that both headers end with.
abbrev pub emit_route : Context → ℕ → Cursor → Cursor
emit_route c payload_size cur =
    let s = c.network_settings in
    cur
    ▷ emit_u8 s.network_no
    ▷ emit_u8 s.pc_no
    ▷ emit_u16 s.module_io_no
    ▷ emit_u8 s.module_station_no
    ▷ emit_u16 (payload_size + 2)
    ▷ emit_u16 s.monitoring_timer

unfoldable pub build_wire_header_3e : Context → List ℕ → ℕ → ℕ → HeaderOut
build_wire_header_3e c buf buffer_size payload_size =
    if ltb buffer_size req_header_size_3e
    then record { status = err_too_small; context = c; buf = buf; written = 0 }
    else (let out = emit_route c payload_size (start_at buf 0 ▷ emit_u16 request_subheader_3e) in
        record {
          status = st_ok;
          context = record c { serial = 0 };
          buf = out.buf;
          written = out.index;
        })

unfoldable pub build_wire_header_4e : Context → List ℕ → ℕ → ℕ → HeaderOut
build_wire_header_4e c buf buffer_size payload_size =
    if ltb buffer_size req_header_size_4e
    then record { status = err_too_small; context = c; buf = buf; written = 0 }
    else (let c' = record c { serial = c.next_serial; next_serial = u16 (c.next_serial + 1) } in
        let out =
          emit_route c' payload_size
            (start_at buf 0 ▷ emit_u16 request_subheader_4e ▷ emit_u16 c'.serial ▷ emit_u16 0) in
        record { status = st_ok; context = c'; buf = out.buf; written = out.index })

pub record PduOut : Type 0 where
  pub status : Status
  pub buf : List ℕ
  pub written : ℕ

unfoldable pub build_pdu_access_prefix : Context → ℕ → List ℕ → ℕ → ℕ → PduOut
build_pdu_access_prefix c sub_command buf base buffer_size =
    if ltb buffer_size req_pdu_header_size
    then record { status = err_too_small; buf = buf; written = 0 }
    else (let out =
          start_at buf base
          ▷ emit_u16 (command_code c.command)
          ▷ emit_u16 sub_command
          ▷ emit_u24 c.address
          ▷ emit_u8 (device_code c.device)
          ▷ emit_u16 c.count in
        record { status = st_ok; buf = out.buf; written = out.index })

abbrev pub sub_command_of : Context → ℕ
sub_command_of c = if is_bit_device c.device then sub_bit_unit else sub_word_unit

unfoldable pub build_pdu_read_request : Context → List ℕ → ℕ → ℕ → PduOut
build_pdu_read_request c buf base buffer_size =
    build_pdu_access_prefix c (sub_command_of c) buf base buffer_size

-- `while (k < count)`, at most `fuel` rounds; a round moves `k` on by one or two. A bit becomes a
-- nibble, the first of a byte in its high half.
unfoldable pub pack_loop : ℕ → List ℕ → ℕ → ℕ → Cursor → Cursor
pack_loop zero values count k cur = cur
pack_loop (suc fuel) values count k cur =
    let hi = if get_packed_bit_value values k then 0x10 else 0x00 in
    let k' = u16 (k + 1) in
    let lo = if get_packed_bit_value values k' then 0x01 else 0x00 in
    let second = ltb k' count in
    let rest =
      pack_loop fuel values count (if second then u16 (k' + 1) else k')
        (emit_u8 (bit_or hi (if second then lo else 0x00)) cur) in
    if ltb k count then rest else cur

-- `none` is the result -1; otherwise the array and the size.
unfoldable pub pack_bits_to_nibbles : List ℕ → ℕ → List ℕ → ℕ → ℕ → Option (List ℕ × ℕ)
pack_bits_to_nibbles values count buf base buffer_size =
    let expected_size = u16 ((count + 1) / 2) in
    let out = pack_loop count values count 0 (start_at buf base) in
    if ltb buffer_size expected_size then none else some (out.buf, out.index)

-- `for (k = 0; k < count; ++k)` with `left` rounds to go.
unfoldable pub word_loop : ℕ → List ℕ → ℕ → Cursor → Cursor
word_loop zero values k cur = cur
word_loop (suc left) values k cur =
    word_loop left values (u16 (k + 1)) (emit_u16 (get_or values k 0) cur)

unfoldable pub append_bits : Context → PduOut → ℕ → ℕ → PduOut
append_bits c prefix base buffer_size =
    elim (pack_bits_to_nibbles c.values c.count prefix.buf (base + prefix.written)
      (u16 (buffer_size - prefix.written))) [
        | none ↦ record { status = err_internal; buf = prefix.buf; written = 0 }
        | some (buf, n) ↦ record {
          status = st_ok;
          buf = buf;
          written = u16 (prefix.written + u16 n);
        }
      ]

unfoldable pub append_words : Context → PduOut → ℕ → PduOut
append_words c prefix base =
    let out =
      word_loop c.count c.values 0
        (record { buf = prefix.buf; base = base; index = prefix.written }) in
    record { status = st_ok; buf = out.buf; written = out.index }

-- `buffer_size - index` does not go below 0: the prefix has been written.
unfoldable pub build_pdu_write_request : Context → List ℕ → ℕ → ℕ → PduOut
build_pdu_write_request c buf base buffer_size =
    let required = u16 (req_pdu_header_size + get_write_payload_size c.device c.count) in
    if ltb buffer_size required
    then record { status = err_too_small; buf = buf; written = 0 }
    else (let prefix = build_pdu_access_prefix c (sub_command_of c) buf base buffer_size in
        elim prefix.status [
          | st_ok ↦
              if is_bit_device c.device
              then append_bits c prefix base buffer_size
              else append_words c prefix base
          | _ ↦ record prefix { written = 0 }
        ])

-- ===== src/Request/Frame/Header.antt =====
-- The wire headers.
use fx5_slmp_library.Prelude.{ℕ, ◌+◌, ◌^◌, ◌≤◌, ◌<◌, ◌≡◌, List, [], arith, u16}
use fx5_slmp_library.Types.{st_ok, req_header_size_3e, req_header_size_4e}
use fx5_slmp_library.Context.{Context}
use fx5_slmp_library.Bytes.Array.{put_list}
use fx5_slmp_library.Request.Builders.{
  emit_route, build_wire_header_3e, build_wire_header_4e, request_subheader_3e,
  request_subheader_4e,
}
use fx5_slmp_library.Request.Encoding.{
  route_bytes, header_bytes_3e, header_bytes_4e, Emits, Emits-then, emit_u8_lem, emit_u16_lem,
}

module _ (buf : List ℕ) where
  emit_route_lem :
      (c : Context) (payload_size : ℕ)
      → Emits buf 0 (emit_route c payload_size) (route_bytes c.network_settings payload_size)
  emit_route_lem c payload_size = Emits-then buf 0 (emit_u8_lem buf 0 s.network_no) (
      Emits-then buf 0 (emit_u8_lem buf 0 s.pc_no) (
        Emits-then buf 0 (emit_u16_lem buf 0 s.module_io_no) (
          Emits-then buf 0 (emit_u8_lem buf 0 s.module_station_no) (
            Emits-then buf 0 (emit_u16_lem buf 0 (payload_size + 2))
              (emit_u16_lem buf 0 s.monitoring_timer)))))
    where
      open c use {network_settings as s}

  -- With room for 11 bytes, the 3E header is written and the serial number is 0.
  pub build_wire_header_3e_lem :
      (c : Context) (buffer_size payload_size : ℕ)
      → req_header_size_3e ≤ buffer_size
      → build_wire_header_3e c buf buffer_size payload_size ≡ record {
        status = st_ok;
        context = record c { serial = 0 };
        buf = put_list buf 0 (header_bytes_3e c.network_settings payload_size);
        written = 11;
      }
  unfolding build_wire_header_3e
  build_wire_header_3e_lem c buffer_size payload_size h =
      let e =
        (Emits-then buf 0 (emit_u16_lem buf 0 request_subheader_3e)
            (emit_route_lem c payload_size)).from
          [] (omega arith) in
      ground (arith, e)

  -- With room for 15 bytes, the 4E header is written with the next serial number.
  pub build_wire_header_4e_lem :
      (c : Context) (buffer_size payload_size : ℕ)
      → req_header_size_4e ≤ buffer_size
      → c.next_serial < 2 ^ 16
      → build_wire_header_4e c buf buffer_size payload_size ≡ record {
        status = st_ok;
        context = record c { serial = c.next_serial; next_serial = u16 (c.next_serial + 1) };
        buf = put_list buf 0 (header_bytes_4e c.network_settings c.next_serial payload_size);
        written = 15;
      }
  unfolding build_wire_header_4e
  build_wire_header_4e_lem c buffer_size payload_size h k =
      let e =
        (Emits-then buf 0 (emit_u16_lem buf 0 request_subheader_4e) (
            Emits-then buf 0 (emit_u16_lem buf 0 c.next_serial)
              (Emits-then buf 0 (emit_u16_lem buf 0 0) (emit_route_lem c payload_size)))).from
          [] (omega arith) in
      let small : u16 c.next_serial ≡ c.next_serial = omega arith in ground (arith, e)

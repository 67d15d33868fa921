-- ===== src/Api/Ready/Transfer.antt =====
-- `fx5_build_request` and `fx5_feed_response_bytes` of src/fx5_core.c on contexts that are ready.
use fx5_slmp_library.Prelude.{
  ℕ, ◌+◌, ◌-◌, ◌<◌, ◌^◌, ◌≡◌, sym, subst, true, false, Bool, Option, some, none, List, arith,
  length, ltb, u16, Bool-cases, inl, inr,
}
use native.Mathlib.Decide.{dec_le}
use fx5_slmp_library.Types.{st_ok}
use fx5_slmp_library.Context.{Context}
use fx5_slmp_library.RingBuf.Contents.{contents}
use fx5_slmp_library.Bytes.Stream.{AreBytes}
use fx5_slmp_library.Request.Devices.{get_required_request_size, get_request_header_size}
use fx5_slmp_library.Request.Builders.{HeaderOut, build_wire_header_3e, build_wire_header_4e}
use fx5_slmp_library.Api.Handle.{require_acquired, require_acquired-acquired}
use fx5_slmp_library.Api.Build.{
  build_header, build_rest, check_header, build_sized, build_request_on, build_request,
}
use fx5_slmp_library.Api.Receive.{feed_response_bytes, feed_on}
use fx5_slmp_library.Api.Feed.{feed_response_bytes_lem}
use fx5_slmp_library.Api.Ready.{IsReady, serials-IsReady}

-- No failure behind the header undoes its serial number.
context-check_header :
    (h : HeaderOut) (buf_size size : ℕ) → (check_header h buf_size size).context ≡ some h.context
unfolding check_header build_rest
context-check_header h buf_size size = ground arith

module _ (c : Context) (r : IsReady (some c)) where
  ready : require_acquired (some c) ≡ st_ok
  ready = require_acquired-acquired c r.1

  header-IsReady :
      (buf : List ℕ) (size pdu_size : ℕ) → IsReady (some (build_header c buf size pdu_size).context)
  unfolding build_header build_wire_header_3e build_wire_header_4e
  header-IsReady buf size pdu_size =
      let three = serials-IsReady c 0 c.next_serial r (omega arith) r.0.next_serial_fits in
      let four =
        serials-IsReady c c.next_serial (u16 (c.next_serial + 1)) r r.0.next_serial_fits
          (omega arith) in
      ground (arith, r, three, four)

  sized-IsReady :
      (buf : List ℕ) (buf_size size : ℕ) → IsReady (build_sized c buf buf_size size).context
  unfolding build_sized
  sized-IsReady buf buf_size size =
      let pdu_size = u16 (size - get_request_header_size c.network_settings.header_type) in
      let h = build_header c buf buf_size pdu_size in
      elim (Bool-cases (ltb buf_size size)) [
        | inl e ↦ rw (e, IsReady) r
        | inr e ↦ rw e (
            subst IsReady (sym (context-check_header h buf_size size))
              (header-IsReady buf buf_size pdu_size))
      ]

  build_on-IsReady :
      (buf : List ℕ) (buf_size : ℕ) → IsReady (build_request_on c buf buf_size).context
  unfolding build_request_on
  build_on-IsReady buf buf_size =
      let all = sized-IsReady buf buf_size (get_required_request_size c) in ground (arith, r, all)

  pub build_request-IsReady :
      (buf : Option (List ℕ)) (size : ℕ) (given : Bool)
      → IsReady (build_request (some c) buf size given).context
  unfolding build_request
  build_request-IsReady none size given = r
  build_request-IsReady (some buf) size false = r
  build_request-IsReady (some buf) size true = rw (ready, IsReady) (build_on-IsReady buf size)

  pub feed-IsReady :
      (xs : List ℕ)
      → AreBytes xs
      → length xs < 2 ^ 16
      → IsReady (feed_response_bytes (some c) (some xs)).0
  feed-IsReady xs bytes small =
      let l = feed_response_bytes_lem c xs r.0 r.1 bytes small in
      elim (dec_le (length (contents c.rx_cbuffer) + length xs) 297) [
        | yes room ↦ let f = l.0 room in rw (f.0) (f.2, r.1)
        | no over ↦ rw (l.1 (omega (arith, over))) r
      ]

  pub feed_none-IsReady : IsReady (feed_response_bytes (some c) none).0
  unfolding feed_response_bytes feed_on
  feed_none-IsReady = rw (ready, IsReady) r

-- ===== src/Api/Parse/Total.antt =====
-- The loop of `fx5_parse_response` of src/fx5_core.c on any bytes.
use fx5_slmp_library.Prelude.{
  ℕ, zero, suc, ◌+◌, ◌≤◌, ◌<◌, ◌^◌, ◌≡◌, refl, ap, ◌∙◌, true, arith, u16, u32, ltb, Bool-cases, inl,
  inr, some,
}
use fx5_slmp_library.Types.{
  Status, st_ok, err_null, err_too_small, err_need_more, err_invalid_address, err_invalid_count,
  err_invalid_index, err_unsupported, err_internal, err_resync, err_header_mismatch, err_no_context,
  err_not_acquired, err_state, response_error, Header, header_3e, header_4e, unknown_header,
}
use fx5_slmp_library.Context.{Context}
use fx5_slmp_library.RingBuf.{drop_front}
use fx5_slmp_library.Bytes.{peekc_u16_le}
use fx5_slmp_library.Bytes.Stream.{IsStream}
use fx5_slmp_library.Response.Header.{
  try_resync, parse_response_header_3e, parse_response_header_4e,
}
use fx5_slmp_library.Response.Stream.{try_resync_lem}
use fx5_slmp_library.Api.Receive.{
  Round, returns, goes_on, after_header, read_frame, parse_round, parse_loop, parse_response_on,
  parse_response,
}
use fx5_slmp_library.Api.Handle.{require_acquired}
use fx5_slmp_library.Api.Invariant.{IsWellFormed, rx-IsStream, max_value_count-le}
use fx5_slmp_library.Api.Parse.Kept.{
  IsKept, IsKept-refl, IsKept-trans, IsKept-IsWellFormed, dropped-IsKept,
}
use fx5_slmp_library.Api.Parse.KeptPdu.{parse_pdu-IsKept}

-- A round keeps the context; one that goes on has counted a byte, and at most 64 are counted.
abbrev RoundKept : Context → Round → Type 0
RoundKept c (returns out status) = IsKept c out
RoundKept c (goes_on out) =
    IsKept c out × (c.resync_counter < out.resync_counter) × (out.resync_counter ≤ 64)

RoundKept-trans :
    (c c' : Context) (r : Round)
    → IsKept c c'
    → c.resync_counter ≤ c'.resync_counter
    → RoundKept c' r
    → RoundKept c r
RoundKept-trans c c' (returns out status) k l h = IsKept-trans c c' out k h
RoundKept-trans c c' (goes_on out) k l h = (IsKept-trans c c' out k h.0, omega (arith, h.1), h.2)

module _ (c : Context) (s : IsStream c.rx_cbuffer) (small : c.count ≤ 512)
    (few : c.resync_counter ≤ 64) where
  after_header-RoundKept :
      (header_size : ℕ) (status : Status) (p : ℕ)
      → header_size ≤ 13
      → p < 2 ^ 16
      → RoundKept c (after_header c header_size status p)
  unfolding after_header
  after_header-RoundKept z err_need_more p h l = IsKept-refl c s
  after_header-RoundKept z err_header_mismatch p h l =
      let one =
        dropped-IsKept c 1 c.response_code c.count (u16 (c.resync_counter + 1)) c.values s
          (omega arith) (omega arith) refl in
      elim (Bool-cases (ltb 64 (u16 (c.resync_counter + 1)))) [
        | inl e ↦ rw e one
        | inr e ↦ rw e (one, omega arith, ground arith)
      ]
  after_header-RoundKept z st_ok p h l =
      let c' = record c { rx_cbuffer = (drop_front c.rx_cbuffer z).0 } in
      let one : IsKept c c' =
        dropped-IsKept c z c.response_code c.count c.resync_counter c.values s (omega arith)
          (omega arith) refl in
      let all = IsKept-trans c c' _ one (parse_pdu-IsKept c' p one.stream small l) in
      elim (Bool-cases (ltb c.rx_cbuffer.size (u32 (z + p)))) [
        | inl e ↦ rw e (IsKept-refl c s)
        | inr e ↦ rw e all
      ]
  after_header-RoundKept z err_null p h l = IsKept-refl c s
  after_header-RoundKept z err_too_small p h l = IsKept-refl c s
  after_header-RoundKept z err_invalid_address p h l = IsKept-refl c s
  after_header-RoundKept z err_invalid_count p h l = IsKept-refl c s
  after_header-RoundKept z err_invalid_index p h l = IsKept-refl c s
  after_header-RoundKept z err_unsupported p h l = IsKept-refl c s
  after_header-RoundKept z err_internal p h l = IsKept-refl c s
  after_header-RoundKept z err_resync p h l = IsKept-refl c s
  after_header-RoundKept z err_no_context p h l = IsKept-refl c s
  after_header-RoundKept z err_not_acquired p h l = IsKept-refl c s
  after_header-RoundKept z err_state p h l = IsKept-refl c s
  after_header-RoundKept z response_error p h l = IsKept-refl c s

  packet_size_3e : (parse_response_header_3e c.rx_cbuffer).1 < 2 ^ 16
  unfolding parse_response_header_3e peekc_u16_le
  packet_size_3e = ground arith

  packet_size_4e : (parse_response_header_4e c c.rx_cbuffer).1 < 2 ^ 16
  unfolding parse_response_header_4e peekc_u16_le
  packet_size_4e = ground arith

  read_frame-RoundKept : (t : Header) → RoundKept c (read_frame c t)
  unfolding read_frame
  read_frame-RoundKept unknown_header = IsKept-refl c s
  read_frame-RoundKept header_4e =
      after_header-RoundKept 13 (parse_response_header_4e c c.rx_cbuffer).0
        (parse_response_header_4e c c.rx_cbuffer).1 (omega arith) packet_size_4e
  read_frame-RoundKept header_3e =
      after_header-RoundKept 9 (parse_response_header_3e c.rx_cbuffer).0
        (parse_response_header_3e c.rx_cbuffer).1 (omega arith) packet_size_3e

parse_round-RoundKept :
    (c : Context)
    → IsStream c.rx_cbuffer
    → c.rx_cbuffer.capacity ≤ 297
    → c.count ≤ 512
    → c.resync_counter ≤ 64
    → RoundKept c (parse_round c)
unfolding parse_round
parse_round-RoundKept c s z small few =
    let r = try_resync_lem c.rx_cbuffer c.resync_counter s (omega (arith, s.valid.size_le)) in
    let out = try_resync c.rx_cbuffer c.resync_counter in
    let c' = record c { rx_cbuffer = out.ring; resync_counter = out.discarded } in
    let found : IsKept c c' = record {
      stream = r.stream;
      same_capacity = r.same_capacity;
      same_length = refl;
      count_le = omega arith;
      same = refl;
    } in
    elim (Bool-cases (ltb 64 out.discarded)) [
      | inl e ↦ rw e found
      | inr e ↦ rw e (
          RoundKept-trans c c' (read_frame c' out.header) found (omega (arith, r.counted))
            (read_frame-RoundKept c' r.stream small (ground arith) out.header))
    ]

abbrev Finishes : ℕ → Context → Type 0
Finishes fuel c =
    (out : Context) × (status : Status) × (parse_loop fuel c ≡ some (out, status)) × IsKept c out

round-Finishes :
    (fuel : ℕ) (c : Context) (r : Round)
    → RoundKept c r
    → parse_round c ≡ r
    → ((c' : Context) → RoundKept c (goes_on c') → Finishes fuel c')
    → Finishes (suc fuel) c
unfolding parse_loop
round-Finishes fuel c (returns out status) k e more = (out, status, rw (e, parse_loop) refl, k)
round-Finishes fuel c (goes_on c') k e more =
    let m = more c' k in (m.0, m.1, rw (e, parse_loop) m.2, IsKept-trans c c' m.0 k.0 m.3)

parse_loop-IsKept :
    (fuel : ℕ) (c : Context)
    → IsStream c.rx_cbuffer
    → c.rx_cbuffer.capacity ≤ 297
    → c.count ≤ 512
    → c.resync_counter ≤ 64
    → 65 ≤ fuel + c.resync_counter
    → Finishes fuel c
parse_loop-IsKept zero c s z small few enough = absurd (omega arith)
parse_loop-IsKept (suc fuel) c s z small few enough =
    round-Finishes fuel c (parse_round c) (parse_round-RoundKept c s z small few) refl (λ c' k.
      parse_loop-IsKept fuel c' k.0.stream (omega (arith, k.0.same_capacity))
        (omega (arith, k.0.count_le)) k.2 (omega (arith, k.1)))

-- `fx5_parse_response` returns on every well-formed context in use, whatever bytes the ring holds:
-- the fuel suffices, and the context is well-formed and in use again.
pub parse_response_total :
    (c : Context)
    → IsWellFormed c
    → c.in_use ≡ true
    → (out : Context) × (status : Status) × (parse_response (some c) ≡ some (some out, status))
      × IsWellFormed out
      × (out.in_use ≡ true)
unfolding parse_response parse_response_on require_acquired
parse_response_total c w used =
    let start = record c { resync_counter = 0 } in
    let r =
      parse_loop-IsKept 66 start (rx-IsStream c w) (omega (arith, w.capacity))
        (max_value_count-le c w) (omega arith) (omega arith) in
    let kept =
      IsKept-trans c start r.0
        (record {
          stream = rx-IsStream c w;
          same_capacity = refl;
          same_length = refl;
          count_le = omega arith;
          same = refl;
        })
        r.3 in
    (
      r.0,
      r.1,
      ground (arith, r.2),
      IsKept-IsWellFormed c r.0 kept w,
      ap (λ (o : Context). o.in_use) kept.same ∙ used,
    )

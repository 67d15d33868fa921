-- ===== src/Api/Parse/KeptPdu.antt =====
-- `fx5_parse_response_pdu` of src/fx5_response.c on any bytes, and the fields that it leaves alone.
use fx5_slmp_library.Prelude.{
  ℕ, ◌+◌, ◌-◌, ◌*◌, ◌/◌, ◌≤◌, ◌<◌, ◌^◌, refl, ap, arith, u16, ltb, if◌then◌else◌,
}
use fx5_slmp_library.Context.{Context}
use fx5_slmp_library.RingBuf.{drop_front}
use fx5_slmp_library.Bytes.{rdc_u16_le}
use fx5_slmp_library.Bytes.Stream.{IsStream, rdc_u16_le_lem}
use fx5_slmp_library.Response.Payload.{
  drop_payload, read_words, parse_word_response_payload, unpack_loop, unpack_bitunit_bytes,
  parse_bit_response_payload, parse_response_payload, parse_response_pdu,
}
use fx5_slmp_library.Api.Parse.Kept.{
  IsKept, IsKept-refl, IsKept-trans, dropped-IsKept, drop_payload-IsKept, read_words-IsKept,
  unpack_loop_keeps,
}

counted-IsKept :
    (c out : Context) (count : ℕ)
    → count ≤ c.count
    → IsKept c out
    → IsKept c (record out { count = count })
counted-IsKept c out count h k = record {
  stream = k.stream;
  same_capacity = k.same_capacity;
  same_length = k.same_length;
  count_le = h;
  same = ap (λ (o : Context). record o { count = count }) k.same;
}

module _ (c : Context) (p : ℕ) (s : IsStream c.rx_cbuffer) (h : p < 2 ^ 16) where
  read_words_counted :
      u16 (p / 2) ≤ c.count
      → IsKept c (read_words (u16 (p / 2)) 0 (record c { count = u16 (p / 2) }))
  read_words_counted le =
      let c' = record c { count = u16 (p / 2) } in
      IsKept-trans c c' (read_words (u16 (p / 2)) 0 c')
        (counted-IsKept c c (u16 (p / 2)) le (IsKept-refl c s))
        (read_words-IsKept (u16 (p / 2)) 0 c' s)

  parse_word-IsKept : c.count ≤ 512 → IsKept c (parse_word_response_payload c p).0
  unfolding parse_word_response_payload
  parse_word-IsKept small =
      ground (arith, IsKept-refl c s, drop_payload-IsKept c p s h, read_words_counted)

  unpacked-IsKept :
      let out = unpack_bitunit_bytes c.rx_cbuffer p c.values c.count in
      IsKept c (
        drop_payload
          (record c { rx_cbuffer = out.ring; values = out.values; count = out.bit_count })
          out.remaining_bytes)
  unfolding unpack_bitunit_bytes
  unpacked-IsKept =
      let n = (if ltb c.count (u16 (p * 2)) then c.count else u16 (p * 2)) in
      let m = u16 ((n + 1) / 2) in
      let out =
        unpack_loop m n (record { ring = c.rx_cbuffer; values = c.values; bit_index = 0 }) in
      let k =
        unpack_loop_keeps m n (record { ring = c.rx_cbuffer; values = c.values; bit_index = 0 })
          s in
      let c' = record c { rx_cbuffer = out.ring; values = out.values; count = n } in
      IsKept-trans c c' _
        (record {
          stream = k.0;
          same_capacity = k.1;
          same_length = k.2;
          count_le = ground arith;
          same = refl;
        })
        (drop_payload-IsKept c' (u16 (p + 2 ^ 16 - m)) k.0 (omega arith))

  parse_bit-IsKept : IsKept c (parse_bit_response_payload c p).0
  unfolding parse_bit_response_payload
  parse_bit-IsKept = ground (arith, drop_payload-IsKept c p s h, unpacked-IsKept)

  parse_payload-IsKept : c.count ≤ 512 → IsKept c (parse_response_payload c p).0
  unfolding parse_response_payload
  parse_payload-IsKept small = ground (
    arith,
    drop_payload-IsKept c p s h,
    counted-IsKept c c 0 (omega arith) (IsKept-refl c s),
    parse_word-IsKept small,
    parse_bit-IsKept,
  )

pub parse_pdu-IsKept :
    (c : Context) (p : ℕ)
    → IsStream c.rx_cbuffer
    → c.count ≤ 512
    → p < 2 ^ 16
    → IsKept c (parse_response_pdu c p).0
unfolding parse_response_pdu
parse_pdu-IsKept c p s small h =
    let e = (rdc_u16_le_lem c.rx_cbuffer s).1 in
    let code = (rdc_u16_le c.rx_cbuffer).1 in
    let c' = record c { rx_cbuffer = (drop_front c.rx_cbuffer 2).0; response_code = code } in
    let one : IsKept c c' =
      dropped-IsKept c 2 code c.count c.resync_counter c.values s (omega arith) (omega arith)
        refl in
    let d = drop_payload-IsKept c' (u16 (p - 2)) one.stream (omega arith) in
    let failed =
      IsKept-trans c c' _ one
        (counted-IsKept c' (drop_payload c' (u16 (p - 2))) 0 (omega arith) d) in
    let passed =
      IsKept-trans c c' _ one
        (parse_payload-IsKept c' (u16 (p - 2)) one.stream (omega arith) small) in
    rw e (ground (arith, IsKept-refl c s, failed, passed))

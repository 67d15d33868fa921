-- ===== src/Api/Receive.antt =====
-- `fx5_feed_response_bytes` and `fx5_parse_response` of src/fx5_core.c.
use fx5_slmp_library.Prelude.{
  ℕ, zero, suc, ◌+◌, Option, none, some, List, [], ◌∷◌, ltb, if◌then◌else◌, u16, u32, length,
}
use mathlib.Core.Option
use fx5_slmp_library.Types.{
  Status, st_ok, err_null, err_too_small, err_need_more, err_resync, err_header_mismatch, Header,
  header_3e, header_4e, unknown_header, resync_limit, iobuf_size, resp_header_size_3e,
  resp_header_size_4e,
}
use fx5_slmp_library.Context.{Context}
use fx5_slmp_library.RingBuf.{Ring, push_back, drop_front}
use fx5_slmp_library.Response.Header.{
  try_resync, parse_response_header_3e, parse_response_header_4e,
}
use fx5_slmp_library.Response.Payload.{parse_response_pdu}
use fx5_slmp_library.Api.Handle.{require_acquired, on_acquired}

-- `for (k = 0; k < size; ++k)`: the list is what is left of `data`.
unfoldable pub feed_loop : Ring → List ℕ → Ring × Status
feed_loop rb [] = (rb, st_ok)
feed_loop rb (x ∷ xs) =
    let (rb', pushed) = push_back rb x in
    let rest = feed_loop rb' xs in if pushed then rest else (rb', err_too_small)

unfoldable pub feed_on : Option (List ℕ) → Context → Context × Status
feed_on none c = (c, err_null)
feed_on (some bytes) c =
    let (rb, status) = feed_loop c.rx_cbuffer bytes in
    if ltb iobuf_size (u32 (c.rx_cbuffer.size + length bytes))
    then (c, err_too_small)
    else (record c { rx_cbuffer = rb }, status)

-- `data` is the list of its `size` bytes, `none` for NULL.
unfoldable pub feed_response_bytes : Option Context → Option (List ℕ) → Option Context × Status
unfolding require_acquired
feed_response_bytes ctx bytes = on_acquired ctx (feed_on bytes)

-- A round of `while (true)`: it returns, or goes on.
pub data Round : Type 0 where
  returns : Context → Status → Round
  goes_on : Context → Round

-- Once the header has been read: `(status, packet_size)`.
unfoldable pub after_header : Context → ℕ → Status → ℕ → Round
after_header c header_size err_need_more packet_size = returns c err_need_more
after_header c header_size err_header_mismatch packet_size =
    let c' = record c {
      rx_cbuffer = (drop_front c.rx_cbuffer 1).0;
      resync_counter = u16 (c.resync_counter + 1);
    } in
    if ltb resync_limit c'.resync_counter then returns c' err_resync else goes_on c'
after_header c header_size st_ok packet_size =
    let total_needed = u32 (header_size + packet_size) in
    let (c', status) =
      parse_response_pdu (record c { rx_cbuffer = (drop_front c.rx_cbuffer header_size).0 })
        packet_size in
    if ltb c.rx_cbuffer.size total_needed then returns c err_need_more else returns c' status
after_header c header_size status packet_size = returns c status

unfoldable pub read_frame : Context → Header → Round
read_frame c unknown_header = returns c err_need_more
read_frame c header_4e =
    let (status, packet_size) = parse_response_header_4e c c.rx_cbuffer in
    after_header c resp_header_size_4e status packet_size
read_frame c header_3e =
    let (status, packet_size) = parse_response_header_3e c.rx_cbuffer in
    after_header c resp_header_size_3e status packet_size

unfoldable pub parse_round : Context → Round
parse_round c =
    let s = try_resync c.rx_cbuffer c.resync_counter in
    let c' = record c { rx_cbuffer = s.ring; resync_counter = s.discarded } in
    if ltb resync_limit c'.resync_counter then returns c' err_resync else read_frame c' s.header

-- The loop; `none` means that the fuel ran out.
unfoldable pub parse_loop : ℕ → Context → Option (Context × Status)
parse_loop zero c = none
parse_loop (suc fuel) c = elim (parse_round c) [
  | returns c' status ↦ some (c', status)
  | goes_on c' ↦ parse_loop fuel c'
]

-- A round that goes on has counted one more dropped byte, and none does beyond the limit.
abbrev pub parse_fuel : ℕ
parse_fuel = 66

unfoldable pub parse_response_on : Context → Option (Context × Status)
parse_response_on c = parse_loop parse_fuel (record c { resync_counter = 0 })

unfoldable pub parse_response : Option Context → Option (Option Context × Status)
unfolding require_acquired
parse_response none = some (none, require_acquired none)
parse_response (some c) = elim (require_acquired (some c)) [
  | st_ok ↦ Option.map (λ r. (some r.0, r.1)) (parse_response_on c)
  | status ↦ some (some c, status)
]

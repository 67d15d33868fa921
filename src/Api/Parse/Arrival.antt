-- ===== src/Api/Parse/Arrival.antt =====
-- The first round of `fx5_parse_response` up to the call of `fx5_parse_response_pdu`.
use fx5_slmp_library.Prelude.{
  ℕ, ◌≤◌, ◌<◌, ◌≡◌, refl, ap, ◌∙◌, sym, true, List, ◌++◌, some, arith, length, drop, drop-append,
}
use fx5_slmp_library.Types.{Status, err_need_more, Header, header_3e, header_4e, unknown_header}
use fx5_slmp_library.Context.{Context}
use fx5_slmp_library.RingBuf.Invariant.{capacity-drop_front}
use fx5_slmp_library.RingBuf.Contents.{contents}
use fx5_slmp_library.Bytes.Stream.{IsStream}
use fx5_slmp_library.Response.Header.{try_resync, get_response_header_size}
use fx5_slmp_library.Response.Payload.{parse_response_pdu}
use fx5_slmp_library.Response.Stream.{
  IsResynced, try_resync_lem, resync_spec, drop_front-IsStream, contents-drop_front, size-length,
}
use fx5_slmp_library.Api.Receive.{returns, parse_round, parse_response_on, parse_response}
use fx5_slmp_library.Api.Handle.{require_acquired}
use fx5_slmp_library.Api.Invariant.{IsWellFormed, rx-IsStream}
use fx5_slmp_library.Api.Parse.{
  IsHeader, past_header, read_frame_complete, read_frame_partial, resynced, parse_round_reads,
  parse_loop_returns,
}

pub response_of_round :
    (c c' : Context) (status : Status)
    → c.in_use ≡ true
    → parse_round (record c { resync_counter = 0 }) ≡ returns c' status
    → parse_response (some c) ≡ some (some c', status)
unfolding parse_response parse_response_on require_acquired
response_of_round c c' status used round =
    ground (arith, parse_loop_returns 65 (record c { resync_counter = 0 }) c' status)

-- The context at the call of `fx5_parse_response_pdu`.
abbrev pub arrived : Context → Header → Context
arrived c t = past_header (resynced (record c { resync_counter = 0 })) t

pub header_length :
    (t : Header) (c : Context) (h : List ℕ) (p : ℕ)
    → IsHeader t c h p
    → (length h ≡ get_response_header_size t) × (get_response_header_size t ≤ 13)
unfolding get_response_header_size
header_length header_4e c h p w = (w.0, omega arith)
header_length header_3e c h p w = (w.0, omega arith)
header_length unknown_header c h p w = absurd w

pub same_header :
    (t : Header) (c c' : Context) (h : List ℕ) (p : ℕ)
    → c'.serial ≡ c.serial
    → IsHeader t c h p
    → IsHeader t c' h p
same_header header_4e c c' h p e w = (w.0, w.1 ∙ sym e, w.2)
same_header header_3e c c' h p e w = w
same_header unknown_header c c' h p e w = w

-- The context behind the search for a frame.
abbrev pub searched : Context → Context
searched c = resynced (record c { resync_counter = 0 })

module _ (c : Context) (t : Header) (n p : ℕ) (h body : List ℕ) (w : IsWellFormed c)
    (found : resync_spec (contents c.rx_cbuffer) ≡ (n, t)) (near : n ≤ 64)
    (frame : drop n (contents c.rx_cbuffer) ≡ h ++ body) (lo : 2 ≤ p) (hi : p ≤ 297)
    (header : IsHeader t c h p) where
  pub resync :
      IsResynced (contents c.rx_cbuffer) 0 c.rx_cbuffer.capacity (try_resync c.rx_cbuffer 0)
  resync =
      try_resync_lem c.rx_cbuffer 0 (rx-IsStream c w)
        (omega (arith, w.ring, w.capacity, size-length c.rx_cbuffer))

  pub contents-searched : contents (searched c).rx_cbuffer ≡ h ++ body
  contents-searched =
      resync.held ∙ ap (λ (k : ℕ × Header). drop k.0 (contents c.rx_cbuffer)) found ∙ frame

  pub searched_count : (searched c).resync_counter ≡ n
  searched_count = omega (arith, resync.counted, ap (λ (k : ℕ × Header). k.0) found)

  pub searched_header : (try_resync c.rx_cbuffer 0).header ≡ t
  searched_header = resync.found ∙ ap (λ (k : ℕ × Header). k.1) found

  pub contents-arrived : contents (arrived c t).rx_cbuffer ≡ body
  contents-arrived =
      let l = header_length t c h p header in
      contents-drop_front (searched c).rx_cbuffer (get_response_header_size t) resync.stream
        (omega (arith, l.1))
      ∙ ap (drop (get_response_header_size t)) contents-searched
      ∙ drop-append (get_response_header_size t) h body l.0

  pub arrived-IsStream : IsStream (arrived c t).rx_cbuffer
  arrived-IsStream =
      let l = header_length t c h p header in
      drop_front-IsStream (searched c).rx_cbuffer (get_response_header_size t) resync.stream
        (omega (arith, l.1))

  pub arrived_capacity : (arrived c t).rx_cbuffer.capacity ≡ c.rx_cbuffer.capacity
  arrived_capacity =
      capacity-drop_front (searched c).rx_cbuffer (get_response_header_size t)
      ∙ resync.same_capacity

  pub parse_response-whole :
      c.in_use ≡ true
      → p ≤ length body
      → parse_response (some c)
        ≡ some (some (parse_response_pdu (arrived c t) p).0, (parse_response_pdu (arrived c t) p).1)
  parse_response-whole used whole =
      let round =
        parse_round_reads (record c { resync_counter = 0 }) t (omega (arith, searched_count))
          searched_header
        ∙ read_frame_complete (searched c) h body p resync.stream contents-searched lo hi t
            (same_header t c (searched c) h p refl header) whole in
      response_of_round c (parse_response_pdu (arrived c t) p).0
        (parse_response_pdu (arrived c t) p).1 used round

  pub parse_response-part :
      c.in_use ≡ true
      → length body < p
      → parse_response (some c) ≡ some (some (searched c), err_need_more)
  parse_response-part used part =
      let round =
        parse_round_reads (record c { resync_counter = 0 }) t (omega (arith, searched_count))
          searched_header
        ∙ read_frame_partial (searched c) h body p resync.stream contents-searched lo hi t
            (same_header t c (searched c) h p refl header) part in
      response_of_round c (searched c) err_need_more used round

-- ===== src/Api/Parse.antt =====
-- `fx5_parse_response` on what has been received.
use fx5_slmp_library.Prelude.{
  ℕ, zero, suc, ◌+◌, ◌-◌, ◌*◌, ◌≤◌, ◌<◌, ◌^◌, ◌≡◌, ◌≢◌, refl, ap, ◌∙◌, sym, true, List, [], ◌∷◌,
  ◌++◌, Option, none, some, arith, u16, u32, if◌then◌else◌, length, length-append, drop, get_or,
  get_or-append_left,
}
use mathlib.Core.Option
use fx5_slmp_library.Types.{
  Status, st_ok, err_need_more, err_resync, err_header_mismatch, Header, header_3e, header_4e,
  unknown_header, resync_limit, resp_header_size_3e, resp_header_size_4e,
}
use fx5_slmp_library.Context.{Context}
use fx5_slmp_library.RingBuf.{Ring, drop_front}
use fx5_slmp_library.RingBuf.Contents.{contents, length-contents}
use fx5_slmp_library.Bytes.{peekc_u16_le}
use fx5_slmp_library.Bytes.Stream.{IsStream, le16_at, peekc_u16_le_lem}
use fx5_slmp_library.Response.Header.{
  Resynced, try_resync, get_response_header_size, parse_response_header_3e,
  parse_response_header_4e,
}
use fx5_slmp_library.Response.Payload.{parse_response_pdu}
use fx5_slmp_library.Response.Stream.{
  IsResynced, try_resync_lem, resync_spec, announced, drop_front-IsStream, contents-drop_front,
  size-length,
}
use fx5_slmp_library.Api.Handle.{require_acquired}
use fx5_slmp_library.Api.Receive.{
  Round, returns, goes_on, after_header, read_frame, parse_round, parse_loop, parse_fuel,
  parse_response_on, parse_response,
}
use fx5_slmp_library.Api.Invariant.{IsWellFormed}
pub mod Arrival
pub mod Pdu
pub mod Replies
pub mod Kept
pub mod KeptPdu
pub mod Total
pub mod Waiting
pub mod Prefix
pub mod Stall

-- A well-formed response header of the given type for the context, announcing `p` bytes of PDU.
-- Its other bytes (the routing fields, the reserved word of 4E) are not looked at.
abbrev pub IsHeader : Header → Context → List ℕ → ℕ → Type 0
IsHeader header_4e c h p = (length h ≡ 13) × (le16_at h 2 ≡ c.serial) × (le16_at h 11 ≡ p)
IsHeader header_3e c h p = (length h ≡ 9) × (le16_at h 7 ≡ p)
IsHeader unknown_header c h p = ⊥

le16_at-append : (h body : List ℕ) (i : ℕ) → i + 1 < length h → le16_at (h ++ body) i ≡ le16_at h i
le16_at-append h body i l =
    omega
      (arith, get_or-append_left h body i 0 (omega arith), get_or-append_left h body (i + 1) 0 l)

-- The context with the frame's header taken off.
abbrev pub past_header : Context → Header → Context
past_header c t = record c { rx_cbuffer = (drop_front c.rx_cbuffer (get_response_header_size t)).0 }

module _ (c : Context) (h body : List ℕ) (p : ℕ) (s : IsStream c.rx_cbuffer)
    (e : contents c.rx_cbuffer ≡ h ++ body) (lo : 2 ≤ p) (hi : p ≤ 297) where
  peek_header : (i : ℕ) → i < 12 → i + 1 < length h → peekc_u16_le c.rx_cbuffer i ≡ le16_at h i
  peek_header i k l =
      peekc_u16_le_lem c.rx_cbuffer i s (omega arith)
      ∙ ap (λ q. le16_at q i) e
      ∙ le16_at-append h body i l

  size_lem : c.rx_cbuffer.size ≡ length h + length body
  size_lem = size-length c.rx_cbuffer ∙ ap length e ∙ length-append h body

  header_accepted_4e :
      IsHeader header_4e c h p → parse_response_header_4e c c.rx_cbuffer ≡ (st_ok, p)
  unfolding parse_response_header_4e
  header_accepted_4e w = ground (arith, size_lem, peek_header 2, peek_header 11)

  header_accepted_3e : IsHeader header_3e c h p → parse_response_header_3e c.rx_cbuffer ≡ (st_ok, p)
  unfolding parse_response_header_3e
  header_accepted_3e w = ground (arith, size_lem, peek_header 7)

  -- A complete frame is taken off and its PDU parsed.
  pub read_frame_complete :
      (t : Header)
      → IsHeader t c h p
      → p ≤ length body
      → read_frame c t
        ≡ (let (out, status) = parse_response_pdu (past_header c t) p in returns out status)
  unfolding read_frame get_response_header_size after_header
  read_frame_complete header_4e w l = rw (header_accepted_4e w) (ground (arith, size_lem))
  read_frame_complete header_3e w l = rw (header_accepted_3e w) (ground (arith, size_lem))
  read_frame_complete unknown_header w l = absurd w

  -- A frame whose PDU has not arrived whole stays in the ring.
  pub read_frame_partial :
      (t : Header) → IsHeader t c h p → length body < p → read_frame c t ≡ returns c err_need_more
  unfolding read_frame after_header
  read_frame_partial header_4e w l = rw (header_accepted_4e w) (ground (arith, size_lem))
  read_frame_partial header_3e w l = rw (header_accepted_3e w) (ground (arith, size_lem))
  read_frame_partial unknown_header w l = absurd w

-- The context behind a resynchronisation.
abbrev pub resynced : Context → Context
resynced c =
    let s = try_resync c.rx_cbuffer c.resync_counter in
    record c { rx_cbuffer = s.ring; resync_counter = s.discarded }

parse_round_reads :
    (c : Context) (t : Header)
    → (try_resync c.rx_cbuffer c.resync_counter).discarded ≤ resync_limit
    → (try_resync c.rx_cbuffer c.resync_counter).header ≡ t
    → parse_round c ≡ read_frame (resynced c) t
unfolding parse_round
parse_round_reads c t l e = rw (← e) (ground arith)

parse_loop_returns :
    (fuel : ℕ) (c c' : Context) (status : Status)
    → parse_round c ≡ returns c' status
    → parse_loop (suc fuel) c ≡ some (c', status)
unfolding parse_loop
parse_loop_returns fuel c c' status e = rw (e, parse_loop) refl

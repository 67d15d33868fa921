-- ===== src/Api/Parse/Waiting.antt =====
-- `fx5_parse_response` where no frame can be taken off.
use fx5_slmp_library.Prelude.{
  ℕ, ◌≤◌, ◌<◌, ◌≡◌, ◌⊎◌, inl, inr, Bool-cases, ap, ◌∙◌, true, List, ◌++◌, some, arith, length, drop,
  ltb, if◌then◌else◌,
}
use fx5_slmp_library.Types.{err_need_more, err_resync, Header, unknown_header}
use fx5_slmp_library.Context.{Context}
use fx5_slmp_library.RingBuf.Contents.{contents}
use fx5_slmp_library.Response.Header.{try_resync}
use fx5_slmp_library.Response.Stream.{try_resync_lem, resync_spec, size-length}
use fx5_slmp_library.Api.Receive.{returns, parse_round, read_frame, parse_response}
use fx5_slmp_library.Api.Invariant.{IsWellFormed, rx-IsStream}
use fx5_slmp_library.Api.Parse.{IsHeader, parse_round_reads}
use fx5_slmp_library.Api.Parse.Arrival.{
  searched, contents-searched, parse_response-part, response_of_round,
}

-- The context with `n` bytes taken off the front of what it received.
pub record IsSkipped (c : Context) (n : ℕ) (out : Context) : Type 0 where
  pub held : contents out.rx_cbuffer ≡ drop n (contents c.rx_cbuffer)
  pub same : out ≡ record c { rx_cbuffer = out.rx_cbuffer; resync_counter = n }

pub searched-IsSkipped :
    (c : Context) (n : ℕ) (t : Header)
    → IsWellFormed c
    → resync_spec (contents c.rx_cbuffer) ≡ (n, t)
    → IsSkipped c n (searched c)
searched-IsSkipped c n t w found =
    let r =
      try_resync_lem c.rx_cbuffer 0 (rx-IsStream c w)
        (omega (arith, w.ring, w.capacity, size-length c.rx_cbuffer)) in
    let count : (try_resync c.rx_cbuffer 0).discarded ≡ n =
      omega (arith, r.counted, ap (λ (k : ℕ × Header). k.0) found) in
    record {
      held = r.held ∙ ap (λ (k : ℕ × Header). drop k.0 (contents c.rx_cbuffer)) found;
      same = λ i. record c { rx_cbuffer = (searched c).rx_cbuffer; resync_counter = count i };
    }

-- On a well-formed context in use: if the first frame start stands behind `n`, at most 64, bytes,
-- with a header that announces 2 to 297 bytes of which some have not come, the call asks for more
-- and keeps the frame; only the `n` bytes in front of it go, and are counted.
pub parse_response-partial :
    (c : Context) (t : Header) (n p : ℕ) (h body : List ℕ)
    → IsWellFormed c
    → c.in_use ≡ true
    → resync_spec (contents c.rx_cbuffer) ≡ (n, t)
    → n ≤ 64
    → drop n (contents c.rx_cbuffer) ≡ h ++ body
    → 2 ≤ p
    → p ≤ 297
    → length body < p
    → IsHeader t c h p
    → (out : Context) × (parse_response (some c) ≡ some (some out, err_need_more))
      × (contents out.rx_cbuffer ≡ h ++ body)
      × IsSkipped c n out
parse_response-partial c t n p h body w used found near frame lo hi part header = (
  searched c,
  parse_response-part c t n p h body w found near frame lo hi header used part,
  contents-searched c t n p h body w found near frame lo hi header,
  searched-IsSkipped c n t w found,
)

no_frame :
    (c : Context)
    → (searched c).resync_counter ≤ 64
    → (try_resync c.rx_cbuffer 0).header ≡ unknown_header
    → parse_round (record c { resync_counter = 0 }) ≡ returns (searched c) err_need_more
unfolding read_frame
no_frame c l e = parse_round_reads (record c { resync_counter = 0 }) unknown_header l e

far_frame :
    (c : Context)
    → 64 < (searched c).resync_counter
    → parse_round (record c { resync_counter = 0 }) ≡ returns (searched c) err_resync
unfolding parse_round
far_frame c l = ground arith

pub searched_for :
    (c : Context) (n : ℕ) (t : Header)
    → IsWellFormed c
    → resync_spec (contents c.rx_cbuffer) ≡ (n, t)
    → (try_resync c.rx_cbuffer 0).header ≡ t
searched_for c n t w found =
    let r =
      try_resync_lem c.rx_cbuffer 0 (rx-IsStream c w)
        (omega (arith, w.ring, w.capacity, size-length c.rx_cbuffer)) in
    r.found ∙ ap (λ (k : ℕ × Header). k.1) found

no_start : (n : ℕ) (t : Header) → n ≤ 64 → (64 < n) ⊎ (t ≡ unknown_header) → t ≡ unknown_header
no_start n t h (inl l) = absurd (omega arith)
no_start n t h (inr e) = e

-- On a well-formed context in use where the first frame start is more than 64 bytes off, or there is
-- none: the bytes in front of it, or all that cannot be the start of one, are dropped and counted,
-- and nothing else changes. More than 64 of them are an error, fewer ask for more.
pub parse_response-no_frame :
    (c : Context) (t : Header) (n : ℕ)
    → IsWellFormed c
    → c.in_use ≡ true
    → resync_spec (contents c.rx_cbuffer) ≡ (n, t)
    → (64 < n) ⊎ (t ≡ unknown_header)
    → (out : Context) × (parse_response (some c)
        ≡ some (some out, if ltb 64 n then err_resync else err_need_more))
      × IsSkipped c n out
parse_response-no_frame c t n w used found far =
    let k = searched-IsSkipped c n t w found in
    let count : (searched c).resync_counter ≡ n = ap (λ (o : Context). o.resync_counter) k.same in
    (
      searched c,
      elim (Bool-cases (ltb 64 n)) [
        | inl e ↦
            rw e (
              response_of_round c (searched c) err_resync used
                (far_frame c (ground (arith, count))))
        | inr e ↦ rw e (
            response_of_round c (searched c) err_need_more used (
              no_frame c (ground (arith, count))
                (searched_for c n t w found ∙ no_start n t (ground arith) far)))
      ],
      k,
    )

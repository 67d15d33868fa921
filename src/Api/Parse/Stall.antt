-- ===== src/Api/Parse/Stall.antt =====
-- Frames larger than the receive buffer, and word payloads of a wrong size, in src/fx5_response.c.
use fx5_slmp_library.Prelude.{
  ℕ, ◌+◌, ◌*◌, ◌%◌, ◌≤◌, ◌<◌, ◌^◌, ◌≡◌, ◌≢◌, refl, ap, ◌∙◌, sym, true, List, ◌++◌, some, arith,
  length, length-append, drop, ltb, ◌==◌, if◌then◌else◌, Bool-cases, inl, inr, u16,
}
use fx5_slmp_library.Prelude.Fields.{bit_and_one}
use fx5_slmp_library.Types.{err_need_more, err_invalid_count, Header}
use fx5_slmp_library.Context.{Context}
use fx5_slmp_library.RingBuf.Contents.{contents}
use fx5_slmp_library.Bytes.Stream.{IsStream}
use fx5_slmp_library.Response.Header.{get_response_header_size}
use fx5_slmp_library.Response.Payload.{parse_word_response_payload, drop_payload}
use fx5_slmp_library.Response.Stream.{resync_spec, contents-drop_front, size-length}
use fx5_slmp_library.Api.Receive.{parse_response}
use fx5_slmp_library.Api.Invariant.{IsWellFormed}
use fx5_slmp_library.Api.Parse.{IsHeader}
use fx5_slmp_library.Api.Parse.Arrival.{header_length}
use fx5_slmp_library.Api.Parse.Waiting.{parse_response-partial}

-- On a well-formed context in use with a frame at the front whose header announces at most 297
-- bytes, but with the header more than the receive buffer holds: whatever follows in the buffer, the
-- call asks for more bytes and takes none of those it has.
pub parse_response-stalls :
    (c : Context) (t : Header) (p : ℕ) (h body : List ℕ)
    → IsWellFormed c
    → c.in_use ≡ true
    → resync_spec (contents c.rx_cbuffer) ≡ (0, t)
    → contents c.rx_cbuffer ≡ h ++ body
    → p ≤ 297
    → 297 < get_response_header_size t + p
    → IsHeader t c h p
    → (out : Context) × (parse_response (some c) ≡ some (some out, err_need_more))
      × (contents out.rx_cbuffer ≡ contents c.rx_cbuffer)
parse_response-stalls c t p h body w used found frame hi large header =
    let l = header_length t c h p header in
    let size : length h + length body ≤ 297 = omega (
      arith,
      w.ring.size_le,
      w.capacity,
      size-length c.rx_cbuffer,
      ap length frame,
      length-append h body,
    ) in
    let r =
      parse_response-partial c t 0 p h body w used found (omega arith) frame (omega arith) hi
        (omega (arith, l.0)) header in
    (r.0, r.1, r.2 ∙ sym frame)

contents-drop_payload :
    (c : Context) (p : ℕ)
    → IsStream c.rx_cbuffer
    → p < 2 ^ 16
    → contents (drop_payload c p).rx_cbuffer ≡ drop p (contents c.rx_cbuffer)
unfolding drop_payload
contents-drop_payload c p s h = elim (Bool-cases (ltb 0 p)) [
  | inl e ↦ rw e (contents-drop_front c.rx_cbuffer p s h)
  | inr e ↦ let z : p ≡ 0 = ground arith in rw z refl
]

-- A word payload of another 16-bit size than a request of at most 32 words asks for is refused; one
-- of an even size is taken off the ring, and one of an odd size stays there.
pub parse_word_response_payload-refused :
    (c : Context) (p : ℕ)
    → IsStream c.rx_cbuffer
    → c.count ≤ 32
    → p ≢ c.count * 2
    → p < 2 ^ 16
    → let (out, status) = parse_word_response_payload c p in
      (status ≡ err_invalid_count)
      × (contents out.rx_cbuffer
          ≡ (if p % 2 == 1 then contents c.rx_cbuffer else drop p (contents c.rx_cbuffer)))
unfolding parse_word_response_payload
parse_word_response_payload-refused c p s few other h =
    let e : u16 (c.count * 2) ≡ c.count * 2 = omega arith in
    ground (arith, e, bit_and_one p, contents-drop_payload c p s h)

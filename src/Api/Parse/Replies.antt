-- ===== src/Api/Parse/Replies.antt =====
-- `fx5_parse_response` on a whole response frame, behind at most 64 bytes that are none of it.
use fx5_slmp_library.Prelude.{
  ℕ, ◌+◌, ◌*◌, ◌/◌, ◌≤◌, ◌<◌, ◌^◌, ◌≡◌, ◌≢◌, refl, ap, ◌∙◌, true, false, List, ◌++◌, some, arith,
  length, [], length-append, drop,
}
use fx5_slmp_library.Types.{st_ok, response_error, Header, batch_read, batch_write}
use fx5_slmp_library.Context.{Context}
use fx5_slmp_library.RingBuf.Invariant.{capacity-drop_front}
use fx5_slmp_library.RingBuf.Contents.{contents}
use fx5_slmp_library.Bytes.Array.{le16, put_list}
use fx5_slmp_library.Bytes.Stream.{IsStream, AreBytes}
use fx5_slmp_library.Packed.{bit_of}
use fx5_slmp_library.Request.Devices.{is_bit_device}
use fx5_slmp_library.Response.Payload.{
  parse_response_pdu, parse_response_payload, parse_word_response_payload,
  parse_bit_response_payload, drop_payload,
}
use fx5_slmp_library.Response.Stream.{resync_spec, drop_front-IsStream}
use fx5_slmp_library.Response.Words.{
  words_le, AreWords, length-words_le, parse_word_response_payload_lem, rdc_front,
}
use fx5_slmp_library.Response.Nibbles.{merged}
use fx5_slmp_library.Response.Bits.{parse_bit_response_payload_lem}
use fx5_slmp_library.Api.Receive.{parse_response}
use fx5_slmp_library.Api.Invariant.{IsWellFormed}
use fx5_slmp_library.Api.Parse.{IsHeader}
use fx5_slmp_library.Api.Parse.Arrival.{
  arrived, searched_count, contents-arrived, arrived-IsStream, arrived_capacity,
  parse_response-whole,
}
use fx5_slmp_library.Api.Parse.Pdu.{
  IsParsed, coded, pdu_ok, pdu_error, drop_payload_lem, with_status, same_fields, word_count_fits,
  bit_count_fits,
}

module _ (c : Context) (t : Header) (n : ℕ) (h rest : List ℕ) (w : IsWellFormed c)
    (used : c.in_use ≡ true) (found : resync_spec (contents c.rx_cbuffer) ≡ (n, t))
    (near : n ≤ 64) where
  -- The context at the end code's branch.
  abbrev start : ℕ → Context
  start code = coded (arrived c t) code

  taken_off :
      (code p : ℕ) (payload : List ℕ)
      → code < 2 ^ 16
      → p ≤ 295
      → length payload ≡ p
      → drop n (contents c.rx_cbuffer) ≡ h ++ (le16 code ++ (payload ++ rest))
      → IsHeader t c h (2 + p)
      → (contents (start code).rx_cbuffer ≡ payload ++ rest)
        × IsStream (start code).rx_cbuffer
        × ((start code).rx_cbuffer.capacity ≡ c.rx_cbuffer.capacity)
        × ((start code).resync_counter ≡ n)
        × (parse_response (some c)
            ≡ some (
              some (parse_response_pdu (arrived c t) (2 + p)).0,
              (parse_response_pdu (arrived c t) (2 + p)).1,
            ))
        × IsStream (arrived c t).rx_cbuffer
        × (contents (arrived c t).rx_cbuffer ≡ le16 code ++ (payload ++ rest))
  taken_off code p payload small hi l frame header =
      let body = le16 code ++ (payload ++ rest) in
      let s =
        arrived-IsStream c t n (2 + p) h body w found near frame (omega arith) (omega arith)
          header in
      let e =
        contents-arrived c t n (2 + p) h body w found near frame (omega arith) (omega arith)
          header in
      let k =
        arrived_capacity c t n (2 + p) h body w found near frame (omega arith) (omega arith)
          header in
      let z =
        searched_count c t n (2 + p) h body w found near frame (omega arith) (omega arith) header in
      (
        (rdc_front (arrived c t).rx_cbuffer code (payload ++ rest) s small e).2,
        drop_front-IsStream (arrived c t).rx_cbuffer 2 s (omega arith),
        capacity-drop_front (arrived c t).rx_cbuffer 2 ∙ k,
        z,
        parse_response-whole c t n (2 + p) h body w found near frame (omega arith) (omega arith)
            header used (omega (arith, length-append payload rest, l)),
        s,
        e,
      )

  words_accepted :
      (p : ℕ) (c' : Context)
      → c'.command ≡ batch_read
      → is_bit_device c'.device ≡ false
      → parse_response_payload c' p ≡ parse_word_response_payload c' p
  unfolding parse_response_payload
  words_accepted p c' e k = ground arith

  points_accepted :
      (p : ℕ) (c' : Context)
      → c'.command ≡ batch_read
      → is_bit_device c'.device ≡ true
      → parse_response_payload c' p ≡ parse_bit_response_payload c' p
  unfolding parse_response_payload
  points_accepted p c' e k = ground arith

  acknowledged :
      (c' : Context)
      → c'.command ≡ batch_write
      → parse_response_payload c' 0 ≡ (record c' { count = 0 }, st_ok)
  unfolding parse_response_payload
  acknowledged c' e = ground arith

  -- On a well-formed context in use that waits for a word read: if the first frame start stands
  -- behind `n`, at most 64, bytes, and there stand a header of that frame type, the end code 0, one
  -- word for each requested value and `rest`, the call succeeds, stores the words from slot 0 on,
  -- and leaves `rest` in the ring, the count, the end code 0 and `n` counted bytes.
  pub parse_response-words :
      (vs : List ℕ)
      → c.command ≡ batch_read
      → is_bit_device c.device ≡ false
      → c.count ≡ length vs
      → 1 ≤ c.count
      → AreWords vs
      → drop n (contents c.rx_cbuffer) ≡ h ++ (le16 0 ++ (words_le vs ++ rest))
      → IsHeader t c h (2 + length vs * 2)
      → (out : Context) × (parse_response (some c) ≡ some (some out, st_ok))
        × (out.values ≡ put_list c.values 0 vs)
        × IsParsed c n 0 (length vs) rest out
  parse_response-words vs e k m lo words frame header =
      let hi = word_count_fits c w k in
      let off =
        taken_off 0 (length vs * 2) (words_le vs) (omega arith) (omega arith) (length-words_le vs)
          frame header in
      let r = parse_word_response_payload_lem (start 0) vs rest off.1 words m lo hi off.0 in
      let out = (parse_word_response_payload (start 0) (length vs * 2)).0 in
      let ok =
        pdu_ok (arrived c t) (length vs * 2) (words_le vs ++ rest) off.5 off.6 (omega arith)
        ∙ words_accepted (length vs * 2) (start 0) e k in
      (
        out,
        off.4
            ∙ with_status (parse_response_pdu (arrived c t) (2 + length vs * 2))
                (parse_word_response_payload (start 0) (length vs * 2)) st_ok ok r.0,
        ap (λ (o : Context). o.values) r.1.same,
        record {
          held = r.1.held;
          stream = r.1.stream;
          same_capacity = r.1.same_capacity ∙ off.2;
          same =
              same_fields c out n (start 0).resync_counter 0 (length vs) c.count out.rx_cbuffer
                (put_list c.values 0 vs) off.3 m r.1.same;
        },
      )

  -- On a well-formed context in use that waits for a read of a bit device: if the first frame start
  -- stands behind `n`, at most 64, bytes, and there stand a header of that frame type, the end code 0,
  -- one nibble for each requested point, two to a byte, and `rest`, the call succeeds; the point `j`
  -- is then on exactly when its nibble is 1, the bits beyond the count stay, and `rest` is left in the
  -- ring, with the count, the end code 0 and `n` counted bytes.
  pub parse_response-points :
      (ps : List ℕ)
      → c.command ≡ batch_read
      → is_bit_device c.device ≡ true
      → length ps ≡ (c.count + 1) / 2
      → 1 ≤ c.count
      → AreBytes ps
      → drop n (contents c.rx_cbuffer) ≡ h ++ (le16 0 ++ (ps ++ rest))
      → IsHeader t c h (2 + length ps)
      → (out : Context) × (parse_response (some c) ≡ some (some out, st_ok))
        × ((j : ℕ) → bit_of out.values j ≡ merged ps 0 c.count c.values j)
        × IsParsed c n 0 c.count rest out
  parse_response-points ps e k m lo bytes frame header =
      let hi = bit_count_fits c w k in
      let off = taken_off 0 (length ps) ps (omega arith) (omega arith) refl frame header in
      let r =
        parse_bit_response_payload_lem (start 0) ps rest off.1 bytes m lo hi w.storage.values_length
          off.0 in
      let out = (parse_bit_response_payload (start 0) (length ps)).0 in
      let ok =
        pdu_ok (arrived c t) (length ps) (ps ++ rest) off.5 off.6 (omega arith)
        ∙ points_accepted (length ps) (start 0) e k in
      (
        out,
        off.4
            ∙ with_status (parse_response_pdu (arrived c t) (2 + length ps))
                (parse_bit_response_payload (start 0) (length ps)) st_ok ok r.0,
        r.1.points,
        record {
          held = r.1.held;
          stream = r.1.stream;
          same_capacity = r.1.same_capacity ∙ off.2;
          same =
              same_fields c out n (start 0).resync_counter 0 c.count c.count out.rx_cbuffer
                out.values off.3 refl r.1.same;
        },
      )

  -- On a well-formed context in use that waits for the answer to a write: if the first frame start
  -- stands behind `n`, at most 64, bytes, and there stand a header of that frame type, the end code 0
  -- and `rest`, the call succeeds, changes no value, and leaves `rest` in the ring, a count of 0, the
  -- end code 0 and `n` counted bytes.
  pub parse_response-acknowledged :
      c.command ≡ batch_write
      → drop n (contents c.rx_cbuffer) ≡ h ++ (le16 0 ++ rest)
      → IsHeader t c h 2
      → (out : Context) × (parse_response (some c) ≡ some (some out, st_ok))
        × (out.values ≡ c.values)
        × IsParsed c n 0 0 rest out
  parse_response-acknowledged e frame header =
      let off = taken_off 0 0 [] (omega arith) (omega arith) refl frame header in
      let out = record (start 0) { count = 0 } in
      let ok = pdu_ok (arrived c t) 0 rest off.5 off.6 (omega arith) ∙ acknowledged (start 0) e in
      (
        out,
        off.4 ∙ with_status (parse_response_pdu (arrived c t) 2) (out, st_ok) st_ok ok refl,
        refl,
        record {
          held = off.0;
          stream = off.1;
          same_capacity = off.2;
          same =
              same_fields c out n (start 0).resync_counter 0 0 0 out.rx_cbuffer c.values off.3 refl
                refl;
        },
      )

  -- On a well-formed context in use, whatever was requested: if the first frame start stands behind
  -- `n`, at most 64, bytes, and there stand a header of that frame type, an end code that is not 0, a
  -- payload of at most 295 bytes and `rest`, the call reports the failure, changes no value, and
  -- leaves `rest` in the ring, a count of 0, the end code and `n` counted bytes.
  pub parse_response-failed :
      (code : ℕ) (payload : List ℕ)
      → code < 2 ^ 16
      → code ≢ 0
      → length payload ≤ 295
      → drop n (contents c.rx_cbuffer) ≡ h ++ (le16 code ++ (payload ++ rest))
      → IsHeader t c h (2 + length payload)
      → (out : Context) × (parse_response (some c) ≡ some (some out, response_error))
        × (out.values ≡ c.values)
        × IsParsed c n code 0 rest out
  parse_response-failed code payload small ne hi frame header =
      let off = taken_off code (length payload) payload small hi refl frame header in
      let out = record (drop_payload (start code) (length payload)) { count = 0 } in
      let ok =
        pdu_error (arrived c t) code (length payload) (payload ++ rest) off.5 small ne off.6
          (omega arith) in
      let d = drop_payload_lem (start code) payload rest off.1 off.0 (omega arith) in
      (
        out,
        off.4
            ∙ with_status (parse_response_pdu (arrived c t) (2 + length payload))
                (out, response_error) response_error ok refl,
        ap (λ (o : Context). o.values) d.3,
        record {
          held = d.0;
          stream = d.1;
          same_capacity = d.2 ∙ off.2;
          same =
              same_fields c out n (start code).resync_counter code 0 0 out.rx_cbuffer c.values off.3
                refl (ap (λ (o : Context). record o { count = 0 }) d.3);
        },
      )

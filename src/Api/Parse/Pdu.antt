-- ===== src/Api/Parse/Pdu.antt =====
-- `fx5_parse_response_pdu` up to the payload, and what each parser of a payload leaves.
use fx5_slmp_library.Prelude.{
  ℕ, ◌+◌, ◌≤◌, ◌<◌, ◌^◌, ◌≡◌, ◌≢◌, refl, ap, ◌∙◌, sym, true, false, List, ◌++◌, some, arith, length,
  u16, ◌-◌, suc, [], ◌∷◌, Option, drop, drop-append, ltb,
}
use fx5_slmp_library.Types.{Status, response_error}
use fx5_slmp_library.Context.{Context}
use fx5_slmp_library.RingBuf.{Ring, drop_front}
use fx5_slmp_library.RingBuf.Invariant.{capacity-drop_front}
use fx5_slmp_library.RingBuf.Contents.{contents}
use fx5_slmp_library.Bytes.Array.{le16}
use fx5_slmp_library.Bytes.Stream.{IsStream}
use fx5_slmp_library.Request.Devices.{is_bit_device, get_max_value_count}
use fx5_slmp_library.Response.Payload.{parse_response_pdu, parse_response_payload, drop_payload}
use fx5_slmp_library.Response.Stream.{drop_front-IsStream, contents-drop_front}
use fx5_slmp_library.Response.Words.{rdc_front}
use fx5_slmp_library.Api.Invariant.{IsWellFormed}

-- What a call that has taken off a frame leaves: `count` values, and the bytes behind the frame.
pub record IsParsed (c : Context) (n code count : ℕ) (rest : List ℕ) (out : Context) : Type 0 where
  pub held : contents out.rx_cbuffer ≡ rest
  pub stream : IsStream out.rx_cbuffer
  pub same_capacity : out.rx_cbuffer.capacity ≡ c.rx_cbuffer.capacity
  pub same : out ≡ record c {
    rx_cbuffer = out.rx_cbuffer;
    resync_counter = n;
    response_code = code;
    count = count;
    values = out.values;
  }

-- The end code taken off the ring.
abbrev pub coded : Context → ℕ → Context
coded c code = record c { rx_cbuffer = (drop_front c.rx_cbuffer 2).0; response_code = code }

pub pdu_ok :
    (c : Context) (p : ℕ) (rest : List ℕ)
    → IsStream c.rx_cbuffer
    → contents c.rx_cbuffer ≡ le16 0 ++ rest
    → p ≤ 297
    → parse_response_pdu c (2 + p) ≡ parse_response_payload (coded c 0) p
unfolding parse_response_pdu
pdu_ok c p rest s e hi =
    let f = rdc_front c.rx_cbuffer 0 rest s (omega arith) e in
    let z : u16 (2 + p - 2) ≡ p = omega arith in rw (f.0, f.1, z) (ground arith)

pub pdu_error :
    (c : Context) (code p : ℕ) (rest : List ℕ)
    → IsStream c.rx_cbuffer
    → code < 2 ^ 16
    → code ≢ 0
    → contents c.rx_cbuffer ≡ le16 code ++ rest
    → p ≤ 297
    → parse_response_pdu c (2 + p)
      ≡ (record (drop_payload (coded c code) p) { count = 0 }, response_error)
unfolding parse_response_pdu
pdu_error c code p rest s h ne e hi =
    let f = rdc_front c.rx_cbuffer code rest s h e in
    let z : u16 (2 + p - 2) ≡ p = omega arith in rw (f.0, f.1, z) (ground arith)

-- Dropping the payload that the ring starts with.
pub drop_payload_lem :
    (c : Context) (payload rest : List ℕ)
    → IsStream c.rx_cbuffer
    → contents c.rx_cbuffer ≡ payload ++ rest
    → length payload < 2 ^ 16
    → let out = drop_payload c (length payload) in
      (contents out.rx_cbuffer ≡ rest)
      × IsStream out.rx_cbuffer
      × (out.rx_cbuffer.capacity ≡ c.rx_cbuffer.capacity)
      × (out ≡ record c { rx_cbuffer = out.rx_cbuffer })
unfolding drop_payload
drop_payload_lem c [] rest s e l = (e, s, refl, refl)
drop_payload_lem c (x ∷ xs) rest s e l =
    let some_bytes : ltb 0 (suc (length xs)) ≡ true = ground arith in
    rw some_bytes (
      contents-drop_front c.rx_cbuffer (suc (length xs)) s l
          ∙ ap (drop (suc (length xs))) e
          ∙ drop-append (suc (length xs)) (x ∷ xs) rest refl,
      drop_front-IsStream c.rx_cbuffer (suc (length xs)) s l,
      capacity-drop_front c.rx_cbuffer (suc (length xs)),
      refl,
    )

pub with_status :
    (r : Context × Status) (out : Context × Status) (status : Status)
    → r ≡ out
    → out.1 ≡ status
    → ◌≡◌ {A = Option (Option Context × Status)} (some (some r.0, r.1)) (some (some out.0, status))
with_status r out status e k =
    ap (λ (x : Context × Status). some (some x.0, x.1)) e
    ∙ ap (λ (s : Status). some (some out.0, s)) k

pub same_fields :
    (c out : Context) (n n' code count count' : ℕ) (rb : Ring) (values : List ℕ)
    → n' ≡ n
    → count' ≡ count
    → out ≡ record c {
      rx_cbuffer = rb;
      resync_counter = n';
      response_code = code;
      count = count';
      values = values;
    }
    → out ≡ record c {
      rx_cbuffer = out.rx_cbuffer;
      resync_counter = n;
      response_code = code;
      count = count;
      values = out.values;
    }
same_fields c out n n' code count count' rb values z k e = e ∙ (λ i. record c {
  rx_cbuffer = (sym e i).rx_cbuffer;
  resync_counter = z i;
  response_code = code;
  count = k i;
  values = (sym e i).values;
})

pub word_count_fits : (c : Context) → IsWellFormed c → is_bit_device c.device ≡ false → c.count ≤ 32
unfolding get_max_value_count
word_count_fits c w k = ground (arith, w.count_fits)

pub bit_count_fits : (c : Context) → IsWellFormed c → is_bit_device c.device ≡ true → c.count ≤ 512
unfolding get_max_value_count
bit_count_fits c w k = ground (arith, w.count_fits)

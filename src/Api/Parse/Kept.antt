-- ===== src/Api/Parse/Kept.antt =====
-- What every step of `fx5_parse_response` keeps of a context.
use fx5_slmp_library.Prelude.{
  ℕ, zero, suc, ◌+◌, ◌/◌, ◌≤◌, ◌<◌, ◌^◌, ◌≡◌, refl, ap, ◌∙◌, sym, subst, true, List, arith, length,
  length-set, u16, ltb, ◌==◌, set, u8, bit_and,
}
use fx5_slmp_library.Context.{Context}
use fx5_slmp_library.RingBuf.{Ring, drop_front}
use fx5_slmp_library.RingBuf.Invariant.{capacity-drop_front}
use fx5_slmp_library.Bytes.{rdc_u16_le, peek_or_0}
use fx5_slmp_library.Bytes.Stream.{IsStream, rdc_u16_le_lem}
use fx5_slmp_library.Packed.{length-store_bit}
use fx5_slmp_library.Response.Payload.{
  drop_payload, read_words, Unpack, put_nibble, unpack_byte, unpack_loop,
}
use fx5_slmp_library.Response.Stream.{drop_front-IsStream}
use fx5_slmp_library.Api.Invariant.{IsWellFormed}

-- The ring stays a stream of the same capacity, no value slot appears or goes, the count does not
-- grow, and the settings of the context stay.
pub record IsKept (c out : Context) : Type 0 where
  pub stream : IsStream out.rx_cbuffer
  pub same_capacity : out.rx_cbuffer.capacity ≡ c.rx_cbuffer.capacity
  pub same_length : length out.values ≡ length c.values
  pub count_le : out.count ≤ c.count
  pub same : out ≡ record c {
    rx_cbuffer = out.rx_cbuffer;
    resync_counter = out.resync_counter;
    response_code = out.response_code;
    count = out.count;
    values = out.values;
  }

pub IsKept-refl : (c : Context) → IsStream c.rx_cbuffer → IsKept c c
IsKept-refl c s = record {
  stream = s;
  same_capacity = refl;
  same_length = refl;
  count_le = omega arith;
  same = refl;
}

pub IsKept-trans : (a b c : Context) → IsKept a b → IsKept b c → IsKept a c
IsKept-trans a b c h k = record {
  stream = k.stream;
  same_capacity = k.same_capacity ∙ h.same_capacity;
  same_length = k.same_length ∙ h.same_length;
  count_le = omega (arith, h.count_le, k.count_le);
  same =
      k.same
      ∙ ap
          (λ (o : Context). record o {
            rx_cbuffer = c.rx_cbuffer;
            resync_counter = c.resync_counter;
            response_code = c.response_code;
            count = c.count;
            values = c.values;
          })
          h.same;
}

-- A context is well-formed after what keeps it.
pub IsKept-IsWellFormed : (c out : Context) → IsKept c out → IsWellFormed c → IsWellFormed out
IsKept-IsWellFormed c out k w =
    let kept : IsWellFormed (record c {
      rx_cbuffer = out.rx_cbuffer;
      resync_counter = out.resync_counter;
      response_code = out.response_code;
      count = out.count;
      values = out.values;
    }) =
      record {
        storage = record {
          values_length = k.same_length ∙ w.storage.values_length;
          buffer_length = omega (arith, k.stream.valid.storage, k.same_capacity, w.capacity);
        };
        ring = k.stream.valid;
        capacity = k.same_capacity ∙ w.capacity;
        bytes = k.stream.bytes;
        count_fits = omega (arith, k.count_le, w.count_fits);
        address_fits = w.address_fits;
        device_known = w.device_known;
        command_known = w.command_known;
        header_known = w.header_known;
        serial_fits = w.serial_fits;
        next_serial_fits = w.next_serial_fits;
      } in
    subst IsWellFormed (sym k.same) kept

-- Bytes taken off, and the fields that a parse sets.
pub dropped-IsKept :
    (c : Context) (n code count counter : ℕ) (values : List ℕ)
    → IsStream c.rx_cbuffer
    → n < 2 ^ 16
    → count ≤ c.count
    → length values ≡ length c.values
    → IsKept c (record c {
      rx_cbuffer = (drop_front c.rx_cbuffer n).0;
      resync_counter = counter;
      response_code = code;
      count = count;
      values = values;
    })
dropped-IsKept c n code count counter values s h k l = record {
  stream = drop_front-IsStream c.rx_cbuffer n s h;
  same_capacity = capacity-drop_front c.rx_cbuffer n;
  same_length = l;
  count_le = k;
  same = refl;
}

pub drop_payload-IsKept :
    (c : Context) (n : ℕ) → IsStream c.rx_cbuffer → n < 2 ^ 16 → IsKept c (drop_payload c n)
unfolding drop_payload
drop_payload-IsKept c zero s h = IsKept-refl c s
drop_payload-IsKept c (suc n) s h =
    let e : ltb 0 (suc n) ≡ true = ground arith in
    rw e (
      dropped-IsKept c (suc n) c.response_code c.count c.resync_counter c.values s h (omega arith)
        refl)

pub read_words-IsKept :
    (left k : ℕ) (c : Context) → IsStream c.rx_cbuffer → IsKept c (read_words left k c)
unfolding read_words
read_words-IsKept zero k c s = IsKept-refl c s
read_words-IsKept (suc left) k c s =
    let values = set c.values k (rdc_u16_le c.rx_cbuffer).1 in
    let one =
      dropped-IsKept c 2 c.response_code c.count c.resync_counter values s (omega arith)
        (omega arith) (length-set c.values k (rdc_u16_le c.rx_cbuffer).1) in
    let next = record c { rx_cbuffer = (drop_front c.rx_cbuffer 2).0; values = values } in
    rw ((rdc_u16_le_lem c.rx_cbuffer s).1) (
      IsKept-trans c next (read_words left (u16 (k + 1)) next) one
        (read_words-IsKept left (u16 (k + 1)) next one.stream))

-- The ring and the values of an unpacking, put back into the context.
abbrev put_back : Context → Unpack → Context
put_back c u = record c { rx_cbuffer = u.ring; values = u.values }

put_nibble_keeps :
    (bit_count nibble : ℕ) (u : Unpack)
    → ((put_nibble bit_count nibble u).ring ≡ u.ring)
      × (length (put_nibble bit_count nibble u).values ≡ length u.values)
unfolding put_nibble
put_nibble_keeps bit_count nibble u =
    ground (arith, length-store_bit u.values u.bit_index (nibble == 1))

unpack_byte_keeps :
    (bit_count : ℕ) (u : Unpack)
    → ((unpack_byte bit_count u).ring ≡ (drop_front u.ring 1).0)
      × (length (unpack_byte bit_count u).values ≡ length u.values)
unfolding unpack_byte
unpack_byte_keeps bit_count u =
    let start = record u { ring = (drop_front u.ring 1).0 } in
    let b = peek_or_0 u.ring 0 in
    let hi = put_nibble_keeps bit_count (u8 (bit_and (b / 2 ^ 4) 0x0f)) start in
    let lo =
      put_nibble_keeps bit_count (u8 (bit_and b 0x0f))
        (put_nibble bit_count (u8 (bit_and (b / 2 ^ 4) 0x0f)) start) in
    (lo.0 ∙ hi.0, lo.1 ∙ hi.1)

pub unpack_loop_keeps :
    (left bit_count : ℕ) (u : Unpack)
    → IsStream u.ring
    → let out = unpack_loop left bit_count u in
      IsStream out.ring
      × (out.ring.capacity ≡ u.ring.capacity)
      × (length out.values ≡ length u.values)
unfolding unpack_loop
unpack_loop_keeps zero bit_count u s = (s, refl, refl)
unpack_loop_keeps (suc left) bit_count u s =
    let one = unpack_byte_keeps bit_count u in
    let s' : IsStream (unpack_byte bit_count u).ring =
      rw one.0 (drop_front-IsStream u.ring 1 s (omega arith)) in
    let more = unpack_loop_keeps left bit_count (unpack_byte bit_count u) s' in
    (
      more.0,
      more.1 ∙ ap (λ (r : Ring). r.capacity) one.0 ∙ capacity-drop_front u.ring 1,
      more.2 ∙ one.1,
    )

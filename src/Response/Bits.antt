-- ===== src/Response/Bits.antt =====
-- The payload of a bit read: two points to a byte.
use fx5_slmp_library.Prelude.{
  ℕ, suc, ◌+◌, ◌-◌, ◌*◌, ◌/◌, ◌≤◌, ◌≡◌, refl, ap, ◌∙◌, List, [], ◌∷◌, ◌++◌, arith, u16, length, min,
}
use fx5_slmp_library.Types.{st_ok}
use fx5_slmp_library.Context.{Context}
use fx5_slmp_library.RingBuf.{Ring}
use fx5_slmp_library.RingBuf.Contents.{contents}
use fx5_slmp_library.Packed.{bit_of}
use fx5_slmp_library.Bytes.Stream.{IsStream, AreBytes}
use fx5_slmp_library.Response.Payload.{
  Unpack, unpack_byte, unpack_loop, unpack_bitunit_bytes, parse_bit_response_payload, drop_payload,
}
use fx5_slmp_library.Response.Nibbles.{
  pick, merged, IsUnpacked, unpack_byte_lem, nibble_at-first, nibble_at-later,
}

unpack_loop_step :
    (left bit_count : ℕ) (u : Unpack)
    → unpack_loop (suc left) bit_count u ≡ unpack_loop left bit_count (unpack_byte bit_count u)
unfolding unpack_loop
unpack_loop_step left bit_count u = refl

-- The points of a byte and then those of the bytes behind it.
pick-cons :
    (p : ℕ) (ps : List ℕ) (start next bit_count old j : ℕ)
    → start + length ps * 2 + 1 ≤ bit_count
    → next ≡ min bit_count (start + 2)
    → pick ps next bit_count (pick (p ∷ []) start bit_count old j) j
      ≡ pick (p ∷ ps) start bit_count old j
pick-cons p ps start next bit_count old j h e = ground (
  arith,
  nibble_at-first p ps (j - start),
  nibble_at-first p [] (j - start),
  nibble_at-later p ps (j - start),
)

-- The loop over the bytes `ps`, each of which starts below `bit_count`.
pub unpack_loop_lem :
    (ps : List ℕ) (u : Unpack) (bit_count : ℕ) (rest : List ℕ)
    → IsStream u.ring
    → AreBytes ps
    → bit_count ≤ length u.values * 16
    → bit_count ≤ 512
    → u.bit_index ≤ bit_count
    → u.bit_index + length ps * 2 ≤ bit_count + 1
    → contents u.ring ≡ ps ++ rest
    → IsUnpacked u bit_count ps rest (unpack_loop (length ps) bit_count u)
unfolding unpack_loop
unpack_loop_lem [] u bit_count rest s b h k i l e = record {
  held = e;
  stream = s;
  same_capacity = refl;
  same_length = refl;
  points = λ j. ground arith;
  moved = omega arith;
}
unpack_loop_lem (p ∷ ps) u bit_count rest s b h k i l e =
    let one = unpack_byte_lem u bit_count p (ps ++ rest) s b.0 h k (omega arith) e in
    let more =
      unpack_loop_lem ps (unpack_byte bit_count u) bit_count rest one.stream b.1
        (rw one.same_length h) k (omega (arith, one.moved)) (omega (arith, one.moved)) one.held in
    record {
      held = more.held;
      stream = more.stream;
      same_capacity = more.same_capacity ∙ one.same_capacity;
      same_length = more.same_length ∙ one.same_length;
      points = λ j.
          more.points j
          ∙ ap (λ (o : ℕ). pick ps (unpack_byte bit_count u).bit_index bit_count o j) (one.points j)
          ∙ pick-cons p ps u.bit_index (unpack_byte bit_count u).bit_index bit_count
              (bit_of u.values j) j (omega arith) (one.moved ∙ omega arith);
      moved = omega (arith, more.moved, one.moved);
    }

unpack_bitunit_bytes_eq :
    (r : Ring) (values : List ℕ) (n m : ℕ)
    → n ≤ 512
    → m ≡ (n + 1) / 2
    → unpack_bitunit_bytes r m values n ≡ (
        let out = unpack_loop m n (record { ring = r; values = values; bit_index = 0 }) in
        record { ring = out.ring; values = out.values; bit_count = n; remaining_bytes = 0 })
unfolding unpack_bitunit_bytes
unpack_bitunit_bytes_eq r values n m h e =
    let e' : u16 ((n + 1) / 2) ≡ m = omega arith in ground (arith, e')

-- What reading the payload `ps` of a bit read does to a context.
pub record IsBitRead (c : Context) (ps rest : List ℕ) (out : Context) : Type 0 where
  pub held : contents out.rx_cbuffer ≡ rest
  pub stream : IsStream out.rx_cbuffer
  pub same_capacity : out.rx_cbuffer.capacity ≡ c.rx_cbuffer.capacity
  pub same_length : length out.values ≡ length c.values
  pub points : (j : ℕ) → bit_of out.values j ≡ merged ps 0 c.count c.values j
  pub same : out ≡ record c { rx_cbuffer = out.rx_cbuffer; values = out.values }

abbrev unpacked_context : Context → ℕ → Context
unpacked_context c m =
    let out =
      unpack_loop m c.count (record { ring = c.rx_cbuffer; values = c.values; bit_index = 0 }) in
    record c { rx_cbuffer = out.ring; values = out.values }

bit_payload_accepted :
    (c : Context) (m : ℕ)
    → m ≡ (c.count + 1) / 2
    → 1 ≤ c.count
    → c.count ≤ 512
    → parse_bit_response_payload c m ≡ (unpacked_context c m, st_ok)
unfolding parse_bit_response_payload drop_payload
bit_payload_accepted c m e lo hi =
    ground (arith, unpack_bitunit_bytes_eq c.rx_cbuffer c.values c.count m)

-- A payload of exactly the requested points.
pub parse_bit_response_payload_lem :
    (c : Context) (ps rest : List ℕ)
    → IsStream c.rx_cbuffer
    → AreBytes ps
    → length ps ≡ (c.count + 1) / 2
    → 1 ≤ c.count
    → c.count ≤ 512
    → length c.values ≡ 32
    → contents c.rx_cbuffer ≡ ps ++ rest
    → let (out, status) = parse_bit_response_payload c (length ps) in
      (status ≡ st_ok) × IsBitRead c ps rest out
parse_bit_response_payload_lem c ps rest s b n lo hi z e =
    let r =
      unpack_loop_lem ps (record { ring = c.rx_cbuffer; values = c.values; bit_index = 0 }) c.count
        rest s b (omega arith) hi (omega arith) (omega arith) e in
    rw (bit_payload_accepted c (length ps) n lo hi) (
      refl,
      record {
        held = r.held;
        stream = r.stream;
        same_capacity = r.same_capacity;
        same_length = r.same_length;
        points = r.points;
        same = refl;
      },
    )

-- ===== src/Response/Nibbles.antt =====
-- One byte of the payload of a bit read: its two nibbles, and the points that they give.
use fx5_slmp_library.Prelude.{
  ℕ, zero, suc, ◌+◌, ◌-◌, ◌*◌, ◌/◌, ◌%◌, ◌≤◌, ◌<◌, ◌^◌, ◌≡◌, refl, ap, ◌∙◌, ◌&&◌, List, [], ◌∷◌,
  arith, u8, bit_and, ltb, leb, ◌==◌, if◌then◌else◌, length, drop, get_or, min,
}
use fx5_slmp_library.Prelude.Fields.{bit_and_0f}
use fx5_slmp_library.RingBuf.{Ring, drop_front}
use fx5_slmp_library.RingBuf.Invariant.{capacity-drop_front}
use fx5_slmp_library.RingBuf.Contents.{contents}
use fx5_slmp_library.Packed.{bit_of, bit_of-store_bit, length-store_bit}
use fx5_slmp_library.Bytes.{peek_or_0}
use fx5_slmp_library.Bytes.Stream.{IsStream, peek_or_0_lem}
use fx5_slmp_library.Response.Payload.{Unpack, put_nibble, unpack_byte}
use fx5_slmp_library.Response.Stream.{drop_front-IsStream, contents-drop_front}

-- The nibble `j` of a payload, the high half of a byte first.
abbrev pub nibble_at : List ℕ → ℕ → ℕ
nibble_at [] j = 0
nibble_at (p ∷ ps) zero = p / 16 % 16
nibble_at (p ∷ ps) (suc zero) = p % 16
nibble_at (p ∷ ps) (suc (suc j)) = nibble_at ps j

-- A point is on exactly when its nibble is 1.
abbrev pub point_at : List ℕ → ℕ → ℕ
point_at ps j = if nibble_at ps j == 1 then 1 else 0

put_nibble_lem :
    (bit_count nibble : ℕ) (u : Unpack) (j : ℕ)
    → bit_count ≤ length u.values * 16
    → bit_count ≤ 512
    → bit_of (put_nibble bit_count nibble u).values j ≡ (
        if (j == u.bit_index) && ltb j bit_count
        then (if nibble == 1 then 1 else 0)
        else bit_of u.values j)
unfolding put_nibble
put_nibble_lem bit_count nibble u j h k =
    ground (arith, bit_of-store_bit u.values u.bit_index j (nibble == 1))

put_nibble_rest :
    (bit_count nibble : ℕ) (u : Unpack)
    → bit_count ≤ 512
    → ((put_nibble bit_count nibble u).ring ≡ u.ring)
      × (length (put_nibble bit_count nibble u).values ≡ length u.values)
      × ((put_nibble bit_count nibble u).bit_index
          ≡ (if ltb u.bit_index bit_count then u.bit_index + 1 else u.bit_index))
unfolding put_nibble
put_nibble_rest bit_count nibble u k =
    ground (arith, length-store_bit u.values u.bit_index (nibble == 1))

-- The point `j` of a payload that starts at the point `start`, or `old` outside `start .. bit_count`.
abbrev pub pick : List ℕ → ℕ → ℕ → ℕ → ℕ → ℕ
pick ps start bit_count old j =
    if leb start j && ltb j (min bit_count (start + length ps * 2))
    then point_at ps (j - start)
    else old

abbrev pub merged : List ℕ → ℕ → ℕ → List ℕ → ℕ → ℕ
merged ps start bit_count values j = pick ps start bit_count (bit_of values j) j

-- What unpacking the bytes `ps` from the bit `u.bit_index` on must come to.
pub record IsUnpacked (u : Unpack) (bit_count : ℕ) (ps rest : List ℕ) (out : Unpack) : Type 0 where
  pub held : contents out.ring ≡ rest
  pub stream : IsStream out.ring
  pub same_capacity : out.ring.capacity ≡ u.ring.capacity
  pub same_length : length out.values ≡ length u.values
  pub points : (j : ℕ) → bit_of out.values j ≡ merged ps u.bit_index bit_count u.values j
  pub moved : out.bit_index ≡ min bit_count (u.bit_index + length ps * 2)

pub nibble_at-first :
    (p : ℕ) (ps : List ℕ) (i : ℕ)
    → i < 2
    → nibble_at (p ∷ ps) i ≡ (if i == 0 then p / 16 % 16 else p % 16)
nibble_at-first p ps zero h = refl
nibble_at-first p ps (suc zero) h = refl
nibble_at-first p ps (suc (suc i)) h = absurd (omega arith)

pub nibble_at-later :
    (p : ℕ) (ps : List ℕ) (i : ℕ) → 2 ≤ i → nibble_at (p ∷ ps) i ≡ nibble_at ps (i - 2)
nibble_at-later p ps zero h = absurd (omega arith)
nibble_at-later p ps (suc zero) h = absurd (omega arith)
nibble_at-later p ps (suc (suc i)) h = ap (nibble_at ps) (omega arith)

abbrev skipped : Unpack → Unpack
skipped u = record u { ring = (drop_front u.ring 1).0 }

unpack_byte_eq :
    (u : Unpack) (bit_count p : ℕ) (rest : List ℕ)
    → IsStream u.ring
    → p < 256
    → contents u.ring ≡ p ∷ rest
    → unpack_byte bit_count u
      ≡ put_nibble bit_count (p % 16) (put_nibble bit_count (p / 16 % 16) (skipped u))
unfolding unpack_byte
unpack_byte_eq u bit_count p rest s b e =
    let b0 : peek_or_0 u.ring 0 ≡ p = peek_or_0_lem u.ring 0 s ∙ ap (λ q. get_or q 0 0) e in
    let hi : u8 (bit_and (p / 2 ^ 4) 0x0f) ≡ p / 16 % 16 = omega (arith, bit_and_0f (p / 2 ^ 4)) in
    let lo : u8 (bit_and p 0x0f) ≡ p % 16 = omega (arith, bit_and_0f p) in rw (b0, hi, lo) refl

module _ (u : Unpack) (bit_count p : ℕ) (k : bit_count ≤ length u.values * 16) (l : bit_count ≤ 512)
    (open_ : u.bit_index < bit_count) where
  abbrev once : Unpack
  once = put_nibble bit_count (p / 16 % 16) (skipped u)

  two_points :
      (j : ℕ)
      → bit_of (put_nibble bit_count (p % 16) once).values j
        ≡ merged (p ∷ []) u.bit_index bit_count u.values j
  two_points j = ground (
    arith,
    put_nibble_lem bit_count (p % 16) once j,
    put_nibble_lem bit_count (p / 16 % 16) (skipped u) j,
    put_nibble_rest bit_count (p / 16 % 16) (skipped u) l,
    nibble_at-first p [] (j - u.bit_index),
  )

-- A byte with its two points.
pub unpack_byte_lem :
    (u : Unpack) (bit_count p : ℕ) (rest : List ℕ)
    → IsStream u.ring
    → p < 256
    → bit_count ≤ length u.values * 16
    → bit_count ≤ 512
    → u.bit_index < bit_count
    → contents u.ring ≡ p ∷ rest
    → IsUnpacked u bit_count (p ∷ []) rest (unpack_byte bit_count u)
unpack_byte_lem u bit_count p rest s b h k l e =
    rw (unpack_byte_eq u bit_count p rest s b e) (record {
      held = ap contents ring ∙ contents-drop_front u.ring 1 s (omega arith) ∙ ap (drop 1) e;
      stream = rw ring (drop_front-IsStream u.ring 1 s (omega arith));
      same_capacity = ap (λ (r : Ring). r.capacity) ring ∙ capacity-drop_front u.ring 1;
      same_length = second.1 ∙ first.1;
      points = two_points u bit_count p h k l;
      moved = ground (arith, first.2, second.2);
    })
  where
    first :
        ((once u bit_count p h k l).ring ≡ (skipped u).ring)
        × (length (once u bit_count p h k l).values ≡ length u.values)
        × ((once u bit_count p h k l).bit_index
            ≡ (if ltb u.bit_index bit_count then u.bit_index + 1 else u.bit_index))
    first = put_nibble_rest bit_count (p / 16 % 16) (skipped u) k

    second :
        ((put_nibble bit_count (p % 16) (once u bit_count p h k l)).ring
          ≡ (once u bit_count p h k l).ring)
        × (length (put_nibble bit_count (p % 16) (once u bit_count p h k l)).values
            ≡ length (once u bit_count p h k l).values)
        × ((put_nibble bit_count (p % 16) (once u bit_count p h k l)).bit_index ≡ (
            if ltb (once u bit_count p h k l).bit_index bit_count
            then (once u bit_count p h k l).bit_index + 1
            else (once u bit_count p h k l).bit_index))
    second = put_nibble_rest bit_count (p % 16) (once u bit_count p h k l) k

    ring : (put_nibble bit_count (p % 16) (once u bit_count p h k l)).ring ≡ (drop_front u.ring 1).0
    ring = second.0 ∙ first.0

-- ===== src/Request/Frame/Loops.antt =====
-- The loops that write the payload of a request: bits as nibbles, and words.
use fx5_slmp_library.Prelude.{
  ℕ, zero, suc, ◌+◌, ◌*◌, ◌/◌, ◌%◌, ◌^◌, ◌≤◌, ◌<◌, ◌≡◌, refl, ap, Bool, false, List, [], ◌∷◌, arith,
  u16, ◌==◌, if◌then◌else◌, bit_or, length, get_or,
}
use fx5_slmp_library.Prelude.Bits.{test_bit-lt}
use fx5_slmp_library.Packed.{get_packed_bit_value_lem, bit_of}
use fx5_slmp_library.Request.Builders.{Cursor, emit_u8, emit_u16, pack_loop, word_loop}
use fx5_slmp_library.Request.Encoding.{
  nibble_bytes, word_bytes, Emits, Emits-then, Emits-eq, Emits-nothing, emit_u8_lem, emit_u16_lem,
}

pub bit_of-lt : (values : List ℕ) (k : ℕ) → bit_of values k < 2
unfolding bit_of
bit_of-lt values k = test_bit-lt (get_or values (k / 16) 0) (k % 16)

-- The byte of a pair of bits.
abbrev pair_byte : Bool → Bool → ℕ
pair_byte hi lo = bit_or (if hi then 0x10 else 0x00) (if lo then 0x01 else 0x00)

pair_byte_lem : (a b : ℕ) → a < 2 → b < 2 → pair_byte (a == 1) (b == 1) % 256 ≡ a * 16 + b
pair_byte_lem zero zero h k = refl
pair_byte_lem zero (suc zero) h k = refl
pair_byte_lem (suc zero) zero h k = refl
pair_byte_lem (suc zero) (suc zero) h k = refl
pair_byte_lem (suc (suc a)) b h k = absurd (omega arith)
pair_byte_lem zero (suc (suc b)) h k = absurd (omega arith)
pair_byte_lem (suc zero) (suc (suc b)) h k = absurd (omega arith)

module _ (values : List ℕ) (count : ℕ) (small : count < 2 ^ 15) where
  pack_loop_end : (fuel : ℕ) (cur : Cursor) → pack_loop fuel values count count cur ≡ cur
  unfolding pack_loop
  pack_loop_end zero cur = refl
  pack_loop_end (suc fuel) cur = ground arith

  pack_loop_one :
      (fuel k : ℕ) (cur : Cursor)
      → k + 1 ≡ count
      → pack_loop (suc fuel) values count k cur
        ≡ pack_loop fuel values count (k + 1) (emit_u8 (pair_byte (bit_of values k == 1) false) cur)
  unfolding pack_loop
  pack_loop_one fuel k cur h = ground (arith, get_packed_bit_value_lem values k)

  pack_loop_two :
      (fuel k : ℕ) (cur : Cursor)
      → k + 1 < count
      → pack_loop (suc fuel) values count k cur
        ≡ pack_loop fuel values count
            (k + 2)
            (emit_u8 (pair_byte (bit_of values k == 1) (bit_of values (k + 1) == 1)) cur)
  unfolding pack_loop
  pack_loop_two fuel k cur h =
      ground (arith, get_packed_bit_value_lem values k, get_packed_bit_value_lem values (k + 1))

  module _ (buf : List ℕ) (base : ℕ) where
    emit_pair :
        (a b : ℕ)
        → a < 2
        → b < 2
        → Emits buf base (emit_u8 (pair_byte (a == 1) (b == 1))) ((a * 16 + b) ∷ [])
    emit_pair a b h k =
        Emits-eq buf base (λ c. refl) (ap (λ x. x ∷ []) (pair_byte_lem a b h k))
          (emit_u8_lem buf base (pair_byte (a == 1) (b == 1)))

    -- With as much fuel as there are bits left, the loop writes them all.
    pub pack_loop_lem :
        (fuel k n : ℕ)
        → k + n ≡ count
        → n ≤ fuel
        → Emits buf base (pack_loop fuel values count k) (nibble_bytes values k n)
    pack_loop_lem fuel k zero e h =
        let e' : k ≡ count = omega arith in
        Emits-eq buf base (λ cur. rw e' (pack_loop_end fuel cur)) refl (Emits-nothing buf base)
    pack_loop_lem zero k (suc n) e h = absurd (omega arith)
    pack_loop_lem (suc fuel) k (suc zero) e h =
        Emits-eq buf base (λ cur. pack_loop_one fuel k cur (omega arith))
          (ap (λ x. x ∷ []) (omega arith))
          (Emits-then buf base (emit_pair (bit_of values k) 0 (bit_of-lt values k) (omega arith))
            (pack_loop_lem fuel (k + 1) zero (omega arith) (omega arith)))
    pack_loop_lem (suc fuel) k (suc (suc n)) e h =
        Emits-eq buf base (λ cur. pack_loop_two fuel k cur (omega arith)) refl
          (Emits-then buf base
            (emit_pair (bit_of values k) (bit_of values (k + 1)) (bit_of-lt values k)
              (bit_of-lt values (k + 1)))
            (pack_loop_lem fuel (k + 2) n (omega arith) (omega arith)))

module _ (buf : List ℕ) (base : ℕ) (values : List ℕ) where
  pub word_loop_lem :
      (left k : ℕ)
      → k + left < 2 ^ 16
      → Emits buf base (word_loop left values k) (word_bytes values k left)
  unfolding word_loop
  word_loop_lem zero k h = Emits-nothing buf base
  word_loop_lem (suc left) k h =
      let e : u16 (k + 1) ≡ k + 1 = omega arith in
      Emits-eq buf base
        (λ cur. ap (λ j. word_loop left values j (emit_u16 (get_or values k 0) cur)) e) refl
        (Emits-then buf base (emit_u16_lem buf base (get_or values k 0))
          (word_loop_lem left (k + 1) (omega arith)))

pub length-nibble_bytes :
    (values : List ℕ) (k n : ℕ) → length (nibble_bytes values k n) ≡ (n + 1) / 2
length-nibble_bytes values k zero = omega arith
length-nibble_bytes values k (suc zero) = omega arith
length-nibble_bytes values k (suc (suc n)) = omega (arith, length-nibble_bytes values (k + 2) n)

pub length-word_bytes : (values : List ℕ) (k n : ℕ) → length (word_bytes values k n) ≡ n * 2
length-word_bytes values k zero = omega arith
length-word_bytes values k (suc n) = omega (arith, length-word_bytes values (k + 1) n)

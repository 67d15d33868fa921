-- ===== src/Packed.antt =====
-- Bit values, sixteen to a slot of `values`: `fx5_get_packed_bit_value` of src/fx5_request.c and the
-- update that `fx5_set_write_value` (src/fx5_core.c) and `fx5_unpack_bitunit_bytes`
-- (src/fx5_response.c) make. A slot out of the array reads as 0 and is not written.
use fx5_slmp_library.Prelude.{
  ℕ, ◌-◌, ◌/◌, ◌%◌, ◌^◌, ◌<◌, bit_and, bit_or, ◌≡◌, refl, Bool, true, false, not, List, arith, ◌==◌,
  if◌then◌else◌, u16, length, get_or, set, get_or-set_self, get_or-set_ne, length-set, Bool-cases,
  inl, inr,
}
use fx5_slmp_library.Prelude.Bits.{
  test_bit, test_bit-lt, test_bit-pow, test_bit-complement, test_bit-bit_and, test_bit-bit_or,
  bit_and-pow_zero, pow_lt,
}
use fx5_slmp_library.Prelude.Fields.{test_bit-u16}

unfoldable pub slot_of : ℕ → ℕ
slot_of index = u16 (index / 16)

-- `1u << (index % 16u)`
unfoldable pub mask_of : ℕ → ℕ
mask_of index = u16 (2 ^ (index % 16))

-- `(uint16_t)~mask`
abbrev pub not_u16 : ℕ → ℕ
not_u16 m = 2 ^ 16 - 1 - m

unfoldable pub get_packed_bit_value : List ℕ → ℕ → Bool
unfolding slot_of mask_of
get_packed_bit_value values index =
    not (bit_and (get_or values (slot_of index) 0) (mask_of index) == 0)

-- `values[slot] |= mask` or `values[slot] &= ~mask`.
unfoldable pub store_bit : List ℕ → ℕ → Bool → List ℕ
unfolding slot_of mask_of
store_bit values index on =
    let old = get_or values (slot_of index) 0 in
    set values (slot_of index)
      (if on then u16 (bit_or old (mask_of index)) else u16 (bit_and old (not_u16 (mask_of index))))

-- The bit `index` of the array, as a digit.
unfoldable pub bit_of : List ℕ → ℕ → ℕ
bit_of values index = test_bit (get_or values (index / 16) 0) (index % 16)

mask_of_lem : (i : ℕ) → mask_of i ≡ 2 ^ (i % 16)
unfolding mask_of
mask_of_lem i = omega (arith, pow_lt (i % 16) (omega arith))

-- For an index of 16 bits, the masked test of a slot is the bit of the array at that index.
pub get_packed_bit_value_lem :
    (values : List ℕ) (i : ℕ) → i < 2 ^ 16 → get_packed_bit_value values i ≡ (bit_of values i == 1)
unfolding get_packed_bit_value bit_of
get_packed_bit_value_lem values i h =
    let slot : slot_of i ≡ i / 16 = unfold slot_of in omega arith in
    rw (slot, mask_of_lem i)
      (ground (
        arith,
        bit_and-pow_zero (get_or values (i / 16) 0) (i % 16),
        test_bit-lt (get_or values (i / 16) 0) (i % 16),
      ))

-- The bits of a slot after an update of its bit `k`.
updated_slot : ℕ → ℕ → Bool → ℕ
updated_slot old k on = if on then u16 (bit_or old (2 ^ k)) else u16 (bit_and old (not_u16 (2 ^ k)))

test_bit-updated_slot :
    (old k m : ℕ) (on : Bool)
    → k < 16
    → m < 16
    → test_bit (updated_slot old k on) m
      ≡ (if m == k then (if on then 1 else 0) else test_bit old m)
unfolding updated_slot
test_bit-updated_slot old k m true h l = ground (
  arith,
  test_bit-u16 (bit_or old (2 ^ k)) m,
  test_bit-bit_or old (2 ^ k) m,
  test_bit-pow k m,
  test_bit-lt old m,
)
test_bit-updated_slot old k m false h l = ground (
  arith,
  test_bit-u16 (bit_and old (not_u16 (2 ^ k))) m,
  test_bit-bit_and old (not_u16 (2 ^ k)) m,
  test_bit-complement 16 (2 ^ k) m (pow_lt k h),
  test_bit-pow k m,
  test_bit-lt old m,
)

store_bit_lem :
    (values : List ℕ) (i : ℕ) (on : Bool)
    → i < 2 ^ 16
    → store_bit values i on
      ≡ set values (i / 16) (updated_slot (get_or values (i / 16) 0) (i % 16) on)
unfolding store_bit updated_slot
store_bit_lem values i on h =
    let slot : slot_of i ≡ i / 16 = unfold slot_of in omega arith in rw (slot, mask_of_lem i) refl

-- For an index of 16 bits whose slot is in the array, the update changes its own bit and no other.
pub bit_of-store_bit :
    (values : List ℕ) (i j : ℕ) (on : Bool)
    → i < 2 ^ 16
    → i / 16 < length values
    → bit_of (store_bit values i on) j ≡ (if j == i then (if on then 1 else 0) else bit_of values j)
unfolding bit_of
bit_of-store_bit values i j on h l = elim (Bool-cases (j / 16 == i / 16)) [
  | inl same ↦ ground (
    arith,
    store_bit_lem values i on,
    get_or-set_self values (i / 16) (updated_slot (get_or values (i / 16) 0) (i % 16) on) 0,
    test_bit-updated_slot (get_or values (i / 16) 0) (i % 16) (j % 16) on,
  )
  | inr other ↦ ground (
    arith,
    store_bit_lem values i on,
    get_or-set_ne values (i / 16) (j / 16) (updated_slot (get_or values (i / 16) 0) (i % 16) on) 0,
  )
]

pub length-store_bit :
    (values : List ℕ) (i : ℕ) (on : Bool) → length (store_bit values i on) ≡ length values
unfolding store_bit
length-store_bit values i on = length-set values _ _

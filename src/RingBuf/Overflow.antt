-- ===== src/RingBuf/Overflow.antt =====
-- Rings of more than 2 ^ 15 bytes: `fx5_ringbuf_offset_index` adds two positions in 16 bits.
use fx5_slmp_library.Prelude.{
  ℕ, ◌-◌, ◌+◌, ◌≤◌, ◌<◌, ◌^◌, ◌≡◌, ◌≢◌, some, arith, get_or, get_elem?, get_elem?-eq-get_or,
}
use fx5_slmp_library.RingBuf.{Ring, peek}
use fx5_slmp_library.RingBuf.Invariant.{IsValid}
use fx5_slmp_library.RingBuf.Contents.{contents, length-contents, get_or-window}

-- For a valid ring and an index below its size: where the read position and the offset add up to 2 ^ 16 or more, `fx5_ringbuf_peek` reads the
-- byte at `tail + i - 2 ^ 16`, while the byte stored there as the `i`th is at `tail + i - capacity`,
-- another position of the storage.
pub peek_overflows :
    (r : Ring) (i : ℕ)
    → IsValid r
    → i < r.size
    → 2 ^ 16 ≤ r.tail + i
    → (peek r i ≡ some (get_or r.bytes (r.tail + i - 2 ^ 16) 0))
      × (get_elem? (contents r) i ≡ some (get_or r.bytes (r.tail + i - r.capacity) 0))
      × (r.tail + i - 2 ^ 16 ≢ r.tail + i - r.capacity)
unfolding peek
peek_overflows r i v h o = (
  ground arith,
  ground (
    arith,
    length-contents r,
    get_elem?-eq-get_or (contents r) i 0,
    get_or-window r.capacity r.bytes r.tail r.size i,
  ),
  omega arith,
)

-- ===== src/Bytes.antt =====
-- include/fx5/internal/fx5_utility.h: little-endian numbers in a byte array and in the receive ring.
-- `dst` is an array and the position that the pointer is at.
pub mod Array
pub mod Stream
use mathlib.Core.Option
use fx5_slmp_library.Prelude.{
  ℕ, ◌+◌, ◌*◌, ◌/◌, ◌^◌, bit_and, bit_or, List, u8, u16, u32, get_or, set,
}
use fx5_slmp_library.RingBuf.{Ring, peek, drop_front}

-- The byte of `v` above its `k` low bits, `(uint8_t)((v >> k) & 0xFFu)`.
abbrev pub byte_of : ℕ → ℕ → ℕ
byte_of v k = u8 (bit_and (v / 2 ^ k) 0xff)

-- These return the array; the count that C returns is the number of bytes written, 2, 3 or 4.
unfoldable pub wr_u16_le : List ℕ → ℕ → ℕ → List ℕ
wr_u16_le dst at v = set (set dst at (byte_of v 0)) (at + 1) (byte_of v 8)

unfoldable pub wr_u24_le : List ℕ → ℕ → ℕ → List ℕ
wr_u24_le dst at v =
    set (set (set dst at (byte_of v 0)) (at + 1) (byte_of v 8)) (at + 2) (byte_of v 16)

unfoldable pub wr_u32_le : List ℕ → ℕ → ℕ → List ℕ
wr_u32_le dst at v =
    set (set (set (set dst at (byte_of v 0)) (at + 1) (byte_of v 8)) (at + 2) (byte_of v 16))
      (at + 3) (byte_of v 24)

-- The byte `i` of the ring, or the 0 that the variable starts with.
unfoldable pub peek_or_0 : Ring → ℕ → ℕ
peek_or_0 rb i = Option.get_or (peek rb i) 0

unfoldable pub peekc_u16_le : Ring → ℕ → ℕ
unfolding peek_or_0
peekc_u16_le rb offset =
    u16 (bit_or (peek_or_0 rb (u16 offset)) (peek_or_0 rb (u16 (offset + 1)) * 2 ^ 8))

unfoldable pub peekc_u32_le : Ring → ℕ → ℕ
unfolding peek_or_0
peekc_u32_le rb offset =
    let b0 = peek_or_0 rb (u16 offset) in
    let b1 = peek_or_0 rb (u16 (offset + 1)) in
    let b2 = peek_or_0 rb (u16 (offset + 2)) in
    let b3 = peek_or_0 rb (u16 (offset + 3)) in
    u32 (bit_or (bit_or (bit_or b0 (b1 * 2 ^ 8)) (b2 * 2 ^ 16)) (b3 * 2 ^ 24))

unfoldable pub rdc_u16_le : Ring → Ring × ℕ
unfolding peek_or_0
rdc_u16_le rb = ((drop_front rb 2).0, u16 (bit_or (peek_or_0 rb 0) (peek_or_0 rb 1 * 2 ^ 8)))

unfoldable pub rdc_u24_le : Ring → Ring × ℕ
unfolding peek_or_0
rdc_u24_le rb =
    let low = bit_or (peek_or_0 rb 0) (peek_or_0 rb 1 * 2 ^ 8) in
    ((drop_front rb 3).0, u32 (bit_or low (peek_or_0 rb 2 * 2 ^ 16)))

unfoldable pub rd_u16_le : List ℕ → ℕ → ℕ
rd_u16_le src at = u16 (bit_or (get_or src at 0) (get_or src (at + 1) 0 * 2 ^ 8))

unfoldable pub rd_u24_le : List ℕ → ℕ → ℕ
rd_u24_le src at =
    let low = bit_or (get_or src at 0) (get_or src (at + 1) 0 * 2 ^ 8) in
    u32 (bit_or low (get_or src (at + 2) 0 * 2 ^ 16))

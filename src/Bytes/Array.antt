-- ===== src/Bytes/Array.antt =====
-- Writing a run of bytes into an array, and reading little-endian numbers back.
use fx5_slmp_library.Prelude.{
  ℕ, suc, ◌+◌, ◌*◌, ◌/◌, ◌%◌, ◌^◌, ◌≤◌, ◌<◌, bit_or, ◌≡◌, refl, ap, ◌∙◌, List, [], ◌∷◌, ◌++◌, u16,
  u32, get_or, set, length, drop, arith, get_or-set_self, get_or-set_ne, length-set,
}
use fx5_slmp_library.Prelude.Fields.{bit_and_ff, bit_or-field}
use fx5_slmp_library.Bytes.{byte_of, wr_u16_le, wr_u24_le, rd_u16_le, rd_u24_le}

-- The specification of a number's bytes, lowest first.
abbrev pub le16 : ℕ → List ℕ
le16 v = (v % 256) ∷ (v / 256 % 256) ∷ []

abbrev pub le24 : ℕ → List ℕ
le24 v = (v % 256) ∷ (v / 256 % 256) ∷ (v / 65536 % 256) ∷ []

byte_of-0 : (v : ℕ) → byte_of v 0 ≡ v % 256
byte_of-0 v = omega (arith, bit_and_ff (v / 2 ^ 0))

byte_of-8 : (v : ℕ) → byte_of v 8 ≡ v / 256 % 256
byte_of-8 v = omega (arith, bit_and_ff (v / 2 ^ 8))

byte_of-16 : (v : ℕ) → byte_of v 16 ≡ v / 65536 % 256
byte_of-16 v = omega (arith, bit_and_ff (v / 2 ^ 16))

-- Two and three bytes put together again.
pub join_two : (a b : ℕ) → a < 256 → b < 256 → u16 (bit_or a (b * 2 ^ 8)) ≡ a + b * 256
join_two a b h k = omega (arith, bit_or-field 8 b a h)

pub join_three :
    (a b c : ℕ)
    → a < 256
    → b < 256
    → c < 256
    → u32 (bit_or (bit_or a (b * 2 ^ 8)) (c * 2 ^ 16)) ≡ a + b * 256 + c * 65536
join_three a b c h k l =
    rw (bit_or-field 8 b a h) (omega (arith, bit_or-field 16 c (a + b * 256) (omega arith)))

-- Writing the bytes `xs` from the position `at` on.
abbrev pub put_list : List ℕ → ℕ → List ℕ → List ℕ
put_list buf at [] = buf
put_list buf at (x ∷ xs) = put_list (set buf at x) (at + 1) xs

pub put_list-append :
    (buf : List ℕ) (at : ℕ) (xs ys : List ℕ)
    → put_list buf at (xs ++ ys) ≡ put_list (put_list buf at xs) (at + length xs) ys
put_list-append buf at [] ys = ap (λ p. put_list buf p ys) (omega arith)
put_list-append buf at (x ∷ xs) ys =
    put_list-append (set buf at x) (at + 1) xs ys
    ∙ ap (λ p. put_list (put_list (set buf at x) (at + 1) xs) p ys) (omega arith)

put_list-cons :
    (b : ℕ) (buf : List ℕ) (at : ℕ) (xs : List ℕ)
    → put_list (b ∷ buf) (suc at) xs ≡ b ∷ put_list buf at xs
put_list-cons b buf at [] = refl
put_list-cons b buf at (x ∷ xs) =
    let e : suc at + 1 ≡ suc (at + 1) = omega arith in
    rw e (put_list-cons b (set buf at x) (at + 1) xs)

-- A run that fits replaces the start of the array.
pub put_list_start :
    (buf xs : List ℕ) → length xs ≤ length buf → put_list buf 0 xs ≡ xs ++ drop (length xs) buf
put_list_start buf [] h = refl
put_list_start [] (x ∷ xs) h = absurd (omega arith)
put_list_start (b ∷ buf) (x ∷ xs) h =
    put_list-cons x buf 0 xs ∙ ap (λ r. x ∷ r) (put_list_start buf xs (omega arith))

pub wr_u16_le_lem : (dst : List ℕ) (at v : ℕ) → wr_u16_le dst at v ≡ put_list dst at (le16 v)
unfolding wr_u16_le
wr_u16_le_lem dst at v = rw (byte_of-0 v, byte_of-8 v) refl

pub wr_u24_le_lem : (dst : List ℕ) (at v : ℕ) → wr_u24_le dst at v ≡ put_list dst at (le24 v)
unfolding wr_u24_le
wr_u24_le_lem dst at v =
    rw (byte_of-0 v, byte_of-8 v, byte_of-16 v)
      (ap (λ p. set (set (set dst at (v % 256)) (at + 1) (v / 256 % 256)) p (v / 65536 % 256))
        (omega arith))

-- The entries of a short run.
get_or-set_two :
    (dst : List ℕ) (at a b : ℕ)
    → at + 1 < length dst
    → (get_or (set (set dst at a) (at + 1) b) at 0 ≡ a)
      × (get_or (set (set dst at a) (at + 1) b) (at + 1) 0 ≡ b)
get_or-set_two dst at a b h = (
  get_or-set_ne (set dst at a) (at + 1) at b 0 (omega arith)
      ∙ get_or-set_self dst at a 0 (omega arith),
  get_or-set_self (set dst at a) (at + 1) b 0 (omega (arith, length-set {0} dst at a)),
)

-- A 16-bit number written inside an array is read back as written.
pub rd_u16_le-wr_u16_le :
    (dst : List ℕ) (at v : ℕ)
    → at + 1 < length dst
    → v < 2 ^ 16
    → rd_u16_le (wr_u16_le dst at v) at ≡ v
unfolding rd_u16_le
rd_u16_le-wr_u16_le dst at v h k =
    let e = get_or-set_two dst at (v % 256) (v / 256 % 256) h in
    rw (wr_u16_le_lem dst at v, e.0, e.1)
      (omega (arith, join_two (v % 256) (v / 256 % 256) (omega arith) (omega arith)))

-- A 24-bit number, such as a device address, written inside an array is read back as written.
pub rd_u24_le-wr_u24_le :
    (dst : List ℕ) (at v : ℕ)
    → at + 2 < length dst
    → v < 2 ^ 24
    → rd_u24_le (wr_u24_le dst at v) at ≡ v
unfolding rd_u24_le wr_u24_le
rd_u24_le-wr_u24_le dst at v h k =
    let low = set (set dst at (byte_of v 0)) (at + 1) (byte_of v 8) in
    let len : length low ≡ length dst =
      length-set (set dst at (byte_of v 0)) (at + 1) (byte_of v 8)
      ∙ length-set dst at (byte_of v 0) in
    let e = get_or-set_two dst at (byte_of v 0) (byte_of v 8) (omega arith) in
    let first : get_or (set low (at + 2) (byte_of v 16)) at 0 ≡ v % 256 =
      get_or-set_ne low (at + 2) at (byte_of v 16) 0 (omega arith) ∙ e.0 ∙ byte_of-0 v in
    let second : get_or (set low (at + 2) (byte_of v 16)) (at + 1) 0 ≡ v / 256 % 256 =
      get_or-set_ne low (at + 2) (at + 1) (byte_of v 16) 0 (omega arith) ∙ e.1 ∙ byte_of-8 v in
    let third : get_or (set low (at + 2) (byte_of v 16)) (at + 2) 0 ≡ v / 65536 % 256 =
      get_or-set_self low (at + 2) (byte_of v 16) 0 (rw len (omega arith)) ∙ byte_of-16 v in
    rw (first, second, third)
      (omega (
        arith,
        join_three (v % 256) (v / 256 % 256) (v / 65536 % 256) (omega arith) (omega arith)
            (omega arith),
      ))

-- ===== src/Bytes/Stream.antt =====
-- Numbers read from the ring, as functions of the bytes that it holds.
use mathlib.Core.Option
use fx5_slmp_library.Prelude.{
  ℕ, zero, suc, ◌+◌, ◌*◌, ◌≤◌, ◌<◌, ◌^◌, ◌≡◌, refl, List, [], ◌∷◌, ◌++◌, arith, u16, get_or,
  get_elem?, drop,
}
use fx5_slmp_library.RingBuf.{Ring, drop_front}
use fx5_slmp_library.RingBuf.Invariant.{IsValid}
use fx5_slmp_library.RingBuf.Contents.{contents}
use fx5_slmp_library.RingBuf.Refine.{peek_lem}
use fx5_slmp_library.Bytes.{peek_or_0, peekc_u16_le, rdc_u16_le}
use fx5_slmp_library.Bytes.Array.{join_two}

abbrev pub AreBytes : List ℕ → Type 0
AreBytes [] = Unit
AreBytes (x ∷ xs) = (x < 256) × AreBytes xs

pub AreBytes-get_or : (xs : List ℕ) (i : ℕ) → AreBytes xs → get_or xs i 0 < 256
AreBytes-get_or [] i h = omega arith
AreBytes-get_or (x ∷ xs) zero h = h.0
AreBytes-get_or (x ∷ xs) (suc i) h = AreBytes-get_or xs i h.1

pub AreBytes-append : (xs ys : List ℕ) → AreBytes xs → AreBytes ys → AreBytes (xs ++ ys)
AreBytes-append [] ys h k = k
AreBytes-append (x ∷ xs) ys h k = (h.0, AreBytes-append xs ys h.1 k)

pub AreBytes-drop : (n : ℕ) (xs : List ℕ) → AreBytes xs → AreBytes (drop n xs)
AreBytes-drop zero xs h = h
AreBytes-drop (suc n) [] h = tt
AreBytes-drop (suc n) (x ∷ xs) h = AreBytes-drop n xs h.1

-- The number in the two bytes from `i` on; bytes that are not there count as 0.
abbrev pub le16_at : List ℕ → ℕ → ℕ
le16_at q i = get_or q i 0 + get_or q (i + 1) 0 * 256

-- What a ring must be for reads of it to be reads of its contents.
pub record IsStream (r : Ring) : Type 0 where
  pub valid : IsValid r
  pub small : r.capacity ≤ 2 ^ 15
  pub bytes : AreBytes (contents r)

get_or-get_elem? : (q : List ℕ) (i : ℕ) → Option.get_or (get_elem? q i) 0 ≡ get_or q i 0
get_or-get_elem? [] i = refl
get_or-get_elem? (x ∷ q) zero = refl
get_or-get_elem? (x ∷ q) (suc i) = get_or-get_elem? q i

pub peek_or_0_lem : (r : Ring) (i : ℕ) → IsStream r → peek_or_0 r i ≡ get_or (contents r) i 0
unfolding peek_or_0
peek_or_0_lem r i s = rw (peek_lem r i s.valid s.small) (get_or-get_elem? (contents r) i)

pub peekc_u16_le_lem :
    (r : Ring) (offset : ℕ)
    → IsStream r
    → offset < 2 ^ 15
    → peekc_u16_le r offset ≡ le16_at (contents r) offset
unfolding peekc_u16_le
peekc_u16_le_lem r offset s h =
    let e : u16 offset ≡ offset = omega arith in
    let e' : u16 (offset + 1) ≡ offset + 1 = omega arith in
    rw (e, e', peek_or_0_lem r offset s, peek_or_0_lem r (offset + 1) s)
      (join_two _ _ (AreBytes-get_or (contents r) offset s.bytes)
        (AreBytes-get_or (contents r) (offset + 1) s.bytes))

pub rdc_u16_le_lem :
    (r : Ring)
    → IsStream r
    → ((rdc_u16_le r).1 ≡ le16_at (contents r) 0) × ((rdc_u16_le r).0 ≡ (drop_front r 2).0)
unfolding rdc_u16_le
rdc_u16_le_lem r s = (
  rw (peek_or_0_lem r 0 s, peek_or_0_lem r 1 s)
      (join_two _ _ (AreBytes-get_or (contents r) 0 s.bytes)
        (AreBytes-get_or (contents r) 1 s.bytes)),
  refl,
)

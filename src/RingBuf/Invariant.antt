-- ===== src/RingBuf/Invariant.antt =====
-- The representation invariant of `fx5_ringbuf_t` under the operations of src/fx5_ringbuf.c.
use fx5_slmp_library.Prelude.{
  ℕ, zero, suc, ◌+◌, ◌≤◌, ◌<◌, ◌^◌, ◌≡◌, refl, ◌⊎◌, true, List, [], ◌∷◌, some, arith, length,
  length-set, u16,
}
use fx5_slmp_library.RingBuf.{
  Ring, init, push_back, skip_one, pop_front, push_bytes_from, push_bytes, drop_front_from,
  drop_front,
}

-- The storage holds `capacity` bytes, both positions lie in it, and the write position is `size`
-- bytes after the read position, going round at the end.
pub record IsValid (r : Ring) : Type 0 where
  pub storage : r.capacity ≤ length r.bytes
  pub small : r.capacity < 2 ^ 16
  pub head_in : r.head < r.capacity
  pub tail_in : r.tail < r.capacity
  pub size_le : r.size ≤ r.capacity
  pub meets : (r.head ≡ r.tail + r.size) ⊎ (r.head + r.capacity ≡ r.tail + r.size)

pub push_back-IsValid : (r : Ring) (x : ℕ) → IsValid r → IsValid (push_back r x).0
unfolding push_back
push_back-IsValid r x v = ground (arith, length-set r.bytes r.head x)

pub skip_one-IsValid : (r : Ring) → IsValid r → 0 < r.size → IsValid (skip_one r)
unfolding skip_one
skip_one-IsValid r v h = ground arith

pub drop_front_from-IsValid :
    (left : ℕ) (r : Ring) (dropped : ℕ) → IsValid r → IsValid (drop_front_from left r dropped).0
unfolding drop_front_from
drop_front_from-IsValid zero r d v = v
drop_front_from-IsValid (suc left) r d v =
    ground (arith, skip_one-IsValid r v, drop_front_from-IsValid left (skip_one r) (u16 (d + 1)))

-- An initialised ring is valid if the storage holds `capacity` bytes.
pub init-IsValid :
    (rb : Ring) (bytes : List ℕ) (capacity : ℕ) (r : Ring)
    → capacity ≤ length bytes
    → capacity < 2 ^ 16
    → init (some rb) (some bytes) capacity ≡ (some r, true)
    → IsValid r
unfolding init
init-IsValid rb bytes capacity r h k e = ground arith

pub pop_front-IsValid : (r : Ring) → IsValid r → IsValid (pop_front r).0
unfolding pop_front
pop_front-IsValid r v = ground arith

pub push_bytes_from-IsValid :
    (xs : List ℕ) (r : Ring) (written : ℕ) → IsValid r → IsValid (push_bytes_from r xs written).0
unfolding push_bytes_from
push_bytes_from-IsValid [] r w v = v
push_bytes_from-IsValid (x ∷ xs) r w v =
    ground
      (arith, push_back-IsValid r x v, push_bytes_from-IsValid xs (push_back r x).0 (u16 (w + 1)))

pub drop_front-IsValid : (r : Ring) (count : ℕ) → IsValid r → IsValid (drop_front r count).0
unfolding drop_front
drop_front-IsValid r count v = drop_front_from-IsValid count r 0 v

pub push_bytes-IsValid : (r : Ring) (xs : List ℕ) → IsValid r → IsValid (push_bytes r xs).0
unfolding push_bytes
push_bytes-IsValid r xs v = push_bytes_from-IsValid xs r 0 v

-- No operation changes the capacity.
pub capacity-push_back : (r : Ring) (x : ℕ) → (push_back r x).0.capacity ≡ r.capacity
unfolding push_back
capacity-push_back r x = ground arith

pub capacity-drop_front_from :
    (left : ℕ) (r : Ring) (d : ℕ) → (drop_front_from left r d).0.capacity ≡ r.capacity
unfolding drop_front_from
capacity-drop_front_from zero r d = refl
capacity-drop_front_from (suc left) r d =
    ground (arith, capacity-drop_front_from left (skip_one r) (u16 (d + 1)))

pub capacity-drop_front : (r : Ring) (n : ℕ) → (drop_front r n).0.capacity ≡ r.capacity
unfolding drop_front
capacity-drop_front r n = capacity-drop_front_from n r 0

pub capacity-pop_front : (r : Ring) → (pop_front r).0.capacity ≡ r.capacity
unfolding pop_front
capacity-pop_front r = ground arith

capacity-push_bytes_from :
    (xs : List ℕ) (r : Ring) (w : ℕ) → (push_bytes_from r xs w).0.capacity ≡ r.capacity
unfolding push_bytes_from
capacity-push_bytes_from [] r w = refl
capacity-push_bytes_from (x ∷ xs) r w =
    ground
      (arith, capacity-push_back r x, capacity-push_bytes_from xs (push_back r x).0 (u16 (w + 1)))

pub capacity-push_bytes : (r : Ring) (xs : List ℕ) → (push_bytes r xs).0.capacity ≡ r.capacity
unfolding push_bytes
capacity-push_bytes r xs = capacity-push_bytes_from xs r 0

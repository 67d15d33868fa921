-- ===== src/RingBuf/Refine.antt =====
-- The operations of src/fx5_ringbuf.c against those of the bounded queue of the bytes held.
use fx5_slmp_library.Prelude.{
  ℕ, zero, suc, ◌+◌, ◌-◌, ◌≤◌, ◌<◌, ◌^◌, min, ◌≡◌, refl, ap, ◌∙◌, Bool, true, false, List, [], ◌∷◌,
  ◌++◌, append-nil, append_assoc, Option, none, some, arith, leb, ltb, ◌==◌, Bool-cases, inl, inr,
  if◌then◌else◌, u16, length, get_or, get_elem?, take, drop, get_elem?-eq-get_or, get_elem?-none,
  drop_one, drop_all, take-nil, take-cons,
}
use fx5_slmp_library.RingBuf.{
  Ring, push_back, skip_one, pop_front, peek, push_bytes_from, push_bytes, drop_front_from,
  drop_front,
}
use fx5_slmp_library.RingBuf.Invariant.{
  IsValid, push_back-IsValid, skip_one-IsValid, capacity-push_back,
}
use fx5_slmp_library.RingBuf.Contents.{
  contents, slot, window, window-set, get_or-window, length-contents,
}

-- The abstract queue: its bytes, oldest first.
module _ (capacity : ℕ) where
  abbrev pub queue_push : List ℕ → ℕ → List ℕ × Bool
  queue_push q x = if length q == capacity then (q, false) else (q ++ (x ∷ []), true)

abbrev pub queue_pop : List ℕ → List ℕ × Option ℕ
queue_pop [] = ([], none)
queue_pop (x ∷ q) = (q, some x)

pub push_back_refines :
    (r : Ring) (x : ℕ)
    → IsValid r
    → let (r', pushed) = push_back r x in
      (contents r', pushed) ≡ queue_push r.capacity (contents r) x
unfolding push_back
push_back_refines r x v =
    ground (arith, length-contents r, window-set r.capacity r.bytes r.tail r.size r.head x)

head-window :
    (c : ℕ) (bytes : List ℕ) (t n : ℕ)
    → 0 < n
    → window c bytes t n ≡ get_or bytes t 0 ∷ drop 1 (window c bytes t n)
head-window c bytes t zero h = absurd (omega arith)
head-window c bytes t (suc n) h = refl

window_skip :
    (c : ℕ) (bytes : List ℕ) (t n : ℕ)
    → 0 < n
    → window c bytes (slot c t 1) (n - 1) ≡ drop 1 (window c bytes t n)
window_skip c bytes t zero h = absurd (omega arith)
window_skip c bytes t (suc n) h = ap (window c bytes (slot c t 1)) (omega arith)

tail-skip_one : (r : Ring) → IsValid r → (skip_one r).tail ≡ slot r.capacity r.tail 1
unfolding skip_one
tail-skip_one r v = ground arith

size-skip_one : (r : Ring) → (skip_one r).size ≡ r.size - 1
unfolding skip_one
size-skip_one r = refl

pub contents-skip_one :
    (r : Ring) → IsValid r → 0 < r.size → contents (skip_one r) ≡ drop 1 (contents r)
unfolding skip_one
contents-skip_one r v h =
    ap (λ t. window r.capacity r.bytes t (r.size - 1)) (tail-skip_one r v)
    ∙ window_skip r.capacity r.bytes r.tail r.size h

pub pop_front_refines :
    (r : Ring)
    → IsValid r
    → let (r', out) = pop_front r in (contents r', out) ≡ queue_pop (contents r)
unfolding pop_front
pop_front_refines r v = elim (Bool-cases (r.size == 0)) [
  | inl e ↦ ground arith
  | inr ne ↦ ground (arith, contents-skip_one r v, head-window r.capacity r.bytes r.tail r.size)
]

-- Reading `i` bytes ahead is reading the queue, if no position overflows 16 bits.
pub peek_lem :
    (r : Ring) (i : ℕ) → IsValid r → r.capacity ≤ 2 ^ 15 → peek r i ≡ get_elem? (contents r) i
unfolding peek
peek_lem r i v h = elim (Bool-cases (leb r.size i)) [
  | inl out ↦ ground (arith, length-contents r, get_elem?-none (contents r) i)
  | inr within ↦ ground (
    arith,
    length-contents r,
    get_elem?-eq-get_or (contents r) i 0,
    get_or-window r.capacity r.bytes r.tail r.size i,
  )
]

-- The loop of `fx5_ringbuf_drop_front` takes off as many bytes as there are, at most `left`.
pub drop_front_from_lem :
    (left : ℕ) (r : Ring) (d : ℕ)
    → IsValid r
    → d + left < 2 ^ 16
    → let (r', dropped) = drop_front_from left r d in
      (contents r' ≡ drop left (contents r)) × (dropped ≡ d + min left r.size)
unfolding drop_front_from
drop_front_from_lem zero r d v h = (refl, omega arith)
drop_front_from_lem (suc left) r d v h = elim (Bool-cases (ltb 0 r.size)) [
  | inl more ↦ ground (
    arith,
    size-skip_one r,
    skip_one-IsValid r v,
    contents-skip_one r v,
    drop_front_from_lem left (skip_one r) (u16 (d + 1)),
    drop_one left (contents r),
  )
  | inr done ↦ ground (arith, drop_all (suc left) (contents r), length-contents r)
]

-- `fx5_ringbuf_drop_front` takes off the oldest `count` bytes, or all if there are fewer, and
-- returns how many.
pub drop_front_refines :
    (r : Ring) (count : ℕ)
    → IsValid r
    → count < 2 ^ 16
    → let (r', dropped) = drop_front r count in
      (contents r' ≡ drop count (contents r)) × (dropped ≡ min count r.size)
unfolding drop_front
drop_front_refines r count v h = ground (arith, drop_front_from_lem count r 0 v)

push_back_ok :
    (r : Ring) (x : ℕ)
    → IsValid r
    → r.size < r.capacity
    → ((push_back r x).1 ≡ true)
      × (contents (push_back r x).0 ≡ contents r ++ (x ∷ []))
      × ((push_back r x).0.size ≡ r.size + 1)
unfolding push_back
push_back_ok r x v h = ground (arith, window-set r.capacity r.bytes r.tail r.size r.head x)

push_back_full : (r : Ring) (x : ℕ) → r.size ≡ r.capacity → push_back r x ≡ (r, false)
unfolding push_back
push_back_full r x h = ground arith

-- The loop of `fx5_ringbuf_push_bytes` from `written` on.
push_bytes_from_lem :
    (xs : List ℕ) (r : Ring) (written : ℕ)
    → IsValid r
    → written + length xs < 2 ^ 16
    → let (r', n) = push_bytes_from r xs written in
      (contents r' ≡ contents r ++ take (r.capacity - r.size) xs)
      × (n ≡ written + min (length xs) (r.capacity - r.size))
unfolding push_bytes_from
push_bytes_from_lem [] r w v h = (rw (take-nil, append-nil) refl, omega arith)
push_bytes_from_lem (x ∷ xs) r w v h = elim (Bool-cases (r.size == r.capacity)) [
  | inl full ↦ ground (arith, push_back_full r x, append-nil (contents r))
  | inr room ↦ ground (
    arith,
    push_back_ok r x v,
    push_back-IsValid r x v,
    capacity-push_back r x,
    push_bytes_from_lem xs (push_back r x).0 (u16 (w + 1)),
    append_assoc (contents r) (x ∷ []) (take (r.capacity - r.size - 1) xs),
    take-cons (r.capacity - r.size) x xs,
  )
]

-- `fx5_ringbuf_push_bytes` appends the longest prefix that fits, and returns its length.
pub push_bytes_refines :
    (r : Ring) (xs : List ℕ)
    → IsValid r
    → length xs < 2 ^ 16
    → let (r', n) = push_bytes r xs in
      (contents r' ≡ contents r ++ take (r.capacity - r.size) xs)
      × (n ≡ min (length xs) (r.capacity - r.size))
unfolding push_bytes
push_bytes_refines r xs v h = ground (arith, push_bytes_from_lem xs r 0 v)

-- ===== src/RingBuf.antt =====
-- src/fx5_ringbuf.c and include/fx5/fx5_ringbuf.h: the byte ring over external storage.
-- A function that writes `*rb` returns the new ring beside its result. The NULL checks of
-- `fx5_ringbuf_init` and `fx5_ringbuf_clear` are the `none` of an `Option`. A read out of the
-- storage, which C leaves undefined, gives 0, and a write there changes nothing: the invariant of
-- `RingBuf.Invariant` rules both out.
pub mod Invariant
pub mod Contents
pub mod Refine
pub mod Run
pub mod Overflow
use fx5_slmp_library.Prelude.{
  ℕ, zero, suc, ◌+◌, ◌-◌, Bool, true, false, ◌&&◌, List, [], ◌∷◌, Option, none, some, u16, ltb, leb,
  ◌==◌, if◌then◌else◌, get_or, set,
}

pub record Ring : Type 0 where
  pub bytes : List ℕ
  pub capacity : ℕ
  pub head : ℕ
  pub tail : ℕ
  pub size : ℕ

unfoldable pub advance_index : ℕ → ℕ → ℕ
advance_index index capacity = let next = u16 (index + 1) in if leb capacity next then 0 else next

-- `pos - capacity` is made only at `capacity ≤ pos`.
unfoldable pub offset_index : ℕ → ℕ → ℕ → ℕ
offset_index base offset capacity =
    let pos = u16 (base + offset) in if leb capacity pos then u16 (pos - capacity) else pos

-- The ring afterwards, and the result. `none` is a NULL pointer.
unfoldable pub init : Option Ring → Option (List ℕ) → ℕ → Option Ring × Bool
init none storage capacity = (none, false)
init (some rb) none capacity = (some rb, false)
init (some rb) (some storage) capacity = if capacity == 0 then (some rb, false) else (
  some (record { bytes = storage; capacity = capacity; head = 0; tail = 0; size = 0 }),
  true,
)

unfoldable pub clear : Option Ring → Option Ring
clear none = none
clear (some rb) = some (record rb { head = 0; tail = 0; size = 0 })

unfoldable pub is_empty : Ring → Bool
is_empty rb = rb.size == 0

unfoldable pub is_full : Ring → Bool
is_full rb = rb.size == rb.capacity

unfoldable pub push_back : Ring → ℕ → Ring × Bool
unfolding advance_index
push_back rb value = if rb.size == rb.capacity then (rb, false) else (
  record rb {
    bytes = set rb.bytes rb.head value;
    head = advance_index rb.head rb.capacity;
    size = u16 (rb.size + 1);
  },
  true,
)

-- The read position goes one on: the step that `pop_front` and `drop_front` share.
-- `size--` runs only at a size above 0.
unfoldable pub skip_one : Ring → Ring
unfolding advance_index
skip_one rb = record rb { tail = advance_index rb.tail rb.capacity; size = rb.size - 1 }

-- What is written through `out_value` is the `some`.
unfoldable pub pop_front : Ring → Ring × Option ℕ
unfolding skip_one
pop_front rb = if rb.size == 0 then (rb, none) else (skip_one rb, some (get_or rb.bytes rb.tail 0))

unfoldable pub peek : Ring → ℕ → Option ℕ
unfolding offset_index
peek rb index =
    if leb rb.size index
    then none
    else some (get_or rb.bytes (offset_index rb.tail index rb.capacity) 0)

-- `data[written .. length)` is the list; the result is the new `written`.
unfoldable pub push_bytes_from : Ring → List ℕ → ℕ → Ring × ℕ
unfolding push_back
push_bytes_from rb [] written = (rb, written)
push_bytes_from rb (x ∷ xs) written =
    let (rb', pushed) = push_back rb x in
    let rest = push_bytes_from rb' xs (u16 (written + 1)) in if pushed then rest else (rb', written)

unfoldable pub push_bytes : Ring → List ℕ → Ring × ℕ
unfolding push_bytes_from
push_bytes rb xs = push_bytes_from rb xs 0

-- `left` rounds are to go: `count - dropped`.
unfoldable pub drop_front_from : ℕ → Ring → ℕ → Ring × ℕ
unfolding skip_one
drop_front_from zero rb dropped = (rb, dropped)
drop_front_from (suc left) rb dropped =
    let rest = drop_front_from left (skip_one rb) (u16 (dropped + 1)) in
    if ltb 0 rb.size then rest else (rb, dropped)

unfoldable pub drop_front : Ring → ℕ → Ring × ℕ
unfolding drop_front_from
drop_front rb count = drop_front_from count rb 0

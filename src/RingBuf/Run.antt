-- ===== src/RingBuf/Run.antt =====
-- A client's calls of the ring in any order, against the same calls of the bounded queue.
use fx5_slmp_library.Prelude.{
  ℕ, ◌-◌, ◌≤◌, ◌<◌, ◌^◌, min, ◌≡◌, refl, Bool, List, [], ◌∷◌, ◌++◌, Option, arith, ◌==◌, length,
  get_elem?, take, drop,
}
use fx5_slmp_library.RingBuf.{
  Ring, push_back, pop_front, peek, push_bytes, drop_front, is_empty, is_full,
}
use fx5_slmp_library.RingBuf.Invariant.{
  IsValid, push_back-IsValid, pop_front-IsValid, push_bytes-IsValid, drop_front-IsValid,
  capacity-push_back, capacity-pop_front, capacity-push_bytes, capacity-drop_front,
}
use fx5_slmp_library.RingBuf.Contents.{contents, length-contents}
use fx5_slmp_library.RingBuf.Refine.{
  queue_push, queue_pop, push_back_refines, pop_front_refines, peek_lem, push_bytes_refines,
  drop_front_refines,
}

pub data Call : Type 0 where
  push : ℕ → Call
  pop : Call
  look : ℕ → Call
  write : List ℕ → Call
  discard : ℕ → Call
  ask_empty ask_full : Call

pub data Reply : Type 0 where
  done : Bool → Reply
  got : Option ℕ → Reply
  moved : ℕ → Reply

-- One call of fx5_ringbuf.c.
pub call : Ring → Call → Ring × Reply
call r (push x) = let (r', b) = push_back r x in (r', done b)
call r pop = let (r', o) = pop_front r in (r', got o)
call r (look i) = (r, got (peek r i))
call r (write xs) = let (r', n) = push_bytes r xs in (r', moved n)
call r (discard n) = let (r', k) = drop_front r n in (r', moved k)
call r ask_empty = (r, done (is_empty r))
call r ask_full = (r, done (is_full r))

-- The same call of a queue of at most `capacity` bytes.
pub queue_call : ℕ → List ℕ → Call → List ℕ × Reply
queue_call capacity q (push x) = let (q', b) = queue_push capacity q x in (q', done b)
queue_call capacity q pop = let (q', o) = queue_pop q in (q', got o)
queue_call capacity q (look i) = (q, got (get_elem? q i))
queue_call capacity q (write xs) =
    let room = capacity - length q in (q ++ take room xs, moved (min (length xs) room))
queue_call capacity q (discard n) = (drop n q, moved (min n (length q)))
queue_call capacity q ask_empty = (q, done (length q == 0))
queue_call capacity q ask_full = (q, done (length q == capacity))

-- The counts of `uint16_t` parameters.
abbrev pub InRange : Call → Type 0
InRange (write xs) = length xs < 2 ^ 16
InRange (discard n) = n < 2 ^ 16
InRange _ = Unit

abbrev pub AllInRange : List Call → Type 0
AllInRange [] = Unit
AllInRange (c ∷ cs) = InRange c × AllInRange cs

pub run : Ring → List Call → List Reply
run r [] = []
run r (c ∷ cs) = let (r', a) = call r c in a ∷ run r' cs

pub queue_run : ℕ → List ℕ → List Call → List Reply
queue_run capacity q [] = []
queue_run capacity q (c ∷ cs) =
    let (q', a) = queue_call capacity q c in a ∷ queue_run capacity q' cs

call-IsValid : (r : Ring) (c : Call) → IsValid r → IsValid (call r c).0
unfolding call
call-IsValid r (push x) v = push_back-IsValid r x v
call-IsValid r pop v = pop_front-IsValid r v
call-IsValid r (look i) v = v
call-IsValid r (write xs) v = push_bytes-IsValid r xs v
call-IsValid r (discard n) v = drop_front-IsValid r n v
call-IsValid r ask_empty v = v
call-IsValid r ask_full v = v

capacity-call : (r : Ring) (c : Call) → (call r c).0.capacity ≡ r.capacity
unfolding call
capacity-call r (push x) = capacity-push_back r x
capacity-call r pop = capacity-pop_front r
capacity-call r (look i) = refl
capacity-call r (write xs) = capacity-push_bytes r xs
capacity-call r (discard n) = capacity-drop_front r n
capacity-call r ask_empty = refl
capacity-call r ask_full = refl

call_refines :
    (r : Ring) (c : Call)
    → IsValid r
    → r.capacity ≤ 2 ^ 15
    → InRange c
    → let (r', a) = call r c in (contents r', a) ≡ queue_call r.capacity (contents r) c
unfolding call queue_call
call_refines r (push x) v s h = ground (arith, push_back_refines r x v)
call_refines r pop v s h = ground (arith, pop_front_refines r v)
call_refines r (look i) v s h = ground (arith, peek_lem r i v s)
call_refines r (write xs) v s h = ground (arith, push_bytes_refines r xs v h, length-contents r)
call_refines r (discard n) v s h = ground (arith, drop_front_refines r n v h, length-contents r)
call_refines r ask_empty v s h = unfold is_empty in ground (arith, length-contents r)
call_refines r ask_full v s h = unfold is_full in ground (arith, length-contents r)

-- No sequence of calls tells a valid ring of capacity at most 2 ^ 15 from the bounded queue of its
-- contents, the counts passed being 16-bit.
pub run_refines :
    (cs : List Call) (r : Ring)
    → IsValid r
    → r.capacity ≤ 2 ^ 15
    → AllInRange cs
    → run r cs ≡ queue_run r.capacity (contents r) cs
unfolding run queue_run
run_refines [] r v s h = refl
run_refines (c ∷ cs) r v s h = ground (
  arith,
  call_refines r c v s h.0,
  capacity-call r c,
  call-IsValid r c v,
  run_refines cs (call r c).0,
)

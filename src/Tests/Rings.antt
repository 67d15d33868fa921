-- ===== src/Tests/Rings.antt =====
-- The theorems on rings, bits and bytes at concrete ones.
use fx5_slmp_library.Prelude.{
  ℕ, ◌+◌, ◌-◌, ◌^◌, ◌≡◌, ◌≢◌, true, List, [], ◌∷◌, some, arith, length, replicate, get_or,
  get_elem?, length-replicate,
}
use fx5_slmp_library.RingBuf.{Ring, peek}
use fx5_slmp_library.RingBuf.Contents.{contents}
use fx5_slmp_library.RingBuf.Overflow.{peek_overflows}
use fx5_slmp_library.RingBuf.Run.{
  Call, push, pop, look, write, discard, ask_full, run, queue_run, run_refines,
}
use fx5_slmp_library.Packed.{store_bit, bit_of, bit_of-store_bit}

-- Two bytes in a storage of four, the second at its start.
abbrev wrapped : Ring
wrapped = record { bytes = 8 ∷ 0 ∷ 0 ∷ 7 ∷ []; capacity = 4; head = 1; tail = 3; size = 2 }

abbrev ring_calls : List Call
ring_calls = push 9 ∷ look 2 ∷ write (1 ∷ 2 ∷ []) ∷ ask_full ∷ pop ∷ discard 9 ∷ pop ∷ []

run_refines_example : run wrapped ring_calls ≡ queue_run 4 (contents wrapped) ring_calls
run_refines_example = run_refines ring_calls wrapped (omega arith) (omega arith) (omega arith)

-- A full ring of 2 ^ 15 + 1 bytes; the storage is kept shut.
storage : List ℕ
storage = replicate 32769 0

length-storage : length storage ≡ 32769
unfolding storage
length-storage = length-replicate {A = ℕ} 32769 0

abbrev large_ring : Ring
large_ring = record { bytes = storage; capacity = 32769; head = 32768; tail = 32768; size = 32769 }

peek_overflows_example :
    (peek large_ring 32768 ≡ some (get_or storage (32768 + 32768 - 2 ^ 16) 0))
    × (get_elem? (contents large_ring) 32768 ≡ some (get_or storage (32768 + 32768 - 32769) 0))
    × (◌≢◌ {A = ℕ} (32768 + 32768 - 2 ^ 16) (32768 + 32768 - 32769))
peek_overflows_example =
    peek_overflows large_ring 32768 (omega (arith, length-storage)) (omega arith) (omega arith)

bit_of-store_bit_example : bit_of (store_bit (0 ∷ 5 ∷ []) 17 true) 17 ≡ 1
bit_of-store_bit_example = bit_of-store_bit (0 ∷ 5 ∷ []) 17 17 true (omega arith) (omega arith)

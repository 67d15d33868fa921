-- ===== src/Api/Pool.antt =====
-- The static pool of src/fx5_core.c and its handles: a handle is an index into the pool, and `none`
-- is the NULL pointer.
use fx5_slmp_library.Prelude.{
  ℕ, ◌+◌, Bool, true, false, not, Option, none, some, List, [], ◌∷◌, if◌then◌else◌, get_elem?, set,
  replicate,
}
use fx5_slmp_library.Types.{Status, st_ok, err_null, err_no_context, context_pool_size}
use fx5_slmp_library.Context.{Context, reset_internal, zeroed}

abbrev pub Pool : Type 0
Pool = List Context

-- `s_context_pool` at the start of the program.
abbrev pub initial_pool : Pool
initial_pool = replicate context_pool_size zeroed

-- The loop from index `k` on: the contexts from there afterwards, and the index taken.
unfoldable pub acquire_from : Pool → ℕ → Pool × Option ℕ
acquire_from [] k = ([], none)
acquire_from (c ∷ cs) k =
    let (cs', taken) = acquire_from cs (k + 1) in
    if not c.in_use
    then (record (reset_internal c) { in_use = true } ∷ cs, some k)
    else (c ∷ cs', taken)

-- The pool, what is written to `*out_ctx` (`none` if that is not written), and the status.
unfoldable pub acquire : Bool → Pool → Pool × Option (Option ℕ) × Status
unfolding acquire_from
acquire false pool = (pool, none, err_null)
acquire true pool =
    let (pool', taken) = acquire_from pool 0 in
    (pool', some taken, elim taken [ none ↦ err_no_context | some k ↦ st_ok ])

-- `*ctx`, once neither `ctx` nor `*ctx` is NULL.
unfoldable pub release_at : Pool → ℕ → Pool
release_at pool k = elim (get_elem? pool k) [
  | none ↦ pool
  | some c ↦
      if not c.in_use then pool else set pool k (record (reset_internal c) { in_use = false })
]

-- The pool, and the caller's `*ctx`; the outer `none` is `ctx == NULL`.
unfoldable pub release : Pool → Option (Option ℕ) → Pool × Option (Option ℕ)
unfolding release_at
release pool none = (pool, none)
release pool (some none) = (pool, some none)
release pool (some (some k)) = (release_at pool k, some none)

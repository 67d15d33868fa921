-- ===== src/Api/Leases.antt =====
-- What `fx5_acquire` of src/fx5_core.c comes to on the pool.
pub mod Run
use fx5_slmp_library.Prelude.{
  ◌>>=◌, ℕ, zero, suc, ◌+◌, ◌≡◌, ◌⊎◌, inl, inr, refl, ap, ◌∙◌, subst, true, false, Bool, Option,
  some, none, List, [], ◌∷◌, arith, take, get_elem?, set, Bool-cases, Option-cases,
}
use mathlib.Core.Option
use fx5_slmp_library.Types.{Status, st_ok, err_no_context}
use fx5_slmp_library.Context.{Context, reset_internal, zeroed}
use fx5_slmp_library.Api.Handle.{is_acquired}
use fx5_slmp_library.Api.Invariant.{IsStorage, IsWellFormed, reset_internal-IsWellFormed}
use fx5_slmp_library.Api.Pool.{Pool, initial_pool, acquire_from, acquire, release_at, release}
use fx5_slmp_library.Api.Ready.{IsReady}
use fx5_slmp_library.Api.Session.{Call, InRange, invoke, invoke-IsReady, invoke_refused, refusal}

-- Every context of the list is in use.
abbrev pub AreUsed : List Context → Type 0
AreUsed [] = Unit
AreUsed (c ∷ cs) = (c.in_use ≡ true) × AreUsed cs

-- The context that is handed out in the place of `c`.
abbrev pub handed_out : Context → Context
handed_out c = record (reset_internal c) { in_use = true }

-- What looking for a free context from index `k` on comes to.
abbrev FromOutcome : Pool → ℕ → Pool × Option ℕ → Type 0
FromOutcome pool k out =
    ((i : ℕ) × (c : Context) × (out ≡ (set pool i (handed_out c), some (k + i)))
      × (get_elem? pool i ≡ some c)
      × (c.in_use ≡ false)
      × AreUsed (take i pool))
    ⊎ ((out ≡ (pool, none)) × AreUsed pool)

acquire_from_used :
    (c : Context) (cs : Pool) (k : ℕ) (out : Pool × Option ℕ)
    → c.in_use ≡ true
    → acquire_from cs (k + 1) ≡ out
    → acquire_from (c ∷ cs) k ≡ (c ∷ out.0, out.1)
unfolding acquire_from
acquire_from_used c cs k out used e = ground (arith, e)

acquire_from_free :
    (c : Context) (cs : Pool) (k : ℕ)
    → c.in_use ≡ false
    → acquire_from (c ∷ cs) k ≡ (handed_out c ∷ cs, some (k + 0))
unfolding acquire_from
acquire_from_free c cs k free = let e : k + 0 ≡ k = omega arith in ground (arith, e)

acquire_from_lem : (pool : Pool) (k : ℕ) → FromOutcome pool k (acquire_from pool k)
unfolding acquire_from
acquire_from_lem [] k = inr (refl, tt)
acquire_from_lem (c ∷ cs) k = elim (Bool-cases c.in_use) [
  | inl used ↦ elim (acquire_from_lem cs (k + 1)) [
    | inl (i, d, e, at, free, before) ↦ inl (
      suc i,
      d,
      acquire_from_used c cs k (set cs i (handed_out d), some (k + 1 + i)) used e
          ∙ ap (λ (n : ℕ). (c ∷ set cs i (handed_out d), some n)) (omega arith),
      at,
      free,
      (used, before),
    )
    | inr (e, all) ↦ inr (acquire_from_used c cs k (cs, none) used e, (used, all))
  ]
  | inr free ↦ inl (0, c, acquire_from_free c cs k free, refl, free, tt)
]

-- What a call of `fx5_acquire` comes to: the first free context, reset and marked, or a failure.
abbrev pub IsAcquired : Pool → Type 0
IsAcquired pool =
    ((i : ℕ) × (c : Context) × (acquire true pool
        ≡ (set pool i (handed_out c), some (some i), st_ok))
      × (get_elem? pool i ≡ some c)
      × (c.in_use ≡ false)
      × AreUsed (take i pool))
    ⊎ ((acquire true pool ≡ (pool, some none, err_no_context)) × AreUsed pool)

-- `fx5_acquire` hands out the first context that is not in use, reset and marked as in use, and
-- leaves the others alone; it fails, and changes nothing, only if all of them are in use.
pub acquire_lem : (pool : Pool) → IsAcquired pool
unfolding acquire
acquire_lem pool = elim (acquire_from_lem pool 0) [
  | inl (i, c, e, at, free, before) ↦ inl (
    i,
    c,
    rw e (ap (λ (n : ℕ). (set pool i (handed_out c), some (some n), st_ok)) (omega arith)),
    at,
    free,
    before,
  )
  | inr (e, all) ↦ inr (rw e refl, all)
]

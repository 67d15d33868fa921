-- ===== src/Api/Leases/Run.antt =====
-- The pool of src/fx5_core.c under any sequence of calls on any handles.
use fx5_slmp_library.Prelude.{
  ◌>>=◌, ℕ, zero, suc, ◌≡◌, inl, inr, refl, ap, subst, true, false, Bool, Option, some, none, List,
  [], ◌∷◌, arith, get_elem?, set, Bool-cases, Option-cases,
}
use mathlib.Core.Option
use fx5_slmp_library.Types.{Status}
use fx5_slmp_library.Context.{Context, reset_internal, zeroed}
use fx5_slmp_library.Api.Handle.{is_acquired}
use fx5_slmp_library.Api.Invariant.{IsStorage, IsWellFormed, reset_internal-IsWellFormed}
use fx5_slmp_library.Api.Pool.{Pool, initial_pool, acquire, release_at, release}
use fx5_slmp_library.Api.Ready.{IsReady}
use fx5_slmp_library.Api.Session.{Call, InRange, invoke, invoke-IsReady, invoke_refused, refusal}
use fx5_slmp_library.Api.Leases.{handed_out, acquire_lem}

-- A call on a context of the pool, by its index, or one of the two that manage the pool.
pub data PoolCall : Type 0 where
  take_call : PoolCall
  give_call : ℕ → PoolCall
  use_call : ℕ → Call → PoolCall

-- The pool after a call; `none` if the call does not return.
unfoldable pub pool_step : PoolCall → Pool → Option Pool
pool_step take_call pool = some (acquire true pool).0
pool_step (give_call k) pool = some (release pool (some (some k))).0
pool_step (use_call k call) pool = elim (get_elem? pool k) [
  | none ↦ Option.map (λ r. pool) (invoke call none)
  | some c ↦ Option.map (λ r. set pool k (Option.get_or r.0 c)) (invoke call (some c))
]

unfoldable pub pool_run : Pool → List PoolCall → Option Pool
pool_run pool [] = some pool
pool_run pool (call ∷ calls) = do pool' ← pool_step call pool; pool_run pool' calls

-- A context of the pool: its arrays are there, and it is well-formed while it is in use.
pub record IsSound (c : Context) : Type 0 where
  pub storage : IsStorage c
  pub well_formed : c.in_use ≡ true → IsWellFormed c

abbrev pub AreSound : Pool → Type 0
AreSound [] = Unit
AreSound (c ∷ cs) = IsSound c × AreSound cs

abbrev pub PoolInRange : PoolCall → Type 0
PoolInRange take_call = Unit
PoolInRange (give_call k) = Unit
PoolInRange (use_call k call) = InRange call

abbrev pub ArePoolInRange : List PoolCall → Type 0
ArePoolInRange [] = Unit
ArePoolInRange (call ∷ calls) = PoolInRange call × ArePoolInRange calls

pub AreSound-set :
    (pool : Pool) (k : ℕ) (c : Context) → AreSound pool → IsSound c → AreSound (set pool k c)
AreSound-set [] k c s h = tt
AreSound-set (d ∷ cs) zero c s h = (h, s.1)
AreSound-set (d ∷ cs) (suc k) c s h = (s.0, AreSound-set cs k c s.1 h)

pub AreSound-get_elem? :
    (pool : Pool) (k : ℕ) (c : Context) → AreSound pool → get_elem? pool k ≡ some c → IsSound c
AreSound-get_elem? [] k c s e = absurd (cc)
AreSound-get_elem? (d ∷ cs) zero c s e =
    subst IsSound (ap (λ (o : Option Context). Option.get_or o d) e) s.0
AreSound-get_elem? (d ∷ cs) (suc k) c s e = AreSound-get_elem? cs k c s.1 e

-- A reset context, in use or not.
pub reset-IsSound :
    (c : Context) (flag : Bool) → IsSound c → IsSound (record (reset_internal c) { in_use = flag })
reset-IsSound c flag s =
    let w = reset_internal-IsWellFormed c s.storage in
    let marked : IsWellFormed (record (reset_internal c) { in_use = flag }) = record {
      storage = record {
        values_length = w.storage.values_length;
        buffer_length = w.storage.buffer_length;
      };
      ring = w.ring;
      capacity = w.capacity;
      bytes = w.bytes;
      count_fits = w.count_fits;
      address_fits = w.address_fits;
      device_known = w.device_known;
      command_known = w.command_known;
      header_known = w.header_known;
      serial_fits = w.serial_fits;
      next_serial_fits = w.next_serial_fits;
    } in
    record {
      storage = record {
        values_length = w.storage.values_length;
        buffer_length = w.storage.buffer_length;
      };
      well_formed = λ used. marked;
    }

pub acquire-AreSound : (pool : Pool) → AreSound pool → AreSound (acquire true pool).0
acquire-AreSound pool s = elim (acquire_lem pool) [
  | inl (i, c, e, at, free, before) ↦ rw e (
      AreSound-set pool i (handed_out c) s
        (reset-IsSound c true (AreSound-get_elem? pool i c s at)))
  | inr (e, all) ↦ rw e s
]

pub release-AreSound :
    (pool : Pool) (k : ℕ) → AreSound pool → AreSound (release pool (some (some k))).0
unfolding release release_at
release-AreSound pool k s = elim (Option-cases (get_elem? pool k)) [
  | inl e ↦ rw (e, AreSound) s
  | inr (c, e) ↦
      let sound =
        AreSound-set pool k (record (reset_internal c) { in_use = false }) s
          (reset-IsSound c false (AreSound-get_elem? pool k c s e)) in
      rw (e, AreSound) (ground (arith, s, sound))
]

invoke-IsSound :
    (call : Call) (c : Context)
    → InRange call
    → IsSound c
    → (out : Option Context) × (status : Status) × (invoke call (some c) ≡ some (out, status))
      × IsSound (Option.get_or out c)
unfolding is_acquired
invoke-IsSound call c h s = elim (Bool-cases c.in_use) [
  | inl used ↦
      let r = invoke-IsReady call (some c) h (s.well_formed used, used) in
      (r.0, r.1, r.2, ready_sound r.0 r.3)
  | inr unused ↦ (some c, refusal call (some c), invoke_refused call (some c) unused, s)
]
  where
    ready_sound : (out : Option Context) → IsReady out → IsSound (Option.get_or out c)
    ready_sound none r = absurd r
    ready_sound (some d) r = record { storage = r.0.storage; well_formed = λ u. r.0 }

step_at_none :
    (call : Call) (pool : Pool) (k : ℕ)
    → get_elem? pool k ≡ none
    → pool_step (use_call k call) pool ≡ some pool
unfolding pool_step is_acquired
step_at_none call pool k e = ground (arith, invoke_refused call none refl)

step_at :
    (call : Call) (pool : Pool) (k : ℕ) (c : Context) (out : Option Context) (status : Status)
    → get_elem? pool k ≡ some c
    → invoke call (some c) ≡ some (out, status)
    → pool_step (use_call k call) pool ≡ some (set pool k (Option.get_or out c))
unfolding pool_step
step_at call pool k c out status e h = ground (arith, h)

pool_step-AreSound :
    (call : PoolCall) (pool : Pool)
    → PoolInRange call
    → AreSound pool
    → (out : Pool) × (pool_step call pool ≡ some out) × AreSound out
unfolding pool_step is_acquired
pool_step-AreSound take_call pool h s = (_, refl, acquire-AreSound pool s)
pool_step-AreSound (give_call k) pool h s = (_, refl, release-AreSound pool k s)
pool_step-AreSound (use_call k call) pool h s = elim (Option-cases (get_elem? pool k)) [
  | inl e ↦ (pool, step_at_none call pool k e, s)
  | inr (c, e) ↦
      let r = invoke-IsSound call c h (AreSound-get_elem? pool k c s e) in
      (
        set pool k (Option.get_or r.0 c),
        step_at call pool k c r.0 r.1 e r.2,
        AreSound-set pool k _ s r.3,
      )
]

-- From a pool whose contexts are sound, any sequence of calls on any handles, stale ones included and
-- with any bytes received, returns, and every context that is then in use is well-formed.
pub pool_run-AreSound :
    (calls : List PoolCall) (pool : Pool)
    → ArePoolInRange calls
    → AreSound pool
    → (out : Pool) × (pool_run pool calls ≡ some out) × AreSound out
unfolding pool_run
pool_run-AreSound [] pool h s = (pool, refl, s)
pool_run-AreSound (call ∷ calls) pool h s =
    let one = pool_step-AreSound call pool h.0 s in
    let more = pool_run-AreSound calls one.0 h.1 one.2 in (more.0, rw (one.1) more.1, more.2)

pub initial_pool-AreSound : AreSound initial_pool
initial_pool-AreSound = (zeroed-IsSound, (zeroed-IsSound, tt))
  where
    zeroed-IsSound : IsSound zeroed
    zeroed-IsSound = record {
      storage = record { values_length = refl; buffer_length = omega arith };
      well_formed = λ used. absurd (cc);
    }

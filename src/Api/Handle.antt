-- ===== src/Api/Handle.antt =====
-- The guard that opens every function on a context.
use fx5_slmp_library.Prelude.{◌≡◌, arith, Bool, true, false, not, Option, none, some, if◌then◌else◌}
use fx5_slmp_library.Types.{Status, st_ok, err_null, err_not_acquired}
use fx5_slmp_library.Context.{Context}

unfoldable pub is_acquired : Option Context → Bool
is_acquired none = false
is_acquired (some c) = c.in_use

unfoldable pub require_acquired : Option Context → Status
require_acquired none = err_null
require_acquired (some c) = if not c.in_use then err_not_acquired else st_ok

-- `status = fx5_require_acquired(ctx); if (status != FX5_ST_OK) return status;`, then `body`.
abbrev pub on_acquired : Option Context → (Context → Context × Status) → Option Context × Status
on_acquired none body = (none, require_acquired none)
on_acquired (some c) body = elim (require_acquired (some c)) [
  | st_ok ↦ let (c', status) = body c in (some c', status)
  | status ↦ (some c, status)
]

-- The same for a function that only reads the context.
abbrev pub read_acquired {ℓ} :
    {A : Type ℓ} → Option Context → (Context → Status × Option A) → Status × Option A
read_acquired none body = (require_acquired none, none)
read_acquired (some c) body = elim (require_acquired (some c)) [
  | st_ok ↦ body c
  | status ↦ (status, none)
]

-- The guard lets a context in use through.
pub require_acquired-acquired : (c : Context) → c.in_use ≡ true → require_acquired (some c) ≡ st_ok
unfolding require_acquired
require_acquired-acquired c used = ground arith

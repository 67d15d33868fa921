-- ===== src/Client/Main/Total.antt =====
-- The whole program comes to an end, on peers that go silent at some time.
use fx5_slmp_library.Prelude.{ℕ, ◌≤◌, ◌≡◌, Bool, List, Option, some}
use mathlib.Core.Option
use fx5_slmp_library.Api.Pool.{Pool}
use fx5_slmp_library.Api.Leases.Run.{AreSound}
use fx5_slmp_library.Client.Transport.{System}
use fx5_slmp_library.Client.Lines.{lines}
use fx5_slmp_library.Client.App.Rounds.{IsFinite}
use fx5_slmp_library.Client.Session.{App, line_buffer_size}
use fx5_slmp_library.Client.Session.Running.{AreBounded}
use fx5_slmp_library.Client.Main.{Exit}

-- The scripts that can be opened set no more points than a command has room for.
abbrev pub AreScriptsBounded : (List ℕ → Option (List ℕ × Bool)) → Type 0
AreScriptsBounded script =
    (path file : List ℕ) (read_error : Bool)
    → script path ≡ some (file, read_error)
    → AreBounded (lines line_buffer_size file)

module _ (sys : System) (finite : IsFinite sys) where
  open finite use {left}

  -- An exit code of at most 2, and a sound pool.
  abbrev Ended : ℕ → Option (ℕ × App sys) → Type 0
  Ended n r =
      (code : ℕ) × (app : App sys) × (r ≡ some (code, app))
      × (code ≤ 2)
      × AreSound app.pool
      × (left app.world ≤ n)

  abbrev Finishes : Option (Exit sys) → Type 0
  Finishes r = (exit : Exit sys) × (r ≡ some exit) × (exit.code ≤ 2)

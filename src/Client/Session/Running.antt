-- ===== src/Client/Session/Running.antt =====
-- A command in a session, on every branch: the application runs on.
use fx5_slmp_library.Prelude.{
  ℕ, zero, suc, ◌≤◌, ◌<◌, ◌≡◌, refl, ap, ◌∙◌, sym, subst, Bool, true, false, List, [], ◌∷◌, Option,
  some, none, arith, get_elem?, get_or, set, ◌==◌, Bool-cases, inl, inr, if◌then◌else◌,
}
use mathlib.Core.Option
use fx5_slmp_library.Context.{Context}
use fx5_slmp_library.Api.Pool.{Pool}
use fx5_slmp_library.Api.Ready.{IsReady}
use fx5_slmp_library.Api.Leases.Run.{AreSound, AreSound-set, AreSound-get_elem?}
use fx5_slmp_library.Client.Command.{
  ClientCommand, CommandType, invalid_command, get_command, set_command, help_command,
  trace_command, header_command, quit_command, parse_command,
}
use fx5_slmp_library.Client.Command.Total.{parse_command_total, IsBounded}
use fx5_slmp_library.Client.Transport.{System}
use fx5_slmp_library.Client.App.{Io, execute_command}
use fx5_slmp_library.Client.App.Rounds.{IsFinite}
use fx5_slmp_library.Client.App.Total.{execute_command_total}
use fx5_slmp_library.Client.Session.{
  App, context_of, stored, with_io, app_execute_command, dispatch, execute_repl_command, Line,
  blank, bad_syntax, quits, runs, is_quit, line_text, read_line,
}

pub get_elem?-set :
    (pool : Pool) (k : ℕ) (c d : Context)
    → get_elem? pool k ≡ some c
    → get_elem? (set pool k d) k ≡ some d
get_elem?-set [] k c d e = absurd (cc)
get_elem?-set (x ∷ pool) zero c d e = refl
get_elem?-set (x ∷ pool) (suc k) c d e = get_elem?-set pool k c d e

-- No line sets more points than a command has room for.
abbrev pub AreBounded : List (List ℕ) → Type 0
AreBounded [] = Unit
AreBounded (buffer ∷ rest) = IsBounded (line_text buffer) × AreBounded rest

-- The parser comes to a result, and so does the reading of a line.
pub read_line_total :
    (text : List ℕ) → IsBounded text → (line : Line) × (read_line text ≡ some line)
unfolding read_line
read_line_total text bounded = elim (Bool-cases (get_or text 0 0 == 0)) [
  | inl e ↦ (blank, rw e refl)
  | inr e ↦ parsed_line text e (parse_command_total text bounded)
]
  where
    parsed_line :
        (text : List ℕ)
        → (get_or text 0 0 == 0) ≡ false
        → ((r : Bool × ClientCommand) × (parse_command text ≡ some r))
        → (line : Line) × (read_line text ≡ some line)
    parsed_line text e ((false, cmd), p) = (bad_syntax, rw (e, p) refl)
    parsed_line text e ((true, cmd), p) =
        ((if is_quit cmd.command_type then quits else runs cmd), rw (e, p) refl)

module _ (sys : System) (finite : IsFinite sys) where
  open finite use {left}

  -- An application whose context is one of a sound pool, and in use.
  pub record IsRunning (app : App sys) : Type 0 where
    pub slot : ℕ
    pub held : Context
    pub at : app.ctx ≡ some slot
    pub there : get_elem? app.pool slot ≡ some held
    pub used : held.in_use ≡ true
    pub sound : AreSound app.pool

  -- A result, with an application that runs on.
  abbrev pub Runs {ℓ} : {A : Type ℓ} → ℕ → Option (A × App sys) → Type ℓ
  Runs {A = A} n r =
      (a : A) × (app : App sys) × (r ≡ some (a, app)) × IsRunning app × (left app.world ≤ n)

  held-IsReady : (app : App sys) (r : IsRunning app) → IsReady (some r.held)
  held-IsReady app r =
      ((AreSound-get_elem? app.pool r.slot r.held r.sound r.there).well_formed r.used, r.used)

  held_context : (app : App sys) (r : IsRunning app) → context_of sys app ≡ some r.held
  held_context app r = rw (r.at) (r.there)

  stored-IsRunning :
      (app : App sys) (r : IsRunning app) (io : Io sys)
      → IsReady io.context
      → IsRunning (with_io sys app io)
  unfolding stored
  stored-IsRunning app r io h = go io.context h
    where
      go :
          (c : Option Context)
          → IsReady c
          → IsRunning (record app {
            pool = stored sys app.pool app.ctx c;
            world = io.world;
            console = io.console;
          })
      go none h = absurd h
      go (some c) h = record {
        slot = r.slot;
        held = c;
        at = r.at;
        there =
            ap (λ (q : Option ℕ). get_elem? (stored sys app.pool q (some c)) r.slot) r.at
            ∙ get_elem?-set app.pool r.slot r.held c r.there;
        used = h.1;
        sound =
            subst (λ (q : Option ℕ). AreSound (stored sys app.pool q (some c))) (sym r.at)
              (AreSound-set app.pool r.slot c r.sound
                (record { storage = h.0.storage; well_formed = λ _. h.0 }));
      }

  command_total :
      (fuel : ℕ) (app : App sys) (cmd : ClientCommand)
      → IsRunning app
      → left app.world < fuel
      → Runs (left app.world) (app_execute_command sys fuel app cmd)
  unfolding app_execute_command
  command_total fuel app cmd r k =
      let sock = Option.get_or app.sock (record { handle = none }) in
      let e =
        execute_command_total sys finite fuel app.config cmd sock r.held app.world app.console
          (held-IsReady app r) k in
      let same =
        ap
          (λ (c : Option Context).
            execute_command sys fuel app.config cmd sock
              (record { context = c; world = app.world; console = app.console }))
          (held_context app r) in
      (
        e.0,
        with_io sys app e.1,
        ap (λ (o : Option (Bool × Io sys)). Option.map (λ q. (q.0, with_io sys app q.1)) o)
            (same ∙ e.2),
        stored-IsRunning app r e.1 e.3,
        e.4,
      )

  pub said-IsRunning :
      (app : App sys) (console : _) → IsRunning app → IsRunning (record app { console = console })
  said-IsRunning app console r = record {
    slot = r.slot;
    held = r.held;
    at = r.at;
    there = r.there;
    used = r.used;
    sound = r.sound;
  }

  configured-IsRunning :
      (app : App sys) (config : _) (console : _)
      → IsRunning app
      → IsRunning (record app { config = config; console = console })
  configured-IsRunning app config console r = record {
    slot = r.slot;
    held = r.held;
    at = r.at;
    there = r.there;
    used = r.used;
    sound = r.sound;
  }

  dispatch_total :
      (t : CommandType) (fuel : ℕ) (cmd : ClientCommand) (app : App sys)
      → IsRunning app
      → left app.world < fuel
      → Runs (left app.world) (dispatch sys t fuel cmd app)
  unfolding dispatch
  dispatch_total help_command fuel cmd app r k =
      (true, _, refl, said-IsRunning app _ r, omega arith)
  dispatch_total trace_command fuel cmd app r k =
      (true, _, refl, configured-IsRunning app _ _ r, omega arith)
  dispatch_total header_command fuel cmd app r k =
      (true, _, refl, configured-IsRunning app _ _ r, omega arith)
  dispatch_total get_command fuel cmd app r k = command_total fuel app cmd r k
  dispatch_total set_command fuel cmd app r k = command_total fuel app cmd r k
  dispatch_total invalid_command fuel cmd app r k =
      (false, _, refl, said-IsRunning app _ r, omega arith)
  dispatch_total quit_command fuel cmd app r k =
      (false, _, refl, said-IsRunning app _ r, omega arith)

  pub execute_repl_command_total :
      (fuel : ℕ) (app : App sys) (cmd : ClientCommand)
      → IsRunning app
      → left app.world < fuel
      → Runs (left app.world) (execute_repl_command sys fuel app cmd)
  unfolding execute_repl_command
  execute_repl_command_total fuel app cmd r k = dispatch_total cmd.command_type fuel cmd app r k

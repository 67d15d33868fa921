-- ===== src/Client/Session/Total.antt =====
-- A session of the client comes to an end, on a peer that goes silent at some time.
use fx5_slmp_library.Prelude.{
  ℕ, ◌+◌, ◌≤◌, ◌<◌, ◌≡◌, refl, Bool, true, false, List, [], ◌∷◌, Option, some, none, arith, get_or,
  ◌==◌, ◌&&◌, Bool-cases, inl, inr,
}
use fx5_slmp_library.Prelude.Strings.{codes}
use fx5_slmp_library.Client.Lines.{lines, closed_lines, is_closed}
use fx5_slmp_library.Client.Transport.{System}
use fx5_slmp_library.Client.App.Rounds.{IsFinite}
use fx5_slmp_library.Client.Session.{
  App, app_print, app_complain, execute_repl_command, Line, blank, bad_syntax, quits, runs,
  line_text, read_line, prompt, repl_loop, repl_run, line_buffer_size, script_end, script_message,
  script_loop, script_lines, script_run,
}
use fx5_slmp_library.Client.Session.Running.{
  IsRunning, Runs, AreBounded, read_line_total, said-IsRunning, execute_repl_command_total,
}

module _ (sys : System) (finite : IsFinite sys) where
  open finite use {left}

  -- An exit code of at most 2, with an application that runs on.
  abbrev pub Exits : ℕ → Option (ℕ × App sys) → Type 0
  Exits n r =
      (code : ℕ) × (app : App sys) × (r ≡ some (code, app))
      × (code ≤ 2)
      × IsRunning sys finite app
      × (left app.world ≤ n)

  -- Whatever application the rest of a loop starts with, it comes to an end.
  abbrev GoesOn : (App sys → Option (ℕ × App sys)) → ℕ → ℕ → Type 0
  GoesOn rest fuel n =
      (app : App sys)
      → IsRunning sys finite app
      → left app.world < fuel
      → left app.world ≤ n
      → Exits n (rest app)

  repl_line_total :
      (fuel : ℕ) (line : Line) (buffer : List ℕ) (rest : List (List ℕ)) (app : App sys) (n : ℕ)
      → read_line (line_text buffer) ≡ some line
      → IsRunning sys finite app
      → left app.world < fuel
      → left app.world ≤ n
      → GoesOn (repl_loop sys fuel rest) fuel n
      → Exits n (repl_loop sys fuel (buffer ∷ rest) app)
  unfolding repl_loop
  repl_line_total fuel blank buffer rest app n e r k l more =
      rw (e, repl_loop) (more (prompt sys app) (said-IsRunning sys finite app _ r) k l)
  repl_line_total fuel bad_syntax buffer rest app n e r k l more =
      rw (e, repl_loop)
        (more (app_print sys (prompt sys app) (codes "Syntax error.\n"))
          (said-IsRunning sys finite app _ r) k l)
  repl_line_total fuel quits buffer rest app n e r k l more =
      rw (e, repl_loop) (0, prompt sys app, refl, omega arith, said-IsRunning sys finite app _ r, l)
  repl_line_total fuel (runs cmd) buffer rest app n e r k l more =
      let d =
        execute_repl_command_total sys finite fuel (prompt sys app) cmd
          (said-IsRunning sys finite app _ r) k in
      rw (e, repl_loop)
        (rw (d.2, repl_loop) (more d.1 d.3 (omega (arith, d.4)) (omega (arith, d.4))))

  repl_loop_total :
      (fuel : ℕ) (buffers : List (List ℕ)) (n : ℕ)
      → AreBounded buffers
      → GoesOn (repl_loop sys fuel buffers) fuel n
  unfolding repl_loop
  repl_loop_total fuel [] n bounded app r k l = (
    0,
    app_print sys (prompt sys app) (codes "\n"),
    refl,
    omega arith,
    said-IsRunning sys finite app _ r,
    l,
  )
  repl_loop_total fuel (buffer ∷ rest) n bounded app r k l =
      let line = read_line_total (line_text buffer) bounded.0 in
      repl_line_total fuel line.0 buffer rest app n line.1 r k l
        (repl_loop_total fuel rest n bounded.1)

  -- The interactive mode comes to an end on every input that does and sets no
  -- range of more than 512 points, however the sockets behave as long
  -- as they bring finitely many pieces: its exit code is at most 2, and the context is still in use and
  -- well-formed.
  pub repl_run_total :
      (fuel : ℕ) (stdin : List ℕ) (app : App sys)
      → AreBounded (lines line_buffer_size stdin)
      → IsRunning sys finite app
      → left app.world < fuel
      → Exits (left app.world) (repl_run sys fuel stdin app)
  unfolding repl_run
  repl_run_total fuel stdin app bounded r k =
      repl_loop_total fuel (lines line_buffer_size stdin) (left app.world) bounded _
        (said-IsRunning sys finite app _ r) k (omega arith)

  -- The same, and whether a script has been read to its end.
  abbrev ScriptExits : ℕ → Option (ℕ × Bool × App sys) → Type 0
  ScriptExits n r =
      (code : ℕ) × (at_end : Bool) × (app : App sys) × (r ≡ some (code, at_end, app))
      × (code ≤ 2)
      × IsRunning sys finite app
      × (left app.world ≤ n)

  abbrev ScriptGoesOn : (App sys → Option (ℕ × Bool × App sys)) → ℕ → ℕ → Type 0
  ScriptGoesOn rest fuel n =
      (app : App sys)
      → IsRunning sys finite app
      → left app.world < fuel
      → left app.world ≤ n
      → ScriptExits n (rest app)

  script_line_total :
      (fuel line_no : ℕ) (line : Line) (buffer : List ℕ) (rest : List (List ℕ)) (app : App sys)
      (n : ℕ)
      → (get_or (line_text buffer) 0 0 == b'#') ≡ false
      → read_line (line_text buffer) ≡ some line
      → IsRunning sys finite app
      → left app.world < fuel
      → left app.world ≤ n
      → ScriptGoesOn (script_loop sys fuel (line_no + 1) rest) fuel n
      → ScriptExits n (script_loop sys fuel line_no (buffer ∷ rest) app)
  unfolding script_loop
  script_line_total fuel line_no blank buffer rest app n c e r k l more =
      rw (c, script_loop) (rw (e, script_loop) (more app r k l))
  script_line_total fuel line_no bad_syntax buffer rest app n c e r k l more =
      rw (c, script_loop)
        (rw (e, script_loop)
          (
            1,
            false,
            app_complain sys app (script_message (codes "syntax error") (line_no + 1)),
            refl,
            omega arith,
            said-IsRunning sys finite app _ r,
            l,
          ))
  script_line_total fuel line_no quits buffer rest app n c e r k l more =
      rw (c, script_loop) (rw (e, script_loop) (0, false, app, refl, omega arith, r, l))
  script_line_total fuel line_no (runs cmd) buffer rest app n c e r k l more =
      executed (execute_repl_command_total sys finite fuel app cmd r k)
    where
      executed :
          Runs sys finite (left app.world) (execute_repl_command sys fuel app cmd)
          → ScriptExits n (script_loop sys fuel line_no (buffer ∷ rest) app)
      executed (true, app', d, r', less) =
          rw (c, script_loop)
            (rw (e, script_loop)
              (rw (d, script_loop) (more app' r' (omega (arith, less)) (omega (arith, less)))))
      executed (false, app', d, r', less) =
          rw (c, script_loop)
            (rw (e, script_loop)
              (rw (d, script_loop)
                (
                  1,
                  false,
                  app_complain sys app' (script_message (codes "command failed") (line_no + 1)),
                  refl,
                  omega arith,
                  said-IsRunning sys finite app' _ r',
                  omega (arith, less),
                )))

  script_loop_total :
      (fuel line_no : ℕ) (buffers : List (List ℕ)) (n : ℕ)
      → AreBounded buffers
      → ScriptGoesOn (script_loop sys fuel line_no buffers) fuel n
  unfolding script_loop
  script_loop_total fuel line_no [] n bounded app r k l = (0, true, app, refl, omega arith, r, l)
  script_loop_total fuel line_no (buffer ∷ rest) n bounded app r k l =
      let more = script_loop_total fuel (line_no + 1) rest n bounded.1 in
      elim (Bool-cases (get_or (line_text buffer) 0 0 == b'#')) [
        | inl comment ↦ rw (comment, script_loop) (more app r k l)
        | inr other ↦
            let line = read_line_total (line_text buffer) bounded.0 in
            script_line_total fuel line_no line.0 buffer rest app n other line.1 r k l more
      ]

  closed_lines-AreBounded :
      (size : ℕ) (buffers : List (List ℕ))
      → AreBounded buffers
      → AreBounded (closed_lines size buffers)
  unfolding closed_lines
  closed_lines-AreBounded size [] h = tt
  closed_lines-AreBounded size (buffer ∷ rest) h = elim (Bool-cases (is_closed size buffer)) [
    | inl e ↦ rw (e, closed_lines) (h.0, closed_lines-AreBounded size rest h.1)
    | inr e ↦ rw (e, closed_lines) tt
  ]

  script_lines-AreBounded :
      (read_error : Bool) (file : List ℕ)
      → AreBounded (lines line_buffer_size file)
      → AreBounded (script_lines read_error file)
  unfolding script_lines
  script_lines-AreBounded true file h = closed_lines-AreBounded line_buffer_size _ h
  script_lines-AreBounded false file h = h

  script_end-Exits :
      (path : List ℕ) (error : Bool) (code n : ℕ) (app : App sys)
      → code ≤ 2
      → IsRunning sys finite app
      → left app.world ≤ n
      → Exits n (some (script_end sys path error code app))
  unfolding script_end
  script_end-Exits path true code n app c r l =
      (2, _, refl, omega arith, said-IsRunning sys finite app _ r, l)
  script_end-Exits path false code n app c r l = (code, app, refl, c, r, l)

  -- The same of a script, which may not be there, or end with a read error.
  pub script_run_total :
      (fuel : ℕ) (path : List ℕ) (script : Option (List ℕ × Bool)) (app : App sys)
      → ((file : List ℕ) (read_error : Bool)
          → script ≡ some (file, read_error)
          → AreBounded (lines line_buffer_size file))
      → IsRunning sys finite app
      → left app.world < fuel
      → Exits (left app.world) (script_run sys fuel path script app)
  unfolding script_run
  script_run_total fuel path none app bounded r k =
      (2, _, refl, omega arith, said-IsRunning sys finite app _ r, omega arith)
  script_run_total fuel path (some (file, read_error)) app bounded r k =
      let s =
        script_loop_total fuel 0 (script_lines read_error file) (left app.world)
          (script_lines-AreBounded read_error file (bounded file read_error refl)) app r k
          (omega arith) in
      rw (s.3, script_run)
        (script_end-Exits path (read_error && s.1) s.0 (left app.world) s.2 s.4 s.5 s.6)

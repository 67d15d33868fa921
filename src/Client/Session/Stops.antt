-- ===== src/Client/Session/Stops.antt =====
-- `fx5_client_script_run` stops at the first command that fails.
use fx5_slmp_library.Prelude.{
  ℕ, suc, ◌+◌, ◌≡◌, ◌⊎◌, inl, inr, refl, ap, ◌∙◌, true, false, List, [], ◌∷◌, ◌++◌, some, arith,
  length, get_or, ◌==◌,
}
use fx5_slmp_library.Prelude.Strings.{codes}
use fx5_slmp_library.Client.Command.{ClientCommand}
use fx5_slmp_library.Client.Lines.{lines}
use fx5_slmp_library.Client.Transport.{System}
use fx5_slmp_library.Client.Session.{
  App, app_complain, execute_repl_command, blank, runs, line_text, read_line, line_buffer_size,
  script_end, script_message, script_loop, script_lines, script_run,
}

-- A comment, or a line with blanks at most.
abbrev pub IsIgnored : List ℕ → Type 0
IsIgnored buffer =
    ((get_or (line_text buffer) 0 0 == b'#') ≡ true)
    ⊎ ((read_line (line_text buffer) ≡ some blank)
        × ((get_or (line_text buffer) 0 0 == b'#') ≡ false))

-- A line with a command.
abbrev pub IsCommand : List ℕ → ClientCommand → Type 0
IsCommand buffer cmd =
    (read_line (line_text buffer) ≡ some (runs cmd))
    × ((get_or (line_text buffer) 0 0 == b'#') ≡ false)

module _ (sys : System) (fuel : ℕ) where
  -- The lines are ignored, or hold commands that succeed one after the other.
  abbrev pub Succeed : List (List ℕ) → App sys → App sys → Type 0
  Succeed [] app app' = app ≡ app'
  Succeed (buffer ∷ rest) app app' =
      (IsIgnored buffer × Succeed rest app app')
      ⊎ ((cmd : ClientCommand) × (next : App sys) × IsCommand buffer cmd
          × (execute_repl_command sys fuel app cmd ≡ some (true, next))
          × Succeed rest next app')

  -- What stops a script: its command fails.
  abbrev failed_at : ℕ → App sys → App sys
  failed_at line_no app = app_complain sys app (script_message (codes "command failed") line_no)

  ignored_line :
      (line_no : ℕ) (buffer : List ℕ) (rest : List (List ℕ)) (app : App sys)
      → IsIgnored buffer
      → script_loop sys fuel line_no (buffer ∷ rest) app
        ≡ script_loop sys fuel (line_no + 1) rest app
  unfolding script_loop
  ignored_line line_no buffer rest app (inl comment) = rw (comment, script_loop) refl
  ignored_line line_no buffer rest app (inr (e, c)) = rw (c, script_loop) (rw (e, script_loop) refl)

  command_line :
      (line_no : ℕ) (buffer : List ℕ) (rest : List (List ℕ)) (app next : App sys)
      (cmd : ClientCommand)
      → IsCommand buffer cmd
      → execute_repl_command sys fuel app cmd ≡ some (true, next)
      → script_loop sys fuel line_no (buffer ∷ rest) app
        ≡ script_loop sys fuel (line_no + 1) rest next
  unfolding script_loop
  command_line line_no buffer rest app next cmd (e, c) d =
      rw (c, script_loop) (rw (e, script_loop) (rw (d, script_loop) refl))

  failing_line :
      (line_no : ℕ) (buffer : List ℕ) (rest : List (List ℕ)) (app next : App sys)
      (cmd : ClientCommand)
      → IsCommand buffer cmd
      → execute_repl_command sys fuel app cmd ≡ some (false, next)
      → script_loop sys fuel line_no (buffer ∷ rest) app
        ≡ some (1, false, failed_at (line_no + 1) next)
  unfolding script_loop
  failing_line line_no buffer rest app next cmd (e, c) d =
      rw (c, script_loop) (rw (e, script_loop) (rw (d, script_loop) refl))

  loop_stops :
      (line_no : ℕ) (before : List (List ℕ)) (buffer : List ℕ) (after : List (List ℕ))
      (app app' next : App sys) (cmd : ClientCommand)
      → Succeed before app app'
      → IsCommand buffer cmd
      → execute_repl_command sys fuel app' cmd ≡ some (false, next)
      → script_loop sys fuel line_no (before ++ (buffer ∷ after)) app
        ≡ some (1, false, failed_at (line_no + length before + 1) next)
  loop_stops line_no [] buffer after app app' next cmd s k d =
      let z : line_no + 0 + 1 ≡ line_no + 1 = omega arith in
      ap (λ (a : App sys). script_loop sys fuel line_no (buffer ∷ after) a) s
      ∙ rw z (failing_line line_no buffer after app' next cmd k d)
  loop_stops line_no (b ∷ before) buffer after app app' next cmd (inl (g, s)) k d =
      let n : line_no + suc (length before) + 1 ≡ line_no + 1 + length before + 1 = omega arith in
      rw n (
        ignored_line line_no b (before ++ (buffer ∷ after)) app g
        ∙ loop_stops (line_no + 1) before buffer after app app' next cmd s k d)
  loop_stops line_no (b ∷ before) buffer after app app' next cmd (inr (cmd', mid, g, e, s)) k d =
      let n : line_no + suc (length before) + 1 ≡ line_no + 1 + length before + 1 = omega arith in
      rw n (
        command_line line_no b (before ++ (buffer ∷ after)) app mid cmd' g e
        ∙ loop_stops (line_no + 1) before buffer after mid app' next cmd s k d)

  -- A script that can be read to its end, with a first command that fails, behind lines that are
  -- ignored or hold commands that succeed: what is behind that command is not looked at, its line
  -- number is reported, and the exit code is 1.
  pub script_run_stops :
      (path file : List ℕ) (before : List (List ℕ)) (buffer : List ℕ) (after : List (List ℕ))
      (app app' next : App sys) (cmd : ClientCommand)
      → lines line_buffer_size file ≡ before ++ (buffer ∷ after)
      → Succeed before app app'
      → IsCommand buffer cmd
      → execute_repl_command sys fuel app' cmd ≡ some (false, next)
      → script_run sys fuel path (some (file, false)) app
        ≡ some
            (1, app_complain sys next (script_message (codes "command failed") (length before + 1)))
  unfolding script_run script_end script_lines
  script_run_stops path file before buffer after app app' next cmd split s k d =
      let z : 0 + length before + 1 ≡ length before + 1 = omega arith in
      rw (split, script_run)
        (rw (loop_stops 0 before buffer after app app' next cmd s k d, script_run) (rw z refl))

-- ===== src/Client/Session.antt =====
-- tools/fx5_client/src/fx5_client_repl.c, and the application as a whole, with the pool that its
-- context stands in.
pub mod Stops
pub mod Running
pub mod Total
use fx5_slmp_library.Prelude.{
  ℕ, ◌+◌, Bool, true, false, Option, none, some, List, [], ◌∷◌, ◌++◌, ◌==◌, ◌&&◌, if◌then◌else◌,
  get_elem?, get_or, set, ◌>>=◌,
}
use mathlib.Core.Option
use fx5_slmp_library.Prelude.Strings.{codes}
use fx5_slmp_library.Types.{Header, header_3e, header_4e, unknown_header}
use fx5_slmp_library.Context.{Context}
use fx5_slmp_library.Api.Pool.{Pool}
use fx5_slmp_library.Client.Text.{trim_right, skip_spaces}
use fx5_slmp_library.Client.Lines.{lines, closed_lines, c_string}
use fx5_slmp_library.Client.Command.{
  ClientCommand, CommandType, invalid_command, get_command, set_command, help_command,
  trace_command, header_command, quit_command, parse_command,
}
use fx5_slmp_library.Client.Config.{ClientConfig}
use fx5_slmp_library.Client.Format.{Console, print, complain, digits_in}
use fx5_slmp_library.Client.Transport.{System, Socket}
use fx5_slmp_library.Client.App.{Io, execute_command}

unfoldable pub help_text : List ℕ
help_text =
    codes "Available commands:\n"
    ++ (codes "  help\n"
        ++ (codes "  quit\n"
            ++ (codes "  exit\n"
                ++ (codes "  trace on\n"
                    ++ (codes "  trace off\n"
                        ++ (codes "  header 3e\n"
                            ++ (codes "  header 4e\n"
                                ++ (codes "  get D100\n"
                                    ++ (codes "  get D100-110\n"
                                        ++ (codes "  get M51-60\n"
                                            ++ (codes "  set D100=55\n"
                                                ++ (codes "  set D88-92=33,34,35,36,37\n"
                                                    ++ (codes "  set M51=true\n"
                                                        ++ (codes "  set M51-60=true\n"
                                                            ++ (codes
                                                            "  set M51-56=true,false,true,false,true,true\n"
                                                            ++ (codes "\n"
                                                            ++ (codes "Supported devices:\n"
                                                            ++ (codes
                                                            "  bit       : M, X, Y, L, F, S, B\n"
                                                            ++ (codes "  word      : D, W\n"
                                                            ++ (codes
                                                            "  read-only : SM, SD, SB, SW\n"
                                                            ++ codes
                                                            "  addressing: X/Y octal, B/W/SB/SW hex, others decimal\n"))))))))))))))))))))

unfoldable pub is_3e : Header → Bool
is_3e header_3e = true
is_3e header_4e = false
is_3e unknown_header = false

-- What a line comes to, before anything is executed.
pub data Line : Type 0 where
  blank : Line
  bad_syntax : Line
  quits : Line
  runs : ClientCommand → Line

unfoldable pub is_quit : CommandType → Bool
is_quit quit_command = true
is_quit _ = false

-- The line buffer without the blanks at its ends.
unfoldable pub line_text : List ℕ → List ℕ
line_text buffer = skip_spaces (trim_right (c_string buffer))

-- `none` if the parser of commands has no result.
unfoldable pub read_line : List ℕ → Option Line
unfolding is_quit
read_line text = if get_or text 0 0 == 0 then some blank else elim (parse_command text) [
  | none ↦ none
  | some (false, cmd) ↦ some bad_syntax
  | some (true, cmd) ↦ some (if is_quit cmd.command_type then quits else runs cmd)
]

abbrev pub line_buffer_size : ℕ
line_buffer_size = 512

abbrev pub script_message : List ℕ → ℕ → List ℕ
script_message what line_no =
    codes "ERR: script " ++ (what ++ (codes " at line " ++ (digits_in 10 line_no ++ codes "\n")))

-- The lines that `fgets` delivers: where a read error ends the stream, not the line that it breaks.
unfoldable pub script_lines : Bool → List ℕ → List (List ℕ)
script_lines false file = lines line_buffer_size file
script_lines true file = closed_lines line_buffer_size (lines line_buffer_size file)

module _ (sys : System) where
  open sys use {World}

  -- `fx5_client_app_t` with the pool of contexts that `ctx` points into, the world and the streams.
  pub record App : Type 0 where
    pub config : ClientConfig
    pub ctx : Option ℕ
    pub sock : Option Socket
    pub pool : Pool
    pub world : World
    pub console : Console

  abbrev pub app_print : App → List ℕ → App
  app_print app text = record app { console = print app.console text }

  abbrev pub app_complain : App → List ℕ → App
  app_complain app text = record app { console = complain app.console text }

  -- The context that `app->ctx` points to.
  abbrev pub context_of : App → Option Context
  context_of app = app.ctx >>= get_elem? app.pool

  -- The pool with that context changed.
  unfoldable pub stored : Pool → Option ℕ → Option Context → Pool
  stored pool (some k) (some c) = set pool k c
  stored pool _ _ = pool

  -- The state of a command at its start, and the application after it.
  abbrev pub io_of : App → Io sys
  io_of app = record { context = context_of app; world = app.world; console = app.console }

  abbrev pub with_io : App → Io sys → App
  with_io app io = record app {
    pool = stored app.pool app.ctx io.context;
    world = io.world;
    console = io.console;
  }

  -- A NULL socket is refused as one with no connection is.
  unfoldable pub app_execute_command : ℕ → App → ClientCommand → Option (Bool × App)
  app_execute_command fuel app cmd =
      Option.map (λ r. (r.0, with_io app r.1))
        (execute_command sys fuel app.config cmd (Option.get_or app.sock (record { handle = none }))
          (io_of app))

  unfoldable pub dispatch : CommandType → ℕ → ClientCommand → App → Option (Bool × App)
  unfolding is_3e
  dispatch help_command fuel cmd app = some (true, app_print app help_text)
  dispatch trace_command fuel cmd app = some (
    true,
    app_print (record app { config = record app.config { trace_enabled = cmd.trace_enabled } })
        (codes "trace: " ++ (if cmd.trace_enabled then codes "on\n" else codes "off\n")),
  )
  dispatch header_command fuel cmd app = some (
    true,
    app_print
        (record app {
          config = record app.config {
            network_settings = record app.config.network_settings { header_type = cmd.header_type };
          };
        })
        (codes "header: " ++ (if is_3e cmd.header_type then codes "3E\n" else codes "4E\n")),
  )
  dispatch get_command fuel cmd app = app_execute_command fuel app cmd
  dispatch set_command fuel cmd app = app_execute_command fuel app cmd
  dispatch invalid_command fuel cmd app =
      some (false, app_print app (codes "Unsupported command.\n"))
  dispatch quit_command fuel cmd app = some (false, app_print app (codes "Unsupported command.\n"))

  unfoldable pub execute_repl_command : ℕ → App → ClientCommand → Option (Bool × App)
  execute_repl_command fuel app cmd = dispatch cmd.command_type fuel cmd app

  abbrev pub prompt : App → App
  prompt app = app_print app (codes "fx5> ")

  -- The loop of `fx5_client_repl_run` over what its calls of `fgets` give; `fuel` is for the answers
  -- to one command.
  unfoldable pub repl_loop : ℕ → List (List ℕ) → App → Option (ℕ × App)
  repl_loop fuel [] app = some (0, app_print (prompt app) (codes "\n"))
  repl_loop fuel (buffer ∷ rest) app = elim (read_line (line_text buffer)) [
    | none ↦ none
    | some blank ↦ repl_loop fuel rest (prompt app)
    | some bad_syntax ↦ repl_loop fuel rest (app_print (prompt app) (codes "Syntax error.\n"))
    | some quits ↦ some (0, prompt app)
    | some (runs cmd) ↦ elim (execute_repl_command fuel (prompt app) cmd) [
      | none ↦ none
      | some (done, app') ↦ repl_loop fuel rest app'
    ]
  ]

  unfoldable pub repl_run : ℕ → List ℕ → App → Option (ℕ × App)
  repl_run fuel stdin app = repl_loop fuel (lines line_buffer_size stdin) (
      app_print app
        (codes "Interactive mode.\n" ++ codes "Type 'help' for commands, 'quit' to exit.\n"))

  -- `ferror(script)` is looked at behind the loop; the error is there if the loop has met it.
  unfoldable pub script_end : List ℕ → Bool → ℕ → App → ℕ × App
  script_end path error rc app =
      if error
      then (2, app_complain app (codes "ERR: failed to read script: " ++ (path ++ codes "\n")))
      else (rc, app)

  -- The loop of `fx5_client_script_run`, where `line_no` lines have been read: the exit code, and
  -- whether `fgets` has found no more line.
  unfoldable pub script_loop : ℕ → ℕ → List (List ℕ) → App → Option (ℕ × Bool × App)
  script_loop fuel line_no [] app = some (0, true, app)
  script_loop fuel line_no (buffer ∷ rest) app =
      let text = line_text buffer in
      let more = script_loop fuel (line_no + 1) rest app in
      if get_or text 0 0 == b'#' then more else elim (read_line text) [
        | none ↦ none
        | some blank ↦ script_loop fuel (line_no + 1) rest app
        | some bad_syntax ↦
            some (1, false, app_complain app (script_message (codes "syntax error") (line_no + 1)))
        | some quits ↦ some (0, false, app)
        | some (runs cmd) ↦ elim (execute_repl_command fuel app cmd) [
          | none ↦ none
          | some (false, app') ↦
              some (
                1,
                false,
                app_complain app' (script_message (codes "command failed") (line_no + 1)),
              )
          | some (true, app') ↦ script_loop fuel (line_no + 1) rest app'
        ]
      ]

  -- The script is `none` if it cannot be opened, and otherwise what can be read of it, and whether
  -- a read error is behind that.
  unfoldable pub script_run : ℕ → List ℕ → Option (List ℕ × Bool) → App → Option (ℕ × App)
  unfolding script_lines
  script_run fuel path none app =
      some (2, app_complain app (codes "ERR: failed to open script: " ++ (path ++ codes "\n")))
  script_run fuel path (some (file, read_error)) app =
      Option.map (λ r. script_end path (read_error && r.1) r.0 r.2)
        (script_loop fuel 0 (script_lines read_error file) app)

-- ===== src/Client/Main.antt =====
-- The start and the end of the application in tools/fx5_client/src/fx5_client_app.c, and `main` of
-- tools/fx5_client/src/main.c.
pub mod Start
pub mod Total
use fx5_slmp_library.Prelude.{
  ℕ, Bool, true, false, ◌||◌, not, Option, none, some, List, [], ◌∷◌, ◌++◌, if◌then◌else◌,
}
use mathlib.Core.Option
use fx5_slmp_library.Prelude.Strings.{codes}
use fx5_slmp_library.Types.{st_ok}
use fx5_slmp_library.Api.Pool.{Pool, initial_pool, acquire, release}
use fx5_slmp_library.Client.Text.{same_text}
use fx5_slmp_library.Client.Config.{
  ClientConfig, Memory, config_init, config_set_host, load_ini_file,
}
use fx5_slmp_library.Client.Format.{Console, print, complain, digits_in}
use fx5_slmp_library.Client.Transport.{
  System, Socket, socket_open, socket_close, socket_connect, socket_set_recv_timeout_ms,
}
use fx5_slmp_library.Client.Session.{App, app_print, app_complain, is_3e, repl_run, script_run}
use fx5_slmp_library.Client.Options.{parse_port, parse_options, usage_text}

unfoldable pub banner : ClientConfig → List ℕ
banner config =
    codes "fx5_client starting...\n"
    ++ (codes "  host   : "
        ++ (Option.get_or config.host (codes "(null)")
            ++ (codes "\n  port   : "
                ++ (digits_in 10 config.port
                    ++ (codes "\n  trace  : "
                        ++ ((if config.trace_enabled then codes "on" else codes "off")
                            ++ (codes "\n  header : "
                                ++ ((if is_3e config.network_settings.header_type
                                      then codes "3E"
                                      else codes "4E")
                                    ++ codes "\n"))))))))

-- What the application reads: the standard input, and the scripts by their paths.
pub record Inputs : Type 0 where
  pub stdin : List ℕ
  pub script : List ℕ → Option (List ℕ × Bool)

abbrev pub silent : Console
silent = record { out = []; err = [] }

module _ (sys : System) where
  open sys use {World}

  -- The socket once it is open: connected, with its timeout set.
  unfoldable pub app_connect : App sys → Socket → Bool × App sys
  app_connect app sock =
      let (connected, sock', w) =
        socket_connect sys sock app.config.host app.config.port app.world in
      let (timed, w') = socket_set_recv_timeout_ms sys sock' app.config.recv_timeout_ms w in
      if not connected
      then (
        false,
        app_complain sys (record app { sock = some sock'; world = w })
            (codes "ERR: connect failed\n"),
      )
      else if not timed
      then (
        true,
        app_complain sys (record app { sock = some sock'; world = w' })
            (codes "WARN: failed to set recv timeout\n"),
      )
      else (true, record app { sock = some sock'; world = w' })

  -- `fx5_transport_global_init` does nothing on a POSIX system, and always succeeds.
  unfoldable pub app_init : ClientConfig → Pool → World → Console → Bool × App sys
  app_init config pool w console =
      let (pool', handle, status) = acquire true pool in
      let app : App sys = record {
        config = config;
        ctx = Option.get_or handle none;
        sock = none;
        pool = pool';
        world = w;
        console = console;
      } in
      let (sock, w') = socket_open sys w in
      elim status [
        | st_ok ↦ elim sock [
          | none ↦ (false, record app { world = w' })
          | some s ↦ app_connect (record app { sock = some s; world = w' }) s
        ]
        | _ ↦ (false, record app { ctx = none })
      ]

  unfoldable pub app_shutdown : App sys → App sys
  app_shutdown app =
      let (pool', ctx') = release app.pool (some app.ctx) in
      record app {
        world = socket_close sys app.sock app.world;
        pool = pool';
        ctx = Option.get_or ctx' none;
      }

  -- The loop that the configuration asks for, and the end; `none` while no answer comes.
  unfoldable pub app_session : ℕ → Inputs → App sys → Option (ℕ × App sys)
  app_session fuel inputs app =
      Option.map (λ r. (r.0, app_shutdown r.1))
        (elim app.config.script_path [
          | none ↦ repl_run sys fuel inputs.stdin (app_print sys app (banner app.config))
          | some path ↦ script_run sys fuel path (inputs.script path) app
        ])

  unfoldable pub app_run : ℕ → Inputs → ClientConfig → Pool → World → Console → Option (ℕ × App sys)
  app_run fuel inputs config pool w console =
      let (ready, app) = app_init config pool w console in
      let session = app_session fuel inputs app in
      if ready
      then session
      else some (2, app_complain sys app (codes "ERR: failed to initialize client app\n"))

  -- What `main` finds: the file fx5_client.ini, memory for its calls, and a version.
  pub record Surroundings : Type 0 where
    pub inputs : Inputs
    pub ini_file : Option (List ℕ)
    pub ini_memory : ℕ → Memory
    pub host_available : Bool
    pub option_available : ℕ → Bool
    pub version : List ℕ
    pub start_world : World

  -- The exit code, the world and the streams at the end.
  pub record Exit : Type 0 where
    pub code : ℕ
    pub world : World
    pub console : Console

  abbrev ends : Surroundings → ℕ → Console → Option Exit
  ends s code console = some (record { code = code; world = s.start_world; console = console })

  -- The rest of `main`, with the options read. The pool is the one of static storage.
  unfoldable pub run_with : ℕ → Surroundings → ClientConfig → Option Exit
  run_with fuel s config =
      Option.map (λ r. record { code = r.0; world = r.1.world; console = r.1.console })
        (app_run fuel s.inputs config initial_pool s.start_world silent)

  -- The configuration that `main` starts with: the defaults, then the file.
  unfoldable pub base_config : Surroundings → ClientConfig
  base_config s = (load_ini_file s.ini_memory s.ini_file config_init).0

  unfoldable pub main_with : ℕ → Surroundings → List ℕ → List ℕ → ℕ → List (List ℕ) → Option Exit
  main_with fuel s program host port options =
      let (config, good) = config_set_host s.host_available (base_config s) host in
      let (config', wrong) =
        parse_options s.option_available options (record config { port = port }) in
      if not good then ends s 1 (complain silent (codes "Failed to set host\n")) else elim wrong [
        | some arg ↦ ends s 1 (
            complain silent
              (codes "Unknown option: " ++ (arg ++ (codes "\n" ++ usage_text program))))
        | none ↦ run_with fuel s config'
      ]

  -- The port is looked at before anything else.
  unfoldable pub main_connects :
      ℕ → Surroundings → List ℕ → List ℕ → List ℕ → List (List ℕ) → Option Exit
  main_connects fuel s program host port_text options = elim (parse_port port_text) [
    | none ↦ ends s 1 (
        complain silent
          (codes "Invalid port: " ++ (port_text ++ (codes "\n" ++ usage_text program))))
    | some port ↦ main_with fuel s program host port options
  ]

  -- The name of the program, `argv[0]`, and the arguments behind it.
  unfoldable pub main : ℕ → Surroundings → List ℕ → List (List ℕ) → Option Exit
  main fuel s program [] = ends s 1 (complain silent (usage_text program))
  main fuel s program (arg ∷ []) =
      if same_text arg (codes "--version")
      then ends s 0 (print silent (codes "fx5_client " ++ (s.version ++ codes "\n")))
      else if same_text arg (codes "--help") || same_text arg (codes "-h")
      then ends s 0 (complain silent (usage_text program))
      else ends s 1 (complain silent (usage_text program))
  main fuel s program (host ∷ port ∷ options) = main_connects fuel s program host port options

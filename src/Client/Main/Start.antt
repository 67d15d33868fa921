-- ===== src/Client/Main/Start.antt =====
-- The start of the application, on every branch.
use fx5_slmp_library.Prelude.{
  ℕ, ◌≤◌, ◌≡◌, refl, ap, ◌∙◌, sym, subst, Bool, true, not, List, [], ◌∷◌, Option, some, none, arith,
  get_elem?, set, Bool-cases, inl, inr, Option-cases,
}
use mathlib.Core.Option
use fx5_slmp_library.Types.{Status, st_ok}
use fx5_slmp_library.Context.{Context}
use fx5_slmp_library.Api.Pool.{Pool, acquire}
use fx5_slmp_library.Api.Leases.{handed_out, acquire_lem}
use fx5_slmp_library.Api.Leases.Run.{AreSound, acquire-AreSound}
use fx5_slmp_library.Client.Config.{ClientConfig}
use fx5_slmp_library.Client.Format.{Console, digits_in}
use fx5_slmp_library.Client.Transport.{
  System, Socket, socket_open, socket_close, socket_set_connected_handle, connect_loop,
  socket_connect, socket_set_recv_timeout_ms,
}
use fx5_slmp_library.Client.App.Rounds.{IsFinite}
use fx5_slmp_library.Client.Session.{App}
use fx5_slmp_library.Client.Session.Running.{IsRunning, get_elem?-set}
use fx5_slmp_library.Client.Main.{app_connect, app_init}

module _ (sys : System) (finite : IsFinite sys) where
  open finite use {left}

  set_connected_left :
      (sock : Socket) (h : ℕ) (w : sys.World)
      → left (socket_set_connected_handle sys sock h w).1 ≤ left w
  unfolding socket_set_connected_handle
  set_connected_left sock h w = elim (Option-cases sock.handle) [
    | inl e ↦ rw (e, socket_set_connected_handle) (omega arith)
    | inr (old, e) ↦ rw (e, socket_set_connected_handle) (finite.left-close w old)
  ]

  connect_loop_left :
      (sock : Socket) (addresses : List sys.Address) (w : sys.World)
      → left (connect_loop sys sock addresses w).2 ≤ left w
  unfolding connect_loop
  connect_loop_left sock [] w = omega arith
  connect_loop_left sock (it ∷ rest) w =
      let w1 = (sys.open_socket w it).1 in
      let opened = finite.left-open_socket w it in
      elim (Option-cases (sys.open_socket w it).0) [
        | inl e ↦ rw (e, connect_loop) (omega (arith, connect_loop_left sock rest w1, opened))
        | inr (h, e) ↦
            let w2 = (sys.connect w1 h it).1 in
            let tried = finite.left-connect w1 h it in
            elim (Bool-cases (sys.connect w1 h it).0) [
              | inl up ↦
                  rw (e, connect_loop)
                    (rw (up, connect_loop)
                      (omega (arith, set_connected_left sock h w2, tried, opened)))
              | inr down ↦
                  let w3 = sys.close w2 h in
                  rw (e, connect_loop)
                    (rw (down, connect_loop)
                      (omega (
                        arith,
                        connect_loop_left sock rest w3,
                        finite.left-close w2 h,
                        tried,
                        opened,
                      )))
            ]
      ]

  socket_connect_left :
      (sock : Socket) (host : Option (List ℕ)) (port : ℕ) (w : sys.World)
      → left (socket_connect sys sock host port w).2 ≤ left w
  unfolding socket_connect
  socket_connect_left sock none port w = omega arith
  socket_connect_left sock (some host) port w =
      let found = sys.getaddrinfo w host (digits_in 10 port) in
      let looked = finite.left-getaddrinfo w host (digits_in 10 port) in
      elim (Option-cases found.0) [
        | inl e ↦ rw (e, socket_connect) looked
        | inr (addresses, e) ↦
            rw (e, socket_connect) (omega (arith, connect_loop_left sock addresses found.1, looked))
      ]

  timeout_left :
      (sock : Socket) (ms : ℕ) (w : sys.World)
      → left (socket_set_recv_timeout_ms sys sock ms w).1 ≤ left w
  unfolding socket_set_recv_timeout_ms
  timeout_left sock ms w = elim (Option-cases sock.handle) [
    | inl e ↦ rw (e, socket_set_recv_timeout_ms) (omega arith)
    | inr (h, e) ↦ rw (e, socket_set_recv_timeout_ms) (finite.left-set_timeout w h _ _)
  ]

  pub close_left : (sock : Option Socket) (w : sys.World) → left (socket_close sys sock w) ≤ left w
  unfolding socket_close
  close_left none w = omega arith
  close_left (some sock) w = elim (Option-cases sock.handle) [
    | inl e ↦ rw (e, socket_close) (omega arith)
    | inr (h, e) ↦ rw (e, socket_close) (finite.left-close w h)
  ]

  -- The start leaves a sound pool, and an application that can run if it succeeds.
  pub record IsStarted (n : ℕ) (r : Bool × App sys) : Type 0 where
    pub running : r.0 ≡ true → IsRunning sys finite r.1
    pub sound : AreSound r.1.pool
    pub fewer : left r.1.world ≤ n

  moved :
      (app : App sys) (sock : _) (w : sys.World) (console : Console)
      → IsRunning sys finite app
      → IsRunning sys finite (record app { sock = sock; world = w; console = console })
  moved app sock w console r = record {
    slot = r.slot;
    held = r.held;
    at = r.at;
    there = r.there;
    used = r.used;
    sound = r.sound;
  }

  connected :
      (app : App sys) (sock : Socket)
      → IsRunning sys finite app
      → IsStarted (left app.world) (app_connect sys app sock)
  unfolding app_connect
  connected app sock r =
      let c = socket_connect sys sock app.config.host app.config.port app.world in
      let t = socket_set_recv_timeout_ms sys c.1 app.config.recv_timeout_ms c.2 in
      let one = socket_connect_left sock app.config.host app.config.port app.world in
      let two = timeout_left c.1 app.config.recv_timeout_ms c.2 in
      elim (Bool-cases (not c.0)) [
        | inl e ↦ rw e (record { running = λ k. moved app _ _ _ r; sound = r.sound; fewer = one })
        | inr e ↦ elim (Bool-cases (not t.0)) [
          | inl f ↦
              rw (e, f)
                (record {
                  running = λ k. moved app _ _ _ r;
                  sound = r.sound;
                  fewer = omega (arith, one, two);
                })
          | inr f ↦
              rw (e, f)
                (record {
                  running = λ k. moved app _ _ _ r;
                  sound = r.sound;
                  fewer = omega (arith, one, two);
                })
        ]
      ]

  handed_out_there :
      (pool : Pool) (i : ℕ) (c : Context) (app : App sys)
      → AreSound pool
      → acquire true pool ≡ (set pool i (handed_out c), some (some i), st_ok)
      → get_elem? pool i ≡ some c
      → app.ctx ≡ some i
      → app.pool ≡ set pool i (handed_out c)
      → IsRunning sys finite app
  handed_out_there pool i c app s a e ctx pools = record {
    slot = i;
    held = handed_out c;
    at = ctx;
    there = ap (λ (q : Pool). get_elem? q i) pools ∙ get_elem?-set pool i c (handed_out c) e;
    used = refl;
    sound =
        subst AreSound (ap (λ (q : Pool × Option (Option ℕ) × Status). q.0) a ∙ sym pools)
          (acquire-AreSound pool s);
  }

  pub app_init_lem :
      (config : ClientConfig) (pool : Pool) (w : sys.World) (console : Console)
      → AreSound pool
      → IsStarted (left w) (app_init sys config pool w console)
  unfolding app_init socket_open
  app_init_lem config pool w console s =
      let w1 = (sys.calloc w).1 in
      let allocated = finite.left-calloc w in
      elim (acquire_lem pool) [
        | inl (i, c, a, e, free, before) ↦
            let app : App sys = record {
              config = config;
              ctx = Option.get_or (acquire true pool).1 none;
              sock = some (record { handle = none });
              pool = (acquire true pool).0;
              world = w1;
              console = console;
            } in
            let r =
              handed_out_there pool i c app s a e
                (ap (λ (q : Pool × Option (Option ℕ) × Status). Option.get_or q.1 none) a)
                (ap (λ (q : Pool × Option (Option ℕ) × Status). q.0) a) in
            let k = connected app (record { handle = none }) r in
            rw (a, app_init)
              (elim (Bool-cases (sys.calloc w).0) [
                | inl there ↦ rw there (record {
                  running = k.running;
                  sound = k.sound;
                  fewer = omega (arith, k.fewer, allocated);
                })
                | inr missing ↦
                    rw missing
                      (record { running = λ z. absurd (cc); sound = r.sound; fewer = allocated })
              ])
        | inr (a, all) ↦
            rw (a, app_init)
              (record {
                running = λ k. absurd (cc);
                sound = acquire-AreSound pool s;
                fewer = omega arith;
              })
      ]

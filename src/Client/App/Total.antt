-- ===== src/Client/App/Total.antt =====
-- Every command comes to an end, on a peer that goes silent at some time.
use fx5_slmp_library.Prelude.{
  ℕ, zero, suc, ◌≤◌, ◌<◌, ◌≡◌, refl, Bool, true, false, ◌==◌, drop, length-drop, List, [], ◌∷◌,
  Option, some, none, arith, length, take, replicate, Bool-cases, inl, inr, Option-cases,
}
use fx5_slmp_library.Prelude.Strings.{codes}
use fx5_slmp_library.Types.{Status, st_ok, err_unsupported}
use fx5_slmp_library.Context.{Context}
use fx5_slmp_library.Api.{build_request}
use fx5_slmp_library.Api.Ready.{IsReady}
use fx5_slmp_library.Api.Ready.Transfer.{build_request-IsReady}
use mathlib.Core.Option
use fx5_slmp_library.Client.Command.{ClientCommand}
use fx5_slmp_library.Client.Config.{ClientConfig}
use fx5_slmp_library.Client.Format.{Console, print}
use fx5_slmp_library.Client.Commands.{apply_command_to_context, print_response}
use fx5_slmp_library.Client.Commands.Ready.{apply_command-IsReady}
use fx5_slmp_library.Client.Transport.{System, Socket, send_loop, socket_send_all}
use fx5_slmp_library.Client.App.{
  Io, answers, waits, receive_round, receive_response, after_send, after_build_request, after_apply,
  execute_command, trace, max_request_size,
}
use fx5_slmp_library.Client.App.Rounds.{IsFinite, Rounds, io_at, receive_round_total}

module _ (sys : System) (finite : IsFinite sys) where
  open finite use {left}

  -- A result, with a context that calls can be made on.
  abbrev pub Ends : ℕ → Option (Bool × Io sys) → Type 0
  Ends n r =
      (ok : Bool) × (io : Io sys) × (r ≡ some (ok, io)) × IsReady io.context × (left io.world ≤ n)

  after_round :
      (fuel : ℕ) (traced : Bool) (sock : Socket) (io : Io sys) (n : ℕ)
      → left io.world ≤ n
      → Rounds sys finite (left io.world) (receive_round sys traced sock io)
      → ((io' : Io sys)
          → IsReady io'.context
          → left io'.world < left io.world
          → Ends n (receive_response sys fuel traced sock io'))
      → Ends n (receive_response sys (suc fuel) traced sock io)
  unfolding receive_response
  after_round fuel traced sock io n l (answers ok io', e, g) more =
      (ok, io', rw (e, receive_response) refl, g.0, omega (arith, g.1))
  after_round fuel traced sock io n l (waits io', e, g) more =
      rw (e, receive_response) (more io' g.0 g.1)

  -- `fx5_client_receive_response` returns: a round of it for each piece to come, and one more, are
  -- enough.
  received_total :
      (fuel : ℕ) (traced : Bool) (sock : Socket) (io : Io sys) (n : ℕ)
      → IsReady io.context
      → left io.world < fuel
      → left io.world ≤ n
      → Ends n (receive_response sys fuel traced sock io)
  received_total zero traced sock io n h k l = absurd (omega arith)
  received_total (suc fuel) traced sock io n h k l =
      after_round fuel traced sock io n l
        (receive_round_total sys finite sock traced io.context io.world io.console h)
        (λ io' g less. received_total fuel traced sock io' n g (omega arith) (omega arith))

  printed_total :
      (fuel : ℕ) (traced : Bool) (cmd : ClientCommand) (sock : Socket) (io : Io sys) (n : ℕ)
      → Ends n (receive_response sys fuel traced sock io)
      → Ends n (after_send sys fuel traced cmd sock true io)
  unfolding after_send
  printed_total fuel traced cmd sock io n (true, io', e, h, l) = (
    true,
    record io' { console = print io'.console (print_response cmd io'.context) },
    rw (e, after_send) refl,
    h,
    l,
  )
  printed_total fuel traced cmd sock io n (false, io', e, h, l) =
      (false, io', rw (e, after_send) refl, h, l)

  sent_total :
      (fuel : ℕ) (traced : Bool) (cmd : ClientCommand) (sock : Socket) (sent : Bool) (io : Io sys)
      (n : ℕ)
      → IsReady io.context
      → left io.world < fuel
      → left io.world ≤ n
      → Ends n (after_send sys fuel traced cmd sock sent io)
  unfolding after_send
  sent_total fuel traced cmd sock false io n h k l = (false, _, refl, h, l)
  sent_total fuel traced cmd sock true io n h k l =
      printed_total fuel traced cmd sock io n (received_total fuel traced sock io n h k l)

  -- Sending ends as well, and brings no pieces.
  abbrev Sends : ℕ → Option (Bool × sys.World) → Type 0
  Sends n r = (ok : Bool) × (w : sys.World) × (r ≡ some (ok, w)) × (left w ≤ n)

  send_loop_total :
      (fuel h : ℕ) (xs : List ℕ) (w : sys.World)
      → length xs ≤ fuel
      → Sends (left w) (send_loop sys fuel h xs w)
  unfolding send_loop
  send_loop_total fuel h [] w l = (true, w, refl, omega arith)
  send_loop_total zero h (x ∷ xs) w l = absurd (omega arith)
  send_loop_total (suc fuel) h (x ∷ xs) w l =
      let n = (sys.send w h (x ∷ xs)).0 in
      let w1 = (sys.send w h (x ∷ xs)).1 in
      let less = finite.left-send w h (x ∷ xs) in
      elim (Bool-cases (n == 0)) [
        | inl stop ↦ (false, w1, rw stop refl, less)
        | inr go ↦
            let more =
              send_loop_total fuel h (drop n (x ∷ xs)) w1
                (ground (arith, length-drop n (x ∷ xs))) in
            (more.0, more.1, rw go more.2, omega (arith, more.3))
      ]

  send_total :
      (sock : Socket) (xs : List ℕ) (w : sys.World) → Sends (left w) (socket_send_all sys sock xs w)
  unfolding socket_send_all
  send_total sock xs w = elim (Option-cases sock.handle) [
    | inl e ↦ (false, w, rw (e, socket_send_all) refl, omega arith)
    | inr (h, e) ↦
        let s = send_loop_total (length xs) h xs w (omega arith) in
        (s.0, s.1, rw (e, socket_send_all) s.2, s.3)
  ]

  built_total :
      (fuel : ℕ) (traced : Bool) (cmd : ClientCommand) (sock : Socket) (status : Status)
      (buf : List ℕ) (size : ℕ) (io : Io sys)
      → IsReady io.context
      → left io.world < fuel
      → Ends (left io.world) (after_build_request sys fuel traced cmd sock status buf size io)
  unfolding after_build_request
  built_total fuel traced cmd sock st_ok buf size io h k =
      let s = send_total sock (take size buf) io.world in
      rw (s.2, after_build_request)
        (sent_total fuel traced cmd sock s.0
          (record io { world = s.1; console = trace traced io.console (codes "TX: ") buf size })
          (left io.world) h (omega (arith, s.3)) s.3)
  built_total fuel traced cmd sock _ buf size io h k = (false, _, refl, h, omega arith)

  applied_total :
      (fuel : ℕ) (traced : Bool) (cmd : ClientCommand) (sock : Socket) (status : Status)
      (c : Option Context) (w : sys.World) (console : Console)
      → IsReady c
      → left w < fuel
      → Ends (left w) (after_apply sys fuel traced cmd sock status (io_at sys finite c w console))
  unfolding after_apply
  applied_total fuel traced cmd sock st_ok none w console h k = absurd h
  applied_total fuel traced cmd sock st_ok (some c) w console h k =
      let buf = replicate max_request_size 0 in
      let b = build_request (some c) (some buf) max_request_size true in
      built_total fuel traced cmd sock b.status b.out_buf (Option.get_or b.actual_size 0)
        (io_at sys finite b.context w console)
        (build_request-IsReady c h (some buf) max_request_size true) k
  applied_total fuel traced cmd sock err_unsupported c w console h k =
      (false, _, refl, h, omega arith)
  applied_total fuel traced cmd sock _ c w console h k = (false, _, refl, h, omega arith)

  -- On a world whose sockets bring finitely many more pieces, every command comes to an end, whatever
  -- it is, whatever the bytes are and whether or not the socket is connected: a round of the receive
  -- loop for each piece to come, and one more, are enough. The context is then well-formed and in use
  -- again, and no more pieces are to come than before.
  pub execute_command_total :
      (fuel : ℕ) (config : ClientConfig) (cmd : ClientCommand) (sock : Socket) (c : Context)
      (w : sys.World) (console : Console)
      → IsReady (some c)
      → left w < fuel
      → (ok : Bool) × (io : Io sys) × (execute_command sys fuel config cmd sock
            (record { context = some c; world = w; console = console })
          ≡ some (ok, io))
        × IsReady io.context
        × (left io.world ≤ left w)
  unfolding execute_command
  execute_command_total fuel config cmd sock c w console h k =
      let a = apply_command_to_context (some c) cmd config in
      applied_total fuel config.trace_enabled cmd sock a.1 a.0 w console
        (apply_command-IsReady c cmd config h) k

-- ===== src/Client/App.antt =====
-- tools/fx5_client/src/fx5_client_app.c: one command from the request to the printed response.
pub mod Receiving
pub mod Answer
pub mod Asked
pub mod Exchange
pub mod Reading
pub mod Writing
pub mod Endless
pub mod Rounds
pub mod Total
use fx5_slmp_library.Prelude.{
  ℕ, zero, suc, ◌+◌, Bool, true, false, Option, none, some, List, [], ◌∷◌, ◌++◌, ◌==◌,
  if◌then◌else◌, take, replicate, u16, length,
}
use mathlib.Core.Option
use fx5_slmp_library.Prelude.Strings.{codes}
use fx5_slmp_library.Types.{
  Status, st_ok, err_null, err_too_small, err_need_more, err_invalid_address, err_invalid_count,
  err_invalid_index, err_unsupported, err_internal, err_resync, err_header_mismatch, err_no_context,
  err_not_acquired, err_state, response_error, req_header_size_4e, req_pdu_header_size,
  max_bit_payload_bytes, iobuf_guard_bytes,
}
use fx5_slmp_library.Context.{Context}
use fx5_slmp_library.Api.{build_request, feed_response_bytes, parse_response}
use fx5_slmp_library.Client.Command.{ClientCommand}
use fx5_slmp_library.Client.Config.{ClientConfig}
use fx5_slmp_library.Client.Commands.{apply_command_to_context, print_response}
use fx5_slmp_library.Client.Format.{Console, print, complain, digits_in, hex2}
use fx5_slmp_library.Client.Transport.{
  System, Socket, RecvStatus, recv_ok, recv_timeout, recv_closed, recv_error, socket_send_all,
  socket_recv_some,
}

-- The numbers of `fx5_status_t`, which the messages show.
unfoldable pub status_number : Status → ℕ
status_number st_ok = 0
status_number err_null = 1
status_number err_too_small = 2
status_number err_need_more = 3
status_number err_invalid_address = 4
status_number err_invalid_count = 5
status_number err_invalid_index = 6
status_number err_unsupported = 7
status_number err_internal = 8
status_number err_resync = 9
status_number err_header_mismatch = 10
status_number err_no_context = 11
status_number err_not_acquired = 12
status_number err_state = 13
status_number response_error = 14

-- `"ERR: … failed (%d)\n"`
abbrev pub failure : List ℕ → Status → List ℕ
failure what status =
    codes "ERR: "
    ++ (what ++ (codes " failed (" ++ (digits_in 10 (status_number status) ++ codes ")\n")))

-- The bytes from the `i`th on, in the loop of `fx5_client_hexdump`.
unfoldable pub hexdump_loop : ℕ → List ℕ → List ℕ
hexdump_loop i [] = []
hexdump_loop i (x ∷ xs) = (if i == 0 then [] else codes " ") ++ (hex2 x ++ hexdump_loop (i + 1) xs)

-- What is written for an array and a 16-bit size of it.
unfoldable pub hexdump : List ℕ → List ℕ → ℕ → List ℕ
hexdump prefix bytes size = prefix ++ (hexdump_loop 0 (take size bytes) ++ codes "\n")

abbrev pub trace : Bool → Console → List ℕ → List ℕ → ℕ → Console
trace enabled console prefix bytes size =
    if enabled then print console (hexdump prefix bytes size) else console

-- FX5_MAX_REQUEST_SIZE of include/fx5/fx5.h.
abbrev pub max_request_size : ℕ
max_request_size =
    req_header_size_4e + req_pdu_header_size + max_bit_payload_bytes + iobuf_guard_bytes

-- The size of `buffer` in `fx5_client_receive_response`.
abbrev pub recv_buffer_size : ℕ
recv_buffer_size = 512

module _ (sys : System) where
  open sys use {World}

  -- What a command works on: the context, the world and what has been printed.
  pub record Io : Type 0 where
    pub context : Option Context
    pub world : World
    pub console : Console

  abbrev pub said : Io → List ℕ → Io
  said io text = record io { console = complain io.console text }

  -- A round of the loop of `fx5_client_receive_response`: it returns, or goes on.
  pub data Reception : Type 0 where
    answers : Bool → Io → Reception
    waits : Io → Reception

  -- What is done about the status of `fx5_parse_response`.
  unfoldable pub after_parse : Status → Io → Reception
  unfolding status_number
  after_parse st_ok io = answers true io
  after_parse err_need_more io = waits io
  after_parse response_error io = answers true io
  after_parse status io = answers false (said io (failure (codes "parse response") status))

  -- With the bytes fed; `none` if the parser does not return.
  unfoldable pub after_feed : Status → Io → Option Reception
  unfolding status_number
  after_feed st_ok io = elim (parse_response io.context) [
    | none ↦ none
    | some (ctx, status) ↦ some (after_parse status (record io { context = ctx }))
  ]
  after_feed status io = some (answers false (said io (failure (codes "feed response") status)))

  unfoldable pub take_bytes : Bool → List ℕ → Io → Option Reception
  take_bytes traced bytes io =
      let (ctx, status) = feed_response_bytes io.context (some bytes) in
      after_feed status (record io {
        context = ctx;
        console = trace traced io.console (codes "RX: ") bytes (u16 (length bytes));
      })

  -- What is done about the status of `fx5_socket_recv_some`.
  unfoldable pub after_recv : Bool → RecvStatus → List ℕ → Io → Option Reception
  after_recv traced recv_ok bytes io = take_bytes traced bytes io
  after_recv traced recv_timeout bytes io =
      some (answers false (said io (codes "ERR: recv timeout\n")))
  after_recv traced recv_closed bytes io =
      some (answers false (said io (codes "ERR: connection closed\n")))
  after_recv traced recv_error bytes io =
      some (answers false (said io (codes "ERR: recv failed\n")))

  unfoldable pub receive_round : Bool → Socket → Io → Option Reception
  receive_round traced sock io =
      let (status, bytes, w) = socket_recv_some sys sock recv_buffer_size io.world in
      after_recv traced status bytes (record io { world = w })

  -- `for (;;)` on fuel: `none` while no answer has come.
  unfoldable pub receive_response : ℕ → Bool → Socket → Io → Option (Bool × Io)
  receive_response zero traced sock io = none
  receive_response (suc fuel) traced sock io = elim (receive_round traced sock io) [
    | none ↦ none
    | some (answers result io') ↦ some (result, io')
    | some (waits io') ↦ receive_response fuel traced sock io'
  ]

  -- With the request sent.
  unfoldable pub after_send : ℕ → Bool → ClientCommand → Socket → Bool → Io → Option (Bool × Io)
  after_send fuel traced cmd sock false io = some (false, said io (codes "ERR: send failed\n"))
  after_send fuel traced cmd sock true io = elim (receive_response fuel traced sock io) [
    | none ↦ none
    | some (false, io') ↦ some (false, io')
    | some (true, io') ↦
        some (true, record io' { console = print io'.console (print_response cmd io'.context) })
  ]

  -- With the request built: the array and the size.
  unfoldable pub after_build_request :
      ℕ → Bool → ClientCommand → Socket → Status → List ℕ → ℕ → Io → Option (Bool × Io)
  unfolding status_number
  after_build_request fuel traced cmd sock st_ok request_buf request_size io =
      elim (socket_send_all sys sock (take request_size request_buf) io.world) [
        | none ↦ none
        | some (sent, w) ↦ after_send fuel traced cmd sock sent (record io {
          world = w;
          console = trace traced io.console (codes "TX: ") request_buf request_size;
        })
      ]
  after_build_request fuel traced cmd sock status request_buf request_size io =
      some (false, said io (failure (codes "build") status))

  -- With the command applied to the context. The array is not initialised; what is behind the
  -- request is not sent.
  unfoldable pub after_apply : ℕ → Bool → ClientCommand → Socket → Status → Io → Option (Bool × Io)
  unfolding status_number
  after_apply fuel traced cmd sock st_ok io =
      let built =
        build_request io.context (some (replicate max_request_size 0)) max_request_size true in
      after_build_request fuel traced cmd sock built.status built.out_buf
        (Option.get_or built.actual_size 0) (record io { context = built.context })
  after_apply fuel traced cmd sock err_unsupported io =
      some (false, said io (codes "ERR: unsupported command or device\n"))
  after_apply fuel traced cmd sock status io =
      some (false, said io (failure (codes "apply") status))

  unfoldable pub execute_command :
      ℕ → ClientConfig → ClientCommand → Socket → Io → Option (Bool × Io)
  execute_command fuel config cmd sock io =
      let (ctx, status) = apply_command_to_context io.context cmd config in
      after_apply fuel config.trace_enabled cmd sock status (record io { context = ctx })

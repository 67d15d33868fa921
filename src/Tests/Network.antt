-- ===== src/Tests/Network.antt =====
-- The theorems on sending and receiving at a concrete peer.
use fx5_slmp_library.Prelude.{
  ℕ, ◌≡◌, refl, Bool, true, false, List, [], ◌∷◌, ◌++◌, some, none, arith, length, min, take,
  replicate,
}
use fx5_slmp_library.Types.{
  dev_d, batch_read, batch_write, header_4e, err_need_more, command_code, device_code,
}
use fx5_slmp_library.Context.{Context, reset_internal}
use fx5_slmp_library.Request.Devices.{
  is_bit_device, get_max_value_count, is_supported_device, is_supported_command,
}
use fx5_slmp_library.Api.{
  parse_response, reset, set_network_settings, set_request, set_request_on, set_write_value,
  set_write_value_on,
}
use fx5_slmp_library.Api.Invariant.{IsWellFormed}
use fx5_slmp_library.Api.Parse.Prefix.{IsWaiting, parse_response-prefix}
use fx5_slmp_library.Api.Ready.{IsReady}
use fx5_slmp_library.Client.Command.{ClientCommand, get_command, set_command, command_init}
use fx5_slmp_library.Client.Config.{config_init}
use fx5_slmp_library.Client.Commands.Report.{report}
use fx5_slmp_library.Client.Format.{Console, print}
use fx5_slmp_library.Client.Transport.{
  System, Socket, Received, received, would_block, socket_send_all, send_loop,
}
use fx5_slmp_library.Client.Transport.Sending.{SendLog, socket_send_all_lem}
use fx5_slmp_library.Client.App.{receive_response, execute_command}
use fx5_slmp_library.Client.App.Writing.{outcome, execute_command-write}
use fx5_slmp_library.Client.Commands.{
  apply_command_to_context, client_device_allows_write, apply_request, write_values,
}
use fx5_slmp_library.Client.Commands.Apply.{configured}
use fx5_slmp_library.Api.Requests.{requested}
use fx5_slmp_library.Client.App.Reading.{execute_command-read}
use fx5_slmp_library.Client.App.Endless.{receive_response_endless}
use fx5_slmp_library.Tests.{
  context_at, context_at-IsWellFormed, header_at, part_context, part_context-IsWellFormed,
}

-- What the peer will send, and what it has been sent.
record Wire : Type 0 where
  incoming : List Received
  sent : List ℕ

abbrev receive : Wire → Received × Wire
receive w = elim w.incoming [
  | [] ↦ (would_block, w)
  | next ∷ rest ↦ (next, record w { incoming = rest })
]

abbrev chunk : List ℕ → ℕ
chunk xs = min 10 (length xs)

-- A system with one socket, the number 3, whose `send` takes up to 10 bytes.
abbrev peer : System
peer = record {
  World = Wire;
  Address = ℕ;
  calloc = λ w. (true, w);
  getaddrinfo = λ w host port. (some (1 ∷ []), w);
  open_socket = λ w address. (some 3, w);
  connect = λ w h address. (true, w);
  close = λ w h. w;
  send = λ w h xs. (chunk xs, record w { sent = w.sent ++ take (chunk xs) xs });
  set_timeout = λ w h seconds rest. (true, w);
  recv = λ w h size. receive w;
}

abbrev connected_socket : Socket
connected_socket = record { handle = some 3 }

abbrev sent_log : SendLog peer
sent_log = record { sent = λ w h. w.sent; sent-send = λ w h xs. refl }

abbrev bytes_12 : List ℕ
bytes_12 = replicate 12 7

abbrev quiet_wire : Wire
quiet_wire = record { incoming = []; sent = 1 ∷ [] }

socket_send_all_lem_example :
    (ok : Bool) × (w' : Wire) × (part : ℕ) × (socket_send_all peer connected_socket bytes_12
        quiet_wire
      ≡ some (ok, w'))
    × (w'.sent ≡ (1 ∷ []) ++ take part bytes_12)
    × (ok ≡ true → w'.sent ≡ (1 ∷ []) ++ bytes_12)
socket_send_all_lem_example =
    socket_send_all_lem peer sent_log 3 connected_socket bytes_12 quiet_wire refl

-- A context that holds nothing.
abbrev idle_context : Context
idle_context = context_at batch_read dev_d 2 []

idle_context-IsWellFormed : IsWellFormed idle_context
unfolding get_max_value_count is_supported_device is_supported_command is_bit_device
idle_context-IsWellFormed =
    context_at-IsWellFormed batch_read dev_d 2 [] (omega arith) tt (omega arith) refl refl

abbrev no_text : Console
no_text = record { out = []; err = [] }

-- A peer that sends the byte 1 again and again.
abbrev noisy : System
noisy = record peer { recv = λ w h size. (received (1 ∷ []), w) }

receive_response_endless_example :
    receive_response noisy 1000 false connected_socket
      (record { context = some idle_context; world = quiet_wire; console = no_text })
    ≡ none
receive_response_endless_example =
    receive_response_endless noisy 3 connected_socket refl false (λ _. Unit) 1000 idle_context
      quiet_wire no_text (λ w _. (1, w, (omega arith, refl), refl, tt)) tt idle_context-IsWellFormed
      refl refl

-- The header of a frame, of whose PDU nothing has come.
parse_response-prefix_example :
    (o : Context) × (parse_response (some (part_context 6)) ≡ some (some o, err_need_more))
    × IsWaiting (part_context 6) o
parse_response-prefix_example =
    parse_response-prefix (part_context 6) (part_context-IsWellFormed 6 (omega arith)) refl
      header_4e (header_at 6) (replicate 6 0) (replicate 6 0) (refl, refl) (omega arith)
      (omega arith) (refl, refl, refl) refl (omega arith)

-- A read of D10 and D11, and the answer to it in two pieces, with a byte behind it.
abbrev read_two : ClientCommand
read_two = record command_init {
  command_type = get_command;
  device = dev_d;
  start_address = 10;
  count = 2;
}

abbrev answer_header : List ℕ
answer_header = 0xD4 ∷ 0 ∷ 0 ∷ 0 ∷ 0 ∷ 0 ∷ 0 ∷ 0xFF ∷ 0xFF ∷ 3 ∷ 0 ∷ 6 ∷ 0 ∷ []

abbrev first_piece : List ℕ
first_piece = 0xD4 ∷ 0 ∷ 0 ∷ 0 ∷ 0 ∷ []

abbrev last_piece : List ℕ
last_piece = 0 ∷ 0 ∷ 0xFF ∷ 0xFF ∷ 3 ∷ 0 ∷ 6 ∷ 0 ∷ 0 ∷ 0 ∷ 0x34 ∷ 0x12 ∷ 0x78 ∷ 0x56 ∷ 9 ∷ []

abbrev request_bytes : List ℕ
request_bytes =
    0x54 ∷ 0 ∷ 0 ∷ 0 ∷ 0 ∷ 0 ∷ 0 ∷ 0xFF ∷ 0xFF ∷ 3 ∷ 0 ∷ 12 ∷ 0 ∷ 0x10 ∷ 0 ∷ 1 ∷ 4 ∷ 0 ∷ 0 ∷ 10 ∷ 0
    ∷ 0 ∷ 0xA8 ∷ 2 ∷ 0 ∷ []

abbrev wire : List Received → List ℕ → Wire
wire incoming sent = record { incoming = incoming; sent = sent }

execute_command-read_example :
    (out : Context) × (execute_command peer 2 config_init read_two connected_socket (record {
      context = some idle_context;
      world = wire (received first_piece ∷ received last_piece ∷ []) [];
      console = no_text;
    })
      ≡ some (
        true,
        record {
          context = some out;
          world = wire [] request_bytes;
          console = print no_text (report dev_d 10 0 (0x1234 ∷ 0x5678 ∷ []));
        },
      ))
    × IsReady (some out)
unfolding config_init is_supported_command is_supported_device is_bit_device socket_send_all
    send_loop reset_internal command_code device_code
execute_command-read_example =
    execute_command-read peer 3 connected_socket refl config_init refl refl read_two refl refl refl
      idle_context idle_context-IsWellFormed refl 0 header_4e answer_header (9 ∷ [])
      (0x1234 ∷ 0x5678 ∷ []) last_piece (first_piece ∷ [])
      (wire (received first_piece ∷ received last_piece ∷ []) [])
      (wire (received first_piece ∷ received last_piece ∷ []) request_bytes)
      (wire (received last_piece ∷ []) request_bytes) (wire [] request_bytes) no_text refl
      (refl, refl) (refl, refl, refl) refl (omega arith)
      (wire (received last_piece ∷ []) request_bytes, refl, refl) refl (omega arith, tt)
      (omega arith) refl (omega arith) (omega arith)

-- A write of 7 to D10, and the context that it makes its request of.
abbrev write_one : ClientCommand
write_one = record command_init {
  command_type = set_command;
  device = dev_d;
  start_address = 10;
  count = 1;
  values = 7 ∷ replicate 511 0;
  value_count = 1;
}

abbrev write_request : Context
write_request = record (requested (configured idle_context config_init) batch_write dev_d 10 1) {
  values = 7 ∷ replicate 31 0;
}

-- The answer refuses the write with the end code 0xC056, in one piece.
abbrev refusal_frame : List ℕ
refusal_frame = 0xD4 ∷ 0 ∷ 0 ∷ 0 ∷ 0 ∷ 0 ∷ 0 ∷ 0xFF ∷ 0xFF ∷ 3 ∷ 0 ∷ 2 ∷ 0 ∷ []

abbrev write_bytes : List ℕ
write_bytes =
    0x54 ∷ 0 ∷ 0 ∷ 0 ∷ 0 ∷ 0 ∷ 0 ∷ 0xFF ∷ 0xFF ∷ 3 ∷ 0 ∷ 14 ∷ 0 ∷ 0x10 ∷ 0 ∷ 1 ∷ 0x14 ∷ 0 ∷ 0 ∷ 10
    ∷ 0 ∷ 0 ∷ 0xA8 ∷ 1 ∷ 0 ∷ 7 ∷ 0 ∷ []

abbrev refusal_piece : List ℕ
refusal_piece = refusal_frame ++ (0x56 ∷ 0xC0 ∷ [])

execute_command-write_example :
    (out : Context) × (execute_command peer 1 config_init write_one connected_socket (record {
      context = some idle_context;
      world = wire (received refusal_piece ∷ []) [];
      console = no_text;
    })
      ≡ some (
        true,
        record {
          context = some out;
          world = wire [] write_bytes;
          console = print no_text (outcome 0xC056);
        },
      ))
    × IsReady (some out)
unfolding config_init is_supported_command is_supported_device is_bit_device socket_send_all
    send_loop reset_internal command_code device_code client_device_allows_write
    apply_command_to_context reset set_network_settings apply_request set_request set_request_on
    write_values set_write_value set_write_value_on
execute_command-write_example =
    execute_command-write peer 3 connected_socket refl config_init refl refl write_one refl refl
      refl refl idle_context idle_context-IsWellFormed refl write_request refl 0 header_4e
      refusal_frame [] [] refusal_piece 0xC056 [] (wire (received refusal_piece ∷ []) [])
      (wire (received refusal_piece ∷ []) write_bytes)
      (wire (received refusal_piece ∷ []) write_bytes) (wire [] write_bytes) no_text refl
      (refl, refl) (refl, refl, refl) (omega arith) (λ e. refl) (omega arith) refl refl tt
      (omega arith) refl (omega arith) (omega arith)

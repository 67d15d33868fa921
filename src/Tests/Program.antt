-- ===== src/Tests/Program.antt =====
-- The theorems on the ends of commands and of the program at a peer that sends a few bytes.
use fx5_slmp_library.Prelude.{
  ℕ, zero, suc, ◌≤◌, ◌<◌, ◌≡◌, refl, ap, subst, Bool, true, List, [], ◌∷◌, Option, some, none,
  arith, length,
}
use fx5_slmp_library.Prelude.Strings.{codes}
use fx5_slmp_library.Bytes.Stream.{AreBytes}
use fx5_slmp_library.Api.Ready.{IsReady}
use fx5_slmp_library.Client.Command.{ClientCommand, get_command, command_init}
use fx5_slmp_library.Client.Config.{config_init}
use fx5_slmp_library.Client.Transport.{System, Received, received, end_of_stream}
use fx5_slmp_library.Client.App.{Io, execute_command}
use fx5_slmp_library.Client.App.Rounds.{IsFinite}
use fx5_slmp_library.Client.App.Total.{execute_command_total}
use fx5_slmp_library.Client.Device.{DeviceRange}
use fx5_slmp_library.Client.Main.{Surroundings}
use fx5_slmp_library.Tests.{word_context, word_context-IsWellFormed}

-- The byte 1, as often as the number says, if there is room for it.
abbrev next_byte : ℕ → ℕ → Received × ℕ
next_byte zero size = (end_of_stream, zero)
next_byte (suc w) zero = (end_of_stream, suc w)
next_byte (suc w) (suc size) = (received (1 ∷ []), w)

-- A system whose world is the number of bytes to come.
abbrev pub dripping : System
dripping = record {
  World = ℕ;
  Address = ℕ;
  calloc = λ w. (true, w);
  getaddrinfo = λ w host port. (some (1 ∷ []), w);
  open_socket = λ w address. (some 3, w);
  connect = λ w h address. (true, w);
  close = λ w h. w;
  send = λ w h xs. (length xs, w);
  set_timeout = λ w h seconds rest. (true, w);
  recv = λ w h size. next_byte w size;
}

next_byte_fewer : (w size : ℕ) → (next_byte w size).1 ≤ w
next_byte_fewer zero size = omega arith
next_byte_fewer (suc w) zero = omega arith
next_byte_fewer (suc w) (suc size) = omega arith

abbrev bytes_of : Received → List ℕ
bytes_of (received xs) = xs
bytes_of _ = []

next_byte_received :
    (w size : ℕ) (xs : List ℕ)
    → (next_byte w size).0 ≡ received xs
    → ((next_byte w size).1 < w) × AreBytes xs × (length xs ≤ size)
next_byte_received zero size xs e = absurd (cc)
next_byte_received (suc w) zero xs e = absurd (cc)
next_byte_received (suc w) (suc size) xs e =
    let same : 1 ∷ [] ≡ xs = ap bytes_of e in
    (
      omega arith,
      subst AreBytes same (omega arith),
      subst (λ (q : List ℕ). length q ≤ suc size) same (omega arith),
    )

abbrev dripping-IsFinite : IsFinite dripping
dripping-IsFinite = record {
  left = λ w. w;
  left-calloc = λ w. omega arith;
  left-getaddrinfo = λ w host port. omega arith;
  left-open_socket = λ w a. omega arith;
  left-connect = λ w h a. omega arith;
  left-close = λ w h. omega arith;
  left-send = λ w h xs. omega arith;
  left-set_timeout = λ w h s u. omega arith;
  left-recv = λ w h n. next_byte_fewer w n;
  left-received = λ w h n xs e. next_byte_received w n xs e;
}

abbrev read_one : ClientCommand
read_one = record command_init { command_type = get_command; count = 1 }

execute_command_total_example :
    (ok : Bool) × (io : Io dripping) × (execute_command dripping 4 config_init read_one
        (record { handle = some 3 })
        (record { context = some word_context; world = 3; console = record { out = []; err = [] } })
      ≡ some (ok, io))
    × IsReady io.context
    × (io.world ≤ 3)
execute_command_total_example =
    execute_command_total dripping dripping-IsFinite 4 config_init read_one
      (record { handle = some 3 }) word_context 3 (record { out = []; err = [] })
      (word_context-IsWellFormed, refl) (omega arith)

abbrev surroundings : Surroundings dripping
surroundings = record {
  inputs = record { stdin = codes "get D10\nset M0-M3=true\n"; script = λ path. none };
  ini_file = some (codes "trace=true\n");
  ini_memory = λ k. record { available = true; garbage = 0 };
  host_available = true;
  option_available = λ k. true;
  version = codes "1.0";
  start_world = 5;
}

abbrev points_of : Option DeviceRange → ℕ
points_of none = 0
points_of (some r) = r.count

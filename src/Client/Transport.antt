-- ===== src/Client/Transport.antt =====
-- tools/fx5_client/src/fx5_client_transport.c on a POSIX system. The calls of the system stand in a
-- record of functions on an unknown state of the world. The process is taken to ignore SIGPIPE, so that
-- `send` to a peer that has closed the connection returns -1.
pub mod Sending
use fx5_slmp_library.Prelude.{
  ℕ, zero, suc, ◌*◌, ◌/◌, ◌%◌, ◌==◌, Bool, true, false, Option, none, some, List, [], ◌∷◌,
  if◌then◌else◌, length, drop,
}
use fx5_slmp_library.Client.Format.{digits_in}

-- What `recv` gives: some bytes, the end of the stream, or -1 with `errno` set to EAGAIN or
-- EWOULDBLOCK, or to another error.
pub data Received : Type 0 where
  received : List ℕ → Received
  end_of_stream : Received
  would_block : Received
  failed : Received

-- A socket is a number. `send` gives the number of bytes taken, 0 also for an error; `getaddrinfo`
-- gives the addresses, or nothing if it fails.
pub record System : Type 1 where
  pub World : Type 0
  pub Address : Type 0
  pub calloc : World → Bool × World
  pub getaddrinfo : World → List ℕ → List ℕ → Option (List Address) × World
  pub open_socket : World → Address → Option ℕ × World
  pub connect : World → ℕ → Address → Bool × World
  pub close : World → ℕ → World
  pub send : World → ℕ → List ℕ → ℕ × World
  pub set_timeout : World → ℕ → ℕ → ℕ → Bool × World
  pub recv : World → ℕ → ℕ → Received × World

-- `struct fx5_socket`; the handle is `none` for FX5_INVALID_SOCKET.
pub record Socket : Type 0 where
  pub handle : Option ℕ

pub data RecvStatus : Type 0 where
  recv_ok recv_timeout recv_closed recv_error : RecvStatus

module _ (sys : System) where
  open sys use {World, Address}

  unfoldable pub socket_open : World → Option Socket × World
  socket_open w =
      let (there, w') = sys.calloc w in
      (if there then some (record { handle = none }) else none, w')

  unfoldable pub socket_close : Option Socket → World → World
  socket_close none w = w
  socket_close (some sock) w = elim sock.handle [ none ↦ w | some handle ↦ sys.close w handle ]

  unfoldable pub socket_set_connected_handle : Socket → ℕ → World → Socket × World
  socket_set_connected_handle sock handle w = elim sock.handle [
    | none ↦ (record { handle = some handle }, w)
    | some old ↦ (record { handle = some handle }, sys.close w old)
  ]

  -- The loop over the addresses.
  unfoldable pub connect_loop : Socket → List Address → World → Bool × Socket × World
  connect_loop sock [] w = (false, sock, w)
  connect_loop sock (it ∷ rest) w =
      let (handle, w1) = sys.open_socket w it in
      elim handle [
        | none ↦ connect_loop sock rest w1
        | some h ↦ elim (sys.connect w1 h it).0 [
          | true ↦
              let (sock', w3) = socket_set_connected_handle sock h (sys.connect w1 h it).1 in
              (true, sock', w3)
          | false ↦ connect_loop sock rest (sys.close (sys.connect w1 h it).1 h)
        ]
      ]

  unfoldable pub socket_connect : Socket → Option (List ℕ) → ℕ → World → Bool × Socket × World
  socket_connect sock none port w = (false, sock, w)
  socket_connect sock (some host) port w =
      let (result, w') = sys.getaddrinfo w host (digits_in 10 port) in
      elim result [ none ↦ (false, sock, w') | some addresses ↦ connect_loop sock addresses w' ]

  -- `while (total_sent < size)`: the list is what is left to send. Every round sends a byte at least,
  -- so the number of bytes is fuel enough.
  unfoldable pub send_loop : ℕ → ℕ → List ℕ → World → Option (Bool × World)
  send_loop fuel h [] w = some (true, w)
  send_loop zero h (x ∷ xs) w = none
  send_loop (suc fuel) h (x ∷ xs) w =
      let (sent, w') = sys.send w h (x ∷ xs) in
      let rest = send_loop fuel h (drop sent (x ∷ xs)) w' in
      if sent == 0 then some (false, w') else rest

  unfoldable pub socket_send_all : Socket → List ℕ → World → Option (Bool × World)
  socket_send_all sock bytes w = elim sock.handle [
    | none ↦ some (false, w)
    | some h ↦ send_loop (length bytes) h bytes w
  ]

  unfoldable pub socket_set_recv_timeout_ms : Socket → ℕ → World → Bool × World
  socket_set_recv_timeout_ms sock timeout_ms w = elim sock.handle [
    | none ↦ (false, w)
    | some h ↦ sys.set_timeout w h (timeout_ms / 1000) (timeout_ms % 1000 * 1000)
  ]

  -- The status, and the bytes in the buffer.
  unfoldable pub socket_recv_some : Socket → ℕ → World → RecvStatus × List ℕ × World
  socket_recv_some sock buffer_size w = elim sock.handle [
    | none ↦ (recv_error, [], w)
    | some h ↦
        let (rc, w') = sys.recv w h buffer_size in
        elim rc [
          | received bytes ↦ (recv_ok, bytes, w')
          | end_of_stream ↦ (recv_closed, [], w')
          | would_block ↦ (recv_timeout, [], w')
          | failed ↦ (recv_error, [], w')
        ]
  ]

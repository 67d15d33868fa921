-- ===== src/Client/App/Rounds.antt =====
-- A round of the receive loop, on every branch.
use fx5_slmp_library.Prelude.{
  ℕ, ◌≤◌, ◌<◌, ◌≡◌, refl, Bool, List, Option, some, none, arith, length, inl, inr, Option-cases,
  u16,
}
use fx5_slmp_library.Prelude.Strings.{codes}
use fx5_slmp_library.Types.{Status, st_ok, err_need_more, response_error}
use fx5_slmp_library.Context.{Context}
use fx5_slmp_library.Bytes.Stream.{AreBytes}
use fx5_slmp_library.Api.{feed_response_bytes}
use fx5_slmp_library.Api.Parse.Total.{parse_response_total}
use fx5_slmp_library.Api.Ready.{IsReady}
use fx5_slmp_library.Api.Ready.Transfer.{feed-IsReady}
use fx5_slmp_library.Client.Format.{Console}
use fx5_slmp_library.Client.Transport.{
  System, Socket, Received, received, end_of_stream, would_block, failed, RecvStatus, recv_ok,
  recv_timeout, recv_closed, recv_error, socket_recv_some,
}
use fx5_slmp_library.Client.App.{
  Io, Reception, answers, waits, after_parse, after_feed, take_bytes, after_recv, receive_round,
  trace, recv_buffer_size,
}

-- A world whose sockets bring only finitely many more pieces: at most `left` of them. What `recv`
-- gives are bytes, no more than there is room for, and no other call brings pieces.
pub record IsFinite (sys : System) : Type 0 where
  pub left : sys.World → ℕ
  pub left-calloc : (w : sys.World) → left (sys.calloc w).1 ≤ left w
  pub left-getaddrinfo :
      (w : sys.World) (host port : List ℕ) → left (sys.getaddrinfo w host port).1 ≤ left w
  pub left-open_socket : (w : sys.World) (a : sys.Address) → left (sys.open_socket w a).1 ≤ left w
  pub left-connect : (w : sys.World) (h : ℕ) (a : sys.Address) → left (sys.connect w h a).1 ≤ left w
  pub left-close : (w : sys.World) (h : ℕ) → left (sys.close w h) ≤ left w
  pub left-send : (w : sys.World) (h : ℕ) (xs : List ℕ) → left (sys.send w h xs).1 ≤ left w
  pub left-set_timeout : (w : sys.World) (h s u : ℕ) → left (sys.set_timeout w h s u).1 ≤ left w
  pub left-recv : (w : sys.World) (h n : ℕ) → left (sys.recv w h n).1 ≤ left w
  pub left-received :
      (w : sys.World) (h n : ℕ) (xs : List ℕ)
      → (sys.recv w h n).0 ≡ received xs
      → (left (sys.recv w h n).1 < left w) × AreBytes xs × (length xs ≤ n)

module _ (sys : System) (finite : IsFinite sys) where
  open finite use {left}

  abbrev pub io_at : Option Context → sys.World → Console → Io sys
  io_at c w console = record { context = c; world = w; console = console }

  -- What a round gives: an answer, or fewer pieces to come.
  abbrev pub Goes : ℕ → Reception sys → Type 0
  Goes n (answers ok io) = IsReady io.context × (left io.world ≤ n)
  Goes n (waits io) = IsReady io.context × (left io.world < n)

  abbrev pub Rounds : ℕ → Option (Reception sys) → Type 0
  Rounds n r = (o : Reception sys) × (r ≡ some o) × Goes n o

  after_parse-Goes :
      (n : ℕ) (status : Status) (io : Io sys)
      → IsReady io.context
      → left io.world < n
      → Goes n (after_parse sys status io)
  unfolding after_parse
  after_parse-Goes n st_ok io h k = (h, omega arith)
  after_parse-Goes n err_need_more io h k = (h, k)
  after_parse-Goes n response_error io h k = (h, omega arith)
  after_parse-Goes n _ io h k = (h, omega arith)

  parsed :
      (n : ℕ) (c : Option Context) (w : sys.World) (console : Console)
      → IsReady c
      → left w < n
      → Rounds n (after_feed sys st_ok (io_at c w console))
  unfolding after_feed
  parsed n none w console h k = absurd h
  parsed n (some c) w console h k =
      let p = parse_response_total c h.0 h.1 in
      (
        _,
        rw (p.2, after_feed) refl,
        after_parse-Goes n p.1 (io_at (some p.0) w console) (p.3, p.4) k,
      )

  fed_goes :
      (n : ℕ) (status : Status) (c : Option Context) (w : sys.World) (console : Console)
      → IsReady c
      → left w < n
      → Rounds n (after_feed sys status (io_at c w console))
  unfolding after_feed
  fed_goes n st_ok c w console h k = parsed n c w console h k
  fed_goes n _ c w console h k = (_, refl, (h, omega arith))

  taken :
      (n : ℕ) (traced : Bool) (xs : List ℕ) (c : Option Context) (w : sys.World) (console : Console)
      → IsReady c
      → left w < n
      → AreBytes xs
      → length xs ≤ 512
      → Rounds n (take_bytes sys traced xs (io_at c w console))
  unfolding take_bytes
  taken n traced xs none w console h k b l = absurd h
  taken n traced xs (some c) w console h k b l =
      fed_goes n (feed_response_bytes (some c) (some xs)).1
        (feed_response_bytes (some c) (some xs)).0 w
        (trace traced console (codes "RX: ") xs (u16 (length xs)))
        (feed-IsReady c h xs b (omega arith)) k

  -- What `fx5_socket_recv_some` gives.
  abbrev IsArrival : sys.World → RecvStatus × List ℕ × sys.World → Type 0
  IsArrival w (recv_ok, xs, w') = (left w' < left w) × AreBytes xs × (length xs ≤ 512)
  IsArrival w (recv_timeout, xs, w') = left w' ≤ left w
  IsArrival w (recv_closed, xs, w') = left w' ≤ left w
  IsArrival w (recv_error, xs, w') = left w' ≤ left w

  recv-IsArrival :
      (sock : Socket) (h : ℕ) (w : sys.World) (rc : Received)
      → sock.handle ≡ some h
      → (sys.recv w h recv_buffer_size).0 ≡ rc
      → IsArrival w (socket_recv_some sys sock recv_buffer_size w)
  unfolding socket_recv_some
  recv-IsArrival sock h w (received xs) e r =
      rw (e, socket_recv_some) (rw (r, IsArrival) (finite.left-received w h recv_buffer_size xs r))
  recv-IsArrival sock h w end_of_stream e r =
      rw (e, socket_recv_some) (rw (r, IsArrival) (finite.left-recv w h recv_buffer_size))
  recv-IsArrival sock h w would_block e r =
      rw (e, socket_recv_some) (rw (r, IsArrival) (finite.left-recv w h recv_buffer_size))
  recv-IsArrival sock h w failed e r =
      rw (e, socket_recv_some) (rw (r, IsArrival) (finite.left-recv w h recv_buffer_size))

  socket_recv_some-IsArrival :
      (sock : Socket) (w : sys.World) → IsArrival w (socket_recv_some sys sock recv_buffer_size w)
  unfolding socket_recv_some
  socket_recv_some-IsArrival sock w = elim (Option-cases sock.handle) [
    | inl e ↦ rw (e, IsArrival) (omega arith)
    | inr (h, e) ↦ recv-IsArrival sock h w (sys.recv w h recv_buffer_size).0 e refl
  ]

  round_goes :
      (traced : Bool) (c : Option Context) (w : sys.World) (console : Console)
      (r : RecvStatus × List ℕ × sys.World)
      → IsReady c
      → IsArrival w r
      → Rounds (left w) (after_recv sys traced r.0 r.1 (io_at c r.2 console))
  unfolding after_recv
  round_goes traced c w console (recv_ok, xs, w') h a =
      taken (left w) traced xs c w' console h a.0 a.1 a.2
  round_goes traced c w console (recv_timeout, xs, w') h a = (_, refl, (h, a))
  round_goes traced c w console (recv_closed, xs, w') h a = (_, refl, (h, a))
  round_goes traced c w console (recv_error, xs, w') h a = (_, refl, (h, a))

  pub receive_round_total :
      (sock : Socket) (traced : Bool) (c : Option Context) (w : sys.World) (console : Console)
      → IsReady c
      → Rounds (left w) (receive_round sys traced sock (io_at c w console))
  unfolding receive_round
  receive_round_total sock traced c w console h =
      round_goes traced c w console (socket_recv_some sys sock recv_buffer_size w) h
        (socket_recv_some-IsArrival sock w)

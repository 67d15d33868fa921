-- ===== src/Client/App/Receiving.antt =====
-- `fx5_client_receive_response` while a response frame comes in pieces.
use fx5_slmp_library.Prelude.{
  ℕ, suc, ◌+◌, ◌≤◌, ◌<◌, ◌≡◌, refl, ap, ◌∙◌, sym, Bool, true, List, [], ◌∷◌, ◌++◌, some, arith,
  length, length-append, append_assoc, append-nil, u16,
}
use fx5_slmp_library.Prelude.Strings.{codes}
use fx5_slmp_library.Types.{Status, st_ok, err_need_more, Header}
use fx5_slmp_library.Context.{Context}
use fx5_slmp_library.RingBuf.Contents.{contents}
use fx5_slmp_library.Bytes.Stream.{AreBytes}
use fx5_slmp_library.Api.{feed_response_bytes, parse_response}
use fx5_slmp_library.Api.Invariant.{IsWellFormed}
use fx5_slmp_library.Api.Feed.{fed, feed_response_bytes_lem}
use fx5_slmp_library.Api.Parse.{IsHeader}
use fx5_slmp_library.Api.Parse.Arrival.{same_header}
use fx5_slmp_library.Api.Parse.Prefix.{StartsFrame, parse_response-prefix}
use fx5_slmp_library.Client.Format.{Console}
use fx5_slmp_library.Client.Transport.{System, Socket, received, recv_ok, socket_recv_some}
use fx5_slmp_library.Client.App.{
  Io, trace, after_parse, after_feed, take_bytes, after_recv, receive_round, receive_response,
  recv_buffer_size,
}

-- The bytes of the pieces.
abbrev pub joined : List (List ℕ) → List ℕ
joined [] = []
joined (xs ∷ pieces) = xs ++ joined pieces

abbrev pub AreAllBytes : List (List ℕ) → Type 0
AreAllBytes [] = Unit
AreAllBytes (xs ∷ pieces) = AreBytes xs × AreAllBytes pieces

-- The streams with each piece shown, if that is asked for.
abbrev pub shown : Bool → Console → List (List ℕ) → Console
shown traced console [] = console
shown traced console (xs ∷ pieces) =
    shown traced (trace traced console (codes "RX: ") xs (u16 (length xs))) pieces

-- A context that holds more bytes, and is otherwise as before.
pub record IsTaken (c : Context) (xs : List ℕ) (out : Context) : Type 0 where
  pub formed : IsWellFormed out
  pub used : out.in_use ≡ true
  pub held : contents out.rx_cbuffer ≡ contents c.rx_cbuffer ++ xs
  pub same : out ≡ record c { rx_cbuffer = out.rx_cbuffer; resync_counter = out.resync_counter }

pub IsTaken-trans :
    (c d out : Context) (xs ys : List ℕ)
    → IsTaken c xs d
    → IsTaken d ys out
    → IsTaken c (xs ++ ys) out
IsTaken-trans c d out xs ys a b = record {
  formed = b.formed;
  used = b.used;
  held = b.held ∙ ap (λ (q : List ℕ). q ++ ys) a.held ∙ append_assoc (contents c.rx_cbuffer) xs ys;
  same =
      b.same
      ∙ ap
          (λ (z : Context). record z {
            rx_cbuffer = out.rx_cbuffer;
            resync_counter = out.resync_counter;
          })
          a.same;
}

pub taken_serial : (c out : Context) (xs : List ℕ) → IsTaken c xs out → out.serial ≡ c.serial
taken_serial c out xs k = ap (λ (z : Context). z.serial) k.same

module _ (sys : System) (h : ℕ) where
  -- From `w` on the socket gives the pieces one after the other, and the world is then `w'`.
  abbrev pub Delivers : sys.World → List (List ℕ) → sys.World → Type 0
  Delivers w [] w' = w ≡ w'
  Delivers w (xs ∷ pieces) w' =
      (w1 : sys.World) × (sys.recv w h recv_buffer_size ≡ (received xs, w1)) × Delivers w1 pieces w'

  module _ (sock : Socket) (connected : sock.handle ≡ some h) (traced : Bool) where
    abbrev at : Context → sys.World → Console → Io sys
    at c w console = record { context = some c; world = w; console = console }

    recv_lem :
        (xs : List ℕ) (w w1 : sys.World)
        → sys.recv w h recv_buffer_size ≡ (received xs, w1)
        → socket_recv_some sys sock recv_buffer_size w ≡ (recv_ok, xs, w1)
    unfolding socket_recv_some
    recv_lem xs w w1 e = ground (arith, connected, e)

    -- A piece that is taken, and what the parser then says.
    pub round_lem :
        (c : Context) (xs : List ℕ) (w w1 : sys.World) (console : Console) (out : Context)
        (status : Status)
        → sys.recv w h recv_buffer_size ≡ (received xs, w1)
        → feed_response_bytes (some c) (some xs) ≡ (some (fed c xs), st_ok)
        → parse_response (some (fed c xs)) ≡ some (some out, status)
        → receive_round sys traced sock (at c w console)
          ≡ some (
              after_parse sys status
                (at out w1 (trace traced console (codes "RX: ") xs (u16 (length xs)))))
    unfolding receive_round after_recv take_bytes after_feed
    round_lem c xs w w1 console out status e f p =
        rw (recv_lem xs w w1 e, receive_round) (rw (f, take_bytes) (rw (p, after_feed) refl))

    module _ (t : Header) (head body : List ℕ) (starts : StartsFrame t head) (lo : 2 ≤ length body)
        (hi : length body ≤ 297) where
      waits_for :
          (fuel : ℕ) (c o : Context) (xs : List ℕ) (w w1 : sys.World) (console : Console)
          → sys.recv w h recv_buffer_size ≡ (received xs, w1)
          → feed_response_bytes (some c) (some xs) ≡ (some (fed c xs), st_ok)
          → parse_response (some (fed c xs)) ≡ some (some o, err_need_more)
          → receive_response sys (suc fuel) traced sock (at c w console)
            ≡ receive_response sys fuel traced sock
                (at o w1 (trace traced console (codes "RX: ") xs (u16 (length xs))))
      unfolding receive_response after_parse
      waits_for fuel c o xs w w1 console e f p =
          rw (round_lem c xs w w1 console o err_need_more e f p, receive_response) refl

      -- A start of the frame that grows by a piece, and is not the whole of it.
      piece-IsTaken :
          (fuel : ℕ) (c : Context) (xs later : List ℕ) (w w1 : sys.World) (console : Console)
          → IsWellFormed c
          → c.in_use ≡ true
          → IsHeader t c head (length body)
          → sys.recv w h recv_buffer_size ≡ (received xs, w1)
          → AreBytes xs
          → contents c.rx_cbuffer ++ (xs ++ later) ≡ head ++ body
          → length (contents c.rx_cbuffer) + length xs < length head + length body
          → length head + length body ≤ 297
          → (o : Context) × (receive_response sys (suc fuel) traced sock (at c w console)
              ≡ receive_response sys fuel traced sock
                  (at o w1 (trace traced console (codes "RX: ") xs (u16 (length xs)))))
            × IsTaken c xs o
      piece-IsTaken fuel c xs later w w1 console formed used header d b e short room =
          let q = contents c.rx_cbuffer in
          let f = (feed_response_bytes_lem c xs formed used b (omega arith)).0 (omega arith) in
          let whole : contents (fed c xs).rx_cbuffer ++ later ≡ head ++ body =
            ap (λ (s : List ℕ). s ++ later) f.1 ∙ append_assoc q xs later ∙ e in
          let p =
            parse_response-prefix (fed c xs) f.2 used t head body later starts lo hi
              (same_header t c (fed c xs) head (length body) refl header) whole
              (omega (arith, ap length f.1, length-append q xs)) in
          (
            p.0,
            waits_for fuel c p.0 xs w w1 console d f.0 p.1,
            record {
              formed = p.2.formed;
              used = p.2.used;
              held = p.2.held ∙ f.1;
              same =
                  p.2.same
                  ∙ ap (λ (n : ℕ). record c { rx_cbuffer = p.0.rx_cbuffer; resync_counter = n })
                      (sym (ap (λ (z : Context). z.resync_counter) p.2.same));
            },
          )

      -- Pieces that together are a start of the frame, and not the whole of it, are taken one by one.
      pub pieces-IsTaken :
          (fuel : ℕ) (pieces : List (List ℕ)) (c : Context) (w w' : sys.World) (console : Console)
          (later : List ℕ)
          → IsWellFormed c
          → c.in_use ≡ true
          → IsHeader t c head (length body)
          → Delivers w pieces w'
          → AreAllBytes pieces
          → contents c.rx_cbuffer ++ (joined pieces ++ later) ≡ head ++ body
          → length (contents c.rx_cbuffer) + length (joined pieces) < length head + length body
          → length head + length body ≤ 297
          → (c' : Context) × (receive_response sys
                (length pieces + fuel)
                traced
                sock
                (at c w console)
              ≡ receive_response sys fuel traced sock (at c' w' (shown traced console pieces)))
            × IsTaken c (joined pieces) c'
      pieces-IsTaken fuel [] c w w' console later formed used header d b e short room =
          let z : 0 + fuel ≡ fuel = omega arith in
          (
            c,
            rw z (ap (λ (q : sys.World). receive_response sys fuel traced sock (at c q console)) d),
            record {
              formed = formed;
              used = used;
              held = sym (append-nil (contents c.rx_cbuffer));
              same = refl;
            },
          )
      pieces-IsTaken fuel (xs ∷ pieces) c w w' console later formed used header d b e short room =
          let all = joined pieces ++ later in
          let n : suc (length pieces) + fuel ≡ suc (length pieces + fuel) = omega arith in
          let sizes = length-append xs (joined pieces) in
          let e' =
            ap (λ (s : List ℕ). contents c.rx_cbuffer ++ s)
              (sym (append_assoc xs (joined pieces) later))
            ∙ e in
          let one =
            piece-IsTaken (length pieces + fuel) c xs all w d.0 console formed used header d.1 b.0
              e' (omega (arith, sizes)) room in
          let k = one.2 in
          let held : contents one.0.rx_cbuffer ++ all ≡ head ++ body =
            ap (λ (s : List ℕ). s ++ all) k.held
            ∙ append_assoc (contents c.rx_cbuffer) xs all
            ∙ e' in
          let more =
            pieces-IsTaken fuel pieces one.0 d.0 w'
              (trace traced console (codes "RX: ") xs (u16 (length xs))) later k.formed k.used
              (same_header t c one.0 head (length body) (taken_serial c one.0 xs k) header) d.2 b.1
              held
              (omega (arith, sizes, ap length k.held, length-append (contents c.rx_cbuffer) xs))
              room in
          (more.0, rw n (one.1 ∙ more.1), IsTaken-trans c one.0 more.0 xs (joined pieces) k more.2)

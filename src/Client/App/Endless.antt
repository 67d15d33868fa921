-- ===== src/Client/App/Endless.antt =====
-- `fx5_client_receive_response` on a peer that sends bytes, but never a frame.
use fx5_slmp_library.Prelude.{
  ℕ, zero, suc, ◌<◌, ◌≡◌, ◌++◌, inr, refl, ap, ◌∙◌, Bool, true, false, ◌||◌, ◌==◌, List, [], ◌∷◌,
  some, none, arith, length, drop,
}
use fx5_slmp_library.Types.{st_ok, err_need_more, unknown_header}
use fx5_slmp_library.Prelude.Strings.{codes}
use fx5_slmp_library.Context.{Context}
use fx5_slmp_library.RingBuf.Contents.{contents}
use fx5_slmp_library.Response.Stream.{resync_spec}
use fx5_slmp_library.Api.{feed_response_bytes, parse_response}
use fx5_slmp_library.Api.Invariant.{IsWellFormed}
use fx5_slmp_library.Api.Feed.{fed, feed_response_bytes_lem}
use fx5_slmp_library.Api.Parse.Prefix.{parse_response-IsWellFormed}
use fx5_slmp_library.Api.Parse.Waiting.{parse_response-no_frame}
use fx5_slmp_library.Client.Format.{Console}
use fx5_slmp_library.Client.Transport.{System, Socket, received}
use fx5_slmp_library.Client.App.{trace, after_parse, receive_response, recv_buffer_size}
use fx5_slmp_library.Client.App.Receiving.{round_lem}

-- A byte that no response frame starts with.
abbrev pub IsNoise : ℕ → Type 0
IsNoise x = (x < 256) × (((x == 0xD0) || (x == 0xD4)) ≡ false)

noise_dropped : (x : ℕ) → IsNoise x → resync_spec (x ∷ []) ≡ (1, unknown_header)
noise_dropped x h = ground (arith, h)

-- A byte of noise is taken, dropped, and more is asked for.
module _ (c : Context) (x : ℕ) (w : IsWellFormed c) (used : c.in_use ≡ true)
    (empty : contents c.rx_cbuffer ≡ []) (noise : IsNoise x) where
  noise_fed :
      (feed_response_bytes (some c) (some (x ∷ [])) ≡ (some (fed c (x ∷ [])), st_ok))
      × (contents (fed c (x ∷ [])).rx_cbuffer ≡ x ∷ [])
      × IsWellFormed (fed c (x ∷ []))
  noise_fed =
      let f =
        (feed_response_bytes_lem c (x ∷ []) w used (noise.0, tt) (omega arith)).0
          (omega (arith, ap length empty)) in
      (f.0, f.1 ∙ ap (λ (q : List ℕ). q ++ (x ∷ [])) empty, f.2)

  noise_parsed :
      (out : Context) × (parse_response (some (fed c (x ∷ []))) ≡ some (some out, err_need_more))
      × IsWellFormed out
      × (out.in_use ≡ true)
      × (contents out.rx_cbuffer ≡ [])
  noise_parsed =
      let d = fed c (x ∷ []) in
      let found = ap resync_spec noise_fed.1 ∙ noise_dropped x noise in
      let r = parse_response-no_frame d unknown_header 1 noise_fed.2 used found (inr refl) in
      let k = parse_response-IsWellFormed d noise_fed.2 used r.0 err_need_more r.1 in
      (r.0, r.1, k.0, k.1, r.2.held ∙ ap (drop 1) noise_fed.1)

module _ (sys : System) (h : ℕ) (sock : Socket) (connected : sock.handle ≡ some h)
    (traced : Bool) where
  -- A peer that from every world of `Noisy` on sends one byte of noise, and stays in `Noisy`.
  abbrev pub SendsNoise : (sys.World → Type 0) → Type 0
  SendsNoise Noisy =
      (w : sys.World)
      → Noisy w
      → (x : ℕ) × (w1 : sys.World) × IsNoise x
        × (sys.recv w h recv_buffer_size ≡ (received (x ∷ []), w1))
        × Noisy w1

  noise_waits :
      (fuel : ℕ) (c o : Context) (x : ℕ) (w w1 : sys.World) (console : Console)
      → sys.recv w h recv_buffer_size ≡ (received (x ∷ []), w1)
      → feed_response_bytes (some c) (some (x ∷ [])) ≡ (some (fed c (x ∷ [])), st_ok)
      → parse_response (some (fed c (x ∷ []))) ≡ some (some o, err_need_more)
      → receive_response sys
          (suc fuel)
          traced
          sock
          (record { context = some c; world = w; console = console })
        ≡ receive_response sys fuel traced sock (record {
          context = some o;
          world = w1;
          console = trace traced console (codes "RX: ") (x ∷ []) 1;
        })
  unfolding receive_response after_parse
  noise_waits fuel c o x w w1 console e f p =
      let r = round_lem sys h sock connected traced c (x ∷ []) w w1 console o err_need_more e f p in
      rw (r, receive_response) refl

  -- On a connected socket whose peer goes on to send single bytes that no frame starts with,
  -- `fx5_client_receive_response` never returns: each call of the parser counts its dropped bytes from
  -- 0 again, and the timeout of the socket starts again with each byte.
  pub receive_response_endless :
      (Noisy : sys.World → Type 0) (fuel : ℕ) (c : Context) (w : sys.World) (console : Console)
      → SendsNoise Noisy
      → Noisy w
      → IsWellFormed c
      → c.in_use ≡ true
      → contents c.rx_cbuffer ≡ []
      → receive_response sys fuel traced sock
          (record { context = some c; world = w; console = console })
        ≡ none
  unfolding receive_response
  receive_response_endless Noisy zero c w console sends noisy wf used empty = refl
  receive_response_endless Noisy (suc fuel) c w console sends noisy wf used empty =
      let s = sends w noisy in
      let f = noise_fed c s.0 wf used empty s.2 in
      let p = noise_parsed c s.0 wf used empty s.2 in
      noise_waits fuel c p.0 s.0 w s.1 console s.3 f.0 p.1
      ∙ receive_response_endless Noisy fuel p.0 s.1
          (trace traced console (codes "RX: ") (s.0 ∷ []) 1) sends s.4 p.2 p.3 p.4

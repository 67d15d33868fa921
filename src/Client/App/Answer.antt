-- ===== src/Client/App/Answer.antt =====
-- `fx5_client_receive_response` once the rest of a frame comes, maybe with more behind it.
use fx5_slmp_library.Prelude.{
  ℕ, suc, ◌+◌, ◌≤◌, ◌<◌, ◌≡◌, ◌⊎◌, inl, inr, refl, ap, ◌∙◌, sym, Bool, true, List, [], ◌++◌, some,
  arith, length, length-append, drop, u16,
}
use fx5_slmp_library.Prelude.Strings.{codes}
use fx5_slmp_library.Types.{Status, st_ok, response_error, Header}
use fx5_slmp_library.Context.{Context}
use fx5_slmp_library.RingBuf.Contents.{contents}
use fx5_slmp_library.Bytes.Stream.{AreBytes}
use fx5_slmp_library.Api.{feed_response_bytes, parse_response}
use fx5_slmp_library.Api.Invariant.{IsWellFormed}
use fx5_slmp_library.Api.Feed.{fed, feed_response_bytes_lem}
use fx5_slmp_library.Api.Parse.{IsHeader}
use fx5_slmp_library.Api.Parse.Prefix.{StartsFrame, split_prefix}
use fx5_slmp_library.Client.Format.{Console}
use fx5_slmp_library.Client.Transport.{System, Socket, received}
use fx5_slmp_library.Client.App.{Io, trace, after_parse, receive_response, recv_buffer_size}
use fx5_slmp_library.Client.App.Receiving.{
  joined, AreAllBytes, shown, Delivers, IsTaken, IsTaken-trans, round_lem, pieces-IsTaken,
}

module _ (sys : System) (h : ℕ) (sock : Socket) (connected : sock.handle ≡ some h)
    (traced : Bool) where
  abbrev at : Context → sys.World → Console → Io sys
  at c w console = record { context = some c; world = w; console = console }

  answer_taken :
      (fuel : ℕ) (c out : Context) (xs : List ℕ) (w w1 : sys.World) (console : Console)
      (status : Status)
      → sys.recv w h recv_buffer_size ≡ (received xs, w1)
      → feed_response_bytes (some c) (some xs) ≡ (some (fed c xs), st_ok)
      → parse_response (some (fed c xs)) ≡ some (some out, status)
      → (status ≡ st_ok) ⊎ (status ≡ response_error)
      → receive_response sys (suc fuel) traced sock (at c w console)
        ≡ some (true, at out w1 (trace traced console (codes "RX: ") xs (u16 (length xs))))
  unfolding receive_response after_parse
  answer_taken fuel c out xs w w1 console status e f p (inl ok) =
      let r = round_lem sys h sock connected traced c xs w w1 console out status e f p in
      rw (r, receive_response) (rw (ok, after_parse) refl)
  answer_taken fuel c out xs w w1 console status e f p (inr failed) =
      let r = round_lem sys h sock connected traced c xs w w1 console out status e f p in
      rw (r, receive_response) (rw (failed, after_parse) refl)

  module _ (t : Header) (head body : List ℕ) (starts : StartsFrame t head) (lo : 2 ≤ length body)
      (fits : length head + length body ≤ 297) where
    -- The frame comes in pieces, the last of which may bring `rest` behind it: it is parsed on a
    -- context that holds all of them, and the result of that is the answer.
    pub answered :
        (fuel : ℕ) (pieces : List (List ℕ)) (last rest : List ℕ) (c : Context) (w w1 w2 : sys.World)
        (console : Console)
        → IsWellFormed c
        → c.in_use ≡ true
        → contents c.rx_cbuffer ≡ []
        → IsHeader t c head (length body)
        → Delivers sys h w pieces w1
        → sys.recv w1 h recv_buffer_size ≡ (received last, w2)
        → AreAllBytes pieces
        → AreBytes last
        → joined pieces ++ last ≡ (head ++ body) ++ rest
        → length (joined pieces) < length head + length body
        → length (joined pieces) + length last ≤ 297
        → (d : Context) × IsTaken c (joined pieces ++ last) d
          × ((out : Context) (status : Status)
              → parse_response (some d) ≡ some (some out, status)
              → (status ≡ st_ok) ⊎ (status ≡ response_error)
              → receive_response sys (length pieces + suc fuel) traced sock (at c w console)
                ≡ some (
                  true,
                  at out w2 (
                      trace traced
                        (shown traced console pieces)
                        (codes "RX: ")
                        last
                        (u16 (length last))),
                ))
    answered fuel pieces last rest c w w1 w2 console formed used empty header d r bs b whole short
          room =
        let later = drop (length (joined pieces)) (head ++ body) in
        let split =
          split_prefix (head ++ body) rest (joined pieces) last (sym whole)
            (omega (arith, length-append head body)) in
        let start : contents c.rx_cbuffer ++ (joined pieces ++ later) ≡ head ++ body =
          ap (λ (s : List ℕ). s ++ (joined pieces ++ later)) empty ∙ sym split in
        let none_held : length (contents c.rx_cbuffer) ≡ 0 = ap length empty in
        let k =
          pieces-IsTaken sys h sock connected traced t head body starts lo (omega arith) (suc fuel)
            pieces c w w1 console later formed used header d bs start
            (omega (arith, none_held, short)) fits in
        let held = length-append (contents c.rx_cbuffer) (joined pieces) in
        let f =
          (feed_response_bytes_lem k.0 last k.2.formed k.2.used b (omega (arith, room))).0
            (omega (arith, ap length k.2.held, held, none_held, room)) in
        (
          fed k.0 last,
          IsTaken-trans c k.0 (fed k.0 last) (joined pieces) last k.2
              (record { formed = f.2; used = k.2.used; held = f.1; same = refl }),
          λ out status p ends.
              k.1
              ∙ answer_taken fuel k.0 out last w1 w2 (shown traced console pieces) status r f.0 p
                  ends,
        )

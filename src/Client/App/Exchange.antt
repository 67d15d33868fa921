-- ===== src/Client/App/Exchange.antt =====
-- A command that makes a request: from the request to the answer that is parsed.
use fx5_slmp_library.Prelude.{
  ℕ, zero, suc, ◌+◌, ◌≤◌, ◌<◌, ◌≡◌, ◌⊎◌, inl, inr, refl, ap, ◌∙◌, subst, true, false, List, [], ◌∷◌,
  ◌++◌, some, arith, length, length-replicate, append_assoc, take, drop, replicate, Bool-cases,
}
use fx5_slmp_library.Types.{Status, st_ok, response_error, Header, Device}
use fx5_slmp_library.Context.{Context}
use fx5_slmp_library.RingBuf.Contents.{contents}
use fx5_slmp_library.Bytes.Stream.{AreBytes}
use fx5_slmp_library.Request.Devices.{
  validate_request, get_required_request_size, get_request_header_size, get_write_payload_size,
  is_4e, get_max_value_count,
}
use fx5_slmp_library.Api.{build_request, parse_response}
use fx5_slmp_library.Api.Build.{BuildOut}
use fx5_slmp_library.Api.Frame.{
  frame_bytes, after_build, build_request_lem, get_required_request_size-eq-length,
}
use fx5_slmp_library.Api.Invariant.{max_value_count-le}
use fx5_slmp_library.Api.Ready.{IsReady}
use fx5_slmp_library.Api.Ready.Transfer.{build_request-IsReady}
use fx5_slmp_library.Api.Parse.{IsHeader}
use fx5_slmp_library.Api.Parse.Arrival.{header_length}
use fx5_slmp_library.Api.Parse.Prefix.{StartsFrame}
use fx5_slmp_library.Client.Command.{ClientCommand}
use fx5_slmp_library.Client.Config.{ClientConfig}
use fx5_slmp_library.Client.Format.{Console, print}
use fx5_slmp_library.Client.Transport.{System, Socket, received, socket_send_all}
use fx5_slmp_library.Client.Commands.{apply_command_to_context, print_response}
use fx5_slmp_library.Client.App.{
  Io, receive_response, after_send, after_build_request, after_apply, execute_command,
  recv_buffer_size, max_request_size,
}
use fx5_slmp_library.Client.App.Receiving.{joined, AreAllBytes, shown, Delivers, IsTaken}
use fx5_slmp_library.Client.App.Answer.{answered}

take-append : (xs ys : List ℕ) → take (length xs) (xs ++ ys) ≡ xs
take-append [] ys = refl
take-append (x ∷ xs) ys = ap (λ (s : List ℕ). x ∷ s) (take-append xs ys)

-- Every request fits the client's buffer.
write_payload_le :
    (device : Device) (count : ℕ)
    → count ≤ get_max_value_count device
    → get_write_payload_size device count ≤ 256
unfolding get_write_payload_size get_max_value_count
write_payload_le device count h = ground arith

request_size_le :
    (c : Context) → c.count ≤ get_max_value_count c.device → get_required_request_size c ≤ 281
unfolding get_required_request_size get_request_header_size
request_size_le c h = let p = write_payload_le c.device c.count h in ground (arith, p)

untraced : (pieces : List (List ℕ)) (console : Console) → shown false console pieces ≡ console
untraced [] console = refl
untraced (xs ∷ pieces) console = untraced pieces console

module _ (sys : System) (h : ℕ) (sock : Socket) (connected : sock.handle ≡ some h)
    (config : ClientConfig) (quiet : config.trace_enabled ≡ false) (cmd : ClientCommand)
    (c q : Context) (applied : apply_command_to_context (some c) cmd config ≡ (some q, st_ok))
    (ready : IsReady (some q)) (valid : validate_request q ≡ st_ok)
    (empty : contents q.rx_cbuffer ≡ []) where
  room_for : length (frame_bytes q) ≤ 297
  room_for =
      let most = max_value_count-le q ready.0 in
      omega
        (arith, get_required_request_size-eq-length q most, request_size_le q ready.0.count_fits)

  abbrev buffer : List ℕ
  buffer = replicate max_request_size 0

  built : build_request (some q) (some buffer) max_request_size true ≡ record {
    status = st_ok;
    context = some (after_build q);
    out_buf = frame_bytes q ++ drop (length (frame_bytes q)) buffer;
    actual_size = some (length (frame_bytes q));
  }
  built =
      build_request_lem q buffer max_request_size ready.0 ready.1 valid
        (omega (arith, length-replicate max_request_size (zero))) (omega arith)
        (omega (arith, room_for))

  built-IsReady : IsReady (some (after_build q))
  built-IsReady =
      subst IsReady (ap (λ (o : BuildOut). o.context) built)
        (build_request-IsReady q ready (some buffer) max_request_size true)

  abbrev io_at : Context → sys.World → Console → Io sys
  io_at d w console = record { context = some d; world = w; console = console }

  request_sent :
      (fuel : ℕ) (w w0 : sys.World) (console : Console)
      → socket_send_all sys sock (frame_bytes q) w ≡ some (true, w0)
      → execute_command sys fuel config cmd sock (io_at c w console)
        ≡ after_send sys fuel false cmd sock true (io_at (after_build q) w0 console)
  unfolding execute_command after_apply after_build_request
  request_sent fuel w w0 console s =
      let k = take-append (frame_bytes q) (drop (length (frame_bytes q)) buffer) in
      rw (applied, execute_command)
        (rw (built, after_apply)
          (rw (k, after_build_request) (rw (s, after_build_request) (rw quiet refl))))

  still_empty : contents (after_build q).rx_cbuffer ≡ []
  still_empty = elim (Bool-cases (is_4e q.network_settings.header_type)) [
    | inl four ↦ rw four empty
    | inr three ↦ rw three empty
  ]

  answer_printed :
      (fuel : ℕ) (w w2 : sys.World) (d out : Context) (console : Console)
      → receive_response sys fuel false sock (io_at d w console) ≡ some (true, io_at out w2 console)
      → after_send sys fuel false cmd sock true (io_at d w console)
        ≡ some (true, io_at out w2 (print console (print_response cmd (some out))))
  unfolding after_send
  answer_printed fuel w w2 d out console r = rw (r, after_send) refl

  -- The answer comes in pieces, the last of which may bring `rest` behind it: it is parsed on a
  -- context that holds all of them, and the result of that is printed.
  pub exchanged :
      (fuel : ℕ) (t : Header) (head body rest last : List ℕ) (pieces : List (List ℕ))
      (w w0 w1 w2 : sys.World) (console : Console)
      → socket_send_all sys sock (frame_bytes q) w ≡ some (true, w0)
      → StartsFrame t head
      → 2 ≤ length body
      → length body ≤ 280
      → IsHeader t (after_build q) head (length body)
      → Delivers sys h w0 pieces w1
      → sys.recv w1 h recv_buffer_size ≡ (received last, w2)
      → AreAllBytes pieces
      → AreBytes last
      → joined pieces ++ last ≡ (head ++ body) ++ rest
      → length (joined pieces) < length head + length body
      → length (joined pieces) + length last ≤ 297
      → (d : Context) × IsTaken (after_build q) (joined pieces ++ last) d
        × (contents d.rx_cbuffer ≡ head ++ (body ++ rest))
        × ((out : Context) (status : Status)
            → parse_response (some d) ≡ some (some out, status)
            → (status ≡ st_ok) ⊎ (status ≡ response_error)
            → execute_command sys (length pieces + suc fuel) config cmd sock (io_at c w console)
              ≡ some (true, io_at out w2 (print console (print_response cmd (some out)))))
  exchanged fuel t head body rest last pieces w w0 w1 w2 console sent starts lo hi header delivers
        final bs b whole short room =
      let m = length pieces + suc fuel in
      let l = header_length t (after_build q) head (length body) header in
      let a =
        answered sys h sock connected false t head body starts lo (omega (arith, l, hi)) fuel pieces
          last rest (after_build q) w0 w1 w2 console built-IsReady.0 built-IsReady.1 still_empty
          header delivers final bs b whole short room in
      (
        a.0,
        a.1,
        a.1.held
            ∙ ap (λ (s : List ℕ). s ++ (joined pieces ++ last)) still_empty
            ∙ whole
            ∙ append_assoc head body rest,
        λ out status p ends.
            request_sent m w w0 console sent
            ∙ answer_printed m w0 w2 (after_build q) out console (
                a.2 out status p ends
                ∙ ap (λ (s : Console). some (true, io_at out w2 s)) (untraced pieces console)),
      )

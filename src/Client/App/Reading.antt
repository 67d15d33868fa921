-- ===== src/Client/App/Reading.antt =====
-- A command to read, from the line of the user to the lines that are printed.
use fx5_slmp_library.Prelude.{
  ℕ, suc, ◌+◌, ◌*◌, ◌≤◌, ◌<◌, ◌≡◌, inl, refl, ap, ◌∙◌, sym, subst, true, false, List, ◌++◌, some,
  arith, length, length-append, append_assoc, drop, get_or, get_or-append_left, replicate,
}
use fx5_slmp_library.Types.{st_ok, Header, Device, batch_read}
use fx5_slmp_library.Context.{Context}
use fx5_slmp_library.RingBuf.Contents.{contents}
use fx5_slmp_library.Bytes.Array.{le16, put_list, put_list_start}
use fx5_slmp_library.Bytes.Stream.{AreBytes}
use fx5_slmp_library.Request.Devices.{is_known, is_bit_device}
use fx5_slmp_library.Response.Words.{words_le, AreWords, length-words_le}
use fx5_slmp_library.Api.{parse_response, get_response_value}
use fx5_slmp_library.Api.Frame.{frame_bytes, after_build}
use fx5_slmp_library.Api.Invariant.{IsWellFormed}
use fx5_slmp_library.Api.Ready.{IsReady}
use fx5_slmp_library.Api.Requests.{is_request}
use fx5_slmp_library.Api.Values.{read_accepted}
use fx5_slmp_library.Api.Parse.{IsHeader}
use fx5_slmp_library.Api.Parse.Arrival.{same_header}
use fx5_slmp_library.Api.Parse.Pdu.{IsParsed}
use fx5_slmp_library.Api.Parse.Prefix.{StartsFrame, resync_spec-frame, parse_response-IsWellFormed}
use fx5_slmp_library.Api.Parse.Replies.{parse_response-words}
use fx5_slmp_library.Client.Command.{ClientCommand, get_command}
use fx5_slmp_library.Client.Config.{ClientConfig}
use fx5_slmp_library.Client.Format.{Console, print}
use fx5_slmp_library.Client.Transport.{System, Socket, received, socket_send_all}
use fx5_slmp_library.Client.Commands.{print_response}
use fx5_slmp_library.Client.Commands.Apply.{apply_command-get}
use fx5_slmp_library.Client.Commands.Report.{report, print_response-values}
use fx5_slmp_library.Client.App.{Io, execute_command, recv_buffer_size}
use fx5_slmp_library.Client.App.Receiving.{joined, AreAllBytes, Delivers, IsTaken}
use fx5_slmp_library.Client.App.Exchange.{exchanged}
use fx5_slmp_library.Client.App.Asked.{
  asked, asked-IsReady, asked_valid, nothing_held, after_build-IsBuilt,
}

-- The values of a response to a read of words.
words_there :
    (d out : Context) (vs rest : List ℕ) (k : ℕ)
    → IsReady (some out)
    → is_bit_device d.device ≡ false
    → d.values ≡ replicate 32 0
    → out.values ≡ put_list d.values 0 vs
    → length vs ≤ 32
    → IsParsed d 0 0 (length vs) rest out
    → k < length vs
    → get_response_value (some out) k true ≡ (st_ok, some (get_or vs k 0))
words_there d out vs rest k r word zeros e short parsed l =
    let count : out.count ≡ length vs = ap (λ (z : Context). z.count) parsed.same in
    let device : is_bit_device out.device ≡ false =
      ap (λ (z : Context). is_bit_device z.device) parsed.same ∙ word in
    let stored : out.values ≡ vs ++ drop (length vs) (replicate 32 0) =
      e
      ∙ ap (λ (q : List ℕ). put_list q 0 vs) zeros
      ∙ put_list_start (replicate 32 0) vs (omega (arith, short)) in
    let value : get_or out.values k 0 ≡ get_or vs k 0 =
      ap (λ (q : List ℕ). get_or q k 0) stored
      ∙ get_or-append_left vs (drop (length vs) (replicate 32 0)) k 0 l in
    read_accepted out r.0 r.1 out.values k (omega (arith, count, l)) ∙ ground (arith, device, value)

body_length : (vs : List ℕ) → length (le16 0 ++ words_le vs) ≡ 2 + length vs * 2
body_length vs = omega (arith, length-append (le16 0) (words_le vs), length-words_le vs)

request_bounds :
    (device : Device) (address count : ℕ)
    → is_request batch_read device address count ≡ true
    → is_bit_device device ≡ false
    → (1 ≤ count) × (count ≤ 32)
request_bounds device address count ok word = (ground arith, ground arith)

module _ (sys : System) (h : ℕ) (sock : Socket) (connected : sock.handle ≡ some h)
    (config : ClientConfig) (known : is_known config.network_settings.header_type ≡ true)
    (quiet : config.trace_enabled ≡ false) (cmd : ClientCommand)
    (gets : cmd.command_type ≡ get_command)
    (ok : is_request batch_read cmd.device cmd.start_address cmd.count ≡ true)
    (word : is_bit_device cmd.device ≡ false) (c : Context) (wf : IsWellFormed c)
    (used : c.in_use ≡ true) where
  abbrev request_of : Context
  request_of = asked c config wf used known cmd.device cmd.start_address cmd.count ok

  -- The context of the request, with bytes received.
  record IsAwaited (d : Context) : Type 0 where
    ready : IsReady (some d)
    device : is_bit_device d.device ≡ false
    command : d.command ≡ batch_read
    count : d.count ≡ cmd.count
    serial : d.serial ≡ 0
    values : d.values ≡ replicate 32 0

  awaited : (xs : List ℕ) (d : Context) → IsTaken (after_build request_of) xs d → IsAwaited d
  awaited xs d k =
      let b =
        after_build-IsBuilt c config wf used known cmd.device cmd.start_address cmd.count ok in
      record {
        ready = (k.formed, k.used);
        device =
            ap (λ (z : Context). is_bit_device z.device) k.same
            ∙ ap (λ (z : Context). is_bit_device z.device) b.same
            ∙ word;
        command = ap (λ (z : Context). z.command) k.same ∙ ap (λ (z : Context). z.command) b.same;
        count = ap (λ (z : Context). z.count) k.same ∙ ap (λ (z : Context). z.count) b.same;
        serial = ap (λ (z : Context). z.serial) k.same ∙ b.serial;
        values = ap (λ (z : Context). z.values) k.same ∙ ap (λ (z : Context). z.values) b.same;
      }

  words_parsed :
      (t : Header) (head rest vs : List ℕ) (d : Context)
      → IsAwaited d
      → StartsFrame t head
      → IsHeader t d head (2 + length vs * 2)
      → contents d.rx_cbuffer ≡ head ++ (le16 0 ++ (words_le vs ++ rest))
      → length vs ≡ cmd.count
      → AreWords vs
      → (out : Context) × (parse_response (some d) ≡ some (some out, st_ok))
        × IsReady (some out)
        × (print_response cmd (some out) ≡ report cmd.device cmd.start_address 0 vs)
  words_parsed t head rest vs d a starts header held count words =
      let bounds = request_bounds cmd.device cmd.start_address cmd.count ok word in
      let found =
        resync_spec-frame t d head (le16 0 ++ (words_le vs ++ rest)) (contents d.rx_cbuffer)
          (2 + length vs * 2) starts header held in
      let p =
        parse_response-words d t 0 head rest a.ready.0 a.ready.1 found (omega arith) vs a.command
          a.device (a.count ∙ sym count) (omega (arith, a.count, bounds)) words held header in
      let r = parse_response-IsWellFormed d a.ready.0 a.ready.1 p.0 st_ok p.1 in
      (
        p.0,
        p.1,
        r,
        print_response-values vs cmd p.0 gets r.1 (ap (λ (z : Context). z.response_code) p.3.same)
            (ap (λ (z : Context). z.count) p.3.same)
            (λ k l.
              words_there d p.0 vs rest k r a.device a.values p.2 (omega (arith, count, bounds)) p.3
                l),
      )

  abbrev at_io : Context → sys.World → Console → Io sys
  at_io d w console = record { context = some d; world = w; console = console }

  -- With the trace off, a well-formed context in use and a known header mode in the configuration,
  -- a command to read words of a range that the library can ask for, on a connected socket that
  -- takes the whole request frame: if the response frame to it, with the end code 0 and one word
  -- for each point, comes in any pieces, complete only with the last, which may bring bytes of
  -- another frame behind it, and all that is received is not more than the 297 bytes of the receive
  -- buffer, the command succeeds in as many rounds as there are pieces, and prints one line for
  -- each point, with its address and its word; the context is well-formed and in use.
  pub execute_command-read :
      (fuel : ℕ) (t : Header) (head rest vs last : List ℕ) (pieces : List (List ℕ))
      (w w0 w1 w2 : sys.World) (console : Console)
      → socket_send_all sys sock (frame_bytes request_of) w ≡ some (true, w0)
      → StartsFrame t head
      → IsHeader t (after_build request_of) head (2 + length vs * 2)
      → length vs ≡ cmd.count
      → AreWords vs
      → Delivers sys h w0 pieces w1
      → sys.recv w1 h recv_buffer_size ≡ (received last, w2)
      → AreAllBytes pieces
      → AreBytes last
      → joined pieces ++ last ≡ (head ++ (le16 0 ++ words_le vs)) ++ rest
      → length (joined pieces) < length head + (2 + length vs * 2)
      → length (joined pieces) + length last ≤ 297
      → (out : Context) × (execute_command sys
            (length pieces + suc fuel)
            config
            cmd
            sock
            (record { context = some c; world = w; console = console })
          ≡ some (
            true,
            record {
              context = some out;
              world = w2;
              console = print console (report cmd.device cmd.start_address 0 vs);
            },
          ))
        × IsReady (some out)
  execute_command-read fuel t head rest vs last pieces w w0 w1 w2 console sent starts header count
        words delivers final bs b whole short room =
      let body = le16 0 ++ words_le vs in
      let e = body_length vs in
      let bounds = request_bounds cmd.device cmd.start_address cmd.count ok word in
      let x =
        exchanged sys h sock connected config quiet cmd c request_of
          (apply_command-get c config wf used known cmd gets ok)
          (asked-IsReady c config wf used known cmd.device cmd.start_address cmd.count ok)
          (asked_valid c config wf used known cmd.device cmd.start_address cmd.count ok)
          (nothing_held c) fuel t head body rest last pieces w w0 w1 w2 console sent starts
          (omega (arith, e)) (omega (arith, e, bounds, count))
          (subst (IsHeader t (after_build request_of) head) (sym e) header) delivers final bs b
          whole (omega (arith, e, short)) room in
      let d = x.0 in
      let p =
        words_parsed t head rest vs d (awaited (joined pieces ++ last) d x.1) starts
          (same_header t (after_build request_of) d head (2 + length vs * 2)
            (ap (λ (z : Context). z.serial) x.1.same) header)
          (x.2 ∙ ap (λ (s : List ℕ). head ++ s) (append_assoc (le16 0) (words_le vs) rest)) count
          words in
      (
        p.0,
        x.3 p.0 st_ok p.1 (inl refl)
            ∙ ap (λ (s : List ℕ). some (true, at_io p.0 w2 (print console s))) p.3,
        p.2,
      )

-- ===== src/Client/App/Writing.antt =====
-- A command to write, from the line of the user to the result that is printed.
use fx5_slmp_library.Prelude.{
  ℕ, suc, ◌+◌, ◌≤◌, ◌<◌, ◌≡◌, ◌⊎◌, inl, inr, refl, ap, ◌∙◌, sym, subst, true, false, List, [], ◌++◌,
  some, arith, length, length-append, append_assoc, if◌then◌else◌, Bool-cases,
}
use fx5_slmp_library.Types.{Status, st_ok, response_error, Header, Device}
use fx5_slmp_library.Context.{Context}
use fx5_slmp_library.RingBuf.Contents.{contents}
use fx5_slmp_library.Bytes.Stream.{AreBytes}
use fx5_slmp_library.Request.Devices.{validate_request, is_4e}
use fx5_slmp_library.Api.{parse_response}
use fx5_slmp_library.Api.Frame.{frame_bytes, after_build}
use fx5_slmp_library.Api.Ready.{IsReady}
use fx5_slmp_library.Api.Parse.{IsHeader}
use fx5_slmp_library.Api.Parse.Prefix.{StartsFrame}
use fx5_slmp_library.Client.Command.{ClientCommand}
use fx5_slmp_library.Client.Config.{ClientConfig}
use fx5_slmp_library.Client.Format.{Console, print}
use fx5_slmp_library.Client.Transport.{System, Socket, received, socket_send_all}
use fx5_slmp_library.Client.Commands.{apply_command_to_context, print_response}
use fx5_slmp_library.Client.App.{execute_command, recv_buffer_size}
use fx5_slmp_library.Client.App.Receiving.{joined, AreAllBytes, Delivers}
use fx5_slmp_library.Client.App.Asked.{nothing_held}
use fx5_slmp_library.Client.App.Exchange.{exchanged}
use fx5_slmp_library.Prelude.Strings.{codes}
use fx5_slmp_library.Prelude.{◌==◌, ◌^◌}
use fx5_slmp_library.Types.{batch_write}
use fx5_slmp_library.Request.Devices.{is_known, device_allows_write}
use fx5_slmp_library.Bytes.Array.{le16}
use fx5_slmp_library.Response.Stream.{resync_spec}
use fx5_slmp_library.Api.{is_acquired, get_response_code}
use fx5_slmp_library.Api.Invariant.{IsWellFormed}
use fx5_slmp_library.Api.Requests.{
  is_request, requested, set_request_lem, validate_request-set_request,
}
use fx5_slmp_library.Api.Parse.Arrival.{same_header}
use fx5_slmp_library.Api.Parse.Prefix.{resync_spec-frame, parse_response-IsWellFormed}
use fx5_slmp_library.Api.Parse.Replies.{parse_response-acknowledged, parse_response-failed}
use fx5_slmp_library.Client.Command.{set_command}
use fx5_slmp_library.Client.Format.{hex4}
use fx5_slmp_library.Client.Commands.{client_device_allows_write, is_set}
use fx5_slmp_library.Client.Commands.Apply.{configured, configured-IsReady, apply_command-set}

-- What is printed for the end code of the answer.
abbrev pub outcome : ℕ → List ℕ
outcome code =
    if code == 0 then codes "OK\n" else codes "PLC ERROR: 0x" ++ (hex4 code ++ codes "\n")

print_outcome :
    (cmd : ClientCommand) (out : Context) (code : ℕ)
    → cmd.command_type ≡ set_command
    → out.in_use ≡ true
    → out.response_code ≡ code
    → print_response cmd (some out) ≡ outcome code
unfolding print_response is_set get_response_code is_acquired
print_outcome cmd out code sets used e = ground (arith, sets, used, e)

same_writable : (d : Device) → client_device_allows_write d ≡ true → device_allows_write d ≡ true
unfolding client_device_allows_write device_allows_write
same_writable d h = ground (arith, h)

-- An answer to a write, with its end code and what may stand behind that.
module _ (d : Context) (t : Header) (head payload rest : List ℕ) (code : ℕ)
    (ready : IsReady (some d)) (writes : d.command ≡ batch_write) (starts : StartsFrame t head)
    (header : IsHeader t d head (2 + length payload)) (small : code < 2 ^ 16)
    (alone : code ≡ 0 → payload ≡ []) (short : length payload ≤ 278)
    (held : contents d.rx_cbuffer ≡ head ++ (le16 code ++ (payload ++ rest))) where
  abbrev IsAnswered : Type 0
  IsAnswered =
      (out : Context) × (status : Status) × (parse_response (some d) ≡ some (some out, status))
      × ((status ≡ st_ok) ⊎ (status ≡ response_error))
      × (out.response_code ≡ code)

  found : resync_spec (contents d.rx_cbuffer) ≡ (0, t)
  found =
      resync_spec-frame t d head (le16 code ++ (payload ++ rest)) (contents d.rx_cbuffer)
        (2 + length payload) starts header held

  answer_parsed : IsAnswered
  answer_parsed = elim (Bool-cases (code == 0)) [
    | inl z ↦
        let zero_code : code ≡ 0 = ground (arith, z) in
        let no_payload = alone zero_code in
        let p =
          parse_response-acknowledged d t 0 head rest ready.0 ready.1 found (omega arith) writes
            (held
              ∙ ap (λ (n : ℕ). head ++ (le16 n ++ (payload ++ rest))) zero_code
              ∙ ap (λ (s : List ℕ). head ++ (le16 0 ++ (s ++ rest))) no_payload)
            (subst (λ (n : ℕ). IsHeader t d head (2 + n)) (ap length no_payload) header) in
        (p.0, st_ok, p.1, inl refl, ap (λ (z : Context). z.response_code) p.3.same ∙ sym zero_code)
    | inr e ↦
        let p =
          parse_response-failed d t 0 head rest ready.0 ready.1 found (omega arith) code payload
            small (ground (arith, e)) (omega (arith, short)) held header in
        (p.0, response_error, p.1, inr refl, ap (λ (z : Context). z.response_code) p.3.same)
  ]

module _ (sys : System) (h : ℕ) (sock : Socket) (connected : sock.handle ≡ some h)
    (config : ClientConfig) (known : is_known config.network_settings.header_type ≡ true)
    (quiet : config.trace_enabled ≡ false) (cmd : ClientCommand)
    (sets : cmd.command_type ≡ set_command)
    (writable : client_device_allows_write cmd.device ≡ true)
    (ok : is_request batch_write cmd.device cmd.start_address cmd.count ≡ true)
    (all : cmd.value_count ≡ cmd.count) (c : Context) (wf : IsWellFormed c) (used : c.in_use ≡ true)
    (q : Context) (applied : apply_command_to_context (some c) cmd config ≡ (some q, st_ok)) where
  abbrev asked : Context
  asked = requested (configured c config) batch_write cmd.device cmd.start_address cmd.count

  -- The request that the command is applied to.
  record IsWritten : Type 0 where
    ready : IsReady (some q)
    same : q ≡ record asked { values = q.values }

  written : IsWritten
  written =
      let a = apply_command-set c config wf used known cmd sets writable ok all in
      let e : a.0 ≡ q = cc (a.1, applied) in
      record {
        ready = subst (λ (z : Context). IsReady (some z)) e a.2;
        same = subst (λ (z : Context). z ≡ record asked { values = z.values }) e a.3;
      }

  values_ignored :
      (z : Context) (values : List ℕ)
      → validate_request (record z { values = values }) ≡ validate_request z
  unfolding validate_request
  values_ignored z values = refl

  written_valid : validate_request q ≡ st_ok
  written_valid =
      let base = configured c config in
      let u = (configured-IsReady c config wf used known).1 in
      let v =
        validate_request-set_request base batch_write cmd.device cmd.start_address cmd.count u known
          ok in
      let s = (set_request_lem base batch_write cmd.device cmd.start_address cmd.count u).0 ok in
      let same : v.0 ≡ asked = cc (v.1, s) in
      let allowed = same_writable cmd.device writable in
      ap validate_request written.same
      ∙ values_ignored asked q.values
      ∙ subst (λ (z : Context). validate_request z ≡ st_ok) same (v.2 ∙ ground (arith, allowed))

  written_empty : contents q.rx_cbuffer ≡ []
  written_empty = ap (λ (z : Context). contents z.rx_cbuffer) written.same ∙ nothing_held c

  sent_command : (after_build q).command ≡ batch_write
  sent_command = elim (Bool-cases (is_4e q.network_settings.header_type)) [
    | inl four ↦ rw four (ap (λ (z : Context). z.command) written.same)
    | inr three ↦ rw three (ap (λ (z : Context). z.command) written.same)
  ]

  -- With the trace off, a well-formed context in use and a known header mode in the configuration,
  -- a command to write, on a device that takes writes, of a range that the library can ask for and
  -- with as many values as its count, that becomes the request `q`, on a connected socket that
  -- takes the whole frame of `q`: if the response frame to it, with any end code and, behind one
  -- that is not 0, up to 278 bytes, comes in any pieces, complete only with the last, which may
  -- bring bytes of another frame behind it, and all that is received is not more than the 297 bytes
  -- of the receive buffer, the command succeeds in as many rounds as there are pieces, and prints
  -- `OK` if the end code is 0, and the end code if it is not; the context is well-formed and in
  -- use.
  pub execute_command-write :
      (fuel : ℕ) (t : Header) (head payload rest last : List ℕ) (code : ℕ) (pieces : List (List ℕ))
      (w w0 w1 w2 : sys.World) (console : Console)
      → socket_send_all sys sock (frame_bytes q) w ≡ some (true, w0)
      → StartsFrame t head
      → IsHeader t (after_build q) head (2 + length payload)
      → code < 2 ^ 16
      → (code ≡ 0 → payload ≡ [])
      → length payload ≤ 278
      → Delivers sys h w0 pieces w1
      → sys.recv w1 h recv_buffer_size ≡ (received last, w2)
      → AreAllBytes pieces
      → AreBytes last
      → joined pieces ++ last ≡ (head ++ (le16 code ++ payload)) ++ rest
      → length (joined pieces) < length head + (2 + length payload)
      → length (joined pieces) + length last ≤ 297
      → (out : Context) × (execute_command sys
            (length pieces + suc fuel)
            config
            cmd
            sock
            (record { context = some c; world = w; console = console })
          ≡ some (
            true,
            record { context = some out; world = w2; console = print console (outcome code) },
          ))
        × IsReady (some out)
  execute_command-write fuel t head payload rest last code pieces w w0 w1 w2 console sent starts
        header small alone short delivers final bs b whole part room =
      let n : length (le16 code ++ payload) ≡ 2 + length payload =
        omega (arith, length-append (le16 code) payload) in
      let x =
        exchanged sys h sock connected config quiet cmd c q applied written.ready written_valid
          written_empty fuel t head (le16 code ++ payload) rest last pieces w w0 w1 w2 console sent
          starts (omega (arith, n)) (omega (arith, n, short))
          (subst (IsHeader t (after_build q) head) (sym n) header) delivers final bs b whole
          (omega (arith, n, part)) room in
      let d = x.0 in
      let k = x.1 in
      let a =
        answer_parsed d t head payload rest code (k.formed, k.used)
          (ap (λ (z : Context). z.command) k.same ∙ sent_command) starts
          (same_header t (after_build q) d head (2 + length payload)
            (ap (λ (z : Context). z.serial) k.same) header)
          small alone short
          (x.2 ∙ ap (λ (s : List ℕ). head ++ s) (append_assoc (le16 code) payload rest)) in
      let r = parse_response-IsWellFormed d k.formed k.used a.0 a.1 a.2 in
      (
        a.0,
        x.3 a.0 a.1 a.2 a.3
            ∙ ap
                (λ (s : List ℕ).
                  some (true, record { context = some a.0; world = w2; console = print console s }))
                (print_outcome cmd a.0 code sets r.1 a.4),
        r,
      )

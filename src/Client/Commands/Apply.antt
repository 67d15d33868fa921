-- ===== src/Client/Commands/Apply.antt =====
-- `fx5_client_apply_command_to_context`: the request that a command makes of a context.
use fx5_slmp_library.Prelude.{
  ℕ, zero, suc, ◌+◌, ◌≤◌, ◌<◌, ◌≡◌, refl, ap, ◌∙◌, sym, true, ◌&&◌, some, Option, List, arith,
  subst, ltb, leb, ◌==◌, if◌then◌else◌, get_or, Bool-cases, inl, inr, ==_iff,
}
use fx5_slmp_library.Types.{Status, st_ok, Device, Command, batch_read, batch_write}
use fx5_slmp_library.Context.{Context, reset_internal}
use fx5_slmp_library.Request.Devices.{is_known}
use fx5_slmp_library.Api.{reset, set_network_settings, set_write_value, get_response_value}
use fx5_slmp_library.Api.{require_acquired}
use fx5_slmp_library.Api.Invariant.{IsWellFormed}
use fx5_slmp_library.Api.Ready.{
  IsReady, reset-IsReady, set_network_settings-IsReady, set_request-IsReady,
  set_write_value-IsReady,
}
use fx5_slmp_library.Api.Requests.{is_request, requested, set_request_lem}
use fx5_slmp_library.Api.Values.{
  written_as, written, write_accepted, get_response_value-set_write_value,
}
use fx5_slmp_library.Client.Command.{ClientCommand, get_command, set_command}
use fx5_slmp_library.Client.Config.{ClientConfig}
use fx5_slmp_library.Client.Commands.{
  client_device_allows_write, write_values, apply_request, apply_command_to_context,
}

-- A context that is reset and has the settings of the configuration.
abbrev pub configured : Context → ClientConfig → Context
configured c config = record (reset_internal c) { network_settings = config.network_settings }

module _ (c : Context) (config : ClientConfig) (w : IsWellFormed c) (used : c.in_use ≡ true)
    (known : is_known config.network_settings.header_type ≡ true) where
  reset_lem : reset (some c) ≡ (some (reset_internal c), st_ok)
  unfolding reset require_acquired
  reset_lem = ground arith

  reset_used : (reset_internal c).in_use ≡ true
  unfolding reset_internal
  reset_used = used

  settings_lem :
      set_network_settings (some (reset_internal c)) (some config.network_settings)
      ≡ (some (configured c config), st_ok)
  unfolding set_network_settings require_acquired
  settings_lem = ground (arith, reset_used)

  pub configured-IsReady : IsReady (some (configured c config))
  configured-IsReady =
      let r = ap (λ (o : Option Context × Status). o.0) reset_lem in
      let s = ap (λ (o : Option Context × Status). o.0) settings_lem in
      let a = subst IsReady r (reset-IsReady c (w, used)) in
      subst IsReady s
        (set_network_settings-IsReady (reset_internal c) a (some config.network_settings))

  pub request-IsReady :
      (command : Command) (device : Device) (address count : ℕ)
      → is_request command device address count ≡ true
      → IsReady (some (requested (configured c config) command device address count))
  request-IsReady command device address count ok =
      subst IsReady
        (ap (λ (o : Option Context × Status). o.0)
          ((set_request_lem (configured c config) command device address count
              configured-IsReady.1).0
            ok))
        (set_request-IsReady (configured c config) configured-IsReady command device address count)

  -- A command to read becomes the request of its range, on a context that is reset and has the
  -- settings of the configuration.
  pub apply_command-get :
      (cmd : ClientCommand)
      → cmd.command_type ≡ get_command
      → is_request batch_read cmd.device cmd.start_address cmd.count ≡ true
      → apply_command_to_context (some c) cmd config ≡ (
        some (requested (configured c config) batch_read cmd.device cmd.start_address cmd.count),
        st_ok,
      )
  unfolding apply_command_to_context apply_request
  apply_command-get cmd e ok =
      let s =
        (set_request_lem (configured c config) batch_read cmd.device cmd.start_address cmd.count
            configured-IsReady.1).0
          ok in
      rw (e, apply_command_to_context)
        (rw (reset_lem, apply_command_to_context) (rw (settings_lem, apply_command_to_context) s))

-- The values from slot `i` on, `left` of them, are written, and the others read as before.
record HasValues (c : Context) (i left : ℕ) (values : List ℕ) (out : Context) : Type 0 where
  ready : IsReady (some out)
  same : out ≡ record c { values = out.values }
  read :
      (j : ℕ)
      → j < c.count
      → get_response_value (some out) j true ≡ (
          if leb i j && ltb j (i + left)
          then (st_ok, some (written_as c.device (get_or values j 0)))
          else get_response_value (some c) j true)

value_written :
    (c : Context) (i v : ℕ)
    → IsReady (some c)
    → i < c.count
    → (d : Context) × (set_write_value (some c) i v ≡ (some d, st_ok))
      × IsReady (some d)
      × (d ≡ record c { values = d.values })
      × ((j : ℕ)
          → j < c.count
          → get_response_value (some d) j true ≡ (
              if j == i
              then (st_ok, some (written_as c.device v))
              else get_response_value (some c) j true))
value_written c i v r h =
    let d = record c { values = written c i v } in
    let e = write_accepted c r.0 r.1 i v h in
    (
      d,
      e,
      subst IsReady (ap (λ (o : Option Context × Status). o.0) e) (set_write_value-IsReady c r i v),
      refl,
      λ j k.
          ap (λ (o : Option Context × Status). get_response_value o.0 j true) (sym e)
          ∙ (get_response_value-set_write_value c r.0 r.1 i j v h k).1,
    )

-- One slot at `i`, and those behind it.
more_slots :
    (i j left : ℕ) (f : ℕ → Status × Option ℕ) (x y z : Status × Option ℕ)
    → x ≡ (if leb (i + 1) j && ltb j (i + 1 + left) then f j else y)
    → y ≡ (if j == i then f i else z)
    → x ≡ (if leb i j && ltb j (i + suc left) then f j else z)
more_slots i j left f x y z e k = elim (Bool-cases (j == i)) [
  | inl same ↦ let at : j ≡ i = (==_iff j i).0 same in ground (arith, e, k, ap f at)
  | inr other ↦ ground (arith, e, k)
]

write_values_lem :
    (left i : ℕ) (values : List ℕ) (c : Context)
    → IsReady (some c)
    → i + left ≤ c.count
    → (out : Context) × (write_values left i values (some c) ≡ (some out, st_ok))
      × HasValues c i left values out
unfolding write_values
write_values_lem zero i values c r h =
    (c, refl, record { ready = r; same = refl; read = λ j k. ground arith })
write_values_lem (suc left) i values c r h =
    let one = value_written c i (get_or values i 0) r (omega arith) in
    let d = one.0 in
    let count : d.count ≡ c.count = ap (λ (z : Context). z.count) one.3 in
    let more = write_values_lem left (i + 1) values d one.2 (omega (arith, count)) in
    (
      more.0,
      rw (one.1, write_values) more.1,
      record {
        ready = more.2.ready;
        same = more.2.same ∙ ap (λ (z : Context). record z { values = more.0.values }) one.3;
        read = λ j k.
            more_slots i j left (λ n. (st_ok, some (written_as c.device (get_or values n 0)))) _ _ _
              (more.2.read j (omega (arith, count, k))
                ∙ ap
                    (λ (q : Device).
                      if leb (i + 1) j && ltb j (i + 1 + left)
                      then (st_ok, some (written_as q (get_or values j 0)))
                      else get_response_value (some d) j true)
                    (ap (λ (z : Context). z.device) one.3))
              (one.4 j k);
      },
    )

module _ (c : Context) (config : ClientConfig) (w : IsWellFormed c) (used : c.in_use ≡ true)
    (known : is_known config.network_settings.header_type ≡ true) (cmd : ClientCommand)
    (sets : cmd.command_type ≡ set_command)
    (writable : client_device_allows_write cmd.device ≡ true)
    (ok : is_request batch_write cmd.device cmd.start_address cmd.count ≡ true)
    (all : cmd.value_count ≡ cmd.count) where
  abbrev asked : Context
  asked = requested (configured c config) batch_write cmd.device cmd.start_address cmd.count

  set_applied :
      (out : Context)
      → write_values cmd.value_count 0 cmd.values (some asked) ≡ (some out, st_ok)
      → apply_command_to_context (some c) cmd config ≡ (some out, st_ok)
  unfolding apply_command_to_context apply_request
  set_applied out e =
      let s =
        (set_request_lem (configured c config) batch_write cmd.device cmd.start_address cmd.count
            (configured-IsReady c config w used known).1).0
          ok in
      rw (sets, writable, apply_command_to_context)
        (rw (reset_lem c config w used known, apply_command_to_context)
          (rw (settings_lem c config w used known, apply_command_to_context)
            (rw (s, apply_request) e)))

  -- A command to write, on a device that takes writes, of a range that the library can ask for and
  -- with as many values as its count, for a well-formed context in use and a configuration with a
  -- known header mode: the context is reset and has the settings of the configuration, the request
  -- is stored, and each of its values reads back as the command has it, as 0x00FF or 0 on a bit
  -- device; the context is well-formed and in use.
  pub apply_command-set :
      (out : Context) × (apply_command_to_context (some c) cmd config ≡ (some out, st_ok))
      × IsReady (some out)
      × (out ≡ record asked { values = out.values })
      × ((j : ℕ)
          → j < cmd.count
          → get_response_value (some out) j true
            ≡ (st_ok, some (written_as cmd.device (get_or cmd.values j 0))))
  apply_command-set =
      let r =
        request-IsReady c config w used known batch_write cmd.device cmd.start_address cmd.count
          ok in
      let v = write_values_lem cmd.value_count 0 cmd.values asked r (omega (arith, all)) in
      (v.0, set_applied v.0 v.1, v.2.ready, v.2.same, λ j k. v.2.read j k ∙ ground (arith, all))

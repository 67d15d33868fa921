-- ===== src/Client/Commands/Ready.antt =====
-- A command applied to a context, on every branch.
use fx5_slmp_library.Prelude.{
  ℕ, zero, suc, ◌+◌, not, ◌&&◌, List, Option, some, none, get_or, Bool-cases, inl, inr,
}
use fx5_slmp_library.Types.{Status, st_ok, batch_read, batch_write}
use fx5_slmp_library.Context.{Context}
use fx5_slmp_library.Api.{reset, set_network_settings, set_request, set_write_value}
use fx5_slmp_library.Api.Ready.{
  IsReady, reset-IsReady, set_network_settings-IsReady, set_request-IsReady,
  set_write_value-IsReady,
}
use fx5_slmp_library.Client.Command.{ClientCommand}
use fx5_slmp_library.Client.Config.{ClientConfig}
use fx5_slmp_library.Client.Commands.{
  and_then, write_values, apply_request, apply_command_to_context, is_get, is_set,
  command_needs_plc_io, client_device_allows_write,
}

-- The calls of `fx5_client_apply_command_to_context` keep the context well-formed and in use.
and_then-IsReady :
    (r : Option Context × Status) (next : Option Context → Option Context × Status)
    → IsReady r.0
    → ((ctx : Option Context) → IsReady ctx → IsReady (next ctx).0)
    → IsReady (and_then r next).0
and_then-IsReady (ctx, st_ok) next h k = k ctx h
and_then-IsReady (ctx, _) next h k = h

write_values-IsReady :
    (left i : ℕ) (values : List ℕ) (ctx : Option Context)
    → IsReady ctx
    → IsReady (write_values left i values ctx).0
unfolding write_values
write_values-IsReady zero i values ctx h = h
write_values-IsReady (suc left) i values none h = absurd h
write_values-IsReady (suc left) i values (some c) h =
    and_then-IsReady (set_write_value (some c) i (get_or values i 0)) _
      (set_write_value-IsReady c h i (get_or values i 0))
      (λ ctx k. write_values-IsReady left (i + 1) values ctx k)

apply_request-IsReady :
    (cmd : ClientCommand) (ctx : Option Context) → IsReady ctx → IsReady (apply_request cmd ctx).0
unfolding apply_request
apply_request-IsReady cmd none h = absurd h
apply_request-IsReady cmd (some c) h =
    let writes =
      and_then-IsReady (set_request (some c) batch_write cmd.device cmd.start_address cmd.count) _
        (set_request-IsReady c h batch_write cmd.device cmd.start_address cmd.count)
        (λ ctx k. write_values-IsReady cmd.value_count 0 cmd.values ctx k) in
    elim (Bool-cases (is_get cmd.command_type)) [
      | inl e ↦ rw e (set_request-IsReady c h batch_read cmd.device cmd.start_address cmd.count)
      | inr e ↦ rw e writes
    ]

settings_applied :
    (cmd : ClientCommand) (config : ClientConfig) (ctx : Option Context)
    → IsReady ctx
    → IsReady
        (and_then
          (set_network_settings ctx (some config.network_settings))
          (λ ctx'. apply_request cmd ctx')).0
settings_applied cmd config none h = absurd h
settings_applied cmd config (some c) h =
    and_then-IsReady (set_network_settings (some c) (some config.network_settings)) _
      (set_network_settings-IsReady c h (some config.network_settings))
      (λ ctx k. apply_request-IsReady cmd ctx k)

pub apply_command-IsReady :
    (c : Context) (cmd : ClientCommand) (config : ClientConfig)
    → IsReady (some c)
    → IsReady (apply_command_to_context (some c) cmd config).0
unfolding apply_command_to_context
apply_command-IsReady c cmd config h =
    let all =
      and_then-IsReady (reset (some c)) _ (reset-IsReady c h)
        (λ ctx k. settings_applied cmd config ctx k) in
    elim (Bool-cases (not (command_needs_plc_io cmd))) [
      | inl e ↦ rw e h
      | inr e ↦
          elim (Bool-cases
            (is_set cmd.command_type && not (client_device_allows_write cmd.device))) [
              | inl f ↦ rw (e, f) h
              | inr f ↦ rw (e, f) all
            ]
    ]

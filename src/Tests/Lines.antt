-- ===== src/Tests/Lines.antt =====
-- The theorems on command lines, configuration files and commands at concrete ones.
use fx5_slmp_library.Prelude.{
  ℕ, ◌<◌, ◌≡◌, refl, true, false, [], ◌∷◌, ◌++◌, some, arith, inl, replicate, get_or,
}
use fx5_slmp_library.Prelude.Strings.{codes}
use fx5_slmp_library.Types.{st_ok, dev_d, dev_w, batch_write, network_settings_init}
use fx5_slmp_library.Context.{Context}
use fx5_slmp_library.Request.Devices.{is_supported_command, is_supported_device, is_bit_device}
use fx5_slmp_library.Api.{get_response_value}
use fx5_slmp_library.Api.Ready.{IsReady}
use fx5_slmp_library.Api.Requests.{requested}
use fx5_slmp_library.Api.Values.{written_as}
use fx5_slmp_library.Client.Text.{is_space}
use fx5_slmp_library.Client.Format.{digits_in, print_digits, digit_char}
use fx5_slmp_library.Client.Command.{
  ClientCommand, get_command, set_command, command_init, parse_command,
}
use fx5_slmp_library.Client.Config.{ClientConfig, config_init, load_ini_file}
use fx5_slmp_library.Client.Config.Ini.{ini_text}
use fx5_slmp_library.Client.Config.Settings.{settings_entries, load_ini_file-settings}
use fx5_slmp_library.Client.Commands.{
  apply_command_to_context, client_device_allows_write, print_device_address, client_device_name,
}
use fx5_slmp_library.Client.Commands.Apply.{configured, apply_command-set}
use fx5_slmp_library.Client.Commands.Lines.{
  for_range, parse_command-get_range, parse_command-set_range, parse_command-hex_end,
}
use fx5_slmp_library.Tests.{word_context, word_context-IsWellFormed}

-- Two points from W1A on.
parse_command-get_range_example :
    parse_command (codes "get W1A-W1B")
    ≡ some (true, for_range (record command_init { command_type = get_command }) dev_w 0x1A 0x1B)
unfolding print_device_address client_device_name digits_in print_digits digit_char
parse_command-get_range_example =
    parse_command-get_range dev_w 0x1A 0x1B tt (omega arith) (omega arith) (omega arith)

parse_command-set_range_example :
    parse_command (codes "set D10-D11=7,500")
    ≡ some (
      true,
      record (for_range (record command_init { command_type = set_command }) dev_d 10 11) {
        values = (7 ∷ 500 ∷ []) ++ replicate 510 0;
        value_count = 2;
      },
    )
unfolding print_device_address client_device_name digits_in print_digits digit_char
parse_command-set_range_example =
    parse_command-set_range dev_d 10 11 tt (omega arith) (omega arith) (omega arith) 7 (500 ∷ [])
      (omega arith) refl (omega arith)

parse_command-hex_end_example :
    parse_command (codes "get W10-A0")
    ≡ some (false, record command_init { command_type = get_command })
unfolding print_device_address client_device_name digits_in print_digits digit_char
parse_command-hex_end_example =
    parse_command-hex_end dev_w 0x10 b'A' (codes "0") tt (inl (omega arith)) (omega arith)

abbrev configuration : ClientConfig
configuration = record config_init { host = some (codes "10.0.0.7"); port = 5007 }

load_ini_file-settings_example :
    load_ini_file
      (λ _. record { available = true; garbage = 99 })
      (some (ini_text (settings_entries (codes "10.0.0.7") configuration)))
      config_init
    ≡ (configuration, true)
unfolding config_init network_settings_init is_space
load_ini_file-settings_example =
    load_ini_file-settings (λ _. record { available = true; garbage = 99 }) (codes "10.0.0.7")
      configuration config_init refl
      (record {
        trimmed = (refl, refl);
        line = omega arith;
        present = omega arith;
        short = omega arith;
      })
      (record {
        port = omega arith;
        recv_timeout_ms = omega arith;
        network_no = omega arith;
        pc_no = omega arith;
        module_io_no = omega arith;
        module_station_no = omega arith;
        monitoring_timer = omega arith;
        header_known = refl;
      })
      refl

abbrev write_two : ClientCommand
write_two = record command_init {
  command_type = set_command;
  device = dev_d;
  start_address = 10;
  count = 2;
  values = (7 ∷ 500 ∷ []) ++ replicate 510 0;
  value_count = 2;
}

apply_command-set_example :
    (out : Context) × (apply_command_to_context (some word_context) write_two config_init
      ≡ (some out, st_ok))
    × IsReady (some out)
    × (out ≡ record (requested (configured word_context config_init) batch_write dev_d 10 2) {
      values = out.values;
    })
    × ((j : ℕ)
        → j < 2
        → get_response_value (some out) j true
          ≡ (st_ok, some (written_as dev_d (get_or write_two.values j 0))))
unfolding config_init network_settings_init client_device_allows_write is_supported_command
    is_supported_device is_bit_device
apply_command-set_example =
    apply_command-set word_context config_init word_context-IsWellFormed refl refl write_two refl
      refl refl refl

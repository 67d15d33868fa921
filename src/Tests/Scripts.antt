-- ===== src/Tests/Scripts.antt =====
-- The theorem on scripts at a script whose second command is refused.
use fx5_slmp_library.Prelude.{ℕ, ◌≡◌, refl, false, List, [], ◌∷◌, ◌++◌, some, none, inl, inr}
use fx5_slmp_library.Prelude.Strings.{codes}
use fx5_slmp_library.Client.Command.{ClientCommand, parse_command, parse_command_at, command_init}
use fx5_slmp_library.Client.Config.{config_init}
use fx5_slmp_library.Client.Session.{dispatch, app_execute_command, stored}
use fx5_slmp_library.Client.Device.{
  has_prefix, parse_device_and_range, parse_device_prefix, find_prefix, parse_range,
}
use fx5_slmp_library.Client.Command.{
  parse_set, parse_scalar_or_list, scalar_word, device_is_bit, fill_values, scalar_values,
  is_token_boundary, parse_bool_word,
}
use fx5_slmp_library.Client.Numbers.{
  parse_uint32_cursor_base, strtoul, convert, digit_value, skip_prefix, take_digits,
}
use fx5_slmp_library.Client.Text.{is_xdigit, is_alpha}
use fx5_slmp_library.Client.App.{execute_command, after_apply}
use fx5_slmp_library.Client.Commands.{apply_command_to_context, client_device_allows_write}
use fx5_slmp_library.Client.Format.{digits_in, print_digits, digit_char}
use fx5_slmp_library.Client.Lines.{lines, lines_from, c_string}
use fx5_slmp_library.Client.Text.{skip_spaces, trim_right, trim_right_loop, is_space, same_text}
use fx5_slmp_library.Client.Session.{
  App, help_text, script_run, line_text, read_line, execute_repl_command,
}
use fx5_slmp_library.Client.Session.Stops.{script_run_stops}
use fx5_slmp_library.Tests.{word_context}
use fx5_slmp_library.Tests.Program.{dripping}

abbrev app_with : List ℕ → List ℕ → App dripping
app_with out err = record {
  config = config_init;
  ctx = some 0;
  sock = none;
  pool = word_context ∷ [];
  world = 5;
  console = record { out = out; err = err };
}

abbrev command_of : List ℕ → ClientCommand
command_of text = elim (parse_command text) [ none ↦ command_init | some (good, cmd) ↦ cmd ]

abbrev script_file : List ℕ
script_file = codes "# a comment\nhelp\nset SM0=true\nget D10\n"

script_run_stops_example :
    script_run dripping 6 (codes "s.txt") (some (script_file, false)) (app_with [] [])
    ≡ some (
      1,
      app_with help_text (
          codes "ERR: unsupported command or device\n"
          ++ codes "ERR: script command failed at line 3\n"),
    )
unfolding lines lines_from line_text skip_spaces trim_right trim_right_loop c_string is_space
    read_line parse_command parse_command_at same_text execute_repl_command help_text dispatch
    app_execute_command stored has_prefix parse_device_and_range parse_device_prefix find_prefix
    parse_range parse_set parse_scalar_or_list scalar_word device_is_bit fill_values scalar_values
    is_token_boundary parse_bool_word parse_uint32_cursor_base strtoul convert digit_value
    skip_prefix take_digits is_xdigit is_alpha execute_command after_apply apply_command_to_context
    client_device_allows_write digits_in print_digits digit_char
script_run_stops_example =
    script_run_stops dripping 6 (codes "s.txt") script_file
      (codes "# a comment\n" ∷ codes "help\n" ∷ []) (codes "set SM0=true\n")
      (codes "get D10\n" ∷ []) (app_with [] []) (app_with help_text [])
      (app_with help_text (codes "ERR: unsupported command or device\n"))
      (command_of (codes "set SM0=true")) refl
      (inl (
        inl refl,
        inr (command_of (codes "help"), app_with help_text [], (refl, refl), refl, refl),
      ))
      (refl, refl) refl

-- ===== src/Client/Options.antt =====
-- The command line of tools/fx5_client/src/main.c: the port and the options.
use fx5_slmp_library.Prelude.{
  ℕ, suc, Bool, true, false, ◌||◌, not, Option, none, some, List, [], ◌∷◌, ◌++◌, ltb, ◌==◌,
  if◌then◌else◌, get_or, drop, length,
}
use fx5_slmp_library.Prelude.Strings.{codes}
use fx5_slmp_library.Types.{header_3e, header_4e}
use fx5_slmp_library.Client.Text.{skip_spaces, same_text}
use fx5_slmp_library.Client.Numbers.{digit_value, take_digits}
use fx5_slmp_library.Client.Device.{has_prefix}
use fx5_slmp_library.Client.Config.{ClientConfig, config_set_script_path}

-- What is behind a number that `strtol` reads in base 10, and the number from 1 to `long_max` on;
-- 0 stands for the numbers below 1.
abbrev pub long_max : ℕ
long_max = 0x7FFFFFFFFFFFFFFF

unfoldable pub strtol_digits : Bool → List ℕ → ℕ × Option (List ℕ)
strtol_digits negative s =
    let (value, rest) = take_digits 10 0 s in
    if not (ltb (digit_value (get_or s 0 36)) 10)
    then (0, none)
    else if negative
    then (0, some rest)
    else if ltb long_max value
    then (long_max, some rest)
    else (value, some rest)

unfoldable pub strtol : List ℕ → ℕ × Option (List ℕ)
unfolding strtol_digits
strtol text =
    let s = skip_spaces text in
    if get_or s 0 0 == b'-'
    then strtol_digits true (drop 1 s)
    else if get_or s 0 0 == b'+'
    then strtol_digits false (drop 1 s)
    else strtol_digits false s

-- `*out_port` if it was written. Where nothing is converted the end pointer is at the text, which is
-- not empty.
unfoldable pub parse_port : List ℕ → Option ℕ
unfolding strtol
parse_port [] = none
parse_port (c ∷ text) =
    let (value, end) = strtol (c ∷ text) in
    elim end [
      | none ↦ none
      | some (d ∷ rest) ↦ none
      | some [] ↦ if (value == 0) || ltb 65535 value then none else some value
    ]

abbrev script_prefix : List ℕ
script_prefix = codes "--script="

-- What `fx5_client_parse_optional_arg` makes of `argv[*index]`: the option is refused, taken, or
-- taken with the argument behind it.
pub data Taken : Type 0 where
  refused : Taken
  alone : ClientConfig → Taken
  with_next : ClientConfig → Taken
  refused_next : Taken

-- `result` of a call that sets the path.
abbrev pub taken_if : ClientConfig × Bool → (ClientConfig → Taken) → Taken → Taken
taken_if (config, true) good bad = good config
taken_if (config, false) good bad = bad

-- `next` is `argv[*index + 1]`, if `*index + 1 < argc`.
unfoldable pub parse_optional_arg : Bool → List ℕ → Option (List ℕ) → ClientConfig → Taken
parse_optional_arg available arg next config =
    if same_text arg (codes "--trace")
    then alone (record config { trace_enabled = true })
    else if same_text arg (codes "--header=3e")
    then alone (record config {
      network_settings = record config.network_settings { header_type = header_3e };
    })
    else if same_text arg (codes "--header=4e")
    then alone (record config {
      network_settings = record config.network_settings { header_type = header_4e };
    })
    else if same_text arg (codes "--script")
    then elim next [
      | none ↦ refused
      | some path ↦ taken_if (config_set_script_path available config path) with_next refused_next
    ]
    else if has_prefix script_prefix arg
    then (if get_or (drop 9 arg) 0 0 == 0
        then refused
        else taken_if (config_set_script_path available config (drop 9 arg)) alone refused)
    else refused

-- `for (i = 3; i < argc; ++i)` over the arguments from there: the configuration, or the argument
-- that the message shows. `available k` is for the option that is the `k`th from the end.
unfoldable pub parse_options :
    (ℕ → Bool) → List (List ℕ) → ClientConfig → ClientConfig × Option (List ℕ)
parse_options available [] config = (config, none)
parse_options available (arg ∷ []) config =
    elim (parse_optional_arg (available 0) arg none config) [
      | alone config' ↦ (config', none)
      | with_next config' ↦ (config', none)
      | refused ↦ (config, some arg)
      | refused_next ↦ (config, some arg)
    ]
parse_options available (arg ∷ next ∷ rest) config =
    elim (parse_optional_arg (available (suc (length rest))) arg (some next) config) [
      | alone config' ↦ parse_options available (next ∷ rest) config'
      | with_next config' ↦ parse_options available rest config'
      | refused ↦ (config, some arg)
      | refused_next ↦ (config, some next)
    ]

unfoldable pub usage_text : List ℕ → List ℕ
usage_text program =
    codes "Usage:\n  "
    ++ (program
        ++ (codes " <host> <port> [--trace] [--header=3e|4e] [--script <file>]\n  "
            ++ (program
                ++ (codes " --help\n  "
                    ++ (program
                        ++ (codes " --version\n\nExamples:\n  "
                            ++ (program
                                ++ (codes " 192.168.0.10 5000\n  "
                                    ++ (program
                                        ++ (codes " 192.168.0.10 5000 --trace\n  "
                                            ++ (program
                                                ++ (codes " 192.168.0.10 5000 --header=3e\n  "
                                                    ++ (program
                                                        ++ codes
                                                            " 192.168.0.10 5000 --script smoke.txt\n")))))))))))))

-- ===== src/Client/Config.antt =====
-- tools/fx5_client/src/fx5_client_config.c. `malloc` is outside the program: each call of
-- `fx5_client_strdup` is told whether memory is to be had.
pub mod Ini
pub mod Entries
pub mod Settings
use fx5_slmp_library.Prelude.{
  ℕ, ◌+◌, Bool, true, false, ◌||◌, Option, none, some, List, [], ◌∷◌, ◌==◌, if◌then◌else◌, get_or,
  u8,
}
use mathlib.Core.Option
use fx5_slmp_library.Prelude.Strings.{codes}
use fx5_slmp_library.Types.{header_3e, header_4e, NetworkSettings, network_settings_init}
use fx5_slmp_library.Client.Text.{trim, same_text, parse_bool}
use fx5_slmp_library.Client.Numbers.{parse_uint32_text, parse_uint16_text}
use fx5_slmp_library.Client.Lines.{lines, c_string}

pub record ClientConfig : Type 0 where
  pub host : Option (List ℕ)
  pub port : ℕ
  pub trace_enabled : Bool
  pub recv_timeout_ms : ℕ
  pub script_path : Option (List ℕ)
  pub network_settings : NetworkSettings

unfoldable pub config_init : ClientConfig
unfolding network_settings_init
config_init = record {
  host = none;
  port = 0;
  trace_enabled = false;
  recv_timeout_ms = 1000;
  script_path = none;
  network_settings = record network_settings_init { header_type = header_4e };
}

unfoldable pub config_free : ClientConfig → ClientConfig
config_free c = record c { host = none; script_path = none }

-- A copy of the text, or NULL.
unfoldable pub strdup : Bool → List ℕ → Option (List ℕ)
strdup available text = if available then some text else none

unfoldable pub config_set_host : Bool → ClientConfig → List ℕ → ClientConfig × Bool
unfolding strdup
config_set_host available config host = elim (strdup available host) [
  | none ↦ (config, false)
  | some copy ↦ (record config { host = some copy }, true)
]

unfoldable pub config_set_script_path : Bool → ClientConfig → List ℕ → ClientConfig × Bool
unfolding strdup
config_set_script_path available config path = elim (strdup available path) [
  | none ↦ (config, false)
  | some copy ↦ (record config { script_path = some copy }, true)
]

-- What a call of `apply_kv` finds: whether `malloc` succeeds, and what the uninitialised variable
-- `tmp16` holds.
pub record Memory : Type 0 where
  pub available : Bool
  pub garbage : ℕ

-- `*out_value` after a parser: what it held before, if the parser failed.
abbrev pub overwrite {ℓ} : {A : Type ℓ} → Option A → A → A
overwrite none before = before
overwrite (some value) before = value

-- The settings after one of their keys; a key that is none of them changes nothing.
unfoldable pub apply_network_key : ℕ → List ℕ → List ℕ → NetworkSettings → NetworkSettings
apply_network_key garbage key value s =
    if same_text key (codes "network_no")
    then record s { network_no = u8 (overwrite (parse_uint16_text value) garbage) }
    else if same_text key (codes "pc_no")
    then record s { pc_no = u8 (overwrite (parse_uint16_text value) garbage) }
    else if same_text key (codes "module_io_no")
    then record s { module_io_no = overwrite (parse_uint16_text value) s.module_io_no }
    else if same_text key (codes "module_station_no")
    then record s { module_station_no = u8 (overwrite (parse_uint16_text value) garbage) }
    else if same_text key (codes "monitoring_timer")
    then record s { monitoring_timer = overwrite (parse_uint16_text value) s.monitoring_timer }
    else if same_text key (codes "header")
    then (if same_text value (codes "3e")
        then record s { header_type = header_3e }
        else if same_text value (codes "4e")
        then record s { header_type = header_4e }
        else s)
    else s

unfoldable pub apply_kv : Memory → List ℕ → List ℕ → ClientConfig → ClientConfig
apply_kv m key value config =
    if same_text key (codes "host")
    then (config_set_host m.available config value).0
    else if same_text key (codes "port")
    then record config { port = overwrite (parse_uint16_text value) config.port }
    else if same_text key (codes "trace")
    then record config { trace_enabled = overwrite (parse_bool value) config.trace_enabled }
    else if same_text key (codes "recv_timeout_ms")
    then record config {
      recv_timeout_ms = overwrite (parse_uint32_text value) config.recv_timeout_ms;
    }
    else record config {
      network_settings = apply_network_key m.garbage key value config.network_settings;
    }

-- `strchr(p, '=')`: the text in front of it, and the text behind.
unfoldable pub split_equals : List ℕ → Option (List ℕ × List ℕ)
split_equals [] = none
split_equals (c ∷ s) =
    if c == b'=' then some ([], s) else Option.map (λ r. (c ∷ r.0, r.1)) (split_equals s)

-- A round of the loop over the lines.
unfoldable pub apply_line : Memory → List ℕ → ClientConfig → ClientConfig
apply_line m line config =
    let p = trim (c_string line) in
    if (get_or p 0 0 == b'#') || (get_or p 0 0 == 0) then config else elim (split_equals p) [
      | none ↦ config
      | some (key, value) ↦ apply_kv m (trim key) (trim value) config
    ]

-- The lines from the `k`th on; `memory k` is what that line's call finds.
unfoldable pub apply_lines : (ℕ → Memory) → ℕ → List (List ℕ) → ClientConfig → ClientConfig
apply_lines memory k [] config = config
apply_lines memory k (line ∷ rest) config =
    apply_lines memory (k + 1) rest (apply_line (memory k) line config)

abbrev pub ini_line_size : ℕ
ini_line_size = 256

-- The file is `none` if it cannot be opened.
unfoldable pub load_ini_file : (ℕ → Memory) → Option (List ℕ) → ClientConfig → ClientConfig × Bool
load_ini_file memory none config = (config, false)
load_ini_file memory (some file) config =
    (apply_lines memory 0 (lines ini_line_size file) config, true)

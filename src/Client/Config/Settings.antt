-- ===== src/Client/Config/Settings.antt =====
-- A configuration written as a file, and read back.
use fx5_slmp_library.Prelude.{
  ℕ, ◌≤◌, ◌<◌, ◌^◌, ◌≡◌, refl, ap, ◌∙◌, Bool, true, false, List, [], ◌∷◌, some, arith, length,
  if◌then◌else◌, inl, inr, ◌⊎◌, u8,
}
use fx5_slmp_library.Prelude.Strings.{codes}
use fx5_slmp_library.Types.{Header, header_3e, header_4e, unknown_header}
use fx5_slmp_library.Request.Devices.{is_known}
use fx5_slmp_library.Client.Text.{is_space, parse_bool, same_text}
use fx5_slmp_library.Client.Format.{digits_in}
use fx5_slmp_library.Client.Config.{
  ClientConfig, Memory, apply_kv, apply_network_key, load_ini_file, config_set_host,
}
use fx5_slmp_library.Client.Config.Ini.{
  IsLine, IsEntry, AreEntries, ini_text, apply_entries, load_ini_file-entries,
}
use fx5_slmp_library.Client.Config.Entries.{
  IsValue, key_value-IsEntry, letters_IsKey, AreLetters, letters_IsLine, digits_IsValue,
  parse_uint16_text-digits_in, parse_uint32_text-digits_in,
}

-- What a configuration sets, as the entries of a file. The header type is one of the two.
abbrev header_text : Header → List ℕ
header_text header_3e = codes "3e"
header_text _ = codes "4e"

abbrev bool_text : Bool → List ℕ
bool_text b = if b then codes "true" else codes "false"

abbrev pub settings_entries : List ℕ → ClientConfig → List (List ℕ × List ℕ)
settings_entries host c =
    (codes "host", host)
    ∷ (codes "port", digits_in 10 c.port)
    ∷ (codes "trace", bool_text c.trace_enabled)
    ∷ (codes "recv_timeout_ms", digits_in 10 c.recv_timeout_ms)
    ∷ (codes "network_no", digits_in 10 c.network_settings.network_no)
    ∷ (codes "pc_no", digits_in 10 c.network_settings.pc_no)
    ∷ (codes "module_io_no", digits_in 10 c.network_settings.module_io_no)
    ∷ (codes "module_station_no", digits_in 10 c.network_settings.module_station_no)
    ∷ (codes "monitoring_timer", digits_in 10 c.network_settings.monitoring_timer)
    ∷ (codes "header", header_text c.network_settings.header_type)
    ∷ []

-- The ranges of the fields.
pub record IsConfig (c : ClientConfig) : Type 0 where
  pub port : c.port < 2 ^ 16
  pub recv_timeout_ms : c.recv_timeout_ms < 2 ^ 32
  pub network_no : c.network_settings.network_no < 2 ^ 8
  pub pc_no : c.network_settings.pc_no < 2 ^ 8
  pub module_io_no : c.network_settings.module_io_no < 2 ^ 16
  pub module_station_no : c.network_settings.module_station_no < 2 ^ 8
  pub monitoring_timer : c.network_settings.monitoring_timer < 2 ^ 16
  pub header_known : is_known c.network_settings.header_type ≡ true

u8_small : (n : ℕ) → n < 2 ^ 8 → u8 n ≡ n
u8_small n h = omega arith

trace_read : (b : Bool) → parse_bool (bool_text b) ≡ some b
unfolding parse_bool same_text
trace_read true = refl
trace_read false = refl

header_cases : (h : Header) → is_known h ≡ true → (h ≡ header_3e) ⊎ (h ≡ header_4e)
header_cases header_3e e = inl refl
header_cases header_4e e = inr refl
header_cases unknown_header e = absurd (ground arith)

all_applied :
    (memory : ℕ → Memory) (host : List ℕ) (c config : ClientConfig)
    → (memory 0).available ≡ true
    → IsConfig c
    → c.host ≡ some host
    → apply_entries memory 0 (settings_entries host c) config
      ≡ record c { script_path = config.script_path }
unfolding apply_kv apply_network_key same_text config_set_host
all_applied memory host c config there r named =
    let port = parse_uint16_text-digits_in c.port r.port in
    let timeout = parse_uint32_text-digits_in c.recv_timeout_ms r.recv_timeout_ms in
    let s = c.network_settings in
    let network = parse_uint16_text-digits_in s.network_no (omega (arith, r.network_no)) in
    let pc = parse_uint16_text-digits_in s.pc_no (omega (arith, r.pc_no)) in
    let io = parse_uint16_text-digits_in s.module_io_no r.module_io_no in
    let station =
      parse_uint16_text-digits_in s.module_station_no (omega (arith, r.module_station_no)) in
    let timer = parse_uint16_text-digits_in s.monitoring_timer r.monitoring_timer in
    let trace = trace_read c.trace_enabled in
    let network8 = u8_small s.network_no r.network_no in
    let pc8 = u8_small s.pc_no r.pc_no in
    let station8 = u8_small s.module_station_no r.module_station_no in
    elim (header_cases s.header_type r.header_known) [
      | inl three ↦
          rw
            (
              there, port, timeout, network, pc, io, station, timer, trace, network8, pc8, station8,
              three, named,
            )
            refl
      | inr four ↦
          rw
            (
              there, port, timeout, network, pc, io, station, timer, trace, network8, pc8, station8,
              four, named,
            )
            refl
    ]

bool_IsValue : (b : Bool) → IsValue (bool_text b)
unfolding is_space
bool_IsValue true = record {
  trimmed = (refl, refl);
  line = letters_IsLine (codes "true") (omega arith);
  present = omega arith;
  short = omega arith;
}
bool_IsValue false = record {
  trimmed = (refl, refl);
  line = letters_IsLine (codes "false") (omega arith);
  present = omega arith;
  short = omega arith;
}

digits_and_e : (d : ℕ) → b'0' ≤ d → IsLine (d ∷ b'e' ∷ [])
digits_and_e d h = omega (arith, h)

header_IsValue : (h : Header) → IsValue (header_text h)
unfolding is_space
header_IsValue header_3e = record {
  trimmed = (refl, refl);
  line = digits_and_e b'3' (omega arith);
  present = omega arith;
  short = omega arith;
}
header_IsValue header_4e = record {
  trimmed = (refl, refl);
  line = digits_and_e b'4' (omega arith);
  present = omega arith;
  short = omega arith;
}
header_IsValue unknown_header = record {
  trimmed = (refl, refl);
  line = digits_and_e b'4' (omega arith);
  present = omega arith;
  short = omega arith;
}

named-IsEntry :
    (c : ℕ) (s value : List ℕ)
    → AreLetters (c ∷ s)
    → length s ≤ 16
    → IsValue value
    → IsEntry (c ∷ s) value
named-IsEntry c s value letters short v =
    key_value-IsEntry (c ∷ s) value (letters_IsKey c s letters short) v

number-IsEntry :
    (c : ℕ) (s : List ℕ) (n : ℕ)
    → AreLetters (c ∷ s)
    → length s ≤ 16
    → n < 2 ^ 32
    → IsEntry (c ∷ s) (digits_in 10 n)
number-IsEntry c s n letters short h = named-IsEntry c s _ letters short (digits_IsValue n h)

settings_AreEntries :
    (host : List ℕ) (c : ClientConfig)
    → IsValue host
    → IsConfig c
    → AreEntries (settings_entries host c)
settings_AreEntries host c v r =
    let at_host = named-IsEntry _ _ _ (omega arith) (omega arith) v in
    let at_port = number-IsEntry _ _ _ (omega arith) (omega arith) (omega (arith, r.port)) in
    let at_trace = named-IsEntry _ _ _ (omega arith) (omega arith) (bool_IsValue _) in
    let at_timeout = number-IsEntry _ _ _ (omega arith) (omega arith) r.recv_timeout_ms in
    let at_network =
      number-IsEntry _ _ _ (omega arith) (omega arith) (omega (arith, r.network_no)) in
    let at_pc = number-IsEntry _ _ _ (omega arith) (omega arith) (omega (arith, r.pc_no)) in
    let at_io = number-IsEntry _ _ _ (omega arith) (omega arith) (omega (arith, r.module_io_no)) in
    let at_station =
      number-IsEntry _ _ _ (omega arith) (omega arith) (omega (arith, r.module_station_no)) in
    let at_timer =
      number-IsEntry _ _ _ (omega arith) (omega arith) (omega (arith, r.monitoring_timer)) in
    let at_header = named-IsEntry _ _ _ (omega arith) (omega arith) (header_IsValue _) in
    (
      at_host,
      (
        at_port,
        (
          at_trace,
          (at_timeout, (at_network, (at_pc, (at_io, (at_station, (at_timer, (at_header, tt))))))),
        ),
      ),
    )

-- The settings of a client, written as a file with a line for each, are read back: the file sets
-- every field but the path of the script, whatever the configuration was before. The numbers are in
-- the ranges of their types, the header is one of the two, the host is a text of up to 236 characters
-- on one line without blanks at its ends, and the memory for its copy is to be had.
pub load_ini_file-settings :
    (memory : ℕ → Memory) (host : List ℕ) (c config : ClientConfig)
    → (memory 0).available ≡ true
    → IsValue host
    → IsConfig c
    → c.host ≡ some host
    → load_ini_file memory (some (ini_text (settings_entries host c))) config
      ≡ (record c { script_path = config.script_path }, true)
load_ini_file-settings memory host c config there v r named =
    load_ini_file-entries memory (settings_entries host c) config (settings_AreEntries host c v r)
    ∙ ap (λ (q : ClientConfig). (q, true)) (all_applied memory host c config there r named)

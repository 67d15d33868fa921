-- ===== src/Client/Commands/Report.antt =====
-- `fx5_client_print_response`: the lines for the values of a response.
use fx5_slmp_library.Prelude.{
  ℕ, suc, ◌+◌, ◌<◌, ◌≡◌, refl, ap, ◌∙◌, true, some, Option, List, [], ◌∷◌, ◌++◌, arith, length,
  get_or, u32,
}
use fx5_slmp_library.Types.{Status, st_ok, Device}
use fx5_slmp_library.Context.{Context}
use fx5_slmp_library.Api.{is_acquired, get_response_code, get_response_count, get_response_value}
use fx5_slmp_library.Client.Command.{ClientCommand, get_command}
use fx5_slmp_library.Client.Commands.{value_line, print_value, print_values, print_response}

-- A line for each of the values, the first at index `i` of the range.
abbrev pub report : Device → ℕ → ℕ → List ℕ → List ℕ
report device address i [] = []
report device address i (v ∷ vs) =
    value_line device (u32 (address + i)) v ++ report device address (i + 1) vs

print_values_lem :
    (vs : List ℕ) (i : ℕ) (cmd : ClientCommand) (c : Context)
    → ((k : ℕ)
        → k < length vs
        → get_response_value (some c) (i + k) true ≡ (st_ok, some (get_or vs k 0)))
    → print_values (length vs) i cmd (some c) ≡ report cmd.device cmd.start_address i vs
unfolding print_values
print_values_lem [] i cmd c h = refl
print_values_lem (v ∷ vs) i cmd c h =
    let first : get_response_value (some c) i true ≡ (st_ok, some v) =
      ap (λ (n : ℕ). get_response_value (some c) n true) (omega arith) ∙ h 0 (omega arith) in
    let more = print_values_lem vs (i + 1) cmd c (λ k l.
      ap (λ (n : ℕ). get_response_value (some c) n true) (omega arith) ∙ h (suc k) (omega arith)) in
    ap
      (λ (r : Status × Option ℕ).
        print_value r i cmd (print_values (length vs) (i + 1) cmd (some c)))
      first
    ∙ ap (λ (s : List ℕ). value_line cmd.device (u32 (cmd.start_address + i)) v ++ s) more

-- For a read whose values are `vs`, one line for each of them is printed, with its address.
pub print_response-values :
    (vs : List ℕ) (cmd : ClientCommand) (c : Context)
    → cmd.command_type ≡ get_command
    → c.in_use ≡ true
    → c.response_code ≡ 0
    → c.count ≡ length vs
    → ((k : ℕ) → k < length vs → get_response_value (some c) k true ≡ (st_ok, some (get_or vs k 0)))
    → print_response cmd (some c) ≡ report cmd.device cmd.start_address 0 vs
unfolding print_response is_acquired get_response_code get_response_count
print_response-values vs cmd c e used code count h =
    let p =
      print_values_lem vs 0 cmd c
        (λ k l. ap (λ (n : ℕ). get_response_value (some c) n true) (omega arith) ∙ h k l) in
    ground (arith, p)

-- ===== src/Client/Format.antt =====
-- What `printf` of the C library writes for the formats of tools/fx5_client, and the two streams of
-- the program.
pub mod Digits
use fx5_slmp_library.Prelude.{
  ℕ, zero, suc, ◌+◌, ◌-◌, ◌/◌, ◌%◌, List, [], ◌∷◌, ◌++◌, ltb, if◌then◌else◌,
}

unfoldable pub digit_char : ℕ → ℕ
digit_char d = if ltb d 10 then b'0' + d else b'A' + (d - 10)

-- The digits of a number in a base, in front of `acc`, on fuel: a number is fuel enough for itself.
unfoldable pub print_digits : ℕ → ℕ → ℕ → List ℕ → List ℕ
print_digits zero base n acc = acc
print_digits (suc fuel) base n acc =
    let rest = print_digits fuel base (n / base) (digit_char (n % base) ∷ acc) in
    if ltb n base then digit_char n ∷ acc else rest

-- `%u`, `%lu`, `%lo` and `%lX`: bases 10, 8 and 16.
unfoldable pub digits_in : ℕ → ℕ → List ℕ
digits_in base n = print_digits (suc n) base n []

-- `%02X` of a byte and `%04X` of a 16-bit number.
unfoldable pub hex2 : ℕ → List ℕ
hex2 n = digit_char (n / 16) ∷ digit_char (n % 16) ∷ []

unfoldable pub hex4 : ℕ → List ℕ
hex4 n = hex2 (n / 256) ++ hex2 (n % 256)

-- What has been written to `stdout` and `stderr`.
pub record Console : Type 0 where
  pub out : List ℕ
  pub err : List ℕ

abbrev pub print : Console → List ℕ → Console
print c text = record c { out = c.out ++ text }

abbrev pub complain : Console → List ℕ → Console
complain c text = record c { err = c.err ++ text }

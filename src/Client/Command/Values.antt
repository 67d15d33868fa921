-- ===== src/Client/Command/Values.antt =====
-- The list of values of `fx5_client_parse_scalar_or_list`: how much of the text a round takes.
use fx5_slmp_library.Prelude.{
  ℕ, zero, suc, ◌+◌, ◌*◌, ◌≤◌, ◌<◌, ◌≡◌, refl, Bool, true, false, some, List, [], ◌∷◌, arith, leb,
  ◌==◌, length, length-drop, get_or, set, drop, u16, Bool-cases, Option-cases, inl, inr,
}
use fx5_slmp_library.Types.{Device}
use fx5_slmp_library.Client.Text.{is_space, is_digit, skip_spaces}
use fx5_slmp_library.Client.Numbers.{
  digit_value, take_digits, convert, skip_prefix, strtoul, parse_uint32_cursor,
}
use fx5_slmp_library.Client.Command.{
  ClientCommand, parse_bool_word, parse_number, parse_item, list_loop,
}

length-skip_spaces : (s : List ℕ) → length (skip_spaces s) ≤ length s
unfolding skip_spaces
length-skip_spaces [] = omega arith
length-skip_spaces (c ∷ s) = ground (arith, length-skip_spaces s)

length-take_digits : (base value : ℕ) (s : List ℕ) → length (take_digits base value s).1 ≤ length s
unfolding take_digits
length-take_digits base value [] = omega arith
length-take_digits base value (c ∷ s) =
    ground (arith, length-take_digits base (value * base + digit_value c) s)

-- A decimal digit is no blank and no sign, and its value is less than 10.
digit_lem :
    (c : ℕ)
    → is_digit c ≡ true
    → (is_space c ≡ false) × ((c == b'-') ≡ false) × ((c == b'+') ≡ false) × (digit_value c < 10)
unfolding is_digit is_space digit_value
digit_lem c h = (ground arith, ground arith, ground arith, ground arith)

-- The number parser of the list takes at least a character.
parse_uint32_cursor_shorter :
    (c : ℕ) (s : List ℕ) (n : ℕ) (rest : List ℕ)
    → parse_uint32_cursor (c ∷ s) ≡ some (n, rest)
    → length rest ≤ length s
unfolding parse_uint32_cursor strtoul convert skip_prefix skip_spaces take_digits
parse_uint32_cursor_shorter c s n rest e = elim (Bool-cases (is_digit c)) [
  | inl digit ↦
      let d = digit_lem c digit in
      ground (arith, e, d, digit, length-take_digits 10 (0 * 10 + digit_value c) s)
  | inr other ↦ absurd (ground (arith, e, other))
]

parse_number_shorter :
    (c : ℕ) (s : List ℕ) (v : ℕ) (rest : List ℕ)
    → parse_number (c ∷ s) ≡ some (v, rest)
    → length rest ≤ length s
unfolding parse_number
parse_number_shorter c s v rest e = elim (Option-cases (parse_uint32_cursor (c ∷ s))) [
  | inl bad ↦ absurd (ground (arith, e, bad))
  | inr ((n, q), good) ↦ ground (arith, e, good, parse_uint32_cursor_shorter c s n q good)
]

-- The length of a word that was found.
parse_bool_word_length :
    (s : List ℕ) (b : Bool) (len : ℕ) → parse_bool_word s ≡ some (b, len) → 4 ≤ len
unfolding parse_bool_word
parse_bool_word_length s b len e = ground (arith, e)

parse_item_shorter :
    (device : Device) (c : ℕ) (s : List ℕ) (v : ℕ) (rest : List ℕ)
    → parse_item device (c ∷ s) ≡ some (v, rest)
    → length rest ≤ length s
unfolding parse_item
parse_item_shorter device c s v rest e = elim (Option-cases (parse_bool_word (c ∷ s))) [
  | inl none_there ↦ ground (arith, e, none_there, parse_number_shorter c s v rest)
  | inr ((b, len), word) ↦ ground (
    arith,
    e,
    word,
    parse_bool_word_length (c ∷ s) b len word,
    length-drop len (c ∷ s),
    parse_number_shorter c s v rest,
  )
]

list_step :
    (fuel : ℕ) (device : Device) (c : ℕ) (p : List ℕ) (cmd : ClientCommand) (count v : ℕ)
    (rest : List ℕ) (more : Bool × ClientCommand × ℕ)
    → parse_item device (c ∷ p) ≡ some (v, rest)
    → list_loop fuel device
        (skip_spaces (drop 1 (skip_spaces rest)))
        (record cmd { values = set cmd.values count v })
        (u16 (count + 1))
      ≡ some more
    → (out : Bool × ClientCommand × ℕ) × (list_loop (suc fuel) device (c ∷ p) cmd count ≡ some out)
unfolding list_loop
list_step fuel device c p cmd count v rest more e h = elim (Bool-cases (leb 512 count)) [
  | inl full ↦ ((false, cmd, count), rw (e, list_loop) (ground (arith, full)))
  | inr room ↦ elim (Bool-cases (get_or (skip_spaces rest) 0 0 == b',')) [
    | inl comma ↦ (more, rw (e, list_loop) (ground (arith, room, comma, h)))
    | inr other ↦ (
      (
        get_or (skip_spaces rest) 0 0 == 0,
        record cmd { values = set cmd.values count v },
        u16 (count + 1),
      ),
      rw (e, list_loop) (ground (arith, room, other)),
    )
  ]
]

pub list_loop_total :
    (fuel : ℕ) (device : Device) (p : List ℕ) (cmd : ClientCommand) (count : ℕ)
    → length p ≤ fuel
    → (out : Bool × ClientCommand × ℕ) × (list_loop fuel device p cmd count ≡ some out)
unfolding list_loop
list_loop_total zero device [] cmd count h = ((true, cmd, count), refl)
list_loop_total zero device (c ∷ p) cmd count h = absurd (omega arith)
list_loop_total (suc fuel) device [] cmd count h = ((true, cmd, count), refl)
list_loop_total (suc fuel) device (c ∷ p) cmd count h =
    let next = λ (v : ℕ) (rest : List ℕ) (k : length rest ≤ length p).
      list_loop_total fuel device (skip_spaces (drop 1 (skip_spaces rest)))
        (record cmd { values = set cmd.values count v }) (u16 (count + 1))
        (omega (
          arith,
          length-skip_spaces rest,
          length-skip_spaces (drop 1 (skip_spaces rest)),
          length-drop 1 (skip_spaces rest),
        )) in
    elim (Option-cases (parse_item device (c ∷ p))) [
      | inl bad ↦ ((false, cmd, count), rw (bad, list_loop) refl)
      | inr ((v, rest), e) ↦
          let m = next v rest (parse_item_shorter device c p v rest e) in
          list_step fuel device c p cmd count v rest m.0 e m.1
    ]

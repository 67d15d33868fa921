-- ===== src/Client/Command/Total.antt =====
-- `fx5_client_parse_command` as a whole.
use fx5_slmp_library.Prelude.{
  ℕ, zero, suc, ◌+◌, ◌^◌, ◌-◌, ◌≤◌, ◌<◌, ◌≡◌, refl, ap, subst, ◌∙◌, Bool, true, false, not, ltb,
  leb, ◌&&◌, Option, some, none, List, [], ◌∷◌, ◌++◌, arith, ◌==◌, ◌⊎◌, if◌then◌else◌, length,
  get_or, set, drop, Bool-cases, Option-cases, inl, inr,
}
use fx5_slmp_library.Prelude.Strings.{codes}
use fx5_slmp_library.Types.{Device}
use fx5_slmp_library.Client.Text.{is_space, skip_spaces, same_text, true_word, false_word}
use fx5_slmp_library.Client.Device.{DeviceRange, parse_device_and_range, has_prefix}
use fx5_slmp_library.Client.Device.Addresses.{descriptor_of, parse_device_and_range_single}
use fx5_slmp_library.Client.Numbers.{AreDigits, spelled}
use fx5_slmp_library.Client.Command.{
  ClientCommand, get_command, command_init, parse_bool_word, is_token_boundary, device_is_bit,
  fill_values, scalar_values, list_loop, finish_list, parse_list, scalar_word, max_values,
  parse_scalar_or_list, parse_get, parse_set, parse_command_at, parse_command, text_get, text_set,
}
use fx5_slmp_library.Client.Command.Values.{list_loop_total}

-- A parser has come to a result.
Answers : Option (Bool × ClientCommand) → Type 0
Answers o = (r : Bool × ClientCommand) × (o ≡ some r)

Answers-some : (r : Bool × ClientCommand) → Answers (some r)
unfolding Answers
Answers-some r = (r, refl)

Answers-if :
    (t : Bool) (a b : Option (Bool × ClientCommand))
    → Answers a
    → Answers b
    → Answers (if t then a else b)
Answers-if true a b h k = h
Answers-if false a b h k = k

-- The loop stays inside of the array if its last index does.
fill_values-inside :
    (left k v : ℕ) (values : List ℕ)
    → k + left ≤ max_values
    → (out : List ℕ) × (fill_values left k v values ≡ some out)
unfolding fill_values
fill_values-inside zero k v values h = (values, refl)
fill_values-inside (suc left) k v values h =
    let more = fill_values-inside left (k + 1) v (set values k v) (omega arith) in
    (more.0, ground (arith, more.1))

-- A loop over more rounds writes past the end.
fill_values-outside :
    (left k v : ℕ) (values : List ℕ)
    → k ≤ max_values
    → max_values < k + left
    → fill_values left k v values ≡ none
unfolding fill_values
fill_values-outside zero k v values h l = absurd (omega arith)
fill_values-outside (suc left) k v values h l = elim (Bool-cases (leb max_values k)) [
  | inl past ↦ rw (past, fill_values) refl
  | inr inside ↦
      rw (inside, fill_values)
        (fill_values-outside left (k + 1) v (set values k v) (ground (arith, inside)) (omega arith))
]

scalar_values-Answers :
    (b : Bool) (expected left k v : ℕ) (values : List ℕ) (cmd : ClientCommand)
    → k + left ≤ max_values
    → Answers (scalar_values b expected cmd (fill_values left k v values))
unfolding scalar_values
scalar_values-Answers b expected left k v values cmd h =
    rw (fill_values-inside left k v values h).1 (Answers-some _)

finish_list-Answers :
    (expected : ℕ) (cmd : ClientCommand) (count : ℕ)
    → expected ≤ max_values
    → Answers (finish_list expected cmd count)
unfolding finish_list
finish_list-Answers expected cmd count h = Answers-if (count == 0) _ _ (Answers-some _) (
    Answers-if ((count == 1) && ltb 1 expected) _ _
      (scalar_values-Answers _ expected (expected - 1) 1 _ _ cmd (omega arith))
      (Answers-if (not (count == expected)) _ _ (Answers-some _) (Answers-some _)))

parse_list-Answers :
    (p : List ℕ) (device : Device) (expected : ℕ) (cmd : ClientCommand)
    → expected ≤ max_values
    → Answers (parse_list p device expected cmd)
unfolding parse_list
parse_list-Answers p device expected cmd h =
    ended (list_loop_total (length p) device p cmd 0 (omega arith))
  where
    ended :
        ((r : Bool × ClientCommand × ℕ) × (list_loop (length p) device p cmd 0 ≡ some r))
        → Answers (parse_list p device expected cmd)
    ended ((true, out, count), e) = rw (e, parse_list) (finish_list-Answers expected out count h)
    ended ((false, out, count), e) = rw (e, parse_list) (Answers-some _)

skip_cases : (s : List ℕ) → (s ≡ []) ⊎ ((c : ℕ) × (p : List ℕ) × (s ≡ c ∷ p))
skip_cases [] = inl refl
skip_cases (c ∷ p) = inr (c, p, refl)

parse_scalar_or_list-Answers :
    (text : List ℕ) (device : Device) (expected : ℕ) (cmd : ClientCommand)
    → expected ≤ max_values
    → Answers (parse_scalar_or_list text device expected cmd)
unfolding parse_scalar_or_list
parse_scalar_or_list-Answers text device expected cmd h = elim (skip_cases (skip_spaces text)) [
  | inl e ↦ rw (e, parse_scalar_or_list) (Answers-some _)
  | inr (c, p, e) ↦
      rw (e, parse_scalar_or_list)
        (elim (Option-cases (scalar_word (c ∷ p) device)) [
          | inl listed ↦
              rw (listed, parse_scalar_or_list) (parse_list-Answers (c ∷ p) device expected cmd h)
          | inr (b, word) ↦
              rw (word, parse_scalar_or_list)
                (scalar_values-Answers b expected expected 0 _ cmd.values cmd (omega arith))
        ])
]

parse_set-Answers :
    (p : List ℕ) (cmd : ClientCommand)
    → ((r : DeviceRange) → parse_device_and_range p ≡ some r → r.count ≤ max_values)
    → Answers (parse_set p cmd)
unfolding parse_set
parse_set-Answers p cmd h = elim (Option-cases (parse_device_and_range p)) [
  | inl e ↦ rw (e, parse_set) (Answers-some _)
  | inr (r, e) ↦
      rw (e, parse_set)
        (Answers-if (not (get_or (skip_spaces r.rest) 0 0 == b'=')) _ _ (Answers-some _)
          (parse_scalar_or_list-Answers (drop 1 (skip_spaces r.rest)) r.device r.count _ (h r e)))
]

-- If the line sets a range that the client can read, the array has room for its values.
abbrev pub IsBounded : List ℕ → Type 0
IsBounded line =
    has_prefix text_set (skip_spaces line) ≡ true
    → (r : DeviceRange) → parse_device_and_range (drop 3 (skip_spaces line)) ≡ some r
    → r.count ≤ max_values

parse_command_at-Answers :
    (p : List ℕ) (cmd : ClientCommand)
    → (has_prefix text_set p ≡ true
        → (r : DeviceRange) → parse_device_and_range (drop 3 p) ≡ some r
        → r.count ≤ max_values)
    → Answers (parse_command_at p cmd)
unfolding parse_command_at Answers
parse_command_at-Answers p cmd h = elim (Option-cases (parse_command_at p cmd)) [
  | inr answer ↦ answer
  | inl stuck ↦ elim (Bool-cases (has_prefix text_set p)) [
    | inl sets ↦
        let s = parse_set-Answers (drop 3 p) cmd (h sets) in absurd (ground (arith, stuck, s.1))
    | inr other ↦ absurd (ground (arith, stuck, other))
  ]
]

pub parse_command_total :
    (line : List ℕ) → IsBounded line → (r : Bool × ClientCommand) × (parse_command line ≡ some r)
unfolding parse_command Answers
parse_command_total line h = elim (skip_cases (skip_spaces line)) [
  | inl e ↦ ((false, command_init), ground (arith, e))
  | inr (c, p, e) ↦
      let h' =
        subst
          (λ (q : List ℕ).
            has_prefix text_set q ≡ true
            → (r : DeviceRange) → parse_device_and_range (drop 3 q) ≡ some r
            → r.count ≤ max_values)
          e h in
      let a = parse_command_at-Answers (c ∷ p) command_init h' in (a.0, rw (e, parse_command) a.1)
]

-- The line `get` with a device and an address in the device's digits, up to 32 bits.
abbrev pub get_line : Device → ℕ → List ℕ → List ℕ
get_line device d ds = text_get ++ (b' ' ∷ ((descriptor_of device).name ++ (d ∷ ds)))

pub blank_before : (s : List ℕ) → parse_device_and_range (b' ' ∷ s) ≡ parse_device_and_range s
unfolding parse_device_and_range skip_spaces is_space
blank_before s = refl

parse_get_lem :
    (device : Device) (d : ℕ) (ds : List ℕ) (cmd : ClientCommand)
    → AreDigits (descriptor_of device).base (d ∷ ds)
    → spelled (descriptor_of device).base 0 (d ∷ ds) < 2 ^ 32
    → parse_get (b' ' ∷ ((descriptor_of device).name ++ (d ∷ ds))) cmd ≡ (
      true,
      record cmd {
        command_type = get_command;
        device = device;
        start_address = spelled (descriptor_of device).base 0 (d ∷ ds);
        count = 1;
      },
    )
unfolding parse_get skip_spaces
parse_get_lem device d ds cmd k small =
    let e =
      blank_before ((descriptor_of device).name ++ (d ∷ ds))
      ∙ parse_device_and_range_single device d ds k small in
    rw (e, parse_get) refl

-- The line `get` with the name of a device and an address of 32 bits, in the digits of that device, is
-- the command to read one value there: octal digits for X and Y, hexadecimal ones for B, W, SB and SW,
-- and decimal ones for the other devices.
pub parse_command_get :
    (device : Device) (d : ℕ) (ds : List ℕ)
    → AreDigits (descriptor_of device).base (d ∷ ds)
    → spelled (descriptor_of device).base 0 (d ∷ ds) < 2 ^ 32
    → parse_command (get_line device d ds)
      ≡ some (
        true,
        record command_init {
          command_type = get_command;
          device = device;
          start_address = spelled (descriptor_of device).base 0 (d ∷ ds);
          count = 1;
        },
      )
unfolding parse_command parse_command_at skip_spaces is_space same_text has_prefix
parse_command_get device d ds k small =
    ap (λ (r : Bool × ClientCommand). some r) (parse_get_lem device d ds command_init k small)

pub as_set : (s : List ℕ) → parse_command (codes "set " ++ s) ≡ parse_set (b' ' ∷ s) command_init
unfolding parse_command parse_command_at skip_spaces is_space same_text has_prefix
as_set s = refl

abbrev pub bool_word : Bool → List ℕ
bool_word true = true_word
bool_word false = false_word

module _ (device : Device) (bit : device_is_bit device ≡ true) where
  word_found : (b : Bool) → scalar_word (bool_word b) device ≡ some b
  unfolding scalar_word parse_bool_word is_token_boundary has_prefix skip_spaces is_space
  word_found true = rw (bit, scalar_word) refl
  word_found false = rw (bit, scalar_word) refl

  word_overruns :
      (b : Bool) (expected : ℕ) (cmd : ClientCommand)
      → max_values < expected
      → parse_scalar_or_list (bool_word b) device expected cmd ≡ none
  unfolding parse_scalar_or_list scalar_values skip_spaces is_space
  word_overruns true expected cmd large =
      rw (word_found true, parse_scalar_or_list)
        (rw (fill_values-outside expected 0 1 cmd.values (omega arith) (omega (arith, large))) refl)
  word_overruns false expected cmd large =
      rw (word_found false, parse_scalar_or_list)
        (rw (fill_values-outside expected 0 0 cmd.values (omega arith) (omega (arith, large))) refl)

-- A line of `set`, a range of more than 512 points of a bit device, the equals sign and the word
-- `true` or `false` is not refused: the loop that stores the value for each of the points writes
-- past the end of the array of 512 values of the command, and the line has no result.
pub parse_command-overruns :
    (b : Bool) (text : List ℕ) (r : DeviceRange)
    → parse_device_and_range text ≡ some r
    → r.rest ≡ b'=' ∷ bool_word b
    → device_is_bit r.device ≡ true
    → max_values < r.count
    → parse_command (codes "set " ++ text) ≡ none
unfolding parse_set skip_spaces is_space
parse_command-overruns b text r e t bit large =
    let found = blank_before text ∙ e in
    as_set text
    ∙ rw (found, parse_set) (rw (t, parse_set) (word_overruns r.device bit b r.count _ large))

-- ===== src/Client/Command/Lists.antt =====
-- The list of values of a command, as decimal numbers with commas between them.
use fx5_slmp_library.Prelude.{
  ℕ, zero, suc, ◌+◌, ◌≤◌, ◌<◌, ◌^◌, ◌≡◌, refl, ap, ◌∙◌, sym, Bool, true, none, some, List, [], ◌∷◌,
  ◌++◌, arith, ◌==◌, length, length-append, get_or, set, u16, append_assoc, append-nil, ap₂, drop,
}
use fx5_slmp_library.Types.{Device}
use fx5_slmp_library.Bytes.Array.{put_list}
use fx5_slmp_library.Client.Text.{is_space, skip_spaces}
use fx5_slmp_library.Client.Numbers.{
  digit_value, AreDigits, EndsDigits, spelled, strtoul_decimal, decimal_digit, parse_uint32_cursor,
}
use fx5_slmp_library.Client.Format.{digits_in}
use fx5_slmp_library.Client.Format.Digits.{digits_in_lem}
use fx5_slmp_library.Client.Device.{has_prefix}
use fx5_slmp_library.Client.Command.{
  ClientCommand, parse_bool_word, parse_number, parse_item, list_loop, finish_list, parse_list,
  scalar_word, parse_scalar_or_list,
}

abbrev pub list_text : List ℕ → List ℕ
list_text [] = []
list_text (v ∷ []) = digits_in 10 v
list_text (v ∷ w ∷ vs) = digits_in 10 v ++ (b',' ∷ list_text (w ∷ vs))

-- A word of 16 bits each.
abbrev pub AreShort : List ℕ → Type 0
AreShort [] = Unit
AreShort (v ∷ vs) = (v < 2 ^ 16) × AreShort vs

no_bool_word : (d : ℕ) (s : List ℕ) → digit_value d < 10 → parse_bool_word (d ∷ s) ≡ none
unfolding parse_bool_word has_prefix digit_value
no_bool_word d s h = ground arith

module _ (d : ℕ) (ds rest : List ℕ) (k : AreDigits 10 (d ∷ ds)) (l : EndsDigits 10 rest)
    (small : spelled 10 0 (d ∷ ds) < 2 ^ 16) where
  cursor : parse_uint32_cursor (d ∷ (ds ++ rest)) ≡ some (spelled 10 0 (d ∷ ds), rest)
  unfolding parse_uint32_cursor
  cursor = let c = decimal_digit d k.0 in ground (arith, c, strtoul_decimal d ds rest k l)

  number : parse_number (d ∷ (ds ++ rest)) ≡ some (spelled 10 0 (d ∷ ds), rest)
  unfolding parse_number
  number = ground (arith, cursor)

  digits_item :
      (device : Device) → parse_item device (d ∷ (ds ++ rest)) ≡ some (spelled 10 0 (d ∷ ds), rest)
  unfolding parse_item
  digits_item device = ground (arith, number, no_bool_word d (ds ++ rest) k.0)

-- A printed value: a digit and what follows, which is read as one item.
record IsItem (device : Device) (v : ℕ) (rest : List ℕ) : Type 0 where
  first : ℕ
  others : List ℕ
  digit : digit_value first < 10
  text : digits_in 10 v ++ rest ≡ first ∷ others
  item : parse_item device (first ∷ others) ≡ some (v, rest)

number-IsItem :
    (device : Device) (v : ℕ) (rest : List ℕ)
    → v < 2 ^ 16
    → EndsDigits 10 rest
    → IsItem device v rest
number-IsItem device v rest small l =
    let p = digits_in_lem 10 v (omega arith) (omega arith) in
    record {
      first = p.first;
      others = p.others ++ rest;
      digit = p.digits.0;
      text =
          ap (λ (q : List ℕ). q ++ rest) p.text
          ∙ ap (λ (q : List ℕ). p.first ∷ q) (append_assoc p.others [] rest);
      item =
          digits_item p.first p.others rest p.digits l (omega (arith, p.spells)) device
          ∙ ap (λ (n : ℕ). some (n, rest)) p.spells;
    }

comma_stays : (s : List ℕ) → skip_spaces (b',' ∷ s) ≡ b',' ∷ s
unfolding skip_spaces is_space
comma_stays s = refl

module _ (fuel : ℕ) (device : Device) (c : ℕ) (p : List ℕ) (cmd : ClientCommand) (count v : ℕ)
    (room : count < 512) where
  last_value :
      parse_item device (c ∷ p) ≡ some (v, [])
      → list_loop (suc fuel) device (c ∷ p) cmd count
        ≡ some (true, record cmd { values = set cmd.values count v }, count + 1)
  unfolding list_loop skip_spaces
  last_value e = rw (e, list_loop) (ground arith)

  value_and_comma :
      (s : List ℕ) (out : Bool × ClientCommand × ℕ)
      → parse_item device (c ∷ p) ≡ some (v, b',' ∷ s)
      → list_loop fuel device
          (skip_spaces (drop 1 (skip_spaces (b',' ∷ s))))
          (record cmd { values = set cmd.values count v })
          (u16 (count + 1))
        ≡ some out
      → list_loop (suc fuel) device (c ∷ p) cmd count ≡ some out
  unfolding list_loop
  value_and_comma s out e k =
      let comma : (get_or (skip_spaces (b',' ∷ s)) 0 0 == b',') ≡ true =
        ap (λ (q : List ℕ). get_or q 0 0 == b',') (comma_stays s) in
      rw (e, list_loop) (ground (arith, k, comma))

digit_start : (d : ℕ) (s : List ℕ) → digit_value d < 10 → skip_spaces (d ∷ s) ≡ d ∷ s
unfolding skip_spaces
digit_start d s h = let c = decimal_digit d h in ground (arith, c)

-- A list starts with a digit.
list_start :
    (v : ℕ) (vs : List ℕ)
    → AreShort (v ∷ vs)
    → (d : ℕ) × (s : List ℕ) × (list_text (v ∷ vs) ≡ d ∷ s) × (digit_value d < 10)
list_start v [] h =
    let p = digits_in_lem 10 v (omega arith) (omega arith) in
    (p.first, p.others ++ [], p.text, p.digits.0)
list_start v (w ∷ vs) h =
    let p = digits_in_lem 10 v (omega arith) (omega arith) in
    (
      p.first,
      (p.others ++ []) ++ (b',' ∷ list_text (w ∷ vs)),
      ap (λ (q : List ℕ). q ++ (b',' ∷ list_text (w ∷ vs))) p.text,
      p.digits.0,
    )

comma_ends : (s : List ℕ) → EndsDigits 10 (b',' ∷ s)
unfolding digit_value
comma_ends s = omega arith

-- The loop stores the values one after the other.
list_loop_lem :
    (fuel : ℕ) (device : Device) (v : ℕ) (vs : List ℕ) (cmd : ClientCommand) (count : ℕ)
    → length (v ∷ vs) ≤ fuel
    → AreShort (v ∷ vs)
    → count + length (v ∷ vs) ≤ 512
    → list_loop fuel device (list_text (v ∷ vs)) cmd count
      ≡ some (
        true,
        record cmd { values = put_list cmd.values count (v ∷ vs) },
        count + length (v ∷ vs),
      )
list_loop_lem zero device v vs cmd count h k l = absurd (omega arith)
list_loop_lem (suc fuel) device v [] cmd count h k l =
    let i = number-IsItem device v [] k.0 tt in
    let e : digits_in 10 v ≡ i.first ∷ i.others = sym (append-nil (digits_in 10 v)) ∙ i.text in
    ap (λ (q : List ℕ). list_loop (suc fuel) device q cmd count) e
    ∙ last_value fuel device i.first i.others cmd count v (omega arith) i.item
list_loop_lem (suc fuel) device v (w ∷ vs) cmd count h k l =
    let i =
      number-IsItem device v (b',' ∷ list_text (w ∷ vs)) k.0 (comma_ends (list_text (w ∷ vs))) in
    let next = record cmd { values = set cmd.values count v } in
    let s = list_start w vs k.1 in
    let behind : skip_spaces (drop 1 (skip_spaces (b',' ∷ list_text (w ∷ vs))))
        ≡ list_text (w ∷ vs) =
      ap (λ (q : List ℕ). skip_spaces (drop 1 q)) (comma_stays (list_text (w ∷ vs)))
      ∙ ap skip_spaces s.2
      ∙ digit_start s.0 s.1 s.3
      ∙ sym s.2 in
    let more = list_loop_lem fuel device w vs next (count + 1) (omega arith) k.1 (omega arith) in
    let small : u16 (count + 1) ≡ count + 1 = omega arith in
    let total : count + 1 + length (w ∷ vs) ≡ count + length (v ∷ w ∷ vs) = omega arith in
    ap (λ (q : List ℕ). list_loop (suc fuel) device q cmd count) i.text
    ∙ value_and_comma fuel device i.first i.others cmd count v (omega arith) (list_text (w ∷ vs)) _
        i.item (ap₂ (λ (q : List ℕ) (n : ℕ). list_loop fuel device q next n) behind small ∙ more)
    ∙ ap
        (λ (n : ℕ).
          some (
            true,
            record cmd { values = put_list (set cmd.values count v) (count + 1) (w ∷ vs) },
            n,
          ))
        total

-- Each value takes a character at least.
length-list_text : (v : ℕ) (vs : List ℕ) → length (v ∷ vs) ≤ length (list_text (v ∷ vs))
length-list_text v [] =
    let p = digits_in_lem 10 v (omega arith) (omega arith) in omega (arith, ap length p.text)
length-list_text v (w ∷ vs) =
    omega (arith, length-list_text w vs, length-append (digits_in 10 v) (b',' ∷ list_text (w ∷ vs)))

no_scalar_word :
    (device : Device) (d : ℕ) (s : List ℕ) → digit_value d < 10 → scalar_word (d ∷ s) device ≡ none
unfolding scalar_word
no_scalar_word device d s h = ground (arith, no_bool_word d s h)

module _ (device : Device) (v : ℕ) (vs : List ℕ) (cmd : ClientCommand) (k : AreShort (v ∷ vs))
    (room : length (v ∷ vs) ≤ 512) where
  abbrev listed : ClientCommand
  listed = record cmd { values = put_list cmd.values 0 (v ∷ vs); value_count = length (v ∷ vs) }

  all_there :
      finish_list
        (length (v ∷ vs))
        (record cmd { values = put_list cmd.values 0 (v ∷ vs) })
        (length (v ∷ vs))
      ≡ some (true, listed)
  unfolding finish_list
  all_there = ground arith

  list_parsed : parse_list (list_text (v ∷ vs)) device (length (v ∷ vs)) cmd ≡ some (true, listed)
  unfolding parse_list
  list_parsed =
      let e =
        list_loop_lem (length (list_text (v ∷ vs))) device v vs cmd 0 (length-list_text v vs) k
          (omega arith)
        ∙ ap (λ (n : ℕ). some (true, record cmd { values = put_list cmd.values 0 (v ∷ vs) }, n))
            (omega arith) in
      rw (e, parse_list) all_there

  from_start :
      (text : List ℕ) (c : ℕ) (s : List ℕ)
      → text ≡ c ∷ s
      → digit_value c < 10
      → parse_list text device (length (v ∷ vs)) cmd ≡ some (true, listed)
      → parse_scalar_or_list text device (length (v ∷ vs)) cmd ≡ some (true, listed)
  unfolding parse_scalar_or_list
  from_start text c s e h l =
      let start = ap skip_spaces e ∙ digit_start c s h in
      let l' = ap (λ (q : List ℕ). parse_list q device (length (v ∷ vs)) cmd) (sym e) ∙ l in
      rw (start, parse_scalar_or_list) (ground (arith, l', no_scalar_word device c s h))

  -- A list of as many values as are expected is stored from slot 0 on.
  pub parse_scalar_or_list_values :
      parse_scalar_or_list (list_text (v ∷ vs)) device (length (v ∷ vs)) cmd ≡ some (true, listed)
  parse_scalar_or_list_values =
      let s = list_start v vs k in from_start (list_text (v ∷ vs)) s.0 s.1 s.2 s.3 list_parsed

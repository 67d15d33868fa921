-- ===== src/Request/Encoding.antt =====
-- What the builders emit, as lists of bytes: the specification of a request frame.
use fx5_slmp_library.Prelude.{
  ℕ, zero, suc, ◌+◌, ◌*◌, ◌%◌, ◌^◌, ◌<◌, ◌≡◌, refl, ap, sym, ◌∙◌, List, [], ◌∷◌, ◌++◌, append-nil,
  append_assoc, arith, if◌then◌else◌, u16, get_or, length, length-append,
}
use fx5_slmp_library.Types.{NetworkSettings, device_code, command_code}
use fx5_slmp_library.Context.{Context}
use fx5_slmp_library.Packed.{bit_of}
use fx5_slmp_library.Bytes.Array.{
  le16, le24, put_list, put_list-append, wr_u16_le_lem, wr_u24_le_lem,
}
use fx5_slmp_library.Request.Devices.{is_bit_device, is_write}
use fx5_slmp_library.Request.Builders.{
  Cursor, emit_u8, emit_u16, emit_u24, sub_command_of, request_subheader_3e, request_subheader_4e,
}

-- A PDU of `payload_size` bytes is announced with the two bytes of the timer added.
abbrev pub route_bytes : NetworkSettings → ℕ → List ℕ
route_bytes s payload_size =
    (s.network_no % 256) ∷ (s.pc_no % 256) ∷ le16 (u16 s.module_io_no)
    ++ ((s.module_station_no % 256) ∷ le16 (u16 (payload_size + 2))
        ++ le16 (u16 s.monitoring_timer))

abbrev pub header_bytes_3e : NetworkSettings → ℕ → List ℕ
header_bytes_3e s payload_size = le16 request_subheader_3e ++ route_bytes s payload_size

abbrev pub header_bytes_4e : NetworkSettings → ℕ → ℕ → List ℕ
header_bytes_4e s serial payload_size =
    le16 request_subheader_4e ++ (le16 serial ++ (0 ∷ 0 ∷ route_bytes s payload_size))

-- Command, subcommand, address, device and count.
abbrev pub prefix_bytes : Context → List ℕ
prefix_bytes c =
    le16 (u16 (command_code c.command))
    ++ (le16 (sub_command_of c)
        ++ (le24 c.address ++ ((device_code c.device % 256) ∷ le16 (u16 c.count))))

-- `n` bits from `k` on, two to a byte, the first in the high half.
abbrev pub nibble_bytes : List ℕ → ℕ → ℕ → List ℕ
nibble_bytes values k zero = []
nibble_bytes values k (suc zero) = (bit_of values k * 16) ∷ []
nibble_bytes values k (suc (suc n)) =
    (bit_of values k * 16 + bit_of values (k + 1)) ∷ nibble_bytes values (k + 2) n

-- `n` words from slot `k` on.
abbrev pub word_bytes : List ℕ → ℕ → ℕ → List ℕ
word_bytes values k zero = []
word_bytes values k (suc n) = le16 (u16 (get_or values k 0)) ++ word_bytes values (k + 1) n

abbrev pub payload_bytes : Context → List ℕ
payload_bytes c =
    if is_bit_device c.device
    then nibble_bytes c.values 0 c.count
    else word_bytes c.values 0 c.count

abbrev pub pdu_bytes : Context → List ℕ
pdu_bytes c = prefix_bytes c ++ (if is_write c.command then payload_bytes c else [])

-- The cursor that has written `xs` from `base` on.
abbrev pub written_at : List ℕ → ℕ → List ℕ → Cursor
written_at buf base xs = record { buf = put_list buf base xs; base = base; index = length xs }

module _ (buf : List ℕ) (base : ℕ) where
  put_more :
      (xs ys : List ℕ)
      → put_list (put_list buf base xs) (base + length xs) ys ≡ put_list buf base (xs ++ ys)
  put_more xs ys = sym (put_list-append buf base xs ys)

  -- `f` goes on from any cursor by writing `ys`.
  pub record Emits (f : Cursor → Cursor) (ys : List ℕ) : Type 0 where
    pub from :
        (xs : List ℕ)
        → length xs + length ys < 2 ^ 15
        → f (written_at buf base xs) ≡ written_at buf base (xs ++ ys)

  pub Emits-then :
      {f g : Cursor → Cursor} {ys zs : List ℕ}
      → Emits f ys
      → Emits g zs
      → Emits (λ c. g (f c)) (ys ++ zs)
  Emits-then {f} {g} {ys} {zs} p q = record {
    from = λ xs h.
        ap g (p.from xs (omega (arith, length-append ys zs)))
        ∙ q.from (xs ++ ys) (omega (arith, length-append ys zs, length-append xs ys))
        ∙ ap (written_at buf base) (append_assoc xs ys zs);
  }

  pub Emits-eq :
      {f g : Cursor → Cursor} {ys zs : List ℕ}
      → ((c : Cursor) → g c ≡ f c)
      → ys ≡ zs
      → Emits f ys
      → Emits g zs
  Emits-eq e l p = record {
    from = λ xs h.
        e (written_at buf base xs)
        ∙ p.from xs (rw l h)
        ∙ ap (λ ws. written_at buf base (xs ++ ws)) l;
  }

  pub Emits-nothing : Emits (λ c. c) []
  Emits-nothing = record { from = λ xs h. ap (written_at buf base) (sym (append-nil xs)) }

  -- A step that writes `ys` where the cursor stands and moves on by their number.
  Emits-of :
      {f : Cursor → Cursor} (ys : List ℕ)
      → ((c : Cursor)
          → c.index + length ys < 2 ^ 15
          → f c ≡ record c {
            buf = put_list c.buf (c.base + c.index) ys;
            index = u16 (c.index + length ys);
          })
      → Emits f ys
  Emits-of ys h = record {
    from = λ xs l.
        h (written_at buf base xs) l
        ∙ (λ i. record { buf = put_more xs ys i; base = base; index = moved xs l i });
  }
    where
      moved :
          (xs : List ℕ)
          → length xs + length ys < 2 ^ 15
          → u16 (length xs + length ys) ≡ length (xs ++ ys)
      moved xs l = omega (arith, length-append xs ys)

  pub emit_u8_lem : (v : ℕ) → Emits (emit_u8 v) ((v % 256) ∷ [])
  unfolding emit_u8
  emit_u8_lem v = Emits-of ((v % 256) ∷ []) (λ c l. refl)

  pub emit_u16_lem : (v : ℕ) → Emits (emit_u16 v) (le16 (u16 v))
  unfolding emit_u16
  emit_u16_lem v =
      Emits-of (le16 (u16 v)) (λ c l. rw (wr_u16_le_lem c.buf (c.base + c.index) (u16 v)) refl)

  pub emit_u24_lem : (v : ℕ) → Emits (emit_u24 v) (le24 v)
  unfolding emit_u24
  emit_u24_lem v = Emits-of (le24 v) (λ c l. rw (wr_u24_le_lem c.buf (c.base + c.index) v) refl)

-- ===== src/Api/Parse/Prefix.antt =====
-- `fx5_parse_response` while a frame arrives: the ring holds a start of it, cut anywhere.
use fx5_slmp_library.Prelude.{
  ℕ, ◌+◌, ◌≤◌, ◌<◌, ◌≡◌, inl, inr, refl, ap, ◌∙◌, sym, subst, true, List, [], ◌∷◌, ◌++◌, some,
  arith, length, length-append, drop, get_or, ltb, Bool-cases, ap₂, length-drop, get_or-append_left,
}
use fx5_slmp_library.Types.{Status, err_need_more, Header, header_3e, header_4e, unknown_header}
use fx5_slmp_library.Context.{Context}
use fx5_slmp_library.RingBuf.Contents.{contents}
use fx5_slmp_library.Response.Header.{
  get_response_header_size, parse_response_header_3e, parse_response_header_4e,
}
use fx5_slmp_library.Response.Stream.{resync_spec, size-length}
use fx5_slmp_library.Api.Receive.{returns, read_frame, after_header, parse_response}
use fx5_slmp_library.Api.Invariant.{IsWellFormed}
use fx5_slmp_library.Api.Parse.{IsHeader, parse_round_reads}
use fx5_slmp_library.Api.Parse.Arrival.{searched, response_of_round, header_length}
use fx5_slmp_library.Api.Parse.Total.{parse_response_total}
use fx5_slmp_library.Api.Parse.Waiting.{
  IsSkipped, searched-IsSkipped, searched_for, parse_response-partial, parse_response-no_frame,
}

-- The subheader of a response of the type.
abbrev pub StartsFrame : Header → List ℕ → Type 0
StartsFrame header_4e h = (get_or h 0 0 ≡ 0xD4) × (get_or h 1 0 ≡ 0)
StartsFrame header_3e h = (get_or h 0 0 ≡ 0xD0) × (get_or h 1 0 ≡ 0)
StartsFrame unknown_header h = ⊥

pub resync_spec_front :
    (t : Header) (q : List ℕ) → StartsFrame t q → 2 ≤ length q → resync_spec q ≡ (0, t)
resync_spec_front t [] s h = absurd (omega arith)
resync_spec_front t (x ∷ []) s h = absurd (omega arith)
resync_spec_front header_4e (x ∷ y ∷ q) s h = ground arith
resync_spec_front header_3e (x ∷ y ∷ q) s h = ground arith
resync_spec_front unknown_header (x ∷ y ∷ q) s h = absurd s

resync_spec_byte :
    (t : Header) (x : ℕ) (f : List ℕ)
    → StartsFrame t (x ∷ f)
    → resync_spec (x ∷ []) ≡ (0, unknown_header)
resync_spec_byte header_4e x f s = ground arith
resync_spec_byte header_3e x f s = ground arith
resync_spec_byte unknown_header x f s = absurd s

-- What waiting for the rest of a frame leaves.
pub record IsWaiting (c : Context) (out : Context) : Type 0 where
  pub held : contents out.rx_cbuffer ≡ contents c.rx_cbuffer
  pub formed : IsWellFormed out
  pub used : out.in_use ≡ true
  pub same : out ≡ record c { rx_cbuffer = out.rx_cbuffer; resync_counter = 0 }

read_frame_short :
    (c : Context) (t : Header)
    → c.rx_cbuffer.size < get_response_header_size t
    → read_frame c t ≡ returns c err_need_more
unfolding read_frame get_response_header_size parse_response_header_3e parse_response_header_4e
    after_header
read_frame_short c header_4e h = ground arith
read_frame_short c header_3e h = ground arith
read_frame_short c unknown_header h = refl

module _ (c : Context) (w : IsWellFormed c) (used : c.in_use ≡ true) where
  -- A result of the parser is well-formed and in use, as every result is.
  pub parse_response-IsWellFormed :
      (out : Context) (status : Status)
      → parse_response (some c) ≡ some (some out, status)
      → IsWellFormed out × (out.in_use ≡ true)
  parse_response-IsWellFormed out status e =
      let r = parse_response_total c w used in
      let same : r.0 ≡ out = cc (r.2, e) in
      (subst IsWellFormed same r.3, ap (λ (o : Context). o.in_use) (sym same) ∙ r.4)

  waiting :
      (out : Context)
      → parse_response (some c) ≡ some (some out, err_need_more)
      → IsSkipped c 0 out
      → (o : Context) × (parse_response (some c) ≡ some (some o, err_need_more)) × IsWaiting c o
  waiting out e k =
      let f = parse_response-IsWellFormed out err_need_more e in
      (out, e, record { held = k.held; formed = f.0; used = f.1; same = k.same })

  short_header :
      (t : Header)
      → resync_spec (contents c.rx_cbuffer) ≡ (0, t)
      → length (contents c.rx_cbuffer) < get_response_header_size t
      → (o : Context) × (parse_response (some c) ≡ some (some o, err_need_more)) × IsWaiting c o
  short_header t found short =
      let k = searched-IsSkipped c 0 t w found in
      let count : (searched c).resync_counter ≡ 0 = ap (λ (o : Context). o.resync_counter) k.same in
      let size = size-length (searched c).rx_cbuffer ∙ ap length k.held in
      let round =
        parse_round_reads (record c { resync_counter = 0 }) t (omega (arith, count))
          (searched_for c 0 t w found)
        ∙ read_frame_short (searched c) t (omega (arith, size)) in
      waiting (searched c) (response_of_round c (searched c) err_need_more used round) k

  nothing_yet :
      resync_spec (contents c.rx_cbuffer) ≡ (0, unknown_header)
      → (o : Context) × (parse_response (some c) ≡ some (some o, err_need_more)) × IsWaiting c o
  nothing_yet found =
      let r = parse_response-no_frame c unknown_header 0 w used found (inr refl) in
      waiting r.0 r.1 r.2

-- Of two texts with the same start, the longer one goes on behind the shorter.
pub split_prefix :
    (q later h body : List ℕ)
    → q ++ later ≡ h ++ body
    → length h ≤ length q
    → q ≡ h ++ drop (length h) q
split_prefix q later [] body e l = refl
split_prefix [] later (x ∷ h) body e l = absurd (omega arith)
split_prefix (y ∷ q) later (x ∷ h) body e l =
    let first : y ≡ x = ap (λ (s : List ℕ). get_or s 0 0) e in
    let others : q ++ later ≡ h ++ body = ap (λ (s : List ℕ). drop 1 s) e in
    ap₂ ◌∷◌ first (split_prefix q later h body others (omega arith))

pub StartsFrame-append :
    (t : Header) (h body : List ℕ) → 2 ≤ length h → StartsFrame t h → StartsFrame t (h ++ body)
StartsFrame-append header_4e h body l s = (
  get_or-append_left h body 0 0 (omega arith) ∙ s.0,
  get_or-append_left h body 1 0 (omega arith) ∙ s.1,
)
StartsFrame-append header_3e h body l s = (
  get_or-append_left h body 0 0 (omega arith) ∙ s.0,
  get_or-append_left h body 1 0 (omega arith) ∙ s.1,
)
StartsFrame-append unknown_header h body l s = absurd s

StartsFrame-two :
    (t : Header) (x y : ℕ) (q later : List ℕ)
    → StartsFrame t (x ∷ y ∷ (q ++ later))
    → StartsFrame t (x ∷ y ∷ q)
StartsFrame-two header_4e x y q later s = s
StartsFrame-two header_3e x y q later s = s
StartsFrame-two unknown_header x y q later s = absurd s

pub header_length_ge :
    (t : Header) (c : Context) (h : List ℕ) (p : ℕ) → IsHeader t c h p → 2 ≤ length h
header_length_ge header_4e c h p w = omega arith
header_length_ge header_3e c h p w = omega arith
header_length_ge unknown_header c h p w = absurd w

-- A frame at the front is found there.
pub resync_spec-frame :
    (t : Header) (c : Context) (h body q : List ℕ) (p : ℕ)
    → StartsFrame t h
    → IsHeader t c h p
    → q ≡ h ++ body
    → resync_spec q ≡ (0, t)
resync_spec-frame t c h body q p s w e =
    let l = header_length_ge t c h p w in
    ap resync_spec e
    ∙ resync_spec_front t (h ++ body) (StartsFrame-append t h body l s)
        (omega (arith, length-append h body))

module _ (c : Context) (w : IsWellFormed c) (used : c.in_use ≡ true) (t : Header)
    (h body later : List ℕ) (starts : StartsFrame t h) (lo : 2 ≤ length body)
    (hi : length body ≤ 297) (header : IsHeader t c h (length body)) where
  abbrev Waits : Type 0
  Waits = (o : Context) × (parse_response (some c) ≡ some (some o, err_need_more)) × IsWaiting c o

  front : (q : List ℕ) → q ++ later ≡ h ++ body → StartsFrame t (q ++ later)
  front q e =
      subst (StartsFrame t) (sym e)
        (StartsFrame-append t h body (header_length_ge t c h (length body) header) starts)

  long_start :
      (x y : ℕ) (q : List ℕ)
      → contents c.rx_cbuffer ≡ x ∷ y ∷ q
      → (x ∷ y ∷ q) ++ later ≡ h ++ body
      → length (x ∷ y ∷ q) < length h + length body
      → Waits
  long_start x y q held e short =
      let found : resync_spec (contents c.rx_cbuffer) ≡ (0, t) =
        ap resync_spec held
        ∙ resync_spec_front t (x ∷ y ∷ q) (StartsFrame-two t x y q later (front (x ∷ y ∷ q) e))
            (omega arith) in
      let l = header_length t c h (length body) header in
      elim (Bool-cases (ltb (length (x ∷ y ∷ q)) (length h))) [
        | inl cut ↦ short_header c w used t found (ground (arith, ap length held, l))
        | inr whole ↦
            let s = split_prefix (x ∷ y ∷ q) later h body e (ground arith) in
            let r =
              parse_response-partial c t 0 (length body) h (drop (length h) (x ∷ y ∷ q)) w used
                found (omega arith) (held ∙ s) lo hi
                (ground (arith, length-drop (length h) (x ∷ y ∷ q))) header in
            waiting c w used r.0 r.1 r.3
      ]

  prefix_waits :
      (q : List ℕ)
      → contents c.rx_cbuffer ≡ q
      → q ++ later ≡ h ++ body
      → length q < length h + length body
      → Waits
  prefix_waits [] held e short = nothing_yet c w used (ap resync_spec held)
  prefix_waits (x ∷ []) held e short =
      nothing_yet c w used (ap resync_spec held ∙ resync_spec_byte t x later (front (x ∷ []) e))
  prefix_waits (x ∷ y ∷ q) held e short = long_start x y q held e short

  -- On a well-formed context in use that has received a start of a response frame, cut anywhere in its
  -- header or its PDU of 2 to 297 bytes: the call asks for more, keeps all of it and changes nothing
  -- else but the count of dropped bytes, which is 0; the context is well-formed and in use again.
  pub parse_response-prefix :
      contents c.rx_cbuffer ++ later ≡ h ++ body
      → length (contents c.rx_cbuffer) < length h + length body
      → (o : Context) × (parse_response (some c) ≡ some (some o, err_need_more)) × IsWaiting c o
  parse_response-prefix e short = prefix_waits (contents c.rx_cbuffer) refl e short

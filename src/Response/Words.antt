-- ===== src/Response/Words.antt =====
-- The payload of a word read.
use fx5_slmp_library.Prelude.{
  ℕ, suc, ◌+◌, ◌*◌, ◌≤◌, ◌<◌, ◌^◌, ◌≡◌, refl, ap, ◌∙◌, List, [], ◌∷◌, ◌++◌, arith, u16, length,
  drop, set,
}
use fx5_slmp_library.Prelude.Fields.{bit_and_one}
use fx5_slmp_library.Types.{st_ok}
use fx5_slmp_library.Context.{Context}
use fx5_slmp_library.RingBuf.{Ring, drop_front}
use fx5_slmp_library.RingBuf.Invariant.{capacity-drop_front}
use fx5_slmp_library.RingBuf.Contents.{contents}
use fx5_slmp_library.Bytes.{rdc_u16_le}
use fx5_slmp_library.Bytes.Array.{le16, put_list}
use fx5_slmp_library.Bytes.Stream.{IsStream, le16_at, rdc_u16_le_lem}
use fx5_slmp_library.Response.Payload.{read_words, parse_word_response_payload}
use fx5_slmp_library.Response.Stream.{drop_front-IsStream, contents-drop_front}

-- The bytes of a list of words.
abbrev pub words_le : List ℕ → List ℕ
words_le [] = []
words_le (v ∷ vs) = le16 v ++ words_le vs

abbrev pub AreWords : List ℕ → Type 0
AreWords [] = Unit
AreWords (v ∷ vs) = (v < 2 ^ 16) × AreWords vs

pub length-words_le : (vs : List ℕ) → length (words_le vs) ≡ length vs * 2
length-words_le [] = omega arith
length-words_le (v ∷ vs) = omega (arith, length-words_le vs)

-- A number read off the front of the ring.
pub rdc_front :
    (r : Ring) (v : ℕ) (rest : List ℕ)
    → IsStream r
    → v < 2 ^ 16
    → contents r ≡ le16 v ++ rest
    → ((rdc_u16_le r).1 ≡ v)
      × ((rdc_u16_le r).0 ≡ (drop_front r 2).0)
      × (contents (drop_front r 2).0 ≡ rest)
rdc_front r v rest s h e = (
  (rdc_u16_le_lem r s).0 ∙ ap (λ q. le16_at q 0) e ∙ omega arith,
  (rdc_u16_le_lem r s).1,
  contents-drop_front r 2 s (omega arith) ∙ ap (drop 2) e,
)

-- What reading the words `vs` into the slots from `k` on does to a context.
pub record IsRead (c : Context) (k : ℕ) (vs rest : List ℕ) (out : Context) : Type 0 where
  pub held : contents out.rx_cbuffer ≡ rest
  pub stream : IsStream out.rx_cbuffer
  pub same_capacity : out.rx_cbuffer.capacity ≡ c.rx_cbuffer.capacity
  pub same : out ≡ record c { rx_cbuffer = out.rx_cbuffer; values = put_list c.values k vs }

read_words_step :
    (left k v : ℕ) (c : Context) (rest : List ℕ)
    → IsStream c.rx_cbuffer
    → v < 2 ^ 16
    → k < 2 ^ 15
    → contents c.rx_cbuffer ≡ le16 v ++ rest
    → read_words (suc left) k c
      ≡ read_words left
          (k + 1)
          (record c { rx_cbuffer = (drop_front c.rx_cbuffer 2).0; values = set c.values k v })
unfolding read_words
read_words_step left k v c rest s h l e =
    let f = rdc_front c.rx_cbuffer v rest s h e in
    let i : u16 (k + 1) ≡ k + 1 = omega arith in rw (f.1, f.0, i) refl

pub read_words_lem :
    (vs : List ℕ) (k : ℕ) (c : Context) (rest : List ℕ)
    → IsStream c.rx_cbuffer
    → AreWords vs
    → k + length vs < 2 ^ 15
    → contents c.rx_cbuffer ≡ words_le vs ++ rest
    → IsRead c k vs rest (read_words (length vs) k c)
unfolding read_words
read_words_lem [] k c rest s w h e = record {
  held = e;
  stream = s;
  same_capacity = refl;
  same = refl;
}
read_words_lem (v ∷ vs) k c rest s w h e =
    let f = rdc_front c.rx_cbuffer v (words_le vs ++ rest) s w.0 e in
    let next : Context = record c {
      rx_cbuffer = (drop_front c.rx_cbuffer 2).0;
      values = set c.values k v;
    } in
    let r =
      read_words_lem vs (k + 1) next rest (drop_front-IsStream c.rx_cbuffer 2 s (omega arith)) w.1
        (omega arith) f.2 in
    rw (read_words_step (length vs) k v c (words_le vs ++ rest) s w.0 (omega arith) e) (record {
      held = r.held;
      stream = r.stream;
      same_capacity = r.same_capacity ∙ capacity-drop_front c.rx_cbuffer 2;
      same = r.same;
    })

word_payload_accepted :
    (c : Context) (n : ℕ)
    → c.count ≡ n
    → 1 ≤ c.count
    → c.count ≤ 32
    → parse_word_response_payload c (n * 2) ≡ (read_words n 0 c, st_ok)
unfolding parse_word_response_payload
word_payload_accepted c n e lo hi = ground (arith, bit_and_one (n * 2))

-- A payload of exactly the requested words.
pub parse_word_response_payload_lem :
    (c : Context) (vs rest : List ℕ)
    → IsStream c.rx_cbuffer
    → AreWords vs
    → c.count ≡ length vs
    → 1 ≤ c.count
    → c.count ≤ 32
    → contents c.rx_cbuffer ≡ words_le vs ++ rest
    → let (out, status) = parse_word_response_payload c (length vs * 2) in
      (status ≡ st_ok) × IsRead c 0 vs rest out
parse_word_response_payload_lem c vs rest s w n lo hi e =
    rw (word_payload_accepted c (length vs) n lo hi)
      (refl, read_words_lem vs 0 c rest s w (omega arith) e)

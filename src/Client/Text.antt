-- ===== src/Client/Text.antt =====
-- tools/fx5_client/src/fx5_client_utility.c: trimming and words. A text that is never written to is
-- its own copy; `fx5_client_skip_spaces_mut` is `skip_spaces` again.
use fx5_slmp_library.Prelude.{
  ℕ, zero, suc, ◌≤◌, ◌<◌, ◌≡◌, refl, ap, ◌∙◌, sym, subst, Bool, true, false, ◌&&◌, ◌||◌, not,
  Option, some, none, List, [], ◌∷◌, ◌++◌, arith, leb, ◌==◌, ◌⊎◌, if◌then◌else◌, length,
  length-take, get_or, take, drop, drop_all, Bool-cases, inl, inr, take-append-drop,
}

-- `isspace`, `isdigit`, `isxdigit` and `isalpha` of the C locale.
unfoldable pub is_space : ℕ → Bool
is_space c = (c == 32) || (leb 9 c && leb c 13)

unfoldable pub is_digit : ℕ → Bool
is_digit c = leb b'0' c && leb c b'9'

unfoldable pub is_xdigit : ℕ → Bool
unfolding is_digit
is_xdigit c = is_digit c || (leb b'A' c && leb c b'F') || (leb b'a' c && leb c b'f')

unfoldable pub is_alpha : ℕ → Bool
is_alpha c = (leb b'A' c && leb c b'Z') || (leb b'a' c && leb c b'z')

unfoldable pub skip_spaces : List ℕ → List ℕ
skip_spaces [] = []
skip_spaces (c ∷ s) = if is_space c then skip_spaces s else c ∷ s

-- `while (len > 0u)`: the argument is `len`.
unfoldable pub trim_right_loop : ℕ → List ℕ → List ℕ
trim_right_loop zero s = take zero s
trim_right_loop (suc len) s =
    let rest = trim_right_loop len s in
    if not (is_space (get_or s len 0)) then take (suc len) s else rest

unfoldable pub trim_right : List ℕ → List ℕ
trim_right s = trim_right_loop (length s) s

-- `while (end > text …)`: the argument is `end - text`.
unfoldable pub trim_loop : ℕ → List ℕ → List ℕ
trim_loop zero s = take 1 s
trim_loop (suc end) s =
    let rest = trim_loop end s in
    if is_space (get_or s (suc end) 0) then rest else take (suc (suc end)) s

unfoldable pub trim : List ℕ → List ℕ
trim text = elim (skip_spaces text) [ [] ↦ [] | c ∷ s ↦ trim_loop (length s) (c ∷ s) ]

-- `strcmp(s, t) == 0`
unfoldable pub same_text : List ℕ → List ℕ → Bool
same_text [] [] = true
same_text [] (d ∷ t) = false
same_text (c ∷ s) [] = false
same_text (c ∷ s) (d ∷ t) = (c == d) && same_text s t

abbrev pub true_word : List ℕ
true_word = b't' ∷ b'r' ∷ b'u' ∷ b'e' ∷ []

abbrev pub false_word : List ℕ
false_word = b'f' ∷ b'a' ∷ b'l' ∷ b's' ∷ b'e' ∷ []

-- `*out_value` if it was written, and otherwise the result is false.
unfoldable pub parse_bool : List ℕ → Option Bool
parse_bool text =
    if same_text text true_word
    then some true
    else if same_text text false_word
    then some false
    else none

-- Blanks alone.
abbrev pub AreSpaces : List ℕ → Type 0
AreSpaces [] = Unit
AreSpaces (c ∷ s) = (is_space c ≡ true) × AreSpaces s

-- A text neither end of which is a blank, the empty one included.
abbrev pub IsTrimmed : List ℕ → Type 0
IsTrimmed [] = Unit
IsTrimmed (c ∷ s) = (is_space c ≡ false) × (is_space (get_or (c ∷ s) (length s) 0) ≡ false)

AreSpaces-drop :
    (len : ℕ) (s : List ℕ)
    → len < length s
    → is_space (get_or s len 0) ≡ true
    → AreSpaces (drop (suc len) s)
    → AreSpaces (drop len s)
AreSpaces-drop len [] h e k = absurd (omega arith)
AreSpaces-drop zero (c ∷ s) h e k = (e, k)
AreSpaces-drop (suc len) (c ∷ s) h e k = AreSpaces-drop len s (omega arith) e k

-- What was skipped, as blanks in front.
skipped :
    (s : List ℕ)
    → (w : List ℕ) × AreSpaces w
      × (s ≡ w ++ skip_spaces s)
      × ((skip_spaces s ≡ [])
          ⊎ ((c : ℕ) × (t : List ℕ) × (skip_spaces s ≡ c ∷ t) × (is_space c ≡ false)))
unfolding skip_spaces
skipped [] = ([], tt, refl, inl refl)
skipped (c ∷ s) = elim (Bool-cases (is_space c)) [
  | inl e ↦
      let r = skipped s in (c ∷ r.0, (e, r.1), rw e (ap (λ (t : List ℕ). c ∷ t) r.2), rw e r.3)
  | inr e ↦ ([], tt, rw e refl, rw e (inr (c, s, refl, e)))
]

get_or-take : (n i : ℕ) (s : List ℕ) → i < n → get_or (take n s) i 0 ≡ get_or s i 0
get_or-take zero i s h = absurd (omega arith)
get_or-take (suc n) i [] h = refl
get_or-take (suc n) zero (c ∷ s) h = refl
get_or-take (suc n) (suc i) (c ∷ s) h = get_or-take n i s (omega arith)

-- What `trim_loop` keeps of a text, and that the rest is blank.
IsCut : List ℕ → List ℕ → Type 0
IsCut t out =
    (k : ℕ) × (k < length t)
    × (out ≡ take (suc k) t)
    × AreSpaces (drop (suc k) t)
    × (is_space (get_or t k 0) ≡ false)

trim_loop_lem :
    (end : ℕ) (c : ℕ) (s : List ℕ)
    → is_space c ≡ false
    → end ≤ length s
    → AreSpaces (drop (suc end) (c ∷ s))
    → IsCut (c ∷ s) (trim_loop end (c ∷ s))
unfolding trim_loop IsCut
trim_loop_lem zero c s e h a = (0, omega arith, refl, a, e)
trim_loop_lem (suc end) c s e h a = elim (Bool-cases (is_space (get_or (c ∷ s) (suc end) 0))) [
  | inl blank ↦ rw blank (
      trim_loop_lem end c s e (omega arith)
        (AreSpaces-drop (suc end) (c ∷ s) (omega arith) blank a))
  | inr other ↦ rw other (suc end, omega arith, refl, a, other)
]

IsCut-IsTrimmed : (c : ℕ) (s out : List ℕ) → is_space c ≡ false → IsCut (c ∷ s) out → IsTrimmed out
unfolding IsCut
IsCut-IsTrimmed c s out e (k, short, cut, blank, last) =
    let l : length (take k s) ≡ k = length-take k s ∙ omega arith in
    rw cut (
      e,
      ap (λ (i : ℕ). is_space (get_or (take (suc k) (c ∷ s)) i 0)) l
          ∙ ap is_space (get_or-take (suc k) k (c ∷ s) (omega arith))
          ∙ last,
    )

trim_of :
    (text t : List ℕ) (c : ℕ) → skip_spaces text ≡ c ∷ t → trim text ≡ trim_loop (length t) (c ∷ t)
unfolding trim
trim_of text t c e = rw (e, trim) refl

-- `fx5_client_trim` takes the blanks off both ends and nothing else.
pub trim_lem :
    (text : List ℕ)
    → (front : List ℕ) × (back : List ℕ) × (text ≡ front ++ (trim text ++ back))
      × AreSpaces front
      × AreSpaces back
      × IsTrimmed (trim text)
unfolding trim IsCut
trim_lem text =
    let r = skipped text in
    let w = r.0 in
    let blank = r.1 in
    let e = r.2 in
    elim r.3 [
      | inl none_left ↦
          let all : trim text ≡ [] = rw (none_left, trim) refl in
          (
            w,
            [],
            e ∙ ap (λ (t : List ℕ). w ++ t) (none_left ∙ sym (ap (λ (t : List ℕ). t ++ []) all)),
            blank,
            tt,
            subst IsTrimmed (sym all) tt,
          )
      | inr (c, t, first, other) ↦
          let cut =
            trim_loop_lem (length t) c t other (omega arith)
              (subst AreSpaces (sym (drop_all (suc (length t)) (c ∷ t) (omega arith))) tt) in
          let same = trim_of text t c first in
          (
            w,
            drop (suc cut.0) (c ∷ t),
            e
                ∙ ap (λ (q : List ℕ). w ++ q)
                    (first
                      ∙ sym (take-append-drop (suc cut.0) (c ∷ t))
                      ∙ ap (λ (q : List ℕ). q ++ drop (suc cut.0) (c ∷ t)) (sym (same ∙ cut.2))),
            blank,
            cut.3,
            subst IsTrimmed (sym same)
                (IsCut-IsTrimmed c t (trim_loop (length t) (c ∷ t)) other cut),
          )
    ]

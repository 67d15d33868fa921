-- ===== src/Client/Config/Ini.antt =====
-- A file of lines `key=value`, and the configuration that `fx5_client_load_ini_file` makes of it.
use fx5_slmp_library.Prelude.{
  ℕ, zero, suc, ◌+◌, ◌-◌, ◌≤◌, ◌<◌, ◌≡◌, ◌≢◌, refl, ap, ◌∙◌, sym, true, false, ◌||◌, ◌==◌, List, [],
  ◌∷◌, ◌++◌, some, arith, length, length-append, get_or, take, append-nil, get_or-append_left,
}
use fx5_slmp_library.Client.Text.{is_space, skip_spaces, trim, trim_loop, IsTrimmed}
use fx5_slmp_library.Client.Lines.{lines, lines_from, c_string}
use fx5_slmp_library.Client.Config.{
  ClientConfig, Memory, apply_kv, apply_line, apply_lines, split_equals, load_ini_file,
}

-- No character of the text is a newline or a 0.
abbrev pub IsLine : List ℕ → Type 0
IsLine [] = Unit
IsLine (c ∷ s) = (c ≢ b'\n') × (c ≢ 0) × IsLine s

abbrev pub HasNoEquals : List ℕ → Type 0
HasNoEquals [] = Unit
HasNoEquals (c ∷ s) = (c ≢ b'=') × HasNoEquals s

-- The first line of a stream, if it fits the buffer, and the rest.
lines_from_line :
    (full room : ℕ) (s rest : List ℕ)
    → IsLine s
    → length s < room
    → lines_from full room (s ++ (b'\n' ∷ rest)) ≡ (s ++ (b'\n' ∷ [])) ∷ lines_from full full rest
unfolding lines_from
lines_from_line full room [] rest l h = ground arith
lines_from_line full room (c ∷ s) rest l h =
    let more = lines_from_line full (room - 1) s rest l.2 (omega arith) in ground (arith, more)

c_string-line : (s : List ℕ) → IsLine s → c_string (s ++ (b'\n' ∷ [])) ≡ s ++ (b'\n' ∷ [])
unfolding c_string
c_string-line [] h = refl
c_string-line (zero ∷ s) h = absurd (h.1 refl)
c_string-line (suc c ∷ s) h = ap (λ (q : List ℕ). suc c ∷ q) (c_string-line s h.2)

split_equals-append :
    (key value : List ℕ)
    → HasNoEquals key
    → split_equals (key ++ (b'=' ∷ value)) ≡ some (key, value)
unfolding split_equals
split_equals-append [] value h = refl
split_equals-append (c ∷ key) value h = ground (arith, split_equals-append key value h.1)

take-length : (xs ys : List ℕ) → take (length xs) (xs ++ ys) ≡ xs
take-length [] ys = refl
take-length (x ∷ xs) ys = ap (λ (s : List ℕ). x ∷ s) (take-length xs ys)

get_or_behind : (xs ys : List ℕ) (y : ℕ) → get_or (xs ++ (y ∷ ys)) (length xs) 0 ≡ y
get_or_behind [] ys y = refl
get_or_behind (x ∷ xs) ys y = get_or_behind xs ys y

-- A loop at the end of what is kept.
trim_loop_stop :
    (end : ℕ) (t : List ℕ)
    → is_space (get_or t (suc end) 0) ≡ false
    → trim_loop (suc end) t ≡ take (suc (suc end)) t
unfolding trim_loop
trim_loop_stop end t e = rw e refl

trim_loop_kept :
    (c : ℕ) (s rest : List ℕ) → IsTrimmed (c ∷ s) → trim_loop (length s) (c ∷ (s ++ rest)) ≡ c ∷ s
unfolding trim_loop
trim_loop_kept c [] rest k = refl
trim_loop_kept c (d ∷ s) rest k =
    trim_loop_stop (length s) (c ∷ d ∷ (s ++ rest))
      (ap is_space (get_or-append_left (c ∷ d ∷ s) rest (suc (length s)) 0 (omega arith)) ∙ k.1)
    ∙ take-length (c ∷ d ∷ s) rest

no_blank : (c : ℕ) (s : List ℕ) → is_space c ≡ false → skip_spaces (c ∷ s) ≡ c ∷ s
unfolding skip_spaces
no_blank c s h = rw h refl

trim_start : (c : ℕ) (s : List ℕ) → is_space c ≡ false → trim (c ∷ s) ≡ trim_loop (length s) (c ∷ s)
unfolding trim
trim_start c s h = let e = no_blank c s h in rw (e, trim) refl

pub trim_trimmed : (s : List ℕ) → IsTrimmed s → trim s ≡ s
unfolding trim skip_spaces
trim_trimmed [] k = refl
trim_trimmed (c ∷ s) k =
    trim_start c s k.0
    ∙ ap (λ (q : List ℕ). trim_loop (length s) (c ∷ q)) (sym (append-nil s))
    ∙ trim_loop_kept c s [] k

trim_loop_newline :
    (end : ℕ) (t : List ℕ)
    → is_space (get_or t (suc end) 0) ≡ true
    → trim_loop (suc end) t ≡ trim_loop end t
unfolding trim_loop
trim_loop_newline end t e = rw e refl

newline_blank : is_space b'\n' ≡ true
unfolding is_space
newline_blank = refl

-- The newline of a line goes.
trim-line : (s : List ℕ) → IsTrimmed s → trim (s ++ (b'\n' ∷ [])) ≡ s
unfolding trim skip_spaces is_space
trim-line [] k = refl
trim-line (c ∷ s) k =
    let n : length (s ++ (b'\n' ∷ [])) ≡ suc (length s) =
      omega (arith, length-append s (b'\n' ∷ [])) in
    let blank = ap is_space (get_or_behind (c ∷ s) [] b'\n') ∙ newline_blank in
    trim_start c (s ++ (b'\n' ∷ [])) k.0
    ∙ ap (λ (m : ℕ). trim_loop m (c ∷ (s ++ (b'\n' ∷ [])))) n
    ∙ trim_loop_newline (length s) (c ∷ (s ++ (b'\n' ∷ []))) blank
    ∙ trim_loop_kept c s (b'\n' ∷ []) k

-- A key and a value that a line can hold: without blanks at their ends, on one line, and short enough
-- for the buffer with a `=` and a newline. A key has no `=`, and neither starts a comment nor is empty.
pub record IsEntry (key value : List ℕ) : Type 0 where
  pub key_trimmed : IsTrimmed key
  pub value_trimmed : IsTrimmed value
  pub key_line : IsLine key
  pub value_line : IsLine value
  pub no_equals : HasNoEquals key
  pub no_comment : get_or key 0 b'#' ≢ b'#'
  pub some_value : 0 < length value
  pub short : length key + length value ≤ 253

abbrev pub AreEntries : List (List ℕ × List ℕ) → Type 0
AreEntries [] = Unit
AreEntries ((key, value) ∷ entries) = IsEntry key value × AreEntries entries

abbrev pub entry_text : List ℕ → List ℕ → List ℕ
entry_text key value = key ++ (b'=' ∷ value)

abbrev pub ini_text : List (List ℕ × List ℕ) → List ℕ
ini_text [] = []
ini_text ((key, value) ∷ entries) = entry_text key value ++ (b'\n' ∷ ini_text entries)

-- The entries from line `k` on, one after the other.
abbrev pub apply_entries : (ℕ → Memory) → ℕ → List (List ℕ × List ℕ) → ClientConfig → ClientConfig
apply_entries memory k [] config = config
apply_entries memory k ((key, value) ∷ entries) config =
    apply_entries memory (k + 1) entries (apply_kv (memory k) key value config)

IsLine-append : (s t : List ℕ) → IsLine s → IsLine t → IsLine (s ++ t)
IsLine-append [] t h k = k
IsLine-append (c ∷ s) t h k = (h.0, h.1, IsLine-append s t h.2 k)

equals_IsLine : (s : List ℕ) → IsLine s → IsLine (b'=' ∷ s)
equals_IsLine s h = (λ e. omega (arith, e), λ e. omega (arith, e), h)

get_or_right :
    (xs ys : List ℕ) (i n : ℕ) → n ≡ length xs + i → get_or (xs ++ ys) n 0 ≡ get_or ys i 0
get_or_right [] ys i n e = ap (λ (m : ℕ). get_or ys m 0) (omega (arith, e))
get_or_right (x ∷ xs) ys i zero e = absurd (omega (arith, e))
get_or_right (x ∷ xs) ys i (suc n) e = get_or_right xs ys i n (omega (arith, e))

entry-IsTrimmed : (key value : List ℕ) → IsEntry key value → IsTrimmed (entry_text key value)
entry-IsTrimmed [] value h = absurd (h.no_comment refl)
entry-IsTrimmed (c ∷ key) [] h = absurd (omega (arith, h.some_value))
entry-IsTrimmed (c ∷ key) (v ∷ value) h = (
  h.key_trimmed.0,
  ap is_space (
        get_or_right (c ∷ key) (b'=' ∷ v ∷ value) (suc (length value))
          (length (key ++ (b'=' ∷ v ∷ value)))
          (omega (arith, length-append key (b'=' ∷ v ∷ value))))
      ∙ h.value_trimmed.1,
)

entry_first :
    (key value : List ℕ)
    → IsEntry key value
    → ((get_or (entry_text key value) 0 0 == b'#') || (get_or (entry_text key value) 0 0 == 0))
      ≡ false
entry_first [] value h = absurd (h.no_comment refl)
entry_first (c ∷ key) value h = ground (arith, h.no_comment, h.key_line.1)

line_applied :
    (m : Memory) (line p key value : List ℕ) (config : ClientConfig)
    → trim (c_string line) ≡ p
    → ((get_or p 0 0 == b'#') || (get_or p 0 0 == 0)) ≡ false
    → split_equals p ≡ some (key, value)
    → apply_line m line config ≡ apply_kv m (trim key) (trim value) config
unfolding apply_line
line_applied m line p key value config e first split = rw e (ground (arith, first, split))

-- A line with an entry is applied.
apply_line-entry :
    (m : Memory) (key value : List ℕ) (config : ClientConfig)
    → IsEntry key value
    → apply_line m (entry_text key value ++ (b'\n' ∷ [])) config ≡ apply_kv m key value config
apply_line-entry m key value config h =
    let text = entry_text key value in
    let one = IsLine-append key (b'=' ∷ value) h.key_line (equals_IsLine value h.value_line) in
    line_applied m (text ++ (b'\n' ∷ [])) text key value config
      (ap trim (c_string-line text one) ∙ trim-line text (entry-IsTrimmed key value h))
      (entry_first key value h) (split_equals-append key value h.no_equals)
    ∙ ap (λ (q : List ℕ). apply_kv m q (trim value) config) (trim_trimmed key h.key_trimmed)
    ∙ ap (λ (q : List ℕ). apply_kv m key q config) (trim_trimmed value h.value_trimmed)

entry_lines :
    (memory : ℕ → Memory) (k : ℕ) (entries : List (List ℕ × List ℕ)) (config : ClientConfig)
    → AreEntries entries
    → apply_lines memory k (lines_from 255 255 (ini_text entries)) config
      ≡ apply_entries memory k entries config
unfolding apply_lines lines_from
entry_lines memory k [] config h = refl
entry_lines memory k ((key, value) ∷ entries) config h =
    let one = IsLine-append key (b'=' ∷ value) h.0.key_line (equals_IsLine value h.0.value_line) in
    let size : length (entry_text key value) < 255 =
      omega (arith, length-append key (b'=' ∷ value), h.0.short) in
    ap (λ (q : List (List ℕ)). apply_lines memory k q config)
      (lines_from_line 255 255 (entry_text key value) (ini_text entries) one size)
    ∙ ap
        (λ (q : ClientConfig). apply_lines memory (k + 1) (lines_from 255 255 (ini_text entries)) q)
        (apply_line-entry (memory k) key value config h.0)
    ∙ entry_lines memory (k + 1) entries (apply_kv (memory k) key value config) h.1

-- A file of lines `key=value` is read as these entries: each is applied, in the order of the lines.
pub load_ini_file-entries :
    (memory : ℕ → Memory) (entries : List (List ℕ × List ℕ)) (config : ClientConfig)
    → AreEntries entries
    → load_ini_file memory (some (ini_text entries)) config
      ≡ (apply_entries memory 0 entries config, true)
unfolding load_ini_file lines
load_ini_file-entries memory entries config h =
    ap (λ (q : ClientConfig). (q, true)) (entry_lines memory 0 entries config h)

-- ===== src/Client/Lines.antt =====
-- `fgets` of the C library over a stream that does not change while it is read.
use fx5_slmp_library.Prelude.{
  ℕ, zero, suc, ◌-◌, ◌||◌, Bool, List, [], ◌∷◌, ◌==◌, if◌then◌else◌, length, get_or,
}

-- A character in front of the first line.
abbrev pub onto_first : ℕ → List (List ℕ) → List (List ℕ)
onto_first c [] = (c ∷ []) ∷ []
onto_first c (line ∷ rest) = (c ∷ line) ∷ rest

-- The lines from here on, where the first takes at most `room` more characters, and each other one
-- at most `full`. A line ends behind its `\n`, or when it is full.
unfoldable pub lines_from : ℕ → ℕ → List ℕ → List (List ℕ)
lines_from full room [] = []
lines_from full room (c ∷ s) =
    let closed = (c ∷ []) ∷ lines_from full full s in
    let open_line = onto_first c (lines_from full (room - 1) s) in
    if (c == b'\n') || (room == 1) then closed else open_line

-- What the calls of `fgets(buffer, size, stream)` give one after the other.
unfoldable pub lines : ℕ → List ℕ → List (List ℕ)
lines size stream = lines_from (size - 1) (size - 1) stream

-- A line with its `\n`, or one that fills the buffer.
unfoldable pub is_closed : ℕ → List ℕ → Bool
is_closed size line = (length line == size - 1) || (get_or line (length line - 1) 0 == b'\n')

-- The lines before the first that is not closed: a call of `fgets` that a read error ends gives NULL.
unfoldable pub closed_lines : ℕ → List (List ℕ) → List (List ℕ)
unfolding is_closed
closed_lines size [] = []
closed_lines size (line ∷ rest) = if is_closed size line then line ∷ closed_lines size rest else []

-- A buffer as a string: up to the first 0.
unfoldable pub c_string : List ℕ → List ℕ
c_string [] = []
c_string (zero ∷ s) = []
c_string (suc c ∷ s) = suc c ∷ c_string s

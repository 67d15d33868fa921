-- ===== src/RingBuf/Contents.antt =====
-- What a ring holds: the bytes from the read position on, going round at the end of the storage.
use mathlib.Core.Path.{ap₂}
use fx5_slmp_library.Prelude.{
  ℕ, zero, suc, ◌+◌, ◌-◌, ◌≤◌, ◌<◌, ◌≡◌, refl, ap, ◌∙◌, List, [], ◌∷◌, ◌++◌, arith, leb,
  if◌then◌else◌, length, get_or, set, get_or-set_self, get_or-set_ne,
}
use fx5_slmp_library.RingBuf.{Ring}

-- The position `i` bytes after `t`, with no wrap at 16 bits.
abbrev pub slot : ℕ → ℕ → ℕ → ℕ
slot capacity t i = if leb capacity (t + i) then t + i - capacity else t + i

module _ (capacity : ℕ) where
  abbrev pub window : List ℕ → ℕ → ℕ → List ℕ
  window bytes t zero = []
  window bytes t (suc n) = get_or bytes t 0 ∷ window bytes (slot capacity t 1) n

  pub length-window : (bytes : List ℕ) (t n : ℕ) → length (window bytes t n) ≡ n
  length-window bytes t zero = refl
  length-window bytes t (suc n) = ap suc (length-window bytes (slot capacity t 1) n)

  slot-lt : (t i : ℕ) → t < capacity → i ≤ capacity → slot capacity t i < capacity
  slot-lt t i h k = ground arith

  slot-slot :
      (t i : ℕ)
      → t < capacity
      → i < capacity
      → slot capacity (slot capacity t 1) i ≡ slot capacity t (suc i)
  slot-slot t i h k = ground arith

  -- The entry `i` of a window is the byte `i` positions on.
  pub get_or-window :
      (bytes : List ℕ) (t n i : ℕ)
      → t < capacity
      → n ≤ capacity
      → i < n
      → get_or (window bytes t n) i 0 ≡ get_or bytes (slot capacity t i) 0
  get_or-window bytes t zero i h k l = absurd (omega arith)
  get_or-window bytes t (suc n) zero h k l = ap (λ p. get_or bytes p 0) (ground arith)
  get_or-window bytes t (suc n) (suc i) h k l =
      get_or-window bytes (slot capacity t 1) n i (slot-lt t 1 h (omega arith)) (omega arith)
        (omega arith)
      ∙ ap (λ p. get_or bytes p 0) (slot-slot t i h (omega arith))

  -- A byte written just past a window extends it.
  pub window-set :
      (bytes : List ℕ) (t n p x : ℕ)
      → capacity ≤ length bytes
      → t < capacity
      → n < capacity
      → p ≡ slot capacity t n
      → window (set bytes p x) t (suc n) ≡ window bytes t n ++ (x ∷ [])
  window-set bytes t zero p x s h k e =
      let here : p ≡ t = ground arith in
      ap₂ ◌∷◌ (rw here (get_or-set_self bytes t x 0 (omega arith))) refl
  window-set bytes t (suc n) p x s h k e = ap₂ ◌∷◌ (get_or-set_ne bytes p t x 0 (ground arith)) (
      window-set bytes (slot capacity t 1) n p x s (slot-lt t 1 h (omega arith)) (omega arith)
        (ground (arith, slot-slot t n)))

abbrev pub contents : Ring → List ℕ
contents r = window r.capacity r.bytes r.tail r.size

pub length-contents : (r : Ring) → length (contents r) ≡ r.size
length-contents r = length-window r.capacity r.bytes r.tail r.size

-- ===== src/Client/Transport/Sending.antt =====
-- `fx5_socket_send_all` over a `send` that may take a part of what it is given.
use fx5_slmp_library.Prelude.{
  ℕ, zero, suc, ◌+◌, ◌≤◌, ◌≡◌, refl, ap, ◌∙◌, sym, Bool, true, false, some, List, [], ◌∷◌, ◌++◌,
  arith, ◌==◌, length, length-drop, take, take-nil, drop, append_assoc, append-nil, Bool-cases, inl,
  inr,
}
use fx5_slmp_library.Client.Transport.{System, Socket, send_loop, socket_send_all}

-- What the peer of each socket has been sent: a call of `send` adds the bytes that it reports.
pub record SendLog (sys : System) : Type 0 where
  pub sent : sys.World → ℕ → List ℕ
  pub sent-send :
      (w : sys.World) (h : ℕ) (xs : List ℕ)
      → sent (sys.send w h xs).1 h ≡ sent w h ++ take (sys.send w h xs).0 xs

take-add : (n k : ℕ) (xs : List ℕ) → take (n + k) xs ≡ take n xs ++ take k (drop n xs)
take-add zero k xs = let e : 0 + k ≡ k = omega arith in rw e refl
take-add (suc n) k [] = take-nil (suc n + k) ∙ sym (take-nil k)
take-add (suc n) k (x ∷ xs) =
    let e : suc n + k ≡ suc (n + k) = omega arith in
    rw e (ap (λ (q : List ℕ). x ∷ q) (take-add n k xs))

take_all : (n : ℕ) (xs : List ℕ) → length xs ≤ n → take n xs ≡ xs
take_all n [] h = take-nil n
take_all zero (x ∷ xs) h = absurd (omega arith)
take_all (suc n) (x ∷ xs) h = ap (λ (q : List ℕ). x ∷ q) (take_all n xs (omega arith))

module _ (sys : System) (log : SendLog sys) (h : ℕ) where
  open log use {sent, sent-send}

  -- A start of the bytes has been sent, and all of them if the result is true.
  pub record IsSent (w : sys.World) (bytes : List ℕ) (ok : Bool) (w' : sys.World) : Type 0 where
    pub part : ℕ
    pub logged : sent w' h ≡ sent w h ++ take part bytes
    pub whole : ok ≡ true → length bytes ≤ part

  abbrev Sends : ℕ → List ℕ → sys.World → Type 0
  Sends fuel bytes w =
      (ok : Bool) × (w' : sys.World) × (send_loop sys fuel h bytes w ≡ some (ok, w'))
      × IsSent w bytes ok w'

  send_loop_lem :
      (fuel : ℕ) (bytes : List ℕ) (w : sys.World) → length bytes ≤ fuel → Sends fuel bytes w
  unfolding send_loop
  send_loop_lem zero [] w l = (
    true,
    w,
    refl,
    record { part = 0; logged = sym (append-nil (sent w h)); whole = λ _. omega arith },
  )
  send_loop_lem (suc fuel) [] w l = (
    true,
    w,
    refl,
    record { part = 0; logged = sym (append-nil (sent w h)); whole = λ _. omega arith },
  )
  send_loop_lem zero (x ∷ xs) w l = absurd (omega arith)
  send_loop_lem (suc fuel) (x ∷ xs) w l =
      let n = (sys.send w h (x ∷ xs)).0 in
      let w1 = (sys.send w h (x ∷ xs)).1 in
      elim (Bool-cases (n == 0)) [
        | inl stop ↦ (
          false,
          w1,
          rw stop refl,
          record { part = n; logged = sent-send w h (x ∷ xs); whole = λ e. cc },
        )
        | inr go ↦
            let more =
              send_loop_lem fuel (drop n (x ∷ xs)) w1 (ground (arith, length-drop n (x ∷ xs))) in
            (
              more.0,
              more.1,
              rw go more.2,
              record {
                part = n + more.3.part;
                logged =
                    more.3.logged
                    ∙ ap (λ (q : List ℕ). q ++ take more.3.part (drop n (x ∷ xs)))
                        (sent-send w h (x ∷ xs))
                    ∙ append_assoc (sent w h) (take n (x ∷ xs)) (take more.3.part (drop n (x ∷ xs)))
                    ∙ ap (λ (q : List ℕ). sent w h ++ q) (sym (take-add n more.3.part (x ∷ xs)));
                whole = λ e. omega (arith, more.3.whole e, length-drop n (x ∷ xs));
              },
            )
      ]

  -- On a connected socket `fx5_socket_send_all` returns, whatever parts `send` takes: the peer has then
  -- been sent a start of the bytes, behind what it had before, and all of them if the result is true.
  pub socket_send_all_lem :
      (sock : Socket) (bytes : List ℕ) (w : sys.World)
      → sock.handle ≡ some h
      → (ok : Bool) × (w' : sys.World) × (part : ℕ) × (socket_send_all sys sock bytes w
          ≡ some (ok, w'))
        × (sent w' h ≡ sent w h ++ take part bytes)
        × (ok ≡ true → sent w' h ≡ sent w h ++ bytes)
  unfolding socket_send_all
  socket_send_all_lem sock bytes w e =
      let r = send_loop_lem (length bytes) bytes w (omega arith) in
      (
        r.0,
        r.1,
        r.3.part,
        rw (e, socket_send_all) r.2,
        r.3.logged,
        λ ok.
            r.3.logged
            ∙ ap (λ (q : List ℕ). sent w h ++ q) (take_all r.3.part bytes (r.3.whole ok)),
      )

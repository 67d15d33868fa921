-- ===== src/Response/Stream.antt =====
-- Resynchronisation as a function of the bytes received.
use fx5_slmp_library.Prelude.{
  ℕ, zero, suc, ◌+◌, ◌*◌, ◌≤◌, ◌<◌, ◌^◌, ◌≡◌, ◌≢◌, ◌⊎◌, refl, ap, ◌∙◌, sym, Bool, true, false, ◌&&◌,
  ◌||◌, List, [], ◌∷◌, arith, ◌==◌, if◌then◌else◌, Bool-cases, inl, inr, u16, length, drop, get_or,
  drop_one,
}
use fx5_slmp_library.Types.{Header, header_3e, header_4e, unknown_header}
use fx5_slmp_library.RingBuf.{Ring, drop_front}
use fx5_slmp_library.RingBuf.Invariant.{drop_front-IsValid, capacity-drop_front}
use fx5_slmp_library.RingBuf.Contents.{contents, length-contents}
use fx5_slmp_library.RingBuf.Refine.{drop_front_refines}
use fx5_slmp_library.Bytes.{peekc_u16_le, peek_or_0}
use fx5_slmp_library.Bytes.Stream.{
  AreBytes, AreBytes-drop, IsStream, le16_at, peekc_u16_le_lem, peek_or_0_lem,
}
use fx5_slmp_library.Response.Header.{
  Resynced, detect_response_header, resync_last, resync_loop, try_resync,
}

-- Dropping bytes from a ring drops them from what it holds.
pub drop_front-IsStream : (r : Ring) (n : ℕ) → IsStream r → n < 2 ^ 16 → IsStream (drop_front r n).0
drop_front-IsStream r n s h = record {
  valid = drop_front-IsValid r n s.valid;
  small = omega (arith, capacity-drop_front r n, s.small);
  bytes =
      let e = (drop_front_refines r n s.valid h).0 in rw e (AreBytes-drop n (contents r) s.bytes);
}

pub contents-drop_front :
    (r : Ring) (n : ℕ) → IsStream r → n < 2 ^ 16 → contents (drop_front r n).0 ≡ drop n (contents r)
contents-drop_front r n s h = (drop_front_refines r n s.valid h).0

pub size-length : (r : Ring) → r.size ≡ length (contents r)
size-length r = sym (length-contents r)

-- The frame type that a subheader announces: 0xD4 0x00 or 0xD0 0x00.
abbrev pub announced : ℕ → ℕ → Header
announced x y =
    if (x == 0xD4) && (y == 0)
    then header_4e
    else if (x == 0xD0) && (y == 0)
    then header_3e
    else unknown_header

-- The specification: how many bytes go, and the type of the frame that is then in front.
abbrev pub resync_spec : List ℕ → ℕ × Header
resync_spec [] = (0, unknown_header)
resync_spec (x ∷ []) = (if (x == 0xD0) || (x == 0xD4) then 0 else 1, unknown_header)
resync_spec (x ∷ y ∷ q) =
    let (n, h) = resync_spec (y ∷ q) in
    elim (announced x y) [ unknown_header ↦ (n + 1, h) | found ↦ (0, found) ]

pub detect_lem :
    (r : Ring) (x y : ℕ) (q : List ℕ)
    → IsStream r
    → contents r ≡ x ∷ y ∷ q
    → detect_response_header r ≡ announced x y
unfolding detect_response_header
detect_lem r x y q s e =
    let b : AreBytes (x ∷ y ∷ q) = rw e at s.bytes in
    let m : peekc_u16_le r 0 ≡ x + y * 256 =
      peekc_u16_le_lem r 0 s (omega arith) ∙ ap (λ z. le16_at z 0) e in
    let z : r.size ≡ length (x ∷ y ∷ q) = size-length r ∙ ap length e in rw (m, z) (ground arith)

-- What a resynchronisation must come to, from a ring that holds `q` with `d` bytes counted.
pub record IsResynced (q : List ℕ) (d capacity : ℕ) (out : Resynced) : Type 0 where
  pub held : contents out.ring ≡ drop (resync_spec q).0 q
  pub counted : out.discarded ≡ d + (resync_spec q).0
  pub found : out.header ≡ (resync_spec q).1
  pub stream : IsStream out.ring
  pub same_capacity : out.ring.capacity ≡ capacity

-- Whether a frame can start with the byte.
abbrev is_start : ℕ → Bool
is_start x = (x == 0xD0) || (x == 0xD4)

resync_last_keep :
    (r : Ring) (d : ℕ)
    → (r.size ≡ 0) ⊎ (is_start (peek_or_0 r 0) ≡ true)
    → resync_last r d ≡ record { ring = r; discarded = d; header = unknown_header }
unfolding resync_last
resync_last_keep r d h = ground arith

resync_last_drop :
    (r : Ring) (d : ℕ)
    → r.size ≡ 1
    → is_start (peek_or_0 r 0) ≡ false
    → resync_last r d
      ≡ record { ring = (drop_front r 1).0; discarded = u16 (d + 1); header = unknown_header }
unfolding resync_last
resync_last_drop r d z h = ground arith

resync_last_lem :
    (r : Ring) (d : ℕ) (q : List ℕ)
    → IsStream r
    → contents r ≡ q
    → length q ≤ 1
    → d + 1 < 2 ^ 16
    → IsResynced q d r.capacity (resync_last r d)
resync_last_lem r d [] s e h k =
    rw (resync_last_keep r d (inl (size-length r ∙ ap length e)))
      (record { held = e; counted = omega arith; found = refl; stream = s; same_capacity = refl })
resync_last_lem r d (x ∷ []) s e h k =
    let b : peek_or_0 r 0 ≡ x = peek_or_0_lem r 0 s ∙ ap (λ q. get_or q 0 0) e in
    elim (Bool-cases (is_start x)) [
      | inl keep ↦ rw (resync_last_keep r d (inr (ap is_start b ∙ keep))) (record {
        held = ground (arith, e);
        counted = ground arith;
        found = refl;
        stream = s;
        same_capacity = refl;
      })
      | inr go ↦
          rw (resync_last_drop r d (size-length r ∙ ap length e) (ap is_start b ∙ go)) (record {
            held = ground (arith, contents-drop_front r 1 s (omega arith) ∙ ap (drop 1) e);
            counted = ground arith;
            found = refl;
            stream = drop_front-IsStream r 1 s (omega arith);
            same_capacity = capacity-drop_front r 1;
          })
    ]
resync_last_lem r d (x ∷ y ∷ q) s e h k = absurd (omega arith)

resync_loop_found :
    (fuel : ℕ) (r : Ring) (d : ℕ) (h : Header)
    → 1 < r.size
    → detect_response_header r ≡ h
    → h ≢ unknown_header
    → resync_loop (suc fuel) r d ≡ record { ring = r; discarded = d; header = h }
unfolding resync_loop
resync_loop_found fuel r d unknown_header l e ne = absurd (ne refl)
resync_loop_found fuel r d header_3e l e ne = ground (arith, e)
resync_loop_found fuel r d header_4e l e ne = ground (arith, e)

resync_loop_skip :
    (fuel : ℕ) (r : Ring) (d : ℕ)
    → 1 < r.size
    → detect_response_header r ≡ unknown_header
    → resync_loop (suc fuel) r d ≡ resync_loop fuel (drop_front r 1).0 (u16 (d + 1))
unfolding resync_loop
resync_loop_skip fuel r d l e = ground (arith, e)

resync_loop_end :
    (fuel : ℕ) (r : Ring) (d : ℕ) → r.size ≤ 1 → resync_loop fuel r d ≡ resync_last r d
unfolding resync_loop
resync_loop_end zero r d h = refl
resync_loop_end (suc fuel) r d h = ground arith

Header-cases : (h : Header) → (h ≡ unknown_header) ⊎ (h ≢ unknown_header)
Header-cases unknown_header = inl refl
Header-cases header_3e = inr (λ e. cc)
Header-cases header_4e = inr (λ e. cc)

resync_spec_skip :
    (x y : ℕ) (q : List ℕ)
    → announced x y ≡ unknown_header
    → resync_spec (x ∷ y ∷ q) ≡ ((resync_spec (y ∷ q)).0 + 1, (resync_spec (y ∷ q)).1)
resync_spec_skip x y q e = rw (e, resync_spec) refl

resync_spec_found :
    (x y : ℕ) (q : List ℕ)
    → announced x y ≢ unknown_header
    → resync_spec (x ∷ y ∷ q) ≡ (0, announced x y)
resync_spec_found x y q e = ground arith

resync_loop_lem :
    (fuel : ℕ) (r : Ring) (d : ℕ) (q : List ℕ)
    → IsStream r
    → contents r ≡ q
    → length q ≤ fuel
    → d + length q < 2 ^ 15
    → IsResynced q d r.capacity (resync_loop fuel r d)
resync_loop_lem fuel r d [] s e h k =
    let z : r.size ≡ 0 = size-length r ∙ ap length e in
    rw (resync_loop_end fuel r d (omega arith))
      (resync_last_lem r d [] s e (omega arith) (omega arith))
resync_loop_lem fuel r d (x ∷ []) s e h k =
    let z : r.size ≡ 1 = size-length r ∙ ap length e in
    rw (resync_loop_end fuel r d (omega arith))
      (resync_last_lem r d (x ∷ []) s e (omega arith) (omega arith))
resync_loop_lem zero r d (x ∷ y ∷ q) s e h k = absurd (omega arith)
resync_loop_lem (suc fuel) r d (x ∷ y ∷ q) s e h k =
    let z : r.size ≡ length (x ∷ y ∷ q) = size-length r ∙ ap length e in
    let det = detect_lem r x y q s e in
    elim (Header-cases (announced x y)) [
      | inl skip ↦
          let dropped : contents (drop_front r 1).0 ≡ y ∷ q =
            contents-drop_front r 1 s (omega arith) ∙ ap (drop 1) e in
          let rest =
            resync_loop_lem fuel (drop_front r 1).0 (u16 (d + 1)) (y ∷ q)
              (drop_front-IsStream r 1 s (omega arith)) dropped (omega arith) (omega arith) in
          rw (resync_loop_skip fuel r d (omega arith) (det ∙ skip)) (record {
            held =
                rest.held
                ∙ sym (drop_one (resync_spec (y ∷ q)).0 (x ∷ y ∷ q))
                ∙ ap (λ n. drop n (x ∷ y ∷ q)) (sym (spec_count skip));
            counted = omega (arith, rest.counted, spec_count skip);
            found = rest.found ∙ sym (ap (λ t. t.1) (resync_spec_skip x y q skip));
            stream = rest.stream;
            same_capacity = rest.same_capacity ∙ capacity-drop_front r 1;
          })
      | inr found ↦
          rw (resync_loop_found fuel r d (announced x y) (omega arith) det found) (record {
            held =
                e
                ∙ ap (λ n. drop n (x ∷ y ∷ q))
                    (sym (ap (λ t. t.0) (resync_spec_found x y q found)));
            counted = omega (arith, ap (λ t. t.0) (resync_spec_found x y q found));
            found = sym (ap (λ t. t.1) (resync_spec_found x y q found));
            stream = s;
            same_capacity = refl;
          })
    ]
  where
    spec_count :
        announced x y ≡ unknown_header → (resync_spec (x ∷ y ∷ q)).0 ≡ suc (resync_spec (y ∷ q)).0
    spec_count skip = ap (λ t. t.0) (resync_spec_skip x y q skip) ∙ omega arith

-- On a ring of bytes of capacity at most 2 ^ 15, with a count that stays below 2 ^ 15,
-- `fx5_try_resync` drops exactly the bytes in front of the first frame start, counts them, and
-- reports the type of that frame; with no frame start it keeps at most one byte, one that a frame
-- can start with.
pub try_resync_lem :
    (r : Ring) (d : ℕ)
    → IsStream r
    → d + r.size < 2 ^ 15
    → IsResynced (contents r) d r.capacity (try_resync r d)
unfolding try_resync
try_resync_lem r d s h =
    resync_loop_lem r.size r d (contents r) s refl (omega (arith, length-contents r))
      (omega (arith, length-contents r))

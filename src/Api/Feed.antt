-- ===== src/Api/Feed.antt =====
-- `fx5_feed_response_bytes` of src/fx5_core.c against the bytes that the ring holds.
use fx5_slmp_library.Prelude.{
  ℕ, ◌+◌, ◌≤◌, ◌<◌, ◌^◌, ◌≡◌, refl, ap, ◌∙◌, sym, subst, true, false, Bool, some, List, [], ◌∷◌,
  ◌++◌, arith, length, length-append, append_assoc, append-nil, ◌==◌,
}
use fx5_slmp_library.Types.{Status, st_ok, err_too_small, iobuf_size}
use fx5_slmp_library.Context.{Context}
use fx5_slmp_library.RingBuf.{Ring, push_back}
use fx5_slmp_library.RingBuf.Invariant.{IsValid, push_back-IsValid, capacity-push_back}
use fx5_slmp_library.RingBuf.Contents.{contents, length-contents}
use fx5_slmp_library.RingBuf.Refine.{push_back_refines, queue_push}
use fx5_slmp_library.Bytes.Stream.{AreBytes, AreBytes-append}
use fx5_slmp_library.Api.Handle.{require_acquired}
use fx5_slmp_library.Api.Receive.{feed_loop, feed_on, feed_response_bytes}
use fx5_slmp_library.Api.Invariant.{IsWellFormed}

-- One push with room for it.
push_back_room :
    (r : Ring) (x : ℕ)
    → IsValid r
    → r.size < r.capacity
    → (contents (push_back r x).0 ≡ contents r ++ (x ∷ [])) × ((push_back r x).1 ≡ true)
push_back_room r x v h =
    let e : ((length (contents r) == r.capacity) ≡ false) = ground (arith, length-contents r) in
    let q : queue_push r.capacity (contents r) x ≡ (contents r ++ (x ∷ []), true) = rw e refl in
    let p = push_back_refines r x v ∙ q in
    (ap (λ (t : List ℕ × Bool). t.0) p, ap (λ (t : List ℕ × Bool). t.1) p)

-- What feeding the bytes `xs` does to a ring.
pub record IsFed (r : Ring) (xs : List ℕ) (out : Ring × Status) : Type 0 where
  pub accepted : out.1 ≡ st_ok
  pub held : contents out.0 ≡ contents r ++ xs
  pub valid : IsValid out.0
  pub same_capacity : out.0.capacity ≡ r.capacity

feed_loop_lem :
    (xs : List ℕ) (r : Ring)
    → IsValid r
    → r.size + length xs ≤ r.capacity
    → IsFed r xs (feed_loop r xs)
unfolding feed_loop
feed_loop_lem [] r v h = record {
  accepted = refl;
  held = sym (append-nil (contents r));
  valid = v;
  same_capacity = refl;
}
feed_loop_lem (x ∷ xs) r v h =
    let p = push_back_room r x v (omega arith) in
    let r' = (push_back r x).0 in
    let grown : r'.size ≡ r.size + 1 = omega (
      arith,
      length-contents r',
      length-contents r,
      ap length p.0,
      length-append (contents r) (x ∷ []),
    ) in
    let more =
      feed_loop_lem xs r' (push_back-IsValid r x v) (omega (arith, capacity-push_back r x)) in
    rw (p.1) (record {
      accepted = more.accepted;
      held = more.held ∙ ap (λ (q : List ℕ). q ++ xs) p.0 ∙ append_assoc (contents r) (x ∷ []) xs;
      valid = more.valid;
      same_capacity = more.same_capacity ∙ capacity-push_back r x;
    })

-- The context with the bytes put behind those that its ring holds.
abbrev pub fed : Context → List ℕ → Context
fed c xs = record c { rx_cbuffer = (feed_loop c.rx_cbuffer xs).0 }

-- On a well-formed context in use and fewer than 2 ^ 16 bytes: if the ring has room for all of them
-- they are put behind those it holds, and the context is well-formed again; if not, the context
-- stays as it is and the call reports that.
pub feed_response_bytes_lem :
    (c : Context) (xs : List ℕ)
    → IsWellFormed c
    → c.in_use ≡ true
    → AreBytes xs
    → length xs < 2 ^ 16
    → (length (contents c.rx_cbuffer) + length xs ≤ iobuf_size
        → (feed_response_bytes (some c) (some xs) ≡ (some (fed c xs), st_ok))
          × (contents (fed c xs).rx_cbuffer ≡ contents c.rx_cbuffer ++ xs)
          × IsWellFormed (fed c xs))
      × (iobuf_size < length (contents c.rx_cbuffer) + length xs
          → feed_response_bytes (some c) (some xs) ≡ (some c, err_too_small))
unfolding feed_response_bytes feed_on require_acquired
feed_response_bytes_lem c xs w used bytes small = (
  λ room.
      let f =
        feed_loop_lem xs c.rx_cbuffer w.ring
          (omega (arith, length-contents c.rx_cbuffer, w.capacity)) in
      (
        ground (arith, f.accepted, length-contents c.rx_cbuffer),
        f.held,
        record {
          storage = record {
            values_length = w.storage.values_length;
            buffer_length = omega (arith, f.valid.storage, f.same_capacity, w.capacity);
          };
          ring = f.valid;
          capacity = f.same_capacity ∙ w.capacity;
          bytes =
              subst AreBytes (sym f.held)
                (AreBytes-append (contents c.rx_cbuffer) xs w.bytes bytes);
          count_fits = w.count_fits;
          address_fits = w.address_fits;
          device_known = w.device_known;
          command_known = w.command_known;
          header_known = w.header_known;
          serial_fits = w.serial_fits;
          next_serial_fits = w.next_serial_fits;
        },
      ),
  λ over. ground (arith, length-contents c.rx_cbuffer),
)

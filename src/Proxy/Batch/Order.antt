-- ===== src/Proxy/Batch/Order.antt =====
-- timedBatchWriter of backend/internal/proxy/websocket_relay.go hands on exactly the bytes that it
-- is given, in their order.
use proxy_forge.Prelude.{
  ℕ, zero, suc, ◌+◌, ◌-◌, ◌≤◌, ◌<◌, ◌≡◌, refl, sym, ap, ◌∙◌, subst, ◌⊎◌, inl, inr, Option, none,
  some, [], ◌∷◌, ◌++◌, append_assoc, append-nil, arith, length, take, drop, length-append,
  take-append-drop, length-take, length-drop, Bytes,
}
use proxy_forge.Io.{Error, out_of_fuel}
use proxy_forge.Proxy.Batch.{
  cancel_flush, flush_locked, flush, space, buffer_chunk, flush_if_full, write_rounds, write,
  BatchWriter,
}
use proxy_forge.Proxy.Batch.Flush.{taken, flush_locked-Flushed, Flushed}
use proxy_forge.Proxy.Batch.Invariant.{flush-none, flush-some, IsReady}
use proxy_forge.Proxy.Batch.Rounds.{Fails, buffer_chunk-Buffered, flush_if_full-Step, Step}

-- The outcomes of a call of Write: all is taken, or the writer has failed.
pub data Written (p : Bytes) (done : ℕ) (w : BatchWriter)
    : (ℕ × Option Error) × BatchWriter → Type 0 where
  all :
      (w' : BatchWriter)
      → w'.failure ≡ none
      → IsReady w'
      → taken w' ≡ taken w ++ p
      → Written p done w ((done + length p, none), w')
  broken :
      (n : ℕ) (x : Error) (w' : BatchWriter)
      → w'.failure ≡ some x
      → ¬ (x ≡ out_of_fuel)
      → IsReady w'
      → Written p done w ((n, some x), w')

-- How much a round takes: something, and no more than there is and than fits.
space_bounds :
    (w : BatchWriter) (b : ℕ) (p : Bytes)
    → length w.buf < w.max_size
    → (n : ℕ) × (space w (b ∷ p) ≡ suc n) × (n ≤ length p) × (length w.buf + suc n ≤ w.max_size)
space_bounds w b p h = (space w (b ∷ p) - 1, ground arith, ground arith, ground arith)

write_rounds-Written :
    (fuel : ℕ) (p : Bytes) (done : ℕ) (w : BatchWriter)
    → length p ≤ fuel
    → w.failure ≡ none
    → IsReady w
    → Written p done w (write_rounds fuel p done w)
unfolding write_rounds Fails
write_rounds-Written fuel [] done w enough h v =
    subst (λ n. Written [] done w ((n, none), w)) (omega arith)
      (all w h v (sym (append-nil (taken w))))
write_rounds-Written zero (b ∷ p) done w enough h v = absurd (omega arith)
write_rounds-Written (suc fuel) (b ∷ p) done w enough h v =
    by_space (write_rounds-Written fuel) (space_bounds w b p (v.room h))
  where
    Rest : Type 0
    Rest =
        (q : Bytes) (k : ℕ) (u : BatchWriter)
        → length q ≤ fuel
        → u.failure ≡ none
        → IsReady u
        → Written q k u (write_rounds fuel q k u)

    after : ℕ → Option Error × BatchWriter → (ℕ × Option Error) × BatchWriter
    after n r = elim r.0 [
      | some x ↦ ((done + n, some x), r.1)
      | none ↦ write_rounds fuel (drop n (b ∷ p)) (done + n) r.1
    ]

    extend :
        (n : ℕ) (w' : BatchWriter) {r : (ℕ × Option Error) × BatchWriter}
        → n ≤ length p
        → taken w' ≡ taken w ++ (b ∷ take n p)
        → Written (drop n p) (done + suc n) w' r
        → Written (b ∷ p) done w r
    extend n w' fits e (all w'' alive ready same) =
        subst (λ k. Written (b ∷ p) done w ((k, none), w'')) (ground (arith, length-drop n p))
          (all w'' alive ready (
            same
            ∙ ap (λ q. q ++ drop n p) e
            ∙ append_assoc (taken w) (b ∷ take n p) (drop n p)
            ∙ ap (λ q. taken w ++ (b ∷ q)) (take-append-drop n p)))
    extend n w' fits e (broken k x w'' dead why ready) = broken k x w'' dead why ready

    by_step :
        Rest
        → (n : ℕ) (r : Option Error × BatchWriter) → n ≤ length p
        → Step (b ∷ take n p) w r ⊎ Fails r
        → Written (b ∷ p) done w (after (suc n) r)
    by_step rest n (none, w') fits (inl s) =
        extend n w' fits s.added
          (rest (drop n p) (done + suc n) w' (ground (arith, length-drop n p)) s.alive s.ready)
    by_step rest n (some x, w') fits (inl s) = cc (s.no_error)
    by_step rest n (none, w') fits (inr (x, e, dead, why, ready)) = cc (e)
    by_step rest n (some y, w') fits (inr (x, e, dead, why, ready)) =
        broken (done + suc n) y w' (dead ∙ sym e) (λ q. why (cc)) ready

    by_space :
        Rest
        → ((n : ℕ) × (space w (b ∷ p) ≡ suc n)
            × (n ≤ length p)
            × (length w.buf + suc n ≤ w.max_size))
        → Written (b ∷ p) done w (
            after
              (space w (b ∷ p))
              (flush_if_full (buffer_chunk (take (space w (b ∷ p)) (b ∷ p)) w)))
    by_space rest (n, e, fits, room) = rw e (
        by_step rest n _ fits (
          flush_if_full-Step (b ∷ take n p) w (buffer_chunk (b ∷ take n p) w) v.positive
            (ground (arith, length-append w.buf (b ∷ take n p), length-take n p))
            (buffer_chunk-Buffered b (take n p) w h v)))

-- Write on a ready writer that has not failed takes its whole argument, at the end of what it has taken
-- before, and leaves the writer ready; or a write to the connection failed, which the writer
-- remembers. The rounds of its loop are never used up.
pub write-Written :
    (p : Bytes) (w : BatchWriter) → w.failure ≡ none → IsReady w → Written p 0 w (write p w)
unfolding write
write-Written p w h v = by_failure w.failure h
  where
    by_failure :
        (f : Option Error)
        → f ≡ none
        → Written p 0 w
            (elim f [ some e ↦ ((0, some e), w) | none ↦ write_rounds (length p) p 0 w ])
    by_failure none e = write_rounds-Written (length p) p 0 w (omega arith) h v
    by_failure (some x) e = cc (e)

flush_sends : (w w' : BatchWriter) → flush w ≡ (none, w') → w'.dst.sent ≡ taken w
unfolding cancel_flush
flush_sends w w' h = by_failure w.failure refl
  where
    by_outcome :
        Flushed (cancel_flush w) (flush_locked (cancel_flush w))
        → flush_locked (cancel_flush w) ≡ (none, w')
        → w'.dst.sent ≡ taken w
    by_outcome f q = elim f.outcome [
      | inl (e, alive, same) ↦
          subst (λ r. r.1.dst.sent ≡ taken w) q
            (sym (append-nil (flush_locked (cancel_flush w)).1.dst.sent)
              ∙ subst (λ b. (flush_locked (cancel_flush w)).1.dst.sent ++ b ≡ taken w) f.emptied
                  same)
      | inr (x, e, dead, why) ↦ cc
    ]

    by_failure : (f : Option Error) → w.failure ≡ f → w'.dst.sent ≡ taken w
    by_failure none e =
        by_outcome (flush_locked-Flushed (cancel_flush w) e) (sym (flush-none w e) ∙ h)
    by_failure (some x) e = cc (h, flush-some w x e)

pub write-some :
    (p : Bytes) (w : BatchWriter) (x : Error) → w.failure ≡ some x → write p w ≡ ((0, some x), w)
unfolding write
write-some p w x h = by_failure w.failure h
  where
    by_failure :
        (f : Option Error)
        → f ≡ some x
        → (elim f [ some e ↦ ((0, some e), w) | none ↦ write_rounds (length p) p 0 w ])
          ≡ ((0, some x), w)
    by_failure none e = cc (e)
    by_failure (some y) e = cc (e)

-- A successful Write and a successful Flush send what waited before, then exactly the bytes given.
pub flush-write :
    (p : Bytes) (w w₁ w₂ : BatchWriter) (n : ℕ)
    → IsReady w
    → write p w ≡ ((n, none), w₁)
    → flush w₁ ≡ (none, w₂)
    → (n ≡ length p) × (w₂.dst.sent ≡ taken w ++ p)
flush-write p w w₁ w₂ n v h f = by_failure w.failure refl
  where
    by_written :
        (r : (ℕ × Option Error) × BatchWriter)
        → Written p 0 w r
        → r ≡ ((n, none), w₁)
        → (n ≡ length p) × (w₂.dst.sent ≡ taken w ++ p)
    by_written _ (all w' alive ready same) e =
        (omega (arith, ap (λ r. r.0.0) e), flush_sends w₁ w₂ f ∙ ap (λ r. taken r.1) (sym e) ∙ same)
    by_written _ (broken k x w' dead why ready) e = cc (e)

    by_failure : (e : Option Error) → w.failure ≡ e → (n ≡ length p) × (w₂.dst.sent ≡ taken w ++ p)
    by_failure none e = by_written (write p w) (write-Written p w e v) h
    by_failure (some x) e = cc (h, write-some p w x e)

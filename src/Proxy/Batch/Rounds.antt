-- ===== src/Proxy/Batch/Rounds.antt =====
-- What one round of timedBatchWriter.Write (backend/internal/proxy/websocket_relay.go) does.
use mathlib.Core.Path.{subst₂}
use proxy_forge.Prelude.{
  ℕ, ◌≤◌, ◌<◌, ◌≡◌, refl, sym, ap, ◌∙◌, subst, ◌⊎◌, inl, inr, Bool, true, false, Option, none, some,
  [], ◌∷◌, ◌++◌, append_assoc, arith, ◌==◌, if◌then◌else◌, length, Bytes, is_empty,
}
use proxy_forge.Io.{Error, out_of_fuel}
use proxy_forge.Proxy.Batch.{
  schedule_flush, cancel_flush, flush_locked, buffer_chunk, flush_if_full, BatchWriter,
}
use proxy_forge.Proxy.Batch.Flush.{taken, flush_locked-Flushed, Flushed}
use proxy_forge.Proxy.Batch.Invariant.{flush_locked-IsReady, IsReady}

-- The writer has failed, for a reason that it remembers.
unfoldable pub Fails : Option Error × BatchWriter → Type 0
Fails r =
    (x : Error) × (r.0 ≡ some x) × (r.1.failure ≡ some x) × (¬ (x ≡ out_of_fuel)) × IsReady r.1

-- One round that adds `chunk` to what was taken.
pub record Step (chunk : Bytes) (w : BatchWriter) (r : Option Error × BatchWriter) : Type 0 where
  pub no_error : r.0 ≡ none
  pub alive : r.1.failure ≡ none
  pub ready : IsReady r.1
  pub added : taken r.1 ≡ taken w ++ chunk

-- What a round leaves in the buffer: some bytes, at most as many as fit, and an armed timer.
pub record Buffered (chunk : Bytes) (w w' : BatchWriter) : Type 0 where
  pub alive : w'.failure ≡ none
  pub size : w'.max_size ≡ w.max_size
  pub same_dst : w'.dst ≡ w.dst
  pub bytes : w'.buf ≡ w.buf ++ chunk
  pub armed : w'.timer ≡ some w'.generation
  pub nonempty : is_empty w'.buf ≡ false

-- A writer is the record of what its buffer, its timer and its failure are known to be.
as_known {ℓ} :
    (P : BatchWriter → Type ℓ) (w : BatchWriter) {buf : Bytes} {timer : Option ℕ}
    {failure : Option Error}
    → w.buf ≡ buf
    → w.timer ≡ timer
    → w.failure ≡ failure
    → P (record w { buf = buf; timer = timer; failure = failure })
    → P w
as_known P w {buf} {timer} b t f p =
    subst (λ x. P (record w { buf = x })) (sym b)
      (subst (λ x. P (record w { buf = buf; timer = x })) (sym t)
        (subst (λ x. P (record w { buf = buf; timer = timer; failure = x })) (sym f) p))

pub buffer_chunk-Buffered :
    (b : ℕ) (chunk : Bytes) (w : BatchWriter)
    → w.failure ≡ none
    → IsReady w
    → Buffered (b ∷ chunk) w (buffer_chunk (b ∷ chunk) w)
unfolding buffer_chunk schedule_flush is_empty
buffer_chunk-Buffered b chunk w h v = by_buf w.buf refl
  where
    by_buf : (q : Bytes) → w.buf ≡ q → Buffered (b ∷ chunk) w (buffer_chunk (b ∷ chunk) w)
    by_buf [] e =
        as_known (λ u. Buffered (b ∷ chunk) u (buffer_chunk (b ∷ chunk) u)) w e
          (v.idle (ap is_empty e)) h
          (record {
            alive = refl;
            size = refl;
            same_dst = refl;
            bytes = refl;
            armed = refl;
            nonempty = refl;
          })
    by_buf (x ∷ q) e =
        as_known (λ u. Buffered (b ∷ chunk) u (buffer_chunk (b ∷ chunk) u)) w e
          (v.armed h (ap is_empty e)) h
          (record {
            alive = refl;
            size = refl;
            same_dst = refl;
            bytes = refl;
            armed = refl;
            nonempty = refl;
          })

-- The rest of a round: a buffer that is full now is sent.
pub flush_if_full-Step :
    (chunk : Bytes) (w w' : BatchWriter)
    → 0 < w.max_size
    → length (w.buf ++ chunk) ≤ w.max_size
    → Buffered chunk w w'
    → Step chunk w (flush_if_full w') ⊎ Fails (flush_if_full w')
unfolding flush_if_full cancel_flush is_empty Fails
flush_if_full-Step chunk w w' size fits r = by_test (length w'.buf == w'.max_size) refl
  where
    w'' : BatchWriter
    w'' = cancel_flush w'

    same_taken : taken w'' ≡ taken w ++ chunk
    same_taken = rw (r.bytes, r.same_dst) (sym (append_assoc w.dst.sent w.buf chunk))

    by_outcome :
        Flushed w'' (flush_locked w'') → Step chunk w (flush_locked w'') ⊎ Fails (flush_locked w'')
    by_outcome f = elim f.outcome [
      | inl (e, alive, same) ↦ inl (record {
        no_error = e;
        alive = alive;
        ready = flush_locked-IsReady w'' (rw (r.size) size) refl;
        added = same ∙ same_taken;
      })
      | inr (x, e, dead, why) ↦
          inr (x, e, dead, why, flush_locked-IsReady w'' (rw (r.size) size) refl)
    ]

    by_test :
        (t : Bool)
        → (length w'.buf == w'.max_size) ≡ t
        → Step chunk w (if t then flush_locked w'' else (none, w'))
          ⊎ Fails (if t then flush_locked w'' else (none, w'))
    by_test true q = by_outcome (flush_locked-Flushed w'' r.alive)
    by_test false q = inl (record {
      no_error = refl;
      alive = r.alive;
      ready = record {
        positive = rw (r.size) size;
        room = λ h.
            subst₂ (λ b m. length b < m) (sym r.bytes) (sym r.size)
              (ground (arith, q, fits, r.bytes, r.size));
        armed = λ h e. r.armed;
        idle = λ e. cc (e, r.nonempty);
      };
      added = same_taken;
    })

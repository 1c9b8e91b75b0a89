-- ===== src/Proxy/Batch/Flush.antt =====
-- What flushLocked of backend/internal/proxy/websocket_relay.go leaves behind.
use proxy_forge.Prelude.{
  ℕ, ◌≡◌, refl, sym, ◌∙◌, subst, ◌⊎◌, inl, inr, Option, none, some, [], ◌∷◌, ◌++◌, append-nil,
  Bytes, is_empty,
}
use proxy_forge.Io.{Error, out_of_fuel, Result, ok, err}
use proxy_forge.Io.Writers.{write_full, write_full_ok, write_full_fuel, Writer}
use proxy_forge.Proxy.Batch.{sent_to, flush_locked, BatchWriter}

-- Everything that the writer has taken, in order: what it has sent, then what still waits.
abbrev pub taken : BatchWriter → Bytes
taken w = w.dst.sent ++ w.buf

-- A flush empties the buffer, and either it sends all of it or it fails for good.
pub record Flushed (w : BatchWriter) (r : Option Error × BatchWriter) : Type 0 where
  pub emptied : r.1.buf ≡ []
  pub same_timer : r.1.timer ≡ w.timer
  pub same_generation : r.1.generation ≡ w.generation
  pub same_size : r.1.max_size ≡ w.max_size
  pub outcome :
      ((r.0 ≡ none) × (r.1.failure ≡ none) × (taken r.1 ≡ taken w))
      ⊎ ((x : Error) × (r.0 ≡ some x) × (r.1.failure ≡ some x) × ¬ (x ≡ out_of_fuel))

sent_to-Flushed :
    (w : BatchWriter) (r : Result (Unit {0}) × Writer)
    → w.failure ≡ none
    → write_full w.buf w.dst ≡ r
    → Flushed w (sent_to w r)
sent_to-Flushed w (ok tt, dst) h q = record {
  emptied = refl;
  same_timer = refl;
  same_generation = refl;
  same_size = refl;
  outcome = inl (refl, h, append-nil dst.sent ∙ write_full_ok w.buf w.dst dst q);
}
sent_to-Flushed w (err x, dst) h q = record {
  emptied = refl;
  same_timer = refl;
  same_generation = refl;
  same_size = refl;
  outcome = inr (x, refl, refl, write_full_fuel w.buf w.dst x dst q);
}

flush_fields :
    (dst : Writer) (buf : Bytes) (size : ℕ) (timer : Option ℕ) (generation : ℕ)
    → let w : BatchWriter = record {
      dst = dst;
      buf = buf;
      max_size = size;
      timer = timer;
      generation = generation;
      failure = none;
    } in
      Flushed w (flush_locked w)
unfolding flush_locked is_empty
flush_fields dst [] size timer generation = record {
  emptied = refl;
  same_timer = refl;
  same_generation = refl;
  same_size = refl;
  outcome = inl (refl, refl, refl);
}
flush_fields dst (b ∷ buf) size timer generation =
    sent_to-Flushed _ (write_full (b ∷ buf) dst) refl refl

pub flush_locked-Flushed : (w : BatchWriter) → w.failure ≡ none → Flushed w (flush_locked w)
flush_locked-Flushed w h =
    subst (λ f. Flushed (record w { failure = f }) (flush_locked (record w { failure = f })))
      (sym h) (flush_fields w.dst w.buf w.max_size w.timer w.generation)

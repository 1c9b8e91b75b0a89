-- ===== src/Proxy/Batch/Invariant.antt =====
-- Bytes that wait in the buffer of websocket_relay.go's timedBatchWriter always have a timer that
-- will send them.
use mathlib.Core.Path.{subst₂}
use proxy_forge.Prelude.{
  ℕ, ◌<◌, ◌≡◌, refl, sym, ◌∙◌, Bool, true, false, Option, none, some, arith, ◌==◌, if◌then◌else◌,
  length, is_empty,
}
use proxy_forge.Io.{Error}
use proxy_forge.Io.Writers.{Writer}
use proxy_forge.Proxy.Batch.{new_batch_writer, cancel_flush, flush_locked, flush, fire, BatchWriter}
use proxy_forge.Proxy.Batch.Flush.{flush_locked-Flushed, Flushed}

-- While no write has failed: the buffer is never left full, it is empty exactly if no timer is
-- armed, and an armed timer is of the current generation, so that its callback will act.
pub record IsReady (w : BatchWriter) : Type 0 where
  pub positive : 0 < w.max_size
  pub room : w.failure ≡ none → length w.buf < w.max_size
  pub armed : w.failure ≡ none → is_empty w.buf ≡ false → w.timer ≡ some w.generation
  pub idle : is_empty w.buf ≡ true → w.timer ≡ none

pub new_batch_writer-IsReady :
    (dst : Writer) (max_size : ℕ) → IsReady (new_batch_writer dst max_size)
unfolding new_batch_writer is_empty
new_batch_writer-IsReady dst max_size = ground arith

-- A flush of a writer whose timer was stopped leaves one that is ready.
pub Flushed-IsReady :
    (w : BatchWriter) (r : Option Error × BatchWriter)
    → 0 < w.max_size
    → w.timer ≡ none
    → Flushed w r
    → IsReady r.1
unfolding is_empty
Flushed-IsReady w r size stopped f = record {
  positive = rw (f.same_size) size;
  room = λ h. subst₂ (λ b m. length b < m) (sym f.emptied) (sym f.same_size) size;
  armed = λ h q. cc;
  idle = λ h. f.same_timer ∙ stopped;
}

pub flush-none : (w : BatchWriter) → w.failure ≡ none → flush w ≡ flush_locked (cancel_flush w)
unfolding flush cancel_flush
flush-none w h = simp (h)

pub flush-some :
    (w : BatchWriter) (x : Error) → w.failure ≡ some x → flush w ≡ (some x, cancel_flush w)
unfolding flush cancel_flush
flush-some w x h = simp (h)

flush_locked-some :
    (w : BatchWriter) (x : Error) → w.failure ≡ some x → flush_locked w ≡ (some x, w)
unfolding flush_locked
flush_locked-some w x h = simp (h)

pub flush-IsReady : (w : BatchWriter) → IsReady w → IsReady (flush w).1
unfolding cancel_flush
flush-IsReady w v = by_failure w.failure refl
  where
    by_failure : (f : Option Error) → w.failure ≡ f → IsReady (flush w).1
    by_failure none h = rw (flush-none w h) (
        Flushed-IsReady (cancel_flush w) (flush_locked (cancel_flush w)) v.positive refl
          (flush_locked-Flushed (cancel_flush w) h))
    by_failure (some x) h =
        rw (flush-some w x h)
          (record { positive = v.positive; room = λ q. cc; armed = λ q. cc; idle = λ q. refl })

pub flush_locked-IsReady :
    (w : BatchWriter) → 0 < w.max_size → w.timer ≡ none → IsReady (flush_locked w).1
flush_locked-IsReady w size stopped = by_failure w.failure refl
  where
    by_failure : (f : Option Error) → w.failure ≡ f → IsReady (flush_locked w).1
    by_failure none h = Flushed-IsReady w (flush_locked w) size stopped (flush_locked-Flushed w h)
    by_failure (some x) h =
        rw (flush_locked-some w x h)
          (record { positive = size; room = λ q. cc; armed = λ q. cc; idle = λ q. stopped })

-- A timer that fires late, for an older generation, changes nothing.
pub fire-IsReady : (generation : ℕ) (w : BatchWriter) → IsReady w → IsReady (fire generation w)
unfolding fire
fire-IsReady generation w v = by_test (generation == w.generation)
  where
    by_test : (b : Bool) → IsReady (if b then (flush_locked (record w { timer = none })).1 else w)
    by_test true = flush_locked-IsReady (record w { timer = none }) v.positive refl
    by_test false = v

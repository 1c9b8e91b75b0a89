-- ===== src/Proxy/Batch/Reachable.antt =====
-- Every order of calls and timers on a timedBatchWriter of websocket_relay.go.
use proxy_forge.Prelude.{ℕ, ◌≡◌, refl, sym, subst, Option, none, some, List, [], ◌∷◌, Bytes}
use proxy_forge.Io.{Error}
use proxy_forge.Io.Writers.{Writer}
use proxy_forge.Proxy.Batch.{new_batch_writer, flush, fire, write, BatchWriter}
use proxy_forge.Proxy.Batch.Invariant.{
  new_batch_writer-IsReady, flush-IsReady, fire-IsReady, IsReady,
}
use proxy_forge.Proxy.Batch.Order.{write-Written, write-some, Written, all, broken}

-- What happens to a writer: calls of its two methods, and timers that fire, each of them at any time
-- behind the one that armed it.
pub data Call : Type 0 where
  writes : Bytes → Call
  flushes : Call
  fires : ℕ → Call

unfoldable pub run : List Call → BatchWriter → BatchWriter
run [] w = w
run (writes p ∷ calls) w = run calls (write p w).1
run (flushes ∷ calls) w = run calls (flush w).1
run (fires generation ∷ calls) w = run calls (fire generation w)

write-IsReady : (p : Bytes) (w : BatchWriter) → IsReady w → IsReady (write p w).1
write-IsReady p w v = by_failure w.failure refl
  where
    by_written : (r : (ℕ × Option Error) × BatchWriter) → Written p 0 w r → IsReady r.1
    by_written _ (all w' alive ready same) = ready
    by_written _ (broken n x w' dead why ready) = ready

    by_failure : (e : Option Error) → w.failure ≡ e → IsReady (write p w).1
    by_failure none e = by_written (write p w) (write-Written p w e v)
    by_failure (some x) e = subst (λ r. IsReady r.1) (sym (write-some p w x e)) v

run-IsReady : (calls : List Call) (w : BatchWriter) → IsReady w → IsReady (run calls w)
unfolding run
run-IsReady [] w v = v
run-IsReady (writes p ∷ calls) w v = run-IsReady calls (write p w).1 (write-IsReady p w v)
run-IsReady (flushes ∷ calls) w v = run-IsReady calls (flush w).1 (flush-IsReady w v)
run-IsReady (fires generation ∷ calls) w v =
    run-IsReady calls (fire generation w) (fire-IsReady generation w v)

-- However writes, flushes and firing timers follow each other on a new writer: as long as no write
-- to the connection has failed, the buffer is never left full, bytes that wait in it always have an
-- armed timer of the current generation, and an empty buffer has none.
pub run-new_batch_writer :
    (calls : List Call) (dst : Writer) (max_size : ℕ)
    → IsReady (run calls (new_batch_writer dst max_size))
run-new_batch_writer calls dst max_size =
    run-IsReady calls (new_batch_writer dst max_size) (new_batch_writer-IsReady dst max_size)

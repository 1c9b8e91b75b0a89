-- ===== src/Proxy/Batch.antt =====
-- timedBatchWriter of backend/internal/proxy/websocket_relay.go: small writes to a websocket are
-- gathered, and sent when the buffer is full, on Flush, or when a timer fires.
pub mod Flush
pub mod Invariant
pub mod Rounds
pub mod Order
pub mod Reachable
use proxy_forge.Prelude.{
  ℕ, zero, suc, ◌+◌, ◌-◌, ◌%◌, ◌^◌, Bool, true, false, ◌||◌, Option, none, some, [], ◌∷◌, ◌++◌, ltb,
  ◌==◌, if◌then◌else◌, length, take, drop, Bytes, is_empty,
}
use proxy_forge.Io.{Error, out_of_fuel, Result, ok, err}
use proxy_forge.Io.Writers.{write_full, Writer}

-- A timer is known by the generation that its callback has captured.
pub record BatchWriter : Type 0 where
  pub dst : Writer
  pub buf : Bytes
  pub max_size : ℕ
  pub timer : Option ℕ
  pub generation : ℕ
  pub failure : Option Error

-- newTimedBatchWriter; the delay of the timer is not modelled.
unfoldable pub new_batch_writer : Writer → ℕ → BatchWriter
new_batch_writer dst max_size = record {
  dst = dst;
  buf = [];
  max_size = if ltb max_size 1 then 1 else max_size;
  timer = none;
  generation = 0;
  failure = none;
}

abbrev pub is_some {ℓ} : {A : Type ℓ} → Option A → Bool
is_some none = false
is_some (some a) = true

abbrev pub next_generation : BatchWriter → ℕ
next_generation w = (w.generation + 1) % 2 ^ 64

unfoldable pub schedule_flush : BatchWriter → BatchWriter
schedule_flush w =
    if is_some w.timer || is_empty w.buf || is_some w.failure
    then w
    else record w { generation = next_generation w; timer = some (next_generation w) }

unfoldable pub cancel_flush : BatchWriter → BatchWriter
cancel_flush w = record w { generation = next_generation w; timer = none }

abbrev pub sent_to : BatchWriter → Result (Unit {0}) × Writer → Option Error × BatchWriter
sent_to w (ok a, dst) = (none, record w { dst = dst; buf = [] })
sent_to w (err e, dst) = (some e, record w { dst = dst; buf = []; failure = some e })

-- flushLocked: the buffer is emptied before its bytes are written, in as many calls as it takes.
unfoldable pub flush_locked : BatchWriter → Option Error × BatchWriter
flush_locked w =
    if is_some w.failure || is_empty w.buf
    then (w.failure, w)
    else sent_to w (write_full w.buf w.dst)

unfoldable pub flush : BatchWriter → Option Error × BatchWriter
flush w =
    let w' = cancel_flush w in if is_some w'.failure then (w'.failure, w') else flush_locked w'

-- The callback of the timer that was armed in a generation.
unfoldable pub fire : ℕ → BatchWriter → BatchWriter
fire generation w =
    if generation == w.generation then (flush_locked (record w { timer = none })).1 else w

-- How much of the slice the next round takes.
abbrev pub space : BatchWriter → Bytes → ℕ
space w p = let room = w.max_size - length w.buf in if ltb (length p) room then length p else room

-- The bytes of one round go to the buffer; the first ones arm the timer.
unfoldable pub buffer_chunk : Bytes → BatchWriter → BatchWriter
buffer_chunk chunk w =
    let w' = record w { buf = w.buf ++ chunk } in if is_empty w.buf then schedule_flush w' else w'

-- A full buffer is sent.
unfoldable pub flush_if_full : BatchWriter → Option Error × BatchWriter
flush_if_full w = if length w.buf == w.max_size then flush_locked (cancel_flush w) else (none, w)

-- The loop of Write, with the count of bytes taken. Each round takes a byte at least.
unfoldable pub write_rounds : ℕ → Bytes → ℕ → BatchWriter → (ℕ × Option Error) × BatchWriter
write_rounds fuel [] written w = ((written, none), w)
write_rounds zero (b ∷ p) written w = ((written, some out_of_fuel), w)
write_rounds (suc fuel) (b ∷ p) written w =
    let n = space w (b ∷ p) in
    let (e, w') = flush_if_full (buffer_chunk (take n (b ∷ p)) w) in
    elim e [
      | some x ↦ ((written + n, some x), w')
      | none ↦ write_rounds fuel (drop n (b ∷ p)) (written + n) w'
    ]

unfoldable pub write : Bytes → BatchWriter → (ℕ × Option Error) × BatchWriter
write p w = elim w.failure [ some e ↦ ((0, some e), w) | none ↦ write_rounds (length p) p 0 w ]

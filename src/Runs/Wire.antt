-- ===== src/Runs/Wire.antt =====
-- Runs of the agent handshake and of the batched websocket writer.
use proxy_forge.Prelude.{ℕ, ◌≡◌, refl, [], ◌∷◌, ◌++◌, length, take, Bytes, codes, str_eq, is_empty}
use proxy_forge.Io.{ok}
use proxy_forge.Io.Writers.{write_loop, write_full, Writer}
use proxy_forge.AgentProto.{udp, write_target, write_network, write_request, read_request}
use proxy_forge.AgentProto.Packets.{packet_read, packet_write}
use proxy_forge.AgentProto.Encode.{read_request-write_request}
use proxy_forge.AgentProto.Boundaries.{packet_read-packet_write}
use proxy_forge.Proxy.Batch.{
  new_batch_writer, schedule_flush, cancel_flush, flush_locked, flush, buffer_chunk, flush_if_full,
  write_rounds, write, BatchWriter,
}
use proxy_forge.Proxy.Batch.Invariant.{new_batch_writer-IsReady, IsReady}
use proxy_forge.Proxy.Batch.Reachable.{run, run-new_batch_writer, writes, flushes, fires}
use proxy_forge.Proxy.Batch.Order.{write-Written, flush-write, Written}
use proxy_forge.Runs.{silent}

abbrev target : Bytes
target = codes "a:1"

abbrev after : Bytes → Writer
after p = record { sent = p; script = [] }

read_request-write_request_example :
    (sent : Bytes) × (0x50 ∷ 0x46 ∷ 0x03 ∷ 0 ∷ 3 ∷ target ≡ [] ++ sent)
    × ((rest : Bytes) → read_request (sent ++ rest) ≡ ok ((udp, target), rest))
unfolding write_request write_network write_target write_full write_loop str_eq
read_request-write_request_example =
    read_request-write_request udp target silent (after (0x50 ∷ 0x46 ∷ 0x03 ∷ 0 ∷ 3 ∷ target)) refl

packet_read-packet_write_example :
    (sent : Bytes) × (3 ≡ length target)
    × (0 ∷ 3 ∷ target ≡ [] ++ sent)
    × ((size : ℕ) (rest : Bytes) → packet_read size (sent ++ rest) ≡ ok (take size target, rest))
unfolding packet_write write_full write_loop
packet_read-packet_write_example =
    packet_read-packet_write target 3 silent (after (0 ∷ 3 ∷ target)) refl

abbrev batch : BatchWriter
batch = new_batch_writer silent 2

batch-IsReady : IsReady batch
batch-IsReady = new_batch_writer-IsReady silent 2

write-Written_example : Written target 0 batch (write target batch)
unfolding new_batch_writer
write-Written_example = write-Written target batch refl batch-IsReady

flush-write_example : (3 ≡ length target) × ((flush (write target batch).1).1.dst.sent ≡ target)
unfolding new_batch_writer write write_rounds buffer_chunk flush_if_full flush flush_locked
    cancel_flush schedule_flush write_full write_loop is_empty
flush-write_example =
    flush-write target batch (write target batch).1 (flush (write target batch).1).1 3 batch-IsReady
      refl refl

run-new_batch_writer_example :
    IsReady (run (writes target ∷ fires 1 ∷ flushes ∷ fires 3 ∷ []) (new_batch_writer silent 2))
run-new_batch_writer_example =
    run-new_batch_writer (writes target ∷ fires 1 ∷ flushes ∷ fires 3 ∷ []) silent 2

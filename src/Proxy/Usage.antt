-- ===== src/Proxy/Usage.antt =====
-- The usage queue of manager.go: recordUsage, runUsageWriter, persistUsage and the part of Stop that
-- closes it. A send holds the read lock and Stop the write lock, so that the channel is not closed
-- while a send waits for room: the send is one step, at the time at which there is room.
pub mod Reachable
pub mod Draining
use proxy_forge.Prelude.{
  ℕ, Bool, true, false, ◌&&◌, ◌||◌, List, [], ◌∷◌, ◌++◌, ◌==◌, if◌then◌else◌, Bytes, is_empty,
}
use proxy_forge.Database.Clients.{add_client_usage, ProxyClientUsage}

abbrev pub queue_size : ℕ
queue_size = 1024

pub record ProxyUsage : Type 0 where
  pub client_ip : Bytes
  pub username : Bytes
  pub account_tag : Bytes
  pub up_bytes : ℕ
  pub down_bytes : ℕ

-- `stopped` stands for usageStopped and the closed usageDone, `ended` for the return of the writer.
-- `accepted`, `handled` and `written` record the past: what recordUsage put into the queue, what the
-- writer took out, and of that what the database stored.
pub record UsageQueue : Type 0 where
  pub queue : List ProxyUsage
  pub stopped : Bool
  pub ended : Bool
  pub clients : List (Bytes × ProxyClientUsage)
  pub accepted : List ProxyUsage
  pub handled : List ProxyUsage
  pub written : List ProxyUsage

unfoldable pub new_usage_queue : List (Bytes × ProxyClientUsage) → UsageQueue
new_usage_queue clients = record {
  queue = [];
  stopped = false;
  ended = false;
  clients = clients;
  accepted = [];
  handled = [];
  written = [];
}

-- What recordUsage ignores.
unfoldable pub is_ignored : ProxyUsage → Bool
is_ignored u = is_empty u.client_ip || (u.up_bytes == 0 && u.down_bytes == 0)

unfoldable pub record_usage : ProxyUsage → UsageQueue → UsageQueue
unfolding is_ignored
record_usage u q =
    if is_ignored u
    then q
    else if q.stopped
    then q
    else record q { queue = q.queue ++ u ∷ []; accepted = q.accepted ++ u ∷ [] }

-- `stored` says whether the statement succeeds; an error is logged.
unfoldable pub persist_usage : Bool → ℕ → ProxyUsage → UsageQueue → UsageQueue
unfolding add_client_usage
persist_usage stored now u q =
    let handled : UsageQueue = record q { handled = q.handled ++ u ∷ [] } in
    if stored
    then record handled {
      clients =
          add_client_usage u.client_ip u.username u.account_tag u.up_bytes u.down_bytes now
            q.clients;
      written = q.written ++ u ∷ [];
    }
    else handled

-- One round of the writer: it takes the next usage, or returns if the queue is empty and closed.
unfoldable pub writer_round : Bool → ℕ → UsageQueue → UsageQueue
unfolding persist_usage
writer_round stored now q = elim (q.queue) [
  | u ∷ rest ↦ persist_usage stored now u (record q { queue = rest })
  | [] ↦ if q.stopped then record q { ended = true } else q
]

unfoldable pub stop : UsageQueue → UsageQueue
stop q = record q { stopped = true }

-- ===== src/AgentHub.antt =====
-- backend/internal/agenthub/hub.go: the sessions of remote agents that are online. The map of the hub
-- and the sessions it points to are a store, in which a session is known by a number. What runs
-- between two holds of the mutex is a step of its own.
pub mod Stream
pub mod Handshake
pub mod Store
pub mod Sound
pub mod Leaving
pub mod Entering
pub mod Reachable
pub mod Resolving
use proxy_forge.Prelude.{
  ℕ, ◌+◌, ◌/◌, Bool, true, false, not, ◌&&◌, ◌||◌, Option, none, some, List, [], ◌++◌, ltb, ◌==◌,
  if◌then◌else◌, Bytes, codes, str_eq, trim_prefix, trim_space, is_empty,
}
use proxy_forge.Prelude.Assoc.{bytes_key, number_key, lookup, insert, erase}
use proxy_forge.Proxy.Dial.{Egress}
use proxy_forge.Proxy.Manager.Resolve.{node_username_prefix}
use proxy_forge.AgentHub.Stream.{supports_udp_version}

pub record Meta : Type 0 where
  pub node_id : Bytes
  pub name : Bytes
  pub public_ip : Bytes
  pub country : Bytes
  pub colo : Bytes
  pub version : Bytes
  pub agent_id : Bytes
  pub agent_name : Bytes
  pub host_public_ip : Bytes
  pub host_country : Bytes
  pub host_colo : Bytes
  pub egress_index : ℕ

-- agentConn: whether its session was closed by the hub, and its counters. `left` is where its
-- goroutine stands: behind the deletion from the map.
pub record AgentConn : Type 0 where
  pub meta : Meta
  pub connected_at : ℕ
  pub last_ping_ms : ℕ
  pub tx_bytes : ℕ
  pub rx_bytes : ℕ
  pub closed : Bool
  pub left : Bool

-- The map by node, and all sessions ever accepted.
pub record Hub : Type 0 where
  pub agents : List (Bytes × ℕ)
  pub conns : List (ℕ × AgentConn)
  pub next : ℕ

unfoldable pub new_hub : Hub
new_hub = record { agents = []; conns = []; next = 0 }

unfoldable pub new_conn : Meta → ℕ → AgentConn
new_conn meta now = record {
  meta = meta;
  connected_at = now;
  last_ping_ms = 0;
  tx_bytes = 0;
  rx_bytes = 0;
  closed = false;
  left = false;
}

-- A change of one session, where it is known.
unfoldable pub adjust : ℕ → (AgentConn → AgentConn) → List (ℕ × AgentConn) → List (ℕ × AgentConn)
adjust id f conns = elim (lookup id conns) [ some c ↦ insert id (f c) conns | none ↦ conns ]

abbrev pub close_conn : AgentConn → AgentConn
close_conn c = record c { closed = true }

abbrev pub leave_conn : AgentConn → AgentConn
leave_conn c = record c { left = true }

-- agentConn.close
unfoldable pub close : ℕ → Hub → Hub
close id h = record h { conns = adjust id close_conn h.conns }

abbrev pub close_old : Option ℕ → Hub → Hub
close_old none h = h
close_old (some old) h = close old h

-- Accept up to its ping loop: an old session of the node is closed, the new one takes its place. It
-- is refused without a node id, or when no yamux session comes up.
unfoldable pub register : Meta → Bool → ℕ → Hub → Option ℕ × Hub
register meta yamux_ok now h =
    if is_empty (trim_space meta.node_id) || not yamux_ok
    then (none, h)
    else let id = h.next in
      let h' = close_old (lookup meta.node_id h.agents) h in
      (
        some id,
        record h' {
          agents = insert meta.node_id id h'.agents;
          conns = insert id (new_conn meta now) h'.conns;
          next = id + 1;
        },
      )

-- Accept behind its ping loop: the session leaves the map, if the map still holds it.
unfoldable pub leave : ℕ → Meta → Hub → Hub
leave id meta h =
    let h' = record h { conns = adjust id leave_conn h.conns } in
    elim (lookup meta.node_id h.agents) [
      | some current ↦
          if current == id then record h' { agents = erase meta.node_id h.agents } else h'
      | none ↦ h'
    ]

-- A ping that was answered, in milliseconds; less than one counts as one.
unfoldable pub pinged : ℕ → ℕ → Hub → Hub
pinged id ms h = record h {
  conns = adjust id (λ c. record c { last_ping_ms = if ltb ms 1 then 1 else ms }) h.conns;
}

-- NoteDial, AddTx and AddRx of agentEgress; the time is in nanoseconds.
unfoldable pub note_dial : ℕ → ℕ → Bool → Hub → Hub
note_dial id elapsed success h =
    if success && ltb 0 elapsed
    then record h { conns = adjust id (λ c. record c { last_ping_ms = elapsed / 1000000 }) h.conns }
    else h

unfoldable pub add_tx : ℕ → ℕ → Hub → Hub
add_tx id n h = record h { conns = adjust id (λ c. record c { tx_bytes = c.tx_bytes + n }) h.conns }

unfoldable pub add_rx : ℕ → ℕ → Hub → Hub
add_rx id n h = record h { conns = adjust id (λ c. record c { rx_bytes = c.rx_bytes + n }) h.conns }

-- agentEgress as an outbound: Tag, Kind and SupportsUDP.
unfoldable pub agent_egress_of : AgentConn → Egress
agent_egress_of c = record {
  tag = node_username_prefix ++ c.meta.node_id;
  kind = codes "agent-warp";
  supports_udp = supports_udp_version c.meta.version;
}

unfoldable pub conn_of : Hub → Option ℕ → Option AgentConn
conn_of h none = none
conn_of h (some id) = lookup id h.conns

unfoldable pub egress_of_conn : Option AgentConn → Option Egress
egress_of_conn none = none
egress_of_conn (some c) = some (agent_egress_of c)

-- ResolveEgress
unfoldable pub resolve_egress : Hub → Bytes → Option Egress
resolve_egress h username =
    let node_id = trim_prefix username node_username_prefix in
    if str_eq node_id username then none else egress_of_conn (conn_of h (lookup node_id h.agents))

-- IsOnline
unfoldable pub is_online : Hub → Bytes → Bool
is_online h node_id = elim (lookup node_id h.agents) [ some id ↦ true | none ↦ false ]

-- ===== src/Runs/Agents.antt =====
-- Runs of the agent hub: a node that reconnects, and a dial over its session.
use proxy_forge.Prelude.{
  ◌≡◌, refl, true, not, ◌||◌, some, [], ◌∷◌, Bytes, codes, str_eq, trim_space, is_empty,
}
use proxy_forge.Prelude.Assoc.{bytes_key, number_key, lookup, insert}
use proxy_forge.Prelude.Decimal.{atoi}
use proxy_forge.Io.{read_full}
use proxy_forge.Io.Writers.{write_loop, write_full, Writer}
use proxy_forge.AgentProto.{udp, write_target, write_network, write_request, read_status}
use proxy_forge.AgentHub.{new_hub, new_conn, adjust, close, register, leave, Meta, AgentConn, Hub}
use proxy_forge.AgentHub.Stream.{supports_udp_version, request, dial_context, packets}
use proxy_forge.AgentHub.Handshake.{Reads, IsAnswered, read_request-dial_context}
use proxy_forge.AgentHub.Sound.{IsSound}
use proxy_forge.AgentHub.Reachable.{reachable-IsSound, accepts, leaves, Reaches, here, onward}
use proxy_forge.Runs.{silent}

abbrev node_meta : Meta
node_meta = record {
  node_id = codes "7";
  name = codes "vps";
  public_ip = [];
  country = [];
  colo = [];
  version = codes "2";
  agent_id = [];
  agent_name = [];
  host_public_ip = [];
  host_country = [];
  host_colo = [];
  egress_index = 0;
}

-- The node connects twice, and then its first session ends.
abbrev once : Hub
once = (register node_meta true 1 new_hub).1

abbrev twice : Hub
twice = (register node_meta true 9 once).1

abbrev first : AgentConn
first = record (new_conn node_meta 1) { closed = true }

first-known : lookup 0 twice.conns ≡ some first
unfolding register new_hub new_conn close adjust lookup insert trim_space is_empty str_eq
first-known = refl

abbrev settled : Hub
settled = leave 0 first.meta twice

to_settled : Reaches new_hub settled
unfolding new_conn
to_settled =
    onward twice settled
      (onward once twice (onward new_hub once here (accepts node_meta true 1))
        (accepts node_meta true 9))
      (leaves 0 first first-known refl)

reachable-IsSound_example : IsSound settled
unfolding new_conn
reachable-IsSound_example = reachable-IsSound settled to_settled

abbrev target : Bytes
target = codes "a:1"

abbrev asked : Writer
asked = record { sent = 0x50 ∷ 0x46 ∷ 0x03 ∷ 0 ∷ 3 ∷ target; script = [] }

read_request-dial_context_example :
    ((not (str_eq udp udp) || supports_udp_version (codes "2")) ≡ true)
    × Reads silent asked target udp
    × IsAnswered udp (0 ∷ 9 ∷ []) (packets (9 ∷ []))
unfolding dial_context request supports_udp_version trim_space atoi str_eq write_request
    write_network write_target write_full write_loop read_status read_full
read_request-dial_context_example =
    read_request-dial_context (codes "2") true udp target (0 ∷ 9 ∷ []) silent asked
      (packets (9 ∷ [])) refl refl

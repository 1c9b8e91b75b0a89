-- ===== src/Proxy/Manager/State.antt =====
-- The state of the Manager, without its mutexes: every method holds `mu` from start to end, so that
-- its body is one step. Times are nanoseconds; a float64 is its 64-bit word.
use proxy_forge.Prelude.{ℕ, Bool, false, Option, none, some, List, [], map, Bytes}
use proxy_forge.Prelude.Assoc.{bytes_key, lookup}
use proxy_forge.Proxy.Dial.{Egress}

-- IEEE 754 arithmetic on float64 words, with a decimal literal `m / 10 ^ k` and conversions.
pub record Float64 : Type 0 where
  pub fadd : ℕ → ℕ → ℕ
  pub fsub : ℕ → ℕ → ℕ
  pub fmul : ℕ → ℕ → ℕ
  pub fdiv : ℕ → ℕ → ℕ
  pub flog10 : ℕ → ℕ
  pub flt : ℕ → ℕ → Bool
  pub fle : ℕ → ℕ → Bool
  pub feq : ℕ → ℕ → Bool
  pub of_nat : ℕ → ℕ
  pub literal : ℕ → ℕ → ℕ

pub record Config : Type 0 where
  pub tag : Bytes
  pub private_key : Bytes
  pub client_id : Bytes
  pub peer_public_key : Bytes
  pub local_addr_v4 : Bytes
  pub local_addr_v6 : Bytes
  pub endpoint_host : Bytes
  pub endpoint_port : ℕ
  pub mtu : ℕ
  pub listen_port : ℕ
  pub is_keeper : Bool
  pub transport_mode : Bytes
  pub ip_family : Bytes
  pub dns_mode : Bytes
  pub masque_private_key : Bytes
  pub masque_endpoint_pub_key : Bytes
  pub masque_endpoint_v4 : Bytes
  pub masque_endpoint_v6 : Bytes

-- A running tunnel; `id` stands for the pointer, by which two of them are told apart.
pub record Tunnel : Type 0 where
  pub id : ℕ
  pub cfg : Config
  pub transport : Bytes
  pub netstack : Bool
  pub tx_bytes : ℕ
  pub rx_bytes : ℕ
  pub last_dial_latency_ms : ℕ
  pub last_dial_at : ℕ
  pub dial_failures : ℕ

pub record SelectionMeta : Type 0 where
  pub public_ip : Bytes
  pub colo : Bytes
  pub is_keeper : Bool
  pub latency_ms : ℕ
  pub speed_bps : ℕ
  pub packet_loss : ℕ
  pub score : ℕ
  pub traffic_bytes : ℕ
  pub last_tested_at : Option ℕ

pub record SlotBinding : Type 0 where
  pub password : Bytes
  pub account_tag : Bytes

-- rotateAssignment: a node key and when it was assigned.
pub record RotateAssignment : Type 0 where
  pub key : Bytes
  pub assigned : ℕ

pub record AgentResolver : Type 0 where
  pub resolve_egress : Bytes → Option Egress
  pub online_egresses : List (Option Egress)

pub record Manager : Type 0 where
  pub tunnels : List (Bytes × Tunnel)
  pub meta : List (Bytes × SelectionMeta)
  pub slots : List (Bytes × SlotBinding)
  pub password : Bytes
  pub last_picked : List (Bytes × ℕ)
  pub last_picked_ip : List (Bytes × ℕ)
  pub pick_count : List (Bytes × ℕ)
  pub ip_pick_count : List (Bytes × ℕ)
  pub rotate_cursor : ℕ
  pub rotate_sticky : List (Bytes × RotateAssignment)
  pub agent_resolver : Option AgentResolver

-- A missing key of a Go map gives the zero value: here of a count, and of the selection data, whose
-- float fields are the word of 0.
abbrev pub or_zero : Option ℕ → ℕ
or_zero none = 0
or_zero (some n) = n

unfoldable pub no_meta : SelectionMeta
no_meta = record {
  public_ip = [];
  colo = [];
  is_keeper = false;
  latency_ms = 0;
  speed_bps = 0;
  packet_loss = 0;
  score = 0;
  traffic_bytes = 0;
  last_tested_at = none;
}

unfoldable pub meta_or_zero : Option SelectionMeta → SelectionMeta
unfolding no_meta
meta_or_zero none = no_meta
meta_or_zero (some m) = m

unfoldable pub meta_of : Manager → Bytes → SelectionMeta
unfolding meta_or_zero
meta_of m tag = meta_or_zero (lookup tag m.meta)

-- Tunnel.Tag, Kind and SupportsUDP.
unfoldable pub egress_of : Tunnel → Egress
egress_of t = record { tag = t.cfg.tag; kind = t.transport; supports_udp = t.netstack }

-- tunnelsAsEgress
unfoldable pub tunnels_as_egress : List Tunnel → List Egress
unfolding egress_of
tunnels_as_egress = map egress_of

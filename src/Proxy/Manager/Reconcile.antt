-- ===== src/Proxy/Manager/Reconcile.antt =====
-- Reconcile, startTunnels and StopTunnel: the running tunnels follow the active accounts. A method is
-- as many steps as it takes the lock, so that a tunnel that has been started is installed in a step
-- of its own. Closing a tunnel is not modelled.
pub mod Configs
pub mod Stopping
pub mod Exact
pub mod Reconciled
pub mod Health
use proxy_forge.Prelude.{
  ◌+◌, Bool, true, false, not, ◌&&◌, ◌||◌, Option, none, some, List, [], ◌∷◌, ◌==◌, if◌then◌else◌,
  select, Bytes, str_eq, is_empty,
}
use proxy_forge.Prelude.Assoc.{bytes_key, lookup, insert, erase}
use proxy_forge.Models.{is_active, is_active_account, Account, ProxySlot}
use proxy_forge.Database.{account_of, list_active_accounts, Store}
use proxy_forge.Proxy.Manager.State.{Config, Tunnel, SelectionMeta, SlotBinding, Manager}

-- The settings that Reconcile reads under its first lock.
pub record Settings : Type 0 where
  pub transport : Bytes
  pub ip_family : Bytes
  pub dns_mode : Bytes

-- configFromAccount, with the settings that Reconcile writes over it.
unfoldable pub config_from_account : Settings → Account → Config
config_from_account set a = record {
  tag = a.tag;
  private_key = a.private_key;
  client_id = a.client_id;
  peer_public_key = a.peer_public_key;
  local_addr_v4 = a.local_address_v4;
  local_addr_v6 = a.local_address_v6;
  endpoint_host = a.endpoint_host;
  endpoint_port = a.endpoint_port;
  mtu = a.mtu;
  listen_port = a.listen_port;
  is_keeper = a.is_ip_keeper;
  transport_mode = set.transport;
  ip_family = set.ip_family;
  dns_mode = set.dns_mode;
  masque_private_key = a.masque_private_key;
  masque_endpoint_pub_key = a.masque_endpoint_pub_key;
  masque_endpoint_v4 = a.masque_endpoint_v4;
  masque_endpoint_v6 = a.masque_endpoint_v6;
}

unfoldable pub meta_from_account : Account → SelectionMeta
meta_from_account a = record {
  public_ip = a.last_public_ip;
  colo = a.last_colo;
  is_keeper = a.is_ip_keeper;
  latency_ms = a.last_latency_ms;
  speed_bps = a.last_speed_bps;
  packet_loss = a.last_packet_loss;
  score = a.last_score;
  traffic_bytes = a.traffic_up + a.traffic_down;
  last_tested_at = a.last_tested_at;
}

-- `==` and `!=` on Config compare every field.
abbrev pub same_bool : Bool → Bool → Bool
same_bool true c = c
same_bool false c = not c

unfoldable pub same_keys : Config → Config → Bool
same_keys a b =
    str_eq a.tag b.tag
    && str_eq a.private_key b.private_key
    && str_eq a.client_id b.client_id
    && str_eq a.peer_public_key b.peer_public_key
    && str_eq a.local_addr_v4 b.local_addr_v4
    && str_eq a.local_addr_v6 b.local_addr_v6

unfoldable pub same_endpoint : Config → Config → Bool
same_endpoint a b =
    str_eq a.endpoint_host b.endpoint_host
    && a.endpoint_port == b.endpoint_port
    && a.mtu == b.mtu
    && a.listen_port == b.listen_port
    && same_bool a.is_keeper b.is_keeper
    && str_eq a.transport_mode b.transport_mode

unfoldable pub same_masque : Config → Config → Bool
same_masque a b =
    str_eq a.ip_family b.ip_family
    && str_eq a.dns_mode b.dns_mode
    && str_eq a.masque_private_key b.masque_private_key
    && str_eq a.masque_endpoint_pub_key b.masque_endpoint_pub_key
    && str_eq a.masque_endpoint_v4 b.masque_endpoint_v4
    && str_eq a.masque_endpoint_v6 b.masque_endpoint_v6

unfoldable pub config_eq : Config → Config → Bool
unfolding same_keys same_endpoint same_masque
config_eq a b = same_keys a b && same_endpoint a b && same_masque a b

-- The maps `desired`, `nextMeta` and `nextSlots`.
unfoldable pub desired_of : Settings → List Account → List (Bytes × Config) → List (Bytes × Config)
unfolding config_from_account
desired_of set [] desired = desired
desired_of set (a ∷ accounts) desired =
    desired_of set accounts (insert a.tag (config_from_account set a) desired)

unfoldable pub next_meta :
    List Account → List (Bytes × SelectionMeta) → List (Bytes × SelectionMeta)
unfolding meta_from_account
next_meta [] meta = meta
next_meta (a ∷ accounts) meta = next_meta accounts (insert a.tag (meta_from_account a) meta)

unfoldable pub add_slot :
    ProxySlot → Option Account → List (Bytes × SlotBinding) → List (Bytes × SlotBinding)
add_slot s none slots = slots
add_slot s (some a) slots =
    if not (is_active s) || is_empty a.tag || not (is_active_account a)
    then slots
    else insert s.username (record { password = s.password; account_tag = a.tag }) slots

unfoldable pub next_slots :
    List Account → List ProxySlot → List (Bytes × SlotBinding) → List (Bytes × SlotBinding)
unfolding add_slot account_of
next_slots accounts [] slots = slots
next_slots accounts (s ∷ rest) slots =
    next_slots accounts rest (add_slot s (account_of accounts s) slots)

-- A tunnel leaves the map, with what was counted for it.
unfoldable pub drop_tunnel : Bytes → Manager → Manager
drop_tunnel tag m = record m {
  tunnels = erase tag m.tunnels;
  last_picked = erase tag m.last_picked;
  pick_count = erase tag m.pick_count;
}

unfoldable pub is_wanted : List (Bytes × Config) → Bytes → Tunnel → Bool
unfolding config_eq
is_wanted desired tag t = elim (lookup tag desired) [
  | some want ↦ config_eq want t.cfg
  | none ↦ false
]

-- The first loop, over the tunnels as they are at its start.
unfoldable pub stop_unwanted : List (Bytes × Config) → List (Bytes × Tunnel) → Manager → Manager
unfolding is_wanted drop_tunnel
stop_unwanted desired [] m = m
stop_unwanted desired ((tag, t) ∷ tunnels) m =
    stop_unwanted desired tunnels (if is_wanted desired tag t then m else drop_tunnel tag m)

abbrev pub is_running : Manager → Bytes → Bool
is_running m tag = elim (lookup tag m.tunnels) [ some t ↦ true | none ↦ false ]

-- The map `toStart`.
unfoldable pub to_start : Manager → List (Bytes × Config) → List (Bytes × Config)
to_start m = select (λ e. not (is_running m e.0))

-- The part under the second lock.
unfoldable pub reconcile_locked : Settings → Store → Manager → Manager
unfolding stop_unwanted desired_of next_meta next_slots list_active_accounts
reconcile_locked set db m =
    let accounts = list_active_accounts db in
    stop_unwanted (desired_of set accounts []) m.tunnels
      (record m { meta = next_meta accounts []; slots = next_slots db.accounts db.slots [] })

-- What newTunnel has made of a tag and its configuration: a tunnel, or an error.
pub record Started : Type 0 where
  pub tag : Bytes
  pub cfg : Config
  pub tun : Option Tunnel

unfoldable pub no_config : Config
no_config = record {
  tag = [];
  private_key = [];
  client_id = [];
  peer_public_key = [];
  local_addr_v4 = [];
  local_addr_v6 = [];
  endpoint_host = [];
  endpoint_port = 0;
  mtu = 0;
  listen_port = 0;
  is_keeper = false;
  transport_mode = [];
  ip_family = [];
  dns_mode = [];
  masque_private_key = [];
  masque_endpoint_pub_key = [];
  masque_endpoint_v4 = [];
  masque_endpoint_v6 = [];
}

abbrev pub or_no_config : Option Config → Config
or_no_config none = no_config
or_no_config (some cfg) = cfg

unfoldable pub install : List (Bytes × Config) → Started → Option Tunnel → Manager → Manager
unfolding config_eq
install desired r none m = m
install desired r (some tun) m =
    if is_running m r.tag || not (config_eq (or_no_config (lookup r.tag desired)) r.cfg)
    then m
    else record m { tunnels = insert r.tag tun m.tunnels }

-- The loop over the results, in the order in which they arrive; `true` if some start failed.
unfoldable pub start_tunnels : List (Bytes × Config) → List Started → Manager → Bool × Manager
unfolding install
start_tunnels desired [] m = (false, m)
start_tunnels desired (r ∷ results) m =
    let rest = start_tunnels desired results (install desired r r.tun m) in
    elim (r.tun) [ none ↦ (true, rest.1) | some tun ↦ rest ]

-- `listening` is the answer of reconcileServerLocked, and `results` what the starts of `toStart` gave.
unfoldable pub reconcile : Settings → Store → Bool → List Started → Manager → Bool × Manager
unfolding reconcile_locked start_tunnels desired_of list_active_accounts
reconcile set db listening results m =
    let next = reconcile_locked set db m in
    if not listening
    then (true, next)
    else start_tunnels (desired_of set (list_active_accounts db) []) results next

unfoldable pub stop_tunnel : Bytes → Manager → Bool × Manager
unfolding drop_tunnel
stop_tunnel tag m = elim (lookup tag m.tunnels) [
  | some t ↦ (true, drop_tunnel tag m)
  | none ↦ (false, m)
]

-- ===== src/Runs/Starting.antt =====
-- A tunnel in automatic mode: two endpoints start and do not answer, and MASQUE takes over.
use proxy_forge.Prelude.{
  ◌≡◌, refl, false, none, some, [], ◌∷◌, ◌==◌, if◌then◌else◌, codes, str_eq, has_prefix, trim_space,
  to_lower, is_empty,
}
use proxy_forge.Proxy.Manager.State.{Config}
use proxy_forge.Proxy.Manager.Reconcile.{config_from_account}
use proxy_forge.Proxy.Endpoint.{
  known_warp_endpoint_hosts, known_warp_endpoint_ports, has_port, add_ports,
  endpoint_ports_in_order, prefer_ipv4, ends_in, strip_ipv6_brackets, port_or, normalize_endpoint,
  is_seen, is_usable, add_candidate, add_all, at_port, at_ports, parse_all, endpoint_candidates,
}
use proxy_forge.Proxy.Start.{
  endpoint_probe_backoff, normalize_transport_mode, has_masque_config,
  prioritize_endpoint_candidates, try_candidates, new_wire_guard_tunnel_with_policy, then_masque,
  fall_back, new_tunnel, Preference, World, started, closed,
}
use proxy_forge.Proxy.Start.Clean.{IsClean, new_tunnel-IsClean}
use proxy_forge.Runs.Slots.{first}
use proxy_forge.Runs.Endpoints.{netip, resolve_both}
use proxy_forge.Runs.Tunnels.{settings}

abbrev world : World
world = record {
  net = netip;
  ipv6_ok = false;
  resolve = resolve_both;
  start = λ c. if c.port == 443 then none else some c.port;
  probe = λ ttl t. false;
  masque = some 9;
  now = 0;
}

abbrev cfg : Config
cfg = record (config_from_account settings first) {
  transport_mode = codes " Auto ";
  masque_private_key = codes "k";
  masque_endpoint_pub_key = codes "p";
  masque_endpoint_v4 = codes "162.159.198.1";
}

abbrev no_preference : Preference
no_preference = record { value = []; failed_until = none }

-- Ports 2408, 443 and 500 are tried.
tries_three :
    (new_tunnel world cfg no_preference).events
    ≡ started 2408 ∷ closed 2408 ∷ started 500 ∷ closed 500 ∷ started 9 ∷ []
unfolding new_tunnel new_wire_guard_tunnel_with_policy try_candidates fall_back then_masque
    prioritize_endpoint_candidates endpoint_probe_backoff normalize_transport_mode has_masque_config
    endpoint_candidates normalize_endpoint strip_ipv6_brackets port_or endpoint_ports_in_order
    add_ports has_port known_warp_endpoint_ports known_warp_endpoint_hosts prefer_ipv4 at_ports
    at_port parse_all add_all add_candidate is_seen is_usable has_prefix trim_space is_empty str_eq
    ends_in to_lower config_from_account
tries_three = refl

new_tunnel-IsClean_example : IsClean (new_tunnel world cfg no_preference)
new_tunnel-IsClean_example = new_tunnel-IsClean world cfg no_preference

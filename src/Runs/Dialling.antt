-- ===== src/Runs/Dialling.antt =====
-- A dial of a name in DNS mode "system": the address of the tunnel's family cannot be dialled.
use proxy_forge.Prelude.{
  ◌≡◌, refl, none, some, [], ◌∷◌, ◌++◌, if◌then◌else◌, codes, str_eq, has_prefix, trim_space,
  to_lower, equal_fold, is_empty,
}
use proxy_forge.Proxy.Manager.State.{Tunnel}
use proxy_forge.Proxy.Family.{
  normalize_ip_family, use_system_dns, fits_family, first_of_family, is_bracket, trim_brackets_left,
  trim_brackets_right, is_address, resolve_host, resolve_system_dial_address, by_system,
  tunnel_dial, Outside,
}
use proxy_forge.Runs.Endpoints.{four, six, netip}
use proxy_forge.Runs.Tunnels.{tunnel}
use proxy_forge.Proxy.Manager.Reconcile.{config_from_account}
use proxy_forge.Runs.Slots.{first}

abbrev outside : Outside
outside = record {
  net = record netip { split_host_port = λ s. some (codes "example.com", codes "443") };
  lookup_ip_addr = λ host. some (none ∷ some six ∷ some four ∷ []);
  join_host_port = λ host port. host ++ b':' ∷ port;
  dial = λ network address. if str_eq address (codes "example.com:443") then some 6 else none;
}

abbrev resolving : Tunnel
resolving = record (tunnel 1 first) {
  cfg = record (tunnel 1 first).cfg { dns_mode = codes "System" };
}

dials_both :
    tunnel_dial outside resolving (codes "tcp") (codes "example.com:443")
    ≡ (codes "10.0.0.1:443" ∷ codes "example.com:443" ∷ [], some 6)
unfolding tunnel_dial use_system_dns resolve_system_dial_address by_system resolve_host is_address
    first_of_family fits_family normalize_ip_family trim_brackets_left trim_brackets_right
    is_bracket has_prefix trim_space is_empty str_eq to_lower equal_fold config_from_account
dials_both = refl

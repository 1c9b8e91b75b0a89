-- ===== src/Runs/Endpoints.antt =====
-- The candidates for an endpoint with an IPv4 and an IPv6 address, on a host without IPv6.
use proxy_forge.Prelude.{
  ◌≤◌, ◌<◌, refl, true, false, Option, none, some, List, [], ◌∷◌, map, length, All, Bytes, codes,
  str_eq, has_prefix, trim_space, is_empty,
}
use proxy_forge.Proxy.Endpoint.{
  max_endpoint_candidates, known_warp_endpoint_hosts, known_warp_endpoint_ports, has_port,
  add_ports, endpoint_ports_in_order, prefer_ipv4, ends_in, strip_ipv6_brackets, port_or,
  normalize_endpoint, is_seen, is_usable, add_candidate, add_all, at_port, at_ports, parse_all,
  endpoint_candidates, Addr, Netip, Candidate,
}
use proxy_forge.Proxy.Endpoint.Candidates.{AreDistinct, IsUsable, endpoint_candidates_bounds}

abbrev pub four : Addr
four = record { text = codes "10.0.0.1"; is_valid = true; is4 = true; is6 = false }

abbrev pub six : Addr
six = record { text = codes "2001:db8::1"; is_valid = true; is4 = false; is6 = true }

-- Parses no address; the text of an address with a port begins with the port.
abbrev pub netip : Netip
netip = record {
  parse_addr = λ s. none;
  split_host_port = λ s. none;
  addr_port = λ a p. p ∷ a.text;
}

abbrev pub resolve_both : Bytes → Option (List Addr)
resolve_both host = some (six ∷ four ∷ [])

abbrev expected : List Candidate
expected =
    map (λ p. record { addr = four; port = p; source = codes "configured" })
      (2408 ∷ 443 ∷ 500 ∷ 1701 ∷ 4500 ∷ 4443 ∷ 8095 ∷ 8443 ∷ [])

endpoint_candidates_bounds_example :
    (0 < length expected)
    × (length expected ≤ max_endpoint_candidates)
    × AreDistinct netip false expected
    × All (IsUsable netip false) expected
unfolding endpoint_candidates normalize_endpoint strip_ipv6_brackets port_or endpoint_ports_in_order
    add_ports has_port known_warp_endpoint_ports known_warp_endpoint_hosts prefer_ipv4 at_ports
    at_port parse_all add_all add_candidate is_seen is_usable has_prefix trim_space is_empty str_eq
    ends_in
endpoint_candidates_bounds_example =
    endpoint_candidates_bounds netip false resolve_both (codes "wg") 0 expected refl

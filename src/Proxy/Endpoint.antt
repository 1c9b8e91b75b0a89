-- ===== src/Proxy/Endpoint.antt =====
-- endpoint.go: the addresses that a tunnel tries, in order. The parsing of addresses, the lookup of
-- names and whether the host has IPv6 are given.
pub mod Candidates
use proxy_forge.Prelude.{
  ℕ, Bool, true, false, not, ◌&&◌, ◌||◌, Option, none, some, List, [], ◌∷◌, ◌++◌, map, ltb, ◌==◌,
  if◌then◌else◌, length, take, select, Bytes, codes, str_eq, has_prefix, trim_prefix, trim_space,
  is_empty,
}
use proxy_forge.Prelude.Decimal.{atoi}

-- netip.Addr, with what the code asks of it.
pub record Addr : Type 0 where
  pub text : Bytes
  pub is_valid : Bool
  pub is4 : Bool
  pub is6 : Bool

-- Functions of net and netip: ParseAddr, SplitHostPort, and the text of an address with a port.
pub record Netip : Type 0 where
  pub parse_addr : Bytes → Option Addr
  pub split_host_port : Bytes → Option (Bytes × Bytes)
  pub addr_port : Addr → ℕ → Bytes

pub record Candidate : Type 0 where
  pub addr : Addr
  pub port : ℕ
  pub source : Bytes

abbrev pub default_warp_endpoint_port : ℕ
default_warp_endpoint_port = 2408

abbrev pub max_endpoint_candidates : ℕ
max_endpoint_candidates = 48

unfoldable pub known_warp_endpoint_hosts : List Bytes
known_warp_endpoint_hosts =
    codes "162.159.192.1"
    ∷ codes "2606:4700:d0::a29f:c001"
    ∷ codes "162.159.193.1"
    ∷ codes "162.159.193.7"
    ∷ codes "162.159.193.10"
    ∷ codes "162.159.193.43"
    ∷ codes "162.159.197.1"
    ∷ codes "162.159.197.10"
    ∷ codes "188.114.96.1"
    ∷ codes "188.114.97.1"
    ∷ []

unfoldable pub known_warp_endpoint_ports : List ℕ
known_warp_endpoint_ports = 2408 ∷ 443 ∷ 500 ∷ 1701 ∷ 4500 ∷ 4443 ∷ 8095 ∷ 8443 ∷ []

unfoldable pub has_port : ℕ → List ℕ → Bool
has_port p [] = false
has_port p (q ∷ ports) = p == q || has_port p ports

-- The known ports behind the primary one, without repetition.
unfoldable pub add_ports : List ℕ → List ℕ → List ℕ
unfolding has_port
add_ports out [] = out
add_ports out (p ∷ ports) = add_ports (if has_port p out then out else out ++ p ∷ []) ports

unfoldable pub endpoint_ports_in_order : ℕ → List ℕ
unfolding add_ports known_warp_endpoint_ports
endpoint_ports_in_order primary = add_ports (primary ∷ []) known_warp_endpoint_ports

unfoldable pub prefer_ipv4 : List Addr → List Addr
prefer_ipv4 addrs = select (λ a. a.is4) addrs ++ select (λ a. not a.is4) addrs

-- strings.HasSuffix for one byte, and strings.TrimSuffix of it.
unfoldable pub ends_in : ℕ → Bytes → Bool
ends_in c [] = false
ends_in c (a ∷ []) = a == c
ends_in c (a ∷ b ∷ s) = ends_in c (b ∷ s)

unfoldable pub without_last : Bytes → Bytes
without_last [] = []
without_last (a ∷ []) = []
without_last (a ∷ b ∷ s) = a ∷ without_last (b ∷ s)

unfoldable pub strip_ipv6_brackets : Bytes → Bytes
unfolding ends_in without_last
strip_ipv6_brackets host =
    if has_prefix host (codes "[") && ends_in b']' host
    then trim_prefix (without_last host) (codes "[")
    else host

-- strconv.Atoi of a port, if it is positive.
unfoldable pub port_or : ℕ → Option (Bool × ℕ) → ℕ
port_or port none = port
port_or port (some (minus, n)) = if minus || n == 0 then port else n

-- A port that is not positive is 0.
unfoldable pub normalize_endpoint : Netip → Bytes → ℕ → Bytes × ℕ
unfolding strip_ipv6_brackets port_or
normalize_endpoint net host port =
    let trimmed = trim_space host in
    let named = if is_empty trimmed then codes "engage.cloudflareclient.com" else trimmed in
    let ported = if port == 0 then default_warp_endpoint_port else port in
    elim (net.split_host_port named) [
      | some hp ↦ (strip_ipv6_brackets hp.0, port_or ported (atoi hp.1))
      | none ↦ (strip_ipv6_brackets named, ported)
    ]

module _ (net : Netip) (ipv6_ok : Bool) where
  abbrev pub key_of : Candidate → Bytes
  key_of c = net.addr_port c.addr c.port

  unfoldable pub is_seen : Bytes → List Candidate → Bool
  is_seen key [] = false
  is_seen key (c ∷ out) = str_eq key (key_of c) || is_seen key out

  unfoldable pub is_usable : Addr → ℕ → Bool
  is_usable a p =
      if not a.is_valid || p == 0 || ltb 65535 p
      then false
      else if a.is6 && not ipv6_ok
      then false
      else true

  -- The closure `add`.
  unfoldable pub add_candidate : Candidate → List Candidate → List Candidate
  unfolding is_seen is_usable
  add_candidate c out =
      if not (is_usable c.addr c.port)
      then out
      else if is_seen (key_of c) out
      then out
      else out ++ c ∷ []

  unfoldable pub add_all : List Candidate → List Candidate → List Candidate
  unfolding add_candidate
  add_all [] out = out
  add_all (c ∷ cs) out = add_all cs (add_candidate c out)

-- The two nested loops: for every port, every address.
unfoldable pub at_port : Bytes → List Addr → ℕ → List Candidate
at_port source addrs p = map (λ a. record { addr = a; port = p; source = source }) addrs

unfoldable pub at_ports : Bytes → List Addr → List ℕ → List Candidate
unfolding at_port
at_ports source addrs [] = []
at_ports source addrs (p ∷ ports) = at_port source addrs p ++ at_ports source addrs ports

unfoldable pub parse_all : Netip → List Bytes → List Addr
parse_all net [] = []
parse_all net (h ∷ hosts) =
    let rest = parse_all net hosts in elim (net.parse_addr h) [ some a ↦ a ∷ rest | none ↦ rest ]

-- `resolve` is what ParseIP or the lookup of the host gives; none stands for its error.
unfoldable pub endpoint_candidates :
    Netip → Bool → (Bytes → Option (List Addr)) → Bytes → ℕ → Option (List Candidate)
unfolding normalize_endpoint endpoint_ports_in_order prefer_ipv4 at_ports parse_all add_all
    known_warp_endpoint_hosts
endpoint_candidates net ipv6_ok resolve host port =
    let normal = normalize_endpoint net host port in
    let ports = endpoint_ports_in_order normal.1 in
    let collect : List Addr → List Candidate = λ resolved. take max_endpoint_candidates (
      add_all net ipv6_ok
        (at_ports (codes "configured") (prefer_ipv4 resolved) ports
          ++ at_ports (codes "known-ip") (parse_all net known_warp_endpoint_hosts) ports)
        []) in
    elim (resolve normal.0) [
      | none ↦ none
      | some resolved ↦ if length (collect resolved) == 0 then none else some (collect resolved)
    ]

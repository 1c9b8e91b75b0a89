-- ===== src/Proxy/Family.antt =====
-- tunnel.go: the IP family of a tunnel, its local addresses, and the addresses that it dials when its
-- DNS mode is "system". Parsing of addresses, the lookup of a name and the dial are given.
pub mod Dialled
use proxy_forge.Prelude.{
  ℕ, Bool, true, false, not, ◌&&◌, ◌||◌, Option, none, some, List, [], ◌∷◌, ◌++◌, ◌==◌,
  if◌then◌else◌, Bytes, codes, str_eq, has_prefix, trim_space, to_lower, equal_fold, is_empty,
}
use proxy_forge.Proxy.Manager.State.{Config, Tunnel}
use proxy_forge.Proxy.Endpoint.{Addr, Netip}

unfoldable pub normalize_ip_family : Bytes → Bytes
normalize_ip_family family =
    let f = to_lower (trim_space family) in
    if str_eq f (codes "ipv6") || str_eq f (codes "v6") || str_eq f (codes "6")
    then codes "ipv6"
    else if str_eq f (codes "dual") || str_eq f (codes "both") || str_eq f (codes "all")
    then codes "dual"
    else codes "ipv4"

-- What is in front of the first slash.
unfoldable pub before_slash : Bytes → Bytes
before_slash [] = []
before_slash (a ∷ s) = let rest = before_slash s in if a == b'/' then [] else a ∷ rest

unfoldable pub parse_addr_strip_mask : Netip → Bytes → Option Addr
unfolding before_slash
parse_addr_strip_mask net s = net.parse_addr (before_slash (trim_space s))

-- One of the two addresses: none is an error, and no address is the empty list.
unfoldable pub local_addr : Netip → Bool → Bytes → Option (List Addr)
unfolding parse_addr_strip_mask
local_addr net wanted s =
    if is_empty s || not wanted
    then some []
    else elim (parse_addr_strip_mask net s) [ none ↦ none | some a ↦ some (a ∷ []) ]

unfoldable pub join_addrs : Option (List Addr) → Option (List Addr) → Option (List Addr)
join_addrs none four = none
join_addrs (some xs) none = none
join_addrs (some []) (some []) = none
join_addrs (some []) (some (y ∷ ys)) = some (y ∷ ys)
join_addrs (some (x ∷ xs)) (some ys) = some (x ∷ xs ++ ys)

unfoldable pub local_addrs_from_config : Netip → Config → Option (List Addr)
unfolding normalize_ip_family local_addr join_addrs
local_addrs_from_config net cfg =
    let family = normalize_ip_family cfg.ip_family in
    join_addrs (local_addr net (not (str_eq family (codes "ipv6"))) cfg.local_addr_v4)
      (local_addr net (not (str_eq family (codes "ipv4"))) cfg.local_addr_v6)

unfoldable pub default_mtu : ℕ → ℕ
default_mtu mtu = if mtu == 0 then 1280 else mtu

-- What is outside: LookupIPAddr with AddrFromSlice of each address, JoinHostPort and the dial of the
-- netstack.
pub record Outside : Type 0 where
  pub net : Netip
  pub lookup_ip_addr : Bytes → Option (List (Option Addr))
  pub join_host_port : Bytes → Bytes → Bytes
  pub dial : Bytes → Bytes → Option ℕ

unfoldable pub use_system_dns : Tunnel → Bool
use_system_dns t = equal_fold (trim_space t.cfg.dns_mode) (codes "system")

unfoldable pub fits_family : Bytes → Addr → Bool
fits_family family a =
    if str_eq family (codes "ipv4") && not a.is4
    then false
    else if str_eq family (codes "ipv6") && not a.is6
    then false
    else true

unfoldable pub first_of_family : Bytes → List (Option Addr) → Option Addr
unfolding fits_family
first_of_family family [] = none
first_of_family family (none ∷ addrs) = first_of_family family addrs
first_of_family family (some a ∷ addrs) =
    let rest = first_of_family family addrs in if fits_family family a then some a else rest

unfoldable pub is_bracket : ℕ → Bool
is_bracket c = c == b'[' || c == b']'

-- strings.Trim(host, "[]")
unfoldable pub trim_brackets_left : Bytes → Bytes
unfolding is_bracket
trim_brackets_left [] = []
trim_brackets_left (c ∷ s) = let rest = trim_brackets_left s in if is_bracket c then rest else c ∷ s

unfoldable pub trim_brackets_right : Bytes → Bytes
unfolding is_bracket
trim_brackets_right [] = []
trim_brackets_right (c ∷ s) =
    let rest = trim_brackets_right s in if is_empty rest && is_bracket c then [] else c ∷ rest

unfoldable pub is_address : Netip → Bytes → Bool
unfolding trim_brackets_left trim_brackets_right
is_address net host = elim (net.parse_addr (trim_brackets_right (trim_brackets_left host))) [
  | some a ↦ a.is_valid
  | none ↦ false
]

module _ (w : Outside) (t : Tunnel) where
  unfoldable pub resolve_host : Bytes × Bytes → Option Bytes
  unfolding is_address first_of_family normalize_ip_family
  resolve_host hp =
      if is_empty hp.0 || is_empty hp.1 || is_address w.net hp.0
      then none
      else elim (w.lookup_ip_addr hp.0) [
        | none ↦ none
        | some addrs ↦ elim (first_of_family (normalize_ip_family t.cfg.ip_family) addrs) [
          | none ↦ none
          | some a ↦ some (w.join_host_port a.text hp.1)
        ]
      ]

  unfoldable pub resolve_system_dial_address : Bytes → Bytes → Option Bytes
  unfolding resolve_host
  resolve_system_dial_address network address =
      if not (has_prefix network (codes "tcp")) && not (has_prefix network (codes "udp"))
      then none
      else elim (w.net.split_host_port address) [ none ↦ none | some hp ↦ resolve_host hp ]

  abbrev pub direct : Bytes → Bytes → List Bytes × Option ℕ
  direct network address = (address ∷ [], w.dial network address)

  -- The resolved address, then on an error the one that was given.
  unfoldable pub by_system : Bytes → Bytes → Option Bytes → List Bytes × Option ℕ
  by_system network address none = direct network address
  by_system network address (some resolved) = elim (w.dial network resolved) [
    | some conn ↦ (resolved ∷ [], some conn)
    | none ↦ (resolved ∷ address ∷ [], w.dial network address)
  ]

  -- The addresses that are dialled, and the connection.
  unfoldable pub tunnel_dial : Bytes → Bytes → List Bytes × Option ℕ
  unfolding use_system_dns resolve_system_dial_address by_system
  tunnel_dial network address =
      if not t.netstack
      then ([], none)
      else if use_system_dns t
      then by_system network address (resolve_system_dial_address network address)
      else direct network address

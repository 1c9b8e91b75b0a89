-- ===== src/Proxy/Family/Dialled.antt =====
-- What a dial through a tunnel reaches.
use proxy_forge.Prelude.{
  ℕ, ◌≡◌, ◌⊎◌, Bool, true, false, not, ◌||◌, Option, none, some, List, [], ◌∷◌, ◌++◌, if◌then◌else◌,
  All, Bytes, codes, str_eq, trim_space, to_lower, equal_fold,
}
use proxy_forge.Proxy.Manager.State.{Tunnel}
use proxy_forge.Proxy.Endpoint.{Addr}
use proxy_forge.Proxy.Family.{is_address, Outside}

-- The spellings of a family in a configuration; every other one stands for IPv4.
abbrev pub six_words : List Bytes
six_words = codes "ipv6" ∷ codes "v6" ∷ codes "6" ∷ []

abbrev pub both_words : List Bytes
both_words = codes "dual" ∷ codes "both" ∷ codes "all" ∷ []

abbrev pub is_one : Bytes → List Bytes → Bool
is_one s [] = false
is_one s (t ∷ ts) = str_eq s t || is_one s ts

-- Whether an address is of the family that a configuration names.
abbrev pub is_of_family : Bytes → Addr → Bool
is_of_family family a =
    let f = to_lower (trim_space family) in
    if is_one f six_words then a.is6 else if is_one f both_words then true else a.is4

abbrev pub is_passed : Bytes → Option Addr → Bool
is_passed family none = true
is_passed family (some a) = not (is_of_family family a)

-- An address is the first of a list that is of the family.
abbrev pub IsFirst : Bytes → List (Option Addr) → Addr → Type 0
IsFirst family addrs a =
    (passed : List (Option Addr)) × (others : List (Option Addr)) × (addrs
      ≡ passed ++ some a ∷ others)
    × All (λ o. is_passed family o ≡ true) passed
    × (is_of_family family a ≡ true)

module _ (w : Outside) (t : Tunnel) where
  -- What the system's lookup gives for an address with a name: the first one of the tunnel's family
  -- among those of the name, with the port of the address.
  abbrev pub IsLookedUp : Bytes → Bytes → Type 0
  IsLookedUp address d =
      (host : Bytes) × (port : Bytes) × (addrs : List (Option Addr)) × (a : Addr)
      × (w.net.split_host_port address ≡ some (host, port))
      × (is_address w.net host ≡ false)
      × (w.lookup_ip_addr host ≡ some addrs)
      × IsFirst t.cfg.ip_family addrs a
      × (d ≡ w.join_host_port a.text port)

  -- The address that was given, or in DNS mode "system" one that was looked up.
  abbrev pub IsAllowed : Bytes → Bytes → Type 0
  IsAllowed address d =
      (d ≡ address)
      ⊎ ((equal_fold (trim_space t.cfg.dns_mode) (codes "system") ≡ true) × IsLookedUp address d)

  abbrev pub Reaches : Bytes → List Bytes × Option ℕ → Type 0
  Reaches address o = ((conn : ℕ) × (o.1 ≡ some conn)) × All (IsAllowed address) o.0

-- ===== src/Proxy/Manager/Reconcile/Configs.antt =====
-- The comparison of two configurations.
use proxy_forge.Prelude.{◌≡◌, true, arith, str_eq_iff, str_eq_refl}
use proxy_forge.Proxy.Manager.State.{Config}
use proxy_forge.Proxy.Manager.Reconcile.{same_keys, same_endpoint, same_masque, config_eq}

same_keys_lem :
    (a b : Config)
    → same_keys a b ≡ true
    → (a.tag ≡ b.tag)
      × (a.private_key ≡ b.private_key)
      × (a.client_id ≡ b.client_id)
      × (a.peer_public_key ≡ b.peer_public_key)
      × (a.local_addr_v4 ≡ b.local_addr_v4)
      × (a.local_addr_v6 ≡ b.local_addr_v6)
unfolding same_keys
same_keys_lem a b h = ground (
  arith,
  h,
  str_eq_iff a.tag b.tag,
  str_eq_iff a.private_key b.private_key,
  str_eq_iff a.client_id b.client_id,
  str_eq_iff a.peer_public_key b.peer_public_key,
  str_eq_iff a.local_addr_v4 b.local_addr_v4,
  str_eq_iff a.local_addr_v6 b.local_addr_v6,
)

all_same :
    (a b : Config)
    → a.tag ≡ b.tag
    → a.private_key ≡ b.private_key
    → a.client_id ≡ b.client_id
    → a.peer_public_key ≡ b.peer_public_key
    → a.local_addr_v4 ≡ b.local_addr_v4
    → a.local_addr_v6 ≡ b.local_addr_v6
    → a.endpoint_host ≡ b.endpoint_host
    → a.endpoint_port ≡ b.endpoint_port
    → a.mtu ≡ b.mtu
    → a.listen_port ≡ b.listen_port
    → a.is_keeper ≡ b.is_keeper
    → a.transport_mode ≡ b.transport_mode
    → a.ip_family ≡ b.ip_family
    → a.dns_mode ≡ b.dns_mode
    → a.masque_private_key ≡ b.masque_private_key
    → a.masque_endpoint_pub_key ≡ b.masque_endpoint_pub_key
    → a.masque_endpoint_v4 ≡ b.masque_endpoint_v4
    → a.masque_endpoint_v6 ≡ b.masque_endpoint_v6
    → a ≡ b
all_same a b e1 e2 e3 e4 e5 e6 e7 e8 e9 e10 e11 e12 e13 e14 e15 e16 e17 e18 =
    cc (e1, e2, e3, e4, e5, e6, e7, e8, e9, e10, e11, e12, e13, e14, e15, e16, e17, e18)

same_endpoint_lem :
    (a b : Config)
    → same_endpoint a b ≡ true
    → (a.endpoint_host ≡ b.endpoint_host)
      × (a.endpoint_port ≡ b.endpoint_port)
      × (a.mtu ≡ b.mtu)
      × (a.listen_port ≡ b.listen_port)
      × (a.is_keeper ≡ b.is_keeper)
      × (a.transport_mode ≡ b.transport_mode)
unfolding same_endpoint
same_endpoint_lem a b h = ground (
  arith,
  h,
  str_eq_iff a.endpoint_host b.endpoint_host,
  str_eq_iff a.transport_mode b.transport_mode,
)

same_masque_lem :
    (a b : Config)
    → same_masque a b ≡ true
    → (a.ip_family ≡ b.ip_family)
      × (a.dns_mode ≡ b.dns_mode)
      × (a.masque_private_key ≡ b.masque_private_key)
      × (a.masque_endpoint_pub_key ≡ b.masque_endpoint_pub_key)
      × (a.masque_endpoint_v4 ≡ b.masque_endpoint_v4)
      × (a.masque_endpoint_v6 ≡ b.masque_endpoint_v6)
unfolding same_masque
same_masque_lem a b h = ground (
  arith,
  h,
  str_eq_iff a.ip_family b.ip_family,
  str_eq_iff a.dns_mode b.dns_mode,
  str_eq_iff a.masque_private_key b.masque_private_key,
  str_eq_iff a.masque_endpoint_pub_key b.masque_endpoint_pub_key,
  str_eq_iff a.masque_endpoint_v4 b.masque_endpoint_v4,
  str_eq_iff a.masque_endpoint_v6 b.masque_endpoint_v6,
)

pub config_eq_sound : (a b : Config) → config_eq a b ≡ true → a ≡ b
unfolding config_eq
config_eq_sound a b h =
    let k = same_keys_lem a b (ground arith) in
    let e = same_endpoint_lem a b (ground arith) in
    let m = same_masque_lem a b (ground arith) in
    all_same a b k.0 k.1 k.2 k.3 k.4 k.5 e.0 e.1 e.2 e.3 e.4 e.5 m.0 m.1 m.2 m.3 m.4 m.5

pub config_eq_refl : (a : Config) → config_eq a a ≡ true
unfolding config_eq same_keys same_endpoint same_masque
config_eq_refl a = ground (
  arith,
  str_eq_refl a.tag,
  str_eq_refl a.private_key,
  str_eq_refl a.client_id,
  str_eq_refl a.peer_public_key,
  str_eq_refl a.local_addr_v4,
  str_eq_refl a.local_addr_v6,
  str_eq_refl a.endpoint_host,
  str_eq_refl a.transport_mode,
  str_eq_refl a.ip_family,
  str_eq_refl a.dns_mode,
  str_eq_refl a.masque_private_key,
  str_eq_refl a.masque_endpoint_pub_key,
  str_eq_refl a.masque_endpoint_v4,
  str_eq_refl a.masque_endpoint_v6,
)

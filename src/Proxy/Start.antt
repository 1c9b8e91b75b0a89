-- ===== src/Proxy/Start.antt =====
-- tunnel.go: which transport and which endpoint newTunnel tries, in which order, and what it closes
-- again. The tunnels themselves are made of third-party network stacks: that one starts, and that it
-- answers the probe within a time, is given.
pub mod Clean
use proxy_forge.Prelude.{
  ℕ, ◌+◌, ◌-◌, Bool, not, ◌&&◌, ◌||◌, Option, none, some, List, [], ◌∷◌, ◌++◌, ltb, ◌==◌,
  if◌then◌else◌, length, take, select, Bytes, codes, str_eq, trim_space, to_lower, is_empty,
}
use proxy_forge.Proxy.Manager.State.{Config}
use proxy_forge.Proxy.Endpoint.{key_of, endpoint_candidates, Addr, Netip, Candidate}

-- endpointPreference; the zero time is none.
pub record Preference : Type 0 where
  pub value : Bytes
  pub failed_until : Option ℕ

unfoldable pub remember_endpoint : Bytes → Preference → Preference
remember_endpoint endpoint p = record { value = endpoint; failed_until = none }

unfoldable pub remember_endpoint_failure : ℕ → Preference → Preference
remember_endpoint_failure now p =
    if is_empty p.value then record p { failed_until = some (now + 60000000000) } else p

-- A wait that is over is 0.
unfoldable pub endpoint_probe_backoff : ℕ → Preference → ℕ
endpoint_probe_backoff now p =
    if not (is_empty p.value) then 0 else elim (p.failed_until) [ none ↦ 0 | some t ↦ t - now ]

-- What is outside: addresses, names, and the tunnels, by their numbers. `start c` is
-- newTunnelAtEndpoint, `probe ttl t` whether t answers in time, `masque` is newMasqueTunnel.
pub record World : Type 0 where
  pub net : Netip
  pub ipv6_ok : Bool
  pub resolve : Bytes → Option (List Addr)
  pub start : Candidate → Option ℕ
  pub probe : ℕ → ℕ → Bool
  pub masque : Option ℕ
  pub now : ℕ

pub data StartError : Type 0 where
  recently_failed : StartError
  no_candidates : StartError
  unreachable : StartError
  no_masque : StartError
  both_failed : StartError → StartError
  unsupported : Bytes → StartError

pub data Result : Type 0 where
  runs : ℕ → Result
  fails : StartError → Result

-- What happens to tunnels, in order.
pub data Event : Type 0 where
  started : ℕ → Event
  closed : ℕ → Event

pub record Outcome : Type 0 where
  pub result : Result
  pub preference : Preference
  pub events : List Event

abbrev pub tunnel_probe_timeout : ℕ
tunnel_probe_timeout = 4000000000

abbrev pub auto_wire_guard_probe_timeout : ℕ
auto_wire_guard_probe_timeout = 2500000000

abbrev pub auto_wire_guard_probe_max_attempts : ℕ
auto_wire_guard_probe_max_attempts = 3

unfoldable pub normalize_transport_mode : Bytes → Bytes
normalize_transport_mode mode =
    let m = to_lower (trim_space mode) in
    if is_empty m || str_eq m (codes "auto")
    then codes "auto"
    else if str_eq m (codes "masque")
    then codes "masque"
    else if str_eq m (codes "wireguard") || str_eq m (codes "wg")
    then codes "wireguard"
    else mode

unfoldable pub has_masque_config : Config → Bool
has_masque_config cfg =
    not (is_empty (trim_space cfg.masque_private_key))
    && not (is_empty (trim_space cfg.masque_endpoint_pub_key))
    && (not (is_empty (trim_space cfg.masque_endpoint_v4))
        || not (is_empty (trim_space cfg.masque_endpoint_v6)))

module _ (w : World) where
  abbrev pub endpoint_of : Candidate → Bytes
  endpoint_of c = key_of w.net w.ipv6_ok c

  unfoldable pub the_preferred : Bytes → List Candidate → List Candidate
  the_preferred preferred [] = []
  the_preferred preferred (c ∷ cs) =
      let rest = the_preferred preferred cs in
      if str_eq (endpoint_of c) preferred then c ∷ [] else rest

  unfoldable pub prioritize_endpoint_candidates : Preference → List Candidate → List Candidate
  unfolding the_preferred
  prioritize_endpoint_candidates p cs =
      if is_empty p.value || ltb (length cs) 2
      then cs
      else the_preferred p.value cs ++ select (λ c. not (str_eq (endpoint_of c) p.value)) cs

  -- The loop of newWireGuardTunnelWithPolicy with what follows it.
  unfoldable pub try_candidates : ℕ → Preference → List Candidate → Outcome
  unfolding remember_endpoint remember_endpoint_failure
  try_candidates ttl p [] = record {
    result = fails unreachable;
    preference = remember_endpoint_failure w.now p;
    events = [];
  }
  try_candidates ttl p (c ∷ cs) =
      let rest = try_candidates ttl p cs in
      elim (w.start c) [
        | none ↦ rest
        | some t ↦
            if w.probe ttl t
            then record {
              result = runs t;
              preference = remember_endpoint (endpoint_of c) p;
              events = started t ∷ [];
            }
            else record rest { events = started t ∷ closed t ∷ rest.events }
      ]

  -- No limit is 0.
  abbrev pub limited : ℕ → List Candidate → List Candidate
  limited max cs = if ltb 0 max && ltb max (length cs) then take max cs else cs

  abbrev pub or_default : ℕ → ℕ
  or_default ttl = if ttl == 0 then tunnel_probe_timeout else ttl

  unfoldable pub new_wire_guard_tunnel_with_policy : Config → ℕ → ℕ → Preference → Outcome
  unfolding endpoint_probe_backoff prioritize_endpoint_candidates try_candidates
  new_wire_guard_tunnel_with_policy cfg max ttl p =
      if ltb 0 (endpoint_probe_backoff w.now p)
      then record { result = fails recently_failed; preference = p; events = [] }
      else elim (endpoint_candidates w.net w.ipv6_ok w.resolve cfg.endpoint_host
          cfg.endpoint_port) [
            | none ↦ record { result = fails no_candidates; preference = p; events = [] }
            | some cs ↦
                try_candidates (or_default ttl) p
                  (limited max (prioritize_endpoint_candidates p cs))
          ]

  unfoldable pub new_wire_guard_tunnel : Config → Preference → Outcome
  unfolding new_wire_guard_tunnel_with_policy
  new_wire_guard_tunnel cfg p = new_wire_guard_tunnel_with_policy cfg 0 tunnel_probe_timeout p

  -- MASQUE, behind what was done before; the error of both is made of that of WireGuard.
  unfoldable pub then_masque : StartError → Preference → List Event → Outcome
  then_masque e p events = elim (w.masque) [
    | some t ↦ record { result = runs t; preference = p; events = events ++ started t ∷ [] }
    | none ↦ record { result = fails e; preference = p; events = events }
  ]

  -- MASQUE is the fallback of the automatic mode.
  unfoldable pub fall_back : Outcome → Outcome
  unfolding then_masque
  fall_back o = elim (o.result) [
    | runs t ↦ o
    | fails e ↦ then_masque (both_failed e) o.preference o.events
  ]

  unfoldable pub new_tunnel : Config → Preference → Outcome
  unfolding normalize_transport_mode has_masque_config new_wire_guard_tunnel
      new_wire_guard_tunnel_with_policy fall_back
  new_tunnel cfg p =
      let mode = normalize_transport_mode cfg.transport_mode in
      if str_eq mode (codes "masque")
      then then_masque no_masque p []
      else if str_eq mode (codes "auto")
      then if not (has_masque_config cfg)
        then new_wire_guard_tunnel cfg p
        else fall_back (
            new_wire_guard_tunnel_with_policy cfg auto_wire_guard_probe_max_attempts
              auto_wire_guard_probe_timeout p)
      else if str_eq mode (codes "wireguard")
      then new_wire_guard_tunnel cfg p
      else record { result = fails (unsupported cfg.transport_mode); preference = p; events = [] }

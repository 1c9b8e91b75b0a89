-- ===== src/Proxy/Manager/Resolve.antt =====
-- `resolve` and `resolveTrojan`: from the credentials of a client to its outbounds.
use proxy_forge.Prelude.{
  ℕ, Bool, true, false, not, ◌&&◌, ◌||◌, Option, none, some, List, [], ◌∷◌, ◌++◌, ◌==◌,
  if◌then◌else◌, length, Bytes, codes, str_eq, has_prefix, trim_space, equal_fold, is_empty,
}
use proxy_forge.Prelude.Assoc.{bytes_key, lookup}
use proxy_forge.Proxy.Dial.{Egress}
use proxy_forge.Proxy.Trojan.Auth.{trojan_auth_matches, Crypto}
use proxy_forge.Proxy.Manager.State.{
  egress_of, tunnels_as_egress, Float64, SlotBinding, AgentResolver, Manager,
}
use proxy_forge.Proxy.Manager.Select.{
  note_pick, online, rotate_candidates, stable_candidates, slot_candidates,
}

-- NodeUsernamePrefix and RotateUsername
abbrev pub node_username_prefix : Bytes
node_username_prefix = codes "node-"

abbrev pub rotate_username : Bytes
rotate_username = codes "auto"

-- AgentUsername
unfoldable pub agent_username : Bytes → Bytes
agent_username node_id = node_username_prefix ++ node_id

unfoldable pub required_password_matches : Bytes → Bytes → Bool
required_password_matches want got =
    if is_empty want || is_empty got || not (length want == length got)
    then false
    else str_eq want got

abbrev pub is_pool_user : Bytes → Bool
is_pool_user u = is_empty u || equal_fold u (codes "random") || equal_fold u (codes "stable")

abbrev pub one {ℓ} : {A : Type ℓ} → Option A → List A
one none = []
one (some a) = a ∷ []

abbrev pub agent_egress : Option AgentResolver → Bytes → List Egress
agent_egress none u = []
agent_egress (some r) u = one (r.resolve_egress u)

-- What a class of usernames gets when its password matches, and nothing otherwise.
abbrev pub allow : Bool → List Egress × Manager → Manager → List Egress × Manager
allow ok r m = if ok then r else ([], m)

-- The agents that are online, by the password that they share.
unfoldable pub trojan_agents :
    Crypto → Bytes → Bytes → List (Option Egress) → Bytes × List Egress → Bytes × List Egress
trojan_agents c auth password [] found = found
trojan_agents c auth password (none ∷ es) found = trojan_agents c auth password es found
trojan_agents c auth password (some eg ∷ es) found = trojan_agents c auth password es (
    if has_prefix eg.tag node_username_prefix && trojan_auth_matches c auth eg.tag password
    then (eg.tag, eg ∷ [])
    else found)

module _ (fl : Float64) where
  unfoldable pub resolve_slot : ℕ → Bytes → Manager → List Egress × Manager
  resolve_slot now tag m = let (ts, m') = slot_candidates fl now tag m in (tunnels_as_egress ts, m')

  unfoldable pub resolve_pool : ℕ → Manager → List Egress × Manager
  resolve_pool now m = let (ts, m') = stable_candidates fl now m in (tunnels_as_egress ts, m')

  -- A username that names neither an agent nor a pool: a slot, or a tunnel.
  unfoldable pub resolve_named : ℕ → Bytes → Bytes → Manager → List Egress × Manager
  resolve_named now u p m = elim (lookup u m.slots) [
    | some slot ↦
        allow (required_password_matches slot.password p) (resolve_slot now slot.account_tag m) m
    | none ↦ elim (lookup u m.tunnels) [
      | some t ↦
          allow (required_password_matches m.password p) (egress_of t ∷ [], note_pick now u m) m
      | none ↦ ([], m)
    ]
  ]

  -- `resolve` behind its two calls of TrimSpace.
  unfoldable pub resolve_trimmed : ℕ → Bytes → Bytes → Bytes → Manager → List Egress × Manager
  resolve_trimmed now u p client_ip m =
      let matches = required_password_matches m.password p in
      if has_prefix u node_username_prefix
      then allow matches (agent_egress m.agent_resolver u, m) m
      else if equal_fold u rotate_username
      then allow matches (rotate_candidates fl now client_ip m) m
      else if is_pool_user u
      then allow matches (resolve_pool now m) m
      else resolve_named now u p m

  unfoldable pub resolve : ℕ → Bytes → Bytes → Bytes → Manager → List Egress × Manager
  resolve now username password client_ip m =
      resolve_trimmed now (trim_space username) (trim_space password) client_ip m

  -- The slots in some order of the map; a later match takes the place of an earlier one.
  unfoldable pub trojan_slots :
      Crypto
      → Bytes
      → ℕ
      → List (Bytes × SlotBinding)
      → Bytes × List Egress
      → Manager
      → (Bytes × List Egress) × Manager
  trojan_slots c auth now [] found m = (found, m)
  trojan_slots c auth now ((username, slot) ∷ slots) found m =
      elim (trojan_auth_matches c auth username slot.password) [
        | true ↦
            let (es, m') = resolve_slot now slot.account_tag m in
            trojan_slots c auth now slots (username, es) m'
        | false ↦ trojan_slots c auth now slots found m
      ]

  -- resolveTrojan
  unfoldable pub resolve_trojan : Crypto → Bytes → ℕ → Manager → (Bytes × List Egress) × Manager
  resolve_trojan c auth now m =
      let (found, m') = trojan_slots c auth now m.slots ([], []) m in
      (trojan_agents c auth m.password (online m.agent_resolver) found, m')

-- ===== src/Proxy/Manager/TrojanAccess.antt =====
-- Whom `resolveTrojan` of trojan.go accepts.
use proxy_forge.Prelude.{
  ℕ, ◌≡◌, refl, sym, ap, ◌∙◌, subst, ◌⊎◌, inl, inr, Bool, true, false, ◌&&◌, Option, none, some,
  List, [], ◌∷◌, arith, if◌then◌else◌, Bytes, has_prefix,
}
use proxy_forge.Proxy.Dial.{Egress}
use proxy_forge.Proxy.Trojan.Auth.{trojan_auth_matches, Crypto}
use proxy_forge.Proxy.Manager.State.{Float64, SlotBinding, Manager}
use proxy_forge.Proxy.Manager.Select.{online}
use proxy_forge.Proxy.Manager.Resolve.{
  node_username_prefix, trojan_agents, resolve_slot, trojan_slots, resolve_trojan,
}

-- Some slot of a list has the username, with a password whose credential the digest belongs to.
abbrev pub SlotAccepts : Crypto → Bytes → Bytes → List (Bytes × SlotBinding) → Type 0
SlotAccepts c auth username [] = ⊥
SlotAccepts c auth username ((u, slot) ∷ slots) =
    ((u ≡ username) × (trojan_auth_matches c auth u slot.password ≡ true))
    ⊎ SlotAccepts c auth username slots

-- Some outbound of a list is an agent under the username, and the only one found.
abbrev pub AgentAccepts :
    Crypto → Bytes → Bytes → List (Option Egress) → Bytes × List Egress → Type 0
AgentAccepts c auth password [] found = ⊥
AgentAccepts c auth password (none ∷ es) found = AgentAccepts c auth password es found
AgentAccepts c auth password (some eg ∷ es) found =
    ((found ≡ (eg.tag, eg ∷ []))
      × (has_prefix eg.tag node_username_prefix ≡ true)
      × (trojan_auth_matches c auth eg.tag password ≡ true))
    ⊎ AgentAccepts c auth password es found

trojan_agents-AgentAccepts :
    (c : Crypto) (auth password : Bytes) (es : List (Option Egress)) (found : Bytes × List Egress)
    → (trojan_agents c auth password es found ≡ found)
      ⊎ AgentAccepts c auth password es (trojan_agents c auth password es found)
unfolding trojan_agents
trojan_agents-AgentAccepts c auth password [] found = inl refl
trojan_agents-AgentAccepts c auth password (none ∷ es) found =
    trojan_agents-AgentAccepts c auth password es found
trojan_agents-AgentAccepts c auth password (some eg ∷ es) found =
    by_test (has_prefix eg.tag node_username_prefix && trojan_auth_matches c auth eg.tag password)
      refl (trojan_agents-AgentAccepts c auth password es)
  where
    Goal : Bytes × List Egress → Type 0
    Goal r =
        (r ≡ found)
        ⊎ (((r ≡ (eg.tag, eg ∷ []))
              × (has_prefix eg.tag node_username_prefix ≡ true)
              × (trojan_auth_matches c auth eg.tag password ≡ true))
            ⊎ AgentAccepts c auth password es r)

    by_test :
        (t : Bool)
        → (has_prefix eg.tag node_username_prefix && trojan_auth_matches c auth eg.tag password) ≡ t
        → ((f : Bytes × List Egress)
            → (trojan_agents c auth password es f ≡ f)
              ⊎ AgentAccepts c auth password es (trojan_agents c auth password es f))
        → Goal (trojan_agents c auth password es (if t then (eg.tag, eg ∷ []) else found))
    by_test true e rest = elim (rest (eg.tag, eg ∷ [])) [
      | inl same ↦ inr (inl (same, ground arith, ground arith))
      | inr later ↦ inr (inr later)
    ]
    by_test false e rest = elim (rest found) [ inl same ↦ inl same | inr later ↦ inr (inr later) ]

module _ (fl : Float64) (c : Crypto) (auth : Bytes) (now : ℕ) where
  trojan_slots-SlotAccepts :
      (slots : List (Bytes × SlotBinding)) (found : Bytes × List Egress) (m : Manager)
      → ((trojan_slots fl c auth now slots found m).0 ≡ found)
        ⊎ SlotAccepts c auth (trojan_slots fl c auth now slots found m).0.0 slots
  unfolding trojan_slots
  trojan_slots-SlotAccepts [] found m = inl refl
  trojan_slots-SlotAccepts ((u, slot) ∷ slots) found m =
      by_test (trojan_auth_matches c auth u slot.password) refl (trojan_slots-SlotAccepts slots)
    where
      Goal : Bytes × List Egress → Type 0
      Goal r =
          (r ≡ found)
          ⊎ (((u ≡ r.0) × (trojan_auth_matches c auth u slot.password ≡ true))
              ⊎ SlotAccepts c auth r.0 slots)

      by_test :
          (t : Bool)
          → trojan_auth_matches c auth u slot.password ≡ t
          → ((f : Bytes × List Egress) (m' : Manager)
              → ((trojan_slots fl c auth now slots f m').0 ≡ f)
                ⊎ SlotAccepts c auth (trojan_slots fl c auth now slots f m').0.0 slots)
          → (let r : (Bytes × List Egress) × Manager = elim t [
            | true ↦
                trojan_slots fl c auth now slots
                  (u, (resolve_slot fl now slot.account_tag m).0)
                  (resolve_slot fl now slot.account_tag m).1
            | false ↦ trojan_slots fl c auth now slots found m
          ] in
              Goal r.0)
      by_test true e rest =
          elim (rest (u, (resolve_slot fl now slot.account_tag m).0)
            (resolve_slot fl now slot.account_tag m).1) [
              | inl same ↦ inr (inl (sym (ap (λ (p : Bytes × List Egress). p.0) same), e))
              | inr later ↦ inr (inr later)
            ]
      by_test false e rest = elim (rest found m) [
        | inl same ↦ inl same
        | inr later ↦ inr (inr later)
      ]

  -- Only a client whose digest belongs to the credential of a slot, or of an agent that is online
  -- under the proxy password, is given a username or an outbound: it gets that slot's username, or
  -- that agent and no other outbound.
  pub resolve_trojan_granted :
      (m : Manager)
      → ((resolve_trojan fl c auth now m).0 ≡ ([], []))
        ⊎ (SlotAccepts c auth (resolve_trojan fl c auth now m).0.0 m.slots
            ⊎ AgentAccepts c auth m.password
                (online m.agent_resolver)
                (resolve_trojan fl c auth now m).0)
  unfolding resolve_trojan
  resolve_trojan_granted m =
      let slot_found = (trojan_slots fl c auth now m.slots ([], []) m).0 in
      elim (trojan_agents-AgentAccepts c auth m.password (online m.agent_resolver) slot_found) [
        | inr agent ↦ inr (inr agent)
        | inl same ↦ elim (trojan_slots-SlotAccepts m.slots ([], []) m) [
          | inl nothing ↦ inl (same ∙ nothing)
          | inr slot ↦ inr (
              inl (
                subst (λ (r : Bytes × List Egress). SlotAccepts c auth r.0 m.slots) (sym same)
                  slot))
        ]
      ]

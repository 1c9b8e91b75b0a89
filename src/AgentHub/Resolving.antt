-- ===== src/AgentHub/Resolving.antt =====
-- ResolveEgress of hub.go: from a username to the agent of that name.
use proxy_forge.Prelude.{
  ℕ, ◌≡◌, refl, sym, ap, ◌∙◌, inl, inr, Bool, true, false, Option, none, some, [], ◌∷◌, ◌++◌, arith,
  if◌then◌else◌, Bool-cases, Bytes, str_eq, str_eq_refl, has_prefix, strip, trim_prefix,
}
use proxy_forge.Prelude.Assoc.{bytes_key, number_key, lookup}
use proxy_forge.Proxy.Dial.{Egress}
use proxy_forge.Proxy.Manager.Resolve.{node_username_prefix}
use proxy_forge.AgentHub.{
  agent_egress_of, conn_of, egress_of_conn, resolve_egress, is_online, AgentConn, Hub,
}
use proxy_forge.AgentHub.Sound.{IsSound}

append-strip : (s p : Bytes) → has_prefix s p ≡ true → p ++ strip s p ≡ s
unfolding has_prefix strip
append-strip s [] h = refl
append-strip [] (p ∷ ps) h = cc (h)
append-strip (a ∷ s) (p ∷ ps) h =
    let rest : ps ++ strip s ps ≡ s = append-strip s ps (ground arith) in
    let same : a ≡ p = ground arith in rw (rest, same) refl

append-trim_prefix : (s p : Bytes) → str_eq (trim_prefix s p) s ≡ false → p ++ trim_prefix s p ≡ s
unfolding trim_prefix
append-trim_prefix s p h = elim (Bool-cases (has_prefix s p)) [
  | inl has ↦ rw has (append-strip s p has)
  | inr hasnt ↦ absurd (ground (arith, str_eq_refl s, rw hasnt at h))
]

-- The outbound that a username resolves to is an agent that is online, and it reports that very username
-- as its tag.
pub resolve_egress_tag :
    (h : Hub) (username : Bytes) (eg : Egress)
    → IsSound h
    → resolve_egress h username ≡ some eg
    → (eg.tag ≡ username) × (is_online h (trim_prefix username node_username_prefix) ≡ true)
unfolding resolve_egress is_online egress_of_conn conn_of agent_egress_of
resolve_egress_tag h username eg v e = by_test (str_eq node username) refl e
  where
    node : Bytes
    node = trim_prefix username node_username_prefix

    by_conn :
        (c : AgentConn)
        → c.meta.node_id ≡ node
        → str_eq node username ≡ false
        → some (agent_egress_of c) ≡ some eg
        → eg.tag ≡ username
    by_conn c of_node named q =
        let made : agent_egress_of c ≡ eg = cc q in
        sym (ap (λ (x : Egress). x.tag) made)
        ∙ ap (λ n. node_username_prefix ++ n) of_node
        ∙ append-trim_prefix username node_username_prefix named

    by_entry :
        (o : Option ℕ)
        → lookup node h.agents ≡ o
        → str_eq node username ≡ false
        → egress_of_conn (conn_of h o) ≡ some eg
        → (eg.tag ≡ username)
          × ((elim (lookup node h.agents) [ some id ↦ true | none ↦ false ]) ≡ true)
    by_entry none o named q = cc q
    by_entry (some id) o named q =
        let (c, there, of_node, _) = v.known node id o in
        (by_conn c of_node named (rw there at q), rw o refl)

    by_test :
        (t : Bool)
        → str_eq node username ≡ t
        → (if t then none else egress_of_conn (conn_of h (lookup node h.agents))) ≡ some eg
        → (eg.tag ≡ username)
          × ((elim (lookup node h.agents) [ some id ↦ true | none ↦ false ]) ≡ true)
    by_test true named q = cc q
    by_test false named q = by_entry (lookup node h.agents) refl named q

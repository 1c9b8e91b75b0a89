-- ===== src/AgentHub/Leaving.antt =====
-- The end of a session of hub.go (Accept behind its ping loop).
use proxy_forge.Prelude.{
  ℕ, ◌≡◌, refl, sym, ap, ◌∙◌, subst, ◌≢◌, inl, inr, Bool, true, false, Option, none, some, List,
  arith, ◌==◌, if◌then◌else◌, Bool-cases, Bytes, str_eq, str_eq_iff,
}
use proxy_forge.Prelude.Assoc.{bytes_key, number_key, lookup, erase, lookup-erase}
use proxy_forge.AgentHub.{adjust, leave_conn, leave, AgentConn, Hub}
use proxy_forge.AgentHub.Store.{lookup-adjust_back, lookup-adjust_other}
use proxy_forge.AgentHub.Sound.{IsLive, IsSound}

-- A session that leaves, with any map that holds exactly the other entries.
left-IsSound :
    (id : ℕ) (h : Hub) (agents : List (Bytes × ℕ))
    → ((node : Bytes) (j : ℕ)
        → lookup node agents ≡ some j
        → (lookup node h.agents ≡ some j) × (id ≢ j))
    → ((node : Bytes) (j : ℕ)
        → lookup node h.agents ≡ some j
        → id ≢ j
        → lookup node agents ≡ some j)
    → IsSound h
    → IsSound (record h { agents = agents; conns = adjust id leave_conn h.conns })
left-IsSound id h agents back forth v = record {
  known = λ node j q.
      let (was, other) = back node j q in
      let (d, stays, of_node, live) = v.known node j was in
      (d, lookup-adjust_other id j leave_conn h.conns other ∙ stays, of_node, live);
  unique = λ j d q live.
      let (d0, was, how) = lookup-adjust_back id j leave_conn h.conns d q in
      elim how [
        | inl (other, s) ↦
            forth d.meta.node_id j
              (subst (λ (x : AgentConn). lookup x.meta.node_id h.agents ≡ some j) (sym s)
                (v.unique j d0 was (subst IsLive s live)))
              other
        | inr (_, s) ↦ cc (s, live.1)
      ];
  fresh = λ j d q.
      let (d0, was, _) = lookup-adjust_back id j leave_conn h.conns d q in v.fresh j d0 was;
}

-- Only the node of a session can have it in the map.
pub node_of :
    (id : ℕ) (c : AgentConn) (h : Hub) (node : Bytes)
    → lookup id h.conns ≡ some c
    → IsSound h
    → lookup node h.agents ≡ some id
    → c.meta.node_id ≡ node
node_of id c h node e v q =
    let (d, was, of_node, _) = v.known node id q in
    let same : c ≡ d = cc (e, was) in ap (λ (x : AgentConn). x.meta.node_id) same ∙ of_node

pub leave-IsSound :
    (id : ℕ) (c : AgentConn) (h : Hub)
    → lookup id h.conns ≡ some c
    → IsSound h
    → IsSound (leave id c.meta h)
unfolding leave
leave-IsSound id c h e v = by_entry (lookup c.meta.node_id h.agents) refl
  where
    conns : List (ℕ × AgentConn)
    conns = adjust id leave_conn h.conns

    stays :
        lookup c.meta.node_id h.agents ≢ some id
        → IsSound (record h { conns = adjust id leave_conn h.conns })
    stays absent =
        left-IsSound id h h.agents
          (λ node j q. (
            q,
            λ s. absent (
                subst (λ n. lookup n h.agents ≡ some id) (sym (node_of id c h node e v (cc (q, s))))
                  (cc (q, s))),
          ))
          (λ node j q other. q) v

    by_test :
        (current : ℕ) (t : Bool)
        → lookup c.meta.node_id h.agents ≡ some current
        → (current == id) ≡ t
        → IsSound (
            if t
            then record h {
              conns = adjust id leave_conn h.conns;
              agents = erase c.meta.node_id h.agents;
            }
            else record h { conns = adjust id leave_conn h.conns })
    by_test current true q t =
        left-IsSound id h (erase c.meta.node_id h.agents)
          (λ node j r.
            let was : lookup node h.agents ≡ some j =
              ground (arith, lookup-erase c.meta.node_id node h.agents) in
            (
              was,
              λ s. absurd (
                  ground (
                    arith,
                    lookup-erase c.meta.node_id node h.agents,
                    str_eq_iff c.meta.node_id node,
                    node_of id c h node e v (cc (was, s)),
                  )),
            ))
          (λ node j r other. elim (Bool-cases (str_eq c.meta.node_id node)) [
            | inr differs ↦ ground (arith, lookup-erase c.meta.node_id node h.agents)
            | inl same ↦
                let here : c.meta.node_id ≡ node = (str_eq_iff c.meta.node_id node).0 same in
                let current_entry : some current ≡ some j = cc (here, q, r) in
                absurd (other (ground arith))
          ])
          v
    by_test current false q t = stays (ground (arith, q))

    by_entry :
        (o : Option ℕ)
        → lookup c.meta.node_id h.agents ≡ o
        → IsSound (elim o [
          | some current ↦
              if current == id
              then record h {
                conns = adjust id leave_conn h.conns;
                agents = erase c.meta.node_id h.agents;
              }
              else record h { conns = adjust id leave_conn h.conns }
          | none ↦ record h { conns = adjust id leave_conn h.conns }
        ])
    by_entry none q = stays (λ s. cc (q, s))
    by_entry (some current) q = by_test current (current == id) q refl

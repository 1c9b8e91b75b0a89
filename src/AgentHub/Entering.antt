-- ===== src/AgentHub/Entering.antt =====
-- A new session of hub.go (Accept up to its ping loop).
use proxy_forge.Prelude.{
  ℕ, ◌+◌, ◌<◌, ◌≡◌, refl, sym, ap, ◌∙◌, subst, ◌≢◌, inl, inr, Bool, true, false, not, ◌||◌, Option,
  none, some, List, arith, ◌==◌, if◌then◌else◌, Bool-cases, Bytes, str_eq, str_eq_iff, trim_space,
  is_empty,
}
use proxy_forge.Prelude.Assoc.{
  bytes_key, number_key, lookup, insert, lookup-insert, lookup-insert_self,
}
use proxy_forge.AgentHub.{new_conn, close_conn, close, close_old, register, Meta, AgentConn, Hub}
use proxy_forge.AgentHub.Store.{lookup-adjust_back, lookup-adjust_other}
use proxy_forge.AgentHub.Sound.{IsLive, IsSound}
use proxy_forge.AgentHub.Leaving.{node_of}

-- The store behind the closing of an old session of the node: every live session in it was live
-- before and was not the node's, and the sessions of other nodes are as they were.
record IsCleared (node : Bytes) (h : Hub) (conns : List (ℕ × AgentConn)) : Type 0 where
  was_there :
      (j : ℕ) (d : AgentConn)
      → lookup j conns ≡ some d
      → (d0 : AgentConn) × (lookup j h.conns ≡ some d0)
  was_live :
      (j : ℕ) (d : AgentConn)
      → lookup j conns ≡ some d
      → IsLive d
      → (lookup j h.conns ≡ some d) × (lookup node h.agents ≢ some j)
  stays :
      (other : Bytes) (j : ℕ)
      → node ≢ other
      → lookup other h.agents ≡ some j
      → lookup j conns ≡ lookup j h.conns

close_old-IsCleared :
    (node : Bytes) (h : Hub) (o : Option ℕ)
    → lookup node h.agents ≡ o
    → IsSound h
    → IsCleared node h (close_old o h).conns
unfolding close
close_old-IsCleared node h none e v = record {
  was_there = λ j d q. (d, q);
  was_live = λ j d q live. (q, λ s. cc (e, s));
  stays = λ other j differs q. refl;
}
close_old-IsCleared node h (some old) e v = record {
  was_there =
      λ j d q. let (d0, was, _) = lookup-adjust_back old j close_conn h.conns d q in (d0, was);
  was_live = λ j d q live.
      let (d0, was, how) = lookup-adjust_back old j close_conn h.conns d q in
      elim how [
        | inl (other, s) ↦ (was ∙ ap some (sym s), λ r. other (ground (arith, e, r)))
        | inr (_, s) ↦ cc (s, live.0)
      ];
  stays = λ other j differs q.
      let (d, was, of_node, _) = v.known other j q in
      lookup-adjust_other old j close_conn h.conns
        (λ s. differs (sym (node_of old d h node (cc (s, was)) v e) ∙ of_node));
}

module _ (meta : Meta) (now : ℕ) (h : Hub) (conns : List (ℕ × AgentConn)) where
  abbrev registered : Hub
  registered = record {
    agents = insert meta.node_id h.next h.agents;
    conns = insert h.next (new_conn meta now) conns;
    next = h.next + 1;
  }

  registered-IsSound : IsCleared meta.node_id h conns → IsSound h → IsSound registered
  unfolding new_conn
  registered-IsSound cleared v = record { known = known; unique = unique; fresh = fresh }
    where
      known :
          (node : Bytes) (j : ℕ)
          → lookup node registered.agents ≡ some j
          → (c : AgentConn) × (lookup j registered.conns ≡ some c)
            × (c.meta.node_id ≡ node)
            × IsLive c
      known node j q = elim (Bool-cases (str_eq meta.node_id node)) [
        | inl same ↦
            let is_new : h.next ≡ j =
              ground (arith, lookup-insert meta.node_id node h.next h.agents) in
            (
              new_conn meta now,
              ground (arith, lookup-insert h.next j (new_conn meta now) conns),
              (str_eq_iff meta.node_id node).0 same,
              (refl, refl),
            )
        | inr differs ↦
            let was : lookup node h.agents ≡ some j =
              ground (arith, lookup-insert meta.node_id node h.next h.agents) in
            let (d, e, of_node, live) = v.known node j was in
            let kept : lookup j conns ≡ lookup j h.conns =
              cleared.stays node j (λ s. ground (arith, str_eq_iff meta.node_id node)) was in
            (
              d,
              ground
                  (arith, lookup-insert h.next j (new_conn meta now) conns, v.fresh j d e, kept, e),
              of_node,
              live,
            )
      ]

      -- A live session of before is not of the node.
      other_node :
          (j : ℕ) (d : AgentConn)
          → lookup d.meta.node_id h.agents ≡ some j
          → lookup meta.node_id h.agents ≢ some j
          → lookup d.meta.node_id registered.agents ≡ some j
      other_node j d was not_old = elim (Bool-cases (str_eq meta.node_id d.meta.node_id)) [
        | inr differs ↦ ground (arith, lookup-insert meta.node_id d.meta.node_id h.next h.agents)
        | inl same ↦
            let of_node : meta.node_id ≡ d.meta.node_id =
              (str_eq_iff meta.node_id d.meta.node_id).0 same in
            absurd (not_old (ap (λ n. lookup n h.agents) of_node ∙ was))
      ]

      unique :
          (j : ℕ) (d : AgentConn)
          → lookup j registered.conns ≡ some d
          → IsLive d
          → lookup d.meta.node_id registered.agents ≡ some j
      unique j d q live = elim (Bool-cases (h.next == j)) [
        | inl same ↦
            let is_new : some (new_conn meta now) ≡ some d =
              ground (arith, lookup-insert h.next j (new_conn meta now) conns, q) in
            let new_node : meta.node_id ≡ d.meta.node_id = cc is_new in
            subst (λ n. lookup n (insert meta.node_id h.next h.agents) ≡ some j) new_node
              (lookup-insert_self meta.node_id h.next h.agents ∙ ap some (ground arith))
        | inr differs ↦
            let older : lookup j conns ≡ some d =
              ground (arith, lookup-insert h.next j (new_conn meta now) conns, q) in
            let (was, not_old) = cleared.was_live j d older live in
            other_node j d (v.unique j d was live) not_old
      ]

      fresh : (j : ℕ) (d : AgentConn) → lookup j registered.conns ≡ some d → j < registered.next
      fresh j d q = elim (Bool-cases (h.next == j)) [
        | inl same ↦ ground arith
        | inr differs ↦
            let older : lookup j conns ≡ some d =
              ground (arith, lookup-insert h.next j (new_conn meta now) conns, q) in
            let (d0, was) = cleared.was_there j d older in ground (arith, v.fresh j d0 was)
      ]

pub register-IsSound :
    (meta : Meta) (yamux_ok : Bool) (now : ℕ) (h : Hub)
    → IsSound h
    → IsSound (register meta yamux_ok now h).1
unfolding register close
register-IsSound meta yamux_ok now h v =
    by_test (is_empty (trim_space meta.node_id) || not yamux_ok)
  where
    by_old :
        (o : Option ℕ)
        → lookup meta.node_id h.agents ≡ o
        → IsSound (record {
          agents = insert meta.node_id h.next (close_old o h).agents;
          conns = insert h.next (new_conn meta now) (close_old o h).conns;
          next = h.next + 1;
        })
    by_old none e = registered-IsSound meta now h _ (close_old-IsCleared meta.node_id h none e v) v
    by_old (some x) e =
        registered-IsSound meta now h _ (close_old-IsCleared meta.node_id h (some x) e v) v

    by_test :
        (t : Bool)
        → IsSound (
            let r : Option ℕ × Hub = if t then (none, h) else (
              some h.next,
              record {
                agents =
                    insert meta.node_id h.next (close_old (lookup meta.node_id h.agents) h).agents;
                conns =
                    insert h.next
                      (new_conn meta now)
                      (close_old (lookup meta.node_id h.agents) h).conns;
                next = h.next + 1;
              },
            ) in
            r.1)
    by_test true = v
    by_test false = by_old (lookup meta.node_id h.agents) refl

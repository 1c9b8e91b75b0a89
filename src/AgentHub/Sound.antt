-- ===== src/AgentHub/Sound.antt =====
-- What hub.go keeps true of its map and its sessions.
use proxy_forge.Prelude.{
  ℕ, ◌<◌, ◌≡◌, refl, sym, ap, ◌∙◌, subst, ◌≢◌, ◌⊎◌, inl, inr, true, false, some, Bytes,
}
use proxy_forge.Prelude.Assoc.{bytes_key, number_key, lookup}
use proxy_forge.AgentHub.{new_hub, adjust, close_conn, close, Meta, AgentConn, Hub}
use proxy_forge.AgentHub.Store.{lookup-adjust_back, lookup-adjust_other, lookup-adjust_forth}

-- A session that the hub has not closed, of a goroutine that is still in its ping loop.
abbrev pub IsLive : AgentConn → Type 0
IsLive c = (c.closed ≡ false) × (c.left ≡ false)

-- The map holds live sessions of the right node, and every live session is in it.
pub record IsSound (h : Hub) : Type 0 where
  pub known :
      (node : Bytes) (id : ℕ)
      → lookup node h.agents ≡ some id
      → (c : AgentConn) × (lookup id h.conns ≡ some c) × (c.meta.node_id ≡ node) × IsLive c
  pub unique :
      (id : ℕ) (c : AgentConn)
      → lookup id h.conns ≡ some c
      → IsLive c
      → lookup c.meta.node_id h.agents ≡ some id
  pub fresh : (id : ℕ) (c : AgentConn) → lookup id h.conns ≡ some c → id < h.next

pub new_hub-IsSound : IsSound new_hub
unfolding new_hub lookup
new_hub-IsSound = record {
  known = λ node id e. cc (e);
  unique = λ id c e live. cc (e);
  fresh = λ id c e. cc (e);
}

-- A change of a session's counters.
pub adjust-IsSound :
    (id : ℕ) (f : AgentConn → AgentConn) (h : Hub)
    → ((c : AgentConn) → ((f c).meta ≡ c.meta) × ((f c).closed ≡ c.closed) × ((f c).left ≡ c.left))
    → IsSound h
    → IsSound (record h { conns = adjust id f h.conns })
adjust-IsSound id f h same v = record {
  known = known;
  unique = unique;
  fresh = λ j c' e. let (c, was, _) = lookup-adjust_back id j f h.conns c' e in v.fresh j c was;
}
  where
    agrees :
        (c c' : AgentConn)
        → (c' ≡ c) ⊎ (c' ≡ f c)
        → (c'.meta ≡ c.meta) × (c'.closed ≡ c.closed) × (c'.left ≡ c.left)
    agrees c c' (inl e) = rw e (refl, refl, refl)
    agrees c c' (inr e) = rw e (same c)

    loosen :
        {j : ℕ} (c c' : AgentConn)
        → ((id ≢ j) × (c' ≡ c)) ⊎ ((id ≡ j) × (c' ≡ f c))
        → (c' ≡ c) ⊎ (c' ≡ f c)
    loosen c c' (inl (_, e)) = inl e
    loosen c c' (inr (_, e)) = inr e

    known :
        (node : Bytes) (j : ℕ)
        → lookup node h.agents ≡ some j
        → (c : AgentConn) × (lookup j (adjust id f h.conns) ≡ some c)
          × (c.meta.node_id ≡ node)
          × IsLive c
    known node j e =
        let (c, was, of_node, live) = v.known node j e in
        let (c', now, how) = lookup-adjust_forth id j f h.conns c was in
        let (meta, closed, left) = agrees c c' how in
        (c', now, ap (λ (m : Meta). m.node_id) meta ∙ of_node, (closed ∙ live.0, left ∙ live.1))

    unique :
        (j : ℕ) (c' : AgentConn)
        → lookup j (adjust id f h.conns) ≡ some c'
        → IsLive c'
        → lookup c'.meta.node_id h.agents ≡ some j
    unique j c' e live =
        let (c, was, how) = lookup-adjust_back id j f h.conns c' e in
        let (meta, closed, left) = agrees c c' (loosen c c' how) in
        subst (λ (m : Meta). lookup m.node_id h.agents ≡ some j) (sym meta)
          (v.unique j c was (sym closed ∙ live.0, sym left ∙ live.1))

pub close-IsSound :
    (id : ℕ) (c : AgentConn) (h : Hub)
    → lookup id h.conns ≡ some c
    → c.left ≡ true
    → IsSound h
    → IsSound (close id h)
unfolding close
close-IsSound id c h e gone v = record {
  known = λ node j q.
      let (d, was, of_node, live) = v.known node j q in
      (
        d,
        (lookup-adjust_other id j close_conn h.conns (λ s. cc (s, e, was, live.1, gone))) ∙ was,
        of_node,
        live,
      );
  unique = λ j d q live.
      let (d0, was, how) = lookup-adjust_back id j close_conn h.conns d q in
      elim how [
        | inl (_, s) ↦
            subst (λ (x : AgentConn). lookup x.meta.node_id h.agents ≡ some j) (sym s)
              (v.unique j d0 was (subst IsLive s live))
        | inr (_, s) ↦ cc (s, live.0)
      ];
  fresh = λ j d q.
      let (d0, was, _) = lookup-adjust_back id j close_conn h.conns d q in v.fresh j d0 was;
}

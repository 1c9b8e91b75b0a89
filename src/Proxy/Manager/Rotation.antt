-- ===== src/Proxy/Manager/Rotation.antt =====
-- The rotation of the `auto` username: how many candidates, round robin, and the sticky window.
use proxy_forge.Prelude.{
  ℕ, ◌+◌, ◌%◌, ◌^◌, ◌≤◌, ◌<◌, ◌≡◌, sym, ap, ◌∙◌, ◌↔◌, inl, inr, Option, none, some, List, [], ◌∷◌,
  ◌++◌, arith, Option-cases, length, All, length-append, get_elem?_lt, All-get, All-append, Bytes,
}
use proxy_forge.Proxy.Dial.{max_proxy_dial_attempts, Egress}
use proxy_forge.Proxy.Manager.State.{tunnels_as_egress, Float64, RotateAssignment, Manager}
use proxy_forge.Proxy.Manager.Rank.{ranked_stable_candidates}
use proxy_forge.Proxy.Manager.Select.{
  agent_nodes, warp_nodes, online, index_from, sticky_pick, advance, pick_node, fill, other_heads,
  node_at, rotation_chain, rotate_among, rotate_nodes, rotate_candidates, Node,
}
use native.Mathlib.Nat.{mod-lt, mod-add-mod, mod-eq_of_lt}
use mathlib.Core.Path.{ap₂}
use proxy_forge.Prelude.Assoc.{bytes_key, lookup}

fill_bounds :
    (out es : List Egress)
    → length out ≤ max_proxy_dial_attempts
    → (length out ≤ length (fill out es)) × (length (fill out es) ≤ max_proxy_dial_attempts)
unfolding fill
fill_bounds out [] h = (omega arith, h)
fill_bounds out (e ∷ es) h =
    ground (arith, length-append out (e ∷ []), fill_bounds (out ++ e ∷ []) es)

-- A node has an outbound.
abbrev pub HasEgress : Node → Type 0
HasEgress n = 0 < length n.chain

agent_nodes-HasEgress : (es : List (Option Egress)) → All HasEgress (agent_nodes es)
unfolding agent_nodes
agent_nodes-HasEgress [] = tt
agent_nodes-HasEgress (none ∷ es) = agent_nodes-HasEgress es
agent_nodes-HasEgress (some eg ∷ es) = (omega arith, agent_nodes-HasEgress es)

warp_nodes-HasEgress : (chain : List Egress) → All HasEgress (warp_nodes chain)
unfolding warp_nodes
warp_nodes-HasEgress [] = tt
warp_nodes-HasEgress (eg ∷ chain) = (omega arith, tt)

rotate_nodes-HasEgress :
    (fl : Float64) (now : ℕ) (m : Manager) → All HasEgress (rotate_nodes fl now m)
unfolding rotate_nodes
rotate_nodes-HasEgress fl now m =
    let warp = tunnels_as_egress (ranked_stable_candidates fl m now) in
    All-append HasEgress (warp_nodes warp) (agent_nodes (online m.agent_resolver))
      (warp_nodes-HasEgress warp) (agent_nodes-HasEgress (online m.agent_resolver))

index_from_bound :
    (i : ℕ) (key : Bytes) (nodes : List Node) (j : ℕ)
    → index_from i key nodes ≡ some j
    → (i ≤ j) × (j < i + length nodes)
unfolding index_from
index_from_bound i key [] j h = cc
index_from_bound i key (n ∷ nodes) j h = ground (arith, index_from_bound (i + 1) key nodes j)

sticky_pick_bound :
    (now : ℕ) (client_ip : Bytes) (nodes : List Node) (sticky : List (Bytes × RotateAssignment))
    (j : ℕ)
    → sticky_pick now client_ip nodes sticky ≡ some j
    → j < length nodes
unfolding sticky_pick
sticky_pick_bound now client_ip nodes sticky j h = elim (Option-cases (lookup client_ip sticky)) [
  | inl missing ↦ ground arith
  | inr (a, found) ↦ ground (arith, index_from_bound 0 a.key nodes j)
]

-- The node that is picked is there: `nodes[pick]` does not panic.
pick_node_bound :
    (now : ℕ) (client_ip : Bytes) (nodes : List Node) (m : Manager)
    → 0 < length nodes
    → (pick_node now client_ip nodes m).0 < length nodes
unfolding pick_node advance
pick_node_bound now client_ip nodes m h =
    elim (Option-cases (sticky_pick now client_ip nodes m.rotate_sticky)) [
      | inl fresh ↦ ground (arith, mod-lt m.rotate_cursor h)
      | inr (j, kept) ↦ ground (arith, sticky_pick_bound now client_ip nodes m.rotate_sticky j kept)
    ]

rotation_chain_bounds :
    (nodes : List Node) (pick : ℕ)
    → All HasEgress nodes
    → pick < length nodes
    → (0 < length (rotation_chain nodes pick (node_at nodes pick)))
      × (length (rotation_chain nodes pick (node_at nodes pick)) ≤ max_proxy_dial_attempts)
unfolding rotation_chain
rotation_chain_bounds nodes pick all h =
    let (n, found) = get_elem?_lt nodes pick h in
    rw found (chain_bounds n.chain (All-get HasEgress nodes pick n all found))
  where
    chain_bounds :
        (chain : List Egress)
        → 0 < length chain
        → (let out : List Egress = elim chain [
          | [] ↦ []
          | e ∷ backups ↦ fill (fill (e ∷ []) (other_heads pick nodes)) backups
        ] in
            (0 < length out) × (length out ≤ max_proxy_dial_attempts))
    chain_bounds [] pos = elim pos [ ]
    chain_bounds (e ∷ backups) pos =
        let (lo, hi) = fill_bounds (e ∷ []) (other_heads pick nodes) (omega arith) in
        let (lo2, hi2) = fill_bounds (fill (e ∷ []) (other_heads pick nodes)) backups hi in
        (omega arith, hi2)

rotate_among_bounds :
    (now : ℕ) (client_ip : Bytes) (nodes : List Node) (m : Manager)
    → All HasEgress nodes
    → (length (rotate_among now client_ip nodes m).0 ≤ max_proxy_dial_attempts)
      × ((0 < length (rotate_among now client_ip nodes m).0) ↔ (0 < length nodes))
unfolding rotate_among
rotate_among_bounds now client_ip [] m all = (omega arith, (λ h. h, λ h. h))
rotate_among_bounds now client_ip (n ∷ rest) m all =
    let pick = (pick_node now client_ip (n ∷ rest) m).0 in
    let (lo, hi) =
      rotation_chain_bounds (n ∷ rest) pick all
        (pick_node_bound now client_ip (n ∷ rest) m (omega arith)) in
    (hi, (λ _. omega arith, λ _. lo))

-- The rotation gives a client at least one candidate exactly when a node is online, and never more
-- than three, however large the pool is.
pub rotate_candidates_bounds :
    (fl : Float64) (now : ℕ) (client_ip : Bytes) (m : Manager)
    → (length (rotate_candidates fl now client_ip m).0 ≤ max_proxy_dial_attempts)
      × ((0 < length (rotate_candidates fl now client_ip m).0)
          ↔ (0 < length (rotate_nodes fl now m)))
unfolding rotate_candidates
rotate_candidates_bounds fl now client_ip m =
    rotate_among_bounds now client_ip (rotate_nodes fl now m) m (rotate_nodes-HasEgress fl now m)

pub pick_fresh :
    (now : ℕ) (client_ip : Bytes) (nodes : List Node) (m : Manager)
    → sticky_pick now client_ip nodes m.rotate_sticky ≡ none
    → pick_node now client_ip nodes m ≡ advance now client_ip nodes m
unfolding pick_node
pick_fresh now client_ip nodes m h = rw (h, pick_node)

-- What a client without an assignment gets, and the cursor behind it.
fresh_cursor :
    (now : ℕ) (client_ip : Bytes) (nodes : List Node) (m : Manager)
    → sticky_pick now client_ip nodes m.rotate_sticky ≡ none
    → ((pick_node now client_ip nodes m).0 ≡ m.rotate_cursor % length nodes)
      × ((pick_node now client_ip nodes m).1.rotate_cursor ≡ (m.rotate_cursor + 1) % 2 ^ 64)
unfolding advance
fresh_cursor now client_ip nodes m h =
    let e = pick_fresh now client_ip nodes m h in
    (ap (λ (p : ℕ × Manager). p.0) e, ap (λ (p : ℕ × Manager). p.1.rotate_cursor) e)

-- Two clients without an assignment, one after the other, get neighbouring nodes: the second gets
-- the node behind the first one's, and the first node after the last. The cursor has not reached
-- its maximum, and the same number of nodes is online.
pub rotate_round_robin :
    (t1 t2 : ℕ) (ip1 ip2 : Bytes) (nodes1 nodes2 : List Node) (m : Manager)
    → sticky_pick t1 ip1 nodes1 m.rotate_sticky ≡ none
    → sticky_pick t2 ip2 nodes2 (pick_node t1 ip1 nodes1 m).1.rotate_sticky ≡ none
    → length nodes1 ≡ length nodes2
    → 0 < length nodes1
    → m.rotate_cursor + 1 < 2 ^ 64
    → (pick_node t2 ip2 nodes2 (pick_node t1 ip1 nodes1 m).1).0
      ≡ ((pick_node t1 ip1 nodes1 m).0 + 1) % length nodes1
rotate_round_robin t1 t2 ip1 ip2 nodes1 nodes2 m fresh1 fresh2 same pos small =
    let m1 = (pick_node t1 ip1 nodes1 m).1 in
    let (first, cursor) = fresh_cursor t1 ip1 nodes1 m fresh1 in
    let (next, _) = fresh_cursor t2 ip2 nodes2 m1 fresh2 in
    next
    ∙ ap₂ ◌%◌ (cursor ∙ mod-eq_of_lt small) (sym same)
    ∙ sym (mod-add-mod m.rotate_cursor (length nodes1) 1)
    ∙ ap (λ t. (t + 1) % length nodes1) (sym first)

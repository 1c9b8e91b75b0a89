-- ===== src/Proxy/Manager/Select.antt =====
-- The candidate chains of one connection: the pool, a slot, and the rotation over all nodes.
use proxy_forge.Prelude.{
  ℕ, zero, suc, ◌+◌, ◌-◌, ◌*◌, ◌%◌, ◌^◌, not, Option, none, some, List, [], ◌∷◌, ◌++◌, ltb, leb,
  if◌then◌else◌, length, get_elem?, select, Bytes, codes, str_eq, is_empty,
}
use proxy_forge.Prelude.Assoc.{bytes_key, lookup, insert}
use proxy_forge.Proxy.Dial.{max_proxy_dial_attempts, Egress}
use proxy_forge.Proxy.Manager.State.{
  or_zero, meta_of, tunnels_as_egress, Float64, Tunnel, RotateAssignment, AgentResolver, Manager,
}
use proxy_forge.Proxy.Manager.Score.{minute}
use proxy_forge.Proxy.Manager.Rank.{ranked_stable_candidates}

abbrev pub count_pick : Bytes → List (Bytes × ℕ) → List (Bytes × ℕ)
count_pick k counts = insert k (or_zero (lookup k counts) + 1) counts

unfoldable pub note_pick : ℕ → Bytes → Manager → Manager
note_pick now tag m =
    let ip = (meta_of m tag).public_ip in
    let picked = record m {
      last_picked = insert tag now m.last_picked;
      pick_count = count_pick tag m.pick_count;
    } in
    if is_empty ip then picked else record picked {
      last_picked_ip = insert ip now m.last_picked_ip;
      ip_pick_count = count_pick ip m.ip_pick_count;
    }

-- A logical node of the rotation: the WARP pool, or one agent.
pub record Node : Type 0 where
  pub key : Bytes
  pub chain : List Egress

abbrev pub rotate_sticky_window : ℕ
rotate_sticky_window = 3 * minute

unfoldable pub agent_nodes : List (Option Egress) → List Node
agent_nodes [] = []
agent_nodes (none ∷ es) = agent_nodes es
agent_nodes (some eg ∷ es) = record { key = eg.tag; chain = eg ∷ [] } ∷ agent_nodes es

unfoldable pub warp_nodes : List Egress → List Node
warp_nodes [] = []
warp_nodes (eg ∷ chain) = record { key = codes "warp"; chain = eg ∷ chain } ∷ []

abbrev pub online : Option AgentResolver → List (Option Egress)
online none = []
online (some r) = r.online_egresses

-- The index map: of two nodes with one key the later.
unfoldable pub index_from : ℕ → Bytes → List Node → Option ℕ
index_from i key [] = none
index_from i key (n ∷ nodes) = elim (index_from (i + 1) key nodes) [
  | some j ↦ some j
  | none ↦ if str_eq n.key key then some i else none
]

unfoldable pub prune_rotate_sticky :
    ℕ → List (Bytes × RotateAssignment) → List (Bytes × RotateAssignment)
prune_rotate_sticky now =
    select (λ (p : Bytes × RotateAssignment). not (leb rotate_sticky_window (now - p.1.assigned)))

-- The node of the client's assignment, if the window is open and the node is there.
unfoldable pub sticky_pick : ℕ → Bytes → List Node → List (Bytes × RotateAssignment) → Option ℕ
sticky_pick now client_ip nodes sticky =
    if is_empty client_ip then none else elim (lookup client_ip sticky) [
      | none ↦ none
      | some a ↦
          if ltb (now - a.assigned) rotate_sticky_window then index_from 0 a.key nodes else none
    ]

abbrev pub key_at : List Node → ℕ → Bytes
key_at [] i = []
key_at (n ∷ nodes) zero = n.key
key_at (n ∷ nodes) (suc i) = key_at nodes i

-- The next node by the cursor, a uint64, and the new assignment of the client.
unfoldable pub advance : ℕ → Bytes → List Node → Manager → ℕ × Manager
advance now client_ip nodes m =
    let pick = m.rotate_cursor % length nodes in
    let sticky =
      if is_empty client_ip
      then m.rotate_sticky
      else insert client_ip (record { key = key_at nodes pick; assigned = now }) m.rotate_sticky in
    (
      pick,
      record m {
        rotate_cursor = (m.rotate_cursor + 1) % 2 ^ 64;
        rotate_sticky = prune_rotate_sticky now sticky;
      },
    )

unfoldable pub pick_node : ℕ → Bytes → List Node → Manager → ℕ × Manager
pick_node now client_ip nodes m = elim (sticky_pick now client_ip nodes m.rotate_sticky) [
  | some i ↦ (i, m)
  | none ↦ advance now client_ip nodes m
]

-- Append while fewer than three candidates are there.
unfoldable pub fill : List Egress → List Egress → List Egress
fill out [] = out
fill out (e ∷ es) =
    let more = fill (out ++ e ∷ []) es in
    if leb max_proxy_dial_attempts (length out) then out else more

abbrev pub head_of : List Egress → List Egress
head_of [] = []
head_of (e ∷ es) = e ∷ []

unfoldable pub heads : List Node → List Egress
heads [] = []
heads (n ∷ nodes) = head_of n.chain ++ heads nodes

-- The first outbound of every node but the picked one.
unfoldable pub other_heads : ℕ → List Node → List Egress
other_heads pick [] = []
other_heads zero (n ∷ nodes) = heads nodes
other_heads (suc pick) (n ∷ nodes) = head_of n.chain ++ other_heads pick nodes

abbrev pub node_at : List Node → ℕ → Option Node
node_at = get_elem?

-- `nodes[pick]` and `selected.chain[0]`: an index out of range would be a panic, here no candidate.
unfoldable pub rotation_chain : List Node → ℕ → Option Node → List Egress
rotation_chain nodes pick none = []
rotation_chain nodes pick (some n) = elim n.chain [
  | [] ↦ []
  | e ∷ backups ↦ fill (fill (e ∷ []) (other_heads pick nodes)) backups
]

abbrev pub note_if_warp : ℕ → Option Node → List Egress → Manager → Manager
note_if_warp now none out m = m
note_if_warp now (some n) [] m = m
note_if_warp now (some n) (e ∷ es) m =
    if str_eq n.key (codes "warp") then note_pick now e.tag m else m

-- The choice among the nodes, and the candidates.
unfoldable pub rotate_among : ℕ → Bytes → List Node → Manager → List Egress × Manager
rotate_among now client_ip [] m = ([], m)
rotate_among now client_ip (n ∷ rest) m =
    let (pick, m') = pick_node now client_ip (n ∷ rest) m in
    let selected = node_at (n ∷ rest) pick in
    let out = rotation_chain (n ∷ rest) pick selected in (out, note_if_warp now selected out m')

unfoldable pub without_tag : Bytes → List Tunnel → List Tunnel
without_tag tag = select (λ (t : Tunnel). not (str_eq t.cfg.tag tag))

module _ (fl : Float64) where
  unfoldable pub rotate_nodes : ℕ → Manager → List Node
  rotate_nodes now m =
      warp_nodes (tunnels_as_egress (ranked_stable_candidates fl m now))
      ++ agent_nodes (online m.agent_resolver)

  -- rotateCandidatesLocked
  unfoldable pub rotate_candidates : ℕ → Bytes → Manager → List Egress × Manager
  rotate_candidates now client_ip m = rotate_among now client_ip (rotate_nodes now m) m

  -- stableCandidatesLocked
  unfoldable pub stable_candidates : ℕ → Manager → List Tunnel × Manager
  stable_candidates now m = elim (ranked_stable_candidates fl m now) [
    | [] ↦ ([], m)
    | t ∷ ts ↦ (t ∷ ts, note_pick now t.cfg.tag m)
  ]

  -- slotCandidatesLocked: the bound tunnel first, then the pool without it.
  unfoldable pub slot_candidates : ℕ → Bytes → Manager → List Tunnel × Manager
  slot_candidates now tag m = elim (lookup tag m.tunnels) [
    | some t ↦
        let m' = note_pick now tag m in
        (t ∷ without_tag tag (ranked_stable_candidates fl m' now), m')
    | none ↦ (without_tag tag (ranked_stable_candidates fl m now), m)
  ]

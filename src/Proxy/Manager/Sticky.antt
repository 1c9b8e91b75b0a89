-- ===== src/Proxy/Manager/Sticky.antt =====
-- The sticky window: a client that was assigned a node keeps it while the window is open.
use native.Mathlib.Nat.{mod-lt}
use proxy_forge.Prelude.{
  ℕ, zero, suc, ◌+◌, ◌-◌, ◌%◌, ◌<◌, ◌≡◌, refl, ap, ◌∙◌, false, none, some, List, [], ◌∷◌, map,
  arith, length, All, Bytes, str_eq, str_eq_refl, is_empty,
}
use proxy_forge.Prelude.Assoc.{bytes_key, lookup, insert, lookup-insert_self}
use proxy_forge.Proxy.Manager.State.{RotateAssignment, Manager}
use proxy_forge.Proxy.Manager.Select.{
  rotate_sticky_window, index_from, prune_rotate_sticky, sticky_pick, key_at, advance, pick_node,
  Node,
}
use proxy_forge.Proxy.Manager.Rotation.{pick_fresh}

-- No two nodes have one key: agents are keyed by their ids, and the pool is one node.
abbrev pub IsDistinct : List Node → Type 0
IsDistinct [] = Unit {0}
IsDistinct (n ∷ nodes) = All (λ x. str_eq x.key n.key ≡ false) nodes × IsDistinct nodes

index_from-none :
    (i : ℕ) (key : Bytes) (nodes : List Node)
    → All (λ x. str_eq x.key key ≡ false) nodes
    → index_from i key nodes ≡ none
unfolding index_from
index_from-none i key [] h = refl
index_from-none i key (n ∷ nodes) h = ground (arith, index_from-none (i + 1) key nodes h.1)

-- The index map finds each node under its own key.
index_from-key_at :
    (i pick : ℕ) (nodes : List Node)
    → IsDistinct nodes
    → pick < length nodes
    → index_from i (key_at nodes pick) nodes ≡ some (i + pick)
unfolding index_from
index_from-key_at i pick [] d h = elim h [ ]
index_from-key_at i zero (n ∷ nodes) d h =
    ground (arith, index_from-none (i + 1) n.key nodes d.0, str_eq_refl n.key)
index_from-key_at i (suc pick) (n ∷ nodes) d h =
    ground (arith, index_from-key_at (i + 1) pick nodes d.1)

-- The index map looks at the keys only.
index_from_keys :
    (i : ℕ) (key : Bytes) (nodes later : List Node)
    → map (λ n. n.key) later ≡ map (λ n. n.key) nodes
    → index_from i key later ≡ index_from i key nodes
unfolding index_from
index_from_keys i key [] [] h = refl
index_from_keys i key [] (x ∷ later) h = cc
index_from_keys i key (n ∷ nodes) [] h = cc
index_from_keys i key (n ∷ nodes) (x ∷ later) h =
    ground (arith, index_from_keys (i + 1) key nodes later)

-- Pruning keeps an assignment whose window is open.
lookup-prune :
    (now : ℕ) (ip : Bytes) (sticky : List (Bytes × RotateAssignment)) (a : RotateAssignment)
    → lookup ip sticky ≡ some a
    → now - a.assigned < rotate_sticky_window
    → lookup ip (prune_rotate_sticky now sticky) ≡ some a
unfolding lookup prune_rotate_sticky
lookup-prune now ip [] a h fresh = cc
lookup-prune now ip ((k, b) ∷ sticky) a h fresh = ground (arith, lookup-prune now ip sticky a)

advance_sticky :
    (now : ℕ) (ip : Bytes) (nodes : List Node) (m : Manager)
    → is_empty ip ≡ false
    → lookup ip (advance now ip nodes m).1.rotate_sticky
      ≡ some (record { key = key_at nodes (m.rotate_cursor % length nodes); assigned = now })
unfolding advance
advance_sticky now ip nodes m named =
    let a : RotateAssignment = record {
      key = key_at nodes (m.rotate_cursor % length nodes);
      assigned = now;
    } in
    rw named (
      lookup-prune now ip (insert ip a m.rotate_sticky) a (lookup-insert_self ip a m.rotate_sticky)
        (omega arith))

sticky_pick_found :
    (now : ℕ) (ip : Bytes) (nodes : List Node) (sticky : List (Bytes × RotateAssignment))
    (a : RotateAssignment) (j : ℕ)
    → is_empty ip ≡ false
    → lookup ip sticky ≡ some a
    → now - a.assigned < rotate_sticky_window
    → index_from 0 a.key nodes ≡ some j
    → sticky_pick now ip nodes sticky ≡ some j
unfolding sticky_pick
sticky_pick_found now ip nodes sticky a j named found open_window index = ground arith

pick_kept :
    (now : ℕ) (ip : Bytes) (nodes : List Node) (m : Manager) (j : ℕ)
    → sticky_pick now ip nodes m.rotate_sticky ≡ some j
    → pick_node now ip nodes m ≡ (j, m)
unfolding pick_node
pick_kept now ip nodes m j h = rw (h, pick_node)

-- A client with an address that has just been assigned a node gets the same node again until the
-- window of three minutes closes, as long as the same nodes are online: the choice is not made anew,
-- and the cursor and the assignments stay as they are.
pub rotate_sticky :
    (now later : ℕ) (ip : Bytes) (nodes nodes_later : List Node) (m : Manager)
    → is_empty ip ≡ false
    → sticky_pick now ip nodes m.rotate_sticky ≡ none
    → 0 < length nodes
    → IsDistinct nodes
    → map (λ n. n.key) nodes_later ≡ map (λ n. n.key) nodes
    → later < now + rotate_sticky_window
    → pick_node later ip nodes_later (pick_node now ip nodes m).1 ≡ pick_node now ip nodes m
unfolding advance
rotate_sticky now later ip nodes nodes_later m named fresh pos distinct same_nodes open_window =
    let pick = m.rotate_cursor % length nodes in
    let assigned_node : RotateAssignment = record { key = key_at nodes pick; assigned = now } in
    let index : index_from 0 (key_at nodes pick) nodes_later ≡ some pick =
      index_from_keys 0 (key_at nodes pick) nodes nodes_later same_nodes
      ∙ index_from-key_at 0 pick nodes distinct (mod-lt m.rotate_cursor pos)
      ∙ ap some (omega arith) in
    let kept = pick_kept later ip nodes_later (advance now ip nodes m).1 pick (
      sticky_pick_found later ip nodes_later (advance now ip nodes m).1.rotate_sticky assigned_node
        pick named (advance_sticky now ip nodes m named) (omega arith) index) in
    rw (pick_fresh now ip nodes m fresh) kept

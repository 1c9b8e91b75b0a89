-- ===== src/Proxy/Trojan/Relay/Adding.antt =====
-- A new association.
use mathlib.Core.Path.{subst₂}
use proxy_forge.Prelude.{
  ℕ, suc, ◌<◌, ◌≡◌, refl, sym, ap, ◌∙◌, subst, inl, inr, Bool, true, false, not, Option, none, some,
  arith, leb, ◌==◌, if◌then◌else◌, Bool-cases, Option-cases, length, Bytes,
}
use proxy_forge.Prelude.Assoc.{
  bytes_key, number_key, lookup, insert, erase, lookup-insert, lookup-insert_self, length-insert-le,
}
use proxy_forge.Proxy.Trojan.Relay.{
  max_associations, is_closed, sweep, add_association, association, Association, Relay,
}
use proxy_forge.Proxy.Trojan.Relay.Closing.{reports_of, due, due_same, due-none, due_open, IsSound}
use proxy_forge.Proxy.Trojan.Relay.Sound.{sweep_open, swept-IsSound}

module _ (r : Relay) (v : IsSound r) (target host egress : Bytes) (port : ℕ)
    (idle : (j : ℕ) → lookup target r.active ≡ some j → is_closed r j ≡ true) where
  abbrev fresh : Association
  fresh = record {
    egress = egress;
    target = target;
    host = host;
    port = port;
    closed = false;
    up_bytes = 0;
    dn_bytes = 0;
  }

  abbrev grown : Relay
  grown = record r {
    active = insert target r.next_id (sweep r (erase target r.active));
    associations = insert r.next_id fresh r.associations;
    next_id = suc r.next_id;
  }

  unused : lookup r.next_id r.associations ≡ none
  unused = elim (Option-cases (lookup r.next_id r.associations)) [
    | inl e ↦ e
    | inr a ↦ absurd (omega (arith, v.numbered r.next_id a.0 a.1))
  ]

  pub grown-IsSound : length (sweep r (erase target r.active)) < max_associations → IsSound grown
  grown-IsSound room = record {
    bounded =
        omega (arith, room, length-insert-le target r.next_id (sweep r (erase target r.active)));
    numbered = λ j b h. elim (Bool-cases (r.next_id == j)) [
      | inl same ↦ ground arith
      | inr other ↦ omega (
        arith,
        v.numbered j b (ground (arith, lookup-insert r.next_id j fresh r.associations, h, other)),
      )
    ];
    open_active = λ j b h o. elim (Bool-cases (r.next_id == j)) [
      | inl same ↦
          let e : r.next_id ≡ j = ground arith in
          let f : some fresh ≡ some b =
            ground (arith, lookup-insert r.next_id j fresh r.associations, h, same) in
          let g : fresh ≡ b = cc f in
          subst₂ (λ (n : ℕ) (c : Association). lookup c.target grown.active ≡ some n) e g
            (lookup-insert_self target r.next_id (sweep r (erase target r.active)))
      | inr other ↦
          let old : lookup j r.associations ≡ some b =
            ground (arith, lookup-insert r.next_id j fresh r.associations, h, other) in
          let k = sweep_open r v target j b idle old o in
          ground (
            arith,
            lookup-insert target b.target r.next_id (sweep r (erase target r.active)),
            k.0,
            k.1,
          )
    ];
    reported = λ j. elim (Bool-cases (r.next_id == j)) [
      | inl same ↦
          subst (λ (n : ℕ). reports_of n r.reports ≡ due grown (lookup n grown.associations))
            (ground arith)
            (v.reported r.next_id
              ∙ ap (due r) unused
              ∙ due-none r
              ∙ sym (due_open grown fresh refl)
              ∙ ap (due grown) (sym (lookup-insert_self r.next_id fresh r.associations)))
      | inr other ↦
          v.reported j
          ∙ ap (due r) (ground (arith, lookup-insert r.next_id j fresh r.associations, other))
          ∙ sym (due_same r grown refl refl (lookup j grown.associations))
    ];
  }

-- What `association` answers: the open association of the target, which is in the map.
abbrev pub IsGot : Bytes → Option ℕ × Relay → Type 0
IsGot target (none, r) = IsSound r
IsGot target (some id, r) = IsSound r × (lookup target r.active ≡ some id)

add_association-IsGot :
    (target host : Bytes) (port : ℕ) (dialed : Option Bytes) (r : Relay)
    → IsSound r
    → ((j : ℕ) → lookup target r.active ≡ some j → is_closed r j ≡ true)
    → IsGot target (add_association target host port dialed r)
unfolding add_association
add_association-IsGot target host port dialed r v idle =
    go (leb max_associations (length (sweep r (erase target r.active)))) refl dialed
  where
    swept : Relay
    swept = record r { active = sweep r (erase target r.active) }

    go :
        (b : Bool)
        → leb max_associations (length swept.active) ≡ b
        → (d : Option Bytes)
        → let x : Option ℕ × Relay = if b then (none, swept) else elim d [
          | none ↦ (none, swept)
          | some egress ↦ (some r.next_id, grown r v target host egress port idle)
        ] in
          IsGot target x
    go true e d = swept-IsSound r v target idle
    go false e none = swept-IsSound r v target idle
    go false e (some egress) = (
      grown-IsSound r v target host egress port idle (ground (arith, e)),
      lookup-insert_self target r.next_id (sweep r (erase target r.active)),
    )

pub association-IsGot :
    (target host : Bytes) (port : ℕ) (dialed : Option Bytes) (r : Relay)
    → IsSound r
    → IsGot target (association target host port dialed r)
unfolding association
association-IsGot target host port dialed r v = go (lookup target r.active) refl
  where
    added : Option ℕ × Relay
    added = add_association target host port dialed r

    by_state :
        (id : ℕ) (b : Bool)
        → lookup target r.active ≡ some id
        → is_closed r id ≡ b
        → let x : Option ℕ × Relay = if not b then (some id, r) else added in IsGot target x
    by_state id false e h = (v, e)
    by_state id true e h =
        add_association-IsGot target host port dialed r v
          (λ j f. let q : id ≡ j = cc (e, f) in subst (λ (n : ℕ). is_closed r n ≡ true) q h)

    go :
        (o : Option ℕ)
        → lookup target r.active ≡ o
        → let x : Option ℕ × Relay = elim o [
          | none ↦ added
          | some id ↦ if not (is_closed r id) then (some id, r) else added
        ] in
          IsGot target x
    go none e = add_association-IsGot target host port dialed r v (λ j f. cc (e, f))
    go (some id) e = by_state id (is_closed r id) e refl

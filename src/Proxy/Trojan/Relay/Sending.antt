-- ===== src/Proxy/Trojan/Relay/Sending.antt =====
-- A packet sent and an association closed: what stays open, and that the invariant is kept.
use proxy_forge.Prelude.{
  ℕ, ◌≡◌, refl, sym, ap, ◌∙◌, ◌≢◌, inl, inr, Bool, true, false, ◌&&◌, Option, none, some, List, ◌∷◌,
  arith, ◌==◌, if◌then◌else◌, Bool-cases, Bytes, str_eq, str_eq_iff,
}
use proxy_forge.Prelude.Assoc.{
  bytes_key, number_key, lookup, insert, erase, lookup-insert, lookup-erase, length-erase-le,
}
use proxy_forge.Proxy.Trojan.Relay.{
  usage_of, report_usage, close_found, close_association, association, count_up, write_packet,
  attempt_send, send, Association, Relay, RelayAttempt,
}
use proxy_forge.Proxy.Trojan.Relay.Closing.{due_same, close_association-IsSound, IsSound}
use proxy_forge.Proxy.Trojan.Relay.Sound.{count_up-IsSound}
use proxy_forge.Proxy.Trojan.Relay.Adding.{IsGot, association-IsGot}

pub close_association-active : (id : ℕ) (r : Relay) → (close_association id r).active ≡ r.active
unfolding close_association close_found report_usage
close_association-active id r = go (lookup id r.associations)
  where
    go : (o : Option Association) → (close_found id o r).active ≡ r.active
    go none = refl
    go (some a) = by_state (a.closed) (a.up_bytes == 0 && a.dn_bytes == 0)
      where
        shut : Relay
        shut = record r { associations = insert id (record a { closed = true }) r.associations }

        by_state :
            (b c : Bool)
            → let x : Relay =
                if b
                then r
                else if c
                then shut
                else record shut { reports = (id, usage_of shut a) ∷ r.reports } in
              x.active ≡ r.active
        by_state true c = refl
        by_state false true = refl
        by_state false false = refl

-- What is open behind a close is another association, and was so before.
pub close_association-open :
    (id j : ℕ) (r : Relay) (b : Association)
    → lookup j (close_association id r).associations ≡ some b
    → b.closed ≡ false
    → (id ≢ j) × (lookup j r.associations ≡ some b)
unfolding close_association close_found report_usage
close_association-open id j r b e o = go (lookup id r.associations) refl e
  where
    go :
        (x : Option Association)
        → lookup id r.associations ≡ x
        → lookup j (close_found id x r).associations ≡ some b
        → (id ≢ j) × (lookup j r.associations ≡ some b)
    go none f e = ((λ s. cc (f, e, ap (λ (n : ℕ). lookup n r.associations) s)), e)
    go (some a) f e = by_state (a.closed) (a.up_bytes == 0 && a.dn_bytes == 0) refl e
      where
        a' : Association
        a' = record a { closed = true }

        shut : Relay
        shut = record r { associations = insert id a' r.associations }

        inserted :
            lookup j (insert id a' r.associations) ≡ some b
            → (id ≢ j) × (lookup j r.associations ≡ some b)
        inserted e = elim (Bool-cases (id == j)) [
          | inl same ↦
              let g : some a' ≡ some b =
                ground (arith, lookup-insert id j a' r.associations, e, same) in
              let h : a' ≡ b = cc g in cc (ap (λ (x : Association). x.closed) h, o)
          | inr other ↦
              (ground arith, ground (arith, lookup-insert id j a' r.associations, e, other))
        ]

        by_state :
            (p q : Bool)
            → a.closed ≡ p
            → let x : Relay =
                if p
                then r
                else if q
                then shut
                else record shut { reports = (id, usage_of shut a) ∷ r.reports } in
              lookup j x.associations ≡ some b → (id ≢ j) × (lookup j r.associations ≡ some b)
        by_state true q h e = (
          (λ s.
              let g : a ≡ b = cc (f, e, ap (λ (n : ℕ). lookup n r.associations) s) in
              cc (h, o, ap (λ (x : Association). x.closed) g)),
          e,
        )
        by_state false true h e = inserted e
        by_state false false h e = inserted e

pub write_packet-IsSound :
    (target : Bytes) (id size : ℕ) (wrote : Option ℕ) (r : Relay)
    → IsSound r
    → lookup target r.active ≡ some id
    → IsSound (write_packet target id size wrote r).1
unfolding write_packet
write_packet-IsSound target id size wrote r v here = go (done.0)
  where
    done : Bool × Relay
    done = count_up id size wrote (lookup id r.associations) r

    closed : Relay
    closed = close_association id r

    w : IsSound closed
    w = close_association-IsSound id r v

    dropped : Relay
    dropped = record closed { active = erase target closed.active }

    target_other :
        (j : ℕ) (b : Association)
        → lookup j closed.associations ≡ some b
        → b.closed ≡ false
        → str_eq target b.target ≡ false
    target_other j b e o = elim (Bool-cases (str_eq target b.target)) [
      | inr other ↦ other
      | inl s ↦
          let found : lookup target closed.active ≡ some j =
            ap (λ (t : Bytes). lookup t closed.active) ((str_eq_iff target b.target).0 s)
            ∙ w.open_active j b e o in
          let held : lookup target closed.active ≡ some id =
            ap (λ (l : List (Bytes × ℕ)). lookup target l) (close_association-active id r) ∙ here in
          absurd ((close_association-open id j r b e o).0 (cc (found, held)))
    ]

    go : (b : Bool) → let x : Bool × Relay = if b then done else (false, dropped) in IsSound x.1
    go true = count_up-IsSound id size wrote r v
    go false = record {
      bounded = omega (arith, w.bounded, length-erase-le target closed.active);
      numbered = w.numbered;
      open_active = λ j b e o. ground (
        arith,
        lookup-erase target b.target closed.active,
        target_other j b e o,
        w.open_active j b e o,
      );
      reported = λ j.
          w.reported j ∙ sym (due_same closed dropped refl refl (lookup j closed.associations));
    }

attempt_send-IsSound :
    (target host : Bytes) (port size : ℕ) (att : RelayAttempt) (r : Relay)
    → IsSound r
    → IsSound (attempt_send target host port size att r).1
unfolding attempt_send
attempt_send-IsSound target host port size att r v =
    go (association target host port att.dialed r)
      (association-IsGot target host port att.dialed r v)
  where
    go :
        (got : Option ℕ × Relay)
        → IsGot target got
        → let x : Option Bool × Relay = elim (got.0) [
          | none ↦ (none, got.1)
          | some id ↦ (
            some (write_packet target id size att.wrote got.1).0,
            (write_packet target id size att.wrote got.1).1,
          )
        ] in
          IsSound x.1
    go (none, p) g = g
    go (some id, p) g = write_packet-IsSound target id size att.wrote p g.0 g.1

pub send-IsSound :
    (target host : Bytes) (port size : ℕ) (first second : RelayAttempt) (r : Relay)
    → IsSound r
    → IsSound (send target host port size first second r).1
unfolding send
send-IsSound target host port size first second r v = go (one.0)
  where
    one : Option Bool × Relay
    one = attempt_send target host port size first r

    two : Option Bool × Relay
    two = attempt_send target host port size second one.1

    one_sound : IsSound one.1
    one_sound = attempt_send-IsSound target host port size first r v

    two_sound : IsSound two.1
    two_sound = attempt_send-IsSound target host port size second one.1 one_sound

    last : Option Bool → Bool × Relay
    last o = elim o as (λ _. Bool × Relay) [ none ↦ (false, two.1) | some b ↦ (b, two.1) ]

    last_sound : (o : Option Bool) → IsSound (last o).1
    last_sound none = two_sound
    last_sound (some b) = two_sound

    go :
        (o : Option Bool)
        → let x : Bool × Relay = elim o [
          | none ↦ (false, one.1)
          | some true ↦ (true, one.1)
          | some false ↦ last (two.0)
        ] in
          IsSound x.1
    go none = one_sound
    go (some true) = one_sound
    go (some false) = last_sound (two.0)

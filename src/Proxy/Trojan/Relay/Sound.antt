-- ===== src/Proxy/Trojan/Relay/Sound.antt =====
-- Every operation of a Trojan connection's UDP relay keeps the invariant.
use proxy_forge.Prelude.{
  ℕ, ◌+◌, ◌≤◌, ◌≡◌, refl, sym, ap, ◌∙◌, inl, inr, Bool, true, false, not, Option, none, some, List,
  [], ◌∷◌, arith, ◌==◌, if◌then◌else◌, Bool-cases, length, select, length-select-le, Bytes, str_eq,
  str_eq_iff,
}
use proxy_forge.Prelude.Assoc.{
  bytes_key, number_key, lookup, insert, erase, lookup-erase, length-erase-le,
}
use proxy_forge.Proxy.Trojan.Relay.{
  max_associations, is_closed, sweep, count_up, count_down, respond, Association, Relay,
}
use proxy_forge.Proxy.Trojan.Relay.Closing.{
  due_same, change-IsSound, due_open, open_unreported, IsSound,
}

pub count_up-IsSound :
    (id size : ℕ) (wrote : Option ℕ) (r : Relay)
    → IsSound r
    → IsSound (count_up id size wrote (lookup id r.associations) r).1
unfolding count_up
count_up-IsSound id size wrote r v = go (lookup id r.associations) refl
  where
    by_answer :
        (a : Association)
        → lookup id r.associations ≡ some a
        → (b : Bool) → a.closed ≡ b
        → (w : Option ℕ)
        → let counted : Relay = record r {
          associations = insert id (record a { up_bytes = a.up_bytes + size }) r.associations;
        } in
          let x : Bool × Relay = if b then (false, r) else elim w [
            | none ↦ (false, r)
            | some n ↦ if n == size then (true, counted) else (false, r)
          ] in
          IsSound x.1
    by_answer a e true h w = v
    by_answer a e false h none = v
    by_answer a e false h (some n) = by_count (n == size)
      where
        a' : Association
        a' = record a { up_bytes = a.up_bytes + size }

        counted : Relay
        counted = record r { associations = insert id a' r.associations }

        by_count :
            (b : Bool)
            → let x : Bool × Relay = if b then (true, counted) else (false, r) in IsSound x.1
        by_count true =
            change-IsSound r v id a a' e r.reports refl (λ k. h)
              (open_unreported r id a v e h ∙ sym (due_open r a' h)) (λ j o. refl)
        by_count false = v

    go :
        (o : Option Association)
        → lookup id r.associations ≡ o
        → IsSound (count_up id size wrote o r).1
    go none e = v
    go (some a) e = by_answer a e (a.closed) refl wrote

pub respond-IsSound : (id written : ℕ) (r : Relay) → IsSound r → IsSound (respond id written r)
unfolding respond count_down
respond-IsSound id written r v = go (lookup id r.associations) refl
  where
    by_state :
        (a : Association)
        → lookup id r.associations ≡ some a
        → (b : Bool) → a.closed ≡ b
        → IsSound (
            if b then r else record r {
              associations =
                  insert id (record a { dn_bytes = a.dn_bytes + written }) r.associations;
            })
    by_state a e true h = v
    by_state a e false h =
        let a' : Association = record a { dn_bytes = a.dn_bytes + written } in
        change-IsSound r v id a a' e r.reports refl (λ k. h)
          (open_unreported r id a v e h ∙ sym (due_open r a' h)) (λ j o. refl)

    go :
        (o : Option Association)
        → lookup id r.associations ≡ o
        → IsSound (count_down id written o r)
    go none e = v
    go (some a) e = by_state a e (a.closed) refl

-- The sweep keeps what is open.
lookup-select :
    (p : Bytes × ℕ → Bool) (k : Bytes) (n : ℕ) (m : List (Bytes × ℕ))
    → lookup k m ≡ some n
    → ((j : Bytes) → j ≡ k → p (j, n) ≡ true)
    → lookup k (select p m) ≡ some n
unfolding lookup
lookup-select p k n [] e h = e
lookup-select p k n ((j, i) ∷ m) e h =
    go (p (j, i)) (str_eq j k) refl refl (λ l. lookup-select p k n m l h) e
  where
    go :
        (b c : Bool)
        → p (j, i) ≡ b
        → str_eq j k ≡ c
        → (lookup k m ≡ some n → lookup k (select p m) ≡ some n)
        → (if c then some i else lookup k m) ≡ some n
        → lookup k (if b then (j, i) ∷ select p m else select p m) ≡ some n
    go true true f s ih e = rw s e
    go true false f s ih e = rw s (ih e)
    go false false f s ih e = ih e
    go false true f s ih e =
        let q : i ≡ n = cc e in cc (f, h j ((str_eq_iff j k).0 s), ap (λ (x : ℕ). p (j, x)) q)

module _ (r : Relay) (v : IsSound r) where
  open_lookup :
      (id : ℕ) (a : Association)
      → lookup id r.associations ≡ some a
      → a.closed ≡ false
      → is_closed r id ≡ false
  unfolding is_closed
  open_lookup id a e h = rw (e, is_closed) h

  -- The part of the map that is not swept away, when the target has no open association.
  pub sweep_open :
      (target : Bytes) (id : ℕ) (a : Association)
      → ((j : ℕ) → lookup target r.active ≡ some j → is_closed r j ≡ true)
      → lookup id r.associations ≡ some a
      → a.closed ≡ false
      → (str_eq target a.target ≡ false)
        × (lookup a.target (sweep r (erase target r.active)) ≡ some id)
  unfolding sweep
  sweep_open target id a idle e h = (
    other,
    lookup-select (λ x. not (is_closed r x.1)) a.target id (erase target r.active)
        (ground (arith, lookup-erase target a.target r.active, other, v.open_active id a e h))
        (λ j k. ap not (open_lookup id a e h)),
  )
    where
      other : str_eq target a.target ≡ false
      other = elim (Bool-cases (str_eq target a.target)) [
        | inr o ↦ o
        | inl s ↦ cc (
          open_lookup id a e h,
          idle id (
              ap (λ (t : Bytes). lookup t r.active) ((str_eq_iff target a.target).0 s)
              ∙ v.open_active id a e h),
        )
      ]

  swept_bound : (target : Bytes) → length (sweep r (erase target r.active)) ≤ max_associations
  unfolding sweep
  swept_bound target = omega (
    arith,
    v.bounded,
    length-erase-le target r.active,
    length-select-le (λ x. not (is_closed r x.1)) (erase target r.active),
  )

  pub swept-IsSound :
      (target : Bytes)
      → ((j : ℕ) → lookup target r.active ≡ some j → is_closed r j ≡ true)
      → IsSound (record r { active = sweep r (erase target r.active) })
  swept-IsSound target idle = record {
    bounded = swept_bound target;
    numbered = v.numbered;
    open_active = λ id a e h. (sweep_open target id a idle e h).1;
    reported = λ id.
        v.reported id
        ∙ sym (
            due_same r (record r { active = sweep r (erase target r.active) }) refl refl
              (lookup id r.associations));
  }

-- ===== src/Proxy/Trojan/Relay/Closing.antt =====
-- The invariant of a Trojan connection's UDP associations, and what a change of one association does
-- to it.
use mathlib.Core.Path.{subst₂, ap₂}
use proxy_forge.Prelude.{
  ℕ, ◌≤◌, ◌<◌, ◌≡◌, refl, sym, ap, ◌∙◌, subst, ◌≢◌, inl, inr, Bool, true, false, not, ◌&&◌, Option,
  none, some, List, [], ◌∷◌, arith, ◌==◌, if◌then◌else◌, ==_refl, Bool-cases, length, Bytes,
}
use proxy_forge.Prelude.Assoc.{
  bytes_key, number_key, lookup, insert, lookup-insert, lookup-insert_self,
}
use proxy_forge.Proxy.Usage.{ProxyUsage}
use proxy_forge.Proxy.Trojan.Relay.{
  max_associations, new_relay, usage_of, report_usage, close_found, close_association, Association,
  Relay,
}

-- The calls of onUsage for one association.
unfoldable pub reports_of : ℕ → List (ℕ × ProxyUsage) → List ProxyUsage
reports_of id [] = []
reports_of id ((i, u) ∷ reports) =
    let rest = reports_of id reports in if i == id then u ∷ rest else rest

-- What is to have been reported of an association: nothing while it is open, and its bytes once it is
-- closed, unless there are none.
unfoldable pub due : Relay → Option Association → List ProxyUsage
unfolding usage_of
due r none = []
due r (some a) =
    if not a.closed
    then []
    else if a.up_bytes == 0 && a.dn_bytes == 0
    then []
    else usage_of r a ∷ []

pub record IsSound (r : Relay) : Type 0 where
  pub bounded : length r.active ≤ max_associations
  pub numbered : (id : ℕ) (a : Association) → lookup id r.associations ≡ some a → id < r.next_id
  pub open_active :
      (id : ℕ) (a : Association)
      → lookup id r.associations ≡ some a
      → a.closed ≡ false
      → lookup a.target r.active ≡ some id
  pub reported : (id : ℕ) → reports_of id r.reports ≡ due r (lookup id r.associations)

pub new_relay-IsSound : (ip username : Bytes) → IsSound (new_relay ip username)
unfolding new_relay reports_of due lookup
new_relay-IsSound ip username = record {
  bounded = omega arith;
  numbered = λ id a h. cc h;
  open_active = λ id a h o. cc h;
  reported = λ id. refl;
}

pub due_same :
    (r r' : Relay)
    → r'.client_ip ≡ r.client_ip
    → r'.username ≡ r.username
    → (o : Option Association) → due r' o ≡ due r o
unfolding due usage_of
due_same r r' i u none = refl
due_same r r' i u (some a) =
    ap₂
      (λ (ip name : Bytes).
        if not a.closed
        then []
        else if a.up_bytes == 0 && a.dn_bytes == 0
        then []
        else (record {
          client_ip = ip;
          username = name;
          account_tag = a.egress;
          up_bytes = a.up_bytes;
          down_bytes = a.dn_bytes;
        })
          ∷ [])
      i u

-- One association changes, with its reports.
module _ (r : Relay) (v : IsSound r) (id : ℕ) (a a' : Association)
    (there : lookup id r.associations ≡ some a) (reports : List (ℕ × ProxyUsage)) where
  abbrev changed : Relay
  changed = record r { associations = insert id a' r.associations; reports = reports }

  pub change-IsSound :
      a'.target ≡ a.target
      → (a'.closed ≡ false → a.closed ≡ false)
      → reports_of id reports ≡ due r (some a')
      → ((j : ℕ) → id ≢ j → reports_of j reports ≡ reports_of j r.reports)
      → IsSound changed
  change-IsSound target opens mine others = record {
    bounded = v.bounded;
    numbered = λ j b h. elim (Bool-cases (id == j)) [
      | inl same ↦ subst (λ (n : ℕ). n < r.next_id) (ground arith) (v.numbered id a there)
      | inr other ↦ v.numbered j b (ground (arith, lookup-insert id j a' r.associations, h, other))
    ];
    open_active = λ j b h o. elim (Bool-cases (id == j)) [
      | inl same ↦
          let e : id ≡ j = ground arith in
          let f : some a' ≡ some b =
            ground (arith, lookup-insert id j a' r.associations, h, same) in
          let g : a' ≡ b = cc f in
          subst₂ (λ (n : ℕ) (c : Association). c.closed ≡ false → lookup c.target r.active ≡ some n)
            e g
            (λ k. ap (λ (t : Bytes). lookup t r.active) target ∙ v.open_active id a there (opens k))
            o
      | inr other ↦
          v.open_active j b (ground (arith, lookup-insert id j a' r.associations, h, other)) o
    ];
    reported = λ j. elim (Bool-cases (id == j)) [
      | inl same ↦
          subst (λ (n : ℕ). reports_of n reports ≡ due changed (lookup n changed.associations))
            (ground arith)
            (mine
              ∙ ap (due r) (sym (lookup-insert_self id a' r.associations))
              ∙ sym (due_same r changed refl refl (lookup id changed.associations)))
      | inr other ↦
          others j (ground arith)
          ∙ v.reported j
          ∙ ap (due r) (ground (arith, lookup-insert id j a' r.associations, other))
          ∙ sym (due_same r changed refl refl (lookup j changed.associations))
    ];
  }

pub due-none : (r : Relay) → due r none ≡ []
unfolding due
due-none r = refl

pub due_open : (r : Relay) (a : Association) → a.closed ≡ false → due r (some a) ≡ []
unfolding due
due_open r a h = rw h refl

-- Of an open association nothing was reported.
pub open_unreported :
    (r : Relay) (id : ℕ) (a : Association)
    → IsSound r
    → lookup id r.associations ≡ some a
    → a.closed ≡ false
    → reports_of id r.reports ≡ []
open_unreported r id a v e h = v.reported id ∙ ap (due r) e ∙ due_open r a h

report_usage-IsSound :
    (r : Relay) (id : ℕ) (a : Association)
    → IsSound r
    → lookup id r.associations ≡ some a
    → a.closed ≡ false
    → IsSound (
        report_usage id a
          (record r { associations = insert id (record a { closed = true }) r.associations }))
unfolding report_usage due usage_of reports_of
report_usage-IsSound r id a v e h = by_bytes (a.up_bytes == 0 && a.dn_bytes == 0) refl
  where
    a' : Association
    a' = record a { closed = true }

    shut : Relay
    shut = record r { associations = insert id a' r.associations }

    empty : reports_of id r.reports ≡ []
    empty = open_unreported r id a v e h

    by_bytes :
        (b : Bool)
        → (a.up_bytes == 0 && a.dn_bytes == 0) ≡ b
        → IsSound (if b then shut else record shut { reports = (id, usage_of shut a) ∷ r.reports })
    by_bytes true z =
        change-IsSound r v id a a' e r.reports refl (λ k. h) (empty ∙ (rw z refl)) (λ j o. refl)
    by_bytes false z =
        change-IsSound r v id a a' e ((id, usage_of shut a) ∷ r.reports) refl (λ k. h)
          (rw (==_refl id, z) (ap (λ (l : List ProxyUsage). usage_of shut a ∷ l) empty))
          (λ j o. ground arith)

-- Closing an association reports it once.
pub close_association-IsSound : (id : ℕ) (r : Relay) → IsSound r → IsSound (close_association id r)
unfolding close_association close_found
close_association-IsSound id r v = go (lookup id r.associations) refl
  where
    go : (o : Option Association) → lookup id r.associations ≡ o → IsSound (close_found id o r)
    go none e = v
    go (some a) e = by_state (a.closed) refl
      where
        by_state :
            (b : Bool)
            → a.closed ≡ b
            → IsSound (
                if b
                then r
                else report_usage id a (record r {
                  associations = insert id (record a { closed = true }) r.associations;
                }))
        by_state true h = v
        by_state false h = report_usage-IsSound r id a v e h

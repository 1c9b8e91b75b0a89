-- ===== src/AgentHub/Store.antt =====
-- What a change of one session of hub.go's agents leaves of the others.
use proxy_forge.Prelude.{
  ℕ, ◌≡◌, refl, ◌≢◌, ◌⊎◌, inl, inr, Option, none, some, List, arith, ◌==◌, if◌then◌else◌,
  Bool-cases,
}
use proxy_forge.Prelude.Assoc.{bytes_key, number_key, lookup, insert, lookup-insert}
use proxy_forge.AgentHub.{adjust, AgentConn}

module _ (id j : ℕ) (f : AgentConn → AgentConn) (conns : List (ℕ × AgentConn)) where
  adjusted :
      (o : Option AgentConn)
      → lookup id conns ≡ o
      → lookup j (elim o [ some c ↦ insert id (f c) conns | none ↦ conns ])
        ≡ (if id == j then elim o [ some c ↦ some (f c) | none ↦ none ] else lookup j conns)
  adjusted none e = ground (arith, e)
  adjusted (some c) e = ground (arith, lookup-insert id j (f c) conns)

  pub lookup-adjust : lookup j (adjust id f conns) ≡ (
      if id == j
      then elim (lookup id conns) [ some c ↦ some (f c) | none ↦ none ]
      else lookup j conns)
  unfolding adjust
  lookup-adjust = adjusted (lookup id conns) refl

-- A session behind a change is the same one, or the one that was changed.
pub lookup-adjust_back :
    (id j : ℕ) (f : AgentConn → AgentConn) (conns : List (ℕ × AgentConn)) (c' : AgentConn)
    → lookup j (adjust id f conns) ≡ some c'
    → (c : AgentConn) × (lookup j conns ≡ some c)
      × (((id ≢ j) × (c' ≡ c)) ⊎ ((id ≡ j) × (c' ≡ f c)))
lookup-adjust_back id j f conns c' h = elim (Bool-cases (id == j)) [
  | inr other ↦ (c', ground (arith, lookup-adjust id j f conns), inl (ground arith, refl))
  | inl same ↦ changed (lookup id conns) refl (ground arith)
]
  where
    changed :
        (o : Option AgentConn)
        → lookup id conns ≡ o
        → id ≡ j
        → (c : AgentConn) × (lookup j conns ≡ some c)
          × (((id ≢ j) × (c' ≡ c)) ⊎ ((id ≡ j) × (c' ≡ f c)))
    changed none e same = absurd (ground (arith, lookup-adjust id j f conns))
    changed (some c) e same =
        (c, ground (arith, e, same), inr (same, ground (arith, lookup-adjust id j f conns)))

pub lookup-adjust_other :
    (id j : ℕ) (f : AgentConn → AgentConn) (conns : List (ℕ × AgentConn))
    → id ≢ j
    → lookup j (adjust id f conns) ≡ lookup j conns
lookup-adjust_other id j f conns other = ground (arith, lookup-adjust id j f conns)

pub lookup-adjust_self :
    (id : ℕ) (f : AgentConn → AgentConn) (conns : List (ℕ × AgentConn)) (c : AgentConn)
    → lookup id conns ≡ some c
    → lookup id (adjust id f conns) ≡ some (f c)
lookup-adjust_self id f conns c e = ground (arith, lookup-adjust id id f conns)

pub lookup-adjust_forth :
    (id j : ℕ) (f : AgentConn → AgentConn) (conns : List (ℕ × AgentConn)) (c : AgentConn)
    → lookup j conns ≡ some c
    → (c' : AgentConn) × (lookup j (adjust id f conns) ≡ some c') × ((c' ≡ c) ⊎ (c' ≡ f c))
lookup-adjust_forth id j f conns c e = elim (Bool-cases (id == j)) [
  | inr other ↦ (c, ground (arith, lookup-adjust id j f conns), inl refl)
  | inl same ↦ (f c, ground (arith, lookup-adjust id j f conns), inr refl)
]

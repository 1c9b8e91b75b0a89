-- ===== src/Proxy/Dial/Attempts.antt =====
-- How many dials one client connection makes, and of which outbounds.
use proxy_forge.Prelude.{
  ℕ, ◌+◌, ◌≤◌, ◌<◌, ◌≡◌, refl, inl, inr, false, not, ◌&&◌, Option, none, some, List, [], ◌∷◌, arith,
  ltb, if◌then◌else◌, Bool-cases, length, Bytes, str_eq,
}
use proxy_forge.Proxy.Dial.{
  is_permanent, Dialer, tcp, udp, usable, noted, round, dial_loop, dial_via_network_with_policy,
  Egress, DialError, Attempt, Dialed, Round, stop, skip, finish, retry,
}

module _ (dial : Dialer) (network target : Bytes) (max_attempts attempt_ttl deadline : ℕ) where
  abbrev pub loop : List (Option Egress) → ℕ → ℕ → Option DialError → Dialed × List Attempt
  loop = dial_loop dial network target max_attempts attempt_ttl deadline

  abbrev pub turn : Option Egress → ℕ → ℕ → Option DialError → Round
  turn = round dial network target max_attempts attempt_ttl deadline

  -- The four ways through a round.
  pub loop_cases {ℓ} :
      (P : Dialed × List Attempt → Type ℓ) (c : Option Egress) (rest : List (Option Egress))
      (attempts now : ℕ) (last : Option DialError)
      → ((r : Dialed) → turn c attempts now last ≡ stop r → P (r, []))
      → (turn c attempts now last ≡ skip → P (loop rest attempts now last))
      → ((a : Attempt) (r : Dialed) → turn c attempts now last ≡ finish a r → P (r, a ∷ []))
      → ((a : Attempt) (e : DialError)
          → turn c attempts now last ≡ retry a e
          → P (noted a (loop rest (attempts + 1) (now + a.elapsed) (some e))))
      → P (loop (c ∷ rest) attempts now last)
  unfolding dial_loop
  loop_cases P c rest attempts now last on_stop on_skip on_finish on_retry =
      go (turn c attempts now last) refl
    where
      go :
          (t : Round)
          → turn c attempts now last ≡ t
          → P (elim t [
            | stop r ↦ (r, [])
            | skip ↦ loop rest attempts now last
            | finish a r ↦ (r, a ∷ [])
            | retry a e ↦ noted a (loop rest (attempts + 1) (now + a.elapsed) (some e))
          ])
      go (stop r) e = on_stop r e
      go skip e = on_skip e
      go (finish a r) e = on_finish a r e
      go (retry a x) e = on_retry a x e

  -- A round that dials has an attempt left and time left.
  pub round_dials :
      (c : Option Egress) (attempts now : ℕ) (last : Option DialError) (a : Attempt) (r : Dialed)
      → turn c attempts now last ≡ finish a r
      → (attempts < max_attempts) × (now < deadline) × (usable network c ≡ some a.egress)
  unfolding round
  round_dials c attempts now last a r h = ground arith

  pub round_retries :
      (c : Option Egress) (attempts now : ℕ) (last : Option DialError) (a : Attempt) (e : DialError)
      → turn c attempts now last ≡ retry a e
      → (attempts < max_attempts)
        × (now < deadline)
        × (usable network c ≡ some a.egress)
        × (a.error ≡ some e)
        × (is_permanent e ≡ false)
  unfolding round
  round_retries c attempts now last a e h = ground arith

  dial_loop_count :
      (cs : List (Option Egress)) (attempts now : ℕ) (last : Option DialError)
      → attempts ≤ max_attempts
      → attempts + length (loop cs attempts now last).1 ≤ max_attempts
  dial_loop_count [] attempts now last h = unfold dial_loop in omega arith
  dial_loop_count (c ∷ rest) attempts now last h =
      loop_cases (λ p. attempts + length p.1 ≤ max_attempts) c rest attempts now last
        (λ r e. omega arith) (λ e. dial_loop_count rest attempts now last h)
        (λ a r e. omega (arith, round_dials c attempts now last a r e))
        (λ a x e. omega (
          arith,
          round_retries c attempts now last a x e,
          dial_loop_count rest (attempts + 1) (now + a.elapsed) (some x),
        ))

-- A client connection makes at most `max_attempts` dials (one, if that is 0), however many
-- candidates it is given and whatever they answer.
pub dial_count_bound :
    (dial : Dialer) (cs : List (Option Egress)) (network target : Bytes)
    (max_attempts attempt_ttl total_ttl now : ℕ)
    → length
        (dial_via_network_with_policy dial cs network target max_attempts attempt_ttl total_ttl
          now).1
      ≤ (if ltb max_attempts 1 then 1 else max_attempts)
unfolding dial_via_network_with_policy
dial_count_bound dial [] network target max_attempts attempt_ttl total_ttl now = omega arith
dial_count_bound dial (c ∷ cs) network target max_attempts attempt_ttl total_ttl now =
    elim (Bool-cases (not (str_eq network tcp) && not (str_eq network udp))) [
      | inl bad ↦ rw bad (omega arith)
      | inr good ↦ rw good (
          omega (
            arith,
            dial_loop_count dial network target (if ltb max_attempts 1 then 1 else max_attempts)
                attempt_ttl (now + total_ttl) (c ∷ cs) 0 now none (omega arith),
          ))
    ]

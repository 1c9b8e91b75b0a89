-- ===== src/Proxy/Dial/Failover.antt =====
-- Which outbounds are dialled, in which order, and why the loop of mixed.go ends.
use mathlib.Core.Path.{subst₂}
use proxy_forge.Prelude.{
  ℕ, ◌+◌, ◌≤◌, ◌<◌, ◌≡◌, refl, sym, ap, ◌∙◌, subst, ◌⊎◌, inl, inr, true, false, not, ◌&&◌, ◌||◌,
  Option, none, some, List, [], ◌∷◌, ◌++◌, arith, ltb, leb, if◌then◌else◌, Bool-cases, All,
  All-front, Bytes, str_eq, str_eq_refl,
}
use proxy_forge.Proxy.Dial.{
  max_proxy_dial_attempts, proxy_dial_attempt_ttl, proxy_dial_total_ttl, is_permanent, Dialer, tcp,
  udp, usable, last_error, note_dial, after_dial, time_limit, round, dial_loop,
  dial_via_network_with_policy, dial_udp_via, Egress, DialError, Outcome, Attempt, Dialed, stop,
  skip, finish,
}
use proxy_forge.Proxy.Dial.Attempts.{loop_cases, round_dials, round_retries}
use proxy_forge.Proxy.Dial.Traced.{Traced, dial_loop-Traced}
use proxy_forge.Proxy.Dial.Verdicts.{
  usables, usables-skip, usables-use, egresses, finish-injective, ended, Verdict-cons, Verdict,
  success, permanent,
}

module _ (dial : Dialer) (network target : Bytes) (max_attempts attempt_ttl deadline : ℕ) where
  abbrev pub Explained :
      List (Option Egress) → ℕ → ℕ → Option DialError → Dialed × List Attempt → Type 0
  Explained cs attempts now last (r, made) =
      (unused : List Egress) × (usables network cs ≡ egresses made ++ unused)
      × Verdict max_attempts deadline unused attempts now last made r

  -- The premises behind the ways out of a round.
  round_stops :
      (c : Option Egress) (attempts now : ℕ) (last : Option DialError) (r : Dialed)
      → round dial network target max_attempts attempt_ttl deadline c attempts now last ≡ stop r
      → (r ≡ last_error deadline now last) × ((max_attempts ≤ attempts) ⊎ (deadline ≤ now))
  unfolding round
  round_stops c attempts now last r h = ground arith

  round_skips :
      (c : Option Egress) (attempts now : ℕ) (last : Option DialError)
      → round dial network target max_attempts attempt_ttl deadline c attempts now last ≡ skip
      → usable network c ≡ none
  unfolding round
  round_skips c attempts now last h = ground arith

  round_finishes :
      (c : Option Egress) (attempts now : ℕ) (last : Option DialError) (a : Attempt) (r : Dialed)
      → round dial network target max_attempts attempt_ttl deadline c attempts now last ≡ finish a r
      → (unused : List Egress) → Verdict max_attempts deadline unused attempts now last (a ∷ []) r
  unfolding round after_dial
  round_finishes c attempts now last a r h unused =
      elim (Bool-cases (leb max_attempts attempts || leb deadline now)) [
        | inl over ↦ cc (rw over at h)
        | inr more ↦ pick (usable network c) (rw more at h)
      ]
    where
      from_finish :
          {b : Attempt} {s : Dialed}
          → finish b s ≡ finish a r
          → Verdict max_attempts deadline unused attempts now last (b ∷ []) s
          → Verdict max_attempts deadline unused attempts now last (a ∷ []) r
      from_finish {b} {s} e v =
          let (p, q) = finish-injective b a s r e in
          subst₂ (λ x y. Verdict max_attempts deadline unused attempts now last (x ∷ []) y) p q v

      verdict :
          (eg : Egress) (o : Outcome) (x : Option DialError)
          → after_dial eg o x ≡ finish a r
          → Verdict max_attempts deadline unused attempts now last (a ∷ []) r
      verdict eg o none e = from_finish e (success [] (note_dial eg o none) o.conn refl refl tt)
      verdict eg o (some x) e = elim (Bool-cases (is_permanent x)) [
        | inl final ↦
            from_finish (rw final at e)
              (permanent [] (note_dial eg o (some x)) x refl refl final tt)
        | inr again ↦ cc (rw again at e)
      ]

      pick :
          (u : Option Egress)
          → (elim u [
            | none ↦ skip
            | some eg ↦
                let o = dial eg network target now (time_limit attempt_ttl deadline now) in
                after_dial eg o o.error
          ])
            ≡ finish a r
          → Verdict max_attempts deadline unused attempts now last (a ∷ []) r
      pick none e = cc
      pick (some eg) e =
          let o = dial eg network target now (time_limit attempt_ttl deadline now) in
          verdict eg o o.error e

  dial_loop-Explained :
      (cs : List (Option Egress)) (attempts now : ℕ) (last : Option DialError)
      → Explained cs attempts now last
          (dial_loop dial network target max_attempts attempt_ttl deadline cs attempts now last)
  unfolding dial_loop
  dial_loop-Explained [] attempts now last = ([], refl, ended refl (inl refl))
  dial_loop-Explained (c ∷ rest) attempts now last =
      loop_cases dial network target max_attempts attempt_ttl deadline
        (Explained (c ∷ rest) attempts now last) c rest attempts now last
        (λ r e.
          let (same, why) = round_stops c attempts now last r e in
          (usables network (c ∷ rest), refl, ended same (inr why)))
        (λ e.
          let (unused, order, v) = dial_loop-Explained rest attempts now last in
          (unused, usables-skip network c rest (round_skips c attempts now last e) ∙ order, v))
        (λ a r e.
          let (_, _, used) =
            round_dials dial network target max_attempts attempt_ttl deadline c attempts now last a
              r e in
          (
            usables network rest,
            usables-use network c rest used,
            round_finishes c attempts now last a r e (usables network rest),
          ))
        (λ a x e.
          let (_, _, used, bad, again) =
            round_retries dial network target max_attempts attempt_ttl deadline c attempts now last
              a x e in
          let (unused, order, v) =
            dial_loop-Explained rest (attempts + 1) (now + a.elapsed) (some x) in
          (
            unused,
            usables-use network c rest used ∙ ap (◌∷◌ a.egress) order,
            Verdict-cons bad again v,
          ))

known_network :
    (network : Bytes)
    → ((network ≡ tcp) ⊎ (network ≡ udp))
    → (not (str_eq network tcp) && not (str_eq network udp)) ≡ false
known_network network (inl e) = rw (e, str_eq_refl tcp)
known_network network (inr e) = rw (e, str_eq_refl udp) (ground arith)

pos_max : (m : ℕ) → 0 < m → (if ltb m 1 then 1 else m) ≡ m
pos_max m h = ground arith

-- The failover policy of one client connection, for a known network and at least one candidate. The
-- outbounds dialled are the first usable ones, in order; each dial is to the target over the network,
-- begins when the one before it has ended, and has the attempt's time limit or what is left of the
-- total. A connection is the one that the last of these dials gave, and every dial before it failed
-- for a reason that is not the target's. Without a connection, either the last error is permanent,
-- and nothing more was tried, or no usable candidate, no attempt or no time was left, and the error
-- returned is the last one.
pub failover :
    (dial : Dialer) (c : Option Egress) (cs : List (Option Egress)) (network target : Bytes)
    (max_attempts attempt_ttl total_ttl now : ℕ)
    → ((network ≡ tcp) ⊎ (network ≡ udp))
    → 0 < max_attempts
    → let p : Dialed × List Attempt =
        dial_via_network_with_policy dial
          (c ∷ cs)
          network
          target
          max_attempts
          attempt_ttl
          total_ttl
          now in
      Explained dial network target max_attempts attempt_ttl (now + total_ttl) (c ∷ cs) 0 now none p
      × Traced dial network target max_attempts attempt_ttl (now + total_ttl) now p
unfolding dial_via_network_with_policy
failover dial c cs network target max_attempts attempt_ttl total_ttl now known positive =
    rw (known_network network known, pos_max max_attempts positive)
      (
        dial_loop-Explained dial network target max_attempts attempt_ttl (now + total_ttl) (c ∷ cs)
            0 now none,
        dial_loop-Traced dial network target max_attempts attempt_ttl (now + total_ttl) (c ∷ cs) 0
            now none,
      )

usable_carries : (eg : Egress) → eg.supports_udp ≡ true → usable udp (some eg) ≡ some eg
unfolding usable str_eq
usable_carries eg h = ground arith

usable_stream : (eg : Egress) → eg.supports_udp ≡ false → usable udp (some eg) ≡ none
unfolding usable str_eq
usable_stream eg h = ground arith

usables-udp : (cs : List (Option Egress)) → All (λ eg. eg.supports_udp ≡ true) (usables udp cs)
unfolding usable
usables-udp [] = tt
usables-udp (none ∷ cs) = usables-udp cs
usables-udp (some eg ∷ cs) =
    let P = All (λ (e : Egress). e.supports_udp ≡ true) in
    elim (Bool-cases eg.supports_udp) [
      | inl carries ↦
          subst P (sym (usables-use udp (some eg) cs (usable_carries eg carries)))
            (carries, usables-udp cs)
      | inr stream ↦
          subst P (sym (usables-skip udp (some eg) cs (usable_stream eg stream))) (usables-udp cs)
    ]

made_udp :
    (made : List Attempt)
    → All (λ eg. eg.supports_udp ≡ true) (egresses made)
    → All (λ a. a.egress.supports_udp ≡ true) made
made_udp [] h = tt
made_udp (a ∷ made) h = (h.0, made_udp made h.1)

-- Datagrams are never sent through an outbound that would turn them into a stream: whatever the
-- candidates are, each one that is dialled for UDP supports it.
pub udp_fail_closed :
    (dial : Dialer) (cs : List (Option Egress)) (target : Bytes) (now : ℕ)
    → All (λ a. a.egress.supports_udp ≡ true) (dial_udp_via dial cs target now).1
unfolding dial_udp_via dial_via_network_with_policy
udp_fail_closed dial [] target now = tt
udp_fail_closed dial (c ∷ cs) target now =
    let p =
      dial_via_network_with_policy dial (c ∷ cs) udp target max_proxy_dial_attempts
        proxy_dial_attempt_ttl proxy_dial_total_ttl now in
    let ((unused, order, v), traced) =
      failover dial c cs udp target max_proxy_dial_attempts proxy_dial_attempt_ttl
        proxy_dial_total_ttl now (inr refl) (omega arith) in
    made_udp p.1 (
      All-front (λ eg. eg.supports_udp ≡ true) (egresses p.1) unused
        (subst (All (λ eg. eg.supports_udp ≡ true)) order (usables-udp (c ∷ cs))))

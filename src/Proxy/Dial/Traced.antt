-- ===== src/Proxy/Dial/Traced.antt =====
-- The dials that the loop of mixed.go notes are those that it made, and a connection is the last one's.
use Prim.Native.Nat.{min}
use proxy_forge.Prelude.{
  ℕ, ◌+◌, ◌-◌, ◌≡◌, refl, sym, subst, inl, inr, Bool, true, false, ◌||◌, Option, none, some, List,
  [], ◌∷◌, arith, leb, if◌then◌else◌, Bool-cases, Bytes,
}
use proxy_forge.Proxy.Dial.{
  is_permanent, Dialer, usable, last_error, note_dial, after_dial, time_limit, round, dial_loop,
  Egress, DialError, Outcome, Attempt, Dialed, connected, no_egress, unsupported_network, failed,
  deadline_exceeded, no_usable_egress, Round, stop, skip, finish, retry,
}
use mathlib.Core.Path.{subst₂}
use proxy_forge.Proxy.Dial.Verdicts.{finish-injective}
use proxy_forge.Proxy.Dial.Attempts.{loop_cases}

module _ (dial : Dialer) (network target : Bytes) (max_attempts attempt_ttl deadline : ℕ) where
  -- What the dial of an outbound at a time gives: to the target, over the network, in the time that
  -- is left for it.
  abbrev pub dialled_at : ℕ → Egress → Outcome
  dialled_at now eg = dial eg network target now (min attempt_ttl (deadline - now))

  -- An attempt that the dial of its outbound at a time gives.
  abbrev pub IsDial : ℕ → Attempt → Type 0
  IsDial now a =
      (a.elapsed ≡ (dialled_at now a.egress).took) × (a.error ≡ (dialled_at now a.egress).error)

  -- Each attempt is the dial of its outbound, begun when the one before it has ended.
  abbrev pub AreDials : ℕ → List Attempt → Type 0
  AreDials now [] = Unit {0}
  AreDials now (a ∷ made) = IsDial now a × AreDials (now + a.elapsed) made

  -- The connection of the last of the dials.
  abbrev pub IsLastConn : ℕ → List Attempt → ℕ → Egress → Type 0
  IsLastConn now [] conn eg = ⊥
  IsLastConn now (a ∷ []) conn eg = (conn ≡ (dialled_at now eg).conn) × (eg ≡ a.egress)
  IsLastConn now (a ∷ b ∷ made) conn eg = IsLastConn (now + a.elapsed) (b ∷ made) conn eg

  abbrev pub IsConn : ℕ → List Attempt → Dialed → Type 0
  IsConn now made (connected conn eg) = IsLastConn now made conn eg
  IsConn now made no_egress = Unit {0}
  IsConn now made unsupported_network = Unit {0}
  IsConn now made (failed e) = Unit {0}
  IsConn now made deadline_exceeded = Unit {0}
  IsConn now made no_usable_egress = Unit {0}

  abbrev pub Traced : ℕ → Dialed × List Attempt → Type 0
  Traced now p = AreDials now p.1 × IsConn now p.1 p.0

  IsConn-last_error :
      (start now : ℕ) (last : Option DialError) → IsConn start [] (last_error deadline now last)
  unfolding last_error
  IsConn-last_error start now (some e) = tt
  IsConn-last_error start now none = by_test (leb deadline now)
    where
      by_test : (b : Bool) → IsConn start [] (if b then deadline_exceeded else no_usable_egress)
      by_test true = tt
      by_test false = tt

  IsConn-cons :
      (now : ℕ) (a : Attempt) (made : List Attempt) (r : Dialed)
      → IsConn (now + a.elapsed) made r
      → IsConn now (a ∷ made) r
  IsConn-cons now a [] (connected conn eg) h = absurd h
  IsConn-cons now a (b ∷ made) (connected conn eg) h = h
  IsConn-cons now a made no_egress h = tt
  IsConn-cons now a made unsupported_network h = tt
  IsConn-cons now a made (failed e) h = tt
  IsConn-cons now a made deadline_exceeded h = tt
  IsConn-cons now a made no_usable_egress h = tt

  round_stopped :
      (c : Option Egress) (attempts now : ℕ) (last : Option DialError) (r : Dialed)
      → round dial network target max_attempts attempt_ttl deadline c attempts now last ≡ stop r
      → r ≡ last_error deadline now last
  unfolding round
  round_stopped c attempts now last r h = ground arith

  -- A round that does not stop or skip is a dial and what follows it.
  round_cases :
      (P : Round → Type 0) (c : Option Egress) (attempts now : ℕ) (last : Option DialError)
      → ((r : Dialed) → P (stop r))
      → P skip
      → ((eg : Egress) → P (after_dial eg (dialled_at now eg) (dialled_at now eg).error))
      → P (round dial network target max_attempts attempt_ttl deadline c attempts now last)
  unfolding round
  round_cases P c attempts now last on_stop on_skip on_dial =
      by_test (leb max_attempts attempts || leb deadline now) (usable network c)
    where
      by_test :
          (b : Bool) (u : Option Egress)
          → P (
              if b then stop (last_error deadline now last) else elim u as (λ _. Round) [
                | none ↦ skip
                | some eg ↦
                    let o = dial eg network target now (time_limit attempt_ttl deadline now) in
                    after_dial eg o o.error
              ])
      by_test true u = on_stop (last_error deadline now last)
      by_test false none = on_skip
      by_test false (some eg) = on_dial eg

  note_dial-IsDial :
      (now : ℕ) (eg : Egress) (x : Option DialError) (a : Attempt)
      → x ≡ (dialled_at now eg).error
      → note_dial eg (dialled_at now eg) x ≡ a
      → IsDial now a
  note_dial-IsDial now eg x a q e = subst (λ (b : Attempt). IsDial now b) e (refl, q)

  after_dial-IsDial :
      (now : ℕ) (eg : Egress) (x : Option DialError) (a : Attempt) (e : DialError)
      → x ≡ (dialled_at now eg).error
      → after_dial eg (dialled_at now eg) x ≡ retry a e
      → IsDial now a
  unfolding after_dial
  after_dial-IsDial now eg none a e q h = cc (h)
  after_dial-IsDial now eg (some x) a e q h =
      note_dial-IsDial now eg (some x) a q (ground (arith, h))

  round-IsDial :
      (c : Option Egress) (attempts now : ℕ) (last : Option DialError) (a : Attempt) (e : DialError)
      → round dial network target max_attempts attempt_ttl deadline c attempts now last ≡ retry a e
      → IsDial now a
  round-IsDial c attempts now last a e =
      round_cases (λ t. t ≡ retry a e → IsDial now a) c attempts now last (λ r h. cc (h))
        (λ h. cc (h)) (λ eg h. after_dial-IsDial now eg (dialled_at now eg).error a e refl h)

  after_dial-Traced :
      (now : ℕ) (eg : Egress) (x : Option DialError) (a : Attempt) (r : Dialed)
      → x ≡ (dialled_at now eg).error
      → after_dial eg (dialled_at now eg) x ≡ finish a r
      → Traced now (r, a ∷ [])
  unfolding after_dial
  after_dial-Traced now eg none a r q h =
      let (n, d) =
        finish-injective (note_dial eg (dialled_at now eg) none) a
          (connected (dialled_at now eg).conn eg) r h in
      subst₂ (λ b t. Traced now (t, b ∷ [])) n d (((refl, q), tt), (refl, refl))
  after_dial-Traced now eg (some x) a r q h = elim (Bool-cases (is_permanent x)) [
    | inl final ↦
        let (n, d) =
          finish-injective (note_dial eg (dialled_at now eg) (some x)) a (failed x) r
            (rw final at h) in
        subst₂ (λ b t. Traced now (t, b ∷ [])) n d (((refl, q), tt), tt)
    | inr again ↦ cc (rw again at h)
  ]

  round-Traced :
      (c : Option Egress) (attempts now : ℕ) (last : Option DialError) (a : Attempt) (r : Dialed)
      → round dial network target max_attempts attempt_ttl deadline c attempts now last ≡ finish a r
      → Traced now (r, a ∷ [])
  round-Traced c attempts now last a r =
      round_cases (λ t. t ≡ finish a r → Traced now (r, a ∷ [])) c attempts now last (λ s h. cc (h))
        (λ h. cc (h)) (λ eg h. after_dial-Traced now eg (dialled_at now eg).error a r refl h)

  pub dial_loop-Traced :
      (cs : List (Option Egress)) (attempts now : ℕ) (last : Option DialError)
      → Traced now
          (dial_loop dial network target max_attempts attempt_ttl deadline cs attempts now last)
  unfolding dial_loop
  dial_loop-Traced [] attempts now last = (tt, IsConn-last_error now now last)
  dial_loop-Traced (c ∷ rest) attempts now last =
      loop_cases dial network target max_attempts attempt_ttl deadline (Traced now) c rest attempts
        now last
        (λ r e. (
          tt,
          subst (IsConn now []) (sym (round_stopped c attempts now last r e))
              (IsConn-last_error now now last),
        ))
        (λ e. dial_loop-Traced rest attempts now last)
        (λ a r e. round-Traced c attempts now last a r e)
        (λ a x e.
          let p =
            dial_loop dial network target max_attempts attempt_ttl deadline rest (attempts + 1)
              (now + a.elapsed) (some x) in
          let k = dial_loop-Traced rest (attempts + 1) (now + a.elapsed) (some x) in
          let d = round-IsDial c attempts now last a x e in
          ((d, k.0), IsConn-cons now a p.1 p.0 k.1))

-- ===== src/Proxy/Dial/Verdicts.antt =====
-- How `dialViaNetworkWithPolicy` of mixed.go can end.
use mathlib.Core.Path.{ap₂}
use proxy_forge.Prelude.{
  ℕ, ◌+◌, ◌≤◌, ◌≡◌, sym, ap, ◌∙◌, subst, ◌⊎◌, true, false, Option, none, some, List, [], ◌∷◌, ◌++◌,
  map, arith, length, All, Bytes,
}
use proxy_forge.Proxy.Dial.{
  is_permanent, usable, last_error, Egress, DialError, Attempt, Dialed, connected, failed, finish,
}

-- The candidates that are not skipped, in order.
abbrev pub usables : Bytes → List (Option Egress) → List Egress
usables network [] = []
usables network (c ∷ cs) =
    let rest = usables network cs in elim (usable network c) [ none ↦ rest | some eg ↦ eg ∷ rest ]

pub usables-skip :
    (network : Bytes) (c : Option Egress) (rest : List (Option Egress))
    → usable network c ≡ none
    → usables network (c ∷ rest) ≡ usables network rest
usables-skip network c rest h = rw (h, usables)

pub usables-use :
    (network : Bytes) (c : Option Egress) (rest : List (Option Egress)) {eg : Egress}
    → usable network c ≡ some eg
    → usables network (c ∷ rest) ≡ eg ∷ usables network rest
usables-use network c rest h = rw (h, usables)

abbrev pub egresses : List Attempt → List Egress
egresses = map (λ a. a.egress)

abbrev pub spent : List Attempt → ℕ
spent [] = 0
spent (a ∷ as') = a.elapsed + spent as'

abbrev pub last_of : Option DialError → List Attempt → Option DialError
last_of last [] = last
last_of last (a ∷ rest) = last_of a.error rest

-- A dial that failed, and not because of the target: the next candidate is tried.
abbrev pub IsRetried : Attempt → Type 0
IsRetried a = (e : DialError) × (a.error ≡ some e) × (is_permanent e ≡ false)

-- How the loop can end, by what it returns. `unused` are the usable candidates it did not dial.
pub data Verdict (max_attempts deadline : ℕ) (unused : List Egress) (attempts now : ℕ)
    (last : Option DialError) (made : List Attempt) : Dialed → Type 0 where
  success :
      (before : List Attempt) (a : Attempt) (conn : ℕ)
      → made ≡ before ++ a ∷ []
      → a.error ≡ none
      → All IsRetried before
      → Verdict max_attempts deadline unused attempts now last made (connected conn a.egress)
  permanent :
      (before : List Attempt) (a : Attempt) (e : DialError)
      → made ≡ before ++ a ∷ []
      → a.error ≡ some e
      → is_permanent e ≡ true
      → All IsRetried before
      → Verdict max_attempts deadline unused attempts now last made (failed e)
  ran_out :
      All IsRetried made
      → (unused ≡ []) ⊎ (max_attempts ≤ attempts + length made) ⊎ (deadline ≤ now + spent made)
      → Verdict max_attempts deadline unused attempts now last made
          (last_error deadline (now + spent made) (last_of last made))

pub finish-injective : (a b : Attempt) (r s : Dialed) → finish a r ≡ finish b s → (a ≡ b) × (r ≡ s)
finish-injective a b r s e = (cc, cc)

pub ended :
    {max_attempts deadline : ℕ} {unused : List Egress} {attempts now : ℕ} {last : Option DialError}
    {r : Dialed}
    → r ≡ last_error deadline now last
    → (unused ≡ []) ⊎ (max_attempts ≤ attempts) ⊎ (deadline ≤ now)
    → Verdict max_attempts deadline unused attempts now last [] r
ended {max_attempts} {deadline} {unused} {attempts} {now} {last} {r} same why =
    subst (Verdict max_attempts deadline unused attempts now last [])
      (ap (λ t. last_error deadline t last) (omega arith) ∙ sym same) (ran_out tt (grind arith))

pub Verdict-cons :
    {max_attempts deadline : ℕ} {unused : List Egress} {attempts now : ℕ} {last : Option DialError}
    {a : Attempt} {e : DialError} {made : List Attempt} {r : Dialed}
    → a.error ≡ some e
    → is_permanent e ≡ false
    → Verdict max_attempts deadline unused (attempts + 1) (now + a.elapsed) (some e) made r
    → Verdict max_attempts deadline unused attempts now last (a ∷ made) r
Verdict-cons {a = a} {e = e} bad again (success before b conn shape good all) =
    success (a ∷ before) b conn (ap (◌∷◌ a) shape) good ((e, bad, again), all)
Verdict-cons {a = a} {e = e} bad again (permanent before b x shape wrong final all) =
    permanent (a ∷ before) b x (ap (◌∷◌ a) shape) wrong final ((e, bad, again), all)
Verdict-cons {max_attempts} {deadline} {unused} {attempts} {now} {last} {a} {e} {made} bad again
      (ran_out all why) =
    let same : last_error deadline (now + spent (a ∷ made)) (last_of last (a ∷ made))
        ≡ last_error deadline (now + a.elapsed + spent made) (last_of (some e) made) =
      ap₂ (last_error deadline) (omega arith) (ap (λ x. last_of x made) bad) in
    subst (Verdict max_attempts deadline unused attempts now last (a ∷ made)) same
      (ran_out ((e, bad, again), all) (grind arith))

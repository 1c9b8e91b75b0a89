-- ===== src/Scheduler/Binding/Choice.antt =====
-- nextSlotCandidate: which account a slot gets.
use proxy_forge.Prelude.{
  ◌≡◌, refl, ◌⊎◌, inl, inr, Bool, true, false, not, ◌&&◌, Option, none, some, List, [], ◌∷◌, arith,
  if◌then◌else◌, All, All-imp, str_eq, is_empty,
}
use proxy_forge.Models.{Account, ProxySlot}
use proxy_forge.Scheduler.Binding.{
  slot_candidate_available, first_available, next_slot_candidate, Used,
}

-- The first account of the ranking that is available and wanted: those before it are not.
pub data IsFirst (good : Account → Bool) : List Account → Account → Type 0 where
  here : (a : Account) (rest : List Account) → good a ≡ true → IsFirst good (a ∷ rest) a
  later :
      (b a : Account) (rest : List Account)
      → good b ≡ false
      → IsFirst good rest a
      → IsFirst good (b ∷ rest) a

abbrev pub good : (Account → Bool) → Used → Account → Bool
good wanted used a = slot_candidate_available a used && wanted a

-- What a search gives back.
abbrev pub IsFound : (Account → Bool) → List Account → Option Account → Type 0
IsFound p candidates none = All (λ a. p a ≡ false) candidates
IsFound p candidates (some a) = IsFirst p candidates a

pub first_available_lem :
    (wanted : Account → Bool) (candidates : List Account) (used : Used)
    → IsFound (good wanted used) candidates (first_available wanted candidates used)
unfolding first_available
first_available_lem wanted [] used = tt
first_available_lem wanted (a ∷ candidates) used =
    go (slot_candidate_available a used) (wanted a) refl refl
      (first_available wanted candidates used) (first_available_lem wanted candidates used)
  where
    go :
        (b c : Bool)
        → slot_candidate_available a used ≡ b
        → wanted a ≡ c
        → (rest : Option Account) → IsFound (good wanted used) candidates rest
        → IsFound
            (good wanted used)
            (a ∷ candidates)
            (if not b then rest else if c then some a else rest)
    go true true e f rest h = here a candidates (ground arith)
    go true false e f none h = (ground arith, h)
    go true false e f (some x) h = later a x candidates (ground arith) h
    go false c e f none h = (ground arith, h)
    go false c e f (some x) h = later a x candidates (ground arith) h

pub IsFirst-good :
    (p : Account → Bool) (candidates : List Account) (a : Account)
    → IsFirst p candidates a
    → p a ≡ true
IsFirst-good p cs a (here b rest h) = h
IsFirst-good p cs a (later b c rest h k) = IsFirst-good p rest c k

pub IsFirst-All {κ} :
    (P : Account → Type κ) (p : Account → Bool) (candidates : List Account) (a : Account)
    → IsFirst p candidates a
    → All P candidates
    → P a
IsFirst-All P p cs a (here b rest h) all = all.0
IsFirst-All P p cs a (later b c rest h k) all = IsFirst-All P p rest c k all.1

-- A slot with a pinned IP gets the best available account with that IP; without such an account, or
-- without a pin, it gets the best available account; it gets none only if none is available.
abbrev pub IsChoice : ProxySlot → List Account → Used → Option Account → Type 0
IsChoice slot candidates used none = All (λ a. slot_candidate_available a used ≡ false) candidates
IsChoice slot candidates used (some a) =
    ((is_empty slot.pinned_public_ip ≡ false)
      × IsFirst (good (λ b. str_eq b.last_public_ip slot.pinned_public_ip) used) candidates a)
    ⊎ (IsFirst (good (λ b. true) used) candidates a
        × ((is_empty slot.pinned_public_ip ≡ true)
            ⊎ All (λ b. good (λ c. str_eq c.last_public_ip slot.pinned_public_ip) used b ≡ false)
                candidates))

-- nextSlotCandidate gives a slot the first available account of the ranking that has its pinned IP;
-- if the slot has no pinned IP or no available account has it, the first available one; and none
-- only if no account is available.
pub next_slot_candidate_lem :
    (slot : ProxySlot) (candidates : List Account) (used : Used)
    → IsChoice slot candidates used (next_slot_candidate slot candidates used)
unfolding next_slot_candidate
next_slot_candidate_lem slot candidates used =
    go (is_empty slot.pinned_public_ip) refl (first_available pinned candidates used)
      (first_available_lem pinned candidates used) (first_available (λ a. true) candidates used)
      (first_available_lem (λ a. true) candidates used)
  where
    pinned : Account → Bool
    pinned a = str_eq a.last_public_ip slot.pinned_public_ip

    best :
        (o : Option Account)
        → IsFound (good (λ a. true) used) candidates o
        → ((is_empty slot.pinned_public_ip ≡ true)
            ⊎ All (λ a. good pinned used a ≡ false) candidates)
        → IsChoice slot candidates used o
    best none h why =
        All-imp (λ a. good (λ b. true) used a ≡ false)
          (λ a. slot_candidate_available a used ≡ false) (λ a e. ground (arith, e)) candidates h
    best (some a) h why = inr (h, why)

    go :
        (b : Bool)
        → is_empty slot.pinned_public_ip ≡ b
        → (o : Option Account) → IsFound (good pinned used) candidates o
        → (any : Option Account) → IsFound (good (λ a. true) used) candidates any
        → IsChoice slot candidates used (
            if not b then elim o as (λ _. Option Account) [ some a ↦ some a | none ↦ any ] else any)
    go true e o h any k = best any k (inl e)
    go false e none h any k = best any k (inr h)
    go false e (some a) h any k = inl (e, h)

-- What is chosen is available, and one of the candidates.
pub IsChoice-available :
    (slot : ProxySlot) (candidates : List Account) (used : Used) (a : Account)
    → IsChoice slot candidates used (some a)
    → slot_candidate_available a used ≡ true
IsChoice-available slot candidates used a (inl h) = ground (
  arith,
  IsFirst-good (good (λ b. str_eq b.last_public_ip slot.pinned_public_ip) used) candidates a h.1,
)
IsChoice-available slot candidates used a (inr h) =
    ground (arith, IsFirst-good (good (λ b. true) used) candidates a h.0)

pub IsChoice-All {κ} :
    (P : Account → Type κ) (slot : ProxySlot) (candidates : List Account) (used : Used)
    (a : Account)
    → IsChoice slot candidates used (some a)
    → All P candidates
    → P a
IsChoice-All P slot candidates used a (inl h) all =
    IsFirst-All P (good (λ b. str_eq b.last_public_ip slot.pinned_public_ip) used) candidates a h.1
      all
IsChoice-All P slot candidates used a (inr h) all =
    IsFirst-All P (good (λ b. true) used) candidates a h.0 all

-- ===== src/Scheduler/Cleanup/Covers.antt =====
-- boundAccountIDs finds every account that an active slot is bound to.
use proxy_forge.Prelude.{
  ℕ, ◌≡◌, refl, sym, subst, Bool, true, false, Option, none, some, List, [], ◌∷◌, arith,
  if◌then◌else◌, All, select, All-imp,
}
use proxy_forge.Prelude.Assoc.{number_key}
use proxy_forge.Models.{is_active, ProxySlot}
use proxy_forge.Scheduler.Binding.{has_id}
use proxy_forge.Scheduler.Cleanup.{bound_ids_of}
use proxy_forge.Scheduler.Cleanup.Spares.{IsCovered, Covers}

has_id_more : (k n : ℕ) (ids : List ℕ) → has_id k ids ≡ true → has_id k (n ∷ ids) ≡ true
unfolding has_id
has_id_more k n ids h = ground (arith, h)

has_id_self : (n : ℕ) (ids : List ℕ) → has_id n (n ∷ ids) ≡ true
unfolding has_id
has_id_self n ids = ground arith

Covers-more :
    (slots : List ProxySlot) (n : ℕ) (ids : List ℕ) → Covers ids slots → Covers (n ∷ ids) slots
Covers-more slots n ids c =
    All-imp (λ s. IsCovered ids s.account_id) (λ s. IsCovered (n ∷ ids) s.account_id)
      (λ s h. more (s.account_id) h) (select is_active slots) c
  where
    more : (o : Option ℕ) → IsCovered ids o → IsCovered (n ∷ ids) o
    more none h = tt
    more (some k) h = has_id_more k n ids h

pub bound_ids_of-Covers : (slots : List ProxySlot) → Covers (bound_ids_of slots) slots
unfolding bound_ids_of
bound_ids_of-Covers [] = tt
bound_ids_of-Covers (s ∷ slots) = go (s.account_id) (is_active s) refl (bound_ids_of-Covers slots)
  where
    ids : List ℕ
    ids = bound_ids_of slots

    go :
        (o : Option ℕ) (b : Bool)
        → s.account_id ≡ o
        → Covers ids slots
        → All
            (λ x.
              IsCovered (elim o [ some n ↦ if b then n ∷ ids else ids | none ↦ ids ]) x.account_id)
            (if b then s ∷ select is_active slots else select is_active slots)
    go none true e c = (subst (IsCovered ids) (sym e) tt, c)
    go none false e c = c
    go (some n) true e c =
        (subst (IsCovered (n ∷ ids)) (sym e) (has_id_self n ids), Covers-more slots n ids c)
    go (some n) false e c = c

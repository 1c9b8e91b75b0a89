-- ===== src/Scheduler/Binding/Loop.antt =====
-- The loop of rebindProxySlots keeps the invariant.
use proxy_forge.Prelude.{
  ℕ, ◌≡◌, refl, sym, ap, ◌∙◌, subst, ◌≢◌, ◌⊎◌, inl, inr, Bool, true, false, none, some, List, [],
  ◌∷◌, arith, ◌==◌, if◌then◌else◌, Bool-cases, All, All-imp₂,
}
use proxy_forge.Models.{Account, ProxySlot}
use proxy_forge.Database.Rows.{slot_by_id}
use proxy_forge.Scheduler.Binding.{rebind_slot, rebind_loop, Rebind}
use proxy_forge.Scheduler.Binding.Effects.{Effect, Bound, Fresh, Outcome}
use proxy_forge.Scheduler.Binding.Unique.{
  Apart-sym, Fresh-Apart, Fresh-Marked, Outcome-keeps-Marked, Outcome-Fresh, Marked, Apart,
}
use proxy_forge.Database.{account_by_id}
use proxy_forge.Scheduler.Binding.Round.{rebind_slot-Effect}

-- The ID of a slot is its key.
abbrev pub Distinct : List ProxySlot → Type 0
Distinct [] = Unit {0}
Distinct (s ∷ slots) = (slot_by_id s.id slots ≡ none) × Distinct slots

-- A row of the table that the loop has passed, or will not come to, and its account.
pub record Passed (accounts : List Account) (todo slots : List ProxySlot) (i : ℕ) (x : ProxySlot)
    (p : Account) : Type 0 where
  pub not_waiting : slot_by_id i todo ≡ none
  pub row_of : slot_by_id i slots ≡ some x
  pub bound_to : Bound accounts x p

pub record Inv (accounts : List Account) (todo : List ProxySlot) (st : Rebind) : Type 0 where
  pub waiting : All (λ s. slot_by_id s.id st.db.slots ≡ some s) todo
  pub same : st.db.accounts ≡ accounts
  pub marked :
      (i : ℕ) (x : ProxySlot) (p : Account)
      → Passed accounts todo st.db.slots i x p
      → Marked x p st.used
  pub apart :
      (i j : ℕ) (x y : ProxySlot) (p q : Account)
      → i ≢ j
      → Passed accounts todo st.db.slots i x p
      → Passed accounts todo st.db.slots j y q
      → Apart x p y q

others_in : (n : ℕ) (todo : List ProxySlot) → slot_by_id n todo ≡ none → All (λ s. n ≢ s.id) todo
unfolding slot_by_id
others_in n [] h = tt
others_in n (s ∷ todo) h = (ground (arith, h), others_in n todo (ground (arith, h)))

pub Distinct-rows :
    (slots : List ProxySlot) → Distinct slots → All (λ s. slot_by_id s.id slots ≡ some s) slots
unfolding slot_by_id
Distinct-rows [] h = tt
Distinct-rows (s ∷ slots) h = (
  ground arith,
  All-imp₂ (λ x. s.id ≢ x.id) (λ x. slot_by_id x.id slots ≡ some x)
      (λ x. slot_by_id x.id (s ∷ slots) ≡ some x) (λ x o e. ground (arith, o, e)) slots
      (others_in s.id slots h.0) (Distinct-rows slots h.1),
)

module _ (accounts : List Account) (slot : ProxySlot) (todo : List ProxySlot) (st next : Rebind)
    (distinct : slot_by_id slot.id todo ≡ none) (inv : Inv accounts (slot ∷ todo) st)
    (effect : Effect accounts slot st next) where
  found :
      (i : ℕ) (x : ProxySlot) (p : Account)
      → Passed accounts todo next.db.slots i x p
      → slot.id ≡ i
      → Outcome accounts x st.used next.used
  found i x p h e =
      subst (λ (z : ProxySlot). Outcome accounts z st.used next.used)
        (cc (effect.1.row, h.row_of, ap (λ (n : ℕ). slot_by_id n next.db.slots) e)) effect.2

  -- A passed row of the new table is the row of the slot, or was passed before.
  passed :
      (i : ℕ) (x : ProxySlot) (p : Account)
      → Passed accounts todo next.db.slots i x p
      → ((slot.id ≡ i) × Fresh accounts x p st.used next.used)
        ⊎ ((slot.id ≢ i) × Passed accounts (slot ∷ todo) st.db.slots i x p)
  unfolding slot_by_id
  passed i x p h = elim (Bool-cases (slot.id == i)) [
    | inl e ↦ inl (
      ground arith,
      Outcome-Fresh accounts x p st.used next.used (found i x p h (ground arith)) h.bound_to,
    )
    | inr e ↦ inr (
      ground arith,
      record {
        not_waiting = ground (arith, h.not_waiting);
        row_of = sym (effect.1.others i (ground arith)) ∙ h.row_of;
        bound_to = h.bound_to;
      },
    )
  ]

  next-Marked :
      (i : ℕ) (x : ProxySlot) (p : Account)
      → Passed accounts todo next.db.slots i x p
      → Marked x p next.used
  next-Marked i x p h = elim (passed i x p h) [
    | inl f ↦ Fresh-Marked accounts x p st.used next.used f.1
    | inr o ↦
        Outcome-keeps-Marked accounts effect.0 x p st.used next.used effect.2 (inv.marked i x p o.1)
  ]

  next-Apart :
      (i j : ℕ) (x y : ProxySlot) (p q : Account)
      → i ≢ j
      → Passed accounts todo next.db.slots i x p
      → Passed accounts todo next.db.slots j y q
      → Apart x p y q
  next-Apart i j x y p q other h k = go (passed i x p h) (passed j y q k)
    where
      Way : ℕ → ProxySlot → Account → Type 0
      Way n z a =
          ((slot.id ≡ n) × Fresh accounts z a st.used next.used)
          ⊎ ((slot.id ≢ n) × Passed accounts (slot ∷ todo) st.db.slots n z a)

      go : Way i x p → Way j y q → Apart x p y q
      go (inl f) (inl g) = absurd (other (sym f.0 ∙ g.0))
      go (inl f) (inr o) = Fresh-Apart accounts x y p q st.used next.used f.1 (inv.marked j y q o.1)
      go (inr o) (inl f) =
          Apart-sym y x q p
            (Fresh-Apart accounts y x q p st.used next.used f.1 (inv.marked i x p o.1))
      go (inr o) (inr u) = inv.apart i j x y p q other o.1 u.1

  pub Inv-next : Inv accounts todo next
  Inv-next = record {
    waiting =
        All-imp₂ (λ x. slot.id ≢ x.id) (λ x. slot_by_id x.id st.db.slots ≡ some x)
          (λ x. slot_by_id x.id next.db.slots ≡ some x) (λ x o e. effect.1.others x.id o ∙ e) todo
          (others_in slot.id todo distinct) inv.waiting.1;
    same = effect.1.accounts_kept ∙ inv.same;
    marked = next-Marked;
    apart = next-Apart;
  }

-- When the loop ends without an error, the invariant holds with no slot left.
pub rebind_loop-Inv :
    (fails : ℕ → Bool) (accounts candidates : List Account) (todo : List ProxySlot) (st : Rebind)
    → All (λ a. account_by_id a.id accounts ≡ some a) candidates
    → Distinct todo
    → Inv accounts todo st
    → (rebind_loop fails accounts candidates todo st).failed ≡ false
    → Inv accounts [] (rebind_loop fails accounts candidates todo st)
unfolding rebind_loop
rebind_loop-Inv fails accounts candidates [] st known distinct inv ok = inv
rebind_loop-Inv fails accounts candidates (slot ∷ todo) st known distinct inv ok =
    by_failure next.failed refl ok (λ e.
      rebind_loop-Inv fails accounts candidates todo next known distinct.1 (
        Inv-next accounts slot todo st next distinct.0 inv
          (rebind_slot-Effect fails accounts slot st inv.waiting.0 candidates known inv.same e)))
  where
    next : Rebind
    next = rebind_slot fails accounts candidates slot st

    rest : Rebind
    rest = rebind_loop fails accounts candidates todo next

    by_failure :
        (b : Bool)
        → next.failed ≡ b
        → (if b then next else rest).failed ≡ false
        → (next.failed ≡ false → rest.failed ≡ false → Inv accounts [] rest)
        → Inv accounts [] (if b then next else rest)
    by_failure true e ok k = cc (e, ok)
    by_failure false e ok k = k e ok

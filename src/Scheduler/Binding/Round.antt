-- ===== src/Scheduler/Binding/Round.antt =====
-- One round of rebindProxySlots.
use proxy_forge.Prelude.{
  ℕ, ◌≡◌, refl, Bool, true, false, not, Option, none, some, List, if◌then◌else◌, All,
}
use proxy_forge.Models.{is_active, Account, ProxySlot}
use proxy_forge.Database.{account_by_id, account_of}
use proxy_forge.Database.Rows.{slot_by_id}
use proxy_forge.Scheduler.Binding.{
  keep_current_slot_binding, next_slot_candidate, keep_binding, without_candidate, bind_candidate,
  rebind_slot, Rebind,
}
use proxy_forge.Scheduler.Binding.Choice.{
  IsChoice, next_slot_candidate_lem, IsChoice-available, IsChoice-All,
}
use proxy_forge.Scheduler.Binding.Effects.{Effect, vacant}
use proxy_forge.Scheduler.Binding.Steps.{
  same-Row, keep_binding-Effect, without_candidate-Effect, bind_candidate-Effect,
}

-- What can be bound: accounts of the database.
module _ (fails : ℕ → Bool) (accounts : List Account) (slot : ProxySlot) (st : Rebind)
    (here : slot_by_id slot.id st.db.slots ≡ some slot) (candidates : List Account)
    (known : All (λ a. account_by_id a.id accounts ≡ some a) candidates)
    (same : st.db.accounts ≡ accounts) where
  replaced-Effect :
      (current : Option Account)
      → is_active slot ≡ true
      → account_of accounts slot ≡ current
      → let replaced : Rebind = elim (next_slot_candidate slot candidates st.used) [
        | some a ↦ bind_candidate fails slot a st
        | none ↦ without_candidate fails slot current st
      ] in
        replaced.failed ≡ false → Effect accounts slot st replaced
  replaced-Effect current on e ok =
      by_choice (next_slot_candidate slot candidates st.used)
        (next_slot_candidate_lem slot candidates st.used) ok
    where
      result : Option Account → Rebind
      result o = elim o as (λ _. Rebind) [
        | some a ↦ bind_candidate fails slot a st
        | none ↦ without_candidate fails slot current st
      ]

      by_choice :
          (o : Option Account)
          → IsChoice slot candidates st.used o
          → (result o).failed ≡ false
          → Effect accounts slot st (result o)
      by_choice none c ok = without_candidate-Effect fails accounts slot st here current on e ok
      by_choice (some a) c ok =
          bind_candidate-Effect fails accounts slot st here a on same
            (IsChoice-All (λ b. account_by_id b.id accounts ≡ some b) slot candidates st.used a c
              known)
            (IsChoice-available slot candidates st.used a c) ok

  pub rebind_slot-Effect :
      (rebind_slot fails accounts candidates slot st).failed ≡ false
      → Effect accounts slot st (rebind_slot fails accounts candidates slot st)
  unfolding rebind_slot
  rebind_slot-Effect ok = by_activity (is_active slot) refl (account_of accounts slot) refl ok
    where
      replaced : Rebind
      replaced = elim (next_slot_candidate slot candidates st.used) as (λ _. Rebind) [
        | some a ↦ bind_candidate fails slot a st
        | none ↦ without_candidate fails slot (account_of accounts slot) st
      ]

      result : Bool → Option Account → Rebind
      result b current = if not b then st else elim current as (λ _. Rebind) [
        | some a ↦
            if keep_current_slot_binding (some a) slot st.used
            then keep_binding fails slot a st
            else replaced
        | none ↦ replaced
      ]

      by_keeping :
          (p : Account) (k : Bool)
          → keep_current_slot_binding (some p) slot st.used ≡ k
          → is_active slot ≡ true
          → account_of accounts slot ≡ some p
          → (if k then keep_binding fails slot p st else replaced).failed ≡ false
          → Effect accounts slot st (if k then keep_binding fails slot p st else replaced)
      by_keeping p true keep on e ok = keep_binding-Effect fails accounts slot st here p on e keep
      by_keeping p false keep on e ok = replaced-Effect (account_of accounts slot) on refl ok

      by_activity :
          (b : Bool)
          → is_active slot ≡ b
          → (current : Option Account) → account_of accounts slot ≡ current
          → (result b current).failed ≡ false
          → Effect accounts slot st (result b current)
      by_activity false off current e ok =
          (slot, same-Row fails accounts slot st here, vacant (λ p b. cc (b.in_use, off)) refl)
      by_activity true on none e ok = replaced-Effect (account_of accounts slot) on refl ok
      by_activity true on (some p) e ok =
          by_keeping p (keep_current_slot_binding (some p) slot st.used) refl on e ok

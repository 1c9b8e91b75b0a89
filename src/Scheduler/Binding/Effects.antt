-- ===== src/Scheduler/Binding/Effects.antt =====
-- What rebindProxySlots does to the row of one slot.
use proxy_forge.Prelude.{
  ℕ, ◌≡◌, sym, ap, ◌∙◌, Bool, true, false, not, Option, none, some, List, [], if◌then◌else◌, Bytes,
  str_eq, is_empty,
}
use proxy_forge.Models.{active, is_active, Account, ProxySlot}
use proxy_forge.Database.{account_by_id, account_of}
use proxy_forge.Database.Rows.{slot_by_id, mark_proxy_slot_error-Row, Row, SameBinding}
use proxy_forge.Scheduler.Binding.{
  has_id, slot_effective_ip, ip_taken, use_account, mark, Used, Rebind,
}

-- An active slot whose account exists.
pub record Bound (accounts : List Account) (x : ProxySlot) (p : Account) : Type 0 where
  pub in_use : is_active x ≡ true
  pub account : account_of accounts x ≡ some p

-- The binding of `x` is recorded in `after`, and shares nothing with what `before` has.
pub record Fresh (accounts : List Account) (x : ProxySlot) (p : Account) (before after : Used)
    : Type 0 where
  pub bound : Bound accounts x p
  pub unused : has_id p.id before.accounts ≡ false
  pub untaken : ip_taken (slot_effective_ip x (some p)) before ≡ false
  pub recorded : after ≡ use_account p.id (slot_effective_ip x (some p)) before

pub data Outcome (accounts : List Account) (x : ProxySlot) (before after : Used) : Type 0 where
  vacant : ((p : Account) → ¬ Bound accounts x p) → after ≡ before → Outcome accounts x before after
  fresh : (p : Account) → Fresh accounts x p before after → Outcome accounts x before after

abbrev pub Effect : List Account → ProxySlot → Rebind → Rebind → Type 0
Effect accounts slot st next =
    (x : ProxySlot) × Row slot.id x st.db next.db × Outcome accounts x st.used next.used

module _ (accounts : List Account) where
  same-account_of :
      (x y : ProxySlot) → SameBinding x y → account_of accounts y ≡ account_of accounts x
  unfolding account_of
  same-account_of x y same =
      ap
        (λ (o : Option ℕ). elim o as (λ _. Option Account) [
          | some n ↦ account_by_id n accounts
          | none ↦ none
        ])
        same.same_account

  same-slot_effective_ip :
      (x y : ProxySlot) (o : Option Account)
      → SameBinding x y
      → slot_effective_ip y o ≡ slot_effective_ip x o
  unfolding slot_effective_ip
  same-slot_effective_ip x y o same =
      ap
        (λ (ip : Bytes).
          if not (is_empty ip)
          then ip
          else elim o as (λ _. Bytes) [ some a ↦ a.last_public_ip | none ↦ [] ])
        same.same_pin

  same-is_active : (x y : ProxySlot) → SameBinding x y → is_active y ≡ is_active x
  unfolding is_active
  same-is_active x y same = ap (λ (s : Bytes). str_eq s active) same.same_status

  same-Bound :
      (x y : ProxySlot) (p : Account) → SameBinding x y → Bound accounts x p → Bound accounts y p
  same-Bound x y p same h = record {
    in_use = same-is_active x y same ∙ h.in_use;
    account = same-account_of x y same ∙ h.account;
  }

  same-back : (x y : ProxySlot) → SameBinding x y → SameBinding y x
  same-back x y same = record {
    same_status = sym same.same_status;
    same_account = sym same.same_account;
    same_pin = sym same.same_pin;
  }

  -- A statement that leaves the binding of a slot leaves what the loop has found out about it.
  pub same-Outcome :
      (x y : ProxySlot) (before after : Used)
      → SameBinding x y
      → Outcome accounts x before after
      → Outcome accounts y before after
  same-Outcome x y before after same (vacant empty kept) =
      vacant (λ p b. empty p (same-Bound y x p (same-back x y same) b)) kept
  same-Outcome x y before after same (fresh p h) = fresh p (record {
    bound = same-Bound x y p same h.bound;
    unused = h.unused;
    untaken =
        ap (λ (ip : Bytes). ip_taken ip before) (same-slot_effective_ip x y (some p) same)
        ∙ h.untaken;
    recorded =
        h.recorded
        ∙ sym (
            ap (λ (ip : Bytes). use_account p.id ip before)
              (same-slot_effective_ip x y (some p) same));
  })

  -- `mark` after a step that has found out `outcome`.
  pub mark-Effect :
      (fails : ℕ → Bool) (slot : ProxySlot) (msg : Bytes) (before : Used) (st : Rebind)
      → slot_by_id slot.id st.db.slots ≡ some slot
      → Outcome accounts slot before st.used
      → (x : ProxySlot) × Row slot.id x st.db (mark fails slot.id msg st).db
        × Outcome accounts x before st.used
  unfolding mark
  mark-Effect fails slot msg before st h outcome =
      let m = mark_proxy_slot_error-Row fails slot.id msg st.db slot h in
      (m.0, m.2, same-Outcome slot m.0 before st.used m.1 outcome)

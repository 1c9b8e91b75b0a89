-- ===== src/Scheduler/Binding/Steps.antt =====
-- The branches of one round of rebindProxySlots.
use proxy_forge.Prelude.{
  ℕ, suc, ◌≡◌, refl, sym, ap, ◌∙◌, subst, Bool, true, false, not, ◌&&◌, Option, none, some, List,
  [], arith, ◌==◌, if◌then◌else◌, Bytes, is_empty,
}
use proxy_forge.Models.{is_active, Account, ProxySlot}
use proxy_forge.Database.{
  account_by_id, account_of, update_slots, public_ip_of, bind_row, unbind_row, exec,
  assign_proxy_slot_account, unassign_proxy_slot, Store,
}
use proxy_forge.Database.Rows.{slot_by_id, update-Row, Row}
use proxy_forge.Scheduler.Binding.{
  has_id, slot_effective_ip, ip_taken, keep_current_slot_binding, current_binding_conflicts,
  slot_candidate_available, use_account, take_account, or_fail, count_change, no_candidate,
  waiting_for_ip, kept_without_replacement, mark, keep_binding, without_candidate, bind_candidate,
  Used, Rebind,
}
use proxy_forge.Scheduler.Binding.Effects.{Effect, mark-Effect, Outcome, vacant, fresh}

-- A statement that did not end the loop has done its work.
or_fail_ok :
    (fails : ℕ → Bool) (f : Store → Store) (k : Rebind → Rebind) (st : Rebind)
    → (or_fail (exec fails f st.db) k st).failed ≡ false
    → or_fail (exec fails f st.db) k st
      ≡ k (record st { db = f (record st.db { writes = suc st.db.writes }) })
unfolding or_fail exec
or_fail_ok fails f k st ok = by_failure (fails st.db.writes) ok
  where
    next : Store
    next = record st.db { writes = suc st.db.writes }

    by_failure :
        (b : Bool)
        → (or_fail (if b then (false, next) else (true, f next)) k st).failed ≡ false
        → or_fail (if b then (false, next) else (true, f next)) k st ≡ k (record st { db = f next })
    by_failure true e = cc e
    by_failure false e = refl

available-unused :
    (a : Account) (used : Used)
    → slot_candidate_available a used ≡ true
    → has_id a.id used.accounts ≡ false
unfolding slot_candidate_available
available-unused a used h = ground (arith, h)

available-untaken :
    (a : Account) (used : Used)
    → slot_candidate_available a used ≡ true
    → ip_taken a.last_public_ip used ≡ false
unfolding slot_candidate_available
available-untaken a used h = ground (arith, h)

-- The row that AssignProxySlotAccount writes for an account that exists.
module _ (slot : ProxySlot) (accounts : List Account) (a : Account)
    (found : account_by_id a.id accounts ≡ some a) where
  bind_row-account_of : (ip : Bytes) → account_of accounts (bind_row a.id ip slot) ≡ some a
  unfolding account_of bind_row
  bind_row-account_of ip = found

  public_ip_of_found : public_ip_of a.id accounts ≡ a.last_public_ip
  unfolding public_ip_of
  public_ip_of_found = rw (found, public_ip_of) refl

  bind_row-slot_effective_ip :
      slot_effective_ip (bind_row a.id a.last_public_ip slot) (some a) ≡ a.last_public_ip
  unfolding slot_effective_ip bind_row
  bind_row-slot_effective_ip = ground arith

bind_row-id : (n : ℕ) (ip : Bytes) (s : ProxySlot) → (bind_row n ip s).id ≡ s.id
unfolding bind_row
bind_row-id n ip s = refl

bind_row-is_active :
    (n : ℕ) (ip : Bytes) (s : ProxySlot) → is_active s ≡ true → is_active (bind_row n ip s) ≡ true
unfolding bind_row is_active
bind_row-is_active n ip s on = on

module _ (fails : ℕ → Bool) (accounts : List Account) (slot : ProxySlot) (st : Rebind) where
  module _ (here : slot_by_id slot.id st.db.slots ≡ some slot) where
    pub same-Row : Row slot.id slot st.db st.db
    same-Row = record { row = here; others = λ j o. refl; accounts_kept = refl }

    kept-Outcome :
        (p : Account)
        → is_active slot ≡ true
        → account_of accounts slot ≡ some p
        → has_id p.id st.used.accounts ≡ false
        → ip_taken (slot_effective_ip slot (some p)) st.used ≡ false
        → Outcome accounts slot st.used (use_account p.id (slot_effective_ip slot (some p)) st.used)
    kept-Outcome p on bound unused untaken = fresh p (record {
      bound = record { in_use = on; account = bound };
      unused = unused;
      untaken = untaken;
      recorded = refl;
    })

    pub keep_binding-Effect :
        (p : Account)
        → is_active slot ≡ true
        → account_of accounts slot ≡ some p
        → keep_current_slot_binding (some p) slot st.used ≡ true
        → Effect accounts slot st (keep_binding fails slot p st)
    unfolding keep_binding take_account keep_current_slot_binding
    keep_binding-Effect p on bound keep =
        by_test (
          not (is_empty slot.last_error) && slot.probe_failures == 0 && slot.ip_drift_failures == 0)
      where
        taken : Rebind
        taken = take_account p.id (slot_effective_ip slot (some p)) st

        outcome : Outcome accounts slot st.used taken.used
        outcome = kept-Outcome p on bound (ground arith) (ground arith)

        by_test :
            (b : Bool)
            → Effect accounts slot st (
                if b
                then record (mark fails slot.id [] taken) { changed = suc taken.changed }
                else taken)
        by_test true = mark-Effect accounts fails slot [] st.used taken here outcome
        by_test false = (slot, same-Row, outcome)

    pub without_candidate-Effect :
        (current : Option Account)
        → is_active slot ≡ true
        → account_of accounts slot ≡ current
        → (without_candidate fails slot current st).failed ≡ false
        → Effect accounts slot st (without_candidate fails slot current st)
    unfolding without_candidate take_account count_change unassign_proxy_slot account_of unbind_row
    without_candidate-Effect none on lost ok =
        mark-Effect accounts fails slot no_candidate st.used st here
          (vacant (λ p b. cc (b.account, lost)) refl)
    without_candidate-Effect (some p) on bound ok =
        by_test (current_binding_conflicts (some p) slot st.used) refl ok
      where
        short : Rebind
        short = record st { missing = suc st.missing }

        taken : Rebind
        taken = take_account p.id (slot_effective_ip slot (some p)) short

        result : Bool → Rebind
        result b =
            if b
            then or_fail (unassign_proxy_slot fails slot.id waiting_for_ip st.db) count_change short
            else if is_empty slot.last_error
            then mark fails slot.id kept_without_replacement taken
            else taken

        outcome :
            current_binding_conflicts (some p) slot st.used ≡ false
            → Outcome accounts slot st.used taken.used
        outcome e = kept-Outcome p on bound (ground (arith, e)) (ground (arith, e))

        by_error :
            (b : Bool)
            → Outcome accounts slot st.used taken.used
            → Effect accounts slot st
                (if b then mark fails slot.id kept_without_replacement taken else taken)
        by_error true o =
            mark-Effect accounts fails slot kept_without_replacement st.used taken here o
        by_error false o = (slot, same-Row, o)

        by_test :
            (b : Bool)
            → current_binding_conflicts (some p) slot st.used ≡ b
            → (result b).failed ≡ false
            → Effect accounts slot st (result b)
        by_test true e ok =
            subst (Effect accounts slot st)
              (sym (
                or_fail_ok fails
                  (λ (db : Store). record db {
                    slots = update_slots slot.id (unbind_row waiting_for_ip) db.slots;
                  })
                  count_change short ok))
              (
                unbind_row waiting_for_ip slot,
                update-Row slot.id (unbind_row waiting_for_ip) (λ s. refl) st.db slot here,
                vacant (λ q b. cc (b.account)) refl,
              )
        by_test false e ok = by_error (is_empty slot.last_error) (outcome e)

    pub bind_candidate-Effect :
        (a : Account)
        → is_active slot ≡ true
        → st.db.accounts ≡ accounts
        → account_by_id a.id accounts ≡ some a
        → slot_candidate_available a st.used ≡ true
        → (bind_candidate fails slot a st).failed ≡ false
        → Effect accounts slot st (bind_candidate fails slot a st)
    unfolding bind_candidate take_account count_change assign_proxy_slot_account
    bind_candidate-Effect a on same found available ok =
        subst (Effect accounts slot st)
          (sym (
            or_fail_ok fails
              (λ (db : Store). record db {
                slots =
                    update_slots slot.id (bind_row a.id (public_ip_of a.id db.accounts)) db.slots;
              })
              (λ (next : Rebind). count_change (take_account a.id a.last_public_ip next)) st ok))
          (
            bind_row a.id ip slot,
            update-Row slot.id (bind_row a.id ip) (bind_row-id a.id ip) st.db slot here,
            fresh a (record {
              bound = record {
                in_use = bind_row-is_active a.id ip slot on;
                account = bind_row-account_of slot accounts a found ip;
              };
              unused = available-unused a st.used available;
              untaken =
                  ap (λ (x : Bytes). ip_taken x st.used) row-ip
                  ∙ available-untaken a st.used available;
              recorded = ap (λ (x : Bytes). use_account a.id x st.used) (sym row-ip);
            }),
          )
      where
        ip : Bytes
        ip = public_ip_of a.id st.db.accounts

        pinned : ip ≡ a.last_public_ip
        pinned =
            ap (λ (l : List Account). public_ip_of a.id l) same
            ∙ public_ip_of_found slot accounts a found

        row-ip : slot_effective_ip (bind_row a.id ip slot) (some a) ≡ a.last_public_ip
        row-ip =
            ap (λ (x : Bytes). slot_effective_ip (bind_row a.id x slot) (some a)) pinned
            ∙ bind_row-slot_effective_ip slot accounts a found

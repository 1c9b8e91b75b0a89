-- ===== src/Database/Rows.antt =====
-- What the statements of db/db.go do to one row.
use proxy_forge.Prelude.{
  ℕ, suc, ◌+◌, ◌≡◌, refl, ◌≢◌, Bool, true, false, Option, none, some, List, [], ◌∷◌, arith, ◌==◌,
  if◌then◌else◌, Bytes,
}
use proxy_forge.Models.{ProxySlot}
use proxy_forge.Database.{
  update_slots, error_row, exec, mark_proxy_slot_error, mark_proxy_slot_probe_failure,
  mark_proxy_slot_ip_drift, Store,
}

unfoldable pub slot_by_id : ℕ → List ProxySlot → Option ProxySlot
slot_by_id n [] = none
slot_by_id n (s ∷ slots) = let rest = slot_by_id n slots in if s.id == n then some s else rest

-- The row `n` is `x` in `after`, and nothing else is changed but the count of statements.
pub record Row (n : ℕ) (x : ProxySlot) (before after : Store) : Type 0 where
  pub row : slot_by_id n after.slots ≡ some x
  pub others : (j : ℕ) → n ≢ j → slot_by_id j after.slots ≡ slot_by_id j before.slots
  pub accounts_kept : after.accounts ≡ before.accounts

-- The columns that say to what a slot is bound.
pub record SameBinding (x y : ProxySlot) : Type 0 where
  pub same_status : y.status ≡ x.status
  pub same_account : y.account_id ≡ x.account_id
  pub same_pin : y.pinned_public_ip ≡ x.pinned_public_ip

module _ (n : ℕ) (f : ProxySlot → ProxySlot) (keeps : (s : ProxySlot) → (f s).id ≡ s.id) where
  pub update_slots_row :
      (slots : List ProxySlot) (x : ProxySlot)
      → slot_by_id n slots ≡ some x
      → slot_by_id n (update_slots n f slots) ≡ some (f x)
  unfolding slot_by_id update_slots
  update_slots_row [] x h = cc h
  update_slots_row (s ∷ slots) x h = ground (arith, update_slots_row slots x, keeps s, h)

  pub update_slots_others :
      (slots : List ProxySlot) (j : ℕ)
      → n ≢ j
      → slot_by_id j (update_slots n f slots) ≡ slot_by_id j slots
  unfolding slot_by_id update_slots
  update_slots_others [] j h = refl
  update_slots_others (s ∷ slots) j h = ground (arith, update_slots_others slots j h, keeps s, h)

  pub update-Row :
      (db : Store) (x : ProxySlot)
      → slot_by_id n db.slots ≡ some x
      → Row n (f x) db (record db { writes = suc db.writes; slots = update_slots n f db.slots })
  update-Row db x h = record {
    row = update_slots_row db.slots x h;
    others = update_slots_others db.slots;
    accounts_kept = refl;
  }

pub untouched-Row :
    (n : ℕ) (db : Store) (x : ProxySlot)
    → slot_by_id n db.slots ≡ some x
    → Row n x db (record db { writes = suc db.writes })
untouched-Row n db x h = record { row = h; others = λ j o. refl; accounts_kept = refl }

-- A statement that changes a row but not its binding, whether it fails or not.
pub exec-Row :
    (fails : ℕ → Bool) (n : ℕ) (f : ProxySlot → ProxySlot)
    (keeps : (s : ProxySlot) → (f s).id ≡ s.id) (binds : (s : ProxySlot) → SameBinding s (f s))
    (db : Store) (x : ProxySlot)
    → slot_by_id n db.slots ≡ some x
    → (y : ProxySlot) × SameBinding x y
      × Row n y db (exec fails (λ d. record d { slots = update_slots n f d.slots }) db).1
unfolding exec
exec-Row fails n f keeps binds db x h = by_failure (fails db.writes)
  where
    by_failure :
        (b : Bool)
        → let next : Store = record db { writes = suc db.writes } in
          let r : Bool × Store =
            if b
            then (false, next)
            else (true, record next { slots = update_slots n f next.slots }) in
          (y : ProxySlot) × SameBinding x y × Row n y db r.1
    by_failure true = (
      x,
      record { same_status = refl; same_account = refl; same_pin = refl },
      untouched-Row n db x h,
    )
    by_failure false = (f x, binds x, update-Row n f keeps db x h)

module _ (fails : ℕ → Bool) (n : ℕ) (msg : Bytes) (db : Store) (x : ProxySlot)
    (here : slot_by_id n db.slots ≡ some x) where
  pub mark_proxy_slot_error-Row :
      (y : ProxySlot) × SameBinding x y × Row n y db (mark_proxy_slot_error fails n msg db).1
  unfolding mark_proxy_slot_error error_row
  mark_proxy_slot_error-Row =
      exec-Row fails n (error_row msg) (λ s. refl)
        (λ s. record { same_status = refl; same_account = refl; same_pin = refl }) db x here

  pub mark_proxy_slot_probe_failure-Row :
      (y : ProxySlot) × SameBinding x y
      × Row n y db (mark_proxy_slot_probe_failure fails n msg db).1
  unfolding mark_proxy_slot_probe_failure
  mark_proxy_slot_probe_failure-Row =
      exec-Row fails n (λ s. record s { probe_failures = s.probe_failures + 1; last_error = msg })
        (λ s. refl) (λ s. record { same_status = refl; same_account = refl; same_pin = refl }) db x
        here

  pub mark_proxy_slot_ip_drift-Row :
      (y : ProxySlot) × SameBinding x y × Row n y db (mark_proxy_slot_ip_drift fails n msg db).1
  unfolding mark_proxy_slot_ip_drift
  mark_proxy_slot_ip_drift-Row =
      exec-Row fails n
        (λ s. record s { ip_drift_failures = s.ip_drift_failures + 1; last_error = msg })
        (λ s. refl) (λ s. record { same_status = refl; same_account = refl; same_pin = refl }) db x
        here

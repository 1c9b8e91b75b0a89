-- ===== src/Scheduler/Cleanup/Spares.antt =====
-- What one statement of the clean-up leaves of the slots and of the accounts they are bound to.
use proxy_forge.Prelude.{
  ℕ, suc, ◌≡◌, refl, sym, ap, ◌∙◌, subst, ◌≢◌, inl, inr, Bool, true, false, not, Option, none, some,
  List, [], ◌∷◌, map, arith, ◌==◌, if◌then◌else◌, Bool-cases, All, select, Bytes, codes, str_eq,
}
use proxy_forge.Models.{active, is_active, Account, ProxySlot}
use proxy_forge.Database.{
  account_by_id, update_accounts, unbind_row, leave_account, leave_pool, exec, delete_account,
  Store,
}
use proxy_forge.Scheduler.Binding.{has_id}

abbrev pub is_some : Option Account → Bool
is_some none = false
is_some (some a) = true

abbrev pub IsCovered : List ℕ → Option ℕ → Type 0
IsCovered bound none = Unit {0}
IsCovered bound (some n) = has_id n bound ≡ true

-- The accounts of active slots are in the set.
abbrev pub Covers : List ℕ → List ProxySlot → Type 0
Covers bound slots = All (λ s. IsCovered bound s.account_id) (select is_active slots)

-- The rows of active slots are as they were, and the accounts of the set that existed still exist.
pub record Spares (bound : List ℕ) (before after : Store) : Type 0 where
  pub slots_kept : select is_active after.slots ≡ select is_active before.slots
  pub accounts_kept :
      (n : ℕ)
      → has_id n bound ≡ true
      → is_some (account_by_id n after.accounts) ≡ is_some (account_by_id n before.accounts)

pub Spares-refl : (bound : List ℕ) (db : Store) → Spares bound db db
Spares-refl bound db = record { slots_kept = refl; accounts_kept = λ n h. refl }

pub Spares-trans :
    (bound : List ℕ) (a b c : Store) → Spares bound a b → Spares bound b c → Spares bound a c
Spares-trans bound a b c h k = record {
  slots_kept = k.slots_kept ∙ h.slots_kept;
  accounts_kept = λ n m. k.accounts_kept n m ∙ h.accounts_kept n m;
}

pub Spares-Covers :
    (bound : List ℕ) (a b : Store) → Spares bound a b → Covers bound a.slots → Covers bound b.slots
Spares-Covers bound a b h c =
    subst (λ (l : List ProxySlot). All (λ s. IsCovered bound s.account_id) l) (sym h.slots_kept) c

update_accounts-is_some :
    (p : Account → Bool) (f : Account → Account) (keeps : (a : Account) → (f a).id ≡ a.id) (n : ℕ)
    (accounts : List Account)
    → is_some (account_by_id n (update_accounts p f accounts)) ≡ is_some (account_by_id n accounts)
unfolding account_by_id update_accounts
update_accounts-is_some p f keeps n [] = refl
update_accounts-is_some p f keeps n (a ∷ accounts) =
    ground (arith, update_accounts-is_some p f keeps n accounts, keeps a)

delete-account_by_id :
    (n k : ℕ) (accounts : List Account)
    → k ≢ n
    → account_by_id k (select (λ a. not (a.id == n)) accounts) ≡ account_by_id k accounts
unfolding account_by_id
delete-account_by_id n k [] h = refl
delete-account_by_id n k (a ∷ accounts) h = ground (arith, delete-account_by_id n k accounts h, h)

-- Which slot a deletion leaves alone.
leave_account-is_active : (n : ℕ) (s : ProxySlot) → is_active (leave_account n s) ≡ is_active s
unfolding leave_account unbind_row is_active
leave_account-is_active n s = go (s.account_id)
  where
    go :
        (o : Option ℕ)
        → let left : ProxySlot = elim o [
          | some k ↦ if k == n then unbind_row (codes "bound account deleted") s else s
          | none ↦ s
        ] in
          str_eq left.status active ≡ str_eq s.status active
    go none = refl
    go (some k) = by_test (k == n)
      where
        by_test :
            (b : Bool)
            → let left : ProxySlot =
                if b then unbind_row (codes "bound account deleted") s else s in
              str_eq left.status active ≡ str_eq s.status active
        by_test true = refl
        by_test false = refl

leave_account-other :
    (bound : List ℕ) (n : ℕ) (s : ProxySlot)
    → has_id n bound ≡ false
    → IsCovered bound s.account_id
    → leave_account n s ≡ s
unfolding leave_account
leave_account-other bound n s free covered = go (s.account_id) covered
  where
    go :
        (o : Option ℕ)
        → IsCovered bound o
        → elim o as (λ _. ProxySlot) [
          | some k ↦ if k == n then unbind_row (codes "bound account deleted") s else s
          | none ↦ s
        ]
          ≡ s
    go none c = refl
    go (some k) c = elim (Bool-cases (k == n)) [
      | inl e ↦ cc (free, c, ap (λ (i : ℕ). has_id i bound) (e-eq k e))
      | inr e ↦ rw e refl
    ]
      where
        e-eq : (k : ℕ) → (k == n) ≡ true → k ≡ n
        e-eq k e = ground (arith, e)

delete-select :
    (bound : List ℕ) (n : ℕ) (slots : List ProxySlot)
    → has_id n bound ≡ false
    → Covers bound slots
    → select is_active (map (leave_account n) slots) ≡ select is_active slots
delete-select bound n [] free c = refl
delete-select bound n (s ∷ slots) free c =
    go (is_active s) (is_active (leave_account n s)) (leave_account-is_active n s) c
      (delete-select bound n slots free)
  where
    left : List ProxySlot
    left = select is_active (map (leave_account n) slots)

    go :
        (b d : Bool)
        → d ≡ b
        → All
            (λ x. IsCovered bound x.account_id)
            (if b then s ∷ select is_active slots else select is_active slots)
        → (Covers bound slots → left ≡ select is_active slots)
        → (if d then leave_account n s ∷ left else left)
          ≡ (if b then s ∷ select is_active slots else select is_active slots)
    go true true h c ih = cc (leave_account-other bound n s free c.0, ih c.1)
    go true false h c ih = cc h
    go false true h c ih = cc h
    go false false h c ih = ih c

-- Deleting an account that no active slot is bound to.
pub delete_account-Spares :
    (fails : ℕ → Bool) (bound : List ℕ) (n : ℕ) (db : Store)
    → has_id n bound ≡ false
    → Covers bound db.slots
    → Spares bound db (delete_account fails n db).1
unfolding delete_account exec
delete_account-Spares fails bound n db free c = by_failure (fails db.writes)
  where
    next : Store
    next = record db { writes = suc db.writes }

    by_failure :
        (b : Bool)
        → let r : Bool × Store = if b then (false, next) else (
          true,
          record next {
            slots = map (leave_account n) next.slots;
            ip_pool = map (leave_pool n) next.ip_pool;
            tests = select (λ t. not (t.account_id == n)) next.tests;
            accounts = select (λ a. not (a.id == n)) next.accounts;
          },
        ) in
          Spares bound db r.1
    by_failure true = record { slots_kept = refl; accounts_kept = λ k h. refl }
    by_failure false = record {
      slots_kept = delete-select bound n db.slots free c;
      accounts_kept = λ k h. ap is_some (
          delete-account_by_id n k db.accounts
            (λ e. cc (free, h, ap (λ (i : ℕ). has_id i bound) e)));
    }

-- Changing accounts without their IDs.
pub update-Spares :
    (fails : ℕ → Bool) (bound : List ℕ) (p : Account → Bool) (f : Account → Account)
    (keeps : (a : Account) → (f a).id ≡ a.id) (db : Store)
    → Spares bound db
        (exec fails (λ d. record d { accounts = update_accounts p f d.accounts }) db).1
unfolding exec
update-Spares fails bound p f keeps db = by_failure (fails db.writes)
  where
    next : Store
    next = record db { writes = suc db.writes }

    by_failure :
        (b : Bool)
        → let r : Bool × Store =
            if b
            then (false, next)
            else (true, record next { accounts = update_accounts p f next.accounts }) in
          Spares bound db r.1
    by_failure true = record { slots_kept = refl; accounts_kept = λ k h. refl }
    by_failure false = record {
      slots_kept = refl;
      accounts_kept = λ k h. update_accounts-is_some p f keeps k db.accounts;
    }

pub pool-Spares :
    (fails : ℕ → Bool) (bound : List ℕ) (f : List (Bytes × Option ℕ) → List (Bytes × Option ℕ))
    (db : Store)
    → Spares bound db (exec fails (λ d. record d { ip_pool = f d.ip_pool }) db).1
unfolding exec
pool-Spares fails bound f db = by_failure (fails db.writes)
  where
    next : Store
    next = record db { writes = suc db.writes }

    by_failure :
        (b : Bool)
        → let r : Bool × Store =
            if b then (false, next) else (true, record next { ip_pool = f next.ip_pool }) in
          Spares bound db r.1
    by_failure true = record { slots_kept = refl; accounts_kept = λ k h. refl }
    by_failure false = record { slots_kept = refl; accounts_kept = λ k h. refl }

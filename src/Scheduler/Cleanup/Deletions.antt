-- ===== src/Scheduler/Cleanup/Deletions.antt =====
-- One deletion in the loops of the clean-up.
use proxy_forge.Prelude.{ℕ, ◌≡◌, refl, sym, subst, Bool, true, false, List}
use proxy_forge.Prelude.Assoc.{number_key}
use proxy_forge.Models.{Account}
use proxy_forge.Database.{delete_account, Store}
use proxy_forge.Scheduler.Binding.{has_id}
use proxy_forge.Scheduler.Cleanup.{prune_account, prune_tested, disable_account, Pruned, Deduped}
use proxy_forge.Scheduler.Cleanup.Spares.{
  Covers, Spares-trans, Spares-Covers, delete_account-Spares, Spares,
}

-- A deletion, and what the loops make of its answer.
pub prune_account-db :
    (fails : ℕ → Bool) (a : Account) (st : Pruned)
    → (prune_account fails a (delete_account fails a.id st.db) st).db
      ≡ (delete_account fails a.id st.db).1
unfolding prune_account
prune_account-db fails a st = go (delete_account fails a.id st.db)
  where
    go : (r : Bool × Store) → (prune_account fails a r st).db ≡ r.1
    go (true, db) = refl
    go (false, db) = refl

pub prune_tested-db :
    (fails : ℕ → Bool) (r : Bool × Store) (st : Pruned) → (prune_tested fails r st).db ≡ r.1
unfolding prune_tested
prune_tested-db fails (true, db) st = refl
prune_tested-db fails (false, db) st = refl

pub disable_account-db :
    (fails : ℕ → Bool) (r : Bool × Store) (st : Deduped) → (disable_account fails r st).db ≡ r.1
unfolding disable_account
disable_account-db fails (true, db) st = refl
disable_account-db fails (false, db) st = refl

module _ (fails : ℕ → Bool) (bound : List ℕ) where
  pub delete-db-Spares :
      (n : ℕ) (db after : Store)
      → has_id n bound ≡ false
      → Covers bound db.slots
      → after ≡ (delete_account fails n db).1
      → Spares bound db after
  delete-db-Spares n db after free c e =
      subst (λ (d : Store). Spares bound db d) (sym e)
        (delete_account-Spares fails bound n db free c)

  -- One account of a loop: it is left out, or its deletion is followed by the rest of the loop.
  pub then-Spares :
      (a b c : Store)
      → Spares bound a b
      → Covers bound a.slots
      → (Covers bound b.slots → Spares bound b c)
      → Spares bound a c
  then-Spares a b c h covers k = Spares-trans bound a b c h (k (Spares-Covers bound a b h covers))

-- ===== src/Scheduler/Cleanup/Prunes.antt =====
-- The loops of pruneStoredBadAccounts and pruneTestResults.
use proxy_forge.Prelude.{
  ℕ, ◌≡◌, refl, Bool, true, false, Option, none, some, List, [], ◌∷◌, if◌then◌else◌,
}
use proxy_forge.Prelude.Assoc.{bytes_key, number_key, lookup}
use proxy_forge.Models.{Account}
use proxy_forge.Database.{delete_account}
use proxy_forge.Proxy.Manager.State.{Float64}
use proxy_forge.Scheduler.Binding.{has_id}
use proxy_forge.Scheduler.Cleanup.{
  stored_reason, test_reason, prune_account, prune_stored_loop, prune_tested, prune_test_loop,
  TestResult, Reason, Pruned,
}
use proxy_forge.Scheduler.Cleanup.Spares.{Covers, Spares-refl, Spares}
use proxy_forge.Scheduler.Cleanup.Deletions.{
  prune_account-db, prune_tested-db, delete-db-Spares, then-Spares,
}

module _ (fails : ℕ → Bool) (bound : List ℕ) where
  pub prune_stored_loop-Spares :
      (fl : Float64) (now : ℕ) (accounts : List Account) (st : Pruned)
      → Covers bound st.db.slots
      → Spares bound st.db (prune_stored_loop fails fl now bound accounts st).db
  unfolding prune_stored_loop
  prune_stored_loop-Spares fl now [] st c = Spares-refl bound st.db
  prune_stored_loop-Spares fl now (a ∷ accounts) st c =
      go (has_id a.id bound) refl (stored_reason fl now a) next.failed
        (prune_stored_loop-Spares fl now accounts st c)
        (prune_stored_loop-Spares fl now accounts next)
    where
      next : Pruned
      next = prune_account fails a (delete_account fails a.id st.db) st

      skipped : Pruned
      skipped = prune_stored_loop fails fl now bound accounts st

      rest : Pruned
      rest = prune_stored_loop fails fl now bound accounts next

      deleted : has_id a.id bound ≡ false → Spares bound st.db next.db
      deleted free =
          delete-db-Spares fails bound a.id st.db next.db free c (prune_account-db fails a st)

      go :
          (b : Bool)
          → has_id a.id bound ≡ b
          → (o : Option Reason) (f : Bool) → Spares bound st.db skipped.db
          → (Covers bound next.db.slots → Spares bound next.db rest.db)
          → let r : Pruned =
              if b
              then skipped
              else elim o [ none ↦ skipped | some reason ↦ if f then next else rest ] in
            Spares bound st.db r.db
      go true e o f s k = s
      go false e none f s k = s
      go false e (some reason) true s k = deleted e
      go false e (some reason) false s k =
          then-Spares fails bound st.db next.db rest.db (deleted e) c k

  pub prune_test_loop-Spares :
      (fl : Float64) (results : List (ℕ × TestResult)) (accounts : List Account) (st : Pruned)
      → Covers bound st.db.slots
      → Spares bound st.db (prune_test_loop fails fl bound results accounts st).db
  unfolding prune_test_loop
  prune_test_loop-Spares fl results [] st c = Spares-refl bound st.db
  prune_test_loop-Spares fl results (a ∷ accounts) st c =
      go (has_id a.id bound) refl (lookup a.id results)
        (prune_test_loop-Spares fl results accounts st c)
        (prune_test_loop-Spares fl results accounts next)
    where
      next : Pruned
      next = prune_tested fails (delete_account fails a.id st.db) st

      skipped : Pruned
      skipped = prune_test_loop fails fl bound results accounts st

      rest : Pruned
      rest = prune_test_loop fails fl bound results accounts next

      deleted : has_id a.id bound ≡ false → Spares bound st.db next.db
      deleted free =
          delete-db-Spares fails bound a.id st.db next.db free c
            (prune_tested-db fails (delete_account fails a.id st.db) st)

      by_reason :
          (o : Option Reason)
          → has_id a.id bound ≡ false
          → Spares bound st.db skipped.db
          → (Covers bound next.db.slots → Spares bound next.db rest.db)
          → let r : Pruned = elim o [ none ↦ skipped | some reason ↦ rest ] in
            Spares bound st.db r.db
      by_reason none e s k = s
      by_reason (some reason) e s k = then-Spares fails bound st.db next.db rest.db (deleted e) c k

      go :
          (b : Bool)
          → has_id a.id bound ≡ b
          → (o : Option TestResult) → Spares bound st.db skipped.db
          → (Covers bound next.db.slots → Spares bound next.db rest.db)
          → let r : Pruned = if b then skipped else elim o [
            | none ↦ skipped
            | some r ↦ elim (test_reason fl st.db a r) [ none ↦ skipped | some reason ↦ rest ]
          ] in
            Spares bound st.db r.db
      go true e o s k = s
      go false e none s k = s
      go false e (some r) s k = by_reason (test_reason fl st.db a r) e s k

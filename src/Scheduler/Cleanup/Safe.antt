-- ===== src/Scheduler/Cleanup/Safe.antt =====
-- The clean-ups touch no active slot, and delete no account that one is bound to.
use proxy_forge.Prelude.{ℕ, Bool, true, false, List, []}
use proxy_forge.Prelude.Assoc.{number_key}
use proxy_forge.Models.{Account}
use proxy_forge.Database.{Store}
use proxy_forge.Proxy.Manager.State.{Float64}
use proxy_forge.Scheduler.Cleanup.{
  bound_ids_of, bound_account_ids, group_by_ip, prune_stored_bad_accounts, prune_test_results,
  apply_dedup, TestResult,
}
use proxy_forge.Scheduler.Cleanup.Spares.{Spares}
use proxy_forge.Scheduler.Cleanup.Covers.{bound_ids_of-Covers}
use proxy_forge.Scheduler.Cleanup.Prunes.{prune_stored_loop-Spares, prune_test_loop-Spares}
use proxy_forge.Scheduler.Cleanup.Dedup.{dedup_groups-Spares}

-- If the slots can be listed, then pruneStoredBadAccounts, pruneTestResults and applyDedup, whatever
-- statements fail, leave the rows of the active slots as they are, and every account that one of
-- these is bound to in the table.
pub cleanup-Spares :
    (fails : ℕ → Bool) (fl : Float64) (now : ℕ) (accounts : List Account)
    (results : List (ℕ × TestResult)) (db : Store)
    → let bound = bound_ids_of db.slots in
      Spares bound db (prune_stored_bad_accounts fails fl now true db).db
      × Spares bound db (prune_test_results fails fl true accounts results db).db
      × Spares bound db (apply_dedup fails fl now true accounts results db).db
unfolding prune_stored_bad_accounts prune_test_results apply_dedup bound_account_ids
cleanup-Spares fails fl now accounts results db =
    let bound = bound_ids_of db.slots in
    let covers = bound_ids_of-Covers db.slots in
    (
      prune_stored_loop-Spares fails bound fl now db.accounts
          (record { db = db; deleted = 0; failed = false }) covers,
      prune_test_loop-Spares fails bound fl results accounts
          (record { db = db; deleted = 0; failed = false }) covers,
      dedup_groups-Spares fails bound fl now (group_by_ip db results accounts [])
          (record { db = db; kept = 0; disabled = 0 }) covers,
    )

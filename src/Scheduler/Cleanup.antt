-- ===== src/Scheduler/Cleanup.antt =====
-- Which accounts are deleted: pruneStoredBadAccounts, pruneTestResults, applyDedup and
-- boundAccountIDs. A Go map is an association list, whose order is one that its iteration may take.
pub mod Spares
pub mod Covers
pub mod Deletions
pub mod Prunes
pub mod Dedup
pub mod Safe
pub mod Keeper
use proxy_forge.Prelude.{
  ℕ, suc, ◌-◌, ◌*◌, Bool, true, false, not, ◌&&◌, ◌||◌, Option, none, some, List, [], ◌∷◌, ◌++◌,
  ltb, ◌==◌, if◌then◌else◌, Bytes, codes, str_eq, trim_space, is_empty,
}
use proxy_forge.Prelude.Assoc.{bytes_key, number_key, lookup, insert}
use proxy_forge.Models.{is_active, is_active_account, Account, ProxySlot}
use proxy_forge.Database.{
  account_by_id, delete_account, set_ip_keeper, clear_ip_keeper_except, Store,
}
use proxy_forge.Proxy.Manager.State.{Float64}
use proxy_forge.Proxy.Manager.Score.{minute}
use proxy_forge.Scheduler.Quality.{bad_quality, bad_stored_quality, account_quality_score, Fault}
use proxy_forge.Scheduler.Binding.{has_id}

abbrev pub untested_account_grace : ℕ
untested_account_grace = 3 * minute

-- test.Result: an error, or what was measured.
pub record TestResult : Type 0 where
  pub err : Option Bytes
  pub public_ip : Bytes
  pub latency_ms : ℕ
  pub speed_bps : ℕ
  pub packet_loss : ℕ

-- Why an account is deleted: the code's text says the same.
pub data Reason : Type 0 where
  stopped : Bytes → Reason
  untested : ℕ → Reason
  no_public_ip : Reason
  low_quality : Fault → Reason

unfoldable pub first_non_empty : List Bytes → Bytes
first_non_empty [] = []
first_non_empty (v ∷ values) =
    let rest = first_non_empty values in if not (is_empty (trim_space v)) then v else rest

unfoldable pub bound_ids_of : List ProxySlot → List ℕ
unfolding is_active
bound_ids_of [] = []
bound_ids_of (slot ∷ slots) =
    let rest = bound_ids_of slots in
    elim (slot.account_id) [ some n ↦ if is_active slot then n ∷ rest else rest | none ↦ rest ]

-- `listed` says whether ListProxySlots succeeds; without it the answer is the empty set.
unfoldable pub bound_account_ids : Bool → Store → List ℕ
unfolding bound_ids_of
bound_account_ids listed db = if listed then bound_ids_of db.slots else []

abbrev pub quality_reason : Option Fault → Option Reason
quality_reason none = none
quality_reason (some f) = some (low_quality f)

-- What a loop over accounts has deleted; `failed` if it returned early.
pub record Pruned : Type 0 where
  pub db : Store
  pub deleted : ℕ
  pub failed : Bool

module _ (fl : Float64) where
  unfoldable pub stored_reason : ℕ → Account → Option Reason
  unfolding bad_stored_quality first_non_empty
  stored_reason now a =
      let age = now - a.created_at in
      if str_eq a.status (codes "error")
      then some (
          stopped
            (first_non_empty (a.disabled_reason ∷ codes "too many consecutive test failures" ∷ [])))
      else if not (is_active_account a)
      then none
      else elim (a.last_tested_at) [
        | none ↦
            if a.created_at == 0 || ltb untested_account_grace age
            then some (untested age)
            else none
        | some t ↦ quality_reason (bad_stored_quality fl a)
      ]

  -- The reason of a failed test counts only once the account is in the state error.
  unfoldable pub failure_reason : Bytes → Option Account → Option Reason
  unfolding first_non_empty
  failure_reason msg none = none
  failure_reason msg (some updated) =
      let text = first_non_empty (updated.disabled_reason ∷ msg ∷ []) in
      if not (str_eq updated.status (codes "error"))
      then none
      else if is_empty text
      then none
      else some (stopped text)

  unfoldable pub test_reason : Store → Account → TestResult → Option Reason
  unfolding failure_reason bad_quality account_by_id
  test_reason db a r = elim (r.err) [
    | some msg ↦ failure_reason msg (account_by_id a.id db.accounts)
    | none ↦
        if is_empty r.public_ip
        then some no_public_ip
        else quality_reason (bad_quality fl r.latency_ms r.speed_bps r.packet_loss)
  ]

  -- The account to keep of two with one IP.
  unfoldable pub better_ip_keeper : ℕ → List ℕ → Account → Account → Bool
  unfolding has_id account_quality_score
  better_ip_keeper now bound candidate current =
      let candidate_bound = has_id candidate.id bound in
      let current_bound = has_id current.id bound in
      if candidate_bound && not current_bound
      then true
      else if not candidate_bound && current_bound
      then false
      else fl.flt (account_quality_score fl now candidate) (account_quality_score fl now current)

  unfoldable pub ip_keeper : ℕ → List ℕ → Account → List Account → Account
  unfolding better_ip_keeper
  ip_keeper now bound keeper [] = keeper
  ip_keeper now bound keeper (a ∷ group) =
      ip_keeper now bound (if better_ip_keeper now bound a keeper then a else keeper) group

abbrev pub group_of : Option (List Account) → List Account
group_of none = []
group_of (some group) = group

-- `groups[ip] = append(groups[ip], a)`, with the account as the database has it.
unfoldable pub add_to_group :
    Bytes → Option Account → List (Bytes × List Account) → List (Bytes × List Account)
add_to_group ip none groups = groups
add_to_group ip (some a) groups = insert ip (group_of (lookup ip groups) ++ a ∷ []) groups

unfoldable pub group_account :
    Store → ℕ → Option TestResult → List (Bytes × List Account) → List (Bytes × List Account)
unfolding add_to_group account_by_id
group_account db n none groups = groups
group_account db n (some r) groups = elim (r.err) [
  | some e ↦ groups
  | none ↦
      if is_empty r.public_ip
      then groups
      else add_to_group r.public_ip (account_by_id n db.accounts) groups
]

unfoldable pub group_by_ip :
    Store
    → List (ℕ × TestResult)
    → List Account
    → List (Bytes × List Account)
    → List (Bytes × List Account)
unfolding group_account
group_by_ip db results [] groups = groups
group_by_ip db results (a ∷ accounts) groups =
    group_by_ip db results accounts (group_account db a.id (lookup a.id results) groups)

-- The counts of applyDedup.
pub record Deduped : Type 0 where
  pub db : Store
  pub kept : ℕ
  pub disabled : ℕ

module _ (fails : ℕ → Bool) where
  unfoldable pub prune_account : Account → Bool × Store → Pruned → Pruned
  prune_account a (true, db) st = record st { db = db; deleted = suc st.deleted }
  prune_account a (false, db) st = record st { db = db; failed = true }

  -- The loop ends with the first deletion that fails.
  unfoldable pub prune_stored_loop : Float64 → ℕ → List ℕ → List Account → Pruned → Pruned
  unfolding prune_account stored_reason has_id delete_account
  prune_stored_loop fl now bound [] st = st
  prune_stored_loop fl now bound (a ∷ accounts) st =
      let next = prune_account a (delete_account fails a.id st.db) st in
      let skipped = prune_stored_loop fl now bound accounts st in
      let rest = prune_stored_loop fl now bound accounts next in
      if has_id a.id bound then skipped else elim (stored_reason fl now a) [
        | none ↦ skipped
        | some reason ↦ if next.failed then next else rest
      ]

  unfoldable pub prune_stored_bad_accounts : Float64 → ℕ → Bool → Store → Pruned
  unfolding prune_stored_loop bound_account_ids
  prune_stored_bad_accounts fl now listed db =
      prune_stored_loop fl now (bound_account_ids listed db) db.accounts
        (record { db = db; deleted = 0; failed = false })

  -- A deletion that fails is logged, and the loop goes on.
  unfoldable pub prune_tested : Bool × Store → Pruned → Pruned
  prune_tested (true, db) st = record st { db = db; deleted = suc st.deleted }
  prune_tested (false, db) st = record st { db = db }

  unfoldable pub prune_test_loop :
      Float64 → List ℕ → List (ℕ × TestResult) → List Account → Pruned → Pruned
  unfolding prune_tested test_reason has_id delete_account
  prune_test_loop fl bound results [] st = st
  prune_test_loop fl bound results (a ∷ accounts) st =
      let skipped = prune_test_loop fl bound results accounts st in
      let rest =
        prune_test_loop fl bound results accounts
          (prune_tested (delete_account fails a.id st.db) st) in
      if has_id a.id bound then skipped else elim (lookup a.id results) [
        | none ↦ skipped
        | some r ↦ elim (test_reason fl st.db a r) [ none ↦ skipped | some reason ↦ rest ]
      ]

  unfoldable pub prune_test_results :
      Float64 → Bool → List Account → List (ℕ × TestResult) → Store → Pruned
  unfolding prune_test_loop bound_account_ids
  prune_test_results fl listed accounts results db =
      prune_test_loop fl (bound_account_ids listed db) results accounts
        (record { db = db; deleted = 0; failed = false })

  unfoldable pub disable_account : Bool × Store → Deduped → Deduped
  disable_account (true, db) st = record st { db = db; disabled = suc st.disabled }
  disable_account (false, db) st = record st { db = db }

  unfoldable pub dedup_account : List ℕ → ℕ → Account → Deduped → Deduped
  unfolding has_id disable_account delete_account
  dedup_account bound keeper a st =
      if a.id == keeper
      then record st { kept = suc st.kept }
      else if has_id a.id bound
      then record st { kept = suc st.kept }
      else disable_account (delete_account fails a.id st.db) st

  unfoldable pub dedup_members : List ℕ → ℕ → List Account → Deduped → Deduped
  unfolding dedup_account
  dedup_members bound keeper [] st = st
  dedup_members bound keeper (a ∷ group) st =
      dedup_members bound keeper group (dedup_account bound keeper a st)

  unfoldable pub name_keeper : Bytes → ℕ → Deduped → Deduped
  unfolding set_ip_keeper clear_ip_keeper_except
  name_keeper ip keeper st = record st {
    db = (clear_ip_keeper_except fails ip keeper (set_ip_keeper fails ip keeper st.db).1).1;
  }

  unfoldable pub dedup_group : Float64 → ℕ → List ℕ → Bytes → List Account → Deduped → Deduped
  unfolding dedup_members name_keeper ip_keeper
  dedup_group fl now bound ip [] st = st
  dedup_group fl now bound ip (a ∷ group) st =
      let keeper = ip_keeper fl now bound a group in
      dedup_members bound keeper.id (a ∷ group) (name_keeper ip keeper.id st)

  unfoldable pub dedup_groups :
      Float64 → ℕ → List ℕ → List (Bytes × List Account) → Deduped → Deduped
  unfolding dedup_group
  dedup_groups fl now bound [] st = st
  dedup_groups fl now bound ((ip, group) ∷ groups) st =
      dedup_groups fl now bound groups (dedup_group fl now bound ip group st)

  unfoldable pub apply_dedup :
      Float64 → ℕ → Bool → List Account → List (ℕ × TestResult) → Store → Deduped
  unfolding dedup_groups group_by_ip bound_account_ids
  apply_dedup fl now listed accounts results db =
      dedup_groups fl now (bound_account_ids listed db) (group_by_ip db results accounts [])
        (record { db = db; kept = 0; disabled = 0 })

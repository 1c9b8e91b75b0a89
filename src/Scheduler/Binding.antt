-- ===== src/Scheduler/Binding.antt =====
-- rebindProxySlots: every active slot keeps its account while that is sound, and gets the best free
-- account otherwise, so that no two slots share an account or a public IP.
pub mod Choice
pub mod Effects
pub mod Steps
pub mod Round
pub mod Unique
pub mod Loop
pub mod Rebound
use proxy_forge.Prelude.{
  ℕ, suc, Bool, true, false, not, ◌&&◌, ◌||◌, Option, none, some, List, [], ◌∷◌, leb, ◌==◌,
  if◌then◌else◌, select, Bytes, codes, utf8, str_eq, is_empty,
}
use proxy_forge.Models.{is_active, is_active_account, Account, ProxySlot}
use proxy_forge.Database.{
  account_of, assign_proxy_slot_account, unassign_proxy_slot, mark_proxy_slot_error, Store,
}
use proxy_forge.Proxy.Manager.State.{Float64}
use proxy_forge.Proxy.Manager.Score.{one_of}
use proxy_forge.Scheduler.Quality.{ranked_accounts_with_running}

abbrev pub slot_probe_rebind_after : ℕ
slot_probe_rebind_after = 8

abbrev pub slot_ip_drift_rebind_after : ℕ
slot_ip_drift_rebind_after = 8

-- A set of IDs.
unfoldable pub has_id : ℕ → List ℕ → Bool
has_id n [] = false
has_id n (k ∷ ids) = n == k || has_id n ids

-- usedAccount and usedIP
pub record Used : Type 0 where
  pub accounts : List ℕ
  pub ips : List Bytes

unfoldable pub has_failed : ProxySlot → Bool
has_failed slot =
    leb slot_probe_rebind_after slot.probe_failures
    || leb slot_ip_drift_rebind_after slot.ip_drift_failures

unfoldable pub slot_effective_ip : ProxySlot → Option Account → Bytes
slot_effective_ip slot current =
    if not (is_empty slot.pinned_public_ip)
    then slot.pinned_public_ip
    else elim current [ some a ↦ a.last_public_ip | none ↦ [] ]

unfoldable pub ip_taken : Bytes → Used → Bool
unfolding one_of
ip_taken ip used = not (is_empty ip) && one_of ip used.ips

unfoldable pub keep_current_slot_binding : Option Account → ProxySlot → Used → Bool
unfolding has_id has_failed ip_taken slot_effective_ip
keep_current_slot_binding none slot used = false
keep_current_slot_binding (some current) slot used =
    if not (is_active_account current) || has_id current.id used.accounts
    then false
    else if has_failed slot
    then false
    else if ip_taken (slot_effective_ip slot (some current)) used
    then false
    else true

unfoldable pub current_binding_conflicts : Option Account → ProxySlot → Used → Bool
unfolding has_id ip_taken slot_effective_ip
current_binding_conflicts none slot used = false
current_binding_conflicts (some current) slot used =
    if has_id current.id used.accounts
    then true
    else ip_taken (slot_effective_ip slot (some current)) used

unfoldable pub filter_blocked_accounts : List ℕ → List Account → List Account
unfolding has_id
filter_blocked_accounts blocked accounts = select (λ a. not (has_id a.id blocked)) accounts

unfoldable pub slot_candidate_available : Account → Used → Bool
unfolding has_id ip_taken
slot_candidate_available a used =
    if has_id a.id used.accounts
    then false
    else if ip_taken a.last_public_ip used
    then false
    else true

unfoldable pub first_available : (Account → Bool) → List Account → Used → Option Account
unfolding slot_candidate_available
first_available wanted [] used = none
first_available wanted (a ∷ candidates) used =
    let rest = first_available wanted candidates used in
    if not (slot_candidate_available a used) then rest else if wanted a then some a else rest

-- The account with the pinned IP, or else the best one.
unfoldable pub next_slot_candidate : ProxySlot → List Account → Used → Option Account
unfolding first_available
next_slot_candidate slot candidates used =
    let any = first_available (λ a. true) candidates used in
    if not (is_empty slot.pinned_public_ip)
    then elim (first_available (λ a. str_eq a.last_public_ip slot.pinned_public_ip) candidates
        used) [ some a ↦ some a | none ↦ any ]
    else any

-- The accounts of slots that failed too often.
unfoldable pub blocked_accounts : List ProxySlot → List ℕ
unfolding has_failed
blocked_accounts [] = []
blocked_accounts (slot ∷ slots) =
    let rest = blocked_accounts slots in
    elim (slot.account_id) [ some n ↦ if has_failed slot then n ∷ rest else rest | none ↦ rest ]

-- The local variables of the loop, with the database that it changes; `failed` if it returned early.
pub record Rebind : Type 0 where
  pub db : Store
  pub used : Used
  pub changed : ℕ
  pub missing : ℕ
  pub failed : Bool

unfoldable pub use_ip : Bytes → List Bytes → List Bytes
use_ip ip ips = if not (is_empty ip) then ip ∷ ips else ips

unfoldable pub use_account : ℕ → Bytes → Used → Used
unfolding use_ip
use_account n ip used = record { accounts = n ∷ used.accounts; ips = use_ip ip used.ips }

unfoldable pub take_account : ℕ → Bytes → Rebind → Rebind
unfolding use_account
take_account n ip st = record st { used = use_account n ip st.used }

-- The answer of a statement whose error ends the loop.
unfoldable pub or_fail : Bool × Store → (Rebind → Rebind) → Rebind → Rebind
or_fail (true, db) k st = k (record st { db = db })
or_fail (false, db) k st = record st { db = db; failed = true }

unfoldable pub count_change : Rebind → Rebind
count_change st = record st { changed = suc st.changed }

-- The code's messages.
unfoldable pub no_candidate : Bytes
no_candidate = codes "no healthy unique WARP account available"

unfoldable pub waiting_for_ip : Bytes
waiting_for_ip = utf8 "等待唯一出口 IP"

unfoldable pub kept_without_replacement : Bytes
kept_without_replacement = utf8 "没有可替换的健康 WARP，继续保留当前绑定"

unfoldable pub rebind_start : Store → Rebind
rebind_start db = record {
  db = db;
  used = record { accounts = []; ips = [] };
  changed = 0;
  missing = 0;
  failed = false;
}

unfoldable pub rebind_candidates : Float64 → ℕ → List Bytes → Store → List Account
unfolding filter_blocked_accounts blocked_accounts ranked_accounts_with_running
rebind_candidates fl now running db =
    filter_blocked_accounts (blocked_accounts db.slots)
      (ranked_accounts_with_running fl now (some running) db.accounts)

module _ (fails : ℕ → Bool) where
  -- `_ = s.db.MarkProxySlotError(...)`
  unfoldable pub mark : ℕ → Bytes → Rebind → Rebind
  unfolding mark_proxy_slot_error
  mark slot msg st = record st { db = (mark_proxy_slot_error fails slot msg st.db).1 }

  unfoldable pub keep_binding : ProxySlot → Account → Rebind → Rebind
  unfolding mark take_account slot_effective_ip
  keep_binding slot current st =
      let taken = take_account current.id (slot_effective_ip slot (some current)) st in
      if not (is_empty slot.last_error) && slot.probe_failures == 0 && slot.ip_drift_failures == 0
      then record (mark slot.id [] taken) { changed = suc taken.changed }
      else taken

  unfoldable pub without_candidate : ProxySlot → Option Account → Rebind → Rebind
  unfolding mark take_account slot_effective_ip or_fail count_change unassign_proxy_slot
      current_binding_conflicts no_candidate waiting_for_ip kept_without_replacement
  without_candidate slot none st =
      mark slot.id no_candidate (record st { missing = suc st.missing })
  without_candidate slot (some current) st =
      let short : Rebind = record st { missing = suc st.missing } in
      let taken = take_account current.id (slot_effective_ip slot (some current)) short in
      if current_binding_conflicts (some current) slot st.used
      then or_fail (unassign_proxy_slot fails slot.id waiting_for_ip st.db) count_change short
      else if is_empty slot.last_error
      then mark slot.id kept_without_replacement taken
      else taken

  unfoldable pub bind_candidate : ProxySlot → Account → Rebind → Rebind
  unfolding or_fail count_change take_account assign_proxy_slot_account
  bind_candidate slot candidate st =
      or_fail (assign_proxy_slot_account fails slot.id candidate.id st.db)
        (λ next. count_change (take_account candidate.id candidate.last_public_ip next)) st

  unfoldable pub rebind_slot : List Account → List Account → ProxySlot → Rebind → Rebind
  unfolding keep_binding without_candidate bind_candidate keep_current_slot_binding
      next_slot_candidate account_of
  rebind_slot accounts candidates slot st =
      let current = account_of accounts slot in
      let replaced : Rebind = elim (next_slot_candidate slot candidates st.used) [
        | some candidate ↦ bind_candidate slot candidate st
        | none ↦ without_candidate slot current st
      ] in
      if not (is_active slot) then st else elim current [
        | some a ↦
            if keep_current_slot_binding (some a) slot st.used
            then keep_binding slot a st
            else replaced
        | none ↦ replaced
      ]

  unfoldable pub rebind_loop : List Account → List Account → List ProxySlot → Rebind → Rebind
  unfolding rebind_slot
  rebind_loop accounts candidates [] st = st
  rebind_loop accounts candidates (slot ∷ slots) st =
      let next = rebind_slot accounts candidates slot st in
      let rest = rebind_loop accounts candidates slots next in if next.failed then next else rest

  -- `running` are the tags of the Manager's running tunnels.
  unfoldable pub rebind_proxy_slots : Float64 → ℕ → List Bytes → Store → Rebind
  unfolding rebind_loop rebind_start rebind_candidates
  rebind_proxy_slots fl now running db =
      rebind_loop db.accounts (rebind_candidates fl now running db) db.slots (rebind_start db)

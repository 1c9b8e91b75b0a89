-- ===== src/Scheduler/Pool.antt =====
-- How many accounts the pool is short of: healthyAccountCount, healthyUniqueIPCount,
-- requiredAccountRegistrations and targetWarpPoolSize. The code's differences may be negative; its
-- last test makes 0 of them, as the subtraction here does.
pub mod Shortage
use proxy_forge.Prelude.{
  ℕ, suc, ◌+◌, ◌-◌, ◌/◌, Bool, false, not, ◌||◌, none, some, List, [], ◌∷◌, ltb, ◌==◌,
  if◌then◌else◌, length, Bytes, trim_space, is_empty,
}
use proxy_forge.Models.{Account}
use proxy_forge.Proxy.Manager.State.{Float64}
use proxy_forge.Proxy.Manager.Score.{one_of}
use proxy_forge.Scheduler.Quality.{account_usable}

abbrev pub min_warp_pool_reserve : ℕ
min_warp_pool_reserve = 3

unfoldable pub target_warp_pool_size : ℕ → ℕ
target_warp_pool_size slot_count =
    let half = (slot_count + 1) / 2 in
    let reserve = if ltb half min_warp_pool_reserve then min_warp_pool_reserve else half in
    if slot_count == 0 then 0 else slot_count + reserve

module _ (fl : Float64) where
  unfoldable pub healthy_account_count : List Account → ℕ
  unfolding account_usable
  healthy_account_count [] = 0
  healthy_account_count (a ∷ accounts) =
      let rest = healthy_account_count accounts in if account_usable fl a then suc rest else rest

  -- The keys of the map `ips`.
  unfoldable pub healthy_ips : List Account → List Bytes
  unfolding account_usable one_of
  healthy_ips [] = []
  healthy_ips (a ∷ accounts) =
      let rest = healthy_ips accounts in
      let ip = trim_space a.last_public_ip in
      if not (account_usable fl a)
      then rest
      else if is_empty ip || one_of ip rest
      then rest
      else ip ∷ rest

  unfoldable pub healthy_unique_ip_count : List Account → ℕ
  unfolding healthy_ips
  healthy_unique_ip_count accounts = length (healthy_ips accounts)

  unfoldable pub required_account_registrations : ℕ → ℕ → List Account → ℕ
  unfolding healthy_account_count healthy_unique_ip_count
  required_account_registrations slot_count target_pool accounts =
      let need = target_pool - healthy_account_count accounts in
      let unique_gap = slot_count - healthy_unique_ip_count accounts in
      if ltb need unique_gap then unique_gap else need

-- allTestedActiveAccountsFailed
unfoldable pub count_tested : List Account → ℕ
count_tested [] = 0
count_tested (a ∷ accounts) =
    let rest = count_tested accounts in elim (a.last_tested_at) [ some t ↦ suc rest | none ↦ rest ]

unfoldable pub any_tested_with_ip : List Account → Bool
any_tested_with_ip [] = false
any_tested_with_ip (a ∷ accounts) =
    let rest = any_tested_with_ip accounts in
    elim (a.last_tested_at) [ some t ↦ not (is_empty a.last_public_ip) || rest | none ↦ rest ]

unfoldable pub all_tested_active_accounts_failed : List Account → Bool
unfolding count_tested any_tested_with_ip
all_tested_active_accounts_failed accounts =
    if length accounts == 0
    then false
    else if any_tested_with_ip accounts
    then false
    else count_tested accounts == length accounts

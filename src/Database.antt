-- ===== src/Database.antt =====
-- The statements of db/db.go that the scheduler runs, on the tables it reads. SQLite itself is not
-- modelled: a table is the list of its rows in the order in which the queries return them
-- (proxy_slots by username, warp_accounts by tag), and `fails n` says whether the n-th statement
-- returns an error. Such a statement changes nothing, and a transaction counts as one statement.
pub mod Rows
pub mod Clients
use proxy_forge.Prelude.{
  ℕ, zero, suc, ◌+◌, Bool, true, false, not, ◌&&◌, Option, none, some, List, [], ◌∷◌, ◌++◌, map,
  leb, ◌==◌, if◌then◌else◌, select, Bytes, codes, str_eq, is_empty,
}
use proxy_forge.Prelude.Assoc.{bytes_key, insert}
use proxy_forge.Models.{is_active_account, Account, ProxySlot, AccountTest}

pub record Store : Type 0 where
  pub slots : List ProxySlot
  pub accounts : List Account
  pub ip_pool : List (Bytes × Option ℕ)
  -- The newest test first.
  pub tests : List AccountTest
  pub writes : ℕ

-- GetAccount, and the map by ID that the scheduler makes of ListAccounts: the ID is the key.
unfoldable pub account_by_id : ℕ → List Account → Option Account
account_by_id n [] = none
account_by_id n (a ∷ accounts) =
    let rest = account_by_id n accounts in if a.id == n then some a else rest

-- The account that a slot is bound to, if there is one.
unfoldable pub account_of : List Account → ProxySlot → Option Account
account_of accounts s = elim (s.account_id) [ some n ↦ account_by_id n accounts | none ↦ none ]

unfoldable pub list_active_accounts : Store → List Account
list_active_accounts db = select is_active_account db.accounts

-- UPDATE … WHERE id = ?
unfoldable pub update_slots : ℕ → (ProxySlot → ProxySlot) → List ProxySlot → List ProxySlot
update_slots n f [] = []
update_slots n f (s ∷ slots) =
    let rest = update_slots n f slots in if s.id == n then f s ∷ rest else s ∷ rest

unfoldable pub update_accounts :
    (Account → Bool) → (Account → Account) → List Account → List Account
update_accounts p f [] = []
update_accounts p f (a ∷ accounts) =
    let rest = update_accounts p f accounts in if p a then f a ∷ rest else a ∷ rest

-- COALESCE((SELECT last_public_ip FROM warp_accounts WHERE id = ?), '')
unfoldable pub public_ip_of : ℕ → List Account → Bytes
public_ip_of n accounts = elim (account_by_id n accounts) [ some a ↦ a.last_public_ip | none ↦ [] ]

-- The CASE of MarkProxySlotError: an empty message resets a counter.
unfoldable pub reset_if_empty : Bytes → ℕ → ℕ
reset_if_empty msg n = if is_empty msg then 0 else n

unfoldable pub bind_row : ℕ → Bytes → ProxySlot → ProxySlot
bind_row n ip s = record s {
  account_id = some n;
  pinned_public_ip = ip;
  last_error = [];
  probe_failures = 0;
  ip_drift_failures = 0;
}

unfoldable pub unbind_row : Bytes → ProxySlot → ProxySlot
unbind_row msg s = record s {
  account_id = none;
  last_error = msg;
  probe_failures = 0;
  pinned_public_ip = [];
  ip_drift_failures = 0;
}

unfoldable pub error_row : Bytes → ProxySlot → ProxySlot
unfolding reset_if_empty
error_row msg s = record s {
  last_error = msg;
  probe_failures = reset_if_empty msg s.probe_failures;
  ip_drift_failures = reset_if_empty msg s.ip_drift_failures;
}

unfoldable pub leave_account : ℕ → ProxySlot → ProxySlot
unfolding unbind_row
leave_account n s = elim (s.account_id) [
  | some k ↦ if k == n then unbind_row (codes "bound account deleted") s else s
  | none ↦ s
]

unfoldable pub leave_pool : ℕ → Bytes × Option ℕ → Bytes × Option ℕ
leave_pool n (ip, some k) = if k == n then (ip, none) else (ip, some k)
leave_pool n (ip, none) = (ip, none)

-- The leading tests of an account that failed, among the `limit` newest ones.
unfoldable pub leading_errors : ℕ → List AccountTest → ℕ
leading_errors zero tests = 0
leading_errors (suc limit) [] = 0
leading_errors (suc limit) (t ∷ tests) =
    let rest = leading_errors limit tests in if is_empty t.error then 0 else suc rest

unfoldable pub recent_consecutive_errors : ℕ → ℕ → Store → ℕ
unfolding leading_errors
recent_consecutive_errors n limit db =
    leading_errors limit (select (λ t. t.account_id == n) db.tests)

module _ (fails : ℕ → Bool) where
  unfoldable pub exec : (Store → Store) → Store → Bool × Store
  exec f db =
      let next : Store = record db { writes = suc db.writes } in
      if fails db.writes then (false, next) else (true, f next)

  unfoldable pub assign_proxy_slot_account : ℕ → ℕ → Store → Bool × Store
  unfolding exec update_slots bind_row public_ip_of
  assign_proxy_slot_account slot n = exec (λ db. record db {
    slots = update_slots slot (bind_row n (public_ip_of n db.accounts)) db.slots;
  })

  unfoldable pub unassign_proxy_slot : ℕ → Bytes → Store → Bool × Store
  unfolding exec update_slots unbind_row
  unassign_proxy_slot slot msg =
      exec (λ db. record db { slots = update_slots slot (unbind_row msg) db.slots })

  unfoldable pub mark_proxy_slot_error : ℕ → Bytes → Store → Bool × Store
  unfolding exec update_slots error_row
  mark_proxy_slot_error slot msg =
      exec (λ db. record db { slots = update_slots slot (error_row msg) db.slots })

  unfoldable pub mark_proxy_slot_probe_failure : ℕ → Bytes → Store → Bool × Store
  unfolding exec update_slots
  mark_proxy_slot_probe_failure slot msg = exec (λ db. record db {
    slots =
        update_slots slot
          (λ s. record s { probe_failures = s.probe_failures + 1; last_error = msg }) db.slots;
  })

  unfoldable pub mark_proxy_slot_ip_drift : ℕ → Bytes → Store → Bool × Store
  unfolding exec update_slots
  mark_proxy_slot_ip_drift slot msg = exec (λ db. record db {
    slots =
        update_slots slot
          (λ s. record s { ip_drift_failures = s.ip_drift_failures + 1; last_error = msg })
          db.slots;
  })

  unfoldable pub set_proxy_slot_pinned_ip : ℕ → Bytes → Store → Bool × Store
  unfolding exec update_slots
  set_proxy_slot_pinned_ip slot ip = exec (λ db. record db {
    slots =
        update_slots slot (λ s. record s { pinned_public_ip = ip; ip_drift_failures = 0 }) db.slots;
  })

  unfoldable pub delete_account : ℕ → Store → Bool × Store
  unfolding exec leave_account leave_pool
  delete_account n = exec (λ db. record db {
    slots = map (leave_account n) db.slots;
    ip_pool = map (leave_pool n) db.ip_pool;
    tests = select (λ t. not (t.account_id == n)) db.tests;
    accounts = select (λ a. not (a.id == n)) db.accounts;
  })

  -- The error of the second statement is ignored.
  unfoldable pub set_ip_keeper : Bytes → ℕ → Store → Bool × Store
  unfolding exec update_accounts
  set_ip_keeper ip n db =
      let first = exec (λ d. record d { ip_pool = insert ip (some n) d.ip_pool }) db in
      let second =
        exec
          (λ d. record d {
            accounts =
                update_accounts (λ a. str_eq a.last_public_ip ip)
                  (λ a. record a { is_ip_keeper = a.id == n }) d.accounts;
          })
          first.1 in
      (first.0, second.1)

  unfoldable pub clear_ip_keeper_except : Bytes → ℕ → Store → Bool × Store
  unfolding exec update_accounts
  clear_ip_keeper_except ip n = exec (λ db. record db {
    accounts =
        update_accounts (λ a. str_eq a.last_public_ip ip && not (a.id == n))
          (λ a. record a { is_ip_keeper = false }) db.accounts;
  })

  -- `zero` is the word of the float 0.
  unfoldable pub update_account_realtime_probe :
      (zero_loss : ℕ) → ℕ → Bytes → Bytes → Bytes → ℕ → ℕ → Store → Bool × Store
  unfolding exec update_accounts
  update_account_realtime_probe zero_loss n ip colo country latency_ms now = exec (λ db. record db {
    accounts =
        update_accounts (λ a. a.id == n)
          (λ a. record a {
            last_public_ip = ip;
            last_colo = colo;
            last_country = country;
            last_latency_ms = latency_ms;
            last_packet_loss = zero_loss;
            last_tested_at = some now;
          })
          db.accounts;
  })

  -- A third failure in a row puts the account into the state error.
  unfoldable pub update_account_test_error : ℕ → Bytes → ℕ → Store → Bool × Store
  unfolding exec update_accounts recent_consecutive_errors
  update_account_test_error n msg now db =
      let tested =
        exec
          (λ d. record d {
            accounts =
                update_accounts (λ a. a.id == n) (λ a. record a { last_tested_at = some now })
                  d.accounts;
          })
          db in
      let noted =
        exec
          (λ d. record d {
            tests = record { account_id = n; tested_at = now; error = msg } ∷ d.tests;
          })
          tested.1 in
      let stopped =
        exec
          (λ d. record d {
            accounts =
                update_accounts (λ a. a.id == n)
                  (λ a. record a {
                    status = codes "error";
                    disabled_reason = codes "3 consecutive test failures: " ++ msg;
                  })
                  d.accounts;
          })
          noted.1 in
      if not tested.0
      then tested
      else if not noted.0
      then noted
      else if leb 3 (recent_consecutive_errors n 3 noted.1)
      then stopped
      else noted

-- ===== src/Runs/Slots.antt =====
-- Runs of the scheduler on a database of three accounts and three slots.
use proxy_forge.Prelude.{
  ℕ, ◌≤◌, ◌≡◌, refl, ◌↔◌, Bool, true, false, not, ◌&&◌, Option, none, some, List, [], ◌∷◌, arith,
  length, Bytes, codes, str_eq, str_lt, trim_space, to_upper, is_empty,
}
use proxy_forge.Prelude.Assoc.{number_key}
use proxy_forge.Models.{active, is_active, is_active_account, Account, ProxySlot}
use proxy_forge.Database.{account_by_id, account_of, exec, assign_proxy_slot_account, Store}
use proxy_forge.Scheduler.Pool.{
  healthy_account_count, healthy_ips, healthy_unique_ip_count, required_account_registrations,
}
use proxy_forge.Scheduler.Pool.Shortage.{AreIps, usable_of, required_account_registrations-least}
use proxy_forge.Scheduler.Binding.{
  next_slot_candidate, take_account, or_fail, count_change, rebind_start, rebind_candidates,
  keep_binding, bind_candidate, rebind_slot, rebind_loop, rebind_proxy_slots,
}
use proxy_forge.Scheduler.Binding.Choice.{IsChoice, next_slot_candidate_lem}
use proxy_forge.Scheduler.Binding.Unique.{Apart}
use proxy_forge.Scheduler.Binding.Rebound.{rebind_proxy_slots-Apart}
use proxy_forge.Scheduler.Cleanup.{
  bound_ids_of, prune_stored_bad_accounts, prune_test_results, apply_dedup, TestResult,
}
use proxy_forge.Scheduler.Cleanup.Spares.{Spares}
use proxy_forge.Scheduler.Cleanup.Safe.{cleanup-Spares}
use proxy_forge.Scheduler.Probe.{accept_slot_public_ip}
use proxy_forge.Scheduler.Probe.Pinned.{accept_slot_public_ip_pinned}
use proxy_forge.Runs.Choosing.{numbers}
use proxy_forge.Database.Rows.{slot_by_id, Row, SameBinding}
use proxy_forge.Proxy.Manager.Score.{one_of}
use proxy_forge.Scheduler.Quality.{account_usable}

-- An account that was tested with good results.
abbrev account : ℕ → Bytes → Bytes → Account
account n tag ip = record {
  id = n;
  tag = tag;
  directory = [];
  status = active;
  private_key = [];
  client_id = [];
  access_token = [];
  device_id = [];
  license_key = [];
  peer_public_key = [];
  local_address_v4 = [];
  local_address_v6 = [];
  endpoint_host = [];
  endpoint_port = 0;
  mtu = 1280;
  listen_port = 0;
  masque_private_key = [];
  masque_endpoint_pub_key = [];
  masque_endpoint_v4 = [];
  masque_endpoint_v6 = [];
  last_public_ip = ip;
  last_colo = [];
  last_country = [];
  last_latency_ms = 50;
  last_speed_bps = 1000000;
  last_packet_loss = 0;
  last_score = 10;
  last_tested_at = some 7;
  traffic_up = 0;
  traffic_down = 0;
  is_ip_keeper = false;
  created_at = 1;
  disabled_reason = [];
}

abbrev slot : ℕ → Bytes → Option ℕ → ProxySlot
slot n ip bound = record {
  id = n;
  username = [];
  password = [];
  account_id = bound;
  pinned_public_ip = ip;
  status = active;
  last_error = [];
  probe_failures = 0;
  ip_drift_failures = 0;
}

abbrev pub first : Account
first = account 1 (codes "a") (codes "10.1")

abbrev pub second_account : Account
second_account = account 2 (codes "b") (codes "10.2")

abbrev copy : Account
copy = account 3 (codes "c") (codes "10.1")

-- Two slots are bound to one account.
abbrev pub db : Store
db = record {
  slots = slot 1 (codes "10.1") (some 1) ∷ slot 2 [] (some 1) ∷ [];
  accounts = first ∷ second_account ∷ copy ∷ [];
  ip_pool = [];
  tests = [];
  writes = 0;
}

abbrev reliable : ℕ → Bool
reliable n = false

abbrev tags : List Bytes
tags = codes "a" ∷ codes "b" ∷ codes "c" ∷ []

abbrev rebound : ProxySlot
rebound = slot 2 (codes "10.2") (some 2)

rebind_proxy_slots-Apart_example :
    Apart (slot 1 (codes "10.1") (some 1)) first rebound second_account
unfolding rebind_proxy_slots rebind_loop rebind_start rebind_candidates rebind_slot bind_candidate
    assign_proxy_slot_account slot_by_id account_by_id account_of is_active str_eq keep_binding exec
    take_account count_change or_fail is_active_account is_empty to_upper trim_space str_lt
rebind_proxy_slots-Apart_example =
    rebind_proxy_slots-Apart numbers 9 tags db reliable (refl, (refl, tt))
      (refl, (refl, (refl, tt))) refl 1 2 (slot 1 (codes "10.1") (some 1)) rebound first
      second_account (omega arith) refl refl (record { in_use = refl; account = refl })
      (record { in_use = refl; account = refl })

next_slot_candidate_lem_example :
    IsChoice rebound
      (first ∷ second_account ∷ [])
      (record { accounts = []; ips = [] })
      (next_slot_candidate rebound
        (first ∷ second_account ∷ [])
        (record { accounts = []; ips = [] }))
next_slot_candidate_lem_example =
    next_slot_candidate_lem rebound (first ∷ second_account ∷ [])
      (record { accounts = []; ips = [] })

-- Two accounts with one IP, for three slots: two of the different IPs are missing.
counts_ips : required_account_registrations numbers 3 2 (first ∷ copy ∷ []) ≡ 2
unfolding required_account_registrations healthy_unique_ip_count healthy_account_count
    account_usable is_active_account str_eq is_empty trim_space one_of healthy_ips
counts_ips = refl

required_account_registrations-least_example :
    (ips : List Bytes) × AreIps ips (usable_of numbers (second_account ∷ first ∷ copy ∷ []))
    × ((required_account_registrations numbers 3 5 (first ∷ copy ∷ []) ≤ 1) ↔ (
        (5 ≤ length (usable_of numbers (second_account ∷ first ∷ copy ∷ []))) × (3 ≤ length ips)))
unfolding account_usable is_active_account str_eq is_empty trim_space
required_account_registrations-least_example =
    required_account_registrations-least numbers 3 5 (second_account ∷ []) (first ∷ copy ∷ [])
      (refl, refl, refl, tt)

abbrev measured : TestResult
measured = record {
  err = none;
  public_ip = codes "10.1";
  latency_ms = 900;
  speed_bps = 5;
  packet_loss = 0;
}

abbrev results : List (ℕ × TestResult)
results = (1, measured) ∷ (3, measured) ∷ []

cleanup-Spares_example :
    Spares (bound_ids_of db.slots) db (prune_stored_bad_accounts reliable numbers 9 true db).db
    × Spares
        (bound_ids_of db.slots)
        db
        (prune_test_results reliable numbers true (first ∷ copy ∷ []) results db).db
    × Spares
        (bound_ids_of db.slots)
        db
        (apply_dedup reliable numbers 9 true (first ∷ copy ∷ []) results db).db
cleanup-Spares_example = cleanup-Spares reliable numbers 9 (first ∷ copy ∷ []) results db

-- The probe of a slot finds another IP than the pinned one.
accept_slot_public_ip_pinned_example :
    let answer =
      accept_slot_public_ip reliable (slot 1 (codes "10.1") (some 1)) (codes "10.9") db in
    ((y : ProxySlot) × SameBinding (slot 1 (codes "10.1") (some 1)) y × Row 1 y db answer.1)
    × (answer.0.accepted ≡ str_eq (codes "10.1") (codes "10.9"))
    × (answer.0.restart_tunnel ≡ (
        not (is_empty (trim_space (codes "10.9"))) && not (str_eq (codes "10.1") (codes "10.9"))))
unfolding slot_by_id is_empty trim_space
accept_slot_public_ip_pinned_example =
    accept_slot_public_ip_pinned reliable (slot 1 (codes "10.1") (some 1)) (codes "10.9") db refl
      refl

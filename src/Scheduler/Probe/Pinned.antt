-- ===== src/Scheduler/Probe/Pinned.antt =====
-- A probe never moves a pinned IP.
use proxy_forge.Prelude.{
  ℕ, ◌+◌, ◌≡◌, refl, ap, Bool, true, false, not, ◌&&◌, some, if◌then◌else◌, Bytes, codes, str_eq,
  str_eq_iff, trim_space, is_empty,
}
use proxy_forge.Models.{ProxySlot}
use proxy_forge.Database.{
  mark_proxy_slot_probe_failure, mark_proxy_slot_ip_drift, set_proxy_slot_pinned_ip, Store,
}
use proxy_forge.Database.Rows.{
  slot_by_id, mark_proxy_slot_probe_failure-Row, mark_proxy_slot_ip_drift-Row, Row, SameBinding,
}
use proxy_forge.Scheduler.Probe.{
  format_slot_probe_failure, format_slot_ip_drift, accept_slot_public_ip, Verdict,
}

-- What acceptSlotPublicIP does with a slot that has a pinned IP, whichever statements fail: the slot
-- keeps its account and its pin and no other slot is touched; an IP is accepted exactly if it is the
-- pinned one, and a restart of the tunnel is asked for exactly if the probe found another IP.
pub accept_slot_public_ip_pinned :
    (fails : ℕ → Bool) (slot : ProxySlot) (public_ip : Bytes) (db : Store)
    → slot_by_id slot.id db.slots ≡ some slot
    → is_empty (trim_space slot.pinned_public_ip) ≡ false
    → let answer = accept_slot_public_ip fails slot public_ip db in
      ((y : ProxySlot) × SameBinding slot y × Row slot.id y db answer.1)
      × (answer.0.accepted ≡ str_eq slot.pinned_public_ip public_ip)
      × (answer.0.restart_tunnel
          ≡ (not (is_empty (trim_space public_ip)) && not (str_eq slot.pinned_public_ip public_ip)))
unfolding accept_slot_public_ip
accept_slot_public_ip_pinned fails slot public_ip db here pinned =
    go (is_empty (trim_space public_ip)) refl (is_empty (trim_space slot.pinned_public_ip)) pinned
      (str_eq slot.pinned_public_ip public_ip) refl
  where
    unchanged : (y : ProxySlot) × SameBinding slot y × Row slot.id y db db
    unchanged = (
      slot,
      record { same_status = refl; same_account = refl; same_pin = refl },
      record { row = here; others = λ j o. refl; accounts_kept = refl },
    )

    go :
        (b : Bool)
        → is_empty (trim_space public_ip) ≡ b
        → (c : Bool) → c ≡ false
        → (d : Bool) → str_eq slot.pinned_public_ip public_ip ≡ d
        → let answer : Verdict × Store =
            if b
            then (
              record { accepted = false; restart_tunnel = false },
              (mark_proxy_slot_probe_failure fails slot.id
                  (format_slot_probe_failure
                    (slot.probe_failures + 1)
                    (codes "trace response missing public IP"))
                  db).1,
            )
            else if c
            then (
              record { accepted = true; restart_tunnel = false },
              (set_proxy_slot_pinned_ip fails slot.id public_ip db).1,
            )
            else if d
            then (record { accepted = true; restart_tunnel = false }, db)
            else (
              record { accepted = false; restart_tunnel = true },
              (mark_proxy_slot_ip_drift fails slot.id
                  (format_slot_ip_drift
                    (slot.ip_drift_failures + 1)
                    slot.pinned_public_ip
                    public_ip)
                  db).1,
            ) in
          ((y : ProxySlot) × SameBinding slot y × Row slot.id y db answer.1)
          × (answer.0.accepted ≡ d)
          × (answer.0.restart_tunnel ≡ (not b && not d))
    go true e c p true f = cc (
      e,
      pinned,
      ap (λ (ip : Bytes). is_empty (trim_space ip))
          ((str_eq_iff slot.pinned_public_ip public_ip).0 f),
    )
    go true e c p false f = (
      mark_proxy_slot_probe_failure-Row fails slot.id
          (format_slot_probe_failure (slot.probe_failures + 1)
            (codes "trace response missing public IP"))
          db slot here,
      refl,
      refl,
    )
    go false e true p d f = cc p
    go false e false p true f = (unchanged, refl, refl)
    go false e false p false f = (
      mark_proxy_slot_ip_drift-Row fails slot.id
          (format_slot_ip_drift (slot.ip_drift_failures + 1) slot.pinned_public_ip public_ip) db
          slot here,
      refl,
      refl,
    )

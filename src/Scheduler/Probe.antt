-- ===== src/Scheduler/Probe.antt =====
-- The probe of bound slots: acceptSlotPublicIP, the round of probeProxySlots for one slot, and the
-- messages of both. Which tunnels run, what the tester measures and which tunnels StopTunnel finds
-- are given.
pub mod Pinned
use proxy_forge.Prelude.{
  ℕ, suc, ◌+◌, Bool, true, false, not, ◌||◌, Option, none, some, List, [], ◌∷◌, ◌++◌, ltb, ◌==◌,
  if◌then◌else◌, Bytes, codes, utf8, str_eq, trim_space, is_empty,
}
use proxy_forge.Prelude.Decimal.{itoa}
use proxy_forge.Models.{is_active, is_active_account, Account, ProxySlot}
use proxy_forge.Database.{
  account_of, mark_proxy_slot_error, mark_proxy_slot_probe_failure, mark_proxy_slot_ip_drift,
  set_proxy_slot_pinned_ip, update_account_realtime_probe, Store,
}
use proxy_forge.Proxy.Manager.Score.{one_of}
use proxy_forge.Scheduler.Binding.{slot_probe_rebind_after, slot_ip_drift_rebind_after}

unfoldable pub at_least_one : ℕ → ℕ
at_least_one n = if n == 0 then 1 else n

unfoldable pub format_slot_probe_failure : ℕ → Bytes → Bytes
unfolding at_least_one
format_slot_probe_failure failures reason =
    utf8 "实时探测失败: "
    ++ itoa (at_least_one failures)
    ++ codes "/"
    ++ itoa slot_probe_rebind_after
    ++ codes ": "
    ++ reason

unfoldable pub format_slot_ip_drift : ℕ → Bytes → Bytes → Bytes
unfolding at_least_one
format_slot_ip_drift failures expected actual =
    utf8 "出口 IP 漂移: "
    ++ itoa (at_least_one failures)
    ++ codes "/"
    ++ itoa slot_ip_drift_rebind_after
    ++ utf8 ": 稳定 IP "
    ++ expected
    ++ utf8 "，当前检测到 "
    ++ actual
    ++ utf8 "；暂不接受新 IP"

-- What ProbeProxy finds out through the tunnel of an account.
pub record ProbeResult : Type 0 where
  pub err : Option Bytes
  pub public_ip : Bytes
  pub colo : Bytes
  pub country : Bytes
  pub latency_ms : ℕ

-- acceptSlotPublicIP's two answers.
pub record Verdict : Type 0 where
  pub accepted : Bool
  pub restart_tunnel : Bool

module _ (fails : ℕ → Bool) where
  unfoldable pub accept_slot_public_ip : ProxySlot → Bytes → Store → Verdict × Store
  unfolding mark_proxy_slot_probe_failure set_proxy_slot_pinned_ip mark_proxy_slot_ip_drift
      format_slot_probe_failure format_slot_ip_drift
  accept_slot_public_ip slot public_ip db =
      if is_empty (trim_space public_ip)
      then (
        record { accepted = false; restart_tunnel = false },
        (mark_proxy_slot_probe_failure fails slot.id
            (format_slot_probe_failure (slot.probe_failures + 1)
              (codes "trace response missing public IP"))
            db).1,
      )
      else if is_empty (trim_space slot.pinned_public_ip)
      then (
        record { accepted = true; restart_tunnel = false },
        (set_proxy_slot_pinned_ip fails slot.id public_ip db).1,
      )
      else if str_eq slot.pinned_public_ip public_ip
      then (record { accepted = true; restart_tunnel = false }, db)
      else (
        record { accepted = false; restart_tunnel = true },
        (mark_proxy_slot_ip_drift fails slot.id
            (format_slot_ip_drift (slot.ip_drift_failures + 1) slot.pinned_public_ip public_ip)
            db).1,
      )

-- The local variables of probeProxySlots; `restarted` are the tags given to StopTunnel.
pub record Probe : Type 0 where
  pub db : Store
  pub checked : ℕ
  pub failures : ℕ
  pub restarted : List Bytes

unfoldable pub fail_probe : Store → Probe → Probe
fail_probe db st = record st { db = db; failures = suc st.failures }

module _ (fails : ℕ → Bool) where
  -- The end of a round whose IP was accepted; `zero_loss` is the word of the float 0.
  unfoldable pub note_probe : ℕ → ℕ → ProxySlot → Account → ProbeResult → Store → Store
  unfolding update_account_realtime_probe mark_proxy_slot_error
  note_probe zero_loss now slot a result db =
      let updated =
        (update_account_realtime_probe fails zero_loss a.id result.public_ip result.colo
          result.country result.latency_ms now db).1 in
      if not (is_empty slot.last_error) || ltb 0 slot.probe_failures || ltb 0 slot.ip_drift_failures
      then (mark_proxy_slot_error fails slot.id [] updated).1
      else updated

  unfoldable pub probe_account :
      ℕ → ℕ → List Bytes → (Bytes → ProbeResult) → ProxySlot → Account → Probe → Probe
  unfolding fail_probe note_probe accept_slot_public_ip mark_proxy_slot_probe_failure
      format_slot_probe_failure
  probe_account zero_loss now running ask slot a st =
      let counted : Probe = record st { checked = suc st.checked } in
      let result = ask a.tag in
      let fail : Bytes → Probe = λ reason.
        fail_probe
          (mark_proxy_slot_probe_failure fails slot.id
            (format_slot_probe_failure (slot.probe_failures + 1) reason) st.db).1
          counted in
      let answer = accept_slot_public_ip fails slot result.public_ip st.db in
      let stopped : Probe =
        if answer.0.restart_tunnel
        then record counted { restarted = a.tag ∷ st.restarted }
        else counted in
      let seen : Probe =
        if not answer.0.accepted
        then fail_probe answer.1 stopped
        else record stopped { db = note_probe zero_loss now slot a result answer.1 } in
      if not (one_of a.tag running)
      then fail (utf8 "WARP 隧道未运行")
      else elim (result.err) [ some e ↦ fail e | none ↦ seen ]

  unfoldable pub probe_slot :
      ℕ → ℕ → List Bytes → (Bytes → ProbeResult) → List Account → ProxySlot → Probe → Probe
  unfolding probe_account account_of
  probe_slot zero_loss now running ask accounts slot st = elim (account_of accounts slot) [
    | none ↦ st
    | some a ↦
        if not (is_active slot) || is_empty a.tag || not (is_active_account a)
        then st
        else probe_account zero_loss now running ask slot a st
  ]

  -- The loop over the slots as they were listed.
  unfoldable pub probe_slots :
      ℕ → ℕ → List Bytes → (Bytes → ProbeResult) → List Account → List ProxySlot → Probe → Probe
  unfolding probe_slot
  probe_slots zero_loss now running ask accounts [] st = st
  probe_slots zero_loss now running ask accounts (slot ∷ slots) st =
      probe_slots zero_loss now running ask accounts slots
        (probe_slot zero_loss now running ask accounts slot st)

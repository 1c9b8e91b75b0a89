-- ===== src/Scheduler/Quality.antt =====
-- The measure of an account: badQuality, accountUsable, accountQualityScore, accountColoPenalty and
-- the ranking that they make.
use proxy_forge.Prelude.{
  ℕ, ◌-◌, ◌*◌, Bool, true, false, not, ◌&&◌, Option, none, some, List, [], ◌∷◌, ltb, ◌==◌,
  if◌then◌else◌, select, Bytes, codes, str_eq, str_lt, trim_space, to_upper, is_empty,
}
use proxy_forge.Models.{is_active_account, Account}
use proxy_forge.Proxy.Manager.State.{Float64}
use proxy_forge.Proxy.Manager.Score.{hour, one_of}
use proxy_forge.Proxy.Manager.Rank.{sort_by}

abbrev pub min_healthy_speed_bps : ℕ
min_healthy_speed_bps = 120 * 1024

abbrev pub max_healthy_latency_ms : ℕ
max_healthy_latency_ms = 700

-- The branch that decided; the code prints it with the measured number.
pub data Fault : Type 0 where
  packet_loss_high : ℕ → Fault
  latency_unmeasured : Fault
  latency_high : ℕ → Fault
  speed_unmeasured : Fault
  speed_low : ℕ → Fault

-- As an integer; the code has the same numbers as float64 constants.
unfoldable pub account_colo_penalty : Bytes → ℕ
unfolding one_of
account_colo_penalty colo =
    let c = to_upper (trim_space colo) in
    if one_of c (codes "HKG" ∷ codes "TPE" ∷ codes "NRT" ∷ codes "KIX" ∷ codes "ICN" ∷ [])
    then 0
    else if str_eq c (codes "SIN")
    then 120
    else if one_of c (codes "SJC" ∷ codes "SEA" ∷ [])
    then 450
    else if str_eq c (codes "LAX")
    then 900
    else if one_of c (
        codes "DFW"
        ∷ codes "ORD"
        ∷ codes "IAD"
        ∷ codes "EWR"
        ∷ codes "ATL"
        ∷ codes "MIA"
        ∷ codes "DEN"
        ∷ codes "PHX"
        ∷ codes "PDX"
        ∷ [])
    then 1200
    else if is_empty c
    then 300
    else 600

-- Without a set of running tags every account counts.
abbrev pub runs_in : Option (List Bytes) → Bytes → Bool
runs_in none tag = true
runs_in (some running) tag = one_of tag running

abbrev pub is_none : Option Fault → Bool
is_none none = true
is_none (some f) = false

module _ (fl : Float64) where
  open fl use {fadd, fsub, fmul, fdiv, flt, fle, feq, of_nat, literal}

  unfoldable pub bad_quality : ℕ → ℕ → ℕ → Option Fault
  bad_quality latency_ms speed_bps packet_loss =
      if fle (literal 50 2) packet_loss
      then some (packet_loss_high packet_loss)
      else if latency_ms == 0
      then some latency_unmeasured
      else if ltb max_healthy_latency_ms latency_ms
      then some (latency_high latency_ms)
      else if speed_bps == 0
      then some speed_unmeasured
      else if ltb speed_bps min_healthy_speed_bps
      then some (speed_low speed_bps)
      else none

  unfoldable pub bad_stored_quality : Account → Option Fault
  unfolding bad_quality
  bad_stored_quality a =
      if is_empty a.last_public_ip
      then none
      else bad_quality a.last_latency_ms a.last_speed_bps a.last_packet_loss

  unfoldable pub tested_usable : Account → Option ℕ → Bool
  unfolding bad_stored_quality
  tested_usable a none = false
  tested_usable a (some tested) =
      if is_empty a.last_public_ip
      then false
      else if fle (literal 80 2) a.last_packet_loss
      then false
      else is_none (bad_stored_quality a)

  unfoldable pub account_usable : Account → Bool
  unfolding tested_usable
  account_usable a = if not (is_active_account a) then false else tested_usable a a.last_tested_at

  abbrev age_penalty : ℕ → ℕ → Option ℕ → ℕ
  age_penalty score now none = fadd score (of_nat 1500)
  age_penalty score now (some tested) =
      if ltb (24 * hour) (now - tested) then fadd score (of_nat 500) else score

  unfoldable pub account_quality_score : ℕ → Account → ℕ
  unfolding account_colo_penalty
  account_quality_score now a =
      let base = if fle a.last_score (of_nat 0) then of_nat 100000 else a.last_score in
      let latency =
        if ltb 0 a.last_latency_ms
        then fadd base (fmul (of_nat a.last_latency_ms) (literal 5 2))
        else fadd base (of_nat 500) in
      let speed =
        if ltb 0 a.last_speed_bps
        then fadd latency (fdiv (of_nat 100000000) (of_nat a.last_speed_bps))
        else fadd latency (of_nat 500) in
      let loss = fadd speed (fmul a.last_packet_loss (of_nat 2000)) in
      let place = fadd loss (of_nat (account_colo_penalty a.last_colo)) in
      let kept = if a.is_ip_keeper then fsub place (of_nat 250) else place in
      age_penalty kept now a.last_tested_at

  unfoldable pub better_account : ℕ → Account → Account → Bool
  unfolding account_quality_score
  better_account now a b =
      let sa = account_quality_score now a in
      let sb = account_quality_score now b in if feq sa sb then str_lt a.tag b.tag else flt sa sb

  unfoldable pub ranked_accounts_with_running :
      ℕ → Option (List Bytes) → List Account → List Account
  unfolding account_usable better_account sort_by
  ranked_accounts_with_running now running accounts =
      sort_by (better_account now)
        (select (λ a. account_usable a && runs_in running a.tag) accounts)

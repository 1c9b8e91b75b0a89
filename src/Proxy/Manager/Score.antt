-- ===== src/Proxy/Manager/Score.antt =====
-- `coloPenalty` and `selectionScoreLocked`: the lower the score, the earlier a tunnel is tried.
use proxy_forge.Prelude.{
  ℕ, ◌-◌, ◌*◌, Bool, false, ◌&&◌, ◌||◌, Option, none, some, List, [], ◌∷◌, ltb, if◌then◌else◌,
  Bytes, codes, str_eq, trim_space, to_upper, is_empty,
}
use proxy_forge.Prelude.Assoc.{bytes_key, lookup}
use proxy_forge.Proxy.Dial.{second}
use proxy_forge.Proxy.Manager.State.{or_zero, meta_of, Float64, Tunnel, SelectionMeta, Manager}

abbrev pub minute : ℕ
minute = 60 * second

abbrev pub hour : ℕ
hour = 60 * minute

unfoldable pub one_of : Bytes → List Bytes → Bool
one_of s [] = false
one_of s (t ∷ ts) = str_eq s t || one_of s ts

-- The penalty as an integer; the code has the same numbers as float64 constants.
unfoldable pub colo_penalty : Bytes → ℕ
unfolding one_of
colo_penalty colo =
    let c = to_upper (trim_space colo) in
    if one_of c (codes "HKG" ∷ codes "TPE" ∷ codes "NRT" ∷ codes "KIX" ∷ codes "ICN" ∷ [])
    then 0
    else if str_eq c (codes "SIN")
    then 120
    else if one_of c (codes "SJC" ∷ codes "SEA" ∷ [])
    then 450
    else if str_eq c (codes "LAX")
    then 900
    else if one_of c (
        codes "DFW"
        ∷ codes "ORD"
        ∷ codes "IAD"
        ∷ codes "EWR"
        ∷ codes "ATL"
        ∷ codes "MIA"
        ∷ codes "DEN"
        ∷ codes "PHX"
        ∷ codes "PDX"
        ∷ [])
    then 1200
    else if is_empty c
    then 300
    else 600

module _ (fl : Float64) where
  open fl use {fadd, fsub, fmul, fdiv, flog10, fle, of_nat, literal}

  abbrev add_if : Bool → ℕ → ℕ → ℕ
  add_if b score x = if b then fadd score x else score

  -- time.Duration.Seconds, of an age in nanoseconds.
  abbrev seconds : ℕ → ℕ
  seconds age = fdiv (of_nat age) (of_nat second)

  -- `weight * (1 - age.Seconds()/window.Seconds())`
  abbrev fade : ℕ → ℕ → ℕ → ℕ
  fade weight age window =
      fmul (of_nat weight) (fsub (of_nat 1) (fdiv (seconds age) (seconds window)))

  -- The latest pick counts against the score for 2 minutes, and less for 15.
  abbrev picked_bonus : ℕ → ℕ → ℕ → ℕ → Option ℕ → ℕ
  picked_bonus score strong weak now none = score
  picked_bonus score strong weak now (some last) =
      let age = now - last in
      if ltb age (2 * minute)
      then fsub score (fade strong age (2 * minute))
      else if ltb age (15 * minute)
      then fsub score (fade weak age (15 * minute))
      else score

  -- What the measurements of a tunnel are worth.
  unfoldable pub quality_score : SelectionMeta → ℕ
  quality_score meta =
      let base = if fle meta.score (of_nat 0) then of_nat 3000 else meta.score in
      let latency =
        if ltb 0 meta.latency_ms
        then fadd base (fmul (of_nat meta.latency_ms) (literal 45 2))
        else fadd base (of_nat 800) in
      let speed =
        if ltb 0 meta.speed_bps
        then fadd latency (fdiv (of_nat 250000000) (of_nat meta.speed_bps))
        else fadd latency (of_nat 1200) in
      let loss = fadd speed (fmul meta.packet_loss (of_nat 5000)) in
      let place = fadd loss (of_nat (colo_penalty meta.colo)) in
      if meta.is_keeper then fsub place (of_nat 350) else place

  abbrev tested_penalty : ℕ → ℕ → Option ℕ → ℕ
  tested_penalty score now none = fadd score (of_nat 900)
  tested_penalty score now (some tested) =
      let age = now - tested in
      add_if (ltb (72 * hour) age) (add_if (ltb (24 * hour) age) score (of_nat 700)) (of_nat 1500)

  abbrev traffic_penalty : ℕ → ℕ → ℕ
  traffic_penalty score bytes =
      if ltb 0 bytes
      then fadd score (
          fmul (flog10 (fadd (fdiv (fdiv (of_nat bytes) (of_nat 1024)) (of_nat 1024)) (of_nat 1)))
            (of_nat 180))
      else score

  abbrev ip_penalty : Manager → ℕ → ℕ → Bytes → ℕ
  ip_penalty m score now ip =
      if is_empty ip
      then score
      else fadd (picked_bonus score 500 150 now (lookup ip m.last_picked_ip))
          (fmul (of_nat (or_zero (lookup ip m.ip_pick_count))) (of_nat 5))

  abbrev live_penalty : ℕ → ℕ → Tunnel → ℕ
  live_penalty score now t =
      if ltb 0 t.last_dial_latency_ms && ltb (now - t.last_dial_at) (10 * minute)
      then fadd score (fmul (of_nat t.last_dial_latency_ms) (literal 16 1))
      else score

  unfoldable pub selection_score : Manager → ℕ → Tunnel → ℕ
  unfolding quality_score
  selection_score m now t =
      let meta = meta_of m t.cfg.tag in
      let quality = quality_score meta in
      let tested = tested_penalty quality now meta.last_tested_at in
      let traffic = traffic_penalty tested meta.traffic_bytes in
      let picked = picked_bonus traffic 900 250 now (lookup t.cfg.tag m.last_picked) in
      let shared = ip_penalty m picked now meta.public_ip in
      let counted =
        fadd shared (fmul (of_nat (or_zero (lookup t.cfg.tag m.pick_count))) (of_nat 3)) in
      live_penalty counted now t

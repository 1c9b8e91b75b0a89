-- ===== src/Proxy/Activity.antt =====
-- backend/internal/proxy/activity.go: who is using the proxy now, and the log lines about it. A line
-- is given by what it says; its text is not modelled.
pub mod Throttling
pub mod Sessions
use proxy_forge.Prelude.{
  ℕ, ◌+◌, ◌-◌, ◌*◌, ◌/◌, ◌%◌, ◌^◌, Bool, true, false, not, ◌||◌, Option, none, some, List, [], ◌∷◌,
  ◌++◌, map, ltb, ◌==◌, if◌then◌else◌, length, take, select, Bytes, codes, has_prefix, trim_prefix,
  trim_space, equal_fold, is_empty,
}
use proxy_forge.Prelude.Assoc.{bytes_key, number_key, lookup, insert, erase}
use proxy_forge.Proxy.Dial.{second, DialError}
use proxy_forge.Proxy.Manager.Score.{minute}
use proxy_forge.Proxy.Manager.Resolve.{node_username_prefix, rotate_username}

pub record LiveSession : Type 0 where
  pub client_ip : Bytes
  pub username : Bytes
  pub target : Bytes
  pub egress : Bytes
  pub protocol : Bytes
  pub started : ℕ

pub record Tracker : Type 0 where
  pub seq : ℕ
  pub live : List (ℕ × LiveSession)
  pub last_auth : List (Bytes × ℕ)
  pub last_dial : List (Bytes × ℕ)

unfoldable pub new_tracker : Tracker
new_tracker = record { seq = 0; live = []; last_auth = []; last_dial = [] }

-- displayUser and displayEgress: the classes of names that have a text of their own.
pub data Shown : Type 0 where
  anonymous : Shown
  rotating : Shown
  pooled : Shown
  unknown_egress : Shown
  node : Bytes → Shown
  plain : Bytes → Shown

abbrev pub short_id : Bytes → Bytes
short_id id = if ltb 8 (length id) then take 8 id else id

unfoldable pub display_user : Bytes → Shown
display_user username =
    let u = trim_space username in
    if is_empty u
    then anonymous
    else if equal_fold u rotate_username
    then rotating
    else if equal_fold u (codes "random") || equal_fold u (codes "stable")
    then pooled
    else if has_prefix u node_username_prefix
    then node (short_id (trim_prefix u node_username_prefix))
    else plain u

unfoldable pub display_egress : Bytes → Shown
display_egress tag =
    let t = trim_space tag in
    if is_empty t
    then unknown_egress
    else if has_prefix t node_username_prefix
    then node (short_id (trim_prefix t node_username_prefix))
    else plain t

-- emptyDash
unfoldable pub empty_dash : Bytes → Bytes
empty_dash s = let t = trim_space s in if is_empty t then codes "-" else t

pub data Line : Type 0 where
  started_line : (client : Bytes) (user : Shown) (protocol target : Bytes) (egress : Shown) → Line
  ended_line :
      (client : Bytes) (user : Shown) (target : Bytes) (egress : Shown) (up down elapsed : ℕ) → Line
  auth_line : (client : Bytes) (user : Shown) (protocol reason : Bytes) → Line
  dial_line :
      (client : Bytes) (user : Shown) (protocol target : Bytes) (egress : Shown) (error : DialError)
      → Line
  summary_line : (count : ℕ) (rows : List LiveSession) (extra : ℕ) → Line

-- begin: the id of the new session, and its line.
unfoldable pub begin : LiveSession → Tracker → (ℕ × Line) × Tracker
begin s a =
    let id = (a.seq + 1) % 2 ^ 64 in
    (
      (
        id,
        started_line (empty_dash s.client_ip) (display_user s.username) (empty_dash s.protocol)
            (empty_dash s.target) (display_egress s.egress),
      ),
      record a { seq = id; live = insert id s a.live },
    )

-- time.Duration.Round to a second, and one second at least.
unfoldable pub rounded : ℕ → ℕ
rounded d = let r = (d + second / 2) / second * second in if ltb r second then second else r

-- end
unfoldable pub finish_session : ℕ → ℕ → ℕ → ℕ → Tracker → Option Line × Tracker
finish_session id up down now a = if id == 0 then (none, a) else elim (lookup id a.live) [
  | none ↦ (none, a)
  | some s ↦ (
    some (
        ended_line (empty_dash s.client_ip) (display_user s.username) (empty_dash s.target)
          (display_egress s.egress) up down (rounded (now - s.started))),
    record a { live = erase id a.live },
  )
]

-- What authFail and dialFail share: a key that has a line within the window is passed over, and a
-- map of more than 256 keys loses those that are older than a minute.
unfoldable pub recent : ℕ → Bytes × ℕ → Bool
recent now (key, t) = not (ltb minute (now - t))

unfoldable pub forget_old : ℕ → List (Bytes × ℕ) → List (Bytes × ℕ)
forget_old now seen = if ltb 256 (length seen) then select (recent now) seen else seen

abbrev pub within : ℕ → ℕ → Option ℕ → Bool
within window now none = false
within window now (some last) = ltb (now - last) window

unfoldable pub throttle : ℕ → Bytes → ℕ → List (Bytes × ℕ) → Bool × List (Bytes × ℕ)
throttle window key now seen =
    if within window now (lookup key seen)
    then (false, seen)
    else (true, forget_old now (insert key now seen))

abbrev pub auth_window : ℕ
auth_window = 5 * second

abbrev pub dial_window : ℕ
dial_window = 3 * second

abbrev pub auth_key : Bytes → Bytes → Bytes
auth_key client_ip protocol = client_ip ++ (codes "|" ++ protocol)

abbrev pub dial_key : Bytes → Bytes → Bytes → Bytes
dial_key client_ip target egress = client_ip ++ (codes "|" ++ (target ++ (codes "|" ++ egress)))

unfoldable pub auth_fail : Bytes → Bytes → Bytes → Bytes → ℕ → Tracker → Option Line × Tracker
auth_fail client_ip username protocol reason now a =
    let (says, seen) = throttle auth_window (auth_key client_ip protocol) now a.last_auth in
    (
      if says
          then some (
              auth_line (empty_dash client_ip) (display_user username) (empty_dash protocol)
                (empty_dash reason))
          else none,
      record a { last_auth = seen },
    )

unfoldable pub dial_fail :
    Bytes → Bytes → Bytes → Bytes → Bytes → Option DialError → ℕ → Tracker → Option Line × Tracker
dial_fail client_ip username target egress protocol none now a = (none, a)
dial_fail client_ip username target egress protocol (some e) now a =
    let (says, seen) = throttle dial_window (dial_key client_ip target egress) now a.last_dial in
    (
      if says
          then some (
              dial_line (empty_dash client_ip) (display_user username) (empty_dash protocol)
                (empty_dash target) (display_egress egress) e)
          else none,
      record a { last_dial = seen },
    )

-- logSummary: five of the live sessions at most, and how many more there are.
unfoldable pub log_summary : Tracker → Option Line
log_summary a = elim a.live [
  | [] ↦ none
  | s ∷ ss ↦
      let rows = take 5 (map (λ (p : ℕ × LiveSession). p.1) (s ∷ ss)) in
      some (summary_line (length (s ∷ ss)) rows (length (s ∷ ss) - length rows))
]

-- ===== src/Proxy/Dial.antt =====
-- backend/internal/proxy/dial_policy.go, and `dialViaNetworkWithPolicy` of mixed.go: which of the
-- candidate outbounds are dialled, in which order, and when the loop gives up. Times are in
-- nanoseconds; what a dial does is an argument, as it happens in the network.
pub mod Attempts
pub mod Verdicts
pub mod Traced
pub mod Failover
use Prim.Native.Nat.{min}
use proxy_forge.Prelude.{
  ℕ, ◌+◌, ◌-◌, ◌*◌, Bool, false, not, ◌&&◌, ◌||◌, Option, none, some, List, [], ◌∷◌, ltb, leb,
  if◌then◌else◌, Bytes, codes, str_eq, to_lower, contains,
}

-- What the proxy sees of an outbound: a WARP tunnel or an agent session.
pub record Egress : Type 0 where
  pub tag : Bytes
  pub kind : Bytes
  pub supports_udp : Bool

-- A Go error of a dial: whether it is a net.DNSError with IsNotFound, and its text.
pub record DialError : Type 0 where
  pub dns_not_found : Bool
  pub message : Bytes

abbrev pub max_proxy_dial_attempts : ℕ
max_proxy_dial_attempts = 3

abbrev pub second : ℕ
second = 1000000000

abbrev pub proxy_dial_attempt_ttl : ℕ
proxy_dial_attempt_ttl = 5 * second

abbrev pub proxy_dial_total_ttl : ℕ
proxy_dial_total_ttl = 12 * second

unfoldable pub permanent_markers : List Bytes
permanent_markers =
    codes "no such host"
    ∷ codes "name does not resolve"
    ∷ codes "connection refused"
    ∷ codes "address family not supported"
    ∷ codes "no suitable address"
    ∷ []

unfoldable pub contains_any : Bytes → List Bytes → Bool
contains_any message [] = false
contains_any message (marker ∷ markers) = contains message marker || contains_any message markers

-- isPermanentTargetDialError
unfoldable pub is_permanent : DialError → Bool
unfolding contains_any permanent_markers
is_permanent e = e.dns_not_found || contains_any (to_lower e.message) permanent_markers

-- How one DialContext ends, and after how long.
pub record Outcome : Type 0 where
  pub took : ℕ
  pub error : Option DialError
  pub conn : ℕ

-- A dial of an outbound at a time, for a network and a target, within a time limit.
abbrev pub Dialer : Type 0
Dialer = Egress → Bytes → Bytes → ℕ → ℕ → Outcome

-- One dial that was made, as NoteDial is told of it.
pub record Attempt : Type 0 where
  pub egress : Egress
  pub elapsed : ℕ
  pub error : Option DialError

pub data Dialed : Type 0 where
  connected : ℕ → Egress → Dialed
  no_egress : Dialed
  unsupported_network : Dialed
  failed : DialError → Dialed
  deadline_exceeded : Dialed
  no_usable_egress : Dialed

abbrev pub tcp : Bytes
tcp = codes "tcp"

abbrev pub udp : Bytes
udp = codes "udp"

-- A candidate that is not skipped: it is not nil, and it carries datagrams if they are asked for.
unfoldable pub usable : Bytes → Option Egress → Option Egress
usable network none = none
usable network (some eg) = if str_eq network udp && not eg.supports_udp then none else some eg

-- The error behind the loop: the last one, or why nothing was dialled.
unfoldable pub last_error : ℕ → ℕ → Option DialError → Dialed
last_error deadline now (some e) = failed e
last_error deadline now none = if leb deadline now then deadline_exceeded else no_usable_egress

abbrev pub noted : Attempt → Dialed × List Attempt → Dialed × List Attempt
noted a (r, more) = (r, a ∷ more)

-- What one round of the loop does with a candidate: `break` before it, `continue`, return or
-- `break` behind a dial, or go on to the next candidate after a failed one.
pub data Round : Type 0 where
  stop : Dialed → Round
  skip : Round
  finish : Attempt → Dialed → Round
  retry : Attempt → DialError → Round

abbrev pub note_dial : Egress → Outcome → Option DialError → Attempt
note_dial eg o x = record { egress = eg; elapsed = o.took; error = x }

-- What follows a dial: success, a permanent error, or another candidate.
unfoldable pub after_dial : Egress → Outcome → Option DialError → Round
after_dial eg o none = finish (note_dial eg o none) (connected o.conn eg)
after_dial eg o (some e) =
    if is_permanent e
    then finish (note_dial eg o (some e)) (failed e)
    else retry (note_dial eg o (some e)) e

-- The time for one dial: its own context is made of that of the whole loop.
abbrev pub time_limit : ℕ → ℕ → ℕ → ℕ
time_limit attempt_ttl deadline now = min attempt_ttl (deadline - now)

module _ (dial : Dialer) (network target : Bytes) (max_attempts attempt_ttl deadline : ℕ) where
  -- `attempts` counts the dials made, `last` is their last error.
  unfoldable pub round : Option Egress → ℕ → ℕ → Option DialError → Round
  unfolding after_dial
  round c attempts now last =
      if leb max_attempts attempts || leb deadline now
      then stop (last_error deadline now last)
      else elim (usable network c) [
        | none ↦ skip
        | some eg ↦
            let o = dial eg network target now (time_limit attempt_ttl deadline now) in
            after_dial eg o o.error
      ]

  unfoldable pub dial_loop : List (Option Egress) → ℕ → ℕ → Option DialError → Dialed × List Attempt
  dial_loop [] attempts now last = (last_error deadline now last, [])
  dial_loop (c ∷ rest) attempts now last = elim (round c attempts now last) [
    | stop r ↦ (r, [])
    | skip ↦ dial_loop rest attempts now last
    | finish note r ↦ (r, note ∷ [])
    | retry note e ↦ noted note (dial_loop rest (attempts + 1) (now + note.elapsed) (some e))
  ]

-- dialViaNetworkWithPolicy, started at a time.
unfoldable pub dial_via_network_with_policy :
    Dialer → List (Option Egress) → Bytes → Bytes → ℕ → ℕ → ℕ → ℕ → Dialed × List Attempt
dial_via_network_with_policy dial [] network target max_attempts attempt_ttl total_ttl now =
    (no_egress, [])
dial_via_network_with_policy dial (c ∷ cs) network target max_attempts attempt_ttl total_ttl now =
    if not (str_eq network tcp) && not (str_eq network udp)
    then (unsupported_network, [])
    else dial_loop dial network target (if ltb max_attempts 1 then 1 else max_attempts) attempt_ttl
        (now + total_ttl) (c ∷ cs) 0 now none

-- dialVia and dialUDPVia
unfoldable pub dial_via : Dialer → List (Option Egress) → Bytes → ℕ → Dialed × List Attempt
dial_via dial egresses target now =
    dial_via_network_with_policy dial egresses tcp target max_proxy_dial_attempts
      proxy_dial_attempt_ttl proxy_dial_total_ttl now

unfoldable pub dial_udp_via : Dialer → List (Option Egress) → Bytes → ℕ → Dialed × List Attempt
dial_udp_via dial egresses target now =
    dial_via_network_with_policy dial egresses udp target max_proxy_dial_attempts
      proxy_dial_attempt_ttl proxy_dial_total_ttl now

-- ===== src/Proxy/Activity/Sessions.antt =====
-- The live sessions of activity.go: what `begin` records is what `end` reports.
use native.Mathlib.Nat.{mod-eq_of_lt}
use proxy_forge.Prelude.{
  ℕ, suc, ◌+◌, ◌-◌, ◌%◌, ◌^◌, ◌≤◌, ◌<◌, ◌≡◌, refl, ◌≢◌, Bool, true, false, Option, none, some, List,
  [], ◌∷◌, arith, ◌==◌, if◌then◌else◌, length, All, Bytes,
}
use proxy_forge.Prelude.Assoc.{
  bytes_key, number_key, lookup, erase, lookup-insert, lookup-insert_self, lookup-erase,
}
use proxy_forge.Proxy.Dial.{DialError}
use proxy_forge.Proxy.Activity.{
  display_user, display_egress, empty_dash, begin, rounded, finish_session, auth_fail, dial_fail,
  LiveSession, Tracker, Line, ended_line,
}

-- Calls of other connections in between.
pub data Call : Type 0 where
  begins : LiveSession → Call
  ends : (id up down now : ℕ) → Call
  auth_fails : (client_ip username protocol reason : Bytes) (now : ℕ) → Call
  dial_fails :
      (client_ip username target egress protocol : Bytes) (error : Option DialError) (now : ℕ)
      → Call

unfoldable pub run : List Call → Tracker → Tracker
run [] a = a
run (begins s ∷ calls) a = run calls (begin s a).1
run (ends id up down now ∷ calls) a = run calls (finish_session id up down now a).1
run (auth_fails client_ip username protocol reason now ∷ calls) a =
    run calls (auth_fail client_ip username protocol reason now a).1
run (dial_fails client_ip username target egress protocol error now ∷ calls) a =
    run calls (dial_fail client_ip username target egress protocol error now a).1

-- A call that does not end the session.
abbrev pub Spares : ℕ → Call → Type 0
Spares id (ends j up down now) = j ≢ id
Spares id call = Unit {0}

-- The session is live, and its id has been given out.
record Holds (id : ℕ) (s : LiveSession) (room : ℕ) (a : Tracker) : Type 0 where
  there : lookup id a.live ≡ some s
  given : id ≤ a.seq
  no_wrap : a.seq + room < 2 ^ 64

begin-Holds :
    (id : ℕ) (s other : LiveSession) (room : ℕ) (a : Tracker)
    → Holds id s (suc room) a
    → Holds id s room (begin other a).1
unfolding begin
begin-Holds id s other room a v =
    let next : (a.seq + 1) % 2 ^ 64 ≡ a.seq + 1 = mod-eq_of_lt (ground (arith, v.no_wrap)) in
    rw next (record {
      there = ground (arith, lookup-insert (a.seq + 1) id other a.live, v.there, v.given);
      given = ground (arith, v.given);
      no_wrap = ground (arith, v.no_wrap);
    })

finish-Holds :
    (id : ℕ) (s : LiveSession) (room j up down now : ℕ) (a : Tracker)
    → j ≢ id
    → Holds id s (suc room) a
    → Holds id s room (finish_session j up down now a).1
unfolding finish_session
finish-Holds id s room j up down now a other v = by_zero (j == 0)
  where
    shrunk : Holds id s room a
    shrunk = record { there = v.there; given = v.given; no_wrap = ground (arith, v.no_wrap) }

    ended : LiveSession → Option Line × Tracker
    ended x = (
      some (
          ended_line (empty_dash x.client_ip) (display_user x.username) (empty_dash x.target)
            (display_egress x.egress) up down (rounded (now - x.started))),
      record a { live = erase j a.live },
    )

    by_entry :
        (o : Option LiveSession)
        → (let r : Option Line × Tracker = elim o [ none ↦ (none, a) | some x ↦ ended x ] in
            Holds id s room r.1)
    by_entry none = shrunk
    by_entry (some x) = record {
      there = ground (arith, lookup-erase j id a.live, v.there);
      given = v.given;
      no_wrap = shrunk.no_wrap;
    }

    by_zero :
        (t : Bool)
        → (let r : Option Line × Tracker =
              if t
              then (none, a)
              else elim (lookup j a.live) [ none ↦ (none, a) | some x ↦ ended x ] in
            Holds id s room r.1)
    by_zero true = shrunk
    by_zero false = by_entry (lookup j a.live)

run-Holds :
    (id : ℕ) (s : LiveSession) (calls : List Call) (a : Tracker)
    → All (Spares id) calls
    → Holds id s (length calls) a
    → Holds id s 0 (run calls a)
unfolding run auth_fail dial_fail
run-Holds id s [] a spared v = v
run-Holds id s (begins other ∷ calls) a (_, spared) v =
    run-Holds id s calls (begin other a).1 spared (begin-Holds id s other (length calls) a v)
run-Holds id s (ends j up down now ∷ calls) a (other, spared) v =
    run-Holds id s calls (finish_session j up down now a).1 spared
      (finish-Holds id s (length calls) j up down now a other v)
run-Holds id s (auth_fails c u p r now ∷ calls) a (_, spared) v =
    run-Holds id s calls (auth_fail c u p r now a).1 spared
      (record { there = v.there; given = v.given; no_wrap = ground (arith, v.no_wrap) })
run-Holds id s (dial_fails c u t e p none now ∷ calls) a (_, spared) v =
    run-Holds id s calls a spared
      (record { there = v.there; given = v.given; no_wrap = ground (arith, v.no_wrap) })
run-Holds id s (dial_fails c u t e p (some x) now ∷ calls) a (_, spared) v =
    run-Holds id s calls (dial_fail c u t e p (some x) now a).1 spared
      (record { there = v.there; given = v.given; no_wrap = ground (arith, v.no_wrap) })

begin-begun :
    (s : LiveSession) (a : Tracker) (room : ℕ)
    → a.seq + 1 + room < 2 ^ 64
    → Holds (a.seq + 1) s room (begin s a).1
unfolding begin
begin-begun s a room small =
    let next : (a.seq + 1) % 2 ^ 64 ≡ a.seq + 1 = mod-eq_of_lt (omega arith) in
    rw next (record {
      there = lookup-insert_self (a.seq + 1) s a.live;
      given = omega arith;
      no_wrap = small;
    })

finished :
    (id : ℕ) (s : LiveSession) (up down now : ℕ) (a : Tracker)
    → 0 < id
    → lookup id a.live ≡ some s
    → ((finish_session id up down now a).0
        ≡ some (
            ended_line
              (empty_dash s.client_ip)
              (display_user s.username)
              (empty_dash s.target)
              (display_egress s.egress)
              up
              down
              (rounded (now - s.started))))
      × (lookup id (finish_session id up down now a).1.live ≡ none)
unfolding finish_session
finished id s up down now a positive there =
    let nonzero : (id == 0) ≡ false = ground arith in
    rw (nonzero, there) (refl, ground (arith, lookup-erase id id a.live))

-- Whatever other connections do in between, the end of a session reports the data that it began
-- with, and afterwards it is no longer live. Fewer than 2 ^ 64 ids are given out.
pub finish_session-begin :
    (s : LiveSession) (a : Tracker) (calls : List Call) (up down now : ℕ)
    → a.seq + 1 + length calls < 2 ^ 64
    → All (Spares (a.seq + 1)) calls
    → ((begin s a).0.0 ≡ a.seq + 1)
      × (((finish_session (a.seq + 1) up down now (run calls (begin s a).1)).0
            ≡ some (
                ended_line
                  (empty_dash s.client_ip)
                  (display_user s.username)
                  (empty_dash s.target)
                  (display_egress s.egress)
                  up
                  down
                  (rounded (now - s.started))))
          × (lookup
                (a.seq + 1)
                (finish_session (a.seq + 1) up down now (run calls (begin s a).1)).1.live
              ≡ none))
unfolding begin finish_session
finish_session-begin s a calls up down now small spared =
    let id = a.seq + 1 in
    let next : (a.seq + 1) % 2 ^ 64 ≡ a.seq + 1 = mod-eq_of_lt (omega arith) in
    let begun : Holds id s (length calls) (begin s a).1 = begin-begun s a (length calls) small in
    let v : Holds id s 0 (run calls (begin s a).1) =
      run-Holds id s calls (begin s a).1 spared begun in
    (next, finished id s up down now (run calls (begin s a).1) (omega arith) v.there)

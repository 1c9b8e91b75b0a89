-- ===== src/Runs/Watching.antt =====
-- Runs of the activity tracker.
use proxy_forge.Database.Clients.{total_up_of, total_down_of}
use proxy_forge.Proxy.Usage.{
  queue_size, new_usage_queue, is_ignored, record_usage, writer_round, stop, ProxyUsage, UsageQueue,
}
use proxy_forge.Proxy.Usage.Reachable.{
  sum_up, sum_down, usage_conserved, records, writes, here, onward,
}
use proxy_forge.Proxy.Usage.Draining.{rounds, rounds-stopped}
use proxy_forge.Prelude.{
  ◌+◌, ◌-◌, ◌*◌, ◌≤◌, ◌≡◌, refl, true, false, none, some, List, [], ◌∷◌, ◌++◌, arith, length, Bytes,
  codes, is_empty,
}
use proxy_forge.Prelude.Assoc.{bytes_key, number_key, lookup}
use proxy_forge.Proxy.Activity.{
  new_tracker, display_user, display_egress, empty_dash, begin, rounded, finish_session, throttle,
  auth_window, LiveSession, ended_line,
}
use proxy_forge.Proxy.Activity.Throttling.{throttle_all, throttle_quiet}
use proxy_forge.Proxy.Activity.Sessions.{run, finish_session-begin, Call, begins, ends, auth_fails}
use proxy_forge.Proxy.Dial.{second}

abbrev session : LiveSession
session = record {
  client_ip = codes "10.0.0.9";
  username = codes "auto";
  target = codes "a:1";
  egress = codes "node-7";
  protocol = codes "SOCKS5";
  started = 3;
}

abbrev between : List Call
between = begins session ∷ auth_fails (codes "10.0.0.8") [] (codes "HTTP") [] 5 ∷ ends 2 1 1 6 ∷ []

finish_session-begin_example :
    ((begin session new_tracker).0.0 ≡ 1)
    × (((finish_session 1 10 20 (4 * second) (run between (begin session new_tracker).1)).0
          ≡ some (
              ended_line
                (empty_dash session.client_ip)
                (display_user session.username)
                (empty_dash session.target)
                (display_egress session.egress)
                10
                20
                (rounded (4 * second - 3))))
        × (lookup 1
              (finish_session 1 10 20
                (4 * second)
                (run between (begin session new_tracker).1)).1.live
            ≡ none))
unfolding new_tracker
finish_session-begin_example =
    finish_session-begin session new_tracker between 10 20 (4 * second) (omega arith)
      (tt, (tt, ((λ e. omega (arith, e)), tt)))

abbrev client : Bytes
client = codes "10.0.0.9|HTTP"

throttle_quiet_example :
    (throttle auth_window client 9
      (throttle_all auth_window ((codes "x", 8) ∷ []) (throttle auth_window client 7 []).1)).0
    ≡ false
unfolding throttle lookup
throttle_quiet_example =
    throttle_quiet auth_window client 7 9 ((codes "x", 8) ∷ []) [] (omega arith) refl
      (omega arith, tt) (omega arith)

abbrev report : ProxyUsage
report = record {
  client_ip = codes "10.0.0.9";
  username = codes "auto";
  account_tag = codes "a";
  up_bytes = 7;
  down_bytes = 9;
}

abbrev reported : UsageQueue
reported = record_usage report (new_usage_queue [])

usage_conserved_example :
    let last = writer_round true 5 reported in
    (last.handled ++ last.queue ≡ last.accepted)
    × (length last.queue ≤ queue_size)
    × (total_up_of (codes "10.0.0.9") last.clients
        ≡ total_up_of (codes "10.0.0.9") [] + sum_up (codes "10.0.0.9") last.written)
    × (total_down_of (codes "10.0.0.9") last.clients
        ≡ total_down_of (codes "10.0.0.9") [] + sum_down (codes "10.0.0.9") last.written)
unfolding record_usage new_usage_queue is_empty is_ignored
usage_conserved_example =
    usage_conserved [] (writer_round true 5 reported) (codes "10.0.0.9")
      (onward reported (writer_round true 5 reported)
        (onward (new_usage_queue []) reported here (records report (omega arith)))
        (writes true 5 refl))
      refl

rounds-stopped_example :
    let last = rounds 2 (λ n. true) 5 (stop reported) in
    (last.ended ≡ true)
    × (last.queue ≡ [])
    × (last.handled ≡ (stop reported).handled ++ report ∷ [])
unfolding record_usage new_usage_queue stop is_ignored is_empty
rounds-stopped_example = rounds-stopped (λ n. true) 5 (report ∷ []) (stop reported) refl refl

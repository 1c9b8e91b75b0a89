-- ===== src/Runs/Relaying.antt =====
-- A run of the UDP relay of a Trojan connection.
use proxy_forge.Prelude.{
  ◌≤◌, ◌≡◌, refl, true, ◌&&◌, some, [], ◌∷◌, ◌==◌, if◌then◌else◌, length, codes, str_eq,
}
use proxy_forge.Prelude.Assoc.{bytes_key, number_key, lookup, insert, erase}
use proxy_forge.Proxy.Trojan.Relay.{
  max_associations, new_relay, usage_of, report_usage, close_found, close_association, is_closed,
  sweep, add_association, association, count_up, write_packet, attempt_send, send, count_down,
  respond, close_all, close_relay, Association, Relay, RelayAttempt,
}
use proxy_forge.Proxy.Trojan.Relay.Closing.{reports_of}
use proxy_forge.Proxy.Trojan.Relay.Reported.{relay_reported, sends, responds, here, onward}

abbrev relay : Relay
relay = new_relay (codes "10.0.0.9") (codes "auto")

abbrev answered : RelayAttempt
answered = record { dialed = some (codes "warp-1"); wrote = some 12 }

-- A DNS packet of 12 bytes and its answer of 40.
abbrev carried : Relay
carried = respond 0 40 (send (codes "8.8.8.8:53") (codes "8.8.8.8") 53 12 answered answered relay).1

abbrev ended : Association
ended = record {
  egress = codes "warp-1";
  target = codes "8.8.8.8:53";
  host = codes "8.8.8.8";
  port = 53;
  closed = true;
  up_bytes = 12;
  dn_bytes = 40;
}

relay_reported_example :
    (length carried.active ≤ max_associations)
    × (ended.closed ≡ true)
    × (reports_of 0 (close_relay carried).reports ≡ (
        if ended.up_bytes == 0 && ended.dn_bytes == 0
        then []
        else usage_of (close_relay carried) ended ∷ []))
unfolding new_relay respond count_down send attempt_send association add_association write_packet
    count_up lookup insert sweep is_closed str_eq close_relay close_all close_association
    close_found report_usage erase
relay_reported_example =
    relay_reported (codes "10.0.0.9") (codes "auto") carried 0 ended
      (onward (send (codes "8.8.8.8:53") (codes "8.8.8.8") 53 12 answered answered relay).1 carried
        (onward relay (send (codes "8.8.8.8:53") (codes "8.8.8.8") 53 12 answered answered relay).1
          here (sends (codes "8.8.8.8:53") (codes "8.8.8.8") 53 12 answered answered))
        (responds 0 40))
      refl

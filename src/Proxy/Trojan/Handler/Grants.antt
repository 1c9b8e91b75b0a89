-- ===== src/Proxy/Trojan/Handler/Grants.antt =====
-- Whom trojan.go's handler serves.
use proxy_forge.Prelude.{
  ℕ, ◌≡◌, refl, subst, inl, inr, Bool, true, false, not, ◌||◌, Option, some, arith, ◌==◌,
  if◌then◌else◌, Bool-cases, Bytes, codes, is_empty,
}
use proxy_forge.Io.{ok}
use proxy_forge.Proxy.Net.{join_host_port}
use proxy_forge.Proxy.Dial.{
  dial_via, Dialed, connected, no_egress, unsupported_network, failed, deadline_exceeded,
  no_usable_egress,
}
use proxy_forge.Proxy.Session.{
  ◌>>=◌, ◌>>◌, return, leave, read, emit, dial_target, ProxySession, has_any, >>=-some, read_ok,
  dial_target_lem, auth_fail, Session, Server,
}
use proxy_forge.Proxy.Trojan.Auth.{read_trojan_auth}
use proxy_forge.Proxy.Trojan.Handler.{
  connect_command, udp_command, Resolver, trojan_session, trojan_request, trojan_answer,
  trojan_serve, handle_trojan, Service, relayed, udp_relayed,
}

abbrev pub username_of : Service → Bytes
username_of (relayed r) = r.username
username_of (udp_relayed username egresses pending) = username

module _ (srv : Server) (resolver : Resolver) where
  -- A session of a user that the resolver knows, with an outbound at least.
  abbrev pub IsGranted : ProxySession → Bytes → Type 0
  IsGranted p auth =
      (p ≡ resolver auth srv.client_ip) × (is_empty p.0 ≡ false) × (has_any p.1 ≡ true)

  -- A service over the outbounds of a session: a connection that the dial returned, or the UDP relay
  -- with those outbounds.
  abbrev pub IsOver : ProxySession → Service → Type 0
  IsOver p (relayed r) =
      (r.username ≡ p.0) × ((dial_via srv.dial p.1 r.target srv.now).0 ≡ connected r.conn r.egress)
  IsOver p (udp_relayed username egresses pending) = (username ≡ p.0) × (egresses ≡ p.1)

  trojan_session-IsGranted :
      (auth : Bytes) (p : ProxySession) (s s' : Session)
      → trojan_session srv resolver auth s ≡ (some p, s')
      → IsGranted p auth
  unfolding trojan_session emit ◌>>=◌
  trojan_session-IsGranted auth p s s' h =
      by_test
        (is_empty (resolver auth srv.client_ip).0 || not (has_any (resolver auth srv.client_ip).1))
        refl h
    where
      by_test :
          (t : Bool)
          → (is_empty (resolver auth srv.client_ip).0
              || not (has_any (resolver auth srv.client_ip).1))
            ≡ t
          → ((if t
                then emit (auth_fail (resolver auth srv.client_ip).0 (codes "Trojan")) >> leave
                else return (resolver auth srv.client_ip))
              s)
            ≡ (some p, s')
          → IsGranted p auth
      by_test true e q = cc q
      by_test false e q =
          let same : resolver auth srv.client_ip ≡ p = cc q in
          subst
            (λ (x : ProxySession).
              (x ≡ resolver auth srv.client_ip) × (is_empty x.0 ≡ false) × (has_any x.1 ≡ true))
            same (refl, ground arith, ground arith)

  trojan_answer-IsOver :
      (p : ProxySession) (target : Bytes) (d : Dialed) (s s' : Session) (end : Service)
      → (dial_via srv.dial p.1 target srv.now).0 ≡ d
      → trojan_answer srv resolver p target d s ≡ (some end, s')
      → IsOver p end
  unfolding trojan_answer emit ◌>>=◌
  trojan_answer-IsOver (username, egresses) target (connected conn eg) s s' (relayed r) made h =
      let same_target : r.target ≡ target = cc h in
      let same_conn : r.conn ≡ conn = cc h in
      let same_egress : r.egress ≡ eg = cc h in
      (cc h, rw (same_target, same_conn, same_egress) made)
  trojan_answer-IsOver (username, egresses) target (connected conn eg) s s' (udp_relayed u es x)
        made h =
      cc
  trojan_answer-IsOver (username, egresses) target no_egress s s' end made h = cc
  trojan_answer-IsOver (username, egresses) target unsupported_network s s' end made h = cc
  trojan_answer-IsOver (username, egresses) target (failed e) s s' end made h = cc
  trojan_answer-IsOver (username, egresses) target deadline_exceeded s s' end made h = cc
  trojan_answer-IsOver (username, egresses) target no_usable_egress s s' end made h = cc

  trojan_serve-IsOver :
      (p : ProxySession) (request : ℕ × (Bytes × ℕ)) (s s' : Session) (end : Service)
      → trojan_serve srv resolver p request s ≡ (some end, s')
      → IsOver p end
  unfolding trojan_serve
  trojan_serve-IsOver (username, egresses) (command, (host, port)) s s' end h =
      elim (Bool-cases (command == udp_command)) [
        | inl is_udp ↦ udp_over end (rw is_udp at h)
        | inr not_udp ↦ elim (Bool-cases (command == connect_command)) [
          | inl is_connect ↦ connect_over (rw (not_udp, is_connect) at h)
          | inr other ↦ cc (rw (not_udp, other) at h)
        ]
      ]
    where
      udp_over :
          (e : Service)
          → (let r : Option Service × Session = (some (udp_relayed username egresses s.input), s) in
              r ≡ (some e, s'))
          → IsOver (username, egresses) e
      udp_over (relayed r) q = cc q
      udp_over (udp_relayed u es x) q = (cc q, cc q)

      connect_over :
          (dial_target srv egresses (join_host_port host port) >>= (λ r.
                trojan_answer srv resolver (username, egresses) (join_host_port host port) r))
              s
            ≡ (some end, s')
          → IsOver (username, egresses) end
      connect_over q =
          let (d, t, e, next) =
            >>=-some (dial_target srv egresses (join_host_port host port)) _ s s' end q in
          trojan_answer-IsOver (username, egresses) (join_host_port host port) d t s' end
            (dial_target_lem srv egresses (join_host_port host port) s t d e) next

  -- A Trojan client is served only if the first 58 bytes that it sent are an authentication line whose
  -- digest the resolver maps to a user with at least one outbound; it is served in that user's name
  -- and over exactly those outbounds, by the connection that the dial over them returned, or by the
  -- UDP relay.
  pub handle_trojan-IsGranted :
      (s s' : Session) (end : Service)
      → handle_trojan srv resolver s ≡ (some end, s')
      → (auth : Bytes) × (rest : Bytes) × (p : ProxySession) × (read_trojan_auth s.input
          ≡ ok (auth, rest))
        × IsGranted p auth
        × IsOver p end
  unfolding handle_trojan
  handle_trojan-IsGranted s s' end h =
      let (auth, s1, e1, h1) = >>=-some (read read_trojan_auth) _ s s' end h in
      let (p, s2, e2, h2) = >>=-some (trojan_session srv resolver auth) _ s1 s' end h1 in
      let (request, s3, e3, h3) = >>=-some (trojan_request srv resolver) _ s2 s' end h2 in
      let (rest, got) = read_ok read_trojan_auth s s1 auth e1 in
      (
        auth,
        rest,
        p,
        got,
        trojan_session-IsGranted auth p s1 s2 e2,
        trojan_serve-IsOver p request s3 s' end h3,
      )

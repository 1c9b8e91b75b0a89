-- ===== src/Runs/Serving.antt =====
-- Runs of the dial loop and of the SOCKS5 handler.
use proxy_forge.Prelude.{
  ◌*◌, ◌≡◌, refl, inl, true, false, ◌&&◌, Option, none, some, List, [], ◌∷◌, ◌++◌, arith,
  if◌then◌else◌, Bytes, codes, str_eq, to_lower, contains,
}
use proxy_forge.Proxy.Net.{join_host_port}
use proxy_forge.Proxy.Dial.{
  second, permanent_markers, contains_any, is_permanent, tcp, usable, after_dial, round, dial_loop,
  dial_via_network_with_policy, dial_via, Egress, Attempt, Dialed, connected,
}
use proxy_forge.Proxy.Dial.Traced.{Traced}
use proxy_forge.Proxy.Dial.Failover.{Explained, failover}
use proxy_forge.Proxy.Session.{has_any, dialled, Server}
use proxy_forge.Proxy.Socks5.{bytes_contains, reply_bytes, handle_socks5}
use proxy_forge.Proxy.Socks5.Service.{
  greeting, credentials, connect_request, healthy, served, handle_socks5_serves,
}
use proxy_forge.Prelude.Decimal.{itoa}
use proxy_forge.Runs.{net, warp, agent, dialer}
use proxy_forge.Proxy.Socks5.Safety.{IsResolved, handle_socks5_authenticated}

abbrev both : List (Option Egress)
both = some warp ∷ some agent ∷ []

abbrev web : Bytes
web = codes "example.com:80"

failover_example :
    let p : Dialed × List Attempt =
      dial_via_network_with_policy dialer both tcp web 3 second (12 * second) 0 in
    Explained dialer tcp web 3 second (12 * second) both 0 0 none p
    × Traced dialer tcp web 3 second (12 * second) 0 p
failover_example =
    failover dialer (some warp) (some agent ∷ []) tcp web 3 second (12 * second) 0 (inl refl)
      (omega arith)

-- One user with one password.
abbrev srv : Server
srv = record {
  net = net;
  resolve = λ u p ip. if str_eq u (codes "auto") && str_eq p (codes "pw") then both else [];
  dial = dialer;
  client_ip = codes "10.0.0.9";
  now = 0;
}

abbrev conversation : Bytes
conversation = greeting (0 ∷ 2 ∷ []) (
    credentials (codes "auto") (codes "pw")
      (connect_request (codes "example.com") 80 (codes "GET")))

abbrev timed_out : Attempt
timed_out = record {
  egress = warp;
  elapsed = 40;
  error = some (record { dns_not_found = false; message = codes "i/o timeout" });
}

abbrev made : List Attempt
made = timed_out ∷ record { egress = agent; elapsed = 20; error = none } ∷ []

handle_socks5_serves_example : handle_socks5 srv (healthy conversation [] []) ≡ (
  some (served srv (codes "auto") web (codes "GET") 5 agent),
  healthy
      (codes "GET")
      (((([] ++ 0x05 ∷ 0x02 ∷ []) ++ 0x01 ∷ 0x00 ∷ []) ++ reply_bytes 0x00))
      ([] ++ dialled made ∷ []),
)
unfolding bytes_contains has_any str_eq dial_via dial_via_network_with_policy dial_loop round usable
    after_dial is_permanent contains_any permanent_markers contains to_lower join_host_port itoa
handle_socks5_serves_example =
    handle_socks5_serves srv (0 ∷ 2 ∷ []) (codes "auto") (codes "pw") (codes "example.com")
      (codes "GET") [] 80 [] both 5 agent made refl refl refl (omega arith) refl

handle_socks5_authenticated_example :
    (methods : Bytes) × (password : Bytes) × (rest : Bytes) × (egresses : List (Option Egress))
    × (bytes_contains methods 0x02 ≡ true)
    × (conversation ≡ greeting methods (credentials (codes "auto") password rest))
    × IsResolved srv (codes "auto") password egresses
    × ((dial_via dialer egresses web 0).0 ≡ connected 5 agent)
unfolding bytes_contains has_any str_eq dial_via dial_via_network_with_policy dial_loop round usable
    after_dial is_permanent contains_any permanent_markers contains to_lower join_host_port itoa
handle_socks5_authenticated_example =
    handle_socks5_authenticated srv (healthy conversation [] [])
      (healthy (codes "GET") (((([] ++ 0x05 ∷ 0x02 ∷ []) ++ 0x01 ∷ 0x00 ∷ []) ++ reply_bytes 0x00))
        ([] ++ dialled made ∷ []))
      (served srv (codes "auto") web (codes "GET") 5 agent)
      (handle_socks5_serves srv (0 ∷ 2 ∷ []) (codes "auto") (codes "pw") (codes "example.com")
        (codes "GET") [] 80 [] both 5 agent made refl refl refl (omega arith) refl)

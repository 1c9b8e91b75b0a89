-- ===== src/Proxy/Socks5/Service.antt =====
-- A well-formed SOCKS5 conversation is served, with the replies of RFC 1928 and RFC 1929 in order.
use proxy_forge.Prelude.{
  ℕ, ◌<◌, ◌≡◌, refl, ◌∙◌, true, Option, some, List, [], ◌∷◌, ◌++◌, length, Bytes, codes,
}
use proxy_forge.Io.{Reader, read_full, read_byte, put_uint16, read_full-append, uint16_of-put, ok}
use proxy_forge.Proxy.Session.{
  require, read, write_or_leave, write_anyway, dial_target, has_any, >>=_some, Event, dialled,
  Session, Relay, Server,
}
use proxy_forge.Proxy.Socks5.{
  bytes_contains, reply_bytes, read_field, socks5_auth, read_socks5_host, socks5_methods,
  socks5_request, socks5_answer, socks5_connect, handle_socks5,
}
use proxy_forge.Io.Writers.{write_once_lem}
use proxy_forge.Proxy.Net.{join_host_port}
use proxy_forge.Proxy.Dial.{dial_via, Egress, Attempt, connected}

-- What a client sends, in front of what follows: a field behind its length, its greeting, its
-- credentials, and a CONNECT to a host by name.
abbrev pub field : Bytes → Bytes
field x = length x ∷ x

abbrev pub greeting : Bytes → Bytes → Bytes
greeting methods rest = 0x05 ∷ (field methods ++ rest)

abbrev pub credentials : Bytes → Bytes → Bytes → Bytes
credentials username password rest = 0x01 ∷ (field username ++ (field password ++ rest))

abbrev pub connect_request : Bytes → ℕ → Bytes → Bytes
connect_request host port rest =
    0x05 ∷ 0x01 ∷ 0x00 ∷ 0x03 ∷ (field host ++ (put_uint16 port ++ rest))

-- A client whose connection takes all that is written.
abbrev pub healthy : Bytes → Bytes → List Event → Session
healthy input sent events = record {
  input = input;
  out = record { sent = sent; script = [] };
  events = events;
}

read_field-append : (x rest : Bytes) → read_field (field x ++ rest) ≡ ok (x, rest)
unfolding read_field read_byte
read_field-append x rest = read_full-append x rest

read-healthy :
    {A : Type 0} (m : Reader A) (input sent : Bytes) (events : List Event) {a : A} {rest : Bytes}
    → m input ≡ ok (a, rest)
    → read m (healthy input sent events) ≡ (some a, healthy rest sent events)
unfolding read
read-healthy m input sent events e = rw e

write_healthy :
    (p input sent : Bytes) (events : List Event)
    → write_or_leave p (healthy input sent events) ≡ (some tt, healthy input (sent ++ p) events)
unfolding write_or_leave
write_healthy p input sent events = rw (write_once_lem p sent)

write_healthy_anyway :
    (p input sent : Bytes) (events : List Event)
    → write_anyway p (healthy input sent events) ≡ (some tt, healthy input (sent ++ p) events)
unfolding write_anyway
write_healthy_anyway p input sent events = rw (write_once_lem p sent)

module _ (srv : Server) where
  dial_healthy :
      (egresses : List (Option Egress)) (target rest sent : Bytes) (events : List Event) (conn : ℕ)
      (eg : Egress) (made : List Attempt)
      → dial_via srv.dial egresses target srv.now ≡ (connected conn eg, made)
      → dial_target srv egresses target (healthy rest sent events)
        ≡ (some (connected conn eg), healthy rest sent (events ++ dialled made ∷ []))
  unfolding dial_target
  dial_healthy egresses target rest sent events conn eg made reached = rw reached

  methods_lem :
      (methods rest sent : Bytes) (events : List Event)
      → bytes_contains methods 0x02 ≡ true
      → socks5_methods srv (healthy (greeting methods rest) sent events)
        ≡ (some tt, healthy rest (sent ++ 0x05 ∷ 0x02 ∷ []) events)
  unfolding socks5_methods read_byte
  methods_lem methods rest sent events offered =
      let after : Bytes = field methods ++ rest in
      >>=_some (read read_byte) _ _ (read-healthy read_byte (0x05 ∷ after) sent events refl)
      ∙ >>=_some (require true) _ (healthy after sent events) refl
      ∙ >>=_some (read read_field) _ _
          (read-healthy read_field after sent events (read_field-append methods rest))
      ∙ rw offered (write_healthy (0x05 ∷ 0x02 ∷ []) rest sent events)

  auth_lem :
      (username password rest sent : Bytes) (events : List Event) (egresses : List (Option Egress))
      → srv.resolve username password srv.client_ip ≡ egresses
      → has_any egresses ≡ true
      → socks5_auth srv (healthy (credentials username password rest) sent events)
        ≡ (some (username, egresses), healthy rest (sent ++ 0x01 ∷ 0x00 ∷ []) events)
  unfolding socks5_auth read_byte
  auth_lem username password rest sent events egresses resolved nonempty =
      let after : Bytes = field username ++ (field password ++ rest) in
      >>=_some (read read_byte) _ _ (read-healthy read_byte (0x01 ∷ after) sent events refl)
      ∙ >>=_some (require true) _ (healthy after sent events) refl
      ∙ >>=_some (read read_field) _ _ (
          read-healthy read_field after sent events
            (read_field-append username (field password ++ rest)))
      ∙ >>=_some (read read_field) _ _ (
          read-healthy read_field (field password ++ rest) sent events
            (read_field-append password rest))
      ∙ rw (resolved, nonempty)
          (>>=_some (write_anyway (0x01 ∷ 0x00 ∷ [])) _ _
            (write_healthy_anyway (0x01 ∷ 0x00 ∷ []) rest sent events))

  request_lem :
      (host rest sent : Bytes) (port : ℕ) (events : List Event)
      → port < 65536
      → socks5_request srv (healthy (connect_request host port rest) sent events)
        ≡ (some (0x01, join_host_port host port), healthy rest sent events)
  unfolding socks5_request read_socks5_host read_full
  request_lem host rest sent port events small =
      let tail : Bytes = field host ++ (put_uint16 port ++ rest) in
      let input : Bytes = 0x05 ∷ 0x01 ∷ 0x00 ∷ 0x03 ∷ tail in
      >>=_some (read (read_full 4)) _ _ (read-healthy (read_full 4) input sent events refl)
      ∙ >>=_some (require true) _ (healthy tail sent events) refl
      ∙ >>=_some (read read_field) _ _ (
          read-healthy read_field tail sent events
            (read_field-append host (put_uint16 port ++ rest)))
      ∙ >>=_some (read (read_full 2)) _ _
          (read-healthy (read_full 2) (put_uint16 port ++ rest) sent events refl)
      ∙ rw (uint16_of-put port small)

  -- The relay of a served client.
  abbrev pub served : Bytes → Bytes → Bytes → ℕ → Egress → Relay
  served username target pending conn eg = record {
    conn = conn;
    egress = eg;
    username = username;
    target = target;
    protocol = codes "SOCKS5";
    pending = pending;
  }

  connect_lem :
      (username target rest sent : Bytes) (egresses : List (Option Egress)) (events : List Event)
      (conn : ℕ) (eg : Egress) (made : List Attempt)
      → dial_via srv.dial egresses target srv.now ≡ (connected conn eg, made)
      → socks5_connect srv (username, egresses) 0x01 target (healthy rest sent events) ≡ (
        some (served username target rest conn eg),
        healthy rest (sent ++ reply_bytes 0x00) (events ++ dialled made ∷ []),
      )
  unfolding socks5_connect socks5_answer
  connect_lem username target rest sent egresses events conn eg made reached =
      >>=_some (dial_target srv egresses target) _ _
        (dial_healthy egresses target rest sent events conn eg made reached)
      ∙ >>=_some (write_or_leave (reply_bytes 0x00)) _ _
          (write_healthy (reply_bytes 0x00) rest sent (events ++ dialled made ∷ []))

  -- A client that offers the username/password method, sends credentials that the resolver accepts,
  -- and asks for a host by name that can be dialled, is relayed to that connection. It is answered
  -- by method 2, by status 0 and by reply 0, in this order, and what it sends behind the request is
  -- left for the relay.
  pub handle_socks5_serves :
      (methods username password host rest sent : Bytes) (port : ℕ) (events : List Event)
      (egresses : List (Option Egress)) (conn : ℕ) (eg : Egress) (made : List Attempt)
      → bytes_contains methods 0x02 ≡ true
      → srv.resolve username password srv.client_ip ≡ egresses
      → has_any egresses ≡ true
      → port < 65536
      → dial_via srv.dial egresses (join_host_port host port) srv.now ≡ (connected conn eg, made)
      → handle_socks5 srv (
          healthy
            (greeting methods (credentials username password (connect_request host port rest)))
            sent
            events)
        ≡ (
          some (served username (join_host_port host port) rest conn eg),
          healthy rest
              (((sent ++ 0x05 ∷ 0x02 ∷ []) ++ 0x01 ∷ 0x00 ∷ []) ++ reply_bytes 0x00)
              (events ++ dialled made ∷ []),
        )
  unfolding handle_socks5
  handle_socks5_serves methods username password host rest sent port events egresses conn eg made
        offered resolved nonempty small reached =
      let sent1 : Bytes = sent ++ 0x05 ∷ 0x02 ∷ [] in
      let sent2 : Bytes = sent1 ++ 0x01 ∷ 0x00 ∷ [] in
      >>=_some (socks5_methods srv) _ _ (
        methods_lem methods (credentials username password (connect_request host port rest)) sent
          events offered)
      ∙ >>=_some (socks5_auth srv) _ _ (
          auth_lem username password (connect_request host port rest) sent1 events egresses resolved
            nonempty)
      ∙ >>=_some (socks5_request srv) _ _ (request_lem host rest sent2 port events small)
      ∙ connect_lem username (join_host_port host port) rest sent2 egresses events conn eg made
          reached

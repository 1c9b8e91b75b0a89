-- ===== src/Proxy/Trojan/Handler.antt =====
-- handleTrojan and readTrojanTarget of trojan.go: the request behind the authentication line.
pub mod Silence
pub mod Grants
use proxy_forge.Prelude.{
  ℕ, not, ◌||◌, Option, some, List, ◌==◌, if◌then◌else◌, Bytes, codes, str_eq, is_empty,
}
use proxy_forge.Io.{read_full, read_byte}
use proxy_forge.Proxy.Net.{join_host_port}
use proxy_forge.Proxy.Dial.{Egress, Dialed, connected}
use proxy_forge.Proxy.Session.{
  Handler, ◌>>=◌, ◌>>◌, return, leave, require, read, emit, dial_target, ProxySession, has_any,
  auth_fail, dial_fail, Relay, Server,
}
use proxy_forge.Proxy.Trojan.Auth.{crlf, read_trojan_auth}
use proxy_forge.Proxy.Trojan.Address.{read_trojan_address}

abbrev pub connect_command : ℕ
connect_command = 0x01

abbrev pub udp_command : ℕ
udp_command = 0x03

-- The call that ends a handler which serves its client: `relay`, or `relayTrojanUDP`.
pub data Service : Type 0 where
  relayed : Relay → Service
  udp_relayed : (username : Bytes) (egresses : List (Option Egress)) (pending : Bytes) → Service

-- A username and outbounds for a digest: `resolveTrojan` of the Manager.
abbrev pub Resolver : Type 0
Resolver = Bytes → Bytes → ProxySession

module _ (srv : Server) (resolver : Resolver) where
  unfoldable pub trojan_session : Bytes → Handler ProxySession
  trojan_session auth =
      let (username, egresses) = resolver auth srv.client_ip in
      if is_empty username || not (has_any egresses)
      then emit (auth_fail username (codes "Trojan")) >> leave
      else return (username, egresses)

  -- The command and the target, and the line end behind them.
  unfoldable pub trojan_request : Handler (ℕ × (Bytes × ℕ))
  trojan_request = do
    command ← read read_byte
    (host, port) ← read (read_trojan_address srv.net)
    terminator ← read (read_full 2)
    require (str_eq terminator crlf)
    return (command, (host, port))

  unfoldable pub trojan_answer : ProxySession → Bytes → Dialed → Handler Service
  trojan_answer (username, egresses) target (connected conn eg) = λ s. (
    some (
        relayed (record {
          conn = conn;
          egress = eg;
          username = username;
          target = target;
          protocol = codes "Trojan";
          pending = s.input;
        })),
    s,
  )
  trojan_answer (username, egresses) target failure =
      emit (dial_fail username target (codes "Trojan")) >> leave

  unfoldable pub trojan_serve : ProxySession → ℕ × (Bytes × ℕ) → Handler Service
  trojan_serve (username, egresses) (command, (host, port)) =
      if command == udp_command
      then (λ s. (some (udp_relayed username egresses s.input), s))
      else if command == connect_command
      then dial_target srv egresses (join_host_port host port)
        >>= (λ r. trojan_answer (username, egresses) (join_host_port host port) r)
      else leave

  unfoldable pub handle_trojan : Handler Service
  handle_trojan = do
    auth ← read read_trojan_auth
    session ← trojan_session auth
    request ← trojan_request
    trojan_serve session request

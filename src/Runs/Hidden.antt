-- ===== src/Runs/Hidden.antt =====
-- A run of the Trojan handler: an authenticated client asks for the UDP relay.
use proxy_forge.Prelude.{
  ℕ, zero, suc, ◌≡◌, refl, some, [], ◌∷◌, ◌++◌, Bytes, codes, str_eq, is_empty,
}
use proxy_forge.Io.{read_full, read_byte, ok}
use proxy_forge.Proxy.Session.{◌>>=◌, read, ProxySession, has_any, Session, Server}
use proxy_forge.Proxy.Trojan.Auth.{
  hex_value, hex_pair, hex_decode, crlf, auth_of_line, read_trojan_auth,
}
use proxy_forge.Proxy.Trojan.Address.{read_host, read_trojan_address}
use proxy_forge.Proxy.Trojan.Handler.{
  udp_command, Resolver, trojan_session, trojan_request, trojan_serve, handle_trojan, udp_relayed,
}
use proxy_forge.Proxy.Trojan.Handler.Silence.{handle_trojan-IsSilent}
use proxy_forge.Proxy.Trojan.Handler.Grants.{IsGranted, IsOver, handle_trojan-IsGranted}
use proxy_forge.Runs.{localhost, net, silent, warp, dialer}

abbrev srv : Server
srv = record {
  net = net;
  resolve = λ u p ip. [];
  dial = dialer;
  client_ip = codes "10.0.0.9";
  now = 0;
}

-- Knows the digest that starts with a zero byte.
abbrev resolver : Resolver
resolver (zero ∷ auth) ip = (codes "slot-1", some warp ∷ [])
resolver _ ip = ([], [])

abbrev zeros : ℕ → Bytes
zeros zero = []
zeros (suc n) = b'0' ∷ zeros n

abbrev line : Bytes
line = zeros 56 ++ crlf

abbrev hello : Session
hello = record {
  input = line ++ (udp_command ∷ (1 ∷ localhost ++ 1 ∷ 187 ∷ crlf ++ 7 ∷ []));
  out = silent;
  events = [];
}

abbrev waiting : Session
waiting = record { input = 7 ∷ []; out = silent; events = [] }

handle_trojan-IsSilent_example : (handle_trojan srv resolver hello).1.out ≡ silent
handle_trojan-IsSilent_example = handle_trojan-IsSilent srv resolver hello

handle_trojan-IsGranted_example :
    (auth : Bytes) × (rest : Bytes) × (p : ProxySession) × (read_trojan_auth hello.input
      ≡ ok (auth, rest))
    × IsGranted srv resolver p auth
    × IsOver srv resolver p (udp_relayed (codes "slot-1") (some warp ∷ []) (7 ∷ []))
unfolding ◌>>=◌ handle_trojan trojan_session trojan_request trojan_serve read read_full read_byte
    read_trojan_auth auth_of_line hex_decode hex_pair hex_value read_trojan_address read_host str_eq
    is_empty has_any
handle_trojan-IsGranted_example =
    handle_trojan-IsGranted srv resolver hello waiting
      (udp_relayed (codes "slot-1") (some warp ∷ []) (7 ∷ [])) refl

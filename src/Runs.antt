-- ===== src/Runs.antt =====
-- Inputs of the example runs: a resolver of addresses, two outbounds, an idle connection.
pub mod Wire
pub mod Trojan
pub mod Serving
pub mod Choosing
pub mod Agents
pub mod Web
pub mod Hidden
pub mod Watching
pub mod Slots
pub mod Tunnels
pub mod Relaying
pub mod Logging
pub mod Endpoints
pub mod Packets
pub mod Starting
pub mod Dialling
use proxy_forge.Prelude.{
  ◌≡◌, refl, subst, Bool, true, false, Option, none, some, [], ◌∷◌, arith, if◌then◌else◌, Bytes,
  codes, str_eq, is_empty,
}
use proxy_forge.Io.Writers.{Writer}
use proxy_forge.Proxy.Net.{IsIp, Ip, v4, IpText}
use proxy_forge.Proxy.Dial.{Dialer, Egress}

abbrev pub localhost : Bytes
localhost = 127 ∷ 0 ∷ 0 ∷ 1 ∷ []

-- Knows one address.
abbrev pub parse_local : Bytes → Option Ip
parse_local s = if str_eq s (codes "127.0.0.1") then some (v4 localhost) else none

pub parse_local-IsIp : (s : Bytes) (ip : Ip) → parse_local s ≡ some ip → IsIp ip
parse_local-IsIp s ip h = by_test (str_eq s (codes "127.0.0.1")) h
  where
    by_test : (b : Bool) → (if b then some (v4 localhost) else none) ≡ some ip → IsIp ip
    by_test true e =
        subst (λ o. of_some o) e
          (refl, (omega arith, (omega arith, (omega arith, (omega arith, tt)))))
      where
        of_some : Option Ip → Type 0
        of_some none = Unit {0}
        of_some (some i) = IsIp i
    by_test false e = cc (e)

pub local-nonempty : (b : Bytes) → is_empty (codes "127.0.0.1") ≡ false
unfolding is_empty
local-nonempty b = refl

abbrev pub net : IpText
net = record {
  parse_ip = parse_local;
  ip_string = λ b. codes "127.0.0.1";
  parse_ip-IsIp = parse_local-IsIp;
  ip_string_nonempty = local-nonempty;
}

abbrev pub silent : Writer
silent = record { sent = []; script = [] }

abbrev pub warp : Egress
warp = record { tag = codes "warp-1"; kind = codes "wireguard"; supports_udp = true }

abbrev pub agent : Egress
agent = record { tag = codes "node-7"; kind = codes "agent"; supports_udp = false }

-- The tunnel times out, and the agent connects.
abbrev pub dialer : Dialer
dialer eg network target now ttl =
    if str_eq eg.tag (codes "node-7")
    then record { took = 20; error = none; conn = 5 }
    else record {
      took = 40;
      error = some (record { dns_not_found = false; message = codes "i/o timeout" });
      conn = 0;
    }

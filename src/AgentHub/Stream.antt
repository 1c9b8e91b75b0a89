-- ===== src/AgentHub/Stream.antt =====
-- `SupportsUDPVersion` of agentproto/proto.go, and the dial of an agent (agentEgress.DialContext of
-- hub.go): a handshake on a new stream.
use proxy_forge.Prelude.{
  ℕ, Bool, true, false, not, ◌&&◌, Option, none, some, leb, if◌then◌else◌, Bytes, str_eq,
  trim_space,
}
use proxy_forge.Prelude.Decimal.{atoi}
use proxy_forge.Io.{Error, Result, ok, err}
use proxy_forge.Io.Writers.{Writer}
use proxy_forge.AgentProto.{tcp, udp, write_target, write_request, read_status}

abbrev pub at_least_two : Option (Bool × ℕ) → Bool
at_least_two none = false
at_least_two (some (minus, n)) = not minus && leb 2 n

unfoldable pub supports_udp_version : Bytes → Bool
supports_udp_version raw = at_least_two (atoi (trim_space raw))

-- Why a dial failed; the stream is closed then.
pub data DialFailure : Type 0 where
  no_stream : DialFailure
  unsupported_network : DialFailure
  no_udp : DialFailure
  request_failed : Error → DialFailure
  status_failed : Error → DialFailure
  remote_failed : DialFailure

pub data Dial : Type 0 where
  -- The stream, or a PacketConn over it, with the bytes that the agent has sent so far.
  stream : Bytes → Dial
  packets : Bytes → Dial
  refused : DialFailure → Dial

-- Which request is written depends on the version of the agent.
unfoldable pub request : Bytes → Bytes → Bytes → Writer → Result (Unit {0}) × Writer
request version network address =
    if supports_udp_version version then write_request network address else write_target address

abbrev pub after_status : Bytes → Result (Bool × Bytes) → Dial
after_status network (err e) = refused (status_failed e)
after_status network (ok (false, rest)) = refused remote_failed
after_status network (ok (true, rest)) = if str_eq network udp then packets rest else stream rest

abbrev pub after_request : Bytes → Bytes → Result (Unit {0}) × Writer → Dial × Writer
after_request network answer (err e, w) = (refused (request_failed e), w)
after_request network answer (ok u, w) = (after_status network (read_status answer), w)

-- `opened` tells whether OpenStream gave a stream; `answer` is what comes back on it.
unfoldable pub dial_context : Bytes → Bool → Bytes → Bytes → Bytes → Writer → Dial × Writer
dial_context version opened network address answer w =
    if not opened
    then (refused no_stream, w)
    else if not (str_eq network tcp) && not (str_eq network udp)
    then (refused unsupported_network, w)
    else if str_eq network udp && not (supports_udp_version version)
    then (refused no_udp, w)
    else after_request network answer (request version network address w)

-- ===== src/AgentHub/Handshake.antt =====
-- Controller and agent agree on the handshake: hub.go's DialContext against proto.go's ReadRequest.
use proxy_forge.Prelude.{
  ◌≡◌, refl, sym, ap, subst, ◌⊎◌, inl, inr, Bool, true, false, not, ◌||◌, ◌++◌, arith,
  if◌then◌else◌, Bool-cases, Bytes, str_eq, str_eq_iff,
}
use proxy_forge.Io.{Result, ok, err}
use proxy_forge.Io.Writers.{Writer}
use proxy_forge.AgentProto.{tcp, udp, read_request, read_status}
use proxy_forge.AgentProto.Encode.{read_request-write_request, read_request-write_target}
use proxy_forge.AgentHub.Stream.{
  supports_udp_version, request, after_status, after_request, dial_context, Dial, stream, packets,
  refused,
}

abbrev pub succeeded : Dial → Bool
succeeded (stream rest) = true
succeeded (packets rest) = true
succeeded (refused x) = false

-- What was written is read as a request by an agent of either version.
abbrev pub Reads : Writer → Writer → Bytes → Bytes → Type 0
Reads w w' address network =
    (sent : Bytes) × (w'.sent ≡ w.sent ++ sent)
    × ((rest : Bytes) → read_request (sent ++ rest) ≡ ok ((network, address), rest))

request-Reads :
    (version network address : Bytes) (w w' : Writer)
    → (supports_udp_version version ≡ true) ⊎ (network ≡ tcp)
    → request version network address w ≡ (ok tt, w')
    → Reads w w' address network
unfolding request
request-Reads version network address w w' v h = elim (Bool-cases (supports_udp_version version)) [
  | inl new ↦ read_request-write_request network address w w' (rw new at h)
  | inr older ↦
      let network_tcp : network ≡ tcp = elim v [ inl new ↦ cc | inr e ↦ e ] in
      subst (Reads w w' address) (sym network_tcp)
        (read_request-write_target address w w' (rw older at h))
]

-- A dial that succeeds has passed the tests and got as far as the request.
dial_context_requests :
    (version : Bytes) (opened : Bool) (network address answer : Bytes) (w w' : Writer) (d : Dial)
    → dial_context version opened network address answer w ≡ (d, w')
    → succeeded d ≡ true
    → ((str_eq network tcp || str_eq network udp) ≡ true)
      × ((not (str_eq network udp) || supports_udp_version version) ≡ true)
      × (after_request network answer (request version network address w) ≡ (d, w'))
unfolding dial_context
dial_context_requests version opened network address answer w w' d h s = ground arith

-- The agent has answered that it has dialled, and the connection is of the network's kind.
abbrev pub IsAnswered : Bytes → Bytes → Dial → Type 0
IsAnswered network answer d =
    (rest : Bytes) × (read_status answer ≡ ok (true, rest))
    × (d ≡ (if str_eq network udp then packets rest else stream rest))

after_status_ok :
    (network answer : Bytes) (r : Result (Bool × Bytes)) (d : Dial)
    → read_status answer ≡ r
    → after_status network r ≡ d
    → succeeded d ≡ true
    → IsAnswered network answer d
after_status_ok network answer (err e) d q k s = cc (s, k)
after_status_ok network answer (ok (false, rest)) d q k s = cc (s, k)
after_status_ok network answer (ok (true, rest)) d q k s = (rest, q, sym k)

after_request_ok :
    (network answer : Bytes) (r : Result (Unit {0}) × Writer) (d : Dial) (w' : Writer)
    → after_request network answer r ≡ (d, w')
    → succeeded d ≡ true
    → (r ≡ (ok tt, w')) × IsAnswered network answer d
after_request_ok network answer (err e, w) d w' h s =
    cc (s, ap (λ (p : Dial × Writer). succeeded p.0) h)
after_request_ok network answer (ok u, w) d w' h s =
    let same : w ≡ w' = ap (λ (p : Dial × Writer). p.1) h in
    (
      ap (λ (v : Writer). (ok tt, v)) same,
      after_status_ok network answer (read_status answer) d refl (ap (λ (p : Dial × Writer). p.0) h)
          s,
    )

old_is_tcp :
    (version network : Bytes)
    → (str_eq network tcp || str_eq network udp) ≡ true
    → (not (str_eq network udp) || supports_udp_version version) ≡ true
    → (supports_udp_version version ≡ true) ⊎ (network ≡ tcp)
old_is_tcp version network known carried = elim (Bool-cases (str_eq network udp)) [
  | inl is_udp ↦ inl (ground arith)
  | inr not_udp ↦ inr ((str_eq_iff network tcp).0 (ground arith))
]

-- A dial of an agent succeeds only for a network that the agent carries, so that a datagram never
-- goes to an agent of version 1; what the controller has sent is read by ReadRequest, of either
-- version, as the same network and address, and the agent has answered that it has dialled it.
pub read_request-dial_context :
    (version : Bytes) (opened : Bool) (network address answer : Bytes) (w w' : Writer) (d : Dial)
    → dial_context version opened network address answer w ≡ (d, w')
    → succeeded d ≡ true
    → ((not (str_eq network udp) || supports_udp_version version) ≡ true)
      × Reads w w' address network
      × IsAnswered network answer d
read_request-dial_context version opened network address answer w w' d h s =
    let (known, carried, made) =
      dial_context_requests version opened network address answer w w' d h s in
    let (sent, status) =
      after_request_ok network answer (request version network address w) d w' made s in
    (
      carried,
      request-Reads version network address w w' (old_is_tcp version network known carried) sent,
      status,
    )

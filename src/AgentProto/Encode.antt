-- ===== src/AgentProto/Encode.antt =====
-- What the write functions of agentproto put on the stream, and that the read functions read it back.
use proxy_forge.Prelude.{
  ℕ, ◌≤◌, ◌<◌, ◌≡◌, sym, ap, ◌∙◌, inl, inr, true, [], ◌∷◌, ◌++◌, append_assoc, arith, Bool-cases,
  length, Bytes, str_eq, str_eq_iff,
}
use proxy_forge.Io.{read_full, put_uint16, read_full-append, uint16_of-put, ok}
use proxy_forge.Io.Writers.{write_full, write_full_ok, >>-ok, Writer}
use proxy_forge.AgentProto.{
  magic_0, magic_1, network_tcp, network_udp, tcp, udp, target_len_ok, write_target, write_network,
  write_request, read_target_length, read_target, network_of, read_network, read_legacy,
  read_request,
}
use proxy_forge.AgentProto.Packets.{frame}

-- The frame of a target that `WriteTarget` accepts.
abbrev pub request_frame : ℕ → Bytes → Bytes
request_frame code target = magic_0 ∷ magic_1 ∷ code ∷ frame target

target_len_ok-bound : (n : ℕ) → target_len_ok n ≡ true → (0 < n) × (n ≤ 512)
target_len_ok-bound n h = ground arith

-- `io.ReadFull` of the two bytes of a length prefix.
read_prefix : (n : ℕ) (rest : Bytes) → read_full 2 (put_uint16 n ++ rest) ≡ ok (put_uint16 n, rest)
read_prefix n rest = read_full-append (put_uint16 n) rest

pub read_target-frame :
    (target rest : Bytes)
    → target_len_ok (length target) ≡ true
    → read_target (frame target ++ rest) ≡ ok (target, rest)
unfolding read_target read_target_length
read_target-frame target rest h = ground (
  arith,
  read_prefix (length target) (target ++ rest),
  uint16_of-put (length target),
  read_full-append target rest,
)

pub write_target_sent :
    (target : Bytes) (w w' : Writer)
    → write_target target w ≡ (ok tt, w')
    → (target_len_ok (length target) ≡ true) × (w'.sent ≡ w.sent ++ frame target)
unfolding write_target
write_target_sent target w w' h = elim (Bool-cases (target_len_ok (length target))) [
  | inl fits ↦
      let hdr : Bytes = put_uint16 (length target) in
      let (v, first, second) = >>-ok (write_full hdr) (write_full target) tt w w' (rw fits at h) in
      (
        fits,
        write_full_ok target v w' second
            ∙ ap (λ t. t ++ target) (write_full_ok hdr w v first)
            ∙ append_assoc w.sent hdr target,
      )
  | inr misfit ↦ cc (rw misfit at h)
]

write_network_sent :
    (code : ℕ) (target : Bytes) (w w' : Writer)
    → write_network code target w ≡ (ok tt, w')
    → (target_len_ok (length target) ≡ true) × (w'.sent ≡ w.sent ++ request_frame code target)
unfolding write_network
write_network_sent code target w w' h =
    let hdr : Bytes = magic_0 ∷ magic_1 ∷ code ∷ [] in
    let (v, first, second) = >>-ok (write_full hdr) (write_target target) tt w w' h in
    let (fits, sent) = write_target_sent target v w' second in
    (
      fits,
      sent
          ∙ ap (λ t. t ++ frame target) (write_full_ok hdr w v first)
          ∙ append_assoc w.sent hdr (frame target),
    )

read_request-frame :
    (code : ℕ) (network target rest : Bytes)
    → network_of code ≡ ok network
    → target_len_ok (length target) ≡ true
    → read_request (request_frame code target ++ rest) ≡ ok ((network, target), rest)
unfolding read_request read_network read_full
read_request-frame code network target rest known fits =
    ground (arith, read_target-frame target rest)

-- A request that `WriteRequest` sends without error is one that `ReadRequest` reads back: what was
-- appended to the stream decodes to the same network and target, and leaves any bytes behind it.
pub read_request-write_request :
    (network target : Bytes) (w w' : Writer)
    → write_request network target w ≡ (ok tt, w')
    → (sent : Bytes) × (w'.sent ≡ w.sent ++ sent)
      × ((rest : Bytes) → read_request (sent ++ rest) ≡ ok ((network, target), rest))
unfolding write_request network_of
read_request-write_request network target w w' h = elim (Bool-cases (str_eq network tcp)) [
  | inl is_tcp ↦
      let (fits, sent) = write_network_sent network_tcp target w w' (rw is_tcp at h) in
      (
        request_frame network_tcp target,
        sent,
        λ rest.
            read_request-frame network_tcp network target rest
              (ap ok (sym ((str_eq_iff network tcp).0 is_tcp))) fits,
      )
  | inr not_tcp ↦ elim (Bool-cases (str_eq network udp)) [
    | inl is_udp ↦
        let (fits, sent) = write_network_sent network_udp target w w' (rw (not_tcp, is_udp) at h) in
        (
          request_frame network_udp target,
          sent,
          λ rest.
              read_request-frame network_udp network target rest
                (ap ok (sym ((str_eq_iff network udp).0 is_udp))) fits,
        )
    | inr not_udp ↦ cc (rw (not_tcp, not_udp) at h)
  ]
]

legacy :
    (target rest : Bytes)
    → target_len_ok (length target) ≡ true
    → read_request (frame target ++ rest) ≡ ok ((tcp, target), rest)
unfolding read_request read_legacy read_target_length
legacy target rest fits = ground (
  arith,
  read_prefix (length target) (target ++ rest),
  uint16_of-put (length target),
  read_full-append target rest,
)

-- A v1 controller's target, which has no magic in front, is read by a v2 agent as a TCP request:
-- its length prefix is never the magic.
pub read_request-write_target :
    (target : Bytes) (w w' : Writer)
    → write_target target w ≡ (ok tt, w')
    → (sent : Bytes) × (w'.sent ≡ w.sent ++ sent)
      × ((rest : Bytes) → read_request (sent ++ rest) ≡ ok ((tcp, target), rest))
read_request-write_target target w w' h =
    let (fits, sent) = write_target_sent target w w' h in
    (frame target, sent, λ rest. legacy target rest fits)

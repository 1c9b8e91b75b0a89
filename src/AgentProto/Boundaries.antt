-- ===== src/AgentProto/Boundaries.antt =====
-- Datagram boundaries of PacketConn, and what a reader accepts.
use proxy_forge.Prelude.{
  ℕ, ◌+◌, ◌-◌, ◌*◌, ◌≤◌, ◌<◌, ◌≡◌, sym, ap, ◌∙◌, inl, inr, [], ◌∷◌, ◌++◌, append_assoc, arith, ltb,
  Bool-cases, length, take, drop, length-take, length-drop, take_all, Bytes,
}
use proxy_forge.Io.{
  read_full, put_uint16, read_full-append, read_full_lem, read_full_front, uint16_of-put, Result,
  ok,
}
use proxy_forge.Io.Writers.{return, write_full, write_full_ok, >>-ok, Writer}
use proxy_forge.Io.Writers
use proxy_forge.AgentProto.{read_target_length, read_target}
use proxy_forge.AgentProto.Packets.{packet_read, packet_write, frame}

read_body :
    (n : ℕ) (p rest : Bytes)
    → n ≤ length p
    → read_full (length p - n) (drop n p ++ rest) ≡ ok (drop n p, rest)
read_body n p rest h =
    ap (λ k. read_full k (drop n p ++ rest)) (sym (length-drop n p))
    ∙ read_full-append (drop n p) rest

-- A frame is read as one datagram, cut to the buffer, and the stream then stands at the next frame:
-- packet boundaries survive a buffer that is too small.
pub packet_read-frame :
    (size : ℕ) (p rest : Bytes)
    → length p < 65536
    → packet_read size (frame p ++ rest) ≡ ok (take size p, rest)
unfolding packet_read
packet_read-frame size p rest h = ground (
  arith,
  read_full-append (put_uint16 (length p)) (p ++ rest),
  uint16_of-put (length p),
  read_full_front size p rest,
  read_full_front (length p) p rest,
  read_body size p rest,
  read_body (length p) p rest,
  take_all size p,
  take_all (length p) p,
)

-- `Write` sends one frame, or nothing but a front part of one.
packet_write_ok :
    (p : Bytes) (n : ℕ) (w w' : Writer)
    → packet_write p w ≡ (ok n, w')
    → (length p < 65536) × (n ≡ length p) × (w'.sent ≡ w.sent ++ frame p)
unfolding packet_write
packet_write_ok p n w w' h = elim (Bool-cases (ltb 65535 (length p))) [
  | inl long ↦ cc (rw long at h)
  | inr fits ↦
      let hdr : Bytes = put_uint16 (length p) in
      let (v, first, more) =
        >>-ok (write_full hdr) (Writers.◌>>◌ (write_full p) (return (length p))) n w w'
          (rw fits at h) in
      let (u, second, done) = >>-ok (write_full p) (return (length p)) n v w' more in
      (
        ground arith,
        cc,
        sym (ap (λ (r : Result ℕ × Writer). r.1.sent) done)
            ∙ write_full_ok p v u second
            ∙ ap (λ t. t ++ p) (write_full_ok hdr w v first)
            ∙ append_assoc w.sent hdr p,
      )
]

-- A datagram that `PacketConn.Write` reports as sent is one that `PacketConn.Read` returns whole, up
-- to the size of its buffer, and what follows it on the stream is not touched.
pub packet_read-packet_write :
    (p : Bytes) (n : ℕ) (w w' : Writer)
    → packet_write p w ≡ (ok n, w')
    → (sent : Bytes) × (n ≡ length p)
      × (w'.sent ≡ w.sent ++ sent)
      × ((size : ℕ) (rest : Bytes) → packet_read size (sent ++ rest) ≡ ok (take size p, rest))
packet_read-packet_write p n w w' h =
    let (fits, all, sent) = packet_write_ok p n w w' h in
    (frame p, all, sent, λ size rest. packet_read-frame size p rest fits)

-- `ReadTarget` accepts 1 to 512 bytes only, and takes exactly the prefix and the target.
pub read_target_bounds :
    (s target rest : Bytes)
    → read_target s ≡ ok (target, rest)
    → (0 < length target) × (length target ≤ 512) × (length s ≡ length target + length rest + 2)
unfolding read_target read_target_length read_full
read_target_bounds [] target rest h = cc
read_target_bounds (a ∷ []) target rest h = cc
read_target_bounds (a ∷ b ∷ s) target rest h =
    ground (
      arith,
      read_full_lem (a * 256 + b) s,
      length-take (a * 256 + b) s,
      length-drop (a * 256 + b) s,
    )

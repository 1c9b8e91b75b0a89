-- ===== src/Proxy/Trojan/PacketStream.antt =====
-- What `writeTrojanUDPPacket` puts on the stream, on success and on failure.
use proxy_forge.Prelude.{
  ℕ, zero, suc, ◌+◌, ◌≤◌, ◌<◌, ◌≡◌, refl, sym, ap, ◌∙◌, subst, ◌≢◌, inl, inr, true, false, Option,
  none, some, [], ◌++◌, append_assoc, arith, leb, leb→le, Bool-cases, tests, length, take, drop,
  length-append, take-append-drop, length-take, length-drop, take_all, Bytes,
}
use proxy_forge.Io.{Error, out_of_fuel, Result, ok, err}
use proxy_forge.Io.Writers.{write_once, write_once_ok, write_once_error, Writer}
use proxy_forge.Proxy.Net.{IpText}
use proxy_forge.Proxy.Trojan.Address.{host_field, append_trojan_address}
use proxy_forge.Proxy.Trojan.PacketLaws.{IsFramed-cons, IsFramed-one, IsFramed}
use proxy_forge.Proxy.Trojan.Packet.{
  max_frame_payload, udp_frame, write_frame, write_chunks, write_trojan_udp_packet,
}

module _ (net : IpText) where
  write_frame_ok :
      (host : Bytes) (port : ℕ) (chunk : Bytes) (w : Writer) (n : ℕ) (w' : Writer)
      → write_frame net host port chunk w ≡ (ok n, w')
      → (frame : Bytes) × (udp_frame net host port chunk ≡ ok frame) × (w'.sent ≡ w.sent ++ frame)
  unfolding write_frame
  write_frame_ok host port chunk w n w' h = go (udp_frame net host port chunk) refl h
    where
      go :
          (r : Result Bytes)
          → udp_frame net host port chunk ≡ r
          → (elim r [ err e ↦ (err e, w) | ok frame ↦ write_once frame w ]) ≡ (ok n, w')
          → (frame : Bytes) × (udp_frame net host port chunk ≡ ok frame)
            × (w'.sent ≡ w.sent ++ frame)
      go (err x) e p = cc
      go (ok frame) e p = (frame, e, (write_once_ok frame w n w' p).1)

  -- What is left to send: after the last chunk nothing, before it a shorter payload.
  last_chunk :
      (payload : Bytes)
      → leb (length payload) (length (take max_frame_payload payload)) ≡ true
      → take max_frame_payload payload ≡ payload
  last_chunk payload h =
      take_all max_frame_payload payload
        (omega (tests, leb→le _ _ h, length-take max_frame_payload payload))

  write_chunks_ok :
      (fuel : ℕ) (host : Bytes) (port written : ℕ) (payload : Bytes) (w : Writer) (n : ℕ)
      (w' : Writer)
      → write_chunks net fuel host port written payload w ≡ ((n, none), w')
      → (sent : Bytes) × (w'.sent ≡ w.sent ++ sent)
        × (n ≡ written + length payload)
        × IsFramed net host port payload sent
  unfolding write_chunks
  write_chunks_ok zero host port written payload w n w' h = cc
  write_chunks_ok (suc fuel) host port written payload w n w' h =
      go (write_frame net host port chunk w) refl
        (λ v. write_chunks_ok fuel host port (written + length chunk) more v n w') h
    where
      chunk : Bytes
      chunk = take max_frame_payload payload

      more : Bytes
      more = drop max_frame_payload payload

      small : length chunk ≤ max_frame_payload
      small = omega (arith, length-take max_frame_payload payload)

      go :
          (r : Result ℕ × Writer)
          → write_frame net host port chunk w ≡ r
          → ((v : Writer)
              → write_chunks net fuel host port (written + length chunk) more v ≡ ((n, none), w')
              → (sent : Bytes) × (w'.sent ≡ v.sent ++ sent)
                × (n ≡ written + length chunk + length more)
                × IsFramed net host port more sent)
          → (elim r.0 [
            | err e ↦ ((written, some e), r.1)
            | ok k ↦ elim (leb (length payload) (length chunk)) [
              | true ↦ ((written + length chunk, none), r.1)
              | false ↦ write_chunks net fuel host port (written + length chunk) more r.1
            ]
          ])
            ≡ ((n, none), w')
          → (sent : Bytes) × (w'.sent ≡ w.sent ++ sent)
            × (n ≡ written + length payload)
            × IsFramed net host port payload sent
      go (err x, v) e ih p = cc
      go (ok k, v) e ih p =
          let (frame, made, extends) = write_frame_ok host port chunk w k v e in
          elim (Bool-cases (leb (length payload) (length chunk))) [
            | inl last ↦
                let all : chunk ≡ payload = last_chunk payload last in
                (
                  frame,
                  sym (ap (λ (r : (ℕ × Option Error) × Writer). r.1.sent) (rw last at p)) ∙ extends,
                  omega (
                    arith,
                    ap length all,
                    ap (λ (r : (ℕ × Option Error) × Writer). r.0.0) (rw last at p),
                  ),
                  subst (λ c. IsFramed net host port c frame) all
                      (IsFramed-one net host port chunk frame small made),
                )
            | inr longer ↦
                let (sent, tail, total, framed) = ih v (rw longer at p) in
                (
                  frame ++ sent,
                  tail ∙ ap (λ t. t ++ sent) extends ∙ append_assoc w.sent frame sent,
                  omega (
                    arith,
                    ap length (take-append-drop max_frame_payload payload),
                    length-append chunk more,
                    total,
                  ),
                  subst (λ c. IsFramed net host port c (frame ++ sent))
                      (take-append-drop max_frame_payload payload)
                      (IsFramed-cons net host port chunk more frame sent small made framed),
                )
          ]

  -- A payload that `writeTrojanUDPPacket` reports as sent is on the stream as frames of at most 8192
  -- bytes: read one after the other they come from the same address, and their payloads, put
  -- together, are that payload. The count that is returned is its length.
  pub read_packets-write :
      (host : Bytes) (port : ℕ) (payload : Bytes) (w : Writer) (n : ℕ) (w' : Writer)
      → write_trojan_udp_packet net host port payload w ≡ ((n, none), w')
      → (sent : Bytes) × (w'.sent ≡ w.sent ++ sent)
        × (n ≡ length payload)
        × IsFramed net host port payload sent
  unfolding write_trojan_udp_packet
  read_packets-write host port payload w n w' h =
      let (sent, tail, total, framed) =
        write_chunks_ok (suc (length payload)) host port 0 payload w n w' h in
      (sent, tail, omega (arith, total), framed)

  append_error :
      (host : Bytes) (port : ℕ) (x : Error)
      → append_trojan_address net [] host port ≡ err x
      → x ≢ out_of_fuel
  unfolding append_trojan_address host_field
  append_error host port x h = λ e. ground arith

  udp_frame_error :
      (host : Bytes) (port : ℕ) (chunk : Bytes) (x : Error)
      → udp_frame net host port chunk ≡ err x
      → x ≢ out_of_fuel
  unfolding udp_frame
  udp_frame_error host port chunk x h = λ e. ground (arith, append_error host port x)

  write_frame_error :
      (host : Bytes) (port : ℕ) (chunk : Bytes) (w w' : Writer) (x : Error)
      → write_frame net host port chunk w ≡ (err x, w')
      → x ≢ out_of_fuel
  unfolding write_frame
  write_frame_error host port chunk w w' x h = go (udp_frame net host port chunk) refl h
    where
      go :
          (r : Result Bytes)
          → udp_frame net host port chunk ≡ r
          → (elim r [ err e ↦ (err e, w) | ok frame ↦ write_once frame w ]) ≡ (err x, w')
          → x ≢ out_of_fuel
      go (err y) e p = λ q. udp_frame_error host port chunk y e (ground arith)
      go (ok frame) e p = λ q. ground (arith, write_once_error frame w x w' p)

  write_chunks-ne-stuck :
      (fuel : ℕ) (host : Bytes) (port written : ℕ) (payload : Bytes) (w : Writer)
      → length payload < fuel
      → (write_chunks net fuel host port written payload w).0.1 ≢ some out_of_fuel
  unfolding write_chunks
  write_chunks-ne-stuck zero host port written payload w h = absurd (omega arith)
  write_chunks-ne-stuck (suc fuel) host port written payload w h =
      go (write_frame net host port chunk w) refl (λ v longer.
        write_chunks-ne-stuck fuel host port (written + length chunk) more v (shorter longer))
    where
      chunk : Bytes
      chunk = take max_frame_payload payload

      more : Bytes
      more = drop max_frame_payload payload

      shorter : leb (length payload) (length chunk) ≡ false → length more < fuel
      shorter longer =
          ground
            (arith, length-take max_frame_payload payload, length-drop max_frame_payload payload)

      go :
          (r : Result ℕ × Writer)
          → write_frame net host port chunk w ≡ r
          → ((v : Writer)
              → leb (length payload) (length chunk) ≡ false
              → (write_chunks net fuel host port (written + length chunk) more v).0.1
                ≢ some out_of_fuel)
          → (let out : (ℕ × Option Error) × Writer = elim r.0 [
            | err e ↦ ((written, some e), r.1)
            | ok k ↦ elim (leb (length payload) (length chunk)) [
              | true ↦ ((written + length chunk, none), r.1)
              | false ↦ write_chunks net fuel host port (written + length chunk) more r.1
            ]
          ] in
              out.0.1 ≢ some out_of_fuel)
      go (err x, v) e ih = λ p. write_frame_error host port chunk w v x e (ground arith)
      go (ok k, v) e ih = elim (Bool-cases (leb (length payload) (length chunk))) [
        | inl last ↦ rw last (λ p. cc)
        | inr longer ↦ rw longer (ih v longer)
      ]

  -- `writeTrojanUDPPacket` ends: its loop takes at most as many rounds as the payload has bytes, and
  -- one more.
  pub write_trojan_udp_packet-ne-stuck :
      (host : Bytes) (port : ℕ) (payload : Bytes) (w : Writer)
      → (write_trojan_udp_packet net host port payload w).0.1 ≢ some out_of_fuel
  unfolding write_trojan_udp_packet
  write_trojan_udp_packet-ne-stuck host port payload w =
      write_chunks-ne-stuck (suc (length payload)) host port 0 payload w (omega arith)

-- ===== src/Proxy/Bind/Transparent.antt =====
-- What Send and receive do to packets.
use Prim.Native.Nat.{min}
use proxy_forge.Prelude.{
  ℕ, zero, suc, ◌+◌, ◌%◌, ◌^◌, ◌≤◌, ◌<◌, ◌≡◌, refl, ap, ◌∙◌, Option, none, some, List, [], ◌∷◌,
  ◌++◌, map, arith, length, take, drop, All, take_all, take-length, Bytes,
}
use proxy_forge.Proxy.Bind.{
  Reserved, put_reserved, mark_packet, count_tx, send_packets, socket_for, send_bind,
  clear_reserved, receive, Dest, BindError, no_family, Bind, Sent, arrives, Received, received,
  not_received,
}
use proxy_forge.Prelude.Assoc.{bytes_key, lookup}

-- A WireGuard packet has nothing in its reserved bytes.
abbrev pub IsPlain : Bytes → Type 0
IsPlain [] = Unit {0}
IsPlain (a ∷ []) = Unit {0}
IsPlain (a ∷ b ∷ []) = Unit {0}
IsPlain (a ∷ b ∷ c ∷ []) = Unit {0}
IsPlain (a ∷ b ∷ c ∷ d ∷ s) = (b ≡ 0) × (c ≡ 0) × (d ≡ 0)

-- What the reader of a buffer takes as the packet.
abbrev pub delivered : Received → Bytes
delivered (received buf n src) = take n buf
delivered (not_received e) = []

length-mark_packet : (r : Option Reserved) (p : Bytes) → length (mark_packet r p) ≡ length p
unfolding mark_packet put_reserved
length-mark_packet none p = refl
length-mark_packet (some r) [] = refl
length-mark_packet (some r) (a ∷ []) = refl
length-mark_packet (some r) (a ∷ b ∷ []) = refl
length-mark_packet (some r) (a ∷ b ∷ c ∷ []) = refl
length-mark_packet (some r) (a ∷ b ∷ c ∷ d ∷ s) = ground arith

-- Behind Send's marks the packet is plain again when receive has cleared them.
cleared :
    (a b c d : ℕ) (s rest : Bytes)
    → take
        (length (a ∷ b ∷ c ∷ d ∷ s))
        (clear_reserved (length (a ∷ b ∷ c ∷ d ∷ s)) (a ∷ b ∷ c ∷ d ∷ s ++ rest))
      ≡ a ∷ 0 ∷ 0 ∷ 0 ∷ s
unfolding put_reserved clear_reserved
cleared a b c d s rest = ground (arith, take-length s rest)

marked :
    (r : Reserved) (a b c d : ℕ) (s : Bytes)
    → mark_packet (some r) (a ∷ b ∷ c ∷ d ∷ s) ≡ a ∷ r.0 ∷ r.1 ∷ r.2 ∷ s
unfolding mark_packet put_reserved
marked r a b c d s = ground arith

plain :
    (a b c d : ℕ) (s : Bytes) → IsPlain (a ∷ b ∷ c ∷ d ∷ s) → a ∷ 0 ∷ 0 ∷ 0 ∷ s ≡ a ∷ b ∷ c ∷ d ∷ s
plain a b c d s h = cc (h.0, h.1, h.2)

clear-mark :
    (r : Option Reserved) (p rest : Bytes)
    → IsPlain p
    → take (length p) (clear_reserved (length p) (mark_packet r p ++ rest)) ≡ p
unfolding mark_packet put_reserved clear_reserved
clear-mark none [] rest h = refl
clear-mark none (a ∷ []) rest h = refl
clear-mark none (a ∷ b ∷ []) rest h = refl
clear-mark none (a ∷ b ∷ c ∷ []) rest h = refl
clear-mark none (a ∷ b ∷ c ∷ d ∷ s) rest h = cleared a b c d s rest ∙ plain a b c d s h
clear-mark (some r) [] rest h = refl
clear-mark (some r) (a ∷ []) rest h = refl
clear-mark (some r) (a ∷ b ∷ []) rest h = refl
clear-mark (some r) (a ∷ b ∷ c ∷ []) rest h = refl
clear-mark (some r) (a ∷ b ∷ c ∷ d ∷ s) rest h =
    ap
      (λ m.
        take (length (a ∷ b ∷ c ∷ d ∷ s)) (clear_reserved (length (a ∷ b ∷ c ∷ d ∷ s)) (m ++ rest)))
      (marked r a b c d s)
    ∙ cleared a r.0 r.1 r.2 s rest
    ∙ plain a b c d s h

-- A packet of the sender comes through a buffer that has room for it.
receive-mark :
    (r : Option Reserved) (p buf : Bytes) (src : Dest) (now : ℕ) (b : Bind)
    → IsPlain p
    → length p ≤ length buf
    → delivered (receive (arrives (mark_packet r p) src) now buf b).0 ≡ p
unfolding receive
receive-mark r p buf src now b h fits =
    let q : Bytes = mark_packet r p in
    let n : ℕ = min (length q) (length buf) in
    let e : n ≡ length p = omega (arith, fits, length-mark_packet r p) in
    let whole : take (length p) q ≡ q =
      take_all (length p) q (omega (arith, length-mark_packet r p)) in
    ap (λ (k : ℕ). take k (clear_reserved k (take k q ++ drop n buf))) e
    ∙ ap (λ (t : Bytes). take (length p) (clear_reserved (length p) (t ++ drop n buf))) whole
    ∙ clear-mark r p (drop n buf) h

unfoldable pub total : List Bytes → ℕ
total [] = 0
total (p ∷ ps) = length p + total ps

-- Without an error all were sent, otherwise not more than that.
abbrev pub IsCount : Option BindError → ℕ → ℕ → Type 0
IsCount none m n = m ≡ n
IsCount (some e) m n = m ≤ n

mod_step : (x k l : ℕ) → ((x + k) % 2 ^ 64 + l) % 2 ^ 64 ≡ (x + (k + l)) % 2 ^ 64
mod_step x k l = omega arith

mod_suc : (x l : ℕ) → ((x + 1) % 2 ^ 64 + l) % 2 ^ 64 ≡ (x + suc l) % 2 ^ 64
mod_suc x l = omega arith

IsCount-suc : (o : Option BindError) (m n : ℕ) → IsCount o m n → IsCount o (suc m) (suc n)
IsCount-suc none m n h = omega (arith, h)
IsCount-suc (some e) m n h = omega (arith, h)

-- The counters of packets and bytes behind so many packets and bytes.
abbrev pub IsCounted : Bind → ℕ → ℕ → Bind → Type 0
IsCounted b m n c =
    (c.tx_packets ≡ (b.tx_packets + m) % 2 ^ 64) × (c.tx_bytes ≡ (b.tx_bytes + n) % 2 ^ 64)

-- What a loop of Send over these packets from this bind has done.
abbrev pub Fate : Option Reserved → List Bytes → Bind → Sent → Type 0
Fate r ps b s =
    (s.wire ≡ take (length s.wire) (map (mark_packet r) ps))
    × IsCount s.error (length s.wire) (length ps)
    × IsCounted b (length s.wire) (total s.wire) s.bind

module _ (fails : ℕ → Option BindError) (now : ℕ → ℕ) where
  send_packets-Fate :
      (r : Option Reserved) (i : ℕ) (ps : List Bytes) (b : Bind)
      → b.tx_packets < 2 ^ 64
      → b.tx_bytes < 2 ^ 64
      → Fate r ps b (send_packets fails now r i ps b)
  unfolding send_packets count_tx total
  send_packets-Fate r i [] b hp hb = (refl, refl, (omega (arith, hp), omega (arith, hb)))
  send_packets-Fate r i (p ∷ ps) b hp hb =
      by_write (fails i) (send_packets-Fate r (suc i) ps next (omega arith) (omega arith))
    where
      q : Bytes
      q = mark_packet r p

      next : Bind
      next = count_tx (now i) (length q) b

      rest : Sent
      rest = send_packets fails now r (suc i) ps next

      by_write :
          (o : Option BindError)
          → Fate r ps next rest
          → Fate r (p ∷ ps) b (elim o as (λ _. Sent) [
            | some e ↦ record { error = some e; wire = []; packets = q ∷ ps; bind = b }
            | none ↦ record rest { wire = q ∷ rest.wire; packets = q ∷ rest.packets }
          ])
      by_write (some e) f = (refl, omega arith, (omega (arith, hp), omega (arith, hb)))
      by_write none f = (
        ap (λ (l : List Bytes). q ∷ l) f.0,
        IsCount-suc rest.error (length rest.wire) (length ps) f.1,
        (
          f.2.0 ∙ mod_suc b.tx_packets (length rest.wire),
          f.2.1 ∙ mod_step b.tx_bytes (length q) (total rest.wire),
        ),
      )

  receive_all :
      (r : Option Reserved) (n : ℕ) (ps : List Bytes) (buf : Bytes) (src : Dest) (at : ℕ) (c : Bind)
      → All IsPlain ps
      → All (λ p. length p ≤ length buf) ps
      → map (λ q. delivered (receive (arrives q src) at buf c).0) (take n (map (mark_packet r) ps))
        ≡ take n ps
  receive_all r zero ps buf src at c h fits = refl
  receive_all r (suc n) [] buf src at c h fits = refl
  receive_all r (suc n) (p ∷ ps) buf src at c h fits =
      cc (receive-mark r p buf src at c h.0 fits.0, receive_all r n ps buf src at c h.1 fits.1)

  -- If a peer receives each datagram that Send put on the wire into a buffer with room for the
  -- longest packet, it reads exactly the first packets of the sender, whose reserved bytes were 0:
  -- all of them if Send gave no error. The counters of the sender go up by just these, mod 2 ^ 64.
  pub receive-send_bind :
      (dst src : Dest) (ps : List Bytes) (b c : Bind) (buf : Bytes) (at : ℕ)
      → b.tx_packets < 2 ^ 64
      → b.tx_bytes < 2 ^ 64
      → All IsPlain ps
      → All (λ p. length p ≤ length buf) ps
      → let s = send_bind fails now (some dst) ps b in
        (map (λ q. delivered (receive (arrives q src) at buf c).0) s.wire ≡ take (length s.wire) ps)
        × IsCount s.error (length s.wire) (length ps)
        × IsCounted b (length s.wire) (total s.wire) s.bind
  unfolding send_bind total
  receive-send_bind dst src ps b c buf at hp hb h fits = by_socket (socket_for dst b)
    where
      r : Option Reserved
      r = lookup dst.text b.reserved

      by_socket :
          (o : Option ℕ)
          → let s : Sent = elim o as (λ _. Sent) [
            | none ↦ record { error = some no_family; wire = []; packets = ps; bind = b }
            | some n ↦ send_packets fails now r 0 ps b
          ] in
            (map (λ q. delivered (receive (arrives q src) at buf c).0) s.wire
              ≡ take (length s.wire) ps)
            × IsCount s.error (length s.wire) (length ps)
            × IsCounted b (length s.wire) (total s.wire) s.bind
      by_socket none = (refl, omega arith, (omega (arith, hp), omega (arith, hb)))
      by_socket (some n) =
          let f = send_packets-Fate r 0 ps b hp hb in
          let wire : List Bytes = (send_packets fails now r 0 ps b).wire in
          (
            ap (map (λ q. delivered (receive (arrives q src) at buf c).0)) f.0
                ∙ receive_all r (length wire) ps buf src at c h fits,
            f.1,
            f.2,
          )

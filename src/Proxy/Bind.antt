-- ===== src/Proxy/Bind.antt =====
-- reserved_bind.go: the UDP sockets of a WireGuard tunnel, which put the account's reserved bytes
-- into the packets that leave and take them out of those that arrive. A socket is a number, and what
-- the network answers is given.
pub mod Transparent
use Prim.Native.Nat.{min}
use proxy_forge.Prelude.{
  ℕ, suc, ◌+◌, ◌%◌, ◌^◌, Bool, true, false, not, ◌&&◌, ◌||◌, Option, none, some, List, [], ◌∷◌,
  ◌++◌, ltb, ◌==◌, if◌then◌else◌, length, take, drop, Bytes,
}
use proxy_forge.Prelude.Assoc.{bytes_key, lookup, insert}

abbrev pub Reserved : Type 0
Reserved = ℕ × ℕ × ℕ

-- A reservedEndpoint: the text of its address and port, and Addr().Is6().
pub record Dest : Type 0 where
  pub text : Bytes
  pub is6 : Bool

-- Errors of the bind; `os` is one that the sockets gave.
pub data BindError : Type 0 where
  already_open : BindError
  wrong_endpoint_type : BindError
  no_family : BindError
  os : Bytes → BindError

pub record Bind : Type 0 where
  pub ipv4 : Option ℕ
  pub ipv6 : Option ℕ
  pub reserved : List (Bytes × Reserved)
  pub tx_packets : ℕ
  pub rx_packets : ℕ
  pub tx_bytes : ℕ
  pub rx_bytes : ℕ
  pub last_tx : ℕ
  pub last_rx : ℕ

abbrev pub new_reserved_bind : Bind
new_reserved_bind = record {
  ipv4 = none;
  ipv6 = none;
  reserved = [];
  tx_packets = 0;
  rx_packets = 0;
  tx_bytes = 0;
  rx_bytes = 0;
  last_tx = 0;
  last_rx = 0;
}

unfoldable pub set_reserved_for_endpoint : Dest → Reserved → Bind → Bind
set_reserved_for_endpoint dst r b = record b { reserved = insert dst.text r b.reserved }

-- What listenUDP gives: a socket with its port, or an error.
pub data Listened : Type 0 where
  listens : ℕ → ℕ → Listened
  refuses : BindError → Listened

-- errors.Is(err, EAFNOSUPPORT)
unfoldable pub is_no_family : BindError → Bool
is_no_family no_family = true
is_no_family already_open = false
is_no_family wrong_endpoint_type = false
is_no_family (os msg) = false

pub data Opened : Type 0 where
  opened : (count port : ℕ) → Opened
  failed : BindError → Opened

-- The two calls of listenUDP, then the number of receive functions.
unfoldable pub open_both : Listened → (ℕ → Listened) → ℕ → Bind → Opened × Bind
unfolding is_no_family
open_both (listens s4 p4) listen6 requested b = with_six (listen6 p4)
  where
    with_six : Listened → Opened × Bind
    with_six (listens s6 p6) =
        (opened 2 (if p4 == 0 then p6 else p4), record b { ipv4 = some s4; ipv6 = some s6 })
    with_six (refuses e) = (opened 1 p4, record b { ipv4 = some s4 })
open_both (refuses e4) listen6 requested b = with_six (listen6 requested)
  where
    with_six : Listened → Opened × Bind
    with_six (listens s6 p6) = (opened 1 p6, record b { ipv6 = some s6 })
    with_six (refuses e6) = (failed (if is_no_family e4 then e6 else e4), b)

abbrev pub is_some : {A : Type 0} → Option A → Bool
is_some none = false
is_some (some a) = true

-- Open: the sockets for "udp4" and "udp6" at a port are given.
unfoldable pub open_bind : (ℕ → Listened) → (ℕ → Listened) → ℕ → Bind → Opened × Bind
unfolding open_both
open_bind listen4 listen6 port b =
    if is_some b.ipv4 || is_some b.ipv6
    then (failed already_open, b)
    else open_both (listen4 port) listen6 port b

-- Close, with the errors of the two sockets.
unfoldable pub close_bind : Option BindError → Option BindError → Bind → Option BindError × Bind
close_bind e4 e6 b =
    let first : Option BindError = if is_some b.ipv4 then e4 else none in
    (
      if is_some b.ipv6 && not (is_some first) then e6 else first,
      record b { ipv4 = none; ipv6 = none },
    )

-- copy(packet[1:4], reserved[:])
unfoldable pub put_reserved : Reserved → Bytes → Bytes
put_reserved r p = take 1 p ++ (r.0 ∷ r.1 ∷ r.2 ∷ []) ++ drop 4 p

unfoldable pub mark_packet : Option Reserved → Bytes → Bytes
unfolding put_reserved
mark_packet none p = p
mark_packet (some r) p = if ltb 3 (length p) then put_reserved r p else p

unfoldable pub count_tx : ℕ → ℕ → Bind → Bind
count_tx now n b = record b {
  tx_packets = (b.tx_packets + 1) % 2 ^ 64;
  tx_bytes = (b.tx_bytes + n) % 2 ^ 64;
  last_tx = now;
}

-- What Send did: its error, the datagrams on the wire, and the packets, which it changes in place.
pub record Sent : Type 0 where
  pub error : Option BindError
  pub wire : List Bytes
  pub packets : List Bytes
  pub bind : Bind

-- The loop of Send from the i-th packet; `fails i` is the error of its write, at the time `now i`.
unfoldable pub send_packets :
    (ℕ → Option BindError) → (ℕ → ℕ) → Option Reserved → ℕ → List Bytes → Bind → Sent
unfolding mark_packet count_tx
send_packets fails now r i [] b = record { error = none; wire = []; packets = []; bind = b }
send_packets fails now r i (p ∷ ps) b =
    let q = mark_packet r p in
    let rest = send_packets fails now r (suc i) ps (count_tx (now i) (length q) b) in
    elim (fails i) [
      | some e ↦ record { error = some e; wire = []; packets = q ∷ ps; bind = b }
      | none ↦ record rest { wire = q ∷ rest.wire; packets = q ∷ rest.packets }
    ]

-- The socket for a destination.
unfoldable pub socket_for : Dest → Bind → Option ℕ
socket_for dst b = if dst.is6 then b.ipv6 else b.ipv4

-- none is an endpoint of another type.
unfoldable pub send_bind : (ℕ → Option BindError) → (ℕ → ℕ) → Option Dest → List Bytes → Bind → Sent
unfolding send_packets socket_for
send_bind fails now none ps b = record {
  error = some wrong_endpoint_type;
  wire = [];
  packets = ps;
  bind = b;
}
send_bind fails now (some dst) ps b = elim (socket_for dst b) [
  | none ↦ record { error = some no_family; wire = []; packets = ps; bind = b }
  | some s ↦ send_packets fails now (lookup dst.text b.reserved) 0 ps b
]

-- clear(packets[0][1:4])
unfoldable pub clear_reserved : ℕ → Bytes → Bytes
unfolding put_reserved
clear_reserved n buf = if ltb 3 n then put_reserved (0, 0, 0) buf else buf

-- What a read of a socket gives.
pub data Datagram : Type 0 where
  arrives : Bytes → Dest → Datagram
  breaks : BindError → Datagram

-- The result of a receive function: an error, or the buffer with the size and the endpoint.
pub data Received : Type 0 where
  received : (buf : Bytes) → (size : ℕ) → (from : Dest) → Received
  not_received : BindError → Received

unfoldable pub count_rx : ℕ → ℕ → Bind → Bind
count_rx now n b = record b {
  rx_packets = (b.rx_packets + 1) % 2 ^ 64;
  rx_bytes = (b.rx_bytes + n) % 2 ^ 64;
  last_rx = now;
}

-- The closure of `receive`: a datagram that is longer than the buffer is cut.
unfoldable pub receive : Datagram → ℕ → Bytes → Bind → Received × Bind
unfolding clear_reserved count_rx
receive (breaks e) now buf b = (not_received e, b)
receive (arrives content src) now buf b =
    let n = min (length content) (length buf) in
    (received (clear_reserved n (take n content ++ drop n buf)) n src, count_rx now n b)

-- ===== src/Proxy/Trojan/Relay.antt =====
-- trojanUDPRelay of trojan_udp.go: the UDP destinations of one Trojan connection. The goroutine that
-- reads a destination's responses holds a pointer to its association, so that the associations are a
-- store of their own, and `active` maps targets to them. What useMu guards is one step: the write of
-- a packet with its count, the write of a response with its count, and the close with its report.
-- The counters of the outbound and the deadlines are not modelled.
pub mod Closing
pub mod Sound
pub mod Adding
pub mod Sending
pub mod Reported
use proxy_forge.Prelude.{
  ℕ, suc, ◌+◌, Bool, true, false, not, ◌&&◌, Option, none, some, List, [], ◌∷◌, leb, ◌==◌,
  if◌then◌else◌, length, select, Bytes,
}
use proxy_forge.Prelude.Assoc.{bytes_key, number_key, lookup, insert, erase}
use proxy_forge.Proxy.Dial.{second}
use proxy_forge.Proxy.Usage.{ProxyUsage}

abbrev pub max_associations : ℕ
max_associations = 64

pub record Association : Type 0 where
  pub egress : Bytes
  pub target : Bytes
  pub host : Bytes
  pub port : ℕ
  pub closed : Bool
  pub up_bytes : ℕ
  pub dn_bytes : ℕ

-- `reports` are the calls of onUsage, the last one first, each with the association it is about.
pub record Relay : Type 0 where
  pub client_ip : Bytes
  pub username : Bytes
  pub active : List (Bytes × ℕ)
  pub associations : List (ℕ × Association)
  pub next_id : ℕ
  pub reports : List (ℕ × ProxyUsage)

unfoldable pub new_relay : Bytes → Bytes → Relay
new_relay client_ip username = record {
  client_ip = client_ip;
  username = username;
  active = [];
  associations = [];
  next_id = 0;
  reports = [];
}

unfoldable pub usage_of : Relay → Association → ProxyUsage
usage_of r a = record {
  client_ip = r.client_ip;
  username = r.username;
  account_tag = a.egress;
  up_bytes = a.up_bytes;
  down_bytes = a.dn_bytes;
}

unfoldable pub report_usage : ℕ → Association → Relay → Relay
unfolding usage_of
report_usage id a r =
    if a.up_bytes == 0 && a.dn_bytes == 0
    then r
    else record r { reports = (id, usage_of r a) ∷ r.reports }

-- The body of `once`, of an association that is there.
unfoldable pub close_found : ℕ → Option Association → Relay → Relay
unfolding report_usage
close_found id none r = r
close_found id (some a) r =
    if a.closed
    then r
    else report_usage id a
        (record r { associations = insert id (record a { closed = true }) r.associations })

unfoldable pub close_association : ℕ → Relay → Relay
unfolding close_found
close_association id r = close_found id (lookup id r.associations) r

unfoldable pub is_closed : Relay → ℕ → Bool
is_closed r id = elim (lookup id r.associations) [ some a ↦ a.closed | none ↦ true ]

-- The loop that drops closed associations.
unfoldable pub sweep : Relay → List (Bytes × ℕ) → List (Bytes × ℕ)
unfolding is_closed
sweep r = select (λ e. not (is_closed r e.1))

-- Behind the first test of `association`: the target has no open association. `dialed` is the
-- outbound of the connection that dialUDPVia gives, if it gives one.
unfoldable pub add_association : Bytes → Bytes → ℕ → Option Bytes → Relay → Option ℕ × Relay
unfolding sweep
add_association target host port dialed r =
    let swept : Relay = record r { active = sweep r (erase target r.active) } in
    let fresh : Bytes → Association = λ egress. record {
      egress = egress;
      target = target;
      host = host;
      port = port;
      closed = false;
      up_bytes = 0;
      dn_bytes = 0;
    } in
    if leb max_associations (length swept.active) then (none, swept) else elim dialed [
      | none ↦ (none, swept)
      | some egress ↦ (
        some r.next_id,
        record swept {
          active = insert target r.next_id swept.active;
          associations = insert r.next_id (fresh egress) r.associations;
          next_id = suc r.next_id;
        },
      )
    ]

unfoldable pub association : Bytes → Bytes → ℕ → Option Bytes → Relay → Option ℕ × Relay
unfolding add_association is_closed
association target host port dialed r =
    let added = add_association target host port dialed r in
    elim (lookup target r.active) [
      | none ↦ added
      | some id ↦ if not (is_closed r id) then (some id, r) else added
    ]

-- A write on the connection of an association and its count. A closed connection refuses a write;
-- `wrote` is what an open one answers: the count, or none for an error.
unfoldable pub count_up : ℕ → ℕ → Option ℕ → Option Association → Relay → Bool × Relay
count_up id size wrote none r = (false, r)
count_up id size wrote (some a) r =
    let counted : Relay = record r {
      associations = insert id (record a { up_bytes = a.up_bytes + size }) r.associations;
    } in
    if a.closed then (false, r) else elim wrote [
      | none ↦ (false, r)
      | some n ↦ if n == size then (true, counted) else (false, r)
    ]

-- One attempt of `send` with the association it got: a failed one closes it and drops the target.
unfoldable pub write_packet : Bytes → ℕ → ℕ → Option ℕ → Relay → Bool × Relay
unfolding count_up close_association
write_packet target id size wrote r =
    let done = count_up id size wrote (lookup id r.associations) r in
    let closed = close_association id r in
    if done.0 then done else (false, record closed { active = erase target closed.active })

-- What an attempt meets: the answer of the dial, if it dials, and that of the write.
pub record RelayAttempt : Type 0 where
  pub dialed : Option Bytes
  pub wrote : Option ℕ

unfoldable pub attempt_send : Bytes → Bytes → ℕ → ℕ → RelayAttempt → Relay → Option Bool × Relay
unfolding association write_packet
attempt_send target host port size att r =
    let got = association target host port att.dialed r in
    elim (got.0) [
      | none ↦ (none, got.1)
      | some id ↦ let sent = write_packet target id size att.wrote got.1 in (some sent.0, sent.1)
    ]

-- Two attempts; an association that cannot be made ends them. `true` if the packet was sent.
unfoldable pub send : Bytes → Bytes → ℕ → ℕ → RelayAttempt → RelayAttempt → Relay → Bool × Relay
unfolding attempt_send
send target host port size first second r =
    let one = attempt_send target host port size first r in
    let two = attempt_send target host port size second one.1 in
    elim (one.0) [
      | none ↦ (false, one.1)
      | some true ↦ (true, one.1)
      | some false ↦ elim (two.0) [ none ↦ (false, two.1) | some b ↦ (b, two.1) ]
    ]

-- A response of `written` bytes that went to the client, unless the association is closed by then.
unfoldable pub count_down : ℕ → ℕ → Option Association → Relay → Relay
count_down id written none r = r
count_down id written (some a) r = if a.closed then r else record r {
  associations = insert id (record a { dn_bytes = a.dn_bytes + written }) r.associations;
}

unfoldable pub respond : ℕ → ℕ → Relay → Relay
unfolding count_down
respond id written r = count_down id written (lookup id r.associations) r

-- The end of the relay.
unfoldable pub close_all : List (Bytes × ℕ) → Relay → Relay
unfolding close_association
close_all [] r = r
close_all ((target, id) ∷ active) r = close_all active (close_association id r)

unfoldable pub close_relay : Relay → Relay
unfolding close_all
close_relay r = close_all r.active r

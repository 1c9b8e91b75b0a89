-- ===== src/Proxy/Trojan/Relay/Reported.antt =====
-- The end of a Trojan connection's UDP relay: what is open, what is closed, what is reported.
use proxy_forge.Prelude.{
  ℕ, ◌≤◌, ◌≡◌, refl, ap, ◌∙◌, ◌≢◌, inl, inr, Bool, true, false, ◌&&◌, Option, none, some, List, [],
  ◌∷◌, ◌==◌, if◌then◌else◌, Bool-cases, length, All, Bytes, str_eq,
}
use proxy_forge.Prelude.Assoc.{bytes_key, number_key, lookup}
use proxy_forge.Proxy.Trojan.Relay.{
  max_associations, new_relay, usage_of, close_association, association, write_packet, send,
  respond, close_all, close_relay, Association, Relay, RelayAttempt,
}
use proxy_forge.Proxy.Trojan.Relay.Closing.{
  reports_of, due, new_relay-IsSound, close_association-IsSound, IsSound,
}
use proxy_forge.Proxy.Trojan.Relay.Sound.{respond-IsSound}
use proxy_forge.Proxy.Trojan.Relay.Adding.{IsGot, association-IsGot}
use proxy_forge.Proxy.Trojan.Relay.Sending.{
  close_association-open, write_packet-IsSound, send-IsSound,
}

-- The packets of the client, the responses of destinations and the ends of their readers, in any
-- order; a packet is sent in steps between which the others run.
pub data Step (r : Relay) : Relay → Type 0 where
  sends :
      (target host : Bytes) (port size : ℕ) (first second : RelayAttempt)
      → Step r (send target host port size first second r).1
  associates :
      (target host : Bytes) (port : ℕ) (dialed : Option Bytes)
      → Step r (association target host port dialed r).1
  writes :
      (target : Bytes) (id size : ℕ) (wrote : Option ℕ)
      → lookup target r.active ≡ some id
      → Step r (write_packet target id size wrote r).1
  responds : (id written : ℕ) → Step r (respond id written r)
  ends : (id : ℕ) → Step r (close_association id r)

pub data Reaches (r : Relay) : Relay → Type 0 where
  here : Reaches r r
  onward : (p q : Relay) → Reaches r p → Step p q → Reaches r q

association-IsSound :
    (target host : Bytes) (port : ℕ) (dialed : Option Bytes) (r : Relay)
    → IsSound r
    → IsSound (association target host port dialed r).1
association-IsSound target host port dialed r v =
    go (association target host port dialed r) (association-IsGot target host port dialed r v)
  where
    go : (got : Option ℕ × Relay) → IsGot target got → IsSound got.1
    go (none, p) g = g
    go (some id, p) g = g.0

Step-IsSound : (r q : Relay) → Step r q → IsSound r → IsSound q
Step-IsSound r _ (sends target host port size first second) v =
    send-IsSound target host port size first second r v
Step-IsSound r _ (associates target host port dialed) v =
    association-IsSound target host port dialed r v
Step-IsSound r _ (writes target id size wrote e) v = write_packet-IsSound target id size wrote r v e
Step-IsSound r _ (responds id written) v = respond-IsSound id written r v
Step-IsSound r _ (ends id) v = close_association-IsSound id r v

reachable-IsSound : (r q : Relay) → IsSound r → Reaches r q → IsSound q
reachable-IsSound r _ v here = v
reachable-IsSound r q v (onward p _ w s) = Step-IsSound p q s (reachable-IsSound r p v w)

close_all-IsSound : (l : List (Bytes × ℕ)) (r : Relay) → IsSound r → IsSound (close_all l r)
unfolding close_all
close_all-IsSound [] r v = v
close_all-IsSound ((target, id) ∷ l) r v =
    close_all-IsSound l (close_association id r) (close_association-IsSound id r v)

close_all-open :
    (l : List (Bytes × ℕ)) (j : ℕ) (r : Relay) (b : Association)
    → lookup j (close_all l r).associations ≡ some b
    → b.closed ≡ false
    → All (λ e. e.1 ≢ j) l × (lookup j r.associations ≡ some b)
unfolding close_all
close_all-open [] j r b e o = (tt, e)
close_all-open ((target, id) ∷ l) j r b e o =
    let k = close_all-open l j (close_association id r) b e o in
    let h = close_association-open id j r b k.1 o in ((h.0, k.0), h.1)

in_map : (l : List (Bytes × ℕ)) (t : Bytes) (j : ℕ) → lookup t l ≡ some j → ¬ All (λ e. e.1 ≢ j) l
unfolding lookup
in_map [] t j e h = cc e
in_map ((k, i) ∷ l) t j e h = go (str_eq k t) e (λ f. in_map l t j f h.1)
  where
    go : (b : Bool) → (if b then some i else lookup t l) ≡ some j → (lookup t l ≡ some j → ⊥) → ⊥
    go true e rest = h.0 (cc e)
    go false e rest = rest e

-- In whatever order a client's packets, responses and failures come: at most 64 destinations are
-- active at any time; and when the relay ends, every association that it ever made is closed, and
-- the usage of each was reported exactly once, with its final counts, or not at all if it carried no
-- byte.
pub relay_reported :
    (client_ip username : Bytes) (r : Relay) (id : ℕ) (a : Association)
    → Reaches (new_relay client_ip username) r
    → lookup id (close_relay r).associations ≡ some a
    → (length r.active ≤ max_associations)
      × (a.closed ≡ true)
      × (reports_of id (close_relay r).reports
          ≡ (if a.up_bytes == 0 && a.dn_bytes == 0 then [] else usage_of (close_relay r) a ∷ []))
unfolding close_relay due
relay_reported client_ip username r id a w e =
    (v.bounded, shut, last.reported id ∙ ap (due (close_all r.active r)) e ∙ (rw shut refl))
  where
    v : IsSound r
    v = reachable-IsSound (new_relay client_ip username) r (new_relay-IsSound client_ip username) w

    last : IsSound (close_all r.active r)
    last = close_all-IsSound r.active r v

    shut : a.closed ≡ true
    shut = elim (Bool-cases (a.closed)) [
      | inl h ↦ h
      | inr h ↦
          let k = close_all-open r.active id r a e h in
          absurd (in_map r.active a.target id (v.open_active id a k.1 h) k.0)
    ]

-- ===== src/Proxy/Manager/Access.antt =====
-- Who gets an outbound at all.
use proxy_forge.Prelude.{
  ℕ, ◌≡◌, refl, ap, subst, ◌↔◌, Bool, true, false, Option, none, some, List, [], ◌∷◌, arith, length,
  Bytes, str_eq, str_eq_iff, trim_space, is_empty,
}
use proxy_forge.Prelude.Assoc.{bytes_key, lookup}
use proxy_forge.Proxy.Manager.State.{egress_of, Float64, Tunnel, SlotBinding, Manager}
use proxy_forge.Proxy.Manager.Resolve.{
  required_password_matches, allow, resolve_slot, resolve_named, resolve_trimmed, resolve,
}
use proxy_forge.Proxy.Dial.{Egress}
use proxy_forge.Proxy.Manager.Select.{note_pick}

-- `requiredPasswordMatches` accepts the configured password and nothing else; an empty one is
-- accepted from nobody.
pub required_password_matches_iff :
    (want got : Bytes)
    → (required_password_matches want got ≡ true) ↔ ((want ≡ got) × (is_empty want ≡ false))
unfolding required_password_matches
required_password_matches_iff want got = (
  λ h. ground (arith, str_eq_iff want got),
  λ h.
      let same : str_eq want got ≡ true = (str_eq_iff want got).1 h.0 in
      let lens : length want ≡ length got = ap length h.0 in
      let full : is_empty got ≡ false = subst (λ t. is_empty t ≡ false) h.0 h.1 in ground arith,
)

-- The password that a slot asks for, if the username names one.
abbrev slot_matches : Option SlotBinding → Bytes → Bool
slot_matches none p = false
slot_matches (some slot) p = required_password_matches slot.password p

resolve_named_refused :
    (fl : Float64) (now : ℕ) (u p : Bytes) (m : Manager)
    → required_password_matches m.password p ≡ false
    → slot_matches (lookup u m.slots) p ≡ false
    → resolve_named fl now u p m ≡ ([], m)
unfolding resolve_named
resolve_named_refused fl now u p m wrong wrong_slot =
    go (lookup u m.slots) (lookup u m.tunnels) wrong_slot
  where
    go :
        (o : Option SlotBinding) (t : Option Tunnel)
        → slot_matches o p ≡ false
        → (let out : List Egress × Manager = elim o [
          | some slot ↦
              allow
                (required_password_matches slot.password p)
                (resolve_slot fl now slot.account_tag m)
                m
          | none ↦ elim t [
            | some x ↦
                allow
                  (required_password_matches m.password p)
                  (egress_of x ∷ [], note_pick now u m)
                  m
            | none ↦ ([], m)
          ]
        ] in
            out ≡ ([], m))
    go (some slot) t e = rw e
    go none (some x) e = rw wrong
    go none none e = refl

-- Credentials that match neither the proxy password nor the password of the slot they name get no
-- outbound, and the attempt leaves no trace: cursor, sticky assignments and counters stay.
pub resolve_refused :
    (fl : Float64) (now : ℕ) (username password client_ip : Bytes) (m : Manager)
    → required_password_matches m.password (trim_space password) ≡ false
    → slot_matches (lookup (trim_space username) m.slots) (trim_space password) ≡ false
    → resolve fl now username password client_ip m ≡ ([], m)
unfolding resolve resolve_trimmed
resolve_refused fl now username password client_ip m wrong wrong_slot =
    rw wrong
      (ground (arith, resolve_named_refused fl now (trim_space username) (trim_space password) m))

-- ===== src/Proxy/Session.antt =====
-- The state of one client connection while a handler of mixed.go runs: the bytes that the buffered
-- reader still has, the answers that were written, and the activity lines. Deadlines are not in it.
use proxy_forge.Prelude.{
  ℕ, ◌≡◌, refl, ap, ◌∙◌, Bool, true, false, Option, none, some, List, [], ◌∷◌, ◌++◌, Bytes,
}
use proxy_forge.Io.{Reader, Result, ok, err}
use proxy_forge.Io.Writers.{write_once, Writer}
use proxy_forge.Proxy.Net.{IpText}
use proxy_forge.Proxy.Dial.{Dialer, dial_via, Egress, Attempt, Dialed}

-- `activity.authFail` and `activity.dialFail`, and the dials made, latest last.
pub data Event : Type 0 where
  auth_fail : Bytes → Bytes → Event
  dial_fail : Bytes → Bytes → Bytes → Event
  dialled : List Attempt → Event

pub record Session : Type 0 where
  pub input : Bytes
  pub out : Writer
  pub events : List Event

-- The call of `relay` that ends a handler which served its client.
pub record Relay : Type 0 where
  pub conn : ℕ
  pub egress : Egress
  pub username : Bytes
  pub target : Bytes
  pub protocol : Bytes
  pub pending : Bytes

-- What a handler is given: the credentials' resolver, the outbounds, the client's address, the time.
pub record Server : Type 0 where
  pub net : IpText
  pub resolve : Bytes → Bytes → Bytes → List (Option Egress)
  pub dial : Dialer
  pub client_ip : Bytes
  pub now : ℕ

-- A handler that goes on with a value, or has returned.
abbrev pub Handler : Type 0 → Type 0
Handler A = Session → Option A × Session

infixl 5 ◌>>=◌ ◌>>◌
unfoldable pub ◌>>=◌ : {A B : Type 0} → Handler A → (A → Handler B) → Handler B
◌>>=◌ m f s = let (r, s') = m s in elim r [ some a ↦ f a s' | none ↦ (none, s') ]

abbrev pub ◌>>◌ : {B : Type 0} → Handler (Unit {0}) → Handler B → Handler B
m >> k = m >>= λ _. k

abbrev pub return : {A : Type 0} → A → Handler A
return a s = (some a, s)

-- A bare `return` of the Go handler.
abbrev pub leave : {A : Type 0} → Handler A
leave s = (none, s)

abbrev pub require : Bool → Handler (Unit {0})
require true s = (some tt, s)
require false s = (none, s)

-- What `input` holds after a read; on an error the handler returns.
after_read : {A : Type 0} → Session → Result (A × Bytes) → Option A × Session
after_read s (ok (a, rest)) = (some a, record s { input = rest })
after_read s (err e) = (none, record s { input = [] })

unfoldable pub read : {A : Type 0} → Reader A → Handler A
unfolding after_read
read m s = after_read s (m s.input)

after_write : Session → Result ℕ × Writer → Option (Unit {0}) × Session
after_write s (ok n, w) = (some tt, record s { out = w })
after_write s (err e, w) = (none, record s { out = w })

-- `if _, err := client.Write(p); err != nil { return }`
unfoldable pub write_or_leave : Bytes → Handler (Unit {0})
unfolding after_write
write_or_leave p s = after_write s (write_once p s.out)

-- `_, _ = client.Write(p)`
unfoldable pub write_anyway : Bytes → Handler (Unit {0})
write_anyway p s = (some tt, record s { out = (write_once p s.out).1 })

unfoldable pub emit : Event → Handler (Unit {0})
emit e s = (some tt, record s { events = s.events ++ e ∷ [] })

-- The egress that a failed dial names: none of them, as the loop returns nil with an error.
module _ (srv : Server) where
  unfoldable pub dial_target : List (Option Egress) → Bytes → Handler Dialed
  dial_target egresses target s =
      let (r, made) = dial_via srv.dial egresses target srv.now in
      (some r, record s { events = s.events ++ dialled made ∷ [] })

-- proxySession: a username and its outbounds.
abbrev pub ProxySession : Type 0
ProxySession = Bytes × List (Option Egress)

unfoldable pub has_any {ℓ} : {A : Type ℓ} → List A → Bool
has_any [] = false
has_any (x ∷ xs) = true

-- Inversion of a step that goes on.
pub >>=-some :
    {A B : Type 0} (m : Handler A) (f : A → Handler B) (s s' : Session) (b : B)
    → (m >>= f) s ≡ (some b, s')
    → (a : A) × (t : Session) × (m s ≡ (some a, t)) × (f a t ≡ (some b, s'))
unfolding ◌>>=◌
>>=-some {A} {B} m f s s' b h = go (m s) refl h
  where
    go :
        (r : Option A × Session)
        → m s ≡ r
        → (let out : Option B × Session = elim r.0 [ some a ↦ f a r.1 | none ↦ (none, r.1) ] in
            out ≡ (some b, s'))
        → (a : A) × (t : Session) × (m s ≡ (some a, t)) × (f a t ≡ (some b, s'))
    go (some a, t) e p = (a, t, e, p)
    go (none, t) e p = cc

-- A step that goes on, taken.
pub >>=_some :
    {A B : Type 0} (m : Handler A) (f : A → Handler B) (s : Session) {a : A} {t : Session}
    → m s ≡ (some a, t)
    → (m >>= f) s ≡ f a t
unfolding ◌>>=◌
>>=_some {A} {B} m f s e =
    let g : Option A × Session → Option B × Session =
      λ r. elim r.0 [ some a ↦ f a r.1 | none ↦ (none, r.1) ] in
    ap g e

pub require-true :
    (b : Bool) (s : Session) (t : Session) → require b s ≡ (some tt, t) → (b ≡ true) × (s ≡ t)
require-true true s t h = (refl, ap (λ (p : Option (Unit {0}) × Session). p.1) h)
require-true false s t h = cc

-- A read writes nothing.
pub read_out : {A : Type 0} (m : Reader A) (s : Session) → (read m s).1.out ≡ s.out
unfolding read after_read
read_out {A} m s = by_result (m s.input)
  where
    by_result : (r : Result (A × Bytes)) → (after_read s r).1.out ≡ s.out
    by_result (ok (a, rest)) = refl
    by_result (err e) = refl

-- A read that goes on has read.
pub read_ok :
    {A : Type 0} (m : Reader A) (s t : Session) (a : A)
    → read m s ≡ (some a, t)
    → (rest : Bytes) × (m s.input ≡ ok (a, rest))
unfolding read after_read
read_ok {A} m s t a h = by_result (m s.input) refl h
  where
    by_result :
        (r : Result (A × Bytes))
        → m s.input ≡ r
        → after_read s r ≡ (some a, t)
        → (rest : Bytes) × (m s.input ≡ ok (a, rest))
    by_result (ok (b, rest)) e q =
        let same : b ≡ a = cc q in (rest, e ∙ ap (λ x. ok (x, rest)) same)
    by_result (err x) e q = cc q

-- What a read leaves is the input of what follows.
pub read_input :
    {A : Type 0} (m : Reader A) (s t : Session) (a : A)
    → read m s ≡ (some a, t)
    → m s.input ≡ ok (a, t.input)
unfolding read after_read
read_input {A} m s t a h = by_result (m s.input) refl h
  where
    by_result :
        (r : Result (A × Bytes))
        → m s.input ≡ r
        → after_read s r ≡ (some a, t)
        → m s.input ≡ ok (a, t.input)
    by_result (ok (b, rest)) e q =
        let same : b ≡ a = cc q in
        let left : rest ≡ t.input = ap (λ (p : Option A × Session). p.1.input) q in
        e ∙ cc (same, left)
    by_result (err x) e q = cc q

-- A write reads nothing.
pub write_input :
    (p : Bytes) (s t : Session) → write_or_leave p s ≡ (some tt, t) → s.input ≡ t.input
unfolding write_or_leave after_write
write_input p s t h = by_result (write_once p s.out) h
  where
    by_result : (r : Result ℕ × Writer) → after_write s r ≡ (some tt, t) → s.input ≡ t.input
    by_result (ok n, w) q = ap (λ (p : Option (Unit {0}) × Session). p.1.input) q
    by_result (err e, w) q = cc q

-- The dial that a handler makes is the one of the failover loop.
pub dial_target_lem :
    (srv : Server) (egresses : List (Option Egress)) (target : Bytes) (s t : Session) (d : Dialed)
    → dial_target srv egresses target s ≡ (some d, t)
    → (dial_via srv.dial egresses target srv.now).0 ≡ d
unfolding dial_target
dial_target_lem srv egresses target s t d h = cc

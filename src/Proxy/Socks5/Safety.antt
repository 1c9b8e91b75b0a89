-- ===== src/Proxy/Socks5/Safety.antt =====
-- A SOCKS5 client is relayed only with the credentials that it has sent, and only to what was dialled
-- over their outbounds.
use mathlib.Core.Path.{ap₂}
use proxy_forge.Prelude.{
  ℕ, ◌≡◌, refl, sym, ap, ◌∙◌, subst, inl, inr, Bool, true, false, Option, some, List, [], ◌∷◌, ◌++◌,
  arith, ◌==◌, if◌then◌else◌, Bool-cases, Bytes, codes,
}
use proxy_forge.Io.{read_byte, read_full_split, ok}
use proxy_forge.Proxy.Dial.{
  dial_via, Egress, Dialed, connected, no_egress, unsupported_network, failed, deadline_exceeded,
  no_usable_egress,
}
use proxy_forge.Proxy.Session.{
  ◌>>=◌, ◌>>◌, return, leave, require, read, write_or_leave, write_anyway, emit, dial_target,
  ProxySession, has_any, >>=-some, require-true, read_input, write_input, dial_target_lem,
  auth_fail, dial_fail, Session, Relay, Server,
}
use proxy_forge.Proxy.Socks5.Service.{field, greeting, credentials, served}
use proxy_forge.Proxy.Socks5.{
  bytes_contains, reply_bytes, socks5_reply, read_field, socks5_auth, socks5_methods,
  socks5_request, socks5_answer, socks5_connect, handle_socks5,
}

read_byte_split : (s rest : Bytes) (b : ℕ) → read_byte s ≡ ok (b, rest) → s ≡ b ∷ rest
unfolding read_byte
read_byte_split [] rest b h = cc (h)
read_byte_split (a ∷ s) rest b h = ground (arith, h)

read_field_split : (s x rest : Bytes) → read_field s ≡ ok (x, rest) → s ≡ field x ++ rest
unfolding read_field read_byte
read_field_split [] x rest h = cc (h)
read_field_split (n ∷ s) x rest h =
    let (split, size) = read_full_split n s x rest h in
    ap₂ (λ (a : ℕ) (t : Bytes). a ∷ t) (sym size) split

-- A version byte that was required.
versioned :
    (s s1 s2 : Session) (ver n : ℕ)
    → s.input ≡ ver ∷ s1.input
    → (ver == n) ≡ true
    → s1 ≡ s2
    → s.input ≡ n ∷ s2.input
versioned s s1 s2 ver n first good same =
    let e : ver ≡ n = ground (arith, good) in
    first ∙ ap₂ (λ (a : ℕ) (t : Session). a ∷ t.input) e same

module _ (srv : Server) where
  -- The outbounds are the resolver's answer to these credentials, and there is one.
  abbrev pub IsResolved : Bytes → Bytes → List (Option Egress) → Type 0
  IsResolved username password egresses =
      (egresses ≡ srv.resolve username password srv.client_ip) × (has_any egresses ≡ true)

  auth_end :
      (username password : Bytes) (egresses : List (Option Egress)) (s s' : Session)
      (p : ProxySession)
      → egresses ≡ srv.resolve username password srv.client_ip
      → (if has_any egresses
            then write_anyway (0x01 ∷ 0x00 ∷ []) >> return (username, egresses)
            else emit (auth_fail username (codes "SOCKS5"))
              >> write_anyway (0x01 ∷ 0x01 ∷ [])
              >> leave)
          s
        ≡ (some p, s')
      → (p.0 ≡ username) × IsResolved username password p.1
  unfolding ◌>>=◌ write_anyway emit
  auth_end username password egresses s s' p same h = elim (Bool-cases (has_any egresses)) [
    | inl some_egress ↦
        let answered : (write_anyway (0x01 ∷ 0x00 ∷ []) >> return (username, egresses)) s
            ≡ (some p, s') =
          rw some_egress at h in
        let same_user : username ≡ p.0 = cc answered in
        let same_egresses : egresses ≡ p.1 = cc answered in
        (sym same_user, subst (IsResolved username password) same_egresses (same, some_egress))
    | inr no_one ↦ cc (rw no_one at h)
  ]

  offer_answered :
      (offered : Bool) (s t : Session)
      → (if offered
            then write_or_leave (0x05 ∷ 0x02 ∷ [])
            else write_anyway (0x05 ∷ 0xff ∷ []) >> leave)
          s
        ≡ (some tt, t)
      → (offered ≡ true) × (s.input ≡ t.input)
  unfolding ◌>>=◌ write_anyway
  offer_answered true s t h = (refl, write_input (0x05 ∷ 0x02 ∷ []) s t h)
  offer_answered false s t h = cc (h)

  -- A greeting that the handler goes on from.
  socks5_methods-greeting :
      (s t : Session)
      → socks5_methods srv s ≡ (some tt, t)
      → (methods : Bytes) × (bytes_contains methods 0x02 ≡ true)
        × (s.input ≡ greeting methods t.input)
  unfolding socks5_methods
  socks5_methods-greeting s t h =
      let (ver, s1, e1, h1) = >>=-some (read read_byte) _ s t tt h in
      let (_, s2, e2, h2) = >>=-some (require (ver == 0x05)) _ s1 t tt h1 in
      let (methods, s3, e3, h3) = >>=-some (read read_field) _ s2 t tt h2 in
      let (good, same) = require-true (ver == 0x05) s1 s2 e2 in
      let first = read_byte_split s.input s1.input ver (read_input read_byte s s1 ver e1) in
      let second =
        read_field_split s2.input methods s3.input (read_input read_field s2 s3 methods e3) in
      let (offered, kept) = offer_answered (bytes_contains methods 0x02) s3 t h3 in
      (
        methods,
        offered,
        versioned s s1 s2 ver 0x05 first good same
            ∙ ap (◌∷◌ 0x05) second
            ∙ ap (greeting methods) kept,
      )

  -- The client has sent the credentials that were resolved.
  socks5_auth-credentials :
      (s s' : Session) (p : ProxySession)
      → socks5_auth srv s ≡ (some p, s')
      → (password : Bytes) × (rest : Bytes) × (s.input ≡ credentials p.0 password rest)
        × IsResolved p.0 password p.1
  unfolding socks5_auth
  socks5_auth-credentials s s' p h =
      let (ver, s1, e1, h1) = >>=-some (read read_byte) _ s s' p h in
      let (_, s2, e2, h2) = >>=-some (require (ver == 0x01)) _ s1 s' p h1 in
      let (username, s3, e3, h3) = >>=-some (read read_field) _ s2 s' p h2 in
      let (password, s4, e4, h4) = >>=-some (read read_field) _ s3 s' p h3 in
      let (user, granted) =
        auth_end username password (srv.resolve username password srv.client_ip) s4 s' p refl h4 in
      let (good, same) = require-true (ver == 0x01) s1 s2 e2 in
      let first = read_byte_split s.input s1.input ver (read_input read_byte s s1 ver e1) in
      let second =
        read_field_split s2.input username s3.input (read_input read_field s2 s3 username e3) in
      let third =
        read_field_split s3.input password s4.input (read_input read_field s3 s4 password e4) in
      let sent : s.input ≡ credentials username password s4.input =
        versioned s s1 s2 ver 0x01 first good same
        ∙ ap (◌∷◌ 0x01) second
        ∙ ap (λ (t : Bytes). 0x01 ∷ (field username ++ t)) third in
      (
        password,
        s4.input,
        sent ∙ ap (λ (u : Bytes). credentials u password s4.input) (sym user),
        subst (λ u. IsResolved u password p.1) (sym user) granted,
      )

  -- A dial without a connection is answered by a reply, and the handler returns.
  refused :
      (username target : Bytes) (s s' : Session) (r : Relay)
      → (emit (dial_fail username target (codes "SOCKS5")) >> socks5_reply 0x05 >> leave) s
        ≡ (some r, s')
      → ⊥
  unfolding ◌>>=◌ emit socks5_reply write_anyway
  refused username target s s' r h = cc

  refused_command : (s s' : Session) (r : Relay) → (socks5_reply 0x07 >> leave) s ≡ (some r, s') → ⊥
  unfolding ◌>>=◌ socks5_reply write_anyway
  refused_command s s' r h = cc

  abbrev pub IsServed : ProxySession → Bytes → Dialed → Relay → Type 0
  IsServed p target d r = (r.username ≡ p.0) × (r.target ≡ target) × (d ≡ connected r.conn r.egress)

  answer-relay :
      (p : ProxySession) (target : Bytes) (d : Dialed) (s s' : Session) (r : Relay)
      → socks5_answer srv p target d s ≡ (some r, s')
      → IsServed p target d r
  unfolding socks5_answer
  answer-relay (username, egresses) target (connected conn eg) s s' r h =
      let (_, t, e, q) = >>=-some (write_or_leave (reply_bytes 0x00)) _ s s' r h in
      (cc q, cc q, cc q)
  answer-relay (username, egresses) target no_egress s s' r h =
      absurd (refused username target s s' r h)
  answer-relay (username, egresses) target unsupported_network s s' r h =
      absurd (refused username target s s' r h)
  answer-relay (username, egresses) target (failed e) s s' r h =
      absurd (refused username target s s' r h)
  answer-relay (username, egresses) target deadline_exceeded s s' r h =
      absurd (refused username target s s' r h)
  answer-relay (username, egresses) target no_usable_egress s s' r h =
      absurd (refused username target s s' r h)

  connect-relay :
      (p : ProxySession) (cmd : ℕ) (target : Bytes) (s s' : Session) (r : Relay)
      → socks5_connect srv p cmd target s ≡ (some r, s')
      → (cmd ≡ 0x01) × IsServed p target (dial_via srv.dial p.1 target srv.now).0 r
  unfolding socks5_connect
  connect-relay (username, egresses) cmd target s s' r h = elim (Bool-cases (cmd == 0x01)) [
    | inl connects ↦
        let (d, t, e, q) = >>=-some (dial_target srv egresses target) _ s s' r (rw connects at h) in
        let dialled : (dial_via srv.dial egresses target srv.now).0 ≡ d =
          dial_target_lem srv egresses target s t d e in
        (
          ground arith,
          subst (λ x. IsServed (username, egresses) target x r) (sym dialled)
              (answer-relay (username, egresses) target d t s' r q),
        )
    | inr other ↦ absurd (refused_command s s' r (rw other at h))
  ]

  -- A SOCKS5 client is served only if it has sent a greeting that offers method 2 and then a username
  -- and a password for which the resolver gives at least one outbound; it is served in that username, and what it is
  -- relayed to is the connection that the dial over exactly those outbounds returned for the target
  -- of the relay.
  pub handle_socks5_authenticated :
      (s s' : Session) (r : Relay)
      → handle_socks5 srv s ≡ (some r, s')
      → (methods : Bytes) × (password : Bytes) × (rest : Bytes) × (egresses : List (Option Egress))
        × (bytes_contains methods 0x02 ≡ true)
        × (s.input ≡ greeting methods (credentials r.username password rest))
        × IsResolved r.username password egresses
        × ((dial_via srv.dial egresses r.target srv.now).0 ≡ connected r.conn r.egress)
  unfolding handle_socks5
  handle_socks5_authenticated s s' r h =
      let (_, s1, e1, h1) = >>=-some (socks5_methods srv) _ s s' r h in
      let (p, s2, e2, h2) = >>=-some (socks5_auth srv) _ s1 s' r h1 in
      let (q, s3, e3, h3) = >>=-some (socks5_request srv) _ s2 s' r h2 in
      let (_, served) = connect-relay p q.0 q.1 s3 s' r h3 in
      let (methods, offered, greeted) = socks5_methods-greeting s s1 e1 in
      let (password, rest, sent, granted) = socks5_auth-credentials s1 s2 p e2 in
      (
        methods,
        password,
        rest,
        p.1,
        offered,
        greeted
            ∙ ap (greeting methods)
                (sent ∙ ap (λ (u : Bytes). credentials u password rest) (sym served.0)),
        subst (λ u. IsResolved u password p.1) (sym served.0) granted,
        subst (λ t. (dial_via srv.dial p.1 t srv.now).0 ≡ connected r.conn r.egress) (sym served.1)
            served.2,
      )

-- ===== src/Proxy/Http/Authorized.antt =====
-- Whom mixed.go's HTTP handler serves, and what it passes on.
use proxy_forge.Prelude.{
  ◌≡◌, refl, ◌∙◌, subst, inl, inr, Bool, true, false, not, Option, none, some, [], if◌then◌else◌,
  Bool-cases, Bytes, codes, str_eq, is_empty,
}
use proxy_forge.Prelude.Assoc.{bytes_key, lookup, erase, lookup-erase}
use proxy_forge.Io.{ok}
use proxy_forge.Proxy.Dial.{
  usable, dial_via, Dialed, connected, no_egress, unsupported_network, failed, deadline_exceeded,
  no_usable_egress,
}
use proxy_forge.Proxy.Session.{
  Handler, ◌>>=◌, ◌>>◌, return, leave, require, read, write_or_leave, write_anyway, emit,
  dial_target, ProxySession, has_any, >>=-some, read_ok, dial_target_lem, auth_fail, Session, Relay,
  Server,
}
use proxy_forge.Proxy.Http.{
  header_get, header_del, response_407, response_200, with_port, proxy_authorization,
  proxy_connection, relay_of, basic_credentials, http_auth_session, bad_gateway, connect_answer,
  http_connect, stripped, forward_answer, http_forward, http_serve, handle_http, Request, HttpText,
  Service, tunnelled, forwarded,
}

module _ (srv : Server) (http : HttpText) where
  -- Credentials that a request carries and that the resolver accepts with an outbound at least.
  abbrev pub IsAccepted : Request → ProxySession → Type 0
  IsAccepted req p =
      (password : Bytes) × (basic_credentials srv http (header_get proxy_authorization req)
        ≡ some (p.0, password))
      × (p.1 ≡ srv.resolve p.0 password srv.client_ip)
      × (has_any p.1 ≡ true)

  abbrev pub IsDialled : ProxySession → Relay → Type 0
  IsDialled p r =
      (r.username ≡ p.0) × ((dial_via srv.dial p.1 r.target srv.now).0 ≡ connected r.conn r.egress)

  -- A tunnel, or a request that was passed on without the client's proxy credentials.
  abbrev pub IsOver : ProxySession → Service → Type 0
  IsOver p (tunnelled r) = IsDialled p r
  IsOver p (forwarded r req) =
      IsDialled p r
      × (lookup proxy_authorization req.header ≡ none)
      × (lookup proxy_connection req.header ≡ none)

  auth_session-IsAccepted :
      (req : Request) (p : ProxySession) (s s' : Session)
      → http_auth_session srv http req s ≡ (some (some p), s')
      → IsAccepted req p
  unfolding http_auth_session emit ◌>>=◌
  auth_session-IsAccepted req p s s' h =
      by_credentials (basic_credentials srv http (header_get proxy_authorization req)) refl h
    where
      accepted : Bytes → Bytes → Bool → Handler (Option ProxySession)
      accepted user pass t =
          if t
          then return (some (user, srv.resolve user pass srv.client_ip))
          else emit (auth_fail user (codes "HTTP")) >> return none

      by_resolver :
          (user pass : Bytes) (t : Bool)
          → basic_credentials srv http (header_get proxy_authorization req) ≡ some (user, pass)
          → has_any (srv.resolve user pass srv.client_ip) ≡ t
          → accepted user pass t s ≡ (some (some p), s')
          → IsAccepted req p
      by_resolver user pass true e some_egress q =
          let same : (user, srv.resolve user pass srv.client_ip) ≡ p = cc q in
          subst (IsAccepted req) same (pass, e, refl, some_egress)
      by_resolver user pass false e no_one q = cc q

      by_credentials :
          (o : Option (Bytes × Bytes))
          → basic_credentials srv http (header_get proxy_authorization req) ≡ o
          → (let m : Handler (Option ProxySession) = elim o [
            | none ↦ emit (auth_fail [] (codes "HTTP")) >> return none
            | some (user, pass) ↦ accepted user pass (has_any (srv.resolve user pass srv.client_ip))
          ] in
              m s ≡ (some (some p), s'))
          → IsAccepted req p
      by_credentials none e q = cc q
      by_credentials (some (user, pass)) e q =
          by_resolver user pass (has_any (srv.resolve user pass srv.client_ip)) e refl q

  no_gateway :
      (username target : Bytes) (s s' : Session) (end : Service)
      → bad_gateway srv http username target s ≡ (some end, s')
      → ⊥
  unfolding bad_gateway emit write_anyway ◌>>=◌
  no_gateway username target s s' end h = cc h

  stripped_clean :
      (req : Request)
      → (lookup proxy_authorization (stripped srv http req).header ≡ none)
        × (lookup proxy_connection (stripped srv http req).header ≡ none)
  unfolding stripped header_del str_eq
  stripped_clean req =
      let first = erase proxy_authorization req.header in
      (
        lookup-erase proxy_connection proxy_authorization first
            ∙ lookup-erase proxy_authorization proxy_authorization req.header,
        lookup-erase proxy_connection proxy_connection first,
      )

  connect_answer-IsOver :
      (p : ProxySession) (target : Bytes) (d : Dialed) (s s' : Session) (end : Service)
      → (dial_via srv.dial p.1 target srv.now).0 ≡ d
      → connect_answer srv http p target d s ≡ (some end, s')
      → IsOver p end
  unfolding connect_answer
  connect_answer-IsOver p target (connected conn eg) s s' end made h =
      let (_, t, e, q) = >>=-some (write_or_leave response_200) _ s s' end h in
      let same : tunnelled (relay_of p target conn eg t) ≡ end = cc q in
      subst (IsOver p) same (refl, made)
  connect_answer-IsOver p target no_egress s s' end made h =
      absurd (no_gateway p.0 target s s' end h)
  connect_answer-IsOver p target unsupported_network s s' end made h =
      absurd (no_gateway p.0 target s s' end h)
  connect_answer-IsOver p target (failed x) s s' end made h =
      absurd (no_gateway p.0 target s s' end h)
  connect_answer-IsOver p target deadline_exceeded s s' end made h =
      absurd (no_gateway p.0 target s s' end h)
  connect_answer-IsOver p target no_usable_egress s s' end made h =
      absurd (no_gateway p.0 target s s' end h)

  forward_answer-IsOver :
      (p : ProxySession) (req : Request) (target : Bytes) (d : Dialed) (s s' : Session)
      (end : Service)
      → (dial_via srv.dial p.1 target srv.now).0 ≡ d
      → forward_answer srv http p req target d s ≡ (some end, s')
      → IsOver p end
  unfolding forward_answer
  forward_answer-IsOver p req target (connected conn eg) s s' end made h =
      let (_, t, e, q) =
        >>=-some (require (http.written conn (stripped srv http req))) _ s s' end h in
      let same : forwarded (relay_of p target conn eg t) (stripped srv http req) ≡ end = cc q in
      let (no_credentials, no_connection) = stripped_clean req in
      subst (IsOver p) same ((refl, made), no_credentials, no_connection)
  forward_answer-IsOver p req target no_egress s s' end made h =
      absurd (no_gateway p.0 target s s' end h)
  forward_answer-IsOver p req target unsupported_network s s' end made h =
      absurd (no_gateway p.0 target s s' end h)
  forward_answer-IsOver p req target (failed x) s s' end made h =
      absurd (no_gateway p.0 target s s' end h)
  forward_answer-IsOver p req target deadline_exceeded s s' end made h =
      absurd (no_gateway p.0 target s s' end h)
  forward_answer-IsOver p req target no_usable_egress s s' end made h =
      absurd (no_gateway p.0 target s s' end h)

  connect-IsOver :
      (p : ProxySession) (host : Bytes) (s s' : Session) (end : Service)
      → http_connect srv http p host s ≡ (some end, s')
      → IsOver p end
  unfolding http_connect
  connect-IsOver p host s s' end h =
      let target = with_port host (codes ":443") in
      let (d, t, e, q) = >>=-some (dial_target srv p.1 target) _ s s' end h in
      connect_answer-IsOver p target d t s' end (dial_target_lem srv p.1 target s t d e) q

  forward-IsOver :
      (p : ProxySession) (req : Request) (s s' : Session) (end : Service)
      → http_forward srv http p req s ≡ (some end, s')
      → IsOver p end
  unfolding http_forward
  forward-IsOver p req s s' end h =
      let target = with_port (if is_empty req.host then req.url_host else req.host) (codes ":80") in
      let (d, t, e, q) = >>=-some (dial_target srv p.1 target) _ s s' end h in
      forward_answer-IsOver p req target d t s' end (dial_target_lem srv p.1 target s t d e) q

  refused_407 :
      (s s' : Session) (end : Service) → (write_anyway response_407 >> leave) s ≡ (some end, s') → ⊥
  unfolding write_anyway ◌>>=◌
  refused_407 s s' end h = cc h

  serve_nobody :
      (req : Request) (s s' : Session) (end : Service)
      → http_serve srv http req none s ≡ (some end, s')
      → ⊥
  unfolding http_serve
  serve_nobody req s s' end h = refused_407 s s' end h

  serve-IsOver :
      (req : Request) (p : ProxySession) (s s' : Session) (end : Service)
      → http_serve srv http req (some p) s ≡ (some end, s')
      → IsOver p end
  unfolding http_serve
  serve-IsOver req p s s' end h = elim (Bool-cases (not (has_any p.1))) [
    | inl no_one ↦ absurd (refused_407 s s' end (rw no_one at h))
    | inr usable ↦ elim (Bool-cases (str_eq req.method (codes "CONNECT"))) [
      | inl connects ↦ connect-IsOver p req.host s s' end (rw (usable, connects) at h)
      | inr other ↦ forward-IsOver p req s s' end (rw (usable, other) at h)
    ]
  ]

  -- An HTTP client is served only if its request carried Basic credentials that the resolver accepts
  -- with at least one outbound, in that user's name and over the connection that the dial over exactly
  -- those outbounds returned; and a request that is passed on has lost the client's proxy credentials
  -- and its Proxy-Connection header.
  pub handle_http-IsAccepted :
      (s s' : Session) (end : Service)
      → handle_http srv http s ≡ (some end, s')
      → (req : Request) × (rest : Bytes) × (p : ProxySession) × (http.read_http s.input
          ≡ ok (req, rest))
        × IsAccepted req p
        × IsOver p end
  unfolding handle_http
  handle_http-IsAccepted s s' end h =
      let (req, s1, e1, h1) = >>=-some (read http.read_http) _ s s' end h in
      let (o, s2, e2, h2) = >>=-some (http_auth_session srv http req) _ s1 s' end h1 in
      let (rest, got) = read_ok http.read_http s s1 req e1 in by_session req s1 s2 rest o got e2 h2
    where
      by_session :
          (req : Request) (s1 s2 : Session) (rest : Bytes) (o : Option ProxySession)
          → http.read_http s.input ≡ ok (req, rest)
          → http_auth_session srv http req s1 ≡ (some o, s2)
          → http_serve srv http req o s2 ≡ (some end, s')
          → (req : Request) × (rest : Bytes) × (p : ProxySession) × (http.read_http s.input
              ≡ ok (req, rest))
            × IsAccepted req p
            × IsOver p end
      by_session req s1 s2 rest none got e q = absurd (serve_nobody req s2 s' end q)
      by_session req s1 s2 rest (some p) got e q =
          (req, rest, p, got, auth_session-IsAccepted req p s1 s2 e, serve-IsOver req p s2 s' end q)

-- ===== src/Proxy/Http.antt =====
-- `handleHTTP`, `httpAuthSession`, `httpConnect` and `httpForward` of mixed.go. What net/http and
-- encoding/base64 do with the bytes of a request is a parameter.
pub mod Authorized
use proxy_forge.Prelude.{
  ℕ, Bool, not, Option, none, some, List, [], ◌∷◌, ◌++◌, ◌==◌, if◌then◌else◌, drop, Bytes, codes,
  str_eq, has_prefix, contains, is_empty,
}
use proxy_forge.Prelude.Assoc.{bytes_key, lookup, erase}
use proxy_forge.Io.{Reader}
use proxy_forge.Proxy.Dial.{Egress, Dialed, connected}
use proxy_forge.Proxy.Session.{
  Handler, ◌>>=◌, ◌>>◌, return, leave, require, read, write_or_leave, write_anyway, emit,
  dial_target, ProxySession, has_any, auth_fail, dial_fail, Session, Relay, Server,
}

-- http.Request: its header by canonical names.
pub record Request : Type 0 where
  pub method : Bytes
  pub host : Bytes
  pub url_host : Bytes
  pub request_uri : Bytes
  pub header : List (Bytes × List Bytes)

-- http.ReadRequest, base64's StdEncoding.DecodeString, and whether Request.Write succeeds on a
-- connection.
pub record HttpText : Type 0 where
  pub read_http : Reader Request
  pub decode_base64 : Bytes → Option Bytes
  pub written : ℕ → Request → Bool

-- Header.Get and Header.Del
abbrev pub first_value : Option (List Bytes) → Bytes
first_value none = []
first_value (some []) = []
first_value (some (v ∷ vs)) = v

unfoldable pub header_get : Bytes → Request → Bytes
header_get name req = first_value (lookup name req.header)

unfoldable pub header_del : Bytes → Request → Request
header_del name req = record req { header = erase name req.header }

-- strings.Cut at a colon.
abbrev pub cons_first : ℕ → Option (Bytes × Bytes) → Option (Bytes × Bytes)
cons_first c none = none
cons_first c (some (before, after)) = some (c ∷ before, after)

unfoldable pub cut_colon : Bytes → Option (Bytes × Bytes)
cut_colon [] = none
cut_colon (c ∷ s) = let rest = cut_colon s in if c == b':' then some ([], s) else cons_first c rest

abbrev pub basic : Bytes
basic = codes "Basic "

abbrev pub response_407 : Bytes
response_407 =
    codes "HTTP/1.1 407 Proxy Authentication Required\r\n"
    ++ (codes "Proxy-Authenticate: Basic realm=\"proxyforge\"\r\n"
        ++ codes "Content-Length: 0\r\n\r\n")

abbrev pub response_502 : Bytes
response_502 = codes "HTTP/1.1 502 Bad Gateway\r\n\r\n"

abbrev pub response_200 : Bytes
response_200 = codes "HTTP/1.1 200 Connection Established\r\n\r\n"

-- A port is added to a host without a colon.
abbrev pub with_port : Bytes → Bytes → Bytes
with_port host port = if contains host (codes ":") then host else host ++ port

abbrev pub proxy_authorization : Bytes
proxy_authorization = codes "Proxy-Authorization"

abbrev pub proxy_connection : Bytes
proxy_connection = codes "Proxy-Connection"

-- How a served client goes on: a tunnel, or the relay behind a request that was passed on.
pub data Service : Type 0 where
  tunnelled : Relay → Service
  forwarded : Relay → Request → Service

abbrev pub relay_of : ProxySession → Bytes → ℕ → Egress → Session → Relay
relay_of p target conn eg s = record {
  conn = conn;
  egress = eg;
  username = p.0;
  target = target;
  protocol = codes "HTTP";
  pending = s.input;
}

module _ (srv : Server) (http : HttpText) where
  -- The credentials of the header.
  unfoldable pub basic_credentials : Bytes → Option (Bytes × Bytes)
  basic_credentials auth =
      if has_prefix auth basic
      then elim (http.decode_base64 (drop 6 auth)) [ some dec ↦ cut_colon dec | none ↦ none ]
      else none

  unfoldable pub http_auth_session : Request → Handler (Option ProxySession)
  http_auth_session req = elim (basic_credentials (header_get proxy_authorization req)) [
    | none ↦ emit (auth_fail [] (codes "HTTP")) >> return none
    | some (user, pass) ↦
        let egresses = srv.resolve user pass srv.client_ip in
        if has_any egresses
        then return (some (user, egresses))
        else emit (auth_fail user (codes "HTTP")) >> return none
  ]

  -- What a failed dial is answered with.
  unfoldable pub bad_gateway : Bytes → Bytes → Handler Service
  bad_gateway username target =
      emit (dial_fail username target (codes "HTTP")) >> write_anyway response_502 >> leave

  unfoldable pub connect_answer : ProxySession → Bytes → Dialed → Handler Service
  connect_answer p target (connected conn eg) =
      write_or_leave response_200 >> (λ s. (some (tunnelled (relay_of p target conn eg s)), s))
  connect_answer p target failure = bad_gateway p.0 target

  unfoldable pub http_connect : ProxySession → Bytes → Handler Service
  http_connect p hostport =
      let target = with_port hostport (codes ":443") in
      dial_target srv p.1 target >>= (λ r. connect_answer p target r)

  -- The request as it is passed on.
  unfoldable pub stripped : Request → Request
  stripped req = record (header_del proxy_connection (header_del proxy_authorization req)) {
    request_uri = [];
  }

  unfoldable pub forward_answer : ProxySession → Request → Bytes → Dialed → Handler Service
  forward_answer p req target (connected conn eg) =
      require (http.written conn (stripped req))
      >> (λ s. (some (forwarded (relay_of p target conn eg s) (stripped req)), s))
  forward_answer p req target failure = bad_gateway p.0 target

  unfoldable pub http_forward : ProxySession → Request → Handler Service
  http_forward p req =
      let target = with_port (if is_empty req.host then req.url_host else req.host) (codes ":80") in
      dial_target srv p.1 target >>= (λ r. forward_answer p req target r)

  unfoldable pub http_serve : Request → Option ProxySession → Handler Service
  http_serve req none = write_anyway response_407 >> leave
  http_serve req (some p) =
      if not (has_any p.1)
      then write_anyway response_407 >> leave
      else if str_eq req.method (codes "CONNECT")
      then http_connect p req.host
      else http_forward p req

  unfoldable pub handle_http : Handler Service
  handle_http = do
    req ← read http.read_http
    session ← http_auth_session req
    http_serve req session

-- ===== src/Runs/Web.antt =====
-- A run of the HTTP handler: a CONNECT with credentials.
use proxy_forge.Prelude.{
  ◌≡◌, refl, true, ◌&&◌, none, some, [], ◌∷◌, if◌then◌else◌, Bytes, codes, str_eq, has_prefix,
  contains, is_empty,
}
use proxy_forge.Prelude.Assoc.{bytes_key, lookup}
use proxy_forge.Io.{ok}
use proxy_forge.Io.Writers.{write_once}
use proxy_forge.Proxy.Dial.{
  usable, after_dial, round, dial_loop, dial_via_network_with_policy, dial_via,
}
use proxy_forge.Proxy.Session.{
  ◌>>=◌, read, write_or_leave, dial_target, ProxySession, has_any, dialled, Session, Relay, Server,
}
use proxy_forge.Proxy.Http.{
  header_get, cut_colon, response_200, basic_credentials, http_auth_session, connect_answer,
  http_connect, http_serve, handle_http, Request, HttpText, tunnelled,
}
use proxy_forge.Proxy.Http.Authorized.{IsAccepted, IsOver, handle_http-IsAccepted}
use proxy_forge.Runs.{net, silent, agent, dialer}

abbrev srv : Server
srv = record {
  net = net;
  resolve =
      λ u p ip. if str_eq u (codes "auto") && str_eq p (codes "pw") then some agent ∷ [] else [];
  dial = dialer;
  client_ip = codes "10.0.0.9";
  now = 0;
}

abbrev asks : Request
asks = record {
  method = codes "CONNECT";
  host = codes "a";
  url_host = [];
  request_uri = codes "a";
  header = (codes "Proxy-Authorization", codes "Basic auto:pw" ∷ []) ∷ [];
}

-- One request, in the clear.
abbrev text : HttpText
text = record { read_http = λ s. ok (asks, s); decode_base64 = some; written = λ conn req. true }

abbrev before : Session
before = record { input = 7 ∷ []; out = silent; events = [] }

abbrev after : Session
after = record {
  input = 7 ∷ [];
  out = record { sent = response_200; script = [] };
  events = dialled (record { egress = agent; elapsed = 20; error = none } ∷ []) ∷ [];
}

abbrev relayed : Relay
relayed = record {
  conn = 5;
  egress = agent;
  username = codes "auto";
  target = codes "a:443";
  protocol = codes "HTTP";
  pending = 7 ∷ [];
}

handle_http-IsAccepted_example :
    (req : Request) × (rest : Bytes) × (p : ProxySession) × (text.read_http before.input
      ≡ ok (req, rest))
    × IsAccepted srv text req p
    × IsOver srv text p (tunnelled relayed)
unfolding ◌>>=◌ handle_http http_auth_session http_serve http_connect connect_answer
    basic_credentials header_get cut_colon read write_or_leave dial_target lookup write_once str_eq
    is_empty has_any has_prefix contains dial_via dial_via_network_with_policy dial_loop round
    usable after_dial
handle_http-IsAccepted_example =
    handle_http-IsAccepted srv text before after (tunnelled relayed) refl

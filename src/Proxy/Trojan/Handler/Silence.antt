-- ===== src/Proxy/Trojan/Handler/Silence.antt =====
-- What the client of trojan.go's handler gets to see before it is served.
use proxy_forge.Prelude.{
  ℕ, ◌≡◌, refl, ◌∙◌, inl, inr, Bool, true, false, not, ◌||◌, Option, none, some, List, ◌==◌,
  if◌then◌else◌, Bool-cases, Bytes, codes, str_eq, is_empty,
}
use proxy_forge.Io.{read_full, read_byte}
use proxy_forge.Proxy.Dial.{
  Egress, Dialed, connected, no_egress, unsupported_network, failed, deadline_exceeded,
  no_usable_egress,
}
use proxy_forge.Proxy.Session.{
  Handler, ◌>>=◌, ◌>>◌, return, leave, require, read, emit, dial_target, ProxySession, has_any,
  read_out, auth_fail, Session, Server,
}
use proxy_forge.Proxy.Net.{join_host_port}
use proxy_forge.Proxy.Trojan.Auth.{crlf, read_trojan_auth}
use proxy_forge.Proxy.Trojan.Address.{read_trojan_address}
use proxy_forge.Proxy.Trojan.Handler.{
  connect_command, udp_command, Resolver, trojan_session, trojan_request, trojan_answer,
  trojan_serve, handle_trojan,
}

-- A step that writes nothing to the client.
abbrev pub IsSilent : {A : Type 0} → Handler A → Type 0
IsSilent m = (s : Session) → (m s).1.out ≡ s.out

bind-IsSilent :
    {A B : Type 0} (m : Handler A) (f : A → Handler B)
    → IsSilent m
    → ((a : A) → IsSilent (f a))
    → IsSilent (m >>= f)
unfolding ◌>>=◌
bind-IsSilent {A} {B} m f quiet next s = by_result (m s) (quiet s)
  where
    by_result :
        (r : Option A × Session)
        → r.1.out ≡ s.out
        → (let out : Option B × Session = elim r.0 [ some a ↦ f a r.1 | none ↦ (none, r.1) ] in
            out.1.out ≡ s.out)
    by_result (some a, t) e = next a t ∙ e
    by_result (none, t) e = e

require-IsSilent : (b : Bool) → IsSilent (require b)
require-IsSilent true s = refl
require-IsSilent false s = refl

module _ (srv : Server) (resolver : Resolver) where
  dial_target-IsSilent :
      (egresses : List (Option Egress)) (target : Bytes)
      → IsSilent (dial_target srv egresses target)
  unfolding dial_target
  dial_target-IsSilent egresses target s = refl

  trojan_session-IsSilent : (auth : Bytes) → IsSilent (trojan_session srv resolver auth)
  unfolding trojan_session emit ◌>>=◌
  trojan_session-IsSilent auth s =
      by_test
        (is_empty (resolver auth srv.client_ip).0 || not (has_any (resolver auth srv.client_ip).1))
    where
      by_test :
          (t : Bool)
          → ((if t
                then emit (auth_fail (resolver auth srv.client_ip).0 (codes "Trojan")) >> leave
                else return (resolver auth srv.client_ip))
              s).1.out
            ≡ s.out
      by_test true = refl
      by_test false = refl

  trojan_request-IsSilent : IsSilent (trojan_request srv resolver)
  unfolding trojan_request
  trojan_request-IsSilent = bind-IsSilent (read read_byte) _ (read_out read_byte) (λ command.
      bind-IsSilent (read (read_trojan_address srv.net)) _ (read_out (read_trojan_address srv.net))
        (λ target. bind-IsSilent (read (read_full 2)) _ (read_out (read_full 2)) (λ terminator.
          bind-IsSilent (require (str_eq terminator crlf)) _
            (require-IsSilent (str_eq terminator crlf)) (λ u s. refl))))

  trojan_answer-IsSilent :
      (p : ProxySession) (target : Bytes) (d : Dialed)
      → IsSilent (trojan_answer srv resolver p target d)
  unfolding trojan_answer emit ◌>>=◌
  trojan_answer-IsSilent (username, egresses) target (connected conn eg) s = refl
  trojan_answer-IsSilent (username, egresses) target no_egress s = refl
  trojan_answer-IsSilent (username, egresses) target unsupported_network s = refl
  trojan_answer-IsSilent (username, egresses) target (failed e) s = refl
  trojan_answer-IsSilent (username, egresses) target deadline_exceeded s = refl
  trojan_answer-IsSilent (username, egresses) target no_usable_egress s = refl

  trojan_serve-IsSilent :
      (p : ProxySession) (request : ℕ × (Bytes × ℕ))
      → IsSilent (trojan_serve srv resolver p request)
  unfolding trojan_serve
  trojan_serve-IsSilent (username, egresses) (command, (host, port)) s =
      elim (Bool-cases (command == udp_command)) [
        | inl is_udp ↦ rw is_udp refl
        | inr not_udp ↦ rw not_udp (elim (Bool-cases (command == connect_command)) [
          | inl is_connect ↦ rw is_connect (dialled_silently s)
          | inr other ↦ rw other refl
        ])
      ]
    where
      dialled_silently : IsSilent (
          dial_target srv egresses (join_host_port host port)
          >>= (λ r. trojan_answer srv resolver (username, egresses) (join_host_port host port) r))
      dialled_silently =
          bind-IsSilent (dial_target srv egresses (join_host_port host port)) _
            (dial_target-IsSilent egresses (join_host_port host port))
            (λ r. trojan_answer-IsSilent (username, egresses) (join_host_port host port) r)

  -- Whatever a client sends, and whether it is served or not, the Trojan handler itself writes
  -- nothing to it.
  pub handle_trojan-IsSilent : IsSilent (handle_trojan srv resolver)
  unfolding handle_trojan
  handle_trojan-IsSilent =
      bind-IsSilent (read read_trojan_auth) _ (read_out read_trojan_auth) (λ auth.
        bind-IsSilent (trojan_session srv resolver auth) _ (trojan_session-IsSilent auth) (λ p.
          bind-IsSilent (trojan_request srv resolver) _ trojan_request-IsSilent
            (λ request. trojan_serve-IsSilent p request)))

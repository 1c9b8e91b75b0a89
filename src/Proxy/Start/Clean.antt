-- ===== src/Proxy/Start/Clean.antt =====
-- newTunnel leaves no tunnel behind but the one that it returns.
use proxy_forge.Prelude.{
  ℕ, ◌≡◌, refl, ap, ◌∙◌, Bool, true, false, not, Option, none, some, List, [], ◌∷◌, ◌++◌, arith,
  ltb, ◌==◌, if◌then◌else◌, Bytes, codes, str_eq,
}
use proxy_forge.Proxy.Manager.State.{Config}
use proxy_forge.Proxy.Endpoint.{endpoint_candidates, Candidate}
use proxy_forge.Proxy.Start.{
  remember_endpoint, endpoint_probe_backoff, tunnel_probe_timeout, auto_wire_guard_probe_timeout,
  auto_wire_guard_probe_max_attempts, normalize_transport_mode, has_masque_config, endpoint_of,
  prioritize_endpoint_candidates, try_candidates, limited, or_default,
  new_wire_guard_tunnel_with_policy, new_wire_guard_tunnel, then_masque, fall_back, new_tunnel,
  Preference, World, StartError, recently_failed, no_candidates, no_masque, both_failed,
  unsupported, Result, runs, fails, Event, started, closed, Outcome,
}

unfoldable remove : ℕ → List ℕ → List ℕ
remove t [] = []
remove t (u ∷ us) = let rest = remove t us in if t == u then us else u ∷ rest

-- The tunnels that are open behind these events.
unfoldable pub live : List ℕ → List Event → List ℕ
unfolding remove
live open_now [] = open_now
live open_now (started t ∷ es) = live (t ∷ open_now) es
live open_now (closed t ∷ es) = live (remove t open_now) es

abbrev pub returned : Result → List ℕ
returned (runs t) = t ∷ []
returned (fails e) = []

abbrev pub IsClean : Outcome → Type 0
IsClean o = live [] o.events ≡ returned o.result

live-append :
    (open_now : List ℕ) (es fs : List Event) → live open_now (es ++ fs) ≡ live (live open_now es) fs
unfolding live
live-append open_now [] fs = refl
live-append open_now (started t ∷ es) fs = live-append (t ∷ open_now) es fs
live-append open_now (closed t ∷ es) fs = live-append (remove t open_now) es fs

remove_self : (t : ℕ) → remove t (t ∷ []) ≡ []
unfolding remove
remove_self t = ground arith

module _ (w : World) where
  try_candidates-IsClean :
      (ttl : ℕ) (p : Preference) (cs : List Candidate) → IsClean (try_candidates w ttl p cs)
  unfolding try_candidates live
  try_candidates-IsClean ttl p [] = refl
  try_candidates-IsClean ttl p (c ∷ cs) = by_start (w.start c) (try_candidates-IsClean ttl p cs)
    where
      rest : Outcome
      rest = try_candidates w ttl p cs

      tried : ℕ → Bool → Outcome
      tried t b =
          if b
          then record {
            result = runs t;
            preference = remember_endpoint (endpoint_of w c) p;
            events = started t ∷ [];
          }
          else record rest { events = started t ∷ closed t ∷ rest.events }

      by_probe : (t : ℕ) (b : Bool) → IsClean rest → IsClean (tried t b)
      by_probe t true k = refl
      by_probe t false k = ap (λ (l : List ℕ). live l rest.events) (remove_self t) ∙ k

      by_start :
          (o : Option ℕ)
          → IsClean rest
          → IsClean (elim o as (λ _. Outcome) [ none ↦ rest | some t ↦ tried t (w.probe ttl t) ])
      by_start none k = k
      by_start (some t) k = by_probe t (w.probe ttl t) k

  with_policy-IsClean :
      (cfg : Config) (max ttl : ℕ) (p : Preference)
      → IsClean (new_wire_guard_tunnel_with_policy w cfg max ttl p)
  unfolding new_wire_guard_tunnel_with_policy live
  with_policy-IsClean cfg max ttl p =
      by_wait (ltb 0 (endpoint_probe_backoff w.now p))
        (endpoint_candidates w.net w.ipv6_ok w.resolve cfg.endpoint_host cfg.endpoint_port)
    where
      with_candidates : Option (List Candidate) → Outcome
      with_candidates o = elim o as (λ _. Outcome) [
        | none ↦ record { result = fails no_candidates; preference = p; events = [] }
        | some cs ↦
            try_candidates w (or_default w ttl) p
              (limited w max (prioritize_endpoint_candidates w p cs))
      ]

      by_wait :
          (b : Bool) (o : Option (List Candidate))
          → IsClean (
              if b
              then record { result = fails recently_failed; preference = p; events = [] }
              else with_candidates o)
      by_wait true o = refl
      by_wait false none = refl
      by_wait false (some cs) =
          try_candidates-IsClean (or_default w ttl) p
            (limited w max (prioritize_endpoint_candidates w p cs))

  then_masque-IsClean :
      (e : StartError) (p : Preference) (es : List Event)
      → live [] es ≡ []
      → IsClean (then_masque w e p es)
  unfolding then_masque live
  then_masque-IsClean e p es h = by_masque (w.masque)
    where
      by_masque :
          (o : Option ℕ)
          → IsClean (elim o as (λ _. Outcome) [
            | some t ↦ record { result = runs t; preference = p; events = es ++ started t ∷ [] }
            | none ↦ record { result = fails e; preference = p; events = es }
          ])
      by_masque none = h
      by_masque (some t) = live-append [] es (started t ∷ []) ∙ ap (λ (l : List ℕ). t ∷ l) h

  fall_back-IsClean : (o : Outcome) → IsClean o → IsClean (fall_back w o)
  unfolding fall_back
  fall_back-IsClean o h = by_result (o.result) h
    where
      by_result :
          (r : Result)
          → live [] o.events ≡ returned r
          → IsClean (elim r as (λ _. Outcome) [
            | runs t ↦ o
            | fails e ↦ then_masque w (both_failed e) o.preference o.events
          ])
      by_result (runs t) k = h
      by_result (fails e) k = then_masque-IsClean (both_failed e) o.preference o.events k

  -- Whatever starts and answers, newTunnel has closed every tunnel that it has started, but the one
  -- that it returns, if there is one.
  pub new_tunnel-IsClean : (cfg : Config) (p : Preference) → IsClean (new_tunnel w cfg p)
  unfolding new_tunnel new_wire_guard_tunnel live
  new_tunnel-IsClean cfg p =
      by_mode (str_eq mode (codes "masque")) (str_eq mode (codes "auto")) (has_masque_config cfg)
        (str_eq mode (codes "wireguard"))
    where
      mode : Bytes
      mode = normalize_transport_mode cfg.transport_mode

      by_mode :
          (m a c g : Bool)
          → IsClean (
              if m
              then then_masque w no_masque p []
              else if a
              then if not c
                then new_wire_guard_tunnel w cfg p
                else fall_back w (
                    new_wire_guard_tunnel_with_policy w cfg auto_wire_guard_probe_max_attempts
                      auto_wire_guard_probe_timeout p)
              else if g
              then new_wire_guard_tunnel w cfg p
              else record {
                result = fails (unsupported cfg.transport_mode);
                preference = p;
                events = [];
              })
      by_mode true a c g = then_masque-IsClean no_masque p [] refl
      by_mode false true false g = with_policy-IsClean cfg 0 tunnel_probe_timeout p
      by_mode false true true g =
          fall_back-IsClean
            (new_wire_guard_tunnel_with_policy w cfg auto_wire_guard_probe_max_attempts
              auto_wire_guard_probe_timeout p)
            (with_policy-IsClean cfg auto_wire_guard_probe_max_attempts
              auto_wire_guard_probe_timeout p)
      by_mode false false c true = with_policy-IsClean cfg 0 tunnel_probe_timeout p
      by_mode false false c false = refl

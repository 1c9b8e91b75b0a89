-- ===== src/Proxy/Manager/Listen.antt =====
-- reconcileServerLocked: the proxy's listener follows the port and the TLS settings. Whether a TLS
-- configuration can be made and whether the port can be bound are answers of the system.
use proxy_forge.Prelude.{
  ℕ, ◌<◌, ◌≡◌, refl, sym, ap, subst, ◌⊎◌, inl, inr, Bool, true, false, not, ◌&&◌, ◌||◌, Option,
  none, some, arith, ◌==◌, if◌then◌else◌, Bytes, str_eq, str_eq_iff, str_eq_refl,
}
use proxy_forge.Proxy.Manager.Reconcile.{same_bool}

-- The Manager's fields for its listener; `server` is the port of a running one, and a port of 0 stands
-- for one that is not positive.
pub record Listener : Type 0 where
  pub proxy_port : ℕ
  pub proxy_tls : Bool
  pub tls_server_name : Bytes
  pub tls_cert_file : Bytes
  pub tls_key_file : Bytes
  pub server : Option ℕ
  pub server_tls : Bool
  pub server_tls_requested : Bool
  pub server_tls_name : Bytes
  pub server_cert_file : Bytes
  pub server_key_file : Bytes

unfoldable pub is_outdated : Listener → ℕ → Bool
is_outdated l port =
    l.proxy_port == 0
    || not (port == l.proxy_port)
    || not (same_bool l.server_tls_requested l.proxy_tls)
    || not (str_eq l.server_tls_name l.tls_server_name)
    || not (str_eq l.server_cert_file l.tls_cert_file)
    || not (str_eq l.server_key_file l.tls_key_file)

unfoldable pub stop_outdated : Listener → Listener
unfolding is_outdated
stop_outdated l = elim (l.server) [
  | some port ↦ if is_outdated l port then record l { server = none } else l
  | none ↦ l
]

-- `bound` says whether startProxy succeeds, `tls_made` whether one of the two TLS configurations was
-- made.
unfoldable pub start_server : Bool → Bool → Listener → Bool × Listener
start_server tls_made bound l =
    if bound
    then (
      true,
      record l {
        server = some l.proxy_port;
        server_tls = l.proxy_tls && tls_made;
        server_tls_requested = l.proxy_tls;
        server_tls_name = l.tls_server_name;
        server_cert_file = l.tls_cert_file;
        server_key_file = l.tls_key_file;
      },
    )
    else (false, l)

unfoldable pub start_missing : Bool → Bool → Listener → Bool × Listener
unfolding start_server
start_missing tls_made bound l = elim (l.server) [
  | some port ↦ (true, l)
  | none ↦ if l.proxy_port == 0 then (true, l) else start_server tls_made bound l
]

unfoldable pub reconcile_server : Bool → Bool → Listener → Bool × Listener
unfolding stop_outdated start_missing
reconcile_server tls_made bound l = start_missing tls_made bound (stop_outdated l)

-- A listener on a port was started with the settings that hold now.
abbrev pub Matches : Listener → ℕ → Type 0
Matches l port =
    (0 < l.proxy_port)
    × (port ≡ l.proxy_port)
    × (l.server_tls_requested ≡ l.proxy_tls)
    × (l.server_tls_name ≡ l.tls_server_name)
    × (l.server_cert_file ≡ l.tls_cert_file)
    × (l.server_key_file ≡ l.tls_key_file)

-- No listener, or one that does not match.
abbrev pub IsStale : Listener → Type 0
IsStale l = (l.server ≡ none) ⊎ ((port : ℕ) × (l.server ≡ some port) × ¬ Matches l port)

-- A listener that has just been started.
abbrev pub begin_listener : Bool → Listener → Listener
begin_listener tls l = record l {
  server = some l.proxy_port;
  server_tls = tls;
  server_tls_requested = l.proxy_tls;
  server_tls_name = l.tls_server_name;
  server_cert_file = l.tls_cert_file;
  server_key_file = l.tls_key_file;
}

-- What a reconciliation makes of `l`: no listener, the one that there was, if it matches, or
-- otherwise a new one, which offers TLS exactly if it is asked for and can be had.
pub data IsSettled (tls_made : Bool) (l out : Listener) : Type 0 where
  off : l.proxy_port ≡ 0 → out ≡ record l { server = none } → IsSettled tls_made l out
  kept : (port : ℕ) → l.server ≡ some port → Matches l port → out ≡ l → IsSettled tls_made l out
  begun :
      0 < l.proxy_port
      → IsStale l
      → out ≡ begin_listener (l.proxy_tls && tls_made) l
      → IsSettled tls_made l out

same_bool_eq : (b c : Bool) → same_bool b c ≡ true → b ≡ c
same_bool_eq true c h = sym h
same_bool_eq false c h = ground (arith, h)

same_bool_refl : (b : Bool) → same_bool b b ≡ true
same_bool_refl true = refl
same_bool_refl false = refl

is_outdated-Matches : (l : Listener) (port : ℕ) → is_outdated l port ≡ false → Matches l port
unfolding is_outdated
is_outdated-Matches l port h = (
  ground (arith, h),
  ground (arith, h),
  same_bool_eq l.server_tls_requested l.proxy_tls (ground (arith, h)),
  ground (arith, h, str_eq_iff l.server_tls_name l.tls_server_name),
  ground (arith, h, str_eq_iff l.server_cert_file l.tls_cert_file),
  ground (arith, h, str_eq_iff l.server_key_file l.tls_key_file),
)

not_outdated : (l : Listener) (port : ℕ) → Matches l port → is_outdated l port ≡ false
unfolding is_outdated
not_outdated l port h = ground (
  arith,
  h.0,
  h.1,
  h.2,
  h.3,
  h.4,
  h.5,
  same_bool_refl l.proxy_tls,
  str_eq_refl l.tls_server_name,
  str_eq_refl l.tls_cert_file,
  str_eq_refl l.tls_key_file,
)

start_server-IsSettled :
    (tls_made bound : Bool) (l : Listener)
    → IsStale l
    → (z : Bool) → (l.proxy_port == 0) ≡ z
    → let out : Bool × Listener =
        if z
        then (true, record l { server = none })
        else start_server tls_made bound (record l { server = none }) in
      out.0 ≡ true → IsSettled tls_made l out.1
unfolding start_server
start_server-IsSettled tls_made bound l stale true z ok = off (ground (arith, z)) refl
start_server-IsSettled tls_made true l stale false z ok = begun (ground (arith, z)) stale refl
start_server-IsSettled tls_made false l stale false z ok = cc ok

reconcile_server-IsSettled :
    (tls_made bound : Bool) (l : Listener)
    → (reconcile_server tls_made bound l).0 ≡ true
    → IsSettled tls_made l (reconcile_server tls_made bound l).1
unfolding reconcile_server stop_outdated start_missing is_outdated
reconcile_server-IsSettled tls_made bound l ok = by_server (l.server) refl ok
  where
    by_test :
        (port : ℕ)
        → l.server ≡ some port
        → (b : Bool) → is_outdated l port ≡ b
        → let at : Listener = record l { server = some port } in
          let out : Bool × Listener =
            start_missing tls_made bound (if b then record l { server = none } else at) in
          out.0 ≡ true → IsSettled tls_made l out.1
    by_test port e true f ok =
        start_server-IsSettled tls_made bound l (inr (port, e, λ m. cc (not_outdated l port m, f)))
          (l.proxy_port == 0) refl ok
    by_test port e false f ok =
        kept port e (is_outdated-Matches l port f)
          (ap (λ (o : Option ℕ). record l { server = o }) (sym e))

    by_server :
        (o : Option ℕ)
        → l.server ≡ o
        → (reconcile_server tls_made bound (record l { server = o })).0 ≡ true
        → IsSettled tls_made l (reconcile_server tls_made bound (record l { server = o })).1
    by_server none e ok =
        start_server-IsSettled tls_made bound l (inl e) (l.proxy_port == 0) refl ok
    by_server (some port) e ok = by_test port e (is_outdated l port) refl ok

-- A listener that matches, or that is off with the port, is left alone.
settled_stays :
    (tls_made again_tls again_bound : Bool) (l out : Listener)
    → IsSettled tls_made l out
    → reconcile_server again_tls again_bound out ≡ (true, out)
unfolding reconcile_server stop_outdated start_missing
settled_stays tls_made again_tls again_bound l out (off z q) =
    subst (λ x. reconcile_server again_tls again_bound x ≡ (true, x)) (sym q) (rw z refl)
settled_stays tls_made again_tls again_bound l out (kept port e m q) =
    subst (λ x. reconcile_server again_tls again_bound x ≡ (true, x)) (sym q)
      (rw (e, not_outdated l port m) refl)
settled_stays tls_made again_tls again_bound l out (begun z stale q) =
    let new : Listener = begin_listener (l.proxy_tls && tls_made) l in
    subst (λ x. reconcile_server again_tls again_bound x ≡ (true, x)) (sym q)
      (rw (not_outdated new l.proxy_port (z, refl, refl, refl, refl, refl)) refl)

-- If reconcileServerLocked reports no error: there is no listener behind it if the port is not
-- positive; a listener that was started on this port with these TLS settings is left as it was; and
-- in every other case there is a new one on the port with the settings, which offers TLS exactly if
-- TLS is asked for and a configuration of it could be made. A further run starts and stops nothing.
pub reconcile_server_settles :
    (tls_made bound again_tls again_bound : Bool) (l : Listener)
    → (reconcile_server tls_made bound l).0 ≡ true
    → IsSettled tls_made l (reconcile_server tls_made bound l).1
      × (reconcile_server again_tls again_bound (reconcile_server tls_made bound l).1
          ≡ (true, (reconcile_server tls_made bound l).1))
reconcile_server_settles tls_made bound again_tls again_bound l ok =
    let settled = reconcile_server-IsSettled tls_made bound l ok in
    (
      settled,
      settled_stays tls_made again_tls again_bound l (reconcile_server tls_made bound l).1 settled,
    )

-- ===== src/Proxy/Manager/Reconcile/Health.antt =====
-- HealthCheck: a tunnel whose dials fail is probed, and replaced if the probe fails too. The probe and
-- the start of the new tunnel run without the lock, so that the map may be another one by then.
use proxy_forge.Prelude.{
  ℕ, ◌≡◌, refl, sym, ap, ◌∙◌, Bool, true, false, not, ◌||◌, Option, none, some, List, leb, ◌==◌,
  if◌then◌else◌, select, Bytes, str_eq, str_eq_iff,
}
use proxy_forge.Prelude.Assoc.{bytes_key, lookup, insert, lookup-insert}
use proxy_forge.Proxy.Manager.State.{Config, Tunnel, Manager}
use proxy_forge.Proxy.Manager.Reconcile.{config_eq}
use proxy_forge.Proxy.Manager.Reconcile.Configs.{config_eq_sound}

abbrev pub tunnel_rebuild_after_failures : ℕ
tunnel_rebuild_after_failures = 2

-- The pair of a tag and the tunnel that is suspected; its configuration is in the tunnel.
unfoldable pub stale : Manager → List (Bytes × Tunnel)
stale m = select (λ e. leb tunnel_rebuild_after_failures e.1.dial_failures) m.tunnels

-- What the probe and newTunnel say, without the lock.
pub data Checked : Type 0 where
  healthy : Checked
  not_rebuilt : Checked
  rebuilt : Tunnel → Checked

abbrev is_same : Tunnel → Option Tunnel → Bool
is_same t none = false
is_same t (some old) = t.id == old.id

-- `c.tunnel.dialFailures.Store(0)`, if the tunnel is still the one in the map.
unfoldable pub clear_suspicion : Bytes → Tunnel → Option Tunnel → Manager → Manager
clear_suspicion tag t none m = m
clear_suspicion tag t (some old) m =
    if t.id == old.id
    then record m { tunnels = insert tag (record old { dial_failures = 0 }) m.tunnels }
    else m

-- `true` if the tunnel in the map is replaced.
unfoldable pub replace_tunnel : Bytes → Tunnel → Tunnel → Option Tunnel → Manager → Bool × Manager
unfolding config_eq
replace_tunnel tag t fresh none m = (false, m)
replace_tunnel tag t fresh (some old) m =
    if not (t.id == old.id) || not (config_eq old.cfg t.cfg)
    then (false, m)
    else (true, record m { tunnels = insert tag fresh m.tunnels })

-- The part of a round under the lock.
unfoldable pub finish_check : Bytes → Tunnel → Checked → Manager → Bool × Manager
unfolding clear_suspicion replace_tunnel
finish_check tag t healthy m = (false, clear_suspicion tag t (lookup tag m.tunnels) m)
finish_check tag t not_rebuilt m = (false, m)
finish_check tag t (rebuilt fresh) m = replace_tunnel tag t fresh (lookup tag m.tunnels) m

-- The configuration of the new tunnel is the one that newTunnel was given.
abbrev pub IsRebuild : Tunnel → Checked → Type 0
IsRebuild t healthy = Unit {0}
IsRebuild t not_rebuilt = Unit {0}
IsRebuild t (rebuilt fresh) = fresh.cfg ≡ t.cfg

-- HealthCheck never touches another tunnel than the one that it probed: if by the end of the probe
-- the map has another tunnel for the tag, or none, then the map is left alone.
pub finish_check-other :
    (tag : Bytes) (t : Tunnel) (c : Checked) (m : Manager)
    → is_same t (lookup tag m.tunnels) ≡ false
    → finish_check tag t c m ≡ (false, m)
unfolding finish_check clear_suspicion replace_tunnel
finish_check-other tag t not_rebuilt m h = refl
finish_check-other tag t healthy m h = go (lookup tag m.tunnels) h
  where
    go :
        (o : Option Tunnel)
        → is_same t o ≡ false
        → let r : Bool × Manager = (false, clear_suspicion tag t o m) in r ≡ (false, m)
    go none h = refl
    go (some old) h = rw h refl
finish_check-other tag t (rebuilt fresh) m h = go (lookup tag m.tunnels) h
  where
    go : (o : Option Tunnel) → is_same t o ≡ false → replace_tunnel tag t fresh o m ≡ (false, m)
    go none h = refl
    go (some old) h = rw h refl

abbrev pub config_of : Option Tunnel → Option Config
config_of none = none
config_of (some u) = some u.cfg

-- Another tunnel with the same configuration.
insert-config_of :
    (tag k : Bytes) (u old : Tunnel) (tunnels : List (Bytes × Tunnel))
    → lookup tag tunnels ≡ some old
    → u.cfg ≡ old.cfg
    → config_of (lookup k (insert tag u tunnels)) ≡ config_of (lookup k tunnels)
insert-config_of tag k u old tunnels e same =
    ap config_of (lookup-insert tag k u tunnels) ∙ go (str_eq tag k) refl
  where
    go :
        (b : Bool)
        → str_eq tag k ≡ b
        → config_of (if b then some u else lookup k tunnels) ≡ config_of (lookup k tunnels)
    go false f = refl
    go true f =
        ap some same
        ∙ ap config_of (sym e ∙ ap (λ (a : Bytes). lookup a tunnels) ((str_eq_iff tag k).0 f))

clear_suspicion-cfg :
    (tag k : Bytes) (t : Tunnel) (m : Manager) (o : Option Tunnel)
    → lookup tag m.tunnels ≡ o
    → config_of (lookup k (clear_suspicion tag t o m).tunnels) ≡ config_of (lookup k m.tunnels)
unfolding clear_suspicion
clear_suspicion-cfg tag k t m none e = refl
clear_suspicion-cfg tag k t m (some old) e = go (t.id == old.id)
  where
    next : Manager
    next = record m { tunnels = insert tag (record old { dial_failures = 0 }) m.tunnels }

    go :
        (b : Bool)
        → config_of (lookup k (if b then next else m).tunnels) ≡ config_of (lookup k m.tunnels)
    go true = insert-config_of tag k (record old { dial_failures = 0 }) old m.tunnels e refl
    go false = refl

replace_tunnel-cfg :
    (tag k : Bytes) (t fresh : Tunnel) (m : Manager) (o : Option Tunnel)
    → lookup tag m.tunnels ≡ o
    → fresh.cfg ≡ t.cfg
    → config_of (lookup k (replace_tunnel tag t fresh o m).1.tunnels)
      ≡ config_of (lookup k m.tunnels)
unfolding replace_tunnel
replace_tunnel-cfg tag k t fresh m none e f = refl
replace_tunnel-cfg tag k t fresh m (some old) e f =
    go (t.id == old.id) (config_eq old.cfg t.cfg) refl
  where
    next : Manager
    next = record m { tunnels = insert tag fresh m.tunnels }

    go :
        (b c : Bool)
        → config_eq old.cfg t.cfg ≡ c
        → let r : Bool × Manager = if not b || not c then (false, m) else (true, next) in
          config_of (lookup k r.1.tunnels) ≡ config_of (lookup k m.tunnels)
    go false c h = refl
    go true false h = refl
    go true true h =
        insert-config_of tag k fresh old m.tunnels e (f ∙ sym (config_eq_sound old.cfg t.cfg h))

-- Whatever other methods did while HealthCheck probed a tunnel and rebuilt it, its end keeps every
-- tag on the configuration that it ran with: the map has the same tags with the same configurations.
pub finish_check-cfg :
    (tag k : Bytes) (t : Tunnel) (c : Checked) (m : Manager)
    → IsRebuild t c
    → config_of (lookup k (finish_check tag t c m).1.tunnels) ≡ config_of (lookup k m.tunnels)
unfolding finish_check
finish_check-cfg tag k t healthy m r = clear_suspicion-cfg tag k t m (lookup tag m.tunnels) refl
finish_check-cfg tag k t not_rebuilt m r = refl
finish_check-cfg tag k t (rebuilt fresh) m r =
    replace_tunnel-cfg tag k t fresh m (lookup tag m.tunnels) refl r

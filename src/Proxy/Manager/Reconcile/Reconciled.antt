-- ===== src/Proxy/Manager/Reconcile/Reconciled.antt =====
-- What Reconcile achieves.
use proxy_forge.Prelude.{◌≡◌, refl, Bool, true, false, some, List, [], All, Bytes}
use proxy_forge.Prelude.Assoc.{bytes_key, lookup}
use proxy_forge.Database.{list_active_accounts, Store}
use proxy_forge.Proxy.Manager.State.{Config, Tunnel, Manager}
use proxy_forge.Proxy.Manager.Reconcile.{
  desired_of, next_meta, next_slots, reconcile_locked, reconcile, Settings, Started,
}
use proxy_forge.Proxy.Manager.Reconcile.Stopping.{
  IsDesired, stop_unwanted-IsDesired, stop_unwanted-wanted,
}
use proxy_forge.Proxy.Manager.Reconcile.Exact.{
  IsStart, has_started, start_tunnels-keeps, start_tunnels-IsDesired, start_tunnels-runs,
}

abbrev pub desired_now : Settings → Store → List (Bytes × Config)
desired_now set db = desired_of set (list_active_accounts db) []

module _ (set : Settings) (db : Store) (results : List Started) (m : Manager)
    (starts : All (IsStart (desired_now set db)) results) where
  reconcile_locked-IsDesired : IsDesired (desired_now set db) (reconcile_locked set db m).tunnels
  unfolding reconcile_locked
  reconcile_locked-IsDesired =
      stop_unwanted-IsDesired (desired_now set db) m
        (record m {
          meta = next_meta (list_active_accounts db) [];
          slots = next_slots db.accounts db.slots [];
        })
        refl

  -- If what was started had the configurations that Reconcile asked for, then behind it, whichever
  -- starts failed and whether the listener came up or not, every running tunnel belongs to an active
  -- account and has the configuration that the account and the settings give now.
  pub reconcile-IsDesired :
      (listening : Bool) (tag : Bytes) (t : Tunnel)
      → lookup tag (reconcile set db listening results m).1.tunnels ≡ some t
      → lookup tag (desired_now set db) ≡ some t.cfg
  unfolding reconcile
  reconcile-IsDesired true tag t h =
      start_tunnels-IsDesired (desired_now set db) results (reconcile_locked set db m) starts
        reconcile_locked-IsDesired tag t h
  reconcile-IsDesired false tag t h = reconcile_locked-IsDesired tag t h

  reconcile_locked-keeps :
      (tag : Bytes) (t : Tunnel)
      → All (λ e. lookup e.0 m.tunnels ≡ some e.1) m.tunnels
      → lookup tag m.tunnels ≡ some t
      → lookup tag (desired_now set db) ≡ some t.cfg
      → lookup tag (reconcile_locked set db m).tunnels ≡ some t
  unfolding reconcile_locked
  reconcile_locked-keeps tag t keyed e want =
      stop_unwanted-wanted (desired_now set db) tag t m
        (record m {
          meta = next_meta (list_active_accounts db) [];
          slots = next_slots db.accounts db.slots [];
        })
        keyed refl e want

  -- Reconcile does not restart a tunnel that runs with the configuration that is still desired for
  -- its tag, provided that the map of tunnels has one entry for a tag.
  pub reconcile-keeps :
      (listening : Bool) (tag : Bytes) (t : Tunnel)
      → All (λ e. lookup e.0 m.tunnels ≡ some e.1) m.tunnels
      → lookup tag m.tunnels ≡ some t
      → lookup tag (desired_now set db) ≡ some t.cfg
      → lookup tag (reconcile set db listening results m).1.tunnels ≡ some t
  unfolding reconcile
  reconcile-keeps true tag t keyed e want =
      start_tunnels-keeps (desired_now set db) tag t results (reconcile_locked set db m) starts
        (reconcile_locked-keeps tag t keyed e want)
  reconcile-keeps false tag t keyed e want = reconcile_locked-keeps tag t keyed e want

  -- If the listener comes up, then behind Reconcile a tag for which some tunnel could be started
  -- runs, with the configuration that is desired for it, whichever other starts failed.
  pub reconcile-runs :
      (tag : Bytes)
      → has_started tag results ≡ true
      → (t : Tunnel) × (lookup tag (reconcile set db true results m).1.tunnels ≡ some t)
        × (lookup tag (desired_now set db) ≡ some t.cfg)
  unfolding reconcile
  reconcile-runs tag h =
      let k =
        start_tunnels-runs (desired_now set db) tag results (reconcile_locked set db m) starts h in
      (k.0, k.1, reconcile-IsDesired true tag k.0 k.1)

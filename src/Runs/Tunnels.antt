-- ===== src/Runs/Tunnels.antt =====
-- Runs of Reconcile and HealthCheck on two tunnels.
use proxy_forge.Prelude.{ℕ, ◌≡◌, refl, true, false, none, some, List, [], ◌∷◌, All, codes, str_eq}
use proxy_forge.Prelude.Assoc.{bytes_key, lookup, insert, erase}
use proxy_forge.Models.{is_active_account, Account}
use proxy_forge.Database.{list_active_accounts}
use proxy_forge.Proxy.Manager.State.{Tunnel, Manager}
use proxy_forge.Proxy.Manager.Reconcile.{
  config_from_account, desired_of, stop_unwanted, reconcile_locked, reconcile, Settings, Started,
}
use proxy_forge.Proxy.Manager.Reconcile.Exact.{IsStart, has_started}
use proxy_forge.Proxy.Manager.Reconcile.Reconciled.{
  desired_now, reconcile-IsDesired, reconcile-keeps, reconcile-runs,
}
use proxy_forge.Proxy.Manager.Reconcile.Health.{finish_check, config_of, finish_check-cfg, rebuilt}
use proxy_forge.Proxy.Manager.Listen.{
  is_outdated, stop_outdated, start_server, start_missing, reconcile_server,
  reconcile_server_settles, Listener, IsSettled,
}
use proxy_forge.Runs.Choosing.{manager}
use proxy_forge.Runs.Slots.{first, second_account, db}

abbrev pub settings : Settings
settings = record { transport = codes "auto"; ip_family = codes "v4"; dns_mode = [] }

abbrev pub tunnel : ℕ → Account → Tunnel
tunnel n a = record {
  id = n;
  cfg = config_from_account settings a;
  transport = codes "wireguard";
  netstack = true;
  tx_bytes = 0;
  rx_bytes = 0;
  last_dial_latency_ms = 0;
  last_dial_at = 0;
  dial_failures = 3;
}

-- A tunnel of an active account, and one of an account that is gone.
abbrev before : Manager
before = record manager {
  tunnels =
      (codes "a", tunnel 1 first)
      ∷ (codes "z", tunnel 2 (record second_account { tag = codes "z" }))
      ∷ [];
}

-- The tunnel of the second account starts, that of the third does not.
abbrev results : List Started
results =
    record {
      tag = codes "c";
      cfg = config_from_account settings (record first { id = 3; tag = codes "c" });
      tun = none;
    }
    ∷ record {
      tag = codes "b";
      cfg = config_from_account settings second_account;
      tun = some (tunnel 5 second_account);
    }
    ∷ []

results-AreStarts : All (IsStart (desired_now settings db)) results
unfolding desired_of list_active_accounts lookup insert str_eq is_active_account config_from_account
results-AreStarts = ((refl, tt), ((refl, refl), tt))

reconcile-IsDesired_example :
    lookup (codes "b") (desired_now settings db) ≡ some (tunnel 5 second_account).cfg
unfolding desired_of list_active_accounts lookup insert erase str_eq is_active_account
    config_from_account reconcile reconcile_locked stop_unwanted
reconcile-IsDesired_example =
    reconcile-IsDesired settings db results before results-AreStarts true (codes "b")
      (tunnel 5 second_account) refl

reconcile-runs_example :
    (t : Tunnel) × (lookup (codes "b") (reconcile settings db true results before).1.tunnels
      ≡ some t)
    × (lookup (codes "b") (desired_now settings db) ≡ some t.cfg)
unfolding has_started str_eq
reconcile-runs_example =
    reconcile-runs settings db results before results-AreStarts (codes "b") refl

reconcile-keeps_example :
    lookup (codes "a") (reconcile settings db true results before).1.tunnels ≡ some (tunnel 1 first)
unfolding desired_of list_active_accounts lookup insert str_eq is_active_account config_from_account
reconcile-keeps_example =
    reconcile-keeps settings db results before results-AreStarts true (codes "a") (tunnel 1 first)
      (refl, (refl, tt)) refl refl

finish_check-cfg_example :
    config_of (
      lookup
        (codes "a")
        (finish_check (codes "a") (tunnel 1 first) (rebuilt (tunnel 9 first)) before).1.tunnels)
    ≡ config_of (lookup (codes "a") before.tunnels)
finish_check-cfg_example =
    finish_check-cfg (codes "a") (codes "a") (tunnel 1 first) (rebuilt (tunnel 9 first)) before refl

-- The port has changed while a listener runs.
abbrev listener : Listener
listener = record {
  proxy_port = 7844;
  proxy_tls = true;
  tls_server_name = [];
  tls_cert_file = [];
  tls_key_file = [];
  server = some 7843;
  server_tls = true;
  server_tls_requested = true;
  server_tls_name = [];
  server_cert_file = [];
  server_key_file = [];
}

reconcile_server_settles_example :
    IsSettled true listener (reconcile_server true true listener).1
    × (reconcile_server false false (reconcile_server true true listener).1
        ≡ (true, (reconcile_server true true listener).1))
unfolding reconcile_server stop_outdated start_missing start_server is_outdated
reconcile_server_settles_example = reconcile_server_settles true true false false listener refl

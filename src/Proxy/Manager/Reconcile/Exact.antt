-- ===== src/Proxy/Manager/Reconcile/Exact.antt =====
-- Behind Reconcile the running tunnels are those that are desired.
use proxy_forge.Prelude.{
  ◌≡◌, refl, sym, ap, ◌∙◌, inl, inr, Bool, true, false, not, ◌&&◌, ◌||◌, Option, none, some, List,
  [], ◌∷◌, arith, if◌then◌else◌, Bool-cases, All, Bytes, str_eq, str_eq_iff,
}
use proxy_forge.Prelude.Assoc.{bytes_key, lookup, insert, lookup-insert, lookup-insert_self}
use proxy_forge.Proxy.Manager.State.{Config, Tunnel, Manager}
use proxy_forge.Proxy.Manager.Reconcile.{
  config_eq, is_running, or_no_config, install, start_tunnels, Started,
}
use proxy_forge.Proxy.Manager.Reconcile.Configs.{config_eq_refl}
use proxy_forge.Proxy.Manager.Reconcile.Stopping.{IsDesired}

abbrev pub HasConfig : Option Tunnel → Config → Type 0
HasConfig none cfg = Unit {0}
HasConfig (some tun) cfg = tun.cfg ≡ cfg

-- What newTunnel is called for, and the configuration of what it makes.
abbrev pub IsStart : List (Bytes × Config) → Started → Type 0
IsStart desired r = (lookup r.tag desired ≡ some r.cfg) × HasConfig r.tun r.cfg

abbrev pub is_made : Option Tunnel → Bool
is_made none = false
is_made (some tun) = true

-- Some tunnel was made for the tag.
unfoldable pub has_started : Bytes → List Started → Bool
has_started tag [] = false
has_started tag (r ∷ results) = str_eq r.tag tag && is_made r.tun || has_started tag results

module _ (desired : List (Bytes × Config)) where
  start_tunnels-manager :
      (r : Started) (results : List Started) (m : Manager)
      → (start_tunnels desired (r ∷ results) m).1
        ≡ (start_tunnels desired results (install desired r r.tun m)).1
  unfolding start_tunnels
  start_tunnels-manager r results m =
      go (r.tun) (start_tunnels desired results (install desired r r.tun m))
    where
      go :
          (o : Option Tunnel) (rest : Bool × Manager)
          → let x : Bool × Manager = elim o [ none ↦ (true, rest.1) | some tun ↦ rest ] in
            x.1 ≡ rest.1
      go none rest = refl
      go (some tun) rest = refl

  -- The test on the configuration never fails for what Reconcile starts.
  install_started :
      (r : Started) (tun : Tunnel) (m : Manager)
      → lookup r.tag desired ≡ some r.cfg
      → install desired r (some tun) m
        ≡ (if is_running m r.tag then m else record m { tunnels = insert r.tag tun m.tunnels })
  unfolding install
  install_started r tun m e =
      go (is_running m r.tag) (config_eq (or_no_config (lookup r.tag desired)) r.cfg)
        (ap (λ (o : Option Config). config_eq (or_no_config o) r.cfg) e ∙ config_eq_refl r.cfg)
    where
      next : Manager
      next = record m { tunnels = insert r.tag tun m.tunnels }

      go : (b c : Bool) → c ≡ true → (if b || not c then m else next) ≡ (if b then m else next)
      go true c h = refl
      go false true h = refl
      go false false h = cc h

  -- The manager behind an installation: the tunnel is added unless one with its tag runs.
  abbrev added : Bytes → Tunnel → Manager → Option Tunnel → Manager
  added k tun m o =
      if elim o as (λ _. Bool) [ some t ↦ true | none ↦ false ]
      then m
      else record m { tunnels = insert k tun m.tunnels }

  added-keeps :
      (k tag : Bytes) (tun t : Tunnel) (m : Manager) (o : Option Tunnel)
      → lookup k m.tunnels ≡ o
      → lookup tag m.tunnels ≡ some t
      → lookup tag (added k tun m o).tunnels ≡ some t
  added-keeps k tag tun t m (some u) f e = e
  added-keeps k tag tun t m none f e =
      ground (arith, lookup-insert k tag tun m.tunnels, str_eq_iff k tag, f, e)

  added-IsDesired :
      (k : Bytes) (tun : Tunnel) (m : Manager) (o : Option Tunnel)
      → lookup k desired ≡ some tun.cfg
      → IsDesired desired m.tunnels
      → IsDesired desired (added k tun m o).tunnels
  added-IsDesired k tun m (some u) f d tag t h = d tag t h
  added-IsDesired k tun m none f d tag t h = elim (Bool-cases (str_eq k tag)) [
    | inl same ↦
        let e : some tun ≡ some t = ground (arith, lookup-insert k tag tun m.tunnels, same, h) in
        ap (λ (a : Bytes). lookup a desired) (sym ((str_eq_iff k tag).0 same))
        ∙ f
        ∙ ap
            (λ (x : Option Tunnel). elim x as (λ _. Option Config) [
              | some u ↦ some u.cfg
              | none ↦ none
            ])
            e
    | inr other ↦ d tag t (ground (arith, lookup-insert k tag tun m.tunnels, other, h))
  ]

  added-runs :
      (k : Bytes) (tun : Tunnel) (m : Manager) (o : Option Tunnel)
      → lookup k m.tunnels ≡ o
      → (t : Tunnel) × (lookup k (added k tun m o).tunnels ≡ some t)
  added-runs k tun m (some u) f = (u, f)
  added-runs k tun m none f = (tun, lookup-insert_self k tun m.tunnels)

  module _ (r : Started) (m : Manager) (s : lookup r.tag desired ≡ some r.cfg) where
    install-keeps :
        (o : Option Tunnel) (tag : Bytes) (t : Tunnel)
        → lookup tag m.tunnels ≡ some t
        → lookup tag (install desired r o m).tunnels ≡ some t
    unfolding install
    install-keeps none tag t e = e
    install-keeps (some tun) tag t e =
        ap (λ (x : Manager). lookup tag x.tunnels) (install_started r tun m s)
        ∙ added-keeps r.tag tag tun t m (lookup r.tag m.tunnels) refl e

    install-IsDesired :
        (o : Option Tunnel)
        → HasConfig o r.cfg
        → IsDesired desired m.tunnels
        → IsDesired desired (install desired r o m).tunnels
    unfolding install
    install-IsDesired none c d tag t h = d tag t h
    install-IsDesired (some tun) c d tag t h =
        added-IsDesired r.tag tun m (lookup r.tag m.tunnels) (s ∙ ap some (sym c)) d tag t
          (ap (λ (x : Manager). lookup tag x.tunnels) (sym (install_started r tun m s)) ∙ h)

    install-runs :
        (o : Option Tunnel)
        → is_made o ≡ true
        → (t : Tunnel) × (lookup r.tag (install desired r o m).tunnels ≡ some t)
    install-runs none made = cc made
    install-runs (some tun) made =
        let h = added-runs r.tag tun m (lookup r.tag m.tunnels) refl in
        (h.0, ap (λ (x : Manager). lookup r.tag x.tunnels) (install_started r tun m s) ∙ h.1)

  pub start_tunnels-keeps :
      (tag : Bytes) (t : Tunnel) (results : List Started) (m : Manager)
      → All (IsStart desired) results
      → lookup tag m.tunnels ≡ some t
      → lookup tag (start_tunnels desired results m).1.tunnels ≡ some t
  unfolding start_tunnels
  start_tunnels-keeps tag t [] m s e = e
  start_tunnels-keeps tag t (r ∷ results) m s e =
      ap (λ (x : Manager). lookup tag x.tunnels) (start_tunnels-manager r results m)
      ∙ start_tunnels-keeps tag t results (install desired r r.tun m) s.1
          (install-keeps r m s.0.0 (r.tun) tag t e)

  pub start_tunnels-IsDesired :
      (results : List Started) (m : Manager)
      → All (IsStart desired) results
      → IsDesired desired m.tunnels
      → IsDesired desired (start_tunnels desired results m).1.tunnels
  unfolding start_tunnels
  start_tunnels-IsDesired [] m s d tag t h = d tag t h
  start_tunnels-IsDesired (r ∷ results) m s d tag t h =
      start_tunnels-IsDesired results (install desired r r.tun m) s.1
        (install-IsDesired r m s.0.0 (r.tun) s.0.1 d) tag t
        (ap (λ (x : Manager). lookup tag x.tunnels) (sym (start_tunnels-manager r results m)) ∙ h)

  pub start_tunnels-runs :
      (tag : Bytes) (results : List Started) (m : Manager)
      → All (IsStart desired) results
      → has_started tag results ≡ true
      → (t : Tunnel) × (lookup tag (start_tunnels desired results m).1.tunnels ≡ some t)
  unfolding has_started
  start_tunnels-runs tag [] m s h = cc h
  start_tunnels-runs tag (r ∷ results) m s h =
      by_tag (str_eq r.tag tag && is_made r.tun) refl h
        (start_tunnels-runs tag results (install desired r r.tun m) s.1)
    where
      next : Manager
      next = install desired r r.tun m

      moved :
          lookup tag (start_tunnels desired (r ∷ results) m).1.tunnels
          ≡ lookup tag (start_tunnels desired results next).1.tunnels
      moved = ap (λ (x : Manager). lookup tag x.tunnels) (start_tunnels-manager r results m)

      by_tag :
          (b : Bool)
          → (str_eq r.tag tag && is_made r.tun) ≡ b
          → (b || has_started tag results) ≡ true
          → (has_started tag results ≡ true
              → (t : Tunnel) × (lookup tag (start_tunnels desired results next).1.tunnels ≡ some t))
          → (t : Tunnel) × (lookup tag (start_tunnels desired (r ∷ results) m).1.tunnels ≡ some t)
      by_tag true e h later =
          let k = install-runs r m s.0.0 (r.tun) (ground (arith, e)) in
          let key : r.tag ≡ tag = (str_eq_iff r.tag tag).0 (ground (arith, e)) in
          (
            k.0,
            moved
                ∙ start_tunnels-keeps tag k.0 results next s.1
                    (ap (λ (a : Bytes). lookup a next.tunnels) (sym key) ∙ k.1),
          )
      by_tag false e h later = let k = later h in (k.0, moved ∙ k.1)

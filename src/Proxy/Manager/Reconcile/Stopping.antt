-- ===== src/Proxy/Manager/Reconcile/Stopping.antt =====
-- Which tunnels the first loop of Reconcile leaves.
use mathlib.Core.Path.{subst₂}
use proxy_forge.Prelude.{
  ◌≡◌, refl, sym, ap, ◌∙◌, inl, inr, Bool, true, false, Option, none, some, List, [], ◌∷◌, arith,
  if◌then◌else◌, Bool-cases, All, All-imp, Bytes, str_eq, str_eq_iff,
}
use proxy_forge.Prelude.Assoc.{bytes_key, lookup, lookup-erase}
use proxy_forge.Proxy.Manager.State.{Config, Tunnel, Manager}
use proxy_forge.Proxy.Manager.Reconcile.{config_eq, drop_tunnel, is_wanted, stop_unwanted}
use proxy_forge.Proxy.Manager.Reconcile.Configs.{config_eq_sound, config_eq_refl}

-- Every tunnel that runs has the configuration that is desired for its tag.
abbrev pub IsDesired : List (Bytes × Config) → List (Bytes × Tunnel) → Type 0
IsDesired desired tunnels =
    (tag : Bytes) (t : Tunnel) → lookup tag tunnels ≡ some t → lookup tag desired ≡ some t.cfg

pub is_wanted_sound :
    (desired : List (Bytes × Config)) (tag : Bytes) (t : Tunnel)
    → is_wanted desired tag t ≡ true
    → lookup tag desired ≡ some t.cfg
unfolding is_wanted
is_wanted_sound desired tag t h = go (lookup tag desired) refl h
  where
    go :
        (o : Option Config)
        → lookup tag desired ≡ o
        → elim o as (λ _. Bool) [ some want ↦ config_eq want t.cfg | none ↦ false ] ≡ true
        → lookup tag desired ≡ some t.cfg
    go none e h = cc h
    go (some want) e h = e ∙ ap some (config_eq_sound want t.cfg h)

pub is_wanted_complete :
    (desired : List (Bytes × Config)) (tag : Bytes) (t : Tunnel)
    → lookup tag desired ≡ some t.cfg
    → is_wanted desired tag t ≡ true
unfolding is_wanted
is_wanted_complete desired tag t e =
    ap
      (λ (o : Option Config). elim o as (λ _. Bool) [
        | some want ↦ config_eq want t.cfg
        | none ↦ false
      ])
      e
    ∙ config_eq_refl t.cfg

module _ (desired : List (Bytes × Config)) where
  -- The manager behind one round of the loop.
  abbrev after : Bytes → Tunnel → Manager → Manager
  after tag t m = if is_wanted desired tag t then m else drop_tunnel tag m

  after-lookup :
      (tag k : Bytes) (t u : Tunnel) (m : Manager)
      → lookup tag (after k u m).tunnels ≡ some t
      → lookup tag m.tunnels ≡ some t
  unfolding drop_tunnel
  after-lookup tag k t u m h = go (is_wanted desired k u) h
    where
      go :
          (b : Bool)
          → lookup tag (if b then m else drop_tunnel k m).tunnels ≡ some t
          → lookup tag m.tunnels ≡ some t
      go true h = h
      go false h = ground (arith, lookup-erase k tag m.tunnels, h)

  -- The loop only takes tunnels out.
  stop_unwanted-lookup :
      (tag : Bytes) (t : Tunnel) (tunnels : List (Bytes × Tunnel)) (m : Manager)
      → lookup tag (stop_unwanted desired tunnels m).tunnels ≡ some t
      → lookup tag m.tunnels ≡ some t
  unfolding stop_unwanted
  stop_unwanted-lookup tag t [] m h = h
  stop_unwanted-lookup tag t ((k, u) ∷ tunnels) m h =
      after-lookup tag k t u m (stop_unwanted-lookup tag t tunnels (after k u m) h)

  first_stopped :
      (k tag : Bytes) (u t : Tunnel) (m : Manager)
      → k ≡ tag
      → u ≡ t
      → lookup tag (after k u m).tunnels ≡ some t
      → is_wanted desired tag t ≡ true
  unfolding drop_tunnel
  first_stopped k tag u t m same_key same h = go (is_wanted desired k u) refl h
    where
      go :
          (b : Bool)
          → is_wanted desired k u ≡ b
          → lookup tag (if b then m else drop_tunnel k m).tunnels ≡ some t
          → is_wanted desired tag t ≡ true
      go true e h =
          subst₂ (λ (a : Bytes) (x : Tunnel). is_wanted desired a x ≡ true) same_key same e
      go false e h =
          absurd (ground (arith, lookup-erase k tag m.tunnels, str_eq_iff k tag, h, same_key))

  stopped :
      (tag : Bytes) (t : Tunnel) (tunnels : List (Bytes × Tunnel)) (m : Manager)
      → lookup tag tunnels ≡ some t
      → lookup tag (stop_unwanted desired tunnels m).tunnels ≡ some t
      → is_wanted desired tag t ≡ true
  unfolding stop_unwanted lookup
  stopped tag t [] m e h = cc e
  stopped tag t ((k, u) ∷ tunnels) m e h = elim (Bool-cases (str_eq k tag)) [
    | inr other ↦ stopped tag t tunnels (after k u m) (ground (arith, e, other)) h
    | inl same ↦
        first_stopped k tag u t m ((str_eq_iff k tag).0 same) (ground (arith, e, same))
          (stop_unwanted-lookup tag t tunnels (after k u m) h)
  ]

  -- What is left when the loop ends is desired.
  pub stop_unwanted-IsDesired :
      (m m' : Manager)
      → m'.tunnels ≡ m.tunnels
      → IsDesired desired (stop_unwanted desired m.tunnels m').tunnels
  stop_unwanted-IsDesired m m' same tag t h = is_wanted_sound desired tag t (
      stopped tag t m.tunnels m'
        (ap (λ (l : List (Bytes × Tunnel)). lookup tag l) (sym same)
          ∙ stop_unwanted-lookup tag t m.tunnels m' h)
        h)

  -- A tunnel that is wanted in every entry of its tag stays.
  stop_unwanted-keeps :
      (tag : Bytes) (tunnels : List (Bytes × Tunnel)) (m : Manager)
      → All (λ e. e.0 ≡ tag → is_wanted desired tag e.1 ≡ true) tunnels
      → lookup tag (stop_unwanted desired tunnels m).tunnels ≡ lookup tag m.tunnels
  unfolding stop_unwanted drop_tunnel
  stop_unwanted-keeps tag [] m h = refl
  stop_unwanted-keeps tag ((k, u) ∷ tunnels) m h =
      stop_unwanted-keeps tag tunnels (after k u m) h.1 ∙ go (is_wanted desired k u) refl
    where
      go :
          (b : Bool)
          → is_wanted desired k u ≡ b
          → lookup tag (if b then m else drop_tunnel k m).tunnels ≡ lookup tag m.tunnels
      go true e = refl
      go false e = elim (Bool-cases (str_eq k tag)) [
        | inl same ↦
            let key = (str_eq_iff k tag).0 same in
            cc (e, h.0 key, ap (λ (a : Bytes). is_wanted desired a u) key)
        | inr other ↦ ground (arith, lookup-erase k tag m.tunnels, other)
      ]

  -- The tunnels of a map, which has one entry for a key.
  pub stop_unwanted-wanted :
      (tag : Bytes) (t : Tunnel) (m m' : Manager)
      → All (λ e. lookup e.0 m.tunnels ≡ some e.1) m.tunnels
      → m'.tunnels ≡ m.tunnels
      → lookup tag m.tunnels ≡ some t
      → lookup tag desired ≡ some t.cfg
      → lookup tag (stop_unwanted desired m.tunnels m').tunnels ≡ some t
  stop_unwanted-wanted tag t m m' keyed same e want =
      stop_unwanted-keeps tag m.tunnels m' (
        All-imp (λ (x : Bytes × Tunnel). lookup x.0 m.tunnels ≡ some x.1)
          (λ x. x.0 ≡ tag → is_wanted desired tag x.1 ≡ true)
          (λ x l k. is_wanted_complete desired tag x.1 (
            want
            ∙ ap
                (λ (o : Option Tunnel). elim o as (λ _. Option Config) [
                  | some u ↦ some u.cfg
                  | none ↦ none
                ])
                (sym e ∙ ap (λ (a : Bytes). lookup a m.tunnels) (sym k) ∙ l)))
          m.tunnels keyed)
      ∙ ap (λ (l : List (Bytes × Tunnel)). lookup tag l) same
      ∙ e

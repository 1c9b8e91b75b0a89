-- ===== src/Database/Clients.antt =====
-- AddClientUsage: the table proxy_clients, keyed by client_ip.
use proxy_forge.Prelude.{
  ℕ, ◌+◌, ◌≡◌, refl, ap, ◌∙◌, Bool, true, false, Option, none, some, List, arith, if◌then◌else◌,
  Bytes, str_eq, str_eq_iff, trim_space, is_empty,
}
use proxy_forge.Prelude.Assoc.{bytes_key, lookup, insert, lookup-insert}

pub record ProxyClientUsage : Type 0 where
  pub username : Bytes
  pub account_tag : Bytes
  pub total_up : ℕ
  pub total_down : ℕ
  pub hit_count : ℕ
  pub first_seen : ℕ
  pub last_seen : ℕ

-- The row behind an INSERT … ON CONFLICT DO UPDATE.
unfoldable pub counted : Bytes → Bytes → ℕ → ℕ → ℕ → Option ProxyClientUsage → ProxyClientUsage
counted username tag up down now none = record {
  username = username;
  account_tag = tag;
  total_up = up;
  total_down = down;
  hit_count = 1;
  first_seen = now;
  last_seen = now;
}
counted username tag up down now (some row) = record row {
  username = username;
  account_tag = tag;
  total_up = row.total_up + up;
  total_down = row.total_down + down;
  hit_count = row.hit_count + 1;
  last_seen = now;
}

-- The statement as it succeeds.
unfoldable pub add_client_usage :
    Bytes
    → Bytes
    → Bytes
    → ℕ
    → ℕ
    → ℕ
    → List (Bytes × ProxyClientUsage)
    → List (Bytes × ProxyClientUsage)
unfolding counted
add_client_usage client_ip username tag up down now clients =
    let ip = trim_space client_ip in
    if is_empty ip
    then clients
    else insert ip (counted (trim_space username) (trim_space tag) up down now (lookup ip clients))
        clients

-- What the table says of a client.
abbrev up_of : Option ProxyClientUsage → ℕ
up_of none = 0
up_of (some row) = row.total_up

abbrev down_of : Option ProxyClientUsage → ℕ
down_of none = 0
down_of (some row) = row.total_down

abbrev pub total_up_of : Bytes → List (Bytes × ProxyClientUsage) → ℕ
total_up_of ip clients = up_of (lookup ip clients)

abbrev pub total_down_of : Bytes → List (Bytes × ProxyClientUsage) → ℕ
total_down_of ip clients = down_of (lookup ip clients)

-- The bytes that one call counts for a client.
abbrev pub if_client : Bytes → Bytes → ℕ → ℕ
if_client client ip n = if str_eq (trim_space ip) client then n else 0

module _ (username tag : Bytes) (up down now : ℕ) where
  counted-up :
      (o : Option ProxyClientUsage) → (counted username tag up down now o).total_up ≡ up_of o + up
  unfolding counted
  counted-up none = omega arith
  counted-up (some row) = refl

  counted-down :
      (o : Option ProxyClientUsage)
      → (counted username tag up down now o).total_down ≡ down_of o + down
  unfolding counted
  counted-down none = omega arith
  counted-down (some row) = refl

module _ (client_ip username tag : Bytes) (up down now : ℕ) (client : Bytes)
    (clients : List (Bytes × ProxyClientUsage)) (named : is_empty client ≡ false) where
  abbrev after : List (Bytes × ProxyClientUsage)
  after = add_client_usage client_ip username tag up down now clients

  lookup-add_client_usage : lookup client after ≡ (
      if str_eq (trim_space client_ip) client
      then some (counted (trim_space username) (trim_space tag) up down now (lookup client clients))
      else lookup client clients)
  unfolding add_client_usage
  lookup-add_client_usage =
      go (is_empty (trim_space client_ip)) (str_eq (trim_space client_ip) client) refl refl
    where
      row : Bytes → ProxyClientUsage
      row ip = counted (trim_space username) (trim_space tag) up down now (lookup ip clients)

      ip : Bytes
      ip = trim_space client_ip

      go :
          (b c : Bool)
          → is_empty ip ≡ b
          → str_eq ip client ≡ c
          → lookup client (if b then clients else insert ip (row ip) clients)
            ≡ (if c then some (row client) else lookup client clients)
      go true true e f = cc (e, named, ap is_empty ((str_eq_iff ip client).0 f))
      go true false e f = refl
      go false true e f =
          lookup-insert ip client (row ip) clients
          ∙ (rw f (ap (λ (k : Bytes). some (row k)) ((str_eq_iff ip client).0 f)))
      go false false e f = lookup-insert ip client (row ip) clients ∙ (rw f refl)

  pub add_client_usage-total_up :
      total_up_of client after ≡ total_up_of client clients + if_client client client_ip up
  add_client_usage-total_up = by_test (str_eq (trim_space client_ip) client) lookup-add_client_usage
    where
      by_test :
          (b : Bool)
          → lookup client after ≡ (
              if b
              then some (
                  counted
                    (trim_space username)
                    (trim_space tag)
                    up
                    down
                    now
                    (lookup client clients))
              else lookup client clients)
          → total_up_of client after ≡ total_up_of client clients + (if b then up else 0)
      by_test true e =
          ap up_of e
          ∙ counted-up (trim_space username) (trim_space tag) up down now (lookup client clients)
      by_test false e = omega (arith, ap up_of e)

  pub add_client_usage-total_down :
      total_down_of client after ≡ total_down_of client clients + if_client client client_ip down
  add_client_usage-total_down =
      by_test (str_eq (trim_space client_ip) client) lookup-add_client_usage
    where
      by_test :
          (b : Bool)
          → lookup client after ≡ (
              if b
              then some (
                  counted
                    (trim_space username)
                    (trim_space tag)
                    up
                    down
                    now
                    (lookup client clients))
              else lookup client clients)
          → total_down_of client after ≡ total_down_of client clients + (if b then down else 0)
      by_test true e =
          ap down_of e
          ∙ counted-down (trim_space username) (trim_space tag) up down now (lookup client clients)
      by_test false e = omega (arith, ap down_of e)

-- ===== src/Scheduler/Pool/Shortage.antt =====
-- requiredAccountRegistrations is the least number that fills the pool.
use proxy_forge.Prelude.{
  ℕ, ◌+◌, ◌≤◌, ◌≡◌, refl, sym, ◌↔◌, inl, inr, Bool, true, false, not, ◌||◌, List, [], ◌∷◌, ◌++◌,
  map, arith, if◌then◌else◌, Bool-cases, length, All, select, All-imp, Bytes, str_eq, str_eq_iff,
  str_eq_refl, trim_space, is_empty,
}
use proxy_forge.Models.{Account}
use proxy_forge.Proxy.Manager.State.{Float64}
use proxy_forge.Proxy.Manager.Score.{one_of}
use proxy_forge.Scheduler.Quality.{account_usable}
use proxy_forge.Scheduler.Pool.{
  healthy_account_count, healthy_ips, healthy_unique_ip_count, required_account_registrations,
}

abbrev pub ip_of : Account → Bytes
ip_of a = trim_space a.last_public_ip

abbrev pub is_among : Bytes → List Bytes → Bool
is_among s [] = false
is_among s (t ∷ ts) = str_eq s t || is_among s ts

-- No text stands twice in a list.
abbrev pub AreDistinct : List Bytes → Type 0
AreDistinct [] = Unit {0}
AreDistinct (ip ∷ ips) = (is_among ip ips ≡ false) × AreDistinct ips

one_of-is_among : (s : Bytes) (ts : List Bytes) → one_of s ts ≡ is_among s ts
unfolding one_of
one_of-is_among s [] = refl
one_of-is_among s (t ∷ ts) = ground (arith, one_of-is_among s ts)

-- The different public IPs of some accounts: each stands once, is not empty and is the IP of one of
-- them; and none is missing.
abbrev pub AreIps : List Bytes → List Account → Type 0
AreIps ips accounts =
    AreDistinct ips
    × All (λ ip. (is_empty ip ≡ false) × (is_among ip (map ip_of accounts) ≡ true)) ips
    × All (λ a. (is_empty (ip_of a) || is_among (ip_of a) ips) ≡ true) accounts

AreIps-known :
    (a : Account) (accounts : List Account) (ips : List Bytes)
    → (is_empty (ip_of a) || is_among (ip_of a) ips) ≡ true
    → AreIps ips accounts
    → AreIps ips (a ∷ accounts)
AreIps-known a accounts ips known (distinct, sound, complete) = (
  distinct,
  All-imp (λ ip. (is_empty ip ≡ false) × (is_among ip (map ip_of accounts) ≡ true))
      (λ ip. (is_empty ip ≡ false) × (is_among ip (map ip_of (a ∷ accounts)) ≡ true))
      (λ ip h. (h.0, ground (arith, h.1))) ips sound,
  (known, complete),
)

AreIps-added :
    (a : Account) (accounts : List Account) (ips : List Bytes)
    → (is_empty (ip_of a) || is_among (ip_of a) ips) ≡ false
    → AreIps ips accounts
    → AreIps (ip_of a ∷ ips) (a ∷ accounts)
AreIps-added a accounts ips added (distinct, sound, complete) = (
  (ground (arith, added), distinct),
  (
    (ground (arith, added), ground (arith, str_eq_refl (ip_of a))),
    All-imp (λ ip. (is_empty ip ≡ false) × (is_among ip (map ip_of accounts) ≡ true))
        (λ ip. (is_empty ip ≡ false) × (is_among ip (map ip_of (a ∷ accounts)) ≡ true))
        (λ ip h. (h.0, ground (arith, h.1))) ips sound,
  ),
  (
    ground (arith, str_eq_refl (ip_of a)),
    All-imp (λ b. (is_empty (ip_of b) || is_among (ip_of b) ips) ≡ true)
        (λ b. (is_empty (ip_of b) || is_among (ip_of b) (ip_of a ∷ ips)) ≡ true)
        (λ b h. ground (arith, h)) accounts complete,
  ),
)

not_among :
    (s : Bytes) (ips texts : List Bytes)
    → All (λ ip. (is_empty ip ≡ false) × (is_among ip texts ≡ true)) ips
    → is_among s texts ≡ false
    → is_among s ips ≡ false
not_among s [] texts h k = refl
not_among s (ip ∷ ips) texts h k = elim (Bool-cases (str_eq s ip)) [
  | inl same ↦ let e : s ≡ ip = (str_eq_iff s ip).0 same in cc (e, h.0.1, k)
  | inr other ↦ ground (arith, other, not_among s ips texts h.1 k)
]

module _ (fl : Float64) where
  abbrev pub usable_of : List Account → List Account
  usable_of = select (account_usable fl)

  -- Usable accounts, each with an IP that none of the others and none of the old ones has.
  abbrev pub AreNew : List Account → List Account → Type 0
  AreNew [] old = Unit {0}
  AreNew (a ∷ new) old =
      (account_usable fl a ≡ true)
      × (is_empty (ip_of a) ≡ false)
      × (is_among (ip_of a) (map ip_of (usable_of (new ++ old))) ≡ false)
      × AreNew new old

  healthy_account_count_lem :
      (accounts : List Account) → healthy_account_count fl accounts ≡ length (usable_of accounts)
  unfolding healthy_account_count
  healthy_account_count_lem [] = refl
  healthy_account_count_lem (a ∷ accounts) = ground (arith, healthy_account_count_lem accounts)

  healthy_ips-AreIps :
      (accounts : List Account) → AreIps (healthy_ips fl accounts) (usable_of accounts)
  unfolding healthy_ips
  healthy_ips-AreIps [] = (tt, tt, tt)
  healthy_ips-AreIps (a ∷ accounts) =
      by_test (account_usable fl a) (is_empty (ip_of a)) refl
        (one_of (ip_of a) (healthy_ips fl accounts))
        (sym (one_of-is_among (ip_of a) (healthy_ips fl accounts))) (healthy_ips-AreIps accounts)
    where
      ips : List Bytes
      ips = healthy_ips fl accounts

      by_test :
          (u e : Bool)
          → is_empty (ip_of a) ≡ e
          → (o : Bool) → is_among (ip_of a) ips ≡ o
          → AreIps ips (usable_of accounts)
          → AreIps
              (if not u then ips else if e || o then ips else ip_of a ∷ ips)
              (if u then a ∷ usable_of accounts else usable_of accounts)
      by_test false e p o q h = h
      by_test true true p o q h = AreIps-known a (usable_of accounts) ips (ground (arith, p)) h
      by_test true false p true q h = AreIps-known a (usable_of accounts) ips (ground (arith, q)) h
      by_test true false p false q h =
          AreIps-added a (usable_of accounts) ips (ground (arith, p, q)) h

  length-usable_of :
      (new old : List Account)
      → AreNew new old
      → length (usable_of (new ++ old)) ≡ length new + length (usable_of old)
  length-usable_of [] old h = omega arith
  length-usable_of (a ∷ new) old h = ground (arith, h.0, length-usable_of new old h.3)

  length-healthy_ips :
      (new old : List Account)
      → AreNew new old
      → length (healthy_ips fl (new ++ old)) ≡ length new + length (healthy_ips fl old)
  unfolding healthy_ips
  length-healthy_ips [] old h = omega arith
  length-healthy_ips (a ∷ new) old h =
      let ips = healthy_ips fl (new ++ old) in
      let fresh : is_among (ip_of a) ips ≡ false =
        not_among (ip_of a) ips (map ip_of (usable_of (new ++ old)))
          (healthy_ips-AreIps (new ++ old)).1 h.2 in
      ground (arith, h.0, h.1, fresh, one_of-is_among (ip_of a) ips, length-healthy_ips new old h.3)

  -- However many usable accounts with new public IPs are added, the pool has its target number of
  -- usable accounts, and these have as many different IPs as there are slots, exactly if at least as
  -- many were added as requiredAccountRegistrations says.
  pub required_account_registrations-least :
      (slot_count target_pool : ℕ) (new old : List Account)
      → AreNew new old
      → (ips : List Bytes) × AreIps ips (usable_of (new ++ old))
        × ((required_account_registrations fl slot_count target_pool old ≤ length new)
            ↔ ((target_pool ≤ length (usable_of (new ++ old))) × (slot_count ≤ length ips)))
  unfolding required_account_registrations healthy_unique_ip_count
  required_account_registrations-least slot_count target_pool new old h = (
    healthy_ips fl (new ++ old),
    healthy_ips-AreIps (new ++ old),
    ground (
      arith,
      healthy_account_count_lem old,
      length-usable_of new old h,
      length-healthy_ips new old h,
    ),
  )

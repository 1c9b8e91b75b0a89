-- ===== src/Scheduler/Binding/Rebound.antt =====
-- What rebindProxySlots leaves in the database.
use proxy_forge.Prelude.{
  ℕ, ◌≡◌, refl, subst, ◌≢◌, Bool, true, false, not, ◌&&◌, none, some, List, [], ◌∷◌, if◌then◌else◌,
  All, select, All-select, Bytes,
}
use proxy_forge.Models.{Account, ProxySlot}
use proxy_forge.Database.{account_by_id, Store}
use proxy_forge.Database.Rows.{slot_by_id}
use proxy_forge.Proxy.Manager.State.{Float64}
use proxy_forge.Proxy.Manager.Rank.{insert_by, sort_by}
use proxy_forge.Scheduler.Quality.{
  runs_in, account_usable, better_account, ranked_accounts_with_running,
}
use proxy_forge.Scheduler.Binding.{
  has_id, filter_blocked_accounts, blocked_accounts, rebind_start, rebind_candidates, rebind_loop,
  rebind_proxy_slots, Rebind,
}
use proxy_forge.Scheduler.Binding.Effects.{Bound}
use proxy_forge.Scheduler.Binding.Unique.{Apart}
use proxy_forge.Scheduler.Binding.Loop.{Distinct, Distinct-rows, rebind_loop-Inv, Passed, Inv}

-- The ID of an account is its key.
abbrev pub Keyed : List Account → Type 0
Keyed accounts = All (λ a. account_by_id a.id accounts ≡ some a) accounts

module _ {ℓ κ} {A : Type ℓ} (P : A → Type κ) (less : A → A → Bool) where
  All-insert_by : (x : A) (ys : List A) → P x → All P ys → All P (insert_by less x ys)
  unfolding insert_by
  All-insert_by x [] h k = (h, tt)
  All-insert_by x (y ∷ ys) h k = go (less y x) (insert_by less x ys) (All-insert_by x ys h k.1)
    where
      go : (b : Bool) (rest : List A) → All P rest → All P (if b then y ∷ rest else x ∷ y ∷ ys)
      go true rest r = (k.0, r)
      go false rest r = (h, k)

  pub All-sort_by : (xs : List A) → All P xs → All P (sort_by less xs)
  unfolding sort_by
  All-sort_by [] h = tt
  All-sort_by (x ∷ xs) h = All-insert_by x (sort_by less xs) h.0 (All-sort_by xs h.1)

slot_by_id-nil : (n : ℕ) → slot_by_id n [] ≡ none
unfolding slot_by_id
slot_by_id-nil n = refl

module _ (fl : Float64) (now : ℕ) (running : List Bytes) (db : Store) where
  pub rebind_candidates-All {κ} :
      (P : Account → Type κ) → All P db.accounts → All P (rebind_candidates fl now running db)
  unfolding rebind_candidates filter_blocked_accounts ranked_accounts_with_running
  rebind_candidates-All P h =
      All-select P (λ a. not (has_id a.id (blocked_accounts db.slots)))
        (sort_by (better_account fl now)
          (select (λ a. account_usable fl a && runs_in (some running) a.tag) db.accounts))
        (All-sort_by P (better_account fl now)
          (select (λ a. account_usable fl a && runs_in (some running) a.tag) db.accounts)
          (All-select P (λ a. account_usable fl a && runs_in (some running) a.tag) db.accounts h))

  module _ (fails : ℕ → Bool) where
    -- Before the loop every row waits.
    rebind_start-Inv : Distinct db.slots → Inv db.accounts db.slots (rebind_start db)
    unfolding rebind_start
    rebind_start-Inv distinct = record {
      waiting = Distinct-rows db.slots distinct;
      same = refl;
      marked = λ i x p h. cc (h.not_waiting, h.row_of);
      apart = λ i j x y p q o h k. cc (h.not_waiting, h.row_of);
    }

    -- If the IDs of slots and of accounts are keys and rebindProxySlots returns no error, then behind
    -- it no two active slots have the same account, and no two of them the same public IP.
    pub rebind_proxy_slots-Apart :
        Distinct db.slots
        → Keyed db.accounts
        → let result = rebind_proxy_slots fails fl now running db in
          result.failed ≡ false
          → (i j : ℕ) (x y : ProxySlot) (p q : Account) → i ≢ j
          → slot_by_id i result.db.slots ≡ some x
          → slot_by_id j result.db.slots ≡ some y
          → Bound result.db.accounts x p
          → Bound result.db.accounts y q
          → Apart x p y q
    unfolding rebind_proxy_slots
    rebind_proxy_slots-Apart distinct keyed ok i j x y p q other h k b c =
        inv.apart i j x y p q other (passed i x p h b) (passed j y q k c)
      where
        candidates : List Account
        candidates = rebind_candidates fl now running db

        last : Rebind
        last = rebind_loop fails db.accounts candidates db.slots (rebind_start db)

        inv : Inv db.accounts [] last
        inv =
            rebind_loop-Inv fails db.accounts candidates db.slots (rebind_start db)
              (rebind_candidates-All (λ a. account_by_id a.id db.accounts ≡ some a) keyed) distinct
              (rebind_start-Inv distinct) ok

        passed :
            (n : ℕ) (z : ProxySlot) (a : Account)
            → slot_by_id n last.db.slots ≡ some z
            → Bound last.db.accounts z a
            → Passed db.accounts [] last.db.slots n z a
        passed n z a r b = record {
          not_waiting = slot_by_id-nil n;
          row_of = r;
          bound_to = subst (λ (l : List Account). Bound l z a) inv.same b;
        }

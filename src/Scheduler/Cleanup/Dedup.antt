-- ===== src/Scheduler/Cleanup/Dedup.antt =====
-- The loops of applyDedup.
use proxy_forge.Prelude.{
  ℕ, suc, ◌≡◌, refl, Bool, true, false, not, ◌&&◌, some, List, [], ◌∷◌, ◌==◌, if◌then◌else◌, Bytes,
  str_eq,
}
use proxy_forge.Prelude.Assoc.{bytes_key, number_key, insert}
use proxy_forge.Models.{Account}
use proxy_forge.Database.{exec, delete_account, set_ip_keeper, clear_ip_keeper_except, Store}
use proxy_forge.Proxy.Manager.State.{Float64}
use proxy_forge.Scheduler.Binding.{has_id}
use proxy_forge.Scheduler.Cleanup.{
  ip_keeper, disable_account, dedup_account, dedup_members, name_keeper, dedup_group, dedup_groups,
  Deduped,
}
use proxy_forge.Scheduler.Cleanup.Spares.{
  Covers, Spares-refl, Spares-trans, update-Spares, pool-Spares, Spares,
}
use proxy_forge.Scheduler.Cleanup.Deletions.{disable_account-db, delete-db-Spares, then-Spares}

module _ (fails : ℕ → Bool) (bound : List ℕ) where
  dedup_account-Spares :
      (keeper : ℕ) (a : Account) (st : Deduped)
      → Covers bound st.db.slots
      → Spares bound st.db (dedup_account fails bound keeper a st).db
  unfolding dedup_account
  dedup_account-Spares keeper a st c = go (a.id == keeper) (has_id a.id bound) refl
    where
      removed : Deduped
      removed = disable_account fails (delete_account fails a.id st.db) st

      go :
          (b d : Bool)
          → has_id a.id bound ≡ d
          → let r : Deduped =
              if b
              then record st { kept = suc st.kept }
              else if d
              then record st { kept = suc st.kept }
              else removed in
            Spares bound st.db r.db
      go true d e = Spares-refl bound st.db
      go false true e = Spares-refl bound st.db
      go false false e =
          delete-db-Spares fails bound a.id st.db removed.db e c
            (disable_account-db fails (delete_account fails a.id st.db) st)

  dedup_members-Spares :
      (keeper : ℕ) (group : List Account) (st : Deduped)
      → Covers bound st.db.slots
      → Spares bound st.db (dedup_members fails bound keeper group st).db
  unfolding dedup_members
  dedup_members-Spares keeper [] st c = Spares-refl bound st.db
  dedup_members-Spares keeper (a ∷ group) st c =
      let next = dedup_account fails bound keeper a st in
      then-Spares fails bound st.db next.db (dedup_members fails bound keeper group next).db
        (dedup_account-Spares keeper a st c) c (dedup_members-Spares keeper group next)

  set_ip_keeper-Spares :
      (ip : Bytes) (n : ℕ) (db : Store) → Spares bound db (set_ip_keeper fails ip n db).1
  unfolding set_ip_keeper
  set_ip_keeper-Spares ip n db =
      Spares-trans bound db first (set_ip_keeper fails ip n db).1
        (pool-Spares fails bound (insert ip (some n)) db)
        (update-Spares fails bound (λ a. str_eq a.last_public_ip ip)
          (λ a. record a { is_ip_keeper = a.id == n }) (λ a. refl) first)
    where
      first : Store
      first = (exec fails (λ d. record d { ip_pool = insert ip (some n) d.ip_pool }) db).1

  name_keeper-Spares :
      (ip : Bytes) (n : ℕ) (st : Deduped) → Spares bound st.db (name_keeper fails ip n st).db
  unfolding name_keeper clear_ip_keeper_except
  name_keeper-Spares ip n st =
      let named = (set_ip_keeper fails ip n st.db).1 in
      Spares-trans bound st.db named (name_keeper fails ip n st).db
        (set_ip_keeper-Spares ip n st.db)
        (update-Spares fails bound (λ a. str_eq a.last_public_ip ip && not (a.id == n))
          (λ a. record a { is_ip_keeper = false }) (λ a. refl) named)

  pub dedup_groups-Spares :
      (fl : Float64) (now : ℕ) (groups : List (Bytes × List Account)) (st : Deduped)
      → Covers bound st.db.slots
      → Spares bound st.db (dedup_groups fails fl now bound groups st).db
  unfolding dedup_groups dedup_group
  dedup_groups-Spares fl now [] st c = Spares-refl bound st.db
  dedup_groups-Spares fl now ((ip, []) ∷ groups) st c = dedup_groups-Spares fl now groups st c
  dedup_groups-Spares fl now ((ip, a ∷ group) ∷ groups) st c =
      let keeper = ip_keeper fl now bound a group in
      let named = name_keeper fails ip keeper.id st in
      let next = dedup_members fails bound keeper.id (a ∷ group) named in
      then-Spares fails bound st.db next.db (dedup_groups fails fl now bound groups next).db
        (then-Spares fails bound st.db named.db next.db (name_keeper-Spares ip keeper.id st) c
          (dedup_members-Spares keeper.id (a ∷ group) named))
        c (dedup_groups-Spares fl now groups next)

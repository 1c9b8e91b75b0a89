-- ===== src/Scheduler/Cleanup/Keeper.antt =====
-- betterIPKeeper: which of the accounts with one IP is kept.
use proxy_forge.Prelude.{
  ℕ, ◌≡◌, refl, ◌∙◌, Bool, true, false, not, ◌&&◌, ◌||◌, List, [], ◌∷◌, arith, if◌then◌else◌,
}
use proxy_forge.Models.{Account}
use proxy_forge.Proxy.Manager.State.{Float64}
use proxy_forge.Scheduler.Binding.{has_id}
use proxy_forge.Scheduler.Quality.{account_quality_score}
use proxy_forge.Scheduler.Cleanup.{better_ip_keeper, ip_keeper}

unfoldable pub any_bound : List ℕ → List Account → Bool
any_bound bound [] = false
any_bound bound (a ∷ group) = has_id a.id bound || any_bound bound group

module _ (fl : Float64) (now : ℕ) (bound : List ℕ) where
  better_ip_keeper-has_id :
      (a k : Account)
      → has_id (if better_ip_keeper fl now bound a k then a else k).id bound
        ≡ (has_id a.id bound || has_id k.id bound)
  unfolding better_ip_keeper
  better_ip_keeper-has_id a k =
      go (has_id a.id bound) (has_id k.id bound)
        (fl.flt (account_quality_score fl now a) (account_quality_score fl now k)) refl refl
    where
      go :
          (b c f : Bool)
          → has_id a.id bound ≡ b
          → has_id k.id bound ≡ c
          → let better : Bool = if b && not c then true else if not b && c then false else f in
            let kept : Account = if better then a else k in has_id kept.id bound ≡ (b || c)
      go true true true h i = h
      go true true false h i = i
      go true false f h i = h
      go false true f h i = i
      go false false true h i = h
      go false false false h i = i

  -- The account that keeps an IP is one that an active slot is bound to exactly if some account with
  -- that IP is, so that no bound account gives way to one that is not.
  pub ip_keeper-has_id :
      (keeper : Account) (group : List Account)
      → has_id (ip_keeper fl now bound keeper group).id bound ≡ any_bound bound (keeper ∷ group)
  unfolding ip_keeper any_bound
  ip_keeper-has_id keeper [] = ground arith
  ip_keeper-has_id keeper (a ∷ group) =
      ip_keeper-has_id (if better_ip_keeper fl now bound a keeper then a else keeper) group
      ∙ ground (arith, better_ip_keeper-has_id a keeper)

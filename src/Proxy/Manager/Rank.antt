-- ===== src/Proxy/Manager/Rank.antt =====
-- `candidatesLocked` and `rankedStableCandidatesLocked`: the tunnels of the pool, best first.
use proxy_forge.Prelude.{
  ℕ, Bool, true, false, not, ◌&&◌, List, [], ◌∷◌, map, if◌then◌else◌, select, str_lt,
}
use proxy_forge.Proxy.Manager.State.{meta_of, Float64, Tunnel, Manager}
use proxy_forge.Proxy.Manager.Score.{selection_score}

-- sort.Slice with a comparison: here by insertion.
module _ {ℓ} {A : Type ℓ} (less : A → A → Bool) where
  unfoldable pub insert_by : A → List A → List A
  insert_by x [] = x ∷ []
  insert_by x (y ∷ ys) = let rest = insert_by x ys in if less y x then y ∷ rest else x ∷ y ∷ ys

  unfoldable pub sort_by : List A → List A
  unfolding insert_by
  sort_by [] = []
  sort_by (x ∷ xs) = insert_by x (sort_by xs)

module _ (fl : Float64) (m : Manager) where
  open fl use {flt, fle, feq, literal}

  -- A loss of 80 % or more takes a tunnel out.
  unfoldable pub is_candidate : Bool → Tunnel → Bool
  is_candidate keepers_only t =
      let meta = meta_of m t.cfg.tag in
      if keepers_only && not meta.is_keeper
      then false
      else if fle (literal 80 2) meta.packet_loss
      then false
      else true

  unfoldable pub candidates : Bool → List Tunnel
  candidates keepers_only = select (is_candidate keepers_only) (map (λ p. p.1) m.tunnels)

  unfoldable pub ranks_before : ℕ → Tunnel → Tunnel → Bool
  ranks_before now a b =
      let sa = selection_score fl m now a in
      let sb = selection_score fl m now b in
      if feq sa sb then str_lt a.cfg.tag b.cfg.tag else flt sa sb

  -- The keepers, or every candidate if no keeper is one.
  unfoldable pub pool : List Tunnel
  pool = elim (candidates true) [ [] ↦ candidates false | t ∷ ts ↦ t ∷ ts ]

  unfoldable pub ranked_stable_candidates : ℕ → List Tunnel
  ranked_stable_candidates now = sort_by (ranks_before now) pool

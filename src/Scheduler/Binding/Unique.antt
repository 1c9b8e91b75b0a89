-- ===== src/Scheduler/Binding/Unique.antt =====
-- The invariant of the loop of rebindProxySlots: the slots behind it share no account and no IP.
use proxy_forge.Prelude.{
  ℕ, ◌≡◌, sym, ap, ◌∙◌, subst, ◌≢◌, Bool, true, false, not, some, List, ◌∷◌, arith, if◌then◌else◌,
  Bytes, str_eq_iff, is_empty,
}
use proxy_forge.Models.{Account, ProxySlot}
use proxy_forge.Proxy.Manager.Score.{one_of}
use proxy_forge.Scheduler.Binding.{has_id, slot_effective_ip, ip_taken, use_ip, use_account, Used}
use proxy_forge.Scheduler.Binding.Effects.{Bound, Fresh, Outcome, vacant, fresh}

abbrev pub effective_ip : ProxySlot → Account → Bytes
effective_ip x p = slot_effective_ip x (some p)

-- The account and the IP of a bound slot are recorded.
pub record Marked (x : ProxySlot) (p : Account) (used : Used) : Type 0 where
  pub id_marked : has_id p.id used.accounts ≡ true
  pub ip_marked : is_empty (effective_ip x p) ≡ false → one_of (effective_ip x p) used.ips ≡ true

pub record Apart (x : ProxySlot) (p : Account) (y : ProxySlot) (q : Account) : Type 0 where
  pub other_account : p.id ≢ q.id
  pub other_ip : is_empty (effective_ip x p) ≡ false → effective_ip x p ≢ effective_ip y q

pub Apart-sym : (x y : ProxySlot) (p q : Account) → Apart x p y q → Apart y q x p
Apart-sym x y p q h = record {
  other_account = λ e. h.other_account (sym e);
  other_ip = λ full e. h.other_ip (ap is_empty (sym e) ∙ full) (sym e);
}

module _ (n : ℕ) (ip : Bytes) (used : Used) where
  use_account-has_id : has_id n (use_account n ip used).accounts ≡ true
  unfolding has_id use_account
  use_account-has_id = ground arith

  use_account-one_of : is_empty ip ≡ false → one_of ip (use_account n ip used).ips ≡ true
  unfolding one_of use_account use_ip
  use_account-one_of full = ground (arith, str_eq_iff ip ip)

  use_account-Marked :
      (x : ProxySlot) (p : Account) → Marked x p used → Marked x p (use_account n ip used)
  unfolding one_of use_account use_ip has_id
  use_account-Marked x p h = record {
    id_marked = ground (arith, h.id_marked);
    ip_marked = λ full. by_test (is_empty ip) (h.ip_marked full);
  }
    where
      by_test :
          (b : Bool)
          → one_of (effective_ip x p) used.ips ≡ true
          → one_of (effective_ip x p) (if not b then ip ∷ used.ips else used.ips) ≡ true
      by_test true e = e
      by_test false e = ground (arith, e)

-- A new binding shares nothing with a recorded one.
pub Fresh-Apart :
    (accounts : List Account) (x y : ProxySlot) (p q : Account) (before after : Used)
    → Fresh accounts x p before after
    → Marked y q before
    → Apart x p y q
unfolding ip_taken
Fresh-Apart accounts x y p q before after f m = record {
  other_account = λ e. cc (f.unused, m.id_marked, ap (λ (n : ℕ). has_id n before.accounts) e);
  other_ip = λ full e.
      let taken : one_of (effective_ip x p) before.ips ≡ true =
        ap (λ (ip : Bytes). one_of ip before.ips) e ∙ m.ip_marked (ap is_empty (sym e) ∙ full) in
      ground (arith, f.untaken, taken, full);
}

pub Fresh-Marked :
    (accounts : List Account) (x : ProxySlot) (p : Account) (before after : Used)
    → Fresh accounts x p before after
    → Marked x p after
Fresh-Marked accounts x p before after f =
    subst (λ (u : Used). Marked x p u) (sym f.recorded)
      (record {
        id_marked = use_account-has_id p.id (effective_ip x p) before;
        ip_marked = use_account-one_of p.id (effective_ip x p) before;
      })

pub Outcome-keeps-Marked :
    (accounts : List Account) (z x : ProxySlot) (p : Account) (before after : Used)
    → Outcome accounts z before after
    → Marked x p before
    → Marked x p after
Outcome-keeps-Marked accounts z x p before after (vacant v e) m =
    subst (λ (u : Used). Marked x p u) (sym e) m
Outcome-keeps-Marked accounts z x p before after (fresh q f) m =
    subst (λ (u : Used). Marked x p u) (sym f.recorded)
      (use_account-Marked q.id (effective_ip z q) before x p m)

-- A row behind the step of a slot is the one that the step found out about.
pub Outcome-Fresh :
    (accounts : List Account) (x : ProxySlot) (p : Account) (before after : Used)
    → Outcome accounts x before after
    → Bound accounts x p
    → Fresh accounts x p before after
Outcome-Fresh accounts x p before after (vacant v e) b = absurd (v p b)
Outcome-Fresh accounts x p before after (fresh q f) b =
    subst (λ (a : Account). Fresh accounts x a before after) (cc (f.bound.account, b.account)) f

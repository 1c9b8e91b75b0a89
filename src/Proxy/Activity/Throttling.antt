-- ===== src/Proxy/Activity/Throttling.antt =====
-- The limit on the failure lines of activity.go.
use proxy_forge.Prelude.{
  ℕ, ◌-◌, ◌≤◌, ◌<◌, ◌≡◌, inl, inr, true, false, some, List, [], ◌∷◌, arith, Bool-cases, All, select,
  Bytes, str_eq_iff,
}
use proxy_forge.Prelude.Assoc.{bytes_key, lookup, insert, lookup-insert, lookup-insert_self}
use proxy_forge.Proxy.Manager.Score.{minute}
use proxy_forge.Proxy.Activity.{recent, forget_old, within, throttle}

-- An entry of the last minute is never forgotten, so that it stays until its own key speaks again.
lookup-select-recent :
    (now : ℕ) (key : Bytes) (t : ℕ) (seen : List (Bytes × ℕ))
    → lookup key seen ≡ some t
    → now - t ≤ minute
    → lookup key (select (recent now) seen) ≡ some t
unfolding recent lookup
lookup-select-recent now key t [] h young = h
lookup-select-recent now key t ((k, u) ∷ seen) h young =
    ground (arith, lookup-select-recent now key t seen)

forget_old_keeps :
    (now : ℕ) (key : Bytes) (t : ℕ) (seen : List (Bytes × ℕ))
    → lookup key seen ≡ some t
    → now - t ≤ minute
    → lookup key (forget_old now seen) ≡ some t
unfolding forget_old
forget_old_keeps now key t seen h young =
    ground (arith, lookup-select-recent now key t seen h young)

throttle_keeps :
    (window now : ℕ) (key other : Bytes) (t : ℕ) (seen : List (Bytes × ℕ))
    → lookup key seen ≡ some t
    → now - t < window
    → window ≤ minute
    → lookup key (throttle window other now seen).1 ≡ some t
unfolding throttle
throttle_keeps window now key other t seen h soon short =
    elim (Bool-cases (within window now (lookup other seen))) [
      | inl quiet ↦ rw quiet h
      | inr speaks ↦
          rw speaks (forget_old_keeps now key t (insert other now seen) (kept speaks) (omega arith))
    ]
  where
    kept :
        within window now (lookup other seen) ≡ false → lookup key (insert other now seen) ≡ some t
    kept speaks = ground (arith, lookup-insert other key now seen, str_eq_iff other key)

-- Failures of any keys, one after the other, with their times.
unfoldable pub throttle_all : ℕ → List (Bytes × ℕ) → List (Bytes × ℕ) → List (Bytes × ℕ)
throttle_all window [] seen = seen
throttle_all window ((key, now) ∷ calls) seen =
    throttle_all window calls (throttle window key now seen).1

throttle_all_keeps :
    (window : ℕ) (key : Bytes) (t : ℕ) (calls seen : List (Bytes × ℕ))
    → lookup key seen ≡ some t
    → All (λ c. c.1 - t < window) calls
    → window ≤ minute
    → lookup key (throttle_all window calls seen) ≡ some t
unfolding throttle_all
throttle_all_keeps window key t [] seen h soon short = h
throttle_all_keeps window key t ((other, now) ∷ calls) seen h (soon, later) short =
    throttle_all_keeps window key t calls (throttle window other now seen).1
      (throttle_keeps window now key other t seen h soon short) later short

quiet_after :
    (window : ℕ) (key : Bytes) (now t : ℕ) (seen : List (Bytes × ℕ))
    → lookup key seen ≡ some t
    → now - t < window
    → (throttle window key now seen).0 ≡ false
unfolding throttle
quiet_after window key now t seen h soon = rw h (ground arith)

-- A key that has got a line gets no other one until its window is over, whatever other failures
-- come in between and however many keys are known: the pruning never takes it out.
pub throttle_quiet :
    (window : ℕ) (key : Bytes) (t now : ℕ) (calls seen : List (Bytes × ℕ))
    → window ≤ minute
    → (throttle window key t seen).0 ≡ true
    → All (λ c. c.1 - t < window) calls
    → now - t < window
    → (throttle window key now (throttle_all window calls (throttle window key t seen).1)).0 ≡ false
unfolding throttle
throttle_quiet window key t now calls seen short said soon last =
    elim (Bool-cases (within window t (lookup key seen))) [
      | inl quiet ↦ cc (rw quiet at said)
      | inr speaks ↦ rw speaks (
          quiet_after window key now t _
            (throttle_all_keeps window key t calls (forget_old t (insert key t seen))
              (forget_old_keeps t key t (insert key t seen) (lookup-insert_self key t seen)
                (omega arith))
              soon short)
            last)
    ]

-- ===== src/Io/Writers.antt =====
-- A Go io.Writer. Each Write call is answered by the head of a script: it takes at most so many of
-- the bytes and returns nil or an error. When the script is used up every call takes all its bytes.
use proxy_forge.Prelude.{
  ℕ, zero, suc, ◌≡◌, refl, sym, ap, ◌∙◌, ◌⊎◌, inl, inr, List, [], ◌∷◌, ◌++◌, append_assoc,
  append-nil, arith, ltb, if◌then◌else◌, length, take, drop, take-append-drop, Bytes,
}
use proxy_forge.Io.{Error, short_write, write_failed, out_of_fuel, Result, ok, err}

pub data Answer : Type 0 where
  wrote : ℕ → Answer
  failed : ℕ → Answer

pub record Writer : Type 0 where
  pub sent : Bytes
  pub script : List Answer

-- A Go call that writes and returns (value, error).
abbrev pub Writing : Type 0 → Type 0
Writing A = Writer → Result A × Writer

infixl 5 ◌>>=◌ ◌>>◌
abbrev pub ◌>>=◌ : {A B : Type 0} → Writing A → (A → Writing B) → Writing B
◌>>=◌ m f w = let (r, w') = m w in elim r [ ok a ↦ f a w' | err e ↦ (err e, w') ]

abbrev pub ◌>>◌ : {B : Type 0} → Writing (Unit {0}) → Writing B → Writing B
m >> k = m >>= λ _. k

abbrev pub return : {A : Type 0} → A → Writing A
return a w = (ok a, w)

abbrev pub refuse : {A : Type 0} → Error → Writing A
refuse e w = (err e, w)

-- One Write of a whole slice, as `io.Copy` from a bytes.Reader makes it: taking less is an error.
answer_once : List Answer → Bytes → Bytes → Result ℕ × Writer
answer_once [] sent p = (ok (length p), record { sent = sent ++ p; script = [] })
answer_once (wrote k ∷ script) sent p =
    if ltb k (length p)
    then (err short_write, record { sent = sent ++ take k p; script = script })
    else (ok (length p), record { sent = sent ++ p; script = script })
answer_once (failed k ∷ script) sent p =
    (err write_failed, record { sent = sent ++ take k p; script = script })

unfoldable pub write_once : Bytes → Writing ℕ
unfolding answer_once
write_once p w = answer_once w.script w.sent p

-- The loop of `writeFull`: it goes on while bytes are left, and a call that takes none is an error.
-- Each round reads one answer, so it ends.
unfoldable pub write_loop : List Answer → Bytes → Bytes → Result (Unit {0}) × Writer
write_loop [] sent p = (ok tt, record { sent = sent ++ p; script = [] })
write_loop (a ∷ script) sent [] = (ok tt, record { sent = sent; script = a ∷ script })
write_loop (failed k ∷ script) sent (b ∷ p) =
    (err write_failed, record { sent = sent ++ take k (b ∷ p); script = script })
write_loop (wrote zero ∷ script) sent (b ∷ p) =
    (err short_write, record { sent = sent; script = script })
write_loop (wrote (suc k) ∷ script) sent (b ∷ p) =
    write_loop script (sent ++ (b ∷ take k p)) (drop k p)

unfoldable pub write_full : Bytes → Writing (Unit {0})
unfolding write_loop
write_full p w = write_loop w.script w.sent p

-- The outcomes of sending `p` after `sent`: all of it with no error, or a front part with one.
pub data Sends (sent p : Bytes) : Result (Unit {0}) × Writer → Type 0 where
  whole : (w : Writer) → w.sent ≡ sent ++ p → Sends sent p (ok tt, w)
  part :
      (e : Error) (front back : Bytes) (w : Writer)
      → p ≡ front ++ back
      → w.sent ≡ sent ++ front
      → Sends sent p (err e, w)

Sends-chunk :
    (sent p : Bytes) (k : ℕ) {r : Result (Unit {0}) × Writer}
    → Sends (sent ++ take k p) (drop k p) r
    → Sends sent p r
Sends-chunk sent p k (whole w e) =
    whole w (e ∙ append_assoc sent (take k p) (drop k p) ∙ ap (◌++◌ sent) (take-append-drop k p))
Sends-chunk sent p k (part e front back w split q) =
    part e (take k p ++ front) back w
      (sym (take-append-drop k p)
        ∙ ap (◌++◌ (take k p)) split
        ∙ sym (append_assoc (take k p) front back))
      (q ∙ append_assoc sent (take k p) front)

-- `writeFull` never writes anything but a front part of its bytes, and all of them unless it fails.
pub write_loop-Sends :
    (script : List Answer) (sent p : Bytes) → Sends sent p (write_loop script sent p)
unfolding write_loop
write_loop-Sends [] sent p = whole _ refl
write_loop-Sends (failed k ∷ script) sent [] = whole _ (sym (append-nil sent))
write_loop-Sends (wrote k ∷ script) sent [] = whole _ (sym (append-nil sent))
write_loop-Sends (failed k ∷ script) sent (b ∷ p) =
    part write_failed (take k (b ∷ p)) (drop k (b ∷ p)) _ (sym (take-append-drop k (b ∷ p))) refl
write_loop-Sends (wrote zero ∷ script) sent (b ∷ p) =
    part short_write [] (b ∷ p) _ refl (sym (append-nil sent))
write_loop-Sends (wrote (suc k) ∷ script) sent (b ∷ p) =
    Sends-chunk sent (b ∷ p) (suc k) (write_loop-Sends script (sent ++ (b ∷ take k p)) (drop k p))

pub write_full-Sends : (p : Bytes) (w : Writer) → Sends w.sent p (write_full p w)
unfolding write_full
write_full-Sends p w = write_loop-Sends w.script w.sent p

-- With no script the network takes everything.
pub write_full_lem :
    (p sent : Bytes)
    → write_full p (record { sent = sent; script = [] })
      ≡ (ok tt, record { sent = sent ++ p; script = [] })
unfolding write_full
write_full_lem p sent = refl

-- A successful `writeFull` has written all its bytes.
pub write_full_ok :
    (p : Bytes) (w w' : Writer) → write_full p w ≡ (ok tt, w') → w'.sent ≡ w.sent ++ p
write_full_ok p w w' h = from_Sends (write_full p w) (write_full-Sends p w) h
  where
    from_Sends :
        (r : Result (Unit {0}) × Writer)
        → Sends w.sent p r
        → r ≡ (ok tt, w')
        → w'.sent ≡ w.sent ++ p
    from_Sends _ (whole v e) h = cc
    from_Sends _ (part x front back v split e) h = cc

-- Inversion of a sequence that succeeds.
pub >>-ok :
    {B : Type 0} (m : Writing (Unit {0})) (k : Writing B) (b : B) (w w' : Writer)
    → (m >> k) w ≡ (ok b, w')
    → (v : Writer) × (m w ≡ (ok tt, v)) × (k v ≡ (ok b, w'))
>>-ok {B} m k b w w' h = split (m w) refl h
  where
    split :
        (r : Result (Unit {0}) × Writer)
        → m w ≡ r
        → (elim (r.0) [ ok a ↦ k r.1 | err e ↦ (err e, r.1) ]) ≡ (ok b, w')
        → (v : Writer) × (m w ≡ (ok tt, v)) × (k v ≡ (ok b, w'))
    split (ok a, v) e q = (v, e, q)
    split (err x, v) e q = cc

answer_once_ok :
    (script : List Answer) (sent p : Bytes) (n : ℕ) (w' : Writer)
    → answer_once script sent p ≡ (ok n, w')
    → (n ≡ length p) × (w'.sent ≡ sent ++ p)
unfolding answer_once
answer_once_ok [] sent p n w' h = ground arith
answer_once_ok (wrote k ∷ script) sent p n w' h = ground arith
answer_once_ok (failed k ∷ script) sent p n w' h = ground arith

pub write_once_ok :
    (p : Bytes) (w : Writer) (n : ℕ) (w' : Writer)
    → write_once p w ≡ (ok n, w')
    → (n ≡ length p) × (w'.sent ≡ w.sent ++ p)
unfolding write_once
write_once_ok p w n w' h = answer_once_ok w.script w.sent p n w' h

answer_once_error :
    (script : List Answer) (sent p : Bytes) (x : Error) (w' : Writer)
    → answer_once script sent p ≡ (err x, w')
    → (x ≡ short_write) ⊎ (x ≡ write_failed)
unfolding answer_once
answer_once_error [] sent p x w' h = cc
answer_once_error (wrote k ∷ script) sent p x w' h = inl (ground arith)
answer_once_error (failed k ∷ script) sent p x w' h = inr (ground arith)

-- The errors of one Write.
pub write_once_error :
    (p : Bytes) (w : Writer) (x : Error) (w' : Writer)
    → write_once p w ≡ (err x, w')
    → (x ≡ short_write) ⊎ (x ≡ write_failed)
unfolding write_once
write_once_error p w x w' h = answer_once_error w.script w.sent p x w' h

pub write_once_lem :
    (p sent : Bytes)
    → write_once p (record { sent = sent; script = [] })
      ≡ (ok (length p), record { sent = sent ++ p; script = [] })
unfolding write_once
write_once_lem p sent = refl

write_loop_fuel :
    (script : List Answer) (sent p : Bytes) (x : Error) (w : Writer)
    → write_loop script sent p ≡ (err x, w)
    → ¬ (x ≡ out_of_fuel)
unfolding write_loop
write_loop_fuel [] sent p x w h q = cc
write_loop_fuel (wrote k ∷ script) sent [] x w h q = cc
write_loop_fuel (failed k ∷ script) sent [] x w h q = cc
write_loop_fuel (failed k ∷ script) sent (b ∷ p) x w h q = cc
write_loop_fuel (wrote zero ∷ script) sent (b ∷ p) x w h q = cc
write_loop_fuel (wrote (suc k) ∷ script) sent (b ∷ p) x w h q =
    write_loop_fuel script (sent ++ (b ∷ take k p)) (drop k p) x w h q

-- A loop of writes ends by itself.
pub write_full_fuel :
    (p : Bytes) (w : Writer) (x : Error) (w' : Writer)
    → write_full p w ≡ (err x, w')
    → ¬ (x ≡ out_of_fuel)
unfolding write_full
write_full_fuel p w x w' h = write_loop_fuel w.script w.sent p x w' h

-- ===== src/Proxy/Usage/Draining.antt =====
-- The end of runUsageWriter.
use proxy_forge.Prelude.{
  ℕ, zero, suc, ◌≡◌, refl, sym, ap, ◌∙◌, Bool, true, false, List, [], ◌∷◌, ◌++◌, append_assoc,
  append-nil, if◌then◌else◌, length,
}
use proxy_forge.Proxy.Usage.{persist_usage, writer_round, ProxyUsage, UsageQueue}

-- The writer alone, with the answers of its statements.
unfoldable pub rounds : ℕ → (ℕ → Bool) → ℕ → UsageQueue → UsageQueue
rounds zero stored now q = q
rounds (suc n) stored now q = rounds n stored now (writer_round (stored n) now q)

module _ (stored : Bool) (now : ℕ) (q : UsageQueue) where
  writer_round-take :
      (u : ProxyUsage) (l : List ProxyUsage)
      → q.queue ≡ u ∷ l
      → writer_round stored now q ≡ persist_usage stored now u (record q { queue = l })
  unfolding writer_round
  writer_round-take u l e =
      ap
        (λ (x : List ProxyUsage). elim x as (λ _. UsageQueue) [
          | v ∷ rest ↦ persist_usage stored now v (record q { queue = rest })
          | [] ↦ if q.stopped then record q { ended = true } else q
        ])
        e

  writer_round-end :
      q.queue ≡ [] → q.stopped ≡ true → writer_round stored now q ≡ record q { ended = true }
  unfolding writer_round
  writer_round-end e closed =
      ap
        (λ (x : List ProxyUsage). elim x as (λ _. UsageQueue) [
          | v ∷ rest ↦ persist_usage stored now v (record q { queue = rest })
          | [] ↦ if q.stopped then record q { ended = true } else q
        ])
        e
      ∙ (rw closed refl)

pub persist_usage-keeps :
    (stored : Bool) (now : ℕ) (u : ProxyUsage) (q : UsageQueue)
    → let next = persist_usage stored now u q in
      (next.queue ≡ q.queue) × (next.stopped ≡ q.stopped) × (next.handled ≡ q.handled ++ u ∷ [])
unfolding persist_usage
persist_usage-keeps true now u q = (refl, refl, refl)
persist_usage-keeps false now u q = (refl, refl, refl)

-- Once Stop has closed the queue, the writer returns within one round more than usages wait, and has
-- then taken out all of them in order, whichever statements fail.
pub rounds-stopped :
    (stored : ℕ → Bool) (now : ℕ) (l : List ProxyUsage) (q : UsageQueue)
    → q.queue ≡ l
    → q.stopped ≡ true
    → let last = rounds (suc (length l)) stored now q in
      (last.ended ≡ true) × (last.queue ≡ []) × (last.handled ≡ q.handled ++ l)
unfolding rounds
rounds-stopped stored now [] q e closed =
    let h = writer_round-end (stored 0) now q e closed in
    (
      ap (λ (r : UsageQueue). r.ended) h,
      ap (λ (r : UsageQueue). r.queue) h ∙ e,
      ap (λ (r : UsageQueue). r.handled) h ∙ sym (append-nil (q.handled)),
    )
rounds-stopped stored now (u ∷ l) q e closed =
    let n : ℕ = suc (length l) in
    let next = writer_round (stored n) now q in
    let h = writer_round-take (stored n) now q u l e in
    let k = persist_usage-keeps (stored n) now u (record q { queue = l }) in
    let ih =
      rounds-stopped stored now l next (ap (λ (r : UsageQueue). r.queue) h ∙ k.0)
        (ap (λ (r : UsageQueue). r.stopped) h ∙ k.1 ∙ closed) in
    (
      ih.0,
      ih.1,
      ih.2
          ∙ ap (λ (x : List ProxyUsage). x ++ l) (ap (λ (r : UsageQueue). r.handled) h ∙ k.2)
          ∙ append_assoc (q.handled) (u ∷ []) l,
    )

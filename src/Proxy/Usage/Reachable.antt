-- ===== src/Proxy/Usage/Reachable.antt =====
-- Every order of reported, stored and failed usages that manager.go allows.
use proxy_forge.Prelude.{
  ℕ, ◌+◌, ◌≤◌, ◌<◌, ◌≡◌, refl, sym, ap, ◌∙◌, Bool, true, false, List, [], ◌∷◌, ◌++◌, append_assoc,
  arith, if◌then◌else◌, length, length-append, Bytes, is_empty,
}
use proxy_forge.Database.Clients.{
  total_up_of, total_down_of, if_client, add_client_usage-total_up, add_client_usage-total_down,
  ProxyClientUsage,
}
use proxy_forge.Proxy.Usage.{
  queue_size, new_usage_queue, is_ignored, record_usage, persist_usage, writer_round, stop,
  ProxyUsage, UsageQueue,
}

pub data Step (q : UsageQueue) : UsageQueue → Type 0 where
  records : (u : ProxyUsage) → length q.queue < queue_size → Step q (record_usage u q)
  writes : (stored : Bool) (now : ℕ) → q.ended ≡ false → Step q (writer_round stored now q)
  stops : Step q (stop q)

pub data Reaches (q : UsageQueue) : UsageQueue → Type 0 where
  here : Reaches q q
  onward : (q' q'' : UsageQueue) → Reaches q q' → Step q' q'' → Reaches q q''

-- The bytes of a list of usages that count for a client.
abbrev pub sum_up : Bytes → List ProxyUsage → ℕ
sum_up client [] = 0
sum_up client (u ∷ us) = if_client client u.client_ip u.up_bytes + sum_up client us

abbrev pub sum_down : Bytes → List ProxyUsage → ℕ
sum_down client [] = 0
sum_down client (u ∷ us) = if_client client u.client_ip u.down_bytes + sum_down client us

sum_up-append :
    (client : Bytes) (us vs : List ProxyUsage)
    → sum_up client (us ++ vs) ≡ sum_up client us + sum_up client vs
sum_up-append client [] vs = omega arith
sum_up-append client (u ∷ us) vs = omega (arith, sum_up-append client us vs)

sum_down-append :
    (client : Bytes) (us vs : List ProxyUsage)
    → sum_down client (us ++ vs) ≡ sum_down client us + sum_down client vs
sum_down-append client [] vs = omega arith
sum_down-append client (u ∷ us) vs = omega (arith, sum_down-append client us vs)

pub record IsSound (start : List (Bytes × ProxyClientUsage)) (q : UsageQueue) : Type 0 where
  pub in_order : q.handled ++ q.queue ≡ q.accepted
  pub ended_empty : q.ended ≡ true → (q.stopped ≡ true) × (q.queue ≡ [])
  pub fits : length q.queue ≤ queue_size
  pub up :
      (client : Bytes)
      → is_empty client ≡ false
      → total_up_of client q.clients ≡ total_up_of client start + sum_up client q.written
  pub down :
      (client : Bytes)
      → is_empty client ≡ false
      → total_down_of client q.clients ≡ total_down_of client start + sum_down client q.written

module _ (start : List (Bytes × ProxyClientUsage)) where
  new_usage_queue-IsSound : IsSound start (new_usage_queue start)
  unfolding new_usage_queue
  new_usage_queue-IsSound = record {
    in_order = refl;
    ended_empty = λ e. cc e;
    fits = omega arith;
    up = λ client h. omega arith;
    down = λ client h. omega arith;
  }

  record_usage-IsSound :
      (u : ProxyUsage) (q : UsageQueue)
      → length q.queue < queue_size
      → IsSound start q
      → IsSound start (record_usage u q)
  unfolding record_usage
  record_usage-IsSound u q room v = go (is_ignored u) (q.stopped) refl
    where
      next : UsageQueue
      next = record q { queue = q.queue ++ u ∷ []; accepted = q.accepted ++ u ∷ [] }

      go : (b c : Bool) → q.stopped ≡ c → IsSound start (if b then q else if c then q else next)
      go true c e = v
      go false true e = v
      go false false e = record {
        in_order =
            sym (append_assoc (q.handled) (q.queue) (u ∷ []))
            ∙ ap (λ (l : List ProxyUsage). l ++ u ∷ []) v.in_order;
        ended_empty = λ h. cc (e, (v.ended_empty h).0);
        fits = omega (arith, length-append (q.queue) (u ∷ []));
        up = v.up;
        down = v.down;
      }

  taken :
      (u : ProxyUsage) (rest : List ProxyUsage) (q : UsageQueue)
      → q.queue ≡ u ∷ rest
      → IsSound start q
      → (q.handled ++ u ∷ []) ++ rest ≡ q.accepted
  taken u rest q e v =
      append_assoc (q.handled) (u ∷ []) rest
      ∙ ap (λ (l : List ProxyUsage). q.handled ++ l) (sym e)
      ∙ v.in_order

  persist_usage-IsSound :
      (stored : Bool) (now : ℕ) (u : ProxyUsage) (rest : List ProxyUsage) (q : UsageQueue)
      → q.queue ≡ u ∷ rest
      → q.ended ≡ false
      → IsSound start q
      → IsSound start (persist_usage stored now u (record q { queue = rest }))
  unfolding persist_usage
  persist_usage-IsSound true now u rest q e running v = record {
    in_order = taken u rest q e v;
    ended_empty = λ h. cc (h, running);
    fits = omega (arith, v.fits, ap length e);
    up = λ client h.
        add_client_usage-total_up u.client_ip u.username u.account_tag u.up_bytes u.down_bytes now
          client q.clients h
        ∙ omega (arith, v.up client h, sum_up-append client (q.written) (u ∷ []));
    down = λ client h.
        add_client_usage-total_down u.client_ip u.username u.account_tag u.up_bytes u.down_bytes now
          client q.clients h
        ∙ omega (arith, v.down client h, sum_down-append client (q.written) (u ∷ []));
  }
  persist_usage-IsSound false now u rest q e running v = record {
    in_order = taken u rest q e v;
    ended_empty = λ h. cc (h, running);
    fits = omega (arith, v.fits, ap length e);
    up = v.up;
    down = v.down;
  }

  writer_round-IsSound :
      (stored : Bool) (now : ℕ) (q : UsageQueue)
      → q.ended ≡ false
      → IsSound start q
      → IsSound start (writer_round stored now q)
  unfolding writer_round
  writer_round-IsSound stored now q running v = go (q.queue) refl (q.stopped) refl
    where
      go :
          (l : List ProxyUsage)
          → q.queue ≡ l
          → (b : Bool) → q.stopped ≡ b
          → let r : UsageQueue = elim l [
            | u ∷ rest ↦ persist_usage stored now u (record q { queue = rest })
            | [] ↦ if b then record q { ended = true } else q
          ] in
            IsSound start r
      go (u ∷ rest) e b f = persist_usage-IsSound stored now u rest q e running v
      go [] e true f = record {
        in_order = v.in_order;
        ended_empty = λ h. (f, e);
        fits = v.fits;
        up = v.up;
        down = v.down;
      }
      go [] e false f = v

  stop-IsSound : (q : UsageQueue) → IsSound start q → IsSound start (stop q)
  unfolding stop
  stop-IsSound q v = record {
    in_order = v.in_order;
    ended_empty = λ h. (refl, (v.ended_empty h).1);
    fits = v.fits;
    up = v.up;
    down = v.down;
  }

  reachable-IsSound : (q : UsageQueue) → Reaches (new_usage_queue start) q → IsSound start q
  reachable-IsSound _ here = new_usage_queue-IsSound
  reachable-IsSound q (onward p _ r (records u room)) =
      record_usage-IsSound u p room (reachable-IsSound p r)
  reachable-IsSound q (onward p _ r (writes stored now running)) =
      writer_round-IsSound stored now p running (reachable-IsSound p r)
  reachable-IsSound q (onward p _ r stops) = stop-IsSound p (reachable-IsSound p r)

  -- Whatever connections report, whichever statements fail and whenever Stop comes: what was accepted
  -- is what the writer took out, in the same order, followed by what waits, which is at most the size
  -- of the queue; and the totals of a client in the table are those from the start and what was
  -- stored of it since.
  pub usage_conserved :
      (q : UsageQueue) (client : Bytes)
      → Reaches (new_usage_queue start) q
      → is_empty client ≡ false
      → (q.handled ++ q.queue ≡ q.accepted)
        × (length q.queue ≤ queue_size)
        × (total_up_of client q.clients ≡ total_up_of client start + sum_up client q.written)
        × (total_down_of client q.clients ≡ total_down_of client start + sum_down client q.written)
  usage_conserved q client r named =
      let v = reachable-IsSound q r in (v.in_order, v.fits, v.up client named, v.down client named)

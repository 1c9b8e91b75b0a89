-- ===== src/Proxy/Endpoint/Candidates.antt =====
-- What endpointCandidates gives.
use proxy_forge.Prelude.{
  ℕ, zero, suc, ◌≤◌, ◌<◌, ◌≡◌, refl, subst, Bool, true, false, not, Option, none, some, List, [],
  ◌∷◌, ◌++◌, arith, ◌==◌, if◌then◌else◌, length, take, All, length-take, All-append, All-take,
  Bytes, codes, str_eq,
}
use proxy_forge.Proxy.Endpoint.{
  max_endpoint_candidates, known_warp_endpoint_hosts, endpoint_ports_in_order, prefer_ipv4,
  normalize_endpoint, key_of, is_seen, is_usable, add_candidate, add_all, at_ports, parse_all,
  endpoint_candidates, Addr, Netip, Candidate,
}

length-take_le : (n : ℕ) (out : List Candidate) → length (take n out) ≤ n
length-take_le n out = omega (arith, length-take n out)

module _ (net : Netip) (ipv6_ok : Bool) where
  -- No two of the candidates have the same address and port.
  abbrev pub AreDistinct : List Candidate → Type 0
  AreDistinct [] = Unit {0}
  AreDistinct (c ∷ out) =
      All (λ d. str_eq (key_of net ipv6_ok d) (key_of net ipv6_ok c) ≡ false) out × AreDistinct out

  abbrev pub IsUsable : Candidate → Type 0
  IsUsable c = is_usable net ipv6_ok c.addr c.port ≡ true

  unseen :
      (key : Bytes) (out : List Candidate)
      → is_seen net ipv6_ok key out ≡ false
      → All (λ c. str_eq key (key_of net ipv6_ok c) ≡ false) out
  unfolding is_seen
  unseen key [] h = tt
  unseen key (c ∷ out) h = (ground (arith, h), unseen key out (ground (arith, h)))

  AreDistinct-snoc :
      (out : List Candidate) (c : Candidate)
      → AreDistinct out
      → All (λ d. str_eq (key_of net ipv6_ok c) (key_of net ipv6_ok d) ≡ false) out
      → AreDistinct (out ++ c ∷ [])
  AreDistinct-snoc [] c d h = (tt, tt)
  AreDistinct-snoc (b ∷ out) c d h = (
    All-append (λ x. str_eq (key_of net ipv6_ok x) (key_of net ipv6_ok b) ≡ false) out (c ∷ []) d.0
        (h.0, tt),
    AreDistinct-snoc out c d.1 h.1,
  )

  add_all-AreDistinct :
      (cs out : List Candidate)
      → AreDistinct out
      → All IsUsable out
      → AreDistinct (add_all net ipv6_ok cs out) × All IsUsable (add_all net ipv6_ok cs out)
  unfolding add_all add_candidate
  add_all-AreDistinct [] out d u = (d, u)
  add_all-AreDistinct (c ∷ cs) out d u =
      go (is_usable net ipv6_ok c.addr c.port) refl (is_seen net ipv6_ok (key_of net ipv6_ok c) out)
        refl (add_all-AreDistinct cs)
    where
      go :
          (a : Bool)
          → is_usable net ipv6_ok c.addr c.port ≡ a
          → (b : Bool) → is_seen net ipv6_ok (key_of net ipv6_ok c) out ≡ b
          → ((o : List Candidate)
              → AreDistinct o
              → All IsUsable o
              → AreDistinct (add_all net ipv6_ok cs o) × All IsUsable (add_all net ipv6_ok cs o))
          → let o : List Candidate = if not a then out else if b then out else out ++ c ∷ [] in
            AreDistinct (add_all net ipv6_ok cs o) × All IsUsable (add_all net ipv6_ok cs o)
      go false e b s k = k out d u
      go true e true s k = k out d u
      go true e false s k =
          k (out ++ c ∷ []) (AreDistinct-snoc out c d (unseen (key_of net ipv6_ok c) out s))
            (All-append IsUsable out (c ∷ []) u (e, tt))

  AreDistinct-take : (n : ℕ) (out : List Candidate) → AreDistinct out → AreDistinct (take n out)
  AreDistinct-take zero out d = tt
  AreDistinct-take (suc n) [] d = tt
  AreDistinct-take (suc n) (c ∷ out) d = (
    All-take (λ x. str_eq (key_of net ipv6_ok x) (key_of net ipv6_ok c) ≡ false) n out d.0,
    AreDistinct-take n out d.1,
  )

  -- endpointCandidates gives an error or 1 to 48 candidates, no two with the same address and port,
  -- each a valid address with a port from 1 to 65535, and none for IPv6 if the host has no IPv6.
  pub endpoint_candidates_bounds :
      (resolve : Bytes → Option (List Addr)) (host : Bytes) (port : ℕ) (cs : List Candidate)
      → endpoint_candidates net ipv6_ok resolve host port ≡ some cs
      → (0 < length cs) × (length cs ≤ max_endpoint_candidates) × AreDistinct cs × All IsUsable cs
  unfolding endpoint_candidates
  endpoint_candidates_bounds resolve host port cs h = go (resolve normal.0) h
    where
      normal : Bytes × ℕ
      normal = normalize_endpoint net host port

      ports : List ℕ
      ports = endpoint_ports_in_order normal.1

      offered : List Addr → List Candidate
      offered resolved =
          at_ports (codes "configured") (prefer_ipv4 resolved) ports
          ++ at_ports (codes "known-ip") (parse_all net known_warp_endpoint_hosts) ports

      collected : List Addr → List Candidate
      collected resolved = take max_endpoint_candidates (add_all net ipv6_ok (offered resolved) [])

      sound :
          (resolved : List Addr)
          → AreDistinct (collected resolved) × All IsUsable (collected resolved)
      sound resolved =
          let k = add_all-AreDistinct (offered resolved) [] tt tt in
          let all = add_all net ipv6_ok (offered resolved) [] in
          (
            AreDistinct-take max_endpoint_candidates all k.0,
            All-take IsUsable max_endpoint_candidates all k.1,
          )

      by_length :
          (resolved : List Addr) (b : Bool)
          → (length (collected resolved) == 0) ≡ b
          → (if b then none else some (collected resolved)) ≡ some cs
          → (0 < length cs)
            × (length cs ≤ max_endpoint_candidates)
            × AreDistinct cs
            × All IsUsable cs
      by_length resolved true e f = cc f
      by_length resolved false e f =
          let q : collected resolved ≡ cs = cc f in
          let k = sound resolved in
          subst
            (λ (l : List Candidate).
              (0 < length l)
              × (length l ≤ max_endpoint_candidates)
              × AreDistinct l
              × All IsUsable l)
            q
            (
              ground (arith, e),
              length-take_le max_endpoint_candidates (add_all net ipv6_ok (offered resolved) []),
              k.0,
              k.1,
            )

      go :
          (o : Option (List Addr))
          → elim o as (λ _. Option (List Candidate)) [
            | none ↦ none
            | some resolved ↦
                if length (collected resolved) == 0 then none else some (collected resolved)
          ]
            ≡ some cs
          → (0 < length cs)
            × (length cs ≤ max_endpoint_candidates)
            × AreDistinct cs
            × All IsUsable cs
      go none f = cc f
      go (some resolved) f = by_length resolved (length (collected resolved) == 0) refl f

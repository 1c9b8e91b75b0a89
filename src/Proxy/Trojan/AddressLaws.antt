-- ===== src/Proxy/Trojan/AddressLaws.antt =====
-- The address that `appendTrojanAddress` writes is the one that `readTrojanAddress` reads.
use proxy_forge.Prelude.{
  ℕ, ◌%◌, ◌<◌, ◌≡◌, refl, sym, ◌∙◌, inl, inr, false, ◌||◌, Option, none, some, [], ◌∷◌, ◌++◌,
  append_assoc, arith, ltb, ◌==◌, if◌then◌else◌, lt→ltb, Bool-cases, length, Bytes, is_empty,
  is_empty-pos,
}
use proxy_forge.Io.{
  read_full, put_uint16, >>=_ok, read_full-append, uint16_of-put, invalid_length, Result, ok, err,
}
use proxy_forge.Proxy.Net.{ip_bytes, IsIp, Ip, v4, v6, IpText}
use proxy_forge.Proxy.Trojan.Address.{
  read_domain, append_ip, read_host, read_trojan_address, host_field, append_trojan_address,
}

module _ (net : IpText) where
  open net use {parse_ip, ip_string, parse_ip-IsIp, ip_string_nonempty}

  -- The text under which a host comes out: an address in its usual form, a name as it is.
  abbrev pub canonical : Bytes → Bytes
  canonical host = elim (parse_ip host) [ some ip ↦ ip_string (ip_bytes ip) | none ↦ host ]

  -- What a host field stands for: its first byte is the type, and the rest reads back as the host.
  abbrev Reads : Bytes → Bytes → Type 0
  Reads field host =
      (kind : ℕ) × (f : Bytes) × (field ≡ kind ∷ f)
      × (is_empty host ≡ false)
      × ((rest : Bytes) → read_host net kind (f ++ rest) ≡ ok (host, rest))

  read_v4 :
      (b rest : Bytes) → length b ≡ 4 → read_host net 0x01 (b ++ rest) ≡ ok (ip_string b, rest)
  unfolding read_host
  read_v4 b rest h = >>=_ok (read_full 4) _ (b ++ rest) (rw h at (read_full-append b rest))

  read_v6 :
      (b rest : Bytes) → length b ≡ 16 → read_host net 0x04 (b ++ rest) ≡ ok (ip_string b, rest)
  unfolding read_host
  read_v6 b rest h = >>=_ok (read_full 16) _ (b ++ rest) (rw h at (read_full-append b rest))

  read_name :
      (host rest : Bytes)
      → 0 < length host
      → length host < 256
      → read_host net 0x03 ((length host % 256) ∷ (host ++ rest)) ≡ ok (host, rest)
  unfolding read_host read_domain read_full
  read_name host rest pos short = ground (arith, read_full-append host rest)

  host_field_ip :
      (host field : Bytes) (ip : Ip)
      → IsIp ip
      → append_ip ip ≡ field
      → Reads field (ip_string (ip_bytes ip))
  unfolding append_ip
  host_field_ip host field (v4 b) h e =
      (0x01, b, sym e, ip_string_nonempty b, λ rest. read_v4 b rest h.0)
  host_field_ip host field (v6 b) h e =
      (0x04, b, sym e, ip_string_nonempty b, λ rest. read_v6 b rest h.0)

  host_field-Reads :
      (host field : Bytes) → host_field net host ≡ ok field → Reads field (canonical host)
  unfolding host_field
  host_field-Reads host field h = go (parse_ip host) (λ ip e. parse_ip-IsIp host ip e) h
    where
      go :
          (o : Option Ip)
          → ((ip : Ip) → o ≡ some ip → IsIp ip)
          → (elim o [
            | some ip ↦ ok (append_ip ip)
            | none ↦
                if length host == 0 || ltb 255 (length host)
                then err (invalid_length (length host))
                else ok (0x03 ∷ (length host % 256) ∷ host)
          ])
            ≡ ok field
          → Reads field (elim o [ some ip ↦ ip_string (ip_bytes ip) | none ↦ host ])
      go (some ip) good e = host_field_ip host field ip (good ip refl) (ground arith)
      go none good e = elim (Bool-cases (length host == 0 || ltb 255 (length host))) [
        | inl bad ↦ cc (rw bad at e)
        | inr fits ↦ (
          0x03,
          (length host % 256) ∷ host,
          sym (ground (arith, rw fits at e)),
          is_empty-pos host (ground arith),
          λ rest. read_name host rest (ground arith) (ground arith),
        )
      ]

  read_fields :
      (kind : ℕ) (f host : Bytes) (port : ℕ) (rest : Bytes)
      → is_empty (canonical host) ≡ false
      → read_host net kind (f ++ (put_uint16 port ++ rest))
        ≡ ok (canonical host, put_uint16 port ++ rest)
      → (0 < port) × (port < 65536)
      → read_trojan_address net (kind ∷ (f ++ (put_uint16 port ++ rest)))
        ≡ ok ((canonical host, port), rest)
  unfolding read_trojan_address
  read_fields kind f host port rest named reads (pos, small) =
      >>=_ok (read_full 1) _ _ (read_full-append (kind ∷ []) (f ++ (put_uint16 port ++ rest)))
      ∙ >>=_ok (read_host net kind) _ _ reads
      ∙ >>=_ok (read_full 2) _ _ (read_full-append (put_uint16 port) rest)
      ∙ rw (uint16_of-put port small, named, lt→ltb 0 port pos)

  -- A destination that is written is read back from the stream: its port as it is, its host in the
  -- usual form of an address, or as it is where it is a name. The bytes before and behind it stay.
  pub read_trojan_address-append :
      (dst host : Bytes) (port : ℕ) (out : Bytes)
      → append_trojan_address net dst host port ≡ ok out
      → (field : Bytes) × (out ≡ dst ++ field)
        × ((rest : Bytes)
            → read_trojan_address net (field ++ rest) ≡ ok ((canonical host, port), rest))
  unfolding append_trojan_address
  read_trojan_address-append dst host port out h = elim (Bool-cases (port == 0 || ltb 65535 port)) [
    | inl bad ↦ cc (rw bad at h)
    | inr good ↦ go (host_field net host) refl (rw good at h)
  ]
    where
      go :
          (r : Result Bytes)
          → host_field net host ≡ r
          → (elim r [ ok field ↦ ok (dst ++ (field ++ put_uint16 port)) | err e ↦ err e ]) ≡ ok out
          → (field : Bytes) × (out ≡ dst ++ field)
            × ((rest : Bytes)
                → read_trojan_address net (field ++ rest) ≡ ok ((canonical host, port), rest))
      go (err x) e p = cc
      go (ok field) e p =
          let (kind, f, shape, named, reads) = host_field-Reads host field e in
          (
            field ++ put_uint16 port,
            ground arith,
            λ rest.
                rw (shape, append_assoc f (put_uint16 port) rest)
                  (read_fields kind f host port rest named (reads (put_uint16 port ++ rest))
                    (ground arith)),
          )

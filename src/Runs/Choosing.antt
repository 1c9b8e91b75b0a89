-- ===== src/Runs/Choosing.antt =====
-- Runs of the Manager: credentials, the rotation and its sticky window.
use proxy_forge.Prelude.{
  ◌+◌, ◌-◌, ◌*◌, ◌/◌, ◌≡◌, refl, ◌⊎◌, none, some, List, [], ◌∷◌, ◌++◌, arith, ltb, leb, ◌==◌,
  if◌then◌else◌, Bytes, codes, str_eq, has_prefix, trim_space, is_empty,
}
use proxy_forge.Prelude.Assoc.{bytes_key, lookup}
use proxy_forge.Proxy.Manager.State.{Float64, AgentResolver, Manager}
use proxy_forge.Proxy.Manager.Select.{sticky_pick, pick_node, Node}
use proxy_forge.Proxy.Manager.Resolve.{
  required_password_matches, trojan_agents, resolve, trojan_slots, resolve_trojan,
}
use proxy_forge.Proxy.Manager.Access.{resolve_refused}
use proxy_forge.Proxy.Manager.Sticky.{rotate_sticky}
use proxy_forge.Proxy.Manager.TrojanAccess.{SlotAccepts, AgentAccepts, resolve_trojan_granted}
use proxy_forge.Proxy.Trojan.Auth.{trojan_credential, trojan_auth_matches, Crypto}
use proxy_forge.Runs.{warp, agent}

-- Words that count like natural numbers.
abbrev pub numbers : Float64
numbers = record {
  fadd = λ a b. a + b;
  fsub = λ a b. a - b;
  fmul = λ a b. a * b;
  fdiv = λ a b. a / b;
  flog10 = λ a. a;
  flt = ltb;
  fle = leb;
  feq = λ a b. a == b;
  of_nat = λ a. a;
  literal = λ a k. a;
}

abbrev agents : AgentResolver
agents = record {
  resolve_egress = λ u. if str_eq u agent.tag then some agent else none;
  online_egresses = some agent ∷ [];
}

abbrev pub manager : Manager
manager = record {
  tunnels = [];
  meta = [];
  slots = [];
  password = codes "pw";
  last_picked = [];
  last_picked_ip = [];
  pick_count = [];
  ip_pick_count = [];
  rotate_cursor = 1;
  rotate_sticky = [];
  agent_resolver = some agents;
}

abbrev client : Bytes
client = codes "10.0.0.9"

abbrev nodes : List Node
nodes =
    record { key = codes "warp"; chain = warp ∷ [] }
    ∷ record { key = agent.tag; chain = agent ∷ [] }
    ∷ []

resolve_refused_example :
    resolve numbers 5 (codes "auto") (codes " guess ") client manager ≡ ([], manager)
unfolding required_password_matches trim_space str_eq is_empty lookup
resolve_refused_example =
    resolve_refused numbers 5 (codes "auto") (codes " guess ") client manager refl refl

rotate_sticky_example :
    pick_node 100 client nodes (pick_node 5 client nodes manager).1
    ≡ pick_node 5 client nodes manager
unfolding sticky_pick lookup is_empty str_eq
rotate_sticky_example =
    rotate_sticky 5 100 client nodes nodes manager refl refl (omega arith) ((refl, tt), (tt, tt))
      refl (omega arith)

-- A stand-in for the hashes.
abbrev plain : Crypto
plain = record { hmac_sha256 = λ k m. k ++ m; sum_224 = λ m. m; raw_url_base64 = λ m. m }

abbrev auth : Bytes
auth = codes "pw" ++ (codes "proxyforge/trojan/v1" ++ 0 ∷ codes "node-7")

resolve_trojan_granted_example :
    ((resolve_trojan numbers plain auth 5 manager).0 ≡ ([], []))
    ⊎ (SlotAccepts plain auth (resolve_trojan numbers plain auth 5 manager).0.0 []
        ⊎ AgentAccepts plain auth
            (codes "pw")
            (some agent ∷ [])
            (resolve_trojan numbers plain auth 5 manager).0)
resolve_trojan_granted_example = resolve_trojan_granted numbers plain auth 5 manager

-- The agent's credential finds the agent.
resolve_trojan_finds : (resolve_trojan numbers plain auth 5 manager).0 ≡ (agent.tag, agent ∷ [])
unfolding resolve_trojan trojan_slots trojan_agents trojan_auth_matches trojan_credential trim_space
    is_empty str_eq has_prefix
resolve_trojan_finds = refl

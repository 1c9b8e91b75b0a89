-- ===== src/AgentHub/Reachable.antt =====
-- Every order of accepts, ends, pings and dials that hub.go allows, as a step relation.
use proxy_forge.Prelude.{ℕ, ◌≡◌, refl, inl, inr, Bool, true, false, ◌&&◌, some, ltb, Bool-cases}
use proxy_forge.Prelude.Assoc.{bytes_key, number_key, lookup}
use proxy_forge.AgentHub.{
  new_hub, close, register, leave, pinged, note_dial, add_tx, add_rx, Meta, AgentConn, Hub,
}
use proxy_forge.AgentHub.Sound.{new_hub-IsSound, adjust-IsSound, close-IsSound, IsSound}
use proxy_forge.AgentHub.Leaving.{leave-IsSound}
use proxy_forge.AgentHub.Entering.{register-IsSound}

-- A goroutine closes its session only behind leaving the map, and leaves it once.
pub data Step (h : Hub) : Hub → Type 0 where
  accepts : (meta : Meta) (yamux_ok : Bool) (now : ℕ) → Step h (register meta yamux_ok now h).1
  leaves :
      (id : ℕ) (c : AgentConn)
      → lookup id h.conns ≡ some c
      → c.left ≡ false
      → Step h (leave id c.meta h)
  closes :
      (id : ℕ) (c : AgentConn) → lookup id h.conns ≡ some c → c.left ≡ true → Step h (close id h)
  pings : (id ms : ℕ) → Step h (pinged id ms h)
  dials : (id elapsed : ℕ) (success : Bool) → Step h (note_dial id elapsed success h)
  sends : (id n : ℕ) → Step h (add_tx id n h)
  receives : (id n : ℕ) → Step h (add_rx id n h)

pub data Reaches (h : Hub) : Hub → Type 0 where
  here : Reaches h h
  onward : (h' h'' : Hub) → Reaches h h' → Step h' h'' → Reaches h h''

Step-IsSound : (h h' : Hub) → Step h h' → IsSound h → IsSound h'
unfolding pinged note_dial add_tx add_rx
Step-IsSound h _ (accepts meta yamux_ok now) v = register-IsSound meta yamux_ok now h v
Step-IsSound h _ (leaves id c e loops) v = leave-IsSound id c h e v
Step-IsSound h _ (closes id c e gone) v = close-IsSound id c h e gone v
Step-IsSound h _ (pings id ms) v = adjust-IsSound id _ h (λ c. (refl, refl, refl)) v
Step-IsSound h _ (dials id ms success) v = elim (Bool-cases (success && ltb 0 ms)) [
  | inl counts ↦ rw counts (adjust-IsSound id _ h (λ c. (refl, refl, refl)) v)
  | inr ignored ↦ rw ignored v
]
Step-IsSound h _ (sends id n) v = adjust-IsSound id _ h (λ c. (refl, refl, refl)) v
Step-IsSound h _ (receives id n) v = adjust-IsSound id _ h (λ c. (refl, refl, refl)) v

-- In whatever order agents connect, reconnect, answer and end: the map holds sessions that are open
-- and belong to their node, and every open session of a goroutine that is still in its ping loop is
-- in the map. So a node has one live session at most, and the end of an old session never takes the
-- new one out.
pub reachable-IsSound : (h : Hub) → Reaches new_hub h → IsSound h
reachable-IsSound _ here = new_hub-IsSound
reachable-IsSound h (onward h' _ r s) = Step-IsSound h' h s (reachable-IsSound h' r)

-- ===== src/Machine/Peers.antt =====
-- `artnet_join` (artnet/artnet.c): the nodes that share a socket are linked in a ring by their `peer`
-- pointers, and one of them is the master. A node is its number.
pub mod Linked
pub mod Joined
mod Tests
use libartnet.Base.{
  ℕ, zero, suc, Bool, true, false, ◌||◌, Option, none, some, if◌then◌else◌, ◌==◌, Code, eok,
  eaction,
}

-- `node_peering_t` of all nodes
pub record Peering : Type 0 where
  pub peer : ℕ → Option ℕ
  pub master : ℕ → Bool

-- A write to the field of one node
abbrev pub set_at {ℓ} : {A : Type ℓ} → (ℕ → A) → ℕ → A → ℕ → A
set_at f n v k = if k == n then v else f k

-- The peer, or another node where it is NULL
abbrev pub peer_or : Option ℕ → ℕ → ℕ
peer_or none other = other
peer_or (some n) other = n

-- The first loop: the node whose peer is NULL or `n2`. The fuel bounds its rounds.
unfoldable pub last_of : ℕ → (ℕ → Option ℕ) → ℕ → ℕ → ℕ
last_of zero peer n2 n = n
last_of (suc fuel) peer n2 n =
    let later = last_of fuel peer n2 (peer_or (peer n) n2) in
    if peer_or (peer n) n2 == n2 then n else later

-- The second loop: no node but `n1` is the master.
unfoldable pub clear_masters : ℕ → (ℕ → Option ℕ) → ℕ → ℕ → (ℕ → Bool) → ℕ → Bool
clear_masters zero peer n1 n master = master
clear_masters (suc fuel) peer n1 n master =
    let later = clear_masters fuel peer n1 (peer_or (peer n) n1) (set_at master n false) in
    if n == n1 then master else later

-- The pointers that it leaves
unfoldable pub linked : ℕ → ℕ → ℕ → (ℕ → Option ℕ) → ℕ → Option ℕ
linked fuel n1 n2 peer =
    let to_n2 = set_at peer n1 (some n2) in
    set_at to_n2 (last_of fuel to_n2 n2 n2) (some (peer_or (peer n1) n1))

-- `artnet_join`, where neither node is NULL; `on1` and `on2` tell whether they are on.
unfoldable pub artnet_join : ℕ → Bool → Bool → ℕ → ℕ → Peering → Peering × Code
artnet_join fuel on1 on2 n1 n2 p =
    if on1 || on2
    then (p, eaction)
    else (let peer' = linked fuel n1 n2 p.peer in
        (
          record {
            peer = peer';
            master = set_at (clear_masters fuel peer' n1 (peer_or (peer' n1) n1) p.master) n1 true;
          },
          eok,
        ))

-- ===== src/Port/Sync.antt =====
-- ArtSync: while a node is in sync mode, packets change no output; a flush shows what they left.
use libartnet.Base.{ℕ, ◌≡◌, ◌<◌, refl, ◌∙◌, arith, Bool, true, false, get_or, get_or-memcpy, min}
use libartnet.Port.{
  OutputPort, Env, artnet_dmx_length, check_merge_timeouts, expire_sources, merge, stage_merged,
}
use libartnet.Port.{stage_output_data, commit_output_data, flush_sync_output}
use libartnet.Port.Dmx.{
  DmxPacket, route, route_cases, dmx_port, cancel_merge, activate, merge_a, merge_b,
}
use libartnet.Port.Dmx.{take_alone_a, take_alone_b, become_a, become_b}
use libartnet.Port.Bounds.{IsValid}

-- The output of a port is what it was.
abbrev pub SameOutput : OutputPort → OutputPort → Type 0
SameOutput before after = (after.buffer ≡ before.buffer) × (after.length ≡ before.length)

module _ (env : Env) (id : ℕ) (p : DmxPacket) (on : env.sync_mode ≡ true) where
  alone_a : (port : OutputPort) → SameOutput port (take_alone_a env p port)
  unfolding take_alone_a stage_output_data
  alone_a port = rw on (refl, refl)

  alone_b : (port : OutputPort) → SameOutput port (take_alone_b env p port)
  unfolding take_alone_b stage_output_data
  alone_b port = rw on (refl, refl)

  merged_a : (port : OutputPort) → SameOutput port (merge_a env id p port).0
  unfolding merge_a merge stage_merged
  merged_a port = rw on (refl, refl)

  merged_b : (port : OutputPort) → SameOutput port (merge_b env id p port).0
  unfolding merge_b merge stage_merged
  merged_b port = rw on (refl, refl)

  routed : (ip_a ip_b : ℕ) (port : OutputPort) → SameOutput port (route env id p ip_a ip_b port).0
  routed ip_a ip_b port =
      route_cases (λ r. SameOutput port r.0) env id p ip_a ip_b port (alone_a (become_a p port))
        (alone_a port) (alone_b port) (merged_b (become_b p port)) (merged_a (become_a p port))
        (merged_a port) (merged_b port) (refl, refl)

  cancelled : (port : OutputPort) → SameOutput port (cancel_merge env p port)
  unfolding cancel_merge
  cancelled port = ground arith

checked : (env : Env) (port : OutputPort) → SameOutput port (check_merge_timeouts env port).0
unfolding check_merge_timeouts expire_sources
checked env port = ground arith

-- In sync mode an ArtDmx packet leaves the output of the port as it is, whichever source it is
-- from.
pub dmx_port-SameOutput :
    (env : Env) (p : DmxPacket) (id : ℕ) (port : OutputPort)
    → env.sync_mode ≡ true
    → SameOutput port (dmx_port env p id port).0
unfolding dmx_port
dmx_port-SameOutput env p id port on =
    let active = activate p port in
    let left = (check_merge_timeouts env active).0 in
    let after = (route env id p port.ip_a port.ip_b left).0 in
    let c = checked env active in
    let r = routed env id p on port.ip_a port.ip_b left in
    let k = cancelled env id p on after in (k.0 ∙ r.0 ∙ c.0, k.1 ∙ r.1 ∙ c.1)

-- A flush of a pending port shows what was staged, byte for byte, and leaves nothing pending.
pub flush_sync_output_pending :
    (dmx_c : Bool) (id i : ℕ) (port : OutputPort)
    → IsValid port
    → port.sync_pending ≡ true
    → i < port.sync_length
    → let after = (flush_sync_output dmx_c id port).0 in
      (get_or after.buffer i 0 ≡ get_or port.sync_data i 0)
      × (after.length ≡ port.sync_length)
      × (after.sync_pending ≡ false)
unfolding flush_sync_output commit_output_data
flush_sync_output_pending dmx_c id i port v on h = rw on (
  get_or-memcpy port.buffer port.sync_data (min port.sync_length artnet_dmx_length) i 0
      (omega arith) (omega arith) (omega arith),
  omega arith,
  refl,
)

-- ===== src/Node/Ports/Staged.antt =====
-- What `handle_sync` (artnet/receive.c) does with the data that is staged on a port.
use libartnet.Base.{ℕ, ◌+◌, ◌≡◌, refl, ◌∙◌, arith, Bool, true, false, not}
use libartnet.Base.{get_elem?, some, take, min}
use libartnet.Base.{Bool-cases, inl, inr, ◌==◌}
use libartnet.Port.{OutputPort}
use libartnet.Base.{take-memcpy, memcpy, ◌||◌, if◌then◌else◌}
use libartnet.Port.{flush_sync_output, commit_output_data, is_merging}
use libartnet.Port.Bounds.{IsValid}
use libartnet.Packet.{Packet}
use libartnet.Node.{Node, each_port, accepts_sync, sync_step}
use libartnet.Node.{handle_sync}
use libartnet.Node.{any_accepts}
use libartnet.Node.Ports.{get_elem?-each_port}

outputs_of_sync :
    (now : ℕ) (p : Packet) (n : Node) (j : ℕ)
    → get_elem? (handle_sync false now p n).0.outputs j
      ≡ get_elem? (each_port (sync_step n.dmx_c p.from) 0 n.outputs).0 j
unfolding handle_sync
outputs_of_sync now p n j = elim (Bool-cases (any_accepts p.from n.outputs)) [
  | inl some_port ↦ rw some_port refl
  | inr no_port ↦ rw no_port refl
]

-- What ArtSync does to one port with no second source and with data staged
shown :
    (dmx_c : Bool) (from i : ℕ) (port : OutputPort)
    → port.port_enabled ≡ true
    → port.ip_b ≡ 0
    → port.sync_pending ≡ true
    → IsValid port
    → let by_sender = port.last_dmx_source == 0 || port.last_dmx_source == from in
      let after = (sync_step dmx_c from i port).0 in
      (take port.sync_length after.buffer
        ≡ take port.sync_length (if by_sender then port.sync_data else port.buffer))
      × (after.length ≡ (if by_sender then port.sync_length else port.length))
      × (after.sync_pending ≡ not by_sender)
unfolding sync_step accepts_sync is_merging flush_sync_output commit_output_data
shown dmx_c from i port on single pending v =
    let whole : min port.sync_length 512 ≡ port.sync_length = omega (arith, v.sync_fits) in
    let copied : take port.sync_length (memcpy port.buffer port.sync_data port.sync_length)
        ≡ take port.sync_length port.sync_data =
      take-memcpy port.buffer port.sync_data port.sync_length (omega (arith, v.sync_fits, v.size))
        (omega (arith, v.sync_fits, v.sync_size)) in
    ground (arith, copied, whole)

-- On a port that is on, valid, pending and has no second source, an ArtSync that no callback takes
-- puts out the slots that are staged, with their length, and nothing is pending then, if the port was
-- last fed by the sender of the ArtSync or by nobody; else the port keeps these slots and its length,
-- and stays pending.
pub handle_sync_shows :
    (now : ℕ) (p : Packet) (n : Node) (j : ℕ) (port : OutputPort)
    → get_elem? n.outputs j ≡ some port
    → port.port_enabled ≡ true
    → port.ip_b ≡ 0
    → port.sync_pending ≡ true
    → IsValid port
    → let by_sender = port.last_dmx_source == 0 || port.last_dmx_source == p.from in
      (after : OutputPort) × (get_elem? (handle_sync false now p n).0.outputs j ≡ some after)
      × (take port.sync_length after.buffer
          ≡ take port.sync_length (if by_sender then port.sync_data else port.buffer))
      × (after.length ≡ (if by_sender then port.sync_length else port.length))
      × (after.sync_pending ≡ not by_sender)
handle_sync_shows now p n j port at on single pending v =
    let (slots, len, waiting) = shown n.dmx_c p.from (0 + j) port on single pending v in
    ((sync_step n.dmx_c p.from (0 + j) port).0, outputs_after, slots, len, waiting)
  where
    outputs_after :
        get_elem? (handle_sync false now p n).0.outputs j
        ≡ some (sync_step n.dmx_c p.from (0 + j) port).0
    outputs_after =
        outputs_of_sync now p n j
        ∙ get_elem?-each_port (sync_step n.dmx_c p.from) 0 j n.outputs port at

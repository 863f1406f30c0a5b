-- ===== src/Node/Tests.antt =====
-- A node with one output and one input port, fed with ArtDmx and ArtSync.
use libartnet.Base.{
  ℕ, ◌≡◌, refl, arith, true, false, some, [], ◌∷◌, replicate, get_elem?, get_or, ltb, if◌then◌else◌,
}
use libartnet.Base.{take, if◌then◌else◌, not, ◌||◌, ◌==◌, arith}
use libartnet.Node.Ports.Staged.{handle_sync_shows}
use libartnet.Port.Bounds.{IsValid}
use libartnet.Port.{OutputPort}
use libartnet.Port.Sync.{SameOutput}
use libartnet.Packet.{Packet, dmx, packet_length_is_valid}
use libartnet.Packet.Fields.{packet_fields_are_valid}
use libartnet.Node.{handle_dmx, handle_sync}
use libartnet.Node.{universe, dmx_packet}
use libartnet.Node.Samples.{input, output, small_node}
use libartnet.Node.Ports.{handle_dmx_sync}
use libartnet.Node.Config.{artnet_set_short_name}
use libartnet.Node.Config.Names.{artnet_set_short_name_tail}
use libartnet.Node.Send.{build_dmx}
use libartnet.Node.Send.Accepted.{build_dmx_accepted}

abbrev dmx_to : ℕ → Packet
dmx_to address = record {
  length = 530;
  from = 10;
  type = dmx;
  bytes =
      0x41
      ∷ 0x72
      ∷ 0x74
      ∷ 0x2d
      ∷ 0x4e
      ∷ 0x65
      ∷ 0x74
      ∷ 0
      ∷ 0x00
      ∷ 0x50
      ∷ 0
      ∷ 14
      ∷ 1
      ∷ 0
      ∷ address
      ∷ 0
      ∷ 2
      ∷ 0
      ∷ replicate 512 50;
}

-- An ArtDmx for the port, then an ArtSync, then a look at the clock.
dmx_sync_example :
    (after : OutputPort) × (get_elem?
        (handle_dmx false 1000 (dmx_to 1) (small_node true)).0.outputs
        0
      ≡ some after)
    × SameOutput output after
dmx_sync_example = handle_dmx_sync false 1000 (dmx_to 1) (small_node true) 0 output refl refl

-- Eight slots are staged on the port.
abbrev staged : OutputPort
staged = record output {
  sync_pending = true;
  sync_length = 8;
  sync_data = replicate 512 70;
  last_dmx_source = 10;
}

staged-IsValid : IsValid staged
staged-IsValid = record {
  size = refl;
  size_a = refl;
  size_b = refl;
  sync_size = refl;
  failsafe_size = refl;
  fits = omega arith;
  sync_fits = omega arith;
  failsafe_fits = omega arith;
}

sync_shows_example :
    let by_sender = staged.last_dmx_source == 0 || staged.last_dmx_source == (dmx_to 1).from in
    let n = record (small_node false) { outputs = staged ∷ [] } in
    (after : OutputPort) × (get_elem? (handle_sync false 1001 (dmx_to 1) n).0.outputs 0
      ≡ some after)
    × (take 8 after.buffer ≡ take 8 (if by_sender then staged.sync_data else staged.buffer))
    × (after.length ≡ (if by_sender then 8 else staged.length))
    × (after.sync_pending ≡ not by_sender)
sync_shows_example =
    handle_sync_shows 1001 (dmx_to 1) (record (small_node false) { outputs = staged ∷ [] }) 0 staged
      refl refl refl refl staged-IsValid

name_example :
    get_or (artnet_set_short_name (66 ∷ 67 ∷ []) (small_node false)).short_name 4 0
    ≡ (if ltb 4 2 then 0 else 65)
name_example =
    artnet_set_short_name_tail (66 ∷ 67 ∷ []) (small_node false) 4 refl (omega arith) (omega arith)

accepted_example :
    let p = build_dmx 10 0 8 (replicate 512 50) input in
    (packet_length_is_valid p ≡ true)
    × (packet_fields_are_valid p ≡ true)
    × ((dmx_packet p).data_length ≡ 8)
    × (universe p ≡ 2)
accepted_example =
    build_dmx_accepted 10 0 8 (replicate 512 50) input (omega arith) (omega arith) refl
      (omega arith)

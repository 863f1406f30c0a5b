-- ===== src/Machine/Link/Tests.antt =====
-- An ArtDmx from a controller to a node.
use libartnet.Base.{◌≡◌, refl, arith, get_or, get_elem?, some, true, [], ◌∷◌}
use libartnet.Machine.{handle}
use libartnet.Machine.Link.{receive_from}
use libartnet.Machine.Link.Shown.{IsIdle, dmx_shows}
use libartnet.Machine.Samples.{quiet_world, ready, ready-IsReachable}
use libartnet.Machine.Start.{artnet_start, fresh_input, fresh_output}
use libartnet.Node.Config.{artnet_set_port_addr, set_output_addr}
use libartnet.Node.Send.{build_dmx}
use libartnet.Port.{OutputPort}
use libartnet.Wire.{make_addr}

abbrev first_output : OutputPort
first_output = record fresh_output { port_enabled = true }

first_output-IsIdle : IsIdle ready 0 0 first_output
unfolding artnet_start artnet_set_port_addr set_output_addr make_addr
first_output-IsIdle = record {
  there = refl;
  enabled = refl;
  addressed = refl;
  no_a = refl;
  no_b = refl;
  no_cancel = refl;
  not_synced = refl;
}

dmx_shows_example :
    let q = receive_from 10 (build_dmx 0 0 4 (7 ∷ 8 ∷ 9 ∷ 10 ∷ []) fresh_input) in
    (after : OutputPort) × (get_elem? (handle quiet_world q ready).0.node.outputs 0 ≡ some after)
    × (get_or after.buffer 2 0 ≡ 9)
    × (after.length ≡ 4)
dmx_shows_example =
    dmx_shows quiet_world 10 0 4 2 0 (7 ∷ 8 ∷ 9 ∷ 10 ∷ []) fresh_input ready first_output
      (omega arith) (omega arith) refl (omega arith) (omega arith) ready-IsReachable
      first_output-IsIdle refl refl (omega arith)

-- ===== src/Machine/Remote/Tests.antt =====
-- A controller that programs a node.
use libartnet.Base.{
  ◌≡◌, refl, arith, true, false, [], ◌∷◌, some, none, get_elem?, if◌then◌else◌, earg, eok,
}
use libartnet.Machine.Remote.{
  Programming, artnet_send_address, artnet_send_input, arrives, name_bytes,
}
use libartnet.Machine.Remote.Addresses.{artnet_send_address_programs}
use libartnet.Machine.Remote.Inputs.{artnet_send_input_disables}
use libartnet.Node.{srv}
use libartnet.Node.Address.{bind_index_matches}
use libartnet.Node.Address.Command.{answers_address, handle_address}
use libartnet.Node.Input.{artnet_handle_input, port_disable_mask}
use libartnet.Node.Samples.{input, small_node}
use libartnet.Node.Send.{artnet_send_dmx}
use libartnet.Packet.{Packet, packet_length_is_valid}
use libartnet.Packet.Fields.{packet_fields_are_valid}
use libartnet.Port.{InputPort, has_bit}
use libartnet.Transmit.{TxState}

abbrev controller : TxState
controller = record {
  mode_on = true;
  node_type = srv;
  bcast_addr = 0;
  reply_addr = 0;
  rdm_reply_addr = 0;
  ip_addr = 1;
  subnet_mask = 0;
  gateway = 0;
  esta_hi = 0;
  esta_lo = 0;
  oem_hi = 0;
  oem_lo = 0;
  diag_enabled = false;
  diag_unicast = false;
  diag_priority = 0;
}

abbrev programming : Programming
programming = record {
  short_name = some (65 ∷ 66 ∷ []);
  long_name = none;
  in_addr = none;
  out_addr = none;
  net_addr = 3;
  sub_addr = 5;
  command = 0;
  acn_priority = 100;
}

send_address_example :
    (p : Packet) × (arrives 9 (artnet_send_address controller (some 7) programming) ≡ some p)
    × (packet_length_is_valid p ≡ true)
    × (packet_fields_are_valid p ≡ true)
    × (let after = (handle_address false p (small_node false)).0 in
        (after.net_switch ≡ 3)
        × (after.sub_switch ≡ 5)
        × (after.short_name ≡ name_bytes 18 (some (65 ∷ 66 ∷ []))))
unfolding bind_index_matches answers_address
send_address_example =
    artnet_send_address_programs controller 9 7 65 (66 ∷ []) programming (small_node false) refl
      refl refl refl (omega arith) refl refl refl refl refl refl

send_input_example :
    (p : Packet) × (arrives 9 (artnet_send_input controller (some (7, 1)) (1 ∷ 0 ∷ 0 ∷ 0 ∷ []))
      ≡ some p)
    × (packet_length_is_valid p ≡ true)
    × (packet_fields_are_valid p ≡ true)
    × (after : InputPort) × (get_elem? (artnet_handle_input false p (small_node false)).0.inputs 0
        ≡ some after)
    × ((artnet_send_dmx true true 50 0 4 (1 ∷ 2 ∷ 3 ∷ 4 ∷ []) after).1
        ≡ (if has_bit 1 port_disable_mask then earg else eok))
unfolding bind_index_matches
send_input_example =
    artnet_send_input_disables controller 9 7 1 0 50 4 1 0 0 0 (1 ∷ 2 ∷ 3 ∷ 4 ∷ [])
      (small_node false) input refl refl (omega arith) refl refl refl (omega arith) (omega arith)
      (omega arith) (omega arith) refl

-- ===== src/Reply/Tests.antt =====
-- A node with four outputs and four inputs, as a controller lists it.
use Prim.{tt}
use libartnet.Base.{
  ◌<◌, ◌≡◌, refl, arith, true, false, ◌&&◌, ◌||◌, [], ◌∷◌, replicate, get_or, ◌==◌,
}
use libartnet.Node.{Node}
use libartnet.Node.Address.Command.{run_command}
use libartnet.Node.Address.Rebuilt.{OnPage}
use libartnet.Node.Samples.{input, output, small_node}
use libartnet.NodeList.Entry.{NodeEntry, zero_entry}
use libartnet.NodeList.Subscribers.{port_matches, port_count}
use libartnet.Port.{has_bit}
use libartnet.Reply.{Identity, good_output_b}
use libartnet.Reply.Listed.{listed, listed_ports, run_command_bqp}
use libartnet.Wire.{addr_net, addr_subnet}

abbrev own : Identity
own = record {
  ip_addr = 2 ∷ 0 ∷ 0 ∷ 1 ∷ [];
  hw_addr = replicate 6 1;
  oem_hi = 0;
  oem_lo = 255;
  esta_hi = 0;
  esta_lo = 0;
  style_code = 0;
  status2 = 0x0e;
  status3 = 0;
  default_resp_uid = replicate 6 0;
  refresh_rate = 44;
}

abbrev four_ports : Node
four_ports = record (small_node false) {
  outputs = output ∷ output ∷ output ∷ output ∷ [];
  inputs = input ∷ input ∷ input ∷ input ∷ [];
  types = replicate 4 0x40;
}

abbrev empty_entry : NodeEntry
empty_entry = record zero_entry {
  port_types = replicate 4 0;
  sw_in = replicate 4 0;
  sw_out = replicate 4 0;
}

four_ports-OnPage : OnPage four_ports
unfolding addr_net addr_subnet
four_ports-OnPage = record {
  inputs_on = ((refl, refl), ((refl, refl), ((refl, refl), ((refl, refl), tt))));
  outputs_on = ((refl, refl), ((refl, refl), ((refl, refl), ((refl, refl), tt))));
}

abbrev seen : NodeEntry
seen = listed own four_ports empty_entry

listed_example :
    ((output.port_enabled || input.port_enabled) ≡ true → 3 < port_count seen)
    × (port_matches seen 2
          (get_or seen.port_types 3 0)
          (get_or seen.sw_out 3 0)
          (get_or seen.sw_in 3 0)
        ≡ (has_bit (get_or four_ports.types 3 0) 0x80 && output.port_addr == 2
            || has_bit (get_or four_ports.types 3 0) 0x40 && input.port_addr == 2))
listed_example =
    listed_ports own four_ports empty_entry 3 2 output input refl refl refl refl refl refl
      four_ports-OnPage refl refl (omega arith) (omega arith)

policy_example :
    has_bit (good_output_b (run_command 0xe4 four_ports).bqp_policy output) 0x10 ≡ false
policy_example = run_command_bqp 0xe4 four_ports output (omega arith) (omega arith)

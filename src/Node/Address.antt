-- ===== src/Node/Address.antt =====
-- `handle_address` (artnet/receive.c): ArtAddress programs a node's names, its net and subnet, the
-- addresses of its ports, and gives it a command.
pub mod Rebuilt
pub mod Command
use libartnet.Base.{ℕ, zero, suc, ◌+◌, ◌-◌, Bool, true, false, ◌&&◌, ◌||◌, not, List, [], ◌∷◌}
use libartnet.Base.{
  if◌then◌else◌, ◌==◌, bit_and, bit_or, memcpy, replicate, take, drop, get_or, leb,
}
use libartnet.Port.{
  InputPort, OutputPort, MergeMode, ltp, htp, has_bit, clear_bit, artnet_dmx_length,
}
use libartnet.Port.{port_status_merge, port_status_dmx_sip, port_status_dmx_test}
use libartnet.Port.{port_status_dmx_text, port_status_lpt_mode}
use libartnet.Packet.{Packet, byte}
use libartnet.Wire.{make_addr, addr_port}
use libartnet.Node.{Node, NodeType, srv, raw, ReportCode, shname_ok, loname_ok, LedState}
use libartnet.Node.{led_normal, led_mute, led_locate, FailsafeMode, hold, zeros, full, scene}

abbrev pub program_no_change : ℕ
program_no_change = 0x7f

abbrev pub program_defaults : ℕ
program_defaults = 0x00

abbrev pub program_change_mask : ℕ
program_change_mask = 0x80

-- `bind_index_matches`
unfoldable pub bind_index_matches : Node → ℕ → Bool
bind_index_matches n bind_index = bind_index == (if n.bind_index == 0 then 1 else n.bind_index)

-- A name whose first byte is 0 or 0x7f is not programmed.
abbrev is_programmed : ℕ → Bool
is_programmed first = not (first == program_defaults) && not (first == program_no_change)

unfoldable pub program_short_name : Packet → Node → Node
program_short_name p n =
    if is_programmed (byte p 14)
    then record n { short_name = memcpy n.short_name (drop 14 p.bytes) 18; report_code = shname_ok }
    else n

unfoldable pub program_long_name : Packet → Node → Node
program_long_name p n =
    if is_programmed (byte p 32)
    then record n { long_name = memcpy n.long_name (drop 32 p.bytes) 64; report_code = loname_ok }
    else n

unfoldable pub program_subnet : ℕ → Node → Node
program_subnet sub_switch n =
    if sub_switch == program_defaults
    then record n { sub_switch = n.default_sub_switch; sub_switch_net_ctl = false }
    else if has_bit sub_switch program_change_mask
    then record n { sub_switch = bit_and sub_switch 0x0f; sub_switch_net_ctl = true }
    else n

unfoldable pub program_net : ℕ → Node → Node
program_net net_switch n =
    if net_switch == program_defaults
    then record n { net_switch = n.default_net_switch; net_switch_net_ctl = false }
    else if has_bit net_switch program_change_mask
    then record n {
      net_switch = clear_bit net_switch program_change_mask;
      net_switch_net_ctl = true;
    }
    else n

abbrev pub readdress_input : ℕ → ℕ → InputPort → InputPort
readdress_input net subnet port = record port {
  port_addr = make_addr net subnet (addr_port port.port_addr);
}

abbrev pub readdress_output : ℕ → ℕ → OutputPort → OutputPort
readdress_output net subnet port = record port {
  port_addr = make_addr net subnet (addr_port port.port_addr);
}

abbrev pub map {ℓ} : {A B : Type ℓ} → (A → B) → List A → List B
map f [] = []
map f (x ∷ xs) = f x ∷ map f xs

-- The loop that rebuilds the port addresses
unfoldable pub rebuild_addresses : Node → Node
rebuild_addresses n = record n {
  inputs = map (readdress_input n.net_switch n.sub_switch) n.inputs;
  outputs = map (readdress_output n.net_switch n.sub_switch) n.outputs;
}

unfoldable pub program_input : ℕ → ℕ → ℕ → InputPort → InputPort
program_input net subnet sw port =
    if sw == program_no_change
    then port
    else if sw == program_defaults
    then record port {
      port_addr = make_addr net subnet port.port_default_addr;
      port_net_ctl = false;
    }
    else if has_bit sw program_change_mask
    then record port { port_addr = make_addr net subnet sw; port_net_ctl = true }
    else port

unfoldable pub program_output : ℕ → ℕ → ℕ → OutputPort → OutputPort
program_output net subnet sw port =
    if sw == program_no_change
    then port
    else if sw == program_defaults
    then record port {
      port_addr = make_addr net subnet port.port_default_addr;
      port_net_ctl = false;
      port_enabled = true;
    }
    else if has_bit sw program_change_mask
    then record port {
      port_addr = make_addr net subnet sw;
      port_net_ctl = true;
      port_enabled = true;
    }
    else port

-- The loops over `swIn` (from byte 96) and `swOut` (from byte 100)
unfoldable pub program_inputs : Packet → ℕ → ℕ → ℕ → List InputPort → List InputPort
program_inputs p net subnet at [] = []
program_inputs p net subnet at (port ∷ ports) =
    program_input net subnet (byte p at) port ∷ program_inputs p net subnet (suc at) ports

unfoldable pub program_outputs : Packet → ℕ → ℕ → ℕ → List OutputPort → List OutputPort
program_outputs p net subnet at [] = []
program_outputs p net subnet at (port ∷ ports) =
    program_output net subnet (byte p at) port ∷ program_outputs p net subnet (suc at) ports

-- The sequence numbers restart where an input's address is not the stored one.
unfoldable pub reset_sequences : List InputPort → List InputPort → List InputPort
reset_sequences [] ports = ports
reset_sequences (old ∷ olds) [] = []
reset_sequences (old ∷ olds) (port ∷ ports) =
    (if old.port_addr == port.port_addr then port else record port { seq = 1 })
    ∷ reset_sequences olds ports

-- The part of `handle_address` before its command
unfoldable pub program_addresses : Packet → Node → Node
program_addresses p n =
    let programmed = program_net (byte p 12) (program_subnet (byte p 104) n) in
    let rebuilt =
      if not (n.net_switch == programmed.net_switch) || not (n.sub_switch == programmed.sub_switch)
      then rebuild_addresses programmed
      else programmed in
    record rebuilt {
      inputs =
          reset_sequences n.inputs
            (program_inputs p rebuilt.net_switch rebuilt.sub_switch 96 rebuilt.inputs);
      outputs = program_outputs p rebuilt.net_switch rebuilt.sub_switch 100 rebuilt.outputs;
    }

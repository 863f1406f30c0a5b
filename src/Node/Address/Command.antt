-- ===== src/Node/Address/Command.antt =====
-- The `switch` on the command of an ArtAddress, and `handle_address` as a whole. Only the commands
-- that the code names do anything; those for ports 1 to 3 are in its `default`.
use libartnet.Base.{ℕ, Bool, true, false, ◌&&◌, ◌||◌, not, List, [], ◌∷◌}
use libartnet.Base.{if◌then◌else◌, ◌==◌, bit_or, memcpy, replicate, leb}
use libartnet.Port.{OutputPort, ltp, htp, has_bit, clear_bit, artnet_dmx_length}
use libartnet.Port.{port_status_merge, port_status_dmx_sip, port_status_dmx_test}
use libartnet.Port.{port_status_dmx_text, port_status_lpt_mode}
use libartnet.Packet.{Packet, byte}
use libartnet.Node.{Node, NodeType, srv, raw}
use libartnet.Node.{led_normal, led_mute, led_locate, hold, zeros, full, scene}
use libartnet.Node.Address.{map, bind_index_matches, program_short_name, program_long_name}
use libartnet.Node.Address.{program_addresses}

-- ARTNET_PC_CANCEL, for a port
unfoldable pub request_cancel : OutputPort → OutputPort
request_cancel port =
    if has_bit port.port_status port_status_merge
    then record port { cancel_merge_pending = true }
    else port

-- ARTNET_PC_RESET, for a port
unfoldable pub reset_text_flags : OutputPort → OutputPort
reset_text_flags port = record port {
  port_status =
      clear_bit (clear_bit (clear_bit port.port_status port_status_dmx_sip) port_status_dmx_test)
        port_status_dmx_text;
}

-- ARTNET_PC_FAIL_RECORD, for a port
unfoldable pub record_scene : OutputPort → OutputPort
record_scene port = record port {
  failsafe_data = memcpy port.failsafe_data port.buffer artnet_dmx_length;
  failsafe_length = port.length;
}

-- What both direction commands forget of port 0.
unfoldable pub forget_sources : OutputPort → OutputPort
forget_sources port = record port {
  ip_a = 0;
  ip_b = 0;
  physical_a = 0;
  physical_b = 0;
  time_a = 0;
  time_b = 0;
  cancel_merge_pending = false;
  port_status = clear_bit port.port_status port_status_merge;
}

-- ARTNET_PC_CLR_0
unfoldable pub clear_output : OutputPort → OutputPort
clear_output port = record port { buffer = replicate artnet_dmx_length 0; length = 0 }

abbrev pub on_first {ℓ} : {A : Type ℓ} → (A → A) → List A → List A
on_first f [] = []
on_first f (x ∷ xs) = f x ∷ xs

-- A command that works on output port 0: for each of them `cmd & 0x03` is 0.
abbrev on_port_0 : (OutputPort → OutputPort) → Node → Node
on_port_0 f n = record n { outputs = on_first f n.outputs }

abbrev on_ports : (OutputPort → OutputPort) → Node → Node
on_ports f n = record n { outputs = map f n.outputs }

-- `types[0] |= set; types[0] &= ~clear`
abbrev set_direction : ℕ → ℕ → Node → Node
set_direction set clear n = record n {
  types = on_first (λ t. clear_bit (bit_or t set) clear) n.types;
}

-- The commands 0x10 to 0xd0, each for port 0
unfoldable pub run_port_command : ℕ → Node → Node
run_port_command cmd n =
    if cmd == 0x10
    then on_port_0
        (λ port. record port {
          merge_mode = ltp;
          port_status = bit_or port.port_status port_status_lpt_mode;
        })
        n
    else if cmd == 0x20
    then set_direction 0x80 0x40 (on_port_0 forget_sources n)
    else if cmd == 0x30
    then set_direction 0x40 0x80 (on_port_0 forget_sources n)
    else if cmd == 0x50
    then on_port_0
        (λ port. record port {
          merge_mode = htp;
          port_status = clear_bit port.port_status port_status_lpt_mode;
        })
        n
    else if cmd == 0x60
    then on_port_0 (λ port. record port { proto_sel = 0 }) n
    else if cmd == 0x70
    then on_port_0 (λ port. record port { proto_sel = 1 }) n
    else if cmd == 0x90
    then on_port_0 clear_output n
    else if cmd == 0xa0
    then on_port_0 (λ port. record port { output_style = 0 }) n
    else if cmd == 0xb0
    then on_port_0 (λ port. record port { output_style = 1 }) n
    else if cmd == 0xc0
    then on_port_0 (λ port. record port { rdm_enabled = 1 }) n
    else if cmd == 0xd0
    then on_port_0 (λ port. record port { rdm_enabled = 0 }) n
    else if leb 0xe0 cmd && leb cmd 0xef
    then record n { bqp_policy = cmd }
    else n

-- The whole `switch`
unfoldable pub run_command : ℕ → Node → Node
run_command cmd n =
    if cmd == 0x01
    then on_ports request_cancel n
    else if cmd == 0x02
    then record n { led_state = led_normal }
    else if cmd == 0x03
    then record n { led_state = led_mute }
    else if cmd == 0x04
    then record n { led_state = led_locate }
    else if cmd == 0x05
    then on_ports reset_text_flags n
    else if cmd == 0x08
    then record n { failsafe_mode = hold }
    else if cmd == 0x09
    then record n { failsafe_mode = zeros }
    else if cmd == 0x0a
    then record n { failsafe_mode = full }
    else if cmd == 0x0b
    then record n { failsafe_mode = scene }
    else if cmd == 0x0c
    then on_ports record_scene n
    else run_port_command cmd n

-- Servers and raw nodes do not answer ArtAddress.
unfoldable pub answers_address : NodeType → Bool
answers_address srv = false
answers_address raw = false
answers_address _ = true

abbrev set_priority : ℕ → Node → Node
set_priority priority n = if priority == 0xff then n else record n { acn_priority = priority }

-- `handle_address`, up to the ArtPollReply; the Bool tells whether that is built and sent.
unfoldable pub handle_address : Bool → Packet → Node → Node × Bool
handle_address handled p n =
    if handled || not (answers_address n.node_type) || not (bind_index_matches n (byte p 13))
    then (n, false)
    else (let named =
          program_long_name p (program_short_name p (record n { reply_addr = p.from })) in
        (set_priority (byte p 105) (run_command (byte p 106) (program_addresses p named)), true))

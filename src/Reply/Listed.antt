-- ===== src/Reply/Listed.antt =====
-- What a controller that lists a node finds in the reply: the ports and the addresses of the node.
use libartnet.Base.{
  ℕ, zero, suc, ◌^◌, ◌≤◌, ◌<◌, ◌≡◌, refl, ap, ◌∙◌, arith, and_mask, inl, inr, Bool-cases,
}
use libartnet.Base.{true, false, ◌&&◌, ◌||◌, List, [], ◌∷◌, some, ◌==◌}
use libartnet.Base.{bit_and, length, get_elem?, get_or, get_or-memcpy}
use libartnet.Node.{Node}
use libartnet.Node.Address.Command.{run_command, run_port_command}
use libartnet.Node.Address.Rebuilt.{IsOn, InputsOn, OutputsOn, OnPage}
use libartnet.NodeList.Entry.{NodeEntry, copy_apr_to_node_entry}
use libartnet.NodeList.Subscribers.{port_matches, port_count}
use libartnet.Port.{InputPort, OutputPort, has_bit}
use libartnet.Reply.{
  Identity, artnet_tx_build_art_poll_reply, ports_in_use, input_switches, output_switches,
  good_output_b,
}
use libartnet.Wire.{make_addr, addr_port}
use libartnet.Wire.Address.{make_addr_lem, addr_port_lem, addr_net_lem, addr_subnet_lem}
use libartnet.Wire.Misc.{bytes_to_short_lem}

-- A Port-Address comes back from the net and subnet of the node and the switch of its port.
address_rebuilt :
    (net subnet a : ℕ)
    → IsOn net subnet a
    → a < 2 ^ 15
    → make_addr net (bit_and subnet 0x0f) (bit_and (addr_port a) 0x0f) ≡ a
address_rebuilt net subnet a (in_net, in_subnet) h = omega (
  arith,
  make_addr_lem net (bit_and subnet 0x0f) (bit_and (addr_port a) 0x0f),
  and_mask 4 subnet,
  and_mask 4 (addr_port a),
  addr_port_lem a,
  addr_net_lem a,
  addr_subnet_lem a,
)

length-output_switches : (ports : List OutputPort) → length (output_switches ports) ≡ length ports
length-output_switches [] = refl
length-output_switches (port ∷ ports) = ap suc (length-output_switches ports)

length-input_switches : (ports : List InputPort) → length (input_switches ports) ≡ length ports
length-input_switches [] = refl
length-input_switches (port ∷ ports) = ap suc (length-input_switches ports)

output_at :
    (net subnet i : ℕ) (ports : List OutputPort) (port : OutputPort)
    → get_elem? ports i ≡ some port
    → OutputsOn net subnet ports
    → (get_or (output_switches ports) i 0 ≡ addr_port port.port_addr)
      × IsOn net subnet port.port_addr
      × (i < length ports)
output_at net subnet i [] port e on = absurd (cc e)
output_at net subnet zero (x ∷ ports) port e on =
    let same : x ≡ port = cc e in rw (← same) (refl, on.0, omega arith)
output_at net subnet (suc i) (x ∷ ports) port e on =
    let (switch, on_page, fits) = output_at net subnet i ports port e on.1 in
    (switch, on_page, omega arith)

input_at :
    (net subnet i : ℕ) (ports : List InputPort) (port : InputPort)
    → get_elem? ports i ≡ some port
    → InputsOn net subnet ports
    → (get_or (input_switches ports) i 0 ≡ addr_port port.port_addr)
      × IsOn net subnet port.port_addr
      × (i < length ports)
input_at net subnet i [] port e on = absurd (cc e)
input_at net subnet zero (x ∷ ports) port e on =
    let same : x ≡ port = cc e in rw (← same) (refl, on.0, omega arith)
input_at net subnet (suc i) (x ∷ ports) port e on =
    let (switch, on_page, fits) = input_at net subnet i ports port e on.1 in
    (switch, on_page, omega arith)

-- The count covers every port that is on, and no more ports than there are.
ports_in_use-covers :
    (outs : List OutputPort) (ins : List InputPort) (i : ℕ) (out : OutputPort) (in_port : InputPort)
    → get_elem? outs i ≡ some out
    → get_elem? ins i ≡ some in_port
    → (out.port_enabled || in_port.port_enabled) ≡ true
    → i < ports_in_use outs ins
unfolding ports_in_use
ports_in_use-covers [] ins i out in_port e f on = absurd (cc e)
ports_in_use-covers (o ∷ outs) [] i out in_port e f on = absurd (cc f)
ports_in_use-covers (o ∷ outs) (p ∷ ins) zero out in_port e f on =
    let same : o ≡ out = cc e in
    let same' : p ≡ in_port = cc f in rw (same, same', on) (ground arith)
ports_in_use-covers (o ∷ outs) (p ∷ ins) (suc i) out in_port e f on =
    ground (arith, ports_in_use-covers outs ins i out in_port e f on)

ports_in_use-le :
    (outs : List OutputPort) (ins : List InputPort) → ports_in_use outs ins ≤ length outs
unfolding ports_in_use
ports_in_use-le [] ins = omega arith
ports_in_use-le (o ∷ outs) [] = omega arith
ports_in_use-le (o ∷ outs) (p ∷ ins) = ground (arith, ports_in_use-le outs ins)

-- The entry that a controller makes of the reply, over an entry with its arrays of four switches.
abbrev pub listed : Identity → Node → NodeEntry → NodeEntry
listed own n e = copy_apr_to_node_entry e (artnet_tx_build_art_poll_reply own n)

-- A port of a node with four types, and four outputs and four inputs on its page, with 15-bit
-- addresses, is listed by a controller, whose entry has four types and four switches of each kind,
-- as what it is: if the port is on, it is among the ports that the search for receivers looks at,
-- and that search matches it, with the type that is listed, exactly for the Port-Address of its
-- output or input, by the direction in the type that the node keeps for it.
pub listed_ports :
    (own : Identity) (n : Node) (e : NodeEntry) (i uni : ℕ) (out : OutputPort) (in_port : InputPort)
    → length e.port_types ≡ 4
    → length n.types ≡ 4
    → length e.sw_out ≡ 4
    → length e.sw_in ≡ 4
    → length n.outputs ≡ 4
    → length n.inputs ≡ 4
    → OnPage n
    → get_elem? n.outputs i ≡ some out
    → get_elem? n.inputs i ≡ some in_port
    → out.port_addr < 2 ^ 15
    → in_port.port_addr < 2 ^ 15
    → let e' = listed own n e in
      ((out.port_enabled || in_port.port_enabled) ≡ true → i < port_count e')
      × (port_matches e' uni (get_or e'.port_types i 0) (get_or e'.sw_out i 0) (get_or e'.sw_in i 0)
          ≡ (has_bit (get_or n.types i 0) 0x80 && out.port_addr == uni
              || has_bit (get_or n.types i 0) 0x40 && in_port.port_addr == uni))
unfolding copy_apr_to_node_entry artnet_tx_build_art_poll_reply port_matches
listed_ports own n e i uni out in_port types_e types_n sw_o sw_i all_o all_i on at_out at_in
      small_out small_in =
    let (switch_out, page_out, fits) =
      output_at n.net_switch n.sub_switch i n.outputs out at_out on.outputs_on in
    let (switch_in, page_in, _) =
      input_at n.net_switch n.sub_switch i n.inputs in_port at_in on.inputs_on in
    let copied_out : get_or (listed own n e).sw_out i 0 ≡ addr_port out.port_addr =
      get_or-memcpy e.sw_out (output_switches n.outputs) 4 i 0 (omega arith) (omega arith)
        (omega (arith, length-output_switches n.outputs))
      ∙ switch_out in
    let copied_in : get_or (listed own n e).sw_in i 0 ≡ addr_port in_port.port_addr =
      get_or-memcpy e.sw_in (input_switches n.inputs) 4 i 0 (omega arith) (omega arith)
        (omega (arith, length-input_switches n.inputs))
      ∙ switch_in in
    let copied_types : get_or (listed own n e).port_types i 0 ≡ get_or n.types i 0 =
      get_or-memcpy e.port_types n.types 4 i 0 (omega arith) (omega arith) (omega arith) in
    (
      λ enabled. ground (
        arith,
        bytes_to_short_lem 0 (ports_in_use n.outputs n.inputs),
        ports_in_use-le n.outputs n.inputs,
        ports_in_use-covers n.outputs n.inputs i out in_port at_out at_in enabled,
      ),
      rw
          (
            copied_types,
            copied_out,
            copied_in,
            address_rebuilt n.net_switch n.sub_switch out.port_addr page_out small_out,
            address_rebuilt n.net_switch n.sub_switch in_port.port_addr page_in small_in,
          )
          refl,
    )

stores_policy :
    (cmd : ℕ) (n : Node) → 0xe0 ≤ cmd → cmd ≤ 0xef → (run_command cmd n).bqp_policy ≡ cmd
unfolding run_command run_port_command
stores_policy cmd n low high = ground arith

not_disabled :
    (policy : ℕ) (port : OutputPort)
    → policy == 0x04 ≡ false
    → has_bit (good_output_b policy port) 0x10 ≡ false
unfolding good_output_b has_bit
not_disabled policy port other = elim (Bool-cases (port.rdm_enabled == 0)) [
  | inl off ↦ elim (Bool-cases (port.output_style == 0)) [
    | inl delta ↦ rw (off, delta) refl
    | inr constant ↦ rw (off, constant) refl
  ]
  | inr enabled ↦ elim (Bool-cases (port.output_style == 0)) [
    | inl delta ↦ rw (enabled, delta, other) refl
    | inr constant ↦ rw (enabled, constant, other) refl
  ]
]

-- After an ArtAddress command for the background queue policy, the one that disables background
-- discovery included, no port reports that its background discovery is disabled.
pub run_command_bqp :
    (cmd : ℕ) (n : Node) (port : OutputPort)
    → 0xe0 ≤ cmd
    → cmd ≤ 0xef
    → has_bit (good_output_b (run_command cmd n).bqp_policy port) 0x10 ≡ false
run_command_bqp cmd n port low high =
    rw (stores_policy cmd n low high) (not_disabled cmd port (ground arith))

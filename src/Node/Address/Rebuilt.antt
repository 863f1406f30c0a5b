-- ===== src/Node/Address/Rebuilt.antt =====
-- Programming keeps every port of a node inside the net and subnet of the node.
use Prim.{Unit, tt}
use libartnet.Base.{ℕ, suc, ◌%◌, ◌≡◌, ◌∙◌, arith, false, List, [], ◌∷◌, not, ◌||◌}
use libartnet.Base.{◌==◌, Bool-cases, inl, inr, if_keeps, if◌then◌else◌}
use libartnet.Port.{InputPort, OutputPort}
use libartnet.Wire.{make_addr, addr_net, addr_subnet, addr_port}
use libartnet.Wire.Address.{make_addr_parts}
use libartnet.Packet.{Packet, byte}
use libartnet.Node.{Node}
use libartnet.Node.Address.{
  map, readdress_input, readdress_output, rebuild_addresses, program_input,
}
use libartnet.Node.Address.{program_output, program_inputs, program_outputs, reset_sequences}
use libartnet.Node.Address.{program_addresses, program_net, program_subnet}

-- The address lies in that net and subnet.
abbrev pub IsOn : ℕ → ℕ → ℕ → Type 0
IsOn net subnet a = (addr_net a ≡ net % 128) × (addr_subnet a ≡ subnet % 16)

make_addr-IsOn : (net subnet a : ℕ) → IsOn net subnet (make_addr net subnet a)
make_addr-IsOn net subnet a =
    let (in_net, in_subnet, _, _) = make_addr_parts net subnet a in (in_net, in_subnet)

abbrev pub InputsOn : ℕ → ℕ → List InputPort → Type 0
InputsOn net subnet [] = Unit {0}
InputsOn net subnet (port ∷ ports) = IsOn net subnet port.port_addr × InputsOn net subnet ports

abbrev pub OutputsOn : ℕ → ℕ → List OutputPort → Type 0
OutputsOn net subnet [] = Unit {0}
OutputsOn net subnet (port ∷ ports) = IsOn net subnet port.port_addr × OutputsOn net subnet ports

-- Every port of the node is on the node's page: its net and subnet.
pub record OnPage (n : Node) : Type 0 where
  pub inputs_on : InputsOn n.net_switch n.sub_switch n.inputs
  pub outputs_on : OutputsOn n.net_switch n.sub_switch n.outputs

module _ (net subnet : ℕ) where
  pub readdressed_inputs :
      (ports : List InputPort) → InputsOn net subnet (map (readdress_input net subnet) ports)
  readdressed_inputs [] = tt
  readdressed_inputs (port ∷ ports) =
      (make_addr-IsOn net subnet (addr_port port.port_addr), readdressed_inputs ports)

  pub readdressed_outputs :
      (ports : List OutputPort) → OutputsOn net subnet (map (readdress_output net subnet) ports)
  readdressed_outputs [] = tt
  readdressed_outputs (port ∷ ports) =
      (make_addr-IsOn net subnet (addr_port port.port_addr), readdressed_outputs ports)

  program_input-IsOn :
      (sw : ℕ) (port : InputPort)
      → IsOn net subnet port.port_addr
      → IsOn net subnet (program_input net subnet sw port).port_addr
  unfolding program_input
  program_input-IsOn sw port on =
      if_keeps (λ (q : InputPort). IsOn net subnet q.port_addr) _ on
        (if_keeps (λ (q : InputPort). IsOn net subnet q.port_addr) _
          (make_addr-IsOn net subnet port.port_default_addr)
          (if_keeps (λ (q : InputPort). IsOn net subnet q.port_addr) _
            (make_addr-IsOn net subnet sw) on))

  program_output-IsOn :
      (sw : ℕ) (port : OutputPort)
      → IsOn net subnet port.port_addr
      → IsOn net subnet (program_output net subnet sw port).port_addr
  unfolding program_output
  program_output-IsOn sw port on =
      if_keeps (λ (q : OutputPort). IsOn net subnet q.port_addr) _ on
        (if_keeps (λ (q : OutputPort). IsOn net subnet q.port_addr) _
          (make_addr-IsOn net subnet port.port_default_addr)
          (if_keeps (λ (q : OutputPort). IsOn net subnet q.port_addr) _
            (make_addr-IsOn net subnet sw) on))

  program_inputs-InputsOn :
      (p : Packet) (at : ℕ) (ports : List InputPort)
      → InputsOn net subnet ports
      → InputsOn net subnet (program_inputs p net subnet at ports)
  unfolding program_inputs
  program_inputs-InputsOn p at [] on = tt
  program_inputs-InputsOn p at (port ∷ ports) (on, rest) =
      (program_input-IsOn (byte p at) port on, program_inputs-InputsOn p (suc at) ports rest)

  program_outputs-OutputsOn :
      (p : Packet) (at : ℕ) (ports : List OutputPort)
      → OutputsOn net subnet ports
      → OutputsOn net subnet (program_outputs p net subnet at ports)
  unfolding program_outputs
  program_outputs-OutputsOn p at [] on = tt
  program_outputs-OutputsOn p at (port ∷ ports) (on, rest) =
      (program_output-IsOn (byte p at) port on, program_outputs-OutputsOn p (suc at) ports rest)

  reset_sequences-InputsOn :
      (olds ports : List InputPort)
      → InputsOn net subnet ports
      → InputsOn net subnet (reset_sequences olds ports)
  unfolding reset_sequences
  reset_sequences-InputsOn [] ports on = on
  reset_sequences-InputsOn (old ∷ olds) [] on = tt
  reset_sequences-InputsOn (old ∷ olds) (port ∷ ports) (on, rest) = (
    if_keeps (λ (q : InputPort). IsOn net subnet q.port_addr) (old.port_addr == port.port_addr) on
        on,
    reset_sequences-InputsOn olds ports rest,
  )

-- Net and subnet are programmed before the ports move.
abbrev pub SamePorts : Node → Node → Type 0
SamePorts n m = (m.inputs ≡ n.inputs) × (m.outputs ≡ n.outputs)

pub program_subnet-SamePorts : (sw : ℕ) (n : Node) → SamePorts n (program_subnet sw n)
unfolding program_subnet
program_subnet-SamePorts sw n = ground arith

pub program_net-SamePorts : (sw : ℕ) (n : Node) → SamePorts n (program_net sw n)
unfolding program_net
program_net-SamePorts sw n = ground arith

rebuild_addresses-OnPage : (n : Node) → OnPage (rebuild_addresses n)
unfolding rebuild_addresses
rebuild_addresses-OnPage n = record {
  inputs_on = readdressed_inputs n.net_switch n.sub_switch n.inputs;
  outputs_on = readdressed_outputs n.net_switch n.sub_switch n.outputs;
}

-- A node whose net and subnet are the old ones has its ports on the page already.
unmoved :
    (n m : Node)
    → SamePorts n m
    → OnPage n
    → (not (n.net_switch == m.net_switch) || not (n.sub_switch == m.sub_switch)) ≡ false
    → OnPage m
unmoved n m (inputs, outputs) on same =
    let net : m.net_switch ≡ n.net_switch = ground arith in
    let subnet : m.sub_switch ≡ n.sub_switch = ground arith in
    record {
      inputs_on = rw (inputs, net, subnet) on.inputs_on;
      outputs_on = rw (outputs, net, subnet) on.outputs_on;
    }

moved :
    (n m : Node)
    → SamePorts n m
    → OnPage n
    → OnPage (
        if not (n.net_switch == m.net_switch) || not (n.sub_switch == m.sub_switch)
        then rebuild_addresses m
        else m)
moved n m same on =
    elim (Bool-cases (not (n.net_switch == m.net_switch) || not (n.sub_switch == m.sub_switch))) [
      | inl change ↦ rw change (rebuild_addresses-OnPage m)
      | inr still ↦ rw still (unmoved n m same on still)
    ]

reprogrammed :
    (p : Packet) (olds : List InputPort) (m : Node)
    → OnPage m
    → OnPage (record m {
      inputs = reset_sequences olds (program_inputs p m.net_switch m.sub_switch 96 m.inputs);
      outputs = program_outputs p m.net_switch m.sub_switch 100 m.outputs;
    })
reprogrammed p olds m on =
    let net = m.net_switch in
    let subnet = m.sub_switch in
    record {
      inputs_on =
          reset_sequences-InputsOn net subnet olds (program_inputs p net subnet 96 m.inputs)
            (program_inputs-InputsOn net subnet p 96 m.inputs on.inputs_on);
      outputs_on = program_outputs-OutputsOn net subnet p 100 m.outputs on.outputs_on;
    }

-- ArtAddress leaves every input and output port in the net and subnet that the node then has,
-- whatever it programs: the net, the subnet, defaults, single ports, or nothing.
pub program_addresses-OnPage : (p : Packet) (n : Node) → OnPage n → OnPage (program_addresses p n)
unfolding program_addresses
program_addresses-OnPage p n on =
    let subnetted = program_subnet (byte p 104) n in
    let programmed = program_net (byte p 12) subnetted in
    let (inputs, outputs) = program_subnet-SamePorts (byte p 104) n in
    let (inputs', outputs') = program_net-SamePorts (byte p 12) subnetted in
    reprogrammed p n.inputs _ (moved n programmed (inputs' ∙ inputs, outputs' ∙ outputs) on)

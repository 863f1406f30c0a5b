-- ===== src/Node/Config/Page.antt =====
-- A node set up by its own program, and programmed over the network, keeps its ports on its page.
use Prim.{tt}
use libartnet.Base.{ℕ, List, [], ◌∷◌, Bool-cases, inl, inr, ltb, ◌==◌, ◌&&◌, not}
use libartnet.Port.{InputPort}
use libartnet.Packet.{Packet}
use libartnet.Wire.{addr_port}
use libartnet.Wire.Address.{make_addr_parts}
use libartnet.Node.{Node}
use libartnet.Node.Address.{map, program_addresses}
use libartnet.Node.Address.Rebuilt.{
  InputsOn, OnPage, readdressed_inputs, readdressed_outputs, program_addresses-OnPage,
}
use libartnet.Node.Config.{
  artnet_set_net_addr, artnet_set_subnet_addr, resubnet_input, artnet_set_port_addr, PortDir,
}
use libartnet.Node.Config.Port.{user_failed-OnPage, set_port-OnPage}

resubnetted :
    (net subnet : ℕ) (ports : List InputPort)
    → InputsOn net subnet (map (resubnet_input net subnet) ports)
resubnetted net subnet [] = tt
resubnetted net subnet (port ∷ ports) =
    let (in_net, in_subnet, _, _) = make_addr_parts net subnet (addr_port port.port_addr) in
    ((in_net, in_subnet), resubnetted net subnet ports)

-- One change of a node's addresses: by ArtAddress, or by the node's own program.
pub data Readdress : Node → Node → Type 0 where
  by_network : (p : Packet) (n : Node) → Readdress n (program_addresses p n)
  by_net : (net : ℕ) (n : Node) → Readdress n (artnet_set_net_addr net n).0
  by_port :
      (id : ℕ) (dir : PortDir) (addr : ℕ) (n : Node)
      → Readdress n (artnet_set_port_addr id dir addr n).0
  by_subnet : (subnet : ℕ) (n : Node) → Readdress n (artnet_set_subnet_addr subnet n).0

pub data Readdresses : Node → Node → Type 0 where
  none_yet : (n : Node) → Readdresses n n
  and_then : {n m k : Node} → Readdresses n m → Readdress m k → Readdresses n k

pub set_net-OnPage : (net : ℕ) (n : Node) → OnPage n → OnPage (artnet_set_net_addr net n).0
unfolding artnet_set_net_addr
set_net-OnPage net n on = elim (Bool-cases (ltb 0x7f net)) [
  | inl large ↦ rw large (record { inputs_on = on.inputs_on; outputs_on = on.outputs_on })
  | inr valid ↦ elim (Bool-cases (not n.net_switch_net_ctl && not (net == n.net_switch))) [
    | inl change ↦
        rw (valid, change)
          (record {
            inputs_on = readdressed_inputs net n.sub_switch n.inputs;
            outputs_on = readdressed_outputs net n.sub_switch n.outputs;
          })
    | inr still ↦
        rw (valid, still)
          (user_failed-OnPage n.net_switch_net_ctl (record n { default_net_switch = net })
            (record { inputs_on = on.inputs_on; outputs_on = on.outputs_on }))
  ]
]

pub set_subnet-OnPage :
    (subnet : ℕ) (n : Node) → OnPage n → OnPage (artnet_set_subnet_addr subnet n).0
unfolding artnet_set_subnet_addr
set_subnet-OnPage subnet n on =
    elim (Bool-cases (not n.sub_switch_net_ctl && not (subnet == n.sub_switch))) [
      | inl change ↦ rw change (record {
        inputs_on = resubnetted n.net_switch subnet n.inputs;
        outputs_on = readdressed_outputs n.net_switch subnet n.outputs;
      })
      | inr still ↦ rw still (
          user_failed-OnPage n.sub_switch_net_ctl (record n { default_sub_switch = subnet })
            (record { inputs_on = on.inputs_on; outputs_on = on.outputs_on }))
    ]

Readdress-OnPage : {n m : Node} → Readdress n m → OnPage n → OnPage m
Readdress-OnPage (by_network p n) on = program_addresses-OnPage p n on
Readdress-OnPage (by_port id dir addr n) on = set_port-OnPage id dir addr n on
Readdress-OnPage (by_net net n) on = set_net-OnPage net n on
Readdress-OnPage (by_subnet subnet n) on = set_subnet-OnPage subnet n on

-- After any sequence of ArtAddress packets and of settings of net, subnet and port addresses,
-- accepted or refused, each input and output port lies in the net and subnet that the node then
-- has.
Readdresses-OnPage : {n m : Node} → Readdresses n m → OnPage n → OnPage m
Readdresses-OnPage (none_yet n) on = on
Readdresses-OnPage (and_then before change) on =
    Readdress-OnPage change (Readdresses-OnPage before on)

-- ===== src/Machine/Run.antt =====
-- The runs of a node: from `artnet_new` on, the packets that arrive, the time-outs, and the calls of
-- the application, in any order.
pub mod Created
pub mod Kept
mod Tests
use Prim.{Unit, tt}
use libartnet.Base.{
  ℕ, ◌^◌, ◌<◌, ◌≤◌, ◌≡◌, refl, subst, arith, Bool, true, false, List, [], ◌∷◌, Option, none, some,
  Code, eok, estate, ◌==◌, get_elem?, set, Bool-cases, inl, inr, if_keeps, length-replicate,
  length-memcpy, min, length, replicate,
}
use libartnet.Machine.{Artnet, World, Effect, handle}
use libartnet.Machine.Read.{time_out, received_packet, data_size}
use libartnet.Machine.Sound.{Exactly, IsSoundOutput, IsSoundInput, IsSoundNode, IsSound}
use libartnet.Machine.Sound.Config.{
  set-Exactly, Exactly-get_elem?, set_net-IsSoundNode, set_subnet-IsSoundNode, set_port-IsSoundNode,
  set_short_name-IsSoundNode, set_long_name-IsSoundNode,
}
use libartnet.Machine.Sound.Devices.{
  add_tod_uid-AreUids, remove_tod_uid-AreUids, with_table, with_table-IsSoundNode,
  send_dmx-IsSoundInput, send_dmx_addr,
}
use libartnet.Machine.Sound.Packets.{with_node-IsSound, handle-IsSound, time_out-IsSound}
use libartnet.Machine.Sound.Programs.{same_ports}
use libartnet.Machine.Start.{
  Interface, Started, artnet_new, artnet_start, artnet_stop, artnet_net_init, fresh_node,
  fresh_output, fresh_input, chosen, not_chosen, Chosen, first_interface, interface_with,
  on_interface, begin, requests, is_server,
}
use libartnet.Node.{Node, NodeType}
use libartnet.Node.Address.Rebuilt.{IsOn}
use libartnet.Node.Config.{
  artnet_set_node_type, artnet_set_net_addr, artnet_set_subnet_addr, artnet_set_port_addr, PortDir,
  artnet_set_short_name, artnet_set_long_name,
}
use libartnet.Node.Config.Port.{set-InputsOn, input-IsOn}
use libartnet.Node.Ports.{IsWhole}
use libartnet.Node.Send.{artnet_send_dmx}
use libartnet.Port.{InputPort, OutputPort}
use libartnet.Prog.{broadcast_of}
use libartnet.Rdm.Devices.{artnet_add_rdm_device, artnet_remove_rdm_device}
use libartnet.Tod.Laws.{IsAllocFor, add_tod_uid-IsValid, remove_tod_uid-IsValid}
use libartnet.Tod.{add_tod_uid, remove_tod_uid}
use libartnet.Wire.{addr_net, addr_subnet}
use libartnet.Transmit.{Target, no_target, bad_target, target}

-- The calls of the application on a node, as they leave it
abbrev pub with_node : Artnet → Node → Artnet
with_node a n = record a { node = n }

unfoldable pub send_dmx : Bool → ℕ → ℕ → ℕ → List ℕ → Artnet → Option InputPort → Artnet
send_dmx ips now i len slots a none = a
send_dmx ips now i len slots a (some port) = with_node a (record (a.node) {
  inputs = set a.node.inputs i (artnet_send_dmx ips a.node.mode_on now i len slots port).0;
})

unfoldable pub add_device : (ℕ → ℕ → Bool) → Option (List ℕ) → ℕ → ℕ → Artnet → Artnet
add_device works alloc uid id a = with_node a (record (a.node) {
  outputs = (artnet_add_rdm_device works alloc uid a.node.bind_index id a.rdm a.node.outputs).0;
})

unfoldable pub remove_device : (ℕ → ℕ → Bool) → ℕ → ℕ → Artnet → Artnet
remove_device works uid id a = with_node a (record (a.node) {
  outputs = (artnet_remove_rdm_device works uid a.node.bind_index id a.rdm a.node.outputs).0;
})

-- What malloc and realloc give for the table of a port is as large as asked for.
abbrev pub FitsPort : Option (List ℕ) → Option OutputPort → Type 0
FitsPort alloc none = Unit {0}
FitsPort alloc (some port) = IsAllocFor port.port_tod.block alloc

-- The broadcast address of an interface is that of its address and its mask.
abbrev pub AllAgree : List Interface → Type 0
AllAgree [] = Unit {0}
AllAgree (i ∷ is) = (i.bcast_addr ≡ broadcast_of i.ip_addr i.netmask) × AllAgree is

-- One step of a node
pub data Step : Artnet → Artnet → Type 0 where
  packet :
      (w : World) (from : ℕ) (bytes : List ℕ) (a : Artnet)
      → Step a (handle w (received_packet from bytes) a).0
  time_passes : (now : ℕ) (a : Artnet) → Step a (time_out now a).0
  start :
      (bound poll_sent : Code) (works : ℕ → Bool) (a : Artnet)
      → Step a (artnet_start bound poll_sent works a).0
  stop : (a : Artnet) → Step a (artnet_stop a).0
  set_node_type :
      (type : NodeType) (a : Artnet) → Step a (with_node a (artnet_set_node_type type a.node).0)
  set_net : (net : ℕ) (a : Artnet) → Step a (with_node a (artnet_set_net_addr net a.node).0)
  set_subnet :
      (subnet : ℕ) (a : Artnet) → Step a (with_node a (artnet_set_subnet_addr subnet a.node).0)
  set_port :
      (id : ℕ) (dir : PortDir) (addr : ℕ) (a : Artnet)
      → Step a (with_node a (artnet_set_port_addr id dir addr a.node).0)
  set_short_name :
      (name : List ℕ) (a : Artnet) → Step a (with_node a (artnet_set_short_name name a.node))
  set_long_name :
      (name : List ℕ) (a : Artnet) → Step a (with_node a (artnet_set_long_name name a.node))
  sends_dmx :
      (ips : Bool) (now i len : ℕ) (slots : List ℕ) (a : Artnet)
      → Step a (send_dmx ips now i len slots a (get_elem? a.node.inputs i))
  device_added :
      (works : ℕ → ℕ → Bool) (alloc : Option (List ℕ)) (uid id : ℕ) (a : Artnet)
      → FitsPort alloc (get_elem? a.node.outputs id)
      → uid < 2 ^ 48
      → Step a (add_device works alloc uid id a)
  device_removed :
      (works : ℕ → ℕ → Bool) (uid id : ℕ) (a : Artnet) → Step a (remove_device works uid id a)

-- The states that a node can come to
pub data IsReachable : Artnet → Type 0 where
  created :
      (alloc : Bool) (failed : Code) (is : List Interface) (ip : Target) (a : Artnet)
      → AllAgree is
      → artnet_new alloc failed is ip ≡ some a
      → IsReachable a
  then_step : {a b : Artnet} → IsReachable a → Step a b → IsReachable b

-- ===== src/Node/Config.antt =====
-- What a program sets on its own node (artnet/artnet.c): node type, net, subnet, port addresses and names.
-- A `Bool` beside the node tells whether an ArtPollReply is built and sent.
pub mod Page
pub mod Names
pub mod Port
use libartnet.Base.{
  ℕ, ◌+◌, ◌-◌, Bool, true, false, ◌&&◌, ◌||◌, not, List, [], ◌∷◌, Code, eok, earg, set, min,
}
use libartnet.Base.{if◌then◌else◌, ◌==◌, ltb, leb, bit_and, memcpy, get_elem?, Option, none, some}
use libartnet.Base
use libartnet.Port.{InputPort, OutputPort}
use libartnet.Wire.{make_addr, addr_port}
use libartnet.Node.{Node, NodeType, ReportCode, user_fail}
use libartnet.Node.Address.{map, readdress_input, readdress_output}

abbrev pub user_failed : Bool → Node → Node
user_failed net_ctl n = if net_ctl then record n { report_code = user_fail } else n

-- `artnet_set_node_type`
unfoldable pub artnet_set_node_type : NodeType → Node → Node × Code
artnet_set_node_type type n = (record n { node_type = type }, eok)

-- `artnet_set_net_addr`
unfoldable pub artnet_set_net_addr : ℕ → Node → Node × Code × Bool
artnet_set_net_addr net n =
    if ltb 0x7f net
    then (record n { report_code = user_fail }, earg, false)
    else if not n.net_switch_net_ctl && not (net == n.net_switch)
    then (
      record n {
        default_net_switch = net;
        net_switch = net;
        inputs = map (readdress_input net n.sub_switch) n.inputs;
        outputs = map (readdress_output net n.sub_switch) n.outputs;
      },
      eok,
      n.mode_on,
    )
    else (user_failed n.net_switch_net_ctl (record n { default_net_switch = net }), eok, false)

abbrev pub resubnet_input : ℕ → ℕ → InputPort → InputPort
resubnet_input net subnet port = record (readdress_input net subnet port) { seq = 1 }

-- `artnet_set_subnet_addr`
unfoldable pub artnet_set_subnet_addr : ℕ → Node → Node × Code × Bool
artnet_set_subnet_addr subnet n =
    if not n.sub_switch_net_ctl && not (subnet == n.sub_switch)
    then (
      record n {
        default_sub_switch = subnet;
        sub_switch = subnet;
        inputs = map (resubnet_input n.net_switch subnet) n.inputs;
        outputs = map (readdress_output n.net_switch subnet) n.outputs;
      },
      eok,
      n.mode_on,
    )
    else (user_failed n.sub_switch_net_ctl (record n { default_sub_switch = subnet }), eok, false)

-- `artnet_set_short_name` and `artnet_set_long_name`: `name` is the string up to its zero, `size`
-- the array's, 18 or 64.
unfoldable pub set_name : ℕ → List ℕ → List ℕ → List ℕ
set_name size field name = set (memcpy field name (min (Base.length name) (size - 1))) (size - 1) 0

unfoldable pub artnet_set_short_name : List ℕ → Node → Node
artnet_set_short_name name n = record n { short_name = set_name 18 n.short_name name }

unfoldable pub artnet_set_long_name : List ℕ → Node → Node
artnet_set_long_name name n = record n { long_name = set_name 64 n.long_name name }

-- The direction that `artnet_set_port_addr` is given
pub data PortDir : Type 0 where
  input_port output_port : PortDir

-- What it does to a port of each kind: the port's new state, and whether its address was set
abbrev pub readdresses : Bool → Bool → ℕ → ℕ → Bool
readdresses net_ctl enabled addr port_addr =
    not net_ctl && (not enabled || not (addr == addr_port port_addr))

unfoldable pub set_input_addr : ℕ → ℕ → ℕ → InputPort → InputPort × Bool
set_input_addr net subnet addr port =
    if readdresses port.port_net_ctl port.port_enabled addr port.port_addr
    then (
      record port {
        port_enabled = true;
        port_default_addr = addr;
        port_addr = make_addr net subnet addr;
        seq = 1;
      },
      true,
    )
    else (record port { port_enabled = true; port_default_addr = addr }, false)

unfoldable pub set_output_addr : ℕ → ℕ → ℕ → OutputPort → OutputPort × Bool
set_output_addr net subnet addr port =
    if readdresses port.port_net_ctl port.port_enabled addr port.port_addr
    then (
      record port {
        port_enabled = true;
        port_default_addr = addr;
        port_addr = make_addr net subnet addr;
      },
      true,
    )
    else (record port { port_enabled = true; port_default_addr = addr }, false)

-- The end of it, on the node with the new port: under network control the report says so.
abbrev pub port_addr_set : Bool → Bool → Node → Node × Code × Bool
port_addr_set set_now net_ctl n =
    if set_now then (n, eok, n.mode_on) else (user_failed net_ctl n, eok, false)

abbrev pub on_input : Option InputPort → ℕ → ℕ → Node → Node × Code × Bool
on_input none id addr n = (n, earg, false)
on_input (some port) id addr n =
    let (port', set_now) = set_input_addr n.net_switch n.sub_switch addr port in
    port_addr_set set_now port.port_net_ctl (record n { inputs = set n.inputs id port' })

abbrev pub on_output : Option OutputPort → ℕ → ℕ → Node → Node × Code × Bool
on_output none id addr n = (n, earg, false)
on_output (some port) id addr n =
    let (port', set_now) = set_output_addr n.net_switch n.sub_switch addr port in
    port_addr_set set_now port.port_net_ctl (record n { outputs = set n.outputs id port' })

-- `artnet_set_port_addr`; a number past the four ports is ARTNET_EARG.
unfoldable pub artnet_set_port_addr : ℕ → PortDir → ℕ → Node → Node × Code × Bool
artnet_set_port_addr id input_port addr n =
    if ltb 3 id || ltb 15 addr then (n, earg, false) else on_input (get_elem? n.inputs id) id addr n
artnet_set_port_addr id output_port addr n =
    if ltb 3 id || ltb 15 addr
    then (n, earg, false)
    else on_output (get_elem? n.outputs id) id addr n

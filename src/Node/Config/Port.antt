-- ===== src/Node/Config/Port.antt =====
-- `artnet_set_port_addr` keeps every port on the node's page.
use Prim.{tt}
use libartnet.Base.{
  ℕ, zero, suc, ◌≡◌, refl, Bool, true, false, ◌||◌, List, [], ◌∷◌, Option, none, some,
}
use libartnet.Base.{Bool-cases, inl, inr, ltb, set, get_elem?}
use libartnet.Port.{InputPort, OutputPort}
use libartnet.Wire.{make_addr}
use libartnet.Wire.Address.{make_addr_parts}
use libartnet.Node.{Node}
use libartnet.Node.Address.Rebuilt.{InputsOn, OutputsOn, IsOn, OnPage}
use libartnet.Node.Config.{
  user_failed, PortDir, input_port, output_port, readdresses, set_input_addr, set_output_addr,
  port_addr_set, on_input, on_output, artnet_set_port_addr,
}

pub user_failed-OnPage : (net_ctl : Bool) (n : Node) → OnPage n → OnPage (user_failed net_ctl n)
user_failed-OnPage true n on = record { inputs_on = on.inputs_on; outputs_on = on.outputs_on }
user_failed-OnPage false n on = on

pub set-InputsOn :
    (net subnet i : ℕ) (ports : List InputPort) (port : InputPort)
    → IsOn net subnet port.port_addr
    → InputsOn net subnet ports
    → InputsOn net subnet (set ports i port)
set-InputsOn net subnet i [] port here on = tt
set-InputsOn net subnet zero (x ∷ ports) port here on = (here, on.1)
set-InputsOn net subnet (suc i) (x ∷ ports) port here on =
    (on.0, set-InputsOn net subnet i ports port here on.1)

pub set-OutputsOn :
    (net subnet i : ℕ) (ports : List OutputPort) (port : OutputPort)
    → IsOn net subnet port.port_addr
    → OutputsOn net subnet ports
    → OutputsOn net subnet (set ports i port)
set-OutputsOn net subnet i [] port here on = tt
set-OutputsOn net subnet zero (x ∷ ports) port here on = (here, on.1)
set-OutputsOn net subnet (suc i) (x ∷ ports) port here on =
    (on.0, set-OutputsOn net subnet i ports port here on.1)

pub input-IsOn :
    (net subnet i : ℕ) (ports : List InputPort) (port : InputPort)
    → get_elem? ports i ≡ some port
    → InputsOn net subnet ports
    → IsOn net subnet port.port_addr
input-IsOn net subnet i [] port e on = absurd (cc e)
input-IsOn net subnet zero (x ∷ ports) port e on = let same : x ≡ port = cc e in rw (← same) on.0
input-IsOn net subnet (suc i) (x ∷ ports) port e on = input-IsOn net subnet i ports port e on.1

pub output-IsOn :
    (net subnet i : ℕ) (ports : List OutputPort) (port : OutputPort)
    → get_elem? ports i ≡ some port
    → OutputsOn net subnet ports
    → IsOn net subnet port.port_addr
output-IsOn net subnet i [] port e on = absurd (cc e)
output-IsOn net subnet zero (x ∷ ports) port e on = let same : x ≡ port = cc e in rw (← same) on.0
output-IsOn net subnet (suc i) (x ∷ ports) port e on = output-IsOn net subnet i ports port e on.1

address-IsOn : (net subnet a : ℕ) → IsOn net subnet (make_addr net subnet a)
address-IsOn net subnet a =
    let (in_net, in_subnet, _, _) = make_addr_parts net subnet a in (in_net, in_subnet)

set_input_addr-IsOn :
    (net subnet addr : ℕ) (port : InputPort)
    → IsOn net subnet port.port_addr
    → IsOn net subnet (set_input_addr net subnet addr port).0.port_addr
unfolding set_input_addr
set_input_addr-IsOn net subnet addr port here =
    elim (Bool-cases (readdresses port.port_net_ctl port.port_enabled addr port.port_addr)) [
      | inl moves ↦ rw moves (address-IsOn net subnet addr)
      | inr stays ↦ rw stays here
    ]

set_output_addr-IsOn :
    (net subnet addr : ℕ) (port : OutputPort)
    → IsOn net subnet port.port_addr
    → IsOn net subnet (set_output_addr net subnet addr port).0.port_addr
unfolding set_output_addr
set_output_addr-IsOn net subnet addr port here =
    elim (Bool-cases (readdresses port.port_net_ctl port.port_enabled addr port.port_addr)) [
      | inl moves ↦ rw moves (address-IsOn net subnet addr)
      | inr stays ↦ rw stays here
    ]

port_addr_set-OnPage :
    (set_now net_ctl : Bool) (n : Node) → OnPage n → OnPage (port_addr_set set_now net_ctl n).0
port_addr_set-OnPage true net_ctl n on = on
port_addr_set-OnPage false net_ctl n on = user_failed-OnPage net_ctl n on

on_input-OnPage :
    (m : Option InputPort) (id addr : ℕ) (n : Node)
    → get_elem? n.inputs id ≡ m
    → OnPage n
    → OnPage (on_input m id addr n).0
on_input-OnPage none id addr n e on = on
on_input-OnPage (some port) id addr n e on =
    let r = set_input_addr n.net_switch n.sub_switch addr port in
    port_addr_set-OnPage r.1 port.port_net_ctl (record n { inputs = set n.inputs id r.0 })
      (record {
        inputs_on =
            set-InputsOn n.net_switch n.sub_switch id n.inputs r.0
              (set_input_addr-IsOn n.net_switch n.sub_switch addr port
                (input-IsOn n.net_switch n.sub_switch id n.inputs port e on.inputs_on))
              on.inputs_on;
        outputs_on = on.outputs_on;
      })

on_output-OnPage :
    (m : Option OutputPort) (id addr : ℕ) (n : Node)
    → get_elem? n.outputs id ≡ m
    → OnPage n
    → OnPage (on_output m id addr n).0
on_output-OnPage none id addr n e on = on
on_output-OnPage (some port) id addr n e on =
    let r = set_output_addr n.net_switch n.sub_switch addr port in
    port_addr_set-OnPage r.1 port.port_net_ctl (record n { outputs = set n.outputs id r.0 })
      (record {
        inputs_on = on.inputs_on;
        outputs_on =
            set-OutputsOn n.net_switch n.sub_switch id n.outputs r.0
              (set_output_addr-IsOn n.net_switch n.sub_switch addr port
                (output-IsOn n.net_switch n.sub_switch id n.outputs port e on.outputs_on))
              on.outputs_on;
      })

pub set_port-OnPage :
    (id : ℕ) (dir : PortDir) (addr : ℕ) (n : Node)
    → OnPage n
    → OnPage (artnet_set_port_addr id dir addr n).0
unfolding artnet_set_port_addr
set_port-OnPage id input_port addr n on = elim (Bool-cases (ltb 3 id || ltb 15 addr)) [
  | inl bad ↦ rw bad on
  | inr good ↦ rw good (on_input-OnPage (get_elem? n.inputs id) id addr n refl on)
]
set_port-OnPage id output_port addr n on = elim (Bool-cases (ltb 3 id || ltb 15 addr)) [
  | inl bad ↦ rw bad on
  | inr good ↦ rw good (on_output-OnPage (get_elem? n.outputs id) id addr n refl on)
]

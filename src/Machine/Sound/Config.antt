-- ===== src/Machine/Sound/Config.antt =====
-- A node under the settings of its net, its subnet, its ports' addresses and its names.
use libartnet.Base.{
  ℕ, zero, suc, ◌≡◌, refl, arith, Bool, true, false, ◌&&◌, ◌||◌, not, List, [], ◌∷◌, Option, none,
  some, ◌==◌, ltb, if_keeps, set, get_elem?, Code,
}
use libartnet.Machine.Sound.{Exactly, IsSoundOutput, IsSoundInput, IsSoundNode}
use libartnet.Machine.Sound.Programs.{map-Exactly, same_data, same_ports}
use libartnet.Machine.Sound.Settings.{
  HasPorts, readdress_output-IsSoundOutput, readdress_input-IsSoundInput,
}
use libartnet.Node.{Node}
use libartnet.Node.Config.{
  artnet_set_net_addr, artnet_set_subnet_addr, artnet_set_port_addr, PortDir, input_port,
  output_port, user_failed, set_input_addr, set_output_addr, on_input, on_output, port_addr_set,
  artnet_set_short_name, artnet_set_long_name,
}
use libartnet.Node.Config.Page.{set_net-OnPage, set_subnet-OnPage}
use libartnet.Node.Config.Port.{set_port-OnPage}
use libartnet.Port.{InputPort, OutputPort}
use libartnet.Port.Bounds.{IsValid}

module _ {A : Type 0} (P : A → Type 0) where
  pub set-Exactly :
      (k i : ℕ) (xs : List A) (y : A) → P y → Exactly k P xs → Exactly k P (set xs i y)
  set-Exactly k i [] y h v = v
  set-Exactly zero i (x ∷ xs) y h v = elim v [ ]
  set-Exactly (suc k) zero (x ∷ xs) y h (v, vs) = (h, vs)
  set-Exactly (suc k) (suc i) (x ∷ xs) y h (v, vs) = (v, set-Exactly k i xs y h vs)

  pub Exactly-get_elem? :
      (k i : ℕ) (xs : List A) (x : A) → get_elem? xs i ≡ some x → Exactly k P xs → P x
  Exactly-get_elem? k i [] x e v = absurd (cc e)
  Exactly-get_elem? zero i (y ∷ xs) x e v = elim v [ ]
  Exactly-get_elem? (suc k) zero (y ∷ xs) x e (v, vs) = let same : y ≡ x = cc e in rw (← same) v
  Exactly-get_elem? (suc k) (suc i) (y ∷ xs) x e (v, vs) = Exactly-get_elem? k i xs x e vs

set_input_addr-IsSoundInput :
    (net subnet addr : ℕ) (port : InputPort)
    → IsSoundInput port
    → IsSoundInput (set_input_addr net subnet addr port).0
unfolding set_input_addr
set_input_addr-IsSoundInput net subnet addr port v = ground arith

set_output_addr-IsValid :
    (net subnet addr : ℕ) (port : OutputPort)
    → IsValid port
    → IsValid (set_output_addr net subnet addr port).0
unfolding set_output_addr
set_output_addr-IsValid net subnet addr port v = ground arith

set_output_addr-IsSoundOutput :
    (net subnet addr : ℕ) (port : OutputPort)
    → IsSoundOutput port
    → IsSoundOutput (set_output_addr net subnet addr port).0
unfolding set_output_addr
set_output_addr-IsSoundOutput net subnet addr port v =
    same_data port _ v
      (unfold set_output_addr in set_output_addr-IsValid net subnet addr port v.buffers)
      (ground arith)

user_failed-HasPorts : (net_ctl : Bool) (n : Node) → HasPorts n → HasPorts (user_failed net_ctl n)
user_failed-HasPorts true n v = v
user_failed-HasPorts false n v = v

port_addr_set-HasPorts :
    (set_now net_ctl : Bool) (n : Node) → HasPorts n → HasPorts (port_addr_set set_now net_ctl n).0
port_addr_set-HasPorts true net_ctl n v = v
port_addr_set-HasPorts false net_ctl n v = user_failed-HasPorts net_ctl n v

on_input-HasPorts :
    (found : Option InputPort) (id addr : ℕ) (n : Node)
    → get_elem? n.inputs id ≡ found
    → HasPorts n
    → HasPorts (on_input found id addr n).0
on_input-HasPorts none id addr n e v = v
on_input-HasPorts (some port) id addr n e (outputs, inputs) =
    port_addr_set-HasPorts (set_input_addr n.net_switch n.sub_switch addr port).1 port.port_net_ctl
      _
      (
        outputs,
        set-Exactly IsSoundInput 4 id n.inputs _
            (set_input_addr-IsSoundInput n.net_switch n.sub_switch addr port
              (Exactly-get_elem? IsSoundInput 4 id n.inputs port e inputs))
            inputs,
      )

on_output-HasPorts :
    (found : Option OutputPort) (id addr : ℕ) (n : Node)
    → get_elem? n.outputs id ≡ found
    → HasPorts n
    → HasPorts (on_output found id addr n).0
on_output-HasPorts none id addr n e v = v
on_output-HasPorts (some port) id addr n e (outputs, inputs) =
    port_addr_set-HasPorts (set_output_addr n.net_switch n.sub_switch addr port).1 port.port_net_ctl
      _
      (
        set-Exactly IsSoundOutput 4 id n.outputs _
            (set_output_addr-IsSoundOutput n.net_switch n.sub_switch addr port
              (Exactly-get_elem? IsSoundOutput 4 id n.outputs port e outputs))
            outputs,
        inputs,
      )

set_port-HasPorts :
    (id : ℕ) (dir : PortDir) (addr : ℕ) (n : Node)
    → HasPorts n
    → HasPorts (artnet_set_port_addr id dir addr n).0
unfolding artnet_set_port_addr
set_port-HasPorts id input_port addr n v =
    if_keeps (λ (r : Node × Code × Bool). HasPorts r.0) (ltb 3 id || ltb 15 addr) v
      (on_input-HasPorts (get_elem? n.inputs id) id addr n refl v)
set_port-HasPorts id output_port addr n v =
    if_keeps (λ (r : Node × Code × Bool). HasPorts r.0) (ltb 3 id || ltb 15 addr) v
      (on_output-HasPorts (get_elem? n.outputs id) id addr n refl v)

set_net-HasPorts : (net : ℕ) (n : Node) → HasPorts n → HasPorts (artnet_set_net_addr net n).0
unfolding artnet_set_net_addr
set_net-HasPorts net n (outputs, inputs) =
    if_keeps (λ (r : Node × Code × Bool). HasPorts r.0) (ltb 0x7f net) (outputs, inputs)
      (if_keeps (λ (r : Node × Code × Bool). HasPorts r.0)
        (not n.net_switch_net_ctl && not (net == n.net_switch))
        (
          map-Exactly _ (readdress_output-IsSoundOutput net n.sub_switch) 4 n.outputs outputs,
          map-Exactly _ (readdress_input-IsSoundInput net n.sub_switch) 4 n.inputs inputs,
        )
        (user_failed-HasPorts n.net_switch_net_ctl _ (outputs, inputs)))

set_subnet-HasPorts :
    (subnet : ℕ) (n : Node) → HasPorts n → HasPorts (artnet_set_subnet_addr subnet n).0
unfolding artnet_set_subnet_addr
set_subnet-HasPorts subnet n (outputs, inputs) =
    if_keeps (λ (r : Node × Code × Bool). HasPorts r.0)
      (not n.sub_switch_net_ctl && not (subnet == n.sub_switch))
      (
        map-Exactly _ (readdress_output-IsSoundOutput n.net_switch subnet) 4 n.outputs outputs,
        map-Exactly _ (λ port w. record { size = w.size; fits = w.fits }) 4 n.inputs inputs,
      )
      (user_failed-HasPorts n.sub_switch_net_ctl _ (outputs, inputs))

module _ (n : Node) (v : IsSoundNode n) where
  pub set_net-IsSoundNode : (net : ℕ) → IsSoundNode (artnet_set_net_addr net n).0
  set_net-IsSoundNode net = record {
    outputs_sound = (set_net-HasPorts net n (v.outputs_sound, v.inputs_sound)).0;
    inputs_sound = (set_net-HasPorts net n (v.outputs_sound, v.inputs_sound)).1;
    on_page = set_net-OnPage net n v.on_page;
  }

  pub set_subnet-IsSoundNode : (subnet : ℕ) → IsSoundNode (artnet_set_subnet_addr subnet n).0
  set_subnet-IsSoundNode subnet = record {
    outputs_sound = (set_subnet-HasPorts subnet n (v.outputs_sound, v.inputs_sound)).0;
    inputs_sound = (set_subnet-HasPorts subnet n (v.outputs_sound, v.inputs_sound)).1;
    on_page = set_subnet-OnPage subnet n v.on_page;
  }

  pub set_port-IsSoundNode :
      (id : ℕ) (dir : PortDir) (addr : ℕ) → IsSoundNode (artnet_set_port_addr id dir addr n).0
  set_port-IsSoundNode id dir addr = record {
    outputs_sound = (set_port-HasPorts id dir addr n (v.outputs_sound, v.inputs_sound)).0;
    inputs_sound = (set_port-HasPorts id dir addr n (v.outputs_sound, v.inputs_sound)).1;
    on_page = set_port-OnPage id dir addr n v.on_page;
  }

  pub set_short_name-IsSoundNode : (name : List ℕ) → IsSoundNode (artnet_set_short_name name n)
  unfolding artnet_set_short_name
  set_short_name-IsSoundNode name = same_ports n _ v refl refl refl refl

  pub set_long_name-IsSoundNode : (name : List ℕ) → IsSoundNode (artnet_set_long_name name n)
  unfolding artnet_set_long_name
  set_long_name-IsSoundNode name = same_ports n _ v refl refl refl refl

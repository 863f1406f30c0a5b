-- ===== src/Machine/Sound/Settings.antt =====
-- A node under `handle_address` as a whole, `_artnet_handle_input`, and what the application sets.
use Prim.{tt}
use libartnet.Base.{
  ℕ, zero, suc, ◌+◌, ◌≡◌, refl, arith, Bool, true, false, ◌&&◌, ◌||◌, not, List, [], ◌∷◌, ◌==◌, min,
  Bool-cases, inl, inr, if_keeps, if◌then◌else◌,
}
use libartnet.Machine.Sound.{Exactly, IsSoundOutput, IsSoundInput, IsSoundNode}
use libartnet.Machine.Sound.Programs.{
  map-Exactly, same_data, readdressed-IsValid, program_output-IsSoundOutput,
  program_input-IsSoundInput, same_ports, run_command-IsSoundNode,
}
use libartnet.Node.{Node}
use libartnet.Node.Address.{
  readdress_input, readdress_output, program_inputs, program_outputs, reset_sequences,
  rebuild_addresses, program_net, program_subnet, program_addresses, program_short_name,
  program_long_name, bind_index_matches,
}
use libartnet.Node.Address.Command.{run_command, answers_address, handle_address}
use libartnet.Node.Address.Rebuilt.{
  InputsOn, program_addresses-OnPage, program_subnet-SamePorts, program_net-SamePorts,
}
use libartnet.Node.Input.{
  artnet_handle_input, set_input, set_inputs, answers_input, port_disable_mask,
}
use libartnet.Packet.{Packet, byte}
use libartnet.Port.{InputPort, OutputPort, has_bit, clear_bit, port_status_input_disabled}
use libartnet.Base.{bit_or}

pub readdress_output-IsSoundOutput :
    (net subnet : ℕ) (port : OutputPort)
    → IsSoundOutput port
    → IsSoundOutput (readdress_output net subnet port)
readdress_output-IsSoundOutput net subnet port v =
    same_data port _ v (readdressed-IsValid _ port v.buffers) refl

pub readdress_input-IsSoundInput :
    (net subnet : ℕ) (port : InputPort)
    → IsSoundInput port
    → IsSoundInput (readdress_input net subnet port)
readdress_input-IsSoundInput net subnet port v = record { size = v.size; fits = v.fits }

program_outputs-Exactly :
    (p : Packet) (net subnet at k : ℕ) (ports : List OutputPort)
    → Exactly k IsSoundOutput ports
    → Exactly k IsSoundOutput (program_outputs p net subnet at ports)
unfolding program_outputs
program_outputs-Exactly p net subnet at zero [] v = tt
program_outputs-Exactly p net subnet at zero (x ∷ xs) v = elim v [ ]
program_outputs-Exactly p net subnet at (suc k) [] v = elim v [ ]
program_outputs-Exactly p net subnet at (suc k) (port ∷ ports) (v, vs) = (
  program_output-IsSoundOutput net subnet (byte p at) port v,
  program_outputs-Exactly p net subnet (suc at) k ports vs,
)

program_inputs-Exactly :
    (p : Packet) (net subnet at k : ℕ) (ports : List InputPort)
    → Exactly k IsSoundInput ports
    → Exactly k IsSoundInput (program_inputs p net subnet at ports)
unfolding program_inputs
program_inputs-Exactly p net subnet at zero [] v = tt
program_inputs-Exactly p net subnet at zero (x ∷ xs) v = elim v [ ]
program_inputs-Exactly p net subnet at (suc k) [] v = elim v [ ]
program_inputs-Exactly p net subnet at (suc k) (port ∷ ports) (v, vs) = (
  program_input-IsSoundInput net subnet (byte p at) port v,
  program_inputs-Exactly p net subnet (suc at) k ports vs,
)

reset_sequences-Exactly :
    (olds : List InputPort) (k : ℕ) (ports : List InputPort)
    → Exactly k IsSoundInput ports
    → Exactly k IsSoundInput (reset_sequences olds ports)
unfolding reset_sequences
reset_sequences-Exactly [] k ports v = v
reset_sequences-Exactly (old ∷ olds) zero [] v = tt
reset_sequences-Exactly (old ∷ olds) zero (x ∷ xs) v = elim v [ ]
reset_sequences-Exactly (old ∷ olds) (suc k) [] v = elim v [ ]
reset_sequences-Exactly (old ∷ olds) (suc k) (port ∷ ports) (v, vs) = (
  if_keeps IsSoundInput (old.port_addr == port.port_addr) v
      (record { size = v.size; fits = v.fits }),
  reset_sequences-Exactly olds k ports vs,
)

set_input-IsSoundInput :
    (flags : ℕ) (port : InputPort) → IsSoundInput port → IsSoundInput (set_input flags port)
unfolding set_input
set_input-IsSoundInput flags port v = ground arith

set_inputs-Exactly :
    (p : Packet) (i n k : ℕ) (ports : List InputPort)
    → Exactly k IsSoundInput ports
    → Exactly k IsSoundInput (set_inputs p i n ports)
unfolding set_inputs
set_inputs-Exactly p i zero k ports v = v
set_inputs-Exactly p i (suc n) zero [] v = tt
set_inputs-Exactly p i (suc n) zero (x ∷ xs) v = elim v [ ]
set_inputs-Exactly p i (suc n) (suc k) [] v = elim v [ ]
set_inputs-Exactly p i (suc n) (suc k) (port ∷ ports) (v, vs) =
    (set_input-IsSoundInput (byte p (16 + i)) port v, set_inputs-Exactly p (suc i) n k ports vs)

set_inputs-InputsOn :
    (net subnet : ℕ) (p : Packet) (i n : ℕ) (ports : List InputPort)
    → InputsOn net subnet ports
    → InputsOn net subnet (set_inputs p i n ports)
unfolding set_inputs set_input
set_inputs-InputsOn net subnet p i zero ports on = on
set_inputs-InputsOn net subnet p i (suc n) [] on = tt
set_inputs-InputsOn net subnet p i (suc n) (port ∷ ports) (on, ons) = (
  rw (stays (has_bit (byte p (16 + i)) port_disable_mask)) on,
  set_inputs-InputsOn net subnet p (suc i) n ports ons,
)
  where
    on_port : InputPort
    on_port = record port { port_status = bit_or port.port_status port_status_input_disabled }

    off_port : InputPort
    off_port = record port { port_status = clear_bit port.port_status port_status_input_disabled }

    stays : (b : Bool) → (if b then on_port else off_port).port_addr ≡ port.port_addr
    stays true = refl
    stays false = refl

-- The ports of both kinds, without their addresses
abbrev pub HasPorts : Node → Type 0
HasPorts n = Exactly 4 IsSoundOutput n.outputs × Exactly 4 IsSoundInput n.inputs

rebuilt-HasPorts :
    (b : Bool) (n : Node) → HasPorts n → HasPorts (if b then rebuild_addresses n else n)
unfolding rebuild_addresses
rebuilt-HasPorts true n (outputs, inputs) = (
  map-Exactly _ (readdress_output-IsSoundOutput n.net_switch n.sub_switch) 4 n.outputs outputs,
  map-Exactly _ (readdress_input-IsSoundInput n.net_switch n.sub_switch) 4 n.inputs inputs,
)
rebuilt-HasPorts false n v = v

pub program_addresses-IsSoundNode :
    (p : Packet) (n : Node) → IsSoundNode n → IsSoundNode (program_addresses p n)
unfolding program_addresses
program_addresses-IsSoundNode p n v =
    let programmed = program_net (byte p 12) (program_subnet (byte p 104) n) in
    let changed =
      not (n.net_switch == programmed.net_switch) || not (n.sub_switch == programmed.sub_switch) in
    let rebuilt = if changed then rebuild_addresses programmed else programmed in
    let (inputs, outputs) = program_subnet-SamePorts (byte p 104) n in
    let (inputs', outputs') = program_net-SamePorts (byte p 12) (program_subnet (byte p 104) n) in
    let ports : HasPorts rebuilt =
      rebuilt-HasPorts changed programmed
        (rw (outputs', outputs) v.outputs_sound, rw (inputs', inputs) v.inputs_sound) in
    record {
      outputs_sound =
          program_outputs-Exactly p rebuilt.net_switch rebuilt.sub_switch 100 4 rebuilt.outputs
            ports.0;
      inputs_sound = reset_sequences-Exactly n.inputs 4 _ (
          program_inputs-Exactly p rebuilt.net_switch rebuilt.sub_switch 96 4 rebuilt.inputs
            ports.1);
      on_page = unfold program_addresses in program_addresses-OnPage p n v.on_page;
    }

named-IsSoundNode :
    (p : Packet) (n : Node)
    → IsSoundNode n
    → IsSoundNode (program_long_name p (program_short_name p n))
unfolding program_long_name program_short_name
named-IsSoundNode p n v = elim (Bool-cases (not (byte p 14 == 0) && not (byte p 14 == 0x7f))) [
  | inl short ↦ rw short (long _ (same_ports n _ v refl refl refl refl))
  | inr kept ↦ rw kept (long n v)
]
  where
    long : (m : Node) → IsSoundNode m → IsSoundNode (program_long_name p m)
    long m w = elim (Bool-cases (not (byte p 32 == 0) && not (byte p 32 == 0x7f))) [
      | inl changed ↦ rw changed (same_ports m _ w refl refl refl refl)
      | inr kept ↦ rw kept w
    ]

module _ (n : Node) (v : IsSoundNode n) where
  pub handle_address-IsSoundNode :
      (handled : Bool) (p : Packet) → IsSoundNode (handle_address handled p n).0
  unfolding handle_address
  handle_address-IsSoundNode handled p =
      let named = program_long_name p (program_short_name p (record n { reply_addr = p.from })) in
      let commanded = run_command (byte p 106) (program_addresses p named) in
      let sound : IsSoundNode commanded =
        run_command-IsSoundNode (program_addresses p named)
          (program_addresses-IsSoundNode p named
            (named-IsSoundNode p _ (same_ports n _ v refl refl refl refl)))
          (byte p 106) in
      if_keeps (λ (r : Node × Bool). IsSoundNode r.0)
        (handled || not (answers_address n.node_type) || not (bind_index_matches n (byte p 13))) v
        (if_keeps IsSoundNode (byte p 105 == 0xff) sound
          (same_ports commanded _ sound refl refl refl refl))

  pub artnet_handle_input-IsSoundNode :
      (handled : Bool) (p : Packet) → IsSoundNode (artnet_handle_input handled p n).0
  unfolding artnet_handle_input
  artnet_handle_input-IsSoundNode handled p =
      if_keeps (λ (r : Node × Bool). IsSoundNode r.0)
        (handled || not (answers_input n.node_type) || not (bind_index_matches n (byte p 13))) v
        (record {
          outputs_sound = v.outputs_sound;
          inputs_sound = set_inputs-Exactly p 0 (min (byte p 15) 4) 4 n.inputs v.inputs_sound;
          on_page = record {
            inputs_on =
                set_inputs-InputsOn n.net_switch n.sub_switch p 0 (min (byte p 15) 4) n.inputs
                  v.on_page.inputs_on;
            outputs_on = v.on_page.outputs_on;
          };
        })

-- ===== src/Machine/Sound/Programs.antt =====
-- The ports of a node under `handle_address` and its command.
use Prim.{tt}
use libartnet.Base.{
  ℕ, zero, suc, ◌≡◌, refl, arith, ◌&&◌, List, [], ◌∷◌, ◌==◌, leb, if_keeps, length-memcpy,
  length-replicate,
}
use libartnet.Machine.Sound.{Exactly, IsSoundOutput, IsSoundInput, IsSoundNode}
use libartnet.Node.{Node}
use libartnet.Node.Address.{map, program_input, program_output}
use libartnet.Node.Address.Command.{
  on_first, request_cancel, reset_text_flags, record_scene, forget_sources, clear_output,
  run_port_command, run_command,
}
use libartnet.Node.Address.Rebuilt.{OutputsOn}
use libartnet.Port.{InputPort, OutputPort, artnet_dmx_length}
use libartnet.Port.Bounds.{IsValid}

module _ {A : Type 0} {P : A → Type 0} (f : A → A) (keeps : (x : A) → P x → P (f x)) where
  pub map-Exactly : (k : ℕ) (xs : List A) → Exactly k P xs → Exactly k P (map f xs)
  map-Exactly zero [] v = tt
  map-Exactly zero (x ∷ xs) v = elim v [ ]
  map-Exactly (suc k) [] v = elim v [ ]
  map-Exactly (suc k) (x ∷ xs) (v, vs) = (keeps x v, map-Exactly k xs vs)

  on_first-Exactly : (k : ℕ) (xs : List A) → Exactly k P xs → Exactly k P (on_first f xs)
  on_first-Exactly zero [] v = tt
  on_first-Exactly zero (x ∷ xs) v = elim v [ ]
  on_first-Exactly (suc k) [] v = elim v [ ]
  on_first-Exactly (suc k) (x ∷ xs) (v, vs) = (keeps x v, vs)

-- Changing other fields than the buffers and the table does no harm.
pub same_data :
    (old port : OutputPort)
    → IsSoundOutput old
    → IsValid port
    → port.port_tod ≡ old.port_tod
    → IsSoundOutput port
same_data old port v buffers tod = record {
  buffers = buffers;
  table = rw tod v.table;
  six_bytes = rw tod v.six_bytes;
}

pub readdressed-IsValid :
    (a : ℕ) (port : OutputPort) → IsValid port → IsValid (record port { port_addr = a })
readdressed-IsValid a port v = ground arith

programmed-IsValid :
    (net subnet sw : ℕ) (port : OutputPort)
    → IsValid port
    → IsValid (program_output net subnet sw port)
unfolding program_output
programmed-IsValid net subnet sw port v = ground arith

pub program_output-IsSoundOutput :
    (net subnet sw : ℕ) (port : OutputPort)
    → IsSoundOutput port
    → IsSoundOutput (program_output net subnet sw port)
unfolding program_output
program_output-IsSoundOutput net subnet sw port v =
    same_data port _ v (unfold program_output in programmed-IsValid net subnet sw port v.buffers)
      (ground arith)

pub program_input-IsSoundInput :
    (net subnet sw : ℕ) (port : InputPort)
    → IsSoundInput port
    → IsSoundInput (program_input net subnet sw port)
unfolding program_input
program_input-IsSoundInput net subnet sw port v = ground arith

record_scene-IsValid : (port : OutputPort) → IsValid port → IsValid (record_scene port)
unfolding record_scene
record_scene-IsValid port v =
    ground (arith, length-memcpy port.failsafe_data port.buffer artnet_dmx_length)

clear_output-IsValid : (port : OutputPort) → IsValid port → IsValid (clear_output port)
unfolding clear_output
clear_output-IsValid port v = ground (arith, length-replicate {A = ℕ} artnet_dmx_length 0)

request_cancel-IsSoundOutput :
    (port : OutputPort) → IsSoundOutput port → IsSoundOutput (request_cancel port)
unfolding request_cancel
request_cancel-IsSoundOutput port v = ground arith

-- Other fields than the ports, the net and the subnet do not matter.
pub same_ports :
    (n m : Node)
    → IsSoundNode n
    → m.outputs ≡ n.outputs
    → m.inputs ≡ n.inputs
    → m.net_switch ≡ n.net_switch
    → m.sub_switch ≡ n.sub_switch
    → IsSoundNode m
same_ports n m v outs ins net subnet = record {
  outputs_sound = rw outs v.outputs_sound;
  inputs_sound = rw ins v.inputs_sound;
  on_page = record {
    inputs_on = rw (ins, net, subnet) v.on_page.inputs_on;
    outputs_on = rw (outs, net, subnet) v.on_page.outputs_on;
  };
}

-- A command for output ports: it keeps their addresses.
module _ (f : OutputPort → OutputPort)
    (keeps : (port : OutputPort) → IsSoundOutput port → IsSoundOutput (f port))
    (stays : (port : OutputPort) → (f port).port_addr ≡ port.port_addr) where
  map-OutputsOn :
      (net subnet : ℕ) (ports : List OutputPort)
      → OutputsOn net subnet ports
      → OutputsOn net subnet (map f ports)
  map-OutputsOn net subnet [] on = tt
  map-OutputsOn net subnet (port ∷ ports) (on, ons) =
      (rw (stays port) on, map-OutputsOn net subnet ports ons)

  on_first-OutputsOn :
      (net subnet : ℕ) (ports : List OutputPort)
      → OutputsOn net subnet ports
      → OutputsOn net subnet (on_first f ports)
  on_first-OutputsOn net subnet [] on = tt
  on_first-OutputsOn net subnet (port ∷ ports) (on, ons) = (rw (stays port) on, ons)

  on_ports-IsSoundNode :
      (n : Node) → IsSoundNode n → IsSoundNode (record n { outputs = map f n.outputs })
  on_ports-IsSoundNode n v = record {
    outputs_sound = map-Exactly f keeps 4 n.outputs v.outputs_sound;
    inputs_sound = v.inputs_sound;
    on_page = record {
      inputs_on = v.on_page.inputs_on;
      outputs_on = map-OutputsOn n.net_switch n.sub_switch n.outputs v.on_page.outputs_on;
    };
  }

  on_port_0-IsSoundNode :
      (n : Node) → IsSoundNode n → IsSoundNode (record n { outputs = on_first f n.outputs })
  on_port_0-IsSoundNode n v = record {
    outputs_sound = on_first-Exactly f keeps 4 n.outputs v.outputs_sound;
    inputs_sound = v.inputs_sound;
    on_page = record {
      inputs_on = v.on_page.inputs_on;
      outputs_on = on_first-OutputsOn n.net_switch n.sub_switch n.outputs v.on_page.outputs_on;
    };
  }

request_cancel_stays : (port : OutputPort) → (request_cancel port).port_addr ≡ port.port_addr
unfolding request_cancel
request_cancel_stays port = ground arith

forget_sources-IsSoundOutput :
    (port : OutputPort) → IsSoundOutput port → IsSoundOutput (forget_sources port)
unfolding forget_sources
forget_sources-IsSoundOutput port v = ground arith

module _ (n : Node) (v : IsSoundNode n) where
  run_port_command-IsSoundNode : (cmd : ℕ) → IsSoundNode (run_port_command cmd n)
  unfolding run_port_command forget_sources clear_output
  run_port_command-IsSoundNode cmd =
      if_keeps IsSoundNode (cmd == 0x10)
        (on_port_0-IsSoundNode _ (λ port w. ground arith) (λ port. refl) n v)
        (if_keeps IsSoundNode (cmd == 0x20) (turned _ refl refl refl refl) (
          if_keeps IsSoundNode (cmd == 0x30) (turned _ refl refl refl refl) (
            if_keeps IsSoundNode (cmd == 0x50)
              (on_port_0-IsSoundNode _ (λ port w. ground arith) (λ port. refl) n v)
              (if_keeps IsSoundNode (cmd == 0x60)
                (on_port_0-IsSoundNode _ (λ port w. ground arith) (λ port. refl) n v)
                (if_keeps IsSoundNode (cmd == 0x70)
                  (on_port_0-IsSoundNode _ (λ port w. ground arith) (λ port. refl) n v)
                  (if_keeps IsSoundNode (cmd == 0x90)
                    (on_port_0-IsSoundNode clear_output
                      (λ port w. same_data port _ w (clear_output-IsValid port w.buffers) refl)
                      (λ port. refl) n v)
                    (if_keeps IsSoundNode (cmd == 0xa0)
                      (on_port_0-IsSoundNode _ (λ port w. ground arith) (λ port. refl) n v)
                      (if_keeps IsSoundNode (cmd == 0xb0)
                        (on_port_0-IsSoundNode _ (λ port w. ground arith) (λ port. refl) n v)
                        (if_keeps IsSoundNode (cmd == 0xc0)
                          (on_port_0-IsSoundNode _ (λ port w. ground arith) (λ port. refl) n v)
                          (if_keeps IsSoundNode (cmd == 0xd0)
                            (on_port_0-IsSoundNode _ (λ port w. ground arith) (λ port. refl) n v)
                            (if_keeps IsSoundNode (leb 0xe0 cmd && leb cmd 0xef)
                              (same_ports n _ v refl refl refl refl) v)))))))))))
    where
      forgotten : IsSoundNode (record n { outputs = on_first forget_sources n.outputs })
      forgotten =
          on_port_0-IsSoundNode forget_sources forget_sources-IsSoundOutput (λ port. refl) n v

      turned :
          (m : Node)
          → m.outputs ≡ on_first forget_sources n.outputs
          → m.inputs ≡ n.inputs
          → m.net_switch ≡ n.net_switch
          → m.sub_switch ≡ n.sub_switch
          → IsSoundNode m
      turned m = same_ports (record n { outputs = on_first forget_sources n.outputs }) m forgotten

  pub run_command-IsSoundNode : (cmd : ℕ) → IsSoundNode (run_command cmd n)
  unfolding run_command reset_text_flags record_scene
  run_command-IsSoundNode cmd =
      if_keeps IsSoundNode (cmd == 0x01)
        (on_ports-IsSoundNode request_cancel request_cancel-IsSoundOutput request_cancel_stays n v)
        (if_keeps IsSoundNode (cmd == 0x02) (same_ports n _ v refl refl refl refl) (
          if_keeps IsSoundNode (cmd == 0x03) (same_ports n _ v refl refl refl refl) (
            if_keeps IsSoundNode (cmd == 0x04) (same_ports n _ v refl refl refl refl) (
              if_keeps IsSoundNode (cmd == 0x05)
                (on_ports-IsSoundNode reset_text_flags (λ port w. ground arith) (λ port. refl) n v)
                (if_keeps IsSoundNode (cmd == 0x08) (same_ports n _ v refl refl refl refl) (
                  if_keeps IsSoundNode (cmd == 0x09) (same_ports n _ v refl refl refl refl) (
                    if_keeps IsSoundNode (cmd == 0x0a) (same_ports n _ v refl refl refl refl) (
                      if_keeps IsSoundNode (cmd == 0x0b) (same_ports n _ v refl refl refl refl) (
                        if_keeps IsSoundNode (cmd == 0x0c)
                          (on_ports-IsSoundNode record_scene
                            (λ port w.
                              same_data port _ w (record_scene-IsValid port w.buffers) refl)
                            (λ port. refl) n v)
                          (run_port_command-IsSoundNode cmd))))))))))

-- ===== src/Machine/Run/Created.antt =====
-- The node that `artnet_new` (artnet/artnet.c) makes, on the interface that `artnet_net_init`
-- (artnet/network.c) chooses.
use Prim.{Unit, tt}
use libartnet.Base.{
  ℕ, ◌≡◌, refl, arith, Bool, true, false, List, [], ◌∷◌, Option, none, some, Code, eok, ◌==◌,
  if_keeps, length-replicate, length, replicate,
}
use libartnet.Machine.{Artnet}
use libartnet.Machine.Sound.{IsSoundOutput, IsSoundInput, IsSound}
use libartnet.Machine.Sound.Config.{}
use libartnet.Machine.Sound.Devices.{}
use libartnet.Machine.Start.{
  Interface, artnet_new, artnet_net_init, fresh_node, fresh_output, fresh_input, chosen, not_chosen,
  Chosen, interface_with, on_interface,
}
use libartnet.Node.Address.Rebuilt.{IsOn}
use libartnet.Node.Config.{}
use libartnet.Prog.{broadcast_of}
use libartnet.Wire.{addr_net, addr_subnet}
use libartnet.Transmit.{Target, no_target, bad_target, target}
use libartnet.Machine.Run.{AllAgree}

fresh_output-IsSoundOutput : IsSoundOutput fresh_output
fresh_output-IsSoundOutput = record {
  buffers = record {
    size = empty;
    size_a = empty;
    size_b = empty;
    sync_size = empty;
    failsafe_size = empty;
    fits = omega arith;
    sync_fits = omega arith;
    failsafe_fits = omega arith;
  };
  table = record { in_use = omega arith; block_fits = refl };
  six_bytes = tt;
}
  where
    empty : length (replicate {A = ℕ} 512 0) ≡ 512
    empty = length-replicate {A = ℕ} 512 0

fresh_input-IsSoundInput : IsSoundInput fresh_input
fresh_input-IsSoundInput = record { size = length-replicate {A = ℕ} 512 0; fits = omega arith }

fresh_node-IsSound :
    (i : Interface) → i.bcast_addr ≡ broadcast_of i.ip_addr i.netmask → IsSound (fresh_node i)
unfolding addr_net addr_subnet
fresh_node-IsSound i agrees =
    let out = fresh_output-IsSoundOutput in
    let inp = fresh_input-IsSoundInput in
    let on : IsOn 0 0 0 = (refl, refl) in
    record {
      node_sound = record {
        outputs_sound = (out, (out, (out, (out, tt))));
        inputs_sound = (inp, (inp, (inp, (inp, tt))));
        on_page = record {
          inputs_on = (on, (on, (on, (on, tt))));
          outputs_on = (on, (on, (on, (on, tt))));
        };
      };
      roster = record { few = omega arith; distinct = tt; no_zero = refl };
      shared = record { few = omega arith; broadcast = refl };
      agrees = agrees;
    }

abbrev ChosenAgrees : Chosen → Type 0
ChosenAgrees (chosen i) = i.bcast_addr ≡ broadcast_of i.ip_addr i.netmask
ChosenAgrees (not_chosen code) = Unit {0}

interface_with-ChosenAgrees :
    (ip : ℕ) (is : List Interface) → AllAgree is → ChosenAgrees (interface_with ip is)
interface_with-ChosenAgrees ip [] agree = tt
interface_with-ChosenAgrees ip (i ∷ is) (here, later) =
    if_keeps ChosenAgrees (i.ip_addr == ip) here (interface_with-ChosenAgrees ip is later)

artnet_net_init-ChosenAgrees :
    (failed : Code) (is : List Interface) (ip : Target)
    → AllAgree is
    → ChosenAgrees (artnet_net_init failed is ip)
unfolding artnet_net_init
artnet_net_init-ChosenAgrees eok [] no_target agree = tt
artnet_net_init-ChosenAgrees eok (i ∷ is) no_target agree = agree.0
artnet_net_init-ChosenAgrees eok is bad_target agree = tt
artnet_net_init-ChosenAgrees eok is (target ip) agree = interface_with-ChosenAgrees ip is agree
artnet_net_init-ChosenAgrees _ is ip agree = tt

abbrev pub NewSound : Option Artnet → Type 0
NewSound none = Unit {0}
NewSound (some a) = IsSound a

on_interface-NewSound : (c : Chosen) → ChosenAgrees c → NewSound (on_interface c)
on_interface-NewSound (chosen i) agrees = fresh_node-IsSound i agrees
on_interface-NewSound (not_chosen code) agrees = tt

pub artnet_new-NewSound :
    (alloc : Bool) (failed : Code) (is : List Interface) (ip : Target)
    → AllAgree is
    → NewSound (artnet_new alloc failed is ip)
unfolding artnet_new
artnet_new-NewSound true failed is ip agree =
    on_interface-NewSound (artnet_net_init failed is ip)
      (artnet_net_init-ChosenAgrees failed is ip agree)
artnet_new-NewSound false failed is ip agree = tt

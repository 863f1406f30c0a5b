-- ===== src/Machine/Samples.antt =====
-- A node that `artnet_new` makes and that is started, and the world around it, for the examples.
use Prim.{tt}
use libartnet.Base.{ℕ, refl, true, false, List, [], ◌∷◌, none, eok}
use libartnet.Machine.{Artnet, World}
use libartnet.Machine.Run.{IsReachable, created, then_step, AllAgree, with_node, start, set_port}
use libartnet.Machine.Start.{Interface, artnet_new, artnet_net_init, fresh_node, artnet_start}
use libartnet.Node.Config.{artnet_set_port_addr, output_port}
use libartnet.Packet.{Packet, dmx}
use libartnet.Prog.{broadcast_of}
use libartnet.Transmit.{no_target}

abbrev pub quiet_world : World
quiet_world = record {
  now = 1000;
  delay = 0;
  recv_handled = false;
  handled = false;
  works = λ i j k. true;
  entry_alloc = true;
  firmware_alloc = none;
  accepts = true;
  htonl = λ x. x;
}

-- 2.0.0.1 in 255.0.0.0
abbrev interface : Interface
interface = record { ip_addr = 0x02000001; bcast_addr = 0x02ffffff; netmask = 0xff000000 }

interface_agrees : AllAgree (interface ∷ [])
unfolding broadcast_of
interface_agrees = (refl, tt)

abbrev pub made : Artnet
made = fresh_node interface

pub made-IsReachable : IsReachable made
unfolding artnet_new artnet_net_init
made-IsReachable = created true eok (interface ∷ []) no_target made interface_agrees refl

-- Its first output port is set to Port-Address 0, and it is started.
abbrev pub ready : Artnet
ready =
    (artnet_start eok eok (λ i. true)
      (with_node made (artnet_set_port_addr 0 output_port 0 made.node).0)).0

pub ready-IsReachable : IsReachable ready
ready-IsReachable =
    then_step (then_step made-IsReachable (set_port 0 output_port 0 made)) (
      start eok eok (λ i. true) (with_node made (artnet_set_port_addr 0 output_port 0 made.node).0))

-- An ArtDmx with four slots, for Port-Address 0
abbrev pub dmx_frame : List ℕ
dmx_frame =
    0x41 ∷ 0x72 ∷ 0x74 ∷ 0x2d ∷ 0x4e ∷ 0x65 ∷ 0x74 ∷ 0 ∷ 0x00 ∷ 0x50 ∷ 0 ∷ 14 ∷ 1 ∷ 0 ∷ 0 ∷ 0 ∷ 0
    ∷ 4 ∷ 7 ∷ 8 ∷ 9 ∷ 10 ∷ []

-- The same, cut off behind its second slot
abbrev pub cut_frame : Packet
cut_frame = record { length = 20; from = 10; type = dmx; bytes = dmx_frame }

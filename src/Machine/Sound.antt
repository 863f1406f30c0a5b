-- ===== src/Machine/Sound.antt =====
-- What always holds of an `artnet_node_t`.
pub mod Frames
pub mod Programs
pub mod Settings
pub mod Config
pub mod Devices
pub mod Packets
use Prim.{Unit}
use libartnet.Base.{ℕ, zero, suc, ◌≤◌, ◌≡◌, List, [], ◌∷◌, length}
use libartnet.Machine.{Artnet, poll_state, net_state}
use libartnet.Node.{Node}
use libartnet.Node.Address.Rebuilt.{OnPage}
use libartnet.Poll.Diag.{IsShared}
use libartnet.Port.{InputPort, OutputPort}
use libartnet.Port.Bounds.{IsValid}
use libartnet.Prog.Programmed.{Agrees}
use libartnet.Rdm.Requesters.{IsRoster}
use libartnet.Tod.Laws
use libartnet.Tod.Laws.{uids}
use libartnet.Transmit.Tod.Pages.{AreUids}

-- A list of that many elements, each with the property
abbrev pub Exactly : {A : Type 0} → ℕ → (A → Type 0) → List A → Type 0
Exactly zero P [] = Unit {0}
Exactly zero P (x ∷ xs) = ⊥
Exactly (suc n) P [] = ⊥
Exactly (suc n) P (x ∷ xs) = P x × Exactly n P xs

-- An output port: its DMX buffers, and its table of devices, whose UIDs have six bytes
pub record IsSoundOutput (port : OutputPort) : Type 0 where
  pub buffers : IsValid port
  pub table : Laws.IsValid port.port_tod
  pub six_bytes : AreUids (uids port.port_tod)

-- An input port: what it sent last
pub record IsSoundInput (port : InputPort) : Type 0 where
  pub size : length port.last_dmx_data ≡ 512
  pub fits : port.last_dmx_length ≤ 512

pub record IsSoundNode (n : Node) : Type 0 where
  pub outputs_sound : Exactly 4 IsSoundOutput n.outputs
  pub inputs_sound : Exactly 4 IsSoundInput n.inputs
  pub on_page : OnPage n

-- The node has four ports of each kind, which are sound and on the page of the node; its controllers
-- for tables and for diagnostics are stored within their arrays; and its broadcast address is that of its
-- address and mask.
pub record IsSound (a : Artnet) : Type 0 where
  pub node_sound : IsSoundNode a.node
  pub roster : IsRoster a.rdm.tod_requester_ips
  pub shared : IsShared (poll_state a)
  pub agrees : Agrees (net_state a)

-- ===== src/Machine/Link.antt =====
-- DMX from a controller to a node: `artnet_send_dmx` (artnet/artnet.c), `artnet_net_recv`
-- (artnet/network.c) and `handle` (artnet/receive.c). The network carries the first `length` bytes of
-- what is sent, as they are.
pub mod Carried
pub mod Shown
mod Tests
use libartnet.Base.{ℕ, take}
use libartnet.Machine.Read.{received_packet}
use libartnet.Packet.{Packet}

-- The packet that a node gets where another sends `p`
unfoldable pub receive_from : ℕ → Packet → Packet
receive_from from p = received_packet from (take p.length p.bytes)

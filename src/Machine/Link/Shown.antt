-- ===== src/Machine/Link/Shown.antt =====
-- What a node puts out of an ArtDmx that another sent.
use libartnet.Base.{
  ◌==◌, ℕ, ◌+◌, ◌%◌, ◌^◌, ◌≤◌, ◌<◌, ◌≡◌, refl, ap, ◌∙◌, arith, Bool, true, false, ◌&&◌, List, some,
  length, get_or, get_elem?,
}
use libartnet.Machine.{Artnet, World, Effect, handle, dispatch}
use libartnet.Machine.Sound.{IsSound, IsSoundOutput}
use libartnet.Machine.Sound.Config.{Exactly-get_elem?}
use libartnet.Machine.Run.{IsReachable}
use libartnet.Machine.Run.Kept.{IsReachable-IsSound}
use libartnet.Node.{Node, universe, dmx_packet, handle_dmx, dmx_step, env_of}
use libartnet.Node.Ports.{IsWhole, dmx_packet-IsPacket, get_elem?-each_port}
use libartnet.Port.Dmx.{dmx_port}
use libartnet.Port.Sources.{dmx_port_first}
use libartnet.Node.Send.{build_dmx}
use libartnet.Packet.{Packet, PacketType, dmx, packet_length_is_valid}
use libartnet.Packet.Fields.{packet_fields_are_valid}
use libartnet.Port.{InputPort, OutputPort}
use libartnet.Machine.Link.{receive_from}
use libartnet.Machine.Link.Carried.{received-IsDmx, received_slots, receive_from-IsWhole}

-- A packet that no callback takes and that passes the checks goes to the handler of its type.
handle_accepted :
    (w : World) (q : Packet) (a : Artnet) (t : PacketType)
    → w.recv_handled ≡ false
    → packet_length_is_valid q ≡ true
    → packet_fields_are_valid q ≡ true
    → q.type ≡ t
    → handle w q a ≡ dispatch t w q a
unfolding handle
handle_accepted w q a t r l f type = simp (r, l, f) (ap (λ s. dispatch s w q a) type)

-- An output port that is on, at an address, with no source, of a node out of sync mode
pub record IsIdle (a : Artnet) (j address : ℕ) (out : OutputPort) : Type 0 where
  pub there : get_elem? a.node.outputs j ≡ some out
  pub enabled : out.port_enabled ≡ true
  pub addressed : out.port_addr ≡ address
  pub no_a : out.ip_a ≡ 0
  pub no_b : out.ip_b ≡ 0
  pub no_cancel : out.cancel_merge_pending ≡ false
  pub not_synced : a.node.sync_mode ≡ false

handle_dmx_at :
    (handled : Bool) (now : ℕ) (q : Packet) (n : Node) (j : ℕ) (out : OutputPort)
    → handled ≡ false
    → get_elem? n.outputs j ≡ some out
    → (universe q == out.port_addr && out.port_enabled) ≡ true
    → get_elem? (handle_dmx handled now q n).0.outputs j
      ≡ some (dmx_port (env_of now n) (dmx_packet q) (0 + j) out).0
unfolding handle_dmx dmx_step
handle_dmx_at true now q n j out free at matches = absurd (cc free)
handle_dmx_at false now q n j out free at matches =
    get_elem?-each_port (dmx_step (env_of now n) q) 0 j n.outputs out at ∙ rw matches refl

matches_port :
    (u x address : ℕ) (on : Bool) → u ≡ address → x ≡ address → on ≡ true → (u == x && on) ≡ true
matches_port u x address on e f h = ground arith

handle_dmx_idle :
    (w : World) (q : Packet) (a : Artnet) (j i address : ℕ) (out : OutputPort)
    → IsSound a
    → IsWhole q
    → IsIdle a j address out
    → w.handled ≡ false
    → universe q ≡ address
    → i < (dmx_packet q).data_length
    → (after : OutputPort) × (get_elem? (dispatch dmx w q a).0.node.outputs j ≡ some after)
      × (get_or after.buffer i 0 ≡ get_or (dmx_packet q).slots i 0)
      × (after.length ≡ (dmx_packet q).data_length)
unfolding dispatch
handle_dmx_idle w q a j i address out s whole idle free universe_q h =
    let valid =
      Exactly-get_elem? IsSoundOutput 4 j a.node.outputs out idle.there
        s.node_sound.outputs_sound in
    let env = env_of w.now a.node in
    let shown =
      dmx_port_first env (dmx_packet q) (0 + j) i out (dmx_packet-IsPacket q whole) valid.buffers
        idle.not_synced idle.no_cancel idle.no_a idle.no_b h in
    (
      (dmx_port env (dmx_packet q) (0 + j) out).0,
      handle_dmx_at w.handled w.now q a.node j out free idle.there (
          matches_port (universe q) out.port_addr address out.port_enabled universe_q idle.addressed
            idle.enabled),
      shown.0,
      shown.1,
    )

-- An ArtDmx that artnet_send_dmx builds, for an even length from 2 to 512, and that the network
-- carries whole, shows on each output port of a reachable node that is on, has its Port-Address and
-- has no source yet, where the node is not in sync mode, no cancel is pending and no callback takes
-- the packet: the port puts out each slot that was sent, and as many of them.
pub dmx_shows :
    (w : World) (from port_id len i j : ℕ) (slots : List ℕ) (port : InputPort) (a : Artnet)
    (out : OutputPort)
    → 2 ≤ len
    → len ≤ 512
    → len % 2 ≡ 0
    → len ≤ length slots
    → port.port_addr < 2 ^ 16
    → IsReachable a
    → IsIdle a j port.port_addr out
    → w.recv_handled ≡ false
    → w.handled ≡ false
    → i < len
    → let q = receive_from from (build_dmx 0 port_id len slots port) in
      (after : OutputPort) × (get_elem? (handle w q a).0.node.outputs j ≡ some after)
      × (get_or after.buffer i 0 ≡ get_or slots i 0)
      × (after.length ≡ len)
dmx_shows w from port_id len i j slots port a out low high even enough address run idle r free h =
    let q = receive_from from (build_dmx 0 port_id len slots port) in
    let read = received-IsDmx from port_id len slots port low high even address in
    let (after, there, shown, size) =
      handle_dmx_idle w q a j i port.port_addr out (IsReachable-IsSound a run)
        (receive_from-IsWhole from (build_dmx 0 port_id len slots port)) idle free read.address
        (rw read.data_length h) in
    (
      after,
      ap (λ (r : Artnet × List Effect). get_elem? r.0.node.outputs j)
            (handle_accepted w q a dmx r read.length_is_valid read.fields_are_valid read.type)
          ∙ there,
      shown ∙ received_slots from port_id len i slots port high enough h,
      size ∙ read.data_length,
    )

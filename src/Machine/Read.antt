-- ===== src/Machine/Read.antt =====
-- `check_timeouts` on a whole node, `artnet_read` (artnet/artnet.c) and `artnet_net_recv`
-- (artnet/network.c). The socket's answers are the program's input.
pub mod Ends
pub mod Rounds
pub mod Rings
mod Tests
use libartnet.Base.{
  ℕ, suc, Bool, ◌&&◌, ◌||◌, not, List, [], ◌∷◌, ◌++◌, Option, none, some, if◌then◌else◌, ◌==◌, ltb,
  length, replicate, memcpy, min, Code, eok, enet, eaction,
}
use libartnet.Machine.{
  Artnet, World, Effect, port_event, sent_packet, each, handle, poll_state, with_poll_state,
}
use libartnet.Node.Timeouts.{Timed, check_timeouts}
use libartnet.Packet.{Packet, PacketType, get_type, opcode_type}
use libartnet.Packet
use libartnet.Port.{poll_reply, when}

-- `check_timeouts`
abbrev pub with_timed : Timed → Artnet → Artnet
with_timed s a =
    with_poll_state s.polled (record a { node = s.node; list = s.list; transfer = s.transfer })

unfoldable pub time_out : ℕ → Artnet → Artnet × List Effect
time_out now a =
    let (s, events, sent, replies) =
      check_timeouts now
        (record { node = a.node; list = a.list; transfer = a.transfer; polled = poll_state a }) in
    (
      with_timed s a,
      each port_event events ++ each sent_packet sent ++ each port_event (when replies poll_reply),
    )

-- What `select` and `recvfrom` do. `from` is the sender's `s_addr`.
pub data Arrival : Type 0 where
  timeout : Arrival
  select_error : (interrupted : Bool) → Arrival
  recv_error : Arrival
  arrived : (from : ℕ) → (bytes : List ℕ) → Arrival

-- `artnet_net_recv`: RECV_NO_DATA, a code below 0, or ARTNET_EOK with a packet or with the length 0
pub data Received : Type 0 where
  no_data : Received
  failed : Code → Received
  filtered : Received
  received : Packet → Received

-- `sizeof(artnet_packet_union_t)`: that of an `artnet_directory_reply_t`
abbrev pub data_size : ℕ
data_size = 2068

-- The packet as `memset` and `recvfrom` leave it; `get_type` sets its type.
unfoldable pub received_packet : ℕ → List ℕ → Packet
received_packet from bytes =
    let p : Packet = record {
      length = min (length bytes) data_size;
      from = from;
      type = Packet.other;
      bytes = memcpy (replicate data_size 0) bytes (min (length bytes) data_size);
    } in
    record p { type = opcode_type (get_type p) }

unfoldable pub artnet_net_recv : (ℕ → ℕ) → ℕ → Arrival → Received
artnet_net_recv ntohl ip timeout = no_data
artnet_net_recv ntohl ip (select_error interrupted) = if interrupted then filtered else failed enet
artnet_net_recv ntohl ip recv_error = failed enet
artnet_net_recv ntohl ip (arrived from bytes) =
    if from == ip || ntohl from == 0x7f000001
    then filtered
    else if length bytes == 0
    then filtered
    else received (received_packet from bytes)

-- What a node does, with its place: 0 is the node that is read from, and its peers follow.
abbrev told : ℕ → List Effect → List (ℕ × Effect)
told i [] = []
told i (e ∷ es) = (i, e) ∷ told i es

-- The loops over the peers, from the place `i` on
unfoldable pub time_out_peers : (ℕ → ℕ) → ℕ → List Artnet → List Artnet × List (ℕ × Effect)
time_out_peers now i [] = ([], [])
time_out_peers now i (a ∷ peers) =
    let (a', effects) = time_out (now i) a in
    let (peers', later) = time_out_peers now (suc i) peers in (a' ∷ peers', told i effects ++ later)

unfoldable pub handle_peers :
    (ℕ → World) → Packet → ℕ → List Artnet → List Artnet × List (ℕ × Effect)
handle_peers worlds p i [] = ([], [])
handle_peers worlds p i (a ∷ peers) =
    let (a', effects) = handle (worlds i) p a in
    let (peers', later) = handle_peers worlds p (suc i) peers in
    (a' ∷ peers', told i effects ++ later)

-- One round of the loop: what arrives, and the clock and the world that each node meets
pub record Round : Type 0 where
  pub arrival : Arrival
  pub clocks : ℕ → ℕ
  pub worlds : ℕ → World

-- The nodes that share the socket, the one that is read from first
pub record Ring : Type 0 where
  pub self : Artnet
  pub peers : List Artnet

-- What a round with a packet does after the time-outs of the node itself
unfoldable pub hand_over : Round → Packet → Artnet → List Artnet → Ring × List (ℕ × Effect)
hand_over round p self peers =
    let (timed, out) = time_out_peers round.clocks 1 peers in
    if not (ltb p.length 10) && not (get_type p == 0)
    then (let (self', told_self) = handle (round.worlds 0) p self in
        let (peers', told_peers) = handle_peers round.worlds p 1 timed in
        (record { self = self'; peers = peers' }, out ++ told 0 told_self ++ told_peers))
    else (record { self = self; peers = timed }, out)

-- What a round comes to: the nodes, what they do, and the code that `artnet_read` returns
abbrev pub Reading : Type 0
Reading = Ring × List (ℕ × Effect) × Option Code

abbrev conclude : Round → Received → Artnet → List Artnet → Reading
conclude round no_data self peers = (record { self = self; peers = peers }, [], some eok)
conclude round (failed code) self peers = (record { self = self; peers = peers }, [], some code)
conclude round filtered self peers = (record { self = self; peers = peers }, [], none)
conclude round (received p) self peers =
    let (ring, effects) = hand_over round p self peers in (ring, effects, none)

unfoldable pub read_round : (ℕ → ℕ) → Round → Ring → Reading
read_round ntohl round ring =
    let (self, effects) = time_out (round.clocks 0) ring.self in
    let (ring', more, code) =
      conclude round (artnet_net_recv ntohl self.ip_addr round.arrival) self ring.peers in
    (ring', told 0 effects ++ more, code)

abbrev pub continue : Reading → Reading → Reading
continue (ring, effects, some code) later = (ring, effects, some code)
continue (ring, effects, none) (ring', more, code) = (ring', effects ++ more, code)

-- The loop, for the rounds given; no code where they end before it returns
unfoldable pub read_loop : (ℕ → ℕ) → List Round → Ring → Reading
read_loop ntohl [] ring = (ring, [], none)
read_loop ntohl (round ∷ rounds) ring =
    let reading = read_round ntohl round ring in continue reading (read_loop ntohl rounds reading.0)

-- `artnet_read`
unfoldable pub artnet_read : (ℕ → ℕ) → List Round → Ring → Reading
artnet_read ntohl rounds ring =
    if ring.self.node.mode_on then read_loop ntohl rounds ring else (ring, [], some eaction)

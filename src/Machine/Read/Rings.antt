-- ===== src/Machine/Read/Rings.antt =====
-- The nodes that `artnet_read` (artnet/artnet.c) hands a packet to.
use Prim.{Unit, tt}
use libartnet.Base.{
  ℕ, suc, Bool, true, false, not, ◌&&◌, List, [], ◌∷◌, none, some, ◌==◌, if_keeps, ltb,
  if◌then◌else◌,
}
use libartnet.Machine.{Artnet, World, Effect}
use libartnet.Machine.Read.{
  time_out, Arrival, timeout, select_error, recv_error, arrived, Received, no_data, failed,
  filtered, received, artnet_net_recv, received_packet, time_out_peers, handle_peers, Round, Ring,
  hand_over, Reading, conclude, read_round, continue, read_loop, artnet_read,
}
use libartnet.Machine.Run.Kept.{received_packet-IsWhole}
use libartnet.Machine.Sound.{IsSound}
use libartnet.Machine.Sound.Packets.{handle-IsSound, time_out-IsSound}
use libartnet.Node.Ports.{IsWhole}
use libartnet.Packet.{Packet, get_type}

abbrev pub AllSound : List Artnet → Type 0
AllSound [] = Unit {0}
AllSound (a ∷ rest) = IsSound a × AllSound rest

-- Every node of the ring is sound.
pub record IsSoundRing (ring : Ring) : Type 0 where
  pub self_sound : IsSound ring.self
  pub peers_sound : AllSound ring.peers

time_out_peers-AllSound :
    (now : ℕ → ℕ) (i : ℕ) (peers : List Artnet)
    → AllSound peers
    → AllSound (time_out_peers now i peers).0
unfolding time_out_peers
time_out_peers-AllSound now i [] s = tt
time_out_peers-AllSound now i (a ∷ peers) (s, rest) =
    (time_out-IsSound (now i) a s, time_out_peers-AllSound now (suc i) peers rest)

handle_peers-AllSound :
    (worlds : ℕ → World) (p : Packet) (i : ℕ) (peers : List Artnet)
    → IsWhole p
    → AllSound peers
    → AllSound (handle_peers worlds p i peers).0
unfolding handle_peers
handle_peers-AllSound worlds p i [] whole s = tt
handle_peers-AllSound worlds p i (a ∷ peers) whole (s, rest) =
    (handle-IsSound (worlds i) p a whole s, handle_peers-AllSound worlds p (suc i) peers whole rest)

hand_over-IsSoundRing :
    (round : Round) (p : Packet) (self : Artnet) (peers : List Artnet)
    → IsWhole p
    → IsSound self
    → AllSound peers
    → IsSoundRing (hand_over round p self peers).0
unfolding hand_over
hand_over-IsSoundRing round p self peers whole s rest =
    let timed = time_out_peers-AllSound round.clocks 1 peers rest in
    if_keeps (λ (r : Ring × List (ℕ × Effect)). IsSoundRing r.0)
      (not (ltb p.length 10) && not (get_type p == 0))
      (record {
        self_sound = handle-IsSound (round.worlds 0) p self whole s;
        peers_sound = handle_peers-AllSound round.worlds p 1 _ whole timed;
      })
      (record { self_sound = s; peers_sound = timed })

-- Each packet that `artnet_net_recv` gives is as large as the union.
abbrev GivesWhole : Received → Type 0
GivesWhole (received p) = IsWhole p
GivesWhole _ = Unit {0}

unless_filtered-GivesWhole :
    (skip empty : Bool) (p : Packet)
    → IsWhole p
    → GivesWhole (if skip then filtered else if empty then filtered else received p)
unless_filtered-GivesWhole true empty p whole = tt
unless_filtered-GivesWhole false true p whole = tt
unless_filtered-GivesWhole false false p whole = whole

artnet_net_recv-GivesWhole :
    (ntohl : ℕ → ℕ) (ip : ℕ) (arrival : Arrival) → GivesWhole (artnet_net_recv ntohl ip arrival)
unfolding artnet_net_recv
artnet_net_recv-GivesWhole ntohl ip timeout = tt
artnet_net_recv-GivesWhole ntohl ip (select_error true) = tt
artnet_net_recv-GivesWhole ntohl ip (select_error false) = tt
artnet_net_recv-GivesWhole ntohl ip recv_error = tt
artnet_net_recv-GivesWhole ntohl ip (arrived from bytes) =
    unless_filtered-GivesWhole _ _ (received_packet from bytes) (received_packet-IsWhole from bytes)

conclude-IsSoundRing :
    (round : Round) (r : Received) (self : Artnet) (peers : List Artnet)
    → GivesWhole r
    → IsSound self
    → AllSound peers
    → IsSoundRing (conclude round r self peers).0
conclude-IsSoundRing round (received p) self peers whole s rest =
    hand_over-IsSoundRing round p self peers whole s rest
conclude-IsSoundRing round no_data self peers whole s rest = record {
  self_sound = s;
  peers_sound = rest;
}
conclude-IsSoundRing round (failed code) self peers whole s rest = record {
  self_sound = s;
  peers_sound = rest;
}
conclude-IsSoundRing round filtered self peers whole s rest = record {
  self_sound = s;
  peers_sound = rest;
}

read_round-IsSoundRing :
    (ntohl : ℕ → ℕ) (round : Round) (ring : Ring)
    → IsSoundRing ring
    → IsSoundRing (read_round ntohl round ring).0
unfolding read_round
read_round-IsSoundRing ntohl round ring s =
    conclude-IsSoundRing round _ _ ring.peers
      (artnet_net_recv-GivesWhole ntohl (time_out (round.clocks 0) ring.self).0.ip_addr
        round.arrival)
      (time_out-IsSound (round.clocks 0) ring.self s.self_sound) s.peers_sound

continue-IsSoundRing :
    (reading later : Reading)
    → IsSoundRing reading.0
    → IsSoundRing later.0
    → IsSoundRing (continue reading later).0
continue-IsSoundRing (ring, effects, none) later s t = t
continue-IsSoundRing (ring, effects, some code) later s t = s

read_loop-IsSoundRing :
    (ntohl : ℕ → ℕ) (rounds : List Round) (ring : Ring)
    → IsSoundRing ring
    → IsSoundRing (read_loop ntohl rounds ring).0
unfolding read_loop
read_loop-IsSoundRing ntohl [] ring s = s
read_loop-IsSoundRing ntohl (round ∷ rounds) ring s =
    let kept = read_round-IsSoundRing ntohl round ring s in
    continue-IsSoundRing (read_round ntohl round ring) _ kept
      (read_loop-IsSoundRing ntohl rounds (read_round ntohl round ring).0 kept)

-- `artnet_read`, whatever comes in its rounds and however many they are, keeps every node of the ring
-- sound: the node that is read from and each of its peers.
pub artnet_read-IsSoundRing :
    (ntohl : ℕ → ℕ) (rounds : List Round) (ring : Ring)
    → IsSoundRing ring
    → IsSoundRing (artnet_read ntohl rounds ring).0
unfolding artnet_read
artnet_read-IsSoundRing ntohl rounds ring s =
    if_keeps (λ (r : Reading). IsSoundRing r.0) ring.self.node.mode_on
      (read_loop-IsSoundRing ntohl rounds ring s) s

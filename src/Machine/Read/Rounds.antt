-- ===== src/Machine/Read/Rounds.antt =====
-- What one round of `artnet_read` (artnet/artnet.c) does to the nodes that share the socket: the
-- datagrams that are taken, and what each node makes of them.
use libartnet.Base.{
  ℕ, ◌≡◌, refl, ap, ◌∙◌, Bool, true, false, List, [], ◌∷◌, none, some, if◌then◌else◌,
}
use libartnet.Base.{
  arith, suc, ◌&&◌, ◌||◌, not, ltb, leb, ◌==◌, length, Option, Bool-cases, inl, inr,
}
use libartnet.Machine.{Artnet, handle}
use libartnet.Machine.Read.{
  Arrival, timeout, select_error, recv_error, arrived, filtered, received, artnet_net_recv,
  received_packet, Round, Ring, conclude, read_round, time_out, time_out_peers, handle_peers,
  hand_over,
}
use libartnet.Packet.{Packet, get_type}

-- Does a datagram begin as an Art-Net packet, with its first ten bytes?
abbrev pub is_art_net : Packet → Bool
is_art_net p = leb 10 p.length && not (get_type p == 0)

-- What the node at the place `i` makes of a packet: the time-outs are checked, and an Art-Net packet
-- is handled.
pub meet : Round → Packet → ℕ → Artnet → Artnet
meet round p i a =
    let timed = (time_out (round.clocks i) a).0 in
    if is_art_net p then (handle (round.worlds i) p timed).0 else timed

pub meet_each : Round → Packet → ℕ → List Artnet → List Artnet
meet_each round p i [] = []
meet_each round p i (a ∷ peers) = meet round p i a ∷ meet_each round p (suc i) peers

-- What is taken from the socket: a datagram that is not empty and comes neither from the node's own
-- address nor from the loopback.
abbrev pub taken : (ℕ → ℕ) → ℕ → Arrival → Option Packet
taken ntohl ip (arrived from bytes) =
    if from == ip || ntohl from == 0x7f000001 || length bytes == 0
    then none
    else some (received_packet from bytes)
taken ntohl ip _ = none

-- The nodes after a round that brought a packet to handle, or none
abbrev pub after_packet : Round → Ring → Option Packet → Ring
after_packet round ring none = record ring { self = (time_out (round.clocks 0) ring.self).0 }
after_packet round ring (some p) = record {
  self = meet round p 0 ring.self;
  peers = meet_each round p 1 ring.peers;
}

unfoldable pub after_rounds : (ℕ → ℕ) → List Round → Ring → Ring
after_rounds ntohl [] ring = ring
after_rounds ntohl (round ∷ rounds) ring =
    after_rounds ntohl rounds
      (after_packet round ring (taken ntohl ring.self.ip_addr round.arrival))

short_lem : (n : ℕ) → not (ltb n 10) ≡ leb 10 n
short_lem n = ground arith

met_peers :
    (round : Round) (p : Packet) (i : ℕ) (peers : List Artnet)
    → is_art_net p ≡ true
    → (handle_peers round.worlds p i (time_out_peers round.clocks i peers).0).0
      ≡ meet_each round p i peers
unfolding handle_peers time_out_peers meet_each meet
met_peers round p i [] e = refl
met_peers round p i (a ∷ peers) e = rw (met_peers round p (suc i) peers e, e) refl

timed_peers :
    (round : Round) (p : Packet) (i : ℕ) (peers : List Artnet)
    → is_art_net p ≡ false
    → (time_out_peers round.clocks i peers).0 ≡ meet_each round p i peers
unfolding time_out_peers meet_each meet
timed_peers round p i [] e = refl
timed_peers round p i (a ∷ peers) e = rw (timed_peers round p (suc i) peers e, e) refl

heard :
    (p : Packet) (b : Bool)
    → is_art_net p ≡ b
    → (not (ltb p.length 10) && not (get_type p == 0)) ≡ b
heard p b e = ap (λ long. long && not (get_type p == 0)) (short_lem p.length) ∙ e

module _ (round : Round) (ring : Ring) where
  handed_over :
      (p : Packet)
      → (hand_over round p (time_out (round.clocks 0) ring.self).0 ring.peers).0
        ≡ after_packet round ring (some p)
  unfolding hand_over meet
  handed_over p = elim (Bool-cases (is_art_net p)) [
    | inl for_us ↦ rw (heard p true for_us, for_us, met_peers round p 1 ring.peers for_us) refl
    | inr foreign ↦
        rw (heard p false foreign, foreign, timed_peers round p 1 ring.peers foreign) refl
  ]

  -- A datagram: from the node itself, from the loopback, empty, or else one to handle
  concluded :
      (own loopback empty : Bool) (p : Packet)
      → (conclude round
          (if own || loopback then filtered else if empty then filtered else received p)
          (time_out (round.clocks 0) ring.self).0
          ring.peers).0
        ≡ after_packet round ring (if own || loopback || empty then none else some p)
  concluded true loopback empty p = refl
  concluded false true empty p = refl
  concluded false false true p = refl
  concluded false false false p = handed_over p

  arrival_ring :
      (ntohl : ℕ → ℕ) (ip : ℕ) (arrival : Arrival)
      → (conclude round
          (artnet_net_recv ntohl ip arrival)
          (time_out (round.clocks 0) ring.self).0
          ring.peers).0
        ≡ after_packet round ring (taken ntohl ip arrival)
  unfolding artnet_net_recv
  arrival_ring ntohl ip timeout = refl
  arrival_ring ntohl ip (select_error true) = refl
  arrival_ring ntohl ip (select_error false) = refl
  arrival_ring ntohl ip recv_error = refl
  arrival_ring ntohl ip (arrived from bytes) =
      concluded (from == ip) (ntohl from == 0x7f000001) (length bytes == 0)
        (received_packet from bytes)

  pub round_ring :
      (ntohl : ℕ → ℕ)
      → (read_round ntohl round ring).0
        ≡ after_packet round ring (taken ntohl ring.self.ip_addr round.arrival)
  unfolding read_round time_out
  round_ring ntohl = arrival_ring ntohl ring.self.ip_addr round.arrival

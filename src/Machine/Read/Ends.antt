-- ===== src/Machine/Read/Ends.antt =====
-- The end of the loop of `artnet_read` (artnet/artnet.c).
use Prim.{Unit}
use libartnet.Base.{
  ℕ, ◌≡◌, refl, ap, ◌∙◌, Bool, true, false, List, [], ◌∷◌, ◌++◌, none, some, Code, eok,
  if◌then◌else◌,
}
use libartnet.Machine.{Artnet}
use libartnet.Machine.Read.{
  Arrival, timeout, select_error, recv_error, arrived, filtered, received, artnet_net_recv,
  received_packet, Round, Ring, Reading, conclude, read_round, continue, read_loop, artnet_read,
}
use libartnet.Machine.Read.Rounds.{after_packet, after_rounds, taken, round_ring}
use libartnet.Packet.{Packet}

-- Does the loop go on after what arrived?
abbrev pub goes_on : Arrival → Bool
goes_on timeout = false
goes_on (select_error interrupted) = interrupted
goes_on recv_error = false
goes_on (arrived from bytes) = true

abbrev pub AllGoOn : List Round → Type 0
AllGoOn [] = Unit {0}
AllGoOn (round ∷ rounds) = (goes_on round.arrival ≡ true) × AllGoOn rounds

conclude_packet :
    (round : Round) (skip empty : Bool) (p : Packet) (self : Artnet) (peers : List Artnet)
    → (conclude round
        (if skip then filtered else if empty then filtered else received p)
        self
        peers).2
      ≡ none
conclude_packet round true empty p self peers = refl
conclude_packet round false true p self peers = refl
conclude_packet round false false p self peers = refl

round_goes_on :
    (ntohl : ℕ → ℕ) (ip : ℕ) (round : Round) (arrival : Arrival) (self : Artnet)
    (peers : List Artnet)
    → goes_on arrival ≡ true
    → (conclude round (artnet_net_recv ntohl ip arrival) self peers).2 ≡ none
unfolding artnet_net_recv
round_goes_on ntohl ip round timeout self peers h = absurd (cc h)
round_goes_on ntohl ip round (select_error true) self peers h = refl
round_goes_on ntohl ip round (select_error false) self peers h = absurd (cc h)
round_goes_on ntohl ip round recv_error self peers h = absurd (cc h)
round_goes_on ntohl ip round (arrived from bytes) self peers h =
    conclude_packet round _ _ (received_packet from bytes) self peers

-- Rounds behind the one that ends the reading do not matter.
continue_ended :
    (reading later other : Reading) (code : Code)
    → reading.2 ≡ some code
    → continue reading later ≡ continue reading other
continue_ended (ring, effects, none) later other code h = absurd (cc h)
continue_ended (ring, effects, some c) later other code h = refl

continue_code : (reading later : Reading) → reading.2 ≡ none → (continue reading later).2 ≡ later.2
continue_code (ring, effects, none) later h = refl
continue_code (ring, effects, some c) later h = absurd (cc h)

ended_code :
    (reading later : Reading) (code : Code)
    → reading.2 ≡ some code
    → (continue reading later).2 ≡ some code
ended_code (ring, effects, none) later code h = absurd (cc h)
ended_code (ring, effects, some c) later code h = h

ended_ring :
    (reading later : Reading) (code : Code)
    → reading.2 ≡ some code
    → (continue reading later).0 ≡ reading.0
ended_ring (ring, effects, none) later code h = absurd (cc h)
ended_ring (ring, effects, some c) later code h = refl

continue_ring : (reading later : Reading) → reading.2 ≡ none → (continue reading later).0 ≡ later.0
continue_ring (ring, effects, none) later h = refl
continue_ring (ring, effects, some c) later h = absurd (cc h)

quiet_round :
    (ntohl : ℕ → ℕ) (quiet : Round) (ring : Ring)
    → quiet.arrival ≡ timeout
    → (read_round ntohl quiet ring).2 ≡ some eok
unfolding read_round artnet_net_recv
quiet_round ntohl quiet ring h = rw h refl

-- The loop reads on while packets come, and returns ARTNET_EOK in the round in which none does.
read_loop_ends :
    (ntohl : ℕ → ℕ) (rounds later : List Round) (quiet : Round) (ring : Ring)
    → AllGoOn rounds
    → quiet.arrival ≡ timeout
    → let reading = read_loop ntohl (rounds ++ (quiet ∷ later)) ring in
      (reading.2 ≡ some eok)
      × (reading.0 ≡ after_packet quiet (after_rounds ntohl rounds ring) none)
      × (reading ≡ read_loop ntohl (rounds ++ (quiet ∷ [])) ring)
unfolding read_loop after_rounds
read_loop_ends ntohl [] later quiet ring go h =
    let ends = quiet_round ntohl quiet ring h in
    (
      ended_code (read_round ntohl quiet ring) _ eok ends,
      ended_ring (read_round ntohl quiet ring) _ eok ends
          ∙ round_ring quiet ring ntohl
          ∙ ap (λ arrival. after_packet quiet ring (taken ntohl ring.self.ip_addr arrival)) h,
      continue_ended (read_round ntohl quiet ring) _ _ eok ends,
    )
read_loop_ends ntohl (round ∷ rounds) later quiet ring (goes, go) h =
    let reading = read_round ntohl round ring in
    let (ends, nodes, same) = read_loop_ends ntohl rounds later quiet reading.0 go h in
    (
      continue_code reading _ (reads_on round ring goes) ∙ ends,
      continue_ring reading _ (reads_on round ring goes)
          ∙ nodes
          ∙ ap (λ next. after_packet quiet (after_rounds ntohl rounds next) none)
              (round_ring round ring ntohl),
      ap (continue reading) same,
    )
  where
    reads_on :
        (round : Round) (ring : Ring)
        → goes_on round.arrival ≡ true
        → (read_round ntohl round ring).2 ≡ none
    reads_on round ring =
        unfold read_round in round_goes_on ntohl _ round round.arrival _ ring.peers

-- On a node that is on, where packets or interrupts come in some rounds and nothing in the next,
-- `artnet_read` returns ARTNET_EOK in that round, and no round behind it takes part. In each round,
-- the quiet one too, the node's time-outs are checked. Where a datagram came that is not empty and
-- is neither from the node's own address nor from the loopback, the time-outs of its peers are
-- checked too, and the node and each peer handle the datagram, if it has ten bytes and an opcode.
pub artnet_read_ends :
    (ntohl : ℕ → ℕ) (rounds later : List Round) (quiet : Round) (ring : Ring)
    → ring.self.node.mode_on ≡ true
    → AllGoOn rounds
    → quiet.arrival ≡ timeout
    → let reading = artnet_read ntohl (rounds ++ (quiet ∷ later)) ring in
      (reading.2 ≡ some eok)
      × (reading.0 ≡ after_packet quiet (after_rounds ntohl rounds ring) none)
      × (reading ≡ artnet_read ntohl (rounds ++ (quiet ∷ [])) ring)
unfolding artnet_read
artnet_read_ends ntohl rounds later quiet ring on go h =
    simp on (read_loop_ends ntohl rounds later quiet ring go h)

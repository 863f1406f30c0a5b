-- ===== src/Machine/Read/Tests.antt =====
-- A node that is read from, with a peer: an ArtDmx, an interrupt, and then nothing.
use Prim.{tt}
use libartnet.Base.{◌≡◌, ◌++◌, refl, true, some, none, eok, [], ◌∷◌, List}
use libartnet.Machine.Read.{Arrival, timeout, select_error, arrived, Round, Ring, artnet_read}
use libartnet.Machine.Read.Ends.{artnet_read_ends}
use libartnet.Machine.Read.Rounds.{after_packet, after_rounds}
use libartnet.Machine.Read.Rings.{IsSoundRing, artnet_read-IsSoundRing}
use libartnet.Machine.Run.Kept.{IsReachable-IsSound}
use libartnet.Machine.Samples.{
  quiet_world, made, made-IsReachable, ready, ready-IsReachable, dmx_frame,
}
use libartnet.Machine.Start.{artnet_start}
use libartnet.Node.Config.{artnet_set_port_addr, set_output_addr}

abbrev round_of : Arrival → Round
round_of arrival = record { arrival = arrival; clocks = λ i. 1000; worlds = λ i. quiet_world }

abbrev pair_of : Ring
pair_of = record { self = ready; peers = made ∷ [] }

abbrev busy : List Round
busy = round_of (arrived 10 dmx_frame) ∷ round_of (select_error true) ∷ []

pair_of-IsSoundRing : IsSoundRing pair_of
pair_of-IsSoundRing = record {
  self_sound = IsReachable-IsSound ready ready-IsReachable;
  peers_sound = (IsReachable-IsSound made made-IsReachable, tt);
}

ready_on : ready.node.mode_on ≡ true
unfolding artnet_start artnet_set_port_addr set_output_addr
ready_on = refl

artnet_read_ends_example :
    let quiet = round_of timeout in
    let reading = artnet_read (λ ip. ip) (busy ++ (quiet ∷ busy)) pair_of in
    (reading.2 ≡ some eok)
    × (reading.0 ≡ after_packet quiet (after_rounds (λ ip. ip) busy pair_of) none)
    × (reading ≡ artnet_read (λ ip. ip) (busy ++ (quiet ∷ [])) pair_of)
artnet_read_ends_example =
    artnet_read_ends (λ ip. ip) busy busy (round_of timeout) pair_of ready_on (refl, (refl, tt))
      refl

artnet_read-IsSoundRing_example : IsSoundRing (artnet_read (λ ip. ip) busy pair_of).0
artnet_read-IsSoundRing_example =
    artnet_read-IsSoundRing (λ ip. ip) busy pair_of pair_of-IsSoundRing

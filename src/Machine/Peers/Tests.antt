-- ===== src/Machine/Peers/Tests.antt =====
-- Two pairs of nodes that are joined.
use Prim.{tt}
use libartnet.Base.{◌≡◌, refl, arith, true, false, none, some, [], ◌∷◌, if◌then◌else◌, ◌==◌, eok}
use libartnet.Machine.Peers.{Peering, artnet_join}
use libartnet.Machine.Peers.Joined.{AllFalse, artnet_join_joins}
use libartnet.Machine.Peers.Linked.{IsRing, AreRings}

abbrev pairs : Peering
pairs = record {
  peer = λ n.
      if n == 1
      then some 2
      else if n == 2
      then some 1
      else if n == 3
      then some 4
      else if n == 4
      then some 3
      else none;
  master = λ n. true;
}

pairs-AreRings : AreRings pairs.peer 1 (2 ∷ []) 3 (4 ∷ [])
pairs-AreRings = record {
  ring1 = (refl, refl);
  ring2 = (refl, refl);
  distinct1 = ((refl, tt), (tt, tt));
  distinct2 = ((refl, tt), (tt, tt));
  apart = ((refl, (refl, tt)), ((refl, (refl, tt)), tt));
}

artnet_join_example :
    let (after, code) = artnet_join 3 false false 1 3 pairs in
    IsRing after.peer 1 (3 ∷ 4 ∷ 2 ∷ [])
    × (after.master 1 ≡ true)
    × AllFalse after.master (3 ∷ 4 ∷ 2 ∷ [])
    × (code ≡ eok)
artnet_join_example = artnet_join_joins 3 1 3 (2 ∷ []) (4 ∷ []) pairs pairs-AreRings (omega arith)

-- ===== src/Machine/Peers/Joined.antt =====
-- Two rings of nodes that `artnet_join` makes one, with one master.
use Prim.{Unit, tt}
use libartnet.Base.{
  ℕ, zero, suc, ◌≤◌, ◌≡◌, ◌∙◌, refl, sym, subst, ap, arith, Bool, true, false, List, [], ◌∷◌, ◌++◌,
  Option, some, ◌==◌, length, if_keeps, eok, length-append,
}
use libartnet.Machine.Peers.{Peering, set_at, peer_or, clear_masters, linked, artnet_join}
use libartnet.Machine.Peers.Linked.{
  Chain, IsRing, Avoids, AreRings, set_at_other, set_at_same, joined,
}

-- No node of the list is the master.
abbrev pub AllFalse : (ℕ → Bool) → List ℕ → Type 0
AllFalse master [] = Unit {0}
AllFalse master (n ∷ ns) = (master n ≡ false) × AllFalse master ns

clear_kept :
    (fuel : ℕ) (f : ℕ → Option ℕ) (n1 n : ℕ) (master : ℕ → Bool) (z : ℕ)
    → master z ≡ false
    → clear_masters fuel f n1 n master z ≡ false
unfolding clear_masters
clear_kept zero f n1 n master z e = e
clear_kept (suc fuel) f n1 n master z e =
    if_keeps (λ (g : ℕ → Bool). g z ≡ false) (n == n1) e
      (clear_kept fuel f n1 (peer_or (f n) n1) (set_at master n false) z
        (if_keeps (λ (b : Bool). b ≡ false) (z == n) refl e))

clear_next :
    (fuel : ℕ) (f : ℕ → Option ℕ) (n1 n m : ℕ) (master : ℕ → Bool)
    → n == n1 ≡ false
    → f n ≡ some m
    → clear_masters (suc fuel) f n1 n master ≡ clear_masters fuel f n1 m (set_at master n false)
unfolding clear_masters
clear_next fuel f n1 n m master apart c = rw (apart, c) refl

cleared :
    (fuel : ℕ) (f : ℕ → Option ℕ) (n1 n : ℕ) (master : ℕ → Bool) (ms : List ℕ)
    → length (n ∷ ms) ≤ fuel
    → Chain f n ms n1
    → Avoids n1 (n ∷ ms)
    → AllFalse (clear_masters fuel f n1 n master) (n ∷ ms)
cleared zero f n1 n master ms h c a = absurd (omega arith)
cleared (suc fuel) f n1 n master [] h c a =
    subst (λ g. AllFalse g (n ∷ [])) (sym (clear_next fuel f n1 n n1 master a.0 c))
      (clear_kept fuel f n1 n1 (set_at master n false) n (set_at_same master n false), tt)
cleared (suc fuel) f n1 n master (m ∷ ms) h c a =
    subst (λ g. AllFalse g (n ∷ m ∷ ms)) (sym (clear_next fuel f n1 n m master a.0 c.0))
      (
        clear_kept fuel f n1 m (set_at master n false) n (set_at_same master n false),
        cleared fuel f n1 m (set_at master n false) ms (omega arith) c.1 a.1,
      )

Avoids-append : (z : ℕ) (ns ms : List ℕ) → Avoids z ns → Avoids z ms → Avoids z (ns ++ ms)
Avoids-append z [] ms a b = b
Avoids-append z (n ∷ ns) ms (here, a) b = (here, Avoids-append z ns ms a b)

AllFalse-set_at :
    (master : ℕ → Bool) (z : ℕ) (v : Bool) (ns : List ℕ)
    → Avoids z ns
    → AllFalse master ns
    → AllFalse (set_at master z v) ns
AllFalse-set_at master z v [] a c = tt
AllFalse-set_at master z v (n ∷ ns) (here, a) (c, cs) =
    (set_at_other master z v n here ∙ c, AllFalse-set_at master z v ns a cs)

-- Joining two nodes that are not on, with fuel for as many rounds as they and their peers are, makes
-- their two rings, which have no node in common, one: it leads from the first node through the ring of
-- the second and the rest of its own. Then the first node is the master, and no other is.
pub artnet_join_joins :
    (fuel n1 n2 : ℕ) (ns ms : List ℕ) (p : Peering)
    → AreRings p.peer n1 ns n2 ms
    → length (n2 ∷ (ms ++ ns)) ≤ fuel
    → let (after, code) = artnet_join fuel false false n1 n2 p in
      IsRing after.peer n1 (n2 ∷ (ms ++ ns))
      × (after.master n1 ≡ true)
      × AllFalse after.master (n2 ∷ (ms ++ ns))
      × (code ≡ eok)
unfolding artnet_join
artnet_join_joins fuel n1 n2 ns ms p r h =
    let peer = linked fuel n1 n2 p.peer in
    let ring = joined fuel p.peer n1 n2 ns ms r (omega (arith, length-append ms ns)) in
    let apart : Avoids n1 (n2 ∷ (ms ++ ns)) =
      (r.apart.0.0, Avoids-append n1 ms ns r.apart.0.1 r.distinct1.0) in
    let next : peer_or (peer n1) n1 ≡ n2 = ap (λ q. peer_or q n1) ring.0 in
    let none_left = cleared fuel peer n1 n2 p.master (ms ++ ns) h ring.1 apart in
    (
      ring,
      set_at_same (clear_masters fuel peer n1 (peer_or (peer n1) n1) p.master) n1 true,
      AllFalse-set_at _ n1 true (n2 ∷ (ms ++ ns)) apart (
          subst (λ n. AllFalse (clear_masters fuel peer n1 n p.master) (n2 ∷ (ms ++ ns))) (sym next)
            none_left),
      refl,
    )

-- ===== src/Machine/Peers/Linked.antt =====
-- The pointers of two rings of nodes that `artnet_join` links.
use Prim.{Unit, tt}
use libartnet.Base.{
  ℕ, zero, suc, ◌<◌, ◌≡◌, ◌∙◌, refl, sym, subst, ap, arith, false, List, [], ◌∷◌, ◌++◌, Option,
  none, some, ◌==◌, length, ==_refl,
}
use libartnet.Machine.Peers.{set_at, peer_or, last_of, linked}

-- From `n` through the nodes of the list to `to`
abbrev pub Chain : (ℕ → Option ℕ) → ℕ → List ℕ → ℕ → Type 0
Chain peer n [] to = peer n ≡ some to
Chain peer n (m ∷ ms) to = (peer n ≡ some m) × Chain peer m ms to

-- A node with the others of its ring, in their order. A node that is alone has no peer.
abbrev pub IsRing : (ℕ → Option ℕ) → ℕ → List ℕ → Type 0
IsRing peer n [] = peer n ≡ none
IsRing peer n (m ∷ ms) = Chain peer n (m ∷ ms) n

-- A number that is not in the list
abbrev pub Avoids : ℕ → List ℕ → Type 0
Avoids z [] = Unit {0}
Avoids z (n ∷ ns) = (n == z ≡ false) × Avoids z ns

abbrev pub AreDistinct : List ℕ → Type 0
AreDistinct [] = Unit {0}
AreDistinct (n ∷ ns) = Avoids n ns × AreDistinct ns

-- No number of the one list is in the other.
abbrev pub AreApart : List ℕ → List ℕ → Type 0
AreApart [] ms = Unit {0}
AreApart (n ∷ ns) ms = Avoids n ms × AreApart ns ms

-- Like a chain, but the last peer may be NULL
abbrev Closed : (ℕ → Option ℕ) → ℕ → List ℕ → ℕ → Type 0
Closed peer n [] to = peer_or (peer n) to ≡ to
Closed peer n (m ∷ ms) to = (peer n ≡ some m) × Closed peer m ms to

pub set_at_other {ℓ} :
    {A : Type ℓ} (f : ℕ → A) (n : ℕ) (v : A) (k : ℕ) → k == n ≡ false → set_at f n v k ≡ f k
set_at_other f n v k e = rw e refl

pub set_at_same {ℓ} : {A : Type ℓ} (f : ℕ → A) (n : ℕ) (v : A) → set_at f n v n ≡ v
set_at_same f n v = rw (==_refl n) refl

Chain-set_at :
    (f : ℕ → Option ℕ) (z n : ℕ) (v : Option ℕ) (ms : List ℕ) (to : ℕ)
    → Avoids z (n ∷ ms)
    → Chain f n ms to
    → Chain (set_at f z v) n ms to
Chain-set_at f z n v [] to (here, _) c = set_at_other f z v n here ∙ c
Chain-set_at f z n v (m ∷ ms) to (here, later) (c, cs) =
    (set_at_other f z v n here ∙ c, Chain-set_at f z m v ms to later cs)

Closed-set_at :
    (f : ℕ → Option ℕ) (z n : ℕ) (v : Option ℕ) (ms : List ℕ) (to : ℕ)
    → Avoids z (n ∷ ms)
    → Closed f n ms to
    → Closed (set_at f z v) n ms to
Closed-set_at f z n v [] to (here, _) c = ap (λ q. peer_or q to) (set_at_other f z v n here) ∙ c
Closed-set_at f z n v (m ∷ ms) to (here, later) (c, cs) =
    (set_at_other f z v n here ∙ c, Closed-set_at f z m v ms to later cs)

Chain-Closed :
    (f : ℕ → Option ℕ) (n : ℕ) (ms : List ℕ) (to : ℕ) → Chain f n ms to → Closed f n ms to
Chain-Closed f n [] to c = ap (λ q. peer_or q to) c
Chain-Closed f n (m ∷ ms) to (c, cs) = (c, Chain-Closed f m ms to cs)

IsRing-Closed : (f : ℕ → Option ℕ) (n : ℕ) (ms : List ℕ) → IsRing f n ms → Closed f n ms n
IsRing-Closed f n [] c = ap (λ q. peer_or q n) c
IsRing-Closed f n (m ∷ ms) c = Chain-Closed f n (m ∷ ms) n c

Chain-append :
    (f : ℕ → Option ℕ) (n : ℕ) (ms : List ℕ) (m : ℕ) (ks : List ℕ) (to : ℕ)
    → Chain f n ms m
    → Chain f m ks to
    → Chain f n (ms ++ (m ∷ ks)) to
Chain-append f n [] m ks to c d = (c, d)
Chain-append f n (l ∷ ms) m ks to (c, cs) d = (c, Chain-append f l ms m ks to cs d)

-- The last node is one of the ring: it is none of those that are not.
last_of-Avoids :
    (fuel : ℕ) (f : ℕ → Option ℕ) (n2 n z : ℕ) (ms : List ℕ)
    → length ms < fuel
    → Closed f n ms n2
    → Avoids n2 ms
    → Avoids z (n ∷ ms)
    → last_of fuel f n2 n == z ≡ false
unfolding last_of
last_of-Avoids zero f n2 n z ms h c apart a = absurd (omega arith)
last_of-Avoids (suc fuel) f n2 n z [] h c apart a = rw (c, ==_refl n2) a.0
last_of-Avoids (suc fuel) f n2 n z (m ∷ ms) h c apart a =
    rw (c.0, apart.0) (last_of-Avoids fuel f n2 m z ms (omega arith) c.1 apart.1 a.1)

other_way : (m n : ℕ) → m == n ≡ false → n == m ≡ false
other_way m n e = ground arith

last_of_end :
    (fuel : ℕ) (f : ℕ → Option ℕ) (n2 n : ℕ) → peer_or (f n) n2 ≡ n2 → last_of (suc fuel) f n2 n ≡ n
unfolding last_of
last_of_end fuel f n2 n c = rw (c, ==_refl n2) refl

last_of_next :
    (fuel : ℕ) (f : ℕ → Option ℕ) (n2 n m : ℕ)
    → f n ≡ some m
    → m == n2 ≡ false
    → last_of (suc fuel) f n2 n ≡ last_of fuel f n2 m
unfolding last_of
last_of_next fuel f n2 n m c apart = rw (c, apart) refl

-- Where the last node gets a new peer, the chain leads there.
relinked :
    (fuel : ℕ) (f : ℕ → Option ℕ) (n2 n to : ℕ) (ms : List ℕ)
    → length ms < fuel
    → Closed f n ms n2
    → Avoids n2 ms
    → AreDistinct (n ∷ ms)
    → Chain (set_at f (last_of fuel f n2 n) (some to)) n ms to
relinked zero f n2 n to ms h c apart d = absurd (omega arith)
relinked (suc fuel) f n2 n to [] h c apart d =
    rw (last_of_end fuel f n2 n c) (set_at_same f n (some to))
relinked (suc fuel) f n2 n to (m ∷ ms) h c apart d =
    let last = last_of fuel f n2 m in
    let later : last == n ≡ false = last_of-Avoids fuel f n2 m n ms (omega arith) c.1 apart.1 d.0 in
    subst (λ l. Chain (set_at f l (some to)) n (m ∷ ms) to)
      (sym (last_of_next fuel f n2 n m c.0 apart.0))
      (
        set_at_other f last (some to) n (other_way last n later) ∙ c.0,
        relinked fuel f n2 m to ms (omega arith) c.1 apart.1 d.1,
      )

AreApart-Avoids :
    (fuel : ℕ) (f : ℕ → Option ℕ) (n2 : ℕ) (ms ns : List ℕ)
    → length ms < fuel
    → Closed f n2 ms n2
    → Avoids n2 ms
    → AreApart ns (n2 ∷ ms)
    → Avoids (last_of fuel f n2 n2) ns
AreApart-Avoids fuel f n2 ms [] h c apart d = tt
AreApart-Avoids fuel f n2 ms (n ∷ ns) h c apart (a, d) = (
  other_way (last_of fuel f n2 n2) n (last_of-Avoids fuel f n2 n2 n ms h c apart a),
  AreApart-Avoids fuel f n2 ms ns h c apart d,
)

-- Two rings without a common node
pub record AreRings (peer : ℕ → Option ℕ) (n1 : ℕ) (ns : List ℕ) (n2 : ℕ) (ms : List ℕ)
    : Type 0 where
  pub ring1 : IsRing peer n1 ns
  pub ring2 : IsRing peer n2 ms
  pub distinct1 : AreDistinct (n1 ∷ ns)
  pub distinct2 : AreDistinct (n2 ∷ ms)
  pub apart : AreApart (n1 ∷ ns) (n2 ∷ ms)

append-[] : (ms : List ℕ) → ms ++ [] ≡ ms
append-[] [] = refl
append-[] (m ∷ ms) = ap (λ l. m ∷ l) (append-[] ms)

module _ (fuel : ℕ) (f : ℕ → Option ℕ) (n1 n2 : ℕ) (ns ms : List ℕ) (r : AreRings f n1 ns n2 ms)
    (h : length ms < fuel) where
  abbrev to_n2 : ℕ → Option ℕ
  to_n2 = set_at f n1 (some n2)

  closed : Closed to_n2 n2 ms n2
  closed = Closed-set_at f n1 n2 (some n2) ms n2 r.apart.0 (IsRing-Closed f n2 ms r.ring2)

  abbrev last : ℕ
  last = last_of fuel to_n2 n2 n2

  last_apart : last == n1 ≡ false
  last_apart = last_of-Avoids fuel to_n2 n2 n2 n1 ms h closed r.distinct2.0 r.apart.0

  -- From the first node to the second ring, and through it
  first : linked fuel n1 n2 f n1 ≡ some n2
  unfolding linked
  first =
      set_at_other to_n2 last (some (peer_or (f n1) n1)) n1 (other_way last n1 last_apart)
      ∙ set_at_same f n1 (some n2)

  second : Chain (linked fuel n1 n2 f) n2 ms (peer_or (f n1) n1)
  unfolding linked
  second = relinked fuel to_n2 n2 n2 (peer_or (f n1) n1) ms h closed r.distinct2.0 r.distinct2

-- The rest of the first ring stays as it is.
pub joined :
    (fuel : ℕ) (f : ℕ → Option ℕ) (n1 n2 : ℕ) (ns ms : List ℕ)
    → AreRings f n1 ns n2 ms
    → length ms < fuel
    → Chain (linked fuel n1 n2 f) n1 (n2 ∷ (ms ++ ns)) n1
unfolding linked
joined fuel f n1 n2 [] ms r h =
    let alone : peer_or (f n1) n1 ≡ n1 = rw r.ring1 refl in
    (
      first fuel f n1 n2 [] ms r h,
      subst (λ l. Chain (linked fuel n1 n2 f) n2 l n1) (sym (append-[] ms))
          (subst (λ to. Chain (linked fuel n1 n2 f) n2 ms to) alone
            (second fuel f n1 n2 [] ms r h)),
    )
joined fuel f n1 n2 (n ∷ ns) ms r h =
    let next : peer_or (f n1) n1 ≡ n = ap (λ q. peer_or q n1) r.ring1.0 in
    let avoids =
      AreApart-Avoids fuel (set_at f n1 (some n2)) n2 ms (n ∷ ns) h
        (closed fuel f n1 n2 (n ∷ ns) ms r h) r.distinct2.0 r.apart.1 in
    (
      first fuel f n1 n2 (n ∷ ns) ms r h,
      Chain-append (linked fuel n1 n2 f) n2 ms n ns n1
          (subst (λ to. Chain (linked fuel n1 n2 f) n2 ms to) next
            (second fuel f n1 n2 (n ∷ ns) ms r h))
          (Chain-set_at (set_at f n1 (some n2)) _ n _ ns n1 avoids
            (Chain-set_at f n1 n (some n2) ns n1 r.distinct1.0 r.ring1.1)),
    )

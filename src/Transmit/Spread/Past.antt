-- ===== src/Transmit/Spread/Past.antt =====
-- The receivers that `find_nodes_from_uni` (artnet/artnet.c) counts, and the loop of `artnet_tx_nzs`
-- (artnet/transmit.c) over them.
use Prim.{Unit, tt}
use native.Mathlib.Decide.{dec_lt}
use libartnet.Base.{
  ℕ, zero, suc, ◌+◌, ◌≤◌, ◌<◌, ◌≡◌, refl, arith, Bool, true, false, not, ltb, List, [], ◌∷◌, Option,
  none, some, get_elem?, length, if_keeps, Code, eok, ◌||◌, ◌⊎◌, inl, inr, if◌then◌else◌, bit_and,
  ◌==◌,
}
use libartnet.NodeList.{PrivateEntry, NodeList}
use libartnet.NodeList.Subscribers.{
  scan, scan_entry, count_ports, port_count, Search, found, ended, find_nodes_from_uni,
}
use libartnet.Packet.{Packet}
use libartnet.Port.{InputPort, has_bit, port_status_input_disabled}
use libartnet.Transmit.{ℤ, magnitude}
use libartnet.Transmit.Spread.{send_each, send_one, artnet_tx_nzs}

-- A scan counts at least `d` more ports than it stores addresses.
abbrev Counts : ℕ → Option (List ℕ × ℕ) → Type 0
Counts d none = Unit {0}
Counts d (some (ips, count)) = length ips + d ≤ count

scan_entry_stored-Counts :
    (full : Bool) (ip k d : ℕ) (rest rest' : Option (List ℕ × ℕ))
    → Counts d rest'
    → Counts (k + d) (scan_entry full ip (some (suc k)) rest rest')
unfolding scan_entry
scan_entry_stored-Counts full ip k d rest none h = tt
scan_entry_stored-Counts true ip k d rest (some (ips, count)) h = omega arith
scan_entry_stored-Counts false ip k d rest (some (ips, count)) h = omega arith

scan_entry-Counts :
    (full : Bool) (ip d : ℕ) (c : Option ℕ) (rest rest' : Option (List ℕ × ℕ))
    → Counts d rest
    → Counts d rest'
    → Counts d (scan_entry full ip c rest rest')
unfolding scan_entry
scan_entry-Counts full ip d none rest rest' h h' = tt
scan_entry-Counts full ip d (some zero) rest rest' h h' = h
scan_entry-Counts full ip d (some (suc k)) rest none h h' = tt
scan_entry-Counts true ip d (some (suc k)) rest (some (ips, count)) h h' = omega arith
scan_entry-Counts false ip d (some (suc k)) rest (some (ips, count)) h h' = omega arith

scan-Counts : (uni size j : ℕ) (es : List PrivateEntry) → Counts 0 (scan uni size j es)
unfolding scan
scan-Counts uni size j [] = omega arith
scan-Counts uni size j (e ∷ es) =
    scan_entry-Counts (not (ltb j size)) e.ip 0 (count_ports e.public uni 0 (port_count e.public)) _
      _ (scan-Counts uni size j es)
      (if_keeps (Counts 0) (not (ltb j size)) (scan-Counts uni size j es)
        (scan-Counts uni size (suc j) es))

module _ (uni size k : ℕ) (e : PrivateEntry)
    (twice : count_ports e.public uni 0 (port_count e.public) ≡ some (suc (suc k))) where
  -- With a node that has two ports in the universe, more is counted than stored.
  scan_twice :
      (es : List PrivateEntry) (i j : ℕ) → get_elem? es i ≡ some e → Counts 1 (scan uni size j es)
  unfolding scan
  scan_twice [] i j at = absurd (cc at)
  scan_twice (x ∷ es) zero j at =
      let same : x ≡ e = cc at in
      let stored =
        if_keeps (Counts 0) (not (ltb j size)) (scan-Counts uni size j es)
          (scan-Counts uni size (suc j) es) in
      rw (same, twice)
        (fewer (scan_entry (not (ltb j size)) e.ip (some (suc (suc k))) _ _) (
          scan_entry_stored-Counts (not (ltb j size)) e.ip (suc k) 0 (scan uni size j es) _ stored))
    where
      fewer : (r : Option (List ℕ × ℕ)) → Counts (suc k + 0) r → Counts 1 r
      fewer none h = tt
      fewer (some (ips, count)) h = omega arith
  scan_twice (x ∷ es) (suc i) j at =
      scan_entry-Counts (not (ltb j size)) x.ip 1 (count_ports x.public uni 0 (port_count x.public))
        _ _ (scan_twice es i j at)
        (if_keeps (Counts 1) (not (ltb j size)) (scan_twice es i j at) (scan_twice es i (suc j) at))

  ended_found :
      (r : Option (List ℕ × ℕ)) (ips : List ℕ) (count : ℕ)
      → Counts 1 r
      → ended r ≡ found ips count
      → length ips < count
  ended_found none ips count h e = absurd (cc e)
  ended_found (some (ips', count')) ips count h e =
      let same : ips' ≡ ips = cc e in
      let same' : count' ≡ count = cc e in rw (← same, ← same') (omega arith)

  which : (b : Bool) (x y z : Search) → (if b then x else y) ≡ z → (x ≡ z) ⊎ (y ≡ z)
  which true x y z e = inl e
  which false x y z e = inr e

  find_nodes_from_uni_counts :
      (fuel i count : ℕ) (nl : NodeList) (ips : List ℕ)
      → get_elem? nl.entries i ≡ some e
      → find_nodes_from_uni fuel nl uni size ≡ found ips count
      → length ips < count
  unfolding find_nodes_from_uni
  find_nodes_from_uni_counts zero i count nl ips at h = absurd (cc h)
  find_nodes_from_uni_counts (suc fuel) i count nl ips at h =
      elim (which (bit_and nl.nl_seq 1 == 0) _ _ _ h) [
        | inl now ↦
            ended_found (scan uni size 0 nl.entries) ips count (scan_twice nl.entries i 0 at) now
        | inr later ↦ find_nodes_from_uni_counts fuel i count nl ips at later
      ]

get_elem?-past : (ips : List ℕ) (i : ℕ) → length ips ≤ i → get_elem? ips i ≡ none
get_elem?-past [] i h = refl
get_elem?-past (x ∷ ips) zero h = absurd (omega arith)
get_elem?-past (x ∷ ips) (suc i) h = get_elem?-past ips i (omega arith)

passed_on : (p : Packet) (m : Option ℕ) → send_one p m eok none ≡ none
passed_on p none = refl
passed_on p (some ip) = refl

send_each_past :
    (net : ℕ → Code) (p : Packet) (ips : List ℕ) (i left : ℕ)
    → ((k : ℕ) → net k ≡ eok)
    → i ≤ length ips
    → length ips < i + left
    → send_each net p ips i left ≡ none
unfolding send_each
send_each_past net p ips i zero good h past = absurd (omega arith)
send_each_past net p ips i (suc left) good h past = elim (dec_lt i (length ips)) [
  | yes inside ↦
      rw (good i, send_each_past net p ips (suc i) left good (omega arith) (omega arith))
        (passed_on p (get_elem? ips i))
  | no behind ↦ rw (get_elem?-past ips i (omega arith)) refl
]

-- Where every send succeeds, and a node of the list has two or more ports in the universe of an
-- input port that is not disabled, `artnet_tx_nzs` of 1 to 512 slots, on what the search of the list
-- finds, reads past the addresses that the search stored, whatever room it was given.
pub artnet_tx_nzs_past :
    (net : ℕ → Code) (start_code fuel i k size count : ℕ) (nl : NodeList) (e : PrivateEntry)
    (ips slots : List ℕ) (len : ℤ) (port : InputPort)
    → ((j : ℕ) → net j ≡ eok)
    → get_elem? nl.entries i ≡ some e
    → count_ports e.public port.port_addr 0 (port_count e.public) ≡ some (suc (suc k))
    → find_nodes_from_uni fuel nl port.port_addr size ≡ found ips count
    → has_bit port.port_status port_status_input_disabled ≡ false
    → 1 ≤ magnitude len
    → magnitude len ≤ 512
    → (artnet_tx_nzs true net
        (some (record { ips = ips; nodes = count }))
        start_code
        len
        slots
        port).1
      ≡ none
unfolding artnet_tx_nzs
artnet_tx_nzs_past net start_code fuel i k size count nl e ips slots len port good at twice searched
      enabled low high =
    let some_slots : (ltb (magnitude len) 1 || ltb 512 (magnitude len)) ≡ false = ground arith in
    let past : length ips < 0 + count = omega (
      arith,
      find_nodes_from_uni_counts port.port_addr size k e twice fuel i count nl ips at searched,
    ) in
    rw (some_slots, enabled) (send_each_past net _ ips 0 count good (omega arith) past)

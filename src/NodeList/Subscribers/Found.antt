-- ===== src/NodeList/Subscribers/Found.antt =====
-- When a search of the node list ends, and what it stores.
use Prim.{Unit}
use libartnet.Base.{
  ℕ, zero, suc, ◌+◌, ◌-◌, ◌*◌, ◌%◌, ◌^◌, ◌≤◌, ◌<◌, ◌≡◌, refl, ◌∙◌, ap, arith, Bool, true, false,
  bit_and, and_mask,
}
use libartnet.Base.{
  Option, none, some, List, [], ◌∷◌, get_elem?, ltb, ltb→lt, ◌==◌, Bool-cases, inl, inr, min, Code,
  emem, eok,
}
use libartnet.Base
use libartnet.NodeList.{
  PrivateEntry, NodeList, write_reply, artnet_nl_update, find_entry_from_ip_and_swout0, bump_seq,
}
use libartnet.NodeList.Entry.{NodeEntry, PollReply, first_sw_out}
use libartnet.NodeList.Subscribers.{
  scan_entry, count_port, count_ports, port_count, scan, found, not_yet, find_nodes_from_uni,
}

-- The node has as many ports as its reply has room for.
abbrev pub IsPlain : NodeEntry → Type 0
IsPlain e = (e.numbports ≤ 4) × (Base.length e.port_types ≡ 4)

abbrev pub AllPlain : List PrivateEntry → Type 0
AllPlain [] = Unit {0}
AllPlain (e ∷ es) = IsPlain e.public × AllPlain es

get_elem?_in : (xs : List ℕ) (i : ℕ) → i < Base.length xs → (x : ℕ) × (get_elem? xs i ≡ some x)
get_elem?_in [] i h = absurd (omega arith)
get_elem?_in (x ∷ xs) zero h = (x, refl)
get_elem?_in (x ∷ xs) (suc i) h = get_elem?_in xs i (omega arith)

count_port_ends :
    (matches : ℕ → Bool) (types k : ℕ)
    → (k' : ℕ) × (count_port (some types) matches (some k) ≡ some k')
unfolding count_port
count_port_ends matches types k = elim (Bool-cases (matches types)) [
  | inl hit ↦ (suc k, rw hit refl)
  | inr miss ↦ (k, rw miss refl)
]

count_ports_ends :
    (e : NodeEntry) (uni i left : ℕ)
    → i + left ≤ Base.length e.port_types
    → (k : ℕ) × (count_ports e uni i left ≡ some k)
unfolding count_ports
count_ports_ends e uni i zero h = (0, refl)
count_ports_ends e uni i (suc left) h =
    let (types, here) = get_elem?_in e.port_types i (omega arith) in
    let (k, rest) = count_ports_ends e uni (suc i) left (omega arith) in
    rw (here, rest) (count_port_ends _ types k)

-- A scan ends, it counts at least as many ports as it stores addresses, and those fit.
abbrev pub IsScan : ℕ → ℕ → Option (List ℕ × ℕ) → Type 0
IsScan size j r =
    (ips : List ℕ) × (count : ℕ) × (r ≡ some (ips, count))
    × (Base.length ips ≤ count)
    × (j ≤ size → j + Base.length ips ≤ size)

store :
    (size j ip k : ℕ) (rest rest' : Option (List ℕ × ℕ))
    → IsScan size (suc j) rest'
    → j < size
    → IsScan size j (scan_entry false ip (some (suc k)) rest rest')
unfolding scan_entry
store size j ip k rest rest' (ips, count, e, enough, fits) room =
    rw e (ip ∷ ips, suc k + count, refl, omega arith, λ h. omega (arith, fits (omega arith)))

skip :
    (size j ip k : ℕ) (rest rest' : Option (List ℕ × ℕ))
    → IsScan size j rest'
    → IsScan size j (scan_entry true ip (some (suc k)) rest rest')
unfolding scan_entry
skip size j ip k rest rest' (ips, count, e, enough, fits) =
    rw e (ips, suc k + count, refl, omega arith, fits)

unmatched :
    (full : Bool) (size j ip : ℕ) (rest rest' : Option (List ℕ × ℕ))
    → IsScan size j rest
    → IsScan size j (scan_entry full ip (some zero) rest rest')
unfolding scan_entry
unmatched full size j ip rest rest' scanned = scanned

stored :
    (size j ip k : ℕ) (rest rest' : Option (List ℕ × ℕ))
    → j < size
    → IsScan size (suc j) rest'
    → IsScan size j rest
    → IsScan size j (scan_entry false ip (some k) rest rest')
stored size j ip zero rest rest' below next same = unmatched false size j ip rest rest' same
stored size j ip (suc k) rest rest' below next same = store size j ip k rest rest' next below

skipped :
    (size j ip k : ℕ) (rest : Option (List ℕ × ℕ))
    → IsScan size j rest
    → IsScan size j (scan_entry true ip (some k) rest rest)
skipped size j ip zero rest same = unmatched true size j ip rest rest same
skipped size j ip (suc k) rest same = skip size j ip k rest rest same

scan_ends :
    (uni size j : ℕ) (es : List PrivateEntry) → AllPlain es → IsScan size j (scan uni size j es)
unfolding scan
scan_ends uni size j [] plain = ([], 0, refl, omega arith, λ h. omega arith)
scan_ends uni size j (e ∷ es) ((few, room), plain) =
    let (k, counted) = count_ports_ends e.public uni 0 (port_count e.public) (ground arith) in
    let same = scan_ends uni size j es plain in
    let next = scan_ends uni size (suc j) es plain in
    elim (Bool-cases (ltb j size)) [
      | inl below ↦ rw (counted, below) (stored size j e.ip k _ _ (ltb→lt j size below) next same)
      | inr at_end ↦ rw (counted, at_end) (skipped size j e.ip k _ same)
    ]

-- With an even sequence number the search ends in its first round, within the arrays, where no node
-- of the list claims more than four ports. It stores at most `size` addresses and never more than
-- the ports that it counts.
pub find_nodes_from_uni_ends :
    (fuel uni size : ℕ) (nl : NodeList)
    → nl.nl_seq % 2 ≡ 0
    → AllPlain nl.entries
    → (ips : List ℕ) × (count : ℕ) × (find_nodes_from_uni (suc fuel) nl uni size ≡ found ips count)
      × (Base.length ips ≤ size)
      × (Base.length ips ≤ count)
unfolding find_nodes_from_uni
find_nodes_from_uni_ends fuel uni size nl even plain =
    let (ips, count, e, enough, fits) = scan_ends uni size 0 nl.entries plain in
    let quiet : bit_and nl.nl_seq 1 ≡ 0 = omega (arith, and_mask 1 nl.nl_seq) in
    (ips, count, rw (quiet, e) refl, omega (arith, fits (omega arith)), enough)

-- While the sequence number is odd the search does not end, however often it tries.
pub find_nodes_from_uni_waits :
    (fuel uni size : ℕ) (nl : NodeList)
    → nl.nl_seq % 2 ≡ 1
    → find_nodes_from_uni fuel nl uni size ≡ not_yet
unfolding find_nodes_from_uni
find_nodes_from_uni_waits zero uni size nl odd = refl
find_nodes_from_uni_waits (suc fuel) uni size nl odd =
    let busy : bit_and nl.nl_seq 1 ≡ 1 = omega (arith, and_mask 1 nl.nl_seq) in
    rw busy (find_nodes_from_uni_waits fuel uni size nl odd)

write_reply_even :
    (m : Option PrivateEntry) (alloc : Bool) (now from : ℕ) (reply : PollReply) (nl : NodeList)
    → nl.nl_seq % 2 ≡ 0
    → (write_reply m alloc now from reply nl).1 ≡ eok
    → (write_reply m alloc now from reply nl).0.nl_seq % 2 ≡ 0
unfolding write_reply
write_reply_even (some _) alloc now from reply nl even good = omega arith
write_reply_even none true now from reply nl even good = omega arith
write_reply_even none false now from reply nl even good = absurd (cc good)

write_reply_stuck :
    (m : Option PrivateEntry) (now from fuel uni size : ℕ) (reply : PollReply) (nl : NodeList)
    → nl.nl_seq % 2 ≡ 0
    → m ≡ none
    → let (after, code) = write_reply m false now from reply nl in
      (code ≡ emem) × (find_nodes_from_uni fuel after uni size ≡ not_yet)
unfolding write_reply
write_reply_stuck (some e) now from fuel uni size reply nl even new = absurd (cc new)
write_reply_stuck none now from fuel uni size reply nl even new = (
  refl,
  find_nodes_from_uni_waits fuel uni size (record nl { nl_seq = bump_seq nl.nl_seq }) (omega arith),
)

-- An update that succeeds leaves the sequence number even if it was even, and readers get through.
pub artnet_nl_update_even :
    (alloc : Bool) (now from : ℕ) (reply : PollReply) (nl : NodeList)
    → nl.nl_seq % 2 ≡ 0
    → (artnet_nl_update alloc now from reply nl).1 ≡ eok
    → (artnet_nl_update alloc now from reply nl).0.nl_seq % 2 ≡ 0
unfolding artnet_nl_update
artnet_nl_update_even alloc now from reply nl even good =
    write_reply_even _ alloc now from reply nl even good

-- From an even sequence number, an update for a node that is not in the list and cannot be allocated
-- returns ARTNET_EMEM with the write lock taken: a search of the list as it leaves it does not end,
-- however often it tries.
pub artnet_nl_update_stuck :
    (now from fuel uni size : ℕ) (reply : PollReply) (nl : NodeList)
    → nl.nl_seq % 2 ≡ 0
    → find_entry_from_ip_and_swout0 nl.entries from (first_sw_out reply.sw_out) ≡ none
    → let (after, code) = artnet_nl_update false now from reply nl in
      (code ≡ emem) × (find_nodes_from_uni fuel after uni size ≡ not_yet)
unfolding artnet_nl_update
artnet_nl_update_stuck now from fuel uni size reply nl even new =
    write_reply_stuck _ now from fuel uni size reply nl even new

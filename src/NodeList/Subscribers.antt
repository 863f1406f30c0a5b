-- ===== src/NodeList/Subscribers.antt =====
-- `find_nodes_from_uni` (artnet/artnet.c): the nodes that have a port in a universe. The seqlock's
-- retry loop runs on fuel; nobody else writes while it runs.
pub mod Found
use libartnet.Base.{ℕ, zero, suc, ◌+◌, ◌-◌, ◌%◌, ◌^◌, Bool, true, false, ◌&&◌, ◌||◌, not, bit_and}
use libartnet.Base.{
  Option, none, some, List, [], ◌∷◌, ◌++◌, get_elem?, get_or, ltb, leb, ◌==◌, if◌then◌else◌,
}
use libartnet.Base
use libartnet.NodeList.{PrivateEntry, NodeList}
use libartnet.NodeList.Entry.{NodeEntry}
use libartnet.Wire.{make_addr}
use libartnet.Port.{has_bit}

-- Does the port with these types, `swOut` and `swIn` send or receive that universe?
unfoldable pub port_matches : NodeEntry → ℕ → ℕ → ℕ → ℕ → Bool
port_matches e uni types sw_out sw_in =
    has_bit types 0x80
      && make_addr e.net_switch (bit_and e.sub_switch 0x0f) (bit_and sw_out 0x0f) == uni
    || has_bit types 0x40
      && make_addr e.net_switch (bit_and e.sub_switch 0x0f) (bit_and sw_in 0x0f) == uni

-- One more port, with its types if they are there, before the rest of the ports
unfoldable pub count_port : Option ℕ → (ℕ → Bool) → Option ℕ → Option ℕ
count_port (some types) matches (some k) = if matches types then some (suc k) else some k
count_port _ matches _ = none

-- The number of matching ports among those from `i` on, `left` of them; none where `portTypes[i]`
-- is past the array.
unfoldable pub count_ports : NodeEntry → ℕ → ℕ → ℕ → Option ℕ
count_ports e uni i zero = some 0
count_ports e uni i (suc left) =
    let rest = count_ports e uni (suc i) left in
    count_port (get_elem? e.port_types i)
      (λ types. port_matches e uni types (get_or e.sw_out i 0) (get_or e.sw_in i 0)) rest

-- The trips of the loop `i < numbports`; an int16_t from 2^15 on is negative.
abbrev pub port_count : NodeEntry → ℕ
port_count e = if ltb e.numbports (2 ^ 15) then e.numbports else 0

-- An entry with `k` matching ports, before the rest of the list: what the rest gives where this
-- entry's address is not stored, and where it is.
unfoldable pub scan_entry :
    Bool → ℕ → Option ℕ → Option (List ℕ × ℕ) → Option (List ℕ × ℕ) → Option (List ℕ × ℕ)
scan_entry full ip none rest rest' = none
scan_entry full ip (some zero) rest rest' = rest
scan_entry full ip (some (suc k)) rest none = none
scan_entry full ip (some (suc k)) rest (some (ips, count)) =
    some ((if full then ips else ip ∷ ips), suc k + count)

-- The scan of the list: the addresses stored, `j` of at most `size` so far, and the number of
-- matching ports.
unfoldable pub scan : ℕ → ℕ → ℕ → List PrivateEntry → Option (List ℕ × ℕ)
scan uni size j [] = some ([], 0)
scan uni size j (e ∷ es) =
    let full = not (ltb j size) in
    scan_entry full e.ip (count_ports e.public uni 0 (port_count e.public)) (scan uni size j es)
      (if full then scan uni size j es else scan uni size (suc j) es)

-- How a search ends: with what it found, with a read past an array, or not yet.
pub data Search : Type 0 where
  found : List ℕ → ℕ → Search
  out_of_bounds : Search
  not_yet : Search

abbrev pub ended : Option (List ℕ × ℕ) → Search
ended none = out_of_bounds
ended (some (ips, count)) = found ips count

-- `find_nodes_from_uni`; a reader waits while the sequence number is odd.
unfoldable pub find_nodes_from_uni : ℕ → NodeList → ℕ → ℕ → Search
find_nodes_from_uni zero nl uni size = not_yet
find_nodes_from_uni (suc fuel) nl uni size =
    let again = find_nodes_from_uni fuel nl uni size in
    if bit_and nl.nl_seq 1 == 0 then ended (scan uni size 0 nl.entries) else again

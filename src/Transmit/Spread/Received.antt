-- ===== src/Transmit/Spread/Received.antt =====
-- What the nodes get: the tables that are asked for.
use libartnet.Base.{
  ℕ, zero, suc, ◌+◌, ◌*◌, ◌/◌, ◌%◌, ◌^◌, ◌<◌, ◌≤◌, ◌≡◌, ◌∙◌, refl, sym, ap, arith, min, inl, inr,
  Bool-cases,
}
use libartnet.Base.{
  Bool, true, false, ◌&&◌, ◌||◌, not, List, [], ◌∷◌, ◌++◌, some, get_elem?, ◌==◌, ==→eq,
}
use libartnet.Base.{
  length, take, drop, memcpy, replicate, take-memcpy, take_all, length-replicate, bit_and, and_mask,
  or_fields,
}
use libartnet.Packet.{Packet, byte}
use libartnet.Port.{OutputPort}
use libartnet.Rdm.{is_in, address_of}
use libartnet.Transmit.{Datagram, sent_ok, send_unless_failed, address_byte}
use libartnet.Transmit.Spread.{
  net_in, collect_nets, net_addresses, tod_request_packet, send_tod_requests, artnet_tx_tod_request,
}
use libartnet.Wire.{addr_net}
use libartnet.Wire.Address.{make_addr_lem, addr_net_lem, addr_subnet_lem, addr_port_lem}

-- The addresses that a node reads in an ArtTodRequest, as its handler does
abbrev addresses_in : ℕ → List ℕ → List ℕ
addresses_in net [] = []
addresses_in net (a ∷ rest) = address_of net a ∷ addresses_in net rest

unfoldable pub asks : ℕ → Packet → Bool
asks a p = is_in a (addresses_in (byte p 21) (take (min 32 (byte p 23)) (drop 24 p.bytes)))

unfoldable pub any_asks : ℕ → List Datagram → Bool
any_asks a [] = false
any_asks a (d ∷ ds) = asks a d.packet || any_asks a ds

or_true : (b : Bool) → b || true ≡ true
or_true true = refl
or_true false = refl

same_eq : (n : ℕ) → n == n ≡ true
same_eq n = ground arith

address_byte_lem : (a : ℕ) → address_byte a ≡ a / 16 % 16 * 16 + a % 16
unfolding address_byte
address_byte_lem a =
    ground (arith, addr_subnet_lem a, addr_port_lem a, or_fields 4 (a / 16 % 16) (a % 16))

address_of-address_byte : (a : ℕ) → a < 2 ^ 15 → address_of (addr_net a) (address_byte a) ≡ a
address_of-address_byte a h = omega (
  arith,
  make_addr_lem (addr_net a) (bit_and (address_byte a / 2 ^ 4) 0x0f)
      (bit_and (address_byte a) 0x0f),
  and_mask 4 (address_byte a / 2 ^ 4),
  and_mask 4 (address_byte a),
  address_byte_lem a,
  addr_net_lem a,
)

in_addresses :
    (net x : ℕ) (xs : List ℕ)
    → is_in x xs ≡ true
    → is_in (address_of net x) (addresses_in net xs) ≡ true
in_addresses net x [] e = absurd (cc e)
in_addresses net x (y ∷ xs) e = elim (Bool-cases (y == x)) [
  | inl same ↦ rw (==→eq y x same, same_eq (address_of net x)) refl
  | inr other ↦ rw (in_addresses net x xs (cc (e, other))) (or_true _)
]

length-net_addresses :
    (net : ℕ) (ports : List OutputPort) → length (net_addresses net ports) ≤ length ports
unfolding net_addresses
length-net_addresses net [] = omega arith
length-net_addresses net (port ∷ ports) = ground (arith, length-net_addresses net ports)

in_net_addresses :
    (ports : List OutputPort) (j : ℕ) (port : OutputPort)
    → get_elem? ports j ≡ some port
    → port.port_enabled ≡ true
    → is_in (address_byte port.port_addr) (net_addresses (addr_net port.port_addr) ports) ≡ true
unfolding net_addresses
in_net_addresses [] j port e on = absurd (cc e)
in_net_addresses (x ∷ ports) zero port e on =
    let same : x ≡ port = cc e in
    rw (same, on, same_eq (addr_net port.port_addr), same_eq (address_byte port.port_addr)) refl
in_net_addresses (x ∷ ports) (suc j) port e on =
    let later = in_net_addresses ports j port e on in
    elim (Bool-cases (x.port_enabled && addr_net x.port_addr == addr_net port.port_addr)) [
      | inl with_it ↦ rw (with_it, later) (or_true _)
      | inr without ↦ rw without later
    ]

net_in-append :
    (m k : ℕ) (nets : List ℕ) → net_in m nets ≡ true → net_in m (nets ++ (k ∷ [])) ≡ true
net_in-append m k [] e = absurd (cc e)
net_in-append m k (x ∷ nets) e = elim (Bool-cases (x == m)) [
  | inl same ↦ rw same refl
  | inr other ↦ rw (other, net_in-append m k nets (cc (e, other))) refl
]

net_in-end : (m : ℕ) (nets : List ℕ) → net_in m (nets ++ (m ∷ [])) ≡ true
net_in-end m [] = rw (same_eq m) refl
net_in-end m (x ∷ nets) = rw (net_in-end m nets) (or_true _)

collect_nets-keeps :
    (m : ℕ) (nets : List ℕ) (ports : List OutputPort)
    → net_in m nets ≡ true
    → net_in m (collect_nets nets ports) ≡ true
unfolding collect_nets
collect_nets-keeps m nets [] e = e
collect_nets-keeps m nets (port ∷ ports) e =
    elim (Bool-cases (not port.port_enabled || net_in (addr_net port.port_addr) nets)) [
      | inl found ↦ rw found (collect_nets-keeps m nets ports e)
      | inr new ↦ rw new (
          collect_nets-keeps m (nets ++ (addr_net port.port_addr ∷ [])) ports
            (net_in-append m (addr_net port.port_addr) nets e))
    ]

collect_nets-finds :
    (nets : List ℕ) (ports : List OutputPort) (j : ℕ) (port : OutputPort)
    → get_elem? ports j ≡ some port
    → port.port_enabled ≡ true
    → net_in (addr_net port.port_addr) (collect_nets nets ports) ≡ true
unfolding collect_nets
collect_nets-finds nets [] j port e on = absurd (cc e)
collect_nets-finds nets (x ∷ ports) zero port e on =
    let same : x ≡ port = cc e in
    elim (Bool-cases (net_in (addr_net port.port_addr) nets)) [
      | inl found ↦ rw (same, on, found) (collect_nets-keeps _ nets ports found)
      | inr new ↦
          rw (same, on, new)
            (collect_nets-keeps _ (nets ++ (addr_net port.port_addr ∷ [])) ports
              (net_in-end _ nets))
    ]
collect_nets-finds nets (x ∷ ports) (suc j) port e on =
    elim (Bool-cases (not x.port_enabled || net_in (addr_net x.port_addr) nets)) [
      | inl found ↦ rw found (collect_nets-finds nets ports j port e on)
      | inr new ↦
          rw new (collect_nets-finds (nets ++ (addr_net x.port_addr ∷ [])) ports j port e on)
    ]

packet_asks :
    (ports : List OutputPort) (j : ℕ) (port : OutputPort)
    → length ports ≤ 4
    → get_elem? ports j ≡ some port
    → port.port_enabled ≡ true
    → port.port_addr < 2 ^ 15
    → asks port.port_addr (tod_request_packet (addr_net port.port_addr) ports) ≡ true
unfolding asks tod_request_packet
packet_asks ports j port few e on h =
    let net = addr_net port.port_addr in
    let listed = net_addresses net ports in
    let small : min 32 (length listed) ≡ length listed =
      omega (arith, length-net_addresses net ports) in
    let zeros : length {A = ℕ} (replicate 32 0) ≡ 32 = length-replicate {A = ℕ} 32 0 in
    let read : take (length listed) (memcpy (replicate 32 0) listed (length listed)) ≡ listed =
      take-memcpy {A = ℕ} (replicate 32 0) listed (length listed)
        (omega (arith, length-net_addresses net ports)) (omega arith)
      ∙ take_all listed in
    let found =
      in_addresses net (address_byte port.port_addr) listed (in_net_addresses ports j port e on) in
    rw (small, read)
      (ap (λ a. is_in a (addresses_in net listed)) (sym (address_of-address_byte port.port_addr h))
        ∙ found)

requests_ask :
    (works : ℕ → Bool) (to a net i : ℕ) (ports : List OutputPort) (nets : List ℕ)
    → ((k : ℕ) → works k ≡ true)
    → asks a (tod_request_packet net ports) ≡ true
    → net_in net nets ≡ true
    → any_asks a (send_tod_requests works to ports i sent_ok nets).0 ≡ true
unfolding any_asks send_tod_requests send_unless_failed
requests_ask works to a net i ports [] good asked e = absurd (cc e)
requests_ask works to a net i ports (m ∷ nets) good asked e = elim (Bool-cases (m == net)) [
  | inl same ↦ rw (good i, ==→eq m net same, asked) refl
  | inr other ↦
      rw (good i, requests_ask works to a net (suc i) ports nets good asked (cc (e, other)))
        (or_true _)
]

-- Where every send succeeds, each output port that is on, with a 15-bit Port-Address, on a node of
-- at most four ports, is asked for by one of the packets of `artnet_tx_tod_request`, as
-- `handle_tod_request` reads it.
pub artnet_tx_tod_request_asks :
    (works : ℕ → Bool) (to j : ℕ) (ports : List OutputPort) (port : OutputPort)
    → ((k : ℕ) → works k ≡ true)
    → length ports ≤ 4
    → get_elem? ports j ≡ some port
    → port.port_enabled ≡ true
    → port.port_addr < 2 ^ 15
    → any_asks port.port_addr (artnet_tx_tod_request works to ports).0 ≡ true
unfolding artnet_tx_tod_request
artnet_tx_tod_request_asks works to j ports port good few e on h =
    requests_ask works to port.port_addr (addr_net port.port_addr) 0 ports (collect_nets [] ports)
      good (packet_asks ports j port few e on h) (collect_nets-finds [] ports j port e on)

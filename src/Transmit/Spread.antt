-- ===== src/Transmit/Spread.antt =====
-- The functions that send one packet to several nodes: `artnet_tx_directory`, `artnet_tx_nzs` and
-- `artnet_tx_tod_request` of artnet/transmit.c. The receivers that find_nodes_from_uni finds are an
-- argument. Raw: `artnet_raw_send_dmx`, `artnet_send_nzs` and `artnet_send_vlc` of artnet/artnet.c.
pub mod Raw
pub mod Received
pub mod Past
use libartnet.Base.{
  ℕ, zero, suc, ◌+◌, ◌-◌, ◌*◌, ◌/◌, ◌%◌, ◌^◌, Bool, true, false, ◌&&◌, ◌||◌, not, List, [], ◌∷◌,
  ◌++◌, Option, none, some,
}
use libartnet.Base.{
  if◌then◌else◌, ◌==◌, ltb, bit_and, bit_or, replicate, memcpy, length, get_elem?, Code, eok, earg,
  estate, eaction,
}
use libartnet.Node.{NodeType, srv, node, msrv, route, backup, raw}
use libartnet.Node.Send.{dmx_bytes, next_seq}
use libartnet.Packet.{Packet, dmx, nzs, directory, tod_request}
use libartnet.Port.{
  InputPort, OutputPort, has_bit, port_status_input_disabled, port_status_act_mask,
}
use libartnet.Transmit.{
  header, Datagram, Sent, sent_ok, sent_failed, send_unless_failed, address_byte, ℤ, is_negative,
  magnitude,
}
use libartnet.Wire.{short_get_high_byte, short_get_low_byte, addr_net}

-- The array `ips` as `find_nodes_from_uni` leaves it, and the number that it returned. A read of
-- `ips[i]` past the addresses that were stored ends the model with none.
pub record Receivers : Type 0 where
  pub ips : List ℕ
  pub nodes : ℕ

-- One round of a loop that ends with the first failure, before the rounds that follow
abbrev pub send_one :
    Packet → Option ℕ → Code → Option (List Datagram × Code) → Option (List Datagram × Code)
send_one p none code rest = none
send_one p (some ip) eok none = none
send_one p (some ip) eok (some (sent, code)) = some (record { to = ip; packet = p } ∷ sent, code)
send_one p (some ip) code rest = some ([], code)

-- `left` rounds from `ips[i]` on. `net` is what `artnet_net_send` returns for each.
unfoldable pub send_each : (ℕ → Code) → Packet → List ℕ → ℕ → ℕ → Option (List Datagram × Code)
send_each net p ips i zero = some ([], eok)
send_each net p ips i (suc left) =
    let rest = send_each net p ips (suc i) left in send_one p (get_elem? ips i) (net i) rest

abbrev pub nzs_bytes : ℕ → ℕ → ℕ → ℕ → List ℕ → List ℕ
nzs_bytes seq start_code port_addr len slots =
    header 0x51
    ++ (seq
        ∷ start_code
        ∷ port_addr % 256
        ∷ port_addr / 256
        ∷ short_get_high_byte len
        ∷ short_get_low_byte len
        ∷ memcpy (replicate 512 0) slots len)

abbrev pub nzs_packet : ℕ → ℕ → ℕ → ℕ → List ℕ → Packet
nzs_packet seq start_code port_addr len slots = record {
  length = 530 - (512 - len);
  from = 0;
  type = nzs;
  bytes = nzs_bytes seq start_code port_addr len slots;
}

-- What is left of `artnet_tx_nzs` where `ips` could be allocated, or could not
abbrev nzs_to :
    (ℕ → Code)
    → Option Receivers
    → ℕ
    → ℕ
    → List ℕ
    → InputPort
    → InputPort × Option (List Datagram × Code)
nzs_to net none start_code len slots port = (port, some ([], eaction))
nzs_to net (some r) start_code len slots port =
    let sent =
      send_each net (nzs_packet port.seq start_code port.port_addr len slots) r.ips 0 r.nodes in
    (after_nzs sent port, sent)
  where
    after_nzs : Option (List Datagram × Code) → InputPort → InputPort
    after_nzs (some (ds, eok)) port = record port { seq = next_seq port.seq }
    after_nzs _ port = port

-- `artnet_tx_nzs` on a port that exists; the receivers are none where `ips` cannot be allocated.
unfoldable pub artnet_tx_nzs :
    Bool
    → (ℕ → Code)
    → Option Receivers
    → ℕ
    → ℤ
    → List ℕ
    → InputPort
    → InputPort × Option (List Datagram × Code)
artnet_tx_nzs mode_on net found start_code len slots port =
    if not mode_on
    then (port, some ([], eaction))
    else if ltb (magnitude len) 1 || ltb 512 (magnitude len)
    then (port, some ([], earg))
    else if has_bit port.port_status port_status_input_disabled
    then (port, some ([], earg))
    else nzs_to net found start_code (magnitude len) slots
        (record port { port_status = bit_or port.port_status port_status_act_mask })

-- The addresses of the nodes that are not 0, in the list's order
abbrev pub listed_ips : List ℕ → List ℕ
listed_ips [] = []
listed_ips (ip ∷ ips) = if ip == 0 then listed_ips ips else ip ∷ listed_ips ips

abbrev pub directory_packet : Packet
directory_packet = record {
  length = 25;
  from = 0;
  type = directory;
  bytes = header 0x9a ++ replicate 13 0;
}

-- The result of the loop of `artnet_tx_directory`
abbrev directory_result : List ℕ → Option (List Datagram × Code) → Option (List Datagram × Code)
directory_result [] r = some ([], eaction)
directory_result (_ ∷ _) r = r

-- `artnet_tx_directory`, over the addresses of the node list
unfoldable pub artnet_tx_directory : Bool → (ℕ → Code) → List ℕ → Option (List Datagram × Code)
artnet_tx_directory mode_on net nodes =
    let ips = listed_ips nodes in
    if not mode_on
    then some ([], eaction)
    else directory_result ips (send_each net directory_packet ips 0 (length ips))

abbrev pub net_in : ℕ → List ℕ → Bool
net_in net [] = false
net_in net (m ∷ nets) = m == net || net_in net nets

-- The nets of the ports that are on, each once
unfoldable pub collect_nets : List ℕ → List OutputPort → List ℕ
collect_nets nets [] = nets
collect_nets nets (port ∷ ports) =
    let found = not port.port_enabled || net_in (addr_net port.port_addr) nets in
    collect_nets (if found then nets else nets ++ (addr_net port.port_addr ∷ [])) ports

-- The address bytes of the ports of a net that are on
unfoldable pub net_addresses : ℕ → List OutputPort → List ℕ
net_addresses net [] = []
net_addresses net (port ∷ ports) =
    let rest = net_addresses net ports in
    if port.port_enabled && addr_net port.port_addr == net
    then address_byte port.port_addr ∷ rest
    else rest

unfoldable pub tod_request_packet : ℕ → List OutputPort → Packet
tod_request_packet net ports =
    let addresses = net_addresses net ports in
    record {
      length = 56;
      from = 0;
      type = tod_request;
      bytes =
          header 0x80
          ++ (replicate 9 0
              ++ (net
                  ∷ 0
                  ∷ length addresses
                  ∷ memcpy (replicate 32 0) addresses (length addresses)));
    }

unfoldable pub send_tod_requests :
    (ℕ → Bool) → ℕ → List OutputPort → ℕ → Sent → List ℕ → List Datagram × Sent
send_tod_requests works to ports i ret [] = ([], ret)
send_tod_requests works to ports i ret (net ∷ nets) =
    let (out, ret') =
      send_unless_failed (works i) ret
        (record { to = to; packet = tod_request_packet net ports }) in
    let (later, ret'') = send_tod_requests works to ports (suc i) ret' nets in (out ++ later, ret'')

-- `artnet_tx_tod_request`; `works` tells of each send whether it succeeds.
unfoldable pub artnet_tx_tod_request : (ℕ → Bool) → ℕ → List OutputPort → List Datagram × Sent
artnet_tx_tod_request works bcast_addr ports =
    send_tod_requests works bcast_addr ports 0 sent_ok (collect_nets [] ports)

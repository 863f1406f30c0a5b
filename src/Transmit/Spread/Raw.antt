-- ===== src/Transmit/Spread/Raw.antt =====
-- `artnet_raw_send_dmx`, `artnet_send_nzs` and `artnet_send_vlc` (artnet/artnet.c).
use libartnet.Base.{
  ℕ, ◌-◌, ◌/◌, ◌%◌, ◌≤◌, ◌≡◌, ◌≢◌, refl, arith, Bool, true, false, ◌&&◌, ◌||◌, not, List, [], ◌∷◌,
  ◌++◌, Option, none, some,
}
use libartnet.Base.{
  if◌then◌else◌, ◌==◌, ltb, bit_and, replicate, memcpy, get_or, Code, earg, estate, eaction,
}
use libartnet.Node.{NodeType, srv, raw}
use libartnet.Packet.{Packet, dmx, opcode_type, packet_length_is_valid, min_len}
use libartnet.Packet.Fields.{packet_fields_are_valid, type_is_valid, nzs_is_valid}
use libartnet.Port.{InputPort}
use libartnet.Transmit.{header, Datagram, ℤ, magnitude}
use libartnet.Transmit.Accepted.{IsAccepted, announced_type, version}
use libartnet.Transmit.Spread.{Receivers, send_each, nzs_packet, artnet_tx_nzs}
use libartnet.Wire.{bytes_to_short, short_get_high_byte, short_get_low_byte}
use libartnet.Wire.Misc.{bytes_to_short-get_bytes}

-- What is sent, and the code; none where the loop reads past the addresses
abbrev pub Outcome : Type 0
Outcome = Option (List Datagram × Code)

abbrev pub raw_dmx_bytes : ℕ → ℕ → List ℕ → List ℕ
raw_dmx_bytes uni len slots =
    header 0x50
    ++ (0
        ∷ 0
        ∷ uni % 256
        ∷ uni / 256
        ∷ short_get_high_byte len
        ∷ short_get_low_byte len
        ∷ memcpy (replicate 512 0) slots len)

abbrev pub raw_dmx_packet : ℕ → ℕ → List ℕ → Packet
raw_dmx_packet uni len slots = record {
  length = 530 - (512 - len);
  from = 0;
  type = dmx;
  bytes = raw_dmx_bytes uni len slots;
}

-- The block at the end: the receivers are none where `ips` cannot be allocated.
abbrev pub send_raw : (ℕ → Code) → Option Receivers → Packet → Outcome
send_raw net none p = some ([], eaction)
send_raw net (some r) p = send_each net p r.ips 0 r.nodes

abbrev is_raw : NodeType → Bool
is_raw raw = true
is_raw _ = false

abbrev is_srv : NodeType → Bool
is_srv srv = true
is_srv _ = false

-- `artnet_raw_send_dmx`; `found` gives what `find_nodes_from_uni` stores for a Port-Address.
unfoldable pub artnet_raw_send_dmx :
    Bool → NodeType → (ℕ → Code) → (ℕ → Option Receivers) → ℕ → ℤ → List ℕ → Outcome
artnet_raw_send_dmx mode_on type net found uni len slots =
    let n = magnitude len in
    let address = bit_and uni 0x7fff in
    if not mode_on
    then some ([], eaction)
    else if not (is_raw type)
    then some ([], estate)
    else if ltb n 2 || ltb 512 n || not (bit_and n 1 == 0)
    then some ([], earg)
    else send_raw net (found address) (raw_dmx_packet address n slots)

-- The first input port that is on and has the address sends; the others stay.
unfoldable pub nzs_from_port :
    (ℕ → Code) → Option Receivers → ℕ → ℕ → ℤ → List ℕ → List InputPort → List InputPort × Outcome
nzs_from_port net found uni start_code len slots [] = ([], some ([], earg))
nzs_from_port net found uni start_code len slots (port ∷ ports) =
    let (ports', rest) = nzs_from_port net found uni start_code len slots ports in
    let (port', sent) = artnet_tx_nzs true net found start_code len slots port in
    if port.port_enabled && port.port_addr == uni
    then (port' ∷ ports, sent)
    else (port ∷ ports', rest)

-- `artnet_send_nzs`
unfoldable pub artnet_send_nzs :
    Bool
    → NodeType
    → (ℕ → Code)
    → (ℕ → Option Receivers)
    → ℕ
    → ℕ
    → ℤ
    → List ℕ
    → List InputPort
    → List InputPort × Outcome
artnet_send_nzs mode_on type net found uni start_code len slots ports =
    let n = magnitude len in
    let address = bit_and uni 0x7fff in
    if not mode_on
    then (ports, some ([], eaction))
    else if start_code == 0x00 || start_code == 0xcc
    then (ports, some ([], earg))
    else if ltb n 1 || ltb 512 n
    then (ports, some ([], earg))
    else if is_srv type
    then nzs_from_port net (found address) address start_code len slots ports
    else if is_raw type
    then (ports, send_raw net (found address) (nzs_packet 0 start_code address n slots))
    else (ports, some ([], estate))

-- `memcmp` with the magic bytes of ArtVlc
abbrev pub has_magic : List ℕ → Bool
has_magic slots = get_or slots 0 0 == 0x41 && get_or slots 1 0 == 0x4c && get_or slots 2 0 == 0x45

-- `artnet_send_vlc`; null data is none.
unfoldable pub artnet_send_vlc :
    Bool
    → Bool
    → NodeType
    → (ℕ → Code)
    → (ℕ → Option Receivers)
    → ℕ
    → ℤ
    → Option (List ℕ)
    → List InputPort
    → List InputPort × Outcome
artnet_send_vlc vlc_disabled mode_on type net found uni len none ports =
    (ports, some ([], if vlc_disabled then eaction else earg))
artnet_send_vlc vlc_disabled mode_on type net found uni len (some slots) ports =
    let n = magnitude len in
    let payload_count = bytes_to_short (get_or slots 8 0) (get_or slots 9 0) in
    if vlc_disabled
    then (ports, some ([], eaction))
    else if ltb n 22 || ltb 512 n || not (has_magic slots)
    then (ports, some ([], earg))
    else if not (payload_count == n - 22) || ltb (512 - 22) payload_count
    then (ports, some ([], earg))
    else artnet_send_nzs mode_on type net found uni 0x91 len slots ports

-- The ArtNzs that is built for data of 1 to 512 bytes and a start code that is not 0x00, 0xcc or
-- that of ArtVlc passes a node's checks.
pub nzs_packet-IsAccepted :
    (seq start_code port_addr len : ℕ) (slots : List ℕ)
    → 1 ≤ len
    → len ≤ 512
    → start_code ≢ 0x00
    → start_code ≢ 0xcc
    → start_code ≢ 0x91
    → IsAccepted (nzs_packet seq start_code port_addr len slots)
unfolding opcode_type packet_length_is_valid min_len packet_fields_are_valid type_is_valid
    nzs_is_valid
nzs_packet-IsAccepted seq start_code port_addr len slots low high zero_code text vlc =
    let not_zero : start_code == 0x00 ≡ false = ground arith in
    let not_text : start_code == 0xcc ≡ false = ground arith in
    let not_vlc : start_code == 0x91 ≡ false = ground arith in
    record {
      announced =
          announced_type (nzs_packet seq start_code port_addr len slots) (omega arith) refl refl;
      length_is_valid = ground arith;
      fields_are_valid =
          rw (version, bytes_to_short-get_bytes len (omega arith), not_zero, not_text, not_vlc)
            (ground arith);
    }

-- ===== src/Node/Send/Accepted.antt =====
-- The ArtDmx that a node sends is one that a node accepts.
use libartnet.Base.{ℕ, ◌≤◌, ◌<◌, ◌%◌, ◌^◌, ◌≡◌, refl, arith, true, List, bit_and, and_mask}
use libartnet.Port.{InputPort}
use libartnet.Packet.{min_len, packet_length_is_valid}
use libartnet.Packet.Fields.{packet_fields_are_valid, type_is_valid, dmx_is_valid}
use libartnet.Node.{universe, dmx_packet}
use libartnet.Node.Send.{build_dmx, dmx_bytes}
use libartnet.Wire.{bytes_to_short, short_get_high_byte, short_get_low_byte}
use libartnet.Wire.Misc.{bytes_to_short-get_bytes}

version : bytes_to_short 0 14 ≡ 14
unfolding bytes_to_short
version = refl

-- The ArtDmx of an even length from 2 to 512 passes both checks of `handle`, and `handle_dmx` reads
-- from it that length and the Port-Address of the port that sent it.
pub build_dmx_accepted :
    (from port_id length : ℕ) (slots : List ℕ) (port : InputPort)
    → 2 ≤ length
    → length ≤ 512
    → length % 2 ≡ 0
    → port.port_addr < 2 ^ 16
    → let p = build_dmx from port_id length slots port in
      (packet_length_is_valid p ≡ true)
      × (packet_fields_are_valid p ≡ true)
      × ((dmx_packet p).data_length ≡ length)
      × (universe p ≡ port.port_addr)
unfolding build_dmx dmx_bytes packet_length_is_valid min_len packet_fields_are_valid type_is_valid
    dmx_is_valid
build_dmx_accepted from port_id length slots port low high even address =
    let announced : bytes_to_short (short_get_high_byte length) (short_get_low_byte length)
        ≡ length =
      bytes_to_short-get_bytes length (omega arith) in
    let parity : bit_and length 1 ≡ 0 = omega (arith, and_mask 1 length) in
    (
      ground arith,
      rw (version, announced, parity) (ground arith),
      rw announced (omega arith),
      omega arith,
    )

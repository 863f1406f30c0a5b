-- ===== src/Node/Send.antt =====
-- `artnet_send_dmx` (artnet/artnet.c) up to the choice of its receivers: its guards, the ArtDmx
-- that it builds, and what it leaves in the input port. `data` holds at least `length` bytes.
pub mod Accepted
use libartnet.Base.{
  ℕ, ◌+◌, ◌-◌, ◌%◌, ◌^◌, ◌/◌, Bool, true, false, ◌&&◌, ◌||◌, not, List, [], ◌∷◌, ◌++◌, Option, none,
  some,
}
use libartnet.Base.{
  if◌then◌else◌, ◌==◌, ltb, leb, bit_and, bit_or, memcpy, replicate, Code, eok, earg, eaction,
}
use libartnet.Port.{InputPort, has_bit, port_status_input_disabled, port_status_act_mask}
use libartnet.Packet.{Packet, dmx}
use libartnet.Wire.{short_get_high_byte, short_get_low_byte}

-- The bytes of the ArtDmx
unfoldable pub dmx_bytes : ℕ → ℕ → List ℕ → InputPort → List ℕ
dmx_bytes port_id length slots port =
    0x41
    ∷ 0x72
    ∷ 0x74
    ∷ 0x2d
    ∷ 0x4e
    ∷ 0x65
    ∷ 0x74
    ∷ 0
    ∷ 0x00
    ∷ 0x50
    ∷ 0
    ∷ 14
    ∷ port.seq
    ∷ port_id
    ∷ port.port_addr % 256
    ∷ port.port_addr / 256
    ∷ short_get_high_byte length
    ∷ short_get_low_byte length
    ∷ memcpy (replicate 512 0) slots length

-- The packet as it is sent, and as it arrives from `from`
unfoldable pub build_dmx : ℕ → ℕ → ℕ → List ℕ → InputPort → Packet
build_dmx from port_id length slots port = record {
  length = 530 - (512 - length);
  from = from;
  type = dmx;
  bytes = dmx_bytes port_id length slots port;
}

-- `seq++`, on a uint8_t, past 0
abbrev pub next_seq : ℕ → ℕ
next_seq seq = if (seq + 1) % 256 == 0 then 1 else (seq + 1) % 256

-- What a port keeps of a packet that was sent.
unfoldable pub sent_dmx : ℕ → ℕ → List ℕ → InputPort → InputPort
sent_dmx now length slots port = record port {
  port_status = bit_or port.port_status port_status_act_mask;
  seq = next_seq port.seq;
  last_dmx_data = memcpy port.last_dmx_data slots length;
  last_dmx_length = length;
  last_dmx_send_time = now;
}

-- `artnet_send_dmx` on the port of that number, with the packet to send. The number is below 4, and
-- `ips` tells whether the array for the receivers can be allocated.
unfoldable pub artnet_send_dmx :
    Bool → Bool → ℕ → ℕ → ℕ → List ℕ → InputPort → InputPort × Code × Option Packet
artnet_send_dmx ips mode_on now port_id length slots port =
    if not mode_on
    then (port, eaction, none)
    else if ltb length 2 || ltb 512 length || not (bit_and length 1 == 0)
    then (port, earg, none)
    else if has_bit port.port_status port_status_input_disabled
    then (port, earg, none)
    else if not ips
    then (record port { port_status = bit_or port.port_status port_status_act_mask }, eaction, none)
    else (sent_dmx now length slots port, eok, some (build_dmx 0 port_id length slots port))

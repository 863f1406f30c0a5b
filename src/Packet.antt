-- ===== src/Packet.antt =====
-- The received packet and the checks that artnet/receive.c makes before a handler sees it.
-- The union `artnet_packet_t.data` is the list of its bytes; a field is the byte at its offset in
-- the packed structs of artnet/packets.h.
pub mod Fields
pub mod Payload
use libartnet.Base.{ℕ, zero, suc, ◌+◌, ◌*◌, ◌-◌, Bool, true, false, ◌&&◌, ◌||◌, not, List, [], ◌∷◌}
use libartnet.Base.{if◌then◌else◌, ◌==◌, ltb, leb, get_or}
use libartnet.Wire.{bytes_to_short}

-- `artnet_packet_type_t`, by opcode; `other` for a value the enum does not have
pub data PacketType : Type 0 where
  poll reply ip_prog ip_reply data_request data_reply address dmx input : PacketType
  tod_request tod_data tod_control rdm rdm_sub diag_data command sync nzs : PacketType
  time_code time_sync trigger directory directory_reply : PacketType
  firmware_master firmware_reply file_tn_master file_fn_master file_fn_reply : PacketType
  media media_patch media_control media_control_reply : PacketType
  video_setup video_palette video_data mac_master mac_slave other : PacketType

-- `artnet_packet_t`: the bytes received, the source, and the union
pub record Packet : Type 0 where
  pub length : ℕ
  pub from : ℕ
  pub type : PacketType
  pub bytes : List ℕ

abbrev pub byte : Packet → ℕ → ℕ
byte p i = get_or p.bytes i 0

-- `bytes_to_short` of the bytes at two offsets
abbrev pub short : Packet → ℕ → ℕ → ℕ
short p hi lo = bytes_to_short (byte p hi) (byte p lo)

-- The opcodes of `artnet_packet_type_e` in use
abbrev opcodes : List (ℕ × PacketType)
opcodes =
    (0x2000, poll)
    ∷ (0x2100, reply)
    ∷ (0x2300, diag_data)
    ∷ (0x2400, command)
    ∷ (0x5000, dmx)
    ∷ (0x5100, nzs)
    ∷ (0x5200, sync)
    ∷ (0x2700, data_request)
    ∷ (0x2800, data_reply)
    ∷ (0x6000, address)
    ∷ (0x7000, input)
    ∷ (0x8000, tod_request)
    ∷ (0x8100, tod_data)
    ∷ (0x8200, tod_control)
    ∷ (0x8300, rdm)
    ∷ (0x8400, rdm_sub)
    ∷ (0x9000, media)
    ∷ (0x9100, media_patch)
    ∷ (0x9200, media_control)
    ∷ (0x9300, media_control_reply)
    ∷ (0x9700, time_code)
    ∷ (0x9800, time_sync)
    ∷ (0x9900, trigger)
    ∷ (0x9a00, directory)
    ∷ (0x9b00, directory_reply)
    ∷ (0xa010, video_setup)
    ∷ (0xa020, video_palette)
    ∷ (0xa040, video_data)
    ∷ (0xf000, mac_master)
    ∷ (0xf100, mac_slave)
    ∷ (0xf200, firmware_master)
    ∷ (0xf300, firmware_reply)
    ∷ (0xf400, file_tn_master)
    ∷ (0xf500, file_fn_master)
    ∷ (0xf600, file_fn_reply)
    ∷ (0xf800, ip_prog)
    ∷ (0xf900, ip_reply)
    ∷ []

lookup : List (ℕ × PacketType) → ℕ → PacketType
lookup [] op = other
lookup ((code, t) ∷ rest) op = if code == op then t else lookup rest op

-- The packet type that an opcode stands for
unfoldable pub opcode_type : ℕ → PacketType
unfolding lookup
opcode_type op = lookup opcodes op

-- Does the data begin with "Art-Net\0"?
abbrev pub has_id : Packet → Bool
has_id p =
    byte p 0 == 0x41
    && byte p 1 == 0x72
    && byte p 2 == 0x74
    && byte p 3 == 0x2d
    && byte p 4 == 0x4e
    && byte p 5 == 0x65
    && byte p 6 == 0x74
    && byte p 7 == 0

-- `get_type`: the opcode, low byte first, or 0. Its int16_t is the bit pattern.
unfoldable pub get_type : Packet → ℕ
get_type p = if ltb p.length 10 then 0 else if has_id p then byte p 9 * 256 + byte p 8 else 0

-- `min_len` of `packet_length_is_valid`: the struct sizes less the arrays at their ends. `media`
-- and `other` are valid at any length.
unfoldable pub min_len : PacketType → ℕ
min_len poll = 14
min_len reply = 207
min_len ip_prog = 34
min_len ip_reply = 34
min_len data_request = 40
min_len data_reply = 532 - 512
min_len address = 107
min_len dmx = 530 - 512
min_len input = 20
min_len tod_request = 56 - 32
min_len tod_data = 1228 - 200 * 6
min_len tod_control = 24
min_len rdm = 536 - 512
min_len rdm_sub = 544 - 512
min_len diag_data = 530 - 512
min_len command = 528 - 512
min_len sync = 14
min_len nzs = 530 - 512
min_len time_code = 19
min_len time_sync = 24
min_len trigger = 530 - 512
min_len directory = 25
min_len directory_reply = 2068 - 2048
min_len firmware_master = 1064 - 512 * 2
min_len firmware_reply = 36
min_len file_tn_master = 1064 - 512 * 2
min_len file_fn_master = 283 - 256
min_len file_fn_reply = 1052 - 512 * 2
min_len media = 0
min_len media_patch = 529 - 512
min_len media_control = 538 - 512
min_len media_control_reply = 538 - 512
min_len video_setup = 0
min_len video_palette = 0
min_len video_data = 0
min_len mac_master = 0
min_len mac_slave = 0
min_len other = 0

-- `packet_length_is_valid`
unfoldable pub packet_length_is_valid : Packet → Bool
packet_length_is_valid p = leb (min_len p.type) p.length

-- ===== src/Firmware.antt =====
-- Firmware upload: the receiving state machine of `handle_firmware` (artnet/receive.c) and the
-- sending one of `artnet_tx_firmware_packet` (artnet/transmit.c) and `handle_firmware_reply`.
-- Data is a list of bytes. An int is its bit pattern: below 2^31, or negative.
pub mod Receive
pub mod Send
pub mod Steps
pub mod First
pub mod Blocks
pub mod Exchange
pub mod Sides
mod Tests
use libartnet.Base.{
  ℕ, ◌+◌, ◌-◌, ◌*◌, ◌/◌, ◌%◌, ◌^◌, ◌<◌, Bool, ◌&&◌, ◌||◌, not, Option, none, some, List, min,
}
use libartnet.Base.{ltb, leb, ◌==◌, if◌then◌else◌}
use libartnet.Wire.{artnet_misc_nbytes_to_32}

-- `ARTNET_FIRMWARE_SIZE` words of two bytes
abbrev pub max_payload_bytes : ℕ
max_payload_bytes = 1024

-- `sizeof(artnet_firmware_t)` less its data
abbrev pub firmware_header : ℕ
firmware_header = 40

-- `artnet_firmware_type_code`, each for plain firmware (`false`) or a UBEA upload (`true`), and any
-- other byte
pub data FirmwareType : Type 0 where
  first cont last : Bool → FirmwareType
  unknown : FirmwareType

-- `artnet_firmware_status_code`
pub data FirmwareStatus : Type 0 where
  block_good all_good fail : FirmwareStatus

-- `firmware_transfer_t`
pub record Transfer : Type 0 where
  pub block : Option (List ℕ)
  pub bytes_current : ℕ
  pub bytes_total : ℕ
  pub peer : ℕ
  pub ubea : Bool
  pub last_time : ℕ
  pub expected_block : ℕ

-- What the handler reads of an ArtFirmwareMaster packet: its sender and its length in bytes, and
-- the fields `type`, `blockId`, `length` and `data`.
pub record FirmwarePacket : Type 0 where
  pub from : ℕ
  pub packet_length : ℕ
  pub type : FirmwareType
  pub block_id : ℕ
  pub length0 : ℕ
  pub length1 : ℕ
  pub length2 : ℕ
  pub length3 : ℕ
  pub payload : List ℕ

-- `artnet_misc_nbytes_to_32(length) * sizeof(uint16_t)`, cut to an int
unfoldable pub announced_length : FirmwarePacket → ℕ
announced_length p = artnet_misc_nbytes_to_32 p.length0 p.length1 p.length2 p.length3 * 2 % 2 ^ 32

-- `min(p->length - header, max_payload_bytes)`. Where the difference is negative this is 0, and the
-- test that follows fails for both.
unfoldable pub payload_bytes : FirmwarePacket → ℕ
payload_bytes p = min (p.packet_length - firmware_header) max_payload_bytes

-- `!(length <= 0 || payload_bytes <= 0 || payload_bytes % sizeof(uint16_t) != 0)`
unfoldable pub has_payload : FirmwarePacket → Bool
has_payload p =
    ltb 0 (announced_length p)
    && ltb (announced_length p) (2 ^ 31)
    && ltb 0 (payload_bytes p)
    && payload_bytes p % 2 == 0

-- The block number, where the byte that carries it has gone round.
unfoldable pub block_number : Transfer → FirmwarePacket → ℕ
block_number t p =
    if ltb 255 t.expected_block && t.expected_block % 256 == p.block_id
    then t.expected_block
    else p.block_id

-- `length / ARTNET_FIRMWARE_SIZE / 2 + 1`
abbrev pub total_blocks : ℕ → ℕ
total_blocks length = length / 512 / 2 + 1

-- `block_id * ARTNET_FIRMWARE_SIZE * sizeof(uint16_t)`
abbrev pub offset_bytes : ℕ → ℕ
offset_bytes block_id = block_id * 512 * 2

-- The size of the last block: the rest, or a whole block.
unfoldable pub last_length : ℕ → ℕ
last_length total = let rest = total % 1024 in if rest == 0 then 1024 else rest

-- ===== src/Firmware/Send.antt =====
-- `artnet_tx_firmware_packet` and `handle_firmware_reply`: the sender of an upload.
-- A packet that cannot be sent ends the transfer's progress, so the sends here succeed.
use libartnet.Base.{ℕ, ◌+◌, ◌-◌, ◌*◌, ◌/◌, ◌%◌, Bool, true, false, Option, none, some, List, []}
use libartnet.Base.{min, ◌==◌, if◌then◌else◌, memcpy, replicate, drop}
use libartnet.Wire.{artnet_misc_int_to_bytes}
use libartnet.Firmware.{Transfer, FirmwarePacket, FirmwareType, first, cont, last}
use libartnet.Firmware.{FirmwareStatus, block_good, all_good, fail, max_payload_bytes}
use libartnet.Firmware.{firmware_header}

-- What the next packet carries.
abbrev pub next_length : Transfer → ℕ
next_length t = min (t.bytes_total - t.bytes_current) max_payload_bytes

-- The type of the next packet. Its length is never more than the maximum.
abbrev pub next_type : Transfer → FirmwareType
next_type t =
    if t.bytes_current == 0
    then first t.ubea
    else if next_length t == max_payload_bytes
    then cont t.ubea
    else last t.ubea

-- The bytes from `firm->data + bytes_current / 2` on.
abbrev pub bytes_from : Option (List ℕ) → ℕ → List ℕ
bytes_from none at = []
bytes_from (some bytes) at = drop (at / 2 * 2) bytes

-- The packet that `artnet_tx_firmware_packet` builds, as it arrives from address `from`.
unfoldable pub packet_of : ℕ → Transfer → FirmwarePacket
packet_of from t =
    let (b0, b1, b2, b3) = artnet_misc_int_to_bytes (t.bytes_total / 2) in
    record {
      from = from;
      packet_length = firmware_header + max_payload_bytes;
      type = next_type t;
      block_id = t.expected_block % 256;
      length0 = b0;
      length1 = b1;
      length2 = b2;
      length3 = b3;
      payload =
          memcpy (replicate max_payload_bytes 0) (bytes_from t.block t.bytes_current)
            (next_length t);
    }

-- What it stores once the packet is sent.
unfoldable pub sent : ℕ → Transfer → Transfer
sent now t = record t {
  bytes_current = t.bytes_current + next_length t;
  last_time = now;
  expected_block = (t.expected_block + 1) % 256;
}

-- The call of the sender's callback.
pub data Notice : Type 0 where
  silent completed failed : Notice

-- `memset(&ent->firmware, 0, ...)`
abbrev pub no_transfer : Transfer
no_transfer = record {
  block = none;
  bytes_current = 0;
  bytes_total = 0;
  peer = 0;
  ubea = false;
  last_time = 0;
  expected_block = 0;
}

-- `handle_firmware_reply` for the node entry of the packet's sender: the entry's transfer, whether
-- the next packet is sent, and the callback.
unfoldable pub handle_status : ℕ → FirmwareStatus → Transfer → Transfer × Bool × Notice
handle_status now all_good t =
    if t.bytes_total == t.bytes_current then (no_transfer, false, completed) else (t, false, silent)
handle_status now fail t = (no_transfer, false, failed)
handle_status now block_good t =
    if t.bytes_total == t.bytes_current then (t, false, silent) else (sent now t, true, silent)

unfoldable pub handle_firmware_reply : ℕ → FirmwareStatus → Transfer → Transfer × Bool × Notice
handle_firmware_reply now status t =
    if t.bytes_total == 0 then (t, false, silent) else handle_status now status t

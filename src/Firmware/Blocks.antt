-- ===== src/Firmware/Blocks.antt =====
-- The receiver on one packet: which last blocks it can accept at all.
use libartnet.Base.{◌%◌, ◌≡◌, arith, Bool, false}
use libartnet.Base.{none, some}
use libartnet.Firmware.{Transfer, FirmwarePacket, fail, last_length}
use libartnet.Firmware.Receive.{handle_last, last_fits}

last_fits_whole :
    (p : FirmwarePacket) (t : Transfer) → t.bytes_total % 1024 ≡ 0 → last_fits p t ≡ false
unfolding last_fits last_length
last_fits_whole p t h = ground arith

-- Where the length of the upload is a multiple of 1024 bytes, every last block is refused, and the
-- transfer stays as it is: such an upload cannot be completed by a last block.
pub handle_last_whole :
    (firmware_c : Bool) (p : FirmwarePacket) (t : Transfer)
    → t.bytes_total % 1024 ≡ 0
    → handle_last firmware_c p t ≡ (t, some fail, none)
unfolding handle_last
handle_last_whole firmware_c p t h = ground (arith, last_fits_whole p t h)

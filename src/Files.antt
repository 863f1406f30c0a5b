-- ===== src/Files.antt =====
-- The handlers of artnet/receive.c that hand a packet to the application: files, directories,
-- commands and triggers. `handled` is what the packet's own callback answers.
pub mod Upload
mod Tests
use libartnet.Base.{
  ℕ, zero, suc, ◌+◌, ◌*◌, ◌-◌, ◌/◌, ◌%◌, min, Bool, true, false, ◌&&◌, ◌||◌, not, List, [], ◌∷◌,
  Option, none, some,
}
use libartnet.Base.{if◌then◌else◌, ◌==◌, ltb, take, drop, memcpy, replicate}
use libartnet.Firmware.{FirmwareStatus, block_good, all_good, fail}
use libartnet.Packet.{Packet, byte}
use libartnet.Transmit.{Tx, TxState}
use libartnet.Transmit.Files.{artnet_tx_directory_reply}
use libartnet.Wire.{artnet_misc_nbytes_to_32}

-- What ArtFileTnMaster does: nothing where its callback takes it, or a reply, and the call of the
-- firmware callback with the 512 words, as bytes, and the number of words that are valid.
pub record FileOutcome : Type 0 where
  pub reply : Option FirmwareStatus
  pub call : Option (List ℕ × ℕ)

abbrev file_words : Packet → ℕ
file_words p = artnet_misc_nbytes_to_32 (byte p 16) (byte p 17) (byte p 18) (byte p 19)

-- `min(p->length - header, max_payload_bytes)`; a negative difference is refused as 0 is.
abbrev pub file_payload : Packet → ℕ
file_payload p = min (p.length - (1064 - 512 * 2)) (512 * 2)

-- The firmware callback, where it is set, with the answer that it gives: is it 0?
abbrev pub deliver : Option Bool → Packet → FileOutcome
deliver none p = record { reply = some all_good; call = none }
deliver (some accepts) p = record {
  reply = some (if accepts then all_good else fail);
  call =
      some (memcpy (replicate (512 * 2) 0) (drop 40 p.bytes) (file_payload p), file_payload p / 2);
}

abbrev refused_file : FileOutcome
refused_file = record { reply = some fail; call = none }

-- `handle_file_tn_master`
unfoldable pub handle_file_tn_master : Bool → Option Bool → Packet → FileOutcome
handle_file_tn_master handled firmware_c p =
    if handled
    then record { reply = none; call = none }
    else if file_words p == 0
    then refused_file
    else if file_payload p == 0 || not (file_payload p % 2 == 0)
    then refused_file
    else if ltb (file_words p) (file_payload p / 2)
    then refused_file
    else deliver firmware_c p

-- Is a 16-bit code from the packet the node's own, or 0xffff? `hi` and `lo` are the node's bytes.
unfoldable pub is_for : ℕ → ℕ → ℕ → ℕ → Bool
is_for code_hi code_lo hi lo =
    let code = code_hi * 256 + code_lo in code == 0xffff || code == hi * 256 + lo

-- `handle_command`: is the callback called? The node's manufacturer code decides.
unfoldable pub handle_command : TxState → Packet → Bool
handle_command s p = is_for (byte p 12) (byte p 13) s.esta_hi (s.esta_lo % 256)

-- `handle_trigger`: is the callback called? The node's OEM code decides.
unfoldable pub handle_trigger : TxState → Packet → Bool
handle_trigger s p = is_for (byte p 14) (byte p 15) s.oem_hi s.oem_lo

-- `handle_directory`: the requester is stored, and answered where the callback does not take the
-- packet.
unfoldable pub handle_directory : Bool → Packet → TxState → TxState × Option Tx
handle_directory handled p s =
    let s' = record s { reply_addr = p.from } in
    if handled then (s', none) else (s', some (artnet_tx_directory_reply s'))

-- `handle_file_fn_master`: the requester is stored for ArtFileFnReply.
unfoldable pub handle_file_fn_master : Packet → TxState → TxState
handle_file_fn_master p s = record s { reply_addr = p.from }

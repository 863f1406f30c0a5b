-- ===== src/Transmit/Accepted/All.antt =====
-- All calls of the functions that send one packet.
use libartnet.Base.{ℕ, ◌≤◌, ◌<◌, ◌%◌, ◌^◌, ◌≡◌, min, true, List, Option}
use libartnet.Packet.{PacketType}
use libartnet.Transmit.{Tx, TxState, ℤ, magnitude, Target}
use libartnet.Transmit.Rdm.{artnet_tx_tod_control, artnet_tx_rdm, artnet_tx_rdmsub}
use libartnet.Transmit.Clock.{
  artnet_tx_sync, artnet_tx_timecode, artnet_tx_timesync, artnet_tx_trigger,
}
use libartnet.Transmit.Data.{
  artnet_tx_diagdata, artnet_tx_data_request, artnet_tx_data_reply, artnet_tx_command,
}
use libartnet.Transmit.Files.{
  artnet_tx_firmware_reply, artnet_tx_directory_reply, artnet_tx_file_tn_master,
  artnet_tx_file_fn_master, artnet_tx_file_fn_reply,
}
use libartnet.Transmit.Media.{artnet_tx_media_patch, artnet_tx_media_control}
use libartnet.Transmit.Program.{artnet_tx_poll_ex, artnet_tx_ipprog, artnet_tx_ipprog_reply}
use libartnet.Transmit.Accepted.Texts.{Ends, is_priority, request_is_known}

-- A call, with its arguments
pub data Call : Type 0 where
  poll_ex : (ip : Target) (flags priority top bottom esta_man oem : ℕ) → Call
  tod_control : (address action : ℕ) → Call
  rdm : (address : ℕ) (message : Option (List ℕ)) (len : ℤ) → Call
  rdmsub :
      (uid : Option ℕ) (command_class param_id sub_device sub_count : ℕ) (message : Option (List ℕ))
      (len : ℤ)
      → Call
  diagdata : (priority logical_port : ℕ) (text : Option (List ℕ)) → Call
  firmware_reply : (ip code : ℕ) → Call
  sync : Call
  data_request : (ip : Target) (code : ℕ) → Call
  ipprog : (ip bits : ℕ) (prog_ip subnet_mask gateway : Target) → Call
  data_reply : (ip : Target) (code : ℕ) (payload : Option (List ℕ)) (len : ℤ) → Call
  command : (esta_man : ℕ) (text : Option (List ℕ)) (len : ℤ) (ip : Target) → Call
  timecode : (frames seconds minutes hours type stream_id : ℕ) → Call
  timesync : (tm_sec tm_min tm_hour tm_mday tm_mon tm_year : ℕ) → Call
  trigger : (oem_hi oem_lo key sub_key : ℕ) (payload : Option (List ℕ)) (len : ℤ) → Call
  media_patch : (ip physical universe : ℕ) (payload : Option (List ℕ)) (len : ℤ) → Call
  media_control : (ip : ℕ) (type : PacketType) (payload : Option (List ℕ)) (len : ℤ) → Call
  directory_reply ipprog_reply : Call
  file_tn_master : (ip type block_id total_length : ℕ) (words : Option (List ℕ)) (len : ℤ) → Call
  file_fn_master : (ip : ℕ) (filename : Option (List ℕ)) → Call
  file_fn_reply : (block_id total_length : ℕ) (file_bytes : Option (List ℕ)) (len : ℤ) → Call

unfoldable pub run : (ℕ → ℕ) → TxState → Call → Tx
run ntohl s (poll_ex ip flags priority top bottom esta_man oem) =
    artnet_tx_poll_ex s ip flags priority top bottom esta_man oem
run ntohl s (tod_control address action) = artnet_tx_tod_control s address action
run ntohl s (rdm address message len) = artnet_tx_rdm s address message len
run ntohl s (rdmsub uid command_class param_id sub_device sub_count message len) =
    artnet_tx_rdmsub s uid command_class param_id sub_device sub_count message len
run ntohl s (diagdata priority logical_port text) = artnet_tx_diagdata s priority logical_port text
run ntohl s (firmware_reply ip code) = artnet_tx_firmware_reply ip code
run ntohl s sync = artnet_tx_sync s
run ntohl s (data_request ip code) = artnet_tx_data_request s ip code
run ntohl s (ipprog ip bits prog_ip subnet_mask gateway) =
    artnet_tx_ipprog ntohl s ip bits prog_ip subnet_mask gateway
run ntohl s (data_reply ip code payload len) = artnet_tx_data_reply s ip code payload len
run ntohl s (command esta_man text len ip) = artnet_tx_command s esta_man text len ip
run ntohl s (timecode frames seconds minutes hours type stream_id) =
    artnet_tx_timecode s frames seconds minutes hours type stream_id
run ntohl s (timesync tm_sec tm_min tm_hour tm_mday tm_mon tm_year) =
    artnet_tx_timesync s tm_sec tm_min tm_hour tm_mday tm_mon tm_year
run ntohl s (trigger oem_hi oem_lo key sub_key payload len) =
    artnet_tx_trigger s oem_hi oem_lo key sub_key payload len
run ntohl s (media_patch ip physical universe payload len) =
    artnet_tx_media_patch s ip physical universe payload len
run ntohl s (media_control ip type payload len) = artnet_tx_media_control s ip type payload len
run ntohl s directory_reply = artnet_tx_directory_reply s
run ntohl s ipprog_reply = artnet_tx_ipprog_reply ntohl s
run ntohl s (file_tn_master ip type block_id total_length words len) =
    artnet_tx_file_tn_master s ip type block_id total_length words len
run ntohl s (file_fn_master ip filename) = artnet_tx_file_fn_master s ip filename
run ntohl s (file_fn_reply block_id total_length file_bytes len) =
    artnet_tx_file_fn_reply s block_id total_length file_bytes len

-- What the code leaves to the caller: the enumerated arguments have one of their values, a counter
-- or code is a uint16_t, a text that is sent as it is ends with a zero, and a block of a file is
-- even and not longer than the file.
abbrev pub Conforms : Call → Type 0
Conforms (tod_control address action) = action ≤ 4
Conforms (rdmsub uid command_class param_id sub_device sub_count message len) = sub_count < 2 ^ 16
Conforms (diagdata priority logical_port text) = is_priority priority ≡ true
Conforms (data_request ip code) = (code < 2 ^ 16) × (request_is_known code ≡ true)
Conforms (data_reply ip code payload len) =
    (code < 2 ^ 16) × (request_is_known code ≡ true) × Ends payload (min (magnitude len) 512)
Conforms (command esta_man text len ip) = Ends text (magnitude len)
Conforms (file_fn_reply block_id total_length file_bytes len) =
    (min (magnitude len) 1024 % 2 ≡ 0)
    × (min (magnitude len) 1024 ≤ total_length)
    × (total_length < 2 ^ 16)
Conforms _ = Unit {0}

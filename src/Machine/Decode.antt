-- ===== src/Machine/Decode.antt =====
-- How `handle` (artnet/receive.c) reads a packet's bytes as an `artnet_reply_t`, an
-- `artnet_firmware_t` and an `artnet_firmware_reply_t` (artnet/packets.h).
use libartnet.Base.{ℕ, true, false, List, if◌then◌else◌, ◌==◌, take, drop}
use libartnet.Firmware.{FirmwareType, first, cont, last, unknown, FirmwarePacket}
use libartnet.NodeList.Entry.{PollReply}
use libartnet.Packet.{Packet, byte}

-- `n` bytes of a packet, from byte `at` on
abbrev pub field : Packet → ℕ → ℕ → List ℕ
field p at n = take n (drop at p.bytes)

unfoldable pub poll_reply_of : Packet → PollReply
poll_reply_of p = record {
  ip = field p 10 4;
  ver_h = byte p 16;
  ver = byte p 17;
  net_switch = byte p 18;
  sub_switch = byte p 19;
  oem_h = byte p 20;
  oem = byte p 21;
  ubea = byte p 22;
  status = byte p 23;
  esta_man = field p 24 2;
  short_name = field p 26 18;
  long_name = field p 44 64;
  node_report = field p 108 64;
  numbports_h = byte p 172;
  numbports = byte p 173;
  port_types = field p 174 4;
  good_input = field p 178 4;
  good_output_a = field p 182 4;
  sw_in = field p 186 4;
  sw_out = field p 190 4;
  acn_priority = byte p 194;
  sw_macro = byte p 195;
  sw_remote = byte p 196;
  style = byte p 200;
  mac = field p 201 6;
  bind_ip = field p 207 4;
  bind_index = byte p 211;
  status2 = byte p 212;
  good_output_b = field p 213 4;
  status3 = byte p 217;
  default_resp_uid = field p 218 6;
  user_hi = byte p 224;
  user_lo = byte p 225;
  refresh_rate_hi = byte p 226;
  refresh_rate_lo = byte p 227;
  bg_queue_policy = byte p 228;
}

-- The byte `type` of an ArtFirmwareMaster
unfoldable pub firmware_type : ℕ → FirmwareType
firmware_type type =
    if type == 0
    then first false
    else if type == 1
    then cont false
    else if type == 2
    then last false
    else if type == 3
    then first true
    else if type == 4
    then cont true
    else if type == 5
    then last true
    else unknown

unfoldable pub firmware_packet : Packet → FirmwarePacket
firmware_packet p = record {
  from = p.from;
  packet_length = p.length;
  type = firmware_type (byte p 14);
  block_id = byte p 15;
  length0 = byte p 16;
  length1 = byte p 17;
  length2 = byte p 18;
  length3 = byte p 19;
  payload = drop 40 p.bytes;
}

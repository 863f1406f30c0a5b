-- ===== src/Packet/Fields.antt =====
-- `packet_fields_are_valid` (artnet/receive.c): the protocol version, then a check for each type.
-- Each check is `not` of the conditions under which the code returns FALSE.
use libartnet.Base.{ℕ, ◌+◌, ◌*◌, ◌-◌, ◌%◌, bit_and, Bool, true, false, ◌&&◌, ◌||◌, not}
use libartnet.Base.{if◌then◌else◌, ◌==◌, ltb, leb}
use libartnet.Packet.{PacketType, Packet, byte, short}
use libartnet.Packet.{dmx, nzs, data_reply, data_request, diag_data, command, address, input}
use libartnet.Packet.{
  tod_request, tod_data, tod_control, rdm, rdm_sub, time_code, time_sync, trigger,
}
use libartnet.Packet.{directory_reply, file_fn_master, file_fn_reply, media_patch, reply}

abbrev between : ℕ → ℕ → ℕ → Bool
between lo hi n = leb lo n && leb n hi

unfoldable pub dmx_is_valid : Packet → Bool
dmx_is_valid p =
    let payload_length = short p 16 17 in
    not (ltb payload_length 2 || ltb 512 payload_length || not (bit_and payload_length 1 == 0))
    && not (ltb p.length (18 + payload_length))

-- A VLC packet, start code 0x91, has its own header in the data.
unfoldable pub vlc_is_valid : Packet → ℕ → Bool
vlc_is_valid p payload_length =
    leb 22 payload_length
    && short p 26 27 == payload_length - 22
    && byte p 18 == 0x41
    && byte p 19 == 0x4c
    && byte p 20 == 0x45

unfoldable pub nzs_is_valid : Packet → Bool
nzs_is_valid p =
    let payload_length = short p 16 17 in
    not (ltb payload_length 1 || ltb 512 payload_length)
    && not (ltb p.length (18 + payload_length))
    && not (byte p 13 == 0x00 || byte p 13 == 0xcc)
    && (if byte p 13 == 0x91 then vlc_is_valid p payload_length else true)

abbrev request_is_valid : Packet → Bool
request_is_valid p = not (ltb 0x0005 (short p 16 17) && ltb (short p 16 17) 0x8000)

unfoldable pub data_reply_is_valid : Packet → Bool
data_reply_is_valid p =
    let payload_length = short p 18 19 in
    request_is_valid p
    && not (ltb 512 payload_length)
    && not (ltb p.length (20 + payload_length))
    && not (ltb 0 payload_length && not (byte p (20 + (payload_length - 1)) == 0))

unfoldable pub data_request_is_valid : Packet → Bool
data_request_is_valid p = request_is_valid p

-- A text of `length` bytes from `header` on, ended by a zero; none for length 0.
abbrev text_is_valid : Packet → ℕ → ℕ → Bool
text_is_valid p header len =
    not (ltb len 1 || ltb 512 len)
    && not (ltb p.length (header + len))
    && byte p (header + (len - 1)) == 0

unfoldable pub diag_data_is_valid : Packet → Bool
diag_data_is_valid p =
    let payload_length = short p 16 17 in
    if payload_length == 0
    then true
    else (byte p 13 == 0x10
        || byte p 13 == 0x40
        || byte p 13 == 0x80
        || byte p 13 == 0xe0
        || byte p 13 == 0xf0)
      && text_is_valid p 18 payload_length

unfoldable pub command_is_valid : Packet → Bool
command_is_valid p =
    let payload_length = short p 14 15 in
    if payload_length == 0 then true else text_is_valid p 16 payload_length

unfoldable pub address_is_valid : Packet → Bool
address_is_valid p = not (byte p 13 == 0) && not (not (byte p 105 == 0xff) && ltb 200 (byte p 105))

unfoldable pub input_is_valid : Packet → Bool
input_is_valid p = not (byte p 13 == 0 || not (byte p 14 == 0))

unfoldable pub tod_request_is_valid : Packet → Bool
tod_request_is_valid p = not (not (byte p 22 == 0) || ltb 32 (byte p 23))

unfoldable pub tod_data_is_valid : Packet → Bool
tod_data_is_valid p =
    byte p 12 == 1
    && between 1 4 (byte p 13)
    && not (byte p 20 == 0)
    && (byte p 22 == 0 || byte p 22 == 0xff)
    && leb (byte p 27) 200
    && not (ltb p.length (28 + byte p 27 * 6))

unfoldable pub tod_control_is_valid : Packet → Bool
tod_control_is_valid p = leb (byte p 22) 4

unfoldable pub rdm_is_valid : Packet → Bool
rdm_is_valid p = byte p 12 == 1 && byte p 22 == 0

unfoldable pub rdm_sub_is_valid : Packet → Bool
rdm_sub_is_valid p = byte p 12 == 1 && not (byte p 26 == 0 && byte p 27 == 0)

unfoldable pub time_code_is_valid : Packet → Bool
time_code_is_valid p =
    leb (byte p 18) 3
    && leb (byte p 14) 29
    && leb (byte p 15) 59
    && leb (byte p 16) 59
    && leb (byte p 17) 23

unfoldable pub time_sync_is_valid : Packet → Bool
time_sync_is_valid p =
    leb (byte p 14) 59
    && leb (byte p 15) 59
    && leb (byte p 16) 23
    && leb 1 (byte p 17)
    && leb (byte p 17) 31
    && leb (byte p 18) 11

unfoldable pub directory_reply_is_valid : Packet → Bool
directory_reply_is_valid p = leb (short p 16 17) 2048 && not (ltb p.length (20 + short p 16 17))

unfoldable pub file_fn_master_is_valid : Packet → Bool
file_fn_master_is_valid p =
    let payload_length = short p 25 26 in
    between 1 255 payload_length
    && not (ltb p.length (27 + payload_length + 1))
    && byte p (27 + payload_length) == 0

unfoldable pub file_fn_reply_is_valid : Packet → Bool
file_fn_reply_is_valid p =
    let payload_length = p.length - 28 in
    leb 28 p.length
    && leb payload_length 1024
    && payload_length % 2 == 0
    && leb payload_length (short p 25 26)

unfoldable pub media_patch_is_valid : Packet → Bool
media_patch_is_valid p = between 1 512 (short p 15 16) && not (ltb p.length (17 + short p 15 16))

-- The second `switch`
unfoldable pub type_is_valid : PacketType → Packet → Bool
type_is_valid dmx p = dmx_is_valid p
type_is_valid nzs p = nzs_is_valid p
type_is_valid data_reply p = data_reply_is_valid p
type_is_valid data_request p = data_request_is_valid p
type_is_valid diag_data p = diag_data_is_valid p
type_is_valid command p = command_is_valid p
type_is_valid address p = address_is_valid p
type_is_valid input p = input_is_valid p
type_is_valid tod_request p = tod_request_is_valid p
type_is_valid tod_data p = tod_data_is_valid p
type_is_valid tod_control p = tod_control_is_valid p
type_is_valid rdm p = rdm_is_valid p
type_is_valid rdm_sub p = rdm_sub_is_valid p
type_is_valid time_code p = time_code_is_valid p
type_is_valid time_sync p = time_sync_is_valid p
type_is_valid trigger p = leb (byte p 16) 3
type_is_valid directory_reply p = directory_reply_is_valid p
type_is_valid file_fn_master p = file_fn_master_is_valid p
type_is_valid file_fn_reply p = file_fn_reply_is_valid p
type_is_valid media_patch p = media_patch_is_valid p
type_is_valid _ p = true

abbrev pub is_reply : PacketType → Bool
is_reply reply = true
is_reply _ = false

-- `packet_fields_are_valid`; ArtPollReply has no protocol version. The version of an ArtIpProgReply
-- stands at the same offsets.
unfoldable pub packet_fields_are_valid : Packet → Bool
packet_fields_are_valid p =
    if is_reply p.type then true else not (ltb (short p 10 11) 14) && type_is_valid p.type p

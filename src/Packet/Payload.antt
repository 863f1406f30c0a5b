-- ===== src/Packet/Payload.antt =====
-- What the two checks of `handle` guarantee: for which types of packet the payload that a packet
-- announces was received.
use libartnet.Base.{ℕ, ◌≤◌, ◌+◌, ◌*◌, ◌≡◌, refl, arith, Bool, true, false, ◌&&◌, not}
use libartnet.Base.{if◌then◌else◌, leb, ltb}
use libartnet.Packet.{PacketType, Packet, short, byte, min_len, packet_length_is_valid}
use libartnet.Packet.{reply, data_reply, dmx}
use libartnet.Packet.{tod_request, tod_data, diag_data, command, nzs}
use libartnet.Packet.{directory_reply}
use libartnet.Packet.{file_fn_master, media_patch}
use libartnet.Packet.Fields.{
  is_reply, type_is_valid, packet_fields_are_valid, dmx_is_valid, nzs_is_valid,
}
use libartnet.Packet.Fields.{data_reply_is_valid, diag_data_is_valid, command_is_valid}
use libartnet.Packet.Fields.{tod_data_is_valid, directory_reply_is_valid, file_fn_master_is_valid}
use libartnet.Packet.Fields.{media_patch_is_valid}

-- Where the payload that the packet announces ends, from the Art-Net field tables; for the types
-- that announce none, the end of their fixed fields. ArtRdmSub, whose payload also depends on the
-- RDM command in it, stands with its fixed fields.
unfoldable pub payload_end : PacketType → Packet → ℕ
payload_end dmx p = 18 + short p 16 17
payload_end nzs p = 18 + short p 16 17
payload_end data_reply p = 20 + short p 18 19
payload_end diag_data p = 18 + short p 16 17
payload_end command p = 16 + short p 14 15
payload_end tod_request p = 24 + byte p 23
payload_end tod_data p = 28 + 6 * byte p 27
payload_end directory_reply p = 20 + short p 16 17
payload_end file_fn_master p = 27 + (short p 25 26 + 1)
payload_end media_patch p = 17 + short p 15 16
payload_end t p = min_len t

-- The types whose announced payload the checks compare with what was received. ArtTodRequest, with
-- its count of addresses, and ArtRdmSub are not among them.
abbrev pub checks_payload : PacketType → Bool
checks_payload dmx = true
checks_payload nzs = true
checks_payload data_reply = true
checks_payload diag_data = true
checks_payload command = true
checks_payload tod_data = true
checks_payload directory_reply = true
checks_payload file_fn_master = true
checks_payload media_patch = true
checks_payload _ = false

payload_of_type :
    (t : PacketType) (p : Packet)
    → checks_payload t ≡ true
    → leb (min_len t) p.length ≡ true
    → type_is_valid t p ≡ true
    → payload_end t p ≤ p.length
unfolding payload_end min_len type_is_valid dmx_is_valid nzs_is_valid data_reply_is_valid
    diag_data_is_valid command_is_valid tod_data_is_valid directory_reply_is_valid
    file_fn_master_is_valid media_patch_is_valid
payload_of_type dmx p c l f = ground arith
payload_of_type nzs p c l f = ground arith
payload_of_type data_reply p c l f = ground arith
payload_of_type diag_data p c l f = ground arith
payload_of_type command p c l f = ground arith
payload_of_type tod_data p c l f = ground arith
payload_of_type directory_reply p c l f = ground arith
payload_of_type file_fn_master p c l f = ground arith
payload_of_type media_patch p c l f = ground arith
payload_of_type _ p c l f = absurd (cc c)

second : (a b : Bool) → (a && b) ≡ true → b ≡ true
second true b h = h
second false b h = absurd (cc h)

-- The second `switch` of `packet_fields_are_valid` was passed.
fields_of_type :
    (t : PacketType) (p : Packet)
    → (if is_reply t then true else not (ltb (short p 10 11) 14) && type_is_valid t p) ≡ true
    → type_is_valid t p ≡ true
unfolding type_is_valid
fields_of_type reply p f = refl
fields_of_type t p f = second (not (ltb (short p 10 11) 14)) (type_is_valid t p) f

-- A packet that passes both checks of `handle` has at least the length of its type.
pub length_received : (p : Packet) → packet_length_is_valid p ≡ true → min_len p.type ≤ p.length
unfolding packet_length_is_valid
length_received p l = ground arith

-- A packet that passes both checks of `handle`, of a type whose payload they check, has received
-- every byte of the payload that its own fields announce: the DMX slots, the texts, the UIDs, the
-- file name, the directory entries.
pub payload_received :
    (p : Packet)
    → checks_payload p.type ≡ true
    → packet_length_is_valid p ≡ true
    → packet_fields_are_valid p ≡ true
    → payload_end p.type p ≤ p.length
unfolding packet_length_is_valid packet_fields_are_valid
payload_received p c l f = payload_of_type p.type p c l (fields_of_type p.type p f)

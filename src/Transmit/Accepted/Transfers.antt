-- ===== src/Transmit/Accepted/Transfers.antt =====
-- The packets of Transmit/Files, Transmit/Media and Transmit/Program are accepted.
use libartnet.Base.{
  ℕ, ◌+◌, ◌-◌, ◌*◌, ◌≤◌, ◌<◌, ◌%◌, ◌^◌, ◌≡◌, refl, arith, min, length, Bool-cases, inl, inr,
}
use libartnet.Base.{◌==◌, ◌||◌, not, ltb, List, Option, none, some, if◌then◌else◌}
use libartnet.Packet.{PacketType, opcode_type, packet_length_is_valid, min_len}
use libartnet.Packet.{
  firmware_reply, directory_reply, file_tn_master, file_fn_master, file_fn_reply, media_patch,
  media_control, media_control_reply, poll, ip_prog, ip_reply,
}
use libartnet.Packet.Fields.{
  packet_fields_are_valid, type_is_valid, directory_reply_is_valid, file_fn_master_is_valid,
  file_fn_reply_is_valid, media_patch_is_valid,
}
use libartnet.Port.{has_bit}
use libartnet.Transmit.{
  send_to, TxState, ℤ, is_negative, is_missing, magnitude, content, Target, no_target, bad_target,
  target,
}
use libartnet.Transmit.Accepted.{Passes, refused, guard-Passes, sent-Passes, version}
use libartnet.Transmit.Accepted.Texts.{get_or-memcpy_behind}
use libartnet.Transmit.Files.{
  artnet_tx_firmware_reply, artnet_tx_directory_reply, artnet_tx_file_tn_master,
  artnet_tx_file_fn_master, artnet_tx_file_fn_reply, firmware_reply_bytes, directory_reply_bytes,
  file_tn_bytes, file_fn_bytes, file_fn_reply_bytes,
}
use libartnet.Transmit.Media.{
  artnet_tx_media_patch, artnet_tx_media_control, media_patch_bytes, media_control_bytes,
  media_control_with, media_opcode,
}
use libartnet.Transmit.Program.{
  artnet_tx_poll_ex, artnet_tx_ipprog, artnet_tx_ipprog_reply, poll_target, poll_bytes,
  ip_prog_bytes, ip_reply_bytes, polls, prog_fails,
}
use libartnet.Wire.{bytes_to_short}
use libartnet.Wire.Misc.{bytes_to_short-get_bytes}

pub firmware_reply-Passes : (ip code : ℕ) → Passes (artnet_tx_firmware_reply ip code)
unfolding artnet_tx_firmware_reply opcode_type packet_length_is_valid min_len
    packet_fields_are_valid type_is_valid
firmware_reply-Passes ip code =
    sent-Passes ip 36 firmware_reply (firmware_reply_bytes code) (omega arith) refl refl refl
      (rw version refl)

no_entries : bytes_to_short 0 0 ≡ 0
unfolding bytes_to_short
no_entries = refl

pub directory_reply-Passes : (s : TxState) → Passes (artnet_tx_directory_reply s)
unfolding artnet_tx_directory_reply opcode_type packet_length_is_valid min_len
    packet_fields_are_valid type_is_valid directory_reply_is_valid
directory_reply-Passes s = guard-Passes (not s.mode_on) _ _ (λ on.
    guard-Passes (s.reply_addr == 0) _ _ (λ someone.
      sent-Passes s.reply_addr 2068 directory_reply directory_reply_bytes (omega arith) refl refl
        refl (rw (version, no_entries) refl)))

pub file_tn-Passes :
    (s : TxState) (ip type block_id total_length : ℕ) (words : Option (List ℕ)) (len : ℤ)
    → Passes (artnet_tx_file_tn_master s ip type block_id total_length words len)
unfolding artnet_tx_file_tn_master opcode_type packet_length_is_valid min_len
    packet_fields_are_valid type_is_valid
file_tn-Passes s ip type block_id total_length words len =
    let n = min (magnitude len) 512 in
    guard-Passes (not s.mode_on) _ _ (λ on.
      guard-Passes (is_negative len || is_missing len words) _ _ (λ valid.
        sent-Passes ip (1064 - 512 * 2 + n * 2) file_tn_master
          (file_tn_bytes type block_id total_length (content words) n) (omega arith) refl refl
          (ground arith) (rw version refl)))

file_fn_sent :
    (ip : ℕ) (filename : List ℕ) (n : ℕ)
    → 1 ≤ n
    → n ≤ 255
    → Passes (send_to ip 283 file_fn_master (file_fn_bytes filename n))
unfolding opcode_type packet_length_is_valid min_len packet_fields_are_valid type_is_valid
    file_fn_master_is_valid
file_fn_sent ip filename n some_name small =
    sent-Passes ip 283 file_fn_master (file_fn_bytes filename n) (omega arith) refl refl refl (
      rw (version, bytes_to_short-get_bytes n (omega arith))
        (ground (arith, get_or-memcpy_behind 256 n n filename (omega arith))))

pub file_fn-Passes :
    (s : TxState) (ip : ℕ) (filename : Option (List ℕ))
    → Passes (artnet_tx_file_fn_master s ip filename)
unfolding artnet_tx_file_fn_master
file_fn-Passes s ip none = guard-Passes (not s.mode_on) _ _ (λ on. refused _)
file_fn-Passes s ip (some filename) = guard-Passes (not s.mode_on) _ _ (λ on.
    guard-Passes (length filename == 0) _ _ (λ named.
      file_fn_sent ip filename (if ltb 255 (length filename) then 255 else length filename)
        (ground arith) (ground arith)))

file_fn_reply_sent :
    (to block_id total_length : ℕ) (file_bytes : List ℕ) (n : ℕ)
    → n ≤ 1024
    → n % 2 ≡ 0
    → n ≤ total_length
    → total_length < 2 ^ 16
    → Passes (
        send_to to
          (1052 - 512 * 2 + n)
          file_fn_reply
          (file_fn_reply_bytes block_id total_length file_bytes n))
unfolding opcode_type packet_length_is_valid min_len packet_fields_are_valid type_is_valid
    file_fn_reply_is_valid
file_fn_reply_sent to block_id total_length file_bytes n small even fits h =
    let payload : 1052 - 512 * 2 + n - 28 ≡ n = omega arith in
    sent-Passes to (1052 - 512 * 2 + n) file_fn_reply
      (file_fn_reply_bytes block_id total_length file_bytes n) (omega arith) refl refl
      (ground arith) (rw (version, bytes_to_short-get_bytes total_length h) (ground arith))

pub file_fn_reply-Passes :
    (s : TxState) (block_id total_length : ℕ) (file_bytes : Option (List ℕ)) (len : ℤ)
    → min (magnitude len) 1024 % 2 ≡ 0
    → min (magnitude len) 1024 ≤ total_length
    → total_length < 2 ^ 16
    → Passes (artnet_tx_file_fn_reply s block_id total_length file_bytes len)
unfolding artnet_tx_file_fn_reply
file_fn_reply-Passes s block_id total_length file_bytes len even fits h =
    guard-Passes (not s.mode_on) _ _ (λ on. guard-Passes (s.reply_addr == 0) _ _ (λ someone.
      guard-Passes (is_negative len || is_missing len file_bytes) _ _ (λ valid.
        file_fn_reply_sent s.reply_addr block_id total_length (content file_bytes)
          (min (magnitude len) 1024) (omega arith) even fits h)))

media_patch_sent :
    (ip physical universe : ℕ) (payload : List ℕ) (n : ℕ)
    → 1 ≤ n
    → n ≤ 512
    → Passes
        (send_to ip (529 - 512 + n) media_patch (media_patch_bytes physical universe payload n))
unfolding opcode_type packet_length_is_valid min_len packet_fields_are_valid type_is_valid
    media_patch_is_valid
media_patch_sent ip physical universe payload n some_data small =
    sent-Passes ip (529 - 512 + n) media_patch (media_patch_bytes physical universe payload n)
      (omega arith) refl refl (ground arith)
      (rw (version, bytes_to_short-get_bytes n (omega arith)) (ground arith))

pub media_patch-Passes :
    (s : TxState) (ip physical universe : ℕ) (payload : Option (List ℕ)) (len : ℤ)
    → Passes (artnet_tx_media_patch s ip physical universe payload len)
unfolding artnet_tx_media_patch
media_patch-Passes s ip physical universe none len =
    guard-Passes (not s.mode_on) _ _ (λ on. refused _)
media_patch-Passes s ip physical universe (some payload) len =
    guard-Passes (not s.mode_on) _ _ (λ on.
      guard-Passes (ltb (magnitude len) 1 || ltb 512 (magnitude len)) _ _ (λ valid.
        media_patch_sent ip physical universe payload (magnitude len) (ground arith)
          (ground arith)))

media_with-Passes :
    (ip : ℕ) (type : PacketType) (payload : Option (List ℕ)) (len : ℤ)
    → Passes (media_control_with (media_opcode type) ip type payload len)
unfolding opcode_type packet_length_is_valid min_len packet_fields_are_valid type_is_valid
media_with-Passes ip media_control payload len =
    let n = magnitude len in
    guard-Passes (is_negative len || ltb 512 n || is_missing len payload) _ _ (λ valid.
      sent-Passes ip (538 - 512 + n) media_control (media_control_bytes 0x92 (content payload) n)
        (omega arith) refl refl (ground arith) (rw version refl))
media_with-Passes ip media_control_reply payload len =
    let n = magnitude len in
    guard-Passes (is_negative len || ltb 512 n || is_missing len payload) _ _ (λ valid.
      sent-Passes ip (538 - 512 + n) media_control_reply
        (media_control_bytes 0x93 (content payload) n) (omega arith) refl refl (ground arith)
        (rw version refl))
media_with-Passes ip _ payload len = refused _

pub media_control-Passes :
    (s : TxState) (ip : ℕ) (type : PacketType) (payload : Option (List ℕ)) (len : ℤ)
    → Passes (artnet_tx_media_control s ip type payload len)
unfolding artnet_tx_media_control
media_control-Passes s ip type payload len =
    guard-Passes (not s.mode_on) _ _ (λ on. media_with-Passes ip type payload len)

poll_sent :
    (to flags priority top bottom esta_man oem : ℕ)
    → Passes (send_to to 22 poll (poll_bytes flags priority top bottom esta_man oem))
unfolding opcode_type packet_length_is_valid min_len packet_fields_are_valid type_is_valid
poll_sent to flags priority top bottom esta_man oem =
    sent-Passes to 22 poll (poll_bytes flags priority top bottom esta_man oem) (omega arith) refl
      refl refl (rw version refl)

to_target-Passes :
    (s : TxState) (ip : Target) (flags priority top bottom esta_man oem : ℕ)
    → Passes (poll_target s ip (poll_bytes flags priority top bottom esta_man oem))
to_target-Passes s no_target flags priority top bottom esta_man oem =
    poll_sent s.bcast_addr flags priority top bottom esta_man oem
to_target-Passes s bad_target flags priority top bottom esta_man oem = refused _
to_target-Passes s (target to) flags priority top bottom esta_man oem =
    poll_sent to flags priority top bottom esta_man oem

pub poll-Passes :
    (s : TxState) (ip : Target) (flags priority top bottom esta_man oem : ℕ)
    → Passes (artnet_tx_poll_ex s ip flags priority top bottom esta_man oem)
unfolding artnet_tx_poll_ex
poll-Passes s ip flags priority top bottom esta_man oem = guard-Passes (not s.mode_on) _ _ (λ on.
    elim (Bool-cases (polls s.node_type)) [
      | inl does ↦ rw does (to_target-Passes s ip flags priority top bottom esta_man oem)
      | inr not_allowed ↦ rw not_allowed (refused _)
    ])

pub ipprog-Passes :
    (ntohl : ℕ → ℕ) (s : TxState) (ip command : ℕ) (prog_ip subnet_mask gateway : Target)
    → Passes (artnet_tx_ipprog ntohl s ip command prog_ip subnet_mask gateway)
unfolding artnet_tx_ipprog opcode_type packet_length_is_valid min_len packet_fields_are_valid
    type_is_valid
ipprog-Passes ntohl s ip command prog_ip subnet_mask gateway =
    guard-Passes (not s.mode_on) _ _ (λ on.
      guard-Passes
        (prog_fails (has_bit command 0x04) prog_ip
          || prog_fails (has_bit command 0x02) subnet_mask
          || prog_fails (has_bit command 0x10) gateway)
        _ _
        (λ valid.
          sent-Passes ip 34 ip_prog (ip_prog_bytes ntohl command prog_ip subnet_mask gateway)
            (omega arith) refl refl refl (rw version refl)))

pub ipprog_reply-Passes : (ntohl : ℕ → ℕ) (s : TxState) → Passes (artnet_tx_ipprog_reply ntohl s)
unfolding artnet_tx_ipprog_reply opcode_type packet_length_is_valid min_len packet_fields_are_valid
    type_is_valid
ipprog_reply-Passes ntohl s = guard-Passes (not s.mode_on) _ _ (λ on.
    guard-Passes (s.reply_addr == 0) _ _ (λ someone.
      sent-Passes s.reply_addr 34 ip_reply (ip_reply_bytes ntohl s) (omega arith) refl refl refl
        (rw version refl)))

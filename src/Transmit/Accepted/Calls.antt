-- ===== src/Transmit/Accepted/Calls.antt =====
-- Each function of the children of Transmit sends only what a node accepts.
use libartnet.Base.{
  ℕ, ◌+◌, ◌-◌, ◌≤◌, ◌<◌, ◌^◌, ◌≡◌, refl, arith, min, and_mask, and_high, ◌/◌, ◌&&◌,
}
use libartnet.Base.{◌==◌, ◌||◌, not, ltb, false, List, Option, none, some}
use libartnet.Packet.{opcode_type, packet_length_is_valid, min_len}
use libartnet.Packet.{tod_control, rdm, rdm_sub, sync, time_code, time_sync, trigger}
use libartnet.Packet.Fields.{
  packet_fields_are_valid, type_is_valid, tod_control_is_valid, rdm_is_valid, rdm_sub_is_valid,
  time_code_is_valid, time_sync_is_valid,
}
use libartnet.Transmit.{TxState, ℤ, is_negative, is_missing, magnitude, content}
use libartnet.Transmit.Accepted.{Passes, refused, guard-Passes, sent-Passes, version}
use libartnet.Transmit.Rdm.{
  artnet_tx_tod_control, artnet_tx_rdm, artnet_tx_rdmsub, tod_control_bytes, rdm_bytes,
  rdm_sub_bytes,
}
use libartnet.Transmit.Clock.{
  artnet_tx_sync, artnet_tx_timecode, artnet_tx_timesync, artnet_tx_trigger, sync_bytes,
  time_code_bytes, time_sync_bytes, trigger_bytes,
}
use libartnet.Wire.{short_get_high_byte, short_get_low_byte}

pub tod_control-Passes :
    (s : TxState) (address action : ℕ)
    → action ≤ 4
    → Passes (artnet_tx_tod_control s address action)
unfolding artnet_tx_tod_control opcode_type packet_length_is_valid min_len packet_fields_are_valid
    type_is_valid tod_control_is_valid
tod_control-Passes s address action known =
    sent-Passes s.bcast_addr 24 tod_control (tod_control_bytes address action) (omega arith) refl
      refl refl (rw version (ground arith))

pub timecode-Passes :
    (s : TxState) (frames seconds minutes hours type stream_id : ℕ)
    → Passes (artnet_tx_timecode s frames seconds minutes hours type stream_id)
unfolding artnet_tx_timecode opcode_type packet_length_is_valid min_len packet_fields_are_valid
    type_is_valid time_code_is_valid
timecode-Passes s frames seconds minutes hours type stream_id =
    guard-Passes (not s.mode_on) _ _ (λ on.
      guard-Passes (ltb 29 frames || ltb 59 seconds || ltb 59 minutes || ltb 23 hours || ltb 3 type)
        _ _
        (λ valid.
          sent-Passes s.bcast_addr 19 time_code
            (time_code_bytes frames seconds minutes hours type stream_id) (omega arith) refl refl
            refl (rw version (ground arith))))

pub rdm-Passes :
    (s : TxState) (address : ℕ) (message : Option (List ℕ)) (len : ℤ)
    → Passes (artnet_tx_rdm s address message len)
unfolding artnet_tx_rdm opcode_type packet_length_is_valid min_len packet_fields_are_valid
    type_is_valid rdm_is_valid
rdm-Passes s address message len = guard-Passes (s.rdm_reply_addr == 0) _ _ (λ someone.
    guard-Passes (is_negative len || is_missing len message) _ _ (λ valid.
      sent-Passes s.rdm_reply_addr (536 - 512 + min (magnitude len) 512) rdm
        (rdm_bytes address (content message) (min (magnitude len) 512)) (omega arith) refl refl
        (ground arith) (rw version refl)))

pub sync-Passes : (s : TxState) → Passes (artnet_tx_sync s)
unfolding artnet_tx_sync opcode_type packet_length_is_valid min_len packet_fields_are_valid
    type_is_valid
sync-Passes s = guard-Passes (not s.mode_on) _ _ (λ on.
    sent-Passes s.bcast_addr 14 sync sync_bytes (omega arith) refl refl refl (rw version refl))

pub timesync-Passes :
    (s : TxState) (tm_sec tm_min tm_hour tm_mday tm_mon tm_year : ℕ)
    → Passes (artnet_tx_timesync s tm_sec tm_min tm_hour tm_mday tm_mon tm_year)
unfolding artnet_tx_timesync opcode_type packet_length_is_valid min_len packet_fields_are_valid
    type_is_valid time_sync_is_valid
timesync-Passes s tm_sec tm_min tm_hour tm_mday tm_mon tm_year =
    guard-Passes (not s.mode_on) _ _ (λ on.
      guard-Passes
        (ltb 59 tm_sec
          || ltb 59 tm_min
          || ltb 23 tm_hour
          || ltb tm_mday 1
          || ltb 31 tm_mday
          || ltb 11 tm_mon)
        _ _
        (λ valid.
          sent-Passes s.bcast_addr 24 time_sync
            (time_sync_bytes tm_sec tm_min tm_hour tm_mday tm_mon tm_year) (omega arith) refl refl
            refl (rw version (ground arith))))

pub trigger-Passes :
    (s : TxState) (oem_hi oem_lo key sub_key : ℕ) (payload : Option (List ℕ)) (len : ℤ)
    → Passes (artnet_tx_trigger s oem_hi oem_lo key sub_key payload len)
unfolding artnet_tx_trigger opcode_type packet_length_is_valid min_len packet_fields_are_valid
    type_is_valid
trigger-Passes s oem_hi oem_lo key sub_key payload len = guard-Passes (not s.mode_on) _ _ (λ on.
    guard-Passes (ltb 3 key || is_negative len || ltb 512 (magnitude len) || is_missing len payload)
      _ _
      (λ valid.
        sent-Passes s.bcast_addr 530 trigger
          (trigger_bytes oem_hi oem_lo key sub_key (content payload) (magnitude len)) (omega arith)
          refl refl refl (rw version (ground arith))))

not_both :
    (x : ℕ)
    → x < 2 ^ 16
    → x == 0 ≡ false
    → (short_get_high_byte x == 0 && short_get_low_byte x == 0) ≡ false
unfolding short_get_high_byte short_get_low_byte
not_both x h positive = ground (arith, and_high 8 x 255, and_mask 8 (x / 2 ^ 8), and_mask 8 x)

pub rdmsub-Passes :
    (s : TxState) (uid : Option ℕ) (command_class param_id sub_device sub_count : ℕ)
    (message : Option (List ℕ)) (len : ℤ)
    → sub_count < 2 ^ 16
    → Passes (artnet_tx_rdmsub s uid command_class param_id sub_device sub_count message len)
unfolding artnet_tx_rdmsub opcode_type packet_length_is_valid min_len packet_fields_are_valid
    type_is_valid rdm_sub_is_valid
rdmsub-Passes s none command_class param_id sub_device sub_count message len small =
    guard-Passes (s.rdm_reply_addr == 0) _ _ (λ someone. refused _)
rdmsub-Passes s (some uid) command_class param_id sub_device sub_count message len small =
    guard-Passes (s.rdm_reply_addr == 0) _ _ (λ someone.
      guard-Passes (sub_count == 0 || is_negative len || is_missing len message) _ _ (λ valid.
        let n = min (magnitude len) 512 in
        sent-Passes s.rdm_reply_addr (544 - 512 + n) rdm_sub
          (rdm_sub_bytes uid command_class param_id sub_device sub_count (content message) n)
          (omega arith) refl refl (ground arith)
          (rw version (ground (arith, not_both sub_count small)))))

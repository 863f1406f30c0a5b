-- ===== src/Firmware/Sides.antt =====
-- The sender of an upload and its receiver in turn (`artnet_send_firmware` of artnet/artnet.c,
-- `handle_firmware` and `handle_firmware_reply` of artnet/receive.c): the sender's packets and the
-- receiver's replies, none lost.
use libartnet.Base.{
  ℕ, zero, suc, ◌+◌, ◌-◌, ◌*◌, ◌/◌, ◌%◌, ◌≤◌, ◌<◌, ◌≡◌, refl, ◌∙◌, ap, ◌≢◌, arith, Bool, true,
  false,
}
use libartnet.Base.{
  ◌⊎◌, Option, none, some, List, memcpy, memcpy_at, ltb, ◌==◌, if◌then◌else◌, inl, inr,
}
use libartnet.Base
use libartnet.Firmware.{Transfer, FirmwarePacket, FirmwareStatus}
use libartnet.Firmware.Receive.{handle_firmware, firmware_timeout, Upload}
use libartnet.Firmware.Send.{packet_of, sent, handle_firmware_reply, Notice}
use libartnet.Firmware.Steps.{sender_at}
use libartnet.Time.{artnet_is_timeout, firmware_timeout_ms}
use libartnet.Base.{Bool-cases}

-- How an exchange ends: the receiver's callback and the sender's; or malloc failed at the receiver;
-- or the rounds ran out.
pub data End : Type 0 where
  ended : Option Upload → Notice → End
  no_memory : End
  running : End

-- Each packet of an image arrives within the firmware time-out, counted from the first: `clock k` is
-- the time of packet `k`.
unfoldable pub IsInTime : (ℕ → ℕ) → List ℕ → Type 0
IsInTime clock image =
    (k : ℕ)
    → k * 1024 < Base.length image
    → artnet_is_timeout (clock k) (clock 0) firmware_timeout_ms ≡ false

module _ (from : ℕ) (clock : ℕ → ℕ) (cells : List ℕ) where
  -- The sender `s` takes the reply at the time `now`; `next` goes on with its packet.
  unfoldable pub react :
      (Transfer → FirmwarePacket → Transfer → End)
      → ℕ
      → Option FirmwareStatus
      → Option Upload
      → Transfer
      → Transfer
      → End
  react next now none up s r = no_memory
  react next now (some status) up s r =
      let (s', more, notice) = handle_firmware_reply now status s in
      if more then next s' (packet_of from s) r else ended up notice

  -- At most `fuel` packets, the first of them `p`, the `k`th of the upload, which the sender `s` has
  -- just sent. As `artnet_read` does, the receiver runs the time-outs before each packet. Its
  -- malloc, called once, gives `cells`. The sender keeps the receiver's entry, which
  -- holds the transfer, in its node list.
  unfoldable pub exchange : ℕ → ℕ → Transfer → FirmwarePacket → Transfer → End
  exchange zero k s p r = running
  exchange (suc fuel) k s p r =
      let (kept, _) = firmware_timeout (clock k) r in
      let (r', reply, up) = handle_firmware true (clock k) (some cells) p kept in
      react (exchange fuel (suc k)) (clock k) reply up s r'

  -- `artnet_send_firmware`: the transfer is stored and its first packet sent.
  unfoldable pub upload : List ℕ → ℕ → Bool → Transfer → End
  upload image to ubea r =
      let s = sender_at image to ubea 0 0 in
      exchange (Base.length image / 1024 + 1) 0 (sent (clock 0) s) (packet_of from s) r

-- No time-out strikes a transfer that is in time, nor a receiver that is idle.
pub firmware_timeout_idle :
    (now : ℕ) (r : Transfer) → r.peer ≡ 0 → firmware_timeout now r ≡ (r, false)
unfolding firmware_timeout
firmware_timeout_idle now r idle = simp (idle) refl

pub firmware_timeout_in_time :
    (now : ℕ) (r : Transfer)
    → artnet_is_timeout now r.last_time firmware_timeout_ms ≡ false
    → firmware_timeout now r ≡ (r, false)
unfolding firmware_timeout
firmware_timeout_in_time now r in_time = elim (Bool-cases (r.peer == 0)) [
  | inl free ↦ rw free refl
  | inr busy ↦ rw (busy, in_time) refl
]

-- ===== src/Firmware/First.antt =====
-- The first packet of the sender at an idle receiver.
use libartnet.Base.{
  ℕ, ◌+◌, ◌-◌, ◌*◌, ◌/◌, ◌%◌, ◌^◌, ◌≤◌, ◌<◌, ◌≡◌, refl, sym, ◌∙◌, ap, ◌≢◌, arith, Bool, true, false,
}
use libartnet.Base.{Option, none, some, List, []}
use libartnet.Base.{
  min, take, drop, replicate, memcpy, memcpy_at, length-replicate, length-drop, length-memcpy,
}
use libartnet.Base.{
  length-memcpy_at, take-memcpy, take-memcpy_at, take-append-take-drop, take_all, ◌++◌, suc,
  if◌then◌else◌, ==_refl, ◌==◌,
}
use libartnet.Base
use libartnet.Firmware.{Transfer, FirmwarePacket, all_good, block_good}
use libartnet.Firmware.{first}
use libartnet.Firmware.Receive.{handle_first}
use libartnet.Firmware.Receive.{handle_firmware-first}
use libartnet.Firmware.Receive.{handle_firmware, start_with, started}
use libartnet.Firmware.Send.{packet_of}
use libartnet.Firmware.Steps.{
  IsImage, HasBlocks, upload_of, packet, announced, payload_full, accepted, payload_front,
}
use libartnet.Firmware.Steps.{payload_size}

module _ (image : List ℕ) (from to time : ℕ) (ubea : Bool) (good : IsImage image)
    (firmware_c : Bool) (now : ℕ) where
  abbrev first_packet : FirmwarePacket
  first_packet = packet image from to time ubea good 0

  first_address : first_packet.from ≡ from
  unfolding packet packet_of
  first_address = refl

  type_first : first_packet.type ≡ first ubea
  unfolding packet packet_of
  type_first = refl

  first_size :
      (cells : List ℕ)
      → (started now ubea first_packet cells).bytes_current ≡ min (Base.length image) 1024
  unfolding started
  first_size cells =
      omega (
        arith,
        announced image from to time ubea good 0,
        payload_full image from to time ubea good 0,
      )

  -- The first block starts the transfer, and there are more.
  pub first_step :
      (cells : List ℕ) (r : Transfer)
      → r.peer ≡ 0
      → Base.length cells ≡ Base.length image
      → 1024 < Base.length image
      → let (r', status, up) = handle_firmware firmware_c now (some cells) first_packet r in
        (status ≡ some block_good)
        × (up ≡ none)
        × HasBlocks image from ubea now 1 (memcpy cells first_packet.payload 1024) r'
  unfolding handle_first start_with started
  first_step cells r idle size long =
      rw
        (
          handle_firmware-first firmware_c now (some cells) first_packet r type_first,
          idle,
          accepted image from to time ubea good 0,
          announced image from to time ubea good 0,
          payload_full image from to time ubea good 0,
          whole,
          more,
        )
        (
          refl,
          refl,
          record {
            buffer = refl;
            size = length-memcpy cells first_packet.payload 1024 ∙ size;
            front =
                take-memcpy cells first_packet.payload 1024 (omega arith)
                  (omega (arith, payload_size image from to time ubea good 0))
                ∙ payload_front image from to time ubea good 0 1024 (omega arith) (omega arith);
            total = refl;
            current = refl;
            peer = first_address;
            kind = refl;
            expected = refl;
            since = refl;
          },
        )
    where
      whole : min (Base.length image) 1024 ≡ 1024
      whole = omega arith

      more : (1024 == Base.length image) ≡ false
      more = ground arith

  -- The only block completes the image.
  pub only_step :
      (cells : List ℕ) (r : Transfer)
      → r.peer ≡ 0
      → Base.length cells ≡ Base.length image
      → Base.length image ≤ 1024
      → let (r', status, up) = handle_firmware firmware_c now (some cells) first_packet r in
        (status ≡ some all_good) × (up ≡ (if firmware_c then some (upload_of image ubea) else none))
  unfolding handle_first start_with started
  only_step cells r idle size short =
      rw
        (
          handle_firmware-first firmware_c now (some cells) first_packet r type_first,
          idle,
          accepted image from to time ubea good 0,
          announced image from to time ubea good 0,
          payload_full image from to time ubea good 0,
          all,
          ==_refl (Base.length image),
          image_whole,
        )
        (refl, refl)
    where
      all : min (Base.length image) 1024 ≡ Base.length image
      all = omega arith

      filled : List ℕ
      filled = memcpy cells first_packet.payload (Base.length image)

      image_whole : memcpy cells first_packet.payload (Base.length image) ≡ image
      image_whole =
          sym (take_all filled)
          ∙ ap (λ n. take n filled)
              (length-memcpy cells first_packet.payload (Base.length image) ∙ size)
          ∙ take-memcpy cells first_packet.payload (Base.length image) (omega arith)
              (omega (arith, payload_size image from to time ubea good 0))
          ∙ payload_front image from to time ubea good 0 (Base.length image) (omega arith)
              (omega arith)
          ∙ take_all image

-- ===== src/Firmware/Steps.antt =====
-- One packet of the sender at the receiver.
use libartnet.Base.{
  ℕ, ◌+◌, ◌-◌, ◌*◌, ◌/◌, ◌%◌, ◌^◌, ◌≤◌, ◌<◌, ◌≡◌, refl, sym, ◌∙◌, ap, ◌≢◌, arith, Bool, true, false,
}
use libartnet.Base.{Option, none, some, List, []}
use libartnet.Base.{
  min, take, drop, replicate, memcpy, memcpy_at, length-replicate, length-drop, length-memcpy,
}
use libartnet.Base.{
  length-memcpy_at, take-memcpy, take-memcpy_at, take-append-take-drop, take_all, ◌++◌, suc,
  if◌then◌else◌,
}
use libartnet.Base
use libartnet.Wire.Misc.{nbytes_to_32-int_to_bytes}
use libartnet.Firmware.{Transfer, FirmwarePacket, all_good, block_good, last_length}
use libartnet.Firmware.{cont, last}
use libartnet.Firmware.{
  announced_length, has_payload, payload_bytes, block_number, max_payload_bytes,
}
use libartnet.Firmware.Receive.{handle_cont, handle_last, cont_fits, last_fits}
use libartnet.Firmware.Receive.{handle_firmware-cont, handle_firmware-last}
use libartnet.Firmware.Receive.{handle_firmware, reset_firmware_upload, Upload}
use libartnet.Firmware.Send.{packet_of, next_length}

-- An upload: its bytes are words, not none, and fewer than an int can count.
pub record IsImage (image : List ℕ) : Type 0 where
  pub words : Base.length image % 2 ≡ 0
  pub some_bytes : 0 < Base.length image
  pub fits_int : Base.length image < 2 ^ 31

-- The sender behind `k` whole blocks.
abbrev pub sender_at : List ℕ → ℕ → Bool → ℕ → ℕ → Transfer
sender_at image to ubea time k = record {
  block = some image;
  bytes_current = k * 1024;
  bytes_total = Base.length image;
  peer = to;
  ubea = ubea;
  last_time = time;
  expected_block = k % 256;
}

-- The receiver behind `k` whole blocks, which fill the front of its buffer; the first of them came
-- at the time `start`.
pub record HasBlocks (image : List ℕ) (from : ℕ) (ubea : Bool) (start k : ℕ) (cells : List ℕ)
    (r : Transfer) : Type 0 where
  pub buffer : r.block ≡ some cells
  pub size : Base.length cells ≡ Base.length image
  pub front : take (k * 1024) cells ≡ take (k * 1024) image
  pub total : r.bytes_total ≡ Base.length image
  pub current : r.bytes_current ≡ k * 1024
  pub peer : r.peer ≡ from
  pub kind : r.ubea ≡ ubea
  pub expected : r.expected_block ≡ k
  pub since : r.last_time ≡ start

-- What the callback is handed for a whole image.
abbrev pub upload_of : List ℕ → Bool → Upload
upload_of image ubea = record { ubea = ubea; image = some image; words = Base.length image / 2 }

module _ (image : List ℕ) (from to time : ℕ) (ubea : Bool) (good : IsImage image) where
  unfoldable pub packet : ℕ → FirmwarePacket
  packet k = packet_of from (sender_at image to ubea time k)

  pub announced : (k : ℕ) → announced_length (packet k) ≡ Base.length image
  unfolding packet announced_length packet_of
  announced k =
      ap (λ w. w * 2 % 2 ^ 32)
        (nbytes_to_32-int_to_bytes (Base.length image / 2) (omega (arith, good.fits_int)))
      ∙ omega (arith, good.words, good.fits_int)

  pub payload_full : (k : ℕ) → payload_bytes (packet k) ≡ max_payload_bytes
  unfolding packet payload_bytes packet_of
  payload_full k = omega arith

  pub accepted : (k : ℕ) → has_payload (packet k) ≡ true
  unfolding has_payload
  accepted k = ground (arith, announced k, payload_full k, good.some_bytes, good.fits_int)

  number : (k : ℕ) (r : Transfer) → r.expected_block ≡ k → block_number r (packet k) ≡ k
  unfolding packet block_number packet_of
  number k r e = ground arith

  -- The first `n` bytes of the payload, where the packet carries `n`.
  pub payload_front :
      (k n : ℕ)
      → next_length (sender_at image to ubea time k) ≡ n
      → k * 1024 + n ≤ Base.length image
      → take n (packet k).payload ≡ take n (drop (k * 1024) image)
  unfolding packet packet_of
  payload_front k n e fits =
      rw (e, even)
        (take-memcpy (replicate max_payload_bytes 0) (drop (k * 1024) image) n
          (omega (arith, e, length-replicate {A = ℕ} max_payload_bytes 0))
          (omega (arith, length-drop (k * 1024) image)))
    where
      even : k * 1024 / 2 * 2 ≡ k * 1024
      even = omega arith

  pub payload_size : (k : ℕ) → Base.length (packet k).payload ≡ max_payload_bytes
  unfolding packet packet_of
  payload_size k =
      length-memcpy (replicate max_payload_bytes 0) (drop (k * 1024 / 2 * 2) image)
        (next_length (sender_at image to ubea time k))
      ∙ length-replicate {A = ℕ} max_payload_bytes 0

  -- A block that is copied behind the others continues the image.
  front_grows :
      (k n : ℕ) (cells : List ℕ)
      → Base.length cells ≡ Base.length image
      → take (k * 1024) cells ≡ take (k * 1024) image
      → next_length (sender_at image to ubea time k) ≡ n
      → k * 1024 + n ≤ Base.length image
      → take (k * 1024 + n) (memcpy_at cells (k * 1024) (packet k).payload n)
        ≡ take (k * 1024 + n) image
  front_grows k n cells size front e fits =
      take-memcpy_at cells (k * 1024) (packet k).payload n (omega arith)
        (omega (arith, e, payload_size k))
      ∙ ap (λ l. l ++ take n (packet k).payload) front
      ∙ ap (λ l. take (k * 1024) image ++ l) (payload_front k n e fits)
      ∙ take-append-take-drop (k * 1024) n image

  type_cont : (k : ℕ) → 1 ≤ k → suc k * 1024 ≤ Base.length image → (packet k).type ≡ cont ubea
  unfolding packet packet_of
  type_cont k h fits = ground arith

  type_last :
      (k : ℕ)
      → 1 ≤ k
      → k * 1024 < Base.length image
      → Base.length image < suc k * 1024
      → (packet k).type ≡ last ubea
  unfolding packet packet_of
  type_last k h low high = ground arith

  pub from_lem : (k : ℕ) → (packet k).from ≡ from
  unfolding packet packet_of
  from_lem k = refl

  offset : (k : ℕ) → k * 512 * 2 ≡ k * 1024
  offset k = omega arith

  module _ (firmware_c : Bool) (now start : ℕ) (alloc : Option (List ℕ)) where
    cont_accepted :
        (k : ℕ) (cells : List ℕ) (r : Transfer)
        → suc k * 1024 ≤ Base.length image
        → HasBlocks image from ubea start k cells r
        → cont_fits (packet k) r ≡ true
    unfolding cont_fits
    cont_accepted k cells r fits h =
        ground
          (arith, announced k, payload_full k, number k r h.expected, from_lem k, h.peer, h.total)

    -- A block in the middle is acknowledged and kept.
    pub cont_step :
        (k : ℕ) (cells : List ℕ) (r : Transfer)
        → 1 ≤ k
        → suc k * 1024 ≤ Base.length image
        → HasBlocks image from ubea start k cells r
        → let (r', status, up) = handle_firmware firmware_c now alloc (packet k) r in
          (status ≡ some block_good)
          × (up ≡ none)
          × HasBlocks image from ubea start
              (suc k)
              (memcpy_at cells (k * 1024) (packet k).payload 1024)
              r'
    unfolding handle_cont
    cont_step k cells r pos fits h =
        rw
          (
            handle_firmware-cont firmware_c now alloc (packet k) r (type_cont k pos fits),
            accepted k,
            cont_accepted k cells r fits h,
            number k r h.expected,
          )
          (
            refl,
            refl,
            record {
              buffer = rw (h.buffer, offset k);
              size = length-memcpy_at cells (k * 1024) (packet k).payload 1024 ∙ h.size;
              front =
                  rw (← grown)
                    (front_grows k 1024 cells h.size h.front (omega arith) (omega arith));
              total = h.total;
              current = omega (arith, h.current);
              peer = h.peer;
              kind = h.kind;
              expected = omega (arith, h.expected);
              since = h.since;
            },
          )
      where
        grown : k * 1024 + 1024 ≡ suc k * 1024
        grown = omega arith

    last_accepted :
        (k : ℕ) (cells : List ℕ) (r : Transfer)
        → 1 ≤ k
        → k * 1024 < Base.length image
        → Base.length image < suc k * 1024
        → HasBlocks image from ubea start k cells r
        → last_fits (packet k) r ≡ true
    unfolding last_fits last_length
    last_accepted k cells r pos low high h =
        ground
          (arith, announced k, payload_full k, number k r h.expected, from_lem k, h.peer, h.total)

    last_length_lem :
        (k : ℕ)
        → k * 1024 < Base.length image
        → Base.length image < suc k * 1024
        → last_length (Base.length image) ≡ Base.length image - k * 1024
    unfolding last_length
    last_length_lem k low high = ground arith

    last_image :
        (k : ℕ) (cells : List ℕ) (r : Transfer)
        → k * 1024 < Base.length image
        → Base.length image < suc k * 1024
        → HasBlocks image from ubea start k cells r
        → memcpy_at cells (k * 1024) (packet k).payload (Base.length image - k * 1024) ≡ image
    last_image k cells r low high h =
        sym (take_all filled)
        ∙ ap (λ n. take n filled)
            (length-memcpy_at cells (k * 1024) (packet k).payload rest ∙ h.size ∙ sym whole)
        ∙ front_grows k rest cells h.size h.front (omega arith) (omega arith)
        ∙ ap (λ n. take n image) whole
        ∙ take_all image
      where
        rest : ℕ
        rest = Base.length image - k * 1024

        filled : List ℕ
        filled = memcpy_at cells (k * 1024) (packet k).payload rest

        whole : k * 1024 + rest ≡ Base.length image
        whole = omega arith

    -- The last block completes the image, which goes to the callback; the receiver is idle again.
    pub last_step :
        (k : ℕ) (cells : List ℕ) (r : Transfer)
        → 1 ≤ k
        → k * 1024 < Base.length image
        → Base.length image < suc k * 1024
        → HasBlocks image from ubea start k cells r
        → let (r', status, up) = handle_firmware firmware_c now alloc (packet k) r in
          (status ≡ some all_good)
          × (up ≡ (if firmware_c then some (upload_of image ubea) else none))
          × (r'.peer ≡ 0)
          × (r'.block ≡ none)
    unfolding handle_last reset_firmware_upload
    last_step k cells r pos low high h =
        rw
          (
            handle_firmware-last firmware_c now alloc (packet k) r (type_last k pos low high),
            accepted k,
            last_accepted k cells r pos low high h,
          )
          (
            refl,
            rw
                (
                  number k r h.expected,
                  h.buffer,
                  h.kind,
                  h.total,
                  last_length_lem k low high,
                  offset k,
                  last_image k cells r low high h,
                )
                refl,
            refl,
            refl,
          )

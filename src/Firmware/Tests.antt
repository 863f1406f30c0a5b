-- ===== src/Firmware/Tests.antt =====
-- Uploads of three sizes, and blocks at a receiver.
use libartnet.Base.{ℕ, ◌+◌, ◌≤◌, ◌≡◌, inr, refl, arith, true, false, none, some, List, replicate}
use libartnet.Firmware.{Transfer}
use libartnet.Firmware.Steps.{IsImage, upload_of}
use libartnet.Firmware.Send.{completed, silent}
use libartnet.Time.{artnet_is_timeout}
use libartnet.Base.{◌*◌, length}
use libartnet.Firmware.Exchange.{upload_completes, upload_stalls}
use libartnet.Firmware.Sides.{ended, upload, IsInTime}

abbrev image : List ℕ
image = replicate 2500 7

abbrev whole_image : List ℕ
whole_image = replicate 2048 7

abbrev idle : Transfer
idle = record {
  block = none;
  bytes_current = 0;
  bytes_total = 0;
  peer = 0;
  ubea = false;
  last_time = 0;
  expected_block = 0;
}

image-IsImage : IsImage image
image-IsImage = record { words = refl; some_bytes = omega arith; fits_int = omega arith }

whole_image-IsImage : IsImage whole_image
whole_image-IsImage = record { words = refl; some_bytes = omega arith; fits_int = omega arith }

-- One packet each second
abbrev every_second : ℕ → ℕ
every_second k = 500 + 1000 * k

every_second-IsInTime : (bytes : List ℕ) → length bytes ≤ 20000 → IsInTime every_second bytes
unfolding IsInTime artnet_is_timeout
every_second-IsInTime bytes short k h = ground arith

completes_example :
    upload 11 every_second (replicate 2500 0) image 22 true idle
    ≡ ended (some (upload_of image true)) completed
completes_example =
    upload_completes image 11 22 every_second true image-IsImage
      (every_second-IsInTime image (omega arith)) (replicate 2500 0) idle refl refl
      (inr (omega arith))

stalls_example :
    upload 11 every_second (replicate 2048 0) whole_image 22 true idle ≡ ended none silent
stalls_example =
    upload_stalls whole_image 11 22 every_second true whole_image-IsImage
      (every_second-IsInTime whole_image (omega arith)) (replicate 2048 0) idle refl refl
      (omega arith) refl

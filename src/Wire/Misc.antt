-- ===== src/Wire/Misc.antt =====
-- Bytes to numbers and back.
use libartnet.Base.{ℕ, ◌+◌, ◌*◌, ◌/◌, ◌%◌, ◌^◌, ◌<◌, ◌≡◌, arith, bit_and}
use libartnet.Base.{or_fields, and_mask, and_high}
use libartnet.Wire.{bytes_to_short, short_get_high_byte, short_get_low_byte}
use libartnet.Wire.{artnet_misc_nbytes_to_32, artnet_misc_int_to_bytes}

pub bytes_to_short_lem : (h l : ℕ) → bytes_to_short h l ≡ h % 256 * 256 + l % 256
unfolding bytes_to_short
bytes_to_short_lem h l = ground (
  arith,
  and_high 8 (h * 256) 255,
  and_mask 8 (h * 256 / 256),
  and_mask 8 l,
  or_fields 8 (h % 256) (l % 256),
)

pub nbytes_to_32_lem :
    (b0 b1 b2 b3 : ℕ)
    → b1 < 256
    → b2 < 256
    → b3 < 256
    → artnet_misc_nbytes_to_32 b0 b1 b2 b3 ≡ b0 * 2 ^ 24 + b1 * 2 ^ 16 + b2 * 2 ^ 8 + b3
unfolding artnet_misc_nbytes_to_32
nbytes_to_32_lem b0 b1 b2 b3 h1 h2 h3 = ground (
  arith,
  or_fields 24 b0 (b1 * 2 ^ 16),
  or_fields 16 (b0 * 2 ^ 8 + b1) (b2 * 2 ^ 8),
  or_fields 8 (b0 * 2 ^ 16 + b1 * 2 ^ 8 + b2) b3,
)

int_to_bytes_lem :
    (w : ℕ)
    → w < 2 ^ 32
    → artnet_misc_int_to_bytes w ≡ (w / 2 ^ 24, w / 2 ^ 16 % 2 ^ 8, w / 2 ^ 8 % 2 ^ 8, w % 2 ^ 8)
unfolding artnet_misc_int_to_bytes
int_to_bytes_lem w h = ground (
  arith,
  and_high 24 w 255,
  and_high 16 w 255,
  and_high 8 w 255,
  and_mask 8 (w / 2 ^ 24),
  and_mask 8 (w / 2 ^ 16),
  and_mask 8 (w / 2 ^ 8),
  and_mask 8 w,
)

-- The four bytes that a 32-bit word is written to are read back as that word.
pub nbytes_to_32-int_to_bytes :
    (w : ℕ)
    → w < 2 ^ 32
    → let (b0, b1, b2, b3) = artnet_misc_int_to_bytes w in artnet_misc_nbytes_to_32 b0 b1 b2 b3 ≡ w
nbytes_to_32-int_to_bytes w h = rw (int_to_bytes_lem w h) (
    omega
      (arith, nbytes_to_32_lem (w / 2 ^ 24) (w / 2 ^ 16 % 2 ^ 8) (w / 2 ^ 8 % 2 ^ 8) (w % 2 ^ 8)))

-- A 16-bit length is read back from its high and its low byte.
pub bytes_to_short-get_bytes :
    (x : ℕ) → x < 2 ^ 16 → bytes_to_short (short_get_high_byte x) (short_get_low_byte x) ≡ x
unfolding short_get_high_byte short_get_low_byte
bytes_to_short-get_bytes x h = omega (
  arith,
  bytes_to_short_lem (bit_and x 0xff00 / 2 ^ 8 % 2 ^ 8) (bit_and x 0x00ff % 2 ^ 8),
  and_high 8 x 255,
  and_mask 8 (x / 2 ^ 8),
  and_mask 8 x,
)

-- ===== src/Wire.antt =====
-- Words and bytes: the address helpers and byte macros of artnet/private.h, and the two
-- conversions of artnet/misc.c. A uint8_t, uint16_t or int is its bit pattern, a number.
pub mod Address
pub mod Misc
use libartnet.Base.{ℕ, ◌+◌, ◌*◌, ◌/◌, ◌%◌, ◌^◌, bit_and, bit_or}

-- `bytes_to_short(h, l)`
unfoldable pub bytes_to_short : ℕ → ℕ → ℕ
bytes_to_short h l = bit_or (bit_and (h * 2 ^ 8) 0xff00) (bit_and l 0x00ff)

-- `short_get_high_byte(x)`
unfoldable pub short_get_high_byte : ℕ → ℕ
short_get_high_byte x = (bit_and x 0xff00 / 2 ^ 8) % 2 ^ 8

-- `short_get_low_byte(x)`
unfoldable pub short_get_low_byte : ℕ → ℕ
short_get_low_byte x = bit_and x 0x00ff % 2 ^ 8

-- A 15-bit port address: net (7 bits), subnet (4 bits), port (4 bits).
unfoldable pub make_addr : ℕ → ℕ → ℕ → ℕ
make_addr net subnet addr =
    bit_or (bit_or (bit_and net 0x7f * 2 ^ 8) (bit_and subnet 0x0f * 2 ^ 4)) (bit_and addr 0x0f)
    % 2 ^ 16

unfoldable pub addr_port : ℕ → ℕ
addr_port addr = bit_and addr 0x0f

unfoldable pub addr_subnet : ℕ → ℕ
addr_subnet addr = bit_and (addr / 2 ^ 4) 0x0f

unfoldable pub addr_net : ℕ → ℕ
addr_net addr = bit_and (addr / 2 ^ 8) 0x7f

-- The bit pattern of the int32_t that four big-endian bytes stand for.
unfoldable pub artnet_misc_nbytes_to_32 : ℕ → ℕ → ℕ → ℕ → ℕ
artnet_misc_nbytes_to_32 b0 b1 b2 b3 =
    bit_or (bit_or (bit_or (b0 * 2 ^ 24) (b1 * 2 ^ 16)) (b2 * 2 ^ 8)) b3

-- The four bytes that `artnet_misc_int_to_bytes` stores, `bytes[0]` first.
unfoldable pub artnet_misc_int_to_bytes : ℕ → ℕ × ℕ × ℕ × ℕ
artnet_misc_int_to_bytes word = (
  bit_and word 0xff000000 / 2 ^ 24,
  bit_and word 0x00ff0000 / 2 ^ 16 % 2 ^ 8,
  bit_and word 0x0000ff00 / 2 ^ 8,
  bit_and word 0x000000ff,
)

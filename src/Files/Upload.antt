-- ===== src/Files/Upload.antt =====
-- A block of a file arrives as it was sent.
use libartnet.Base.{
  ℕ, ◌+◌, ◌*◌, ◌/◌, ◌-◌, ◌%◌, ◌^◌, ◌<◌, ◌≤◌, ◌≡◌, refl, ◌∙◌, arith, take, length, memcpy, replicate,
}
use libartnet.Base.{
  Bool, false, List, some, ◌==◌, ltb, if◌then◌else◌, not, ◌||◌, length-memcpy, length-replicate,
  take-memcpy,
}
use libartnet.Firmware.{all_good, fail}
use libartnet.Files.{handle_file_tn_master, file_payload}
use libartnet.Packet.{Packet, file_tn_master}
use libartnet.Transmit.Files.{file_tn_bytes}
use libartnet.Wire.{artnet_misc_nbytes_to_32}
use libartnet.Wire.Misc.{nbytes_to_32_lem}

-- The packet of `artnet_tx_file_tn_master`, as it arrives
abbrev pub file_packet : ℕ → ℕ → ℕ → ℕ → List ℕ → ℕ → Packet
file_packet from type block_id total_length words len = record {
  length = 1064 - 512 * 2 + len * 2;
  from = from;
  type = file_tn_master;
  bytes = file_tn_bytes type block_id total_length words len;
}

total_rebuilt :
    (w : ℕ)
    → w < 2 ^ 32
    → artnet_misc_nbytes_to_32
        (w / 2 ^ 24 % 2 ^ 8)
        (w / 2 ^ 16 % 2 ^ 8)
        (w / 2 ^ 8 % 2 ^ 8)
        (w % 2 ^ 8)
      ≡ w
total_rebuilt w h = omega (
  arith,
  nbytes_to_32_lem (w / 2 ^ 24 % 2 ^ 8) (w / 2 ^ 16 % 2 ^ 8) (w / 2 ^ 8 % 2 ^ 8) (w % 2 ^ 8)
      (omega arith) (omega arith) (omega arith),
)

-- A block of 1 to 512 words, of a file of at least as many words and below 2^32, as
-- `artnet_tx_file_tn_master` sends it, is accepted by a node with a firmware callback, where no
-- other callback takes it; it gets its words and their number; the reply is what the callback
-- answers.
pub handle_file_tn_master_receives :
    (accepts : Bool) (from type block_id total_length len : ℕ) (words : List ℕ)
    → 1 ≤ len
    → len ≤ 512
    → len ≤ total_length
    → total_length < 2 ^ 32
    → len * 2 ≤ length words
    → let r =
        handle_file_tn_master false
          (some accepts)
          (file_packet from type block_id total_length words len) in
      (received : List ℕ) × (r.call ≡ some (received, len))
      × (take (len * 2) received ≡ take (len * 2) words)
      × (r.reply ≡ some (if accepts then all_good else fail))
unfolding handle_file_tn_master
handle_file_tn_master_receives accepts from type block_id total_length len words some_data small
      fits h held =
    let p = file_packet from type block_id total_length words len in
    let sent = memcpy (replicate (512 * 2) 0) words (len * 2) in
    let payload : file_payload p ≡ len * 2 = omega arith in
    let half : len * 2 / 2 ≡ len = omega arith in
    let is_some : len * 2 == 0 || not (len * 2 % 2 == 0) ≡ false = ground arith in
    let total : total_length == 0 ≡ false = ground arith in
    let in_file : ltb total_length len ≡ false = ground arith in
    let room : length {A = ℕ} (replicate (512 * 2) 0) ≡ 1024 =
      length-replicate {A = ℕ} (512 * 2) 0 in
    let same : take (len * 2) (memcpy (replicate (512 * 2) 0) sent (len * 2))
        ≡ take (len * 2) words =
      take-memcpy {A = ℕ} (replicate (512 * 2) 0) sent (len * 2) (omega arith)
        (omega (arith, length-memcpy {A = ℕ} (replicate (512 * 2) 0) words (len * 2)))
      ∙ take-memcpy {A = ℕ} (replicate (512 * 2) 0) words (len * 2) (omega arith) held in
    (
      memcpy (replicate (512 * 2) 0) sent (len * 2),
      rw (total_rebuilt total_length h, total, payload, half, is_some, in_file) refl,
      same,
      rw (total_rebuilt total_length h, total, payload, half, is_some, in_file) refl,
    )

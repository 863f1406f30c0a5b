-- ===== src/Transmit/Files.antt =====
-- The packets of artnet/transmit.c for firmware replies, directories and files.
use libartnet.Base.{
  ℕ, ◌+◌, ◌*◌, ◌-◌, ◌/◌, ◌%◌, ◌^◌, min, ◌||◌, not, List, ◌∷◌, ◌++◌, Option, none, some,
}
use libartnet.Base.{if◌then◌else◌, ◌==◌, ltb, replicate, memcpy, length, earg, eaction}
use libartnet.Packet.{
  firmware_reply, directory_reply, file_tn_master, file_fn_master, file_fn_reply,
}
use libartnet.Transmit.{
  header, Tx, TxState, refuse, send_to, ℤ, is_negative, magnitude, is_missing, content,
}
use libartnet.Wire.{short_get_high_byte, short_get_low_byte}

abbrev pub firmware_reply_bytes : ℕ → List ℕ
firmware_reply_bytes code = header 0xf3 ++ (0 ∷ 0 ∷ code ∷ replicate 21 0)

-- `artnet_tx_firmware_reply`; `code` is the byte of the `artnet_firmware_status_code`.
unfoldable pub artnet_tx_firmware_reply : ℕ → ℕ → Tx
artnet_tx_firmware_reply ip code = send_to ip 36 firmware_reply (firmware_reply_bytes code)

abbrev pub directory_reply_bytes : List ℕ
directory_reply_bytes = header 0x9b ++ (replicate 4 0 ++ (0 ∷ 0 ∷ 0 ∷ 0 ∷ replicate 2048 0))

-- `artnet_tx_directory_reply`: an empty directory
unfoldable pub artnet_tx_directory_reply : TxState → Tx
artnet_tx_directory_reply s =
    if not s.mode_on
    then refuse eaction
    else if s.reply_addr == 0
    then refuse eaction
    else send_to s.reply_addr 2068 directory_reply directory_reply_bytes

abbrev pub artnet_firmware_size : ℕ
artnet_firmware_size = 512

abbrev pub file_tn_bytes : ℕ → ℕ → ℕ → List ℕ → ℕ → List ℕ
file_tn_bytes type block_id total_length file_bytes len =
    header 0xf4
    ++ (0
          ∷ 0
          ∷ type
          ∷ block_id
          ∷ total_length / 2 ^ 24 % 2 ^ 8
          ∷ total_length / 2 ^ 16 % 2 ^ 8
          ∷ total_length / 2 ^ 8 % 2 ^ 8
          ∷ total_length % 2 ^ 8
          ∷ replicate 20 0
        ++ memcpy (replicate (512 * 2) 0) file_bytes (len * 2))

-- `artnet_tx_file_tn_master`; the data is the bytes of its uint16_t words, `data_len` counts words.
unfoldable pub artnet_tx_file_tn_master : TxState → ℕ → ℕ → ℕ → ℕ → Option (List ℕ) → ℤ → Tx
artnet_tx_file_tn_master s ip type block_id total_length words data_len =
    if not s.mode_on
    then refuse eaction
    else if is_negative data_len || is_missing data_len words
    then refuse earg
    else (let len = min (magnitude data_len) artnet_firmware_size in
        send_to ip (1064 - 512 * 2 + len * 2) file_tn_master
          (file_tn_bytes type block_id total_length (content words) len))

abbrev pub file_fn_bytes : List ℕ → ℕ → List ℕ
file_fn_bytes filename flen =
    header 0xf5
    ++ (replicate 13 0
        ++ (short_get_high_byte flen
            ∷ short_get_low_byte flen
            ∷ memcpy (replicate 256 0) filename flen))

-- `artnet_tx_file_fn_master`; a null name is none. The byte behind the name is 0 already.
unfoldable pub artnet_tx_file_fn_master : TxState → ℕ → Option (List ℕ) → Tx
artnet_tx_file_fn_master s ip none = if not s.mode_on then refuse eaction else refuse earg
artnet_tx_file_fn_master s ip (some filename) =
    let flen = if ltb 255 (length filename) then 255 else length filename in
    if not s.mode_on
    then refuse eaction
    else if length filename == 0
    then refuse earg
    else send_to ip 283 file_fn_master (file_fn_bytes filename flen)

abbrev pub file_fn_reply_bytes : ℕ → ℕ → List ℕ → ℕ → List ℕ
file_fn_reply_bytes block_id total_length file_bytes len =
    header 0xf6
    ++ (replicate 13 0
        ++ (short_get_high_byte total_length
            ∷ short_get_low_byte total_length
            ∷ block_id
            ∷ memcpy (replicate (512 * 2) 0) file_bytes len))

-- `artnet_tx_file_fn_reply`
unfoldable pub artnet_tx_file_fn_reply : TxState → ℕ → ℕ → Option (List ℕ) → ℤ → Tx
artnet_tx_file_fn_reply s block_id total_length file_bytes data_len =
    if not s.mode_on
    then refuse eaction
    else if s.reply_addr == 0
    then refuse eaction
    else if is_negative data_len || is_missing data_len file_bytes
    then refuse earg
    else (let len = min (magnitude data_len) (artnet_firmware_size * 2) in
        send_to s.reply_addr (1052 - 512 * 2 + len) file_fn_reply
          (file_fn_reply_bytes block_id total_length (content file_bytes) len))

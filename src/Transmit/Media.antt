-- ===== src/Transmit/Media.antt =====
-- ArtMediaPatch, ArtMediaControl and ArtMediaControlReply of artnet/transmit.c.
use libartnet.Base.{ℕ, ◌+◌, ◌-◌, ◌/◌, ◌%◌, ◌||◌, not, List, ◌∷◌, ◌++◌, Option, none, some}
use libartnet.Base.{if◌then◌else◌, ltb, replicate, memcpy, earg, eaction}
use libartnet.Packet.{media_patch, media_control, media_control_reply, PacketType}
use libartnet.Transmit.{
  header, Tx, TxState, refuse, send_to, ℤ, is_negative, magnitude, is_missing, content,
}
use libartnet.Wire.{short_get_high_byte, short_get_low_byte}

abbrev pub media_patch_bytes : ℕ → ℕ → List ℕ → ℕ → List ℕ
media_patch_bytes physical universe payload len =
    header 0x91
    ++ (physical
        ∷ universe % 256
        ∷ universe / 256
        ∷ short_get_high_byte len
        ∷ short_get_low_byte len
        ∷ memcpy (replicate 512 0) payload len)

-- `artnet_tx_media_patch`
unfoldable pub artnet_tx_media_patch : TxState → ℕ → ℕ → ℕ → Option (List ℕ) → ℤ → Tx
artnet_tx_media_patch s ip physical universe none length =
    if not s.mode_on then refuse eaction else refuse earg
artnet_tx_media_patch s ip physical universe (some payload) length =
    if not s.mode_on
    then refuse eaction
    else if ltb (magnitude length) 1 || ltb 512 (magnitude length)
    then refuse earg
    else send_to ip (529 - 512 + magnitude length) media_patch
        (media_patch_bytes physical universe payload (magnitude length))

-- The two types that `artnet_tx_media_control` sends, with the high byte of the opcode
abbrev pub media_opcode : PacketType → Option ℕ
media_opcode media_control = some 0x92
media_opcode media_control_reply = some 0x93
media_opcode _ = none

abbrev pub media_control_bytes : ℕ → List ℕ → ℕ → List ℕ
media_control_bytes op_high payload len =
    header op_high ++ (replicate 14 0 ++ memcpy (replicate 512 0) payload len)

-- The part behind the test of the type
abbrev pub media_control_with : Option ℕ → ℕ → PacketType → Option (List ℕ) → ℤ → Tx
media_control_with none ip type payload length = refuse earg
media_control_with (some op_high) ip type payload length =
    if is_negative length || ltb 512 (magnitude length) || is_missing length payload
    then refuse earg
    else send_to ip (538 - 512 + magnitude length) type
        (media_control_bytes op_high (content payload) (magnitude length))

-- `artnet_tx_media_control`
unfoldable pub artnet_tx_media_control : TxState → ℕ → PacketType → Option (List ℕ) → ℤ → Tx
artnet_tx_media_control s ip type payload length =
    if not s.mode_on
    then refuse eaction
    else media_control_with (media_opcode type) ip type payload length

-- ===== src/Transmit/Data.antt =====
-- ArtDiagData, ArtDataRequest, ArtDataReply and ArtCommand of artnet/transmit.c. A text is the list
-- of its characters before the final zero.
use libartnet.Base.{ℕ, ◌+◌, ◌-◌, ◌%◌, ◌^◌, min, ◌||◌, not, List, [], ◌∷◌, ◌++◌, Option, none, some}
use libartnet.Base.{if◌then◌else◌, ◌==◌, ltb, replicate, memcpy, length, eok, earg, eaction}
use libartnet.Packet.{diag_data, data_request, data_reply, command}
use libartnet.Transmit.{
  header, Tx, TxState, refuse, send_to, ℤ, is_negative, magnitude, is_missing, content, Target,
  no_target, bad_target, target,
}
use libartnet.Wire.{short_get_high_byte, short_get_low_byte}

abbrev pub diag_bytes : ℕ → ℕ → List ℕ → ℕ → List ℕ
diag_bytes priority logical_port text text_len =
    header 0x23
    ++ (0
        ∷ priority
        ∷ logical_port
        ∷ 0
        ∷ short_get_high_byte (text_len + 1)
        ∷ short_get_low_byte (text_len + 1)
        ∷ memcpy (replicate 512 0) text text_len)

-- The last part of `artnet_tx_diagdata`: whom to send it to
abbrev pub send_diag : TxState → ℕ → List ℕ → Tx
send_diag s len bytes =
    if s.diag_unicast
    then (if s.reply_addr == 0 then refuse eaction else send_to s.reply_addr len diag_data bytes)
    else send_to s.bcast_addr len diag_data bytes

-- `artnet_tx_diagdata`; a null text is none. It sends the final zero, too.
unfoldable pub artnet_tx_diagdata : TxState → ℕ → ℕ → Option (List ℕ) → Tx
artnet_tx_diagdata s priority logical_port none =
    if not s.mode_on then refuse eaction else refuse earg
artnet_tx_diagdata s priority logical_port (some text) =
    let text_len = min (length text) 511 in
    if not s.mode_on
    then refuse eaction
    else if not s.diag_enabled
    then refuse eaction
    else if ltb priority s.diag_priority
    then refuse eok
    else send_diag s (530 - (512 - text_len - 1)) (diag_bytes priority logical_port text text_len)

-- The manufacturer, the OEM code and the request that both data packets begin with
abbrev pub request_bytes : ℕ → TxState → ℕ → List ℕ
request_bytes op_high s request_code =
    header op_high
    ++ (s.esta_hi
        ∷ s.esta_lo % 2 ^ 8
        ∷ s.oem_hi
        ∷ s.oem_lo
        ∷ short_get_high_byte request_code
        ∷ short_get_low_byte request_code
        ∷ [])

-- `artnet_tx_data_request`
unfoldable pub artnet_tx_data_request : TxState → Target → ℕ → Tx
artnet_tx_data_request s (target ip) request_code =
    if not s.mode_on
    then refuse eaction
    else send_to ip 40 data_request (request_bytes 0x27 s request_code ++ replicate 22 0)
artnet_tx_data_request s _ request_code = if not s.mode_on then refuse eaction else refuse earg

abbrev pub data_reply_bytes : TxState → ℕ → List ℕ → ℕ → List ℕ
data_reply_bytes s request_code payload len =
    request_bytes 0x28 s request_code
    ++ (short_get_high_byte len ∷ short_get_low_byte len ∷ memcpy (replicate 512 0) payload len)

-- `artnet_tx_data_reply`
unfoldable pub artnet_tx_data_reply : TxState → Target → ℕ → Option (List ℕ) → ℤ → Tx
artnet_tx_data_reply s (target ip) request_code payload length =
    if not s.mode_on
    then refuse eaction
    else if is_negative length || is_missing length payload
    then refuse earg
    else send_to ip 532 data_reply
        (data_reply_bytes s request_code (content payload) (min (magnitude length) 512))
artnet_tx_data_reply s _ request_code payload length =
    if not s.mode_on then refuse eaction else refuse earg

abbrev pub command_bytes : ℕ → List ℕ → ℕ → List ℕ
command_bytes esta_man text len =
    header 0x24
    ++ (short_get_high_byte esta_man
        ∷ short_get_low_byte esta_man
        ∷ short_get_high_byte len
        ∷ short_get_low_byte len
        ∷ memcpy (replicate 512 0) text len)

abbrev pub send_command : ℕ → ℕ → Option (List ℕ) → ℕ → Tx
send_command to esta_man text len =
    send_to to (528 - 512 + len) command (command_bytes esta_man (content text) len)

-- `artnet_tx_command`; no target is the broadcast address.
unfoldable pub artnet_tx_command : TxState → ℕ → Option (List ℕ) → ℤ → Target → Tx
artnet_tx_command s esta_man text length ip =
    if not s.mode_on
    then refuse eaction
    else if is_negative length || ltb 512 (magnitude length) || is_missing length text
    then refuse earg
    else to_target ip
  where
    to_target : Target → Tx
    to_target no_target = send_command s.bcast_addr esta_man text (magnitude length)
    to_target bad_target = refuse earg
    to_target (target address) = send_command address esta_man text (magnitude length)

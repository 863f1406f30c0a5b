-- ===== src/Transmit/Rdm.antt =====
-- ArtTodControl, ArtRdm and ArtRdmSub of artnet/transmit.c. A UID is the number of its six
-- bytes.
use libartnet.Base.{ℕ, ◌+◌, ◌-◌, min, ◌||◌, List, [], ◌∷◌, ◌++◌, Option, none, some}
use libartnet.Base.{if◌then◌else◌, ◌==◌, replicate, memcpy, earg, eaction}
use libartnet.Packet.{tod_control, rdm, rdm_sub}
use libartnet.Transmit.{
  header, Tx, TxState, refuse, send_to, ℤ, is_negative, magnitude, is_missing, content,
  address_byte,
}
use libartnet.Transmit.Tod.{uid_bytes}
use libartnet.Wire.{short_get_high_byte, short_get_low_byte, addr_net}

abbrev pub tod_control_bytes : ℕ → ℕ → List ℕ
tod_control_bytes address action =
    header 0x82
    ++ (0 ∷ 0 ∷ 0 ∷ 0 ∷ 0 ∷ 0 ∷ 0 ∷ 0 ∷ 0 ∷ addr_net address ∷ action ∷ address_byte address ∷ [])

-- `artnet_tx_tod_control`
unfoldable pub artnet_tx_tod_control : TxState → ℕ → ℕ → Tx
artnet_tx_tod_control s address action =
    send_to s.bcast_addr 24 tod_control (tod_control_bytes address action)

abbrev pub max_rdm_data : ℕ
max_rdm_data = 512

abbrev pub rdm_bytes : ℕ → List ℕ → ℕ → List ℕ
rdm_bytes address message len =
    header 0x83
    ++ (1
        ∷ 0
        ∷ 0
        ∷ 0
        ∷ 0
        ∷ 0
        ∷ 0
        ∷ 0
        ∷ 0
        ∷ addr_net address
        ∷ 0x00
        ∷ address_byte address
        ∷ memcpy (replicate max_rdm_data 0) message len)

-- `artnet_tx_rdm`
unfoldable pub artnet_tx_rdm : TxState → ℕ → Option (List ℕ) → ℤ → Tx
artnet_tx_rdm s address message length =
    if s.rdm_reply_addr == 0
    then refuse eaction
    else if is_negative length || is_missing length message
    then refuse earg
    else (let len = min (magnitude length) max_rdm_data in
        send_to s.rdm_reply_addr (536 - 512 + len) rdm (rdm_bytes address (content message) len))

abbrev pub rdm_sub_bytes : ℕ → ℕ → ℕ → ℕ → ℕ → List ℕ → ℕ → List ℕ
rdm_sub_bytes uid command_class param_id sub_device sub_count message len =
    header 0x84
    ++ (1 ∷ 0 ∷ uid_bytes (uid ∷ [])
        ++ (0
            ∷ command_class
            ∷ short_get_high_byte param_id
            ∷ short_get_low_byte param_id
            ∷ short_get_high_byte sub_device
            ∷ short_get_low_byte sub_device
            ∷ short_get_high_byte sub_count
            ∷ short_get_low_byte sub_count
            ∷ 0
            ∷ 0
            ∷ 0
            ∷ 0
            ∷ memcpy (replicate max_rdm_data 0) message len))

-- `artnet_tx_rdmsub`; a null `uid` is none.
unfoldable pub artnet_tx_rdmsub : TxState → Option ℕ → ℕ → ℕ → ℕ → ℕ → Option (List ℕ) → ℤ → Tx
artnet_tx_rdmsub s none command_class param_id sub_device sub_count message length =
    if s.rdm_reply_addr == 0 then refuse eaction else refuse earg
artnet_tx_rdmsub s (some uid) command_class param_id sub_device sub_count message length =
    if s.rdm_reply_addr == 0
    then refuse eaction
    else if sub_count == 0 || is_negative length || is_missing length message
    then refuse earg
    else (let len = min (magnitude length) max_rdm_data in
        send_to s.rdm_reply_addr (544 - 512 + len) rdm_sub
          (rdm_sub_bytes uid command_class param_id sub_device sub_count (content message) len))

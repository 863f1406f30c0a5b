-- ===== src/Transmit/Clock.antt =====
-- ArtSync, ArtTimeCode, ArtTimeSync and ArtTrigger of artnet/transmit.c, which are broadcast.
use libartnet.Base.{ℕ, ◌||◌, not, List, [], ◌∷◌, ◌++◌, Option}
use libartnet.Base.{if◌then◌else◌, ltb, replicate, memcpy, earg, eaction}
use libartnet.Packet.{sync, time_code, time_sync, trigger}
use libartnet.Transmit.{
  header, Tx, TxState, refuse, send_to, ℤ, is_negative, magnitude, is_missing, content,
}

abbrev pub sync_bytes : List ℕ
sync_bytes = header 0x52 ++ (0 ∷ 0 ∷ [])

-- `artnet_tx_sync`
unfoldable pub artnet_tx_sync : TxState → Tx
artnet_tx_sync s = if not s.mode_on then refuse eaction else send_to s.bcast_addr 14 sync sync_bytes

abbrev pub time_code_bytes : ℕ → ℕ → ℕ → ℕ → ℕ → ℕ → List ℕ
time_code_bytes frames seconds minutes hours type stream_id =
    header 0x97 ++ (0 ∷ stream_id ∷ frames ∷ seconds ∷ minutes ∷ hours ∷ type ∷ [])

-- `artnet_tx_timecode`; `type` is the number of the `artnet_timecode_type_t`.
unfoldable pub artnet_tx_timecode : TxState → ℕ → ℕ → ℕ → ℕ → ℕ → ℕ → Tx
artnet_tx_timecode s frames seconds minutes hours type stream_id =
    if not s.mode_on
    then refuse eaction
    else if ltb 29 frames || ltb 59 seconds || ltb 59 minutes || ltb 23 hours || ltb 3 type
    then refuse earg
    else send_to s.bcast_addr 19 time_code
        (time_code_bytes frames seconds minutes hours type stream_id)

abbrev pub time_sync_bytes : ℕ → ℕ → ℕ → ℕ → ℕ → ℕ → List ℕ
time_sync_bytes tm_sec tm_min tm_hour tm_mday tm_mon tm_year =
    header 0x98
    ++ (0 ∷ 0 ∷ tm_sec ∷ tm_min ∷ tm_hour ∷ tm_mday ∷ tm_mon ∷ tm_year ∷ 0 ∷ 0 ∷ 0 ∷ 0 ∷ [])

-- `artnet_tx_timesync`
unfoldable pub artnet_tx_timesync : TxState → ℕ → ℕ → ℕ → ℕ → ℕ → ℕ → Tx
artnet_tx_timesync s tm_sec tm_min tm_hour tm_mday tm_mon tm_year =
    if not s.mode_on
    then refuse eaction
    else if ltb 59 tm_sec
        || ltb 59 tm_min
        || ltb 23 tm_hour
        || ltb tm_mday 1
        || ltb 31 tm_mday
        || ltb 11 tm_mon
    then refuse earg
    else send_to s.bcast_addr 24 time_sync
        (time_sync_bytes tm_sec tm_min tm_hour tm_mday tm_mon tm_year)

abbrev pub trigger_bytes : ℕ → ℕ → ℕ → ℕ → List ℕ → ℕ → List ℕ
trigger_bytes oem_hi oem_lo key sub_key payload length =
    header 0x99
    ++ (0 ∷ 0 ∷ oem_hi ∷ oem_lo ∷ key ∷ sub_key ∷ memcpy (replicate 512 0) payload length)

-- `artnet_tx_trigger`; the highest key is ARTNET_TRIGGER_KEY_SHOW.
unfoldable pub artnet_tx_trigger : TxState → ℕ → ℕ → ℕ → ℕ → Option (List ℕ) → ℤ → Tx
artnet_tx_trigger s oem_hi oem_lo key sub_key payload length =
    if not s.mode_on
    then refuse eaction
    else if ltb 3 key
        || is_negative length
        || ltb 512 (magnitude length)
        || is_missing length payload
    then refuse earg
    else send_to s.bcast_addr 530 trigger
        (trigger_bytes oem_hi oem_lo key sub_key (content payload) (magnitude length))

-- ===== src/Firmware/Exchange.antt =====
-- A whole upload: how it ends, by the length of its image.
use libartnet.Base.{
  ℕ, zero, suc, ◌+◌, ◌-◌, ◌*◌, ◌/◌, ◌%◌, ◌≤◌, ◌<◌, ◌≡◌, refl, ◌∙◌, ap, ◌≢◌, arith, Bool, true,
  false,
}
use libartnet.Base.{
  ◌⊎◌, Option, none, some, List, memcpy, memcpy_at, ltb, ◌==◌, if◌then◌else◌, inl, inr,
}
use libartnet.Base
use libartnet.Firmware.{Transfer, FirmwarePacket, all_good, block_good}
use libartnet.Firmware.Receive.{firmware_timeout, Upload}
use libartnet.Firmware.Send.{
  packet_of, sent, handle_firmware_reply, handle_status, silent, completed,
}
use libartnet.Firmware.Steps.{
  IsImage, HasBlocks, upload_of, sender_at, packet, cont_step, last_step,
}
use libartnet.Firmware.First.{first_step, only_step}
use libartnet.Time.{artnet_is_timeout, firmware_timeout_ms}
use libartnet.Base.{Bool-cases}
use native.Mathlib.Decide.{dec_lt}
use libartnet.Firmware.Sides.{
  End, ended, IsInTime, react, exchange, upload, firmware_timeout_idle, firmware_timeout_in_time,
}

module _ (image : List ℕ) (from to : ℕ) (clock : ℕ → ℕ) (ubea : Bool) (good : IsImage image)
    (in_time : IsInTime clock image) (cells : List ℕ) where
  sent_lem :
      (time now k : ℕ)
      → suc k * 1024 ≤ Base.length image
      → sent now (sender_at image to ubea time k) ≡ sender_at image to ubea now (suc k)
  unfolding sent
  sent_lem time now k fits = ground arith

  kept_lem :
      (k : ℕ) (buffer : List ℕ) (r : Transfer)
      → k * 1024 < Base.length image
      → HasBlocks image from ubea (clock 0) k buffer r
      → firmware_timeout (clock k) r ≡ (r, false)
  unfolding IsInTime
  kept_lem k buffer r fits h =
      firmware_timeout_in_time (clock k) r (
        ap (λ since. artnet_is_timeout (clock k) since firmware_timeout_ms) h.since
        ∙ in_time k fits)

  react_more :
      (next : Transfer → FirmwarePacket → Transfer → End) (up : Option Upload) (now time k : ℕ)
      (r : Transfer)
      → k * 1024 < Base.length image
      → react from clock cells next now (some block_good) up (sender_at image to ubea time k) r
        ≡ next (sent now (sender_at image to ubea time k)) (packet image from to time ubea good k) r
  unfolding react handle_firmware_reply handle_status packet
  react_more next up now time k r fits = ground arith

  react_done :
      (next : Transfer → FirmwarePacket → Transfer → End) (up : Option Upload)
      (now sent_at time k : ℕ) (r : Transfer)
      → k * 1024 < Base.length image
      → Base.length image ≤ suc k * 1024
      → react from clock cells next now
          (some all_good)
          up
          (sent sent_at (sender_at image to ubea time k))
          r
        ≡ ended up completed
  unfolding react handle_firmware_reply handle_status sent
  react_done next up now sent_at time k r low high = ground arith

  -- `j` more whole blocks, and a last one that is not whole.
  exchange_rest :
      (j fuel sent_at time k : ℕ) (buffer : List ℕ) (r : Transfer)
      → 1 ≤ k
      → Base.length image / 1024 ≡ k + j
      → Base.length image % 1024 ≢ 0
      → j < fuel
      → HasBlocks image from ubea (clock 0) k buffer r
      → exchange from clock cells fuel k
          (sent sent_at (sender_at image to ubea time k))
          (packet image from to time ubea good k)
          r
        ≡ ended (some (upload_of image ubea)) completed
  unfolding exchange
  exchange_rest j zero sent_at time k buffer r pos e odd enough h = absurd (omega arith)
  exchange_rest zero (suc fuel) sent_at time k buffer r pos e odd enough h =
      let st =
        last_step image from to time ubea good true (clock k) (clock 0) (some cells) k buffer r pos
          (omega arith) (omega arith) h in
      rw (kept_lem k buffer r (omega arith) h, st.0, st.1)
        (react_done (exchange from clock cells fuel (suc k)) _ (clock k) sent_at time k _
          (omega arith) (omega arith))
  exchange_rest (suc j) (suc fuel) sent_at time k buffer r pos e odd enough h =
      let st =
        cont_step image from to time ubea good true (clock k) (clock 0) (some cells) k buffer r pos
          (omega arith) h in
      rw (kept_lem k buffer r (omega arith) h, st.0, sent_lem time sent_at k (omega arith))
        (react_more (exchange from clock cells fuel (suc k)) _ (clock k) sent_at (suc k) _
            (omega arith)
          ∙ exchange_rest j fuel (clock k) sent_at (suc k) _ _ (omega arith) (omega arith) odd
              (omega arith) st.2)

  react_end :
      (next : Transfer → FirmwarePacket → Transfer → End) (up : Option Upload) (now time k : ℕ)
      (r : Transfer)
      → 1 ≤ k
      → k * 1024 ≡ Base.length image
      → react from clock cells next now (some block_good) up (sender_at image to ubea time k) r
        ≡ ended up silent
  unfolding react handle_firmware_reply handle_status
  react_end next up now time k r pos e = ground arith

  -- `j` more whole blocks and nothing behind them.
  exchange_whole :
      (j fuel sent_at time k : ℕ) (buffer : List ℕ) (r : Transfer)
      → 1 ≤ k
      → Base.length image ≡ (k + suc j) * 1024
      → j < fuel
      → HasBlocks image from ubea (clock 0) k buffer r
      → exchange from clock cells fuel k
          (sent sent_at (sender_at image to ubea time k))
          (packet image from to time ubea good k)
          r
        ≡ ended none silent
  unfolding exchange
  exchange_whole j zero sent_at time k buffer r pos e enough h = absurd (omega arith)
  exchange_whole zero (suc fuel) sent_at time k buffer r pos e enough h =
      let st =
        cont_step image from to time ubea good true (clock k) (clock 0) (some cells) k buffer r pos
          (omega arith) h in
      rw (kept_lem k buffer r (omega arith) h, st.0, st.1, sent_lem time sent_at k (omega arith))
        (react_end (exchange from clock cells fuel (suc k)) none (clock k) sent_at (suc k) _
          (omega arith) (omega arith))
  exchange_whole (suc j) (suc fuel) sent_at time k buffer r pos e enough h =
      let st =
        cont_step image from to time ubea good true (clock k) (clock 0) (some cells) k buffer r pos
          (omega arith) h in
      rw (kept_lem k buffer r (omega arith) h, st.0, sent_lem time sent_at k (omega arith))
        (react_more (exchange from clock cells fuel (suc k)) _ (clock k) sent_at (suc k) _
            (omega arith)
          ∙ exchange_whole j fuel (clock k) sent_at (suc k) _ _ (omega arith) (omega arith)
              (omega arith) st.2)

  module _ (r : Transfer) (idle : r.peer ≡ 0) (size : Base.length cells ≡ Base.length image) where
    upload_first :
        upload from clock cells image to ubea r
        ≡ exchange from clock cells
            (suc (Base.length image / 1024))
            0
            (sent (clock 0) (sender_at image to ubea 0 0))
            (packet image from to 0 ubea good 0)
            r
    unfolding upload packet
    upload_first =
        ap
          (λ n.
            exchange from clock cells n 0 (sent (clock 0) (sender_at image to ubea 0 0))
              (packet_of from (sender_at image to ubea 0 0)) r)
          (omega arith)

    -- The first packet of a long upload, and the sender's next one.
    upload_second :
        1024 < Base.length image
        → (buffer : List ℕ) × (r' : Transfer) × HasBlocks image from ubea (clock 0) 1 buffer r'
          × (upload from clock cells image to ubea r
              ≡ exchange from clock cells
                  (Base.length image / 1024)
                  1
                  (sent (clock 0) (sender_at image to ubea (clock 0) 1))
                  (packet image from to (clock 0) ubea good 1)
                  r')
    unfolding exchange
    upload_second long =
        let st = first_step image from to 0 ubea good true (clock 0) cells r idle size long in
        (
          _,
          _,
          st.2,
          rw
              (
                upload_first,
                firmware_timeout_idle (clock 0) r idle,
                st.0,
                sent_lem 0 (clock 0) 0 (omega arith),
              )
              (react_more (exchange from clock cells (Base.length image / 1024) 1) _ (clock 0)
                (clock 0) 1 _ (omega arith)),
        )

    -- An image of an even, positive number of bytes below 2^31 that fits one packet, or whose length
    -- is not a multiple of 1024, completes at a receiver that is idle and can allocate it, where no
    -- packet is lost and each arrives within the firmware time-out, counted from the first: the
    -- receiver's callback gets the very bytes that were sent, and the sender's is told of success.
    pub upload_completes :
        (Base.length image ≤ 1024) ⊎ (Base.length image % 1024 ≢ 0)
        → upload from clock cells image to ubea r ≡ ended (some (upload_of image ubea)) completed
    unfolding exchange
    upload_completes h = elim (dec_lt 1024 (Base.length image)) [
      | yes long ↦
          let (buffer, r', blocks, same) = upload_second long in
          same
          ∙ exchange_rest (Base.length image / 1024 - 1) (Base.length image / 1024) (clock 0)
              (clock 0) 1 buffer r' (omega arith) (omega arith) (omega arith) (omega arith) blocks
      | no short ↦
          let st =
            only_step image from to 0 ubea good true (clock 0) cells r idle size (omega arith) in
          upload_first
          ∙ rw (firmware_timeout_idle (clock 0) r idle, st.0, st.1)
              (react_done (exchange from clock cells (Base.length image / 1024) 1) _ (clock 0)
                (clock 0) 0 0 _ (omega (arith, good.some_bytes)) (omega arith))
    ]

    -- An upload of two or more blocks of 1024 bytes with nothing behind them, to a receiver that is
    -- idle and can allocate it, never completes, where no packet is lost and each arrives within the
    -- firmware time-out, counted from the first: after its last block both sides fall silent, and
    -- neither callback is called.
    pub upload_stalls :
        1024 < Base.length image
        → Base.length image % 1024 ≡ 0
        → upload from clock cells image to ubea r ≡ ended none silent
    upload_stalls long whole =
        let (buffer, r', blocks, same) = upload_second long in
        same
        ∙ exchange_whole (Base.length image / 1024 - 2) (Base.length image / 1024) (clock 0)
            (clock 0) 1 buffer r' (omega arith) (omega arith) (omega arith) blocks

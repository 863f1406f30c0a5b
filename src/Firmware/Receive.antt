-- ===== src/Firmware/Receive.antt =====
-- `handle_firmware`, `reset_firmware_upload` and the firmware time-out.
use libartnet.Time.{artnet_is_timeout, firmware_timeout_ms}
use libartnet.Base.{ℕ, ◌+◌, ◌-◌, ◌/◌, Bool, true, not, false, ◌&&◌, Option, none, some, List}
use libartnet.Base.{◌≡◌, ap, min, ltb, leb, ◌==◌, if◌then◌else◌, memcpy, memcpy_at}
use libartnet.Firmware.{Transfer, FirmwarePacket, FirmwareType, first, cont, last, unknown}
use libartnet.Firmware.{FirmwareStatus, block_good, all_good, fail, max_payload_bytes}
use libartnet.Firmware.{announced_length, payload_bytes, has_payload, block_number}
use libartnet.Firmware.{total_blocks, offset_bytes, last_length}

-- A call of the firmware callback: UBEA or not, the data, and its length in words.
pub record Upload : Type 0 where
  pub ubea : Bool
  pub image : Option (List ℕ)
  pub words : ℕ

-- The new state, the status that is sent back (`none` where ARTNET_EMEM is returned instead), and
-- the call of the firmware callback, if any.
abbrev pub Outcome : Type 0
Outcome = Transfer × Option FirmwareStatus × Option Upload

abbrev refused : Transfer → Outcome
refused t = (t, some fail, none)

-- The callback, if the user has set it.
abbrev pub call : Bool → Bool → Transfer → Option Upload
call firmware_c with_ubea t =
    if firmware_c
    then some (record { ubea = with_ubea; image = t.block; words = t.bytes_total / 2 })
    else none

-- `reset_firmware_upload`
unfoldable pub reset_firmware_upload : Transfer → Transfer
reset_firmware_upload t = record t {
  block = none;
  bytes_current = 0;
  bytes_total = 0;
  peer = 0;
  ubea = false;
  last_time = 0;
}

-- The firmware time-out of `check_timeouts`: the new transfer, and whether it timed out
unfoldable pub firmware_timeout : ℕ → Transfer → Transfer × Bool
firmware_timeout now t =
    if not (t.peer == 0) && artnet_is_timeout now t.last_time firmware_timeout_ms
    then (reset_firmware_upload t, true)
    else (t, false)

copy_to : Option (List ℕ) → ℕ → List ℕ → ℕ → Option (List ℕ)
copy_to none at src n = none
copy_to (some cells) at src n = some (memcpy_at cells at src n)

-- The transfer that a first block starts, in a block of memory that malloc gave.
unfoldable pub started : ℕ → Bool → FirmwarePacket → List ℕ → Transfer
started now with_ubea p cells =
    let block_length = min (announced_length p) (payload_bytes p) in
    record {
      block = some (memcpy cells p.payload block_length);
      bytes_current = block_length;
      bytes_total = announced_length p;
      peer = p.from;
      ubea = with_ubea;
      last_time = now;
      expected_block = 1;
    }

-- The first block after malloc, which gave `alloc`. The peer is stored before.
unfoldable pub start_with : Bool → ℕ → Option (List ℕ) → Bool → FirmwarePacket → Transfer → Outcome
start_with firmware_c now none with_ubea p t = (record t { peer = p.from }, none, none)
start_with firmware_c now (some cells) with_ubea p t =
    let t' = started now with_ubea p cells in
    if t'.bytes_current == announced_length p
    then (t', some all_good, call firmware_c with_ubea t')
    else (t', some block_good, none)

unfoldable pub handle_first :
    Bool → ℕ → Option (List ℕ) → Bool → FirmwarePacket → Transfer → Outcome
handle_first firmware_c now alloc with_ubea p t =
    if t.peer == 0
    then (if has_payload p then start_with firmware_c now alloc with_ubea p t else refused t)
    else refused t

-- The test on a block in the middle.
unfoldable pub cont_fits : FirmwarePacket → Transfer → Bool
cont_fits p t =
    let block_id = block_number t p in
    t.peer == p.from
    && announced_length p == t.bytes_total
    && ltb block_id (total_blocks (announced_length p) - 1)
    && leb (offset_bytes block_id + max_payload_bytes) t.bytes_total
    && leb max_payload_bytes (payload_bytes p)

unfoldable pub handle_cont : FirmwarePacket → Transfer → Outcome
unfolding copy_to
handle_cont p t =
    if has_payload p && cont_fits p t
    then (
      record t {
        block = copy_to t.block (offset_bytes (block_number t p)) p.payload max_payload_bytes;
        bytes_current = t.bytes_current + max_payload_bytes;
        expected_block = t.expected_block + 1;
      },
      some block_good,
      none,
    )
    else refused t

-- The tests on the last block; every failure is answered alike.
unfoldable pub last_fits : FirmwarePacket → Transfer → Bool
last_fits p t =
    let block_id = block_number t p in
    leb (last_length t.bytes_total) (payload_bytes p)
    && t.peer == p.from
    && announced_length p == t.bytes_total
    && block_id == total_blocks (announced_length p) - 1
    && leb (offset_bytes block_id + last_length t.bytes_total) t.bytes_total

unfoldable pub handle_last : Bool → FirmwarePacket → Transfer → Outcome
unfolding copy_to
handle_last firmware_c p t =
    let filled = record t {
      block =
          copy_to t.block (offset_bytes (block_number t p)) p.payload (last_length t.bytes_total);
      bytes_current = t.bytes_current + last_length t.bytes_total;
    } in
    if has_payload p && last_fits p t
    then (reset_firmware_upload filled, some all_good, call firmware_c t.ubea filled)
    else refused t

dispatch_type : Bool → ℕ → Option (List ℕ) → FirmwareType → FirmwarePacket → Transfer → Outcome
dispatch_type firmware_c now alloc (first with_ubea) p t =
    handle_first firmware_c now alloc with_ubea p t
dispatch_type firmware_c now alloc (cont _) p t = handle_cont p t
dispatch_type firmware_c now alloc (last _) p t = handle_last firmware_c p t
dispatch_type firmware_c now alloc unknown p t = refused t

-- `handle_firmware`, behind its own callback.
unfoldable pub handle_firmware : Bool → ℕ → Option (List ℕ) → FirmwarePacket → Transfer → Outcome
unfolding dispatch_type
handle_firmware firmware_c now alloc p t = dispatch_type firmware_c now alloc p.type p t

-- The packet's type decides which branch runs.
module _ (firmware_c : Bool) (now : ℕ) (alloc : Option (List ℕ)) (p : FirmwarePacket)
    (t : Transfer) where
  pub handle_firmware-first :
      {with_ubea : Bool}
      → p.type ≡ first with_ubea
      → handle_firmware firmware_c now alloc p t ≡ handle_first firmware_c now alloc with_ubea p t
  unfolding handle_firmware
  handle_firmware-first e = ap (λ type. dispatch_type firmware_c now alloc type p t) e

  pub handle_firmware-cont :
      {with_ubea : Bool}
      → p.type ≡ cont with_ubea
      → handle_firmware firmware_c now alloc p t ≡ handle_cont p t
  unfolding handle_firmware
  handle_firmware-cont e = ap (λ type. dispatch_type firmware_c now alloc type p t) e

  pub handle_firmware-last :
      {with_ubea : Bool}
      → p.type ≡ last with_ubea
      → handle_firmware firmware_c now alloc p t ≡ handle_last firmware_c p t
  unfolding handle_firmware
  handle_firmware-last e = ap (λ type. dispatch_type firmware_c now alloc type p t) e

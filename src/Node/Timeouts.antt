-- ===== src/Node/Timeouts.antt =====
-- `check_timeouts` (artnet/artnet.c) as a whole: the output time-outs, the keepalive of the inputs,
-- the clean-up of the node list, the firmware time-out and the delayed ArtPollReply.
mod Tests
use libartnet.Base.{
  ℕ, zero, suc, ◌≤◌, ◌≡◌, ◌%◌, refl, ap, arith, Bool, true, false, ◌&&◌, ◌||◌, not, List, [], ◌∷◌,
  Option, none, some,
}
use libartnet.Base.{if◌then◌else◌, ◌==◌, ltb, leb, bit_and, and_mask, memcpy}
use libartnet.Firmware.{Transfer}
use libartnet.Firmware.Exchange.{upload_completes}
use libartnet.Firmware.Sides.{ended, upload, IsInTime}
use libartnet.Firmware.Receive.{reset_firmware_upload, firmware_timeout}
use libartnet.Firmware.Send.{completed}
use libartnet.Firmware.Steps.{IsImage, upload_of}
use libartnet.Base
use libartnet.Base.{◌≢◌, ◌⊎◌}
use libartnet.Node.{Node, check_output_timeouts, firmware_fail}
use libartnet.Node.Send.{artnet_send_dmx, build_dmx, sent_dmx}
use libartnet.NodeList.{NodeList, purge_nodes}
use libartnet.Packet.{Packet}
use libartnet.Poll.{PollState}
use libartnet.Port.{InputPort, Event, has_bit, port_status_input_disabled}
use libartnet.Time.{artnet_is_timeout, dmx_keepalive_interval_ms, firmware_timeout_ms}

-- What the third loop does to an input port: it sends the last data again. The array for the
-- receivers is taken to be allocated.
unfoldable pub keepalive_step : Bool → ℕ → ℕ → InputPort → InputPort × Option Packet
keepalive_step mode_on now i port =
    if not port.port_enabled || port.last_dmx_send_time == 0
    then (port, none)
    else if artnet_is_timeout now port.last_dmx_send_time dmx_keepalive_interval_ms
        && ltb 0 port.last_dmx_length
    then (let (port', _, sent) =
          artnet_send_dmx true mode_on now i port.last_dmx_length port.last_dmx_data port in
        (port', sent))
    else (port, none)

abbrev prepend : Option Packet → List Packet → List Packet
prepend none ps = ps
prepend (some p) ps = p ∷ ps

unfoldable pub keepalive : Bool → ℕ → ℕ → List InputPort → List InputPort × List Packet
keepalive mode_on now i [] = ([], [])
keepalive mode_on now i (port ∷ ports) =
    let (port', sent) = keepalive_step mode_on now i port in
    let (ports', later) = keepalive mode_on now (suc i) ports in
    (port' ∷ ports', prepend sent later)

-- The delayed ArtPollReply: the new state, and whether it is sent
unfoldable pub apr_timeout : ℕ → PollState → PollState × Bool
apr_timeout now st =
    if st.apr_pending && leb st.apr_pending_time now
    then (record st { apr_pending = false }, true)
    else (st, false)

-- The parts of a node that it works on
pub record Timed : Type 0 where
  pub node : Node
  pub list : NodeList
  pub transfer : Transfer
  pub polled : PollState

-- `check_timeouts`: what it leaves, the callbacks that it calls, the ArtDmx that it sends, and
-- whether it sends an ArtPollReply.
unfoldable pub check_timeouts : ℕ → Timed → Timed × List Event × List Packet × Bool
check_timeouts now s =
    let (n, events) = check_output_timeouts now s.node in
    let (inputs, sent) = keepalive n.mode_on now 0 n.inputs in
    let (t, timed_out) = firmware_timeout now s.transfer in
    let (st, replies) = apr_timeout now s.polled in
    let kept = record n { inputs = inputs } in
    (
      record {
        node = (if timed_out then record kept { report_code = firmware_fail } else kept);
        list = purge_nodes now s.list;
        transfer = t;
        polled = st;
      },
      events,
      sent,
      replies,
    )

memcpy_same : (xs : List ℕ) (n : ℕ) → memcpy xs xs n ≡ xs
unfolding memcpy
memcpy_same xs zero = refl
memcpy_same [] (suc n) = refl
memcpy_same (x ∷ xs) (suc n) = ap (λ l. x ∷ l) (memcpy_same xs n)

-- An input port that is on and not disabled, of a node that is on, and that last sent data of an
-- even length from 2 to 512, longer ago than the keepalive interval, sends the same data again in
-- an ArtDmx, keeps it, and starts the interval anew.
pub keepalive_repeats :
    (now i : ℕ) (port : InputPort)
    → port.port_enabled ≡ true
    → port.last_dmx_send_time == 0 ≡ false
    → artnet_is_timeout now port.last_dmx_send_time dmx_keepalive_interval_ms ≡ true
    → has_bit port.port_status port_status_input_disabled ≡ false
    → 2 ≤ port.last_dmx_length
    → port.last_dmx_length ≤ 512
    → port.last_dmx_length % 2 ≡ 0
    → let (after, sent) = keepalive_step true now i port in
      (sent ≡ some (build_dmx 0 i port.last_dmx_length port.last_dmx_data port))
      × (after.last_dmx_data ≡ port.last_dmx_data)
      × (after.last_dmx_length ≡ port.last_dmx_length)
      × (after.last_dmx_send_time ≡ now)
unfolding keepalive_step artnet_send_dmx sent_dmx
keepalive_repeats now i port on sent_once quiet enabled low high even =
    let parity : bit_and port.last_dmx_length 1 ≡ 0 =
      omega (arith, and_mask 1 port.last_dmx_length) in
    let some_data : ltb 0 port.last_dmx_length ≡ true = ground arith in
    let in_range : ltb port.last_dmx_length 2
          || ltb 512 port.last_dmx_length
          || not (bit_and port.last_dmx_length 1 == 0)
        ≡ false =
      rw parity (ground arith) in
    rw (on, sent_once, quiet, some_data, in_range, enabled)
      (refl, memcpy_same port.last_dmx_data port.last_dmx_length, refl, refl)

-- The receiver of a timed-out transfer is idle.
timed_out-idle :
    (now : ℕ) (s : Timed)
    → s.transfer.peer == 0 ≡ false
    → artnet_is_timeout now s.transfer.last_time firmware_timeout_ms ≡ true
    → let after = (check_timeouts now s).0 in
      (after.transfer.peer ≡ 0) × (after.node.report_code ≡ firmware_fail)
unfolding check_timeouts firmware_timeout reset_firmware_upload
timed_out-idle now s busy late = rw (busy, late) (refl, refl)

-- Where the firmware transfer that a receiver is in has timed out, `check_timeouts` reports the
-- failure, and then an upload over a network that loses nothing completes: an image of an even,
-- positive number of bytes below 2^31 that fits one packet, or whose length is not a multiple of
-- 1024, where the receiver can allocate it and each packet arrives within the firmware time-out,
-- counted from the first.
pub check_timeouts_frees :
    (now from to : ℕ) (s : Timed) (image cells : List ℕ) (ubea : Bool) (clock : ℕ → ℕ)
    → s.transfer.peer == 0 ≡ false
    → artnet_is_timeout now s.transfer.last_time firmware_timeout_ms ≡ true
    → IsImage image
    → Base.length cells ≡ Base.length image
    → IsInTime clock image
    → (Base.length image ≤ 1024) ⊎ (Base.length image % 1024 ≢ 0)
    → let after = (check_timeouts now s).0 in
      (upload from clock cells image to ubea after.transfer
        ≡ ended (some (upload_of image ubea)) completed)
      × (after.node.report_code ≡ firmware_fail)
check_timeouts_frees now from to s image cells ubea clock busy late good size in_time fits =
    let (idle, failed) = timed_out-idle now s busy late in
    (
      upload_completes image from to clock ubea good in_time cells (check_timeouts now s).0.transfer
          idle size fits,
      failed,
    )

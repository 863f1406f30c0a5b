-- ===== src/Node/Timeouts/Tests.antt =====
-- Time-outs of an input port that fell silent and of an upload that stopped, and an ArtInput.
use libartnet.Base.{
  ◌+◌, ◌≡◌, refl, arith, true, false, some, [], ◌∷◌, replicate, if◌then◌else◌, get_elem?, eok, earg,
  ◌++◌,
}
use libartnet.Base.{ℕ, List, inl, ◌*◌}
use libartnet.Firmware.{Transfer}
use libartnet.Firmware.Sides.{ended, upload, IsInTime}
use libartnet.Firmware.Send.{completed}
use libartnet.Firmware.Steps.{IsImage, upload_of}
use libartnet.Node.{firmware_fail}
use libartnet.Node.Address.{bind_index_matches}
use libartnet.Node.Input.{artnet_handle_input, artnet_handle_input_sends, port_disable_mask}
use libartnet.Node.Samples.{input, small_node}
use libartnet.Node.Send.{artnet_send_dmx, build_dmx}
use libartnet.Node.Timeouts.{
  Timed, keepalive_step, keepalive_repeats, check_timeouts, check_timeouts_frees,
}
use libartnet.Packet.{Packet, byte}
use libartnet.Packet
use libartnet.Port.{InputPort, has_bit}
use libartnet.Time.{artnet_is_timeout}

abbrev silent : InputPort
silent = record input { last_dmx_length = 8; last_dmx_send_time = 1000 }

repeats_example :
    let (after, sent) = keepalive_step true 9000 0 silent in
    (sent ≡ some (build_dmx 0 0 silent.last_dmx_length silent.last_dmx_data silent))
    × (after.last_dmx_data ≡ silent.last_dmx_data)
    × (after.last_dmx_length ≡ silent.last_dmx_length)
    × (after.last_dmx_send_time ≡ 9000)
unfolding artnet_is_timeout has_bit
repeats_example =
    keepalive_repeats 9000 0 silent refl refl refl refl (omega arith) (omega arith) refl

abbrev receiving : Transfer
receiving = record {
  block = some (replicate 2048 0);
  bytes_current = 1024;
  bytes_total = 2048;
  peer = 10;
  ubea = false;
  last_time = 1000;
  expected_block = 1;
}

abbrev interrupted : Timed
interrupted = record {
  node = small_node false;
  list = record { entries = []; length = 0; nl_seq = 0 };
  transfer = receiving;
  polled = record {
    reply_addr = 0;
    send_apr_on_change = false;
    vlc_disabled = false;
    diag_enabled = false;
    diag_unicast = false;
    diag_controller_ips = [];
    diag_priority = 0;
    apr_pending = false;
    apr_pending_time = 0;
  };
}

abbrev image : List ℕ
image = replicate 100 7

image-IsImage : IsImage image
image-IsImage = record { words = refl; some_bytes = omega arith; fits_int = omega arith }

-- A packet every 50 ms, after the time-out
abbrev resumed : ℕ → ℕ
resumed k = 61000 + 50 * k

resumed-IsInTime : IsInTime resumed image
unfolding IsInTime artnet_is_timeout
resumed-IsInTime k h = ground arith

frees_example :
    let after = (check_timeouts 60000 interrupted).0 in
    (upload 20 resumed (replicate 100 0) image 30 false after.transfer
      ≡ ended (some (upload_of image false)) completed)
    × (after.node.report_code ≡ firmware_fail)
unfolding artnet_is_timeout
frees_example =
    check_timeouts_frees 60000 20 30 interrupted image (replicate 100 0) false resumed refl refl
      image-IsImage refl resumed-IsInTime (inl (omega arith))

-- An ArtInput for page 1 that counts one port, and disables it
abbrev switch_off : Packet
switch_off = record {
  length = 20;
  from = 10;
  type = Packet.input;
  bytes = replicate 13 0 ++ (1 ∷ 0 ∷ 1 ∷ 0x01 ∷ 0 ∷ 0 ∷ 0 ∷ []);
}

input_example :
    (after : InputPort) × (get_elem?
        (artnet_handle_input false switch_off (small_node false)).0.inputs
        0
      ≡ some after)
    × (after.port_addr ≡ input.port_addr)
    × ((artnet_send_dmx true true 9000 0 8 (replicate 8 50) after).1
        ≡ (if has_bit (byte switch_off (16 + 0)) port_disable_mask then earg else eok))
unfolding bind_index_matches
input_example =
    artnet_handle_input_sends switch_off (small_node false) 0 9000 8 (replicate 8 50) input refl
      refl refl (omega arith) (omega arith) (omega arith) (omega arith) refl

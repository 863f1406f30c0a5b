-- ===== src/Machine/Rejected/Tests.antt =====
-- An ArtDmx that announces more slots than it has
use libartnet.Base.{◌≡◌, refl, arith, [], inr}
use libartnet.Machine.{handle, parse_failed}
use libartnet.Machine.Rejected.{handle_truncated}
use libartnet.Machine.Samples.{quiet_world, ready, cut_frame}
use libartnet.Packet.Payload.{payload_end}
use libartnet.Wire.{bytes_to_short}

truncated_example : handle quiet_world cut_frame ready ≡ (parse_failed ready, [])
unfolding payload_end bytes_to_short
truncated_example = handle_truncated quiet_world cut_frame ready refl (inr (refl, omega arith))

-- ===== src/Machine/Run/Tests.antt =====
-- A node that is made, started, gets an ArtDmx and lets time pass.
use libartnet.Machine.{handle}
use libartnet.Machine.Read.{received_packet, time_out}
use libartnet.Machine.Run.{then_step, packet, time_passes}
use libartnet.Machine.Run.Kept.{IsReachable-IsSound}
use libartnet.Machine.Samples.{quiet_world, ready, ready-IsReachable, dmx_frame}
use libartnet.Machine.Sound.{IsSound}

IsReachable-IsSound_example :
    IsSound (time_out 2000 (handle quiet_world (received_packet 10 dmx_frame) ready).0).0
IsReachable-IsSound_example =
    let after = (handle quiet_world (received_packet 10 dmx_frame) ready).0 in
    IsReachable-IsSound (time_out 2000 after).0 (
      then_step (then_step ready-IsReachable (packet quiet_world 10 dmx_frame ready))
        (time_passes 2000 after))

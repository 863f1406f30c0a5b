-- ===== src/Port/Dmx.antt =====
-- The loop body of `handle_dmx` (artnet/receive.c): one ArtDmx packet on one matching output port.
-- The clock is read once for a packet.
use libartnet.Base.{ℕ, false, ◌&&◌, not, List, [], ◌++◌, bit_or}
use libartnet.Base.{memcpy, replicate, if◌then◌else◌, ◌==◌, if_keeps}
use libartnet.Port.{OutputPort, Event, dmx_called, poll_reply, Env, when, artnet_dmx_length}
use libartnet.Port.{stage_output_data, merge, check_merge_timeouts, clear_bit}
use libartnet.Port.{port_status_act_mask, port_status_merge}

-- What the packet brings: its source, its physical port, its slots and their number.
pub record DmxPacket : Type 0 where
  pub source : ℕ
  pub physical : ℕ
  pub slots : List ℕ
  pub data_length : ℕ

abbrev pub artnet_tx_status : Env → List Event
artnet_tx_status env = when env.send_apr_on_change poll_reply

-- A new source takes a slot.
abbrev pub become_a : DmxPacket → OutputPort → OutputPort
become_a p port = record port { ip_a = p.source; physical_a = p.physical }

abbrev pub become_b : DmxPacket → OutputPort → OutputPort
become_b p port = record port { ip_b = p.source; physical_b = p.physical }

-- The packet goes to the buffer of its source, with the time.
abbrev pub receive_a : Env → DmxPacket → OutputPort → OutputPort
receive_a env p port = record port {
  time_a = env.now;
  data_a = memcpy port.data_a p.slots p.data_length;
}

abbrev pub receive_b : Env → DmxPacket → OutputPort → OutputPort
receive_b env p port = record port {
  time_b = env.now;
  data_b = memcpy port.data_b p.slots p.data_length;
}

-- Source A sends alone: first packet, or continued.
unfoldable pub take_alone_a : Env → DmxPacket → OutputPort → OutputPort
take_alone_a env p port =
    stage_output_data env.sync_mode (receive_a env p port) p.slots p.data_length

-- Source B sends alone.
unfoldable pub take_alone_b : Env → DmxPacket → OutputPort → OutputPort
take_alone_b env p port =
    stage_output_data env.sync_mode (receive_b env p port) p.slots p.data_length

-- Source A sends while B is there.
unfoldable pub merge_a : Env → ℕ → DmxPacket → OutputPort → OutputPort × List Event
merge_a env id p port =
    let port' = receive_a env p port in merge env id port' p.data_length port'.data_a

-- Source B sends while A is there.
unfoldable pub merge_b : Env → ℕ → DmxPacket → OutputPort → OutputPort × List Event
merge_b env id p port =
    let port' = receive_b env p port in merge env id port' p.data_length port'.data_b

-- `port_status |= PORT_STATUS_MERGE`, and the reply to the controller.
abbrev pub announce_merge : Env → OutputPort × List Event → OutputPort × List Event
announce_merge env (port, events) = (
  record port { port_status = bit_or port.port_status port_status_merge },
  events ++ artnet_tx_status env,
)

-- The chain of cases. `ip_a` and `ip_b` are what the port held before `check_merge_timeouts`.
unfoldable pub route : Env → ℕ → DmxPacket → ℕ → ℕ → OutputPort → OutputPort × List Event
route env id p ip_a ip_b port =
    let from = p.source in
    let same_a = ip_a == from && port.physical_a == p.physical in
    let same_b = ip_b == from && port.physical_b == p.physical in
    if ip_a == 0 && ip_b == 0
    then (take_alone_a env p (become_a p port), [])
    else if same_a && ip_b == 0
    then (take_alone_a env p port, [])
    else if ip_a == 0 && same_b
    then (take_alone_b env p port, [])
    else if not same_a && ip_b == 0
    then announce_merge env (merge_b env id p (become_b p port))
    else if ip_a == 0 && not same_b
    then announce_merge env (merge_a env id p (become_a p port))
    else if same_a && not same_b
    then merge_a env id p port
    else if not same_a && same_b
    then merge_b env id p port
    else (port, [])

-- What every route has, the chain has.
pub route_cases :
    (P : OutputPort × List Event → Type 0) (env : Env) (id : ℕ) (p : DmxPacket) (ip_a ip_b : ℕ)
    (port : OutputPort)
    → P (take_alone_a env p (become_a p port), [])
    → P (take_alone_a env p port, [])
    → P (take_alone_b env p port, [])
    → P (announce_merge env (merge_b env id p (become_b p port)))
    → P (announce_merge env (merge_a env id p (become_a p port)))
    → P (merge_a env id p port)
    → P (merge_b env id p port)
    → P (port, [])
    → P (route env id p ip_a ip_b port)
unfolding route
route_cases P env id p ip_a ip_b port r1 r2 r3 r4 r5 r6 r7 r8 = if_keeps P _ r1 (
    if_keeps P _ r2
      (if_keeps P _ r3 (if_keeps P _ r4 (if_keeps P _ r5 (if_keeps P _ r6 (if_keeps P _ r7 r8))))))

-- A pending AcCancelMerge: this source stays, alone, as A.
unfoldable pub cancel_merge : Env → DmxPacket → OutputPort → OutputPort
cancel_merge env p port =
    if port.cancel_merge_pending
    then record port {
      cancel_merge_pending = false;
      port_status = clear_bit port.port_status port_status_merge;
      ip_a = p.source;
      physical_a = p.physical;
      time_a = env.now;
      data_a = memcpy port.data_a p.slots p.data_length;
      ip_b = 0;
      physical_b = 0;
      time_b = 0;
      data_b = replicate artnet_dmx_length 0;
    }
    else port

-- What a matching packet notes first.
abbrev pub activate : DmxPacket → OutputPort → OutputPort
activate p port = record port {
  port_status = bit_or port.port_status port_status_act_mask;
  nzs_start_code = 0;
  last_dmx_source = p.source;
}

-- What it notes last, for the fail-safe.
abbrev pub stamp : Env → OutputPort → OutputPort
stamp env port = record port { last_dmx_time = env.now; failsafe_triggered = false }

-- The whole body for a matching port.
unfoldable pub dmx_port : Env → DmxPacket → ℕ → OutputPort → OutputPort × List Event
dmx_port env p id port =
    let (checked, expired) = check_merge_timeouts env (activate p port) in
    let (routed, merged) = route env id p port.ip_a port.ip_b checked in
    (
      stamp env (cancel_merge env p routed),
      expired ++ (merged ++ when (not env.sync_mode && env.dmx_c) (dmx_called id)),
    )

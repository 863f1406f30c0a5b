-- ===== src/Node.antt =====
-- The node (artnet/private.h) and the handlers of artnet/receive.c that work on its output ports:
-- ArtDmx, ArtSync, ArtNzs, and the fail-safe and ArtSync time-outs of artnet/artnet.c. The arrays
-- of four ports are lists. `check_callback` is the argument `handled`: what a user's callback
-- answers. The clock is read once for a packet.
pub mod Ports
pub mod Address
pub mod Send
pub mod Config
pub mod Input
pub mod Timeouts
pub mod Samples
mod Tests
use libartnet.Base.{
  ℕ, zero, suc, ◌+◌, ◌*◌, min, Bool, true, false, ◌&&◌, ◌||◌, not, List, [], ◌∷◌, ◌++◌,
}
use libartnet.Base.{if◌then◌else◌, ◌==◌, ltb, bit_or, memcpy, replicate, take, drop}
use libartnet.Port.{InputPort, OutputPort, Event, dmx_called, Env, when, flush_sync_output, has_bit}
use libartnet.Port.{artnet_dmx_length, port_status_act_mask, is_merging}
use libartnet.Port.Dmx.{DmxPacket, dmx_port}
use libartnet.Packet.{Packet, byte, short}
use libartnet.Time.{artnet_is_timeout, dmx_failsafe_timeout_ms, artsync_timeout_ms}

-- `artnet_node_type`
pub data NodeType : Type 0 where
  srv node msrv route backup raw : NodeType

-- `artnet_failsafe_mode_t`
pub data FailsafeMode : Type 0 where
  hold zeros full scene : FailsafeMode

-- `ARTNET_LED_…`
pub data LedState : Type 0 where
  led_unknown led_locate led_mute led_normal : LedState

-- `artnet_node_report_code`, as far as it is set here
pub data ReportCode : Type 0 where
  power_ok parse_fail shname_ok loname_ok user_fail firmware_fail debug : ReportCode

-- The fields of `node_state_t` and of the ports that the modelled operations use. `mode_on` is
-- `mode == ARTNET_ON`, `dmx_c` whether a dmx callback is set, and a time 0 is none.
pub record Node : Type 0 where
  pub node_type : NodeType
  pub mode_on : Bool
  pub reply_addr : ℕ
  pub send_apr_on_change : Bool
  pub short_name : List ℕ
  pub long_name : List ℕ
  pub net_switch : ℕ
  pub default_net_switch : ℕ
  pub net_switch_net_ctl : Bool
  pub sub_switch : ℕ
  pub default_sub_switch : ℕ
  pub sub_switch_net_ctl : Bool
  pub report_code : ReportCode
  pub led_state : LedState
  pub failsafe_mode : FailsafeMode
  pub acn_priority : ℕ
  pub bind_index : ℕ
  pub bqp_policy : ℕ
  pub sync_mode : Bool
  pub last_sync_time : ℕ
  pub last_dmx_source : ℕ
  pub dmx_c : Bool
  pub types : List ℕ
  pub inputs : List InputPort
  pub outputs : List OutputPort

abbrev pub env_of : ℕ → Node → Env
env_of now n = record {
  now = now;
  sync_mode = n.sync_mode;
  send_apr_on_change = n.send_apr_on_change;
  dmx_c = n.dmx_c;
}

-- A `for` loop over the output ports, from index `i` on, with what leaves the node.
unfoldable pub each_port :
    (ℕ → OutputPort → OutputPort × List Event) → ℕ → List OutputPort → List OutputPort × List Event
each_port step i [] = ([], [])
each_port step i (port ∷ ports) =
    let (port', events) = step i port in
    let (ports', later) = each_port step (suc i) ports in (port' ∷ ports', events ++ later)

-- The packet's Port-Address: low byte first.
abbrev pub universe : Packet → ℕ
universe p = byte p 14 + byte p 15 * 256

-- What `handle_dmx` reads of the packet.
abbrev pub dmx_packet : Packet → DmxPacket
dmx_packet p = record {
  source = p.from;
  physical = byte p 13;
  slots = take artnet_dmx_length (drop 18 p.bytes);
  data_length = min (short p 16 17) artnet_dmx_length;
}

-- The loop body of `handle_dmx`, with its test
unfoldable pub dmx_step : Env → Packet → ℕ → OutputPort → OutputPort × List Event
dmx_step env p i port =
    if universe p == port.port_addr && port.port_enabled
    then dmx_port env (dmx_packet p) i port
    else (port, [])

-- `handle_dmx`
unfoldable pub handle_dmx : Bool → ℕ → Packet → Node → Node × List Event
handle_dmx handled now p n =
    if handled
    then (n, [])
    else (let (outputs, events) = each_port (dmx_step (env_of now n) p) 0 n.outputs in
        (record n { last_dmx_source = p.from; outputs = outputs }, events))

-- Does ArtSync from this source apply to the port?
unfoldable pub accepts_sync : ℕ → OutputPort → Bool
accepts_sync from port =
    port.port_enabled
    && not (is_merging port && not (port.ip_a == port.ip_b))
    && not (not (port.last_dmx_source == 0) && not (port.last_dmx_source == from))

unfoldable pub sync_step : Bool → ℕ → ℕ → OutputPort → OutputPort × List Event
sync_step dmx_c from i port =
    if accepts_sync from port then flush_sync_output dmx_c i port else (port, [])

abbrev pub any_accepts : ℕ → List OutputPort → Bool
any_accepts from [] = false
any_accepts from (port ∷ ports) = accepts_sync from port || any_accepts from ports

-- `handle_sync`
unfoldable pub handle_sync : Bool → ℕ → Packet → Node → Node × List Event
handle_sync handled now p n =
    if handled
    then (n, [])
    else (let (outputs, events) = each_port (sync_step n.dmx_c p.from) 0 n.outputs in
        if any_accepts p.from n.outputs
        then (record n { outputs = outputs; sync_mode = true; last_sync_time = now }, events)
        else (record n { outputs = outputs }, events))

-- What `handle_nzs` does to the port that matches first; no other port changes.
unfoldable pub nzs_port : ℕ → Packet → OutputPort → OutputPort
nzs_port now p port =
    let data_length = min (short p 16 17) artnet_dmx_length in
    record port {
      buffer = memcpy port.buffer (take artnet_dmx_length (drop 18 p.bytes)) data_length;
      length = data_length;
      nzs_start_code = byte p 13;
      port_status = bit_or port.port_status port_status_act_mask;
      last_dmx_time = now;
    }

unfoldable pub nzs_ports : Bool → ℕ → Packet → ℕ → List OutputPort → List OutputPort × List Event
nzs_ports dmx_c now p i [] = ([], [])
nzs_ports dmx_c now p i (port ∷ ports) =
    let (later, events) = nzs_ports dmx_c now p (suc i) ports in
    if port.port_enabled && universe p == port.port_addr
    then (nzs_port now p port ∷ ports, when dmx_c (dmx_called i))
    else (port ∷ later, events)

-- `handle_nzs`
unfoldable pub handle_nzs : Bool → ℕ → Packet → Node → Node × List Event
handle_nzs handled now p n =
    if handled
    then (n, [])
    else (let (outputs, events) = nzs_ports n.dmx_c now p 0 n.outputs in
        (record n { outputs = outputs }, events))

-- What the fail-safe puts out.
unfoldable pub failsafe_output : FailsafeMode → OutputPort → OutputPort
failsafe_output hold port = port
failsafe_output zeros port = record port {
  buffer = replicate artnet_dmx_length 0;
  length = artnet_dmx_length;
}
failsafe_output full port = record port {
  buffer = replicate artnet_dmx_length 255;
  length = artnet_dmx_length;
}
failsafe_output scene port =
    if ltb 0 port.failsafe_length
    then record port {
      buffer = memcpy port.buffer port.failsafe_data artnet_dmx_length;
      length = port.failsafe_length;
    }
    else port

-- The fail-safe loop body of `check_timeouts`
unfoldable pub failsafe_step : FailsafeMode → ℕ → ℕ → OutputPort → OutputPort × List Event
failsafe_step mode now i port =
    if port.port_enabled
      && not (port.last_dmx_time == 0)
      && not port.failsafe_triggered
      && artnet_is_timeout now port.last_dmx_time dmx_failsafe_timeout_ms
    then (record (failsafe_output mode port) { failsafe_triggered = true }, [])
    else (port, [])

-- The loop body that leaves sync mode; `memcpy` of `sync_length` bytes, which never passes 512.
unfoldable pub unsync_step : Bool → ℕ → OutputPort → OutputPort × List Event
unsync_step dmx_c i port =
    if port.sync_pending
    then (
      record port {
        buffer = memcpy port.buffer port.sync_data port.sync_length;
        length = port.sync_length;
        sync_pending = false;
      },
      when dmx_c (dmx_called i),
    )
    else (port, [])

-- The first two parts of `check_timeouts`: the fail-safe, then the end of sync mode.
unfoldable pub check_output_timeouts : ℕ → Node → Node × List Event
check_output_timeouts now n =
    let safe = (each_port (failsafe_step n.failsafe_mode now) 0 n.outputs).0 in
    if n.sync_mode && artnet_is_timeout now n.last_sync_time artsync_timeout_ms
    then (let (outputs, events) = each_port (unsync_step n.dmx_c) 0 safe in
        (record n { outputs = outputs; sync_mode = false }, events))
    else (record n { outputs = safe }, [])

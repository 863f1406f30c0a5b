-- ===== src/Machine.antt =====
-- `artnet_node_t` (artnet/private.h) as a whole, and `handle` (artnet/receive.c), which checks a packet
-- and gives it to the handler of its type. The handlers are those of Node, Poll, NodeList, Rdm, Prog,
-- Files and Firmware; each works on its part of the node.
pub mod Decode
pub mod Sound
pub mod Start
pub mod Read
pub mod Run
pub mod Link
pub mod Samples
pub mod Remote
pub mod Rejected
pub mod Peers
use libartnet.Base.{
  ℕ, Bool, true, false, not, List, [], ◌∷◌, ◌++◌, Option, none, some, if◌then◌else◌, ◌==◌,
}
use libartnet.Files.{
  FileOutcome, handle_file_tn_master, handle_directory, handle_file_fn_master, handle_command,
  handle_trigger,
}
use libartnet.Firmware.{FirmwareStatus, Transfer}
use libartnet.Firmware.Receive.{handle_firmware, Upload, Outcome}
use libartnet.Machine.Decode.{poll_reply_of, firmware_packet}
use libartnet.Node.{Node, NodeType, raw, parse_fail, debug, handle_dmx, handle_sync, handle_nzs}
use libartnet.Node.Address.Command.{handle_address}
use libartnet.Node.Input.{artnet_handle_input}
use libartnet.NodeList.{NodeList, artnet_nl_update}
use libartnet.Packet.{Packet, PacketType, packet_length_is_valid}
use libartnet.Packet
use libartnet.Packet.Fields.{packet_fields_are_valid}
use libartnet.Poll.{PollState, PortPair, handle_poll}
use libartnet.Port.{InputPort, OutputPort, Event, poll_reply, when}
use libartnet.Prog.{NetState, ProgEvent, handle_ipprog}
use libartnet.Rdm.{
  RdmState, RdmEvent, handle_tod_request, handle_tod_data, handle_tod_control, handle_rdm,
}
use libartnet.Transmit.{Datagram, Sent, Tx, TxState}

-- The node. `node` holds the ports and the fields of `node_state_t` for DMX, ArtAddress and ArtInput, and
-- `rdm` those for RDM. `firmware_c` and `program_c` tell whether those callbacks are set.
pub record Artnet : Type 0 where
  pub node : Node
  pub list : NodeList
  pub transfer : Transfer
  pub rdm : RdmState
  pub vlc_disabled : Bool
  pub diag_enabled : Bool
  pub diag_unicast : Bool
  pub diag_controller_ips : List ℕ
  pub diag_priority : ℕ
  pub apr_pending : Bool
  pub apr_pending_time : ℕ
  pub ip_addr : ℕ
  pub bcast_addr : ℕ
  pub subnet_mask : ℕ
  pub gateway : ℕ
  pub esta_hi : ℕ
  pub esta_lo : ℕ
  pub oem_hi : ℕ
  pub oem_lo : ℕ
  pub firmware_c : Bool
  pub program_c : Bool

-- What the handling of one packet takes from outside: the clock, the random delay of an ArtPollReply,
-- the answers of the `recv` callback and of the callback for the packet's type, the success of the
-- sends, what malloc gives, the firmware callback's answer, and htonl.
pub record World : Type 0 where
  pub now : ℕ
  pub delay : ℕ
  pub recv_handled : Bool
  pub handled : Bool
  pub works : ℕ → ℕ → ℕ → Bool
  pub entry_alloc : Bool
  pub firmware_alloc : Option (List ℕ)
  pub accepts : Bool
  pub htonl : ℕ → ℕ

-- What leaves the node. `given` is a packet that its handler gives to the callback of its type and does
-- nothing else with. An ArtFirmwareReply goes to the transfer of a list entry, which Firmware.Send
-- models; here it is passed on.
pub data Effect : Type 0 where
  port_event : Event → Effect
  rdm_event : RdmEvent → Effect
  prog_event : ProgEvent → Effect
  datagram : Datagram → Effect
  answer : Tx → Effect
  firmware_status : FirmwareStatus → Effect
  firmware_called : Upload → Effect
  file_called : List ℕ × ℕ → Effect
  passed_to_upload : (status : ℕ) → Effect
  sent_packet : Packet → Effect
  given : Packet → Effect

abbrev pub each {ℓ} : {A : Type ℓ} → (A → Effect) → List A → List Effect
each f [] = []
each f (x ∷ xs) = f x ∷ each f xs

abbrev pub if_some {ℓ} : {A : Type ℓ} → (A → Effect) → Option A → List Effect
if_some f none = []
if_some f (some x) = f x ∷ []

-- The fields that each handler works on, and the node with those that it gives
abbrev pub poll_state : Artnet → PollState
poll_state a = record {
  reply_addr = a.node.reply_addr;
  send_apr_on_change = a.node.send_apr_on_change;
  vlc_disabled = a.vlc_disabled;
  diag_enabled = a.diag_enabled;
  diag_unicast = a.diag_unicast;
  diag_controller_ips = a.diag_controller_ips;
  diag_priority = a.diag_priority;
  apr_pending = a.apr_pending;
  apr_pending_time = a.apr_pending_time;
}

abbrev pub with_poll_state : PollState → Artnet → Artnet
with_poll_state st a = record a {
  node = record (a.node) { reply_addr = st.reply_addr; send_apr_on_change = st.send_apr_on_change };
  vlc_disabled = st.vlc_disabled;
  diag_enabled = st.diag_enabled;
  diag_unicast = st.diag_unicast;
  diag_controller_ips = st.diag_controller_ips;
  diag_priority = st.diag_priority;
  apr_pending = st.apr_pending;
  apr_pending_time = st.apr_pending_time;
}

-- `debug_report` tells whether the handler stores ARTNET_RC_DEBUG.
abbrev pub net_state : Artnet → NetState
net_state a = record {
  reply_addr = a.node.reply_addr;
  ip_addr = a.ip_addr;
  bcast_addr = a.bcast_addr;
  subnet_mask = a.subnet_mask;
  gateway = a.gateway;
  debug_report = false;
}

abbrev pub with_net_state : NetState → Artnet → Artnet
with_net_state s a = record a {
  node = record (a.node) {
    reply_addr = s.reply_addr;
    report_code = (if s.debug_report then debug else a.node.report_code);
  };
  ip_addr = s.ip_addr;
  bcast_addr = s.bcast_addr;
  subnet_mask = s.subnet_mask;
  gateway = s.gateway;
}

abbrev pub tx_state : Artnet → TxState
tx_state a = record {
  mode_on = a.node.mode_on;
  node_type = a.node.node_type;
  bcast_addr = a.bcast_addr;
  reply_addr = a.node.reply_addr;
  rdm_reply_addr = a.rdm.rdm_reply_addr;
  ip_addr = a.ip_addr;
  subnet_mask = a.subnet_mask;
  gateway = a.gateway;
  esta_hi = a.esta_hi;
  esta_lo = a.esta_lo;
  oem_hi = a.oem_hi;
  oem_lo = a.oem_lo;
  diag_enabled = a.diag_enabled;
  diag_unicast = a.diag_unicast;
  diag_priority = a.diag_priority;
}

-- Of what the handlers of ArtDirectory and ArtFileFnMaster change, `reply_addr` is all.
abbrev pub with_reply_addr : ℕ → Artnet → Artnet
with_reply_addr ip a = record a { node = record (a.node) { reply_addr = ip } }

-- The ports with one number, as ArtPoll's Target Mode reads them
abbrev pub port_pairs : List OutputPort → List InputPort → List PortPair
port_pairs [] _ = []
port_pairs (out ∷ outs) [] = []
port_pairs (out ∷ outs) (inp ∷ ins) =
    record {
      output_enabled = out.port_enabled;
      output_addr = out.port_addr;
      input_addr = inp.port_addr;
    }
    ∷ port_pairs outs ins

abbrev is_raw_type : NodeType → Bool
is_raw_type raw = true
is_raw_type _ = false

abbrev pub parse_failed : Artnet → Artnet
parse_failed a = record a { node = record (a.node) { report_code = parse_fail } }

abbrev on_node : Node × List Event → Artnet → Artnet × List Effect
on_node (n, events) a = (record a { node = n }, each port_event events)

abbrev replied : Node × Bool → Artnet → Artnet × List Effect
replied (n, replies) a = (record a { node = n }, each port_event (when replies poll_reply))

abbrev on_rdm : RdmState × List RdmEvent → Artnet → Artnet × List Effect
on_rdm (s, events) a = (record a { rdm = s }, each rdm_event events)

abbrev on_net : NetState × List ProgEvent → Artnet → Artnet × List Effect
on_net (s, events) a = (with_net_state s a, each prog_event events)

abbrev on_transfer : Outcome → Artnet → Artnet × List Effect
on_transfer (t, status, called) a =
    (record a { transfer = t }, if_some firmware_called called ++ if_some firmware_status status)

abbrev on_file : FileOutcome → List Effect
on_file r = if_some file_called r.call ++ if_some firmware_status r.reply

-- The `switch` of `handle` on the packet's type
unfoldable pub dispatch : PacketType → World → Packet → Artnet → Artnet × List Effect
dispatch Packet.poll w p a = (
  with_poll_state
      (handle_poll w.handled (is_raw_type a.node.node_type) w.now w.delay p
        (port_pairs a.node.outputs a.node.inputs) (poll_state a))
      a,
  [],
)
dispatch Packet.reply w p a = (
  record a { list = (artnet_nl_update w.entry_alloc w.now p.from (poll_reply_of p) a.list).0 },
  [],
)
dispatch Packet.dmx w p a = on_node (handle_dmx w.handled w.now p a.node) a
dispatch Packet.address w p a = replied (handle_address w.handled p a.node) a
dispatch Packet.input w p a = replied (artnet_handle_input w.handled p a.node) a
dispatch Packet.tod_request w p a =
    let (s, out, _) = handle_tod_request w.handled w.works p a.node a.rdm in
    (record a { rdm = s }, each datagram out)
dispatch Packet.tod_data w p a = (a, each rdm_event (handle_tod_data w.handled p a.rdm))
dispatch Packet.tod_control w p a =
    let (n, s, out, events, _) = handle_tod_control w.handled (w.works 0) p a.node a.rdm in
    (record a { node = n; rdm = s }, each rdm_event events ++ each datagram out)
dispatch Packet.rdm w p a = on_rdm (handle_rdm w.handled p a.rdm) a
dispatch Packet.sync w p a = on_node (handle_sync w.handled w.now p a.node) a
dispatch Packet.nzs w p a = on_node (handle_nzs w.handled w.now p a.node) a
dispatch Packet.directory w p a =
    let (s, tx) = handle_directory w.handled p (tx_state a) in
    (with_reply_addr s.reply_addr a, if_some answer tx)
dispatch Packet.file_tn_master w p a =
    (a, on_file (handle_file_tn_master w.handled (if a.firmware_c then some w.accepts else none) p))
dispatch Packet.file_fn_master w p a =
    (with_reply_addr (handle_file_fn_master p (tx_state a)).reply_addr a, [])
dispatch Packet.firmware_master w p a =
    if w.handled
    then (a, [])
    else on_transfer
        (handle_firmware a.firmware_c w.now w.firmware_alloc (firmware_packet p) a.transfer) a
dispatch Packet.firmware_reply w p a =
    (a, if w.handled then [] else passed_to_upload (Packet.byte p 14) ∷ [])
dispatch Packet.ip_prog w p a =
    on_net (handle_ipprog w.htonl w.handled a.program_c p (net_state a)) a
dispatch Packet.rdm_sub w p a =
    (record a { rdm = record (a.rdm) { rdm_reply_addr = p.from } }, given p ∷ [])
dispatch Packet.command w p a = (a, if handle_command (tx_state a) p then given p ∷ [] else [])
dispatch Packet.trigger w p a = (a, if handle_trigger (tx_state a) p then given p ∷ [] else [])
dispatch Packet.data_request w p a = (a, given p ∷ [])
dispatch Packet.data_reply w p a = (a, given p ∷ [])
dispatch Packet.diag_data w p a = (a, given p ∷ [])
dispatch Packet.time_code w p a = (a, given p ∷ [])
dispatch Packet.time_sync w p a = (a, given p ∷ [])
dispatch Packet.directory_reply w p a = (a, given p ∷ [])
dispatch Packet.file_fn_reply w p a = (a, given p ∷ [])
dispatch Packet.media w p a = (a, given p ∷ [])
dispatch Packet.media_patch w p a = (a, given p ∷ [])
dispatch Packet.media_control w p a = (a, given p ∷ [])
dispatch Packet.media_control_reply w p a = (a, given p ∷ [])
dispatch Packet.other w p a = (parse_failed a, [])
dispatch _ w p a = (a, [])

-- `handle`
unfoldable pub handle : World → Packet → Artnet → Artnet × List Effect
handle w p a =
    if w.recv_handled
    then (a, [])
    else if not (packet_length_is_valid p)
    then (parse_failed a, [])
    else if not (packet_fields_are_valid p)
    then (parse_failed a, [])
    else dispatch p.type w p a

-- ===== src/Machine/Sound/Packets.antt =====
-- A node under `handle` and `check_timeouts`.
use libartnet.Base.{ℕ, refl, not, List, Bool-cases, inl, inr, if_keeps, arith}
use libartnet.Machine.{
  Artnet, World, Effect, dispatch, handle, port_pairs, is_raw_type, poll_state, net_state,
  with_reply_addr, parse_failed,
}
use libartnet.Machine.Read.{time_out}
use libartnet.Machine.Sound.{IsSound, IsSoundNode}
use libartnet.Machine.Sound.Devices.{
  handle_tod_control-IsSoundNode, keepalive-Exactly, keepalive-InputsOn,
}
use libartnet.Machine.Sound.Frames.{
  handle_dmx-IsSoundNode, handle_sync-IsSoundNode, handle_nzs-IsSoundNode,
  check_output_timeouts-IsSoundNode,
}
use libartnet.Machine.Sound.Programs.{same_ports}
use libartnet.Machine.Sound.Settings.{handle_address-IsSoundNode, artnet_handle_input-IsSoundNode}
use libartnet.Node.{Node, check_output_timeouts}
use libartnet.Node.Ports.{IsWhole}
use libartnet.Firmware.Receive.{firmware_timeout}
use libartnet.Node.Timeouts.{check_timeouts, apr_timeout, keepalive}
use libartnet.Packet.{Packet, PacketType, packet_length_is_valid}
use libartnet.Packet
use libartnet.Packet.Fields.{packet_fields_are_valid}
use libartnet.Poll.{PollState}
use libartnet.Poll.Diag.{IsShared, handle_poll-IsShared}
use libartnet.Prog.Programmed.{handle_ipprog-Agrees}
use libartnet.Rdm.{RdmState}
use libartnet.Rdm.Requesters.{
  RdmStep, tod_request, tod_control, rdm, at_rest, and_then, RdmRun-IsRoster,
}

-- A node whose ports or RDM fields are exchanged for sound ones
pub with_node-IsSound :
    (a : Artnet) (n : Node) → IsSound a → IsSoundNode n → IsSound (record a { node = n })
with_node-IsSound a n s v = record {
  node_sound = v;
  roster = s.roster;
  shared = record { few = s.shared.few; broadcast = s.shared.broadcast };
  agrees = s.agrees;
}

with_rdm-IsSound :
    (a : Artnet) (t : RdmState) → IsSound a → RdmStep a.rdm t → IsSound (record a { rdm = t })
with_rdm-IsSound a t s step = record {
  node_sound = s.node_sound;
  roster = (RdmRun-IsRoster a.rdm t (and_then (at_rest a.rdm) step) s.roster).0;
  shared = s.shared;
  agrees = s.agrees;
}

poll-IsSound :
    (w : World) (p : Packet) (a : Artnet) → IsSound a → IsSound (dispatch Packet.poll w p a).0
unfolding dispatch
poll-IsSound w p a s =
    let shared =
      handle_poll-IsShared w.handled (is_raw_type a.node.node_type) w.now w.delay p
        (port_pairs a.node.outputs a.node.inputs) (poll_state a) s.shared in
    record {
      node_sound = same_ports a.node _ s.node_sound refl refl refl refl;
      roster = s.roster;
      shared = record { few = shared.few; broadcast = shared.broadcast };
      agrees = s.agrees;
    }

ip_prog-IsSound :
    (w : World) (p : Packet) (a : Artnet) → IsSound a → IsSound (dispatch Packet.ip_prog w p a).0
unfolding dispatch
ip_prog-IsSound w p a s = record {
  node_sound = same_ports a.node _ s.node_sound refl refl refl refl;
  roster = s.roster;
  shared = record { few = s.shared.few; broadcast = s.shared.broadcast };
  agrees = handle_ipprog-Agrees w.htonl w.handled a.program_c p (net_state a) s.agrees;
}

reply_addr-IsSound : (ip : ℕ) (a : Artnet) → IsSound a → IsSound (with_reply_addr ip a)
reply_addr-IsSound ip a s =
    with_node-IsSound a _ s (same_ports a.node _ s.node_sound refl refl refl refl)

pub parse_failed-IsSound : (a : Artnet) → IsSound a → IsSound (parse_failed a)
parse_failed-IsSound a s =
    with_node-IsSound a _ s (same_ports a.node _ s.node_sound refl refl refl refl)

control-IsSound :
    (w : World) (p : Packet) (a : Artnet)
    → IsSound a
    → IsSound (dispatch Packet.tod_control w p a).0
unfolding dispatch
control-IsSound w p a s =
    with_rdm-IsSound (record a { node = _ }) _
      (with_node-IsSound a _ s
        (handle_tod_control-IsSoundNode a.node s.node_sound w.handled (w.works 0) p a.rdm))
      (tod_control w.handled (w.works 0) p a.node a.rdm)

firmware-IsSound :
    (w : World) (p : Packet) (a : Artnet)
    → IsSound a
    → IsSound (dispatch Packet.firmware_master w p a).0
unfolding dispatch
firmware-IsSound w p a s =
    if_keeps (λ (r : Artnet × List Effect). IsSound r.0) w.handled s
      (record {
        node_sound = s.node_sound;
        roster = s.roster;
        shared = s.shared;
        agrees = s.agrees;
      })

dispatch-IsSound :
    (t : PacketType) (w : World) (p : Packet) (a : Artnet)
    → IsWhole p
    → IsSound a
    → IsSound (dispatch t w p a).0
unfolding dispatch
dispatch-IsSound Packet.poll w p a whole s = unfold dispatch in poll-IsSound w p a s
dispatch-IsSound Packet.reply w p a whole s = record {
  node_sound = s.node_sound;
  roster = s.roster;
  shared = s.shared;
  agrees = s.agrees;
}
dispatch-IsSound Packet.dmx w p a whole s =
    with_node-IsSound a _ s (handle_dmx-IsSoundNode w.now a.node s.node_sound w.handled p whole)
dispatch-IsSound Packet.address w p a whole s =
    with_node-IsSound a _ s (handle_address-IsSoundNode a.node s.node_sound w.handled p)
dispatch-IsSound Packet.input w p a whole s =
    with_node-IsSound a _ s (artnet_handle_input-IsSoundNode a.node s.node_sound w.handled p)
dispatch-IsSound Packet.tod_request w p a whole s =
    with_rdm-IsSound a _ s (tod_request w.handled w.works p a.node a.rdm)
dispatch-IsSound Packet.tod_control w p a whole s = unfold dispatch in control-IsSound w p a s
dispatch-IsSound Packet.rdm w p a whole s = with_rdm-IsSound a _ s (rdm w.handled p a.rdm)
dispatch-IsSound Packet.sync w p a whole s =
    with_node-IsSound a _ s (handle_sync-IsSoundNode w.now a.node s.node_sound w.handled p)
dispatch-IsSound Packet.nzs w p a whole s =
    with_node-IsSound a _ s (handle_nzs-IsSoundNode w.now a.node s.node_sound w.handled p)
dispatch-IsSound Packet.directory w p a whole s = reply_addr-IsSound _ a s
dispatch-IsSound Packet.file_fn_master w p a whole s = reply_addr-IsSound _ a s
dispatch-IsSound Packet.firmware_master w p a whole s = unfold dispatch in firmware-IsSound w p a s
dispatch-IsSound Packet.ip_prog w p a whole s = unfold dispatch in ip_prog-IsSound w p a s
dispatch-IsSound Packet.rdm_sub w p a whole s = record {
  node_sound = s.node_sound;
  roster = s.roster;
  shared = s.shared;
  agrees = s.agrees;
}
dispatch-IsSound Packet.other w p a whole s = parse_failed-IsSound a s
dispatch-IsSound _ w p a whole s = s

-- A packet, whatever it holds, keeps a node sound.
pub handle-IsSound :
    (w : World) (p : Packet) (a : Artnet) → IsWhole p → IsSound a → IsSound (handle w p a).0
unfolding handle
handle-IsSound w p a whole s =
    if_keeps (λ (r : Artnet × List Effect). IsSound r.0) w.recv_handled s
      (if_keeps (λ (r : Artnet × List Effect). IsSound r.0) (not (packet_length_is_valid p))
        (parse_failed-IsSound a s)
        (if_keeps (λ (r : Artnet × List Effect). IsSound r.0) (not (packet_fields_are_valid p))
          (parse_failed-IsSound a s) (dispatch-IsSound p.type w p a whole s)))

apr_timeout-IsShared : (now : ℕ) (st : PollState) → IsShared st → IsShared (apr_timeout now st).0
unfolding apr_timeout
apr_timeout-IsShared now st s = ground (arith, s.few, s.broadcast)

-- The node with its input ports kept alive
abbrev kept_alive : ℕ → Node → Node
kept_alive now n = record n { inputs = (keepalive n.mode_on now 0 n.inputs).0 }

kept_alive-IsSoundNode : (now : ℕ) (n : Node) → IsSoundNode n → IsSoundNode (kept_alive now n)
kept_alive-IsSoundNode now n v = record {
  outputs_sound = v.outputs_sound;
  inputs_sound = keepalive-Exactly n.mode_on now 0 4 n.inputs v.inputs_sound;
  on_page = record {
    inputs_on =
        keepalive-InputsOn n.mode_on now n.net_switch n.sub_switch 0 n.inputs v.on_page.inputs_on;
    outputs_on = v.on_page.outputs_on;
  };
}

-- So do the time-outs.
pub time_out-IsSound : (now : ℕ) (a : Artnet) → IsSound a → IsSound (time_out now a).0
unfolding time_out check_timeouts
time_out-IsSound now a s =
    let shared = apr_timeout-IsShared now (poll_state a) s.shared in
    record {
      node_sound = elim (Bool-cases (firmware_timeout now a.transfer).1) [
        | inl timed_out ↦
            same_ports kept _ kept_sound (rw timed_out refl) (rw timed_out refl) (rw timed_out refl)
              (rw timed_out refl)
        | inr goes_on ↦
            same_ports kept _ kept_sound (rw goes_on refl) (rw goes_on refl) (rw goes_on refl)
              (rw goes_on refl)
      ];
      roster = s.roster;
      shared = record { few = shared.few; broadcast = shared.broadcast };
      agrees = s.agrees;
    }
  where
    timed : Node
    timed = (check_output_timeouts now a.node).0

    kept : Node
    kept = kept_alive now timed

    kept_sound : IsSoundNode kept
    kept_sound =
        kept_alive-IsSoundNode now timed (check_output_timeouts-IsSoundNode now a.node s.node_sound)

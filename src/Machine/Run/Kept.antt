-- ===== src/Machine/Run/Kept.antt =====
-- What every step of a node keeps.
use libartnet.Base.{
  ℕ, ◌^◌, ◌<◌, ◌≡◌, refl, subst, arith, Bool, true, false, List, Option, none, some, Code, eok,
  get_elem?, if_keeps, length-replicate, length-memcpy, min, length, replicate,
}
use libartnet.Machine.{Artnet, Effect}
use libartnet.Machine.Read.{received_packet, data_size}
use libartnet.Machine.Sound.{IsSoundOutput, IsSoundInput, IsSound}
use libartnet.Machine.Sound.Config.{
  set-Exactly, Exactly-get_elem?, set_net-IsSoundNode, set_subnet-IsSoundNode, set_port-IsSoundNode,
  set_short_name-IsSoundNode, set_long_name-IsSoundNode,
}
use libartnet.Machine.Sound.Devices.{
  add_tod_uid-AreUids, remove_tod_uid-AreUids, with_table-IsSoundNode, send_dmx-IsSoundInput,
  send_dmx_addr,
}
use libartnet.Machine.Sound.Packets.{with_node-IsSound, handle-IsSound, time_out-IsSound}
use libartnet.Machine.Sound.Programs.{same_ports}
use libartnet.Machine.Start.{Started, artnet_start, artnet_stop, begin, requests, is_server}
use libartnet.Node.{NodeType}
use libartnet.Node.Config.{artnet_set_node_type}
use libartnet.Node.Config.Port.{set-InputsOn, input-IsOn}
use libartnet.Node.Ports.{IsWhole}
use libartnet.Port.{InputPort, OutputPort}
use libartnet.Rdm.Devices.{artnet_add_rdm_device, artnet_remove_rdm_device}
use libartnet.Tod.Laws.{add_tod_uid-IsValid, remove_tod_uid-IsValid}
use libartnet.Tod.{add_tod_uid, remove_tod_uid}
use libartnet.Machine.Run.{
  with_node, send_dmx, add_device, remove_device, FitsPort, Step, packet, time_passes, start, stop,
  set_node_type, set_net, set_subnet, set_port, set_short_name, set_long_name, sends_dmx,
  device_added, device_removed, IsReachable, created, then_step,
}
use libartnet.Machine.Run.Created.{NewSound, artnet_new-NewSound}

pub received_packet-IsWhole : (from : ℕ) (bytes : List ℕ) → IsWhole (received_packet from bytes)
unfolding received_packet
received_packet-IsWhole from bytes = ground (
  arith,
  length-memcpy (replicate data_size 0) bytes (min (length bytes) data_size),
  length-replicate {A = ℕ} data_size 0,
)

module _ (a : Artnet) (s : IsSound a) where
  mode-IsSound : (on : Bool) → IsSound (record a { node = record (a.node) { mode_on = on } })
  mode-IsSound on = with_node-IsSound a _ s (same_ports a.node _ s.node_sound refl refl refl refl)

  set_node_type-IsSound :
      (type : NodeType) → IsSound (with_node a (artnet_set_node_type type a.node).0)
  unfolding artnet_set_node_type
  set_node_type-IsSound type =
      with_node-IsSound a _ s (same_ports a.node _ s.node_sound refl refl refl refl)

  begin-IsSound :
      (bound poll_sent : Code) (works : ℕ → Bool) → IsSound (begin bound poll_sent works a).0
  begin-IsSound eok poll_sent works =
      if_keeps (λ (r : Artnet × List Effect × Started). IsSound r.0) (is_server a.node.node_type)
        (requested poll_sent) (mode-IsSound true)
    where
      requested :
          (code : Code)
          → IsSound (requests works code (record a { node = record (a.node) { mode_on = true } })).0
      requested eok = mode-IsSound true
      requested _ = mode-IsSound true
  begin-IsSound _ poll_sent works = s

  artnet_start-IsSound :
      (bound poll_sent : Code) (works : ℕ → Bool) → IsSound (artnet_start bound poll_sent works a).0
  unfolding artnet_start
  artnet_start-IsSound bound poll_sent works =
      if_keeps (λ (r : Artnet × List Effect × Started). IsSound r.0) a.node.mode_on s
        (begin-IsSound bound poll_sent works)

  artnet_stop-IsSound : IsSound (artnet_stop a).0
  unfolding artnet_stop
  artnet_stop-IsSound =
      if_keeps (λ (r : Artnet × Code). IsSound r.0) a.node.mode_on (mode-IsSound false) s

  send_dmx-IsSound :
      (ips : Bool) (now i len : ℕ) (slots : List ℕ) (found : Option InputPort)
      → get_elem? a.node.inputs i ≡ found
      → IsSound (send_dmx ips now i len slots a found)
  unfolding send_dmx
  send_dmx-IsSound ips now i len slots none e = s
  send_dmx-IsSound ips now i len slots (some port) e =
      let n = a.node in
      with_node-IsSound a _ s (record {
        outputs_sound = s.node_sound.outputs_sound;
        inputs_sound =
            set-Exactly IsSoundInput 4 i n.inputs _
              (send_dmx-IsSoundInput ips n.mode_on now i len slots port
                (Exactly-get_elem? IsSoundInput 4 i n.inputs port e s.node_sound.inputs_sound))
              s.node_sound.inputs_sound;
        on_page = record {
          inputs_on =
              set-InputsOn n.net_switch n.sub_switch i n.inputs _
                (rw (send_dmx_addr ips n.mode_on now i len slots port) (
                  input-IsOn n.net_switch n.sub_switch i n.inputs port e
                    s.node_sound.on_page.inputs_on))
                s.node_sound.on_page.inputs_on;
          outputs_on = s.node_sound.on_page.outputs_on;
        };
      })

  add_device-IsSound :
      (works : ℕ → ℕ → Bool) (alloc : Option (List ℕ)) (uid id : ℕ) (found : Option OutputPort)
      → get_elem? a.node.outputs id ≡ found
      → FitsPort alloc found
      → uid < 2 ^ 48
      → IsSound (add_device works alloc uid id a)
  unfolding add_device artnet_add_rdm_device
  add_device-IsSound works alloc uid id none e fits h = rw e s
  add_device-IsSound works alloc uid id (some port) e fits h =
      let found =
        Exactly-get_elem? IsSoundOutput 4 id a.node.outputs port e s.node_sound.outputs_sound in
      rw e (
        with_node-IsSound a _ s (
          with_table-IsSoundNode a.node s.node_sound id port (add_tod_uid alloc port.port_tod uid).0
            e (add_tod_uid-IsValid alloc port.port_tod uid fits found.table)
            (add_tod_uid-AreUids alloc port.port_tod uid fits found.table h found.six_bytes)))

  remove_device-IsSound :
      (works : ℕ → ℕ → Bool) (uid id : ℕ) (found : Option OutputPort)
      → get_elem? a.node.outputs id ≡ found
      → IsSound (remove_device works uid id a)
  unfolding remove_device artnet_remove_rdm_device
  remove_device-IsSound works uid id none e = rw e s
  remove_device-IsSound works uid id (some port) e =
      let found =
        Exactly-get_elem? IsSoundOutput 4 id a.node.outputs port e s.node_sound.outputs_sound in
      rw e (
        with_node-IsSound a _ s (
          with_table-IsSoundNode a.node s.node_sound id port (remove_tod_uid port.port_tod uid).0 e
            (remove_tod_uid-IsValid port.port_tod uid found.table)
            (remove_tod_uid-AreUids port.port_tod uid found.table found.six_bytes)))

step-IsSound : (a b : Artnet) → Step a b → IsSound a → IsSound b
step-IsSound a _ (packet w from bytes _) s =
    handle-IsSound w (received_packet from bytes) a (received_packet-IsWhole from bytes) s
step-IsSound a _ (time_passes now _) s = time_out-IsSound now a s
step-IsSound a _ (start bound poll_sent works _) s = artnet_start-IsSound a s bound poll_sent works
step-IsSound a _ (stop _) s = artnet_stop-IsSound a s
step-IsSound a _ (set_node_type type _) s = set_node_type-IsSound a s type
step-IsSound a _ (set_net net _) s =
    with_node-IsSound a _ s (set_net-IsSoundNode a.node s.node_sound net)
step-IsSound a _ (set_subnet subnet _) s =
    with_node-IsSound a _ s (set_subnet-IsSoundNode a.node s.node_sound subnet)
step-IsSound a _ (set_port id dir addr _) s =
    with_node-IsSound a _ s (set_port-IsSoundNode a.node s.node_sound id dir addr)
step-IsSound a _ (set_short_name name _) s =
    with_node-IsSound a _ s (set_short_name-IsSoundNode a.node s.node_sound name)
step-IsSound a _ (set_long_name name _) s =
    with_node-IsSound a _ s (set_long_name-IsSoundNode a.node s.node_sound name)
step-IsSound a _ (sends_dmx ips now i len slots _) s =
    send_dmx-IsSound a s ips now i len slots (get_elem? a.node.inputs i) refl
step-IsSound a _ (device_added works alloc uid id _ fits h) s =
    add_device-IsSound a s works alloc uid id (get_elem? a.node.outputs id) refl fits h
step-IsSound a _ (device_removed works uid id _) s =
    remove_device-IsSound a s works uid id (get_elem? a.node.outputs id) refl

-- In every state that a node can come to from artnet_new, on interfaces whose broadcast address is
-- that of their address and mask, it is sound: it has four ports of each kind, on its page, with
-- buffers and tables of devices that are whole; it keeps its controllers for tables and for
-- diagnostics within their arrays; and its broadcast address is that of its address and mask. The
-- node gets packets of any bytes, lets time pass, starts, stops, and its application sets its node
-- type, net, subnet, port addresses and names, sends DMX, and adds and removes devices, in any
-- order.
pub IsReachable-IsSound : (a : Artnet) → IsReachable a → IsSound a
IsReachable-IsSound _ (created alloc failed is ip a agree e) =
    subst NewSound e (artnet_new-NewSound alloc failed is ip agree)
IsReachable-IsSound b (then_step {a = a} run step) =
    step-IsSound a b step (IsReachable-IsSound a run)

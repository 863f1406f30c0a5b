-- ===== src/Rdm.antt =====
-- The RDM handlers of artnet/receive.c: ArtTodRequest, ArtTodData, ArtTodControl and ArtRdm, with
-- the controllers that a node remembers for its tables of devices.
pub mod Requesters
pub mod Control
pub mod Devices
pub mod Replies
mod Tests
use libartnet.Base.{
  ℕ, zero, suc, ◌+◌, ◌-◌, ◌/◌, ◌^◌, min, Bool, true, false, ◌&&◌, ◌||◌, not, List, [], ◌∷◌, ◌++◌,
  Option, none, some,
}
use libartnet.Base.{if◌then◌else◌, ◌==◌, ltb, bit_and, length, take, drop}
use libartnet.Node.{Node, NodeType, srv, node, msrv, route, backup, raw}
use libartnet.Packet.{Packet, byte}
use libartnet.Port.{OutputPort}
use libartnet.Tod.{flush_tod}
use libartnet.Transmit.{Datagram, Sent, sent_ok, sent_failed, sent_nowhere, worse, either_failed}
use libartnet.Transmit.Tod.{artnet_tx_tod_data}
use libartnet.Wire.{make_addr}

-- The fields of `node_state_t` for RDM, and which of its callbacks are set. `tod_requester_ips` is
-- the first `tod_requester_count` entries of the array.
pub record RdmState : Type 0 where
  pub tod_reply_addr : ℕ
  pub rdm_reply_addr : ℕ
  pub tod_requester_ips : List ℕ
  pub rdm_c : Bool
  pub rdm_tod_c : Bool
  pub rdm_init_c : Bool

-- The calls of the application's callbacks
pub data RdmEvent : Type 0 where
  rdm_called : (address : ℕ) → (message : List ℕ) → RdmEvent
  rdm_tod_called : (address : ℕ) → RdmEvent
  rdm_init_called : (port_id : ℕ) → RdmEvent

abbrev pub max_tod_requesters : ℕ
max_tod_requesters = 8

abbrev pub is_in : ℕ → List ℕ → Bool
is_in r [] = false
is_in r (s ∷ rest) = s == r || is_in r rest

-- `remember_tod_requester`
unfoldable pub remember_tod_requester : ℕ → List ℕ → List ℕ
remember_tod_requester requester ips =
    if requester == 0
    then ips
    else if is_in requester ips
    then ips
    else if ltb (length ips) max_tod_requesters
    then ips ++ (requester ∷ [])
    else ips

-- What the two TOD handlers store of the sender.
abbrev pub note_requester : ℕ → RdmState → RdmState
note_requester requester s = record s {
  tod_reply_addr = requester;
  tod_requester_ips = remember_tod_requester requester s.tod_requester_ips;
}

-- The Port-Address that a net and an address byte stand for
abbrev pub address_of : ℕ → ℕ → ℕ
address_of net address = make_addr net (bit_and (address / 2 ^ 4) 0x0f) (bit_and address 0x0f)

abbrev pub is_addressed : ℕ → OutputPort → Bool
is_addressed address port = port.port_addr == address && port.port_enabled

-- The loop over the ports from number `j` on of `handle_tod_request`
unfoldable pub tod_request_ports :
    (ℕ → ℕ → Bool) → ℕ → ℕ → ℕ → Sent → ℕ → List OutputPort → List Datagram × Sent
tod_request_ports works to bind_index address ret j [] = ([], ret)
tod_request_ports works to bind_index address ret j (port ∷ ports) =
    let (out, tx_ret) =
      if is_addressed address port
      then artnet_tx_tod_data (works j) to bind_index j port
      else ([], sent_ok) in
    let (later, ret') =
      tod_request_ports works to bind_index address (worse ret tx_ret) (suc j) ports in
    (out ++ later, ret')

-- Its loop over the addresses from number `i` on
unfoldable pub tod_request_addresses :
    (ℕ → ℕ → ℕ → Bool) → ℕ → ℕ → ℕ → Sent → ℕ → List ℕ → List OutputPort → List Datagram × Sent
tod_request_addresses works to bind_index net ret i [] ports = ([], ret)
tod_request_addresses works to bind_index net ret i (a ∷ addresses) ports =
    let (out, ret') = tod_request_ports (works i) to bind_index (address_of net a) ret 0 ports in
    let (later, ret'') =
      tod_request_addresses works to bind_index net ret' (suc i) addresses ports in
    (out ++ later, ret'')

abbrev pub answers_tod : NodeType → Bool
answers_tod node = true
answers_tod msrv = true
answers_tod _ = false

-- `handle_tod_request`; `works` tells of each send, by address, port and page, whether it succeeds.
-- At most 32 addresses are read.
unfoldable pub handle_tod_request :
    Bool → (ℕ → ℕ → ℕ → Bool) → Packet → Node → RdmState → RdmState × List Datagram × Sent
handle_tod_request handled works p n s =
    let s' = note_requester p.from s in
    if handled
    then (s', [], sent_ok)
    else if not (answers_tod n.node_type)
    then (s', [], sent_ok)
    else if byte p 22 == 0
    then (let (out, ret) =
          tod_request_addresses works s'.tod_reply_addr n.bind_index (byte p 21) sent_ok 0
            (take (min 32 (byte p 23)) (drop 24 p.bytes)) n.outputs in
        (s', out, ret))
    else (s', [], sent_ok)

-- `handle_tod_data`: nothing is stored.
unfoldable pub handle_tod_data : Bool → Packet → RdmState → List RdmEvent
handle_tod_data handled p s =
    if handled
    then []
    else if s.rdm_tod_c
    then rdm_tod_called (address_of (byte p 21) (byte p 23)) ∷ []
    else []

-- The `switch` of `handle_tod_control` for the port `i`; a command of no meaning does nothing.
unfoldable pub tod_command : ℕ → Bool → ℕ → OutputPort → OutputPort × List RdmEvent
tod_command cmd rdm_init_c i port =
    let init = if rdm_init_c then rdm_init_called i ∷ [] else [] in
    if cmd == 0x01
    then (record port { port_tod = (flush_tod port.port_tod).0 }, init)
    else if cmd == 0x03
    then (port, init)
    else (port, [])

-- `ret = ret || artnet_tx_tod_data(n, i)`
unfoldable pub tod_reply_unless_failed :
    (ℕ → Bool) → ℕ → ℕ → ℕ → OutputPort → Sent → List Datagram × Sent
tod_reply_unless_failed works to bind_index i port sent_ok =
    let (out, tx_ret) = artnet_tx_tod_data works to bind_index i port in
    (out, either_failed sent_ok tx_ret)
tod_reply_unless_failed works to bind_index i port _ = ([], sent_failed)

-- What the loop of `handle_tod_control` leaves of the ports from number `i` on, what it sends and
-- calls, and its result.
unfoldable pub tod_control_ports :
    (ℕ → ℕ → Bool)
    → ℕ
    → ℕ
    → ℕ
    → ℕ
    → Bool
    → Sent
    → ℕ
    → List OutputPort
    → List OutputPort × List Datagram × List RdmEvent × Sent
tod_control_ports works to bind_index address cmd rdm_init_c ret i [] = ([], [], [], ret)
tod_control_ports works to bind_index address cmd rdm_init_c ret i (port ∷ ports) =
    if is_addressed address port
    then (let (port', events) = tod_command cmd rdm_init_c i port in
        let (out, ret') = tod_reply_unless_failed (works i) to bind_index i port' ret in
        let (ports', later, more, ret'') =
          tod_control_ports works to bind_index address cmd rdm_init_c ret' (suc i) ports in
        (port' ∷ ports', out ++ later, events ++ more, ret''))
    else (let (ports', later, more, ret') =
          tod_control_ports works to bind_index address cmd rdm_init_c ret (suc i) ports in
        (port ∷ ports', later, more, ret'))

-- `handle_tod_control`
unfoldable pub handle_tod_control :
    Bool
    → (ℕ → ℕ → Bool)
    → Packet
    → Node
    → RdmState
    → Node × RdmState × List Datagram × List RdmEvent × Sent
handle_tod_control handled works p n s =
    if handled
    then (n, s, [], [], sent_ok)
    else (let s' = note_requester p.from s in
        let (outputs, out, events, ret) =
          tod_control_ports works s'.tod_reply_addr n.bind_index
            (address_of (byte p 21) (byte p 23)) (byte p 22) s.rdm_init_c sent_ok 0 n.outputs in
        (record n { outputs = outputs }, s', out, events, ret))

-- `handle_rdm`: the callback gets the bytes behind the 24 of the header.
unfoldable pub handle_rdm : Bool → Packet → RdmState → RdmState × List RdmEvent
handle_rdm handled p s =
    let s' = record s { rdm_reply_addr = p.from } in
    if handled
    then (s', [])
    else if s.rdm_c
    then (
      s',
      rdm_called (address_of (byte p 21) (byte p 23)) (take (p.length - 24) (drop 24 p.bytes)) ∷ [],
    )
    else (s', [])

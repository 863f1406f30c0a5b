-- ===== src/Rdm/Tests.antt =====
-- A node with one output port and two devices, and controllers that ask for its table.
use Prim.{tt}
use libartnet.Base.{
  ℕ, ◌≡◌, ◌≢◌, refl, arith, true, false, none, some, [], ◌∷◌, replicate, take, drop, min, get_elem?,
  ◌++◌,
}
use libartnet.Node.{Node}
use libartnet.Node.Samples.{output, small_node}
use libartnet.Packet.{Packet, tod_request, tod_control, byte}
use libartnet.Port.{OutputPort}
use libartnet.Rdm.{RdmState, address_of, handle_tod_request, handle_tod_control, is_in}
use libartnet.Rdm.Requesters.{IsRoster, RdmRun, RdmStep, at_rest, and_then, RdmRun-IsRoster}
use libartnet.Rdm.Requesters
use libartnet.Rdm.Replies.{uids_at, uids_at_all, AreTables, handle_tod_request_answers}
use libartnet.Rdm.Control.{flushed, handle_tod_control_flushes, handle_tod_control_answers}
use libartnet.Rdm.Devices.{artnet_add_rdm_device, received_by, artnet_add_rdm_device_tells}
use libartnet.Tod.{Tod, add_tod_uid, add_with, store_last}
use libartnet.Tod.Laws.{IsValid, uids}
use libartnet.Transmit.{sent_ok}
use libartnet.Transmit.Tod.{received_uids}

abbrev two_devices : Tod
two_devices = record { block = some (71 ∷ 72 ∷ replicate 98 0); length = 2; max_length = 100 }

abbrev with_devices : OutputPort
with_devices = record output { port_tod = two_devices }

abbrev rdm_node : Node
rdm_node = record (small_node false) { outputs = with_devices ∷ [] }

-- A request for the full tables of Port-Address 1, and a control that flushes it
abbrev request : Packet
request = record {
  length = 56;
  from = 10;
  type = tod_request;
  bytes = replicate 23 0 ++ (1 ∷ 1 ∷ replicate 31 0);
}

abbrev control : Packet
control = record {
  length = 24;
  from = 10;
  type = tod_control;
  bytes = replicate 22 0 ++ (1 ∷ 1 ∷ []);
}

abbrev asked_before : RdmState
asked_before = record {
  tod_reply_addr = 20;
  rdm_reply_addr = 0;
  tod_requester_ips = 20 ∷ [];
  rdm_c = false;
  rdm_tod_c = false;
  rdm_init_c = true;
}

two_devices-IsValid : IsValid two_devices
two_devices-IsValid = record { in_use = omega arith; block_fits = refl }

rdm_node-AreTables : AreTables rdm_node.outputs
rdm_node-AreTables = (two_devices-IsValid, (omega arith, (omega arith, tt)), tt)

asked_before-IsRoster : IsRoster asked_before.tod_requester_ips
asked_before-IsRoster = record { few = omega arith; distinct = (refl, tt); no_zero = refl }

abbrev sender : ℕ
sender = 10

some_sender : sender ≢ 0
some_sender e = omega arith

abbrev after_request : RdmState
after_request = (handle_tod_request false (λ i j k. true) request rdm_node asked_before).0

requesters_example :
    IsRoster after_request.tod_requester_ips
    × ((r : ℕ)
        → is_in r asked_before.tod_requester_ips ≡ true
        → is_in r after_request.tod_requester_ips ≡ true)
requesters_example =
    RdmRun-IsRoster asked_before after_request
      (and_then (at_rest asked_before)
        (Requesters.tod_request false (λ i j k. true) request rdm_node asked_before))
      asked_before-IsRoster

request_example :
    let (_, sent, ret) = handle_tod_request false (λ i j k. true) request rdm_node asked_before in
    (received_uids sent
      ≡ uids_at_all
          (byte request 21)
          (take (min 32 (byte request 23)) (drop 24 request.bytes))
          rdm_node.outputs)
    × (ret ≡ sent_ok)
request_example =
    handle_tod_request_answers (λ i j k. true) request rdm_node asked_before (λ i j k. refl)
      some_sender refl refl rdm_node-AreTables

flush_example :
    get_elem? (handle_tod_control false (λ j k. true) control rdm_node asked_before).0.outputs 0
    ≡ some (flushed (byte control 22) (address_of (byte control 21) (byte control 23)) with_devices)
flush_example =
    handle_tod_control_flushes (λ j k. true) control rdm_node asked_before 0 with_devices refl

control_example :
    let (after, _, sent, _, ret) =
      handle_tod_control false (λ j k. true) control rdm_node asked_before in
    (received_uids sent ≡ uids_at (address_of (byte control 21) (byte control 23)) after.outputs)
    × (ret ≡ sent_ok)
control_example =
    handle_tod_control_answers (λ j k. true) control rdm_node asked_before (λ j k. refl) some_sender
      rdm_node-AreTables

tells_example :
    received_by 20
      (artnet_add_rdm_device (λ i k. true) none 73 1 0 asked_before (with_devices ∷ [])).1
    ≡ uids (add_tod_uid none two_devices 73).0
unfolding add_tod_uid add_with store_last
tells_example =
    artnet_add_rdm_device_tells (λ i k. true) none 73 20 1 0 asked_before (with_devices ∷ [])
      with_devices (λ i k. refl) (omega arith) refl two_devices-IsValid tt
      (omega arith, (omega arith, (omega arith, tt))) asked_before-IsRoster refl

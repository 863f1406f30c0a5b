-- ===== src/Transmit/Tests.antt =====
-- Packets that are sent: a table of 201 devices in two pages, an ArtDataReply, requests, and an ArtNzs for a node with two ports.
use Prim.{tt}
use libartnet.Base.{
  ℕ, zero, suc, ◌<◌, ◌^◌, ◌≡◌, ◌≢◌, refl, arith, true, false, none, some, [], ◌∷◌, replicate, eok,
}
use libartnet.Node.{node}
use libartnet.Node.Samples.{input, output}
use libartnet.Port.{OutputPort}
use libartnet.Tod.{Tod}
use libartnet.Tod.Laws.{IsValid, uids}
use libartnet.Transmit.{TxState, pos}
use libartnet.Transmit.Tod.{artnet_tx_tod_data}
use libartnet.Transmit.Tod.Pages.{AreUids, Delivers, artnet_tx_tod_data-Delivers}
use libartnet.Transmit.Spread.{artnet_tx_tod_request, artnet_tx_nzs}
use libartnet.Wire.{make_addr}
use libartnet.Transmit.Spread.Past.{artnet_tx_nzs_past}
use libartnet.NodeList.{PrivateEntry, NodeList}
use libartnet.NodeList.Entry.{zero_entry}
use libartnet.NodeList.Subscribers.{
  find_nodes_from_uni, scan, scan_entry, count_ports, count_port, port_matches,
}
use libartnet.Port.{InputPort, has_bit}
use libartnet.Transmit.Spread.Received.{any_asks, artnet_tx_tod_request_asks}

abbrev many_devices : Tod
many_devices = record { block = some (replicate 300 71); length = 201; max_length = 300 }

abbrev many : OutputPort
many = record output { port_tod = many_devices }

many_devices-IsValid : IsValid many_devices
many_devices-IsValid = record { in_use = omega arith; block_fits = refl }

repeated-AreUids : (n u : ℕ) → u < 2 ^ 48 → AreUids (replicate n u)
repeated-AreUids zero u h = tt
repeated-AreUids (suc n) u h = (h, repeated-AreUids n u h)

abbrev requester : ℕ
requester = 10

some_requester : requester ≢ 0
some_requester e = omega arith

pages_example : Delivers (uids many_devices) (artnet_tx_tod_data (λ k. true) 10 1 2 many)
pages_example =
    artnet_tx_tod_data-Delivers (λ k. true) 10 1 2 many many_devices-IsValid
      (repeated-AreUids 201 71 (omega arith)) some_requester

abbrev sender : TxState
sender = record {
  mode_on = true;
  node_type = node;
  bcast_addr = 255;
  reply_addr = 10;
  rdm_reply_addr = 10;
  ip_addr = 2;
  subnet_mask = 255;
  gateway = 1;
  esta_hi = 0;
  esta_lo = 0;
  oem_hi = 0;
  oem_lo = 0;
  diag_enabled = true;
  diag_unicast = false;
  diag_priority = 16;
}

asks_example : any_asks 1 (artnet_tx_tod_request (λ k. true) 255 (output ∷ [])).0 ≡ true
asks_example =
    artnet_tx_tod_request_asks (λ k. true) 255 0 (output ∷ []) output (λ k. refl) (omega arith) refl
      refl (omega arith)

-- Two ports of one node in one universe, and an array for one address
abbrev two_ports : PrivateEntry
two_ports = record {
  public = record zero_entry {
    numbports = 2;
    port_types = 0x80 ∷ 0x80 ∷ 0 ∷ 0 ∷ [];
    sw_out = 1 ∷ 1 ∷ 0 ∷ 0 ∷ [];
    sw_in = replicate 4 0;
  };
  ip = 7;
  last_seen = 0;
}

abbrev twice : NodeList
twice = record { entries = two_ports ∷ []; length = 1; nl_seq = 0 }

abbrev universe_one : InputPort
universe_one = record input { port_addr = 1 }

past_example :
    (artnet_tx_nzs true
      (λ k. eok)
      (some (record { ips = 7 ∷ []; nodes = 2 }))
      1
      (pos 8)
      (replicate 8 50)
      universe_one).1
    ≡ none
unfolding find_nodes_from_uni scan scan_entry count_ports count_port port_matches has_bit make_addr
past_example =
    artnet_tx_nzs_past (λ k. eok) 1 1 0 0 1 2 twice two_ports (7 ∷ []) (replicate 8 50) (pos 8)
      universe_one (λ k. refl) refl refl refl refl (omega arith) (omega arith)

-- ===== src/Rdm/Replies.antt =====
-- What the handlers answer: the tables of the ports that were asked for.
use libartnet.Base.{ℕ, suc, ◌≡◌, refl, ◌≢◌, inl, inr, min}
use libartnet.Base.{Bool, true, false, Bool-cases, List, [], ◌∷◌, ◌++◌, take, drop}
use libartnet.Base.{if◌then◌else◌}
use libartnet.Node.{Node}
use libartnet.Packet.{Packet, byte}
use libartnet.Port.{OutputPort}
use libartnet.Rdm.{
  RdmState, address_of, is_addressed, tod_request_ports, tod_request_addresses, handle_tod_request,
  answers_tod,
}
use libartnet.Tod.Laws.{IsValid, uids}
use libartnet.Transmit.{Datagram, Sent, sent_ok}
use libartnet.Transmit.Tod.{artnet_tx_tod_data, received_uids}
use libartnet.Transmit.Tod.Pages.{
  AreUids, artnet_tx_tod_data-Delivers, artnet_tx_tod_data_ok, received_uids-append,
}

-- The UIDs of the tables of the ports at an address, and at each of several
unfoldable pub uids_at : ℕ → List OutputPort → List ℕ
uids_at address [] = []
uids_at address (port ∷ ports) =
    (if is_addressed address port then uids port.port_tod else []) ++ uids_at address ports

unfoldable pub uids_at_all : ℕ → List ℕ → List OutputPort → List ℕ
uids_at_all net [] ports = []
uids_at_all net (a ∷ addresses) ports =
    uids_at (address_of net a) ports ++ uids_at_all net addresses ports

-- Each port has a valid table of UIDs of six bytes.
abbrev pub AreTables : List OutputPort → Type 0
AreTables [] = Unit {0}
AreTables (port ∷ ports) = IsValid port.port_tod × AreUids (uids port.port_tod) × AreTables ports

-- All that was wanted was sent.
abbrev Sends : List ℕ → List Datagram × Sent → Type 0
Sends wanted r = (received_uids r.0 ≡ wanted) × (r.1 ≡ sent_ok)

module _ (works : ℕ → ℕ → ℕ → Bool) (good : (i j k : ℕ) → works i j k ≡ true) (to bind_index : ℕ)
    (some_one : to ≢ 0) where
  one_port :
      (i j : ℕ) (port : OutputPort)
      → IsValid port.port_tod
      → AreUids (uids port.port_tod)
      → Sends (uids port.port_tod) (artnet_tx_tod_data (works i j) to bind_index j port)
  one_port i j port v a =
      let ok = artnet_tx_tod_data_ok (works i j) to bind_index j port (good i j) some_one in
      let sent = artnet_tx_tod_data-Delivers (works i j) to bind_index j port v a some_one in
      (sent.whole ok, ok)

  ports_Sends :
      (i address j : ℕ) (ports : List OutputPort)
      → AreTables ports
      → Sends
          (uids_at address ports)
          (tod_request_ports (works i) to bind_index address sent_ok j ports)
  unfolding uids_at tod_request_ports received_uids
  ports_Sends i address j [] t = (refl, refl)
  ports_Sends i address j (port ∷ ports) t =
      let here = one_port i j port t.0 t.1 in
      let later = ports_Sends i address (suc j) ports t.2 in
      elim (Bool-cases (is_addressed address port)) [
        | inl asked ↦
            rw (asked, here.1, received_uids-append, here.0, later.0, later.1) (refl, refl)
        | inr other ↦ rw (other, later.0, later.1) (refl, refl)
      ]

  addresses_Sends :
      (net i : ℕ) (addresses : List ℕ) (ports : List OutputPort)
      → AreTables ports
      → Sends
          (uids_at_all net addresses ports)
          (tod_request_addresses works to bind_index net sent_ok i addresses ports)
  unfolding uids_at_all tod_request_addresses received_uids
  addresses_Sends net i [] ports t = (refl, refl)
  addresses_Sends net i (a ∷ addresses) ports t =
      let here = ports_Sends i (address_of net a) 0 ports t in
      let later = addresses_Sends net (suc i) addresses ports t in
      rw (here.1, received_uids-append, here.0, later.0, later.1) (refl, refl)

-- An ArtTodRequest for the full tables, to a node that is an output or a media server, from an
-- address that is not 0, that no callback takes, is answered with the tables of all ports at the
-- requested addresses, every UID of each in its order, where every send succeeds and the tables are
-- valid.
pub handle_tod_request_answers :
    (works : ℕ → ℕ → ℕ → Bool) (p : Packet) (n : Node) (s : RdmState)
    → ((i j k : ℕ) → works i j k ≡ true)
    → p.from ≢ 0
    → answers_tod n.node_type ≡ true
    → byte p 22 ≡ 0
    → AreTables n.outputs
    → let (_, sent, ret) = handle_tod_request false works p n s in
      (received_uids sent
        ≡ uids_at_all (byte p 21) (take (min 32 (byte p 23)) (drop 24 p.bytes)) n.outputs)
      × (ret ≡ sent_ok)
unfolding handle_tod_request
handle_tod_request_answers works p n s good some_one node full t =
    rw (node, full)
      (addresses_Sends works good p.from n.bind_index some_one (byte p 21) 0
        (take (min 32 (byte p 23)) (drop 24 p.bytes)) n.outputs t)

-- ===== src/Transmit/Tod/Accepted.antt =====
-- Every page of ArtTodData goes to the requester and passes a node's checks.
use libartnet.Base.{ℕ, zero, suc, ◌-◌, ◌≤◌, ◌<◌, ◌≡◌, refl, arith, min, inl, inr, Bool-cases}
use libartnet.Base.{Bool, true, false, List, [], ◌∷◌, ◌++◌, ◌==◌}
use libartnet.Packet.{min_len, packet_length_is_valid}
use libartnet.Packet.Fields.{packet_fields_are_valid, type_is_valid, tod_data_is_valid}
use libartnet.Port.{OutputPort}
use libartnet.Transmit.{Datagram, Sent, sent_ok, send_unless_failed}
use libartnet.Transmit.Tod.{tod_page, tod_pages, artnet_tx_tod_data}
use libartnet.Wire.{bytes_to_short}

pub record IsAccepted (to : ℕ) (d : Datagram) : Type 0 where
  pub addressed : d.to ≡ to
  pub length_is_valid : packet_length_is_valid d.packet ≡ true
  pub fields_are_valid : packet_fields_are_valid d.packet ≡ true

abbrev pub AllAccepted : ℕ → List Datagram → Type 0
AllAccepted to [] = Unit {0}
AllAccepted to (d ∷ ds) = IsAccepted to d × AllAccepted to ds

pub append-AllAccepted :
    (to : ℕ) (ds es : List Datagram)
    → AllAccepted to ds
    → AllAccepted to es
    → AllAccepted to (ds ++ es)
append-AllAccepted to [] es a b = b
append-AllAccepted to (d ∷ ds) es a b = (a.0, append-AllAccepted to ds es a.1 b)

version : bytes_to_short 0 14 ≡ 14
unfolding bytes_to_short
version = refl

page-IsAccepted :
    (to bind_index id : ℕ) (port : OutputPort) (bloc offset lim : ℕ)
    → id < 4
    → lim ≤ 200
    → IsAccepted to (record { to = to; packet = tod_page bind_index id port bloc offset lim })
unfolding tod_page packet_length_is_valid min_len packet_fields_are_valid type_is_valid
    tod_data_is_valid
page-IsAccepted to bind_index id port bloc offset lim h small = record {
  addressed = refl;
  length_is_valid = ground arith;
  fields_are_valid = rw version (ground arith);
}

module _ (works : ℕ → Bool) (to bind_index id : ℕ) (h : id < 4) (port : OutputPort) where
  send-AllAccepted :
      (work : Bool) (ret : Sent) (d : Datagram)
      → IsAccepted to d
      → AllAccepted to (send_unless_failed work ret d).0
  unfolding send_unless_failed
  send-AllAccepted true sent_ok d a = (a, tt)
  send-AllAccepted false sent_ok d a = tt
  send-AllAccepted work _ d a = tt

  pages-AllAccepted :
      (fuel bloc : ℕ) (ret : Sent) (remaining : ℕ)
      → AllAccepted to (tod_pages works to bind_index id port fuel bloc ret remaining).0
  unfolding tod_pages
  pages-AllAccepted zero bloc ret remaining = tt
  pages-AllAccepted (suc fuel) bloc ret remaining =
      let lim = min 200 remaining in
      let here = send-AllAccepted (works bloc) ret _ (
        page-IsAccepted to bind_index id port bloc (port.port_tod.length - remaining) lim h
          (omega arith)) in
      elim (Bool-cases (remaining - lim == 0)) [
        | inl end ↦ rw end here
        | inr more ↦
            rw more (
              append-AllAccepted to _ _ here
                (pages-AllAccepted fuel (suc bloc) _ (remaining - lim)))
      ]

-- Every datagram that `artnet_tx_tod_data` sends for one of the four ports goes to the requester
-- and passes the length and the field check of a node.
pub artnet_tx_tod_data-AllAccepted :
    (works : ℕ → Bool) (to bind_index id : ℕ) (port : OutputPort)
    → id < 4
    → AllAccepted to (artnet_tx_tod_data works to bind_index id port).0
unfolding artnet_tx_tod_data
artnet_tx_tod_data-AllAccepted works to bind_index id port h = elim (Bool-cases (to == 0)) [
  | inl nobody ↦ rw nobody tt
  | inr other ↦ rw other (
      pages-AllAccepted works to bind_index id h port (suc port.port_tod.length) 0 sent_ok
        port.port_tod.length)
]

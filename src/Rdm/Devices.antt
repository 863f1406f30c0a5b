-- ===== src/Rdm/Devices.antt =====
-- `artnet_add_rdm_device`, `artnet_add_rdm_devices` and `artnet_remove_rdm_device`
-- (artnet/artnet.c): a table changes, and each controller that has asked gets the new one.
use libartnet.Base.{ℕ, suc, ◌<◌, ◌≡◌, ◌≢◌, ◌∙◌, refl, sym, ap, arith, inl, inr, Bool-cases, ==→eq}
use libartnet.Base.{
  Bool, true, false, List, [], ◌∷◌, ◌++◌, ◌==◌, if◌then◌else◌, Option, none, some, get_elem?, set,
}
use libartnet.Port.{OutputPort}
use libartnet.Rdm.{RdmState, is_in}
use libartnet.Rdm.Requesters.{AreDistinct, IsRoster, neither}
use libartnet.Tod.{Tod, add_tod_uid, remove_tod_uid}
use libartnet.Tod.Laws.{IsValid, IsAllocFor, uids, add_tod_uid-IsValid}
use libartnet.Transmit.{Datagram, Sent, sent_ok, worse}
use libartnet.Transmit.Tod.{
  artnet_tx_tod_data, artnet_tx_tod_data_to_requesters, tod_data_to, received_uids, page_uids,
}
use libartnet.Transmit.Tod.Accepted.{AllAccepted, artnet_tx_tod_data-AllAccepted}
use libartnet.Transmit.Tod.Pages.{
  AreUids, artnet_tx_tod_data-Delivers, artnet_tx_tod_data_ok, append_assoc,
}

-- The result of the functions: the ports, what is sent, and the return value, none for ARTNET_EARG
abbrev pub Changed : Type 0
Changed = List OutputPort × List Datagram × Option Sent

-- The table of a port that exists is changed, and sent.
abbrev pub change_and_tell :
    (ℕ → ℕ → Bool) → (Tod → Tod) → ℕ → ℕ → RdmState → Option OutputPort → List OutputPort → Changed
change_and_tell works change bind_index id s none ports = (ports, [], none)
change_and_tell works change bind_index id s (some port) ports =
    let port' = record port { port_tod = change port.port_tod } in
    let (out, ret) =
      artnet_tx_tod_data_to_requesters works s.tod_reply_addr s.tod_requester_ips bind_index id
        port' in
    (set ports id port', out, some ret)

-- `artnet_add_rdm_device`; a number past the four ports is ARTNET_EARG. What `add_tod_uid` returns
-- is not looked at.
unfoldable pub artnet_add_rdm_device :
    (ℕ → ℕ → Bool) → Option (List ℕ) → ℕ → ℕ → ℕ → RdmState → List OutputPort → Changed
artnet_add_rdm_device works alloc uid bind_index id s ports =
    change_and_tell works (λ tod. (add_tod_uid alloc tod uid).0) bind_index id s
      (get_elem? ports id) ports

-- The loop over the new UIDs, each with what its allocation gives
abbrev pub add_all : List (Option (List ℕ) × ℕ) → Tod → Tod
add_all [] tod = tod
add_all ((alloc, uid) ∷ rest) tod = add_all rest (add_tod_uid alloc tod uid).0

-- `artnet_add_rdm_devices`, for a count that is not negative
unfoldable pub artnet_add_rdm_devices :
    (ℕ → ℕ → Bool) → List (Option (List ℕ) × ℕ) → ℕ → ℕ → RdmState → List OutputPort → Changed
artnet_add_rdm_devices works devices bind_index id s ports =
    change_and_tell works (add_all devices) bind_index id s (get_elem? ports id) ports

-- `artnet_remove_rdm_device`
unfoldable pub artnet_remove_rdm_device :
    (ℕ → ℕ → Bool) → ℕ → ℕ → ℕ → RdmState → List OutputPort → Changed
artnet_remove_rdm_device works uid bind_index id s ports =
    change_and_tell works (λ tod. (remove_tod_uid tod uid).0) bind_index id s (get_elem? ports id)
      ports

-- The UIDs that arrive at one address
unfoldable pub received_by : ℕ → List Datagram → List ℕ
received_by r [] = []
received_by r (d ∷ ds) = (if d.to == r then page_uids d.packet else []) ++ received_by r ds

received_by-append :
    (r : ℕ) (ds es : List Datagram)
    → received_by r (ds ++ es) ≡ received_by r ds ++ received_by r es
unfolding received_by
received_by-append r [] es = refl
received_by-append r (d ∷ ds) es =
    let here = if d.to == r then page_uids d.packet else [] in
    ap (λ l. here ++ l) (received_by-append r ds es)
    ∙ sym (append_assoc here (received_by r ds) (received_by r es))

own_part : (r : ℕ) (ds : List Datagram) → AllAccepted r ds → received_by r ds ≡ received_uids ds
unfolding received_by received_uids
own_part r [] a = refl
own_part r (d ∷ ds) a =
    let mine : d.to == r ≡ true = rw (a.0.addressed) (ground arith) in
    rw (mine, own_part r ds a.1) refl

others_part :
    (q r : ℕ) (ds : List Datagram) → q == r ≡ false → AllAccepted q ds → received_by r ds ≡ []
unfolding received_by
others_part q r [] other a = refl
others_part q r (d ∷ ds) other a =
    let not_mine : d.to == r ≡ false = rw (a.0.addressed) other in
    rw (not_mine, others_part q r ds other a.1) refl

not_zero : (q : ℕ) → q == 0 ≡ false → q ≢ 0
not_zero q e zero_q = absurd (ground arith)

append_nil : (xs : List ℕ) → xs ++ [] ≡ xs
append_nil [] = refl
append_nil (x ∷ xs) = ap (λ l. x ∷ l) (append_nil xs)

module _ (works : ℕ → ℕ → Bool) (good : (i k : ℕ) → works i k ≡ true) (bind_index id : ℕ)
    (h : id < 4) (port : OutputPort) (v : IsValid port.port_tod)
    (a : AreUids (uids port.port_tod)) where
  nobody_else :
      (i r : ℕ) (ret : Sent) (ips : List ℕ)
      → is_in r ips ≡ false
      → received_by r (tod_data_to works bind_index id port i ret ips).0 ≡ []
  unfolding tod_data_to received_by
  nobody_else i r ret [] e = refl
  nobody_else i r ret (q ∷ ips) e =
      let apart = neither (q == r) (is_in r ips) e in
      rw
        (
          received_by-append,
          others_part q r (artnet_tx_tod_data (works i) q bind_index id port).0 apart.0
              (artnet_tx_tod_data-AllAccepted (works i) q bind_index id port h),
          nobody_else (suc i) r (worse ret (artnet_tx_tod_data (works i) q bind_index id port).1)
              ips apart.1,
        )
        refl

  own_gets :
      (i q : ℕ) (ret : Sent) (ips : List ℕ)
      → is_in q ips ≡ false
      → q ≢ 0
      → received_by q (tod_data_to works bind_index id port i ret (q ∷ ips)).0 ≡ uids port.port_tod
  unfolding tod_data_to
  own_gets i q ret ips new some_one =
      let part = artnet_tx_tod_data (works i) q bind_index id port in
      let accepted = artnet_tx_tod_data-AllAccepted (works i) q bind_index id port h in
      let sent = artnet_tx_tod_data-Delivers (works i) q bind_index id port v a some_one in
      let ok = artnet_tx_tod_data_ok (works i) q bind_index id port (good i) some_one in
      rw
        (
          received_by-append,
          own_part q part.0 accepted,
          sent.whole ok,
          nobody_else (suc i) q (worse ret part.1) ips new,
        )
        (append_nil (uids port.port_tod))

  each_gets :
      (i r : ℕ) (ret : Sent) (ips : List ℕ)
      → AreDistinct ips
      → is_in 0 ips ≡ false
      → is_in r ips ≡ true
      → received_by r (tod_data_to works bind_index id port i ret ips).0 ≡ uids port.port_tod
  unfolding tod_data_to
  each_gets i r ret [] d z e = absurd (cc e)
  each_gets i r ret (q ∷ ips) d z e =
      let part = artnet_tx_tod_data (works i) q bind_index id port in
      let accepted = artnet_tx_tod_data-AllAccepted (works i) q bind_index id port h in
      let apart = neither (q == 0) (is_in 0 ips) z in
      let some_one : q ≢ 0 = not_zero q apart.0 in
      elim (Bool-cases (q == r)) [
        | inl same ↦ rw (← ==→eq q r same) (own_gets i q ret ips d.0 some_one)
        | inr other ↦
            rw (received_by-append, others_part q r part.0 other accepted)
              (each_gets (suc i) r (worse ret part.1) ips d.1 apart.1 (cc (e, other)))
      ]

-- Where every send succeeds, and the table of the port is valid, each controller of a list of
-- distinct addresses other than 0 gets the whole table, every UID once and in its order.
pub artnet_tx_tod_data_to_requesters_each :
    (works : ℕ → ℕ → Bool) (last r : ℕ) (ips : List ℕ) (bind_index id : ℕ) (port : OutputPort)
    → ((i k : ℕ) → works i k ≡ true)
    → id < 4
    → IsValid port.port_tod
    → AreUids (uids port.port_tod)
    → AreDistinct ips
    → is_in 0 ips ≡ false
    → is_in r ips ≡ true
    → received_by r (artnet_tx_tod_data_to_requesters works last ips bind_index id port).0
      ≡ uids port.port_tod
unfolding artnet_tx_tod_data_to_requesters
artnet_tx_tod_data_to_requesters_each works last r [] bind_index id port good h v a d z e =
    absurd (cc e)
artnet_tx_tod_data_to_requesters_each works last r (q ∷ ips) bind_index id port good h v a d z e =
    each_gets works good bind_index id h port v a 0 r sent_ok (q ∷ ips) d z e

-- Adding a device to a port that exists, with a valid table: where every send succeeds, each
-- remembered controller gets the table with the device in it, or, where an allocation fails, the
-- table as it was. The list of controllers is as the node keeps it, and UIDs have six bytes.
pub artnet_add_rdm_device_tells :
    (works : ℕ → ℕ → Bool) (alloc : Option (List ℕ)) (uid r bind_index id : ℕ) (s : RdmState)
    (ports : List OutputPort) (port : OutputPort)
    → ((i k : ℕ) → works i k ≡ true)
    → id < 4
    → get_elem? ports id ≡ some port
    → IsValid port.port_tod
    → IsAllocFor port.port_tod.block alloc
    → AreUids (uids (add_tod_uid alloc port.port_tod uid).0)
    → IsRoster s.tod_requester_ips
    → is_in r s.tod_requester_ips ≡ true
    → received_by r (artnet_add_rdm_device works alloc uid bind_index id s ports).1
      ≡ uids (add_tod_uid alloc port.port_tod uid).0
unfolding artnet_add_rdm_device
artnet_add_rdm_device_tells works alloc uid r bind_index id s ports port good h at v fits a roster
      known =
    rw at (
      artnet_tx_tod_data_to_requesters_each works s.tod_reply_addr r s.tod_requester_ips bind_index
        id (record port { port_tod = (add_tod_uid alloc port.port_tod uid).0 }) good h
        (add_tod_uid-IsValid alloc port.port_tod uid fits v) a roster.distinct roster.no_zero known)

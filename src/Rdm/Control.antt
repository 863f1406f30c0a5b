-- ===== src/Rdm/Control.antt =====
-- ArtTodControl: what it does to the tables, and what it answers.
use libartnet.Base.{ℕ, zero, suc, ◌≡◌, refl, ap, ◌≢◌, arith, inl, inr}
use libartnet.Base.{
  Bool, true, false, Bool-cases, if◌then◌else◌, List, [], ◌∷◌, ◌==◌, none, some, get_elem?, ◌&&◌,
}
use libartnet.Node.{Node}
use libartnet.Packet.{Packet, byte}
use libartnet.Port.{OutputPort}
use libartnet.Rdm.{
  RdmState, address_of, is_addressed, handle_tod_control, tod_control_ports, tod_command,
  tod_reply_unless_failed,
}
use libartnet.Rdm.Replies.{uids_at, AreTables}
use libartnet.Tod.{flush_tod}
use libartnet.Tod.Laws.{IsValid, uids}
use libartnet.Transmit.{Sent, sent_ok}
use libartnet.Transmit.Tod.{received_uids}
use libartnet.Transmit.Tod.Pages.{
  AreUids, artnet_tx_tod_data-Delivers, artnet_tx_tod_data_ok, received_uids-append,
}

-- The port without its table, where the command is a flush for its address
unfoldable pub flushed : ℕ → ℕ → OutputPort → OutputPort
flushed cmd address port =
    if is_addressed address port && cmd == 0x01
    then record port { port_tod = record { block = none; length = 0; max_length = 0 } }
    else port

command_flushes :
    (cmd : ℕ) (c : Bool) (i address : ℕ) (port : OutputPort)
    → is_addressed address port ≡ true
    → (tod_command cmd c i port).0 ≡ flushed cmd address port
unfolding tod_command flushed flush_tod
command_flushes cmd c i address port asked = elim (Bool-cases (cmd == 0x01)) [
  | inl flush ↦ rw (asked, flush) refl
  | inr other ↦ elim (Bool-cases (cmd == 0x03)) [
    | inl init ↦ rw (asked, other, init) refl
    | inr still ↦ rw (asked, other, still) refl
  ]
]

others_stay :
    (cmd address : ℕ) (port : OutputPort)
    → is_addressed address port ≡ false
    → port ≡ flushed cmd address port
unfolding flushed
others_stay cmd address port other = rw other refl

control_flushes :
    (works : ℕ → ℕ → Bool) (to bind_index address cmd : ℕ) (c : Bool) (ret : Sent) (i j : ℕ)
    (ports : List OutputPort) (port : OutputPort)
    → get_elem? ports j ≡ some port
    → get_elem? (tod_control_ports works to bind_index address cmd c ret i ports).0 j
      ≡ some (flushed cmd address port)
unfolding tod_control_ports
control_flushes works to bind_index address cmd c ret i j [] port e = absurd (cc e)
control_flushes works to bind_index address cmd c ret i zero (x ∷ ports) port e =
    let same : x ≡ port = cc e in
    elim (Bool-cases (is_addressed address port)) [
      | inl asked ↦ rw (same, asked) (ap some (command_flushes cmd c i address port asked))
      | inr other ↦ rw (same, other) (ap some (others_stay cmd address port other))
    ]
control_flushes works to bind_index address cmd c ret i (suc j) (x ∷ ports) port e =
    elim (Bool-cases (is_addressed address x)) [
      | inl asked ↦ rw asked (
          control_flushes works to bind_index address cmd c
            (tod_reply_unless_failed (works i) to bind_index i (tod_command cmd c i x).0 ret).1
            (suc i) j ports port e)
      | inr other ↦
          rw other (control_flushes works to bind_index address cmd c ret (suc i) j ports port e)
    ]

-- An ArtTodControl that no callback takes empties the table of a port that is on and has its
-- address, where it is a flush, and changes nothing else of any output port, whatever the network
-- does.
pub handle_tod_control_flushes :
    (works : ℕ → ℕ → Bool) (p : Packet) (n : Node) (s : RdmState) (j : ℕ) (port : OutputPort)
    → get_elem? n.outputs j ≡ some port
    → get_elem? (handle_tod_control false works p n s).0.outputs j
      ≡ some (flushed (byte p 22) (address_of (byte p 21) (byte p 23)) port)
unfolding handle_tod_control
handle_tod_control_flushes works p n s j port at =
    control_flushes works p.from n.bind_index (address_of (byte p 21) (byte p 23)) (byte p 22)
      s.rdm_init_c sent_ok 0 j n.outputs port at

pub command-AreTables :
    (cmd : ℕ) (c : Bool) (i : ℕ) (port : OutputPort)
    → IsValid port.port_tod
    → AreUids (uids port.port_tod)
    → let after = (tod_command cmd c i port).0 in
      IsValid after.port_tod
      × AreUids (uids after.port_tod)
      × (after.port_addr ≡ port.port_addr)
      × (after.port_enabled ≡ port.port_enabled)
unfolding tod_command flush_tod
command-AreTables cmd c i port v a = elim (Bool-cases (cmd == 0x01)) [
  | inl flush ↦ rw flush (record { in_use = omega arith; block_fits = refl }, tt, refl, refl)
  | inr other ↦ elim (Bool-cases (cmd == 0x03)) [
    | inl init ↦ rw (other, init) (v, a, refl, refl)
    | inr still ↦ rw (other, still) (v, a, refl, refl)
  ]
]

module _ (works : ℕ → ℕ → Bool) (good : (j k : ℕ) → works j k ≡ true) (to bind_index : ℕ)
    (some_one : to ≢ 0) where
  one_reply :
      (i : ℕ) (port : OutputPort)
      → IsValid port.port_tod
      → AreUids (uids port.port_tod)
      → let r = tod_reply_unless_failed (works i) to bind_index i port sent_ok in
        (received_uids r.0 ≡ uids port.port_tod) × (r.1 ≡ sent_ok)
  unfolding tod_reply_unless_failed
  one_reply i port v a =
      let ok = artnet_tx_tod_data_ok (works i) to bind_index i port (good i) some_one in
      let sent = artnet_tx_tod_data-Delivers (works i) to bind_index i port v a some_one in
      (sent.whole ok, rw ok refl)

  control_answers :
      (address cmd : ℕ) (c : Bool) (i : ℕ) (ports : List OutputPort)
      → AreTables ports
      → let (after, sent, _, ret) =
          tod_control_ports works to bind_index address cmd c sent_ok i ports in
        (received_uids sent ≡ uids_at address after) × (ret ≡ sent_ok)
  unfolding tod_control_ports uids_at received_uids
  control_answers address cmd c i [] t = (refl, refl)
  control_answers address cmd c i (port ∷ ports) t =
      let later = control_answers address cmd c (suc i) ports t.2 in
      elim (Bool-cases (is_addressed address port)) [
        | inl asked ↦
            let (valid, uids_fit, same_addr, same_on) = command-AreTables cmd c i port t.0 t.1 in
            let here = one_reply i (tod_command cmd c i port).0 valid uids_fit in
            rw
              (
                asked, here.1, received_uids-append, here.0, later.0, later.1, same_addr, same_on,
                asked,
              )
              (refl, refl)
        | inr other ↦ rw (other, later.0, later.1, other) (refl, refl)
      ]

-- An ArtTodControl from an address that is not 0, that no callback takes, is answered with the
-- tables, as they are after its command, of all ports at its address, every UID of each in its
-- order, where every send succeeds and the tables are valid.
pub handle_tod_control_answers :
    (works : ℕ → ℕ → Bool) (p : Packet) (n : Node) (s : RdmState)
    → ((j k : ℕ) → works j k ≡ true)
    → p.from ≢ 0
    → AreTables n.outputs
    → let (after, _, sent, _, ret) = handle_tod_control false works p n s in
      (received_uids sent ≡ uids_at (address_of (byte p 21) (byte p 23)) after.outputs)
      × (ret ≡ sent_ok)
unfolding handle_tod_control
handle_tod_control_answers works p n s good some_one t =
    control_answers works good p.from n.bind_index some_one (address_of (byte p 21) (byte p 23))
      (byte p 22) s.rdm_init_c 0 n.outputs t

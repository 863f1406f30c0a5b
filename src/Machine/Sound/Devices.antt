-- ===== src/Machine/Sound/Devices.antt =====
-- A node under the changes of its tables of devices, by ArtTodControl and by the application, and
-- under the DMX that its input ports send.
use Prim.{tt}
use libartnet.Base.{
  ℕ, zero, suc, ◌^◌, ◌<◌, ◌≡◌, arith, Bool, true, false, List, [], ◌∷◌, ◌++◌, Option, some, Code,
  eok, emem, enet, Bool-cases, inl, inr, ◌==◌, length, length-memcpy, set, get_elem?,
}
use libartnet.Base.{count}
use libartnet.Machine.Sound.{Exactly, IsSoundOutput, IsSoundInput, IsSoundNode}
use libartnet.Machine.Sound.Config.{set-Exactly, Exactly-get_elem?}
use libartnet.Node.{Node}
use libartnet.Node.Address.Rebuilt.{InputsOn, OutputsOn}
use libartnet.Node.Config.Port.{set-OutputsOn, output-IsOn}
use libartnet.Node.Send.{artnet_send_dmx, sent_dmx}
use libartnet.Node.Timeouts.{keepalive_step, keepalive}
use libartnet.Packet.{Packet, byte}
use libartnet.Port.{InputPort, OutputPort}
use libartnet.Port.Bounds.{IsValid}
use libartnet.Rdm.{
  RdmState, tod_command, tod_reply_unless_failed, tod_control_ports, handle_tod_control,
  is_addressed, address_of,
}
use libartnet.Rdm.Control.{command-AreTables}
use libartnet.Tod.{Tod, add_tod_uid, remove_tod_uid}
use libartnet.Tod.Bag.{Added, Removed, add_tod_uid-Added, remove_tod_uid-Removed}
use libartnet.Tod.Laws
use libartnet.Tod.Laws.{uids, IsAllocFor, add_tod_uid-IsValid, remove_tod_uid-IsValid}
use libartnet.Transmit.{Sent, sent_ok}
use libartnet.Transmit.Tod.Pages.{AreUids}

append-AreUids : (us : List ℕ) (u : ℕ) → AreUids us → u < 2 ^ 48 → AreUids (us ++ (u ∷ []))
append-AreUids [] u a h = (h, tt)
append-AreUids (x ∷ us) u (hx, a) h = (hx, append-AreUids us u a h)

-- A UID that occurs in a list of UIDs is one.
AreUids-count : (us : List ℕ) (v : ℕ) → AreUids us → 0 < count v us → v < 2 ^ 48
AreUids-count [] v a h = absurd (omega arith)
AreUids-count (x ∷ us) v (hx, a) h = elim (Bool-cases (v == x)) [
  | inl e ↦ ground arith
  | inr e ↦ AreUids-count us v a (ground arith)
]

count-AreUids : (us : List ℕ) → ((v : ℕ) → 0 < count v us → v < 2 ^ 48) → AreUids us
count-AreUids [] h = tt
count-AreUids (x ∷ us) h =
    (h x (ground arith), count-AreUids us (λ v some_of_it. h v (omega arith)))

Added-AreUids :
    (tod : Tod) (uid : ℕ) (r : Tod × Code)
    → Added tod uid r
    → uid < 2 ^ 48
    → AreUids (uids tod)
    → AreUids (uids r.0)
Added-AreUids tod uid (after, eok) e h a = rw e (append-AreUids (uids tod) uid a h)
Added-AreUids tod uid (after, emem) e h a = rw e a
Added-AreUids tod uid (after, _) e h a = elim e [ ]

Removed-AreUids :
    (tod : Tod) (uid : ℕ) (r : Tod × Code)
    → Removed tod uid r
    → AreUids (uids tod)
    → AreUids (uids r.0)
Removed-AreUids tod uid (after, eok) e a =
    count-AreUids (uids after) (λ v h. AreUids-count (uids tod) v a (omega (arith, e v)))
Removed-AreUids tod uid (after, enet) e a = rw e.0 a
Removed-AreUids tod uid (after, _) e a = elim e [ ]

pub add_tod_uid-AreUids :
    (alloc : Option (List ℕ)) (tod : Tod) (uid : ℕ)
    → IsAllocFor tod.block alloc
    → Laws.IsValid tod
    → uid < 2 ^ 48
    → AreUids (uids tod)
    → AreUids (uids (add_tod_uid alloc tod uid).0)
add_tod_uid-AreUids alloc tod uid fits v h a =
    Added-AreUids tod uid (add_tod_uid alloc tod uid) (add_tod_uid-Added alloc tod uid fits v) h a

pub remove_tod_uid-AreUids :
    (tod : Tod) (uid : ℕ)
    → Laws.IsValid tod
    → AreUids (uids tod)
    → AreUids (uids (remove_tod_uid tod uid).0)
remove_tod_uid-AreUids tod uid v a =
    Removed-AreUids tod uid (remove_tod_uid tod uid) (remove_tod_uid-Removed tod uid v) a

tod_command-IsValid :
    (cmd : ℕ) (c : Bool) (i : ℕ) (port : OutputPort)
    → IsValid port
    → IsValid (tod_command cmd c i port).0
unfolding tod_command
tod_command-IsValid cmd c i port v = ground arith

tod_command-IsSoundOutput :
    (cmd : ℕ) (c : Bool) (i : ℕ) (port : OutputPort)
    → IsSoundOutput port
    → IsSoundOutput (tod_command cmd c i port).0
tod_command-IsSoundOutput cmd c i port v =
    let (table, six_bytes, _, _) = command-AreTables cmd c i port v.table v.six_bytes in
    record {
      buffers = tod_command-IsValid cmd c i port v.buffers;
      table = table;
      six_bytes = six_bytes;
    }

module _ (works : ℕ → ℕ → Bool) (to bind_index address cmd : ℕ) (c : Bool) where
  control-Exactly :
      (ret : Sent) (i k : ℕ) (ports : List OutputPort)
      → Exactly k IsSoundOutput ports
      → Exactly k IsSoundOutput (tod_control_ports works to bind_index address cmd c ret i ports).0
  unfolding tod_control_ports
  control-Exactly ret i zero [] v = tt
  control-Exactly ret i zero (x ∷ xs) v = elim v [ ]
  control-Exactly ret i (suc k) [] v = elim v [ ]
  control-Exactly ret i (suc k) (port ∷ ports) (v, vs) =
      elim (Bool-cases (is_addressed address port)) [
        | inl asked ↦ rw asked (
          tod_command-IsSoundOutput cmd c i port v,
          control-Exactly
              (tod_reply_unless_failed (works i) to bind_index i (tod_command cmd c i port).0 ret).1
              (suc i) k ports vs,
        )
        | inr other ↦ rw other (v, control-Exactly ret (suc i) k ports vs)
      ]

  control-OutputsOn :
      (net subnet : ℕ) (ret : Sent) (i : ℕ) (ports : List OutputPort)
      → OutputsOn net subnet ports
      → Exactly (length ports) IsSoundOutput ports
      → OutputsOn net subnet (tod_control_ports works to bind_index address cmd c ret i ports).0
  unfolding tod_control_ports
  control-OutputsOn net subnet ret i [] on v = tt
  control-OutputsOn net subnet ret i (port ∷ ports) (on, ons) (v, vs) =
      elim (Bool-cases (is_addressed address port)) [
        | inl asked ↦
            let (_, _, stays, _) = command-AreTables cmd c i port v.table v.six_bytes in
            rw asked (
              rw stays on,
              control-OutputsOn net subnet
                  (tod_reply_unless_failed (works i) to bind_index i (tod_command cmd c i port).0
                    ret).1
                  (suc i) ports ons vs,
            )
        | inr other ↦ rw other (on, control-OutputsOn net subnet ret (suc i) ports ons vs)
      ]

Exactly-length :
    (k : ℕ) (ports : List OutputPort)
    → Exactly k IsSoundOutput ports
    → Exactly (length ports) IsSoundOutput ports
Exactly-length zero [] v = tt
Exactly-length zero (x ∷ xs) v = elim v [ ]
Exactly-length (suc k) [] v = elim v [ ]
Exactly-length (suc k) (x ∷ xs) (v, vs) = (v, Exactly-length k xs vs)

-- A new table for the port `id`
abbrev pub with_table : ℕ → OutputPort → Tod → Node → Node
with_table id port tod n = record n { outputs = set n.outputs id (record port { port_tod = tod }) }

retabled-IsValid :
    (tod : Tod) (port : OutputPort) → IsValid port → IsValid (record port { port_tod = tod })
retabled-IsValid tod port v = ground arith

module _ (n : Node) (v : IsSoundNode n) where
  pub handle_tod_control-IsSoundNode :
      (handled : Bool) (works : ℕ → ℕ → Bool) (p : Packet) (s : RdmState)
      → IsSoundNode (handle_tod_control handled works p n s).0
  unfolding handle_tod_control
  handle_tod_control-IsSoundNode true works p s = v
  handle_tod_control-IsSoundNode false works p s = record {
    outputs_sound =
        control-Exactly works p.from n.bind_index (address_of (byte p 21) (byte p 23)) (byte p 22)
          s.rdm_init_c sent_ok 0 4 n.outputs v.outputs_sound;
    inputs_sound = v.inputs_sound;
    on_page = record {
      inputs_on = v.on_page.inputs_on;
      outputs_on =
          control-OutputsOn works p.from n.bind_index (address_of (byte p 21) (byte p 23))
            (byte p 22) s.rdm_init_c n.net_switch n.sub_switch sent_ok 0 n.outputs
            v.on_page.outputs_on (Exactly-length 4 n.outputs v.outputs_sound);
    };
  }

  -- A port whose table is exchanged for one that is valid
  pub with_table-IsSoundNode :
      (id : ℕ) (port : OutputPort) (tod : Tod)
      → get_elem? n.outputs id ≡ some port
      → Laws.IsValid tod
      → AreUids (uids tod)
      → IsSoundNode (with_table id port tod n)
  with_table-IsSoundNode id port tod e table six_bytes =
      let found = Exactly-get_elem? IsSoundOutput 4 id n.outputs port e v.outputs_sound in
      record {
        outputs_sound =
            set-Exactly IsSoundOutput 4 id n.outputs _
              (record {
                buffers = retabled-IsValid tod port found.buffers;
                table = table;
                six_bytes = six_bytes;
              })
              v.outputs_sound;
        inputs_sound = v.inputs_sound;
        on_page = record {
          inputs_on = v.on_page.inputs_on;
          outputs_on =
              set-OutputsOn n.net_switch n.sub_switch id n.outputs _
                (output-IsOn n.net_switch n.sub_switch id n.outputs port e v.on_page.outputs_on)
                v.on_page.outputs_on;
        };
      }

-- An input port after a send: what it keeps lies in its array.
pub send_dmx-IsSoundInput :
    (ips mode_on : Bool) (now i len : ℕ) (slots : List ℕ) (port : InputPort)
    → IsSoundInput port
    → IsSoundInput (artnet_send_dmx ips mode_on now i len slots port).0
unfolding artnet_send_dmx sent_dmx
send_dmx-IsSoundInput ips mode_on now i len slots port v =
    ground (arith, length-memcpy port.last_dmx_data slots len)

pub send_dmx_addr :
    (ips mode_on : Bool) (now i len : ℕ) (slots : List ℕ) (port : InputPort)
    → (artnet_send_dmx ips mode_on now i len slots port).0.port_addr ≡ port.port_addr
unfolding artnet_send_dmx sent_dmx
send_dmx_addr ips mode_on now i len slots port = ground arith

keepalive_step-IsSoundInput :
    (mode_on : Bool) (now i : ℕ) (port : InputPort)
    → IsSoundInput port
    → IsSoundInput (keepalive_step mode_on now i port).0
unfolding keepalive_step
keepalive_step-IsSoundInput mode_on now i port v =
    ground (
      arith,
      send_dmx-IsSoundInput true mode_on now i port.last_dmx_length port.last_dmx_data port v,
    )

keepalive_step_addr :
    (mode_on : Bool) (now i : ℕ) (port : InputPort)
    → (keepalive_step mode_on now i port).0.port_addr ≡ port.port_addr
unfolding keepalive_step
keepalive_step_addr mode_on now i port =
    ground (arith, send_dmx_addr true mode_on now i port.last_dmx_length port.last_dmx_data port)

module _ (mode_on : Bool) (now : ℕ) where
  pub keepalive-Exactly :
      (i k : ℕ) (ports : List InputPort)
      → Exactly k IsSoundInput ports
      → Exactly k IsSoundInput (keepalive mode_on now i ports).0
  unfolding keepalive
  keepalive-Exactly i zero [] v = tt
  keepalive-Exactly i zero (x ∷ xs) v = elim v [ ]
  keepalive-Exactly i (suc k) [] v = elim v [ ]
  keepalive-Exactly i (suc k) (port ∷ ports) (v, vs) =
      (keepalive_step-IsSoundInput mode_on now i port v, keepalive-Exactly (suc i) k ports vs)

  pub keepalive-InputsOn :
      (net subnet i : ℕ) (ports : List InputPort)
      → InputsOn net subnet ports
      → InputsOn net subnet (keepalive mode_on now i ports).0
  unfolding keepalive
  keepalive-InputsOn net subnet i [] on = tt
  keepalive-InputsOn net subnet i (port ∷ ports) (on, ons) = (
    rw (keepalive_step_addr mode_on now i port) on,
    keepalive-InputsOn net subnet (suc i) ports ons,
  )

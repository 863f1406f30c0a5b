-- ===== src/Node/Ports.antt =====
-- What the handlers of a node do to its four output ports together: the buffers stay as large as
-- they are, and a packet changes the ports of its own address alone.
pub mod Staged
use libartnet.Base.{
  ℕ, zero, suc, ◌+◌, ◌≤◌, ◌≡◌, refl, ◌∙◌, ap, arith, Bool, true, false, List, [], ◌∷◌, not,
}
use Prim.{Unit, tt}
use libartnet.Base.{
  get_elem?, Option, none, some, take, drop, min, length-take, length-drop, length-memcpy,
}
use libartnet.Base.{Bool-cases, inl, inr, if_keeps, length-replicate, ◌==◌, ◌&&◌}
use libartnet.Base
use libartnet.Port.{when, dmx_called, OutputPort, Event, Env, artnet_dmx_length}
use libartnet.Port.Sync.{SameOutput, dmx_port-SameOutput}
use libartnet.Base.{take-memcpy, memcpy, ◌||◌, if◌then◌else◌}
use libartnet.Port.{flush_sync_output, commit_output_data, is_merging}
use libartnet.Port.Bounds.{IsValid, IsPacket, dmx_port-IsValid, flush_sync_output-IsValid}
use libartnet.Packet.{Packet, short}
use libartnet.Node.{
  Node, env_of, each_port, universe, dmx_packet, dmx_step, handle_dmx, accepts_sync, sync_step,
}
use libartnet.Node.{
  handle_sync, nzs_port, nzs_ports, handle_nzs, FailsafeMode, hold, zeros, full, scene,
}
use libartnet.Node.{failsafe_output, failsafe_step, unsync_step, check_output_timeouts, any_accepts}

-- Every output port is valid.
abbrev pub AllValid : List OutputPort → Type 0
AllValid [] = Unit {0}
AllValid (port ∷ ports) = IsValid port × AllValid ports

-- The union of the packet holds a whole ArtDmx.
abbrev pub IsWhole : Packet → Type 0
IsWhole p = 530 ≤ Base.length p.bytes

pub dmx_packet-IsPacket : (p : Packet) → IsWhole p → IsPacket (dmx_packet p)
dmx_packet-IsPacket p w = record {
  slots_size =
      length-take artnet_dmx_length (drop 18 p.bytes) ∙ ground (arith, length-drop 18 p.bytes);
  length_fits = omega arith;
}

each_port-AllValid :
    (step : ℕ → OutputPort → OutputPort × List Event)
    → ((i : ℕ) (port : OutputPort) → IsValid port → IsValid (step i port).0)
    → (i : ℕ) (ports : List OutputPort) → AllValid ports
    → AllValid (each_port step i ports).0
unfolding each_port
each_port-AllValid step keeps i [] v = tt
each_port-AllValid step keeps i (port ∷ ports) (v, vs) =
    (keeps i port v, each_port-AllValid step keeps (suc i) ports vs)

pub dmx_step-IsValid :
    (env : Env) (p : Packet)
    → IsWhole p
    → (i : ℕ) (port : OutputPort) → IsValid port
    → IsValid (dmx_step env p i port).0
unfolding dmx_step
dmx_step-IsValid env p w i port v =
    if_keeps (λ (r : OutputPort × List Event). IsValid r.0) _
      (dmx_port-IsValid env (dmx_packet p) i port (dmx_packet-IsPacket p w) v) v

pub sync_step-IsValid :
    (dmx_c : Bool) (from i : ℕ) (port : OutputPort)
    → IsValid port
    → IsValid (sync_step dmx_c from i port).0
unfolding sync_step
sync_step-IsValid dmx_c from i port v =
    if_keeps (λ (r : OutputPort × List Event). IsValid r.0) _
      (flush_sync_output-IsValid dmx_c i port v) v

pub nzs_port-IsValid :
    (now : ℕ) (p : Packet) (port : OutputPort) → IsValid port → IsValid (nzs_port now p port)
unfolding nzs_port
nzs_port-IsValid now p port v = ground (
  arith,
  length-memcpy port.buffer (take artnet_dmx_length (drop 18 p.bytes))
      (min (short p 16 17) artnet_dmx_length),
)

nzs_ports-AllValid :
    (dmx_c : Bool) (now : ℕ) (p : Packet) (i : ℕ) (ports : List OutputPort)
    → AllValid ports
    → AllValid (nzs_ports dmx_c now p i ports).0
unfolding nzs_ports
nzs_ports-AllValid dmx_c now p i [] v = tt
nzs_ports-AllValid dmx_c now p i (port ∷ ports) (v, vs) =
    if_keeps (λ (r : List OutputPort × List Event). AllValid r.0)
      (port.port_enabled && universe p == port.port_addr)
      {x = (nzs_port now p port ∷ ports, when dmx_c (dmx_called i))}
      {y = (
        port ∷ (nzs_ports dmx_c now p (suc i) ports).0,
        (nzs_ports dmx_c now p (suc i) ports).1,
      )}
      (nzs_port-IsValid now p port v, vs) (v, nzs_ports-AllValid dmx_c now p (suc i) ports vs)

failsafe_output-IsValid :
    (mode : FailsafeMode) (port : OutputPort) → IsValid port → IsValid (failsafe_output mode port)
unfolding failsafe_output
failsafe_output-IsValid hold port v = v
failsafe_output-IsValid zeros port v = ground (arith, length-replicate {A = ℕ} artnet_dmx_length 0)
failsafe_output-IsValid full port v = ground (arith, length-replicate {A = ℕ} artnet_dmx_length 255)
failsafe_output-IsValid scene port v =
    ground (arith, length-memcpy port.buffer port.failsafe_data artnet_dmx_length)

pub failsafe_step-IsValid :
    (mode : FailsafeMode) (now i : ℕ) (port : OutputPort)
    → IsValid port
    → IsValid (failsafe_step mode now i port).0
unfolding failsafe_step
failsafe_step-IsValid mode now i port v =
    if_keeps (λ (r : OutputPort × List Event). IsValid r.0) _
      (triggered (failsafe_output-IsValid mode port v)) v
  where
    triggered : {q : OutputPort} → IsValid q → IsValid (record q { failsafe_triggered = true })
    triggered w = ground arith

pub unsync_step-IsValid :
    (dmx_c : Bool) (i : ℕ) (port : OutputPort) → IsValid port → IsValid (unsync_step dmx_c i port).0
unfolding unsync_step
unsync_step-IsValid dmx_c i port v =
    if_keeps (λ (r : OutputPort × List Event). IsValid r.0) port.sync_pending
      (ground (arith, length-memcpy port.buffer port.sync_data port.sync_length)) v

-- One step of a node: a packet handled, or the time-outs checked.
pub data Step : Node → Node → Type 0 where
  dmx_step_of :
      (handled : Bool) (now : ℕ) (p : Packet) (n : Node)
      → IsWhole p
      → Step n (handle_dmx handled now p n).0
  sync_step_of :
      (handled : Bool) (now : ℕ) (p : Packet) (n : Node) → Step n (handle_sync handled now p n).0
  nzs_step_of :
      (handled : Bool) (now : ℕ) (p : Packet) (n : Node) → Step n (handle_nzs handled now p n).0
  timeout_step : (now : ℕ) (n : Node) → Step n (check_output_timeouts now n).0

-- A run of a node.
pub data Run : Node → Node → Type 0 where
  done : (n : Node) → Run n n
  then_step : {n m k : Node} → Run n m → Step m k → Run n k

handle_dmx-AllValid :
    (handled : Bool) (now : ℕ) (p : Packet) (n : Node)
    → IsWhole p
    → AllValid n.outputs
    → AllValid (handle_dmx handled now p n).0.outputs
unfolding handle_dmx
handle_dmx-AllValid handled now p n w v =
    if_keeps (λ (r : Node × List Event). AllValid r.0.outputs) handled v
      (each_port-AllValid _ (dmx_step-IsValid (env_of now n) p w) 0 n.outputs v)

handle_sync-AllValid :
    (handled : Bool) (now : ℕ) (p : Packet) (n : Node)
    → AllValid n.outputs
    → AllValid (handle_sync handled now p n).0.outputs
unfolding handle_sync
handle_sync-AllValid handled now p n v =
    let after = each_port-AllValid _ (sync_step-IsValid n.dmx_c p.from) 0 n.outputs v in
    if_keeps (λ (r : Node × List Event). AllValid r.0.outputs) handled v
      (if_keeps (λ (r : Node × List Event). AllValid r.0.outputs) _ after after)

handle_nzs-AllValid :
    (handled : Bool) (now : ℕ) (p : Packet) (n : Node)
    → AllValid n.outputs
    → AllValid (handle_nzs handled now p n).0.outputs
unfolding handle_nzs
handle_nzs-AllValid handled now p n v =
    if_keeps (λ (r : Node × List Event). AllValid r.0.outputs) handled v
      (nzs_ports-AllValid n.dmx_c now p 0 n.outputs v)

check_output_timeouts-AllValid :
    (now : ℕ) (n : Node) → AllValid n.outputs → AllValid (check_output_timeouts now n).0.outputs
unfolding check_output_timeouts
check_output_timeouts-AllValid now n v =
    let safe = each_port-AllValid _ (failsafe_step-IsValid n.failsafe_mode now) 0 n.outputs v in
    if_keeps (λ (r : Node × List Event). AllValid r.0.outputs) _
      (each_port-AllValid _ (unsync_step-IsValid n.dmx_c) 0 _ safe) safe

Step-AllValid : {n m : Node} → Step n m → AllValid n.outputs → AllValid m.outputs
Step-AllValid (dmx_step_of handled now p n w) v = handle_dmx-AllValid handled now p n w v
Step-AllValid (sync_step_of handled now p n) v = handle_sync-AllValid handled now p n v
Step-AllValid (nzs_step_of handled now p n) v = handle_nzs-AllValid handled now p n v
Step-AllValid (timeout_step now n) v = check_output_timeouts-AllValid now n v

-- Over any run of ArtDmx, ArtSync and ArtNzs packets and of time-outs, in any order, each output
-- port keeps buffers of 512 bytes and lengths of at most 512. A packet's union holds at least the
-- 530 bytes of an ArtDmx; what its bytes and its length field say does not matter.
Run-AllValid : {n m : Node} → Run n m → AllValid n.outputs → AllValid m.outputs
Run-AllValid (done n) v = v
Run-AllValid (then_step run step) v = Step-AllValid step (Run-AllValid run v)

pub get_elem?-each_port :
    (step : ℕ → OutputPort → OutputPort × List Event) (i j : ℕ) (ports : List OutputPort)
    (port : OutputPort)
    → get_elem? ports j ≡ some port
    → get_elem? (each_port step i ports).0 j ≡ some (step (i + j) port).0
unfolding each_port
get_elem?-each_port step i j [] port e = absurd (cc e)
get_elem?-each_port step i zero (x ∷ ports) port e =
    let same : x ≡ port = cc e in
    let here : i ≡ i + 0 = omega arith in
    ap (λ q. some (step i q).0) same ∙ ap (λ k. some (step k port).0) here
get_elem?-each_port step i (suc j) (x ∷ ports) port e =
    let next : suc i + j ≡ i + suc j = omega arith in
    get_elem?-each_port step (suc i) j ports port e ∙ ap (λ k. some (step k port).0) next

-- An ArtDmx packet leaves a port as it is, where the port is off or its Port-Address is not the
-- packet's: the merge state, the buffers and the counters are all untouched.
pub handle_dmx_other :
    (handled : Bool) (now : ℕ) (p : Packet) (n : Node) (j : ℕ) (port : OutputPort)
    → get_elem? n.outputs j ≡ some port
    → (universe p == port.port_addr && port.port_enabled) ≡ false
    → get_elem? (handle_dmx handled now p n).0.outputs j ≡ some port
unfolding handle_dmx dmx_step
handle_dmx_other true now p n j port at other = at
handle_dmx_other false now p n j port at other =
    get_elem?-each_port (dmx_step (env_of now n) p) 0 j n.outputs port at ∙ rw other refl

-- In sync mode no ArtDmx packet changes what an output port puts out, matching or not.
pub handle_dmx_sync :
    (handled : Bool) (now : ℕ) (p : Packet) (n : Node) (j : ℕ) (port : OutputPort)
    → n.sync_mode ≡ true
    → get_elem? n.outputs j ≡ some port
    → (after : OutputPort) × (get_elem? (handle_dmx handled now p n).0.outputs j ≡ some after)
      × SameOutput port after
unfolding handle_dmx dmx_step
handle_dmx_sync true now p n j port on at = (port, at, (refl, refl))
handle_dmx_sync false now p n j port on at = (
  (dmx_step (env_of now n) p (0 + j) port).0,
  get_elem?-each_port (dmx_step (env_of now n) p) 0 j n.outputs port at,
  if_keeps (λ (r : OutputPort × List Event). SameOutput port r.0) _
      (dmx_port-SameOutput (env_of now n) (dmx_packet p) (0 + j) port on) (refl, refl),
)
